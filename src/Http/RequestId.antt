-- ===== src/Http/RequestId.antt =====
-- internal/infrastructure/http/middleware/requestid.go, which no router installs.
use go_agent_api.Base.{String, ◌∷◌, str_eq, if◌then◌else◌}
use go_agent_api.Http.Response.{Handler}

module _ {S : Type 0} where
  -- RequestID; `given` is the header "X-Request-ID", `drawn` what uuid.New() gives.
  unfoldable pub request_id : String → String → (String → Handler S) → Handler S
  request_id given drawn next s =
      let id = if str_eq given "" then drawn else given in
      let (r, s') = next id s in (record r { headers = ("X-Request-ID", id) ∷ r.headers }, s')
