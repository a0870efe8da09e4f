-- ===== src/Http/Exposure.antt =====
-- What Register and Login of auth_handler.go show of the user: entity.User has no tags, so that
-- encoding/json writes each of its fields.
use go_agent_api.Base.{
  String, Option, none, some, [], ◌∷◌, ◌<◌, ◌≡◌, refl, ap, sym, ◌∙◌, arith, first, Bool-cases, inl,
  inr,
}
use go_agent_api.Base.Exec.{Result, ok, err}
use go_agent_api.Entity.Any.{Any, text}
use go_agent_api.Entity.User.{User}
use go_agent_api.Store.World.{World}
use go_agent_api.Store.Users
use go_agent_api.Auth.CreateUser.{create_user}
use go_agent_api.Auth.Login.{LoginOutput, login}
use go_agent_api.Auth.Granting.{login_ok}
use go_agent_api.Auth.Registering.{create_user_ok}
use go_agent_api.Http.Request.{Request, LoginRequest, RegisterRequest}
use go_agent_api.Http.Response.{
  Handler, Payload, success, user_created, logged_in, json, error, error_with, answer_of, reply,
  on_decoded,
}
use go_agent_api.Http.App.{App, Draws}
use go_agent_api.Http.Handlers.{register, login_user}
use go_agent_api.Http.Json.{Encoder, encodable, member, value_at}
use go_agent_api.Http.Json.Entities.{encode_user}
use go_agent_api.Http.Json.Payloads.{encode, envelope, body_json}

-- The handlers that answer with a user, at a request that names an email.
pub data SignsIn (app : App) (draws : Draws) (request : Request)
    : Handler World → String → Type 0 where
  registers :
      {req : RegisterRequest}
      → app.codec.register request.body ≡ some req
      → SignsIn app draws request (register app draws request) req.email
  logs_in :
      {req : LoginRequest}
      → app.codec.login request.body ≡ some req
      → SignsIn app draws request (login_user app draws request) req.email

-- A JSON value that shows the hash of the password of the user who is stored under an email.
pub record Exposes (email : String) (w : World) (j : Any) : Type 0 where
  pub shown : User
  pub stored : first (Users.has_email email) w.users ≡ some shown
  pub hash : value_at ("data" ∷ "user" ∷ "PasswordHash" ∷ []) j ≡ some (text shown.password_hash)

value_or : Any → Option Any → Any
value_or other none = other
value_or other (some v) = v

success_json :
    (enc : Encoder) (p : Payload) {j : Any}
    → body_json enc (success p) ≡ some j
    → envelope (encode enc p) ≡ j
unfolding body_json value_or
success_json enc p {j} e = elim (Bool-cases (encodable enc (encode enc p))) [
  | inl y ↦ ap (value_or j) (rw y at e)
  | inr n ↦ absurd (ground (arith, e, n))
]

module _ (enc : Encoder) (app : App) (draws : Draws) (request : Request) (w : World) where
  logged_in-Exposes :
      (req : LoginRequest) (out : Result LoginOutput × World) (j : Any)
      → login app.lib app.jwt_manager draws.id draws.nonce draws.now
          (record { email = req.email; password = req.password })
          w
        ≡ out
      → (answer_of 200 logged_in (error_with 401 "LOGIN_ERROR") out.0).status < 400
      → body_json enc (answer_of 200 logged_in (error_with 401 "LOGIN_ERROR") out.0).body ≡ some j
      → Exposes req.email out.1 j
  unfolding json error value_at member encode encode_user
  logged_in-Exposes req (ok o, v) j p status body =
      let known =
        login_ok app.lib app.jwt_manager draws.id draws.nonce draws.now
          (record { email = req.email; password = req.password }) w v o p in
      record {
        shown = o.user;
        stored = ap (first (Users.has_email req.email)) known.users ∙ known.known;
        hash =
            ap (value_at ("data" ∷ "user" ∷ "PasswordHash" ∷ []))
              (sym (success_json enc (logged_in o) body));
      }
  logged_in-Exposes req (err x, v) j p status body = absurd (omega (arith, status))

  registered-Exposes :
      (req : RegisterRequest) (out : Result User × World) (j : Any)
      → create_user app.lib draws.id draws.now
          (record { email = req.email; password = req.password; name = req.name })
          w
        ≡ out
      → (answer_of 201 user_created (error_with 400 "REGISTER_ERROR") out.0).status < 400
      → body_json enc (answer_of 201 user_created (error_with 400 "REGISTER_ERROR") out.0).body
        ≡ some j
      → Exposes req.email out.1 j
  unfolding json error value_at member encode encode_user
  registered-Exposes req (ok u, v) j p status body =
      let (_, _, _, found, _, _, _) =
        create_user_ok app.lib draws.id draws.now
          (record { email = req.email; password = req.password; name = req.name }) w v u p in
      record {
        shown = u;
        stored = found;
        hash =
            ap (value_at ("data" ∷ "user" ∷ "PasswordHash" ∷ []))
              (sym (success_json enc (user_created u) body));
      }
  registered-Exposes req (err x, v) j p status body = absurd (omega (arith, status))

  -- A registration or a login that is answered with a status below 400, and whose answer the
  -- encoder accepts, shows the stored hash of the password of the user with the request's email.
  pub SignsIn-Exposes :
      (h : Handler World) (email : String) (j : Any)
      → SignsIn app draws request h email
      → (h w).0.status < 400
      → body_json enc (h w).0.body ≡ some j
      → Exposes email (h w).1 j
  unfolding register login_user on_decoded reply
  SignsIn-Exposes h email j (registers {req} e) status body =
      rw e (registered-Exposes req _ j refl (rw e at status) (rw e at body))
  SignsIn-Exposes h email j (logs_in {req} e) status body =
      rw e (logged_in-Exposes req _ j refl (rw e at status) (rw e at body))
