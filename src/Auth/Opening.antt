-- ===== src/Auth/Opening.antt =====
-- Validations, of validate_token.go, of the texts that a login returned.
use go_agent_api.Base.{
  ℕ, String, true, false, ==_self, some, [], ◌≡◌, refl, ap, ◌∙◌, arith, first, ◌+◌, ◌<◌, ◌≤◌,
}
use package.text.Mathlib.Text.{starts_with}
use go_agent_api.Base.Exec.{ok, ◌>>=◌}
use go_agent_api.Entity.User.{User}
use go_agent_api.Entity.Token.{Token, is_valid, new_api_key}
use go_agent_api.Store.World.{World}
use go_agent_api.Store.Users
use go_agent_api.Store.Tokens
use go_agent_api.Store.Writes.{read_one_found, first-append_new}
use go_agent_api.Auth.Jwt.{
  Library, JwtManager, Signs, Claims, claims_for, validate_token, generate_access_token,
  generate_refresh_token,
}
use go_agent_api.Auth.Login.{LoginInput, LoginOutput, week, session_token, login}
use go_agent_api.Auth.Validate.{validate, validate_jwt, validate_session, check_session}
use go_agent_api.Auth.Granting.{LoggedIn, login_ok}

find_user :
    (user : User) (v : World)
    → v.faults ≡ []
    → first (Users.has_id user.id) v.users ≡ some user
    → Users.find_by_id user.id v ≡ (ok user, v)
unfolding Users.find_by_id
find_user user v quiet stored = read_one_found _ _ _ v user quiet stored

find_token :
    (id : ℕ) (token : Token) (v : World)
    → v.faults ≡ []
    → first (Tokens.has_id id) v.tokens ≡ some token
    → Tokens.find_by_id id v ≡ (ok token, v)
unfolding Tokens.find_by_id
find_token id token v quiet found = read_one_found _ _ _ v token quiet found

-- A token that is stored, valid, and of an active stored user is accepted.
check_session_accepts :
    (now : ℕ) (text : String) (token : Token) (user : User) (v : World)
    → v.faults ≡ []
    → is_valid now token ≡ true
    → first (Users.has_id user.id) v.users ≡ some user
    → user.is_active ≡ true
    → check_session now text token user.id v
      ≡ (ok (record { user = user; token = token; touches = token.id }), v)
unfolding check_session ◌>>=◌
check_session_accepts now text token user v quiet valid stored active =
    rw (valid, find_user user v quiet stored, active) refl

validate_session_accepts :
    (now : ℕ) (claims : Claims) (token : Token) (user : User) (v : World)
    → v.faults ≡ []
    → claims.user_id ≡ user.id
    → first (Tokens.has_id claims.token_id) v.tokens ≡ some token
    → is_valid now token ≡ true
    → first (Users.has_id user.id) v.users ≡ some user
    → user.is_active ≡ true
    → validate_session now claims v
      ≡ (ok (record { user = user; token = token; touches = token.id }), v)
unfolding validate_session ◌>>=◌
validate_session_accepts now claims token user v quiet same found valid stored active =
    rw (find_token claims.token_id token v quiet found, same)
      (check_session_accepts now "token is expired or revoked" token user v quiet valid stored
        active)

session_valid :
    (lib : Library) (token_id : ℕ) (nonce : String) (now later : ℕ) (user : User)
    → later ≤ now + week
    → is_valid later (session_token lib token_id nonce now user) ≡ true
unfolding is_valid session_token new_api_key
session_valid lib token_id nonce now later user p = ground (arith, p)

verified :
    (lib : Library) (m : JwtManager) (c : Claims) (raw : String) (later : ℕ)
    → Signs lib
    → lib.sign m.secret c ≡ ok raw
    → later < c.expires_at
    → validate_token lib m later raw ≡ ok c
unfolding validate_token
verified lib m c raw later signs signed alive =
    rw (signs.parses m.secret c raw later signed alive) refl

-- Where `raw` is signed for the user and the token of a login, and does not look like an API key, a
-- validation of it grants the session of that login.
unfoldable pub Opens :
    Library → JwtManager → ℕ → String → ℕ → ℕ → World → LoginOutput → String → Type 0
Opens lib m token_id nonce now later v o raw = validate lib m later raw v ≡ (
  ok (record {
    user = o.user;
    token = session_token lib token_id nonce now o.user;
    touches = token_id;
  }),
  v,
)

login-Opens :
    (lib : Library) (m : JwtManager) (token_id : ℕ) (nonce : String) (now later : ℕ)
    (token_type : String) (ttl : ℕ) (input : LoginInput) (w v : World) (o : LoginOutput)
    (raw : String)
    → Signs lib
    → LoggedIn lib m now input (session_token lib token_id nonce now o.user) w v o
    → v.faults ≡ []
    → first (Users.has_id o.user.id) w.users ≡ some o.user
    → lib.sign m.secret (claims_for lib m now token_type ttl o.user.id token_id) ≡ ok raw
    → starts_with raw "sk-" ≡ false
    → later < lib.numeric_date (now + ttl)
    → later ≤ now + week
    → Opens lib m token_id nonce now later v o raw
unfolding Opens validate validate_jwt ◌>>=◌ session_token new_api_key
login-Opens lib m token_id nonce now later token_type ttl input w v o raw signs l quiet stored made
      bearer alive in_week =
    let token = session_token lib token_id nonce now o.user in
    let c = claims_for lib m now token_type ttl o.user.id token_id in
    rw (bearer, verified lib m c raw later signs made alive)
      (validate_session_accepts later c token o.user v quiet refl
        (ap (first (Tokens.has_id token_id)) l.tokens
          ∙ first-append_new (Tokens.has_id token_id) w.tokens token l.fresh (==_self token_id))
        (session_valid lib token_id nonce now later o.user in_week)
        (ap (first (Users.has_id o.user.id)) l.users ∙ stored) l.active)

-- If a login succeeds, the signing library does what it promises, the access token it returned does
-- not look like an API key, and the user's id finds that user, then a validation of that token,
-- before it and the session expire and where no statement is refused, grants a session of that user
-- with the token that the login stored, and changes nothing.
pub login-validate :
    (lib : Library) (m : JwtManager) (token_id : ℕ) (nonce : String) (now later : ℕ)
    (input : LoginInput) (w v : World) (o : LoginOutput)
    → Signs lib
    → login lib m token_id nonce now input w ≡ (ok o, v)
    → v.faults ≡ []
    → first (Users.has_id o.user.id) w.users ≡ some o.user
    → starts_with o.access_token "sk-" ≡ false
    → later < lib.numeric_date (now + m.access_token_ttl)
    → later ≤ now + week
    → Opens lib m token_id nonce now later v o o.access_token
login-validate lib m token_id nonce now later input w v o signs p quiet stored bearer alive
      in_week =
    let l = login_ok lib m token_id nonce now input w v o p in
    login-Opens lib m token_id nonce now later "access" m.access_token_ttl input w v o
      o.access_token signs l quiet stored
      (unfold generate_access_token session_token new_api_key in l.access) bearer alive in_week

-- Under the same conditions on the refresh token that a login returned, a validation accepts it as
-- it accepts the access token: the type in the claims is not looked at.
pub login-validate_refresh :
    (lib : Library) (m : JwtManager) (token_id : ℕ) (nonce : String) (now later : ℕ)
    (input : LoginInput) (w v : World) (o : LoginOutput)
    → Signs lib
    → login lib m token_id nonce now input w ≡ (ok o, v)
    → v.faults ≡ []
    → first (Users.has_id o.user.id) w.users ≡ some o.user
    → starts_with o.refresh_token "sk-" ≡ false
    → later < lib.numeric_date (now + m.refresh_token_ttl)
    → later ≤ now + week
    → Opens lib m token_id nonce now later v o o.refresh_token
login-validate_refresh lib m token_id nonce now later input w v o signs p quiet stored bearer alive
      in_week =
    let l = login_ok lib m token_id nonce now input w v o p in
    login-Opens lib m token_id nonce now later "refresh" m.refresh_token_ttl input w v o
      o.refresh_token signs l quiet stored
      (unfold generate_refresh_token session_token new_api_key in l.refreshes) bearer alive in_week
