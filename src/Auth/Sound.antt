-- ===== src/Auth/Sound.antt =====
-- What a validation, of validate_token.go, and a refresh, of refresh_token.go, have found.
use go_agent_api.Base.{
  ℕ, String, Bool, true, false, some, List, ◌≡◌, ap, ◌∙◌, sym, first, eq_iff, inl, inr, Bool-cases,
}
use package.text.Mathlib.Text.{starts_with}
use mathlib.Core.Path.{subst}
use go_agent_api.Base.Exec.{Result, ok}
use go_agent_api.Base.Binds.{bind_ok, wrap_ok, replace_ok, require_ok, pure_ok}
use go_agent_api.Entity.User.{User}
use go_agent_api.Entity.Token.{Token, is_valid}
use go_agent_api.Store.World.{World}
use go_agent_api.Store.Users
use go_agent_api.Store.Tokens
use go_agent_api.Store.Reads.{fated, user_by_id, token_by_id, token_by_hash}
use go_agent_api.Auth.Jwt.{
  Library, JwtManager, Claims, validate_token, hash_token, generate_access_token,
}
use go_agent_api.Auth.Login.{given}
use go_agent_api.Auth.Validate.{
  ValidateTokenResult, check_session, validate_api_key, validate_session, validate_jwt, validate,
}
use go_agent_api.Auth.Refresh.{RefreshTokenOutput, refresh_session, refresh}

-- The worlds that differ in the fates of statements alone.
pub record SameRows (w v : World) : Type 0 where
  pub fates : List Bool
  pub path : v ≡ fated w fates

pub SameRows-trans : {u v w : World} → SameRows u v → SameRows v w → SameRows u w
SameRows-trans p q = record { fates = q.fates; path = q.path ∙ ap (λ x. fated x q.fates) p.path }

-- A session that was checked: its token is valid at the time, its user is stored and active.
pub record Checked (now : ℕ) (token : Token) (user_id : ℕ) (w v : World) (r : ValidateTokenResult)
    : Type 0 where
  pub valid : is_valid now token ≡ true
  pub same_token : r.token ≡ token
  pub stored : first (Users.has_id user_id) w.users ≡ some r.user
  pub active : r.user.is_active ≡ true
  pub touches : r.touches ≡ token.id
  pub rows : SameRows w v

check_session_ok :
    (now : ℕ) (t : String) (token : Token) (user_id : ℕ) (w v : World) (r : ValidateTokenResult)
    → check_session now t token user_id w ≡ (ok r, v)
    → Checked now token user_id w v r
unfolding check_session
check_session_ok now t token user_id w v r p =
    let (a, w1, p1, q1) = bind_ok _ _ w p in
    let (valid, e1) = require_ok _ _ w p1 in
    let (user, w2, p2, q2) = bind_ok _ _ w1 q1 in
    let (found, (ys, e2)) = user_by_id user_id w1 (replace_ok _ _ w1 p2) in
    let (b, w3, p3, q3) = bind_ok _ _ w2 q2 in
    let (active, e3) = require_ok _ _ w2 p3 in
    let (e, e4) = pure_ok _ w3 q3 in
    record {
      valid = valid;
      same_token = ap (λ (x : ValidateTokenResult). x.token) (sym e);
      stored =
          ap (λ (x : World). first (Users.has_id user_id) x.users) e1
          ∙ (found ∙ ap (λ (x : ValidateTokenResult). some x.user) e);
      active = ap (λ (x : ValidateTokenResult). x.user.is_active) (sym e) ∙ active;
      touches = ap (λ (x : ValidateTokenResult). x.touches) (sym e);
      rows = record { fates = ys; path = sym e4 ∙ (sym e3 ∙ (e2 ∙ ap (λ x. fated x ys) (sym e1))) };
    }

-- A session that was checked after a search of a token was checked in the rows before it.
from_rows :
    {now : ℕ} {token : Token} {id : ℕ} {w w1 v : World} {r : ValidateTokenResult} (ys : List Bool)
    → w1 ≡ fated w ys
    → Checked now token id w1 v r
    → Checked now token id w v r
from_rows {id = id} ys e c = record {
  valid = c.valid;
  same_token = c.same_token;
  stored = ap (λ (x : World). first (Users.has_id id) x.users) (sym e) ∙ c.stored;
  active = c.active;
  touches = c.touches;
  rows = SameRows-trans (record { fates = ys; path = e }) c.rows;
}

-- The route of an API key ends with the stored token of its hash, of whose user the session is.
validate_api_key_ok :
    (lib : Library) (now : ℕ) (key : String) (w v : World) (r : ValidateTokenResult)
    → validate_api_key lib now key w ≡ (ok r, v)
    → (first (Tokens.has_hash (hash_token lib key)) w.tokens ≡ some r.token)
      × Checked now r.token r.token.user_id w v r
unfolding validate_api_key
validate_api_key_ok lib now key w v r p =
    let (token, w1, p1, q1) = bind_ok _ _ w p in
    let (found, (ys, e)) = token_by_hash (hash_token lib key) w (replace_ok _ _ w p1) in
    let c = check_session_ok now _ token token.user_id w1 v r q1 in
    let d = subst (λ t. Checked now t t.user_id w1 v r) (sym c.same_token) c in
    (found ∙ ap some (sym c.same_token), from_rows ys e d)

validate_session_ok :
    (now : ℕ) (claims : Claims) (w v : World) (r : ValidateTokenResult)
    → validate_session now claims w ≡ (ok r, v)
    → (first (Tokens.has_id claims.token_id) w.tokens ≡ some r.token)
      × Checked now r.token claims.user_id w v r
unfolding validate_session
validate_session_ok now claims w v r p =
    let (token, w1, p1, q1) = bind_ok _ _ w p in
    let (found, (ys, e)) = token_by_id claims.token_id w (replace_ok _ _ w p1) in
    let c = check_session_ok now _ token claims.user_id w1 v r q1 in
    let d = subst (λ t. Checked now t claims.user_id w1 v r) (sym c.same_token) c in
    (found ∙ ap some (sym c.same_token), from_rows ys e d)

pub given_ok :
    {A : Type 0} (r : Result A) (w : World) {a : A} {v : World}
    → given r w ≡ (ok a, v)
    → (r ≡ ok a) × (w ≡ v)
given_ok r w p = (ap (λ x. x.0) p, ap (λ x. x.1) p)

-- What stands behind a session that was granted for a bearer text.
pub data Grounds (lib : Library) (m : JwtManager) (now : ℕ) (raw : String) (w : World)
    (r : ValidateTokenResult) : Type 0 where
  -- an API key, whose hash is stored
  key :
      starts_with raw "sk-" ≡ true
      → first (Tokens.has_hash (hash_token lib raw)) w.tokens ≡ some r.token
      → first (Users.has_id r.token.user_id) w.users ≡ some r.user
      → Grounds lib m now raw w r
  -- a signed text, whose claims name the stored token and the user
  signed :
      (claims : Claims)
      → starts_with raw "sk-" ≡ false
      → validate_token lib m now raw ≡ ok claims
      → first (Tokens.has_id claims.token_id) w.tokens ≡ some r.token
      → first (Users.has_id claims.user_id) w.users ≡ some r.user
      → Grounds lib m now raw w r

-- A validation that succeeds hands out a token that is valid at the time and an active user, both
-- stored, either found by the hash of an API key or named by the claims of a signed text that
-- verified; it schedules the touch of that token, and changes no row.
pub validate_sound :
    (lib : Library) (m : JwtManager) (now : ℕ) (raw : String) (w v : World)
    (r : ValidateTokenResult)
    → validate lib m now raw w ≡ (ok r, v)
    → Grounds lib m now raw w r
      × (is_valid now r.token ≡ true)
      × (r.user.is_active ≡ true)
      × (r.touches ≡ r.token.id)
      × SameRows w v
unfolding validate validate_jwt
validate_sound lib m now raw w v r p = elim (Bool-cases (starts_with raw "sk-")) [
  | inl e ↦
      let (found, c) = validate_api_key_ok lib now raw w v r (rw e at p) in
      (key e found c.stored, c.valid, c.active, c.touches, c.rows)
  | inr e ↦
      let (claims, w1, p1, q1) = bind_ok _ _ w (rw e at p) in
      let (verified, e1) = given_ok _ w (wrap_ok _ _ w p1) in
      let (found, c) =
        validate_session_ok now claims w v r
          (subst (λ u. validate_session now claims u ≡ (ok r, v)) (sym e1) q1) in
      (signed claims e verified found c.stored, c.valid, c.active, c.touches, c.rows)
]

-- A refresh that succeeds was given a text that verifies, whose claims are of the type "refresh"
-- and name a stored token that is valid at the time and a stored active user; the access token
-- handed out is the one generated for that user and that token, and no row changes.
pub refresh_sound :
    (lib : Library) (m : JwtManager) (now : ℕ) (raw : String) (w v : World) (r : RefreshTokenOutput)
    → refresh lib m now raw w ≡ (ok r, v)
    → (claims : Claims) × (token : Token) × (user : User) × (validate_token lib m now raw
        ≡ ok claims)
      × (claims.token_type ≡ "refresh")
      × (first (Tokens.has_id claims.token_id) w.tokens ≡ some token)
      × (is_valid now token ≡ true)
      × (first (Users.has_id claims.user_id) w.users ≡ some user)
      × (user.is_active ≡ true)
      × (generate_access_token lib m now user.id token.id ≡ ok r.access_token)
      × SameRows w v
unfolding refresh refresh_session
refresh_sound lib m now raw w v r p =
    let (claims, w1, p1, q1) = bind_ok _ _ w p in
    let (verified, e1) = given_ok _ w (wrap_ok _ _ w p1) in
    let (_, w2, p2, q2) = bind_ok _ _ w1 q1 in
    let (kind, e2) = require_ok _ _ w1 p2 in
    let (token, w3, p3, q3) = bind_ok _ _ w2 q2 in
    let (found, (ys, e3)) = token_by_id claims.token_id w2 (replace_ok _ _ w2 p3) in
    let (_, w4, p4, q4) = bind_ok _ _ w3 q3 in
    let (valid, e4) = require_ok _ _ w3 p4 in
    let (user, w5, p5, q5) = bind_ok _ _ w4 q4 in
    let (stored, (zs, e5)) = user_by_id claims.user_id w4 (replace_ok _ _ w4 p5) in
    let (_, w6, p6, q6) = bind_ok _ _ w5 q5 in
    let (active, e6) = require_ok _ _ w5 p6 in
    let (access, w7, p7, q7) = bind_ok _ _ w6 q6 in
    let (made, e7) = given_ok _ w6 (wrap_ok _ _ w6 p7) in
    let (e8, e9) = pure_ok _ w7 q7 in
    let start = e1 ∙ e2 in
    let rest =
      SameRows-trans (record { fates = ys; path = e3 ∙ ap (λ x. fated x ys) (sym start) })
        (record {
          fates = zs;
          path = sym e9 ∙ sym e7 ∙ sym e6 ∙ e5 ∙ ap (λ x. fated x zs) (sym e4);
        }) in
    (
      claims,
      token,
      user,
      verified,
      (eq_iff claims.token_type "refresh").0 kind,
      ap (λ (x : World). first (Tokens.has_id claims.token_id) x.tokens) start ∙ found,
      valid,
      ap (λ (x : World). first (Users.has_id claims.user_id) x.users) start
          ∙ ap (λ (x : World). first (Users.has_id claims.user_id) x.users) (sym e3)
          ∙ ap (λ (x : World). first (Users.has_id claims.user_id) x.users) e4
          ∙ stored,
      active,
      made ∙ ap (λ (x : RefreshTokenOutput). ok x.access_token) e8,
      rest,
    )
