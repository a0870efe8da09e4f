-- ===== src/Auth/Granting.antt =====
-- What a login, of login.go, has found and stored.
use go_agent_api.Base.{ℕ, String, true, false, some, [], ◌∷◌, ◌++◌, ◌≡◌, ap, sym, ◌∙◌, first, any}
use mathlib.Core.Path.{subst}
use go_agent_api.Base.Exec.{ok}
use go_agent_api.Base.Binds.{bind_ok, wrap_ok, replace_ok, require_ok, pure_ok}
use go_agent_api.Entity.User.{User}
use go_agent_api.Entity.Token.{Token, new_api_key}
use go_agent_api.Store.World.{World}
use go_agent_api.Store.Users
use go_agent_api.Store.Tokens
use go_agent_api.Store.Reads.{fated, user_by_email}
use go_agent_api.Store.Writes.{run-refused_if_ok, any-or}
use go_agent_api.Auth.Jwt.{Library, JwtManager, generate_access_token, generate_refresh_token}
use go_agent_api.Auth.Login.{LoginInput, LoginOutput, session_token, issue, login}
use go_agent_api.Auth.Sound.{given_ok}

created_token :
    (token : Token) (w : World) {u : Unit {0}} {v : World}
    → Tokens.create token w ≡ (ok u, v)
    → (any (Tokens.has_id token.id) w.tokens ≡ false)
      × (v.tokens ≡ w.tokens ++ Tokens.new_row token ∷ [])
      × (v.users ≡ w.users)
unfolding Tokens.create
created_token token w p =
    let (ys, free, e) = run-refused_if_ok _ _ _ w p in
    (
      (any-or (Tokens.has_id token.id) (Tokens.has_hash token.token_hash) w.tokens free).0,
      ap (λ (x : World). x.tokens) e,
      ap (λ (x : World). x.users) e,
    )

-- A login that succeeds.
pub record LoggedIn (lib : Library) (m : JwtManager) (now : ℕ) (input : LoginInput) (token : Token)
    (w v : World) (o : LoginOutput) : Type 0 where
  pub known : first (Users.has_email input.email) w.users ≡ some o.user
  pub password : lib.password_matches o.user.password_hash input.password ≡ true
  pub active : o.user.is_active ≡ true
  pub access : generate_access_token lib m now o.user.id token.id ≡ ok o.access_token
  pub refreshes : generate_refresh_token lib m now o.user.id token.id ≡ ok o.refresh_token
  pub fresh : any (Tokens.has_id token.id) w.tokens ≡ false
  pub tokens : v.tokens ≡ w.tokens ++ token ∷ []
  pub users : v.users ≡ w.users

issue_ok :
    (lib : Library) (m : JwtManager) (now : ℕ) (user : User) (token : Token) (w : World)
    {o : LoginOutput} {v : World}
    → issue lib m now user token w ≡ (ok o, v)
    → (user ≡ o.user)
      × (generate_access_token lib m now user.id token.id ≡ ok o.access_token)
      × (generate_refresh_token lib m now user.id token.id ≡ ok o.refresh_token)
      × (any (Tokens.has_id token.id) w.tokens ≡ false)
      × (v.tokens ≡ w.tokens ++ Tokens.new_row token ∷ [])
      × (v.users ≡ w.users)
unfolding issue
issue_ok lib m now user token w p =
    let (_, w1, p1, q1) = bind_ok _ _ w p in
    let (free, rows, same) = created_token token w (wrap_ok _ _ w p1) in
    let (a, w2, p2, q2) = bind_ok _ _ w1 q1 in
    let (made, e2) = given_ok _ w1 (wrap_ok _ _ w1 p2) in
    let (b, w3, p3, q3) = bind_ok _ _ w2 q2 in
    let (made2, e3) = given_ok _ w2 (wrap_ok _ _ w2 p3) in
    let (e, e4) = pure_ok _ w3 q3 in
    let back = sym e4 ∙ sym e3 ∙ sym e2 in
    (
      ap (λ (x : LoginOutput). x.user) e,
      made ∙ ap (λ (x : LoginOutput). ok x.access_token) e,
      made2 ∙ ap (λ (x : LoginOutput). ok x.refresh_token) e,
      free,
      ap (λ (x : World). x.tokens) back ∙ rows,
      ap (λ (x : World). x.users) back ∙ same,
    )

-- A login that succeeds found the user of the email, whose password matches and who is active;
-- it stored one new session token, under an id that was free, and signed both texts for that user
-- and that token.
pub login_ok :
    (lib : Library) (m : JwtManager) (token_id : ℕ) (nonce : String) (now : ℕ) (input : LoginInput)
    (w v : World) (o : LoginOutput)
    → login lib m token_id nonce now input w ≡ (ok o, v)
    → LoggedIn lib m now input (session_token lib token_id nonce now o.user) w v o
unfolding login
login_ok lib m token_id nonce now input w v o p =
    let (user, w1, p1, q1) = bind_ok _ _ w p in
    let (found, (ys, e1)) = user_by_email input.email w (replace_ok _ _ w p1) in
    let (_, w2, p2, q2) = bind_ok _ _ w1 q1 in
    let (matches, e2) = require_ok _ _ w1 p2 in
    let (_, w3, p3, q3) = bind_ok _ _ w2 q2 in
    let (active, e3) = require_ok _ _ w2 p3 in
    let start : w3 ≡ fated w ys = sym e3 ∙ (sym e2 ∙ e1) in
    let issued =
      subst (λ x. issue lib m now user (session_token lib token_id nonce now user) x ≡ (ok o, v))
        start q3 in
    let same = (issue_ok lib m now user _ (fated w ys) issued).0 in
    let (_, made, made2, free, rows, users) =
      issue_ok lib m now o.user (session_token lib token_id nonce now o.user) (fated w ys) (
        subst
          (λ u. issue lib m now u (session_token lib token_id nonce now u) (fated w ys) ≡ (ok o, v))
          same issued) in
    record {
      known = found ∙ ap some same;
      password =
          ap (λ (u : User). lib.password_matches u.password_hash input.password) (sym same)
          ∙ matches;
      active = ap (λ (u : User). u.is_active) (sym same) ∙ active;
      access = made;
      refreshes = made2;
      fresh = free;
      tokens = unfold session_token new_api_key in rows;
      users = users;
    }
