-- ===== src/Auth/Registering.antt =====
-- What a registration, of create_user.go, has found and stored.
use go_agent_api.Base.{
  ℕ, String, Bool, true, false, some, List, [], ◌∷◌, ◌++◌, ◌≡◌, refl, ap, sym, ◌∙◌, first, any,
  eq_refl,
}
use go_agent_api.Base.Exec.{ok}
use go_agent_api.Base.Binds.{bind_ok, wrap_ok, require_ok, pure_ok}
use go_agent_api.Entity.User.{User, new_user, is_admin}
use go_agent_api.Store.World.{World, under_fault, gets}
use go_agent_api.Store.Users
use go_agent_api.Store.Writes.{run-refused_if_ok, first-append_new, any-or}
use go_agent_api.Auth.Jwt.{Library}
use go_agent_api.Auth.CreateUser.{CreateUserInput, create_user}
use go_agent_api.Auth.Sound.{given_ok}

created_user :
    (user : User) (w : World) {u : Unit {0}} {v : World}
    → Users.create user w ≡ (ok u, v)
    → (any (Users.has_id user.id) w.users ≡ false)
      × (any (Users.has_email user.email) w.users ≡ false)
      × (v.users ≡ w.users ++ user ∷ [])
unfolding Users.create
created_user user w p =
    let (ys, free, e) = run-refused_if_ok _ _ _ w p in
    let (a, b) = any-or (Users.has_id user.id) (Users.has_email user.email) w.users free in
    (a, b, ap (λ (x : World). x.users) e)

under_users :
    {A : Type 0} (xs : List Bool) (f : World → A) (w : World)
    → (under_fault xs (gets f) w).1.users ≡ w.users
under_users [] f w = refl
under_users (true ∷ xs) f w = refl
under_users (false ∷ xs) f w = refl

search_users : (email : String) (w : World) → (Users.find_by_email email w).1.users ≡ w.users
unfolding Users.find_by_email
search_users email w = under_users w.faults _ w

-- A registration that succeeds took an id and an email that no user had, whatever became of the
-- search before it, and appended one active user without admin rights, who is found under that
-- email and holds the hash of the password.
pub create_user_ok :
    (lib : Library) (id now : ℕ) (input : CreateUserInput) (w v : World) (u : User)
    → create_user lib id now input w ≡ (ok u, v)
    → (any (Users.has_id id) w.users ≡ false)
      × (any (Users.has_email input.email) w.users ≡ false)
      × (v.users ≡ w.users ++ u ∷ [])
      × (first (Users.has_email input.email) v.users ≡ some u)
      × (lib.hash_password input.password ≡ ok u.password_hash)
      × (u.is_active ≡ true)
      × (is_admin u ≡ false)
unfolding create_user new_user is_admin
create_user_ok lib id now input w v u p =
    let (_, w1, p1, q1) = bind_ok _ _ w p in
    let s1 : w1.users ≡ w.users = ap (λ x. x.1.users) (sym p1) ∙ search_users input.email w in
    let (_, w2, p2, q2) = bind_ok _ _ w1 q1 in
    let (_, e2) = require_ok _ _ w1 p2 in
    let (hash, w3, p3, q3) = bind_ok _ _ w2 q2 in
    let (hashed, e3) = given_ok _ w2 (wrap_ok _ _ w2 p3) in
    let (_, w4, p4, q4) = bind_ok _ _ w3 q3 in
    let (free_id, free_email, rows) = created_user _ w3 (wrap_ok _ _ w3 p4) in
    let (e, e5) = pure_ok _ w4 q4 in
    let same : w3.users ≡ w.users = ap (λ (x : World). x.users) (sym e3 ∙ sym e2) ∙ s1 in
    let made = new_user id now input.email hash input.name in
    let after : v.users ≡ w.users ++ made ∷ [] =
      ap (λ (x : World). x.users) (sym e5) ∙ rows ∙ ap (λ l. l ++ made ∷ []) same in
    let free = ap (any (Users.has_email input.email)) (sym same) ∙ free_email in
    (
      ap (any (Users.has_id id)) (sym same) ∙ free_id,
      free,
      after ∙ ap (λ x. w.users ++ x ∷ []) e,
      ap (first (Users.has_email input.email)) after
          ∙ first-append_new (Users.has_email input.email) w.users made free (eq_refl input.email)
          ∙ ap some e,
      hashed ∙ ap (λ (x : User). ok x.password_hash) e,
      ap (λ (x : User). x.is_active) (sym e),
      ap is_admin (sym e),
    )
