-- ===== src/Store/Unique.antt =====
-- user_repository.go and token_repository.go with the unique keys of their tables.
use go_agent_api.Base.{
  ℕ, String, Bool, true, false, not, ◌&&◌, ◌||◌, ==_iff, eq_iff, str_eq, ◌==◌, List, [], ◌∷◌, ◌++◌,
  map, ◌≡◌, ◌≢◌, refl, ap, sym, ◌∙◌, arith, any, select, All, Bool-cases, inl, inr,
}
use go_agent_api.Base.Exec.{Exec, wrap_error}
use go_agent_api.Entity.User.{User}
use go_agent_api.Entity.Token.{Token}
use go_agent_api.Store.World.{World, statement, under_fault, run, refused_if}
use go_agent_api.Store.Users
use go_agent_api.Store.Tokens
use go_agent_api.Store.Unique.Apart.{Separate, Separate-append_one, Separate-select, Separate-map}
use go_agent_api.Store.Unique.Keys.{
  UsersApart, TokensApart, user_free, token_free, others_free, update-apart, update-absent,
  keys-apart, touched, revoked,
}
pub mod Apart
pub mod Keys

-- No two users share an id or an email, and no two tokens an id or a hash.
unfoldable pub IsUnique : World → Type 0
IsUnique w = Separate UsersApart w.users × Separate TokensApart w.tokens

-- the operations of the two repositories that write
pub data Write : Type 0 where
  create_user : User → Write
  update_user : User → Write
  delete_user : ℕ → Write
  create_token : Token → Write
  update_last_used : ℕ → ℕ → Write
  revoke : ℕ → Write
  revoke_all_for_user : ℕ → Write
  delete_expired : Write

-- what an operation leaves, whether it succeeds or not
unfoldable pub left_by : Write → World → World
left_by (create_user user) w = (Users.create user w).1
left_by (update_user user) w = (Users.update user w).1
left_by (delete_user id) w = (Users.delete id w).1
left_by (create_token token) w = (Tokens.create token w).1
left_by (update_last_used time id) w = (Tokens.update_last_used time id w).1
left_by (revoke id) w = (Tokens.revoke id w).1
left_by (revoke_all_for_user user_id) w = (Tokens.revoke_all_for_user user_id w).1
left_by delete_expired w = (Tokens.delete_expired w).1

unfoldable pub left_by_all : List Write → World → World
unfolding left_by
left_by_all [] w = w
left_by_all (op ∷ ops) w = left_by_all ops (left_by op w)

-- A statement that keeps the keys unique does so under its faults too.
run-IsUnique :
    {A : Type 0} (context : String) (m : Exec World A) (w : World)
    → ((v : World) → IsUnique v → IsUnique (m v).1)
    → IsUnique w
    → IsUnique (run context m w).1
unfolding run IsUnique
run-IsUnique context m w keeps h = under w.faults
  where
    under : (xs : List Bool) → IsUnique (under_fault xs m w).1
    under [] = keeps w h
    under (true ∷ xs) = h
    under (false ∷ xs) = keeps (record w { faults = xs }) h

refused_if-IsUnique :
    (context : String) (taken : World → Bool) (f : World → World) (w : World)
    → ((v : World) → taken v ≡ false → IsUnique v → IsUnique (f v))
    → IsUnique w
    → IsUnique (run context (refused_if taken f) w).1
refused_if-IsUnique context taken f w keeps h = run-IsUnique context _ w kept h
  where
    kept : (v : World) → IsUnique v → IsUnique (refused_if taken f v).1
    kept v k = elim (Bool-cases (taken v)) [ inl e ↦ rw e k | inr e ↦ rw e (keeps v e k) ]

update-IsUnique : (user : User) (w : World) → IsUnique w → IsUnique (Users.update user w).1
unfolding Users.update IsUnique
update-IsUnique user w h = refused_if-IsUnique "update user" (Users.is_refused user) _ w kept h
  where
    kept :
        (v : World)
        → Users.is_refused user v ≡ false
        → IsUnique v
        → IsUnique (record v { users = map (Users.update_row v.now user) v.users })
    kept v free k = elim (Bool-cases (any (Users.has_id user.id) v.users)) [
      | inl e ↦ (
        Separate-map UsersApart (Users.update_row v.now user) _ (update-apart v.now user) v.users
            (others_free user v.users (rw e at free)) k.0,
        k.1,
      )
      | inr e ↦ rw (update-absent v.now user v.users e) k
    ]

left_by-IsUnique : (op : Write) (w : World) → IsUnique w → IsUnique (left_by op w)
unfolding left_by Users.create Users.delete Tokens.create Tokens.update_last_used Tokens.revoke
    Tokens.revoke_all_for_user Tokens.delete_expired IsUnique
left_by-IsUnique (create_user user) w h =
    refused_if-IsUnique "create user" _ _ w
      (λ v free k.
        (Separate-append_one UsersApart v.users user k.0 (user_free user v.users free), k.1))
      h
left_by-IsUnique (update_user user) w h = update-IsUnique user w h
left_by-IsUnique (delete_user id) w h =
    run-IsUnique "delete user" _ w
      (λ v k.
        (Separate-select UsersApart _ v.users k.0, Separate-select TokensApart _ v.tokens k.1))
      h
left_by-IsUnique (create_token token) w h =
    refused_if-IsUnique "create token" _ _ w
      (λ v free k. (
        k.0,
        Separate-append_one TokensApart v.tokens (Tokens.new_row token) k.1
            (token_free (Tokens.new_row token) v.tokens free),
      ))
      h
left_by-IsUnique (update_last_used time id) w h =
    run-IsUnique "update last used" _ w
      (λ v k. (k.0, keys-apart _ v.tokens (touched v.now time id) k.1)) h
left_by-IsUnique (revoke id) w h =
    run-IsUnique "revoke token" _ w
      (λ v k. (k.0, keys-apart _ v.tokens (revoked v.now (Tokens.has_id id)) k.1)) h
left_by-IsUnique (revoke_all_for_user id) w h =
    run-IsUnique "revoke all tokens for user" _ w
      (λ v k. (k.0, keys-apart _ v.tokens (revoked v.now (Tokens.has_user id)) k.1)) h
left_by-IsUnique delete_expired w h =
    run-IsUnique "delete expired tokens" _ w
      (λ v k. (k.0, Separate-select TokensApart _ v.tokens k.1)) h

-- Where no two users share an id or an email and no two tokens an id or a hash, none do after any
-- operations on users and tokens, whichever of them the database refuses.
pub left_by_all-IsUnique :
    (ops : List Write) (w : World) → IsUnique w → IsUnique (left_by_all ops w)
unfolding left_by_all
left_by_all-IsUnique [] w h = h
left_by_all-IsUnique (op ∷ ops) w h =
    left_by_all-IsUnique ops (left_by op w) (left_by-IsUnique op w h)
