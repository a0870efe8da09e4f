-- ===== src/Store/Reads.antt =====
-- Inversion of searches that returned a row: the row is there, and only the statements' fates are
-- used up.
use go_agent_api.Base.{
  ℕ, String, Bool, true, false, Option, none, some, List, [], ◌∷◌, ◌≡◌, refl, ap, ◌∙◌, sym, arith,
  first,
}
use go_agent_api.Base.Exec.{Result, ok}
use go_agent_api.Entity.User.{User}
use go_agent_api.Entity.Token.{Token}
use go_agent_api.Store.World.{World, read_one, scanned, under_fault, gets}
use go_agent_api.Store.Users
use go_agent_api.Store.Tokens

-- The world with other fates of the statements to come.
abbrev pub fated : World → List Bool → World
fated w xs = record w { faults = xs }

module _ {A : Type 0} (context missing : String) (f : World → Option A) where
  scanned_ok : (o : Option A) {a : A} → scanned context missing (ok o) ≡ ok a → o ≡ some a
  scanned_ok none p = cc
  scanned_ok (some b) p = ground arith

  under_ok :
      (w : World) (xs : List Bool) {a : A} {v : World}
      → ((ys : List Bool) → f (fated w ys) ≡ f w)
      → w.faults ≡ xs
      → scanned context missing (under_fault xs (gets f) w).0 ≡ ok a
      → (under_fault xs (gets f) w).1 ≡ v
      → (f w ≡ some a) × ((ys : List Bool) × (v ≡ fated w ys))
  under_ok w [] same e p q = (scanned_ok (f w) p, ([], sym q ∙ λ i. fated w (e i)))
  under_ok w (true ∷ xs) same e p q = cc
  under_ok w (false ∷ xs) same e p q = (sym (same xs) ∙ scanned_ok (f (fated w xs)) p, (xs, sym q))

  pub read_one_ok :
      (w : World) {a : A} {v : World}
      → ((ys : List Bool) → f (fated w ys) ≡ f w)
      → read_one context missing f w ≡ (ok a, v)
      → (f w ≡ some a) × ((ys : List Bool) × (v ≡ fated w ys))
  unfolding read_one
  read_one_ok w same p =
      under_ok w w.faults same refl (ap (λ (x : Result A × World). x.0) p)
        (ap (λ (x : Result A × World). x.1) p)

pub user_by_id :
    (id : ℕ) (w : World) {u : User} {v : World}
    → Users.find_by_id id w ≡ (ok u, v)
    → (first (Users.has_id id) w.users ≡ some u) × ((ys : List Bool) × (v ≡ fated w ys))
unfolding Users.find_by_id
user_by_id id w p = read_one_ok _ _ (λ x. first (Users.has_id id) x.users) w (λ ys. refl) p

pub user_by_email :
    (email : String) (w : World) {u : User} {v : World}
    → Users.find_by_email email w ≡ (ok u, v)
    → (first (Users.has_email email) w.users ≡ some u) × ((ys : List Bool) × (v ≡ fated w ys))
unfolding Users.find_by_email
user_by_email email w p =
    read_one_ok _ _ (λ x. first (Users.has_email email) x.users) w (λ ys. refl) p

pub token_by_id :
    (id : ℕ) (w : World) {t : Token} {v : World}
    → Tokens.find_by_id id w ≡ (ok t, v)
    → (first (Tokens.has_id id) w.tokens ≡ some t) × ((ys : List Bool) × (v ≡ fated w ys))
unfolding Tokens.find_by_id
token_by_id id w p = read_one_ok _ _ (λ x. first (Tokens.has_id id) x.tokens) w (λ ys. refl) p

pub token_by_hash :
    (hash : String) (w : World) {t : Token} {v : World}
    → Tokens.find_by_hash hash w ≡ (ok t, v)
    → (first (Tokens.has_hash hash) w.tokens ≡ some t) × ((ys : List Bool) × (v ≡ fated w ys))
unfolding Tokens.find_by_hash
token_by_hash hash w p =
    read_one_ok _ _ (λ x. first (Tokens.has_hash hash) x.tokens) w (λ ys. refl) p
