-- ===== src/Auth/Reading.antt =====
-- validate_token.go only reads: what a validation leaves of the database, whatever it returns.
use go_agent_api.Base.{ℕ, String, Bool, true, false, Option, List, [], ◌∷◌, ◌≡◌, refl}
use package.text.Mathlib.Text.{starts_with}
use go_agent_api.Base.Exec.{
  Result, Exec, ok, err, wrap_error, replace_error, require, pure, continue, ◌>>=◌, ◌>>◌,
}
use go_agent_api.Store.World.{World, read_one, under_fault, gets}
use go_agent_api.Store.Users
use go_agent_api.Store.Tokens
use go_agent_api.Entity.Token.{Token}
use go_agent_api.Auth.Jwt.{Library, JwtManager, Claims}
use go_agent_api.Auth.Login.{given}
use go_agent_api.Auth.Validate.{
  check_session, validate_api_key, validate_session, validate_jwt, by_kind, validate,
}
use go_agent_api.Auth.Sound.{SameRows, SameRows-trans}

-- A call that changes no row, whatever it returns.
record Reads {A : Type 0} (m : Exec World A) : Type 0 where
  rows : (w : World) → SameRows w (m w).1

same : (w : World) → SameRows w w
same w = record { fates = w.faults; path = refl }

module _ {A B : Type 0} where
  continue-Reads :
      (r : Result A) (f : A → Exec World B) (v : World)
      → ((a : A) → Reads (f a))
      → SameRows v (continue r f v).1
  continue-Reads (ok a) f v h = (h a).rows v
  continue-Reads (err x) f v h = same v

  bind-Reads :
      (m : Exec World A) (f : A → Exec World B)
      → Reads m
      → ((a : A) → Reads (f a))
      → Reads (m >>= f)
  unfolding ◌>>=◌
  bind-Reads m f p q = record {
    rows = λ w. SameRows-trans (p.rows w) (continue-Reads (m w).0 f (m w).1 q);
  }

  then-Reads : (m : Exec World A) (n : Exec World B) → Reads m → Reads n → Reads (m >> n)
  then-Reads m n p q = bind-Reads m _ p λ a. q

module _ {A : Type 0} where
  under-Reads :
      (f : World → A) (w : World) (xs : List Bool)
      → w.faults ≡ xs
      → SameRows w (under_fault xs (gets f) w).1
  under-Reads f w [] e = same w
  under-Reads f w (true ∷ xs) e = record { fates = xs; path = refl }
  under-Reads f w (false ∷ xs) e = record { fates = xs; path = refl }

module _ {A : Type 0} where
  read_one-Reads :
      (context missing : String) (f : World → Option A) → Reads (read_one context missing f)
  unfolding read_one
  read_one-Reads context missing f = record { rows = λ w. under-Reads f w w.faults refl }

  replaced : (t : String) (m : Exec World A) → Reads m → Reads (replace_error t m)
  unfolding replace_error
  replaced t m p = record { rows = p.rows }

require-Reads : (b : Bool) (t : String) → Reads (require b t)
unfolding require
require-Reads true t = record { rows = same }
require-Reads false t = record { rows = same }

pure-Reads : {A : Type 0} (a : A) → Reads (pure a)
unfolding pure
pure-Reads a = record { rows = same }

check_session-Reads :
    (now : ℕ) (t : String) (token : Token) (id : ℕ) → Reads (check_session now t token id)
unfolding check_session Users.find_by_id
check_session-Reads now t token id = then-Reads _ _ (require-Reads _ _) (
    bind-Reads _ _ (replaced _ _ (read_one-Reads _ _ _))
      λ user. then-Reads _ _ (require-Reads _ _) (pure-Reads _))

validate_session-Reads : (now : ℕ) (claims : Claims) → Reads (validate_session now claims)
unfolding validate_session Tokens.find_by_id
validate_session-Reads now claims =
    bind-Reads _ _ (replaced _ _ (read_one-Reads _ _ _))
      λ token. check_session-Reads now _ token claims.user_id

given-Reads : {A : Type 0} (t : String) (r : Result A) → Reads (wrap_error t (given r))
unfolding wrap_error
given-Reads t r = record { rows = same }

by_kind-Reads :
    (b : Bool) (lib : Library) (m : JwtManager) (now : ℕ) (raw : String)
    → Reads (by_kind b lib m now raw)
unfolding validate_api_key Tokens.find_by_hash validate_jwt
by_kind-Reads true lib m now raw =
    bind-Reads _ _ (replaced _ _ (read_one-Reads _ _ _))
      λ token. check_session-Reads now _ token token.user_id
by_kind-Reads false lib m now raw =
    bind-Reads _ _ (given-Reads _ _) λ claims. validate_session-Reads now claims

-- A validation changes no row, also where it fails.
pub validate-SameRows :
    (lib : Library) (m : JwtManager) (now : ℕ) (raw : String) (w : World)
    → SameRows w (validate lib m now raw w).1
unfolding validate
validate-SameRows lib m now raw w = (by_kind-Reads (starts_with raw "sk-") lib m now raw).rows w
