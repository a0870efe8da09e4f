-- ===== src/Base/Exec.antt =====
-- Go's errors, and code that returns a value or an error and passes a state on. What was done
-- before an error stays done, so the state comes back beside the error too.
use Prim.Native.String.{String, ◌++◌}
use mathlib.Core.Bool.{Bool, true, false}

pub data Error : Type 0 where
  -- pgx.ErrNoRows
  no_rows : Error
  -- an error of code outside the repository, by its text
  external : String → Error
  -- a run-time panic
  panicked : String → Error
  -- fmt.Errorf(text)
  message : String → Error
  -- fmt.Errorf("text: %w", err)
  wrapped : String → Error → Error

-- err.Error()
unfoldable pub error_text : Error → String
error_text no_rows = "no rows in result set"
error_text (external t) = t
error_text (panicked t) = t
error_text (message t) = t
error_text (wrapped t e) = t ++ ": " ++ error_text e

pub data Result {ℓ} (A : Type ℓ) : Type ℓ where
  ok : A → Result A
  err : Error → Result A

abbrev pub Exec {ℓ} : Type ℓ → Type ℓ → Type ℓ
Exec S A = S → Result A × S

module _ {ℓ} {S A : Type ℓ} where
  unfoldable pub pure : A → Exec S A
  pure a s = (ok a, s)

  unfoldable pub fail : Error → Exec S A
  fail e s = (err e, s)

module _ {ℓ} {A : Type ℓ} where
  -- `if err != nil { return ..., fmt.Errorf("text: %w", err) }`
  abbrev pub wrap_result : String → Result A → Result A
  wrap_result t (ok a) = ok a
  wrap_result t (err e) = err (wrapped t e)

  -- `if err != nil { return ..., fmt.Errorf("text") }`: the cause is dropped
  abbrev pub replace_result : String → Result A → Result A
  replace_result t (ok a) = ok a
  replace_result t (err e) = err (message t)

module _ {ℓ} {S A : Type ℓ} where
  unfoldable pub wrap_error : String → Exec S A → Exec S A
  wrap_error t m s = (wrap_result t (m s).0, (m s).1)

  unfoldable pub replace_error : String → Exec S A → Exec S A
  replace_error t m s = (replace_result t (m s).0, (m s).1)

module _ {ℓ} {S : Type ℓ} where
  -- `if !test { return ..., fmt.Errorf("text") }`
  unfoldable pub require : Bool → String → Exec S (Unit {ℓ})
  require true t s = (ok tt, s)
  require false t s = (err (message t), s)

module _ {ℓ} {S A B : Type ℓ} where
  abbrev pub continue : Result A → (A → Exec S B) → Exec S B
  continue (ok a) f s = f a s
  continue (err e) f s = (err e, s)

  infixl 10 ◌>>=◌ ◌>>◌
  -- Opening this opens the calls above too.
  unfoldable pub ◌>>=◌ : Exec S A → (A → Exec S B) → Exec S B
  unfolding pure fail wrap_error replace_error require
  ◌>>=◌ m f s = continue (m s).0 f (m s).1

  abbrev pub ◌>>◌ : Exec S A → Exec S B → Exec S B
  m >> n = m >>= λ _. n
