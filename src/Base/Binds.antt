-- ===== src/Base/Binds.antt =====
-- Inversion of chains of calls that returned a value.
use mathlib.Core.Path.{◌≡◌, refl}
use mathlib.Core.Bool.{Bool, true, false}
use native.Mathlib.Omega.{arith}
use go_agent_api.Base.Exec.{
  Result, Exec, ok, err, wrap_error, wrap_result, replace_error, replace_result, continue, pure,
  require, ◌>>=◌,
}
use Prim.Native.String.{String}

module _ {ℓ} {S A B : Type ℓ} where
  -- The rest of a chain that returned a value, after a first call that did.
  pub continue_ok :
      (r : Result A) (f : A → Exec S B) (s : S) {b : B} {u : S}
      → continue r f s ≡ (ok b, u)
      → (a : A) × (r ≡ ok a) × (f a s ≡ (ok b, u))
  continue_ok (ok a) f s p = (a, refl, p)
  continue_ok (err x) f s p = ground arith

module _ {ℓ} {A B : Type ℓ} where
  pub pair_path : (x : A × B) {a : A} {b : B} → x.0 ≡ a → x.1 ≡ b → x ≡ (a, b)
  pair_path (x, y) p q i = (p i, q i)

module _ {ℓ} {S A B : Type ℓ} where
  -- A chain that returned a value: so did its first call, in some state.
  pub bind_ok :
      (m : Exec S A) (f : A → Exec S B) (s : S) {b : B} {u : S}
      → (m >>= f) s ≡ (ok b, u)
      → (a : A) × (v : S) × (m s ≡ (ok a, v)) × (f a v ≡ (ok b, u))
  unfolding ◌>>=◌
  bind_ok m f s p =
      let (a, q, r) = continue_ok (m s).0 f (m s).1 p in (a, (m s).1, pair_path (m s) q refl, r)

module _ {ℓ} {A : Type ℓ} where
  wrap_result_ok : (t : String) (r : Result A) {a : A} → wrap_result t r ≡ ok a → r ≡ ok a
  wrap_result_ok t (ok a) p = p
  wrap_result_ok t (err x) p = cc

module _ {ℓ} {S A : Type ℓ} where
  pub wrap_ok :
      (t : String) (m : Exec S A) (s : S) {a : A} {u : S}
      → wrap_error t m s ≡ (ok a, u)
      → m s ≡ (ok a, u)
  unfolding wrap_error
  wrap_ok t m s p =
      pair_path (m s) (wrap_result_ok t (m s).0 (ground (arith, p))) (ground (arith, p))

module _ {ℓ} {S : Type ℓ} where
  pub require_ok :
      (b : Bool) (t : String) (s : S) {x : Unit {ℓ}} {u : S}
      → require b t s ≡ (ok x, u)
      → (b ≡ true) × (s ≡ u)
  unfolding require
  require_ok true t s p = (refl, ground (arith, p))
  require_ok false t s p = ground arith

module _ {ℓ} {A : Type ℓ} where
  replace_result_ok : (t : String) (r : Result A) {a : A} → replace_result t r ≡ ok a → r ≡ ok a
  replace_result_ok t (ok a) p = p
  replace_result_ok t (err x) p = cc

module _ {ℓ} {S A : Type ℓ} where
  pub replace_ok :
      (t : String) (m : Exec S A) (s : S) {a : A} {u : S}
      → replace_error t m s ≡ (ok a, u)
      → m s ≡ (ok a, u)
  unfolding replace_error
  replace_ok t m s p =
      pair_path (m s) (replace_result_ok t (m s).0 (ground (arith, p))) (ground (arith, p))

  pub pure_ok : (a : A) (s : S) {b : A} {u : S} → pure a s ≡ (ok b, u) → (a ≡ b) × (s ≡ u)
  unfolding pure
  pure_ok a s p = (ground (arith, p), ground (arith, p))
