-- ===== src/Base/Keeping.antt =====
-- Predicates on the state that calls and chains of calls keep.
use go_agent_api.Base.Exec.{Result, Exec, ok, err, continue, ◌>>=◌}

-- A call that keeps a predicate on its state, whether it returns a value or an error.
abbrev pub Keeps {ℓ} : {S A : Type ℓ} → (S → Type ℓ) → Exec S A → Type ℓ
Keeps P m = (s : _) → P s → P (m s).1

module _ {ℓ} {S A B : Type ℓ} (P : S → Type ℓ) where
  continue-Keeps :
      (r : Result A) (f : A → Exec S B) (s : S)
      → ((a : A) → Keeps P (f a))
      → P s
      → P (continue r f s).1
  continue-Keeps (ok a) f s h b = h a s b
  continue-Keeps (err x) f s h b = b

  pub bind-Keeps :
      (m : Exec S A) (f : A → Exec S B) → Keeps P m → ((a : A) → Keeps P (f a)) → Keeps P (m >>= f)
  unfolding ◌>>=◌
  bind-Keeps m f hm hf s b = continue-Keeps (m s).0 f (m s).1 hf (hm s b)

  pub then-Keeps :
      (m : Exec S A) (f : A → Exec S B) (s : S)
      → P (m s).1
      → ((a : A) → Keeps P (f a))
      → P ((m >>= f) s).1
  unfolding ◌>>=◌
  then-Keeps m f s b hf = continue-Keeps (m s).0 f (m s).1 hf b
