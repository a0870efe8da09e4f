-- ===== src/Store/Writes.antt =====
-- Inversion of statements with unique keys that succeeded, and searches where no statement is refused.
use go_agent_api.Base.{
  String, Bool, true, false, Option, some, List, [], ◌∷◌, ◌++◌, ◌≡◌, refl, ap, sym, ◌∙◌, arith,
  first, any, ◌||◌, Bool-cases, inl, inr,
}
use go_agent_api.Base.Exec.{Result, ok}
use go_agent_api.Base.Binds.{wrap_ok}
use go_agent_api.Store.World.{
  World, under_fault, refused_if, run, read_one, statement, scanned, gets,
}
use go_agent_api.Store.Reads.{fated}

module _ (taken : World → Bool) (f : World → World) where
  refused_if_ok :
      (w : World) {u : Unit {0}} {v : World}
      → refused_if taken f w ≡ (ok u, v)
      → (taken w ≡ false) × (v ≡ f w)
  refused_if_ok w p = elim (Bool-cases (taken w)) [
    | inl e ↦ absurd (ground (arith, rw e at p))
    | inr e ↦ (e, sym (ap (λ (x : Result (Unit {0}) × World). x.1) (rw e at p)))
  ]

  under_ok :
      (xs : List Bool) (w : World) {u : Unit {0}} {v : World}
      → under_fault xs (refused_if taken f) w ≡ (ok u, v)
      → w.faults ≡ xs
      → (ys : List Bool) × (taken (fated w ys) ≡ false) × (v ≡ f (fated w ys))
  under_ok [] w p q =
      let (a, b) = refused_if_ok w p in
      ([], ap taken (λ i. fated w (sym q i)) ∙ a, b ∙ ap f (λ i. fated w (q i)))
  under_ok (true ∷ xs) w p q = absurd (ground (arith, p))
  under_ok (false ∷ xs) w p q = let (a, b) = refused_if_ok (fated w xs) p in (xs, a, b)

  -- An insert that succeeded found its keys free, and did what it does.
  pub run-refused_if_ok :
      (context : String) (w : World) {u : Unit {0}} {v : World}
      → run context (refused_if taken f) w ≡ (ok u, v)
      → (ys : List Bool) × (taken (fated w ys) ≡ false) × (v ≡ f (fated w ys))
  unfolding run
  run-refused_if_ok context w p =
      under_ok w.faults w (wrap_ok context (statement (refused_if taken f)) w p) refl

-- A search that finds a row, where no statement is refused.
pub read_one_found :
    {A : Type 0} (context missing : String) (f : World → Option A) (w : World) (a : A)
    → w.faults ≡ []
    → f w ≡ some a
    → read_one context missing f w ≡ (ok a, w)
unfolding read_one
read_one_found context missing f w a p q =
    ap
      (λ (xs : List Bool).
        (scanned context missing (under_fault xs (gets f) w).0, (under_fault xs (gets f) w).1))
      p
    ∙ ap (λ (o : Option _). (scanned context missing (ok o), w)) q

pub first-append_new {ℓ} :
    {A : Type ℓ} (p : A → Bool) (xs : List A) (x : A)
    → any p xs ≡ false
    → p x ≡ true
    → first p (xs ++ x ∷ []) ≡ some x
first-append_new p [] x q r = rw r refl
first-append_new p (y ∷ xs) x q r = ground (arith, first-append_new p xs x)

pub any-or {ℓ} :
    {A : Type ℓ} (p q : A → Bool) (xs : List A)
    → any (λ x. p x || q x) xs ≡ false
    → (any p xs ≡ false) × (any q xs ≡ false)
any-or p q [] h = (refl, refl)
any-or p q (x ∷ xs) h = ground (arith, any-or p q xs)

module _ {A : Type 0} (f : World → A) where
  gets_ok :
      (xs : List Bool) (w : World) {a : A} {v : World}
      → under_fault xs (gets f) w ≡ (ok a, v)
      → w.faults ≡ xs
      → (ys : List Bool) × (f (fated w ys) ≡ a) × (v ≡ fated w ys)
  gets_ok [] w p q =
      ([], (λ i. f (fated w (sym q i))) ∙ ground (arith, p), ground (arith, p) ∙ λ i. fated w (q i))
  gets_ok (true ∷ xs) w p q = absurd (ground (arith, p))
  gets_ok (false ∷ xs) w p q = (xs, ground (arith, p), ground (arith, p))

  -- A query that returned gives what it reads from the rows, and leaves them.
  pub run-gets_ok :
      (context : String) (w : World) {a : A} {v : World}
      → run context (gets f) w ≡ (ok a, v)
      → (ys : List Bool) × (f (fated w ys) ≡ a) × (v ≡ fated w ys)
  unfolding run
  run-gets_ok context w p = gets_ok w.faults w (wrap_ok context (statement (gets f)) w p) refl
