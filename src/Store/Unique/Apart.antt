-- ===== src/Store/Unique/Apart.antt =====
-- Lists whose elements are apart from each other two by two: the rows of a table with unique keys.
use go_agent_api.Base.{Bool, List, [], ◌∷◌, ◌++◌, map, select, All, Bool-cases, inl, inr}

module _ {A : Type 0} (Apart : A → A → Type 0) where
  abbrev pub Separate : List A → Type 0
  Separate [] = Unit
  Separate (x ∷ xs) = All (Apart x) xs × Separate xs

  All-append_one :
      (x y : A) (xs : List A) → All (Apart x) xs → Apart x y → All (Apart x) (xs ++ y ∷ [])
  All-append_one x y [] h p = (p, tt)
  All-append_one x y (z ∷ xs) (q, h) p = (q, All-append_one x y xs h p)

  pub Separate-append_one :
      (xs : List A) (y : A) → Separate xs → All (λ x. Apart x y) xs → Separate (xs ++ y ∷ [])
  Separate-append_one [] y h p = (tt, tt)
  Separate-append_one (x ∷ xs) y (a, h) (q, p) =
      (All-append_one x y xs a q, Separate-append_one xs y h p)

  All-select : (x : A) (p : A → Bool) (xs : List A) → All (Apart x) xs → All (Apart x) (select p xs)
  All-select x p [] h = tt
  All-select x p (y ∷ xs) (a, h) = elim (Bool-cases (p y)) [
    | inl e ↦ rw e (a, All-select x p xs h)
    | inr e ↦ rw e (All-select x p xs h)
  ]

  pub Separate-select : (p : A → Bool) (xs : List A) → Separate xs → Separate (select p xs)
  Separate-select p [] h = tt
  Separate-select p (x ∷ xs) (a, h) = elim (Bool-cases (p x)) [
    | inl e ↦ rw e (All-select x p xs a, Separate-select p xs h)
    | inr e ↦ rw e (Separate-select p xs h)
  ]

  -- A change of rows that fit it, and that keeps such rows apart.
  module _ (f : A → A) (Fits : A → Type 0)
      (keeps : (x y : A) → Fits x → Fits y → Apart x y → Apart (f x) (f y)) where
    All-map :
        (x : A) (xs : List A)
        → Fits x
        → All Fits xs
        → All (Apart x) xs
        → All (Apart (f x)) (map f xs)
    All-map x [] p h a = tt
    All-map x (y ∷ xs) p (q, h) (b, a) = (keeps x y p q b, All-map x xs p h a)

    pub Separate-map : (xs : List A) → All Fits xs → Separate xs → Separate (map f xs)
    Separate-map [] h s = tt
    Separate-map (x ∷ xs) (p, h) (a, s) = (All-map x xs p h a, Separate-map xs h s)
