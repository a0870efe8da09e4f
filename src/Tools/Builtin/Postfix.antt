-- ===== src/Tools/Builtin/Postfix.antt =====
-- The calculator of calculator.go against a stack machine that reads the expression in postfix
-- order.
use go_agent_api.Base.{
  ℕ, String, Bool, true, false, ◌||◌, ◌⊎◌, sym, some, List, [], ◌∷◌, ◌++◌, str_eq, ◌≡◌, ◌≢◌, refl,
  ap, ◌∙◌, arith, eq_iff, Bool-cases, inl, inr, if◌then◌else◌,
}
use mathlib.Core.List.{append_assoc, append-nil}
use go_agent_api.Base.Exec.{Error, Result, ok, err, message}
use go_agent_api.Base.Table.{lookup}
use go_agent_api.Entity.Any.{Object, text}
use go_agent_api.Tools.Registry.{History}
use go_agent_api.Tools.Builtin.Calculator.{
  Operator, add, sub, mul, quo, other, operator_text, Expr, basic_lit, binary, paren, unary,
  foreign, Arithmetic, apply, apply_unary, with_left, with_value, eval, evaluate, report, calculate,
}
use Prim.Native.String.{◌++◌ as ◌+++◌}

-- A word of the postfix notation: a literal, an operator of the two values on top of the stack, the
-- minus of the one on top, or a node that the calculator knows no value of, such as a call.
pub data Word : Type 0 where
  literal : String → Word
  operator : Operator → Word
  opposite unknown : Word

-- the word after the operand of a unary operator: only the minus has one
abbrev pub sign : Operator → List Word
sign sub = opposite ∷ []
sign _ = []

unfoldable pub postfix : Expr → List Word
postfix (basic_lit t) = literal t ∷ []
postfix (binary op l r) = postfix l ++ (postfix r ++ operator op ∷ [])
postfix (paren e) = postfix e
postfix (unary op e) = postfix e ++ sign op
postfix foreign = unknown ∷ []

-- an expression with a call, an identifier or another node that the calculator does not know
unfoldable pub has_foreign : Expr → Bool
has_foreign (basic_lit t) = false
has_foreign (binary op l r) = has_foreign l || has_foreign r
has_foreign (paren e) = has_foreign e
has_foreign (unary op e) = has_foreign e
has_foreign foreign = true

module _ (a : Arithmetic) where
  abbrev with_top : Result ℕ → List ℕ → Result (List ℕ)
  with_top (ok v) s = ok (v ∷ s)
  with_top (err x) s = err x

  -- one word on a stack of values, its top first
  unfoldable read_word : Word → List ℕ → Result (List ℕ)
  unfolding operator_text
  read_word (literal t) s = with_top (a.parse_float t) s
  read_word (operator add) (y ∷ x ∷ s) = ok (a.plus x y ∷ s)
  read_word (operator sub) (y ∷ x ∷ s) = ok (a.minus x y ∷ s)
  read_word (operator mul) (y ∷ x ∷ s) = ok (a.times x y ∷ s)
  read_word (operator quo) (y ∷ x ∷ s) =
      if a.is_zero y then err (message "division by zero") else ok (a.over x y ∷ s)
  read_word (operator (other t)) (y ∷ x ∷ s) = err (message ("unsupported operator: " +++ t))
  read_word opposite (x ∷ s) = ok (a.negate x ∷ s)
  read_word unknown s = err (message "unsupported expression type")
  read_word _ s = err (message "the stack is too short")

  -- the rest of a run, or the first error
  abbrev then_run : (List ℕ → Result ℕ) → Result (List ℕ) → Result ℕ
  then_run rest (ok s) = rest s
  then_run rest (err x) = err x

  abbrev top : List ℕ → Result ℕ
  top (v ∷ s) = ok v
  top [] = err (message "the stack is too short")

  -- the words from the left on a stack; the value is the top of the last one
  unfoldable pub run_words : List Word → List ℕ → Result ℕ
  unfolding read_word
  run_words [] s = top s
  run_words (w ∷ words) s = then_run (run_words words) (read_word w s)

  abbrev onward : Result ℕ → (ℕ → Result ℕ) → Result ℕ
  onward (ok v) f = f v
  onward (err x) f = err x

  run-literal :
      (r : Result ℕ) (rest : List Word) (s : List ℕ)
      → then_run (run_words rest) (with_top r s) ≡ onward r (λ v. run_words rest (v ∷ s))
  run-literal (ok v) rest s = refl
  run-literal (err x) rest s = refl

  run-operator :
      (op : Operator) (rest : List Word) (x y : ℕ) (s : List ℕ)
      → run_words (operator op ∷ rest) (y ∷ x ∷ s)
        ≡ onward (apply a op x y) (λ v. run_words rest (v ∷ s))
  unfolding run_words apply
  run-operator add rest x y s = refl
  run-operator sub rest x y s = refl
  run-operator mul rest x y s = refl
  run-operator quo rest x y s = elim (Bool-cases (a.is_zero y)) [
    | inl p ↦ rw p refl
    | inr p ↦ rw p refl
  ]
  run-operator (other t) rest x y s = refl

  run-sign :
      (op : Operator) (rest : List Word) (x : ℕ) (s : List ℕ)
      → run_words (sign op ++ rest) (x ∷ s) ≡ run_words rest (apply_unary a op x ∷ s)
  unfolding run_words apply_unary
  run-sign add rest x s = refl
  run-sign sub rest x s = refl
  run-sign mul rest x s = refl
  run-sign quo rest x s = refl
  run-sign (other t) rest x s = refl

  -- the values of both operands, from the left
  onward-with_left :
      (op : Operator) (l r : Result ℕ) (rest : List Word) (s : List ℕ)
      → onward l (λ x. onward r (λ y. run_words (operator op ∷ rest) (y ∷ x ∷ s)))
        ≡ onward (with_left a op l r) (λ v. run_words rest (v ∷ s))
  onward-with_left op (err z) r rest s = refl
  onward-with_left op (ok x) (err z) rest s = refl
  onward-with_left op (ok x) (ok y) rest s = run-operator op rest x y s

  onward-with_value :
      (op : Operator) (r : Result ℕ) (rest : List Word) (s : List ℕ)
      → onward r (λ x. run_words (sign op ++ rest) (x ∷ s))
        ≡ onward (with_value a op r) (λ v. run_words rest (v ∷ s))
  onward-with_value op (ok x) rest s = run-sign op rest x s
  onward-with_value op (err z) rest s = refl

  -- The words of an expression push its value, whatever words follow and whatever the stack holds.
  run_words-postfix :
      (e : Expr) (rest : List Word) (s : List ℕ)
      → run_words (postfix e ++ rest) s ≡ onward (eval a e) (λ v. run_words rest (v ∷ s))
  unfolding postfix run_words eval
  run_words-postfix (basic_lit t) rest s = run-literal (a.parse_float t) rest s
  run_words-postfix (binary op l r) rest s =
      rw (append_assoc, run_words-postfix l, append_assoc)
        (ap (onward (eval a l)) (λ i x. run_words-postfix r (operator op ∷ rest) (x ∷ s) i)
          ∙ onward-with_left op (eval a l) (eval a r) rest s)
  run_words-postfix (paren e) rest s = run_words-postfix e rest s
  run_words-postfix (unary op e) rest s =
      rw (append_assoc, run_words-postfix e) (onward-with_value op (eval a e) rest s)
  run_words-postfix foreign rest s = refl

  onward-ok : (r : Result ℕ) → onward r (λ v. ok v) ≡ r
  onward-ok (ok v) = refl
  onward-ok (err x) = refl

  eval-run_words : (e : Expr) → run_words (postfix e) [] ≡ eval a e
  unfolding run_words
  eval-run_words e =
      ap (λ words. run_words words []) (sym (append-nil (postfix e)))
      ∙ (run_words-postfix e [] [] ∙ onward-ok (eval a e))

  left_fails :
      (op : Operator) (l r : Result ℕ) {x : Error}
      → (l ≡ err x) ⊎ (r ≡ err x)
      → (y : Error) × (with_left a op l r ≡ err y)
  left_fails op (err z) r p = (z, refl)
  left_fails op (ok v) (err z) p = (z, refl)
  left_fails op (ok v) (ok w) p = absurd (ground (arith, p))

  -- An expression with a node that is not known has no value.
  eval-has_foreign : (e : Expr) → has_foreign e ≡ true → (x : Error) × (eval a e ≡ err x)
  unfolding has_foreign eval
  eval-has_foreign (basic_lit t) p = absurd (ground (arith, p))
  eval-has_foreign (binary op l r) p = elim (Bool-cases (has_foreign l)) [
    | inl q ↦
        let (x, failed) = eval-has_foreign l q in left_fails op (eval a l) (eval a r) (inl failed)
    | inr q ↦
        let (x, failed) = eval-has_foreign r (rw q at p) in
        left_fails op (eval a l) (eval a r) (inr failed)
  ]
  eval-has_foreign (paren e) p = eval-has_foreign e p
  eval-has_foreign (unary op e) p =
      let (x, failed) = eval-has_foreign e p in (x, ap (with_value a op) failed)
  eval-has_foreign foreign p = (message "unsupported expression type", refl)

  calculate_text :
      (h : History) (args : Object) (expr : String) (e : Expr)
      → lookup "expression" args ≡ some (text expr)
      → expr ≢ ""
      → a.parse_expr expr ≡ ok e
      → calculate a h args ≡ ok (report expr (eval a e))
  unfolding calculate evaluate
  calculate_text h args expr e p q parsed = rw p (elim (Bool-cases (str_eq expr "")) [
    | inl same ↦ absurd (q ((eq_iff expr "").0 same))
    | inr nonempty ↦ rw (nonempty, parsed) refl
  ])

-- On a text that is not empty and parses to an expression, the calculator reports what a stack
-- machine gives on the expression in postfix order, the first error from the left included; and an
-- expression with a call, an identifier or another node that is not a literal, an operator or
-- parentheses is reported as an error.
pub calculate-run_words :
    (a : Arithmetic) (h : History) (args : Object) (expr : String) (e : Expr)
    → lookup "expression" args ≡ some (text expr)
    → expr ≢ ""
    → a.parse_expr expr ≡ ok e
    → (calculate a h args ≡ ok (report expr (run_words a (postfix e) [])))
      × ((has_foreign e ≡ false) ⊎ ((x : Error) × (calculate a h args ≡ ok (report expr (err x)))))
calculate-run_words a h args expr e given nonempty parsed =
    let result = calculate_text a h args expr e given nonempty parsed in
    (
      result ∙ ap (λ r. ok (report expr r)) (sym (eval-run_words a e)),
      elim (Bool-cases (has_foreign e)) [
        | inl q ↦
            let (x, failed) = eval-has_foreign a e q in
            inr (x, result ∙ ap (λ r. ok (report expr r)) failed)
        | inr q ↦ inl q
      ],
    )
