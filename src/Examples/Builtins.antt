-- ===== src/Examples/Builtins.antt =====
-- The theorems of the built-in tools at a calculator of small numbers.
use go_agent_api.Base.{String, ◌==◌, ◌+◌, ◌*◌, ◌≡◌, ◌≢◌, ◌⊎◌, false, refl, [], ◌∷◌, eq_iff, arith}
use go_agent_api.Base.Exec.{Error, ok, err}
use go_agent_api.Base.Table.{lookup}
use go_agent_api.Entity.Any.{text}
use go_agent_api.Tools.Builtin.Calculator.{
  Arithmetic, Expr, basic_lit, binary, mul, report, calculate,
}
use go_agent_api.Tools.Builtin.Postfix.{run_words, postfix, has_foreign, calculate-run_words}

abbrev product_of_two : Expr
product_of_two = binary mul (basic_lit "2") (basic_lit "2")

-- Every literal is 2.
abbrev pub small : Arithmetic
small = record {
  parse_expr = λ t. ok product_of_two;
  parse_float = λ t. ok 2;
  plus = λ x y. x + y;
  minus = λ x y. x;
  times = λ x y. x * y;
  over = λ x y. x;
  negate = λ x. x;
  is_zero = λ x. x == 0;
}

nonempty : ◌≢◌ {A = String} "2 * 2" ""
nonempty p = ground (arith, (eq_iff "2 * 2" "").1 p)

calculate-run_words_example :
    (calculate small [] (("expression", text "2 * 2") ∷ [])
      ≡ ok (report "2 * 2" (run_words small (postfix product_of_two) [])))
    × ((has_foreign product_of_two ≡ false)
        ⊎ ((x : Error) × (calculate small [] (("expression", text "2 * 2") ∷ [])
              ≡ ok (report "2 * 2" (err x)))))
unfolding lookup
calculate-run_words_example =
    calculate-run_words small [] (("expression", text "2 * 2") ∷ []) "2 * 2" product_of_two refl
      nonempty refl

four : run_words small (postfix product_of_two) [] ≡ ok 4
unfolding run_words postfix
four = refl
