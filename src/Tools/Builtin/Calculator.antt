-- ===== src/Tools/Builtin/Calculator.antt =====
-- calculator.go. The parser of Go's expressions and the arithmetic of float64 are the record
-- `Arithmetic`; a float64 is its bits.
use Prim.Native.String.{◌++◌ as ◌+++◌}
use go_agent_api.Base.{ℕ, String, Bool, false, none, some, [], ◌∷◌, str_eq, if◌then◌else◌}
use go_agent_api.Base.Exec.{Result, ok, err, message, wrap_result, error_text}
use go_agent_api.Base.Table.{lookup}
use go_agent_api.Entity.Any.{Any, Object, null, text, number, object, field, end, text_of}
use go_agent_api.Tools.Spec.{ToolSpec, text_property, new_tool}
use go_agent_api.Tools.Registry.{History, Tool}

-- token.Token of an operator; the text is its String()
pub data Operator : Type 0 where
  add sub mul quo : Operator
  other : String → Operator

-- ast.Expr; `foreign` is any other node
pub data Expr : Type 0 where
  basic_lit : String → Expr
  binary : Operator → Expr → Expr → Expr
  paren : Expr → Expr
  unary : Operator → Expr → Expr
  foreign : Expr

pub record Arithmetic : Type 0 where
  -- parser.ParseExpr and strconv.ParseFloat
  pub parse_expr : String → Result Expr
  pub parse_float : String → Result ℕ
  pub plus : ℕ → ℕ → ℕ
  pub minus : ℕ → ℕ → ℕ
  pub times : ℕ → ℕ → ℕ
  pub over : ℕ → ℕ → ℕ
  pub negate : ℕ → ℕ
  -- x == 0
  pub is_zero : ℕ → Bool

-- n.Op as `%s` prints it
unfoldable pub operator_text : Operator → String
operator_text add = "+"
operator_text sub = "-"
operator_text mul = "*"
operator_text quo = "/"
operator_text (other t) = t

-- the two maps that Execute returns
abbrev pub report : String → Result ℕ → Any
report expr (ok v) = object (field "expression" (text expr) (field "result" (number v) end))
report expr (err x) =
    object (field "error" (text (error_text x)) (field "expression" (text expr) end))

module _ (a : Arithmetic) where
  -- `switch n.Op`
  unfoldable pub apply : Operator → ℕ → ℕ → Result ℕ
  unfolding operator_text
  apply add x y = ok (a.plus x y)
  apply sub x y = ok (a.minus x y)
  apply mul x y = ok (a.times x y)
  apply quo x y = if a.is_zero y then err (message "division by zero") else ok (a.over x y)
  apply (other t) x y = err (message ("unsupported operator: " +++ operator_text (other t)))

  -- every operator but the minus leaves the value alone
  unfoldable pub apply_unary : Operator → ℕ → ℕ
  apply_unary sub x = a.negate x
  apply_unary _ x = x

  abbrev pub with_right : Operator → ℕ → Result ℕ → Result ℕ
  with_right op x (ok y) = apply op x y
  with_right op x (err e) = err e

  abbrev pub with_left : Operator → Result ℕ → Result ℕ → Result ℕ
  with_left op (ok x) r = with_right op x r
  with_left op (err e) r = err e

  abbrev pub with_value : Operator → Result ℕ → Result ℕ
  with_value op (ok x) = ok (apply_unary op x)
  with_value op (err e) = err e

  unfoldable pub eval : Expr → Result ℕ
  eval (basic_lit t) = a.parse_float t
  eval (binary op l r) = with_left op (eval l) (eval r)
  eval (paren e) = eval e
  eval (unary op e) = with_value op (eval e)
  eval foreign = err (message "unsupported expression type")

  abbrev pub eval_parsed : Result Expr → Result ℕ
  eval_parsed (ok e) = eval e
  eval_parsed (err x) = err x

  unfoldable pub evaluate : String → Result ℕ
  unfolding eval
  evaluate expr = eval_parsed (wrap_result "invalid expression" (a.parse_expr expr))

  -- Execute
  unfoldable pub calculate : History → Object → Result Any
  unfolding evaluate
  calculate h args =
      let expr = text_of (lookup "expression" args) in
      if str_eq expr ""
      then err (message "expression is required")
      else ok (report expr (evaluate expr))

unfoldable pub calculator_definition : ToolSpec
unfolding new_tool
calculator_definition =
    new_tool "calculator"
      "Perform mathematical calculations. Supports basic arithmetic (+, -, *, /), parentheses, and common functions."
      (some (record {
        kind = "object";
        description = "";
        properties =
            (
              "expression",
              text_property "string"
                  "Mathematical expression to evaluate. Example: '(2 + 3) * 4' or '15 / 3'" null,
            )
            ∷ [];
        required = "expression" ∷ [];
        additional_properties = none;
      }))

-- NewCalculatorTool, with the defaults of BaseTool
unfoldable pub calculator_tool : Arithmetic → Tool
unfolding calculate calculator_definition
calculator_tool a = record {
  name = "calculator";
  description =
      "Perform mathematical calculations. Supports basic arithmetic (+, -, *, /), parentheses, and common functions.";
  definition = calculator_definition;
  execute = calculate a;
  requires_approval = false;
  validate = λ args. none;
}
