-- ===== src/Tools/Steady.antt =====
-- execute_tool.go with tools whose results do not depend on the calls made before.
use go_agent_api.Base.{ℕ, String, Bool, true, false, Option, none, some, ◌≡◌, refl, ap, ◌∙◌, arith}
use go_agent_api.Base.Exec.{
  Error, Result, Exec, ok, err, continue, wrap_result, wrap_error, pure, fail, require, ◌>>=◌, ◌>>◌,
}
use go_agent_api.Entity.Any.{Object}
use go_agent_api.Tools.Registry.{History, Tool, Registry, get}
use go_agent_api.Tools.Execute.{ExecuteToolInput, execute_tool, call_tool, found_tool, validated}

unfoldable pub IsSteady : Registry → Type 0
IsSteady r =
    (name : String) (t : Tool) (h h' : History) (args : Object)
    → get r name ≡ some t
    → t.execute h args ≡ t.execute h' args

-- A call whose result does not depend on the calls made before.
pub record Steady {A : Type 0} (m : Exec History A) : Type 0 where
  pub same : (h h' : History) → (m h).0 ≡ (m h').0

module _ {A B : Type 0} where
  continue-same :
      (r : Result A) (f : A → Exec History B) (v v' : History)
      → ((a : A) → r ≡ ok a → Steady (f a))
      → (continue r f v).0 ≡ (continue r f v').0
  continue-same (ok a) f v v' p = (p a refl).same v v'
  continue-same (err x) f v v' p = refl

  bind-Steady :
      (m : Exec History A) (f : A → Exec History B)
      → Steady m
      → ((h : History) (a : A) → (m h).0 ≡ ok a → Steady (f a))
      → Steady (m >>= f)
  unfolding ◌>>=◌
  bind-Steady m f p q = record {
    same = λ h h'.
        ap (λ r. (continue r f (m h).1).0) (p.same h h')
        ∙ continue-same (m h').0 f (m h).1 (m h').1 (q h');
  }

  then-Steady : (m : Exec History A) (n : Exec History B) → Steady m → Steady n → Steady (m >> n)
  then-Steady m n p q = bind-Steady m _ p λ h a e. q

module _ {A : Type 0} where
  wrap-Steady : (t : String) (m : Exec History A) → Steady m → Steady (wrap_error t m)
  unfolding wrap_error
  wrap-Steady t m p = record { same = λ h h'. ap (wrap_result t) (p.same h h') }

  pure-Steady : (a : A) → Steady (pure a)
  unfolding pure
  pure-Steady a = record { same = λ h h'. refl }

  given-Steady : (r : Result A) → Steady (λ h. (r, h))
  given-Steady r = record { same = λ h h'. refl }

require-Steady : (b : Bool) (t : String) → Steady (require b t)
unfolding require
require-Steady true t = record { same = λ h h'. refl }
require-Steady false t = record { same = λ h h'. refl }

validated-Steady : (o : Option Error) → Steady (validated o)
unfolding pure fail
validated-Steady none = record { same = λ h h'. refl }
validated-Steady (some x) = record { same = λ h h'. refl }

found-Steady : (name : String) (o : Option Tool) → Steady (found_tool name o)
unfolding pure fail
found-Steady name none = record { same = λ h h'. refl }
found-Steady name (some t) = record { same = λ h h'. refl }

found_some :
    (name : String) (o : Option Tool) (h : History) (t : Tool)
    → (found_tool name o h).0 ≡ ok t
    → o ≡ some t
unfolding pure fail
found_some name none h t p = cc
found_some name (some u) h t p = ground (arith, p)

call-Steady :
    (name : String) (t : Tool) (args : Object)
    → ((h h' : History) → t.execute h args ≡ t.execute h' args)
    → Steady (call_tool name t args)
unfolding call_tool
call-Steady name t args p = record { same = p }

-- An execution of such a tool, whatever it returns.
pub execute_tool-Steady :
    (r : Registry) (unmarshal : String → Result Object) (duration : ℕ) (input : ExecuteToolInput)
    → IsSteady r
    → Steady (execute_tool r unmarshal duration input)
unfolding execute_tool IsSteady
execute_tool-Steady r unmarshal duration input steady = then-Steady _ _ (require-Steady _ _) (
    bind-Steady _ _ (found-Steady _ _) λ h t e.
      bind-Steady _ _ (wrap-Steady _ _ (given-Steady _)) λ h' args e'.
        then-Steady _ _ (wrap-Steady _ _ (validated-Steady _)) (
          bind-Steady _ _
            (wrap-Steady _ _
              (call-Steady _ t args λ h1 h2. steady _ t h1 h2 args (found_some _ _ h t e)))
            λ h'' result e''. pure-Steady _))
