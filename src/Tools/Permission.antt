-- ===== src/Tools/Permission.antt =====
-- Tokens against tool_registry.go and execute_tool.go.
use go_agent_api.Base.{
  ℕ, String, Bool, true, false, none, some, List, [], ◌∷◌, ◌≡◌, refl, ap, sym, ◌∙◌, arith, ◌⊎◌, inl,
  inr, select, Bool-cases, Option-cases, ◌||◌, map, if◌then◌else◌,
}
use go_agent_api.Base.Exec.{Error, Result, ok, err, ◌>>=◌}
use go_agent_api.Entity.Any.{Object}
use go_agent_api.Entity.Token.{Token, allows, allows_any, can_use_tool}
use go_agent_api.Tools.Registry.{
  History, executed, Tool, Registry, get, list, is_wildcard, is_listed, definitions_of,
  list_for_token, entry_definition, entry_name,
}
use go_agent_api.Tools.Execute.{ExecuteToolInput, is_permitted, call_tool, execute_tool}

-- The loop of CanUseTool against the loop of ListForToken and its table.
allows-or :
    (allowed : List String) (name : String)
    → allows allowed name ≡ (is_wildcard allowed || is_listed allowed name)
unfolding allows is_wildcard is_listed
allows-or [] name = refl
allows-or (t ∷ rest) name = ground (arith, allows-or rest name)

select_all :
    (p : String × Tool → Bool) (walked : Registry)
    → ((x : String × Tool) → p x ≡ true)
    → select p walked ≡ walked
select_all p [] h = refl
select_all p (x ∷ walked) h = rw (h x, select_all p walked h)

definitions_of-select :
    (allowed : List String) (walked : Registry)
    → definitions_of allowed walked
      ≡ map entry_definition (select (λ x. is_listed allowed (entry_name x)) walked)
unfolding definitions_of
definitions_of-select allowed [] = refl
definitions_of-select allowed ((name, tool) ∷ walked) =
    ground (arith, definitions_of-select allowed walked)

select_same :
    (p q : String × Tool → Bool) (walked : Registry)
    → ((x : String × Tool) → p x ≡ q x)
    → select p walked ≡ select q walked
select_same p q [] h = refl
select_same p q (x ∷ walked) h = rw (h x, select_same p q walked h)

unlisted :
    (allowed : List String) (walked : Registry)
    → is_wildcard allowed ≡ false
    → definitions_of allowed walked
      ≡ map entry_definition (select (λ x. allows allowed (entry_name x)) walked)
unlisted allowed walked p =
    definitions_of-select allowed walked
    ∙ ap (map entry_definition)
        (select_same _ _ walked λ x. sym (allows-or allowed (entry_name x) ∙ rw p refl))

listed_by :
    (t : String) (rest : List String) (walked : Registry) (b : Bool)
    → is_wildcard (t ∷ rest) ≡ b
    → (if b then list walked else definitions_of (t ∷ rest) walked)
      ≡ map entry_definition (select (λ x. allows (t ∷ rest) (entry_name x)) walked)
unfolding list
listed_by t rest walked true p =
    ap (map entry_definition)
      (sym (select_all _ walked λ x. allows-or (t ∷ rest) (entry_name x) ∙ rw p refl))
listed_by t rest walked false p = unlisted (t ∷ rest) walked p

-- The definitions listed for a token are those of the registered tools that it can use, in the
-- order in which the registry is walked: the list and the check of a call agree.
pub list_for_token-can_use_tool :
    (token : Token) (walked : Registry)
    → list_for_token token.allowed_tools walked
      ≡ map entry_definition (select (λ x. can_use_tool token (entry_name x)) walked)
unfolding can_use_tool allows_any list_for_token list
list_for_token-can_use_tool token walked = go token.allowed_tools
  where
    go :
        (allowed : List String)
        → list_for_token allowed walked
          ≡ map entry_definition (select (λ x. allows_any allowed (entry_name x)) walked)
    go [] = ap (map entry_definition) (sym (select_all _ walked λ x. refl))
    go (t ∷ rest) = listed_by t rest walked (is_wildcard (t ∷ rest)) refl

-- What stands behind a tool that an execution ran.
pub record Granted (r : Registry) (unmarshal : String → Result Object) (input : ExecuteToolInput)
    (h k : History) : Type 0 where
  pub tool : Tool
  pub args : Object
  pub permitted : is_permitted input.token input.tool_call.function.name ≡ true
  pub registered : get r input.tool_call.function.name ≡ some tool
  pub parsed : unmarshal input.tool_call.function.arguments ≡ ok args
  pub valid : tool.validate args ≡ none
  pub ran : k ≡ executed input.tool_call.function.name args ∷ h

Result-cases : {A : Type 0} (r : Result A) → ((a : A) × (r ≡ ok a)) ⊎ ((x : Error) × (r ≡ err x))
Result-cases (ok a) = inl (a, refl)
Result-cases (err x) = inr (x, refl)

ran_path :
    (r : Registry) (unmarshal : String → Result Object) (duration : ℕ) (input : ExecuteToolInput)
    (h : History) (t : Tool) (args : Object)
    → is_permitted input.token input.tool_call.function.name ≡ true
    → get r input.tool_call.function.name ≡ some t
    → unmarshal input.tool_call.function.arguments ≡ ok args
    → t.validate args ≡ none
    → (execute_tool r unmarshal duration input h).1
      ≡ executed input.tool_call.function.name args ∷ h
unfolding execute_tool call_tool ◌>>=◌
ran_path r unmarshal duration input h t args p q s v = elim (Result-cases (t.execute h args)) [
  | inl (a, e) ↦ rw (p, q, s, v, e)
  | inr (x, e) ↦ rw (p, q, s, v, e)
]

-- However an execution of a tool ends, it has run nothing, or it has run the tool of the call once,
-- on the parsed arguments; then the token permits the tool, the tool is registered, and its own
-- validation accepts the arguments.
pub execute_tool-Granted :
    (r : Registry) (unmarshal : String → Result Object) (duration : ℕ) (input : ExecuteToolInput)
    (h : History)
    → ((execute_tool r unmarshal duration input h).1 ≡ h)
      ⊎ Granted r unmarshal input h (execute_tool r unmarshal duration input h).1
unfolding execute_tool call_tool ◌>>=◌
execute_tool-Granted r unmarshal duration input h =
    elim (Bool-cases (is_permitted input.token input.tool_call.function.name)) [
      | inl p ↦ elim (Option-cases (get r input.tool_call.function.name)) [
        | inl q ↦ inl (rw (p, q))
        | inr (t, q) ↦ elim (Result-cases (unmarshal input.tool_call.function.arguments)) [
          | inl (args, s) ↦ elim (Option-cases (t.validate args)) [
            | inl v ↦ inr (record {
              tool = t;
              args = args;
              permitted = p;
              registered = q;
              parsed = s;
              valid = v;
              ran = ran_path r unmarshal duration input h t args p q s v;
            })
            | inr (x, v) ↦ inl (rw (p, q, s, v))
          ]
          | inr (x, s) ↦ inl (rw (p, q, s))
        ]
      ]
      | inr p ↦ inl (rw p)
    ]
