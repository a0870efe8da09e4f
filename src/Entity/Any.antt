-- ===== src/Entity/Any.antt =====
-- Go's `any`, as far as JSON and the metadata maps hold it.
use go_agent_api.Base.{ℕ, String, Bool, Option, some}
use go_agent_api.Base.Table.{Map}

mutual
  pub data Any : Type 0 where
    null : Any
    boolean : Bool → Any
    -- a float64, by its bits
    number : ℕ → Any
    text : String → Any
    instant : ℕ → Any
    array : Items → Any
    object : Fields → Any

  pub data Items : Type 0 where
    last : Items
    item : Any → Items → Items

  pub data Fields : Type 0 where
    end : Fields
    field : String → Any → Fields → Fields

-- `map[string]any`
abbrev pub Object : Type 0
Object = Map Any

-- `v, _ := m[key].(string)`: a value that is absent or no text gives the empty text.
abbrev pub text_of : Option Any → String
text_of (some (text t)) = t
text_of _ = ""
