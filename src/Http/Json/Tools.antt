-- ===== src/Http/Json/Tools.antt =====
-- The tool definitions of pkg/toolspec as JSON, by their tags.
use go_agent_api.Base.{Bool, true, false, String, List, [], ◌∷◌, ◌++◌, map}
use go_agent_api.Base.Table.{Map}
use go_agent_api.Entity.Any.{Any, boolean, number, text, array}
use go_agent_api.Tools.Spec.{
  Property, PropertySchema, plain, with_items, JsonSchema, Function, ToolSpec,
}
use go_agent_api.Http.Json.{Encoder, encode_any, struct, items, filled, pointed, given}

-- `omitempty` of a slice and of a map
abbrev texts : String → List String → Map Any
texts name [] = []
texts name (t ∷ rest) = (name, array (items (map text (t ∷ rest)))) ∷ []

abbrev entries : String → Map Any → Map Any
entries name [] = []
entries name (entry ∷ rest) = (name, struct (entry ∷ rest)) ∷ []

-- `omitempty` of a bool
abbrev pub flag : String → Bool → Map Any
flag name false = []
flag name true = (name, boolean true) ∷ []

module _ (enc : Encoder) where
  abbrev before_items : Property → Map Any
  before_items p =
      ("type", text p.kind) ∷ (filled "description" p.description ++ texts "enum" p.choices)

  abbrev after_items : Property → Map Any
  after_items p =
      given "default" (encode_any enc p.default)
      ++ (pointed "minimum" number p.minimum ++ pointed "maximum" number p.maximum)

  unfoldable pub encode_property : PropertySchema → Any
  unfolding encode_any
  encode_property (plain p) = struct (before_items p ++ after_items p)
  encode_property (with_items p inner) =
      struct (before_items p ++ (("items", encode_property inner) ∷ after_items p))

  unfoldable pub encode_schema : JsonSchema → Any
  unfolding encode_property
  encode_schema s = struct (
      ("type", text s.kind)
      ∷ (filled "description" s.description
          ++ (entries "properties" (map (λ (name, p). (name, encode_property p)) s.properties)
              ++ (texts "required" s.required
                  ++ pointed "additionalProperties" boolean s.additional_properties))))

  unfoldable pub encode_function : Function → Any
  unfolding encode_schema
  encode_function f = struct (
      ("name", text f.name)
      ∷ ("description", text f.description)
      ∷ (pointed "parameters" encode_schema f.parameters ++ flag "strict" f.strict))

  unfoldable pub encode_tool : ToolSpec → Any
  unfolding encode_function
  encode_tool t = struct (("type", text t.kind) ∷ ("function", encode_function t.function) ∷ [])
