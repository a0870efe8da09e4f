-- ===== src/Http/Json.antt =====
-- What encoding/json makes of Go's values, as far as its documentation says: the exported fields of
-- a struct under their tags or else their Go names, `omitempty`, and null for nil. The order of an
-- object's fields and the texts of numbers, times and ids are not modelled.
pub mod Entities
pub mod Tools
pub mod Payloads
use go_agent_api.Base.{
  ℕ, String, Bool, true, false, ◌&&◌, Option, none, some, List, [], ◌∷◌, str_eq, if◌then◌else◌,
}
use go_agent_api.Base.Table.{Map}
use go_agent_api.Entity.Any.{
  Any, null, boolean, number, text, instant, array, object, Items, last, item, Fields, field, end,
}

pub record Encoder : Type 0 where
  -- the texts of a uuid.UUID and of a time.Time
  pub uuid : ℕ → String
  pub time : ℕ → String
  -- the float64 that reads the digits of an integer
  pub int : ℕ → ℕ
  -- no NaN and no infinity: encoding/json refuses those
  pub finite : ℕ → Bool
  -- null where a slice or map without entries is nil, by the name of its field
  pub blank : String → Any

-- a struct or a map, by its fields
abbrev pub members : Map Any → Fields
members [] = end
members ((name, v) ∷ rest) = field name v (members rest)

abbrev pub struct : Map Any → Any
struct fields = object (members fields)

abbrev pub items : List Any → Items
items [] = last
items (v ∷ rest) = item v (items rest)

-- `omitempty` of a text
abbrev pub filled : String → String → Map Any
filled name t = if str_eq t "" then [] else (name, text t) ∷ []

-- `omitempty` of a pointer
abbrev pub pointed {ℓ} : {A : Type ℓ} → String → (A → Any) → Option A → Map Any
pointed name encode none = []
pointed name encode (some a) = (name, encode a) ∷ []

-- `omitempty` of an interface
abbrev pub given : String → Any → Map Any
given name null = []
given name v = (name, v) ∷ []

unfoldable mutual
  -- whether encoding/json accepts a value
  pub encodable : Encoder → Any → Bool
  encodable enc (number bits) = enc.finite bits
  encodable enc (array vs) = encodable_items enc vs
  encodable enc (object fs) = encodable_fields enc fs
  encodable enc _ = true

  encodable_items : Encoder → Items → Bool
  encodable_items enc last = true
  encodable_items enc (item v vs) = encodable enc v && encodable_items enc vs

  encodable_fields : Encoder → Fields → Bool
  encodable_fields enc end = true
  encodable_fields enc (field name v fs) = encodable enc v && encodable_fields enc fs

unfoldable mutual
  -- a value held by an interface, with its times as texts
  pub encode_any : Encoder → Any → Any
  encode_any enc (instant t) = text (enc.time t)
  encode_any enc (array vs) = array (encode_items enc vs)
  encode_any enc (object fs) = object (encode_fields enc fs)
  encode_any enc v = v

  encode_items : Encoder → Items → Items
  encode_items enc last = last
  encode_items enc (item v vs) = item (encode_any enc v) (encode_items enc vs)

  encode_fields : Encoder → Fields → Fields
  encode_fields enc end = end
  encode_fields enc (field name v fs) = field name (encode_any enc v) (encode_fields enc fs)

-- the field of an object
unfoldable pub member : String → Fields → Option Any
member name end = none
member name (field key v fs) = if str_eq key name then some v else member name fs

abbrev step_into : String → Any → Option Any
step_into name (object fs) = member name fs
step_into name _ = none

abbrev then_into : Option Any → (Any → Option Any) → Option Any
then_into none k = none
then_into (some v) k = k v

-- the value at a path of names
unfoldable pub value_at : List String → Any → Option Any
unfolding member
value_at [] v = some v
value_at (name ∷ path) v = then_into (step_into name v) (value_at path)
