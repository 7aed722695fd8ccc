-- ===== src/Options.antt =====
-- python/gohttpx.py: the options of clients and requests, and what is sent of them. `Value` are the
-- Python values that options are made of; Options/Request has `_request_options` and `_timeout_ms`,
-- Options/Client the options of a client and `_client_payload`, Options/Resolve
-- `_resolve_client_options`.
pub mod Plain
pub mod Request
pub mod Client
pub mod Payload
pub mod Resolve
use go_httpx.Prelude.{
  ℕ, String, Bool, true, false, Option, none, some, List, [], ◌∷◌, if◌then◌else◌, str_eq,
}
use go_httpx.Prelude.Json.{ℤ}

-- `member` is a member of one of the enums, whose values are texts and which are texts themselves; an
-- `instance` is one of a dataclass, with its fields in order; a `sequence` is a list or a tuple, and an
-- `other_sequence` any other Sequence but a text; `opaque` is a value of any other type.
mutual
  pub data Value : Type 0 where
    nothing : Value
    flag : Bool → Value
    whole : ℤ → Value
    real : ℕ → Value
    text : String → Value
    member : String → Value
    instance_of : Attributes → Value
    mapping : Attributes → Value
    sequence : Values → Value
    other_sequence : Values → Value
    opaque : Value

  pub data Values : Type 0 where
    no_more : Values
    item : Value → Values → Values

  pub data Attributes : Type 0 where
    done : Attributes
    attribute : String → Value → Attributes → Attributes

abbrev pub is_nothing : Value → Bool
is_nothing nothing = true
is_nothing _ = false

-- `_wire`; a field that is None is left out of a dataclass, and of nothing else.
unfoldable mutual
  pub wire : Value → Value
  wire (member s) = text s
  wire (instance_of rest) = mapping (wire_fields rest)
  wire (mapping rest) = mapping (wire_items rest)
  wire (sequence vs) = sequence (wire_all vs)
  wire nothing = nothing
  wire (flag b) = flag b
  wire (whole n) = whole n
  wire (real x) = real x
  wire (text s) = text s
  wire (other_sequence vs) = other_sequence vs
  wire opaque = opaque

  pub wire_fields : Attributes → Attributes
  wire_fields done = done
  wire_fields (attribute k v rest) =
      let v' = wire v in
      let rest' = wire_fields rest in if is_nothing v then rest' else attribute k v' rest'

  pub wire_items : Attributes → Attributes
  wire_items done = done
  wire_items (attribute k v rest) = attribute k (wire v) (wire_items rest)

  pub wire_all : Values → Values
  wire_all no_more = no_more
  wire_all (item v vs) = item (wire v) (wire_all vs)

-- `value.get(name)` of a dict, with the key of each entry once.
abbrev pub find : String → Attributes → Option Value
find k done = none
find k (attribute j v rest) = if str_eq j k then some v else find k rest

abbrev pub names : Attributes → List String
names done = []
names (attribute k v rest) = k ∷ names rest

-- `value.pop(name)`
abbrev pub without : String → Attributes → Attributes
without k done = done
without k (attribute j v rest) =
    let rest' = without k rest in if str_eq j k then rest' else attribute j v rest'
