-- ===== src/Options/Plain.antt =====
-- `_wire` of python/gohttpx.py leaves neither enums nor dataclasses, at any depth.
use go_httpx.Prelude.{true, false, ◌≡◌, refl, ap, if◌then◌else◌}
use go_httpx.Options.{
  Value, nothing, flag, whole, real, text, member, instance_of, mapping, sequence, other_sequence,
  opaque, Values, no_more, item, Attributes, done, attribute, is_nothing, wire, wire_fields,
  wire_items, wire_all,
}

-- No enum and no dataclass is part of the value, but for what is inside a sequence that is neither a
-- list nor a tuple.
unfoldable mutual
  pub IsPlain : Value → Type 0
  IsPlain (member s) = ⊥
  IsPlain (instance_of rest) = ⊥
  IsPlain (mapping rest) = ArePlain rest
  IsPlain (sequence vs) = AllPlain vs
  IsPlain _ = Unit {0}

  pub ArePlain : Attributes → Type 0
  ArePlain done = Unit {0}
  ArePlain (attribute k v rest) = IsPlain v × ArePlain rest

  pub AllPlain : Values → Type 0
  AllPlain no_more = Unit {0}
  AllPlain (item v vs) = IsPlain v × AllPlain vs

mutual
  unfolding IsPlain wire

  wire-IsPlain : (v : Value) → IsPlain (wire v)
  wire-IsPlain (member s) = tt
  wire-IsPlain (instance_of rest) = wire_fields-ArePlain rest
  wire-IsPlain (mapping rest) = wire_items-ArePlain rest
  wire-IsPlain (sequence vs) = wire_all-AllPlain vs
  wire-IsPlain nothing = tt
  wire-IsPlain (flag b) = tt
  wire-IsPlain (whole n) = tt
  wire-IsPlain (real x) = tt
  wire-IsPlain (text s) = tt
  wire-IsPlain (other_sequence vs) = tt
  wire-IsPlain opaque = tt

  wire_fields-ArePlain : (rest : Attributes) → ArePlain (wire_fields rest)
  wire_fields-ArePlain done = tt
  wire_fields-ArePlain (attribute k v rest) =
      elim (is_nothing v)
        as (λ b.
          ArePlain (if b then wire_fields rest else attribute k (wire v) (wire_fields rest))) [
            | true ↦ wire_fields-ArePlain rest
            | false ↦ (wire-IsPlain v, wire_fields-ArePlain rest)
          ]

  wire_items-ArePlain : (rest : Attributes) → ArePlain (wire_items rest)
  wire_items-ArePlain done = tt
  wire_items-ArePlain (attribute k v rest) = (wire-IsPlain v, wire_items-ArePlain rest)

  wire_all-AllPlain : (vs : Values) → AllPlain (wire_all vs)
  wire_all-AllPlain no_more = tt
  wire_all-AllPlain (item v vs) = (wire-IsPlain v, wire_all-AllPlain vs)

mutual
  unfolding IsPlain wire

  wire-fixed : (v : Value) → IsPlain v → wire v ≡ v
  wire-fixed (member s) p = elim p [ ]
  wire-fixed (instance_of rest) p = elim p [ ]
  wire-fixed (mapping rest) p = ap mapping (wire_items-fixed rest p)
  wire-fixed (sequence vs) p = ap sequence (wire_all-fixed vs p)
  wire-fixed nothing p = refl
  wire-fixed (flag b) p = refl
  wire-fixed (whole n) p = refl
  wire-fixed (real x) p = refl
  wire-fixed (text s) p = refl
  wire-fixed (other_sequence vs) p = refl
  wire-fixed opaque p = refl

  wire_items-fixed : (rest : Attributes) → ArePlain rest → wire_items rest ≡ rest
  wire_items-fixed done p = refl
  wire_items-fixed (attribute k v rest) (p, ps) = cc (wire-fixed v p, wire_items-fixed rest ps)

  wire_all-fixed : (vs : Values) → AllPlain vs → wire_all vs ≡ vs
  wire_all-fixed no_more p = refl
  wire_all-fixed (item v vs) (p, ps) = cc (wire-fixed v p, wire_all-fixed vs ps)

-- What is sent of a value has no enum and no dataclass in it, but for what is inside a sequence that is
-- neither a list nor a tuple, and is sent as it stands.
pub wire_lem : (v : Value) → IsPlain (wire v) × (wire (wire v) ≡ wire v)
wire_lem v = (wire-IsPlain v, wire-fixed (wire v) (wire-IsPlain v))
