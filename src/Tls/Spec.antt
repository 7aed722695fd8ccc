-- ===== src/Tls/Spec.antt =====
-- `_normalize_tls_spec` of python/gohttpx.py. `encoded_length` stands for the length of what
-- `json.dumps` makes of the dict.
pub mod Depth
pub mod Flat
pub mod Import
use go_httpx.Prelude.{
  ℕ, zero, suc, ◌+◌, String, Bool, true, false, ◌&&◌, ◌||◌, not, Option, none, some, List, [], ◌∷◌,
  map, leb, ltb, if◌then◌else◌, Result, ok, err, ◌>>=◌, ◌>>◌, guard,
}
use go_httpx.Prelude.Json.{
  Json, null, bool, int, float, str, arr, obj, Items, Fields, end, field, to_list, keys, is_subset,
}
use go_httpx.Tls.Wire.{HelloError}
use go_httpx.Tls.Hello.{tls_spec_from_client_hello}

pub data SpecError : Type 0 where
  spec_too_long bad_spec_json spec_not_object bad_spec_fields spec_too_deep bad_spec_value :
      SpecError
  hello_error : HelloError → SpecError

-- The argument: a mapping with text keys, a text that begins with a brace (its length in UTF-8 and what
-- `json.loads` makes of it, `none` where it raises), or the bytes of a capture.
pub data SpecInput : Type 0 where
  mapping : Fields → SpecInput
  json_text : ℕ → Option Json → SpecInput
  capture : List ℕ → SpecInput

-- `pending.extend((child, depth + 1) for child in …)`, with the last entry first.
abbrev pub push_children : ℕ → List Json → List (Json × ℕ) → List (Json × ℕ)
push_children depth [] pending = pending
push_children depth (v ∷ vs) pending = push_children depth vs ((v, depth) ∷ pending)

abbrev pub members : Fields → List Json
members end = []
members (field k v fs) = v ∷ members fs

-- The `while pending` loop: `some none` where it ends, the exception where it raises, `none` where the
-- fuel runs out.
unfoldable pub scan_depth : ℕ → List (Json × ℕ) → Option (Option SpecError)
scan_depth fuel [] = some none
scan_depth zero (item ∷ pending) = none
scan_depth (suc fuel) ((obj fs, depth) ∷ pending) =
    let rest = scan_depth fuel (push_children (depth + 1) (members fs) pending) in
    if ltb 8 depth then some (some spec_too_deep) else rest
scan_depth (suc fuel) ((arr xs, depth) ∷ pending) =
    let rest = scan_depth fuel (push_children (depth + 1) (to_list xs) pending) in
    if ltb 8 depth then some (some spec_too_deep) else rest
scan_depth (suc fuel) ((null, depth) ∷ pending) =
    if ltb 8 depth then some (some spec_too_deep) else some (some bad_spec_value)
scan_depth (suc fuel) ((float x, depth) ∷ pending) =
    if ltb 8 depth then some (some spec_too_deep) else some (some bad_spec_value)
scan_depth (suc fuel) ((str s, depth) ∷ pending) =
    let rest = scan_depth fuel pending in if ltb 8 depth then some (some spec_too_deep) else rest
scan_depth (suc fuel) ((int n, depth) ∷ pending) =
    let rest = scan_depth fuel pending in if ltb 8 depth then some (some spec_too_deep) else rest
scan_depth (suc fuel) ((bool b, depth) ∷ pending) =
    let rest = scan_depth fuel pending in if ltb 8 depth then some (some spec_too_deep) else rest

-- A bound on the entries that the loop takes: the number of values in a value.
unfoldable mutual
  pub weight : Json → ℕ
  weight (obj fs) = 1 + weight_members fs
  weight (arr xs) = 1 + weight_elements xs
  weight null = 1
  weight (float x) = 1
  weight (str s) = 1
  weight (int n) = 1
  weight (bool b) = 1

  pub weight_members : Fields → ℕ
  weight_members (field k v fs) = weight_members fs + weight v
  weight_members end = 0

  pub weight_elements : Items → ℕ
  weight_elements (Items.cons v xs) = weight_elements xs + weight v
  weight_elements Items.nil = 0

abbrev pub Spec : Type 0 → Type 0
Spec A = Result SpecError A

abbrev from_scan : Option (Option SpecError) → Spec (Unit {0})
from_scan (some none) = ok tt
from_scan (some (some e)) = err e
from_scan none = err spec_too_deep

abbrev loaded_text : Option Json → Spec Json
loaded_text none = err bad_spec_json
loaded_text (some v) = ok v

abbrev imported_spec : Result HelloError Json → Spec Json
imported_spec (ok v) = ok v
imported_spec (err e) = err (hello_error e)

abbrev as_dict : Json → Spec Fields
as_dict (obj fs) = ok fs
as_dict _ = err spec_not_object

abbrev pub required : List String
required = "cipher_suites" ∷ "compression_methods" ∷ "extensions" ∷ []

abbrev pub permitted : List String
permitted =
    "cipher_suites" ∷ "compression_methods" ∷ "extensions" ∷ "min_vers" ∷ "max_vers"
    ∷ "shuffle_extensions" ∷ []

-- The value that the checks begin with.
unfoldable pub spec_value : SpecInput → Spec Json
spec_value (mapping fs) = ok (obj fs)
spec_value (json_text size decoded) = guard (leb size 65536) spec_too_long >> loaded_text decoded
spec_value (capture payload) = imported_spec (tls_spec_from_client_hello payload)

module _ (encoded_length : Json → ℕ) where
  unfoldable pub check_spec : Json → Spec Json
  check_spec value = do
    fs ← as_dict value
    guard (is_subset required (keys fs) && is_subset (keys fs) permitted) bad_spec_fields
    from_scan (scan_depth (weight value) ((value, 0) ∷ []))
    guard (leb (encoded_length value) 65536) spec_too_long
    ok value

  unfoldable pub normalize_tls_spec : SpecInput → Spec Json
  unfolding check_spec spec_value
  normalize_tls_spec input = do value ← spec_value input; check_spec value
