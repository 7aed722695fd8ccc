-- ===== src/Transport/Response/Faults.antt =====
-- Which exceptions `_response` raises.
use go_httpx.Prelude.{
  String, Option, none, some, List, Bool, true, false, ◌≡◌, refl, Raises, raises_rules, Raises-err,
  Raises-ok, Raises-bind, Raises-guard, Raises-traverse, traverse, guard, arith, ℕ, ◌+◌, ◌⊎◌, inl,
  inr,
}
use go_httpx.Prelude.Json.{
  Json, int, float, pos, negsuc, str, arr, obj, nil, cons, Fields, get, to_list,
}
use go_httpx.Transport.{Fault, Go, bad_protocol, overflow}
use go_httpx.Transport.Response.{
  measure, is_float_sized, trace_measures, encode, header_pair, header_pairs, reason_bytes,
  check_trace, check_dump, or_protocol_error, decode_body, known_version, check_scalars, response,
}

-- An int that has no float.
abbrev pub Huge : Option Json → Type 0
Huge (some (int (pos n))) = is_float_sized n ≡ false
Huge (some (int (negsuc n))) = is_float_sized (n + 1) ≡ false
Huge _ = ⊥

-- The elapsed time of an answer or a number of its trace is such an int.
abbrev pub HasHuge : Fields → Type 0
HasHuge d =
    Huge (get "elapsed_ms" d)
    ⊎ ((trace : Fields) × (name : String) × (get "trace" d ≡ some (obj trace))
        × Huge (get name trace))

abbrev pub Blamed : Fields → Fault → Type 0
Blamed d f = (f ≡ bad_protocol) ⊎ ((f ≡ overflow) × HasHuge d)

encode-Raises : (d : Fields) (limit : ℕ) (text : String) → Raises (Blamed d) (encode limit text)
encode-Raises d limit text = record { at = λ f h. ground arith }

or_protocol_error-Raises :
    (d : Fields) {A : Type 0} (o : Option A) → Raises (Blamed d) (or_protocol_error o)
or_protocol_error-Raises d none = Raises-err bad_protocol (inl refl)
or_protocol_error-Raises d (some a) = Raises-ok a

guard_sized :
    (d : Fields) (b : Bool) → (b ≡ false → HasHuge d) → Raises (Blamed d) (guard b overflow)
guard_sized d true big = Raises-ok tt
guard_sized d false big = Raises-err overflow (inr (refl, big refl))

measure-Raises :
    (d : Fields) (o : Option Json) → (Huge o → HasHuge d) → Raises (Blamed d) (measure o)
unfolding measure
measure-Raises d (some (int (pos n))) big = guard_sized d (is_float_sized n) big
measure-Raises d (some (int (negsuc n))) big =
    Raises-bind (guard (is_float_sized (n + 1)) overflow) _
      (guard_sized d (is_float_sized (n + 1)) big) λ u. Raises-err bad_protocol (inl refl)
measure-Raises d (some (float bits)) big = Raises-guard _ bad_protocol (inl refl)
measure-Raises d _ big = Raises-err bad_protocol (inl refl)

elapsed-Raises : (d : Fields) → Raises (Blamed d) (measure (get "elapsed_ms" d))
elapsed-Raises d = measure-Raises d (get "elapsed_ms" d) (λ h. inl h)

ruleset bad_rules = (raises_rules, encode-Raises, or_protocol_error-Raises, inl, inr, refl)

header_pair-Raises : (d : Fields) (pair : Json) → Raises (Blamed d) (header_pair pair)
unfolding header_pair
header_pair-Raises d (arr (cons (str n) (cons (str v) nil))) = search bad_rules depth 8
header_pair-Raises d _ = search bad_rules

header_pairs-Raises : (d : Fields) (o : Option Json) → Raises (Blamed d) (header_pairs o)
unfolding header_pairs
header_pairs-Raises d (some (arr pairs)) =
    Raises-traverse header_pair (to_list pairs) (header_pair-Raises d)
header_pairs-Raises d _ = search bad_rules

decode_body-Raises :
    (d : Fields) (b64decode : String → Option (List ℕ)) (o : Option Json)
    → Raises (Blamed d) (decode_body b64decode o)
decode_body-Raises d b64decode (some (str text)) = search bad_rules
decode_body-Raises d b64decode _ = search bad_rules

known_version-Raises : (d : Fields) (o : Option Json) → Raises (Blamed d) (known_version o)
known_version-Raises d (some (str v)) = search bad_rules
known_version-Raises d _ = search bad_rules

reason_bytes-Raises : (d : Fields) (o : Option Json) → Raises (Blamed d) (reason_bytes o)
unfolding reason_bytes
reason_bytes-Raises d (some (str reason)) = search bad_rules
reason_bytes-Raises d _ = search bad_rules

check_trace-Raises :
    (d : Fields) (o : Option Json) → get "trace" d ≡ o → Raises (Blamed d) (check_trace o)
unfolding check_trace
check_trace-Raises d none e = search bad_rules
check_trace-Raises d (some (obj trace)) e =
    Raises-bind (guard _ bad_protocol) _ (Raises-guard _ bad_protocol (inl refl)) λ u.
      Raises-bind (traverse (λ name. measure (get name trace)) trace_measures) _
        (Raises-traverse (λ name. measure (get name trace)) trace_measures
          λ name. measure-Raises d (get name trace) (λ h. inr (trace, name, e, h)))
        λ v. search bad_rules depth 8
check_trace-Raises d (some _) e = search bad_rules

trace-Raises : (d : Fields) → Raises (Blamed d) (check_trace (get "trace" d))
trace-Raises d = check_trace-Raises d (get "trace" d) refl

check_dump-Raises : (d : Fields) (o : Option Json) → Raises (Blamed d) (check_dump o)
unfolding check_dump
check_dump-Raises d none = search bad_rules
check_dump-Raises d (some (str dump)) = search bad_rules
check_dump-Raises d (some _) = search bad_rules

ruleset response_rules = (
  bad_rules, header_pairs-Raises, decode_body-Raises, known_version-Raises, reason_bytes-Raises,
  trace-Raises, check_dump-Raises, elapsed-Raises,
)

check_scalars-Raises :
    (b64decode : String → Option (List ℕ)) (d : Fields)
    → Raises (Blamed d) (check_scalars b64decode d)
unfolding check_scalars
check_scalars-Raises b64decode d = search response_rules depth 20

-- Whatever the answer holds, `_response` returns a response or raises a GoProtocolError without a code, or
-- else an OverflowError, and that only where the elapsed time or a number of the trace is an int too large
-- for a float.
pub response-Blamed :
    (b64decode : String → Option (List ℕ)) (d : Fields) → Raises (Blamed d) (response b64decode d)
unfolding response
response-Blamed b64decode d = search (response_rules, check_scalars-Raises) depth 16

abbrev pub OnlyBad : {A : Type 0} → Go A → Type 0
OnlyBad r = Raises (λ f. (f ≡ bad_protocol) ⊎ (f ≡ overflow)) r

pub response-OnlyBad :
    (b64decode : String → Option (List ℕ)) (d : Fields) → OnlyBad (response b64decode d)
response-OnlyBad b64decode d = record {
  at = λ f h. elim ((response-Blamed b64decode d).at f h) [ inl e ↦ inl e | inr (e, big) ↦ inr e ];
}
