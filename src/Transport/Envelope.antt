-- ===== src/Transport/Envelope.antt =====
-- `_decode_json` and `_raise_service_error` of python/gohttpx.py.
pub mod Scan
use go_httpx.Prelude.{
  ℕ, zero, suc, ◌+◌, String, Bool, true, false, ◌&&◌, ◌||◌, not, Option, none, some, List, [], ◌∷◌,
  ◌++◌, map, str_eq, if◌then◌else◌, Result, ok, err, ◌>>=◌, ◌>>◌, guard,
}
use go_httpx.Prelude.Json.{
  Json, null, bool, int, float, str, arr, obj, Items, nil, cons, Fields, end, field, to_list,
  entries, keys, get, contains, is_subset,
}
use go_httpx.Transport.{
  Fault, Go, bad_protocol, protocol_error, upstream, Upstream, timeout, connect, remote_protocol,
  Reply,
}

-- `reject_duplicate`, the hook that `json.loads` calls with the pairs of each object: the dict of the
-- pairs, or a ValueError. The same hook stands in `_normalize_tls_spec` and, as `_strict_object`, in
-- _gohttpx_runtime.py.
unfoldable pub collect : List (String × Json) → List (String × Json) → Option (List (String × Json))
collect result [] = some result
collect result ((key, value) ∷ pairs) =
    let rest = collect (result ++ (key, value) ∷ []) pairs in
    if contains key (map (λ kv. kv.0) result) then none else rest

unfoldable pub reject_duplicate : List (String × Json) → Option (List (String × Json))
unfolding collect
reject_duplicate pairs = collect [] pairs

abbrev pub values : Fields → List Json
values end = []
values (field k v fs) = v ∷ values fs

-- `pending.pop()` takes the last entry, so the list stands in the opposite order. `extend` appends
-- the children in their order.
abbrev pub push_all : List Json → List Json → List Json
push_all [] pending = pending
push_all (v ∷ vs) pending = push_all vs (v ∷ pending)

-- The `while pending` loop: whether it meets a null. `none` means that the fuel ran out.
unfoldable pub scan_null : ℕ → List Json → Option Bool
scan_null fuel [] = some false
scan_null zero (value ∷ pending) = none
scan_null (suc fuel) (null ∷ pending) = some true
scan_null (suc fuel) (obj fs ∷ pending) = scan_null fuel (push_all (values fs) pending)
scan_null (suc fuel) (arr xs ∷ pending) = scan_null fuel (push_all (to_list xs) pending)
scan_null (suc fuel) (bool b ∷ pending) = scan_null fuel pending
scan_null (suc fuel) (int n ∷ pending) = scan_null fuel pending
scan_null (suc fuel) (float x ∷ pending) = scan_null fuel pending
scan_null (suc fuel) (str s ∷ pending) = scan_null fuel pending

-- The number of values in a value, itself included: each is popped once.
unfoldable mutual
  pub values_in_fields : Fields → ℕ
  values_in_fields (field key value rest) = values_in value + values_in_fields rest
  values_in_fields end = 0

  pub values_in_items : Items → ℕ
  values_in_items (cons value rest) = values_in value + values_in_items rest
  values_in_items nil = 0

  pub values_in : Json → ℕ
  values_in (obj members) = 1 + values_in_fields members
  values_in (arr elements) = 1 + values_in_items elements
  values_in null = 1
  values_in (bool b) = 1
  values_in (str text) = 1
  values_in (int n) = 1
  values_in (float bits) = 1

abbrev as_object : Json → Go Fields
as_object (obj fs) = ok fs
as_object _ = err bad_protocol

abbrev after_scan : Option Bool → Json → Go Fields
after_scan (some false) value = as_object value
after_scan _ value = err bad_protocol

abbrev loaded : Option Json → Go Json
loaded none = err bad_protocol
loaded (some value) = ok value

unfoldable pub decode_json : Reply → Go Fields
decode_json reply = do
  guard (str_eq reply.media_type "application/json") bad_protocol
  value ← loaded reply.decoded
  after_scan (scan_null (values_in value) (value ∷ [])) value

abbrev pub is_string : Json → Bool
is_string (str s) = true
is_string _ = false

-- `isinstance(value, str) and value`
abbrev pub is_full_string : Json → Bool
is_full_string (str s) = not (str_eq s "")
is_full_string _ = false

abbrev pub is_bool : Json → Bool
is_bool (bool b) = true
is_bool _ = false

abbrev pub holds : (Json → Bool) → Option Json → Bool
holds p none = false
holds p (some v) = p v

abbrev pub text_of : Option Json → String
text_of (some (str s)) = s
text_of _ = ""

abbrev pub optional_text : Option Json → Option String
optional_text (some (str s)) = some s
optional_text _ = none

-- `value is None or isinstance(value, str)`
abbrev pub is_optional_text : Option Json → Bool
is_optional_text none = true
is_optional_text (some null) = true
is_optional_text (some v) = is_string v

-- The dict of exception types.
unfoldable pub exception_type : String → Option Upstream
exception_type code =
    if str_eq code "UPSTREAM_TIMEOUT"
    then some timeout
    else (if str_eq code "UPSTREAM_DNS_ERROR"
          || str_eq code "UPSTREAM_CONNECT_ERROR"
          || str_eq code "UPSTREAM_TLS_ERROR"
        then some connect
        else (if str_eq code "UPSTREAM_PROTOCOL_ERROR" then some remote_protocol else none))

-- The checks on the `error` object; then the exception that its code names.
unfoldable pub error_fault : Fields → Fault
error_fault error =
    if not (is_subset ("code" ∷ "message" ∷ "retryable" ∷ []) (keys error))
      || not (is_subset (keys error) ("code" ∷ "message" ∷ "retryable" ∷ "request_id" ∷ []))
    then bad_protocol
    else (if not (holds is_full_string (get "code" error))
          || not (holds is_string (get "message" error))
          || not (holds is_bool (get "retryable" error))
        then bad_protocol
        else (if not (is_optional_text (get "request_id" error))
            then bad_protocol
            else (let code = text_of (get "code" error) in
                let request_id = optional_text (get "request_id" error) in
                elim (exception_type code) [
                  | none ↦ protocol_error (some code) request_id
                  | some kind ↦ upstream kind code request_id
                ])))

-- `_raise_service_error` always raises.
unfoldable pub service_error : Fields → Fault
unfolding error_fault
service_error (field key (obj error) end) =
    if str_eq key "error" then error_fault error else bad_protocol
service_error _ = bad_protocol
