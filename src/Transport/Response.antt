-- ===== src/Transport/Response.antt =====
-- `_response` of python/gohttpx.py: the checks on the answer to a target request, and the response
-- that is built from it. `b64decode` stands for `base64.b64decode(text, validate=True)`, `none` where
-- it raises.
pub mod Faults
pub mod Valid
use Prim.Native.Char.{code}
use Prim.Native.String
use go_httpx.Prelude.{
  ℕ, zero, suc, ◌+◌, ◌-◌, ◌/◌, ◌%◌, ◌^◌, String, Bool, true, false, ◌&&◌, ◌||◌, not, Option, none,
  some, List, [], ◌∷◌, map, str_eq, ◌==◌, ltb, leb, all, any, length, if◌then◌else◌, Result, ok,
  err, ◌>>=◌, ◌>>◌, guard, traverse,
}
use go_httpx.Prelude.Json.{
  Json, null, int, float, bool, str, arr, obj, pos, negsuc, Items, nil, cons, Fields, to_list, keys,
  get, contains, is_subset, is_text,
}
use go_httpx.Transport.{Fault, Go, bad_protocol, overflow}
use go_httpx.Transport.Envelope.{holds, is_string, is_full_string, is_bool, text_of}
use go_httpx.Transport.Session.{is_one, has_keys}

pub record HttpResponse : Type 0 where
  pub status : ℕ
  pub headers : List (List ℕ × List ℕ)
  pub body : List ℕ
  pub http_version : String
  pub reason_phrase : List ℕ
  pub go_trace : Option Fields
  pub go_dump : Option String

-- The code points of a text.
abbrev pub codes : String → List ℕ
codes String.[] = []
codes (String.◌∷◌ c s) = code c ∷ codes s

abbrev pub is_status : Json → Bool
is_status (int (pos n)) = leb 100 n && leb n 599
is_status _ = false

abbrev pub status_of : Option Json → ℕ
status_of (some (int (pos n))) = n
status_of _ = 0

-- The table `_HTTP_VERSIONS`.
unfoldable pub version_bytes : String → Option String
version_bytes v =
    if str_eq v "HTTP/1.0"
    then some "HTTP/1.0"
    else if str_eq v "HTTP/1.1"
    then some "HTTP/1.1"
    else if str_eq v "HTTP/2.0" || str_eq v "HTTP/2"
    then some "HTTP/2"
    else if str_eq v "HTTP/3.0" || str_eq v "HTTP/3"
    then some "HTTP/3"
    else none

-- `math.isfinite(x) and x >= 0` for a float that is given by its 64 bits; minus zero is not below
-- zero.
unfoldable pub is_measure_bits : ℕ → Bool
is_measure_bits bits =
    not (bits / 2 ^ 52 % 2048 == 2047) && (ltb bits (2 ^ 63) || bits % 2 ^ 63 == 0)

-- Where `float(n)` of an int raises an OverflowError: at the numbers that round to 2 ^ 1024.
unfoldable pub is_float_sized : ℕ → Bool
is_float_sized n = ltb n (2 ^ 1024 - 2 ^ 970)

-- `type(x) in (int, float) and math.isfinite(x) and x >= 0`, with an exception where it is false.
-- `isfinite` makes a float of an int.
unfoldable pub measure : Option Json → Go (Unit {0})
unfolding is_float_sized is_measure_bits
measure (some (int (pos n))) = guard (is_float_sized n) overflow
measure (some (int (negsuc n))) = guard (is_float_sized (n + 1)) overflow >> err bad_protocol
measure (some (float bits)) = guard (is_measure_bits bits) bad_protocol
measure _ = err bad_protocol

-- `text.encode("ascii")` and `text.encode("latin-1")`
abbrev pub encode : ℕ → String → Go (List ℕ)
encode limit text =
    if all (λ c. ltb c limit) (codes text) then ok (codes text) else err bad_protocol

-- `_HTTP_TOKEN_BYTES`
unfoldable pub is_token_byte : ℕ → Bool
is_token_byte b =
    (leb b'0' b && leb b b'9')
    || (leb b'A' b && leb b b'Z')
    || (leb b'^' b && leb b b'z')
    || b == b'!'
    || (leb b'#' b && leb b b'\'')
    || b == b'*'
    || b == b'+'
    || b == b'-'
    || b == b'.'
    || b == b'|'
    || b == b'~'

-- `(byte < 32 and byte != 9) or byte == 127`
unfoldable pub is_control_byte : ℕ → Bool
is_control_byte b = (ltb b 32 && not (b == 9)) || b == 127

abbrev pub is_empty {ℓ} : {A : Type ℓ} → List A → Bool
is_empty [] = true
is_empty (x ∷ xs) = false

unfoldable pub header_pair : Json → Go (List ℕ × List ℕ)
header_pair (arr (cons (str n) (cons (str v) nil))) = do
  name ← encode 128 n
  value ← encode 256 v
  guard (not (is_empty name) && all is_token_byte name) bad_protocol
  guard (not (any is_control_byte value)) bad_protocol
  ok (name, value)
header_pair _ = err bad_protocol

unfoldable pub header_pairs : Option Json → Go (List (List ℕ × List ℕ))
header_pairs (some (arr pairs)) = traverse header_pair (to_list pairs)
header_pairs _ = err bad_protocol

unfoldable pub reason_bytes : Option Json → Go (List ℕ)
reason_bytes (some (str reason)) = do
  bytes ← encode 256 reason
  guard (not (any is_control_byte bytes)) bad_protocol
  ok bytes
reason_bytes _ = err bad_protocol

-- The numbers of a trace. The code takes them in the order of a set.
abbrev pub trace_measures : List String
trace_measures =
    "dns_lookup_ms" ∷ "connect_ms" ∷ "tls_handshake_ms" ∷ "first_byte_ms" ∷ "response_ms"
    ∷ "total_ms" ∷ []

unfoldable pub check_trace : Option Json → Go (Option Fields)
check_trace none = ok none
check_trace (some null) = ok none
check_trace (some (obj trace)) = do
  guard
      (has_keys
        ("dns_lookup_ms" ∷ "connect_ms" ∷ "tls_handshake_ms" ∷ "first_byte_ms" ∷ "response_ms"
          ∷ "total_ms" ∷ "connection_reused" ∷ "remote_address" ∷ [])
        trace)
      bad_protocol
  _ ← traverse (λ name. measure (get name trace)) trace_measures
  guard
      (holds is_bool (get "connection_reused" trace)
        && holds is_string (get "remote_address" trace))
      bad_protocol
  ok (some trace)
check_trace (some other) = err bad_protocol

unfoldable pub check_dump : Option Json → Go (Option String)
check_dump none = ok none
check_dump (some null) = ok none
check_dump (some (str dump)) = ok (some dump)
check_dump (some other) = err bad_protocol

abbrev required_keys : List String
required_keys =
    "protocol_version" ∷ "request_id" ∷ "status_code" ∷ "reason_phrase" ∷ "headers" ∷ "body_base64"
    ∷ "url" ∷ "http_version" ∷ "elapsed_ms" ∷ []

abbrev optional_keys : List String
optional_keys =
    "protocol_version" ∷ "request_id" ∷ "status_code" ∷ "reason_phrase" ∷ "headers" ∷ "body_base64"
    ∷ "url" ∷ "http_version" ∷ "elapsed_ms" ∷ "trace" ∷ "dump" ∷ []

abbrev pub or_protocol_error : {A : Type 0} → Option A → Go A
or_protocol_error none = err bad_protocol
or_protocol_error (some a) = ok a

abbrev pub decode_body : (String → Option (List ℕ)) → Option Json → Go (List ℕ)
decode_body b64decode (some (str text)) = or_protocol_error (b64decode text)
decode_body b64decode _ = err bad_protocol

abbrev pub known_version : Option Json → Go String
known_version (some (str v)) = or_protocol_error (version_bytes v)
known_version _ = err bad_protocol

module _ (b64decode : String → Option (List ℕ)) where
  -- The first group of checks, up to `elapsed_ms`; it gives the version's bytes.
  unfoldable pub check_scalars : Fields → Go String
  check_scalars data_fields = do
    guard (is_subset required_keys (keys data_fields) && is_subset (keys data_fields) optional_keys)
        bad_protocol
    guard (holds is_one (get "protocol_version" data_fields)) bad_protocol
    guard (holds is_full_string (get "request_id" data_fields)) bad_protocol
    guard (holds is_status (get "status_code" data_fields)) bad_protocol
    guard (holds is_string (get "reason_phrase" data_fields)) bad_protocol
    http_version ← known_version (get "http_version" data_fields)
    guard (holds is_string (get "url" data_fields)) bad_protocol
    measure (get "elapsed_ms" data_fields)
    ok http_version

  unfoldable pub response : Fields → Go HttpResponse
  response data_fields = do
    http_version ← check_scalars data_fields
    headers ← header_pairs (get "headers" data_fields)
    body ← decode_body b64decode (get "body_base64" data_fields)
    reason ← reason_bytes (get "reason_phrase" data_fields)
    trace ← check_trace (get "trace" data_fields)
    dump ← check_dump (get "dump" data_fields)
    ok (record {
      status = status_of (get "status_code" data_fields);
      headers = headers;
      body = body;
      http_version = http_version;
      reason_phrase = reason;
      go_trace = trace;
      go_dump = dump;
    })
