-- ===== src/Tls/Extension.antt =====
-- The extensions of a ClientHello: `_protocol_list`, `_parse_key_shares`, `_parse_grease_ech` and
-- `_parse_hello_extension` of python/gohttpx.py. Each gives the dict of the `tls_spec` as JSON.
pub mod Dynamic
use go_httpx.Prelude.{
  ℕ, zero, suc, ◌+◌, ◌-◌, ◌%◌, String, Bool, true, false, ◌&&◌, ◌||◌, not, List, [], ◌∷◌, map, none,
  some, length, slice, all, any, ltb, leb, ◌==◌, str_eq, if◌then◌else◌, ok, err, ◌>>=◌, ◌>>◌, guard,
  traverse,
}
use go_httpx.Prelude.Json.{Json, str, int, pos, object, array, strings}
use go_httpx.Tls.Names.{
  group_names, signature_names, version_names, compression_names, lookup, is_name, is_grease_id,
  is_hex_name, tls_name,
}
use go_httpx.Tls.Wire.{
  Hello, HelloError, bad_alpn_length, protocol_truncated, not_ascii, unsupported_protocol,
  no_protocols, bad_key_share, key_share_truncated, bad_key_share_group, not_grease_ech,
  bad_ech_suite, bad_ech_length, bad_point_formats, bad_compression, unknown_compression,
  bad_record_size, no_algorithms, bad_versions, unknown_version, bad_psk_modes, unknown_extension,
  from_bytes, take_vector, uint16s, uint16_list, byte_at,
}

abbrev pub bytes_eq : List ℕ → List ℕ → Bool
bytes_eq [] [] = true
bytes_eq [] (y ∷ ys) = false
bytes_eq (x ∷ xs) [] = false
bytes_eq (x ∷ xs) (y ∷ ys) = x == y && bytes_eq xs ys

-- The bytes of "h2" and of "http/1.1".
abbrev pub h2 : List ℕ
h2 = b'h' ∷ b'2' ∷ []

abbrev pub http_1_1 : List ℕ
http_1_1 = b'h' ∷ b't' ∷ b't' ∷ b'p' ∷ b'/' ∷ b'1' ∷ b'.' ∷ b'1' ∷ []

-- `item.decode("ascii")` and the test `name not in ("h2", "http/1.1")`: a decoded text is one of the
-- two exactly where the bytes are.
unfoldable pub protocol_name : List ℕ → Hello String
protocol_name item =
    if not (all (λ b. ltb b 128) item)
    then err not_ascii
    else (if bytes_eq item h2
        then ok "h2"
        else (if bytes_eq item http_1_1 then ok "http/1.1" else err unsupported_protocol))

-- The rest of the body from `cursor` on. A round takes the length byte, so `length body` rounds are
-- enough.
unfoldable pub protocol_names : ℕ → List ℕ → Hello (List String)
protocol_names fuel [] = ok []
protocol_names zero (size ∷ rest) = ok []
protocol_names (suc fuel) (size ∷ rest) =
    let item = slice rest 0 size in
    let more = protocol_names fuel (slice rest size (length rest)) in
    do
      guard (length item == size) protocol_truncated
      name ← protocol_name item
      names ← more
      ok (name ∷ names)

abbrev pub require_some {ℓ} : {A : Type ℓ} → HelloError → List A → Hello (List A)
require_some e [] = err e
require_some e (x ∷ xs) = ok (x ∷ xs)

unfoldable pub protocol_list : List ℕ → Hello (List String)
protocol_list data_bytes = do
  (body, offset) ← take_vector data_bytes 0 2
  guard (offset == length data_bytes) bad_alpn_length
  names ← protocol_names (length body) body
  require_some no_protocols names

-- `name != "GREASE" and name not in _TLS_GROUPS.values()`
unfoldable pub share_group : ℕ → Hello Json
share_group group =
    let name = tls_name group group_names in
    guard (str_eq name "GREASE" || is_name name group_names) bad_key_share_group
    >> ok (object (("group", str name) ∷ []))

-- The entries from `cursor` on. A round passes four bytes at least.
unfoldable pub key_shares : ℕ → List ℕ → ℕ → Hello (List Json)
key_shares zero body cursor = ok []
key_shares (suc fuel) body cursor =
    let group = from_bytes (slice body cursor (cursor + 2)) in
    let size = from_bytes (slice body (cursor + 2) (cursor + 4)) in
    let rest = key_shares fuel body (cursor + (4 + size)) in
    if leb (length body) cursor then ok [] else (do
      guard (leb (cursor + 4) (length body)) key_share_truncated
      guard (leb (cursor + (4 + size)) (length body)) key_share_truncated
      share ← share_group group
      shares ← rest
      ok (share ∷ shares))

unfoldable pub parse_key_shares : List ℕ → Hello (List Json)
parse_key_shares data_bytes = do
  (body, offset) ← take_vector data_bytes 0 2
  guard (offset == length data_bytes && ltb 0 (length body)) bad_key_share
  key_shares (length body) body 0

-- `value in (1, 2, 3)`
abbrev pub one_to_three : ℕ → Bool
one_to_three n = n == 1 || n == 2 || n == 3

unfoldable pub parse_grease_ech : List ℕ → Hello Json
parse_grease_ech data_bytes = do
  guard (leb 10 (length data_bytes) && byte_at data_bytes 0 0) not_grease_ech
  let kdf_id = from_bytes (slice data_bytes 1 3)
  let aead_id = from_bytes (slice data_bytes 3 5)
  guard (one_to_three kdf_id && one_to_three aead_id) bad_ech_suite
  (encapsulated_key, offset) ← take_vector data_bytes 6 2
  (payload, finish) ← take_vector data_bytes offset 2
  guard (finish == length data_bytes && length encapsulated_key == 32 && ltb 16 (length payload))
      bad_ech_length
  ok (
      object (
        ("name", str "encrypted_client_hello")
        ∷ (
          "candidate_cipher_suites",
          array (object (("kdf_id", int (pos kdf_id)) ∷ ("aead_id", int (pos aead_id)) ∷ []) ∷ []),
        )
        ∷ ("candidate_payload_lens", array (int (pos (length payload - 16)) ∷ []))
        ∷ []))

abbrev pub named : String → Json
named name = object (("name", str name) ∷ [])

abbrev pub with_strings : String → String → List String → Json
with_strings name key texts = object (("name", str name) ∷ (key, strings texts) ∷ [])

unfoldable pub names_of : List (ℕ × String) → List ℕ → List String
names_of table = map (λ v. tls_name v table)

abbrev pub compression_name : ℕ → Hello String
compression_name item = elim (lookup item compression_names) [
  | none ↦ err unknown_compression
  | some name ↦ ok name
]

unfoldable pub compress_certificate : List ℕ → Hello Json
compress_certificate data_bytes = do
  (body, offset) ← take_vector data_bytes 0 1
  guard (offset == length data_bytes && length body % 2 == 0) bad_compression
  algorithms ← traverse compression_name (uint16s body)
  ok (with_strings "compress_certificate" "algorithms" algorithms)

unfoldable pub record_size_limit : List ℕ → Hello Json
record_size_limit data_bytes = do
  guard (length data_bytes == 2) bad_record_size
  let limit = from_bytes data_bytes
  guard (leb 64 limit && leb limit 16385) bad_record_size
  ok (object (("name", str "record_size_limit") ∷ ("record_size_limit", int (pos limit)) ∷ []))

unfoldable pub delegated_credentials : List ℕ → Hello Json
delegated_credentials data_bytes = do
  values ← uint16_list data_bytes 2
  algorithms ← require_some no_algorithms values
  ok (
      with_strings "delegated_credentials" "supported_signature_algorithms"
        (names_of signature_names algorithms))

unfoldable pub supported_versions : List ℕ → Hello Json
supported_versions data_bytes = do
  (values, offset) ← take_vector data_bytes 0 1
  guard (offset == length data_bytes && length values % 2 == 0) bad_versions
  let versions = names_of version_names (uint16s values)
  guard (not (any is_hex_name versions)) unknown_version
  ok (with_strings "supported_versions" "versions" versions)

abbrev pub listed : String → String → List (ℕ × String) → Hello (List ℕ) → Hello Json
listed name key table values = values >>= λ ids. ok (with_strings name key (names_of table ids))

abbrev pub protocols : String → String → Hello (List String) → Hello Json
protocols name key names = names >>= λ texts. ok (with_strings name key texts)

abbrev pub fixed : Bool → HelloError → Json → Hello Json
fixed test e value = guard test e >> ok value

-- The tests of `_parse_hello_extension` in their order.
unfoldable pub parse_hello_extension : ℕ → List ℕ → Hello Json
parse_hello_extension kind body =
    if is_grease_id kind
    then ok (named "GREASE")
    else if kind == 0
    then ok (named "server_name")
    else if kind == 5
    then ok (named "status_request")
    else if kind == 10
    then listed "supported_groups" "named_group_list" group_names (uint16_list body 2)
    else if kind == 11
    then fixed (bytes_eq body (1 ∷ 0 ∷ [])) bad_point_formats
        (with_strings "ec_point_formats" "ec_point_format_list" ("uncompressed" ∷ []))
    else if kind == 13
    then listed "signature_algorithms" "supported_signature_algorithms" signature_names
        (uint16_list body 2)
    else if kind == 16
    then protocols "application_layer_protocol_negotiation" "protocol_name_list"
        (protocol_list body)
    else if kind == 18
    then ok (named "signed_certificate_timestamp")
    else if kind == 23
    then ok (named "extended_master_secret")
    else if kind == 27
    then compress_certificate body
    else if kind == 28
    then record_size_limit body
    else if kind == 34
    then delegated_credentials body
    else if kind == 35
    then ok (named "session_ticket")
    else if kind == 43
    then supported_versions body
    else if kind == 45
    then fixed (bytes_eq body (1 ∷ 1 ∷ [])) bad_psk_modes
        (with_strings "psk_key_exchange_modes" "ke_modes" ("psk_dhe_ke" ∷ []))
    else if kind == 51
    then (parse_key_shares body >>= λ shares.
        ok (object (("name", str "key_share") ∷ ("client_shares", array shares) ∷ [])))
    else if kind == 17513
    then protocols "application_settings" "supported_protocols" (protocol_list body)
    else if kind == 17613
    then protocols "application_settings_new" "supported_protocols" (protocol_list body)
    else if kind == 65037
    then parse_grease_ech body
    else if kind == 65281
    then ok (named "renegotiation_info")
    else err unknown_extension
