-- ===== src/Tls/Wire.antt =====
-- Length-prefixed vectors, TLS records and big-endian numbers: `_take_vector`, `_uint16_list` and
-- `_unwrap_client_hello` of python/gohttpx.py.
pub mod Vector
pub mod Records
pub mod Sent
use mathlib.Core.List.{foldl}
use go_httpx.Prelude.{
  ℕ, zero, suc, ◌+◌, ◌-◌, ◌*◌, ◌%◌, ◌<◌, Bool, true, false, ◌&&◌, ◌||◌, not, List, [], ◌∷◌, ◌++◌,
  Option, none, some, length, get_elem?, take, drop, slice, ltb, leb, ◌==◌, if◌then◌else◌, Result,
  ok, err, ◌>>=◌, ◌>>◌, guard,
}

-- One constructor for each `raise ValueError` on the way; `not_ascii` is the UnicodeDecodeError of
-- `item.decode("ascii")`.
pub data HelloError : Type 0 where
  bad_text bad_hello_length record_incomplete record_trailing not_client_hello : HelloError
  truncated bad_list_length bad_alpn_length protocol_truncated not_ascii : HelloError
  unsupported_protocol no_protocols bad_key_share key_share_truncated bad_key_share_group :
      HelloError
  not_grease_ech bad_ech_suite bad_ech_length bad_point_formats bad_compression : HelloError
  unknown_compression bad_record_size no_algorithms bad_versions unknown_version : HelloError
  bad_psk_modes unknown_extension hello_too_short hello_trailing bad_cipher_suites : HelloError
  extension_truncated no_versions no_tls_version : HelloError

abbrev pub Hello {ℓ} : Type ℓ → Type ℓ
Hello A = Result HelloError A

-- `int.from_bytes(data, "big")`
unfoldable pub from_bytes : List ℕ → ℕ
from_bytes = foldl (λ n b. n * 256 + b) 0

unfoldable pub take_vector : List ℕ → ℕ → ℕ → Hello (List ℕ × ℕ)
take_vector data_bytes offset width = do
  guard (leb (offset + width) (length data_bytes)) truncated
  let size = from_bytes (slice data_bytes offset (offset + width))
  let start = offset + width
  let finish = start + size
  guard (leb finish (length data_bytes)) truncated
  ok (slice data_bytes start finish, finish)

-- `[int.from_bytes(body[i:i + 2], "big") for i in range(0, len(body), 2)]`; at an odd length the
-- last slice has one byte.
unfoldable pub uint16s : List ℕ → List ℕ
uint16s [] = []
uint16s (a ∷ []) = from_bytes (a ∷ []) ∷ []
uint16s (a ∷ b ∷ rest) = from_bytes (a ∷ b ∷ []) ∷ uint16s rest

unfoldable pub uint16_list : List ℕ → ℕ → Hello (List ℕ)
uint16_list data_bytes prefix = do
  (body, offset) ← take_vector data_bytes 0 prefix
  guard (offset == length data_bytes && length body % 2 == 0) bad_list_length
  ok (uint16s body)

-- `payload[offset] == byte`, where the caller knows that the offset is inside
abbrev pub byte_at : List ℕ → ℕ → ℕ → Bool
byte_at payload offset byte = elim (get_elem? payload offset) [ none ↦ false | some b ↦ b == byte ]

-- The `while` of `_unwrap_client_hello`. Each round passes five bytes at least, so `length payload`
-- rounds are enough. The result is the handshake so far and the offset at which the loop ended.
unfoldable pub unwrap_records : ℕ → List ℕ → ℕ → List ℕ → Hello (List ℕ × ℕ)
unwrap_records zero payload offset handshake = ok (handshake, offset)
unwrap_records (suc fuel) payload offset handshake =
    let size = from_bytes (slice payload (offset + 3) (offset + 5)) in
    let chunk = slice payload (offset + 5) (offset + 5 + size) in
    let rest = unwrap_records fuel payload (offset + (5 + size)) (handshake ++ chunk) in
    if leb (offset + 5) (length payload) && byte_at payload offset 0x16
    then (if ltb 18432 size || not (length chunk == size) then err record_incomplete else rest)
    else ok (handshake, offset)

-- `payload[:1] != b"\x01" or int.from_bytes(payload[1:4], "big") != len(payload) - 4`, where the
-- length may be below four
unfoldable pub check_handshake : List ℕ → Hello (List ℕ)
check_handshake payload = do
  guard (byte_at payload 0 1 && from_bytes (slice payload 1 4) + 4 == length payload)
      not_client_hello
  ok payload

unfoldable pub unwrap_client_hello : List ℕ → Hello (List ℕ)
unwrap_client_hello payload =
    guard (leb 6 (length payload) && leb (length payload) 65536) bad_hello_length
    >> (if byte_at payload 0 0x16
        then (do
          (handshake, offset) ← unwrap_records (length payload) payload 0 []
          guard (offset == length payload) record_trailing
          check_handshake handshake)
        else check_handshake payload)
