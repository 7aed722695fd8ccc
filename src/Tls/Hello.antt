-- ===== src/Tls/Hello.antt =====
-- `tls_spec_from_client_hello` of python/gohttpx.py, for a capture that is given as bytes.
pub mod Sent
pub mod RoundTrip
pub mod Versions
use go_httpx.Prelude.{
  ℕ, zero, suc, ◌+◌, ◌%◌, min, max, String, Bool, true, false, ◌&&◌, ◌||◌, not, List, [], ◌∷◌, ◌++◌,
  map, Option, none, some, length, slice, ltb, leb, ◌==◌, if◌then◌else◌, ok, err, ◌>>=◌, ◌>>◌,
  guard,
}
use go_httpx.Prelude.Json.{
  Json, null, bool, int, float, str, arr, obj, Items, nil, cons, pos, object, array, strings, get,
  to_list, is_text,
}
use go_httpx.Tls.Names.{cipher_names}
use go_httpx.Tls.Wire.{
  Hello, HelloError, hello_too_short, hello_trailing, bad_cipher_suites, extension_truncated,
  no_versions, no_tls_version, from_bytes, take_vector, uint16s, unwrap_client_hello,
}
use go_httpx.Tls.Extension.{bytes_eq, names_of, parse_hello_extension}

-- The `while` over the extensions from `cursor` on. A round passes four bytes at least, so
-- `length extensions` rounds are enough.
unfoldable pub extension_specs : ℕ → List ℕ → ℕ → Hello (List Json)
extension_specs zero extensions cursor = ok []
extension_specs (suc fuel) extensions cursor =
    let kind = from_bytes (slice extensions cursor (cursor + 2)) in
    let size = from_bytes (slice extensions (cursor + 2) (cursor + 4)) in
    let body = slice extensions (cursor + 4) (cursor + 4 + size) in
    let rest = extension_specs fuel extensions (cursor + (4 + size)) in
    if leb (length extensions) cursor then ok [] else (do
      guard (leb (cursor + 4) (length extensions)) extension_truncated
      guard (length body == size) extension_truncated
      spec ← parse_hello_extension kind body
      specs ← rest
      ok (spec ∷ specs))

-- `item.get(key)` of an item that is a dict
abbrev get_item : String → Json → Option Json
get_item key (obj kvs) = get key kvs
get_item key _ = none

abbrev has_name : String → Json → Bool
has_name name item = elim (get_item "name" item) [ none ↦ false | some n ↦ is_text name n ]

abbrev elements : Option Json → List Json
elements (some (arr xs)) = to_list xs
elements _ = []

-- `next((item["versions"] for item in … if item.get("name") == "supported_versions"), None)`; the
-- caller treats None and the empty list alike.
unfoldable pub find_versions : List Json → List Json
find_versions [] = []
find_versions (item ∷ rest) =
    if has_name "supported_versions" item
    then elements (get_item "versions" item)
    else find_versions rest

-- `[0x0303 if item == "TLS 1.2" else 0x0304 for item in versions if item != "GREASE"]`
unfoldable pub numeric_versions : List Json → List ℕ
numeric_versions [] = []
numeric_versions (item ∷ rest) =
    let more = numeric_versions rest in
    if is_text "GREASE" item
    then more
    else (if is_text "TLS 1.2" item then 0x0303 else 0x0304) ∷ more

-- `min` and `max` of a list with a first element
unfoldable pub min_list : ℕ → List ℕ → ℕ
min_list n [] = n
min_list n (m ∷ ms) = min_list (min n m) ms

unfoldable pub max_list : ℕ → List ℕ → ℕ
max_list n [] = n
max_list n (m ∷ ms) = max_list (max n m) ms

abbrev pub non_empty : List Json → Bool
non_empty [] = false
non_empty (x ∷ xs) = true

-- The dict that is returned, its keys in the order of their insertion.
abbrev pub spec_object : List String → List Json → ℕ → ℕ → Json
spec_object ciphers extensions min_vers max_vers = object (
    ("cipher_suites", strings ciphers)
    ∷ ("compression_methods", strings ("NULL" ∷ []))
    ∷ ("extensions", array extensions)
    ∷ ("shuffle_extensions", bool false)
    ∷ ("min_vers", int (pos min_vers))
    ∷ ("max_vers", int (pos max_vers))
    ∷ [])

abbrev pub spec_of_versions : List String → List Json → List ℕ → Hello Json
spec_of_versions ciphers extensions [] = err no_tls_version
spec_of_versions ciphers extensions (v ∷ vs) =
    ok (spec_object ciphers extensions (min_list v vs) (max_list v vs))

-- From the parsed extensions to the returned dict.
unfoldable pub finish_spec : List String → List Json → Hello Json
finish_spec ciphers extensions = do
  let versions = find_versions extensions
  guard (non_empty versions) no_versions
  spec_of_versions ciphers extensions (numeric_versions versions)

-- From the unwrapped handshake on. `offset + 34` passes the legacy version and the random.
unfoldable pub spec_of_hello : List ℕ → Hello Json
spec_of_hello hello = do
  guard (leb (4 + 34) (length hello)) hello_too_short
  (_, offset_1) ← take_vector hello (4 + 34) 1
  (ciphers, offset_2) ← take_vector hello offset_1 2
  (compression, offset_3) ← take_vector hello offset_2 1
  (extensions, offset) ← take_vector hello offset_3 2
  guard (offset == length hello) hello_trailing
  guard (leb 2 (length ciphers) && length ciphers % 2 == 0 && bytes_eq compression (0 ∷ []))
      bad_cipher_suites
  specs ← extension_specs (length extensions) extensions 0
  finish_spec (names_of cipher_names (uint16s ciphers)) specs

unfoldable pub tls_spec_from_client_hello : List ℕ → Hello Json
tls_spec_from_client_hello payload = do hello ← unwrap_client_hello payload; spec_of_hello hello
