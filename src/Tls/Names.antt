-- ===== src/Tls/Names.antt =====
-- The name tables and `_tls_name` of python/gohttpx.py. A Python dict from numbers to names is an
-- association list with distinct keys.
pub mod Grease
use Prim.Native.Char.{Char}
use Prim.Native.String
use go_httpx.Prelude.Bits.{bit_and}
use go_httpx.Prelude.{
  ℕ, ◌/◌, ◌%◌, ◌^◌, String, Bool, true, false, ◌&&◌, ◌||◌, Option, none, some, List, [], ◌∷◌, ◌==◌,
  str_eq, if◌then◌else◌,
}

abbrev pub Table : Type 0
Table = List (ℕ × String)

abbrev pub cipher_names : Table
cipher_names =
    (0x1301, "TLS_AES_128_GCM_SHA256")
    ∷ (0x1302, "TLS_AES_256_GCM_SHA384")
    ∷ (0x1303, "TLS_CHACHA20_POLY1305_SHA256")
    ∷ (0xC02B, "TLS_ECDHE_ECDSA_WITH_AES_128_GCM_SHA256")
    ∷ (0xC02F, "TLS_ECDHE_RSA_WITH_AES_128_GCM_SHA256")
    ∷ (0xC02C, "TLS_ECDHE_ECDSA_WITH_AES_256_GCM_SHA384")
    ∷ (0xC030, "TLS_ECDHE_RSA_WITH_AES_256_GCM_SHA384")
    ∷ (0xCCA9, "TLS_ECDHE_ECDSA_WITH_CHACHA20_POLY1305_SHA256")
    ∷ (0xCCA8, "TLS_ECDHE_RSA_WITH_CHACHA20_POLY1305_SHA256")
    ∷ (0xC013, "TLS_ECDHE_RSA_WITH_AES_128_CBC_SHA")
    ∷ (0xC014, "TLS_ECDHE_RSA_WITH_AES_256_CBC_SHA")
    ∷ (0x009C, "TLS_RSA_WITH_AES_128_GCM_SHA256")
    ∷ (0x009D, "TLS_RSA_WITH_AES_256_GCM_SHA384")
    ∷ (0x002F, "TLS_RSA_WITH_AES_128_CBC_SHA")
    ∷ (0x0035, "TLS_RSA_WITH_AES_256_CBC_SHA")
    ∷ []

abbrev pub group_names : Table
group_names =
    (0x001D, "x25519")
    ∷ (0x0017, "secp256r1")
    ∷ (0x0018, "secp384r1")
    ∷ (0x0019, "secp521r1")
    ∷ (0x11EC, "X25519MLKEM768")
    ∷ []

abbrev pub signature_names : Table
signature_names =
    (0x0403, "ecdsa_secp256r1_sha256")
    ∷ (0x0503, "ecdsa_secp384r1_sha384")
    ∷ (0x0804, "rsa_pss_rsae_sha256")
    ∷ (0x0805, "rsa_pss_rsae_sha384")
    ∷ (0x0806, "rsa_pss_rsae_sha512")
    ∷ (0x0401, "rsa_pkcs1_sha256")
    ∷ (0x0501, "rsa_pkcs1_sha384")
    ∷ (0x0601, "rsa_pkcs1_sha512")
    ∷ []

abbrev pub version_names : Table
version_names = (0x0303, "TLS 1.2") ∷ (0x0304, "TLS 1.3") ∷ []

abbrev pub compression_names : Table
compression_names = (1, "zlib") ∷ (2, "brotli") ∷ (3, "zstd") ∷ []

-- `names.get(value)`
unfoldable pub lookup : ℕ → Table → Option String
lookup value [] = none
lookup value ((k, name) ∷ names) = if k == value then some name else lookup value names

-- `name in names.values()`
unfoldable pub is_name : String → Table → Bool
is_name name [] = false
is_name name ((_, n) ∷ names) = str_eq n name || is_name name names

-- `value & 0x0F0F == 0x0A0A and value >> 8 == value & 255`
unfoldable pub is_grease_id : ℕ → Bool
is_grease_id value = bit_and value 0x0F0F == 0x0A0A && value / 2 ^ 8 == bit_and value 255

-- The lower-case hexadecimal digit of a number below 16.
unfoldable pub hex_digit : ℕ → Char
hex_digit n = digit (n % 16)
  where
    digit : ℕ → Char
    digit n =
        if n == 0
        then "0"
        else if n == 1
        then "1"
        else if n == 2
        then "2"
        else if n == 3
        then "3"
        else if n == 4
        then "4"
        else if n == 5
        then "5"
        else if n == 6
        then "6"
        else if n == 7
        then "7"
        else if n == 8
        then "8"
        else if n == 9
        then "9"
        else if n == 10
        then "a"
        else if n == 11
        then "b"
        else if n == 12
        then "c"
        else if n == 13
        then "d"
        else if n == 14
        then "e"
        else "f"

-- `f"0x{value:04x}"`; every value that the code names is a 16-bit number
unfoldable pub hex_name : ℕ → String
unfolding hex_digit
hex_name value = String.◌∷◌ "0" (
    String.◌∷◌ "x" (
      String.◌∷◌ (hex_digit (value / 4096)) (
        String.◌∷◌ (hex_digit (value / 256))
          (String.◌∷◌ (hex_digit (value / 16)) (String.◌∷◌ (hex_digit value) String.[])))))

-- `item.startswith("0x")`
unfoldable pub is_hex_name : String → Bool
is_hex_name name = text.Mathlib.Text.starts_with name "0x"

abbrev pub or_hex : ℕ → Option String → String
or_hex value none = hex_name value
or_hex value (some name) = name

unfoldable pub tls_name : ℕ → Table → String
unfolding is_grease_id lookup
tls_name value names = if is_grease_id value then "GREASE" else or_hex value (lookup value names)
