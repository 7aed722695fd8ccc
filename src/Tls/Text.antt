-- ===== src/Tls/Text.antt =====
-- The input of `tls_spec_from_client_hello` in python/gohttpx.py: bytes, hexadecimal text, the text of a
-- hex dump, or a file of one of them. A text is the list of its code points.
pub mod Pieces
pub mod Digits
pub mod Dump
pub mod Compact
pub mod Import
use go_httpx.Prelude.{
  ℕ, suc, ◌+◌, ◌-◌, ◌*◌, ◌%◌, Bool, true, false, ◌&&◌, ◌||◌, not, Option, none, some, List, [], ◌∷◌,
  ◌++◌, ◌==◌, leb, ltb, all, any, length, if◌then◌else◌, Result, ok, err, ◌>>=◌, ◌>>◌, guard,
}
use go_httpx.Prelude.Json.{Json}
use go_httpx.Tls.Wire.{HelloError, bad_text, Hello}
use go_httpx.Tls.Hello.{tls_spec_from_client_hello}

abbrev pub Text : Type 0
Text = List ℕ

abbrev pub among : ℕ → List ℕ → Bool
among c [] = false
among c (d ∷ ds) = if d == c then true else among c ds

abbrev pub between : ℕ → ℕ → ℕ → Bool
between low high c = leb low c && leb c high

-- The characters at which `str.split()` cuts.
abbrev pub is_space : ℕ → Bool
is_space c =
    between 9 13 c
    || between 28 32 c
    || between 8192 8202 c
    || among c (133 ∷ 160 ∷ 5760 ∷ 8232 ∷ 8233 ∷ 8239 ∷ 8287 ∷ 12288 ∷ [])

-- The characters at which `str.splitlines()` cuts. It takes "\r\n" for one break; here a line without
-- words stands between the two.
abbrev pub is_break : ℕ → Bool
is_break c = between 10 13 c || between 28 30 c || among c (133 ∷ 8232 ∷ 8233 ∷ [])

abbrev pub attach : ℕ → List Text → List Text
attach c [] = (c ∷ []) ∷ []
attach c (piece ∷ more) = (c ∷ piece) ∷ more

abbrev pub pieces : (ℕ → Bool) → Text → List Text
pieces cuts [] = [] ∷ []
pieces cuts (c ∷ cs) = let more = pieces cuts cs in if cuts c then [] ∷ more else attach c more

abbrev pub drop_empty : List Text → List Text
drop_empty [] = []
drop_empty ([] ∷ more) = drop_empty more
drop_empty ((c ∷ cs) ∷ more) = (c ∷ cs) ∷ drop_empty more

abbrev pub words : Text → List Text
words line = drop_empty (pieces is_space line)

abbrev pub is_hex : ℕ → Bool
is_hex c = between 48 57 c || between 65 70 c || between 97 102 c

abbrev pub hex_value : ℕ → ℕ
hex_value c = if leb c 57 then c - 48 else if leb c 70 then c - 55 else c - 87

-- `re.fullmatch(r"[0-9A-Fa-f]{3,8}", word)`
abbrev pub is_offset : Text → Bool
is_offset word = between 3 8 (length word) && all is_hex word

-- `int(token, 16)` of a token of two digits.
abbrev pub byte_of : Text → Option ℕ
byte_of (a ∷ b ∷ []) = if is_hex a && is_hex b then some (hex_value a * 16 + hex_value b) else none
byte_of _ = none

abbrev pub collect_byte : Option ℕ → List ℕ → List ℕ
collect_byte none more = []
collect_byte (some b) more = b ∷ more

-- The bytes of a row end at the first token that is none.
abbrev pub row_bytes : List Text → List ℕ
row_bytes [] = []
row_bytes (token ∷ tokens) = collect_byte (byte_of token) (row_bytes tokens)

abbrev pub line_bytes : List Text → List ℕ
line_bytes [] = []
line_bytes (offset ∷ tokens) = if is_offset offset then row_bytes tokens else []

unfoldable pub dump_bytes : List Text → List ℕ
dump_bytes [] = []
dump_bytes (line ∷ lines) = line_bytes (words line) ++ dump_bytes lines

abbrev pub is_x : ℕ → Bool
is_x c = c == 88 || c == 120

-- `re.sub(r"(?i)0x", "", text)`
abbrev pub remove_0x : Text → Text
remove_0x [] = []
remove_0x (c ∷ []) = c ∷ []
remove_0x (c ∷ d ∷ cs) = elim (c == 48 && is_x d) [
  | true ↦ remove_0x cs
  | false ↦ c ∷ remove_0x (d ∷ cs)
]

abbrev pub keep_hex : Text → Text
keep_hex [] = []
keep_hex (c ∷ cs) = let more = keep_hex cs in if is_hex c then c ∷ more else more

-- `bytes.fromhex` of digits in pairs.
abbrev pub pair_bytes : Text → List ℕ
pair_bytes (a ∷ b ∷ cs) = (hex_value a * 16 + hex_value b) ∷ pair_bytes cs
pair_bytes _ = []

unfoldable pub compact_bytes : Text → Hello (List ℕ)
compact_bytes text = do
  let compact = keep_hex (remove_0x text)
  guard (leb 12 (length compact) && length compact % 2 == 0) bad_text
  ok (pair_bytes compact)

abbrev pub dump_or : List ℕ → Hello (List ℕ) → Hello (List ℕ)
dump_or [] otherwise = otherwise
dump_or (b ∷ bs) otherwise = ok (b ∷ bs)

-- A line counts where it has a byte, so there is such a line where there is a byte.
unfoldable pub parse_hello_hex_text : Text → Hello (List ℕ)
unfolding dump_bytes compact_bytes
parse_hello_hex_text text = dump_or (dump_bytes (pieces is_break text)) (compact_bytes text)

pub data InputError : Type 0 where
  unreadable not_utf8 wrong_type : InputError
  bad_hello : HelloError → InputError

abbrev pub Input : Type 0 → Type 0
Input A = Result InputError A

pub data HelloInput : Type 0 where
  given_bytes : List ℕ → HelloInput
  given_text : Text → HelloInput
  given_path : Text → HelloInput
  other_input : HelloInput

abbrev begins_with_brace : Text → Bool
begins_with_brace [] = false
begins_with_brace (c ∷ cs) =
    let rest = begins_with_brace cs in if is_space c then rest else c == 123

abbrev pub from_hello : {A : Type 0} → Hello A → Input A
from_hello (ok a) = ok a
from_hello (err e) = err (bad_hello e)

abbrev is_wire : List ℕ → Bool
is_wire [] = false
is_wire (b ∷ bs) = b == 22 || b == 1

-- `is_file` answers False where it raises.
unfoldable pub is_hello_file : (Text → Bool) → Text → Bool
is_hello_file is_file value =
    if begins_with_brace value || among 10 value || leb 4096 (length value)
    then false
    else is_file value

-- `is_file` and `read_file` are the file system, the latter `none` where it raises; `decode` reads UTF-8.
module _ (is_file : Text → Bool) (read_file : Text → Option (List ℕ))
    (decode : List ℕ → Option Text) where
  abbrev decoded : Option Text → Input HelloInput
  decoded none = err not_utf8
  decoded (some text) = ok (given_text text)

  abbrev contents : Option (List ℕ) → Input HelloInput
  contents none = err unreadable
  contents (some raw) = if is_wire raw then ok (given_bytes raw) else decoded (decode raw)

  abbrev opened : HelloInput → Input HelloInput
  opened (given_path path) = contents (read_file path)
  opened (given_text text) =
      if is_hello_file is_file text then contents (read_file text) else ok (given_text text)
  opened input = ok input

  abbrev payload_of : HelloInput → Input (List ℕ)
  payload_of (given_bytes bytes) = ok bytes
  payload_of (given_text text) = from_hello (parse_hello_hex_text text)
  payload_of _ = err wrong_type

  unfoldable pub hello_payload : HelloInput → Input (List ℕ)
  unfolding parse_hello_hex_text is_hello_file
  hello_payload input = do data_input ← opened input; payload_of data_input

  unfoldable pub import_hello : HelloInput → Input Json
  unfolding hello_payload
  import_hello input = do
    payload ← hello_payload input
    from_hello (tls_spec_from_client_hello payload)
