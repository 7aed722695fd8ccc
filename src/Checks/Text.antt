-- ===== src/Checks/Text.antt =====
-- A capture as hexadecimal text.
use go_httpx.Prelude.{ℕ, Bool, true, false, Option, none, List, [], ◌∷◌, ◌≡◌, refl, ok, err, arith}
use go_httpx.Tls.Wire.{bad_text}
use go_httpx.Tls.Text.{
  Text, given_bytes, given_text, is_hello_file, parse_hello_hex_text, import_hello, dump_bytes,
  compact_bytes,
}
use go_httpx.Tls.Text.Digits.{AreBytes, hex_byte, digit}
use go_httpx.Tls.Text.Compact.{hex_text}
use go_httpx.Tls.Text.Dump.{Row, IsRow, dump_text, row_words, all_bytes}
use go_httpx.Tls.Text.Import.{import_hello-text}

abbrev no_file : Text → Bool
no_file name = false

abbrev unread : Text → Option (List ℕ)
unread name = none

abbrev undecoded : List ℕ → Option Text
undecoded raw = none

abbrev six_bytes : List ℕ
six_bytes = 22 ∷ 3 ∷ 1 ∷ 0 ∷ 190 ∷ 239 ∷ []

-- "0000" and four bytes, "0010" and two.
abbrev first_row : Row
first_row = record { offset = 48 ∷ 48 ∷ 48 ∷ 48 ∷ []; bytes = 22 ∷ 3 ∷ 1 ∷ 0 ∷ [] }

abbrev second_row : Row
second_row = record { offset = 48 ∷ 48 ∷ 49 ∷ 48 ∷ []; bytes = 190 ∷ 239 ∷ [] }

first_valid : IsRow first_row
first_valid = record {
  offset_digits = refl;
  are_bytes = (omega arith, (omega arith, (omega arith, (omega arith, tt))));
}

second_valid : IsRow second_row
second_valid = record { offset_digits = refl; are_bytes = (omega arith, (omega arith, tt)) }

bytes_small : AreBytes six_bytes
unfolding AreBytes
bytes_small =
    (omega arith, (omega arith, (omega arith, (omega arith, (omega arith, (omega arith, tt))))))

import_hello-text_example :
    (import_hello no_file unread undecoded (given_text (hex_text true six_bytes))
      ≡ import_hello no_file unread undecoded (given_bytes six_bytes))
    × (import_hello no_file unread undecoded
          (given_text (dump_text true (first_row ∷ second_row ∷ [])))
        ≡ import_hello no_file unread undecoded (given_bytes six_bytes))
unfolding is_hello_file hex_text hex_byte digit dump_text row_words all_bytes
import_hello-text_example =
    import_hello-text no_file unread undecoded true six_bytes first_row (second_row ∷ []) 22
      (3 ∷ 1 ∷ 0 ∷ []) bytes_small (omega arith) refl refl (first_valid, (second_valid, tt)) refl
      refl

-- "0000 16 03  be": the last word is the text column of the dump, and is read as a byte.
abbrev with_column : Text
with_column = 48 ∷ 48 ∷ 48 ∷ 48 ∷ 32 ∷ 49 ∷ 54 ∷ 32 ∷ 48 ∷ 51 ∷ 32 ∷ 32 ∷ 98 ∷ 101 ∷ []

column_read : parse_hello_hex_text with_column ≡ ok (22 ∷ 3 ∷ 190 ∷ [])
unfolding parse_hello_hex_text dump_bytes
column_read = refl

-- "0x16 03" has too few digits.
too_short : parse_hello_hex_text (48 ∷ 120 ∷ 49 ∷ 54 ∷ 32 ∷ 48 ∷ 51 ∷ []) ≡ err bad_text
unfolding parse_hello_hex_text dump_bytes compact_bytes
too_short = refl
