-- ===== src/Tls/Text/Dump.antt =====
-- Hex dumps with an offset at the start of each row, as python/gohttpx.py reads them.
use go_httpx.Prelude.{
  ℕ, ◌<◌, ◌≤◌, Bool, true, false, List, [], ◌∷◌, ◌++◌, map, all, All, length, ◌≡◌, refl, ap, ◌∙◌,
  arith, ok,
}
use go_httpx.Tls.Wire.{Hello}
use go_httpx.Tls.Text.{
  Text, is_space, is_break, drop_empty, words, dump_or, is_hex, is_offset, line_bytes, dump_bytes,
  compact_bytes, parse_hello_hex_text,
}
use go_httpx.Tls.Text.Pieces.{
  hex_no_space, hex_no_break, Whole, join, pieces-join, Whole-join, hex-Whole,
}
use go_httpx.Tls.Text.Digits.{hex_byte, AreBytes, row_bytes-map, hex_byte-hex}

-- A row of a dump: its offset, and its bytes.
pub record Row : Type 0 where
  pub offset : Text
  pub bytes : List ℕ

pub record IsRow (r : Row) : Type 0 where
  pub offset_digits : is_offset r.offset ≡ true
  pub are_bytes : All (λ b. b < 256) r.bytes

unfoldable pub row_words : Bool → Row → List Text
unfolding hex_byte
row_words capitals r = r.offset ∷ map (hex_byte capitals) r.bytes

unfoldable pub dump_text : Bool → List Row → Text
unfolding row_words
dump_text capitals rows = join 10 (map (λ r. join 32 (row_words capitals r)) rows)

unfoldable pub all_bytes : List Row → List ℕ
all_bytes [] = []
all_bytes (r ∷ rows) = r.bytes ++ all_bytes rows

offset_parts : (w : Text) → is_offset w ≡ true → (3 ≤ length w) × (all is_hex w ≡ true)
offset_parts w h = ground arith

dump_or-cons :
    (xs ys : List ℕ) (b : ℕ) (bs : List ℕ) (o : Hello (List ℕ))
    → xs ≡ b ∷ bs
    → dump_or (xs ++ ys) o ≡ ok (xs ++ ys)
dump_or-cons xs ys b bs o e = rw (e) refl

module _ (capitals : Bool) where
  Whole-bytes :
      (cuts : ℕ → Bool) (bs : List ℕ)
      → ((c : ℕ) → is_hex c ≡ true → cuts c ≡ false)
      → AreBytes bs
      → All (Whole cuts) (map (hex_byte capitals) bs)
  unfolding AreBytes
  Whole-bytes cuts [] free h = tt
  Whole-bytes cuts (b ∷ bs) free (one, rest) = (
    hex-Whole (hex_byte capitals b) (hex_byte-hex capitals b one) cuts free,
    Whole-bytes cuts bs free rest,
  )

  Whole-row :
      (cuts : ℕ → Bool) (r : Row)
      → ((c : ℕ) → is_hex c ≡ true → cuts c ≡ false)
      → IsRow r
      → All (Whole cuts) (row_words capitals r)
  unfolding row_words AreBytes
  Whole-row cuts r free v = (
    hex-Whole r.offset (offset_parts r.offset v.offset_digits).1 cuts free,
    Whole-bytes cuts r.bytes free v.are_bytes,
  )

  drop_empty-bytes :
      (bs : List ℕ) → drop_empty (map (hex_byte capitals) bs) ≡ map (hex_byte capitals) bs
  unfolding hex_byte
  drop_empty-bytes [] = refl
  drop_empty-bytes (b ∷ bs) = rw (drop_empty-bytes bs) refl

  drop_empty-offset :
      (w : Text) (ws : List Text) → 3 ≤ length w → drop_empty (w ∷ ws) ≡ w ∷ drop_empty ws
  drop_empty-offset [] ws h = ground arith
  drop_empty-offset (c ∷ w) ws h = refl

  words-row : (r : Row) → IsRow r → words (join 32 (row_words capitals r)) ≡ row_words capitals r
  unfolding row_words
  words-row r v =
      ap drop_empty (
        pieces-join is_space 32 r.offset (map (hex_byte capitals) r.bytes) refl
          (Whole-row is_space r hex_no_space v))
      ∙ drop_empty-offset r.offset _ (offset_parts r.offset v.offset_digits).0
      ∙ ap (λ x. r.offset ∷ x) (drop_empty-bytes r.bytes)

  line_bytes-row : (r : Row) → IsRow r → line_bytes (row_words capitals r) ≡ r.bytes
  unfolding row_words AreBytes
  line_bytes-row r v = rw (v.offset_digits) (row_bytes-map capitals r.bytes v.are_bytes)

  dump_bytes-rows :
      (rows : List Row)
      → All IsRow rows
      → dump_bytes (map (λ r. join 32 (row_words capitals r)) rows) ≡ all_bytes rows
  unfolding dump_bytes all_bytes
  dump_bytes-rows [] h = refl
  dump_bytes-rows (r ∷ rows) (one, rest) =
      rw (words-row r one, line_bytes-row r one, dump_bytes-rows rows rest) refl

  Whole-lines :
      (rows : List Row)
      → All IsRow rows
      → All (Whole is_break) (map (λ r. join 32 (row_words capitals r)) rows)
  Whole-lines [] h = tt
  Whole-lines (r ∷ rows) (one, rest) = (
    Whole-join is_break 32 (row_words capitals r) refl (Whole-row is_break r hex_no_break one),
    Whole-lines rows rest,
  )

  -- A hex dump of rows, each an offset and bytes with a space between them, is read as its bytes.
  pub parse-dump_text :
      (r : Row) (rows : List Row) (b : ℕ) (bs : List ℕ)
      → r.bytes ≡ b ∷ bs
      → All IsRow (r ∷ rows)
      → parse_hello_hex_text (dump_text capitals (r ∷ rows)) ≡ ok (all_bytes (r ∷ rows))
  unfolding parse_hello_hex_text dump_text all_bytes
  parse-dump_text r rows b bs e h =
      let text = dump_text capitals (r ∷ rows) in
      let lines =
        pieces-join is_break 10 (join 32 (row_words capitals r))
          (map (λ q. join 32 (row_words capitals q)) rows) refl (Whole-lines (r ∷ rows) h) in
      ap (λ x. dump_or x (compact_bytes text)) (ap dump_bytes lines ∙ dump_bytes-rows (r ∷ rows) h)
      ∙ dump_or-cons r.bytes (all_bytes rows) b bs (compact_bytes text) e
