-- ===== src/Tls/Text/Compact.antt =====
-- Plain hexadecimal digits, as python/gohttpx.py reads them.
use go_httpx.Prelude.{
  ℕ, ◌*◌, ◌/◌, ◌%◌, ◌<◌, ◌≤◌, Bool, true, false, ◌&&◌, List, [], ◌∷◌, ◌++◌, leb, ◌==◌, all,
  all-append, length, ◌≡◌, refl, ap, ◌∙◌, arith, ok,
}
use go_httpx.Tls.Text.{
  Text, is_space, is_break, pieces, drop_empty, dump_or, is_hex, line_bytes, dump_bytes, is_x,
  remove_0x, keep_hex, pair_bytes, compact_bytes, parse_hello_hex_text,
}
use go_httpx.Tls.Text.Pieces.{hex_no_space, hex_no_break, pieces_one, hex-Whole}
use go_httpx.Tls.Text.Digits.{hex_byte, digit-value, AreBytes, hex_byte-hex}

module _ (capitals : Bool) where
  -- The digits of the bytes, with nothing between them.
  unfoldable pub hex_text : List ℕ → Text
  hex_text [] = []
  hex_text (b ∷ bs) = hex_byte capitals b ++ hex_text bs

  hex_text-hex : (bs : List ℕ) → AreBytes bs → all is_hex (hex_text bs) ≡ true
  unfolding hex_text AreBytes
  hex_text-hex [] h = refl
  hex_text-hex (b ∷ bs) (one, rest) =
      all-append is_hex (hex_byte capitals b) (hex_text bs)
      ∙ rw (hex_byte-hex capitals b one, hex_text-hex bs rest) refl

  length-hex_text : (bs : List ℕ) → length (hex_text bs) ≡ 2 * length bs
  unfolding hex_text hex_byte
  length-hex_text [] = refl
  length-hex_text (b ∷ bs) = omega (arith, length-hex_text bs)

  pair_bytes-hex_text : (bs : List ℕ) → AreBytes bs → pair_bytes (hex_text bs) ≡ bs
  unfolding hex_text hex_byte AreBytes
  pair_bytes-hex_text [] h = refl
  pair_bytes-hex_text (b ∷ bs) (one, rest) =
      let high : b / 16 < 16 = omega arith in
      let low : b % 16 < 16 = omega arith in
      rw
        (
          digit-value capitals (b / 16) high,
          digit-value capitals (b % 16) low,
          pair_bytes-hex_text bs rest,
        )
        (ap (λ x. x ∷ bs) (omega arith))

hex_no_x : (d : ℕ) → is_hex d ≡ true → is_x d ≡ false
hex_no_x d h = ground arith

no_prefix : (c d : ℕ) → is_hex d ≡ true → (c == 48 && is_x d) ≡ false
no_prefix c d h = go (c == 48) (is_x d) (hex_no_x d h)
  where
    go : (a b : Bool) → b ≡ false → (a && b) ≡ false
    go true b e = e
    go false b e = refl

if_false : (b : Bool) (x y : Text) → b ≡ false → (elim b [ true ↦ x | false ↦ y ]) ≡ y
if_false true x y e = cc
if_false false x y e = refl

hex_parts :
    (c : ℕ) (w : Text) → all is_hex (c ∷ w) ≡ true → (is_hex c ≡ true) × (all is_hex w ≡ true)
hex_parts c w h = both_parts (is_hex c) (all is_hex w) h
  where
    both_parts : (a b : Bool) → (a && b) ≡ true → (a ≡ true) × (b ≡ true)
    both_parts true b h = (refl, h)
    both_parts false b h = cc

remove_0x-hex : (w : Text) → all is_hex w ≡ true → remove_0x w ≡ w
remove_0x-hex [] h = refl
remove_0x-hex (c ∷ []) h = refl
remove_0x-hex (c ∷ d ∷ w) h =
    let rest = (hex_parts c (d ∷ w) h).1 in
    if_false (c == 48 && is_x d) (remove_0x w) (c ∷ remove_0x (d ∷ w))
      (no_prefix c d (hex_parts d w rest).0)
    ∙ ap (λ x. c ∷ x) (remove_0x-hex (d ∷ w) rest)

keep_hex-hex : (w : Text) → all is_hex w ≡ true → keep_hex w ≡ w
keep_hex-hex [] h = refl
keep_hex-hex (c ∷ w) h = ground (arith, keep_hex-hex w)

one_word : (w : Text) → line_bytes (drop_empty (w ∷ [])) ≡ []
one_word [] = refl
one_word (c ∷ w) = ground arith

-- One word of hexadecimal digits is no dump.
no_dump : (w : Text) → all is_hex w ≡ true → dump_bytes (pieces is_break w) ≡ []
unfolding dump_bytes
no_dump w h =
    ap dump_bytes (pieces_one is_break w (hex-Whole w h is_break hex_no_break))
    ∙ ap (λ x. line_bytes (drop_empty x) ++ [])
        (pieces_one is_space w (hex-Whole w h is_space hex_no_space))
    ∙ ap (λ x. x ++ []) (one_word w)

even_digits : (n : ℕ) → 6 ≤ n → (leb 12 (2 * n) && (2 * n) % 2 == 0) ≡ true
even_digits n h = ground arith

compact_bytes-hex_text :
    (capitals : Bool) (bs : List ℕ)
    → AreBytes bs
    → 6 ≤ length bs
    → compact_bytes (hex_text capitals bs) ≡ ok bs
unfolding compact_bytes
compact_bytes-hex_text capitals bs h long =
    let digits = hex_text-hex capitals bs h in
    rw
      (
        remove_0x-hex (hex_text capitals bs) digits,
        keep_hex-hex (hex_text capitals bs) digits,
        length-hex_text capitals bs,
        even_digits (length bs) long,
        pair_bytes-hex_text capitals bs h,
      )
      refl

-- Six bytes or more, written as hexadecimal digits, are read back.
pub parse-hex_text :
    (capitals : Bool) (bs : List ℕ)
    → AreBytes bs
    → 6 ≤ length bs
    → parse_hello_hex_text (hex_text capitals bs) ≡ ok bs
unfolding parse_hello_hex_text
parse-hex_text capitals bs h long =
    ap (λ x. dump_or x (compact_bytes (hex_text capitals bs)))
      (no_dump (hex_text capitals bs) (hex_text-hex capitals bs h))
    ∙ compact_bytes-hex_text capitals bs h long
