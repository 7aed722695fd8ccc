-- ===== src/Tls/Text/Digits.antt =====
-- Bytes as two hexadecimal digits each, for python/gohttpx.py's reading of texts.
use go_httpx.Prelude.{
  ℕ, ◌+◌, ◌/◌, ◌%◌, ◌<◌, Bool, true, false, some, List, [], ◌∷◌, map, ltb, all, All, if◌then◌else◌,
  ◌≡◌, refl, ap, arith,
}
use go_httpx.Tls.Text.{Text, is_hex, hex_value, byte_of, row_bytes}

-- A digit, in capitals or not.
unfoldable pub digit : Bool → ℕ → ℕ
digit capitals n = if ltb n 10 then 48 + n else if capitals then 55 + n else 87 + n

unfoldable pub hex_byte : Bool → ℕ → Text
unfolding digit
hex_byte capitals b = digit capitals (b / 16) ∷ digit capitals (b % 16) ∷ []

pub digit-hex : (capitals : Bool) (n : ℕ) → n < 16 → is_hex (digit capitals n) ≡ true
unfolding digit
digit-hex true n h = ground arith
digit-hex false n h = ground arith

pub digit-value : (capitals : Bool) (n : ℕ) → n < 16 → hex_value (digit capitals n) ≡ n
unfolding digit
digit-value true n h = ground arith
digit-value false n h = ground arith

pub byte_of-hex_byte : (capitals : Bool) (b : ℕ) → b < 256 → byte_of (hex_byte capitals b) ≡ some b
unfolding hex_byte
byte_of-hex_byte capitals b h =
    let high : b / 16 < 16 = omega arith in
    let low : b % 16 < 16 = omega arith in
    rw
      (
        digit-hex capitals (b / 16) high,
        digit-hex capitals (b % 16) low,
        digit-value capitals (b / 16) high,
        digit-value capitals (b % 16) low,
      )
      (ap some (omega arith))

unfoldable pub AreBytes : List ℕ → Type 0
AreBytes bs = All (λ b. b < 256) bs

pub row_bytes-map :
    (capitals : Bool) (bs : List ℕ) → AreBytes bs → row_bytes (map (hex_byte capitals) bs) ≡ bs
unfolding AreBytes
row_bytes-map capitals [] h = refl
row_bytes-map capitals (b ∷ bs) (one, rest) =
    rw (byte_of-hex_byte capitals b one, row_bytes-map capitals bs rest) refl

pub hex_byte-hex : (capitals : Bool) (b : ℕ) → b < 256 → all is_hex (hex_byte capitals b) ≡ true
unfolding hex_byte
hex_byte-hex capitals b h =
    let high : b / 16 < 16 = omega arith in
    let low : b % 16 < 16 = omega arith in
    rw (digit-hex capitals (b / 16) high, digit-hex capitals (b % 16) low) refl
