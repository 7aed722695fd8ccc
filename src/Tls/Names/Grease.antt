-- ===== src/Tls/Names/Grease.antt =====
-- `_is_grease_id` of python/gohttpx.py accepts exactly the sixteen GREASE values of RFC 8701.
use go_httpx.Prelude.{
  ℕ, ◌+◌, ◌*◌, ◌/◌, ◌%◌, ◌^◌, ◌<◌, ◌≡◌, ◌↔◌, refl, sym, ap, ◌∙◌, Bool, true, not, ◌==◌,
  if◌then◌else◌, arith,
}
use go_httpx.Prelude.Bits.{and_digits, bit_and, holds_below, holds_below_sound, bit_and-byte}
use go_httpx.Tls.Names.{is_grease_id}

-- The mask test on two equal bytes `h`, checked for every byte.
abbrev mask_test : ℕ → Bool
mask_test h = if bit_and (h * 257) 0x0F0F == 0x0A0A then h % 16 == 10 else not (h % 16 == 10)

mask_table : holds_below 256 mask_test ≡ true
unfolding holds_below and_digits
mask_table = refl

mask_iff : (h : ℕ) → h < 256 → (bit_and (h * 257) 0x0F0F ≡ 0x0A0A) ↔ (h % 16 ≡ 10)
mask_iff h small = ground (arith, holds_below_sound 256 mask_test h mask_table small)

-- A 16-bit number is taken for GREASE exactly when it is one of 0x0A0A, 0x1A1A, … 0xFAFA.
pub is_grease_id_iff :
    (v : ℕ)
    → v < 2 ^ 16
    → (is_grease_id v ≡ true) ↔ ((k : ℕ) × (k < 16) × (v ≡ 0x0A0A + k * 0x1010))
unfolding is_grease_id
is_grease_id_iff v small =
    let h = v / 256 in
    let mask = mask_iff h (omega arith) in
    let low = bit_and-byte v in
    (
      λ test.
          let pair : v ≡ h * 257 = ground (arith, low) in
          let bits : bit_and v 0x0F0F ≡ 0x0A0A = ground arith in
          let digit : h % 16 ≡ 10 = mask.0 (ap (λ n. bit_and n 0x0F0F) (sym pair) ∙ bits) in
          (h / 16, omega arith, omega arith),
      λ (k, bound, e).
          let pair : v ≡ h * 257 = omega arith in
          let bits : bit_and v 0x0F0F ≡ 0x0A0A =
            ap (λ n. bit_and n 0x0F0F) pair ∙ mask.1 (omega arith) in
          ground (arith, low),
    )
