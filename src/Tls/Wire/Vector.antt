-- ===== src/Tls/Wire/Vector.antt =====
-- Big-endian numbers and length-prefixed vectors: what a writer of the TLS wire format puts down is
-- what the readers of python/gohttpx.py take up.
use mathlib.Core.List.{foldl-append}
use native.Mathlib.Nat.{pow-suc}
use go_httpx.Prelude.{
  ℕ, zero, suc, ◌+◌, ◌*◌, ◌/◌, ◌%◌, ◌^◌, ◌<◌, ◌≡◌, refl, sym, ap, ◌∙◌, List, [], ◌∷◌, ◌++◌,
  append_assoc, append-nil, arith, length, length-append, slice, slice-eq, le→leb, ==-true, All, ok,
}
use go_httpx.Tls.Wire.{from_bytes, take_vector, uint16s, uint16_list}

-- `n` in `width` bytes, the highest first.
abbrev pub to_bytes : ℕ → ℕ → List ℕ
to_bytes zero n = []
to_bytes (suc width) n = to_bytes width (n / 256) ++ (n % 256) ∷ []

-- A body behind its length in `width` bytes.
abbrev pub vector : ℕ → List ℕ → List ℕ
vector width body = to_bytes width (length body) ++ body

pub length-to_bytes : (width n : ℕ) → length (to_bytes width n) ≡ width
length-to_bytes zero n = refl
length-to_bytes (suc width) n = omega (
  arith,
  length-append (to_bytes width (n / 256)) (n % 256 ∷ []),
  length-to_bytes width (n / 256),
)

pub length-vector : (width : ℕ) (body : List ℕ) → length (vector width body) ≡ width + length body
length-vector width body =
    omega (
      arith,
      length-append (to_bytes width (length body)) body,
      length-to_bytes width (length body),
    )

from_bytes-append : (xs : List ℕ) (b : ℕ) → from_bytes (xs ++ b ∷ []) ≡ from_bytes xs * 256 + b
unfolding from_bytes
from_bytes-append xs b = rw foldl-append

pub from_bytes-to_bytes : (width n : ℕ) → n < 256 ^ width → from_bytes (to_bytes width n) ≡ n
from_bytes-to_bytes zero n h = unfold from_bytes in omega arith
from_bytes-to_bytes (suc width) n h = omega (
  arith,
  from_bytes-append (to_bytes width (n / 256)) (n % 256),
  from_bytes-to_bytes width (n / 256) (omega (arith, pow-suc 256 width)),
)

module _ {data_bytes : List ℕ} (before body after : List ℕ) (offset width : ℕ)
    (e : data_bytes ≡ before ++ (vector width body ++ after)) (at : offset ≡ length before)
    (fits : length body < 256 ^ width) where
  length-data : length data_bytes ≡ offset + (width + length body) + length after
  length-data = omega (
    arith,
    ap length e,
    length-append before (vector width body ++ after),
    length-append (vector width body) after,
    length-vector width body,
  )

  parts : data_bytes ≡ before ++ (to_bytes width (length body) ++ (body ++ after))
  parts = e ∙ ap (◌++◌ before) (append_assoc (to_bytes width (length body)) body after)

  read_length : from_bytes (slice data_bytes offset (offset + width)) ≡ length body
  read_length =
      ap from_bytes (
        slice-eq before (to_bytes width (length body)) (body ++ after) offset (offset + width) parts
          at (omega (arith, length-to_bytes width (length body))))
      ∙ from_bytes-to_bytes width (length body) fits

  read_body : slice data_bytes (offset + width) (offset + width + length body) ≡ body
  read_body =
      slice-eq (before ++ to_bytes width (length body)) body after (offset + width)
        (offset + width + length body)
        (parts ∙ sym (append_assoc before (to_bytes width (length body)) (body ++ after)))
        (omega (
          arith,
          length-append before (to_bytes width (length body)),
          length-to_bytes width (length body),
        ))
        (omega (
          arith,
          length-append before (to_bytes width (length body)),
          length-to_bytes width (length body),
        ))

  -- Reading at the place of a vector gives its body and the place behind it.
  pub take_vector-vector :
      take_vector data_bytes offset width ≡ ok (body, offset + width + length body)
  unfolding take_vector
  take_vector-vector =
      rw (le→leb (offset + width) (length data_bytes) (omega (arith, length-data)), read_length)
        (rw (
          le→leb (offset + width + length body) (length data_bytes) (omega (arith, length-data)),
          read_body,
        ))

-- The list that `_uint16_list` reads.
abbrev pub to_uint16s : List ℕ → List ℕ
to_uint16s [] = []
to_uint16s (v ∷ vs) = to_bytes 2 v ++ to_uint16s vs

pub uint16s-to_uint16s :
    (values : List ℕ) → All (λ v. v < 2 ^ 16) values → uint16s (to_uint16s values) ≡ values
unfolding uint16s
uint16s-to_uint16s [] small = refl
uint16s-to_uint16s (v ∷ vs) small =
    rw (uint16s-to_uint16s vs small.1) (ap (λ n. n ∷ vs) (from_bytes-to_bytes 2 v small.0))

pub length-to_uint16s : (values : List ℕ) → length (to_uint16s values) ≡ length values * 2
length-to_uint16s [] = refl
length-to_uint16s (v ∷ vs) = omega (arith, length-to_uint16s vs)

-- `_uint16_list` gives back the list of 16-bit numbers that was written behind its length.
pub uint16_list-vector :
    (values : List ℕ) (prefix : ℕ)
    → All (λ v. v < 2 ^ 16) values
    → length values * 2 < 256 ^ prefix
    → uint16_list (vector prefix (to_uint16s values)) prefix ≡ ok values
unfolding uint16_list
uint16_list-vector values prefix small fits =
    rw
      (take_vector-vector [] (to_uint16s values) [] 0 prefix (sym (append-nil _)) refl
        (omega (arith, length-to_uint16s values)))
      (rw
        (==-true (0 + prefix + length (to_uint16s values))
          (length (vector prefix (to_uint16s values)))
          (omega (arith, length-vector prefix (to_uint16s values))))
        (rw (==-true (length (to_uint16s values) % 2) 0 (omega (arith, length-to_uint16s values)))
          (ap ok (uint16s-to_uint16s values small))))
