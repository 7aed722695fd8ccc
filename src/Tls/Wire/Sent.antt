-- ===== src/Tls/Wire/Sent.antt =====
-- Lists of numbered items, the form of the extensions and of the key shares of a ClientHello.
use go_httpx.Prelude.{
  ℕ, ◌+◌, ◌^◌, ◌≤◌, ◌<◌, ◌≡◌, sym, ap, ◌∙◌, List, [], ◌∷◌, ◌++◌, append_assoc, arith, length,
  length-append, slice, slice-eq,
}
use go_httpx.Tls.Wire.{from_bytes}
use go_httpx.Tls.Wire.Vector.{to_bytes, vector, from_bytes-to_bytes}

-- A numbered item, its body behind its length in two bytes.
pub record Sent : Type 0 where
  pub kind : ℕ
  pub body : List ℕ

abbrev pub FitsSent : Sent → Type 0
FitsSent s = (s.kind < 2 ^ 16) × (length s.body < 2 ^ 16)

abbrev pub sent_bytes : List Sent → List ℕ
sent_bytes [] = []
sent_bytes (s ∷ ss) = to_bytes 2 s.kind ++ (vector 2 s.body ++ sent_bytes ss)

module _ {items : List ℕ} (before : List ℕ) (s : Sent) (after : List ℕ) (cursor : ℕ)
    (e : items ≡ before ++ (to_bytes 2 s.kind ++ (vector 2 s.body ++ after)))
    (at : cursor ≡ length before) (fits : FitsSent s) where
  pub length-items : length items ≡ cursor + (4 + length s.body) + length after
  length-items = omega (
    arith,
    ap length e,
    length-append before (to_bytes 2 s.kind ++ (vector 2 s.body ++ after)),
    length-append s.body after,
  )

  pub kind_bytes : from_bytes (slice items cursor (cursor + 2)) ≡ s.kind
  kind_bytes =
      ap from_bytes (slice-eq before (to_bytes 2 s.kind) _ cursor (cursor + 2) e at (omega arith))
      ∙ from_bytes-to_bytes 2 s.kind fits.0

  behind_kind : items ≡ (before ++ to_bytes 2 s.kind) ++ (vector 2 s.body ++ after)
  behind_kind = e ∙ sym (append_assoc before (to_bytes 2 s.kind) _)

  pub size_bytes : from_bytes (slice items (cursor + 2) (cursor + 4)) ≡ length s.body
  size_bytes =
      ap from_bytes (
        slice-eq (before ++ to_bytes 2 s.kind) (to_bytes 2 (length s.body)) (s.body ++ after)
          (cursor + 2) (cursor + 4) behind_kind
          (omega (arith, length-append before (to_bytes 2 s.kind)))
          (omega (arith, length-append before (to_bytes 2 s.kind))))
      ∙ from_bytes-to_bytes 2 (length s.body) fits.1

  pub body_bytes : slice items (cursor + 4) (cursor + 4 + length s.body) ≡ s.body
  body_bytes =
      slice-eq ((before ++ to_bytes 2 s.kind) ++ to_bytes 2 (length s.body)) s.body after
        (cursor + 4) (cursor + 4 + length s.body)
        (behind_kind
          ∙ sym (append_assoc (before ++ to_bytes 2 s.kind) (to_bytes 2 (length s.body)) _))
        (omega (
          arith,
          length-append (before ++ to_bytes 2 s.kind) (to_bytes 2 (length s.body)),
          length-append before (to_bytes 2 s.kind),
        ))
        (omega (
          arith,
          length-append (before ++ to_bytes 2 s.kind) (to_bytes 2 (length s.body)),
          length-append before (to_bytes 2 s.kind),
        ))

pub length-sent_bytes : (ss : List Sent) → length ss ≤ length (sent_bytes ss)
length-sent_bytes [] = omega arith
length-sent_bytes (s ∷ ss) =
    omega (arith, length-sent_bytes ss, length-append s.body (sent_bytes ss))
