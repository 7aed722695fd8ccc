-- ===== src/Tls/Hello/Sent.antt =====
-- The loop of `tls_spec_from_client_hello` over the extensions, on the bytes that a client sent.
use go_httpx.Prelude.{
  ℕ, zero, suc, ◌+◌, ◌≤◌, ◌≡◌, refl, sym, ap, ◌∙◌, List, [], ◌∷◌, ◌++◌, append_assoc, arith, length,
  length-append, le→leb, ltb→leb-false, ==-true, All, ok, traverse, ◌>>=◌,
}
use go_httpx.Prelude.Json.{Json}
use go_httpx.Tls.Wire.{Hello}
use go_httpx.Tls.Wire.Vector.{to_bytes, vector}
use go_httpx.Tls.Extension.{parse_hello_extension}
use go_httpx.Tls.Hello.{extension_specs}
use go_httpx.Tls.Wire.Sent.{
  Sent, FitsSent, sent_bytes, length-items, kind_bytes, size_bytes, body_bytes,
}

abbrev pub parse_sent : Sent → Hello Json
parse_sent s = parse_hello_extension s.kind s.body

module _ {extensions : List ℕ} (before : List ℕ) (s : Sent) (after : List ℕ) (cursor : ℕ)
    (e : extensions ≡ before ++ (to_bytes 2 s.kind ++ (vector 2 s.body ++ after)))
    (at : cursor ≡ length before) (fits : FitsSent s) where
  round :
      (fuel : ℕ)
      → extension_specs (suc fuel) extensions cursor ≡ (
          parse_sent s >>= λ spec.
          extension_specs fuel extensions (cursor + (4 + length s.body)) >>= λ specs.
          ok (spec ∷ specs))
  unfolding extension_specs
  round fuel =
      rw
        (
          kind_bytes before s after cursor e at fits,
          size_bytes before s after cursor e at fits,
          body_bytes before s after cursor e at fits,
        )
        (rw (
          ltb→leb-false (length extensions) cursor
              (omega (arith, length-items before s after cursor e at fits)),
          le→leb (cursor + 4) (length extensions)
              (omega (arith, length-items before s after cursor e at fits)),
          ==-true (length s.body) (length s.body) refl,
        ))

end_of_extensions :
    (fuel : ℕ) (extensions : List ℕ) (cursor : ℕ)
    → cursor ≡ length extensions
    → extension_specs fuel extensions cursor ≡ ok []
unfolding extension_specs
end_of_extensions zero extensions cursor e = refl
end_of_extensions (suc fuel) extensions cursor e =
    rw (le→leb (length extensions) cursor (omega arith))

-- The loop parses every extension that was sent, in order, and stops at the first that fails.
pub extension_specs-sent_bytes :
    {extensions : List ℕ} (fuel : ℕ) (before : List ℕ) (ss : List Sent) (cursor : ℕ)
    → extensions ≡ before ++ sent_bytes ss
    → cursor ≡ length before
    → All FitsSent ss
    → length ss ≤ fuel
    → extension_specs fuel extensions cursor ≡ traverse parse_sent ss
extension_specs-sent_bytes {extensions} fuel before [] cursor e at fits enough =
    end_of_extensions fuel extensions cursor (omega (arith, ap length e, length-append before []))
extension_specs-sent_bytes {extensions} zero before (s ∷ ss) cursor e at fits enough =
    absurd (omega arith)
extension_specs-sent_bytes {extensions} (suc fuel) before (s ∷ ss) cursor e at fits enough =
    let head = to_bytes 2 s.kind ++ vector 2 s.body in
    round before s (sent_bytes ss) cursor e at fits.0 fuel
    ∙ ap (λ rest. parse_sent s >>= λ spec. rest >>= λ specs. ok (spec ∷ specs))
        (extension_specs-sent_bytes fuel (before ++ head) ss (cursor + (4 + length s.body))
          (e
            ∙ ap (◌++◌ before) (sym (append_assoc (to_bytes 2 s.kind) (vector 2 s.body) _))
            ∙ sym (append_assoc before head (sent_bytes ss)))
          (omega (arith, length-append before head)) fits.1 (omega arith))
