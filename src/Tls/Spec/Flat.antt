-- ===== src/Tls/Spec/Flat.antt =====
-- The dicts that `_parse_hello_extension` returns are flat and hold texts and ints.
use go_httpx.Prelude.{
  ℕ, zero, suc, ◌+◌, ◌≤◌, ◌≡◌, refl, String, Bool, true, false, List, [], ◌∷◌, map, All, ok,
  if◌then◌else◌, ◌>>=◌, Ensures, Ensures-bind, Ensures-ok, Ensures-err, arith, Result-cases, inl,
  inr, slice,
}
use go_httpx.Prelude.Json.{Json, str, object, array, items}
use go_httpx.Tls.Wire.{Hello, from_bytes}
use go_httpx.Tls.Extension.{
  named, with_strings, parse_hello_extension, parse_key_shares, key_shares, share_group,
  parse_grease_ech, compress_certificate, record_size_limit, delegated_credentials,
  supported_versions,
}
use go_httpx.Tls.Hello.{extension_specs}
use go_httpx.Tls.Spec.Depth.{fits, fits_elements}

abbrev pub Fits : ℕ → Json → Type 0
Fits depth v = fits depth v ≡ true

Ensures-if :
    {A : Type 0} {P : A → Type 0} (b : Bool) (x y : Hello A)
    → Ensures P x
    → Ensures P y
    → Ensures P (if b then x else y)
Ensures-if true x y p q = p
Ensures-if false x y p q = q

pub strings-fit :
    (depth : ℕ) (texts : List String)
    → depth ≤ 8
    → fits_elements depth (items (map str texts)) ≡ true
unfolding fits
strings-fit depth [] h = refl
strings-fit depth (t ∷ ts) h = ground (arith, strings-fit depth ts h)

pub array-fit :
    (depth : ℕ) (xs : List Json) → All (Fits depth) xs → fits_elements depth (items xs) ≡ true
unfolding fits
array-fit depth [] h = refl
array-fit depth (x ∷ xs) h = ground (arith, array-fit depth xs h.1)

named-Fits : (name : String) → Fits 2 (named name)
unfolding fits
named-Fits name = refl

with_strings-Fits : (name key : String) (texts : List String) → Fits 2 (with_strings name key texts)
unfolding fits
with_strings-Fits name key texts = ground (arith, strings-fit 4 texts)

share_group-Fits : (group : ℕ) → Ensures (Fits 4) (share_group group)
unfolding share_group fits
share_group-Fits group = record { at = λ v e. ground arith }

-- What a round gives, for any outcome of the entry and of the rest.
round-Fits :
    (fuel : ℕ) (body : List ℕ) (cursor : ℕ)
    → ((next : ℕ) → Ensures (All (Fits 4)) (key_shares fuel body next))
    → (vs : List Json) → key_shares (suc fuel) body cursor ≡ ok vs
    → All (Fits 4) vs
unfolding key_shares
round-Fits fuel body cursor later vs e =
    let group = from_bytes (slice body cursor (cursor + 2)) in
    let next = cursor + (4 + from_bytes (slice body (cursor + 2) (cursor + 4))) in
    elim (Result-cases (share_group group)) [
      | inr (f, e1) ↦ ground arith
      | inl (v, e1) ↦ elim (Result-cases (key_shares fuel body next)) [
        | inr (f, e2) ↦ ground arith
        | inl (rest, e2) ↦
            let first = (share_group-Fits group).at v e1 in
            let others = (later next).at rest e2 in ground arith
      ]
    ]

key_shares-Fits :
    (fuel : ℕ) (body : List ℕ) (cursor : ℕ) → Ensures (All (Fits 4)) (key_shares fuel body cursor)
key_shares-Fits zero body cursor = unfold key_shares in Ensures-ok [] tt
key_shares-Fits (suc fuel) body cursor = record {
  at = round-Fits fuel body cursor (λ next. key_shares-Fits fuel body next);
}

parse_key_shares-Fits : (body : List ℕ) → Ensures (All (Fits 4)) (parse_key_shares body)
unfolding parse_key_shares
parse_key_shares-Fits body = search (Ensures-bind, key_shares-Fits) depth 12

parse_grease_ech-Fits : (body : List ℕ) → Ensures (Fits 2) (parse_grease_ech body)
unfolding parse_grease_ech fits
parse_grease_ech-Fits body = search (Ensures-bind, Ensures-ok) depth 12

compress_certificate-Fits : (body : List ℕ) → Ensures (Fits 2) (compress_certificate body)
unfolding compress_certificate
compress_certificate-Fits body = search (Ensures-bind, Ensures-ok, with_strings-Fits) depth 12

record_size_limit-Fits : (body : List ℕ) → Ensures (Fits 2) (record_size_limit body)
unfolding record_size_limit fits
record_size_limit-Fits body = search (Ensures-bind, Ensures-ok) depth 12

delegated_credentials-Fits : (body : List ℕ) → Ensures (Fits 2) (delegated_credentials body)
unfolding delegated_credentials
delegated_credentials-Fits body = search (Ensures-bind, Ensures-ok, with_strings-Fits) depth 12

supported_versions-Fits : (body : List ℕ) → Ensures (Fits 2) (supported_versions body)
unfolding supported_versions
supported_versions-Fits body = search (Ensures-bind, Ensures-ok, with_strings-Fits) depth 12

key_share-Fits :
    (shares : List Json)
    → All (Fits 4) shares
    → Fits 2 (object (("name", str "key_share") ∷ ("client_shares", array shares) ∷ []))
unfolding fits
key_share-Fits shares h = ground (arith, array-fit 4 shares h)

shares-Fits :
    (body : List ℕ)
    → Ensures (Fits 2) (
        parse_key_shares body >>= λ shares.
        ok (object (("name", str "key_share") ∷ ("client_shares", array shares) ∷ [])))
shares-Fits body =
    Ensures-bind (parse_key_shares body) _
      λ shares e. Ensures-ok _ (key_share-Fits shares ((parse_key_shares-Fits body).at shares e))

ruleset extension_rules = (
  Ensures-if, Ensures-bind, Ensures-ok, Ensures-err, named-Fits, with_strings-Fits, shares-Fits,
  parse_grease_ech-Fits, compress_certificate-Fits, record_size_limit-Fits,
  delegated_credentials-Fits, supported_versions-Fits,
)

parse_hello_extension-Fits :
    (kind : ℕ) (body : List ℕ) → Ensures (Fits 2) (parse_hello_extension kind body)
unfolding parse_hello_extension
parse_hello_extension-Fits kind body = search extension_rules depth 40

extension_round-Fits :
    (fuel : ℕ) (extensions : List ℕ) (cursor : ℕ)
    → ((next : ℕ) → Ensures (All (Fits 2)) (extension_specs fuel extensions next))
    → (vs : List Json) → extension_specs (suc fuel) extensions cursor ≡ ok vs
    → All (Fits 2) vs
unfolding extension_specs
extension_round-Fits fuel extensions cursor later vs e =
    let kind = from_bytes (slice extensions cursor (cursor + 2)) in
    let size = from_bytes (slice extensions (cursor + 2) (cursor + 4)) in
    let body = slice extensions (cursor + 4) (cursor + 4 + size) in
    let next = cursor + (4 + size) in
    elim (Result-cases (parse_hello_extension kind body)) [
      | inr (f, e1) ↦ ground arith
      | inl (v, e1) ↦ elim (Result-cases (extension_specs fuel extensions next)) [
        | inr (f, e2) ↦ ground arith
        | inl (rest, e2) ↦
            let first = (parse_hello_extension-Fits kind body).at v e1 in
            let others = (later next).at rest e2 in ground arith
      ]
    ]

pub extension_specs-Fits :
    (fuel : ℕ) (extensions : List ℕ) (cursor : ℕ)
    → Ensures (All (Fits 2)) (extension_specs fuel extensions cursor)
extension_specs-Fits zero extensions cursor = unfold extension_specs in Ensures-ok [] tt
extension_specs-Fits (suc fuel) extensions cursor = record {
  at =
      extension_round-Fits fuel extensions cursor
        (λ next. extension_specs-Fits fuel extensions next);
}
