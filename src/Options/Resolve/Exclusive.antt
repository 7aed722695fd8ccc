-- ===== src/Options/Resolve/Exclusive.antt =====
-- What python/gohttpx.py sends for the arguments of a client: `_resolve_client_options` and
-- `_client_payload` together.
use mathlib.Core.Path.{subst}
use go_httpx.Prelude.{
  ℕ, ◌≤◌, Bool, true, ◌&&◌, Option, none, some, ◌≡◌, refl, ok, err, arith, le→leb, sym, ◌>>=◌,
  Ensures, Ensures-ok, Ensures-bind, Ensures-guard, Result-cases, inl, inr,
}
use go_httpx.Prelude.Json.{Json}
use go_httpx.Tls.Spec.{
  SpecError, SpecInput, json_text, Spec, check_spec, spec_value, normalize_tls_spec,
}
use go_httpx.Options.{Attributes, is_nothing}
use go_httpx.Options.Client.{ClientOptions, client_payload, equals}
use go_httpx.Options.Client.Sent.{Single, client_payload-Single, client_payload-plain}
use go_httpx.Options.Resolve.{
  Arguments, wrong_value, normalized, adapt, base_options, set_verify, set_cert, set_proxy,
  set_versions, set_identity, fix_spec, resolve_client_options,
}

adapt-ok : (r : Spec Json) (j : Json) → adapt r ≡ ok j → r ≡ ok j
adapt-ok (ok v) j h = cc
adapt-ok (err f) j h = cc

both_true : (a b : Bool) → a && b ≡ true → (a ≡ true) × (b ≡ true)
both_true a b h = ground arith

cannot_be : {A : Type 0} (f : SpecError) (j : Json) → ◌≡◌ {A = Spec Json} (err f) (ok j) → A
cannot_be f j h = cc

module _ (encoded_length : Json → ℕ) where
  check_spec-same :
      (v : Json) → Ensures (λ j. (j ≡ v) × (encoded_length j ≤ 65536)) (check_spec encoded_length v)
  unfolding check_spec
  check_spec-same v = record { at = λ j h. ground arith }

  checked_again :
      (v j : Json)
      → check_spec encoded_length v ≡ ok j
      → normalize_tls_spec encoded_length (json_text (encoded_length j) (some j)) ≡ ok j
  unfolding normalize_tls_spec spec_value
  checked_again v j c =
      let same = (check_spec-same v).at j c in
      rw (le→leb (encoded_length j) 65536 same.1)
        (subst (λ x. check_spec encoded_length x ≡ ok j) (sym same.0) c)

  -- A `tls_spec` that is normalised is normalised to itself.
  normalize_again :
      (input : SpecInput) (j : Json)
      → normalize_tls_spec encoded_length input ≡ ok j
      → normalize_tls_spec encoded_length (json_text (encoded_length j) (some j)) ≡ ok j
  unfolding normalize_tls_spec spec_value
  normalize_again input j h = elim (Result-cases (spec_value input)) [
    | inl (v, e) ↦
        checked_again v j (subst (λ r. (r >>= λ value. check_spec encoded_length value) ≡ ok j) e h)
    | inr (f, e) ↦
        cannot_be f j (subst (λ r. (r >>= λ value. check_spec encoded_length value) ≡ ok j) e h)
  ]

  -- What a client that could be made sends.
  pub Sends : ClientOptions → Type 0
  Sends o = (p : Attributes) × (client_payload encoded_length o ≡ ok p) × Single p

  fix_spec-Sends :
      (s : Option SpecInput) (o : ClientOptions)
      → o.tls_spec ≡ s
      → Ensures Sends (fix_spec encoded_length s o)
  unfolding Sends
  fix_spec-Sends none o e = Ensures-ok o (client_payload-plain o encoded_length e)
  fix_spec-Sends (some input) o e =
      Ensures-guard (is_nothing o.tls_fingerprint && equals "none" o.impersonate) wrong_value _
        λ test. Ensures-bind (normalized encoded_length input) _ λ j h.
          let known =
            normalize_again input j (adapt-ok (normalize_tls_spec encoded_length input) j h) in
          let tests = both_true (is_nothing o.tls_fingerprint) (equals "none" o.impersonate) test in
          let fixed = record o { tls_spec = some (json_text (encoded_length j) (some j)) } in
          Ensures-ok fixed (
            client_payload-Single fixed encoded_length (json_text (encoded_length j) (some j)) j
              refl known tests.0 tests.1)

  -- Where the arguments of a client are accepted, its options make a message. The message has a
  -- `tls_spec`, a fingerprint or a browser, or is for HTTP/2 or HTTP/3 alone, and one with a `tls_spec`
  -- has no fingerprint and no browser.
  pub resolve_client_options-Sends :
      (a : Arguments) → Ensures Sends (resolve_client_options encoded_length a)
  unfolding resolve_client_options
  resolve_client_options-Sends a = Ensures-bind (base_options a.client_options) _ λ base _.
      Ensures-bind (set_verify a.verify (set_identity a base)) _ λ verified _.
        Ensures-bind (set_cert a.cert verified) _ λ certified _.
          Ensures-bind (set_proxy a.proxy certified) _ λ proxied _.
            Ensures-bind (set_versions a.http1 a.http2 proxied) _
              λ o _. fix_spec-Sends o.tls_spec o refl
