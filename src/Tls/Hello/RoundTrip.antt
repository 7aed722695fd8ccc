-- ===== src/Tls/Hello/RoundTrip.antt =====
-- `tls_spec_from_client_hello`: what the import makes of a ClientHello that a TLS client wrote.
use go_httpx.Prelude.{
  ℕ, ◌+◌, ◌*◌, ◌%◌, ◌^◌, ◌≤◌, ◌<◌, ◌≡◌, refl, sym, ap, ◌∙◌, List, [], ◌∷◌, ◌++◌, append_assoc,
  arith, length, length-append, le→leb, ==-true, All, ok, traverse, ◌>>=◌,
}
use go_httpx.Prelude.Json.{Json}
use go_httpx.Tls.Names.{cipher_names}
use go_httpx.Tls.Wire.{Hello, take_vector, uint16s}
use go_httpx.Tls.Wire.Vector.{
  to_bytes, vector, to_uint16s, take_vector-vector, uint16s-to_uint16s, length-to_uint16s,
}
use go_httpx.Tls.Wire.Records.{
  length-message-le, Record, wire, message, AllShort, client_hello, unwrap_client_hello-wire,
  unwrap_client_hello-bare,
}
use go_httpx.Tls.Extension.{names_of}
use go_httpx.Tls.Hello.{finish_spec, spec_of_hello, tls_spec_from_client_hello}
use go_httpx.Tls.Hello.Sent.{parse_sent, extension_specs-sent_bytes}
use go_httpx.Tls.Wire.Sent.{Sent, FitsSent, sent_bytes, length-sent_bytes}

-- The body of a ClientHello: legacy version and random, session ID, cipher suites, compression
-- methods (only the null method), extensions.
pub record Offer : Type 0 where
  pub version_and_random : List ℕ
  pub session_id : List ℕ
  pub ciphers : List ℕ
  pub extensions : List Sent

pub record FitsOffer (o : Offer) : Type 0 where
  pub random_length : length o.version_and_random ≡ 34
  pub session_length : length o.session_id < 2 ^ 8
  pub has_cipher : 1 ≤ length o.ciphers
  pub ciphers_small : All (λ v. v < 2 ^ 16) o.ciphers
  pub ciphers_length : length o.ciphers * 2 < 2 ^ 16
  pub extensions_fit : All FitsSent o.extensions
  pub extensions_length : length (sent_bytes o.extensions) < 2 ^ 16

abbrev pub offer_tail : Offer → List ℕ
offer_tail o =
    vector 1 o.session_id
    ++ (vector 2 (to_uint16s o.ciphers)
        ++ (vector 1 (0 ∷ []) ++ (vector 2 (sent_bytes o.extensions) ++ [])))

abbrev pub offer_bytes : Offer → List ℕ
offer_bytes o = o.version_and_random ++ offer_tail o

-- What the import makes of an offer. Neither the random nor the session ID occurs in it.
abbrev pub imported : Offer → Hello Json
imported o = traverse parse_sent o.extensions >>= λ specs.
    finish_spec (names_of cipher_names o.ciphers) specs

module _ (o : Offer) (fits : FitsOffer o) where
  hello : List ℕ
  hello = client_hello (offer_bytes o)

  -- What stands before the session ID, the cipher suites, the compression methods, the extensions.
  start : List ℕ
  start = (1 ∷ to_bytes 3 (length (offer_bytes o))) ++ o.version_and_random

  suites : List ℕ
  suites = to_uint16s o.ciphers

  after_session : List ℕ
  unfolding start
  after_session = start ++ vector 1 o.session_id

  after_suites : List ℕ
  unfolding after_session suites
  after_suites = after_session ++ vector 2 suites

  after_methods : List ℕ
  unfolding after_suites
  after_methods = after_suites ++ vector 1 (0 ∷ [])

  rest_methods : List ℕ
  rest_methods = vector 2 (sent_bytes o.extensions) ++ []

  rest_suites : List ℕ
  unfolding rest_methods
  rest_suites = vector 1 (0 ∷ []) ++ rest_methods

  at_session : hello ≡ start ++ (vector 1 o.session_id ++ (vector 2 suites ++ rest_suites))
  unfolding hello after_session suites rest_suites
  at_session = refl

  at_suites : hello ≡ after_session ++ (vector 2 suites ++ rest_suites)
  unfolding after_session
  at_suites = at_session ∙ sym (append_assoc start (vector 1 o.session_id) _)

  at_methods : hello ≡ after_suites ++ (vector 1 (0 ∷ []) ++ rest_methods)
  unfolding after_suites rest_suites
  at_methods = at_suites ∙ sym (append_assoc after_session (vector 2 suites) _)

  at_extensions : hello ≡ after_methods ++ (vector 2 (sent_bytes o.extensions) ++ [])
  unfolding after_methods rest_methods
  at_extensions = at_methods ∙ sym (append_assoc after_suites (vector 1 (0 ∷ [])) _)

  length-start : length start ≡ 4 + 34
  unfolding start
  length-start = omega (arith, fits.random_length)

  length-after_session : length after_session ≡ 4 + 34 + 1 + length o.session_id
  unfolding after_session
  length-after_session = omega (arith, length-start, length-append start (vector 1 o.session_id))

  length-suites : length suites ≡ length o.ciphers * 2
  unfolding suites
  length-suites = length-to_uint16s o.ciphers

  length-after_suites : length after_suites ≡ 4 + 34 + 1 + length o.session_id + 2 + length suites
  unfolding after_suites
  length-after_suites =
      omega (arith, length-after_session, length-append after_session (vector 2 suites))

  length-after_methods :
      length after_methods ≡ 4 + 34 + 1 + length o.session_id + 2 + length suites + 1 + 1
  unfolding after_methods
  length-after_methods =
      omega (arith, length-after_suites, length-append after_suites (vector 1 (0 ∷ [])))

  length-hello :
      length hello
      ≡ 4
        + 34
        + 1
        + length o.session_id
        + 2
        + length suites
        + 1
        + 1
        + 2
        + length (sent_bytes o.extensions)
  length-hello = omega (
    arith,
    ap length at_extensions,
    length-after_methods,
    length-append after_methods (vector 2 (sent_bytes o.extensions) ++ []),
    length-append (sent_bytes o.extensions) [],
  )

  take_session : take_vector hello (4 + 34) 1 ≡ ok (o.session_id, 4 + 34 + 1 + length o.session_id)
  take_session =
      take_vector-vector start o.session_id _ (4 + 34) 1 at_session (sym length-start)
        fits.session_length

  take_suites :
      take_vector hello (4 + 34 + 1 + length o.session_id) 2
      ≡ ok (suites, 4 + 34 + 1 + length o.session_id + 2 + length suites)
  take_suites =
      take_vector-vector after_session suites _ _ 2 at_suites (sym length-after_session)
        (omega (arith, length-suites, fits.ciphers_length))

  take_methods :
      take_vector hello (4 + 34 + 1 + length o.session_id + 2 + length suites) 1
      ≡ ok (0 ∷ [], 4 + 34 + 1 + length o.session_id + 2 + length suites + 1 + 1)
  take_methods =
      take_vector-vector after_suites (0 ∷ []) _ _ 1 at_methods (sym length-after_suites)
        (omega arith)

  take_extensions :
      take_vector hello (4 + 34 + 1 + length o.session_id + 2 + length suites + 1 + 1) 2
      ≡ ok (
        sent_bytes o.extensions,
        4
            + 34
            + 1
            + length o.session_id
            + 2
            + length suites
            + 1
            + 1
            + 2
            + length (sent_bytes o.extensions),
      )
  take_extensions =
      take_vector-vector after_methods (sent_bytes o.extensions) [] _ 2 at_extensions
        (sym length-after_methods) fits.extensions_length

  length-offer : 34 ≤ length (offer_bytes o)
  length-offer =
      omega (arith, fits.random_length, length-append o.version_and_random (offer_tail o))

  suite_numbers : uint16s suites ≡ o.ciphers
  unfolding suites
  suite_numbers = uint16s-to_uint16s o.ciphers fits.ciphers_small

  spec_of_hello-hello : spec_of_hello hello ≡ imported o
  unfolding spec_of_hello
  spec_of_hello-hello =
      rw
        (
          le→leb (4 + 34) (length hello) (omega (arith, length-hello)),
          take_session,
          take_suites,
          take_methods,
          take_extensions,
        )
        (rw (
          ==-true _ (length hello) (sym length-hello),
          le→leb 2 (length suites) (omega (arith, length-suites, fits.has_cipher)),
          ==-true (length suites % 2) 0 (omega (arith, length-suites)),
          suite_numbers,
          extension_specs-sent_bytes (length (sent_bytes o.extensions)) [] o.extensions 0 refl refl
              fits.extensions_fit (length-sent_bytes o.extensions),
        ))

  -- The import of a bare ClientHello yields the listed cipher suites and the parse of every
  -- extension. The result is a function of these two alone: the random, the legacy version and the
  -- session ID have no influence on it.
  pub import-offer :
      length (offer_bytes o) + 4 ≤ 65536
      → tls_spec_from_client_hello (client_hello (offer_bytes o)) ≡ imported o
  unfolding tls_spec_from_client_hello hello
  import-offer high =
      rw (unwrap_client_hello-bare (offer_bytes o) (omega (arith, length-offer)) high)
        spec_of_hello-hello

  -- The same for the message cut into TLS records in any way.
  pub import-records :
      (r : Record) (rs : List Record)
      → message (r ∷ rs) ≡ client_hello (offer_bytes o)
      → AllShort (r ∷ rs)
      → length (wire (r ∷ rs)) ≤ 65536
      → tls_spec_from_client_hello (wire (r ∷ rs)) ≡ imported o
  unfolding tls_spec_from_client_hello hello
  import-records r rs e short high =
      let small : 4 + length (offer_bytes o) ≤ length (wire (r ∷ rs)) =
        omega (arith, ap length e, length-message-le (r ∷ rs)) in
      rw
        (unwrap_client_hello-wire (offer_bytes o) r rs e short (omega (arith, length-offer)) high
          (omega arith))
        spec_of_hello-hello
