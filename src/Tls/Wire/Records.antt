-- ===== src/Tls/Wire/Records.antt =====
-- `_unwrap_client_hello`: a handshake message is found again however it was cut into TLS records.
use go_httpx.Prelude.{
  ℕ, zero, suc, ◌+◌, ◌^◌, ◌≤◌, ◌<◌, ◌≡◌, refl, sym, ap, ◌∙◌, List, [], ◌∷◌, ◌++◌, append_assoc,
  append-nil, arith, length, length-append, slice, slice-eq, le→leb, ltb→leb-false, ==-true, All,
  ok, true,
}
use go_httpx.Tls.Wire.{from_bytes, byte_at, unwrap_records, check_handshake, unwrap_client_hello}
use go_httpx.Tls.Wire.Vector.{to_bytes, vector, length-vector, from_bytes-to_bytes}

-- A TLS record: the two bytes of its version, and its fragment.
pub record Record : Type 0 where
  pub major : ℕ
  pub minor : ℕ
  pub fragment : List ℕ

abbrev pub header : Record → List ℕ
header r = 0x16 ∷ r.major ∷ r.minor ∷ to_bytes 2 (length r.fragment)

-- The bytes of a run of handshake records, and the message that they carry.
abbrev pub wire : List Record → List ℕ
wire [] = []
wire (r ∷ rs) = header r ++ (r.fragment ++ wire rs)

abbrev pub message : List Record → List ℕ
message [] = []
message (r ∷ rs) = r.fragment ++ message rs

-- The limit on a fragment in `_unwrap_client_hello`.
abbrev pub AllShort : List Record → Type 0
AllShort = All (λ r. length r.fragment ≤ 18432)

byte_at-append :
    (xs : List ℕ) (y : ℕ) (ys : List ℕ) (n : ℕ) → n ≡ length xs → byte_at (xs ++ y ∷ ys) n y ≡ true
byte_at-append [] y ys zero e = ==-true y y refl
byte_at-append [] y ys (suc n) e = absurd (omega arith)
byte_at-append (x ∷ xs) y ys zero e = absurd (omega arith)
byte_at-append (x ∷ xs) y ys (suc n) e = byte_at-append xs y ys n (omega arith)

-- One round of the loop, at the place where a record stands.
module _ {payload : List ℕ} (before : List ℕ) (r : Record) (after : List ℕ) (offset : ℕ)
    (e : payload ≡ before ++ (header r ++ (r.fragment ++ after))) (at : offset ≡ length before)
    (short : length r.fragment ≤ 18432) where
  length-payload : length payload ≡ offset + (5 + length r.fragment) + length after
  length-payload = omega (
    arith,
    ap length e,
    length-append before (header r ++ (r.fragment ++ after)),
    length-append (header r) (r.fragment ++ after),
    length-append r.fragment after,
  )

  content_type : byte_at payload offset 0x16 ≡ true
  content_type = ap (λ bytes. byte_at bytes offset 0x16) e ∙ byte_at-append before 0x16 _ offset at

  size_bytes : from_bytes (slice payload (offset + 3) (offset + 5)) ≡ length r.fragment
  size_bytes =
      ap from_bytes (
        slice-eq (before ++ (0x16 ∷ r.major ∷ r.minor ∷ [])) (to_bytes 2 (length r.fragment))
          (r.fragment ++ after) (offset + 3) (offset + 5)
          (e ∙ sym (append_assoc before (0x16 ∷ r.major ∷ r.minor ∷ []) _))
          (omega (arith, length-append before (0x16 ∷ r.major ∷ r.minor ∷ [])))
          (omega (arith, length-append before (0x16 ∷ r.major ∷ r.minor ∷ []))))
      ∙ from_bytes-to_bytes 2 (length r.fragment) (omega arith)

  fragment_bytes : slice payload (offset + 5) (offset + 5 + length r.fragment) ≡ r.fragment
  fragment_bytes =
      slice-eq (before ++ header r) r.fragment after (offset + 5) (offset + 5 + length r.fragment)
        (e ∙ sym (append_assoc before (header r) (r.fragment ++ after)))
        (omega (arith, length-append before (header r)))
        (omega (arith, length-append before (header r)))

  round :
      (fuel : ℕ) (handshake : List ℕ)
      → unwrap_records (suc fuel) payload offset handshake
        ≡ unwrap_records fuel payload (offset + (5 + length r.fragment)) (handshake ++ r.fragment)
  unfolding unwrap_records
  round fuel handshake =
      rw (size_bytes, fragment_bytes, content_type) (ground (arith, length-payload))

end_of_records :
    (fuel : ℕ) (payload handshake : List ℕ) (offset : ℕ)
    → offset ≡ length payload
    → unwrap_records fuel payload offset handshake ≡ ok (handshake, length payload)
unfolding unwrap_records
end_of_records zero payload handshake offset e = rw e
end_of_records (suc fuel) payload handshake offset e =
    rw (ltb→leb-false (offset + 5) (length payload) (omega arith)) (ap (λ n. ok (handshake, n)) e)

-- The loop passes over a run of records to the end, and gathers their message.
unwrap_records-wire :
    {payload : List ℕ} (fuel : ℕ) (before : List ℕ) (rs : List Record) (handshake : List ℕ)
    (offset : ℕ)
    → payload ≡ before ++ wire rs
    → offset ≡ length before
    → AllShort rs
    → length rs ≤ fuel
    → unwrap_records fuel payload offset handshake ≡ ok (handshake ++ message rs, length payload)
unwrap_records-wire {payload} fuel before [] handshake offset e at short enough =
    rw append-nil
      (end_of_records fuel _ handshake offset (omega (arith, ap length e, length-append before [])))
unwrap_records-wire {payload} zero before (r ∷ rs) handshake offset e at short enough =
    absurd (omega arith)
unwrap_records-wire {payload} (suc fuel) before (r ∷ rs) handshake offset e at short enough =
    round before r (wire rs) offset e at short.0 fuel handshake
    ∙ unwrap_records-wire fuel (before ++ (header r ++ r.fragment)) rs (handshake ++ r.fragment) _
        (e
          ∙ ap (◌++◌ before) (sym (append_assoc (header r) r.fragment (wire rs)))
          ∙ sym (append_assoc before (header r ++ r.fragment) (wire rs)))
        (omega (
          arith,
          length-append before (header r ++ r.fragment),
          length-append (header r) r.fragment,
        ))
        short.1 (omega arith)
    ∙ ap (λ bytes. ok (bytes, length payload)) (append_assoc handshake r.fragment (message rs))

length-wire : (rs : List Record) → length rs ≤ length (wire rs)
length-wire [] = omega arith
length-wire (r ∷ rs) = omega (arith, length-wire rs, length-append r.fragment (wire rs))

pub length-message-le : (rs : List Record) → length (message rs) ≤ length (wire rs)
length-message-le [] = omega arith
length-message-le (r ∷ rs) = omega (
  arith,
  length-message-le rs,
  length-append r.fragment (message rs),
  length-append r.fragment (wire rs),
)

-- However a handshake is cut into records, unwrapping the records checks the whole handshake.
pub unwrap-wire :
    (r : Record) (rs : List Record)
    → AllShort (r ∷ rs)
    → 6 ≤ length (wire (r ∷ rs))
    → length (wire (r ∷ rs)) ≤ 65536
    → unwrap_client_hello (wire (r ∷ rs)) ≡ check_handshake (message (r ∷ rs))
unfolding unwrap_client_hello
unwrap-wire r rs short low high =
    rw
      (
        le→leb 6 (length (wire (r ∷ rs))) low,
        le→leb (length (wire (r ∷ rs))) 65536 high,
        unwrap_records-wire (length (wire (r ∷ rs))) [] (r ∷ rs) [] 0 refl refl short
            (length-wire (r ∷ rs)),
      )
      (rw (==-true (length (wire (r ∷ rs))) _ refl))

-- A ClientHello: the type byte 1, then the body behind its length in three bytes.
abbrev pub client_hello : List ℕ → List ℕ
client_hello body = 1 ∷ vector 3 body

check_handshake-client_hello :
    (body : List ℕ)
    → length body < 2 ^ 24
    → check_handshake (client_hello body) ≡ ok (client_hello body)
unfolding check_handshake
check_handshake-client_hello body h = rw (from_bytes-to_bytes 3 (length body) h) (ground arith)

-- A ClientHello message is read back from every way of cutting it into TLS records.
pub unwrap_client_hello-wire :
    (body : List ℕ) (r : Record) (rs : List Record)
    → message (r ∷ rs) ≡ client_hello body
    → AllShort (r ∷ rs)
    → 6 ≤ length (wire (r ∷ rs))
    → length (wire (r ∷ rs)) ≤ 65536
    → length body < 2 ^ 24
    → unwrap_client_hello (wire (r ∷ rs)) ≡ ok (client_hello body)
unwrap_client_hello-wire body r rs e short low high fits =
    unwrap-wire r rs short low high ∙ ap check_handshake e ∙ check_handshake-client_hello body fits

-- A bare ClientHello handshake is read as it stands.
pub unwrap_client_hello-bare :
    (body : List ℕ)
    → 2 ≤ length body
    → length body + 4 ≤ 65536
    → unwrap_client_hello (client_hello body) ≡ ok (client_hello body)
unfolding unwrap_client_hello
unwrap_client_hello-bare body low high =
    rw
      (
        le→leb 6 (length (client_hello body)) (omega (arith, length-vector 3 body)),
        le→leb (length (client_hello body)) 65536 (omega (arith, length-vector 3 body)),
      )
      (check_handshake-client_hello body (omega arith))
