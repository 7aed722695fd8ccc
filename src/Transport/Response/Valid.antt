-- ===== src/Transport/Response/Valid.antt =====
-- What a response that `_response` builds is made of.
use go_httpx.Prelude.{
  ℕ, ◌≤◌, ◌≡◌, ◌⊎◌, inl, inr, String, true, false, Option, some, List, [], ◌∷◌, all, any, All, ok,
  traverse, Ensures, Ensures-bind, Ensures-ok, Ensures-err, arith, Result-cases,
}
use go_httpx.Prelude.Json.{Json, str, arr, get, Fields, to_list}
use go_httpx.Transport.{Go, bad_protocol}
use go_httpx.Transport.Envelope.{holds}
use go_httpx.Transport.Response.{
  HttpResponse, is_status, status_of, version_bytes, is_token_byte, is_control_byte, is_empty,
  header_pair, header_pairs, reason_bytes, known_version, check_scalars, response,
}

-- A header's name is a token of ASCII letters and signs; no value has a control byte but the tab.
pub record GoodHeader (h : List ℕ × List ℕ) : Type 0 where
  pub has_name : is_empty h.0 ≡ false
  pub is_token : all is_token_byte h.0 ≡ true
  pub is_clean : any is_control_byte h.1 ≡ false

abbrev pub IsVersion : String → Type 0
IsVersion v = (v ≡ "HTTP/1.0") ⊎ (v ≡ "HTTP/1.1") ⊎ (v ≡ "HTTP/2") ⊎ (v ≡ "HTTP/3")

pub record ValidResponse (r : HttpResponse) : Type 0 where
  pub low : 100 ≤ r.status
  pub high : r.status ≤ 599
  pub good_headers : All GoodHeader r.headers
  pub clean_reason : any is_control_byte r.reason_phrase ≡ false
  pub is_version : IsVersion r.http_version

header_pair-good : (pair : Json) (h : List ℕ × List ℕ) → header_pair pair ≡ ok h → GoodHeader h
unfolding header_pair
header_pair-good pair h e = ground arith

header_pair-GoodHeader : (pair : Json) → Ensures GoodHeader (header_pair pair)
header_pair-GoodHeader pair = record { at = λ h e. header_pair-good pair h e }

traverse-All :
    (f : Json → Go (List ℕ × List ℕ)) (P : List ℕ × List ℕ → Type 0) (xs : List Json)
    → ((x : Json) → Ensures P (f x))
    → Ensures (All P) (traverse f xs)
traverse-All f P [] each = Ensures-ok [] tt
traverse-All f P (x ∷ xs) each = Ensures-bind (f x) _ λ y e.
    Ensures-bind (traverse f xs) _
      λ ys es. Ensures-ok (y ∷ ys) ((each x).at y e, (traverse-All f P xs each).at ys es)

header_pairs-GoodHeader : (o : Option Json) → Ensures (All GoodHeader) (header_pairs o)
unfolding header_pairs
header_pairs-GoodHeader (some (arr pairs)) =
    traverse-All header_pair GoodHeader (to_list pairs) header_pair-GoodHeader
header_pairs-GoodHeader _ = Ensures-err bad_protocol

reason_bytes-clean :
    (o : Option Json) (bytes : List ℕ)
    → reason_bytes o ≡ ok bytes
    → any is_control_byte bytes ≡ false
unfolding reason_bytes
reason_bytes-clean o bytes e = ground arith

version_bytes-IsVersion : (v w : String) → version_bytes v ≡ some w → IsVersion w
unfolding version_bytes
version_bytes-IsVersion v w h = ground arith

known_version-IsVersion : (o : Option Json) (v : String) → known_version o ≡ ok v → IsVersion v
known_version-IsVersion (some (str w)) v e = version_bytes-IsVersion w v (ground arith)
known_version-IsVersion _ v e = absurd (ground arith)

check_scalars-parts :
    (b64decode : String → Option (List ℕ)) (data_fields : Fields) (version : String)
    → check_scalars b64decode data_fields ≡ ok version
    → (holds is_status (get "status_code" data_fields) ≡ true)
      × (known_version (get "http_version" data_fields) ≡ ok version)
unfolding check_scalars
check_scalars-parts b64decode data_fields version e = ground arith

status-bounds :
    (o : Option Json) → holds is_status o ≡ true → (100 ≤ status_of o) × (status_of o ≤ 599)
status-bounds o h = ground arith

-- A response that is built from an answer, whatever the service has sent, has a status from 100 to 599,
-- one of four HTTP versions, header names that are tokens, and no control byte but the tab in a header
-- value or in the reason phrase.
pub response-ValidResponse :
    (b64decode : String → Option (List ℕ)) (data_fields : Fields) (r : HttpResponse)
    → response b64decode data_fields ≡ ok r
    → ValidResponse r
unfolding response
response-ValidResponse b64decode data_fields r h =
    elim (Result-cases (check_scalars b64decode data_fields)) [
      | inr (f, e) ↦ absurd (ground arith)
      | inl (v, scalars) ↦ elim (Result-cases (header_pairs (get "headers" data_fields))) [
        | inr (f, e) ↦ absurd (ground arith)
        | inl (hs, headers) ↦ elim (Result-cases (reason_bytes (get "reason_phrase" data_fields))) [
          | inr (f, e) ↦ absurd (ground arith)
          | inl (bs, reason) ↦
              let parts = check_scalars-parts b64decode data_fields v scalars in
              let bounds = status-bounds (get "status_code" data_fields) parts.0 in
              let good = (header_pairs-GoodHeader (get "headers" data_fields)).at hs headers in
              let clean = reason_bytes-clean (get "reason_phrase" data_fields) bs reason in
              let known = known_version-IsVersion (get "http_version" data_fields) v parts.1 in
              ground arith
        ]
      ]
    ]
