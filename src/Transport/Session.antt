-- ===== src/Transport/Session.antt =====
-- The sessions of python/gohttpx.py: `_created_client_id`, `_create_session`, `_delete_session` and
-- `_validate_capabilities`. Whether a text is a timestamp that the regular expression and
-- `datetime.fromisoformat` accept is a parameter.
use go_httpx.Prelude.{
  String, Bool, true, false, ◌&&◌, not, Option, none, some, List, [], ◌∷◌, ◌==◌, ltb, leb, all,
  if◌then◌else◌, ok, err, ◌>>=◌, ◌>>◌, guard,
}
use go_httpx.Prelude.Json.{
  Json, int, str, arr, pos, Fields, to_list, keys, get, contains, is_subset, is_text,
}
use go_httpx.Transport.{
  Go, bad_protocol, service_unavailable, Request, create_client, delete_client, Exchange, refused,
  replied, Service,
}
use go_httpx.Transport.Envelope.{
  decode_json, service_error, holds, is_string, is_full_string, text_of,
}
use go_httpx.Transport.Call.{Setting, call, same_instance}

abbrev pub version : String
version = "2.1.2"

-- The values of the enumeration `TLSFingerprint`.
abbrev pub fingerprint_values : List String
fingerprint_values =
    "golang" ∷ "randomized" ∷ "randomized_alpn" ∷ "randomized_no_alpn" ∷ "android_11_okhttp"
    ∷ "chrome_auto" ∷ "chrome_58" ∷ "chrome_62" ∷ "chrome_70" ∷ "chrome_72" ∷ "chrome_83"
    ∷ "chrome_87" ∷ "chrome_96" ∷ "chrome_100" ∷ "chrome_102" ∷ "chrome_106_shuffle"
    ∷ "chrome_100_psk" ∷ "chrome_112_psk_shuffle" ∷ "chrome_114_padding_psk_shuffle"
    ∷ "chrome_115_pq" ∷ "chrome_115_pq_psk" ∷ "chrome_120" ∷ "chrome_120_pq" ∷ "chrome_131"
    ∷ "chrome_133" ∷ "firefox_auto" ∷ "firefox_55" ∷ "firefox_56" ∷ "firefox_63" ∷ "firefox_65"
    ∷ "firefox_99" ∷ "firefox_102" ∷ "firefox_105" ∷ "firefox_120" ∷ "ios_auto" ∷ "ios_11_1"
    ∷ "ios_12_1" ∷ "ios_13" ∷ "ios_14" ∷ "edge_auto" ∷ "edge_85" ∷ "edge_106" ∷ "safari_auto"
    ∷ "safari_16_0" ∷ "360_auto" ∷ "360_7_5" ∷ "360_11_0" ∷ "qq_auto" ∷ "qq_11_1" ∷ []

-- `set(data) == expected`
abbrev pub has_keys : List String → Fields → Bool
has_keys expected data_fields =
    is_subset expected (keys data_fields) && is_subset (keys data_fields) expected

-- `type(value) is int and value == 1`
abbrev pub is_one : Json → Bool
is_one (int (pos n)) = n == 1
is_one _ = false

-- `type(value) is int and value > 0`
abbrev pub is_positive : Json → Bool
is_positive (int (pos n)) = ltb 0 n
is_positive _ = false

abbrev texts_of : List Json → List String
texts_of [] = []
texts_of (str s ∷ rest) = s ∷ texts_of rest
texts_of (v ∷ rest) = texts_of rest

-- `len(set(xs)) == len(xs)`
abbrev pub is_distinct : List String → Bool
is_distinct [] = true
is_distinct (x ∷ xs) = not (contains x xs) && is_distinct xs

abbrev pub includes : Option String → List String → Bool
includes none names = true
includes (some name) names = contains name names

unfoldable pub check_fingerprints : Option String → Option Json → Go (Unit {0})
check_fingerprints wanted (some (arr xs)) = do
  guard (all is_string (to_list xs)) bad_protocol
  let names = texts_of (to_list xs)
  guard (is_distinct names && is_subset fingerprint_values names) bad_protocol
  guard (includes wanted names) bad_protocol
check_fingerprints wanted _ = err bad_protocol

unfoldable pub validate_capabilities : Fields → Option String → Go (Unit {0})
unfolding check_fingerprints
validate_capabilities data_fields fingerprint = do
  guard
      (has_keys ("protocol_version" ∷ "server_version" ∷ "max_body_bytes" ∷ "tls_fingerprints" ∷ [])
        data_fields)
      bad_protocol
  guard (holds is_one (get "protocol_version" data_fields)) bad_protocol
  guard (holds (is_text version) (get "server_version" data_fields)) bad_protocol
  guard (holds is_positive (get "max_body_bytes" data_fields)) bad_protocol
  check_fingerprints fingerprint (get "tls_fingerprints" data_fields)

module _ (is_timestamp : String → Bool) where
  unfoldable pub created_client_id : Fields → Go String
  created_client_id data_fields = do
    guard (has_keys ("protocol_version" ∷ "client_id" ∷ "expires_at" ∷ []) data_fields) bad_protocol
    guard (holds is_one (get "protocol_version" data_fields)) bad_protocol
    guard
        (holds is_full_string (get "client_id" data_fields)
          && holds is_full_string (get "expires_at" data_fields))
        bad_protocol
    guard (is_timestamp (text_of (get "expires_at" data_fields))) bad_protocol
    ok (text_of (get "client_id" data_fields))

-- A delete goes out with no budget and no request; its answer is read by rules of its own.
unfoldable pub delete_outcome : Option String → Exchange → Go (Unit {0})
delete_outcome instance_id (refused error) = err service_unavailable
delete_outcome instance_id (replied reply) =
    if not (same_instance instance_id reply.instance_header)
    then err bad_protocol
    else if leb 400 reply.status
    then (decode_json reply >>= λ data_fields. err (service_error data_fields))
    else if not (reply.status == 204)
    then err bad_protocol
    else ok tt

unfoldable pub delete_session :
    Service → Option String → String → List Request → Go (Unit {0}) × List Request
unfolding delete_outcome
delete_session service instance_id id log =
    (delete_outcome instance_id (service (delete_client id ∷ log)), delete_client id ∷ log)

-- An answer that is refused but names a session has that session deleted; the first exception is the
-- one that is raised.
unfoldable pub create_session :
    (String → Bool) → Service → Setting → List Request → Go String × List Request
unfolding delete_session
create_session is_timestamp service c log =
    let (answer, log') = call service c create_client 201 log in
    elim answer [
      | err fault ↦ (err fault, log')
      | ok created ↦ elim (created_client_id is_timestamp created) [
        | ok id ↦ (ok id, log')
        | err fault ↦
            if holds is_full_string (get "client_id" created)
            then (
              err fault,
              (delete_session service c.instance_id (text_of (get "client_id" created)) log').1,
            )
            else (err fault, log')
      ]
    ]
