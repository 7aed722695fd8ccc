-- ===== src/Checks/Tls.antt =====
-- A ClientHello of a TLS 1.3 client, bare and cut into two records, and the readers on it.
use go_httpx.Prelude.{ℕ, some, zero, suc, ◌≡◌, refl, List, [], ◌∷◌, ok, arith, take, drop}
use go_httpx.Prelude.Bits.{and_digits}
use go_httpx.Prelude.Json.{Json, array, str, object, strings}
use go_httpx.Tls.Names.{is_grease_id, lookup, tls_name, is_name, is_hex_name}
use go_httpx.Tls.Wire.{
  from_bytes, take_vector, uint16s, uint16_list, check_handshake, unwrap_client_hello,
}
use go_httpx.Tls.Wire.Records.{Record, wire, client_hello, unwrap_client_hello-bare}
use go_httpx.Tls.Wire.Sent.{Sent}
use go_httpx.Tls.Extension.{
  share_group, key_shares, supported_versions, parse_key_shares, parse_hello_extension, names_of,
}
use go_httpx.Tls.Hello.{
  tls_spec_from_client_hello, spec_object, spec_of_hello, extension_specs, find_versions,
  numeric_versions, min_list, max_list, finish_spec,
}
use go_httpx.Tls.Spec.{normalize_tls_spec, capture, scan_depth, weight}
use go_httpx.Tls.Spec.Depth.{accepts, fits, scan_depth_lem}
use go_httpx.Tls.Spec.Import.{normalize_tls_spec-capture}
use go_httpx.Tls.Hello.RoundTrip.{
  Offer, FitsOffer, offer_bytes, imported, import-offer, import-records,
}
use go_httpx.Tls.Hello.Versions.{Imported, tls_spec_from_client_hello-Imported}

abbrev repeat : ℕ → ℕ → List ℕ
repeat zero b = []
repeat (suc n) b = b ∷ repeat n b

-- Two cipher suites, a GREASE extension, supported groups, supported versions and a key share.
abbrev offer : Offer
offer = record {
  version_and_random = 3 ∷ 3 ∷ repeat 32 7;
  session_id = 1 ∷ 2 ∷ [];
  ciphers = 0x1301 ∷ 0x0A0A ∷ [];
  extensions =
      record { kind = 0x1A1A; body = [] }
      ∷ record { kind = 10; body = 0 ∷ 2 ∷ 0 ∷ 29 ∷ [] }
      ∷ record { kind = 43; body = 4 ∷ 3 ∷ 4 ∷ 3 ∷ 3 ∷ [] }
      ∷ record { kind = 51; body = 0 ∷ 6 ∷ 0 ∷ 29 ∷ 0 ∷ 2 ∷ 9 ∷ 9 ∷ [] }
      ∷ [];
}

offer_fits : FitsOffer offer
offer_fits = record {
  random_length = refl;
  session_length = omega arith;
  has_cipher = omega arith;
  ciphers_small = (omega arith, (omega arith, tt));
  ciphers_length = omega arith;
  extensions_fit = (
    (omega arith, omega arith),
    ((omega arith, omega arith), ((omega arith, omega arith), ((omega arith, omega arith), tt))),
  );
  extensions_length = omega arith;
}

import-offer_example :
    tls_spec_from_client_hello (client_hello (offer_bytes offer)) ≡ imported offer
import-offer_example = import-offer offer offer_fits (omega arith)

abbrev first_record : Record
first_record = record {
  major = 3;
  minor = 1;
  fragment = take 20 (client_hello (offer_bytes offer));
}

abbrev second_record : Record
second_record = record {
  major = 3;
  minor = 3;
  fragment = drop 20 (client_hello (offer_bytes offer));
}

import-records_example :
    tls_spec_from_client_hello (wire (first_record ∷ second_record ∷ [])) ≡ imported offer
import-records_example =
    import-records offer offer_fits first_record (second_record ∷ []) refl
      (omega arith, (omega arith, tt)) (omega arith)

unwrap-bare_example :
    unwrap_client_hello (client_hello (offer_bytes offer)) ≡ ok (client_hello (offer_bytes offer))
unwrap-bare_example = unwrap_client_hello-bare (offer_bytes offer) (omega arith) (omega arith)

abbrev share : Sent
share = record { kind = 29; body = repeat 32 5 }

abbrev imported_spec : Json
imported_spec =
    spec_object ("TLS_AES_128_GCM_SHA256" ∷ "GREASE" ∷ [])
      (object (("name", str "GREASE") ∷ [])
        ∷ object
            (("name", str "supported_groups") ∷ ("named_group_list", strings ("x25519" ∷ [])) ∷ [])
        ∷ object (
            ("name", str "supported_versions")
            ∷ ("versions", strings ("TLS 1.3" ∷ "TLS 1.2" ∷ []))
            ∷ [])
        ∷ object (
            ("name", str "key_share")
            ∷ ("client_shares", array (object (("group", str "x25519") ∷ []) ∷ []))
            ∷ [])
        ∷ [])
      0x0303 0x0304

import_run : tls_spec_from_client_hello (client_hello (offer_bytes offer)) ≡ ok imported_spec
unfolding tls_spec_from_client_hello spec_of_hello unwrap_client_hello check_handshake from_bytes
    take_vector uint16s uint16_list extension_specs parse_hello_extension supported_versions
    parse_key_shares key_shares share_group names_of tls_name is_grease_id and_digits lookup is_name
    is_hex_name finish_spec find_versions numeric_versions min_list max_list
import_run = refl

-- The same offer as an import that succeeds.
import-Imported_example : Imported imported_spec
import-Imported_example =
    tls_spec_from_client_hello-Imported (client_hello (offer_bytes offer)) imported_spec import_run

normalize_tls_spec-capture_example :
    normalize_tls_spec (λ v. 1000) (capture (client_hello (offer_bytes offer))) ≡ ok imported_spec
normalize_tls_spec-capture_example =
    normalize_tls_spec-capture (λ v. 1000) (client_hello (offer_bytes offer)) imported_spec
      import_run (omega arith)

scan_depth_lem_example :
    accepts (scan_depth (weight imported_spec) ((imported_spec, 0) ∷ []))
    ≡ some (fits 0 imported_spec)
scan_depth_lem_example = scan_depth_lem imported_spec
