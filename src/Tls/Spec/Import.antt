-- ===== src/Tls/Spec/Import.antt =====
-- What `tls_spec_from_client_hello` returns passes the checks of `_normalize_tls_spec`.
use go_httpx.Prelude.{
  ℕ, ◌≤◌, ◌≡◌, String, true, Option, none, some, List, [], ◌∷◌, All, ok, ◌>>=◌, Ensures,
  Ensures-bind, arith, le→leb,
}
use go_httpx.Prelude.Json.{Json}
use go_httpx.Tls.Wire.{unwrap_client_hello}
use go_httpx.Tls.Hello.{
  extension_specs, finish_spec, find_versions, numeric_versions, min_list, max_list, spec_of_hello,
  spec_object, spec_of_versions, tls_spec_from_client_hello,
}
use go_httpx.Tls.Spec.{
  SpecError, capture, normalize_tls_spec, check_spec, spec_value, scan_depth, weight,
}
use go_httpx.Tls.Spec.Depth.{fits, accepts, scan_depth_lem}
use go_httpx.Tls.Spec.Flat.{Fits, strings-fit, array-fit, extension_specs-Fits}

-- The dict of an import, its extensions flat enough.
record Shape (spec : Json) : Type 0 where
  ciphers : List String
  extensions : List Json
  min_vers : ℕ
  max_vers : ℕ
  is_spec : spec ≡ spec_object ciphers extensions min_vers max_vers
  all_fit : All (Fits 2) extensions

spec_of_versions-Shape :
    (ciphers : List String) (extensions : List Json) (numeric : List ℕ) (spec : Json)
    → All (Fits 2) extensions
    → spec_of_versions ciphers extensions numeric ≡ ok spec
    → Shape spec
spec_of_versions-Shape ciphers extensions [] spec fit h = cc
spec_of_versions-Shape ciphers extensions (v ∷ vs) spec fit h = record {
  ciphers = ciphers;
  extensions = extensions;
  min_vers = min_list v vs;
  max_vers = max_list v vs;
  is_spec = cc;
  all_fit = fit;
}

finish_spec-Shape :
    (ciphers : List String) (extensions : List Json)
    → All (Fits 2) extensions
    → Ensures Shape (finish_spec ciphers extensions)
unfolding finish_spec
finish_spec-Shape ciphers extensions fit = Ensures-bind _ _ λ _ _. record {
  at = λ spec.
      spec_of_versions-Shape ciphers extensions (numeric_versions (find_versions extensions)) spec
        fit;
}

tail-Shape :
    (names : List String) (fuel : ℕ) (extensions : List ℕ) (cursor : ℕ)
    → Ensures Shape (extension_specs fuel extensions cursor >>= λ specs. finish_spec names specs)
tail-Shape names fuel extensions cursor =
    Ensures-bind (extension_specs fuel extensions cursor) _ λ specs e.
      finish_spec-Shape names specs ((extension_specs-Fits fuel extensions cursor).at specs e)

spec_of_hello-Shape : (hello : List ℕ) → Ensures Shape (spec_of_hello hello)
unfolding spec_of_hello
spec_of_hello-Shape hello = search (tail-Shape, Ensures-bind) depth 16

Shape-Fits : (spec : Json) → Shape spec → Fits 0 spec
unfolding fits
Shape-Fits spec s =
    rw (s.is_spec)
      (ground (arith, strings-fit 2 s.ciphers (omega arith), array-fit 2 s.extensions s.all_fit))

import-Shape : (payload : List ℕ) → Ensures Shape (tls_spec_from_client_hello payload)
unfolding tls_spec_from_client_hello
import-Shape payload =
    Ensures-bind (unwrap_client_hello payload) spec_of_hello λ hello _. spec_of_hello-Shape hello

accepted : (o : Option (Option SpecError)) → accepts o ≡ some true → o ≡ some none
accepted o h = ground arith

check_spec-spec_object :
    (encoded_length : Json → ℕ) (ciphers : List String) (extensions : List Json) (low high : ℕ)
    → let spec = spec_object ciphers extensions low high in
      Fits 0 spec → encoded_length spec ≤ 65536 → check_spec encoded_length spec ≡ ok spec
unfolding check_spec
check_spec-spec_object encoded_length ciphers extensions low high fit short =
    let spec = spec_object ciphers extensions low high in
    let scan : scan_depth (weight spec) ((spec, 0) ∷ []) ≡ some none =
      accepted _ (ground (arith, scan_depth_lem spec)) in
    rw (scan, le→leb (encoded_length spec) 65536 short)

check_spec-Shape :
    (encoded_length : Json → ℕ) (spec : Json)
    → Shape spec
    → encoded_length spec ≤ 65536
    → check_spec encoded_length spec ≡ ok spec
check_spec-Shape encoded_length spec s short =
    let lemma =
      check_spec-spec_object encoded_length s.ciphers s.extensions s.min_vers s.max_vers in
    let same : Fits 0 spec = Shape-Fits spec s in ground (arith, s.is_spec, lemma, same)

-- The dict that an import returns passes every check of `_normalize_tls_spec` on fields, depth and
-- types: a capture is normalised to the imported dict, unless that is too long when it is encoded.
pub normalize_tls_spec-capture :
    (encoded_length : Json → ℕ) (payload : List ℕ) (spec : Json)
    → tls_spec_from_client_hello payload ≡ ok spec
    → encoded_length spec ≤ 65536
    → normalize_tls_spec encoded_length (capture payload) ≡ ok spec
unfolding normalize_tls_spec spec_value
normalize_tls_spec-capture encoded_length payload spec h short =
    rw (h) (check_spec-Shape encoded_length spec ((import-Shape payload).at spec h) short)
