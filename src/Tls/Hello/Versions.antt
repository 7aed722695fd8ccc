-- ===== src/Tls/Hello/Versions.antt =====
-- The protocol versions of an imported spec, for any input bytes.
use go_httpx.Prelude.{
  ℕ, ◌≤◌, ◌≡◌, ◌⊎◌, List, [], ◌∷◌, String, All, ok, min, max, arith, Ensures, Ensures-bind,
}
use go_httpx.Prelude.Json.{Json}
use go_httpx.Tls.Hello.{
  numeric_versions, find_versions, min_list, max_list, finish_spec, spec_of_hello, spec_object,
  tls_spec_from_client_hello, spec_of_versions,
}
use go_httpx.Tls.Wire.{unwrap_client_hello}

abbrev pub IsVersion : ℕ → Type 0
IsVersion v = (v ≡ 0x0303) ⊎ (v ≡ 0x0304)

numeric_versions-IsVersion : (items : List Json) → All IsVersion (numeric_versions items)
unfolding numeric_versions
numeric_versions-IsVersion [] = tt
numeric_versions-IsVersion (item ∷ rest) = ground (arith, numeric_versions-IsVersion rest)

min_list-IsVersion :
    (v : ℕ) (vs : List ℕ) → IsVersion v → All IsVersion vs → IsVersion (min_list v vs)
unfolding min_list
min_list-IsVersion v [] h hs = h
min_list-IsVersion v (m ∷ ms) h hs = min_list-IsVersion (min v m) ms (ground arith) hs.1

max_list-IsVersion :
    (v : ℕ) (vs : List ℕ) → IsVersion v → All IsVersion vs → IsVersion (max_list v vs)
unfolding max_list
max_list-IsVersion v [] h hs = h
max_list-IsVersion v (m ∷ ms) h hs = max_list-IsVersion (max v m) ms (ground arith) hs.1

min_list-le : (v : ℕ) (vs : List ℕ) → min_list v vs ≤ v
unfolding min_list
min_list-le v [] = omega arith
min_list-le v (m ∷ ms) = omega (arith, min_list-le (min v m) ms)

le-max_list : (v : ℕ) (vs : List ℕ) → v ≤ max_list v vs
unfolding max_list
le-max_list v [] = omega arith
le-max_list v (m ∷ ms) = omega (arith, le-max_list (max v m) ms)

-- What an import returns: the six fields, and versions in order among TLS 1.2 and TLS 1.3.
pub record Imported (spec : Json) : Type 0 where
  pub ciphers : List String
  pub extensions : List Json
  pub min_vers : ℕ
  pub max_vers : ℕ
  pub is_spec : spec ≡ spec_object ciphers extensions min_vers max_vers
  pub ordered : min_vers ≤ max_vers
  pub min_known : IsVersion min_vers
  pub max_known : IsVersion max_vers

spec_of_versions-Imported :
    (ciphers : List String) (extensions : List Json) (numeric : List ℕ) (spec : Json)
    → All IsVersion numeric
    → spec_of_versions ciphers extensions numeric ≡ ok spec
    → Imported spec
spec_of_versions-Imported ciphers extensions [] spec known h = cc
spec_of_versions-Imported ciphers extensions (v ∷ vs) spec known h = record {
  ciphers = ciphers;
  extensions = extensions;
  min_vers = min_list v vs;
  max_vers = max_list v vs;
  is_spec = cc;
  ordered = omega (arith, min_list-le v vs, le-max_list v vs);
  min_known = min_list-IsVersion v vs known.0 known.1;
  max_known = max_list-IsVersion v vs known.0 known.1;
}

finish_spec-Imported :
    (ciphers : List String) (extensions : List Json)
    → Ensures Imported (finish_spec ciphers extensions)
unfolding finish_spec
finish_spec-Imported ciphers extensions = Ensures-bind _ _ λ _ _. record {
  at = λ spec.
      spec_of_versions-Imported ciphers extensions _ spec
        (numeric_versions-IsVersion (find_versions extensions));
}

spec_of_hello-Imported : (hello : List ℕ) → Ensures Imported (spec_of_hello hello)
unfolding spec_of_hello
spec_of_hello-Imported hello = search (Ensures-bind, finish_spec-Imported) depth 12

-- Whatever the bytes, an import that succeeds returns such a spec.
pub tls_spec_from_client_hello-Imported :
    (payload : List ℕ) (spec : Json) → tls_spec_from_client_hello payload ≡ ok spec → Imported spec
unfolding tls_spec_from_client_hello
tls_spec_from_client_hello-Imported payload =
    (Ensures-bind (unwrap_client_hello payload) spec_of_hello
      λ hello _. spec_of_hello-Imported hello).at
