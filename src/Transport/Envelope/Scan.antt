-- ===== src/Transport/Envelope/Scan.antt =====
-- What the two loops of `_decode_json` compute: the hook accepts the objects without a repeated key and
-- changes nothing else, and the search for a null ends with the answer.
use go_httpx.Prelude.{
  ℕ, zero, suc, ◌+◌, ◌≤◌, ◌≡◌, refl, String, Bool, true, false, ◌&&◌, ◌||◌, not, none, some, List,
  [], ◌∷◌, ◌++◌, map, str_eq, any, if◌then◌else◌, arith, eq_iff, append_assoc, append-nil,
}
use go_httpx.Prelude.Json.{
  Json, null, bool, int, float, str, arr, obj, Items, nil, cons, Fields, end, field, to_list,
  contains,
}
use go_httpx.Transport.Envelope.{
  collect, reject_duplicate, values, push_all, scan_null, values_in, values_in_items,
  values_in_fields,
}

-- No key comes twice.
abbrev pub distinct_keys : List (String × Json) → Bool
distinct_keys [] = true
distinct_keys ((k, v) ∷ rest) = not (contains k (map (λ kv. kv.0) rest)) && distinct_keys rest

abbrev avoids : List String → List (String × Json) → Bool
avoids seen [] = true
avoids seen ((k, v) ∷ rest) = not (contains k seen) && avoids seen rest

str_eq_sym : (a b : String) → str_eq a b ≡ str_eq b a
str_eq_sym a b = ground (arith, eq_iff a b, eq_iff b a)

contains-snoc :
    (k j : String) (xs : List String) → contains k (xs ++ j ∷ []) ≡ contains k xs || str_eq j k
contains-snoc k j [] = ground arith
contains-snoc k j (x ∷ xs) = ground (arith, contains-snoc k j xs)

avoids-snoc :
    (k : String) (seen : List String) (pairs : List (String × Json))
    → avoids (seen ++ k ∷ []) pairs ≡ avoids seen pairs && not (contains k (map (λ kv. kv.0) pairs))
avoids-snoc k seen [] = refl
avoids-snoc k seen ((j, v) ∷ pairs) =
    ground (arith, contains-snoc j k seen, avoids-snoc k seen pairs, str_eq_sym k j)

map-snoc :
    (xs : List (String × Json)) (k : String) (v : Json)
    → map (λ kv. kv.0) (xs ++ (k, v) ∷ []) ≡ map (λ kv. kv.0) xs ++ k ∷ []
map-snoc [] k v = refl
map-snoc (x ∷ xs) k v = ground (arith, map-snoc xs k v)

avoids-nil : (pairs : List (String × Json)) → avoids [] pairs ≡ true
avoids-nil [] = refl
avoids-nil (kv ∷ pairs) = ground (arith, avoids-nil pairs)

collect_lem :
    (result pairs : List (String × Json))
    → collect result pairs ≡ (
        if avoids (map (λ kv. kv.0) result) pairs && distinct_keys pairs
        then some (result ++ pairs)
        else none)
unfolding collect
collect_lem result [] = ground (arith, append-nil result)
collect_lem result ((k, v) ∷ pairs) = ground (
  arith,
  collect_lem (result ++ (k, v) ∷ []) pairs,
  map-snoc result k v,
  avoids-snoc k (map (λ kv. kv.0) result) pairs,
  append_assoc result ((k, v) ∷ []) pairs,
)

-- The hook keeps an object in which no key comes twice as it stands, and refuses every other.
pub reject_duplicate_lem :
    (pairs : List (String × Json))
    → reject_duplicate pairs ≡ (if distinct_keys pairs then some pairs else none)
unfolding reject_duplicate
reject_duplicate_lem pairs = ground (arith, collect_lem [] pairs, avoids-nil pairs)

-- Whether a value is null or contains one, at any depth.
mutual
  pub has_null : Json → Bool
  has_null null = true
  has_null (bool b) = false
  has_null (int n) = false
  has_null (float x) = false
  has_null (str s) = false
  has_null (arr xs) = has_null_items xs
  has_null (obj fs) = has_null_fields fs

  has_null_items : Items → Bool
  has_null_items nil = false
  has_null_items (cons x xs) = has_null x || has_null_items xs

  has_null_fields : Fields → Bool
  has_null_fields end = false
  has_null_fields (field k v fs) = has_null v || has_null_fields fs

total : List Json → ℕ
total [] = 0
total (v ∷ vs) = values_in v + total vs

any-push_all :
    (vs pending : List Json)
    → any has_null (push_all vs pending) ≡ any has_null vs || any has_null pending
any-push_all [] pending = refl
any-push_all (v ∷ vs) pending = ground (arith, any-push_all vs (v ∷ pending))

total-push_all : (vs pending : List Json) → total (push_all vs pending) ≡ total vs + total pending
unfolding total
total-push_all [] pending = omega arith
total-push_all (v ∷ vs) pending = omega (arith, total-push_all vs (v ∷ pending))

items-null : (xs : Items) → any has_null (to_list xs) ≡ has_null_items xs
unfolding has_null
items-null nil = refl
items-null (cons x xs) = ground (arith, items-null xs)

fields-null : (fs : Fields) → any has_null (values fs) ≡ has_null_fields fs
unfolding has_null
fields-null end = refl
fields-null (field k v fs) = ground (arith, fields-null fs)

items-total : (xs : Items) → total (to_list xs) ≡ values_in_items xs
unfolding total values_in
items-total nil = refl
items-total (cons x xs) = ground (arith, items-total xs)

fields-total : (fs : Fields) → total (values fs) ≡ values_in_fields fs
unfolding total values_in
fields-total end = refl
fields-total (field k v fs) = ground (arith, fields-total fs)

values_in-pos : (v : Json) → 1 ≤ values_in v
unfolding values_in
values_in-pos null = ground arith
values_in-pos (bool b) = ground arith
values_in-pos (int n) = ground arith
values_in-pos (float x) = ground arith
values_in-pos (str s) = ground arith
values_in-pos (arr xs) = ground arith
values_in-pos (obj fs) = ground arith

scan_null-any :
    (fuel : ℕ) (pending : List Json)
    → total pending ≤ fuel
    → scan_null fuel pending ≡ some (any has_null pending)
unfolding scan_null total values_in has_null
scan_null-any fuel [] enough = ground arith
scan_null-any zero (v ∷ pending) enough = absurd (ground (arith, values_in-pos v))
scan_null-any (suc fuel) (null ∷ pending) enough = ground arith
scan_null-any (suc fuel) (obj fs ∷ pending) enough = ground (
  arith,
  scan_null-any fuel (push_all (values fs) pending),
  total-push_all (values fs) pending,
  fields-total fs,
  any-push_all (values fs) pending,
  fields-null fs,
)
scan_null-any (suc fuel) (arr xs ∷ pending) enough = ground (
  arith,
  scan_null-any fuel (push_all (to_list xs) pending),
  total-push_all (to_list xs) pending,
  items-total xs,
  any-push_all (to_list xs) pending,
  items-null xs,
)
scan_null-any (suc fuel) (bool b ∷ pending) enough = ground (arith, scan_null-any fuel pending)
scan_null-any (suc fuel) (int n ∷ pending) enough = ground (arith, scan_null-any fuel pending)
scan_null-any (suc fuel) (float x ∷ pending) enough = ground (arith, scan_null-any fuel pending)
scan_null-any (suc fuel) (str s ∷ pending) enough = ground (arith, scan_null-any fuel pending)

-- The search for a null always ends, and answers whether the value is null or contains one at any
-- depth.
pub scan_null_lem : (v : Json) → scan_null (values_in v) (v ∷ []) ≡ some (has_null v)
unfolding total
scan_null_lem v = ground (arith, scan_null-any (values_in v) (v ∷ []))
