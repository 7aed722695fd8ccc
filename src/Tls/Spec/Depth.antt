-- ===== src/Tls/Spec/Depth.antt =====
-- The loop of `_normalize_tls_spec`: it ends, and accepts the values that are flat enough and hold only
-- texts, ints and booleans.
use go_httpx.Prelude.{
  ℕ, zero, suc, ◌+◌, ◌≤◌, ◌≡◌, refl, Bool, true, false, ◌&&◌, Option, none, some, List, [], ◌∷◌,
  all, leb, arith,
}
use go_httpx.Prelude.Json.{
  Json, null, bool, int, float, str, arr, obj, Items, nil, cons, Fields, end, field, to_list,
}
use go_httpx.Tls.Spec.{
  SpecError, push_children, members, scan_depth, weight, weight_members, weight_elements,
}

-- A value at a depth: no part of it lies deeper than 8, and none is null or a float.
unfoldable mutual
  pub fits : ℕ → Json → Bool
  fits depth null = false
  fits depth (float x) = false
  fits depth (bool b) = leb depth 8
  fits depth (int n) = leb depth 8
  fits depth (str s) = leb depth 8
  fits depth (arr xs) = leb depth 8 && fits_elements (depth + 1) xs
  fits depth (obj fs) = leb depth 8 && fits_members (depth + 1) fs

  pub fits_elements : ℕ → Items → Bool
  fits_elements depth nil = true
  fits_elements depth (cons v xs) = fits depth v && fits_elements depth xs

  pub fits_members : ℕ → Fields → Bool
  fits_members depth end = true
  fits_members depth (field k v fs) = fits depth v && fits_members depth fs

abbrev fits_at : Json × ℕ → Bool
fits_at (v, depth) = fits depth v

load : List (Json × ℕ) → ℕ
load [] = 0
load ((v, depth) ∷ pending) = weight v + load pending

-- Whether the loop accepts; `none` where it does not end.
abbrev pub accepts : Option (Option SpecError) → Option Bool
accepts none = none
accepts (some none) = some true
accepts (some (some e)) = some false

sum_weight : List Json → ℕ
sum_weight [] = 0
sum_weight (v ∷ vs) = weight v + sum_weight vs

load-push :
    (depth : ℕ) (vs : List Json) (pending : List (Json × ℕ))
    → load (push_children depth vs pending) ≡ sum_weight vs + load pending
unfolding load sum_weight
load-push depth [] pending = omega arith
load-push depth (v ∷ vs) pending = omega (arith, load-push depth vs ((v, depth) ∷ pending))

fits-push :
    (depth : ℕ) (vs : List Json) (pending : List (Json × ℕ))
    → all fits_at (push_children depth vs pending) ≡ all (fits depth) vs && all fits_at pending
fits-push depth [] pending = refl
fits-push depth (v ∷ vs) pending = ground (arith, fits-push depth vs ((v, depth) ∷ pending))

elements-fit : (depth : ℕ) (xs : Items) → all (fits depth) (to_list xs) ≡ fits_elements depth xs
unfolding fits
elements-fit depth nil = refl
elements-fit depth (cons v xs) = ground (arith, elements-fit depth xs)

members-fit : (depth : ℕ) (fs : Fields) → all (fits depth) (members fs) ≡ fits_members depth fs
unfolding fits
members-fit depth end = refl
members-fit depth (field k v fs) = ground (arith, members-fit depth fs)

elements-weight : (xs : Items) → sum_weight (to_list xs) ≡ weight_elements xs
unfolding sum_weight weight
elements-weight nil = refl
elements-weight (cons v xs) = omega (arith, elements-weight xs)

members-weight : (fs : Fields) → sum_weight (members fs) ≡ weight_members fs
unfolding sum_weight weight
members-weight end = refl
members-weight (field k v fs) = omega (arith, members-weight fs)

weight-pos : (v : Json) → 1 ≤ weight v
unfolding weight
weight-pos (obj fs) = omega arith
weight-pos (arr xs) = omega arith
weight-pos null = omega arith
weight-pos (float x) = omega arith
weight-pos (str s) = omega arith
weight-pos (int n) = omega arith
weight-pos (bool b) = omega arith

scan_depth-fits :
    (fuel : ℕ) (pending : List (Json × ℕ))
    → load pending ≤ fuel
    → accepts (scan_depth fuel pending) ≡ some (all fits_at pending)
unfolding scan_depth load weight fits
scan_depth-fits fuel [] enough = ground arith
scan_depth-fits zero ((v, depth) ∷ pending) enough = absurd (ground (arith, weight-pos v))
scan_depth-fits (suc fuel) ((null, depth) ∷ pending) enough = ground arith
scan_depth-fits (suc fuel) ((float x, depth) ∷ pending) enough = ground arith
scan_depth-fits (suc fuel) ((str s, depth) ∷ pending) enough =
    ground (arith, scan_depth-fits fuel pending)
scan_depth-fits (suc fuel) ((int n, depth) ∷ pending) enough =
    ground (arith, scan_depth-fits fuel pending)
scan_depth-fits (suc fuel) ((bool b, depth) ∷ pending) enough =
    ground (arith, scan_depth-fits fuel pending)
scan_depth-fits (suc fuel) ((arr xs, depth) ∷ pending) enough = ground (
  arith,
  scan_depth-fits fuel (push_children (depth + 1) (to_list xs) pending),
  load-push (depth + 1) (to_list xs) pending,
  elements-weight xs,
  fits-push (depth + 1) (to_list xs) pending,
  elements-fit (depth + 1) xs,
)
scan_depth-fits (suc fuel) ((obj fs, depth) ∷ pending) enough = ground (
  arith,
  scan_depth-fits fuel (push_children (depth + 1) (members fs) pending),
  load-push (depth + 1) (members fs) pending,
  members-weight fs,
  fits-push (depth + 1) (members fs) pending,
  members-fit (depth + 1) fs,
)

-- The loop always ends, and accepts exactly the values no part of which lies deeper than 8 levels, is
-- null or is a float.
pub scan_depth_lem : (v : Json) → accepts (scan_depth (weight v) ((v, 0) ∷ [])) ≡ some (fits 0 v)
unfolding load
scan_depth_lem v = ground (arith, scan_depth-fits (weight v) ((v, 0) ∷ []))
