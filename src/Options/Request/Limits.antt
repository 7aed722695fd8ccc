-- ===== src/Options/Request/Limits.antt =====
-- The timeout that `_timeout_ms` of python/gohttpx.py makes of the limits of a request.
use go_httpx.Prelude.{
  ℕ, ◌≤◌, Option, some, List, [], ◌∷◌, ◌≡◌, ◌≢◌, arith, Option-cases, Result-cases, min, inl, inr,
  ◌⊎◌, ok,
}
use go_httpx.Options.Request.{
  Limit, unlimited, limit, huge_limit, bad_limit, timeouts, longest, timeout_ms, read_limits, clip,
}

-- One of the limits is the float with these bits.
unfoldable pub IsLimit : ℕ → List Limit → Type 0
IsLimit l [] = ⊥
IsLimit l (x ∷ ls) = (x ≡ limit l) ⊎ IsLimit l ls

read_limits-longest :
    (l : ℕ) (ls : List Limit) (ns : List ℕ) → IsLimit l ls → read_limits ls ≡ ok ns → l ≤ longest ns
unfolding IsLimit
read_limits-longest l [] ns m h = elim m [ ]
read_limits-longest l (unlimited ∷ ls) ns m h = ground (arith, read_limits-longest l ls ns)
read_limits-longest l (huge_limit ∷ ls) ns m h = ground arith
read_limits-longest l (bad_limit ∷ ls) ns m h = ground arith
read_limits-longest l (limit n ∷ ls) ns m h = elim (Result-cases (read_limits ls)) [
  | inr (e, q) ↦ ground arith
  | inl (rest, q) ↦ ground (arith, read_limits-longest l ls rest)
]

read_limits-some : (l : ℕ) (ls : List Limit) → IsLimit l ls → read_limits ls ≢ ok []
unfolding IsLimit
read_limits-some l [] m h = elim m [ ]
read_limits-some l (unlimited ∷ ls) m h = ground (arith, read_limits-some l ls)
read_limits-some l (huge_limit ∷ ls) m h = ground arith
read_limits-some l (bad_limit ∷ ls) m h = ground arith
read_limits-some l (limit n ∷ ls) m h = elim (Result-cases (read_limits ls)) [
  | inr (e, q) ↦ ground arith
  | inl (rest, q) ↦ ground arith
]

longest-IsLimit :
    (ls : List Limit) (ns : List ℕ) → read_limits ls ≡ ok ns → (ns ≡ []) ⊎ IsLimit (longest ns) ls
unfolding IsLimit
longest-IsLimit [] ns h = ground arith
longest-IsLimit (unlimited ∷ ls) ns h = ground (arith, longest-IsLimit ls ns)
longest-IsLimit (huge_limit ∷ ls) ns h = ground arith
longest-IsLimit (bad_limit ∷ ls) ns h = ground arith
longest-IsLimit (limit n ∷ ls) ns h = elim (Result-cases (read_limits ls)) [
  | inr (e, q) ↦ ground arith
  | inl (rest, q) ↦ ground (arith, longest-IsLimit ls rest q)
]

-- A larger float has no smaller product, and one whose product is finite has only finite ones below it.
abbrev pub Rises : (ℕ → Option ℕ) → Type 0
Rises ceil_ms = (a b n : ℕ) → a ≤ b → ceil_ms b ≡ some n → (m : ℕ) × (ceil_ms a ≡ some m) × (m ≤ n)

module _ (ceil_ms : ℕ → Option ℕ) (rises : Rises ceil_ms) where
  -- A limit of the extension whose milliseconds, cut to ten minutes, are what is sent.
  abbrev pub Sent : List Limit → ℕ → Type 0
  Sent ls t = (l : ℕ) × (m : ℕ) × IsLimit l ls × (ceil_ms l ≡ some m) × (t ≡ min 600000 m)

  clip-Sent :
      (ls : List Limit) (ns : List ℕ) (t l : ℕ)
      → read_limits ls ≡ ok ns
      → clip ceil_ms ns ≡ ok t
      → IsLimit l ls
      → Sent ls t × ((m : ℕ) × (ceil_ms l ≡ some m) × (min 600000 m ≤ t))
  clip-Sent ls [] t l e h m = absurd (read_limits-some l ls m e)
  clip-Sent ls (n ∷ ns) t l e h m = elim (Option-cases (ceil_ms (longest (n ∷ ns)))) [
    | inl q ↦ absurd (ground arith)
    | inr (top, q) ↦
        let (k, known, below) =
          rises l (longest (n ∷ ns)) top (read_limits-longest l ls (n ∷ ns) m e) q in
        (
          elim (longest-IsLimit ls (n ∷ ns) e) [
            | inl wrong ↦ absurd (ground arith)
            | inr found ↦ (longest (n ∷ ns), top, found, q, ground arith)
          ],
          (k, known, ground arith),
        )
  ]

  -- Where the extension has the float `l` and the timeout is made: it is at most ten minutes, it is the
  -- milliseconds of one of the limits, rounded up and cut to ten minutes, and it is no less than those of
  -- `l`. A larger float is taken to have no smaller product.
  pub timeout_ms_bounds :
      (ls : List Limit) (t l : ℕ)
      → timeout_ms ceil_ms (timeouts ls) ≡ ok t
      → IsLimit l ls
      → (t ≤ 600000) × Sent ls t × ((m : ℕ) × (ceil_ms l ≡ some m) × (min 600000 m ≤ t))
  unfolding timeout_ms
  timeout_ms_bounds ls t l h m = elim (Result-cases (read_limits ls)) [
    | inr (e, q) ↦ absurd (ground arith)
    | inl (ns, q) ↦
        let (sent, below) = clip-Sent ls ns t l q (ground arith) m in
        (cut (sent.1) t sent.4, sent, below)
  ]
    where
      cut : (m t : ℕ) → t ≡ min 600000 m → t ≤ 600000
      cut m t e = omega arith
