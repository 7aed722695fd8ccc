-- ===== src/Runtime/Backoff.antt =====
-- `ManagedRuntime._record_failure`: the window of failures and the wait before the next start.
use native.Mathlib.Nat.{pow-suc, one-le-pow}
use go_httpx.Prelude.{
  ℕ, suc, ◌+◌, ◌*◌, ◌≤◌, ◌<◌, ◌≡◌, refl, ap, ◌∙◌, min, Option, none, some, true, false, ◌^◌, arith,
  append-nil, append_assoc, List, [], ◌∷◌, ◌++◌, length, leb, if◌then◌else◌,
}
use go_httpx.Runtime.{
  Config, Runtime, Failure, drop_expired, retry_delay, record_failure, new, backoff, back_off,
}

-- The failures of a history that are less than a window old: a filter, in any order of the times.
abbrev pub recent : Config → ℕ → List ℕ → List ℕ
recent cfg now [] = []
recent cfg now (f ∷ fs) =
    let rest = recent cfg now fs in if leb (f + cfg.restart_window) now then rest else f ∷ rest

-- Times from `lo` to `hi` that do not fall, as `time.monotonic()` gives them.
abbrev pub Rising : ℕ → ℕ → List ℕ → Type 0
Rising lo hi [] = lo ≤ hi
Rising lo hi (t ∷ ts) = (lo ≤ t) × Rising t hi ts

-- A failure at each time of a list, with its jitter.
unfoldable pub record_all : Config → List (ℕ × ℕ) → Runtime → Runtime
record_all cfg [] rt = rt
record_all cfg ((now, jitter) ∷ fs) rt =
    record_all cfg fs (record_failure cfg now jitter Failure.start_failed rt).1

abbrev pub times : List (ℕ × ℕ) → List ℕ
times [] = []
times ((now, jitter) ∷ fs) = now ∷ times fs

Rising-le : (lo hi : ℕ) (ts : List ℕ) → Rising lo hi ts → lo ≤ hi
Rising-le lo hi [] r = r
Rising-le lo hi (t ∷ ts) r = omega (arith, Rising-le t hi ts r.1)

Rising-lower : (lo lo' hi : ℕ) (ts : List ℕ) → lo ≤ lo' → Rising lo' hi ts → Rising lo hi ts
Rising-lower lo lo' hi [] h r = omega arith
Rising-lower lo lo' hi (t ∷ ts) h r = (omega arith, r.1)

Rising-append :
    (lo hi now : ℕ) (ts : List ℕ) → Rising lo hi ts → hi ≤ now → Rising lo now (ts ++ now ∷ [])
Rising-append lo hi now [] r h = (omega arith, omega arith)
Rising-append lo hi now (t ∷ ts) r h = (r.0, Rising-append t hi now ts r.1 h)

Rising-upper : (lo hi hi' : ℕ) (ts : List ℕ) → hi ≤ hi' → Rising lo hi ts → Rising lo hi' ts
Rising-upper lo hi hi' [] h r = omega arith
Rising-upper lo hi hi' (t ∷ ts) h r = (r.0, Rising-upper t hi hi' ts h r.1)

module _ (cfg : Config) where
  Rising-recent : (now lo hi : ℕ) (ts : List ℕ) → Rising lo hi ts → Rising lo hi (recent cfg now ts)
  Rising-recent now lo hi [] r = r
  Rising-recent now lo hi (t ∷ ts) r = ground (
    arith,
    Rising-recent now t hi ts r.1,
    Rising-lower lo t hi (recent cfg now ts) r.0 (Rising-recent now t hi ts r.1),
  )

  recent_inside :
      (now f hi : ℕ) (ts : List ℕ)
      → now < f + cfg.restart_window
      → Rising f hi ts
      → recent cfg now ts ≡ ts
  recent_inside now f hi [] h r = refl
  recent_inside now f hi (t ∷ ts) h r = ground (arith, recent_inside now t hi ts (omega arith) r.1)

  -- The loop stops at the first time inside the window; over rising times it drops what the filter
  -- drops.
  drop_expired-eq-recent :
      (now lo hi : ℕ) (ts : List ℕ) → Rising lo hi ts → drop_expired cfg now ts ≡ recent cfg now ts
  unfolding drop_expired
  drop_expired-eq-recent now lo hi [] r = refl
  drop_expired-eq-recent now lo hi (t ∷ ts) r = ground (
    arith,
    drop_expired-eq-recent now t hi ts r.1,
    λ (h : now < t + cfg.restart_window). recent_inside now t hi ts h r.1,
  )

  recent-append :
      (now : ℕ) (xs ys : List ℕ)
      → recent cfg now (xs ++ ys) ≡ recent cfg now xs ++ recent cfg now ys
  recent-append now [] ys = refl
  recent-append now (x ∷ xs) ys = ground (arith, recent-append now xs ys)

  -- What an earlier window has dropped, a later one drops too.
  recent-recent :
      (now later : ℕ) (ts : List ℕ)
      → now ≤ later
      → recent cfg later (recent cfg now ts) ≡ recent cfg later ts
  recent-recent now later [] h = refl
  recent-recent now later (t ∷ ts) h = ground (arith, recent-recent now later ts h)

  -- The deque tells every later window the same as the whole history.
  record Tracks (last : ℕ) (history : List ℕ) (rt : Runtime) : Type 0 where
    rising : Rising 0 last rt.failures
    same : (now : ℕ) → last ≤ now → recent cfg now rt.failures ≡ recent cfg now history

  failures-back_off :
      (now jitter : ℕ) (message : Failure) (d : Option ℕ) (rt : Runtime)
      → (back_off now jitter message d rt).1.failures ≡ rt.failures
  failures-back_off now jitter message none rt = refl
  failures-back_off now jitter message (some d) rt = refl

  failures-record_failure :
      (last now jitter : ℕ) (message : Failure) (history : List ℕ) (rt : Runtime)
      → Tracks last history rt
      → (record_failure cfg now jitter message rt).1.failures
        ≡ recent cfg now rt.failures ++ now ∷ []
  unfolding record_failure
  failures-record_failure last now jitter message history rt v =
      let e = ap (λ ts. ts ++ now ∷ []) (drop_expired-eq-recent now 0 last rt.failures v.rising) in
      failures-back_off now jitter message
        (retry_delay cfg (length (drop_expired cfg now rt.failures ++ now ∷ [])))
        (record rt { failures = drop_expired cfg now rt.failures ++ now ∷ [] })
      ∙ e

  record_failure-Tracks :
      (last now jitter : ℕ) (message : Failure) (history : List ℕ) (rt : Runtime)
      → last ≤ now
      → Tracks last history rt
      → Tracks now (history ++ now ∷ []) (record_failure cfg now jitter message rt).1
  record_failure-Tracks last now jitter message history rt h v = record {
    rising = rw (failures-record_failure last now jitter message history rt v) (
        Rising-append 0 last now (recent cfg now rt.failures)
          (Rising-recent now 0 last rt.failures v.rising) h);
    same = λ later le.
        rw
          (
            failures-record_failure last now jitter message history rt v,
            recent-append later (recent cfg now rt.failures) (now ∷ []),
            recent-append later history (now ∷ []),
            recent-recent now later rt.failures le,
          )
          (ap (λ ts. ts ++ recent cfg later (now ∷ [])) (v.same later (omega arith)));
  }

  record_all-Tracks :
      (last hi : ℕ) (history : List ℕ) (fs : List (ℕ × ℕ)) (rt : Runtime)
      → Rising last hi (times fs)
      → Tracks last history rt
      → Tracks hi (history ++ times fs) (record_all cfg fs rt)
  unfolding record_all
  record_all-Tracks last hi history [] rt r v = record {
    rising = Rising-upper 0 last hi rt.failures r v.rising;
    same = λ now le. rw append-nil (v.same now (omega arith));
  }
  record_all-Tracks last hi history ((now, jitter) ∷ fs) rt r v =
      rw (← append_assoc history (now ∷ []) (times fs)) (
        record_all-Tracks now hi (history ++ now ∷ []) fs
          (record_failure cfg now jitter Failure.start_failed rt).1 r.1
          (record_failure-Tracks last now jitter Failure.start_failed history rt r.0 v))

  new-Tracks : Tracks 0 [] new
  new-Tracks = record { rising = omega arith; same = λ now h. refl }

  -- After any history of failures at times that do not fall, the deque holds exactly the failures of the
  -- last window. Where the delay of that many failures is a number, the next start waits for it and the
  -- jitter; where it is too large for a float, the call raises and changes nothing else.
  pub record_failure_window :
      (fs : List (ℕ × ℕ)) (last now jitter : ℕ) (message : Failure)
      → Rising 0 last (times fs)
      → last ≤ now
      → let old = record_all cfg fs new in
        let (raised, rt) = record_failure cfg now jitter message old in
        let window = recent cfg now (times fs) ++ now ∷ [] in
        (rt.failures ≡ window)
        × ((d : ℕ)
            → retry_delay cfg (length window) ≡ some d
            → (raised ≡ false)
              × (rt.next_retry ≡ now + d + jitter * 1000)
              × (rt.phase ≡ backoff)
              × (rt.last_failure ≡ some message))
        × (retry_delay cfg (length window) ≡ none
            → (raised ≡ true)
              × (rt.next_retry ≡ old.next_retry)
              × (rt.phase ≡ old.phase)
              × (rt.last_failure ≡ old.last_failure))
  record_failure_window fs last now jitter message r h =
      let old = record_all cfg fs new in
      let v = record_all-Tracks 0 last [] fs new r new-Tracks in
      let ts = drop_expired cfg now old.failures ++ now ∷ [] in
      let window = recent cfg now (times fs) ++ now ∷ [] in
      let same : ts ≡ window =
        ap (λ xs. xs ++ now ∷ [])
          (drop_expired-eq-recent now 0 last old.failures v.rising ∙ v.same now h) in
      let count = ap (λ xs. retry_delay cfg (length xs)) same in
      (
        failures-record_failure last now jitter message (times fs) old v
            ∙ ap (λ xs. xs ++ now ∷ []) (v.same now h),
        λ d e. unfold record_failure in rw (count ∙ e) (refl, refl, refl, refl),
        λ e. unfold record_failure in rw (count ∙ e) (refl, refl, refl, refl),
      )

  -- The delay is the cooldown from `restart_limit` failures on; before that it is between 0.25 and 5
  -- seconds and doubles with each failure up to 5 seconds, as far as 1024 failures. From 1025 on it is
  -- too large for a float where the limit is not reached.
  pub retry_delay_steps :
      (n : ℕ)
      → (cfg.restart_limit ≤ suc n → retry_delay cfg (suc n) ≡ some cfg.cooldown)
        × (suc n < cfg.restart_limit
            → suc n ≤ 1024
            → (d : ℕ) × (retry_delay cfg (suc n) ≡ some d) × (250_000 ≤ d) × (d ≤ 5_000_000))
        × ((d : ℕ)
            → suc (suc n) < cfg.restart_limit
            → suc (suc n) ≤ 1024
            → retry_delay cfg (suc n) ≡ some d
            → retry_delay cfg (suc (suc n)) ≡ some (min 5_000_000 (2 * d)))
        × (suc n < cfg.restart_limit → 1025 ≤ suc n → retry_delay cfg (suc n) ≡ none)
  unfolding retry_delay
  retry_delay_steps n = (
    λ h. ground arith,
    λ h k. (
      min 5_000_000 (250_000 * 2 ^ n),
      ground arith,
      ground (arith, one-le-pow n 2 (omega arith)),
      omega arith,
    ),
    λ d h k e. ground (arith, pow-suc 2 n),
    λ h k. ground arith,
  )
