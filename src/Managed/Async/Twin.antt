-- ===== src/Managed/Async/Twin.antt =====
-- The loop of `_ManagedAsyncGoTransport.handle_async_request` in python/gohttpx.py beside that of
-- `_ManagedGoTransport.handle_request`.
use mathlib.Core.Path.{subst}
use go_httpx.Prelude.{
  ℕ, ◌+◌, Bool, true, false, none, some, List, [], ◌∷◌, ok, err, ◌≡◌, refl, arith, ap, sym, ◌∙◌,
}
use go_httpx.Transport.{
  Fault, Go, service_unavailable, outcome_unknown, protocol_error, upstream, overflow, failure,
}
use go_httpx.Transport.Response.{HttpResponse}
use go_httpx.Managed.Attempts.{
  Verdict, give, again, verdict, reports, count, Pass, stopped, tried, waits, Loop, first_pass,
  second_pass,
}
use go_httpx.Managed.Async.{
  async_verdict, async_reports, Stop, End, finished, Surroundings, Trace, Then, ends, goes_on,
  take_entries, start_close_of, close_pruned, add_fault, settle_verdict, use_entry, after_pruned,
  with_instance, try_async, fresh_trace, last_outcome, second_attempt, managed_async_request,
}

-- An attempt that meets the same as one of the synchronous loop, and no cancellation.
pub data Meets (a : Surroundings) : Pass → Type 0 where
  no_instance : (f : Fault) → a.ensures ≡ finished (err f) → Meets a (stopped service_unavailable)
  uses :
      (i e : ℕ) (r : Go HttpResponse)
      → a.ensures ≡ finished (ok i)
      → a.stopped_at ≡ none
      → a.checked_out ≡ ok e
      → a.answers ≡ finished r
      → a.stopped_closing ≡ false
      → Meets a (tried r)

-- The attempts made and the faults reported, so far.
record Counts (attempts faults : ℕ) (t : Trace) : Type 0 where
  tries : t.attempts ≡ attempts
  reported : t.faults ≡ faults

-- What an attempt comes to, by its verdict.
unfoldable Comes : ℕ → ℕ → Go HttpResponse → Verdict → Then → Type 0
Comes n k r give (ends x t) = (x ≡ finished r) × (t.attempts ≡ n) × (t.faults ≡ k)
Comes n k r (again i) (goes_on t) = (t.attempts ≡ n) × (t.faults ≡ k)
Comes n k r v x = ⊥

unfoldable Shows : Bool → ℕ → ℕ → Pass → Then → Type 0
unfolding Comes
Shows second n k (stopped f) x = Comes n k (err f) give x
Shows second n k (tried r) x = Comes n (k + count (reports r)) r (verdict second r) x
Shows second n k p x = ⊥

-- The clauses of the two loops decide the same.
async_verdict_lem :
    (second : Bool) (r : Go HttpResponse) → async_verdict second r ≡ verdict second r
unfolding async_verdict verdict
async_verdict_lem second (ok response) = refl
async_verdict_lem true (err service_unavailable) = refl
async_verdict_lem false (err service_unavailable) = refl
async_verdict_lem second (err outcome_unknown) = ground arith
async_verdict_lem second (err (upstream kind code request_id)) = ground arith
async_verdict_lem second (err overflow) = ground arith
async_verdict_lem second (err failure) = ground arith
async_verdict_lem true (err (protocol_error code request_id)) = ground arith
async_verdict_lem false (err (protocol_error code request_id)) = ground arith

async_reports_lem : (r : Go HttpResponse) → async_reports r ≡ reports r
unfolding async_reports reports
async_reports_lem (ok response) = refl
async_reports_lem (err service_unavailable) = refl
async_reports_lem (err outcome_unknown) = refl
async_reports_lem (err (protocol_error code request_id)) = refl
async_reports_lem (err (upstream kind code request_id)) = refl
async_reports_lem (err overflow) = refl
async_reports_lem (err failure) = refl

close_pruned-Counts :
    (n k : ℕ) (es : List ℕ) (stop : Stop) (t : Trace)
    → Counts n k t
    → (u : Trace) × (close_pruned es none stop t ≡ goes_on u) × Counts n k u
unfolding close_pruned
close_pruned-Counts n k [] stop t h = (t, refl, h)
close_pruned-Counts n k (e ∷ es) stop t h =
    close_pruned-Counts n k es stop (start_close_of e t)
      (record { tries = h.tries; reported = h.reported })

module _ (a : Surroundings) (e : ℕ) (r : Go HttpResponse) where
  settle-Comes :
      (n k : ℕ) (v : Verdict) (t : Trace) → Counts n k t → Comes n k r v (settle_verdict a e r v t)
  unfolding Comes
  settle-Comes n k give t h = ground (arith, h.tries, h.reported)
  settle-Comes n k (again i) t h = ground (arith, h.tries, h.reported)

  fault-Counts :
      (n k : ℕ) (b : Bool) (t : Trace) → Counts n k t → Counts n (k + count b) (add_fault b t)
  fault-Counts n k true t h = ground arith
  fault-Counts n k false t h = ground arith

module _ (second : Bool) (a : Surroundings) where
  used-Shows :
      (n k e : ℕ) (r : Go HttpResponse) (u : Trace)
      → a.answers ≡ finished r
      → a.stopped_closing ≡ false
      → Counts n k u
      → Shows second n k (tried r) (use_entry second a (ok e) u)
  unfolding Shows
  used-Shows n k e r u h free c =
      rw (h, free, async_verdict_lem second r, async_reports_lem r)
        (settle-Comes a e r n (k + count (reports r)) (verdict second r) (add_fault (reports r) u)
          (fault-Counts a e r n k (reports r) u c))

  try_async-Shows :
      (n k : ℕ) (p : Pass) (t : Trace)
      → Meets a p
      → Counts n k t
      → Shows second (n + 1) k p (try_async second a t)
  unfolding try_async Shows Comes
  try_async-Shows n k p t (no_instance f h) c = rw (h) (refl, ap (λ x. x + 1) c.tries, c.reported)
  try_async-Shows n k p t (uses i e r h none_cancelled out ans free) c =
      let before = record t { attempts = t.attempts + 1 } in
      let (w, passes, counts) =
        close_pruned-Counts (n + 1) k a.pruned a.stop (take_entries a.pruned before)
          (record { tries = ap (λ x. x + 1) c.tries; reported = c.reported }) in
      let path : try_async second a t ≡ use_entry second a (ok e) w =
        ap (λ x. with_instance second a x before) h
        ∙ ap
            (λ x.
              after_pruned second a (close_pruned a.pruned x a.stop (take_entries a.pruned before)))
            none_cancelled
        ∙ ap (after_pruned second a) passes
        ∙ ap (λ x. use_entry second a x w) out in
      subst (Shows second (n + 1) k (tried r)) (sym path)
        (used-Shows (n + 1) k e r w ans free counts)

zero_add : (n : ℕ) → 0 + n ≡ n
zero_add n = omega arith

-- The two loops come to the same.
pub record Same (l : Loop) (x : End HttpResponse × Trace) : Type 0 where
  same_outcome : (r : Go HttpResponse) × (l.outcome ≡ some r) × (x.0 ≡ finished r)
  same_attempts : x.1.attempts ≡ l.attempts
  same_faults : x.1.faults ≡ l.faults

abbrev ended : ℕ → ℕ → Go HttpResponse → Loop
ended n k r = record { outcome = some r; attempts = n; faults = k }

last-Same :
    (n k : ℕ) (r : Go HttpResponse) (x : Then)
    → Comes n k r give x
    → Same (ended n k r) (last_outcome x)
unfolding Comes
last-Same n k r (ends y t) (done, tries, faults) = record {
  same_outcome = (r, refl, done);
  same_attempts = tries;
  same_faults = faults;
}
last-Same n k r (goes_on t) c = absurd c

verdict_again : (r : Go HttpResponse) → verdict true r ≡ give
unfolding verdict
verdict_again (ok response) = refl
verdict_again (err service_unavailable) = refl
verdict_again (err fault) = ground arith

second-Same :
    (k : ℕ) (q : Pass) (x : Then) → Shows true 2 k q x → Same (second_pass q k) (last_outcome x)
unfolding Shows second_pass
second-Same k (stopped f) x c = last-Same 2 k (err f) x c
second-Same k (tried r) x c =
    last-Same 2 (k + count (reports r)) r x
      (subst (λ v. Comes 2 (k + count (reports r)) r v x) (verdict_again r) c)
second-Same k waits x c = absurd c

module _ (b : Surroundings) (q : Pass) (meets : Meets b q) where
  ends-Same :
      (n k : ℕ) (r : Go HttpResponse) (x : Then)
      → Comes n k r give x
      → Same (ended n k r) (second_attempt b x)
  unfolding Comes
  ends-Same n k r (ends y t) (done, tries, faults) = record {
    same_outcome = (r, refl, done);
    same_attempts = tries;
    same_faults = faults;
  }
  ends-Same n k r (goes_on t) c = absurd c

  again-Same :
      (k : ℕ) (r : Go HttpResponse) (i : Bool) (x : Then)
      → Comes 1 k r (again i) x
      → Same (second_pass q k) (second_attempt b x)
  unfolding Comes
  again-Same k r i (goes_on t) (tries, faults) =
      second-Same k q (try_async true b t)
        (try_async-Shows true b 1 k q t meets (record { tries = tries; reported = faults }))
  again-Same k r i (ends y t) c = absurd c

  verdict-Same :
      (k : ℕ) (r : Go HttpResponse) (v : Verdict) (x : Then)
      → Comes 1 k r v x
      → Same (elim v [ give ↦ ended 1 k r | again i ↦ second_pass q k ]) (second_attempt b x)
  verdict-Same k r give x c = ends-Same 1 k r x c
  verdict-Same k r (again i) x c = again-Same k r i x c

  first-Same :
      (p : Pass) (x : Then) → Shows false 1 0 p x → Same (first_pass p q) (second_attempt b x)
  unfolding Shows first_pass
  first-Same (stopped f) x c = ends-Same 1 0 (err f) x c
  first-Same (tried r) x c =
      verdict-Same (count (reports r)) r (verdict false r) x
        (subst (λ k. Comes 1 k r (verdict false r) x) (zero_add (count (reports r))) c)
  first-Same waits x c = absurd c

-- Where its two attempts meet what those of the synchronous loop meet, each with a transport for the
-- request, nothing is cancelled and no close ends early, the asynchronous loop has the same outcome, makes as many attempts
-- and reports as many faults.
pub managed_async_request-Same :
    (a b : Surroundings) (p q : Pass)
    → Meets a p
    → Meets b q
    → Same (first_pass p q) (managed_async_request a b)
unfolding managed_async_request
managed_async_request-Same a b p q meets_a meets_b =
    first-Same b q meets_b p (try_async false a fresh_trace)
      (try_async-Shows false a 0 0 p fresh_trace meets_a (record { tries = refl; reported = refl }))
