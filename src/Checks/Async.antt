-- ===== src/Checks/Async.antt =====
-- Requests that share an attempt, a rebuild, and closes of an asynchronous transport.
use go_httpx.Prelude.{none, ℕ, ◌≡◌, refl, true, false, some, List, [], ◌∷◌, inl, inr, arith}
use go_httpx.Transport.Async.{unused, begin_close, waits_for_other}
use go_httpx.Transport.Async.Tasks.{
  Action, act, run, at_first, request_enters, request_asks, attempt_returns, wait_returns,
  wait_raises, request_answered, session_lost, rebuild_succeeds, request_leaves, close_begins,
  close_drained, close_reads, close_joined, close_chooses, close_ends, close_cancelled,
}
use go_httpx.Transport.Async.Reach.{after}
use go_httpx.Transport.Async.Closing.{Released, after-Released, one_attempt, cancelled_close}
use go_httpx.Transport.Async.Parts.{Quiet, last_parts}
use go_httpx.Transport.Async.Ends.{Makes, begun_close_ends}

-- The only request that waits for the session is cancelled, and the attempt still makes it.
abbrev abandoned : List Action
abandoned =
    request_enters
    ∷ request_asks
    ∷ wait_raises 0
    ∷ request_leaves
    ∷ close_begins
    ∷ close_drained
    ∷ close_reads
    ∷ close_joined
    ∷ attempt_returns 0 "s1"
    ∷ close_joined
    ∷ close_chooses
    ∷ close_ends
    ∷ []

abandoned_deleted : (after abandoned).deleted ≡ "s1" ∷ []
unfolding run act at_first unused
abandoned_deleted = refl

after-Released_example : Released (after abandoned)
unfolding run act at_first unused
after-Released_example = after-Released abandoned refl

-- Two requests wait for the attempt; the session of generation 0 is lost, and made again.
abbrev shared_attempt : List Action
shared_attempt =
    request_enters
    ∷ request_asks
    ∷ request_enters
    ∷ request_asks
    ∷ attempt_returns 0 "s1"
    ∷ wait_returns 0
    ∷ wait_returns 0
    ∷ session_lost 0
    ∷ rebuild_succeeds "s2"
    ∷ session_lost 0
    ∷ request_answered
    ∷ []

shared_attempt_created : (after shared_attempt).created ≡ 2
unfolding run act at_first unused
shared_attempt_created = refl

-- Two requests wait for one attempt.
abbrev waiting_twice : List Action
waiting_twice = request_enters ∷ request_asks ∷ request_enters ∷ request_asks ∷ []

one_attempt_example :
    let only : ℕ = 0 in
    (only ≡ only)
    × ((after waiting_twice).shared.attempt ≡ some 0)
    × ((after waiting_twice).shared.client_id ≡ none)
unfolding run act at_first unused
one_attempt_example = one_attempt waiting_twice 0 0 refl refl

-- All requests have left; the close has begun.
abbrev left_behind : List Action
left_behind =
    request_enters
    ∷ request_asks
    ∷ wait_raises 0
    ∷ request_leaves
    ∷ attempt_returns 0 "s1"
    ∷ close_begins
    ∷ []

left_behind-Quiet : Quiet (after left_behind)
unfolding run act at_first unused
left_behind-Quiet = record {
  idle = refl;
  attempt_done = λ a h. ground arith;
  joined_done = λ a h. cc;
}

-- The parts of the close, with a request that is refused and a second call of `aclose` between them.
abbrev disturbed : List Action
disturbed =
    close_drained ∷ request_enters ∷ close_reads ∷ close_joined ∷ close_begins ∷ close_chooses
    ∷ close_ends ∷ []

disturbed-Makes : Makes (last_parts 5) disturbed
disturbed-Makes = (
  λ e. cc,
  inl (
    refl,
    (
      λ e. cc,
      inr (
        λ e. cc,
        inl (
          refl,
          (λ e. cc, inl (refl, (λ e. cc, inr (λ e. cc, inl (refl, (λ e. cc, inl (refl, tt))))))),
        ),
      ),
    ),
  ),
)

begun_close_ends_example : (run disturbed (after left_behind)).shared.closed ≡ true
unfolding run act at_first unused
begun_close_ends_example =
    begun_close_ends left_behind disturbed 5 (omega arith) (omega arith) refl left_behind-Quiet
      disturbed-Makes

-- The close is cancelled while it waits for a request.
abbrev impatient : List Action
impatient =
    request_enters
    ∷ request_asks
    ∷ attempt_returns 0 "s1"
    ∷ wait_returns 0
    ∷ close_begins
    ∷ close_cancelled
    ∷ []

abbrev later : List Action
later = request_answered ∷ request_leaves ∷ close_begins ∷ close_drained ∷ close_reads ∷ []

cancelled_close_example :
    ((run later (after impatient)).shared.closed ≡ false)
    × ((run later (after impatient)).deleted ≡ (after impatient).deleted)
    × (begin_close (run later (after impatient)).shared
        ≡ (waits_for_other, (run later (after impatient)).shared))
unfolding run act at_first unused
cancelled_close_example = cancelled_close impatient later refl
