-- ===== src/Transport/Async/Closing.antt =====
-- What the close of an `_AsyncGoTransport` in python/gohttpx.py leaves.
use go_httpx.Prelude.{
  ℕ, ◌+◌, ◌≡◌, ◌≢◌, refl, String, true, false, none, some, List, [], ◌∷◌, length, arith,
}
use go_httpx.Transport.Async.{running, begin_close, waits_for_other}
use go_httpx.Transport.Async.Tasks.{
  Closer, no_closer, reading, joining, choosing, deleting, draining, finished, cancelled, World,
  Action, act, run, sent_delete, close_drained, close_reads, close_joined, close_chooses,
  close_ends, request_enters, request_asks, request_cancelled, attempt_returns, attempt_raises,
  wait_returns, wait_raises, request_answered, session_lost, rebuild_succeeds, rebuild_fails,
  rebuild_cancelled, request_leaves, close_begins, close_cancelled,
}
use go_httpx.Transport.Async.Invariant.{Inv, Closes, alone}
use go_httpx.Transport.Async.Reach.{after, after-Inv}

-- A closed transport: its requests have ended, no attempt is in flight, and its close has sent a delete
-- for the session that it had and for no other.
pub record Released (w : World) : Type 0 where
  no_request : w.shared.active ≡ 0
  no_attempt : (a : ℕ) → w.store a ≢ running
  session_deleted : w.deleted ≡ sent_delete w.shared.client_id
  sessions_accounted : w.created ≡ w.shared.generation + w.lost + w.withdrawn + length w.deleted

closed-Released :
    (w : World) (c : Closer) → Closes c w → Inv w → w.shared.closed ≡ true → Released w
closed-Released w finished (_, none_left, idle, sent) v h = record {
  no_request = none_left;
  no_attempt = idle;
  session_deleted = sent;
  sessions_accounted = ground (arith, v.accounted);
}
closed-Released w no_closer p v h = ground arith
closed-Released w draining p v h = ground arith
closed-Released w reading p v h = ground arith
closed-Released w cancelled p v h = ground arith
closed-Released w (joining a) p v h = ground arith
closed-Released w (choosing a) p v h = ground arith
closed-Released w (deleting id) p v h = ground arith

-- In every order of the tasks: once the transport is closed, no request is active, no attempt is in
-- flight, and its close has sent a delete for its session and for no other. Every other session that the
-- service made was replaced by a rebuild, or belongs to a `_create_session` that did not return: to one
-- that refused the answer and sent the delete itself, or to one that left it behind.
pub after-Released :
    (actions : List Action) → (after actions).shared.closed ≡ true → Released (after actions)
after-Released actions h =
    let w = after actions in
    closed-Released w w.closer (after-Inv actions).closer_place (after-Inv actions) h

-- In every order of the tasks: two attempts in flight are the same, it is the one that requests join, and
-- the transport has no session yet.
pub one_attempt :
    (actions : List Action) (a b : ℕ)
    → (after actions).store a ≡ running
    → (after actions).store b ≡ running
    → (b ≡ a)
      × ((after actions).shared.attempt ≡ some a)
      × ((after actions).shared.client_id ≡ none)
one_attempt actions a b first second =
    let v = after-Inv actions in
    (alone (after actions) v a b first second, v.in_flight a first, v.first_only a first)

-- A close that a CancelledError has left before its `try`.
pub record Abandoned (deleted : List String) (w : World) : Type 0 where
  left : w.closer ≡ cancelled
  began : w.shared.closing ≡ true
  not_closed : w.shared.closed ≡ false
  same_deleted : w.deleted ≡ deleted

act-Abandoned :
    (ds : List String) (x : Action) (w : World) → Abandoned ds w → Abandoned ds (act x w)
unfolding act
act-Abandoned ds request_enters w v = ground arith
act-Abandoned ds request_asks w v = ground arith
act-Abandoned ds request_cancelled w v = ground arith
act-Abandoned ds (attempt_returns a id) w v = ground arith
act-Abandoned ds (attempt_raises a l) w v = ground arith
act-Abandoned ds (wait_returns a) w v = ground arith
act-Abandoned ds (wait_raises a) w v = ground arith
act-Abandoned ds request_answered w v = ground arith
act-Abandoned ds (session_lost g) w v = ground arith
act-Abandoned ds (rebuild_succeeds id) w v = ground arith
act-Abandoned ds (rebuild_fails l) w v = ground arith
act-Abandoned ds (rebuild_cancelled l) w v = ground arith
act-Abandoned ds request_leaves w v = ground arith
act-Abandoned ds close_begins w v = ground arith
act-Abandoned ds close_drained w v = ground arith
act-Abandoned ds close_reads w v = ground arith
act-Abandoned ds close_joined w v = ground arith
act-Abandoned ds close_chooses w v = ground arith
act-Abandoned ds close_ends w v = ground arith
act-Abandoned ds close_cancelled w v = ground arith

run-Abandoned :
    (ds : List String) (xs : List Action) (w : World) → Abandoned ds w → Abandoned ds (run xs w)
unfolding run
run-Abandoned ds [] w v = v
run-Abandoned ds (x ∷ xs) w v = run-Abandoned ds xs (act x w) (act-Abandoned ds x w v)

cancelled_before :
    (w : World) (c : Closer)
    → Closes c w
    → c ≡ cancelled
    → (w.shared.closing ≡ true) × (w.shared.closed ≡ false)
cancelled_before w cancelled p e = p
cancelled_before w no_closer p e = cc
cancelled_before w draining p e = cc
cancelled_before w reading p e = cc
cancelled_before w finished p e = cc
cancelled_before w (joining a) p e = cc
cancelled_before w (choosing a) p e = cc
cancelled_before w (deleting id) p e = cc

-- After a close was cancelled before its `try`, whatever the tasks do, the transport is not closed, no
-- delete is sent, and everybody who closes it waits for the close that was cancelled.
pub cancelled_close :
    (actions more : List Action)
    → (after actions).closer ≡ cancelled
    → ((run more (after actions)).shared.closed ≡ false)
      × ((run more (after actions)).deleted ≡ (after actions).deleted)
      × (begin_close (run more (after actions)).shared
          ≡ (waits_for_other, (run more (after actions)).shared))
unfolding begin_close
cancelled_close actions more place =
    let w = after actions in
    let flags = cancelled_before w w.closer (after-Inv actions).closer_place place in
    let v =
      run-Abandoned w.deleted more w
        (record { left = place; began = flags.0; not_closed = flags.1; same_deleted = refl }) in
    (v.not_closed, v.same_deleted, ground (arith, v.not_closed, v.began))
