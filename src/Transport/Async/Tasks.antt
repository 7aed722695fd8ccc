-- ===== src/Transport/Async/Tasks.antt =====
-- The tasks of `_AsyncGoTransport` in python/gohttpx.py: the requests and the close, in any order of the
-- parts between two awaits. `_rebuild` holds the session lock while it waits for the service.
use go_httpx.Prelude.{
  ℕ, suc, ◌-◌, String, Bool, true, false, ◌&&◌, not, Option, none, some, List, [], ◌∷◌, ◌==◌,
  if◌then◌else◌, ok, err,
}
use go_httpx.Transport.{Go}
use go_httpx.Transport.Async.{
  Progress, absent, running, raised, made, is_done, Store, set, Shared, unused, enter_request,
  leave_request, Join, found, refuses, starts, joins, ensure_session, keep_session, stop_waiting,
  give_up_waiting, Permit, other_session, rebuilds, begin_rebuild, rebuild_raised, rebuild_returned,
  CloseStart, closes, begin_close, drop_attempt, mark_closed,
}

-- The task that closes: it waits for the requests, for the lock, for an attempt, or for the delete.
-- `cancelled` is a close that a CancelledError has left before the `try`.
pub data Closer : Type 0 where
  no_closer draining reading finished cancelled : Closer
  choosing : Option ℕ → Closer
  joining : ℕ → Closer
  deleting : Option String → Closer

-- `entered`, `holding` and `leaving` count the requests before `_ensure_session`, with a session, and at
-- the `finally`; `waiting` has the attempt of each that waits for one, and `rebuilding` the generation of
-- the one that holds the lock. `created` counts the sessions that the service made, `lost` those of a
-- `_create_session` that raised or was cancelled, `withdrawn` those of an answer that it refused, for
-- which it has sent a delete; `deleted` has the sessions for which the close has sent one.
pub record World : Type 0 where
  pub shared : Shared
  pub store : Store
  pub next : ℕ
  pub entered : ℕ
  pub waiting : List ℕ
  pub holding : ℕ
  pub leaving : ℕ
  pub rebuilding : Option ℕ
  pub closer : Closer
  pub created : ℕ
  pub lost : ℕ
  pub withdrawn : ℕ
  pub deleted : List String

unfoldable pub at_first : World
unfolding unused
at_first = record {
  shared = unused;
  store = λ a. absent;
  next = 0;
  entered = 0;
  waiting = [];
  holding = 0;
  leaving = 0;
  rebuilding = none;
  closer = no_closer;
  created = 0;
  lost = 0;
  withdrawn = 0;
  deleted = [];
}

-- What a `_create_session` that does not return leaves: nothing that the service made, a session that
-- nobody knows, or one that it has asked to delete.
pub data Leftover : Type 0 where
  nothing_made left_behind asked_to_delete : Leftover

-- What happens next. A request gets past its `await`, or fails, at any time that the attempt allows; a
-- request with a session is answered, or finds the session of a generation lost.
pub data Action : Type 0 where
  request_enters : Action
  request_asks : Action
  request_cancelled : Action
  attempt_returns : ℕ → String → Action
  attempt_raises : ℕ → Leftover → Action
  wait_returns : ℕ → Action
  wait_raises : ℕ → Action
  request_answered : Action
  session_lost : ℕ → Action
  rebuild_succeeds : String → Action
  rebuild_fails : Leftover → Action
  rebuild_cancelled : Leftover → Action
  request_leaves : Action
  close_begins : Action
  close_drained : Action
  close_reads : Action
  close_joined : Action
  close_chooses : Action
  close_ends : Action
  close_cancelled : Action

abbrev pub member : ℕ → List ℕ → Bool
member a [] = false
member a (b ∷ bs) = if b == a then true else member a bs

abbrev pub remove : ℕ → List ℕ → List ℕ
remove a [] = []
remove a (b ∷ bs) = if b == a then bs else b ∷ remove a bs

abbrev pub is_free : Option ℕ → Bool
is_free none = true
is_free (some g) = false

abbrev is_running : Progress → Bool
is_running running = true
is_running _ = false

abbrev pub is_made : Progress → Bool
is_made (made id) = true
is_made _ = false

abbrev pub positive : ℕ → Bool
positive n = not (n == 0)

abbrev entering : Go Shared → World → World
entering (ok s) w = record w { shared = s; entered = suc w.entered }
entering (err e) w = w

abbrev joining_request : Join → Shared → World → World
joining_request (found id g) s w = record w {
  shared = s;
  entered = w.entered - 1;
  holding = suc w.holding;
}
joining_request refuses s w = record w {
  shared = s;
  entered = w.entered - 1;
  leaving = suc w.leaving;
}
joining_request (starts a) s w = record w {
  shared = s;
  entered = w.entered - 1;
  waiting = a ∷ w.waiting;
  store = set a running w.store;
  next = suc w.next;
}
joining_request (joins a) s w = record w {
  shared = s;
  entered = w.entered - 1;
  waiting = a ∷ w.waiting;
}

abbrev asking : Join × Shared → World → World
asking (j, s) w = joining_request j s w

abbrev losing : ℕ → Permit → World → World
losing g other_session w = w
losing g rebuilds w = record w { holding = w.holding - 1; rebuilding = some g }
losing g _ w = record w { holding = w.holding - 1; leaving = suc w.leaving }

abbrev leaving_over : Leftover → World → World
leaving_over nothing_made w = w
leaving_over left_behind w = record w { created = suc w.created; lost = suc w.lost }
leaving_over asked_to_delete w = record w { created = suc w.created; withdrawn = suc w.withdrawn }

abbrev failing : Leftover → Option ℕ → World → World
failing l none w = w
failing l (some g) w =
    leaving_over l
      (record w { shared = rebuild_raised g w.shared; rebuilding = none; leaving = suc w.leaving })

abbrev closing_from : CloseStart × Shared → World → World
closing_from (closes, s) w = record w { shared = s; closer = draining }
closing_from (_, s) w = w

abbrev pub sent_delete : Option String → List String
sent_delete none = []
sent_delete (some id) = id ∷ []

abbrev reads_attempt : Option ℕ → Closer
reads_attempt none = choosing none
reads_attempt (some a) = joining a

abbrev after_draining : Closer → World → World
after_draining draining w = if w.shared.active == 0 then record w { closer = reading } else w
after_draining _ w = w

abbrev after_reading : Closer → World → World
after_reading reading w = record w { closer = reads_attempt w.shared.attempt }
after_reading _ w = w

abbrev after_joining : Closer → World → World
after_joining (joining a) w =
    if is_done (w.store a) then record w { closer = choosing (some a) } else w
after_joining _ w = w

abbrev after_choosing : Closer → World → World
after_choosing (choosing a) w =
    let s = drop_attempt a w.store w.shared in
    record w { shared = s; closer = deleting s.client_id }
after_choosing _ w = w

-- The `finally` is reached whatever the delete raises.
abbrev after_deleting : Closer → World → World
after_deleting (deleting id) w = record w {
  shared = mark_closed w.shared;
  closer = finished;
  deleted = sent_delete id;
}
after_deleting _ w = w

-- `except Exception` lets a CancelledError pass.
abbrev cancelling : Closer → World → World
cancelling draining w = record w { closer = cancelled }
cancelling reading w = record w { closer = cancelled }
cancelling (joining a) w = record w { closer = cancelled }
cancelling (choosing a) w = record w { closer = cancelled }
cancelling _ w = w

-- An action that is not possible changes nothing.
unfoldable pub act : Action → World → World
unfolding enter_request leave_request ensure_session keep_session stop_waiting give_up_waiting
    begin_rebuild rebuild_raised rebuild_returned begin_close drop_attempt mark_closed
act request_enters w = entering (enter_request w.shared) w
act request_asks w =
    if positive w.entered && is_free w.rebuilding
    then asking (ensure_session w.next w.store w.shared) w
    else w
act request_cancelled w =
    if positive w.entered then record w { entered = w.entered - 1; leaving = suc w.leaving } else w
act (attempt_returns a id) w =
    if is_running (w.store a) && is_free w.rebuilding
    then record w {
      shared = keep_session id w.shared;
      store = set a (made id) w.store;
      created = suc w.created;
    }
    else w
act (attempt_raises a l) w =
    if is_running (w.store a) then leaving_over l (record w { store = set a raised w.store }) else w
act (wait_returns a) w =
    if member a w.waiting && is_made (w.store a) && is_free w.rebuilding
    then record w {
      shared = stop_waiting w.shared;
      waiting = remove a w.waiting;
      holding = suc w.holding;
    }
    else w
act (wait_raises a) w =
    if member a w.waiting && is_free w.rebuilding
    then record w {
      shared = give_up_waiting a w.store w.shared;
      waiting = remove a w.waiting;
      leaving = suc w.leaving;
    }
    else w
act request_answered w =
    if positive w.holding then record w { holding = w.holding - 1; leaving = suc w.leaving } else w
act (session_lost g) w =
    if positive w.holding && is_free w.rebuilding then losing g (begin_rebuild g w.shared) w else w
act (rebuild_succeeds id) w = if is_free w.rebuilding then w else record w {
  shared = rebuild_returned id w.shared;
  rebuilding = none;
  holding = suc w.holding;
  created = suc w.created;
}
act (rebuild_fails l) w = failing l w.rebuilding w
act (rebuild_cancelled l) w =
    if is_free w.rebuilding
    then w
    else leaving_over l (record w { rebuilding = none; leaving = suc w.leaving })
act request_leaves w =
    if positive w.leaving
    then record w { shared = leave_request w.shared; leaving = w.leaving - 1 }
    else w
act close_begins w = closing_from (begin_close w.shared) w
act close_drained w = after_draining w.closer w
act close_reads w = if is_free w.rebuilding then after_reading w.closer w else w
act close_joined w = after_joining w.closer w
act close_chooses w = if is_free w.rebuilding then after_choosing w.closer w else w
act close_ends w = after_deleting w.closer w
act close_cancelled w = cancelling w.closer w

unfoldable pub run : List Action → World → World
unfolding act
run [] w = w
run (a ∷ actions) w = run actions (act a w)
