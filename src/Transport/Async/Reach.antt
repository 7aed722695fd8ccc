-- ===== src/Transport/Async/Reach.antt =====
-- Every part of a task of `_AsyncGoTransport` in python/gohttpx.py keeps what holds in every order.
use go_httpx.Prelude.{ℕ, String, none, List, [], ◌∷◌, arith}
use go_httpx.Transport.Async.Tasks.{
  Leftover, nothing_made, left_behind, asked_to_delete, World, at_first, Action, act,
  request_enters, request_asks, request_cancelled, attempt_returns, attempt_raises, wait_returns,
  wait_raises, request_answered, session_lost, rebuild_succeeds, rebuild_fails, rebuild_cancelled,
  request_leaves, close_begins, close_drained, close_reads, close_joined, close_chooses, close_ends,
  close_cancelled, run,
}
use go_httpx.Transport.Async.Invariant.{Inv, empty-Waits, at_first-Inv}
use go_httpx.Transport.Async.Waiting.{
  request_asks-Inv, request_cancelled-Inv, attempt_returns-Inv, attempt_raises-Inv,
  wait_returns-Inv, wait_raises-Inv,
}

request_enters-Inv : (w : World) → Inv w → Inv (act request_enters w)
unfolding act
request_enters-Inv w v = ground arith

request_answered-Inv : (w : World) → Inv w → Inv (act request_answered w)
unfolding act
request_answered-Inv w v = ground arith

session_lost-Inv : (g : ℕ) (w : World) → Inv w → Inv (act (session_lost g) w)
unfolding act
session_lost-Inv g w v = ground arith

rebuild_succeeds-Inv : (id : String) (w : World) → Inv w → Inv (act (rebuild_succeeds id) w)
unfolding act
rebuild_succeeds-Inv id w v = ground arith

rebuild_fails-Inv : (l : Leftover) (w : World) → Inv w → Inv (act (rebuild_fails l) w)
unfolding act
rebuild_fails-Inv nothing_made w v = ground arith
rebuild_fails-Inv left_behind w v = ground arith
rebuild_fails-Inv asked_to_delete w v = ground arith

rebuild_cancelled-Inv : (l : Leftover) (w : World) → Inv w → Inv (act (rebuild_cancelled l) w)
unfolding act
rebuild_cancelled-Inv nothing_made w v = ground arith
rebuild_cancelled-Inv left_behind w v = ground arith
rebuild_cancelled-Inv asked_to_delete w v = ground arith

request_leaves-Inv : (w : World) → Inv w → Inv (act request_leaves w)
unfolding act
request_leaves-Inv w v = ground arith

close_begins-Inv : (w : World) → Inv w → Inv (act close_begins w)
unfolding act
close_begins-Inv w v = ground arith

close_drained-Inv : (w : World) → Inv w → Inv (act close_drained w)
unfolding act
close_drained-Inv w v = ground arith

close_reads-Inv : (w : World) → Inv w → Inv (act close_reads w)
unfolding act
close_reads-Inv w v = ground arith

close_joined-Inv : (w : World) → Inv w → Inv (act close_joined w)
unfolding act
close_joined-Inv w v = ground arith

close_chooses-Inv : (w : World) → Inv w → Inv (act close_chooses w)
unfolding act
close_chooses-Inv w v = record {
  active_count = ground (arith, empty-Waits none w.waiting);
  waiters_count = ground (arith, empty-Waits none w.waiting);
  waits = ground (arith, empty-Waits none w.waiting);
  in_flight = λ b h. ground (arith, v.in_flight b);
  first_only = λ b h. ground (arith, v.first_only b);
  made_kept = λ b i h. ground (arith, v.made_kept b i);
  held_kept = λ h. ground (arith, empty-Waits none w.waiting);
  accounted = ground (arith, empty-Waits none w.waiting);
  closer_place = ground (arith, empty-Waits none w.waiting);
}

close_ends-Inv : (w : World) → Inv w → Inv (act close_ends w)
unfolding act
close_ends-Inv w v = ground arith

close_cancelled-Inv : (w : World) → Inv w → Inv (act close_cancelled w)
unfolding act
close_cancelled-Inv w v = ground arith

pub act-Inv : (x : Action) (w : World) → Inv w → Inv (act x w)
act-Inv request_enters = request_enters-Inv
act-Inv request_asks = request_asks-Inv
act-Inv request_cancelled = request_cancelled-Inv
act-Inv (attempt_returns a id) = attempt_returns-Inv a id
act-Inv (attempt_raises a l) = attempt_raises-Inv a l
act-Inv (wait_returns a) = wait_returns-Inv a
act-Inv (wait_raises a) = wait_raises-Inv a
act-Inv request_answered = request_answered-Inv
act-Inv (session_lost g) = session_lost-Inv g
act-Inv (rebuild_succeeds id) = rebuild_succeeds-Inv id
act-Inv (rebuild_fails l) = rebuild_fails-Inv l
act-Inv (rebuild_cancelled l) = rebuild_cancelled-Inv l
act-Inv request_leaves = request_leaves-Inv
act-Inv close_begins = close_begins-Inv
act-Inv close_drained = close_drained-Inv
act-Inv close_reads = close_reads-Inv
act-Inv close_joined = close_joined-Inv
act-Inv close_chooses = close_chooses-Inv
act-Inv close_ends = close_ends-Inv
act-Inv close_cancelled = close_cancelled-Inv

pub run-Inv : (actions : List Action) (w : World) → Inv w → Inv (run actions w)
unfolding run
run-Inv [] w v = v
run-Inv (x ∷ actions) w v = run-Inv actions (act x w) (act-Inv x w v)

-- What any order of the tasks leads to from a new transport.
abbrev pub after : List Action → World
after actions = run actions at_first

pub after-Inv : (actions : List Action) → Inv (after actions)
after-Inv actions = run-Inv actions at_first at_first-Inv
