-- ===== src/Transport/Async/Waiting.antt =====
-- The parts of a request of `_AsyncGoTransport` in python/gohttpx.py that start and await the attempt at
-- its session keep what holds in every order.
use go_httpx.Prelude.{ℕ, ◌≡◌, refl, String, true, some, arith}
use go_httpx.Transport.Async.{Progress, absent, running, raised, made}
use go_httpx.Transport.Async.Tasks.{
  Closer, no_closer, draining, reading, choosing, finished, cancelled, joining, deleting, World,
  Leftover, nothing_made, left_behind, asked_to_delete, act, request_asks, request_cancelled,
  attempt_returns, attempt_raises, wait_returns, wait_raises, is_made,
}
use go_httpx.Transport.Async.Invariant.{
  present, Closes, before_choosing, Inv, removed, empty-Waits, none-Waits, alone,
}

pub request_asks-Inv : (w : World) → Inv w → Inv (act request_asks w)
unfolding act
request_asks-Inv w v = record {
  active_count =
      ground (arith, none-Waits (some w.next) w.waiting, empty-Waits (some w.next) w.waiting);
  waiters_count =
      ground (arith, none-Waits (some w.next) w.waiting, empty-Waits (some w.next) w.waiting);
  waits = ground (arith, none-Waits (some w.next) w.waiting, empty-Waits (some w.next) w.waiting);
  in_flight = λ b h. ground (arith, v.in_flight b);
  first_only = λ b h. ground (arith, v.first_only b);
  made_kept = λ b i h. ground (arith, v.made_kept b i);
  held_kept =
      λ h. ground (arith, none-Waits (some w.next) w.waiting, empty-Waits (some w.next) w.waiting);
  accounted =
      ground (arith, none-Waits (some w.next) w.waiting, empty-Waits (some w.next) w.waiting);
  closer_place =
      ground (arith, none-Waits (some w.next) w.waiting, empty-Waits (some w.next) w.waiting);
}

pub request_cancelled-Inv : (w : World) → Inv w → Inv (act request_cancelled w)
unfolding act
request_cancelled-Inv w v = ground arith

-- While an attempt is in flight, a close has not come to its end.
running_before :
    (w : World) (a : ℕ) (c : Closer) → Closes c w → w.store a ≡ running → before_choosing c ≡ true
running_before w a no_closer v h = refl
running_before w a draining v h = refl
running_before w a reading v h = refl
running_before w a cancelled v h = refl
running_before w a (joining b) v h = refl
running_before w a (choosing b) (_, _, _, idle) h = ground (arith, idle a h)
running_before w a (deleting b) (_, _, _, idle, _) h = ground (arith, idle a h)
running_before w a finished (_, _, idle, _) h = ground (arith, idle a h)

pub attempt_returns-Inv :
    (a : ℕ) (id : String) (w : World) → Inv w → Inv (act (attempt_returns a id) w)
unfolding act
attempt_returns-Inv a id w v = record {
  active_count = ground (arith, v.first_only a, alone w v a);
  waiters_count = ground (arith, v.first_only a, alone w v a);
  waits = ground (arith, v.first_only a, alone w v a);
  in_flight = λ b h. ground (arith, v.in_flight b, alone w v a b);
  first_only = λ b h. ground (arith, v.first_only b, v.first_only a, alone w v a b);
  made_kept = λ b i h. ground (arith, v.made_kept b i);
  held_kept = λ h. ground (arith, v.first_only a, alone w v a);
  accounted = ground (arith, v.first_only a, alone w v a);
  closer_place = ground (arith, running_before w a w.closer v.closer_place);
}

pub attempt_raises-Inv :
    (a : ℕ) (l : Leftover) (w : World) → Inv w → Inv (act (attempt_raises a l) w)
unfolding act
attempt_raises-Inv a nothing_made w v = ground arith
attempt_raises-Inv a left_behind w v = ground arith
attempt_raises-Inv a asked_to_delete w v = ground arith

made_present :
    (w : World) (a : ℕ) (p : Progress)
    → Inv w
    → w.store a ≡ p
    → is_made p ≡ true
    → present w.shared.client_id ≡ 1
made_present w a (made id) v e h = v.made_kept a id e
made_present w a absent v e h = cc
made_present w a running v e h = cc
made_present w a raised v e h = cc

pub wait_returns-Inv : (a : ℕ) (w : World) → Inv w → Inv (act (wait_returns a) w)
unfolding act
wait_returns-Inv a w v = record {
  active_count = ground (arith, removed w.shared.attempt a w.waiting);
  waiters_count = ground (arith, removed w.shared.attempt a w.waiting);
  waits = ground (arith, removed w.shared.attempt a w.waiting);
  in_flight =
      λ b h. ground (arith, v.in_flight b, v.first_only b, removed w.shared.attempt a w.waiting);
  first_only = λ b h. ground (arith, v.first_only b, removed w.shared.attempt a w.waiting);
  made_kept = λ b i h. ground (arith, v.made_kept b i, removed w.shared.attempt a w.waiting);
  held_kept = λ h.
      ground (arith, made_present w a (w.store a) v refl, removed w.shared.attempt a w.waiting);
  accounted = ground (arith, removed w.shared.attempt a w.waiting);
  closer_place = ground (arith, removed w.shared.attempt a w.waiting);
}

pub wait_raises-Inv : (a : ℕ) (w : World) → Inv w → Inv (act (wait_raises a) w)
unfolding act
wait_raises-Inv a w v = ground (arith, removed w.shared.attempt a w.waiting)
