-- ===== src/Transport/Async/Parts.antt =====
-- The close of `_AsyncGoTransport` in python/gohttpx.py once its requests have ended: what each action
-- makes of it.
use go_httpx.Prelude.{
  ℕ, zero, suc, ◌≤◌, ◌≡◌, ◌≢◌, refl, Bool, true, false, some, none, List, [], ◌∷◌, arith, ◌==◌,
  if◌then◌else◌,
}
use go_httpx.Transport.Async.{
  is_done, running, enter_request, begin_close, drop_attempt, mark_closed,
}
use go_httpx.Transport.Async.Tasks.{
  Closer, no_closer, draining, reading, choosing, finished, cancelled, joining, deleting, World,
  Action, act, close_drained, close_reads, close_joined, close_chooses, close_ends, request_enters,
  request_asks, request_cancelled, attempt_returns, attempt_raises, wait_returns, wait_raises,
  request_answered, session_lost, rebuild_succeeds, rebuild_fails, rebuild_cancelled,
  request_leaves, close_begins, close_cancelled,
}
use go_httpx.Transport.Async.Invariant.{Inv}
use go_httpx.Transport.Async.Reach.{act-Inv}

-- How many parts of its code the close has before it at the most; a close that has not begun or was
-- cancelled has no end before it.
abbrev pub parts_left : Closer → ℕ
parts_left finished = 0
parts_left (deleting id) = 1
parts_left (choosing a) = 2
parts_left (joining a) = 3
parts_left reading = 4
parts_left draining = 5
parts_left _ = 6

-- The part that is due where so many are left.
abbrev pub part : ℕ → Action
part n =
    if n == 5
    then close_drained
    else if n == 4
    then close_reads
    else if n == 3
    then close_joined
    else if n == 2
    then close_chooses
    else close_ends

-- The last parts of the close, in the order of the code.
abbrev pub last_parts : ℕ → List Action
last_parts zero = []
last_parts (suc n) = let rest = last_parts n in part (suc n) ∷ rest

-- No request is active, and the attempt that the transport has, or that its close waits for, is done.
pub record Quiet (w : World) : Type 0 where
  pub idle : w.shared.active ≡ 0
  pub attempt_done : (a : ℕ) → w.shared.attempt ≡ some a → is_done (w.store a) ≡ true
  pub joined_done : (a : ℕ) → w.closer ≡ joining a → is_done (w.store a) ≡ true

-- A close that is on its way, with at most `n` parts before it.
pub record Due (n : ℕ) (w : World) : Type 0 where
  pub inv : Inv w
  pub quiet : Quiet w
  pub begun : w.shared.closing ≡ true
  pub left : parts_left w.closer ≤ n

-- Nobody but the close is at work.
record Still (w : World) : Type 0 where
  entered : w.entered ≡ 0
  waiting : w.waiting ≡ []
  holding : w.holding ≡ 0
  leaving : w.leaving ≡ 0
  free : w.rebuilding ≡ none
  not_running : (a : ℕ) → w.store a ≢ running
  closing : w.shared.closing ≡ true

Due-Still : (n : ℕ) (w : World) → Due n w → Still w
Due-Still n w d = record {
  entered = ground (arith, d.inv.active_count, d.quiet.idle);
  waiting = ground (arith, d.inv.active_count, d.quiet.idle);
  holding = ground (arith, d.inv.active_count, d.quiet.idle);
  leaving = ground (arith, d.inv.active_count, d.quiet.idle);
  free = ground (arith, d.inv.active_count, d.quiet.idle);
  not_running = λ a h. ground (arith, d.inv.in_flight a h, d.quiet.attempt_done a);
  closing = d.begun;
}

-- What is no part of the close changes nothing.
abbrev is_part : Action → Bool
is_part close_drained = true
is_part close_reads = true
is_part close_joined = true
is_part close_chooses = true
is_part close_ends = true
is_part close_cancelled = true
is_part _ = false

others_wait : (x : Action) (w : World) → Still w → is_part x ≡ false → act x w ≡ w
unfolding act enter_request begin_close
others_wait request_enters w s h =
    ground (arith, s.entered, s.waiting, s.holding, s.leaving, s.free, s.closing)
others_wait request_asks w s h =
    ground (arith, s.entered, s.waiting, s.holding, s.leaving, s.free, s.closing)
others_wait request_cancelled w s h =
    ground (arith, s.entered, s.waiting, s.holding, s.leaving, s.free, s.closing)
others_wait (attempt_returns a id) w s h =
    ground (arith, s.entered, s.waiting, s.holding, s.leaving, s.free, s.closing, s.not_running a)
others_wait (attempt_raises a l) w s h =
    ground (arith, s.entered, s.waiting, s.holding, s.leaving, s.free, s.closing, s.not_running a)
others_wait (wait_returns a) w s h =
    ground (arith, s.entered, s.waiting, s.holding, s.leaving, s.free, s.closing)
others_wait (wait_raises a) w s h =
    ground (arith, s.entered, s.waiting, s.holding, s.leaving, s.free, s.closing)
others_wait request_answered w s h =
    ground (arith, s.entered, s.waiting, s.holding, s.leaving, s.free, s.closing)
others_wait (session_lost g) w s h =
    ground (arith, s.entered, s.waiting, s.holding, s.leaving, s.free, s.closing)
others_wait (rebuild_succeeds id) w s h =
    ground (arith, s.entered, s.waiting, s.holding, s.leaving, s.free, s.closing)
others_wait (rebuild_fails l) w s h =
    ground (arith, s.entered, s.waiting, s.holding, s.leaving, s.free, s.closing)
others_wait (rebuild_cancelled l) w s h =
    ground (arith, s.entered, s.waiting, s.holding, s.leaving, s.free, s.closing)
others_wait request_leaves w s h =
    ground (arith, s.entered, s.waiting, s.holding, s.leaving, s.free, s.closing)
others_wait close_begins w s h =
    ground (arith, s.entered, s.waiting, s.holding, s.leaving, s.free, s.closing)
others_wait close_drained w s h = cc
others_wait close_reads w s h = cc
others_wait close_joined w s h = cc
others_wait close_chooses w s h = cc
others_wait close_ends w s h = cc
others_wait close_cancelled w s h = cc

-- What a part of the close keeps, and that one that is due leaves fewer.
pub record Advances (n : ℕ) (x : Action) (w : World) : Type 0 where
  pub idle : (act x w).shared.active ≡ 0
  pub begun : (act x w).shared.closing ≡ true
  pub attempt_done :
      (a : ℕ) → (act x w).shared.attempt ≡ some a → is_done ((act x w).store a) ≡ true
  pub joined_done : (a : ℕ) → (act x w).closer ≡ joining a → is_done ((act x w).store a) ≡ true
  pub left : parts_left (act x w).closer ≤ n
  pub fewer : (m : ℕ) → n ≡ suc m → x ≡ part n → parts_left (act x w).closer ≤ m

close_drained-Advances :
    (n : ℕ) (w : World) (c : Closer)
    → w.closer ≡ c
    → n ≤ 5
    → Due n w
    → Still w
    → Advances n close_drained w
unfolding act drop_attempt mark_closed
close_drained-Advances n w no_closer e small d s = ground (arith)
close_drained-Advances n w draining e small d s = ground (arith)
close_drained-Advances n w reading e small d s = ground (arith)
close_drained-Advances n w finished e small d s = ground (arith)
close_drained-Advances n w cancelled e small d s = ground (arith)
close_drained-Advances n w (joining a) e small d s = ground (arith)
close_drained-Advances n w (choosing o) e small d s = ground (arith)
close_drained-Advances n w (deleting id) e small d s = ground (arith)

close_reads-Advances :
    (n : ℕ) (w : World) (c : Closer)
    → w.closer ≡ c
    → n ≤ 5
    → Due n w
    → Still w
    → Advances n close_reads w
unfolding act drop_attempt mark_closed
close_reads-Advances n w no_closer e small d s = ground (arith)
close_reads-Advances n w draining e small d s = ground (arith)
close_reads-Advances n w reading e small d s = ground (arith)
close_reads-Advances n w finished e small d s = ground (arith)
close_reads-Advances n w cancelled e small d s = ground (arith)
close_reads-Advances n w (joining a) e small d s = ground (arith)
close_reads-Advances n w (choosing o) e small d s = ground (arith)
close_reads-Advances n w (deleting id) e small d s = ground (arith)

close_joined-Advances :
    (n : ℕ) (w : World) (c : Closer)
    → w.closer ≡ c
    → n ≤ 5
    → Due n w
    → Still w
    → Advances n close_joined w
unfolding act drop_attempt mark_closed
close_joined-Advances n w no_closer e small d s = ground (arith)
close_joined-Advances n w draining e small d s = ground (arith)
close_joined-Advances n w reading e small d s = ground (arith)
close_joined-Advances n w finished e small d s = ground (arith)
close_joined-Advances n w cancelled e small d s = ground (arith)
close_joined-Advances n w (joining a) e small d s = ground (arith, d.quiet.joined_done a e)
close_joined-Advances n w (choosing o) e small d s = ground (arith)
close_joined-Advances n w (deleting id) e small d s = ground (arith)

close_chooses-Advances :
    (n : ℕ) (w : World) (c : Closer)
    → w.closer ≡ c
    → n ≤ 5
    → Due n w
    → Still w
    → Advances n close_chooses w
unfolding act drop_attempt mark_closed
close_chooses-Advances n w no_closer e small d s = ground (arith)
close_chooses-Advances n w draining e small d s = ground (arith)
close_chooses-Advances n w reading e small d s = ground (arith)
close_chooses-Advances n w finished e small d s = ground (arith)
close_chooses-Advances n w cancelled e small d s = ground (arith)
close_chooses-Advances n w (joining a) e small d s = ground (arith)
close_chooses-Advances n w (choosing o) e small d s = ground (arith)
close_chooses-Advances n w (deleting id) e small d s = ground (arith)

close_ends-Advances :
    (n : ℕ) (w : World) (c : Closer)
    → w.closer ≡ c
    → n ≤ 5
    → Due n w
    → Still w
    → Advances n close_ends w
unfolding act drop_attempt mark_closed
close_ends-Advances n w no_closer e small d s = ground (arith)
close_ends-Advances n w draining e small d s = ground (arith)
close_ends-Advances n w reading e small d s = ground (arith)
close_ends-Advances n w finished e small d s = ground (arith)
close_ends-Advances n w cancelled e small d s = ground (arith)
close_ends-Advances n w (joining a) e small d s = ground (arith)
close_ends-Advances n w (choosing o) e small d s = ground (arith)
close_ends-Advances n w (deleting id) e small d s = ground (arith)

part-is_part : (n : ℕ) → is_part (part n) ≡ true
part-is_part n = ground arith

pub Due-Advances : (n : ℕ) (x : Action) (w : World) → Due n w → Advances n x w → Due n (act x w)
Due-Advances n x w d v = record {
  inv = act-Inv x w d.inv;
  quiet = record { idle = v.idle; attempt_done = v.attempt_done; joined_done = v.joined_done };
  begun = v.begun;
  left = v.left;
}

waits-Advances : (n : ℕ) (x : Action) (w : World) → Due n w → is_part x ≡ false → Advances n x w
waits-Advances n x w d h =
    let same = others_wait x w (Due-Still n w d) h in
    record {
      idle = rw (same) d.quiet.idle;
      begun = rw (same) d.begun;
      attempt_done = λ a. rw (same) (d.quiet.attempt_done a);
      joined_done = λ a. rw (same) (d.quiet.joined_done a);
      left = rw (same) d.left;
      fewer = λ m k e. absurd (ground (arith, part-is_part n));
    }

pub act-Advances :
    (n : ℕ) (x : Action) (w : World) → n ≤ 5 → x ≢ close_cancelled → Due n w → Advances n x w
act-Advances n close_drained w small h d =
    close_drained-Advances n w w.closer refl small d (Due-Still n w d)
act-Advances n close_reads w small h d =
    close_reads-Advances n w w.closer refl small d (Due-Still n w d)
act-Advances n close_joined w small h d =
    close_joined-Advances n w w.closer refl small d (Due-Still n w d)
act-Advances n close_chooses w small h d =
    close_chooses-Advances n w w.closer refl small d (Due-Still n w d)
act-Advances n close_ends w small h d =
    close_ends-Advances n w w.closer refl small d (Due-Still n w d)
act-Advances n close_cancelled w small h d = absurd (h refl)
act-Advances n x w small h d = waits-Advances n x w d refl
