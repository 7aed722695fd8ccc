-- ===== src/Transport/Async.antt =====
-- `_AsyncGoTransport` of python/gohttpx.py: the attributes that its requests and its close share, and
-- what each part of a method between two awaits makes of them. The tasks are in Async/Tasks.
pub mod Tasks
pub mod Invariant
pub mod Waiting
pub mod Reach
pub mod Closing
pub mod Parts
pub mod Ends
use go_httpx.Prelude.{
  ℕ, suc, ◌-◌, String, Bool, true, false, ◌&&◌, ◌||◌, not, Option, none, some, ◌==◌, if◌then◌else◌,
  Result, ok, err,
}
use go_httpx.Transport.{Fault, service_unavailable, Go}

-- The task of an initial session attempt: not made yet, not done, or done with a session or an exception.
pub data Progress : Type 0 where
  absent running raised : Progress
  made : String → Progress

abbrev pub is_done : Progress → Bool
is_done raised = true
is_done (made id) = true
is_done _ = false

-- The tasks that attempts were given to, by number.
abbrev pub Store : Type 0
Store = ℕ → Progress

abbrev pub set : ℕ → Progress → Store → Store
set a progress store b = if b == a then progress else store b

-- `attempt` is `_session_attempt` and `waiters` is `_session_attempt_waiters`.
pub record Shared : Type 0 where
  pub client_id : Option String
  pub generation : ℕ
  pub attempt : Option ℕ
  pub waiters : ℕ
  pub active : ℕ
  pub closing : Bool
  pub closed : Bool
  pub failed_generation : Option ℕ

unfoldable pub unused : Shared
unused = record {
  client_id = none;
  generation = 0;
  attempt = none;
  waiters = 0;
  active = 0;
  closing = false;
  closed = false;
  failed_generation = none;
}

-- `handle_async_request`, to the `try`.
unfoldable pub enter_request : Shared → Go Shared
enter_request s =
    if s.closing || s.closed
    then err service_unavailable
    else ok (record s { active = suc s.active })

-- The `finally` of `handle_async_request`.
unfoldable pub leave_request : Shared → Shared
leave_request s = record s { active = s.active - 1 }

-- What `_ensure_session` finds under the lock.
pub data Join : Type 0 where
  found : String → ℕ → Join
  refuses : Join
  starts : ℕ → Join
  joins : ℕ → Join

abbrev drop_done : Option ℕ → Store → Shared → Shared
drop_done none store s = s
drop_done (some a) store s =
    if is_done (store a) && s.waiters == 0 then record s { attempt = none } else s

abbrev add_waiter : ℕ → Option ℕ → Shared → Join × Shared
add_waiter name none s = (starts name, record s { attempt = some name; waiters = suc s.waiters })
add_waiter name (some a) s = (joins a, record s { waiters = suc s.waiters })

abbrev find_session : ℕ → Store → Option String → Shared → Join × Shared
find_session name store (some id) s = (found id s.generation, s)
find_session name store none s =
    if s.closing || s.closed
    then (refuses, s)
    else (let s' = drop_done s.attempt store s in add_waiter name s'.attempt s')

-- `_ensure_session`, to the `await`. `name` is the number that a new task gets.
unfoldable pub ensure_session : ℕ → Store → Shared → Join × Shared
ensure_session name store s = find_session name store s.client_id s

-- `_run_initial_session_attempt`, under the lock.
unfoldable pub keep_session : String → Shared → Shared
keep_session id s = record s { client_id = some id }

-- `_ensure_session` where the `await` returns. The waiter returns the session of its attempt, and the
-- generation.
unfoldable pub stop_waiting : Shared → Shared
stop_waiting s =
    let left = s.waiters - 1 in
    if left == 0 then record s { waiters = left; attempt = none } else record s { waiters = left }

-- `_ensure_session` where the `await` of the attempt `a` raises: the attempt failed, or the waiter was
-- cancelled.
unfoldable pub give_up_waiting : ℕ → Store → Shared → Shared
give_up_waiting a store s =
    let left = s.waiters - 1 in
    if is_done (store a) && left == 0
    then record s { waiters = left; attempt = none }
    else record s { waiters = left }

-- What `_rebuild` finds under the lock.
pub data Permit : Type 0 where
  other_session : Permit
  failed_before : Permit
  is_closed : Permit
  rebuilds : Permit

abbrev is_at : ℕ → Option ℕ → Bool
is_at g none = false
is_at g (some f) = f == g

unfoldable pub begin_rebuild : ℕ → Shared → Permit
begin_rebuild g s =
    if not (s.generation == g)
    then other_session
    else if is_at g s.failed_generation
    then failed_before
    else if s.closing || s.closed
    then is_closed
    else rebuilds

unfoldable pub rebuild_raised : ℕ → Shared → Shared
rebuild_raised g s = record s { failed_generation = some g }

unfoldable pub rebuild_returned : String → Shared → Shared
rebuild_returned id s = record s {
  client_id = some id;
  generation = suc s.generation;
  failed_generation = none;
}

-- What `aclose` finds at its start.
pub data CloseStart : Type 0 where
  already_closed : CloseStart
  waits_for_other : CloseStart
  closes : CloseStart

unfoldable pub begin_close : Shared → CloseStart × Shared
begin_close s =
    if s.closed
    then (already_closed, s)
    else if s.closing
    then (waits_for_other, s)
    else (closes, record s { closing = true })

-- `aclose` after it has waited for the attempt `a`.
unfoldable pub drop_attempt : Option ℕ → Store → Shared → Shared
drop_attempt none store s = s
drop_attempt (some a) store s =
    if is_at a s.attempt && is_done (store a) && s.waiters == 0
    then record s { attempt = none }
    else s

unfoldable pub mark_closed : Shared → Shared
mark_closed s = record s { closed = true }
