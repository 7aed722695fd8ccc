-- ===== src/Runtime.antt =====
-- python/_gohttpx_runtime.py: the state of `ManagedRuntime` and the methods that clients call. Each
-- method runs under `_condition`, so it is one step on the state. Times are whole microseconds of
-- `time.monotonic()`; what the process sees of its surroundings (its pid, the time, whether the Go
-- process lives) is an argument.
pub mod Backoff
pub mod Ready
pub mod Launch
pub mod Supervisor
use go_httpx.Prelude.{
  ℕ, zero, suc, ◌+◌, ◌-◌, ◌*◌, ◌^◌, ◌≤◌, ◌<◌, min, max, String, Bool, true, false, ◌&&◌, ◌||◌, not,
  Option, none, some, List, [], ◌∷◌, ◌++◌, length, leb, ltb, ◌==◌, str_eq, if◌then◌else◌, Result,
  ok, err,
}

-- The arguments of the constructor that its checks have accepted.
pub record Config : Type 0 where
  pub owner_pid : ℕ
  pub startup_timeout : ℕ
  pub health_interval : ℕ
  pub health_failures : ℕ
  pub restart_limit : ℕ
  pub restart_window : ℕ
  pub cooldown : ℕ

-- `object` tells two Instance objects apart, as `is` does; `instance_id` is the random text.
pub record Instance : Type 0 where
  pub object : ℕ
  pub instance_id : String
  pub endpoint : String
  pub token : String

pub data Phase : Type 0 where
  stopped starting running restarting backoff failed stopping closed : Phase

-- The texts that `_last_failure` can hold.
pub data Failure : Type 0 where
  launch_error : String → Failure
  start_failed : Failure
  exited : Option ℕ → Failure
  unhealthy : Failure
  supervisor_crashed : Failure

pub record Runtime : Type 0 where
  pub stop : Bool
  pub thread : Bool
  pub current : Option Instance
  pub users : ℕ
  pub wanted : Bool
  pub pinned : Bool
  pub check_requested : Option String
  pub phase : Phase
  pub failures : List ℕ
  pub next_retry : ℕ
  pub starts : ℕ
  pub last_exit : Option ℕ
  pub last_failure : Option Failure
  pub fatal : Bool

-- `RuntimeUnavailable` and `RuntimeConfigurationError`, with what the message says.
pub data RuntimeError : Type 0 where
  unavailable_closed : RuntimeError
  unavailable_timeout : Option Failure → RuntimeError
  wrong_process : RuntimeError
  misconfigured : Option Failure → RuntimeError

-- The state that `__init__` leaves.
abbrev pub new : Runtime
new = record {
  stop = false;
  thread = false;
  current = none;
  users = 0;
  wanted = false;
  pinned = false;
  check_requested = none;
  phase = stopped;
  failures = [];
  next_retry = 0;
  starts = 0;
  last_exit = none;
  last_failure = none;
  fatal = false;
}

-- A method that may raise leaves the state that it had reached.
abbrev pub Method : Type 0 → Type 0
Method A = Runtime → Result RuntimeError A × Runtime

unfoldable pub acquire : Config → ℕ → Method (Unit {0})
acquire cfg pid rt =
    if not (pid == cfg.owner_pid)
    then (err wrong_process, rt)
    else (if rt.stop
        then (err unavailable_closed, rt)
        else (ok tt, record rt { users = rt.users + 1 }))

-- `max(0, self._users - 1)`
unfoldable pub release : Runtime → Runtime
release rt = record rt { users = rt.users - 1 }

abbrev pub is_running : Phase → Bool
is_running running = true
is_running _ = false

abbrev pub is_closed : Phase → Bool
is_closed closed = true
is_closed _ = false

-- The instance that a client may use: `current`, if the phase is RUNNING and its process lives.
abbrev pub usable : Runtime → Bool → Option Instance
usable rt alive = if is_running rt.phase && alive then rt.current else none

-- `alive` is `current.process.poll() is None`. The thread is started where there is none.
unfoldable pub request_ready : Config → ℕ → Bool → Bool → Method (Option Instance)
request_ready cfg pid pin alive rt =
    if not (pid == cfg.owner_pid)
    then (err wrong_process, rt)
    else (if rt.stop
        then (err unavailable_closed, rt)
        else (if rt.fatal then (err (misconfigured rt.last_failure), rt) else (
          ok (usable rt alive),
          record rt { wanted = true; pinned = rt.pinned || pin; thread = true },
        )))

abbrev pub same_object : Option Instance → Instance → Bool
same_object none i = false
same_object (some c) i = c.object == i.object

unfoldable pub report_fault : Instance → Runtime → Runtime
report_fault i rt =
    if same_object rt.current i && not rt.stop
    then record rt { check_requested = some i.instance_id }
    else rt

unfoldable pub is_current : Instance → Bool → Runtime → Bool
is_current i alive rt = not rt.stop && same_object rt.current i && alive

-- `while self._failures and now - self._failures[0] >= self.restart_window: popleft()`
unfoldable pub drop_expired : Config → ℕ → List ℕ → List ℕ
drop_expired cfg now [] = []
drop_expired cfg now (f ∷ fs) =
    let rest = drop_expired cfg now fs in if leb (f + cfg.restart_window) now then rest else f ∷ fs

-- The wait after the `n`-th failure of a window; `none` is the OverflowError of `0.25 * 2 ** (n - 1)`, as
-- 2 ** 1024 has no float.
unfoldable pub retry_delay : Config → ℕ → Option ℕ
retry_delay cfg n =
    if leb cfg.restart_limit n
    then some cfg.cooldown
    else (if ltb 1024 n then none else some (min 5_000_000 (250_000 * 2 ^ (n - 1))))

-- Whether a call has raised, and the state that it leaves.
abbrev pub Recorded : Type 0
Recorded = Bool × Runtime

abbrev pub back_off : ℕ → ℕ → Failure → Option ℕ → Runtime → Recorded
back_off now jitter message none rt = (true, rt)
back_off now jitter message (some delay) rt = (
  false,
  record rt {
    next_retry = now + delay + jitter * 1000;
    last_failure = some message;
    phase = backoff;
  },
)

-- `jitter` is `secrets.randbelow(50)`, in milliseconds. The OverflowError leaves the new failure in the
-- deque and the rest as it was.
unfoldable pub record_failure : Config → ℕ → ℕ → Failure → Runtime → Recorded
record_failure cfg now jitter message rt =
    let failures = drop_expired cfg now rt.failures ++ now ∷ [] in
    back_off now jitter message (retry_delay cfg (length failures))
      (record rt { failures = failures })

-- The locked part of `shutdown`. Another process than the owner does nothing.
unfoldable pub shutdown : Config → ℕ → Runtime → Runtime
shutdown cfg pid rt = if not (pid == cfg.owner_pid) then rt else record rt {
  stop = true;
  next_retry = 0;
  phase = (if is_closed rt.phase then closed else if rt.thread then stopping else closed);
}
