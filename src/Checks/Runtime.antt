-- ===== src/Checks/Runtime.antt =====
-- A runtime that starts a Go process, serves it and is shut down, and one whose supervisor fails.
use go_httpx.Prelude.{
  ℕ, zero, suc, ◌+◌, ◌*◌, ◌≤◌, ◌<◌, ◌≡◌, ◌≢◌, refl, inl, min, true, false, none, some, List, [],
  ◌∷◌, ◌++◌, length, arith,
}
use go_httpx.Runtime.{
  Config, Instance, new, start_failed, running, stopping, failed, backoff, request_ready,
  record_failure, retry_delay,
}
use go_httpx.Runtime.Backoff.{recent, record_all, record_failure_window, retry_delay_steps}
use go_httpx.Runtime.Ready.{Round, ready, waiting, ensure, ensure_ends}
use go_httpx.Runtime.Supervisor.{
  Env, launched_instance, launch_failed, polled, poll_error, ended, supervise_step,
}
use go_httpx.Runtime.Supervisor.Clients.{
  Action, supervisor, client, acquires, requests, client_step, run, act,
}
use go_httpx.Runtime.Supervisor.Invariant.{after}
use go_httpx.Runtime.Supervisor.Ending.{
  spawned-le, ended_clean, ServesNobody, shut_down, stopped-ServesNobody,
}
use go_httpx.Runtime.Supervisor.Termination.{rank, shutdown_ends_thread, shutdown_after_crash}

abbrev config : Config
config = record {
  owner_pid = 7;
  startup_timeout = 10_000_000;
  health_interval = 5_000_000;
  health_failures = 3;
  restart_limit = 5;
  restart_window = 60_000_000;
  cooldown = 30_000_000;
}

abbrev service : Instance
service = record { object = 1; instance_id = "a1"; endpoint = "http://127.0.0.1:4000"; token = "t" }

-- The process starts and lives, every probe succeeds.
abbrev good : Action
good = supervisor (record {
  now = 1_000_000;
  jitter = 3;
  launch = launched_instance service;
  poll = polled none;
  probe = true;
  dispose_raises = false;
  returncode = some 0;
})

-- The same, but `poll` raises.
abbrev bad : Action
bad = supervisor (record {
  now = 2_000_000;
  jitter = 3;
  launch = launch_failed;
  poll = poll_error;
  probe = true;
  dispose_raises = false;
  returncode = some 0;
})

-- A client asks; the thread starts the process and adopts it.
abbrev started : List Action
started = client (acquires 7) ∷ client (requests 7 false true) ∷ good ∷ good ∷ good ∷ good ∷ []

abbrev steps : ℕ → Action → List Action
steps zero a = []
steps (suc n) a = a ∷ steps n a

abbrev crashed_run : List Action
crashed_run = started ++ steps 7 bad

shutdown_ends_thread_example :
    rank (run config (steps 10 good) (shut_down config (after config started))).place ≡ 0
shutdown_ends_thread_example = shutdown_ends_thread config started (steps 10 good) (omega arith)

stopped-ServesNobody_example :
    ServesNobody config
      (run config (steps 10 good) (shut_down config (after config started))).runtime
stopped-ServesNobody_example = stopped-ServesNobody config started (steps 10 good)

spawned-le_example :
    (after config started).spawned ≤ (after config started).reaped + (after config started).lost + 1
spawned-le_example = spawned-le config started

crashed_ends : (after config crashed_run).place ≡ ended
unfolding run act supervise_step client_step
crashed_ends = refl

ended_clean_example :
    ((after config crashed_run).spawned
      ≡ (after config crashed_run).reaped + (after config crashed_run).lost)
    × ((after config crashed_run).runtime.current ≡ none)
    × ((after config crashed_run).runtime.phase ≢ running)
ended_clean_example = ended_clean config crashed_run crashed_ends

crashed_is_fatal : (after config crashed_run).runtime.fatal ≡ true
unfolding run act supervise_step client_step
crashed_is_fatal = refl

abbrev env : Env
env = record {
  now = 3_000_000;
  jitter = 3;
  launch = launched_instance service;
  poll = polled none;
  probe = true;
  dispose_raises = false;
  returncode = some 0;
}

crashed_has_thread : (after config crashed_run).runtime.thread ≡ true
unfolding run act supervise_step client_step
crashed_has_thread = refl

crashed_has_failed : (after config crashed_run).runtime.phase ≡ failed
unfolding run act supervise_step client_step
crashed_has_failed = refl

shutdown_after_crash_example :
    (run config (steps 5 good) (shut_down config (after config crashed_run))).runtime.phase
    ≡ stopping
shutdown_after_crash_example =
    shutdown_after_crash config (after config crashed_run) (steps 5 good) crashed_ends
      crashed_has_thread crashed_has_failed

-- Three failures, the first of which a later window drops.
abbrev failures : List (ℕ × ℕ)
failures = (1_000_000, 5) ∷ (50_000_000, 0) ∷ (70_000_000, 49) ∷ []

record_failure_window_example :
    let old = record_all config failures new in
    let (raised, rt) = record_failure config 80_000_000 7 start_failed old in
    let window =
      recent config 80_000_000 (1_000_000 ∷ 50_000_000 ∷ 70_000_000 ∷ []) ++ 80_000_000 ∷ [] in
    (rt.failures ≡ window)
    × ((d : ℕ)
        → retry_delay config (length window) ≡ some d
        → (raised ≡ false)
          × (rt.next_retry ≡ 80_000_000 + d + 7 * 1000)
          × (rt.phase ≡ backoff)
          × (rt.last_failure ≡ some start_failed))
    × (retry_delay config (length window) ≡ none
        → (raised ≡ true)
          × (rt.next_retry ≡ old.next_retry)
          × (rt.phase ≡ old.phase)
          × (rt.last_failure ≡ old.last_failure))
record_failure_window_example =
    record_failure_window config failures 70_000_000 80_000_000 7 start_failed
      (omega arith, (omega arith, (omega arith, omega arith))) (omega arith)

-- A runtime that is to be restarted without a limit in sight.
abbrev patient : Config
patient = record config { restart_limit = 5000 }

retry_delay_steps_example :
    (patient.restart_limit ≤ 1025 → retry_delay patient 1025 ≡ some patient.cooldown)
    × (1025 < patient.restart_limit
        → 1025 ≤ 1024
        → (d : ℕ) × (retry_delay patient 1025 ≡ some d) × (250_000 ≤ d) × (d ≤ 5_000_000))
    × ((d : ℕ)
        → 1026 < patient.restart_limit
        → 1026 ≤ 1024
        → retry_delay patient 1025 ≡ some d
        → retry_delay patient 1026 ≡ some (min 5_000_000 (2 * d)))
    × (1025 < patient.restart_limit → 1025 ≤ 1025 → retry_delay patient 1025 ≡ none)
retry_delay_steps_example = retry_delay_steps patient 1024

abbrev rounds : List Round
rounds =
    record {
      now = 10;
      alive = false;
      meanwhile = λ rt. record rt { phase = running; current = some service };
    }
    ∷ record { now = 20; alive = true; meanwhile = λ rt. rt }
    ∷ []

ensured : (ensure config 7 false 1000 rounds new).0 ≡ ready service
unfolding ensure request_ready
ensured = refl

abbrev late : List Round
late = record { now = 2000; alive = false; meanwhile = λ rt. rt } ∷ []

ensure_ends_example : (ensure config 7 false 1000 late new).0 ≢ waiting
ensure_ends_example = ensure_ends config 7 1000 false late new (inl (omega arith))
