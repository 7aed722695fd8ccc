-- ===== src/Runtime/Supervisor/Ending.antt =====
-- How the supervisor thread ends: it leaves no process behind, after `shutdown` it ends in a bounded
-- number of steps, and a shutdown after a crash of the thread never reaches CLOSED.
use go_httpx.Prelude.{
  ℕ, ◌+◌, ◌≤◌, ◌≡◌, ◌≢◌, Bool, true, false, Option, none, arith, List, [], ◌∷◌, ok,
}
use go_httpx.Runtime.{
  Config, Instance, Runtime, running, record_failure, usable, request_ready, acquire, is_current,
}
use go_httpx.Runtime.Supervisor.{Place, ended, Env, System, step_at, supervise_step}
use go_httpx.Runtime.Supervisor.Clients.{
  shuts_down, client_step, Action, supervisor, client, act, run,
}
use go_httpx.Runtime.Supervisor.Invariant.{Inv, after, run-Inv, after-Inv, client_step-Inv, pending}

pending-le-one : (p : Place) → pending p ≤ 1
pending-le-one p = ground arith

-- At any moment at most one process that `_launch` started has not been disposed of, not counting
-- candidates whose disposal itself raised.
pub spawned-le :
    (cfg : Config) (actions : List Action)
    → let s = after cfg actions in s.spawned ≤ s.reaped + s.lost + 1
spawned-le cfg actions =
    omega (arith, (after-Inv cfg actions).accounted, pending-le-one (after cfg actions).place)

Inv-ended :
    (s : System)
    → Inv s
    → s.place ≡ ended
    → (s.spawned ≡ s.reaped + s.lost) × (s.runtime.current ≡ none) × (s.runtime.phase ≢ running)
Inv-ended s v e = ground arith

-- When the thread has ended, every process that it started has been disposed of (or its disposal
-- raised), no instance is current, and the phase is not RUNNING.
pub ended_clean :
    (cfg : Config) (actions : List Action)
    → let s = after cfg actions in
      s.place ≡ ended
      → (s.spawned ≡ s.reaped + s.lost) × (s.runtime.current ≡ none) × (s.runtime.phase ≢ running)
ended_clean cfg actions = Inv-ended (after cfg actions) (after-Inv cfg actions)

pub act-stop :
    (cfg : Config) (a : Action) (s : System)
    → s.runtime.stop ≡ true
    → (act cfg a s).runtime.stop ≡ true
unfolding act supervise_step step_at record_failure client_step
act-stop cfg (supervisor env) s h = ground arith
act-stop cfg (client c) s h = ground arith

run-stop :
    (cfg : Config) (actions : List Action) (s : System)
    → s.runtime.stop ≡ true
    → (run cfg actions s).runtime.stop ≡ true
unfolding run
run-stop cfg [] s h = h
run-stop cfg (a ∷ actions) s h = run-stop cfg actions (act cfg a s) (act-stop cfg a s h)

-- What a client can get from a runtime: nothing.
abbrev pub ServesNobody : Config → Runtime → Type 0
ServesNobody cfg rt =
    (pid : ℕ) (pin alive : Bool) (i : Instance)
    → (usable rt alive ≡ none)
      × ((r : Option Instance) → (request_ready cfg pid pin alive rt).0 ≢ ok r)
      × ((acquire cfg pid rt).0 ≢ ok tt)
      × (is_current i alive rt ≡ false)

Inv-ServesNobody :
    (cfg : Config) (s : System) → Inv s → s.runtime.stop ≡ true → ServesNobody cfg s.runtime
unfolding request_ready acquire is_current
Inv-ServesNobody cfg s v stop pid pin alive i =
    (ground arith, λ r h. ground arith, λ h. ground arith, ground arith)

-- The state right after the owner's `shutdown`.
abbrev pub shut_down : Config → System → System
shut_down cfg s = client_step cfg (shuts_down cfg.owner_pid) s

pub stop-shut_down : (cfg : Config) (s : System) → (shut_down cfg s).runtime.stop ≡ true
unfolding client_step
stop-shut_down cfg s = ground arith

-- Once its process has shut it down, a runtime hands out no instance and takes no client, whatever
-- the supervisor and the clients do after that.
pub stopped-ServesNobody :
    (cfg : Config) (before later : List Action)
    → ServesNobody cfg (run cfg later (shut_down cfg (after cfg before))).runtime
stopped-ServesNobody cfg before later =
    let s = after cfg before in
    Inv-ServesNobody cfg (run cfg later (shut_down cfg s))
      (run-Inv cfg later (shut_down cfg s)
        (client_step-Inv cfg (shuts_down cfg.owner_pid) s (after-Inv cfg before)))
      (run-stop cfg later (shut_down cfg s) (stop-shut_down cfg s))

Inv-fatal :
    (cfg : Config) (env : Env) (s : System)
    → Inv s
    → s.runtime.fatal ≡ true
    → (supervise_step cfg env s).spawned ≡ s.spawned
unfolding supervise_step step_at record_failure
Inv-fatal cfg env s v fatal = ground arith

-- A runtime that has failed for good starts no process any more.
pub fatal_launches_nothing :
    (cfg : Config) (actions : List Action) (env : Env)
    → let s = after cfg actions in
      s.runtime.fatal ≡ true → (supervise_step cfg env s).spawned ≡ s.spawned
fatal_launches_nothing cfg actions env =
    Inv-fatal cfg env (after cfg actions) (after-Inv cfg actions)
