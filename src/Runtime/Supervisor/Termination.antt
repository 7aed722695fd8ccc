-- ===== src/Runtime/Supervisor/Termination.antt =====
-- After `shutdown` the supervisor thread ends in a bounded number of its own steps; and a thread that
-- has ended by a crash before the shutdown leaves the phase STOPPING for ever.
use go_httpx.Prelude.{ℕ, suc, ◌-◌, ◌≤◌, ◌≡◌, refl, true, arith, List, [], ◌∷◌}
use go_httpx.Runtime.{Config, failed, stopping, record_failure}
use go_httpx.Runtime.Supervisor.{
  Place, absent, top, choosing, launching, adopting, discarding, polling, checking, probing,
  judging, disposing, recording, crashed, finishing, closing, aborted, ended, Env, System, step_at,
  supervise_step,
}
use go_httpx.Runtime.Supervisor.Clients.{
  Call, acquires, requests, shuts_down, client_step, Action, supervisor, client, act, run,
}
use go_httpx.Runtime.Supervisor.Invariant.{
  Inv, after, after-Inv, client_step-Inv, supervise_step-Inv,
}
use go_httpx.Runtime.Supervisor.Ending.{shut_down, stop-shut_down, act-stop}

-- How many steps of its own the thread still has before it, once `_stop` is set.
abbrev pub rank : Place → ℕ
rank absent = 0
rank ended = 0
rank (aborted l) = 0
rank closing = 1
rank (finishing l) = 2
rank (crashed l) = 3
rank (top l) = 3
rank (recording i code l) = 4
rank (discarding i l) = 4
rank (adopting i l) = 5
rank (launching l) = 6
rank (disposing i code l) = 5
rank (judging i code l) = 6
rank (probing i code asked used l) = 7
rank (checking i code l) = 8
rank (polling i l) = 9
rank (choosing l) = 10

step_at-rank :
    (cfg : Config) (env : Env) (p : Place) (s : System)
    → s.place ≡ p
    → s.runtime.stop ≡ true
    → rank (step_at cfg env p s).place ≤ rank p - 1
unfolding step_at record_failure
step_at-rank cfg env absent s e h = ground arith
step_at-rank cfg env (top l) s e h = ground arith
step_at-rank cfg env _ s e h = ground arith

supervise_step-rank :
    (cfg : Config) (env : Env) (s : System)
    → s.runtime.stop ≡ true
    → rank (supervise_step cfg env s).place ≤ rank s.place - 1
unfolding supervise_step
supervise_step-rank cfg env s h = step_at-rank cfg env s.place s refl h

-- A client moves the thread only by starting it, which it cannot do after the stop.
client_step-rank :
    (cfg : Config) (c : Call) (s : System)
    → Inv s
    → s.runtime.stop ≡ true
    → rank (client_step cfg c s).place ≡ rank s.place
unfolding client_step
client_step-rank cfg (acquires pid) s v h = ground arith
client_step-rank cfg (requests pid pin alive) s v h = ground arith
client_step-rank cfg c s v h = ground arith

-- The supervisor's share of an interleaving.
abbrev pub own_steps : List Action → ℕ
own_steps [] = 0
own_steps (supervisor env ∷ actions) = suc (own_steps actions)
own_steps (client c ∷ actions) = own_steps actions

run-rank :
    (cfg : Config) (actions : List Action) (s : System)
    → Inv s
    → s.runtime.stop ≡ true
    → rank (run cfg actions s).place ≤ rank s.place - own_steps actions
unfolding run act
run-rank cfg [] s v h = omega arith
run-rank cfg (supervisor env ∷ actions) s v h = omega (
  arith,
  supervise_step-rank cfg env s h,
  run-rank cfg actions (supervise_step cfg env s) (supervise_step-Inv cfg env s v)
      (act-stop cfg (supervisor env) s h),
)
run-rank cfg (client c ∷ actions) s v h = omega (
  arith,
  client_step-rank cfg c s v h,
  run-rank cfg actions (client_step cfg c s) (client_step-Inv cfg c s v)
      (act-stop cfg (client c) s h),
)

rank-le : (p : Place) → rank p ≤ 10
rank-le p = ground arith

-- After a shutdown the thread has ended (or was never started, or was broken off in its last
-- `_dispose`) as soon as it has made ten steps, however the calls of clients fall between them.
pub shutdown_ends_thread :
    (cfg : Config) (before later : List Action)
    → 10 ≤ own_steps later
    → rank (run cfg later (shut_down cfg (after cfg before))).place ≡ 0
shutdown_ends_thread cfg before later enough =
    let s = shut_down cfg (after cfg before) in
    omega (
      arith,
      run-rank cfg later s
          (client_step-Inv cfg (shuts_down cfg.owner_pid) (after cfg before) (after-Inv cfg before))
          (stop-shut_down cfg (after cfg before)),
      rank-le s.place,
    )

-- A thread that has ended, in a runtime that is stopping.
record IsStuck (s : System) : Type 0 where
  is_ended : s.place ≡ ended
  has_thread : s.runtime.thread ≡ true
  is_stopped : s.runtime.stop ≡ true
  is_stopping : s.runtime.phase ≡ stopping

act-IsStuck : (cfg : Config) (a : Action) (s : System) → IsStuck s → IsStuck (act cfg a s)
unfolding act supervise_step step_at client_step
act-IsStuck cfg (supervisor env) s v = ground arith
act-IsStuck cfg (client (acquires pid)) s v = ground arith
act-IsStuck cfg (client c) s v = ground arith

run-IsStuck :
    (cfg : Config) (actions : List Action) (s : System) → IsStuck s → IsStuck (run cfg actions s)
unfolding run
run-IsStuck cfg [] s v = v
run-IsStuck cfg (a ∷ actions) s v = run-IsStuck cfg actions (act cfg a s) (act-IsStuck cfg a s v)

shut_down-IsStuck :
    (cfg : Config) (s : System)
    → s.place ≡ ended
    → s.runtime.thread ≡ true
    → s.runtime.phase ≡ failed
    → IsStuck (shut_down cfg s)
unfolding client_step
shut_down-IsStuck cfg s e t h = ground arith

-- Where the thread has ended with the phase FAILED and the runtime is shut down only then, the phase
-- stays STOPPING whatever the supervisor and the clients do later: nothing is left that could set CLOSED.
pub shutdown_after_crash :
    (cfg : Config) (s : System) (later : List Action)
    → s.place ≡ ended
    → s.runtime.thread ≡ true
    → s.runtime.phase ≡ failed
    → (run cfg later (shut_down cfg s)).runtime.phase ≡ stopping
shutdown_after_crash cfg s later e t h =
    (run-IsStuck cfg later (shut_down cfg s) (shut_down-IsStuck cfg s e t h)).is_stopping
