-- ===== src/Runtime/Supervisor/Invariant.antt =====
-- What holds of a runtime whatever the order in which its supervisor and its clients act.
use go_httpx.Prelude.{
  ℕ, ◌+◌, ◌≡◌, ◌≢◌, refl, ◌⊎◌, true, false, List, [], ◌∷◌, Option, none, some, arith,
}
use go_httpx.Runtime.{Config, Instance, Runtime, running, failed, closed, record_failure}
use go_httpx.Runtime.Supervisor.{
  Place, absent, top, choosing, launching, adopting, discarding, polling, checking, probing,
  judging, disposing, recording, crashed, finishing, closing, aborted, ended, Env, System, init,
  step_at, supervise_step,
}
use go_httpx.Runtime.Supervisor.Clients.{
  Call, acquires, releases, requests, reports, shuts_down, client_step, Action, supervisor, client,
  act, run,
}

abbrev pub count : Option Instance → ℕ
count none = 0
count (some _) = 1

-- The processes that the supervisor answers for at a place.
abbrev pub pending : Place → ℕ
pending (top l) = count l.held
pending (choosing l) = count l.held
pending (adopting i l) = 1
pending (discarding i l) = 1
pending (polling i l) = 1
pending (checking i code l) = 1
pending (probing i code asked used l) = 1
pending (judging i code l) = 1
pending (disposing i code l) = 1
pending (recording i code l) = 1
pending (crashed l) = count l.held
pending (finishing l) = count l.held
pending (aborted l) = count l.held
pending _ = 0

-- How `_current`, `_fatal` and the variable `current` of the thread agree at a place.
abbrev Agrees : Place → Runtime → Type 0
Agrees absent rt = (rt.current ≡ none) × (rt.thread ≡ false)
Agrees (top l) rt = (rt.current ≡ l.held) × (rt.fatal ≡ true → rt.current ≡ none)
Agrees (choosing l) rt = (rt.current ≡ l.held) × (rt.fatal ≡ true → rt.current ≡ none)
Agrees (launching l) rt = (rt.current ≡ none) × (l.held ≡ none) × (rt.fatal ≡ false)
Agrees (adopting i l) rt = (rt.current ≡ none) × (l.held ≡ none) × (rt.fatal ≡ false)
Agrees (discarding i l) rt = (l.held ≡ none) × (rt.stop ≡ true)
Agrees (polling i l) rt = (rt.current ≡ some i) × (l.held ≡ some i) × (rt.fatal ≡ false)
Agrees (checking i code l) rt = (rt.current ≡ some i) × (l.held ≡ some i) × (rt.fatal ≡ false)
Agrees (probing i code asked used l) rt =
    (rt.current ≡ some i) × (l.held ≡ some i) × (rt.fatal ≡ false)
Agrees (judging i code l) rt = (rt.current ≡ some i) × (l.held ≡ some i) × (rt.fatal ≡ false)
Agrees (disposing i code l) rt = (rt.current ≡ none) × (l.held ≡ some i) × (rt.fatal ≡ false)
Agrees (recording i code l) rt = (rt.current ≡ none) × (l.held ≡ some i) × (rt.fatal ≡ false)
Agrees (crashed l) rt = Unit {0}
Agrees (finishing l) rt = (rt.stop ≡ true) ⊎ (rt.phase ≡ failed)
Agrees closing rt = (rt.stop ≡ true) ⊎ (rt.phase ≡ failed)
Agrees (aborted l) rt = (rt.stop ≡ true) ⊎ (rt.phase ≡ failed)
Agrees ended rt = (rt.current ≡ none) × ((rt.phase ≡ closed) ⊎ (rt.phase ≢ running))

pub record Inv (s : System) : Type 0 where
  pub agrees : Agrees s.place s.runtime
  pub running_current : s.runtime.phase ≡ running → s.runtime.current ≢ none
  pub stopped_not_running : s.runtime.stop ≡ true → s.runtime.phase ≢ running
  pub accounted : s.spawned ≡ s.reaped + s.lost + pending s.place

init-Inv : Inv init
init-Inv = record {
  agrees = (refl, refl);
  running_current = λ e. cc;
  stopped_not_running = λ e f. cc;
  accounted = omega arith;
}

step_at-Inv :
    (cfg : Config) (env : Env) (p : Place) (s : System)
    → s.place ≡ p
    → Inv s
    → Inv (step_at cfg env p s)
unfolding step_at record_failure
step_at-Inv cfg env absent s e v = v
step_at-Inv cfg env (top l) s e v = ground arith
step_at-Inv cfg env (choosing l) s e v = ground arith
step_at-Inv cfg env (launching l) s e v = ground arith
step_at-Inv cfg env (adopting i l) s e v = ground arith
step_at-Inv cfg env (discarding i l) s e v = ground arith
step_at-Inv cfg env (polling i l) s e v = ground arith
step_at-Inv cfg env (checking i code l) s e v = ground arith
step_at-Inv cfg env (probing i code asked used l) s e v = ground arith
step_at-Inv cfg env (judging i code l) s e v = ground arith
step_at-Inv cfg env (disposing i code l) s e v = ground arith
step_at-Inv cfg env (recording i code l) s e v = ground arith
step_at-Inv cfg env (crashed l) s e v = ground arith
step_at-Inv cfg env (finishing l) s e v = ground arith
step_at-Inv cfg env closing s e v = ground arith
step_at-Inv cfg env (aborted l) s e v = v
step_at-Inv cfg env ended s e v = v

pub supervise_step-Inv :
    (cfg : Config) (env : Env) (s : System) → Inv s → Inv (supervise_step cfg env s)
unfolding supervise_step
supervise_step-Inv cfg env s v = step_at-Inv cfg env s.place s refl v

-- A client that finds no thread starts one at the top of its loop.
pub client_step-Inv : (cfg : Config) (c : Call) (s : System) → Inv s → Inv (client_step cfg c s)
unfolding client_step
client_step-Inv cfg (acquires pid) s v = ground arith
client_step-Inv cfg releases s v = ground arith
client_step-Inv cfg (requests pid pin alive) s v = ground arith
client_step-Inv cfg (reports i) s v = ground arith
client_step-Inv cfg (shuts_down pid) s v = ground arith

act-Inv : (cfg : Config) (a : Action) (s : System) → Inv s → Inv (act cfg a s)
unfolding act
act-Inv cfg (supervisor env) s v = supervise_step-Inv cfg env s v
act-Inv cfg (client c) s v = client_step-Inv cfg c s v

pub run-Inv : (cfg : Config) (actions : List Action) (s : System) → Inv s → Inv (run cfg actions s)
unfolding run
run-Inv cfg [] s v = v
run-Inv cfg (a ∷ actions) s v = run-Inv cfg actions (act cfg a s) (act-Inv cfg a s v)

-- What any interleaving leads to from the start.
abbrev pub after : Config → List Action → System
after cfg actions = run cfg actions init

pub after-Inv : (cfg : Config) (actions : List Action) → Inv (after cfg actions)
after-Inv cfg actions = run-Inv cfg actions init init-Inv
