-- ===== src/Runtime/Supervisor.antt =====
-- `ManagedRuntime._supervise`: the supervisor thread as a machine whose steps are the blocks between
-- two places where another thread can act. Its place and its local variables are the value of a
-- `Place`; what `_launch`, `poll`, `_probe` and `_dispose` answer is the step's environment.
pub mod Clients
pub mod Invariant
pub mod Ending
pub mod Termination
use go_httpx.Prelude.{
  ℕ, zero, suc, ◌+◌, String, Bool, true, false, ◌&&◌, ◌||◌, not, Option, none, some, List, [], ◌∷◌,
  leb, ltb, ◌==◌, str_eq, if◌then◌else◌,
}
use go_httpx.Runtime.{
  Config, Instance, Runtime, Phase, starting, running, restarting, failed, stopping, closed,
  Failure, launch_error, start_failed, exited, unhealthy, supervisor_crashed, new, acquire, release,
  request_ready, report_fault, record_failure, shutdown, Recorded,
}

-- The local variables that live on over a round.
pub record Local : Type 0 where
  pub held : Option Instance
  pub next_health : ℕ
  pub health_errors : ℕ

pub data Place : Type 0 where
  absent : Place
  top : Local → Place
  choosing : Local → Place
  launching : Local → Place
  adopting : Instance → Local → Place
  discarding : Instance → Local → Place
  polling : Instance → Local → Place
  checking : Instance → Option ℕ → Local → Place
  probing : Instance → Option ℕ → Bool → Bool → Local → Place
  judging : Instance → Option ℕ → Local → Place
  disposing : Instance → Option ℕ → Local → Place
  recording : Instance → Option ℕ → Local → Place
  crashed : Local → Place
  finishing : Local → Place
  closing : Place
  aborted : Local → Place
  ended : Place

-- What `_launch` does: an instance, `RuntimeConfigurationError`, `RuntimeUnavailable`, another
-- `Exception`, or an exception outside `Exception`.
pub data Launch : Type 0 where
  launched_instance : Instance → Launch
  launch_misconfigured : String → Launch
  launch_unavailable : String → Launch
  launch_failed : Launch
  launch_interrupted : Launch

-- What `process.poll()` does: `none` while the process lives, its exit code, or an OSError.
pub data Poll : Type 0 where
  polled : Option ℕ → Poll
  poll_error : Poll

pub record Env : Type 0 where
  pub now : ℕ
  pub jitter : ℕ
  pub launch : Launch
  pub poll : Poll
  pub probe : Bool
  pub dispose_raises : Bool
  pub returncode : Option ℕ

-- `spawned`, `reaped` and `lost` count the processes that `_launch` has returned, those that `_dispose` has
-- closed and that the thread no longer holds (where `_record_failure` raises after it, the `finally`
-- disposes of the process once more), and those whose `_dispose` raised before a client could see them.
-- The code keeps no such counts.
pub record System : Type 0 where
  pub runtime : Runtime
  pub place : Place
  pub spawned : ℕ
  pub reaped : ℕ
  pub lost : ℕ

abbrev pub start_local : Local
start_local = record { held = none; next_health = 0; health_errors = 0 }

abbrev pub init : System
init = record { runtime = new; place = absent; spawned = 0; reaped = 0; lost = 0 }

-- `self._fatal or not self._wanted or (not self._users and not self._pinned)`
abbrev idle : Runtime → Bool
idle rt = rt.fatal || not rt.wanted || (rt.users == 0 && not rt.pinned)

choose : Env → Local → System → System
choose env l s = elim s.runtime.current [
  | none ↦
      let l' = record l { held = none } in
      if idle s.runtime || ltb env.now s.runtime.next_retry
      then record s { place = top l' }
      else record s {
        runtime = record s.runtime {
          phase = (if s.runtime.starts == 0 then starting else restarting);
        };
        place = launching l';
      }
  | some i ↦ record s { place = polling i (record l { held = some i }) }
]

-- An OverflowError of `_record_failure` reaches the handler of the whole loop.
abbrev pub after_failure : Place → Local → Recorded → System → System
after_failure next l (true, rt) s = record s { runtime = rt; place = crashed l }
after_failure next l (false, rt) s = record s { runtime = rt; place = next }

launch_step : Config → Env → Local → System → System
launch_step cfg env l s = elim env.launch [
  | launched_instance i ↦ record s { place = adopting i l; spawned = s.spawned + 1 }
  | launch_misconfigured text ↦ record s {
    runtime = record s.runtime {
      fatal = true;
      phase = failed;
      last_failure = some (launch_error text);
    };
    place = top l;
  }
  | launch_unavailable text ↦
      after_failure (top l) l (record_failure cfg env.now env.jitter (launch_error text) s.runtime)
        s
  | launch_failed ↦
      after_failure (top l) l (record_failure cfg env.now env.jitter start_failed s.runtime) s
  | launch_interrupted ↦ record s { place = crashed l }
]

adopt : Config → Env → Instance → Local → System → System
adopt cfg env i l s = if s.runtime.stop then record s { place = discarding i l } else record s {
  runtime = record s.runtime {
    current = some i;
    starts = s.runtime.starts + 1;
    phase = running;
    last_failure = none;
    next_retry = 0;
  };
  place =
      top
        (record { held = some i; next_health = env.now + cfg.health_interval; health_errors = 0 });
}

-- `_dispose`, after which the thread goes on at `next`; if it raises, at `failing`.
dispose : Env → Place → Place → System → System
dispose env next failing s =
    if env.dispose_raises
    then record s { place = failing }
    else record s { place = next; reaped = s.reaped + 1 }

discard : Env → Local → System → System
discard env l s =
    if env.dispose_raises
    then record s { place = crashed l; lost = s.lost + 1 }
    else record s { place = finishing l; reaped = s.reaped + 1 }

poll_step : Env → Instance → Local → System → System
poll_step env i l s = elim env.poll [
  | polled code ↦ record s { place = checking i code l }
  | poll_error ↦ record s { place = crashed l }
]

abbrev requested : Option String → String → Bool
requested none id = false
requested (some r) id = str_eq r id

check : Instance → Option ℕ → Local → System → System
check i code l s = record s {
  runtime = record s.runtime { check_requested = none };
  place =
      probing i code (requested s.runtime.check_requested i.instance_id)
        (not (s.runtime.users == 0) || s.runtime.pinned) l;
}

abbrev pub is_none : Option ℕ → Bool
is_none none = true
is_none (some _) = false

probe_step : Config → Env → Instance → Option ℕ → Bool → Bool → Local → System → System
probe_step cfg env i code asked used l s =
    if is_none code && used && (asked || leb l.next_health env.now)
    then record s {
      place = judging i code (record l {
        health_errors = (if env.probe then 0 else l.health_errors + 1);
        next_health = env.now + cfg.health_interval;
      });
    }
    else record s { place = judging i code l }

judge : Config → Instance → Option ℕ → Local → System → System
judge cfg i code l s =
    if not (is_none code) || leb cfg.health_failures l.health_errors
    then record s {
      runtime = record s.runtime { phase = restarting; current = none };
      place = disposing i code l;
    }
    else record s { place = top l }

note_exit : Config → Env → Option ℕ → Local → System → System
note_exit cfg env code l s =
    let recorded =
      record_failure cfg env.now env.jitter
        (if is_none code then unhealthy else exited env.returncode)
        (record s.runtime { last_exit = env.returncode }) in
    let s' = after_failure (top (record l { held = none })) l recorded s in
    if recorded.0 then s' else record s' { reaped = s.reaped + 1 }

crash : Local → System → System
crash l s = record s {
  runtime = record s.runtime {
    fatal = true;
    phase = failed;
    last_failure = some supervisor_crashed;
  };
  place = finishing l;
}

finish : Env → Local → System → System
unfolding dispose
finish env l s = elim l.held [
  | none ↦ record s { place = closing }
  | some i ↦ dispose env closing (aborted l) s
]

close_step : System → System
close_step s = record s {
  runtime = record s.runtime {
    current = none;
    phase = (if s.runtime.stop then closed else s.runtime.phase);
  };
  place = ended;
}

-- One step of the thread from the place where it stands.
step_at : Config → Env → Place → System → System
unfolding choose launch_step adopt dispose discard poll_step check probe_step judge note_exit crash
    finish close_step
step_at cfg env absent s = s
step_at cfg env (top l) s = record s {
  place = (if s.runtime.stop then finishing l else choosing l);
}
step_at cfg env (choosing l) s = choose env l s
step_at cfg env (launching l) s = launch_step cfg env l s
step_at cfg env (adopting i l) s = adopt cfg env i l s
step_at cfg env (discarding i l) s = discard env l s
step_at cfg env (polling i l) s = poll_step env i l s
step_at cfg env (checking i code l) s = check i code l s
step_at cfg env (probing i code asked used l) s = probe_step cfg env i code asked used l s
step_at cfg env (judging i code l) s = judge cfg i code l s
step_at cfg env (disposing i code l) s = record s {
  place = (if env.dispose_raises then crashed l else recording i code l);
}
step_at cfg env (recording i code l) s = note_exit cfg env code l s
step_at cfg env (crashed l) s = crash l s
step_at cfg env (finishing l) s = finish env l s
step_at cfg env closing s = close_step s
step_at cfg env (aborted l) s = s
step_at cfg env ended s = s

unfoldable pub supervise_step : Config → Env → System → System
unfolding step_at
supervise_step cfg env s = step_at cfg env s.place s
