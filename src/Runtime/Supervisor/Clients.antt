-- ===== src/Runtime/Supervisor/Clients.antt =====
-- The clients of a supervised runtime, and the interleavings of their calls with the supervisor.
use go_httpx.Prelude.{ℕ, Bool, true, List, [], ◌∷◌}
use go_httpx.Runtime.{Config, Instance, acquire, release, request_ready, report_fault, shutdown}
use go_httpx.Runtime.Supervisor.{Place, absent, top, start_local, Env, System, supervise_step}

-- The calls that client threads make between two steps of the supervisor.
pub data Call : Type 0 where
  acquires : ℕ → Call
  releases : Call
  requests : ℕ → Bool → Bool → Call
  reports : Instance → Call
  shuts_down : ℕ → Call

abbrev started : Bool → Place → Place
started true absent = top start_local
started _ place = place

unfoldable pub client_step : Config → Call → System → System
unfolding acquire release request_ready report_fault shutdown
client_step cfg (acquires pid) s = record s { runtime = (acquire cfg pid s.runtime).1 }
client_step cfg releases s = record s { runtime = release s.runtime }
client_step cfg (requests pid pin alive) s =
    let runtime = (request_ready cfg pid pin alive s.runtime).1 in
    record s { runtime = runtime; place = started runtime.thread s.place }
client_step cfg (reports i) s = record s { runtime = report_fault i s.runtime }
client_step cfg (shuts_down pid) s = record s { runtime = shutdown cfg pid s.runtime }

-- An interleaving of the supervisor and the clients.
pub data Action : Type 0 where
  supervisor : Env → Action
  client : Call → Action

unfoldable pub act : Config → Action → System → System
unfolding supervise_step client_step
act cfg (supervisor env) s = supervise_step cfg env s
act cfg (client c) s = client_step cfg c s

unfoldable pub run : Config → List Action → System → System
unfolding act
run cfg [] s = s
run cfg (a ∷ actions) s = run cfg actions (act cfg a s)
