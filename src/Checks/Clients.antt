-- ===== src/Checks/Clients.antt =====
-- Constructors of clients that fail on their way.
use go_httpx.Prelude.{true, false, some, [], ◌∷◌, ◌≡◌, refl, err}
use go_httpx.Runtime.{Config, new, acquire, release, request_ready}
use go_httpx.Runtime.Ready.{ensure}
use go_httpx.Clients.{
  Module, other_error, configuration_error, Meets, init_client, configure_runtime, status,
}
use go_httpx.Clients.Balance.{Quiet, Balanced, init_client-Balanced}

abbrev config : Config
config = record {
  owner_pid = 4;
  startup_timeout = 10_000_000;
  health_interval = 5_000_000;
  health_failures = 3;
  restart_limit = 5;
  restart_window = 60_000_000;
  cooldown = 30_000_000;
}

abbrev module_state : Module
module_state = record { config = config; runtime = new; direct = 0 }

-- The instance does not come before the deadline.
abbrev late : Meets
late = record {
  pid = 4;
  has_transport = false;
  has_mounts = false;
  resolves = true;
  has_endpoint = false;
  has_token = false;
  deadline = 20;
  rounds = record { now = 30; alive = false; meanwhile = λ rt. rt } ∷ [];
  checks_out = true;
  connects = true;
  initializes = true;
}

-- `super().__init__` raises.
abbrev refused : Meets
refused = record late { initializes = false }

late_users : (init_client false late module_state).1.runtime.users ≡ 0
unfolding init_client acquire release ensure request_ready
late_users = refl

-- An asynchronous client does not wait for the instance.
late_async : (init_client true late module_state).1.runtime.users ≡ 1
unfolding init_client acquire
late_async = refl

refused_async : (init_client true refused module_state).0 ≡ err other_error
unfolding init_client acquire release
refused_async = refl

-- While it is open, the runtime cannot be configured.
configuration_refused :
    (configure_runtime 4 (some config) (init_client true late module_state).1).0
    ≡ err configuration_error
unfolding init_client acquire configure_runtime status
configuration_refused = refl

late-Quiet : Quiet late.rounds
unfolding Quiet
late-Quiet = ((λ rt. refl), tt)

init_client-Balanced_example : Balanced module_state (init_client false late module_state)
init_client-Balanced_example = init_client-Balanced false late module_state late-Quiet
