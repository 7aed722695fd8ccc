-- ===== src/Clients.antt =====
-- python/gohttpx.py: `configure_runtime`, the constructors of `Client` and `AsyncClient`, and those of the
-- managed transports below them. `_runtime` and its configuration are the module's state.
pub mod Balance
use go_httpx.Prelude.{
  ℕ, suc, ◌+◌, ◌-◌, Bool, true, false, ◌&&◌, ◌||◌, not, Option, none, some, List, ◌==◌, String,
  if◌then◌else◌, Result, ok, err,
}
use go_httpx.Runtime.{
  Config, Runtime, RuntimeError, unavailable_closed, unavailable_timeout, wrong_process,
  misconfigured, Phase, Failure, stopped, closed, Instance, new, acquire, release, shutdown,
}
use go_httpx.Runtime.Ready.{Round, Outcome, ready, raised, waiting, ensure}

-- `ManagedRuntime.status`, without the pids. `now` is the time.
pub record Status : Type 0 where
  pub state : Phase
  pub instance_id : Option String
  pub endpoint : Option String
  pub start_count : ℕ
  pub restart_count : ℕ
  pub active_clients : ℕ
  pub last_exit_code : Option ℕ
  pub last_failure : Option Failure
  pub retry_in : ℕ

abbrev id_of : Option Instance → Option String
id_of none = none
id_of (some i) = some i.instance_id

abbrev endpoint_of : Option Instance → Option String
endpoint_of none = none
endpoint_of (some i) = some i.endpoint

unfoldable pub status : ℕ → Runtime → Status
status now rt = record {
  state = rt.phase;
  instance_id = id_of rt.current;
  endpoint = endpoint_of rt.current;
  start_count = rt.starts;
  restart_count = rt.starts - 1;
  active_clients = rt.users;
  last_exit_code = rt.last_exit;
  last_failure = rt.last_failure;
  retry_in = rt.next_retry - now;
}

-- `_runtime`, and the transports to services that were started elsewhere.
pub record Module : Type 0 where
  pub config : Config
  pub runtime : Runtime
  pub direct : ℕ

pub data ClientError : Type 0 where
  configuration_error wrong_argument unavailable other_error : ClientError

abbrev is_idle : Phase → Bool
is_idle stopped = true
is_idle closed = true
is_idle _ = false

-- `candidate` is the new runtime's configuration, `none` where its constructor raises. The second result
-- is the state of the old runtime after its `shutdown`.
unfoldable pub configure_runtime : ℕ → Option Config → Module → Result ClientError Runtime × Module
unfolding status shutdown
configure_runtime pid candidate m =
    let s = status 0 m.runtime in
    if not (s.active_clients == 0) || not (is_idle s.state)
    then (err configuration_error, m)
    else elim candidate [
      | none ↦ (err wrong_argument, m)
      | some config ↦
          (ok (shutdown m.config pid m.runtime), record m { config = config; runtime = new })
    ]

pub data Kind : Type 0 where
  managed : Kind
  direct : Kind

-- What the constructor of a client meets: the arguments `transport` and `mounts`, whether the options are
-- resolved, `go_endpoint` and `go_token`; for a managed client the rounds of `ensure` and whether
-- `_checkout` gives an entry; for a direct one whether the transport is made; then `super().__init__`.
pub record Meets : Type 0 where
  pub pid : ℕ
  pub has_transport : Bool
  pub has_mounts : Bool
  pub resolves : Bool
  pub has_endpoint : Bool
  pub has_token : Bool
  pub deadline : ℕ
  pub rounds : List Round
  pub checks_out : Bool
  pub connects : Bool
  pub initializes : Bool

abbrev pub Made : Type 0
Made = Result ClientError Kind × Module

abbrev pub with_runtime : Runtime → Module → Module
with_runtime rt m = record m { runtime = rt }

-- RuntimeUnavailable becomes GoServiceUnavailable; RuntimeConfigurationError stays what it is.
abbrev pub client_error : RuntimeError → ClientError
client_error unavailable_closed = unavailable
client_error (unavailable_timeout failure) = unavailable
client_error wrong_process = configuration_error
client_error (misconfigured failure) = configuration_error

-- `_ManagedGoTransport.__init__` after `acquire`. Its `close` ends with the release of the runtime,
-- whatever it raises. A wait that has not ended with the rounds at hand counts as one that raises.
abbrev pub start_managed : Meets → Outcome × Runtime → Module → Made
start_managed a (ready i, rt) m =
    if a.checks_out
    then (ok managed, with_runtime rt m)
    else (err unavailable, with_runtime (release rt) m)
start_managed a (raised e, rt) m = (err (client_error e), with_runtime (release rt) m)
start_managed a (waiting, rt) m = (err unavailable, with_runtime (release rt) m)

abbrev pub after_acquire : Bool → Meets → Result RuntimeError (Unit {0}) × Runtime → Module → Made
after_acquire is_async a (err e, rt) m = (err (client_error e), with_runtime rt m)
after_acquire true a (ok u, rt) m = (ok managed, with_runtime rt m)
after_acquire false a (ok u, rt) m =
    start_managed a (ensure m.config a.pid false a.deadline a.rounds rt) m

-- An asynchronous transport opens nothing before its first request.
abbrev pub make_direct : Bool → Meets → Module → Made
make_direct true a m = (ok direct, record m { direct = suc m.direct })
make_direct false a m =
    if a.connects then (ok direct, record m { direct = suc m.direct }) else (err unavailable, m)

-- The close of a transport, where `super().__init__` has raised.
abbrev pub undo : Kind → Module → Module
undo managed m = with_runtime (release m.runtime) m
undo direct m = record m { direct = m.direct - 1 }

abbrev pub initialize : Bool → Made → Made
initialize initializes (err e, m) = (err e, m)
initialize true (ok t, m) = (ok t, m)
initialize false (ok t, m) = (err other_error, undo t m)

abbrev pub make_transport : Bool → Meets → Module → Made
make_transport is_async a m =
    if a.has_endpoint
    then make_direct is_async a m
    else (if a.has_token
        then (err configuration_error, m)
        else after_acquire is_async a (acquire m.config a.pid m.runtime) m)

-- `Client.__init__`, or `AsyncClient.__init__`.
unfoldable pub init_client : Bool → Meets → Module → Made
unfolding acquire release ensure
init_client is_async a m =
    if a.has_transport || a.has_mounts || not a.resolves
    then (err wrong_argument, m)
    else initialize a.initializes (make_transport is_async a m)
