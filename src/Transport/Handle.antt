-- ===== src/Transport/Handle.antt =====
-- `_GoTransport`: its state, `handle_request`, `_rebuild` and `close`. A block under `_condition` is
-- one step; what other threads do during a wait is a function on the state.
pub mod Safety
pub mod Rebuild
pub mod Construct
use go_httpx.Prelude.{
  ℕ, zero, suc, ◌+◌, ◌-◌, String, Bool, true, false, ◌&&◌, ◌||◌, not, Option, none, some, List, [],
  ◌∷◌, str_eq, ◌==◌, if◌then◌else◌, Result, ok, err, ◌>>=◌,
}
use go_httpx.Prelude.Json.{Fields}
use go_httpx.Transport.{
  Fault, Go, bad_protocol, protocol_error, service_unavailable, outcome_unknown, failure, Request,
  target, Service,
}
use go_httpx.Transport.Call.{Setting, call, is_managed}
use go_httpx.Transport.Session.{create_session, delete_session}
use go_httpx.Transport.Response.{HttpResponse, response}

pub record Transport : Type 0 where
  pub client_id : Option String
  pub generation : ℕ
  pub rebuilding : Bool
  pub failed_generation : Option ℕ
  pub rebuild_error : Option Fault
  pub active : ℕ
  pub closing : Bool
  pub closed : Bool
  pub log : List Request

-- The deadline in the request's extensions and the readings of the clock in `_call`.
pub record Clock : Type 0 where
  pub deadline : Option ℕ
  pub first_reading : ℕ
  pub second_reading : ℕ
  pub ticks : ℕ

-- What does not change over the life of a transport. `b64decode` and `is_timestamp` are the
-- parameters of `Response` and `Session`.
pub record World : Type 0 where
  pub service : Service
  pub instance_id : Option String
  pub is_timestamp : String → Bool
  pub b64decode : String → Option (List ℕ)

abbrev pub or_empty : Option String → String
or_empty none = ""
or_empty (some id) = id

abbrev pub setting : World → Clock → Option ℕ → Setting
setting w clock timeout_ms = record {
  instance_id = w.instance_id;
  request = true;
  timeout_ms = timeout_ms;
  deadline = clock.deadline;
  first_reading = clock.first_reading;
  second_reading = clock.second_reading;
  ticks = clock.ticks;
}

-- One target call, from a session's id to the dict of the answer.
unfoldable pub post : World → Clock → ℕ → String → Transport → Go Fields × Transport
post w clock timeout_ms id t =
    let (answer, log) = call w.service (setting w clock (some timeout_ms)) (target id) 200 t.log in
    (answer, record t { log = log })

-- What the locked beginning of `_rebuild` decides.
pub data Entry : Type 0 where
  waiting : Entry
  reuse : String → Entry
  refuse : Fault → Entry
  build : Entry

abbrev same_generation : Option ℕ → ℕ → Bool
same_generation none g = false
same_generation (some f) g = f == g

abbrev refusal : Transport → Entry
refusal t = if t.closing || t.closed then refuse service_unavailable else build

abbrev fresh_entry : Transport → ℕ → Option Fault → Entry
fresh_entry t g none = refusal t
fresh_entry t g (some fault) =
    if same_generation t.failed_generation g then refuse fault else refusal t

-- `_retarget_transport_error` gives the stored exception a new request and keeps the rest.
unfoldable pub enter : ℕ → Transport → Entry
enter g t =
    if t.rebuilding && t.generation == g
    then waiting
    else if not (t.generation == g)
    then reuse (or_empty t.client_id)
    else fresh_entry t g t.rebuild_error

-- `none` is an exception outside `Exception`, such as KeyboardInterrupt: it is not kept.
unfoldable pub rebuild_failed : ℕ → Option Fault → Transport → Transport
rebuild_failed g none t = record t { rebuilding = false }
rebuild_failed g (some fault) t = record t {
  failed_generation = some g;
  rebuild_error = some fault;
  rebuilding = false;
}

unfoldable pub rebuild_done : String → Transport → Transport
rebuild_done id t = record t {
  client_id = some id;
  generation = t.generation + 1;
  failed_generation = none;
  rebuild_error = none;
  rebuilding = false;
}

-- The rest of `_rebuild` after the lock, for the thread that builds, where what the calls raise is an
-- `Exception`. The other threads may act between the two locked blocks.
unfoldable pub build_session :
    World → Clock → (Transport → Transport) → ℕ → Transport → Go String × Transport
unfolding rebuild_failed rebuild_done
build_session w clock meanwhile g t =
    let (answer, log) = create_session w.is_timestamp w.service (setting w clock none) t.log in
    let t' = meanwhile (record t { rebuilding = true; log = log }) in
    elim answer [
      | err fault ↦ (err fault, rebuild_failed g (some fault) t')
      | ok id ↦ (ok id, rebuild_done id t')
    ]

-- `none` where the thread still waits when the wake-ups at hand have been used.
unfoldable pub rebuild :
    World
    → Clock
    → (Transport → Transport)
    → List (Transport → Transport)
    → ℕ
    → Transport
    → Option (Go String) × Transport
unfolding enter
rebuild w clock meanwhile [] g t = elim (enter g t) [
  | waiting ↦ (none, t)
  | reuse id ↦ (some (ok id), t)
  | refuse fault ↦ (some (err fault), t)
  | build ↦ let (answer, t') = build_session w clock meanwhile g t in (some answer, t')
]
rebuild w clock meanwhile (wake ∷ wakes) g t =
    let later = rebuild w clock meanwhile wakes g (wake t) in
    elim (enter g t) [
      | waiting ↦ later
      | reuse id ↦ (some (ok id), t)
      | refuse fault ↦ (some (err fault), t)
      | build ↦ let (answer, t') = build_session w clock meanwhile g t in (some answer, t')
    ]

-- `except GoProtocolError` round `_response`
abbrev answer_fault : Bool → Fault → Fault
answer_fault true (protocol_error code request_id) = outcome_unknown
answer_fault _ fault = fault

abbrev with_fault : {A : Type 0} → (Fault → Fault) → Go A → Go A
with_fault f (ok a) = ok a
with_fault f (err fault) = err (f fault)

unfoldable pub answer : World → Go Fields → Go HttpResponse
answer w (err fault) = err fault
answer w (ok data_fields) =
    with_fault (answer_fault (is_managed w.instance_id)) (response w.b64decode data_fields)

-- `exc.code == "CLIENT_NOT_FOUND"` of a `GoProtocolError`
unfoldable pub is_not_found : Fault → Bool
is_not_found (protocol_error (some code) request_id) = str_eq code "CLIENT_NOT_FOUND"
is_not_found _ = false

abbrev asks_rebuild : World → Go Fields → Bool
asks_rebuild w (ok data_fields) = false
asks_rebuild w (err fault) = is_not_found fault && not (is_managed w.instance_id)

-- What the threads around a request do: while it waits for the rebuild of another, at each wake-up, and
-- while it builds itself.
pub record Around : Type 0 where
  pub wakes : List (Transport → Transport)
  pub while_building : Transport → Transport

-- The second target call, with the session that the rebuild has given.
unfoldable pub retry :
    World → Clock → ℕ → Option (Go String) × Transport → Option (Go HttpResponse) × Transport
retry w clock timeout_ms (none, t) = (none, t)
retry w clock timeout_ms (some (err fault), t) = (some (err fault), t)
retry w clock timeout_ms (some (ok id), t) =
    let (reply, t') = post w clock timeout_ms id t in (some (answer w reply), t')

-- The body of the outer `try`. `payload` is what `_request_payload` gives, as far as it matters here:
-- the timeout, or its exception.
unfoldable pub attempt :
    World
    → Clock
    → Around
    → Go ℕ
    → Option String
    → ℕ
    → Transport
    → Option (Go HttpResponse) × Transport
unfolding post retry answer is_not_found
attempt w clock around (err fault) client_id generation t = (some (err fault), t)
attempt w clock around (ok timeout_ms) client_id generation t =
    let (reply, t') = post w clock timeout_ms (or_empty client_id) t in
    if asks_rebuild w reply
    then retry w clock timeout_ms (rebuild w clock around.while_building around.wakes generation t')
    else (some (answer w reply), t')

-- `none` is a request that still waits; its `active` has not been given back.
abbrev pub leave : Option (Go HttpResponse) × Transport → Option (Go HttpResponse) × Transport
leave (none, t) = (none, t)
leave (some r, t) = (some r, record t { active = t.active - 1 })

unfoldable pub handle_request :
    World → Clock → Around → Go ℕ → Transport → Option (Go HttpResponse) × Transport
unfolding attempt
handle_request w clock around payload t =
    if t.closing || t.closed
    then (some (err service_unavailable), t)
    else leave (
        attempt w clock around payload t.client_id t.generation
          (record t { active = t.active + 1 }))

-- `close`, for the thread that finds the transport open; `drained` is the state in which the wait for
-- the active requests ends.
unfoldable pub close_open : World → (Transport → Transport) → Transport → Go (Unit {0}) × Transport
close_open w drained t =
    let t' = drained (record t { closing = true }) in
    elim t'.client_id [
      | none ↦ (ok tt, record t' { closed = true })
      | some id ↦
          let (result, log) = delete_session w.service w.instance_id id t'.log in
          (result, record t' { closed = true; log = log })
    ]
