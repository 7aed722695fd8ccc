-- ===== src/Transport/Call.antt =====
-- `_call` of python/gohttpx.py, which `_GoTransport` and `_AsyncGoTransport` share but for the awaits.
-- Times are ticks of the clock, of which a millisecond has any number.
pub mod Safety
use go_httpx.Prelude.{
  ℕ, ◌+◌, ◌*◌, ◌-◌, min, String, Bool, true, false, ◌&&◌, ◌||◌, not, Option, none, some, List, [],
  ◌∷◌, str_eq, ◌==◌, leb, if◌then◌else◌, Result, ok, err, ◌>>=◌, ◌>>◌, guard,
}
use go_httpx.Prelude.Json.{Json, Fields, keys, contains}
use go_httpx.Transport.{
  Fault, Go, bad_protocol, protocol_error, service_unavailable, outcome_unknown, Request, target,
  Reply, Exchange, refused, replied, Service, TransportError, connect_error, connect_timeout,
  pool_timeout, other_transport_error,
}
use go_httpx.Transport.Envelope.{decode_json, service_error}

-- What a call is made with: the instance of a managed transport, the deadline in the request's
-- extensions, the clock at the two readings, the ticks of a millisecond, and the target timeout of the
-- payload in milliseconds. `request` is false where the code passes None.
pub record Setting : Type 0 where
  pub instance_id : Option String
  pub request : Bool
  pub timeout_ms : Option ℕ
  pub deadline : Option ℕ
  pub first_reading : ℕ
  pub second_reading : ℕ
  pub ticks : ℕ

-- The limits of the control connection, in milliseconds.
abbrev pub local_control_timeout : ℕ
local_control_timeout = 1000

abbrev pub target_timeout_grace : ℕ
target_timeout_grace = 1000

abbrev pub max_target_timeout : ℕ
max_target_timeout = 600000

abbrev pub target_timeout : Option ℕ → ℕ
target_timeout none = local_control_timeout
target_timeout (some ms) = (if ms == 0 then max_target_timeout else ms) + target_timeout_grace

abbrev or_else : Option ℕ → ℕ → ℕ
or_else none d = d
or_else (some n) d = n

abbrev pub is_managed : Option String → Bool
is_managed none = false
is_managed (some id) = true

-- The timeout of the control request, or `none` where the budget of the request is used up.
unfoldable pub control_timeout : Setting → Option ℕ
control_timeout c =
    let base =
      (if c.request then target_timeout c.timeout_ms else local_control_timeout) * c.ticks in
    if is_managed c.instance_id && c.request
    then (let deadline = or_else c.deadline (c.first_reading + base) in
        if leb deadline c.second_reading
        then none
        else some (min base (deadline - c.second_reading)))
    else some base

-- `path.endswith("/requests")`
abbrev pub is_target : Request → Bool
is_target (target id) = true
is_target _ = false

-- `isinstance(exc, (ConnectError, ConnectTimeout, PoolTimeout))`
abbrev pub is_unsent : TransportError → Bool
is_unsent other_transport_error = false
is_unsent _ = true

abbrev pub same_instance : Option String → Option String → Bool
same_instance none header = true
same_instance (some id) none = false
same_instance (some id) (some h) = str_eq h id

-- `except GoProtocolError`: a target call of a managed transport turns one with no code into an
-- unknown outcome.
abbrev pub guard_outcome : Bool → Fault → Fault
guard_outcome true (protocol_error none request_id) = outcome_unknown
guard_outcome _ fault = fault

abbrev pub map_fault : (Fault → Fault) → Go Fields → Go Fields
map_fault f (ok data_fields) = ok data_fields
map_fault f (err fault) = err (f fault)

-- The body of the second `try`, after `_decode_json`.
unfoldable pub read_fields : Reply → ℕ → Fields → Go Fields
read_fields reply expected_status data_fields =
    if leb 400 reply.status
    then err (service_error data_fields)
    else if not (reply.status == expected_status) || contains "error" (keys data_fields)
    then err bad_protocol
    else ok data_fields

unfoldable pub read_reply : Reply → ℕ → Go Fields
read_reply reply expected_status = do
  data_fields ← decode_json reply
  read_fields reply expected_status data_fields

-- From the answer of the control client on.
unfoldable pub settle : Setting → Request → ℕ → Exchange → Go Fields
settle c req expected_status (refused error) =
    if is_managed c.instance_id && is_target req && not (is_unsent error)
    then err outcome_unknown
    else err service_unavailable
settle c req expected_status (replied reply) =
    if not (same_instance c.instance_id reply.instance_header)
    then err (if is_target req then outcome_unknown else bad_protocol)
    else map_fault (guard_outcome (is_managed c.instance_id && is_target req))
        (read_reply reply expected_status)

-- The call, with the history of what has been sent.
unfoldable pub call : Service → Setting → Request → ℕ → List Request → Go Fields × List Request
unfolding settle
call service c req expected_status log = elim (control_timeout c) [
  | none ↦ (err service_unavailable, log)
  | some limit ↦ (settle c req expected_status (service (req ∷ log)), req ∷ log)
]
