-- ===== src/Transport/Call/Safety.antt =====
-- What an exception of `_call` says of the request: which exceptions mean that the service cannot
-- have acted on it.
use go_httpx.Prelude.{
  ℕ, zero, suc, ◌+◌, ◌*◌, ◌≤◌, ◌≡◌, refl, ◌⊎◌, inl, inr, String, Bool, true, Option, some, List,
  ◌∷◌, arith, err, if◌then◌else◌, Result-cases, Option-cases, ◌&&◌,
}
use go_httpx.Prelude.Json.{Fields, end, field, obj}
use go_httpx.Transport.{
  Fault, Go, bad_protocol, protocol_error, service_unavailable, upstream, Request, target, Reply,
  Exchange, refused, replied, Service, TransportError,
}
use go_httpx.Transport.Envelope.{decode_json, service_error, exception_type}
use go_httpx.Transport.Call.{
  Setting, target_timeout, local_control_timeout, control_timeout, is_managed, is_unsent,
  same_instance, guard_outcome, read_reply, read_fields, map_fault, settle, call,
}

-- The exceptions that a reply, complete and from the right instance, can lead to.
abbrev FromReply : Fault → Type 0
FromReply (protocol_error code request_id) = Unit {0}
FromReply (upstream kind code request_id) = Unit {0}
FromReply _ = ⊥

service_error-FromReply : (data_fields : Fields) → FromReply (service_error data_fields)
unfolding service_error exception_type
service_error-FromReply end = tt
service_error-FromReply (field k (obj error) end) = ground arith
service_error-FromReply (field k v fs) = ground arith

decode_json-fault :
    (reply : Reply) (fault : Fault) → decode_json reply ≡ err fault → fault ≡ bad_protocol
unfolding decode_json
decode_json-fault reply fault h = ground arith

read_fields-FromReply :
    (reply : Reply) (n : ℕ) (data_fields : Fields) (fault : Fault)
    → read_fields reply n data_fields ≡ err fault
    → FromReply fault
unfolding read_fields
read_fields-FromReply reply n data_fields fault h =
    ground (arith, service_error-FromReply data_fields)

read_reply-FromReply :
    (reply : Reply) (n : ℕ) (fault : Fault) → read_reply reply n ≡ err fault → FromReply fault
unfolding read_reply
read_reply-FromReply reply n fault h = elim (Result-cases (decode_json reply)) [
  | inl (data_fields, e) ↦ read_fields-FromReply reply n data_fields fault (rw e at h)
  | inr (f, e) ↦ ground (arith, decode_json-fault reply f e)
]

-- The service cannot have acted on the request: the connection was never made, or the right instance
-- has answered, completely, with a coded error.
pub data Unprocessed (instance_id : Option String) : Exchange → Type 0 where
  unsent :
      (error : TransportError) → is_unsent error ≡ true → Unprocessed instance_id (refused error)
  coded :
      (reply : Reply) (code : String) (request_id : Option String)
      → same_instance instance_id reply.instance_header ≡ true
      → 400 ≤ reply.status
      → read_reply reply 200 ≡ err (protocol_error (some code) request_id)
      → Unprocessed instance_id (replied reply)

-- The exceptions after which a managed transport may send a request again.
pub data Retryable : Fault → Type 0 where
  unavailable : Retryable service_unavailable
  has_code :
      (code : String) (request_id : Option String)
      → Retryable (protocol_error (some code) request_id)

read_fields-coded :
    (reply : Reply) (n : ℕ) (data_fields : Fields) (code : String) (request_id : Option String)
    → read_fields reply n data_fields ≡ err (protocol_error (some code) request_id)
    → 400 ≤ reply.status
unfolding read_fields
read_fields-coded reply n data_fields code request_id h = ground arith

read_reply-coded :
    (reply : Reply) (n : ℕ) (code : String) (request_id : Option String)
    → read_reply reply n ≡ err (protocol_error (some code) request_id)
    → 400 ≤ reply.status
unfolding read_reply
read_reply-coded reply n code request_id h = elim (Result-cases (decode_json reply)) [
  | inl (data_fields, e) ↦ read_fields-coded reply n data_fields code request_id (rw e at h)
  | inr (f, e) ↦ absurd (ground (arith, decode_json-fault reply f e))
]

-- The handler changes no exception that has a code.
map_fault-coded :
    (managed : Bool) (r : Go Fields) (code : String) (request_id : Option String)
    → map_fault (guard_outcome managed) r ≡ err (protocol_error (some code) request_id)
    → r ≡ err (protocol_error (some code) request_id)
map_fault-coded managed r code request_id h = ground arith

settle-unavailable :
    (c : Setting) (id : String) (x : Exchange)
    → is_managed c.instance_id ≡ true
    → settle c (target id) 200 x ≡ err service_unavailable
    → Unprocessed c.instance_id x
unfolding settle
settle-unavailable c id (refused error) m h = unsent error (ground arith)
settle-unavailable c id (replied reply) m h =
    absurd (ground (arith, read_reply-FromReply reply 200 service_unavailable))

settle-coded :
    (c : Setting) (id : String) (x : Exchange) (code : String) (request_id : Option String)
    → is_managed c.instance_id ≡ true
    → settle c (target id) 200 x ≡ err (protocol_error (some code) request_id)
    → Unprocessed c.instance_id x
unfolding settle
settle-coded c id (refused error) code request_id m h = absurd (ground arith)
settle-coded c id (replied reply) code request_id m h =
    let read : read_reply reply 200 ≡ err (protocol_error (some code) request_id) = ground (
      arith,
      map_fault-coded (is_managed c.instance_id && true) (read_reply reply 200) code request_id,
    ) in
    coded reply code request_id (ground arith) (read_reply-coded reply 200 code request_id read)
      read

-- A target call that fails with a retryable exception was not sent, or was not acted on.
pub call-Retryable :
    (service : Service) (c : Setting) (id : String) (log : List Request) (fault : Fault)
    → is_managed c.instance_id ≡ true
    → Retryable fault
    → (call service c (target id) 200 log).0 ≡ err fault
    → ((call service c (target id) 200 log).1 ≡ log)
      ⊎ (((call service c (target id) 200 log).1 ≡ target id ∷ log)
          × Unprocessed c.instance_id (service (target id ∷ log)))
unfolding call
call-Retryable service c id log fault m r h = elim (Option-cases (control_timeout c)) [
  | inl e ↦ inl (rw (e, call) refl)
  | inr (limit, e) ↦ inr (rw (e, call) refl, settled fault r (rw (e, call) at h))
]
  where
    settled :
        (f : Fault)
        → Retryable f
        → settle c (target id) 200 (service (target id ∷ log)) ≡ err f
        → Unprocessed c.instance_id (service (target id ∷ log))
    settled _ unavailable q = settle-unavailable c id (service (target id ∷ log)) m q
    settled _ (has_code code request_id) q =
        settle-coded c id (service (target id ∷ log)) code request_id m q

-- A number of milliseconds in ticks.
scaled_le : (m n t : ℕ) → m ≤ n → m * t ≤ n * t
scaled_le m n zero h = omega arith
scaled_le m n (suc t) h = omega (arith, scaled_le m n t h)

scaled : (t : ℕ) → 1 ≤ t → (m : ℕ) → (m ≤ 601000 → m * t ≤ 601000 * t) × (1 ≤ m → 1 ≤ m * t)
scaled t h m = (λ k. scaled_le m 601000 t k, λ k. omega (arith, scaled_le 1 m t k))

-- Where a managed target call has a deadline and a target timeout of at most 600 seconds and is made,
-- its control timeout is more than nothing, ends no later than the deadline, and is at most 601 seconds,
-- whatever the resolution of the clock.
pub control_timeout_bounds :
    (c : Setting) (limit deadline ms : ℕ)
    → is_managed c.instance_id ≡ true
    → c.request ≡ true
    → c.deadline ≡ some deadline
    → c.timeout_ms ≡ some ms
    → ms ≤ 600000
    → control_timeout c ≡ some limit
    → 1 ≤ c.ticks
    → (1 ≤ limit) × (c.second_reading + limit ≤ deadline) × (limit ≤ 601000 * c.ticks)
unfolding control_timeout
control_timeout_bounds c limit deadline ms m q d t small h some_ticks =
    let base = if c.request then target_timeout c.timeout_ms else local_control_timeout in
    let low : 1 ≤ base = ground arith in
    let high : base ≤ 601000 = ground arith in
    let (top, bottom) = scaled c.ticks some_ticks base in ground (arith, top high, bottom low)
