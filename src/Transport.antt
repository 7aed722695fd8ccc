-- ===== src/Transport.antt =====
-- python/gohttpx.py: the control protocol between the Python client and the Go service, as
-- `_GoTransport` and `_AsyncGoTransport` speak it. The service and the network between are a
-- function of everything that has been sent so far.
pub mod Envelope
pub mod Call
pub mod Session
pub mod Response
pub mod Handle
pub mod Async
use go_httpx.Prelude.{ℕ, String, Bool, true, false, Option, none, some, List, Result}
use go_httpx.Prelude.Json.{Json, Fields}

-- `httpx.TransportError` as `_call` tells its subclasses apart; `other_transport_error` are the
-- reading and writing errors and timeouts of a connection that was there.
pub data TransportError : Type 0 where
  connect_error connect_timeout pool_timeout other_transport_error : TransportError

-- The exceptions of the package, and those of httpx that `_raise_service_error` raises. `failure` is
-- any other `Exception`, of which `overflow` is the OverflowError of a number too large for a float.
pub data Upstream : Type 0 where
  timeout connect remote_protocol : Upstream

pub data Fault : Type 0 where
  service_unavailable : Fault
  outcome_unknown : Fault
  protocol_error : Option String → Option String → Fault
  upstream : Upstream → String → Option String → Fault
  overflow : Fault
  failure : Fault

abbrev pub Go : Type 0 → Type 0
Go A = Result Fault A

-- A raised `GoProtocolError` that carries no code.
abbrev pub bad_protocol : Fault
bad_protocol = protocol_error none none

-- The calls of the control protocol.
pub data Request : Type 0 where
  capabilities : Request
  create_client : Request
  target : String → Request
  delete_client : String → Request

-- A response: its status, its instance header, its media type, and what `json.loads` makes of the
-- body (`none` where it raises).
pub record Reply : Type 0 where
  pub status : ℕ
  pub instance_header : Option String
  pub media_type : String
  pub decoded : Option Json

pub data Exchange : Type 0 where
  refused : TransportError → Exchange
  replied : Reply → Exchange

-- What the other side does with the newest request of a history, the newest first.
abbrev pub Service : Type 0
Service = List Request → Exchange
