-- ===== src/Runtime/Launch/Handshake.antt =====
-- What a launch leaves behind, and what an instance that it returns has shown.
use go_httpx.Prelude.{
  ℕ, ◌≤◌, ◌≡◌, refl, ◌⊎◌, inl, inr, Bool, true, false, ◌&&◌, not, Option, none, some, List, [], ◌∷◌,
  Result, ok, err, guard, ◌>>◌, arith, Result-cases, Option-cases,
}
use go_httpx.Prelude.Json.{Json, Fields, obj, get, keys, is_subset}
use go_httpx.Runtime.{Instance}
use go_httpx.Runtime.Launch.{
  require, port_of, is_rejection, ready_keys, rejected, bad_fields, bad_identity, LaunchError, Tick,
  Wait, got, gave_up, still_waiting, wait_line, Host, Bootstrap, ProbeAnswer, probe, check_identity,
  check_ready, read_ready, handshake, instance_at, launch, Done, is_int, has_text,
}

-- Some round of the wait is at the deadline or behind it.
abbrev pub Ends : ℕ → List Tick → Type 0
Ends deadline [] = ⊥
Ends deadline (t ∷ ticks) = (deadline ≤ t.now) ⊎ Ends deadline ticks

-- The processes and the reader threads of a launch that has ended.
abbrev pub Accounted : Option (Result LaunchError Instance) → Done → Type 0
Accounted none d = ⊥
Accounted (some (ok i)) d = (d.made ≡ 1) × (d.closed ≡ 0) × (d.started ≡ 2) × (d.joined ≡ 0)
Accounted (some (err e)) d = (d.made ≡ d.closed) × (d.started ≡ d.joined)

-- A message that names the process that was started: its identity, version, pid, address and a port.
pub record Named (boot : Bootstrap) (ready : Fields) (port : ℕ) : Type 0 where
  pub identity : has_text boot.identity (get "instance_id" ready) ≡ true
  pub version : has_text boot.version (get "server_version" ready) ≡ true
  pub pid : is_int boot.pid (get "pid" ready) ≡ true
  pub host : has_text "127.0.0.1" (get "host" ready) ≡ true
  pub port_value : is_int port (get "port" ready) ≡ true
  pub port_low : 1 ≤ port
  pub port_high : port ≤ 65535

-- Three guards on two tests each, and a value.
six_tests :
    (a b c d e f : Bool) (x : LaunchError) (o : Option ℕ) (port : ℕ)
    → (guard (a && b) x >> (guard (c && d) x >> (guard (e && f) x >> require x o))) ≡ ok port
    → (c ≡ true) × (d ≡ true) × (e ≡ true) × (f ≡ true) × (o ≡ some port)
six_tests a b c d e f x o port h = ground arith

port_of-bounds :
    (o : Option Json) (port : ℕ)
    → port_of o ≡ some port
    → (is_int port o ≡ true) × (1 ≤ port) × (port ≤ 65535)
port_of-bounds o port h = ground arith

check_identity-Named :
    (boot : Bootstrap) (ready : Fields) (port : ℕ)
    → check_identity boot ready ≡ ok port
    → Named boot ready port
unfolding check_identity
check_identity-Named boot ready port h =
    let parts =
      six_tests (is_int 1 (get "runtime_protocol_version" ready))
        (is_int 1 (get "protocol_version" ready)) (has_text boot.identity (get "instance_id" ready))
        (has_text boot.version (get "server_version" ready)) (is_int boot.pid (get "pid" ready))
        (has_text "127.0.0.1" (get "host" ready)) bad_identity (port_of (get "port" ready)) port
        h in
    let bounds = port_of-bounds (get "port" ready) port parts.4 in
    record {
      identity = parts.0;
      version = parts.1;
      pid = parts.2;
      host = parts.3;
      port_value = bounds.0;
      port_low = bounds.1;
      port_high = bounds.2;
    }

guards-ok :
    (a b : Bool) (e f : LaunchError) (r : Result LaunchError ℕ) (port : ℕ)
    → (guard a e >> (guard b f >> r)) ≡ ok port
    → r ≡ ok port
guards-ok true true e f r port h = h
guards-ok true false e f r port h = absurd (ground arith)
guards-ok false b e f r port h = absurd (ground arith)

check_ready-Named :
    (boot : Bootstrap) (ready : Fields) (port : ℕ)
    → check_ready boot ready ≡ ok port
    → Named boot ready port
unfolding check_ready
check_ready-Named boot ready port h = check_identity-Named boot ready port (
    guards-ok (not (is_rejection ready))
      (is_subset ready_keys (keys ready) && is_subset (keys ready) ready_keys) rejected bad_fields
      (check_identity boot ready) port h)

read_ready-Named :
    (loads : List ℕ → Option Json) (boot : Bootstrap) (line : List ℕ) (port : ℕ)
    → read_ready loads boot line ≡ ok port
    → (ready : Fields) × (loads line ≡ some (obj ready)) × Named boot ready port
unfolding read_ready
read_ready-Named loads boot line port h = elim (Option-cases (loads line)) [
  | inl e ↦ absurd (ground arith)
  | inr (obj ready, e) ↦ (ready, e, check_ready-Named boot ready port (ground arith))
  | inr (v, e) ↦ absurd (ground arith)
]

-- Where a launch returns an instance, the process has sent a message that names it, its port is from 1
-- to 65535, it has answered the probe and it lives; the instance has the random identity and token and
-- the address with that port.
pub launch-Named :
    (loads : List ℕ → Option Json) (host : Host) (boot : Bootstrap) (deadline : ℕ)
    (ticks : List Tick) (answer : Option ProbeAnswer) (last_raises alive : Bool) (i : Instance)
    → (launch loads host boot deadline ticks answer last_raises alive).result ≡ some (ok i)
    → (line : List ℕ) × (ready : Fields) × (port : ℕ) × (wait_line deadline ticks ≡ got line)
      × (loads line ≡ some (obj ready))
      × Named boot ready port
      × (i ≡ instance_at boot port)
      × (probe boot answer ≡ true)
      × (alive ≡ true)
unfolding launch handshake
launch-Named loads host boot deadline ticks answer last_raises alive i h =
    from_wait (wait_line deadline ticks) refl
  where
    from_wait :
        (w : Wait)
        → wait_line deadline ticks ≡ w
        → (line : List ℕ) × (ready : Fields) × (port : ℕ) × (wait_line deadline ticks ≡ got line)
          × (loads line ≡ some (obj ready))
          × Named boot ready port
          × (i ≡ instance_at boot port)
          × (probe boot answer ≡ true)
          × (alive ≡ true)
    from_wait still_waiting e = absurd (ground arith)
    from_wait (gave_up f) e = absurd (ground arith)
    from_wait (got line) e = elim (Result-cases (read_ready loads boot line)) [
      | inr (f, e1) ↦ absurd (ground arith)
      | inl (port, e1) ↦
          let (ready, decoded, named) = read_ready-Named loads boot line port e1 in
          (line, ready, port, e, decoded, named, ground arith, ground arith, ground arith)
    ]
