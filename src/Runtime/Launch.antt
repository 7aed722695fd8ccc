-- ===== src/Runtime/Launch.antt =====
-- `ManagedRuntime._launch` and `_probe`: the handshake with a new Go process. What the process and the
-- network answer is an argument; the message texts are left out.
pub mod Handshake
use Prim.Native.String
use go_httpx.Prelude.{
  ℕ, zero, suc, ◌+◌, ◌/◌, ◌%◌, ◌≤◌, ◌≡◌, ◌≢◌, ◌⊎◌, inl, inr, String, Bool, true, false, ◌&&◌, ◌||◌,
  not, Option, none, some, List, [], ◌∷◌, length, str_eq, ◌==◌, ltb, leb, if◌then◌else◌, Result, ok,
  err, ◌>>=◌, ◌>>◌, guard, arith,
}
use go_httpx.Prelude.Json.{
  Json, int, bool, float, str, obj, pos, Fields, end, field, get, keys, is_subset, is_text,
}
use go_httpx.Tls.Names.{hex_digit}
use go_httpx.Runtime.{Instance}

-- The exceptions: those of `RuntimeUnavailable` first, then what the calls inside the `try` raise by
-- themselves, then those of `RuntimeConfigurationError`.
pub data LaunchError : Type 0 where
  cancelled exited_early handshake_timeout no_message not_ready : LaunchError
  raised_other : LaunchError
  not_windows no_binary no_process cut_line bad_json rejected bad_fields bad_identity : LaunchError

-- One round of the wait for the first line: whether the runtime is stopped, the line if it has come,
-- whether `poll` raises, whether the process has exited, and the time.
pub record Tick : Type 0 where
  pub stop : Bool
  pub line : Option (List ℕ)
  pub poll_raises : Bool
  pub exited : Bool
  pub now : ℕ

pub data Wait : Type 0 where
  got : List ℕ → Wait
  gave_up : LaunchError → Wait
  still_waiting : Wait

unfoldable pub wait_line : ℕ → List Tick → Wait
wait_line deadline [] = still_waiting
wait_line deadline (t ∷ ticks) =
    let later = wait_line deadline ticks in
    if t.stop then gave_up cancelled else elim t.line [
      | some line ↦ got line
      | none ↦
          if t.poll_raises
          then gave_up raised_other
          else if t.exited
          then gave_up exited_early
          else if leb deadline t.now
          then gave_up handshake_timeout
          else later
    ]

-- `line.endswith(b"\n")`
abbrev pub ends_line : List ℕ → Bool
ends_line [] = false
ends_line (b ∷ []) = b == 10
ends_line (b ∷ c ∷ rest) = ends_line (c ∷ rest)

-- `value == 1` for a value of any type: an int, True and 1.0 are equal to it.
abbrev pub equals_one : Option Json → Bool
equals_one (some (int (pos n))) = n == 1
equals_one (some (bool b)) = b
equals_one (some (float bits)) = bits == 0x3FF0000000000000
equals_one _ = false

abbrev pub is_int : ℕ → Option Json → Bool
is_int n (some (int (pos m))) = m == n
is_int n _ = false

abbrev pub has_text : String → Option Json → Bool
has_text t none = false
has_text t (some v) = is_text t v

abbrev pub port_of : Option Json → Option ℕ
port_of (some (int (pos n))) = if leb 1 n && leb n 65535 then some n else none
port_of _ = none

-- `ready == {"runtime_protocol_version": 1, "error": "BOOTSTRAP_REJECTED"}`
abbrev pub is_rejection : Fields → Bool
is_rejection ready =
    is_subset ("runtime_protocol_version" ∷ "error" ∷ []) (keys ready)
    && is_subset (keys ready) ("runtime_protocol_version" ∷ "error" ∷ [])
    && equals_one (get "runtime_protocol_version" ready)
    && has_text "BOOTSTRAP_REJECTED" (get "error" ready)

abbrev pub ready_keys : List String
ready_keys =
    "runtime_protocol_version" ∷ "instance_id" ∷ "server_version" ∷ "protocol_version" ∷ "pid"
    ∷ "host" ∷ "port" ∷ []

-- `str(n)`, for a number of at most `fuel` digits
unfoldable pub decimal : ℕ → ℕ → String
unfolding hex_digit
decimal zero n = ""
decimal (suc fuel) n =
    let more = decimal fuel (n / 10) in
    let digit = String.◌∷◌ (hex_digit (n % 10)) String.[] in
    if ltb n 10 then digit else String.◌++◌ more digit

-- What the process has been given and what it is: the random identity and token, the version of the
-- SDK, the pid.
pub record Bootstrap : Type 0 where
  pub object : ℕ
  pub identity : String
  pub token : String
  pub version : String
  pub pid : ℕ

-- What `_probe` meets: the status, the instance header and what `response.json()` makes of the body;
-- `none` where the request raises an HTTPError.
pub record ProbeAnswer : Type 0 where
  pub status : ℕ
  pub instance_header : Option String
  pub decoded : Option Json

abbrev pub header_is : String → Option String → Bool
header_is id none = false
header_is id (some h) = str_eq h id

unfoldable pub probe : Bootstrap → Option ProbeAnswer → Bool
probe boot none = false
probe boot (some a) = elim a.decoded [
  | some (obj fs) ↦
      a.status == 200
      && header_is boot.identity a.instance_header
      && has_text boot.version (get "server_version" fs)
      && is_int 1 (get "protocol_version" fs)
  | _ ↦ false
]

abbrev pub require {ℓ} : {A : Type ℓ} → LaunchError → Option A → Result LaunchError A
require e none = err e
require e (some a) = ok a

abbrev as_object : Json → Result LaunchError Fields
as_object (obj fs) = ok fs
as_object _ = err bad_fields

-- The last condition of the checks, part by part; the port.
unfoldable pub check_identity : Bootstrap → Fields → Result LaunchError ℕ
check_identity boot ready = do
  guard (is_int 1 (get "runtime_protocol_version" ready) && is_int 1 (get "protocol_version" ready))
      bad_identity
  guard
      (has_text boot.identity (get "instance_id" ready)
        && has_text boot.version (get "server_version" ready))
      bad_identity
  guard (is_int boot.pid (get "pid" ready) && has_text "127.0.0.1" (get "host" ready)) bad_identity
  require bad_identity (port_of (get "port" ready))

-- The checks on the object of the message.
unfoldable pub check_ready : Bootstrap → Fields → Result LaunchError ℕ
check_ready boot ready =
    guard (not (is_rejection ready)) rejected
    >> (guard (is_subset ready_keys (keys ready) && is_subset (keys ready) ready_keys) bad_fields
        >> check_identity boot ready)

abbrev pub instance_at : Bootstrap → ℕ → Instance
instance_at boot port = record {
  object = boot.object;
  instance_id = boot.identity;
  endpoint = String.◌++◌ "http://127.0.0.1:" (decimal 5 port);
  token = boot.token;
}

-- `loads` stands for the decoding of the line and `json.loads` with `_strict_object`, `none` where they
-- raise.
module _ (loads : List ℕ → Option Json) where
  unfoldable pub read_ready : Bootstrap → List ℕ → Result LaunchError ℕ
  unfolding check_ready
  read_ready boot line = do
    guard (ltb 0 (length line)) no_message
    guard (ends_line line && leb (length line) 4096) cut_line
    value ← require bad_json (loads line)
    ready ← as_object value
    check_ready boot ready

  -- From the wait on. `alive` is whether the process still lives after the probe, and `last_raises`
  -- whether the probe, or the `poll` after it, raises what is not caught.
  unfoldable pub handshake :
      Bootstrap → Option ProbeAnswer → Bool → Bool → Wait → Option (Result LaunchError Instance)
  unfolding read_ready
  handshake boot answer last_raises alive still_waiting = none
  handshake boot answer last_raises alive (gave_up e) = some (err e)
  handshake boot answer last_raises alive (got line) = some (do
    port ← read_ready boot line
    guard (not last_raises) raised_other
    guard (probe boot answer && alive) not_ready
    ok (instance_at boot port))

-- What stands before the handshake: the platform, the file, whether a process can be made, whether each
-- reader thread starts, and whether the bootstrap message is written.
pub record Host : Type 0 where
  pub is_windows : Bool
  pub has_binary : Bool
  pub makes_process : Bool
  pub starts_stdout : Bool
  pub starts_stderr : Bool
  pub writes_bootstrap : Bool

-- What a launch has done: the processes that it made and closed, and the reader threads that it started
-- and joined.
pub record Done : Type 0 where
  pub made : ℕ
  pub closed : ℕ
  pub started : ℕ
  pub joined : ℕ

pub record Launched : Type 0 where
  pub result : Option (Result LaunchError Instance)
  pub done : Done

abbrev pub failed_before : LaunchError → Launched
failed_before e = record {
  result = some (err e);
  done = record { made = 0; closed = 0; started = 0; joined = 0 };
}

-- The handler closes the process and joins the readers that have been started.
abbrev pub clean_up : Launched → Launched
clean_up l = elim l.result [
  | none ↦ l
  | some (ok i) ↦ l
  | some (err e) ↦ record l {
    done = record l.done { closed = suc l.done.closed; joined = l.done.joined + l.done.started };
  }
]

abbrev pub with_readers : ℕ → Option (Result LaunchError Instance) → Launched
with_readers n r = record {
  result = r;
  done = record { made = 1; closed = 0; started = n; joined = 0 };
}

-- The body of the `try`: the readers are started, the message is written, and the handshake follows.
abbrev pub try_body : Host → Option (Result LaunchError Instance) → Launched
try_body host shaken =
    if not host.starts_stdout
    then with_readers 0 (some (err raised_other))
    else if not host.starts_stderr
    then with_readers 1 (some (err raised_other))
    else if not host.writes_bootstrap
    then with_readers 2 (some (err raised_other))
    else with_readers 2 shaken

unfoldable pub launch :
    (List ℕ → Option Json)
    → Host
    → Bootstrap
    → ℕ
    → List Tick
    → Option ProbeAnswer
    → Bool
    → Bool
    → Launched
unfolding handshake wait_line
launch loads host boot deadline ticks answer last_raises alive =
    if not host.is_windows
    then failed_before not_windows
    else if not host.has_binary
    then failed_before no_binary
    else if not host.makes_process
    then failed_before no_process
    else clean_up
        (try_body host (handshake loads boot answer last_raises alive (wait_line deadline ticks)))
