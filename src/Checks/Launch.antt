-- ===== src/Checks/Launch.antt =====
-- A launch whose process answers as it should.
use go_httpx.Prelude.{ℕ, ◌≡◌, refl, true, false, Option, none, some, List, [], ◌∷◌, ok}
use go_httpx.Prelude.Json.{Json, int, str, obj, pos, end, field, Fields}
use go_httpx.Runtime.{Instance}
use go_httpx.Runtime.Launch.{
  Tick, got, wait_line, Host, Bootstrap, ProbeAnswer, probe, check_identity, check_ready,
  read_ready, handshake, instance_at, launch, decimal,
}
use go_httpx.Runtime.Launch.Handshake.{Named, launch-Named}

abbrev boot : Bootstrap
boot = record { object = 1; identity = "a1"; token = "t"; version = "2.1.2"; pid = 99 }

abbrev host : Host
host = record {
  is_windows = true;
  has_binary = true;
  makes_process = true;
  starts_stdout = true;
  starts_stderr = true;
  writes_bootstrap = true;
}

-- The line is the byte of a brace and the end of the line; what it decodes to is given.
abbrev line : List ℕ
line = 123 ∷ 10 ∷ []

abbrev message : Fields
message = field "runtime_protocol_version" (int (pos 1)) (
    field "instance_id" (str "a1") (
      field "server_version" (str "2.1.2") (
        field "protocol_version" (int (pos 1)) (
          field "pid" (int (pos 99))
            (field "host" (str "127.0.0.1") (field "port" (int (pos 4000)) end))))))

abbrev loads : List ℕ → Option Json
loads bytes = some (obj message)

abbrev ticks : List Tick
ticks =
    record { stop = false; line = none; poll_raises = false; exited = false; now = 10 }
    ∷ record { stop = false; line = some line; poll_raises = false; exited = false; now = 60 }
    ∷ []

abbrev late_ticks : List Tick
late_ticks =
    record { stop = false; line = none; poll_raises = false; exited = false; now = 5000 } ∷ []

abbrev answer : Option ProbeAnswer
answer = some (record {
  status = 200;
  instance_header = some "a1";
  decoded =
      some
        (obj (field "server_version" (str "2.1.2") (field "protocol_version" (int (pos 1)) end)));
})

abbrev launched : Instance
launched = record {
  object = 1;
  instance_id = "a1";
  endpoint = "http://127.0.0.1:4000";
  token = "t";
}

launch_run : (launch loads host boot 1000 ticks answer false true).result ≡ some (ok launched)
unfolding launch handshake wait_line read_ready check_ready check_identity probe decimal
launch_run = refl

launch-Named_example :
    (bytes : List ℕ) × (ready : Fields) × (port : ℕ) × (wait_line 1000 ticks ≡ got bytes)
    × (loads bytes ≡ some (obj ready))
    × Named boot ready port
    × (launched ≡ instance_at boot port)
    × (probe boot answer ≡ true)
    × (true ≡ true)
launch-Named_example = launch-Named loads host boot 1000 ticks answer false true launched launch_run
