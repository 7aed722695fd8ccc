-- ===== src/Checks/Transport.antt =====
-- Calls of a managed transport: one that cannot connect, one that the service refuses with a code.
use go_httpx.Prelude.{
  Raises, ◌+◌, ◌*◌, ◌^◌, ◌≤◌, ◌≡◌, refl, ◌⊎◌, String, true, false, none, some, List, [], ◌∷◌, ok,
  err, arith,
}
use go_httpx.Prelude.Json.{Json, null, bool, int, str, arr, obj, pos, nil, cons, end, field, Fields}
use go_httpx.Transport.{
  outcome_unknown, target, Reply, refused, replied, Service, connect_error, service_unavailable,
  protocol_error, overflow,
}
use go_httpx.Transport.Envelope.{
  decode_json, service_error, error_fault, exception_type, scan_null, values_in,
}
use go_httpx.Transport.Envelope.Scan.{has_null, scan_null_lem}
use go_httpx.Transport.Call.{Setting, call, settle, read_reply, read_fields, control_timeout}
use go_httpx.Transport.Call.Safety.{
  Unprocessed, unavailable, call-Retryable, control_timeout_bounds,
}
use go_httpx.Transport.Response.{
  response, HttpResponse, check_scalars, measure, version_bytes, header_pairs, header_pair,
  is_token_byte, is_control_byte, reason_bytes, check_trace, check_dump,
}
use go_httpx.Transport.Response.Valid.{ValidResponse, response-ValidResponse}
use go_httpx.Transport.Handle.Rebuild.{Counted, Reach, here, next, enters, ends_badly, creations-le}
use go_httpx.Transport.Response.Faults.{Blamed, response-Blamed}
use go_httpx.Transport.Handle.{
  Transport, World, Clock, Around, handle_request, attempt, post, answer, enter, build,
  rebuild_failed,
}
use go_httpx.Transport.Handle.Safety.{SentOnce, handle_request-SentOnce}

abbrev unreachable : Service
unreachable log = refused connect_error

-- The answer with status 404 and the code CLIENT_NOT_FOUND, from the instance "a1".
abbrev not_found_reply : Reply
not_found_reply = record {
  status = 404;
  instance_header = some "a1";
  media_type = "application/json";
  decoded = some (
      obj (
        field "error"
          (obj (
            field "code" (str "CLIENT_NOT_FOUND") (
              field "message" (str "gone")
                (field "retryable" (bool true) (field "request_id" (str "r1") end)))))
          end));
}

abbrev pub forgetful : Service
forgetful log = replied not_found_reply

abbrev setting_a1 : Setting
setting_a1 = record {
  instance_id = some "a1";
  request = true;
  timeout_ms = some 5000;
  deadline = some 20000;
  first_reading = 10000;
  second_reading = 10001;
  ticks = 1;
}

call_refused : (call unreachable setting_a1 (target "c1") 200 []).0 ≡ err service_unavailable
unfolding call settle control_timeout
call_refused = refl

call-Retryable_example :
    ((call unreachable setting_a1 (target "c1") 200 []).1 ≡ [])
    ⊎ (((call unreachable setting_a1 (target "c1") 200 []).1 ≡ target "c1" ∷ [])
        × Unprocessed (some "a1") (unreachable (target "c1" ∷ [])))
call-Retryable_example =
    call-Retryable unreachable setting_a1 "c1" [] service_unavailable refl unavailable call_refused

control_timeout_run : control_timeout setting_a1 ≡ some 6000
unfolding control_timeout
control_timeout_run = refl

control_timeout_bounds_example : (1 ≤ 6000) × (10001 + 6000 ≤ 20000) × (6000 ≤ 601000 * 1)
control_timeout_bounds_example =
    control_timeout_bounds setting_a1 6000 20000 5000 refl refl refl refl (omega arith)
      control_timeout_run (omega arith)

-- No text is base64 and no text a timestamp in these runs.
abbrev pub world : Service → World
world service = record {
  service = service;
  instance_id = some "a1";
  is_timestamp = λ s. false;
  b64decode = λ s. none;
}

abbrev pub clock : Clock
clock = record { deadline = some 20000; first_reading = 10000; second_reading = 10001; ticks = 1 }

abbrev pub around : Around
around = record { wakes = []; while_building = λ t. t }

abbrev pub transport : Transport
transport = record {
  client_id = some "c1";
  generation = 0;
  rebuilding = false;
  failed_generation = none;
  rebuild_error = none;
  active = 0;
  closing = false;
  closed = false;
  log = [];
}

pub not_found_run :
    (handle_request (world forgetful) clock around (ok 5000) transport).0
    ≡ some (err (protocol_error (some "CLIENT_NOT_FOUND") (some "r1")))
unfolding handle_request attempt post answer call settle control_timeout read_reply read_fields
    decode_json scan_null values_in service_error error_fault exception_type
not_found_run = refl

handle_request-SentOnce_example :
    SentOnce
      (world forgetful)
      "c1"
      []
      (protocol_error (some "CLIENT_NOT_FOUND") (some "r1"))
      (handle_request (world forgetful) clock around (ok 5000) transport).1.log
handle_request-SentOnce_example =
    handle_request-SentOnce (world forgetful) clock around (ok 5000) transport
      (protocol_error (some "CLIENT_NOT_FOUND") (some "r1")) refl not_found_run

abbrev nested : Json
nested = obj (field "a" (arr (cons (int (pos 1)) (cons null nil))) end)

scan_null_lem_example : scan_null (values_in nested) (nested ∷ []) ≡ some (has_null nested)
scan_null_lem_example = scan_null_lem nested

abbrev repeated : List (String × Json)
repeated = ("a", null) ∷ ("b", null) ∷ ("a", null) ∷ []

-- An answer that is right but for an elapsed time of 2 ^ 1024 milliseconds.
abbrev huge : Fields
huge = field "protocol_version" (int (pos 1)) (
    field "request_id" (str "r1") (
      field "status_code" (int (pos 200)) (
        field "reason_phrase" (str "OK") (
          field "headers" (arr nil) (
            field "body_base64" (str "") (
              field "url" (str "https://a") (
                field "http_version" (str "HTTP/1.1")
                  (field "elapsed_ms" (int (pos (2 ^ 1024))) end))))))))

overflow_run : response (λ s. some []) huge ≡ err overflow
unfolding response check_scalars measure version_bytes
overflow_run = refl

response-Blamed_example : Raises (Blamed huge) (response (λ s. some []) huge)
response-Blamed_example = response-Blamed (λ s. some []) huge

-- An answer with one header, and the response that it becomes.
abbrev fine : Fields
fine = field "protocol_version" (int (pos 1)) (
    field "request_id" (str "r1") (
      field "status_code" (int (pos 204)) (
        field "reason_phrase" (str "OK") (
          field "headers" (arr (cons (arr (cons (str "a") (cons (str "b") nil))) nil)) (
            field "body_base64" (str "") (
              field "url" (str "https://a")
                (field "http_version" (str "HTTP/2.0") (field "elapsed_ms" (int (pos 5)) end))))))))

abbrev fine_response : HttpResponse
fine_response = record {
  status = 204;
  headers = (b'a' ∷ [], b'b' ∷ []) ∷ [];
  body = [];
  http_version = "HTTP/2";
  reason_phrase = b'O' ∷ b'K' ∷ [];
  go_trace = none;
  go_dump = none;
}

fine_run : response (λ s. some []) fine ≡ ok fine_response
unfolding response check_scalars measure version_bytes header_pairs header_pair is_token_byte
    is_control_byte reason_bytes check_trace check_dump
fine_run = refl

response-ValidResponse_example : ValidResponse fine_response
response-ValidResponse_example = response-ValidResponse (λ s. some []) fine fine_response fine_run

-- A session is found lost; its replacement fails.
abbrev failed_state : Counted
failed_state = record {
  transport = rebuild_failed 0 (some outcome_unknown) (record transport { rebuilding = true });
  creations = 1;
  interrupted = 0;
}

may_build : enter 0 transport ≡ build
unfolding enter
may_build = refl

failed_is_reached : Reach transport failed_state
failed_is_reached =
    next
      (next here
        (enters (record { transport = transport; creations = 0; interrupted = 0 }) 0 may_build))
      (ends_badly _ (some outcome_unknown) refl)

creations-le_example : failed_state.creations ≤ failed_state.interrupted + 1
creations-le_example = creations-le refl failed_is_reached
