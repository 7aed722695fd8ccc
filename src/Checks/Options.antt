-- ===== src/Checks/Options.antt =====
-- Options of requests and arguments of clients.
use go_httpx.Prelude.{
  arith, inl, inr, ℕ, Option, ltb, if◌then◌else◌, ◌≤◌, min, true, false, some, List, [], ◌∷◌, ◌≡◌,
  refl, Result, ok, err, Ensures,
}
use go_httpx.Prelude.Json.{Json, pos, object, strings, array, fields}
use go_httpx.Tls.Spec.{SpecInput, normalize_tls_spec, scan_depth, weight}
use go_httpx.Options.{
  Value, nothing, flag, whole, text, member, instance_of, sequence, no_more, item, done, attribute,
  wire,
}
use go_httpx.Options.Plain.{IsPlain, wire_lem}
use go_httpx.Options.Request.{
  RequestOptions, options, given, request_options, Limit, unlimited, limit, timeouts, timeout_ms,
  value_error,
}
use go_httpx.Options.Request.Sent.{Sendable, request_options_lem}
use go_httpx.Options.Request.Limits.{IsLimit, Rises, Sent, timeout_ms_bounds}
use go_httpx.Options.Client.{ClientOptions}
use go_httpx.Options.Resolve.{
  ArgumentError, Arguments, no_options, verify_flag, cert_file, proxy_text, resolve_client_options,
  wrong_value,
}
use go_httpx.Options.Resolve.Exclusive.{Sends, resolve_client_options-Sends}

abbrev traced : RequestOptions
traced = record {
  header_order = sequence (item (text "host") no_more);
  pseudo_header_order = sequence no_more;
  force_chunked = flag false;
  close_connection = flag false;
  trace = flag true;
  dump = flag false;
  retry_count = nothing;
}

-- A retry count that is None is not sent.
traced_sent :
    request_options (options traced)
    ≡ ok (
        attribute "header_order" (sequence (item (text "host") no_more)) (
          attribute "pseudo_header_order" (sequence no_more) (
            attribute "force_chunked" (flag false) (
              attribute "close_connection"
                (flag false)
                (attribute "trace" (flag true) (attribute "dump" (flag false) done))))))
unfolding request_options
traced_sent = refl

retry_refused :
    request_options (given (attribute "retry_count" (whole (pos 11)) done)) ≡ err value_error
unfolding request_options
retry_refused = refl

small_options-Sendable : Sendable (attribute "retry_count" (whole (pos 10)) done)
small_options-Sendable = record {
  known_names = refl;
  header_order_text = refl;
  pseudo_order_text = refl;
  chunked_flag = refl;
  close_flag = refl;
  trace_flag = refl;
  dump_flag = refl;
  retry_small = refl;
}

request_options_lem_example :
    let r = attribute "retry_count" (whole (pos 10)) done in
    Ensures Sendable (request_options (options traced)) × (request_options (given r) ≡ ok r)
request_options_lem_example =
    request_options_lem (options traced) (attribute "retry_count" (whole (pos 10)) done)
      small_options-Sendable

wire_lem_example :
    let v = instance_of (attribute "mode" (member "none") (attribute "url" nothing done)) in
    IsPlain (wire v) × (wire (wire v) ≡ wire v)
wire_lem_example =
    wire_lem (instance_of (attribute "mode" (member "none") (attribute "url" nothing done)))

-- The float of a quarter of a second, and no limit.
abbrev quarter : ℕ
quarter = 0x3FD0000000000000

abbrev short_limits : List Limit
short_limits = unlimited ∷ limit quarter ∷ []

-- The milliseconds of the floats in these runs.
abbrev ceil_ms : ℕ → Option ℕ
ceil_ms bits = some (if ltb bits quarter then 0 else 250)

ceil_ms-Rises : Rises ceil_ms
ceil_ms-Rises a b n h e = (if ltb a quarter then 0 else 250, refl, ground arith)

-- No time at all is sent as 0, as no limit is.
no_time :
    timeout_ms ceil_ms (timeouts (limit 0 ∷ [])) ≡ timeout_ms ceil_ms (timeouts (unlimited ∷ []))
unfolding timeout_ms
no_time = refl

quarter-IsLimit : IsLimit quarter short_limits
unfolding IsLimit
quarter-IsLimit = inr (inl refl)

timeout_ms_bounds_example :
    (250 ≤ 600000)
    × Sent ceil_ms ceil_ms-Rises short_limits 250
    × ((m : ℕ) × (ceil_ms quarter ≡ some m) × (min 600000 m ≤ 250))
unfolding timeout_ms
timeout_ms_bounds_example =
    timeout_ms_bounds ceil_ms ceil_ms-Rises short_limits 250 quarter refl quarter-IsLimit

abbrev spec : Json
spec = object (
    ("cipher_suites", strings ("TLS_AES_128_GCM_SHA256" ∷ []))
    ∷ ("compression_methods", strings [])
    ∷ ("extensions", array [])
    ∷ [])

abbrev http2_only : Arguments
http2_only = record {
  client_options = no_options;
  tls_fingerprint = nothing;
  tls_spec = some (
      SpecInput.mapping (
        fields (
          ("cipher_suites", strings ("TLS_AES_128_GCM_SHA256" ∷ []))
          ∷ ("compression_methods", strings [])
          ∷ ("extensions", array [])
          ∷ [])));
  impersonate = nothing;
  verify = verify_flag false;
  cert = cert_file (some "PEM");
  proxy = proxy_text "http://127.0.0.1:3128";
  http1 = flag false;
  http2 = flag true;
}

abbrev doubled : Arguments
doubled = record http2_only { tls_fingerprint = text "chrome_auto" }

version_in : Result ArgumentError ClientOptions → Value
version_in (ok o) = o.http_version
version_in (err e) = nothing

http2_only_accepted : version_in (resolve_client_options (λ v. 90) http2_only) ≡ text "http2"
unfolding resolve_client_options version_in normalize_tls_spec scan_depth weight
http2_only_accepted = refl

doubled_refused : resolve_client_options (λ v. 90) doubled ≡ err wrong_value
unfolding resolve_client_options
doubled_refused = refl

resolve_client_options-Sends_example :
    Ensures (Sends (λ v. 90)) (resolve_client_options (λ v. 90) http2_only)
resolve_client_options-Sends_example = resolve_client_options-Sends (λ v. 90) http2_only
