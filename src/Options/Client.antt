-- ===== src/Options/Client.antt =====
-- The options of a client in python/gohttpx.py, and `_client_payload`, which makes the message of them
-- that creates a session. `encoded_length` is that of `_normalize_tls_spec`.
pub mod Sent
use go_httpx.Prelude.{
  ℕ, String, Bool, true, false, ◌&&◌, ◌||◌, not, Option, none, some, ◌==◌, if◌then◌else◌, str_eq,
  Result, ok, err, ◌>>=◌,
}
use go_httpx.Prelude.Json.{
  ℤ, pos, Json, null, bool, int, float, str, arr, obj, Items, nil, cons, Fields, end, field,
}
use go_httpx.Tls.Spec.{SpecInput, Spec, normalize_tls_spec}
use go_httpx.Transport.Session.{version}
use go_httpx.Options.{
  Value, nothing, flag, whole, real, text, member, instance_of, mapping, sequence, opaque, Values,
  no_more, item, Attributes, done, attribute, wire, wire_fields, find,
}

pub record TransportOptions : Type 0 where
  pub tls_handshake_timeout_ms : Value
  pub response_header_timeout_ms : Value
  pub expect_continue_timeout_ms : Value
  pub idle_conn_timeout_ms : Value
  pub max_idle_conns : Value
  pub max_idle_conns_per_host : Value
  pub max_conns_per_host : Value
  pub max_response_header_bytes : Value
  pub read_buffer_size : Value
  pub write_buffer_size : Value
  pub proxy_connect_headers : Value

abbrev pub transport_attributes : TransportOptions → Attributes
transport_attributes o = attribute "tls_handshake_timeout_ms" o.tls_handshake_timeout_ms (
    attribute "response_header_timeout_ms" o.response_header_timeout_ms (
      attribute "expect_continue_timeout_ms" o.expect_continue_timeout_ms (
        attribute "idle_conn_timeout_ms" o.idle_conn_timeout_ms (
          attribute "max_idle_conns" o.max_idle_conns (
            attribute "max_idle_conns_per_host" o.max_idle_conns_per_host (
              attribute "max_conns_per_host" o.max_conns_per_host (
                attribute "max_response_header_bytes" o.max_response_header_bytes (
                  attribute "read_buffer_size" o.read_buffer_size (
                    attribute "write_buffer_size" o.write_buffer_size
                      (attribute "proxy_connect_headers" o.proxy_connect_headers done))))))))))

abbrev pub default_transport : TransportOptions
default_transport = record {
  tls_handshake_timeout_ms = whole (pos 10000);
  response_header_timeout_ms = whole (pos 0);
  expect_continue_timeout_ms = whole (pos 1000);
  idle_conn_timeout_ms = whole (pos 90000);
  max_idle_conns = whole (pos 100);
  max_idle_conns_per_host = whole (pos 0);
  max_conns_per_host = whole (pos 0);
  max_response_header_bytes = whole (pos 0);
  read_buffer_size = whole (pos 0);
  write_buffer_size = whole (pos 0);
  proxy_connect_headers = mapping done;
}

-- The defaults of `RetryOptions` and `HTTP2Options`.
abbrev default_retry : Attributes
default_retry = attribute "count" (whole (pos 0)) (
    attribute "mode" (text "none") (
      attribute "fixed_interval_ms" (whole (pos 0)) (
        attribute "backoff_min_ms" (whole (pos 0)) (
          attribute "backoff_max_ms" (whole (pos 0))
            (attribute "status_codes" (sequence no_more) done)))))

abbrev default_http2 : Attributes
default_http2 = attribute "settings" (sequence no_more) (
    attribute "connection_flow" nothing (
      attribute "header_priority" nothing (
        attribute "priority_frames" (sequence no_more) (
          attribute "max_header_list_size" (whole (pos 0)) (
            attribute "strict_max_concurrent_streams" (flag false) (
              attribute "read_idle_timeout_ms" (whole (pos 0)) (
                attribute "ping_timeout_ms" (whole (pos 0))
                  (attribute "write_byte_timeout_ms" (whole (pos 0)) done))))))))

-- `ClientOptions`. Nothing checks what the fields are set to; `retry` and `http2` are values of any
-- kind, as the code hands them on.
pub record ClientOptions : Type 0 where
  pub tls_fingerprint : Value
  pub impersonate : Value
  pub proxy_url : Value
  pub verify : Value
  pub root_ca_pem : Value
  pub client_cert_pem : Value
  pub client_key_pem : Value
  pub http_version : Value
  pub keep_alive : Value
  pub compression : Value
  pub allow_get_body : Value
  pub retry : Value
  pub transport : TransportOptions
  pub http2 : Value
  pub tls_spec : Option SpecInput

abbrev pub default_options : ClientOptions
default_options = record {
  tls_fingerprint = nothing;
  impersonate = member "none";
  proxy_url = nothing;
  verify = flag true;
  root_ca_pem = nothing;
  client_cert_pem = nothing;
  client_key_pem = nothing;
  http_version = text "auto";
  keep_alive = flag true;
  compression = flag false;
  allow_get_body = flag true;
  retry = instance_of default_retry;
  transport = default_transport;
  http2 = instance_of default_http2;
  tls_spec = none;
}

-- What `_wire` makes of `tls_spec` is replaced below, so its value does not matter.
abbrev pub spec_field : Option SpecInput → Value
spec_field none = nothing
spec_field (some input) = opaque

abbrev pub client_attributes : ClientOptions → Attributes
client_attributes o = attribute "tls_fingerprint" o.tls_fingerprint (
    attribute "impersonate" o.impersonate (
      attribute "proxy_url" o.proxy_url (
        attribute "verify" o.verify (
          attribute "root_ca_pem" o.root_ca_pem (
            attribute "client_cert_pem" o.client_cert_pem (
              attribute "client_key_pem" o.client_key_pem (
                attribute "http_version" o.http_version (
                  attribute "keep_alive" o.keep_alive (
                    attribute "compression" o.compression (
                      attribute "allow_get_body" o.allow_get_body (
                        attribute "retry" o.retry (
                          attribute "transport" (instance_of (transport_attributes o.transport)) (
                            attribute "http2" o.http2
                              (attribute "tls_spec" (spec_field o.tls_spec) done))))))))))))))

-- What `json.loads` makes, as a value.
unfoldable mutual
  pub from_json : Json → Value
  from_json null = nothing
  from_json (bool b) = flag b
  from_json (int n) = whole n
  from_json (float x) = real x
  from_json (str s) = text s
  from_json (arr xs) = sequence (from_items xs)
  from_json (obj fs) = mapping (from_fields fs)

  pub from_items : Items → Values
  from_items nil = no_more
  from_items (cons x xs) = item (from_json x) (from_items xs)

  pub from_fields : Fields → Attributes
  from_fields end = done
  from_fields (field k x fs) = attribute k (from_json x) (from_fields fs)

-- `payload[name] = value`
abbrev pub put : String → Value → Attributes → Attributes
put k v done = attribute k v done
put k v (attribute j w rest) =
    let rest' = put k v rest in if str_eq j k then attribute j v rest else attribute j w rest'

-- `value == text`; an enum of texts is equal to its text.
abbrev pub equals : String → Value → Bool
equals t (text s) = str_eq s t
equals t (member s) = str_eq s t
equals t _ = false

abbrev pub get_equals : String → Option Value → Bool
get_equals t none = false
get_equals t (some v) = equals t v

abbrev pub has : Option Value → Bool
has none = false
has (some v) = true

-- `value == n`, for a positive n and the float `x` of the same value.
abbrev pub is_number : ℕ → ℕ → Value → Bool
is_number n x (whole (pos k)) = k == n
is_number n x (real y) = y == x
is_number n x _ = false

-- `payload["transport"][name] = 0`
abbrev pub clear_entry_in : String → Option Value → Attributes → Attributes
clear_entry_in name (some (mapping rest)) payload =
    put "transport" (mapping (put name (whole (pos 0)) rest)) payload
clear_entry_in name _ payload = payload

abbrev pub clear_in : String → Bool → Attributes → Attributes
clear_in name false payload = payload
clear_in name true payload = clear_entry_in name (find "transport" payload) payload

abbrev pub put_spec : (Json → ℕ) → Option SpecInput → Attributes → Spec Attributes
put_spec encoded_length none payload = ok payload
put_spec encoded_length (some input) payload =
    normalize_tls_spec encoded_length input >>= λ spec. ok (put "tls_spec" (from_json spec) payload)

-- HTTP/3 has no use for two of the defaults. 1000 and 100 are also the values of two floats.
abbrev pub clear_defaults : TransportOptions → Attributes → Attributes
clear_defaults t payload =
    if get_equals "http3" (find "http_version" payload)
    then clear_in "max_idle_conns" (is_number 100 4636737291354636288 t.max_idle_conns) (
        clear_in "expect_continue_timeout_ms"
          (is_number 1000 4652007308841189376 t.expect_continue_timeout_ms) payload)
    else payload

-- `payload.get("impersonate", "none") == "none"`, from before the changes.
abbrev pub wants_none : Option Value → Bool
wants_none none = true
wants_none (some v) = equals "none" v

abbrev pub needs_fingerprint : Attributes → Bool
needs_fingerprint payload =
    not (has (find "tls_spec" payload))
    && not (has (find "tls_fingerprint" payload))
    && wants_none (find "impersonate" payload)
    && not (
        get_equals "http2" (find "http_version" payload)
        || get_equals "http3" (find "http_version" payload))

abbrev pub put_fingerprint : Attributes → Attributes
put_fingerprint payload =
    if needs_fingerprint payload
    then put "tls_fingerprint" (text "android_11_okhttp") payload
    else payload

unfoldable pub client_payload : (Json → ℕ) → ClientOptions → Spec Attributes
unfolding wire
client_payload encoded_length o = do
  payload ← put_spec encoded_length o.tls_spec (
      put "sdk_version" (text version)
        (put "protocol_version" (whole (pos 1)) (wire_fields (client_attributes o))))
  ok (put_fingerprint (clear_defaults o.transport payload))
