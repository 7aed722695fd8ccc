-- ===== src/Checks/Construct.antt =====
-- A service that answers the calls of a constructor.
use go_httpx.Prelude.{none, some, [], ◌∷◌, ◌≡◌, refl, ok, err, true, false, String}
use go_httpx.Prelude.Json.{Json, int, str, obj, pos, end, field, strings}
use go_httpx.Transport.{
  Service, capabilities, create_client, delete_client, Exchange, replied, refused, connect_error,
  service_unavailable,
}
use go_httpx.Transport.Envelope.{decode_json, scan_null, values_in}
use go_httpx.Transport.Call.{call, settle, read_reply, read_fields, control_timeout}
use go_httpx.Transport.Session.{
  fingerprint_values, validate_capabilities, check_fingerprints, created_client_id, create_session,
}
use go_httpx.Transport.Handle.{World, Transport, close_open}
use go_httpx.Transport.Handle.Construct.{new_transport, new_transport-Deleted}

abbrev reply : Json → Exchange
reply answer = replied (record {
  status = 200;
  instance_header = none;
  media_type = "application/json";
  decoded = some answer;
})

abbrev capabilities_answer : Json
capabilities_answer = obj (
    field "protocol_version" (int (pos 1)) (
      field "server_version" (str "2.1.2") (
        field "max_body_bytes" (int (pos 1048576))
          (field "tls_fingerprints" (strings fingerprint_values) end))))

abbrev created_answer : Exchange
created_answer = replied (record {
  status = 201;
  instance_header = none;
  media_type = "application/json";
  decoded = some (
      obj (
        field "protocol_version" (int (pos 1))
          (field "client_id" (str "c1") (field "expires_at" (str "2026-01-01T00:00:00Z") end))));
})

abbrev helpful : Service
helpful (capabilities ∷ log) = reply capabilities_answer
helpful (create_client ∷ log) = created_answer
helpful log = refused connect_error

abbrev outside : Service → World
outside service = record {
  service = service;
  instance_id = none;
  is_timestamp = λ s. true;
  b64decode = λ s. none;
}

abbrev made : Transport
made = record {
  client_id = some "c1";
  generation = 0;
  rebuilding = false;
  failed_generation = none;
  rebuild_error = none;
  active = 0;
  closing = false;
  closed = false;
  log = create_client ∷ capabilities ∷ [];
}

abbrev away : Service
away log = refused connect_error

away_refused : (new_transport (outside away) none).0 ≡ err service_unavailable
unfolding new_transport call settle control_timeout
away_refused = refl

made_here : (new_transport (outside helpful) none).0 ≡ ok made
unfolding new_transport call settle control_timeout read_reply read_fields decode_json scan_null
    validate_capabilities check_fingerprints create_session created_client_id values_in
made_here = refl

new_transport-Deleted_example :
    (id : String) × (made.client_id ≡ some id)
    × ((close_open (outside helpful) (λ s. s) made).1.log
        ≡ delete_client id ∷ create_client ∷ capabilities ∷ [])
new_transport-Deleted_example = new_transport-Deleted (outside helpful) none made made_here
