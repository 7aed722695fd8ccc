-- ===== src/Transport/Handle/Construct.antt =====
-- `_GoTransport.__init__` of python/gohttpx.py from the first call on, and the life of a transport that
-- serves no request.
use mathlib.Core.Path.{subst}
use go_httpx.Prelude.{
  ℕ, String, Bool, true, false, Option, none, some, List, [], ◌∷◌, ◌≡◌, refl, sym, ◌∙◌, ◌⊎◌, inl,
  inr, ok, err, ap, arith, if◌then◌else◌,
}
use go_httpx.Prelude.Json.{Fields, get}
use go_httpx.Transport.{
  service_unavailable, Go, Request, capabilities, create_client, delete_client,
}
use go_httpx.Transport.Call.{Setting, call, settle, control_timeout}
use go_httpx.Transport.Envelope.{holds, is_full_string, text_of}
use go_httpx.Transport.Session.{
  validate_capabilities, created_client_id, create_session, delete_session,
}
use go_httpx.Transport.Handle.{World, Transport, close_open}

-- A call that belongs to no request.
abbrev no_request : World → Setting
no_request w = record {
  instance_id = w.instance_id;
  request = false;
  timeout_ms = none;
  deadline = none;
  first_reading = 0;
  second_reading = 0;
  ticks = 1;
}

abbrev opened : String → List Request → Transport
opened id log = record {
  client_id = some id;
  generation = 0;
  rebuilding = false;
  failed_generation = none;
  rebuild_error = none;
  active = 0;
  closing = false;
  closed = false;
  log = log;
}

abbrev with_session : Go String × List Request → Go Transport × List Request
with_session (ok id, log) = (ok (opened id log), log)
with_session (err fault, log) = (err fault, log)

abbrev after_validation : World → Go (Unit {0}) → List Request → Go Transport × List Request
after_validation w (ok u) log =
    with_session (create_session w.is_timestamp w.service (no_request w) log)
after_validation w (err fault) log = (err fault, log)

abbrev after_capabilities :
    World → Option String → Go Fields × List Request → Go Transport × List Request
after_capabilities w fingerprint (ok fs, log) =
    after_validation w (validate_capabilities fs fingerprint) log
after_capabilities w fingerprint (err fault, log) = (err fault, log)

-- `client_id` is set by the last call, so the handler has no session to delete; it closes the connection.
unfoldable pub new_transport : World → Option String → Go Transport × List Request
unfolding call validate_capabilities create_session
new_transport w fingerprint =
    after_capabilities w fingerprint (call w.service (no_request w) capabilities 200 [])

-- What has been sent when the constructor ends. A session that is named in an answer that is refused is
-- deleted.
unfoldable pub Sent : Go Transport × List Request → Type 0
Sent (ok t, log) =
    (id : String) × (t.client_id ≡ some id) × (t.log ≡ create_client ∷ capabilities ∷ [])
Sent (err fault, log) =
    (log ≡ capabilities ∷ [])
    ⊎ (log ≡ create_client ∷ capabilities ∷ [])
    ⊎ ((id : String) × (log ≡ delete_client id ∷ create_client ∷ capabilities ∷ []))

own_limit : (w : World) → control_timeout (no_request w) ≡ some 1000
unfolding control_timeout
own_limit w = ground arith

-- A call that belongs to no request is always made.
call_made :
    (w : World) (req : Request) (status : ℕ) (log : List Request)
    → call w.service (no_request w) req status log
      ≡ (settle (no_request w) req status (w.service (req ∷ log)), req ∷ log)
unfolding call
call_made w req status log =
    ap
      (λ o. elim o [
        | none ↦ (err service_unavailable, log)
        | some limit ↦ (settle (no_request w) req status (w.service (req ∷ log)), req ∷ log)
      ])
      (own_limit w)

module _ (w : World) where
  abbrev asked : List Request
  asked = create_client ∷ capabilities ∷ []

  abbrev session_of : Go Fields × List Request → Go String × List Request
  session_of (answer, log) = elim answer [
    | err fault ↦ (err fault, log)
    | ok created ↦ elim (created_client_id w.is_timestamp created) [
      | ok id ↦ (ok id, log)
      | err fault ↦
          if holds is_full_string (get "client_id" created)
          then (
            err fault,
            (delete_session w.service w.instance_id (text_of (get "client_id" created)) log).1,
          )
          else (err fault, log)
    ]
  ]

  checked-Sent :
      (created : Fields) (r : Go String) (b : Bool)
      → Sent (
          with_session (elim r [
            | ok id ↦ (ok id, asked)
            | err fault ↦
                if b
                then (err fault, delete_client (text_of (get "client_id" created)) ∷ asked)
                else (err fault, asked)
          ]))
  unfolding Sent
  checked-Sent created (ok id) b = (id, refl, refl)
  checked-Sent created (err fault) true = inr (inr (text_of (get "client_id" created), refl))
  checked-Sent created (err fault) false = inr (inl refl)

  answered-Sent : (answer : Go Fields) → Sent (with_session (session_of (answer, asked)))
  unfolding Sent delete_session
  answered-Sent (err fault) = inr (inl refl)
  answered-Sent (ok created) =
      checked-Sent created (created_client_id w.is_timestamp created)
        (holds is_full_string (get "client_id" created))

  session-Sent :
      Sent
        (with_session (create_session w.is_timestamp w.service (no_request w) (capabilities ∷ [])))
  unfolding create_session
  session-Sent =
      subst (λ x. Sent (with_session (session_of x)))
        (sym (call_made w create_client 201 (capabilities ∷ [])))
        (answered-Sent (settle (no_request w) create_client 201 (w.service asked)))

  validated-Sent : (r : Go (Unit {0})) → Sent (after_validation w r (capabilities ∷ []))
  unfolding Sent
  validated-Sent (ok u) = session-Sent
  validated-Sent (err fault) = inl refl

  capable-Sent :
      (fingerprint : Option String) (r : Go Fields)
      → Sent (after_capabilities w fingerprint (r, capabilities ∷ []))
  unfolding Sent
  capable-Sent fingerprint (ok fs) = validated-Sent (validate_capabilities fs fingerprint)
  capable-Sent fingerprint (err fault) = inl refl

  -- Whatever the service answers, the constructor asks for the capabilities, then for at most one session,
  -- and sends a delete only after an answer that it refuses. Where it returns, the transport has a session.
  pub new_transport-Sent : (fingerprint : Option String) → Sent (new_transport w fingerprint)
  unfolding new_transport
  new_transport-Sent fingerprint =
      subst (λ x. Sent (after_capabilities w fingerprint x)) (sym (call_made w capabilities 200 []))
        (capable-Sent fingerprint
          (settle (no_request w) capabilities 200 (w.service (capabilities ∷ []))))

closed-log :
    (w : World) (t : Transport) (id : String)
    → t.client_id ≡ some id
    → (close_open w (λ s. s) t).1.log ≡ delete_client id ∷ t.log
unfolding close_open delete_session
closed-log w t id h = ground arith

-- A transport that serves no request sends the delete of its session when it is closed, and nothing else.
life-Deleted :
    (w : World) (x : Go Transport × List Request) (t : Transport)
    → Sent x
    → x.0 ≡ ok t
    → (id : String) × (t.client_id ≡ some id)
      × ((close_open w (λ s. s) t).1.log ≡ delete_client id ∷ create_client ∷ capabilities ∷ [])
unfolding Sent close_open delete_session
life-Deleted w (ok u, log) t (id, has_id, sent) e =
    subst
      (λ x.
        (i : String) × (x.client_id ≡ some i)
        × ((close_open w (λ s. s) x).1.log ≡ delete_client i ∷ create_client ∷ capabilities ∷ []))
      same (id, has_id, closed-log w u id has_id ∙ ap (λ l. delete_client id ∷ l) sent)
  where
    same : u ≡ t
    same = cc
life-Deleted w (err fault, log) t s e = cc

-- Whatever the service answers: a transport that was made and that serves no request has a session, and by
-- its close it has asked for the capabilities, for one session, and for the delete of that session.
pub new_transport-Deleted :
    (w : World) (fingerprint : Option String) (t : Transport)
    → (new_transport w fingerprint).0 ≡ ok t
    → (id : String) × (t.client_id ≡ some id)
      × ((close_open w (λ s. s) t).1.log ≡ delete_client id ∷ create_client ∷ capabilities ∷ [])
new_transport-Deleted w fingerprint t h =
    life-Deleted w (new_transport w fingerprint) t (new_transport-Sent w fingerprint) h
