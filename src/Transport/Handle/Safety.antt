-- ===== src/Transport/Handle/Safety.antt =====
-- `handle_request` of a managed transport sends its target request at most once, and fails with a
-- retryable exception only if the service has not acted on it.
use go_httpx.Prelude.{
  ℕ, ◌+◌, ◌≡◌, refl, sym, ◌∙◌, ◌⊎◌, inl, inr, String, true, Option, none, some, List, ◌∷◌, arith,
  ok, err, Bool-cases, Result-cases, ◌||◌,
}
use go_httpx.Prelude.Json.{Fields}
use go_httpx.Transport.{Fault, Go, Request, target, outcome_unknown, overflow}
use go_httpx.Transport.Call.{is_managed, call}
use go_httpx.Transport.Call.Safety.{Unprocessed, Retryable, unavailable, has_code, call-Retryable}
use go_httpx.Transport.Response.{HttpResponse, response}
use go_httpx.Transport.Response.Faults.{response-OnlyBad}
use go_httpx.Transport.Handle.{
  Transport, World, Clock, Around, post, answer, attempt, handle_request, or_empty, setting, leave,
}

-- In a managed transport an answer whose response is refused is an unknown outcome, so a retryable
-- exception comes from the call itself.
answer-Retryable :
    (w : World) (reply : Go Fields) (fault : Fault)
    → is_managed w.instance_id ≡ true
    → Retryable fault
    → answer w reply ≡ err fault
    → reply ≡ err fault
unfolding answer
answer-Retryable w (err f) fault m r h = ground arith
answer-Retryable w (ok data_fields) fault m r h =
    elim (Result-cases (response w.b64decode data_fields)) [
      | inl (a, e) ↦ absurd (ground arith)
      | inr (f, e) ↦
          absurd
            (impossible fault r (ground (arith, (response-OnlyBad w.b64decode data_fields).at f e)))
    ]
  where
    impossible : (f : Fault) → Retryable f → (f ≡ outcome_unknown) ⊎ (f ≡ overflow) → ⊥
    impossible _ unavailable q = ground arith
    impossible _ (has_code code request_id) q = ground arith

-- What the history says after a request of a managed transport: at most one target request more; and
-- after a retryable exception the service has not acted on it.
pub record SentOnce (w : World) (id : String) (before : List Request) (fault : Fault)
    (after : List Request) : Type 0 where
  pub once : (after ≡ before) ⊎ (after ≡ target id ∷ before)
  pub safe :
      Retryable fault
      → (after ≡ before)
        ⊎ ((after ≡ target id ∷ before)
            × Unprocessed w.instance_id (w.service (target id ∷ before)))

log-call :
    (w : World) (clock : Clock) (ms : ℕ) (id : String) (t : Transport)
    → ((post w clock ms id t).1.log ≡ t.log) ⊎ ((post w clock ms id t).1.log ≡ target id ∷ t.log)
unfolding post call
log-call w clock ms id t = ground arith

post-safe :
    (w : World) (clock : Clock) (ms : ℕ) (id : String) (t : Transport) (fault : Fault)
    → is_managed w.instance_id ≡ true
    → (post w clock ms id t).0 ≡ err fault
    → Retryable fault
    → ((post w clock ms id t).1.log ≡ t.log)
      ⊎ (((post w clock ms id t).1.log ≡ target id ∷ t.log)
          × Unprocessed w.instance_id (w.service (target id ∷ t.log)))
unfolding post
post-safe w clock ms id t fault m h r =
    call-Retryable w.service (setting w clock (some ms)) id t.log fault m r h

attempt-managed :
    (w : World) (clock : Clock) (around : Around) (ms generation : ℕ) (client_id : Option String)
    (t : Transport)
    → is_managed w.instance_id ≡ true
    → attempt w clock around (ok ms) client_id generation t ≡ (
      some (answer w (post w clock ms (or_empty client_id) t).0),
      (post w clock ms (or_empty client_id) t).1,
    )
unfolding attempt
attempt-managed w clock around ms generation client_id t m = ground arith

some-eq : {A : Type 0} {a b : A} → some a ≡ some b → a ≡ b
some-eq h = cc

attempt-SentOnce :
    (w : World) (clock : Clock) (around : Around) (payload : Go ℕ) (generation : ℕ)
    (client_id : Option String) (t : Transport) (fault : Fault)
    → is_managed w.instance_id ≡ true
    → (attempt w clock around payload client_id generation t).0 ≡ some (err fault)
    → SentOnce w
        (or_empty client_id)
        t.log
        fault
        (attempt w clock around payload client_id generation t).1.log
attempt-SentOnce w clock around (err f) generation client_id t fault m h =
    unfold attempt in record { once = inl refl; safe = λ r. inl refl }
attempt-SentOnce w clock around (ok ms) generation client_id t fault m h =
    let e = attempt-managed w clock around ms generation client_id t m in
    let id = or_empty client_id in
    let returned : answer w (post w clock ms id t).0 ≡ err fault = some-eq (rw e at h) in
    rw e (record {
      once = log-call w clock ms id t;
      safe = λ r.
          post-safe w clock ms id t fault m
            (answer-Retryable w (post w clock ms id t).0 fault m r returned) r;
    })

log-leave : (r : Option (Go HttpResponse) × Transport) → (leave r).1.log ≡ r.1.log
log-leave (none, t) = refl
log-leave (some r, t) = refl

result-leave : (r : Option (Go HttpResponse) × Transport) → (leave r).0 ≡ r.0
result-leave (none, t) = refl
result-leave (some r, t) = refl

-- However a managed request fails, it has been sent at most once; and where it fails with an exception
-- after which it may be sent again, the service has not acted on it: it was not sent, the connection
-- was not made, or the right instance has answered with a coded error.
pub handle_request-SentOnce :
    (w : World) (clock : Clock) (around : Around) (payload : Go ℕ) (t : Transport) (fault : Fault)
    → is_managed w.instance_id ≡ true
    → (handle_request w clock around payload t).0 ≡ some (err fault)
    → SentOnce w (or_empty t.client_id) t.log fault (handle_request w clock around payload t).1.log
unfolding handle_request
handle_request-SentOnce w clock around payload t fault m h =
    elim (Bool-cases (t.closing || t.closed)) [
      | inl shut ↦ rw (shut, handle_request) (record { once = inl refl; safe = λ r. inl refl })
      | inr open_ ↦
          let entered = record t { active = t.active + 1 } in
          let r = attempt w clock around payload t.client_id t.generation entered in
          rw (open_, handle_request, log-leave r)
            (attempt-SentOnce w clock around payload t.generation t.client_id entered fault m
              (sym (result-leave r) ∙ (rw (open_, handle_request) at h)))
    ]
