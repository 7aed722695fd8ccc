-- ===== src/Managed/Attempts.antt =====
-- The two attempts of `_ManagedGoTransport.handle_request` of python/gohttpx.py. What an attempt finds
-- on its way (the runtime's instance, the entry's transport, the threads around it) is an argument.
use go_httpx.Prelude.{
  ℕ, ◌+◌, ◌≡◌, refl, ◌⊎◌, Bool, true, false, ◌&&◌, not, Option, none, some, ◌∷◌, if◌then◌else◌, ok,
  err, arith,
}
use go_httpx.Transport.{
  Fault, Go, target, protocol_error, service_unavailable, outcome_unknown, upstream, overflow,
  failure,
}
use go_httpx.Transport.Call.{is_managed}
use go_httpx.Transport.Call.Safety.{Unprocessed, Retryable, unavailable, has_code}
use go_httpx.Transport.Response.{HttpResponse}
use go_httpx.Transport.Handle.{
  Transport, World, Clock, Around, or_empty, handle_request, is_not_found,
}
use go_httpx.Transport.Handle.Safety.{handle_request-SentOnce}

-- `has_instance` is false where `ensure` raises; `checked_out` is the outcome of `_checkout`.
pub record Attempt : Type 0 where
  pub has_instance : Bool
  pub checked_out : Go Transport
  pub world : World
  pub clock : Clock
  pub around : Around

-- The exception clauses: what becomes of an outcome in the first (`second ≡ false`) or the second
-- attempt.
pub data Verdict : Type 0 where
  give : Verdict
  again : (invalidate : Bool) → Verdict

unfoldable pub verdict : Bool → Go HttpResponse → Verdict
unfolding is_not_found
verdict second (ok response) = give
verdict second (err service_unavailable) = if second then give else again false
verdict second (err fault) = if is_not_found fault && not second then again true else give

-- Whether the clauses call `report_fault`.
unfoldable pub reports : Go HttpResponse → Bool
reports (err service_unavailable) = true
reports (err outcome_unknown) = true
reports _ = false

-- One pass of the loop: `stopped` where `ensure` raises, which no clause of the inner `try` sees;
-- `waits` where the request never comes back.
pub data Pass : Type 0 where
  stopped : Fault → Pass
  waits : Pass
  tried : Go HttpResponse → Pass

abbrev pub pass_of : Option (Go HttpResponse) → Pass
pass_of none = waits
pass_of (some r) = tried r

unfoldable pub try_once : Attempt → Go ℕ → Pass
try_once a payload =
    if not a.has_instance then stopped service_unavailable else elim a.checked_out [
      | err fault ↦ tried (err fault)
      | ok t ↦ pass_of (handle_request a.world a.clock a.around payload t).0
    ]

-- What the loop has done: its outcome (`none` where it still waits), the attempts made, and how often
-- a fault was reported.
pub record Loop : Type 0 where
  pub outcome : Option (Go HttpResponse)
  pub attempts : ℕ
  pub faults : ℕ

abbrev pub count : Bool → ℕ
count true = 1
count false = 0

unfoldable pub second_pass : Pass → ℕ → Loop
unfolding reports
second_pass (stopped fault) before = record {
  outcome = some (err fault);
  attempts = 2;
  faults = before;
}
second_pass waits before = record { outcome = none; attempts = 2; faults = before }
second_pass (tried r) before = record {
  outcome = some r;
  attempts = 2;
  faults = before + count (reports r);
}

unfoldable pub first_pass : Pass → Pass → Loop
first_pass (stopped fault) later = record { outcome = some (err fault); attempts = 1; faults = 0 }
first_pass waits later = record { outcome = none; attempts = 1; faults = 0 }
first_pass (tried r) later = elim (verdict false r) [
  | give ↦ record { outcome = some r; attempts = 1; faults = count (reports r) }
  | again invalidate ↦ second_pass later (count (reports r))
]

-- The loop, with what the second attempt would find.
unfoldable pub managed_request : Attempt → Attempt → Go ℕ → Loop
managed_request a b payload = first_pass (try_once a payload) (try_once b payload)

-- What an outcome says that leads to a second attempt.
verdict-Retryable :
    (r : Go HttpResponse) (invalidate : Bool)
    → verdict false r ≡ again invalidate
    → (fault : Fault) × (r ≡ err fault) × Retryable fault
unfolding verdict is_not_found
verdict-Retryable (ok response) invalidate h = absurd (ground arith)
verdict-Retryable (err service_unavailable) invalidate h = (service_unavailable, refl, unavailable)
verdict-Retryable (err (protocol_error (some code) request_id)) invalidate h =
    (protocol_error (some code) request_id, refl, has_code code request_id)
verdict-Retryable (err (protocol_error none request_id)) invalidate h = absurd (ground arith)
verdict-Retryable (err outcome_unknown) invalidate h = absurd (ground arith)
verdict-Retryable (err (upstream kind code request_id)) invalidate h = absurd (ground arith)
verdict-Retryable (err overflow) invalidate h = absurd (ground arith)
verdict-Retryable (err failure) invalidate h = absurd (ground arith)

try_once-tried :
    (a : Attempt) (payload : Go ℕ) (t : Transport) (fault : Fault)
    → a.checked_out ≡ ok t
    → try_once a payload ≡ tried (err fault)
    → (handle_request a.world a.clock a.around payload t).0 ≡ some (err fault)
unfolding try_once
try_once-tried a payload t fault c h = ground arith

-- The loop makes a second attempt only after an outcome of the first that asks for one.
first_pass-second :
    (p later : Pass)
    → (first_pass p later).attempts ≡ 2
    → (r : Go HttpResponse) × (invalidate : Bool) × (p ≡ tried r)
      × (verdict false r ≡ again invalidate)
unfolding first_pass
first_pass-second (stopped fault) later h = absurd (ground arith)
first_pass-second waits later h = absurd (ground arith)
first_pass-second (tried r) later h = asked (verdict false r) refl
  where
    asked :
        (v : Verdict)
        → verdict false r ≡ v
        → (q : Go HttpResponse) × (invalidate : Bool) × (tried r ≡ tried q)
          × (verdict false q ≡ again invalidate)
    asked give e = absurd (ground arith)
    asked (again invalidate) e = (r, invalidate, refl, e)

-- The two attempts of a managed request never let the service act twice: where the first has a
-- transport and a second is made, the first has sent nothing, or has sent the target request once and
-- the service has not acted on it.
pub second-Unprocessed :
    (a b : Attempt) (payload : Go ℕ) (t : Transport)
    → a.checked_out ≡ ok t
    → is_managed a.world.instance_id ≡ true
    → (managed_request a b payload).attempts ≡ 2
    → let after = (handle_request a.world a.clock a.around payload t).1.log in
      let id = or_empty t.client_id in
      (after ≡ t.log)
      ⊎ ((after ≡ target id ∷ t.log)
          × Unprocessed a.world.instance_id (a.world.service (target id ∷ t.log)))
unfolding managed_request
second-Unprocessed a b payload t c m h =
    let (r, invalidate, tried_first, asks) =
      first_pass-second (try_once a payload) (try_once b payload) h in
    let (fault, failed, retryable) = verdict-Retryable r invalidate asks in
    (handle_request-SentOnce a.world a.clock a.around payload t fault m
        (try_once-tried a payload t fault c cc)).safe
      retryable
