-- ===== src/Managed/Async.antt =====
-- The two attempts of `_ManagedAsyncGoTransport.handle_async_request` of python/gohttpx.py, which may be
-- cancelled at every await. What an attempt finds on its way is an argument.
pub mod Closes
pub mod Twin
pub mod Close
use go_httpx.Prelude.{
  ℕ, zero, suc, ◌+◌, Bool, true, false, ◌&&◌, not, Option, none, some, List, [], ◌∷◌, ◌++◌,
  if◌then◌else◌, Result, ok, err,
}
use go_httpx.Transport.{
  Fault, Go, service_unavailable, outcome_unknown, protocol_error, upstream, overflow, failure,
}
use go_httpx.Transport.Handle.{is_not_found}
use go_httpx.Transport.Response.{HttpResponse}
use go_httpx.Managed.Attempts.{Verdict, give, again}

-- How a coroutine ends.
pub data End (A : Type 0) : Type 0 where
  finished : Go A → End A
  cancelled : End A
  broken_off : End A

-- What ends `_close_entry` early: the request is cancelled while it waits for the task, the close raises
-- what is no HTTPError, or `is_current` raises before there is a task.
pub data Stop : Type 0 where
  cancels raises refuses : Stop

abbrev pub stop_end : Stop → End HttpResponse
stop_end cancels = cancelled
stop_end raises = broken_off
stop_end refuses = broken_off

-- What an attempt meets, in the order of the code: `ensure_async`; the entries that `_prune` takes off
-- the table, and which of their closes ends early; `_checkout`, which gives the number of an entry; the
-- request of its transport; what `_release_entry` answers, by `invalidate`; whether the close after that
-- ends early; and how a close does that.
pub record Surroundings : Type 0 where
  pub ensures : End ℕ
  pub pruned : List ℕ
  pub stopped_at : Option ℕ
  pub checked_out : Go ℕ
  pub answers : End HttpResponse
  pub is_last : Bool → Bool
  pub stopped_closing : Bool
  pub stop : Stop

-- `taken` has the entries that have left the table and that nobody else will close, `started` those whose
-- close is a task.
pub record Trace : Type 0 where
  pub attempts : ℕ
  pub faults : ℕ
  pub taken : List ℕ
  pub started : List ℕ

pub data Then : Type 0 where
  ends : End HttpResponse → Trace → Then
  goes_on : Trace → Then

abbrev pub take_entries : List ℕ → Trace → Trace
take_entries es t = record t { taken = t.taken ++ es }

-- `_close_entry` makes the task before it awaits, and the task outlives the request.
abbrev pub start_close_of : ℕ → Trace → Trace
start_close_of e t = record t { started = t.started ++ (e ∷ []) }

abbrev pub stopped_close_of : Stop → ℕ → Trace → Trace
stopped_close_of refuses e t = t
stopped_close_of _ e t = start_close_of e t

-- `for old in self._prune(instance): await self._close_entry(old)`
unfoldable pub close_pruned : List ℕ → Option ℕ → Stop → Trace → Then
close_pruned [] at_close stop t = goes_on t
close_pruned (e ∷ es) none stop t = close_pruned es none stop (start_close_of e t)
close_pruned (e ∷ es) (some zero) stop t = ends (stop_end stop) (stopped_close_of stop e t)
close_pruned (e ∷ es) (some (suc k)) stop t = close_pruned es (some k) stop (start_close_of e t)

abbrev pub add_fault : Bool → Trace → Trace
add_fault true t = record t { faults = t.faults + 1 }
add_fault false t = t

-- The `finally` of the inner `try`.
abbrev pub release_entry : Surroundings → ℕ → Bool → Trace → Trace
release_entry a e invalidate t =
    if a.is_last invalidate then start_close_of e (take_entries (e ∷ []) t) else t

-- A close that ends early takes the place of what was to follow.
abbrev pub release_stopped : Surroundings → ℕ → Trace → Then
release_stopped a e t = ends (stop_end a.stop) (stopped_close_of a.stop e (take_entries (e ∷ []) t))

abbrev pub settle_verdict : Surroundings → ℕ → Go HttpResponse → Verdict → Trace → Then
settle_verdict a e r give t = ends (finished r) (release_entry a e false t)
settle_verdict a e r (again invalidate) t = goes_on (release_entry a e invalidate t)

abbrev pub invalidates : Verdict → Bool
invalidates give = false
invalidates (again invalidate) = invalidate

-- The clauses for the exceptions of the request, and whether they call `report_fault`.
unfoldable pub async_verdict : Bool → Go HttpResponse → Verdict
unfolding is_not_found
async_verdict second (ok response) = give
async_verdict true (err service_unavailable) = give
async_verdict false (err service_unavailable) = again false
async_verdict second (err outcome_unknown) = give
async_verdict true (err (protocol_error code request_id)) = give
async_verdict false (err (protocol_error code request_id)) =
    if is_not_found (protocol_error code request_id) then again true else give
async_verdict second (err (upstream kind code request_id)) = give
async_verdict second (err overflow) = give
async_verdict second (err failure) = give

unfoldable pub async_reports : Go HttpResponse → Bool
async_reports (ok response) = false
async_reports (err service_unavailable) = true
async_reports (err outcome_unknown) = true
async_reports (err (protocol_error code request_id)) = false
async_reports (err (upstream kind code request_id)) = false
async_reports (err overflow) = false
async_reports (err failure) = false

abbrev pub settle_finished : Bool → Surroundings → ℕ → Go HttpResponse → Trace → Then
settle_finished second a e r t =
    let v = async_verdict second r in
    let reported = add_fault (async_reports r) t in
    if a.stopped_closing && a.is_last (invalidates v)
    then release_stopped a e reported
    else settle_verdict a e r v reported

-- No clause sees a cancellation, or what else is not one of the package's exceptions.
abbrev pub settle_raised : Surroundings → ℕ → End HttpResponse → Trace → Then
settle_raised a e x t =
    if a.stopped_closing && a.is_last false
    then release_stopped a e t
    else ends x (release_entry a e false t)

abbrev pub settle_answer : Bool → Surroundings → ℕ → End HttpResponse → Trace → Then
settle_answer second a e (finished r) t = settle_finished second a e r t
settle_answer second a e cancelled t = settle_raised a e cancelled t
settle_answer second a e broken_off t = settle_raised a e broken_off t

-- A fault of `_checkout` meets no exception clause.
abbrev pub use_entry : Bool → Surroundings → Go ℕ → Trace → Then
use_entry second a (err fault) t = ends (finished (err fault)) t
use_entry second a (ok e) t = settle_answer second a e a.answers t

abbrev pub after_pruned : Bool → Surroundings → Then → Then
after_pruned second a (ends r t) = ends r t
after_pruned second a (goes_on t) = use_entry second a a.checked_out t

abbrev pub with_instance : Bool → Surroundings → End ℕ → Trace → Then
with_instance second a cancelled t = ends cancelled t
with_instance second a broken_off t = ends broken_off t
with_instance second a (finished (err fault)) t = ends (finished (err service_unavailable)) t
with_instance second a (finished (ok i)) t =
    after_pruned second a (close_pruned a.pruned a.stopped_at a.stop (take_entries a.pruned t))

unfoldable pub try_async : Bool → Surroundings → Trace → Then
unfolding close_pruned async_verdict async_reports
try_async second a t = with_instance second a a.ensures (record t { attempts = t.attempts + 1 })

abbrev pub fresh_trace : Trace
fresh_trace = record { attempts = 0; faults = 0; taken = []; started = [] }

abbrev pub last_outcome : Then → End HttpResponse × Trace
last_outcome (ends r t) = (r, t)
last_outcome (goes_on t) = (cancelled, t)

-- The second attempt does not go on: its verdict is never `again`.
abbrev pub second_attempt : Surroundings → Then → End HttpResponse × Trace
second_attempt b (ends r t) = (r, t)
second_attempt b (goes_on t) = last_outcome (try_async true b t)

unfoldable pub managed_async_request : Surroundings → Surroundings → End HttpResponse × Trace
unfolding try_async
managed_async_request a b = second_attempt b (try_async false a fresh_trace)
