-- ===== src/Checks/ManagedAsync.antt =====
-- Two attempts of an asynchronous managed request.
use go_httpx.Prelude.{List, ◌+◌, true, false, none, some, [], ◌∷◌, ◌≡◌, refl, ok, err}
use go_httpx.Transport.{service_unavailable, outcome_unknown}
use go_httpx.Managed.Attempts.{tried, first_pass}
use go_httpx.Managed.Async.{
  finished, cancels, Surroundings, managed_async_request, try_async, close_pruned,
}
use go_httpx.Managed.Async.Close.{
  Action, request_begins, request_adds, request_ends, aclose_called, cleanup_begins, cleanup_polls,
  cleanup_closes, request_takes, goes_on, cleanup_gathers, cleanup_finishes, run_pool, pool_step,
  empty_pool, run_pool-Closed,
}
use go_httpx.Managed.Async.Twin.{uses, Same, managed_async_request-Same}

-- Two entries of old instances are pruned, and the service cannot be reached.
abbrev unreached : Surroundings
unreached = record {
  ensures = finished (ok 1);
  pruned = 7 ∷ 8 ∷ [];
  stopped_at = none;
  checked_out = ok 9;
  answers = finished (err service_unavailable);
  is_last = λ invalidate. false;
  stopped_closing = false;
  stop = cancels;
}

-- The next instance takes the request, and its outcome is unknown.
abbrev unknown : Surroundings
unknown = record {
  ensures = finished (ok 2);
  pruned = 9 ∷ [];
  stopped_at = none;
  checked_out = ok 10;
  answers = finished (err outcome_unknown);
  is_last = λ invalidate. true;
  stopped_closing = false;
  stop = cancels;
}

-- The request is cancelled while it closes the first of the two pruned entries.
abbrev impatient : Surroundings
impatient = record unreached { stopped_at = some 0 }

-- The second has left the table, and its close has not been started.
impatient_started : (managed_async_request impatient unknown).1.started ≡ 7 ∷ []
unfolding managed_async_request try_async close_pruned
impatient_started = refl

impatient_taken : (managed_async_request impatient unknown).1.taken ≡ 7 ∷ 8 ∷ []
unfolding managed_async_request try_async close_pruned
impatient_taken = refl

managed_async_request-Same_example :
    Same
      (first_pass (tried (err service_unavailable)) (tried (err outcome_unknown)))
      (managed_async_request unreached unknown)
managed_async_request-Same_example =
    managed_async_request-Same unreached unknown (tried (err service_unavailable))
      (tried (err outcome_unknown)) (uses 1 9 (err service_unavailable) refl refl refl refl refl)
      (uses 2 10 (err outcome_unknown) refl refl refl refl refl)

-- A request adds two entries, takes one off and is cancelled; two calls of `aclose` make one task, which
-- closes the other.
abbrev closing_run : List Action
closing_run =
    request_begins
    ∷ request_adds
    ∷ request_adds
    ∷ request_takes
    ∷ aclose_called
    ∷ cleanup_begins
    ∷ request_begins
    ∷ cleanup_polls
    ∷ request_ends 1
    ∷ aclose_called
    ∷ cleanup_polls
    ∷ cleanup_closes goes_on
    ∷ cleanup_gathers
    ∷ cleanup_finishes
    ∷ []

run_pool-Closed_example :
    ((run_pool closing_run empty_pool).active ≡ 0)
    × ((run_pool closing_run empty_pool).releases ≡ 1)
    × ((run_pool closing_run empty_pool).made_entries
        ≡ (run_pool closing_run empty_pool).started
          + (run_pool closing_run empty_pool).leaked
          + (run_pool closing_run empty_pool).dropped)
unfolding run_pool pool_step empty_pool
run_pool-Closed_example = run_pool-Closed closing_run refl
