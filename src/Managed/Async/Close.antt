-- ===== src/Managed/Async/Close.antt =====
-- `_run_close` and `aclose` of `_ManagedAsyncGoTransport` in python/gohttpx.py, beside the requests, in any
-- order of the parts between two awaits. Entries are counted.
use go_httpx.Prelude.{
  ℕ, zero, suc, ◌+◌, ◌-◌, ◌≡◌, Bool, true, false, ◌&&◌, ◌||◌, not, List, [], ◌∷◌, ◌==◌,
  if◌then◌else◌, ltb, arith,
}

-- Where the task `_cleanup` stands: `closing n` has n entries yet to close, `finishing` is the `finally`.
pub data Cleanup : Type 0 where
  no_task made polling finishing over : Cleanup
  closing_entries : ℕ → Cleanup

-- `made_entries` counts the entries that there have been; `taken` those that requests have taken off and
-- whose close they have not started, `started` those whose close has been started, `leaked` those that
-- requests that ended early had taken, and `dropped` those that the loop of the close did not come to;
-- `releases` counts those of the runtime.
pub record Pool : Type 0 where
  pub active : ℕ
  pub closing : Bool
  pub closed : Bool
  pub cleanup : Cleanup
  pub entries : ℕ
  pub made_entries : ℕ
  pub taken : ℕ
  pub started : ℕ
  pub leaked : ℕ
  pub dropped : ℕ
  pub releases : ℕ

unfoldable pub empty_pool : Pool
empty_pool = record {
  active = 0;
  closing = false;
  closed = false;
  cleanup = no_task;
  entries = 0;
  made_entries = 0;
  taken = 0;
  started = 0;
  leaked = 0;
  dropped = 0;
  releases = 0;
}

-- How the close of an entry goes on: the next one is due, it raised after its task was made, or before.
pub data Closing : Type 0 where
  goes_on raises refuses : Closing

-- A request adds an entry, takes one off the table, starts the close of one that it has taken, or ends;
-- one that a cancellation or a close has ended leaves what it has still taken, which is all there is where
-- it is the last. The close of an entry may raise what `_close_entry` does not catch, after its task was
-- made or before.
pub data Action : Type 0 where
  request_begins request_adds request_takes request_starts_close : Action
  request_ends : (leaves : ℕ) → Action
  aclose_called cleanup_begins cleanup_polls cleanup_gathers cleanup_finishes : Action
  cleanup_closes : Closing → Action

abbrev positive : ℕ → Bool
positive n = not (n == 0)

abbrev start_cleanup : Cleanup → Pool → Pool
start_cleanup no_task w = record w { cleanup = made }
start_cleanup _ w = w

abbrev begin_cleanup : Cleanup → Pool → Pool
begin_cleanup made w = record w { closing = true; cleanup = polling }
begin_cleanup _ w = w

abbrev poll_active : Cleanup → Pool → Pool
poll_active polling w =
    if w.active == 0 then record w { entries = 0; cleanup = closing_entries w.entries } else w
poll_active _ w = w

abbrev close_one : Closing → Cleanup → Pool → Pool
close_one goes_on (closing_entries (suc n)) w = record w {
  started = suc w.started;
  cleanup = closing_entries n;
}
close_one raises (closing_entries (suc n)) w = record w {
  started = suc w.started;
  dropped = n + w.dropped;
  cleanup = finishing;
}
close_one refuses (closing_entries (suc n)) w = record w {
  dropped = suc n + w.dropped;
  cleanup = finishing;
}
close_one c _ w = w

-- What a request that ends leaves of the entries that requests have taken.
abbrev leaves_of : ℕ → Pool → ℕ
leaves_of n w = if w.active == 1 || ltb w.taken n then w.taken else n

abbrev gather : Cleanup → Pool → Pool
gather (closing_entries zero) w = record w { cleanup = finishing }
gather _ w = w

abbrev finish_cleanup : Cleanup → Pool → Pool
finish_cleanup finishing w = record w { closed = true; releases = suc w.releases; cleanup = over }
finish_cleanup _ w = w

unfoldable pub pool_step : Action → Pool → Pool
pool_step request_begins w = if w.closing || w.closed then w else record w { active = suc w.active }
pool_step request_adds w =
    if positive w.active
    then record w { entries = suc w.entries; made_entries = suc w.made_entries }
    else w
pool_step request_takes w =
    if positive w.active && positive w.entries
    then record w { entries = w.entries - 1; taken = suc w.taken }
    else w
pool_step request_starts_close w =
    if positive w.taken then record w { taken = w.taken - 1; started = suc w.started } else w
pool_step (request_ends leaves) w =
    if positive w.active
    then record w {
      active = w.active - 1;
      taken = w.taken - leaves_of leaves w;
      leaked = w.leaked + leaves_of leaves w;
    }
    else w
pool_step aclose_called w = start_cleanup w.cleanup w
pool_step cleanup_begins w = begin_cleanup w.cleanup w
pool_step cleanup_polls w = poll_active w.cleanup w
pool_step (cleanup_closes c) w = close_one c w.cleanup w
pool_step cleanup_gathers w = gather w.cleanup w
pool_step cleanup_finishes w = finish_cleanup w.cleanup w

unfoldable pub run_pool : List Action → Pool → Pool
unfolding pool_step
run_pool [] w = w
run_pool (x ∷ xs) w = run_pool xs (pool_step x w)

abbrev left : Cleanup → ℕ
left (closing_entries n) = n
left _ = 0

abbrev times_over : Cleanup → ℕ
times_over over = 1
times_over _ = 0

abbrev Stands : Cleanup → Pool → Type 0
Stands (closing_entries n) w =
    (w.closing ≡ true) × (w.active ≡ 0) × (w.entries ≡ 0) × (w.closed ≡ false)
Stands finishing w = (w.closing ≡ true) × (w.active ≡ 0) × (w.entries ≡ 0) × (w.closed ≡ false)
Stands over w = (w.closing ≡ true) × (w.active ≡ 0) × (w.entries ≡ 0)
Stands polling w = (w.closing ≡ true) × (w.closed ≡ false)
Stands _ w = w.closed ≡ false

record Inv (w : Pool) : Type 0 where
  balance : w.made_entries ≡ w.entries + left w.cleanup + w.taken + w.started + w.leaked + w.dropped
  held : w.active ≡ 0 → w.taken ≡ 0
  released : w.releases ≡ times_over w.cleanup
  stands : Stands w.cleanup w

step-Inv : (x : Action) (w : Pool) → Inv w → Inv (pool_step x w)
unfolding pool_step
step-Inv request_begins w v = ground arith
step-Inv request_adds w v = ground arith
step-Inv request_takes w v = ground arith
step-Inv request_starts_close w v = ground arith
step-Inv (request_ends leaves) w v = ground arith
step-Inv aclose_called w v = ground arith
step-Inv cleanup_begins w v = ground arith
step-Inv cleanup_polls w v = ground arith
step-Inv (cleanup_closes c) w v = ground arith
step-Inv cleanup_gathers w v = ground arith
step-Inv cleanup_finishes w v = ground arith

run-Inv : (xs : List Action) (w : Pool) → Inv w → Inv (run_pool xs w)
unfolding run_pool
run-Inv [] w v = v
run-Inv (x ∷ xs) w v = run-Inv xs (pool_step x w) (step-Inv x w v)

empty-Inv : Inv empty_pool
unfolding empty_pool
empty-Inv = ground arith

closed_once :
    (w : Pool)
    → Inv w
    → w.closed ≡ true
    → (w.active ≡ 0) × (w.releases ≡ 1) × (w.made_entries ≡ w.started + w.leaked + w.dropped)
closed_once w v h = ground arith

-- In every order of the requests and the calls of `aclose`: once the transport is closed no request is
-- active, the runtime has been released once, and of every entry that there has been the close was
-- started, or it was left by a request that had taken it off and ended early, or the loop of the close
-- ended early before it.
pub run_pool-Closed :
    (xs : List Action)
    → (run_pool xs empty_pool).closed ≡ true
    → ((run_pool xs empty_pool).active ≡ 0)
      × ((run_pool xs empty_pool).releases ≡ 1)
      × ((run_pool xs empty_pool).made_entries
          ≡ (run_pool xs empty_pool).started
            + (run_pool xs empty_pool).leaked
            + (run_pool xs empty_pool).dropped)
run_pool-Closed xs h = closed_once (run_pool xs empty_pool) (run-Inv xs empty_pool empty-Inv) h
