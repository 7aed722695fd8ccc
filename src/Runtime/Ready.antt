-- ===== src/Runtime/Ready.antt =====
-- `ManagedRuntime.ensure` and `ensure_async`: waiting until an instance is ready or the deadline has
-- passed. The two differ in how they sleep between two rounds.
use go_httpx.Prelude.{
  ℕ, ◌≤◌, ◌≡◌, ◌≢◌, ◌⊎◌, Bool, true, false, none, some, arith, List, [], ◌∷◌, leb, if◌then◌else◌,
  ok, err,
}
use go_httpx.Runtime.{
  Config, Instance, Runtime, RuntimeError, unavailable_timeout, running, request_ready,
}

-- What a round meets: the time and whether the current process lives, and what the other threads do
-- to the runtime during the wait after it.
pub record Round : Type 0 where
  pub now : ℕ
  pub alive : Bool
  pub meanwhile : Runtime → Runtime

pub data Outcome : Type 0 where
  ready : Instance → Outcome
  raised : RuntimeError → Outcome
  waiting : Outcome

-- `waiting` stands for a wait that has not ended with the rounds at hand.
unfoldable pub ensure : Config → ℕ → Bool → ℕ → List Round → Runtime → Outcome × Runtime
ensure cfg pid pin deadline [] rt = (waiting, rt)
ensure cfg pid pin deadline (r ∷ rounds) rt =
    let (answer, rt') = request_ready cfg pid pin r.alive rt in
    elim answer [
      | err e ↦ (raised e, rt')
      | ok found ↦ elim found [
        | some i ↦ (ready i, rt')
        | none ↦
            let later = ensure cfg pid pin deadline rounds (r.meanwhile rt') in
            if leb deadline r.now
            then (raised (unavailable_timeout rt'.last_failure), rt')
            else later
      ]
    ]

-- An instance that `ensure` returns is the current one of a runtime that runs, has not been stopped
-- and has not failed.
pub ensure_ready :
    (cfg : Config) (pid deadline : ℕ) (pin : Bool) (rounds : List Round) (rt : Runtime)
    (i : Instance)
    → (ensure cfg pid pin deadline rounds rt).0 ≡ ready i
    → let rt' = (ensure cfg pid pin deadline rounds rt).1 in
      (rt'.current ≡ some i)
      × (rt'.phase ≡ running)
      × (rt'.stop ≡ false)
      × (rt'.fatal ≡ false)
      × (rt'.wanted ≡ true)
unfolding ensure request_ready
ensure_ready cfg pid deadline pin [] rt i h = ground arith
ensure_ready cfg pid deadline pin (r ∷ rounds) rt i h = ground (
  arith,
  ensure_ready cfg pid deadline pin rounds (r.meanwhile (request_ready cfg pid pin r.alive rt).1) i,
)

-- Some round is at the deadline or behind it.
abbrev pub Reaches : ℕ → List Round → Type 0
Reaches deadline [] = ⊥
Reaches deadline (r ∷ rounds) = (deadline ≤ r.now) ⊎ Reaches deadline rounds

-- The wait ends, with an instance or an exception, at the deadline at the latest.
pub ensure_ends :
    (cfg : Config) (pid deadline : ℕ) (pin : Bool) (rounds : List Round) (rt : Runtime)
    → Reaches deadline rounds
    → (ensure cfg pid pin deadline rounds rt).0 ≢ waiting
unfolding ensure request_ready
ensure_ends cfg pid deadline pin [] rt h = absurd h
ensure_ends cfg pid deadline pin (r ∷ rounds) rt h = ground (
  arith,
  ensure_ends cfg pid deadline pin rounds (r.meanwhile (request_ready cfg pid pin r.alive rt).1),
)
