-- ===== src/Transport/Async/Invariant.antt =====
-- What holds of the shared state of `_AsyncGoTransport` in python/gohttpx.py in every order of its tasks.
use go_httpx.Prelude.{
  ℕ, suc, ◌+◌, ◌≤◌, ◌≡◌, ◌≢◌, String, Bool, true, false, Option, none, some, List, [], ◌∷◌, length,
  arith,
}
use go_httpx.Transport.Async.{running, made, unused}
use go_httpx.Transport.Async.Tasks.{
  Closer, no_closer, draining, reading, choosing, finished, cancelled, joining, deleting, World,
  at_first, member, remove, sent_delete,
}

-- Each waiter waits for the attempt that is the current one.
abbrev pub Waits : Option ℕ → List ℕ → Type 0
Waits o [] = Unit {0}
Waits o (a ∷ rest) = (o ≡ some a) × Waits o rest

abbrev pub present : Option String → ℕ
present none = 0
present (some id) = 1

abbrev pub busy : Option ℕ → ℕ
busy none = 0
busy (some g) = 1

-- What the closing task may rely on at its place.
abbrev pub Closes : Closer → World → Type 0
Closes no_closer w = (w.shared.closing ≡ false) × (w.shared.closed ≡ false)
Closes draining w = (w.shared.closing ≡ true) × (w.shared.closed ≡ false)
Closes reading w = (w.shared.closing ≡ true) × (w.shared.closed ≡ false) × (w.shared.active ≡ 0)
Closes (joining a) w =
    (w.shared.closing ≡ true)
    × (w.shared.closed ≡ false)
    × (w.shared.active ≡ 0)
    × ((b : ℕ) → w.store b ≡ running → b ≡ a)
Closes (choosing a) w =
    (w.shared.closing ≡ true)
    × (w.shared.closed ≡ false)
    × (w.shared.active ≡ 0)
    × ((b : ℕ) → w.store b ≢ running)
Closes (deleting id) w =
    (w.shared.closing ≡ true)
    × (w.shared.closed ≡ false)
    × (w.shared.active ≡ 0)
    × ((b : ℕ) → w.store b ≢ running)
    × (id ≡ w.shared.client_id)
Closes finished w =
    (w.shared.closed ≡ true)
    × (w.shared.active ≡ 0)
    × ((b : ℕ) → w.store b ≢ running)
    × (w.deleted ≡ sent_delete w.shared.client_id)
Closes cancelled w = (w.shared.closing ≡ true) × (w.shared.closed ≡ false)

abbrev pub before_choosing : Closer → Bool
before_choosing (choosing a) = false
before_choosing (deleting id) = false
before_choosing finished = false
before_choosing _ = true

pub record Inv (w : World) : Type 0 where
  pub active_count :
      w.shared.active ≡ w.entered + length w.waiting + w.holding + w.leaving + busy w.rebuilding
  pub waiters_count : w.shared.waiters ≡ length w.waiting
  pub waits : Waits w.shared.attempt w.waiting
  pub in_flight : (a : ℕ) → w.store a ≡ running → w.shared.attempt ≡ some a
  pub first_only : (a : ℕ) → w.store a ≡ running → w.shared.client_id ≡ none
  pub made_kept : (a : ℕ) (id : String) → w.store a ≡ made id → present w.shared.client_id ≡ 1
  pub held_kept : 1 ≤ w.holding + busy w.rebuilding → present w.shared.client_id ≡ 1
  pub accounted :
      w.created ≡ w.shared.generation + w.lost + w.withdrawn + present w.shared.client_id
  pub closer_place : Closes w.closer w

pub remove-length :
    (a : ℕ) (ws : List ℕ) → member a ws ≡ true → suc (length (remove a ws)) ≡ length ws
remove-length a [] h = cc
remove-length a (b ∷ ws) h = ground (arith, remove-length a ws)

pub remove-Waits : (o : Option ℕ) (a : ℕ) (ws : List ℕ) → Waits o ws → Waits o (remove a ws)
remove-Waits o a [] v = tt
remove-Waits o a (b ∷ ws) v = ground (arith, remove-Waits o a ws v.1)

pub member-Waits :
    (o : Option ℕ) (a : ℕ) (ws : List ℕ) → member a ws ≡ true → Waits o ws → o ≡ some a
member-Waits o a [] h v = cc
member-Waits o a (b ∷ ws) h v = ground (arith, member-Waits o a ws)

pub empty-Waits : (o : Option ℕ) (ws : List ℕ) → length ws ≡ 0 → Waits o ws
empty-Waits o [] h = tt
empty-Waits o (b ∷ ws) h = ground arith

pub none-Waits : (o : Option ℕ) (ws : List ℕ) → Waits none ws → Waits o ws
none-Waits o [] h = tt
none-Waits o (b ∷ ws) h = cc

-- What is left of the waiters when one of them stops.
pub removed :
    (o : Option ℕ) (a : ℕ) (ws : List ℕ)
    → member a ws ≡ true
    → Waits o ws
    → (suc (length (remove a ws)) ≡ length ws)
      × Waits o (remove a ws)
      × (o ≡ some a)
      × (length (remove a ws) ≡ 0 → Waits none (remove a ws))
removed o a ws m h = (
  remove-length a ws m,
  remove-Waits o a ws h,
  member-Waits o a ws m h,
  empty-Waits none (remove a ws),
)

-- Two attempts are never in flight together.
pub alone : (w : World) → Inv w → (a b : ℕ) → w.store a ≡ running → w.store b ≡ running → b ≡ a
alone w v a b first second = ground (arith, v.in_flight a first, v.in_flight b second)

pub at_first-Inv : Inv at_first
unfolding at_first unused
at_first-Inv = ground arith
