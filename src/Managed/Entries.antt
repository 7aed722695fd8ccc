-- ===== src/Managed/Entries.antt =====
-- `_ManagedState`: `_checkout`, `_release_entry`, `_prune`, `_begin`, `_finish` and the end of `close`.
-- A block under `_condition` is one step.
pub mod Objects
pub mod Closing
use go_httpx.Prelude.{
  ℕ, zero, suc, ◌+◌, ◌-◌, ◌≤◌, ◌≡◌, Bool, true, false, ◌&&◌, ◌||◌, not, Option, none, some, List,
  [], ◌∷◌, map, length, ltb, ◌⊎◌, ◌≢◌, ◌<◌, ◌==◌, if◌then◌else◌, Result, ok, err,
}
use go_httpx.Transport.{Fault, Go, service_unavailable}

-- An entry object. `listed` is whether `_entries[instance]` is this object; `made` whether `ready`
-- holds a transport rather than an exception. What the code does not keep: `due` is whether a thread that
-- has taken the entry off the table has yet to close it, `closes` counts the calls of the transport's
-- `close`, and `dropped` is whether an exception has ended that thread's loop before it came to the call.
pub record Entry : Type 0 where
  pub key : ℕ
  pub instance_object : ℕ
  pub users : ℕ
  pub listed : Bool
  pub made : Bool
  pub closes : ℕ
  pub due : Bool
  pub dropped : Bool

-- `constructing` is 1 while the constructor, which takes and gives back an entry of its own, runs;
-- `cleared` is whether `close` has emptied the table; `broke_off` whether an exception that `_close_entry`
-- does not catch has ever ended a loop over entries, or the method after `_release_entry`.
pub record State : Type 0 where
  pub entries : List Entry
  pub active : ℕ
  pub constructing : ℕ
  pub closing : Bool
  pub closed : Bool
  pub cleared : Bool
  pub broke_off : Bool

abbrev pub start : State
start = record {
  entries = [];
  active = 0;
  constructing = 1;
  closing = false;
  closed = false;
  cleared = false;
  broke_off = false;
}

-- `self._entries.get(instance)`
unfoldable pub find_listed : ℕ → List Entry → Option Entry
find_listed i [] = none
find_listed i (e ∷ es) = if e.listed && e.instance_object == i then some e else find_listed i es

-- A change to the object with a key.
unfoldable pub at_key : (Entry → Entry) → ℕ → List Entry → List Entry
at_key f k [] = []
at_key f k (e ∷ es) = if e.key == k then f e ∷ es else e ∷ at_key f k es

abbrev pub add_user : Entry → Entry
add_user e = record e { users = e.users + 1 }

abbrev pub new_entry : ℕ → ℕ → Bool → Entry
new_entry k i made = record {
  key = k;
  instance_object = i;
  users = 1;
  listed = true;
  made = made;
  closes = 0;
  due = false;
  dropped = false;
}

-- The first block of `_checkout`, and the factory's outcome where the entry is new.
unfoldable pub checkout : ℕ → Bool → State → State
unfolding find_listed at_key
checkout i made s = elim (find_listed i s.entries) [
  | some e ↦ record s { entries = at_key add_user e.key s.entries }
  | none ↦ record s { entries = new_entry (length s.entries) i made ∷ s.entries }
]

-- The handler of `_checkout`, for an entry whose `ready` holds an exception.
abbrev pub fail_user : Entry → Entry
fail_user e = record e { users = e.users - 1; listed = false }

-- `_release_entry`. Where it returns True its caller closes the entry.
abbrev pub release_user : Bool → Entry → Entry
release_user invalidate e =
    let users = e.users - 1 in
    let listed = e.listed && not invalidate in
    record e {
      users = users;
      listed = listed;
      due = (if users == 0 && not listed then true else e.due);
    }

-- `_prune`. Its caller closes the entries that it returns.
unfoldable pub prune_entry : ℕ → Entry → Entry
prune_entry i e =
    if e.listed && not (e.instance_object == i) && e.users == 0
    then record e { listed = false; due = true }
    else e

-- The table is cleared by `close`, which closes every entry that was in it and holds a transport.
unfoldable pub clear_entry : Entry → Entry
clear_entry e =
    if e.listed then record e { listed = false; due = (if e.made then true else e.due) } else e

-- `_close_entry` comes to the call of `close`, whatever that raises.
unfoldable pub close_entry : Entry → Entry
close_entry e = record e { due = false; closes = e.closes + 1 }

-- An exception of `is_current` before the call, or of an earlier entry's close.
unfoldable pub drop_entry : Entry → Entry
drop_entry e = record e { due = false; dropped = true }

unfoldable pub begin : State → Go (Unit {0}) × State
begin s =
    if s.closing || s.closed
    then (err service_unavailable, s)
    else (ok tt, record s { active = s.active + 1 })

unfoldable pub finish : State → State
finish s = record s { active = s.active - 1 }

-- The blocks of `close`: the flag is set; when no request is active the table is cleared; when the loop
-- over its entries has ended, the `finally` sets `_closed`.
unfoldable pub start_close : State → State
start_close s = if s.closed || s.closing then s else record s { closing = true }

unfoldable pub clear_table : State → State
unfolding clear_entry
clear_table s = record s { entries = map clear_entry s.entries; cleared = true }

unfoldable pub end_close : State → State
end_close s = record s { closed = true }

-- How many hold an entry.
abbrev pub holders : List Entry → ℕ
holders [] = 0
holders (e ∷ es) = e.users + holders es

-- How many closes are due.
abbrev pub closes_due : List Entry → ℕ
closes_due [] = 0
closes_due (e ∷ es) = let n = closes_due es in if e.due then suc n else n

abbrev pub HasKey : (Entry → Type 0) → ℕ → List Entry → Type 0
HasKey P k [] = ⊥
HasKey P k (e ∷ es) = ((e.key ≡ k) × P e) ⊎ ((e.key ≢ k) × HasKey P k es)

-- Who may act, in the order of each thread's code: a request takes an entry when it has begun and holds
-- none, gives it back, as a failed one or as a good one, and finishes when it holds none and has closed or
-- dropped what it has taken off the table, so that the last request leaves no close due; so does the
-- constructor, before there are requests. The table is cleared when the wait of `close` has ended, and the
-- `finally` runs when the closes due, which are then its own, are made or dropped.
pub data Step : State → State → Type 0 where
  checks_out :
      (s : State) (i : ℕ) (made : Bool)
      → holders s.entries < s.active + s.constructing
      → Step s (checkout i made s)
  fails :
      (s : State) (k : ℕ)
      → HasKey (λ e. (1 ≤ e.users) × (e.made ≡ false)) k s.entries
      → Step s (record s { entries = at_key fail_user k s.entries })
  releases :
      (s : State) (k : ℕ) (invalidate : Bool)
      → HasKey (λ e. (1 ≤ e.users) × (e.made ≡ true)) k s.entries
      → Step s (record s { entries = at_key (release_user invalidate) k s.entries })
  prunes :
      (s : State) (i : ℕ)
      → 1 ≤ s.active
      → Step s (record s { entries = map (prune_entry i) s.entries })
  closes_entry :
      (s : State) (k : ℕ)
      → HasKey (λ e. e.due ≡ true) k s.entries
      → Step s (record s { entries = at_key close_entry k s.entries })
  breaks_off : (s : State) → 1 ≤ closes_due s.entries → Step s (record s { broke_off = true })
  drops_entry :
      (s : State) (k : ℕ)
      → s.broke_off ≡ true
      → HasKey (λ e. e.due ≡ true) k s.entries
      → Step s (record s { entries = at_key drop_entry k s.entries })
  constructed :
      (s : State)
      → holders s.entries ≡ 0
      → closes_due s.entries ≡ 0
      → Step s (record s { constructing = 0 })
  begins : (s : State) → s.constructing ≡ 0 → Step s (begin s).1
  finishes :
      (s : State)
      → s.constructing ≡ 0
      → holders s.entries < s.active
      → (s.active ≡ 1 → closes_due s.entries ≡ 0)
      → Step s (finish s)
  starts_close : (s : State) → s.constructing ≡ 0 → Step s (start_close s)
  clears :
      (s : State)
      → s.closing ≡ true
      → s.cleared ≡ false
      → s.active ≡ 0
      → s.constructing ≡ 0
      → Step s (clear_table s)
  ends_close : (s : State) → s.cleared ≡ true → closes_due s.entries ≡ 0 → Step s (end_close s)

pub data Reach : State → Type 0 where
  here : Reach start
  next : {s t : State} → Reach s → Step s t → Reach t
