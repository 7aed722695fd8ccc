-- ===== src/Managed/Entries/Closing.antt =====
-- Every transport of the table is closed at most once, never while a request uses it, and exactly once where
-- no exception ends a loop of closes.
use go_httpx.Prelude.{
  ℕ, ◌+◌, ◌≤◌, ◌≡◌, ◌≢◌, refl, inl, inr, Bool, true, false, List, [], ◌∷◌, arith, All, Option-cases,
  length, ◌<◌,
}
use go_httpx.Managed.Entries.{
  Entry, State, find_listed, at_key, add_user, checkout, fail_user, release_user, prune_entry,
  clear_entry, close_entry, drop_entry, begin, finish, holders, closes_due, HasKey, start_close,
  clear_table, end_close, Step, checks_out, fails, releases, prunes, closes_entry, breaks_off,
  drops_entry, constructed, begins, finishes, starts_close, clears, ends_close, Reach, here, next,
}
use go_httpx.Managed.Entries.Objects.{
  EntryOk, count, Keyed, at_key-All, map-All, add_user-Ok, fail_user-Ok, release_user-Ok,
  prune_entry-Ok, close_entry-Ok, drop_entry-Ok, at_key-Keyed, map-Keyed, find_listed-HasKey,
  clear-All, holders-add, holders-at_key, holders-map, at_key-keeps, clear-unlisted, new-Ok,
  prune_entry-key, clear_entry-key, prune_entry-users, clear_entry-users, prune_entry-dropped,
  clear_entry-dropped, HasKey-holders, HasKey-due,
}

-- No more entries are held than there are requests that have begun; once the table is cleared there are
-- none, and nothing is in the table; after the end no close is due. Where no loop has been broken off,
-- nothing is dropped.
pub record Inv (s : State) : Type 0 where
  pub keyed : Keyed s.entries
  pub sound : All EntryOk s.entries
  pub held : holders s.entries ≤ s.active + s.constructing
  pub idle : s.cleared ≡ true → (s.active ≡ 0) × (s.constructing ≡ 0) × (s.closing ≡ true)
  pub empty : s.cleared ≡ true → All (λ e. e.listed ≡ false) s.entries
  pub final : s.closed ≡ true → (s.cleared ≡ true) × (closes_due s.entries ≡ 0)
  pub kept : s.broke_off ≡ false → All (λ e. e.dropped ≡ false) s.entries

-- What a step does to one entry that is held or due, whose holder is no longer there at the end.
module _ (s : State) (v : Inv s) where
  nobody : s.cleared ≡ true → holders s.entries ≡ 0
  nobody c = ground (arith, v.held, v.idle c)

  not_closed_used :
      (P : Entry → Type 0) (k : ℕ)
      → ((e : Entry) → P e → 1 ≤ e.users)
      → HasKey P k s.entries
      → s.closed ≢ true
  not_closed_used P k used h c =
      ground (arith, HasKey-holders P k s.entries used h, nobody (v.final c).0)

  not_closed_due : (k : ℕ) → HasKey (λ e. e.due ≡ true) k s.entries → s.closed ≢ true
  not_closed_due k h c = ground (arith, HasKey-due k s.entries h, (v.final c).1)

checkout-Inv :
    (i : ℕ) (made : Bool) (s : State)
    → holders s.entries < s.active + s.constructing
    → Inv s
    → Inv (checkout i made s)
unfolding checkout
checkout-Inv i made s room v = elim (Option-cases (find_listed i s.entries)) [
  | inl e ↦
      rw (e, checkout)
        (record {
          keyed = (refl, v.keyed);
          sound = (new-Ok (length s.entries) i made, v.sound);
          held = ground arith;
          idle = v.idle;
          empty = λ c. absurd (ground (arith, v.idle c));
          final = λ c. absurd (ground (arith, v.idle (v.final c).0));
          kept = λ c. (refl, v.kept c);
        })
  | inr (x, e) ↦
      rw (e, checkout)
        (record {
          keyed = at_key-Keyed add_user x.key s.entries (λ y. refl) v.keyed;
          sound =
              at_key-All _ EntryOk add_user x.key s.entries add_user-Ok
                (find_listed-HasKey i s.entries x v.keyed e) v.sound;
          held = ground (arith, holders-add x.key s.entries);
          idle = v.idle;
          empty = λ c. absurd (ground (arith, v.idle c));
          final = λ c. absurd (ground (arith, v.idle (v.final c).0));
          kept = λ c.
              at_key-keeps (λ y. y.dropped ≡ false) add_user x.key s.entries (λ y q. q) (v.kept c);
        })
]

begin-Inv : (s : State) → Inv s → Inv (begin s).1
unfolding begin
begin-Inv s v = ground arith

start_close-Inv : (s : State) → Inv s → Inv (start_close s)
unfolding start_close
start_close-Inv s v = ground arith

-- A change to the entry with a key, by a thread that is still there.
at_key-Inv :
    (P : Entry → Type 0) (f : Entry → Entry) (k : ℕ) (s : State)
    → Inv s
    → HasKey P k s.entries
    → s.closed ≢ true
    → ((e : Entry) → (f e).key ≡ e.key)
    → ((e : Entry) → P e → EntryOk e → EntryOk (f e))
    → ((e : Entry) → (f e).users ≤ e.users)
    → ((e : Entry) → e.listed ≡ false → (f e).listed ≡ false)
    → (s.broke_off ≡ false → (e : Entry) → e.dropped ≡ false → (f e).dropped ≡ false)
    → Inv (record s { entries = at_key f k s.entries })
at_key-Inv P f k s v h open_ same sound le unlisted undropped = record {
  keyed = at_key-Keyed f k s.entries same v.keyed;
  sound = at_key-All P EntryOk f k s.entries sound h v.sound;
  held = ground (arith, holders-at_key f k s.entries le, v.held);
  idle = v.idle;
  empty = λ c. at_key-keeps (λ e. e.listed ≡ false) f k s.entries unlisted (v.empty c);
  final = λ c. absurd (open_ c);
  kept = λ c. at_key-keeps (λ e. e.dropped ≡ false) f k s.entries (undropped c) (v.kept c);
}

Step-Inv : {s t : State} → Step s t → Inv s → Inv t
Step-Inv (checks_out s i made room) v = checkout-Inv i made s room v
Step-Inv (fails s k h) v =
    at_key-Inv _ fail_user k s v h (not_closed_used s v _ k (λ e p. p.0) h) (λ e. refl) fail_user-Ok
      (λ e. ground arith) (λ e q. refl) (λ c e q. q)
Step-Inv (releases s k invalidate h) v =
    at_key-Inv _ (release_user invalidate) k s v h (not_closed_used s v _ k (λ e p. p.0) h)
      (λ e. refl) (release_user-Ok invalidate) (λ e. ground arith) (λ e q. ground arith)
      (λ c e q. q)
Step-Inv (prunes s i some_request) v = record {
  keyed = map-Keyed (prune_entry i) s.entries (prune_entry-key i) v.keyed;
  sound = map-All EntryOk (prune_entry i) s.entries (prune_entry-Ok i) v.sound;
  held = ground (arith, holders-map (prune_entry i) s.entries (prune_entry-users i), v.held);
  idle = v.idle;
  empty = λ c. absurd (ground (arith, v.idle c));
  final = λ c. absurd (ground (arith, v.idle (v.final c).0));
  kept = λ c.
      map-All (λ e. e.dropped ≡ false) (prune_entry i) s.entries (prune_entry-dropped i) (v.kept c);
}
Step-Inv (closes_entry s k h) v =
    unfold close_entry in
    at_key-Inv _ close_entry k s v h (not_closed_due s v k h) (λ e. refl) close_entry-Ok
      (λ e. omega arith) (λ e q. q) (λ c e q. q)
Step-Inv (breaks_off s h) v = record {
  keyed = v.keyed;
  sound = v.sound;
  held = v.held;
  idle = v.idle;
  empty = v.empty;
  final = v.final;
  kept = λ c. cc;
}
Step-Inv (drops_entry s k broke h) v =
    unfold drop_entry in
    at_key-Inv _ drop_entry k s v h (not_closed_due s v k h) (λ e. refl) drop_entry-Ok
      (λ e. omega arith) (λ e q. q) (λ c. cc)
Step-Inv (constructed s h none_due) v = record {
  keyed = v.keyed;
  sound = v.sound;
  held = ground arith;
  idle = λ c. ground (arith, v.idle c);
  empty = v.empty;
  final = v.final;
  kept = v.kept;
}
Step-Inv (begins s done) v = begin-Inv s v
Step-Inv (finishes s done room settled) v =
    unfold finish in
    record {
      keyed = v.keyed;
      sound = v.sound;
      held = ground arith;
      idle = λ c. ground (arith, v.idle c);
      empty = v.empty;
      final = v.final;
      kept = v.kept;
    }
Step-Inv (starts_close s done) v = start_close-Inv s v
Step-Inv (clears s closing once no_request done) v =
    unfold clear_table in
    record {
      keyed = map-Keyed clear_entry s.entries clear_entry-key v.keyed;
      sound = clear-All s.entries (ground (arith, v.held)) v.sound;
      held = ground (arith, holders-map clear_entry s.entries clear_entry-users, v.held);
      idle = λ c. (no_request, done, closing);
      empty = λ c. clear-unlisted s.entries;
      final = λ c. absurd (ground (arith, v.final c));
      kept = λ c.
          map-All (λ e. e.dropped ≡ false) clear_entry s.entries clear_entry-dropped (v.kept c);
    }
Step-Inv (ends_close s cleared none_due) v =
    unfold end_close in
    record {
      keyed = v.keyed;
      sound = v.sound;
      held = v.held;
      idle = v.idle;
      empty = v.empty;
      final = λ c. (cleared, none_due);
      kept = v.kept;
    }

Reach-Inv : {s : State} → Reach s → Inv s
Reach-Inv here = record {
  keyed = tt;
  sound = tt;
  held = ground arith;
  idle = λ c. absurd (ground arith);
  empty = λ c. tt;
  final = λ c. absurd (ground arith);
  kept = λ c. tt;
}
Reach-Inv (next q st) = Step-Inv st (Reach-Inv q)

-- Whatever the order in which requests take, give back, invalidate and prune transports: an entry in the
-- table or in use has not been closed, and one that holds a transport and is neither has been closed
-- exactly once, or the thread that took it off has yet to close it, or has dropped it because an exception
-- ended its closes.
pub Reach-EntryOk : {s : State} → Reach s → All EntryOk s.entries
Reach-EntryOk r = (Reach-Inv r).sound

unused-closed :
    (es : List Entry)
    → holders es ≡ 0
    → closes_due es ≡ 0
    → All (λ e. e.listed ≡ false) es
    → All EntryOk es
    → All (λ e. e.made ≡ true → e.closes + count e.dropped ≡ 1) es
unused-closed [] h d l a = tt
unused-closed (e ∷ es) h d l a = (
  λ m. ground (arith, a.0.closed_once l.0 (ground arith) m),
  unused-closed es (ground arith) (ground arith) l.1 a.1,
)

undropped-closed :
    (es : List Entry)
    → All (λ e. e.dropped ≡ false) es
    → All (λ e. e.made ≡ true → e.closes + count e.dropped ≡ 1) es
    → All (λ e. e.made ≡ true → e.closes ≡ 1) es
undropped-closed [] d a = tt
undropped-closed (e ∷ es) d a = (λ m. ground (arith, a.0 m), undropped-closed es d.1 a.1)

-- When the managed transport is closed, nobody holds an entry, and every transport that it ever made has
-- either been closed, exactly once, or dropped. Where no exception has ended a loop of closes, each has
-- been closed exactly once.
pub closed-All :
    {s : State}
    → Reach s
    → s.closed ≡ true
    → (holders s.entries ≡ 0)
      × All (λ e. e.made ≡ true → e.closes + count e.dropped ≡ 1) s.entries
      × (s.broke_off ≡ false → All (λ e. e.made ≡ true → e.closes ≡ 1) s.entries)
closed-All {s} r c =
    let v = Reach-Inv r in
    let unused = nobody s v (v.final c).0 in
    let settled = unused-closed s.entries unused (v.final c).1 (v.empty (v.final c).0) v.sound in
    (unused, settled, λ b. undropped-closed s.entries (v.kept b) settled)
