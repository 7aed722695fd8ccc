-- ===== src/Managed/Entries/Objects.antt =====
-- The entries of the table one by one: which of them are open, and what each change keeps.
use go_httpx.Prelude.{
  ℕ, suc, ◌≤◌, ◌≡◌, refl, inl, inr, Bool, true, false, some, List, [], ◌∷◌, map, arith, All, length,
  length-map, sym, ◌∙◌, ◌<◌, ◌+◌,
}
use go_httpx.Managed.Entries.{
  Entry, find_listed, at_key, add_user, fail_user, release_user, prune_entry, clear_entry, HasKey,
  new_entry, holders, close_entry, drop_entry, closes_due,
}

-- An entry whose transport nobody has closed, is to close or has failed to close.
pub record Open (e : Entry) : Type 0 where
  pub not_closed : e.closes ≡ 0
  pub not_due : e.due ≡ false
  pub not_dropped : e.dropped ≡ false

abbrev pub count : Bool → ℕ
count true = 1
count false = 0

-- An entry that is in the table or in use is open. Any other that holds a transport has been closed once,
-- or its close is due, or it was dropped, and only one of these. An entry with no transport is in the
-- table only while somebody holds it.
pub record EntryOk (e : Entry) : Type 0 where
  pub open_listed : e.listed ≡ true → Open e
  pub open_used : 1 ≤ e.users → Open e
  pub closed_once :
      e.listed ≡ false → e.users ≡ 0 → e.made ≡ true → e.closes + count e.due + count e.dropped ≡ 1
  pub failed_open : e.made ≡ false → Open e
  pub failed_listed : e.made ≡ false → e.listed ≡ true → 1 ≤ e.users

pub at_key-All :
    (P Q : Entry → Type 0) (f : Entry → Entry) (k : ℕ) (es : List Entry)
    → ((e : Entry) → P e → Q e → Q (f e))
    → HasKey P k es
    → All Q es
    → All Q (at_key f k es)
unfolding at_key
at_key-All P Q f k [] keep h a = tt
at_key-All P Q f k (e ∷ es) keep (inl (here_key, p)) a = ground (arith, keep e p a.0)
at_key-All P Q f k (e ∷ es) keep (inr (other, p)) a =
    ground (arith, at_key-All P Q f k es keep p a.1)

pub map-All :
    (Q : Entry → Type 0) (f : Entry → Entry) (es : List Entry)
    → ((e : Entry) → Q e → Q (f e))
    → All Q es
    → All Q (map f es)
map-All Q f [] keep a = tt
map-All Q f (e ∷ es) keep a = (keep e a.0, map-All Q f es keep a.1)

pub add_user-Ok : (e : Entry) → (e.listed ≡ true) → EntryOk e → EntryOk (add_user e)
add_user-Ok e l v = ground arith

pub fail_user-Ok :
    (e : Entry) → (1 ≤ e.users) × (e.made ≡ false) → EntryOk e → EntryOk (fail_user e)
fail_user-Ok e h v = ground arith

pub release_user-Ok :
    (invalidate : Bool) (e : Entry)
    → (1 ≤ e.users) × (e.made ≡ true)
    → EntryOk e
    → EntryOk (release_user invalidate e)
release_user-Ok invalidate e h v = ground arith

pub prune_entry-Ok : (i : ℕ) (e : Entry) → EntryOk e → EntryOk (prune_entry i e)
unfolding prune_entry
prune_entry-Ok i e v = ground arith

pub clear_entry-Ok : (e : Entry) → e.users ≡ 0 → EntryOk e → EntryOk (clear_entry e)
unfolding clear_entry
clear_entry-Ok e h v = ground arith

pub close_entry-Ok : (e : Entry) → e.due ≡ true → EntryOk e → EntryOk (close_entry e)
unfolding close_entry
close_entry-Ok e h v = ground arith

pub drop_entry-Ok : (e : Entry) → e.due ≡ true → EntryOk e → EntryOk (drop_entry e)
unfolding drop_entry
drop_entry-Ok e h v = ground arith

-- Each object has the key that its place in the order of creation gives it.
abbrev pub Keyed : List Entry → Type 0
Keyed [] = Unit {0}
Keyed (e ∷ es) = (e.key ≡ length es) × Keyed es

pub length-at_key :
    (f : Entry → Entry) (k : ℕ) (es : List Entry) → length (at_key f k es) ≡ length es
unfolding at_key
length-at_key f k [] = refl
length-at_key f k (e ∷ es) = ground (arith, length-at_key f k es)

pub at_key-Keyed :
    (f : Entry → Entry) (k : ℕ) (es : List Entry)
    → ((e : Entry) → (f e).key ≡ e.key)
    → Keyed es
    → Keyed (at_key f k es)
unfolding at_key
at_key-Keyed f k [] same v = tt
at_key-Keyed f k (e ∷ es) same v =
    ground (arith, same e, at_key-Keyed f k es same v.1, length-at_key f k es)

pub map-Keyed :
    (f : Entry → Entry) (es : List Entry)
    → ((e : Entry) → (f e).key ≡ e.key)
    → Keyed es
    → Keyed (map f es)
map-Keyed f [] same v = tt
map-Keyed f (e ∷ es) same v = (same e ∙ v.0 ∙ sym (length-map f es), map-Keyed f es same v.1)

pub find_listed-key-lt :
    (i : ℕ) (es : List Entry) (e : Entry) → Keyed es → find_listed i es ≡ some e → e.key < length es
unfolding find_listed
find_listed-key-lt i [] e v h = absurd (ground arith)
find_listed-key-lt i (x ∷ es) e v h = ground (arith, find_listed-key-lt i es e v.1)

pub find_listed-HasKey :
    (i : ℕ) (es : List Entry) (e : Entry)
    → Keyed es
    → find_listed i es ≡ some e
    → HasKey (λ x. x.listed ≡ true) e.key es
unfolding find_listed
find_listed-HasKey i [] e v h = ground arith
find_listed-HasKey i (x ∷ es) e v h =
    ground (arith, find_listed-HasKey i es e v.1, find_listed-key-lt i es e v.1)

pub clear-All :
    (es : List Entry) → holders es ≡ 0 → All EntryOk es → All EntryOk (map clear_entry es)
clear-All [] h a = tt
clear-All (e ∷ es) h a = (clear_entry-Ok e (ground arith) a.0, clear-All es (ground arith) a.1)

pub holders-add : (k : ℕ) (es : List Entry) → holders (at_key add_user k es) ≤ suc (holders es)
unfolding at_key
holders-add k [] = ground arith
holders-add k (e ∷ es) = ground (arith, holders-add k es)

pub holders-at_key :
    (f : Entry → Entry) (k : ℕ) (es : List Entry)
    → ((e : Entry) → (f e).users ≤ e.users)
    → holders (at_key f k es) ≤ holders es
unfolding at_key
holders-at_key f k [] le = ground arith
holders-at_key f k (e ∷ es) le = ground (arith, le e, holders-at_key f k es le)

pub holders-map :
    (f : Entry → Entry) (es : List Entry)
    → ((e : Entry) → (f e).users ≤ e.users)
    → holders (map f es) ≤ holders es
holders-map f [] le = ground arith
holders-map f (e ∷ es) le = ground (arith, le e, holders-map f es le)

-- A change that keeps what holds of every entry.
pub at_key-keeps :
    (Q : Entry → Type 0) (f : Entry → Entry) (k : ℕ) (es : List Entry)
    → ((e : Entry) → Q e → Q (f e))
    → All Q es
    → All Q (at_key f k es)
unfolding at_key
at_key-keeps Q f k [] keep a = tt
at_key-keeps Q f k (e ∷ es) keep a = ground (arith, keep e, at_key-keeps Q f k es keep a.1)

pub HasKey-holders :
    (P : Entry → Type 0) (k : ℕ) (es : List Entry)
    → ((e : Entry) → P e → 1 ≤ e.users)
    → HasKey P k es
    → 1 ≤ holders es
HasKey-holders P k [] used h = absurd h
HasKey-holders P k (e ∷ es) used (inl (q, p)) = omega (arith, used e p)
HasKey-holders P k (e ∷ es) used (inr (q, p)) = omega (arith, HasKey-holders P k es used p)

pub HasKey-due : (k : ℕ) (es : List Entry) → HasKey (λ e. e.due ≡ true) k es → 1 ≤ closes_due es
HasKey-due k [] h = absurd h
HasKey-due k (e ∷ es) (inl (q, p)) = ground arith
HasKey-due k (e ∷ es) (inr (q, p)) = ground (arith, HasKey-due k es p)

pub clear-unlisted : (es : List Entry) → All (λ e. e.listed ≡ false) (map clear_entry es)
unfolding clear_entry
clear-unlisted [] = tt
clear-unlisted (e ∷ es) = (ground arith, clear-unlisted es)

pub new-Ok : (k i : ℕ) (made : Bool) → EntryOk (new_entry k i made)
new-Ok k i made = ground arith

pub prune_entry-key : (i : ℕ) (e : Entry) → (prune_entry i e).key ≡ e.key
unfolding prune_entry
prune_entry-key i e = ground arith

pub clear_entry-key : (e : Entry) → (clear_entry e).key ≡ e.key
unfolding clear_entry
clear_entry-key e = ground arith

pub prune_entry-users : (i : ℕ) (e : Entry) → (prune_entry i e).users ≤ e.users
unfolding prune_entry
prune_entry-users i e = ground arith

pub clear_entry-users : (e : Entry) → (clear_entry e).users ≤ e.users
unfolding clear_entry
clear_entry-users e = ground arith

pub prune_entry-dropped :
    (i : ℕ) (e : Entry) → e.dropped ≡ false → (prune_entry i e).dropped ≡ false
unfolding prune_entry
prune_entry-dropped i e h = ground arith

pub clear_entry-dropped : (e : Entry) → e.dropped ≡ false → (clear_entry e).dropped ≡ false
unfolding clear_entry
clear_entry-dropped e h = ground arith
