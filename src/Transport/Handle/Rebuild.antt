-- ===== src/Transport/Handle/Rebuild.antt =====
-- `_rebuild` under many threads: each lost session is replaced at most once, but for interrupted rebuilds.
use go_httpx.Prelude.{
  ℕ, ◌+◌, ◌≤◌, ◌≡◌, ◌≢◌, refl, ◌⊎◌, inl, String, true, false, Option, none, some, arith,
}
use go_httpx.Transport.{Fault}
use go_httpx.Transport.Handle.{Transport, build, enter, rebuild_failed, rebuild_done}

-- A transport, the create requests sent for the session that it has now, and those of them that an
-- exception outside `Exception` has ended, which the code does not count.
pub record Counted : Type 0 where
  pub transport : Transport
  pub creations : ℕ
  pub interrupted : ℕ

abbrev pub one_if_none : Option Fault → ℕ
one_if_none none = 1
one_if_none (some fault) = 0

-- The locked blocks of `_rebuild`, by any thread: it enters with the generation that it saw and builds,
-- and the thread that builds ends with an exception or with a session. A close may begin in between.
pub data Step : Counted → Counted → Type 0 where
  enters :
      (s : Counted) (g : ℕ)
      → enter g s.transport ≡ build
      → Step s (record {
        transport = record s.transport { rebuilding = true };
        creations = s.creations + 1;
        interrupted = s.interrupted;
      })
  ends_badly :
      (s : Counted) (fault : Option Fault)
      → s.transport.rebuilding ≡ true
      → Step s (record s {
        transport = rebuild_failed s.transport.generation fault s.transport;
        interrupted = s.interrupted + one_if_none fault;
      })
  ends_well :
      (s : Counted) (id : String)
      → s.transport.rebuilding ≡ true
      → Step s (record { transport = rebuild_done id s.transport; creations = 0; interrupted = 0 })
  closes : (s : Counted) → Step s (record s { transport = record s.transport { closing = true } })

-- What a transport with its first session is.
pub data Reach (t : Transport) : Counted → Type 0 where
  here : Reach t (record { transport = t; creations = 0; interrupted = 0 })
  next : {s u : Counted} → Reach t s → Step s u → Reach t u

-- Beside those that were interrupted, a create request has been sent while one is on its way or after its
-- failure has been kept.
record Inv (s : Counted) : Type 0 where
  idle :
      s.transport.rebuilding ≡ false
      → (s.creations ≡ s.interrupted)
        ⊎ ((s.creations ≡ s.interrupted + 1)
            × (s.transport.failed_generation ≡ some s.transport.generation)
            × (s.transport.rebuild_error ≢ none))
  busy : s.transport.rebuilding ≡ true → s.creations ≡ s.interrupted + 1

enters-Inv :
    (s : Counted) (g : ℕ)
    → enter g s.transport ≡ build
    → Inv s
    → Inv (record {
      transport = record s.transport { rebuilding = true };
      creations = s.creations + 1;
      interrupted = s.interrupted;
    })
unfolding enter
enters-Inv s g h v = ground arith

Step-Inv : {s u : Counted} → Step s u → Inv s → Inv u
unfolding rebuild_failed rebuild_done
Step-Inv (enters s g h) v = enters-Inv s g h v
Step-Inv (ends_badly s none h) v = ground arith
Step-Inv (ends_badly s (some fault) h) v = ground arith
Step-Inv (ends_well s id h) v = ground arith
Step-Inv (closes s) v = record { idle = v.idle; busy = v.busy }

-- Where a transport starts with no rebuild going on, at most one create request is sent for each session
-- that is lost, however many requests find it lost and whether or not the request succeeds, and one more
-- for each that was ended by an exception outside `Exception`.
pub creations-le :
    {t : Transport} {s : Counted}
    → t.rebuilding ≡ false
    → Reach t s
    → s.creations ≤ s.interrupted + 1
creations-le {t} {s} open_ r = ground (arith, inv r)
  where
    inv : {u : Counted} → Reach t u → Inv u
    inv here = record { idle = λ h. inl refl; busy = λ h. absurd (ground arith) }
    inv (next q st) = Step-Inv st (inv q)
