-- ===== src/Transport/Async/Ends.antt =====
-- The close of `_AsyncGoTransport` in python/gohttpx.py once its requests have ended: it comes to its end
-- whatever the tasks do between its parts.
use go_httpx.Prelude.{
  ℕ, zero, suc, ◌≤◌, ◌≡◌, ◌≢◌, refl, ◌⊎◌, inl, inr, true, false, List, [], ◌∷◌, arith,
}
use go_httpx.Transport.Async.Tasks.{
  Closer, no_closer, draining, reading, choosing, finished, cancelled, joining, deleting, World,
  Action, act, run, close_cancelled,
}
use go_httpx.Transport.Async.Invariant.{Closes}
use go_httpx.Transport.Async.Reach.{after, after-Inv}
use go_httpx.Transport.Async.Parts.{parts_left, last_parts, Quiet, Due, act-Advances, Due-Advances}

-- The actions have some among them in their order, and none cancels the close.
abbrev pub Makes : List Action → List Action → Type 0
Makes [] [] = Unit {0}
Makes (s ∷ steps) [] = ⊥
Makes [] (x ∷ xs) = (x ≢ close_cancelled) × Makes [] xs
Makes (s ∷ steps) (x ∷ xs) =
    (x ≢ close_cancelled) × (((x ≡ s) × Makes steps xs) ⊎ Makes (s ∷ steps) xs)

runs_out :
    (n : ℕ) (xs : List Action) (w : World)
    → n ≤ 5
    → Due n w
    → Makes (last_parts n) xs
    → Due 0 (run xs w)
unfolding run
runs_out zero [] w small d m = d
runs_out zero (x ∷ xs) w small d (free, m) =
    runs_out zero xs (act x w) small (Due-Advances zero x w d (act-Advances zero x w small free d))
      m
runs_out (suc n) [] w small d m = absurd m
runs_out (suc n) (x ∷ xs) w small d (free, inl (e, m)) =
    let v = act-Advances (suc n) x w small free d in
    let next = Due-Advances (suc n) x w d v in
    runs_out n xs (act x w) (omega arith)
      (record { inv = next.inv; quiet = next.quiet; begun = next.begun; left = v.fewer n refl e }) m
runs_out (suc n) (x ∷ xs) w small d (free, inr m) =
    runs_out (suc n) xs (act x w) small
      (Due-Advances (suc n) x w d (act-Advances (suc n) x w small free d)) m

ended_closed : (w : World) (c : Closer) → Closes c w → parts_left c ≤ 0 → w.shared.closed ≡ true
ended_closed w finished p h = p.0
ended_closed w no_closer p h = absurd (omega (arith, h))
ended_closed w cancelled p h = absurd (omega (arith, h))
ended_closed w draining p h = absurd (omega (arith, h))
ended_closed w reading p h = absurd (omega (arith, h))
ended_closed w (joining a) p h = absurd (omega (arith, h))
ended_closed w (choosing a) p h = absurd (omega (arith, h))
ended_closed w (deleting id) p h = absurd (omega (arith, h))

begun_closing :
    (w : World) (c : Closer)
    → Closes c w
    → parts_left c ≤ 5
    → w.shared.closed ≡ false
    → w.shared.closing ≡ true
begun_closing w draining p h q = p.0
begun_closing w reading p h q = p.0
begun_closing w (joining a) p h q = p.0
begun_closing w (choosing a) p h q = p.0
begun_closing w (deleting id) p h q = p.0
begun_closing w finished p h q = absurd (ground (arith, p.0))
begun_closing w no_closer p h q = absurd (omega (arith, h))
begun_closing w cancelled p h q = absurd (omega (arith, h))

-- In every order of the tasks: where a close has begun and is neither over nor cancelled, no request is
-- active, and the attempt that the transport has or that the close waits for is done, the transport is
-- closed once the parts that the close has before it have been made in their order, whatever the tasks do
-- before, between and after them, unless the close is cancelled.
pub begun_close_ends :
    (actions more : List Action) (n : ℕ)
    → parts_left (after actions).closer ≤ n
    → n ≤ 5
    → (after actions).shared.closed ≡ false
    → Quiet (after actions)
    → Makes (last_parts n) more
    → (run more (after actions)).shared.closed ≡ true
begun_close_ends actions more n left small open_ quiet m =
    let w = after actions in
    let inv = after-Inv actions in
    let begun = begun_closing w w.closer inv.closer_place (omega arith) open_ in
    let d =
      runs_out n more w small (record { inv = inv; quiet = quiet; begun = begun; left = left }) m in
    ended_closed (run more w) (run more w).closer d.inv.closer_place d.left
