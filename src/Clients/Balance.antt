-- ===== src/Clients/Balance.antt =====
-- What the constructors of the clients of python/gohttpx.py leave behind, and when the runtime may be
-- configured anew.
use go_httpx.Prelude.{
  ℕ, suc, ◌+◌, ◌≡◌, refl, Bool, true, false, ◌||◌, not, Option, List, [], ◌∷◌, All, if◌then◌else◌,
  Result, ok, err, arith, ◌∙◌,
}
use go_httpx.Runtime.{RuntimeError, Config, Runtime, new, acquire, release, request_ready, shutdown}
use go_httpx.Runtime.Ready.{Round, Outcome, ready, raised, waiting, ensure}
use go_httpx.Clients.{
  Module, ClientError, configuration_error, configure_runtime, status, managed, direct, Meets, Made,
  init_client, start_managed, after_acquire, make_direct, initialize, make_transport, with_runtime,
  unavailable, wrong_argument,
}

-- No other client comes or goes while a client waits for an instance.
unfoldable pub Quiet : List Round → Type 0
Quiet rounds = All (λ r. (rt : Runtime) → (r.meanwhile rt).users ≡ rt.users) rounds

request_ready-users :
    (cfg : Config) (pid : ℕ) (pin alive : Bool) (rt : Runtime)
    → (request_ready cfg pid pin alive rt).1.users ≡ rt.users
unfolding request_ready
request_ready-users cfg pid pin alive rt = ground arith

ensure-users :
    (cfg : Config) (pid : ℕ) (pin : Bool) (deadline : ℕ) (rounds : List Round) (rt : Runtime)
    → Quiet rounds
    → (ensure cfg pid pin deadline rounds rt).1.users ≡ rt.users
unfolding ensure Quiet
ensure-users cfg pid pin deadline [] rt q = refl
ensure-users cfg pid pin deadline (r ∷ rounds) rt (one, rest) =
    let rt' = (request_ready cfg pid pin r.alive rt).1 in
    ground (
      arith,
      request_ready-users cfg pid pin r.alive rt,
      one rt',
      ensure-users cfg pid pin deadline rounds (r.meanwhile rt') rest,
    )

-- What a constructor leaves: one more user of the runtime or one more direct transport where it returns,
-- and as many as before where it raises.
unfoldable pub Balanced : Module → Made → Type 0
Balanced m (ok managed, n) = (n.runtime.users ≡ m.runtime.users + 1) × (n.direct ≡ m.direct)
Balanced m (ok direct, n) = (n.runtime.users ≡ m.runtime.users) × (n.direct ≡ m.direct + 1)
Balanced m (err e, n) = (n.runtime.users ≡ m.runtime.users) × (n.direct ≡ m.direct)

initialize-Balanced :
    (b : Bool) (m : Module) (x : Made) → Balanced m x → Balanced m (initialize b x)
unfolding Balanced release
initialize-Balanced b m (err e, n) h = h
initialize-Balanced true m (ok t, n) h = h
initialize-Balanced false m (ok managed, n) h = ground arith
initialize-Balanced false m (ok direct, n) h = ground arith

acquire-taken :
    (cfg : Config) (pid : ℕ) (rt : Runtime)
    → (acquire cfg pid rt).0 ≡ ok tt
    → (acquire cfg pid rt).1.users ≡ rt.users + 1
unfolding acquire
acquire-taken cfg pid rt h = ground arith

acquire-kept :
    (cfg : Config) (pid : ℕ) (rt : Runtime) (e : RuntimeError)
    → (acquire cfg pid rt).0 ≡ err e
    → (acquire cfg pid rt).1.users ≡ rt.users
unfolding acquire
acquire-kept cfg pid rt e h = ground arith

nothing_made : (m : Module) (e : ClientError) → Balanced m (err e, m)
unfolding Balanced
nothing_made m e = (refl, refl)

module _ (a : Meets) (m : Module) where
  start_managed-Balanced :
      (x : Outcome × Runtime) → x.1.users ≡ m.runtime.users + 1 → Balanced m (start_managed a x m)
  unfolding Balanced release
  start_managed-Balanced (ready i, rt) h =
      elim a.checks_out
        as (λ b. Balanced m (
          if b
          then (ok managed, with_runtime rt m)
          else (err unavailable, with_runtime (release rt) m))) [
            | true ↦ (h, refl)
            | false ↦ ground arith
          ]
  start_managed-Balanced (raised e, rt) h = ground arith
  start_managed-Balanced (waiting, rt) h = ground arith

  after_acquire-Balanced :
      (is_async : Bool) (x : Result RuntimeError (Unit {0}) × Runtime)
      → Quiet a.rounds
      → (x.0 ≡ ok tt → x.1.users ≡ m.runtime.users + 1)
      → ((e : RuntimeError) → x.0 ≡ err e → x.1.users ≡ m.runtime.users)
      → Balanced m (after_acquire is_async a x m)
  unfolding Balanced
  after_acquire-Balanced is_async (err e, rt) q taken kept = (kept e refl, refl)
  after_acquire-Balanced true (ok u, rt) q taken kept = (taken refl, refl)
  after_acquire-Balanced false (ok u, rt) q taken kept =
      start_managed-Balanced (ensure m.config a.pid false a.deadline a.rounds rt)
        (ensure-users m.config a.pid false a.deadline a.rounds rt q ∙ taken refl)

  make_direct-Balanced : (is_async : Bool) → Balanced m (make_direct is_async a m)
  unfolding Balanced
  make_direct-Balanced true = ground arith
  make_direct-Balanced false =
      elim a.connects
        as (λ b.
          Balanced m
            (if b then (ok direct, record m { direct = suc m.direct }) else (err unavailable, m))) [
              | true ↦ ground arith
              | false ↦ (refl, refl)
            ]

  make_transport-Balanced :
      (is_async : Bool) → Quiet a.rounds → Balanced m (make_transport is_async a m)
  unfolding Balanced
  make_transport-Balanced is_async q =
      elim a.has_endpoint
        as (λ b. Balanced m (
          if b
          then make_direct is_async a m
          else (if a.has_token
              then (err configuration_error, m)
              else after_acquire is_async a (acquire m.config a.pid m.runtime) m))) [
                | true ↦ make_direct-Balanced is_async
                | false ↦
                    elim a.has_token
                      as (λ c. Balanced m (
                        if c
                        then (err configuration_error, m)
                        else after_acquire is_async a (acquire m.config a.pid m.runtime) m)) [
                          | true ↦ (refl, refl)
                          | false ↦
                              after_acquire-Balanced is_async (acquire m.config a.pid m.runtime) q
                                taken kept
                        ]
              ]
    where
      taken :
          (acquire m.config a.pid m.runtime).0 ≡ ok tt
          → (acquire m.config a.pid m.runtime).1.users ≡ m.runtime.users + 1
      taken h = acquire-taken m.config a.pid m.runtime h

      kept :
          (e : RuntimeError)
          → (acquire m.config a.pid m.runtime).0 ≡ err e
          → (acquire m.config a.pid m.runtime).1.users ≡ m.runtime.users
      kept e h = acquire-kept m.config a.pid m.runtime e h

-- Where no other client comes or goes meanwhile: the constructor of a client, with or without `async`,
-- adds one user of the runtime or one direct transport where it returns, and leaves as many of both as
-- before where it raises, wherever that is.
pub init_client-Balanced :
    (is_async : Bool) (a : Meets) (m : Module)
    → Quiet a.rounds
    → Balanced m (init_client is_async a m)
unfolding init_client
init_client-Balanced is_async a m q =
    elim (a.has_transport || a.has_mounts || not a.resolves)
      as (λ b. Balanced m (
        if b
        then (err wrong_argument, m)
        else initialize a.initializes (make_transport is_async a m))) [
          | true ↦ refused
          | false ↦
              initialize-Balanced a.initializes m (make_transport is_async a m)
                (make_transport-Balanced a m is_async q)
        ]
  where
    refused : Balanced m (err wrong_argument, m)
    refused = nothing_made m wrong_argument

-- The runtime is configured anew only where it has no clients and is stopped or closed; then the old one
-- is stopped and the new one has not begun.
pub configure_runtime_lem :
    (pid : ℕ) (candidate : Option Config) (m n : Module) (old : Runtime)
    → configure_runtime pid candidate m ≡ (ok old, n)
    → pid ≡ m.config.owner_pid
    → (m.runtime.users ≡ 0) × (n.runtime ≡ new) × (old.stop ≡ true) × (old.users ≡ 0)
unfolding configure_runtime status shutdown
configure_runtime_lem pid candidate m n old h own = ground arith
