-- ===== src/Process/Code.antt =====
-- The exit code of a `JobProcess` of python/_gohttpx_windows.py.
use go_httpx.Prelude.{ℕ, Bool, true, false, Option, none, some, if◌then◌else◌, ok, err, ◌≡◌, arith}
use go_httpx.Process.{
  End, Process, Act, resume, Waited, ◌>>=◌, ◌>>◌, close, close_stream, streams, wait_and_drop,
  drop_handle, poll, wait, kill, Answers,
}

unfoldable pub HasCode : ℕ → Process → Type 0
HasCode code p = p.returncode ≡ some code

module _ (code : ℕ) where
  -- A method that changes no code.
  Keeps : {A : Type 0} → Act A → Type 0
  Keeps m = (p : Process) → HasCode code p → HasCode code (m p).1

  then-Keeps :
      {A B : Type 0} (m : Act A) (f : A → Act B)
      → Keeps m
      → ((a : A) → Keeps (f a))
      → Keeps (m >>= f)
  unfolding Keeps
  then-Keeps m f first rest p known =
      let r = (m p).0 in
      elim r as (λ x. HasCode code (resume f x (m p).1).1) [
        | ok a ↦ rest a (m p).1 (first p known)
        | err e ↦ first p known
      ]

  poll-Known :
      (w : Waited) (c : Option ℕ) (p : Process) → HasCode code p → poll w c p ≡ (ok (some code), p)
  unfolding poll HasCode
  poll-Known w c p known = ground arith

  wait-Keeps : (a : Answers) → Keeps (wait a)
  unfolding wait Keeps HasCode poll
  wait-Keeps a p known = ground arith

  kill-Keeps : (a : Answers) → Keeps (kill a)
  unfolding kill Keeps HasCode
  kill-Keeps a p known = ground arith

  stream-Keeps : (b : Bool) (s : Option End) → Keeps (close_stream b s)
  unfolding Keeps HasCode
  stream-Keeps true none p known = known
  stream-Keeps true (some e) p known = known
  stream-Keeps false none p known = known
  stream-Keeps false (some e) p known = known

  streams-Keeps : (a : Answers) → Keeps (streams a)
  unfolding Keeps
  streams-Keeps a p =
      then-Keeps (close_stream a.closes_stdin p.stdin >> close_stream a.closes_stdout p.stdout)
        (λ _. close_stream a.closes_stderr p.stderr)
        (then-Keeps (close_stream a.closes_stdin p.stdin)
          (λ _. close_stream a.closes_stdout p.stdout) (stream-Keeps a.closes_stdin p.stdin)
          λ _. stream-Keeps a.closes_stdout p.stdout)
        (λ _. stream-Keeps a.closes_stderr p.stderr) p

  drop-Keeps : (a : Answers) → Keeps (wait a >>= λ _. drop_handle)
  unfolding Keeps HasCode
  drop-Keeps a = then-Keeps (wait a) (λ _. drop_handle) (wait-Keeps a) λ _ p known. known

  wait_and_drop-Keeps : (a : Answers) → Keeps (wait_and_drop a)
  unfolding Keeps
  wait_and_drop-Keeps a p known =
      elim p.process
        as (λ b. HasCode code (if b then (wait a >>= λ _. drop_handle) p else (ok tt, p)).1) [
          | true ↦ drop-Keeps a p known
          | false ↦ known
        ]

  close-Keeps : (a : Answers) → Keeps (close a)
  unfolding close
  close-Keeps a =
      then-Keeps (kill a >> wait_and_drop a) (λ _. streams a)
        (then-Keeps (kill a) (λ _. wait_and_drop a) (kill-Keeps a) λ _. wait_and_drop-Keeps a)
        λ _. streams-Keeps a

-- Once a method has read the exit code, no call of a method changes it, whatever the system answers, and
-- `poll` returns it and leaves the object as it is.
pub returncode-HasCode :
    (code : ℕ) (p : Process) (a : Answers)
    → HasCode code p
    → (poll a.polled a.exit_code p ≡ (ok (some code), p))
      × HasCode code (wait a p).1
      × HasCode code (kill a p).1
      × HasCode code (close a p).1
unfolding Keeps
returncode-HasCode code p a known = (
  poll-Known code a.polled a.exit_code p known,
  wait-Keeps code a p known,
  kill-Keeps code a p known,
  close-Keeps code a p known,
)
