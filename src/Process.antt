-- ===== src/Process.antt =====
-- `JobProcess` of python/_gohttpx_windows.py: a child process in a Windows job, with three pipes. The
-- object, and what the operating system holds for it. Every call of the system may fail.
pub mod Create
pub mod Safety
pub mod Code
use go_httpx.Prelude.{
  ℕ, Bool, true, false, ◌&&◌, ◌||◌, not, Option, none, some, List, [], ◌∷◌, ◌++◌, ◌==◌,
  if◌then◌else◌, Result, ok, err,
}

-- The six ends of the pipes, in the order in which `os.pipe` gives them. A descriptor is known by its
-- end, not by its number.
pub data End : Type 0 where
  stdin_read stdin_write stdout_read stdout_write stderr_read stderr_write : End

-- `descriptors` is the list of the constructor. `open_ends`, `thread_handle` and `attributes` are what the
-- system holds: the open descriptors, the handle of the first thread, the attribute list.
pub record Process : Type 0 where
  pub job : Bool
  pub process : Bool
  pub returncode : Option ℕ
  pub stdin : Option End
  pub stdout : Option End
  pub stderr : Option End
  pub descriptors : List End
  pub open_ends : List End
  pub thread_handle : Bool
  pub attributes : Bool

pub data OsError : Type 0 where
  win_error : OsError
  timeout_expired : OsError
  os_error : OsError

-- A method leaves the state that it had reached when it raises.
abbrev pub Act : Type 0 → Type 0
Act A = Process → Result OsError A × Process

abbrev pub resume :
    {A B : Type 0} → (A → Act B) → Result OsError A → Process → Result OsError B × Process
resume f (ok a) p = f a p
resume f (err e) p = (err e, p)

infixl 5 ◌>>=◌ ◌>>◌
abbrev pub ◌>>=◌ : {A B : Type 0} → Act A → (A → Act B) → Act B
◌>>=◌ m f p = let (r, p') = m p in resume f r p'

abbrev pub ◌>>◌ : {B : Type 0} → Act (Unit {0}) → Act B → Act B
m >> k = m >>= λ _. k

-- `_check(result)`, and any other call that raises where it fails; a change where it does not.
abbrev pub checked : Bool → OsError → (Process → Process) → Act (Unit {0})
checked true e change p = (ok tt, change p)
checked false e change p = (err e, p)

-- `WaitForSingleObject`: the process has ended, the time is over, or the call failed.
pub data Waited : Type 0 where
  signalled timed_out wait_failed : Waited

-- What the calls that the methods make answer. `exit_code` is `none` where `GetExitCodeProcess` fails.
pub record Answers : Type 0 where
  pub closes_job : Bool
  pub waited : Waited
  pub polled : Waited
  pub exit_code : Option ℕ
  pub closes_stdin : Bool
  pub closes_stdout : Bool
  pub closes_stderr : Bool

abbrev exited : Option ℕ → Act (Option ℕ)
exited none p = (err win_error, p)
exited (some code) p = (ok (some code), record p { returncode = some code })

-- `poll`, from the handle on.
abbrev poll_handle : Waited → Option ℕ → Act (Option ℕ)
poll_handle timed_out code p = (ok none, p)
poll_handle wait_failed code p = (err win_error, p)
poll_handle signalled code p = exited code p

abbrev has : Option ℕ → Bool
has none = false
has (some _) = true

unfoldable pub poll : Waited → Option ℕ → Act (Option ℕ)
poll waited code p =
    if has p.returncode || not p.process then (ok p.returncode, p) else poll_handle waited code p

abbrev wait_handle : Waited → Act (Option ℕ) → Act (Option ℕ)
wait_handle timed_out rest p = (err timeout_expired, p)
wait_handle wait_failed rest p = (err win_error, p)
wait_handle signalled rest p = rest p

-- `wait` calls `poll` once the process has ended.
unfoldable pub wait : Answers → Act (Option ℕ)
unfolding poll
wait a p =
    if not p.process
    then (ok p.returncode, p)
    else wait_handle a.waited (poll a.polled a.exit_code) p

-- Closing the job's only handle ends the child.
unfoldable pub kill : Answers → Act (Unit {0})
kill a p =
    if p.job then checked a.closes_job win_error (λ q. record q { job = false }) p else (ok tt, p)

abbrev pub position : End → ℕ
position stdin_read = 0
position stdin_write = 1
position stdout_read = 2
position stdout_write = 3
position stderr_read = 4
position stderr_write = 5

-- `descriptors.remove(fd)`, and what the system does with its table.
abbrev pub without : End → List End → List End
without e [] = []
without e (x ∷ xs) = if position x == position e then xs else x ∷ without e xs

-- `stream.close()` of a raw file; a closed file is closed again without effect.
abbrev pub close_stream : Bool → Option End → Act (Unit {0})
close_stream succeeds none p = (ok tt, p)
close_stream succeeds (some e) p =
    checked succeeds os_error (λ q. record q { open_ends = without e q.open_ends }) p

abbrev pub drop_handle : Act (Unit {0})
drop_handle p = (ok tt, record p { process = false })

abbrev pub wait_and_drop : Answers → Act (Unit {0})
wait_and_drop a p = if p.process then (wait a >>= λ _. drop_handle) p else (ok tt, p)

abbrev pub streams : Answers → Act (Unit {0})
streams a p =
    (close_stream a.closes_stdin p.stdin
        >> close_stream a.closes_stdout p.stdout
        >> close_stream a.closes_stderr p.stderr)
      p

unfoldable pub close : Answers → Act (Unit {0})
unfolding kill wait
close a = kill a >> wait_and_drop a >> streams a
