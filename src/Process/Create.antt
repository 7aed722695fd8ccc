-- ===== src/Process/Create.antt =====
-- The constructor of `JobProcess`.
use go_httpx.Prelude.{Bool, true, false, Option, none, some, List, [], ◌∷◌, ◌++◌, Result, ok, err}
use go_httpx.Process.{
  End, stdin_read, stdin_write, stdout_read, stdout_write, stderr_read, stderr_write, Process,
  OsError, win_error, os_error, Act, ◌>>◌, checked, Answers, close, without,
}

-- What the calls of the constructor answer, in their order. `inherits` are `get_osfhandle` and
-- `set_handle_inheritable` of the three ends; `opens` are `os.fdopen`; `cleanup` are the answers that the
-- handler's `close` gets, and `closes_left` those of `os.close` in the `finally`.
pub record System : Type 0 where
  pub creates_job : Bool
  pub sets_limits : Bool
  pub pipes_stdin : Bool
  pub pipes_stdout : Bool
  pub pipes_stderr : Bool
  pub inherits : Bool
  pub inits_list : Bool
  pub adds_job : Bool
  pub adds_handles : Bool
  pub creates_process : Bool
  pub closes_child_stdin : Bool
  pub closes_child_stdout : Bool
  pub closes_child_stderr : Bool
  pub opens_stdin : Bool
  pub opens_stdout : Bool
  pub opens_stderr : Bool
  pub cleanup : Answers
  pub closes_left : Bool

abbrev pub fresh : Process
fresh = record {
  job = false;
  process = false;
  returncode = none;
  stdin = none;
  stdout = none;
  stderr = none;
  descriptors = [];
  open_ends = [];
  thread_handle = false;
  attributes = false;
}

-- `descriptors.extend(os.pipe())`
abbrev pipe : Bool → End → End → Act (Unit {0})
pipe succeeds r w = checked succeeds os_error (λ p. record p {
  descriptors = p.descriptors ++ (r ∷ w ∷ []);
  open_ends = p.open_ends ++ (r ∷ w ∷ []);
})

abbrev keep : Process → Process
keep p = p

-- `os.close(fd)` and then `descriptors.remove(fd)`
abbrev close_child : Bool → End → Act (Unit {0})
close_child succeeds e =
    checked succeeds os_error
      (λ p. record p { descriptors = without e p.descriptors; open_ends = without e p.open_ends })

abbrev pop : List End → List End
pop [] = []
pop (e ∷ es) = es

abbrev first : List End → Option End
first [] = none
first (e ∷ es) = some e

abbrev popped : Process → Process
popped p = record p { descriptors = pop p.descriptors }

-- `self.stdin = os.fdopen(descriptors.pop(0), …)`: the end has left the list before it is opened.
abbrev open_stdin : Bool → Act (Unit {0})
open_stdin succeeds p =
    checked succeeds os_error (λ q. record q { stdin = first p.descriptors }) (popped p)

abbrev open_stdout : Bool → Act (Unit {0})
open_stdout succeeds p =
    checked succeeds os_error (λ q. record q { stdout = first p.descriptors }) (popped p)

abbrev open_stderr : Bool → Act (Unit {0})
open_stderr succeeds p =
    checked succeeds os_error (λ q. record q { stderr = first p.descriptors }) (popped p)

abbrev close_thread : Act (Unit {0})
close_thread p = (ok tt, record p { thread_handle = false })

-- The body of the `try`: up to the process, and from it on.
unfoldable pub prepare : System → Act (Unit {0})
prepare k = do
  checked k.creates_job win_error (λ p. record p { job = true })
  checked k.sets_limits win_error keep
  pipe k.pipes_stdin stdin_read stdin_write
  pipe k.pipes_stdout stdout_read stdout_write
  pipe k.pipes_stderr stderr_read stderr_write
  checked k.inherits os_error keep
  checked k.inits_list win_error (λ p. record p { attributes = true })
  checked k.adds_job win_error keep
  checked k.adds_handles win_error keep

unfoldable pub spawn : System → Act (Unit {0})
spawn k = do
  checked k.creates_process win_error (λ p. record p { process = true; thread_handle = true })
  close_thread
  close_child k.closes_child_stdin stdin_read
  close_child k.closes_child_stdout stdout_write
  close_child k.closes_child_stderr stderr_write
  open_stdin k.opens_stdin
  open_stdout k.opens_stdout
  open_stderr k.opens_stderr

-- `except BaseException: self.close(); raise`, where an exception of `close` takes the other's place.
abbrev pub handler :
    System → Result OsError (Unit {0}) × Process → Result OsError (Unit {0}) × Process
handler k (ok u, p) = (ok u, p)
handler k (err e, p) =
    let (r, p') = close k.cleanup p in elim r [ ok u ↦ (err e, p') | err e' ↦ (err e', p') ]

abbrev delete_list : Process → Process
delete_list p = record p { attributes = false }

-- `for fd in descriptors: os.close(fd)`: the first that fails ends the loop.
abbrev close_left : Bool → List End → Act (Unit {0})
close_left succeeds [] p = (ok tt, p)
close_left succeeds (e ∷ es) p =
    (checked succeeds os_error (λ q. record q { open_ends = without e q.open_ends })
        >> close_left succeeds es)
      p

abbrev pub finish :
    System → Result OsError (Unit {0}) × Process → Result OsError (Unit {0}) × Process
finish k (r, p) =
    let (r', p') = close_left k.closes_left p.descriptors (delete_list p) in
    elim r' [ ok u ↦ (r, p') | err e ↦ (err e, p') ]

unfoldable pub create : System → Result OsError (Unit {0}) × Process
unfolding prepare spawn close
create k = finish k (handler k ((prepare k >> spawn k) fresh))
