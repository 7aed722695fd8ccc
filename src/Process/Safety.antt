-- ===== src/Process/Safety.antt =====
-- What a `JobProcess` of python/_gohttpx_windows.py holds after its constructor, and what its methods keep.
use go_httpx.Prelude.{
  ℕ, Bool, true, false, some, List, [], ◌∷◌, Result, ok, err, ◌≡◌, refl, ◌⊎◌, inl, inr,
}
use go_httpx.Process.{End, stdin_write, stdout_read, stderr_read, Process, OsError, signalled}
use go_httpx.Process.Create.{System, create}

abbrev Outcome : Type 0
Outcome = Result OsError (Unit {0}) × Process

-- Every call that the closing makes succeeds: the end of the job has ended the child, whose code is read.
unfoldable pub undisturbed : ℕ → System → System
undisturbed code k = record k {
  cleanup = record {
    closes_job = true;
    waited = signalled;
    polled = signalled;
    exit_code = some code;
    closes_stdin = true;
    closes_stdout = true;
    closes_stderr = true;
  };
  closes_left = true;
}

-- An `os.fdopen` that raised, and the end that had left the list of descriptors before it.
pub data Dropped (k : System) : List End → Type 0 where
  dropped_stdin : k.opens_stdin ≡ false → Dropped k (stdin_write ∷ [])
  dropped_stdout : k.opens_stdout ≡ false → Dropped k (stdout_read ∷ [])
  dropped_stderr : k.opens_stderr ≡ false → Dropped k (stderr_read ∷ [])

pub record HoldsNothing (p : Process) : Type 0 where
  no_job : p.job ≡ false
  no_process : p.process ≡ false
  no_thread : p.thread_handle ≡ false
  no_attributes : p.attributes ≡ false

pub record HoldsChild (p : Process) : Type 0 where
  one_job : p.job ≡ true
  one_process : p.process ≡ true
  no_thread : p.thread_handle ≡ false
  no_attributes : p.attributes ≡ false
  stdin_open : p.stdin ≡ some stdin_write
  stdout_open : p.stdout ≡ some stdout_read
  stderr_open : p.stderr ≡ some stderr_read
  others_closed : p.open_ends ≡ stdin_write ∷ stdout_read ∷ stderr_read ∷ []

unfoldable pub Created : System → Outcome → Type 0
Created k (ok u, p) = HoldsChild p
Created k (err e, p) = HoldsNothing p × ((p.open_ends ≡ []) ⊎ Dropped k p.open_ends)

module _ (rest : System) (code : ℕ) where
  -- The calls of the constructor, in their order.
  answering : (a b c d e f g h i j l m n o p q : Bool) → System
  answering a b c d e f g h i j l m n o p q = record rest {
    creates_job = a;
    sets_limits = b;
    pipes_stdin = c;
    pipes_stdout = d;
    pipes_stderr = e;
    inherits = f;
    inits_list = g;
    adds_job = h;
    adds_handles = i;
    creates_process = j;
    closes_child_stdin = l;
    closes_child_stdout = m;
    closes_child_stderr = n;
    opens_stdin = o;
    opens_stdout = p;
    opens_stderr = q;
  }

  Right : (k : System) → Type 0
  Right k = Created k (create (undisturbed code k))

  answers :
      (a b c d e f g h i j l m n o p q : Bool) → Right (answering a b c d e f g h i j l m n o p q)
  unfolding create undisturbed Created Right answering
  answers false b c d e f g h i j l m n o p q = (
    record { no_job = refl; no_process = refl; no_thread = refl; no_attributes = refl },
    inl refl,
  )
  answers true false c d e f g h i j l m n o p q = (
    record { no_job = refl; no_process = refl; no_thread = refl; no_attributes = refl },
    inl refl,
  )
  answers true true false d e f g h i j l m n o p q = (
    record { no_job = refl; no_process = refl; no_thread = refl; no_attributes = refl },
    inl refl,
  )
  answers true true true false e f g h i j l m n o p q = (
    record { no_job = refl; no_process = refl; no_thread = refl; no_attributes = refl },
    inl refl,
  )
  answers true true true true false f g h i j l m n o p q = (
    record { no_job = refl; no_process = refl; no_thread = refl; no_attributes = refl },
    inl refl,
  )
  answers true true true true true false g h i j l m n o p q = (
    record { no_job = refl; no_process = refl; no_thread = refl; no_attributes = refl },
    inl refl,
  )
  answers true true true true true true false h i j l m n o p q = (
    record { no_job = refl; no_process = refl; no_thread = refl; no_attributes = refl },
    inl refl,
  )
  answers true true true true true true true false i j l m n o p q = (
    record { no_job = refl; no_process = refl; no_thread = refl; no_attributes = refl },
    inl refl,
  )
  answers true true true true true true true true false j l m n o p q = (
    record { no_job = refl; no_process = refl; no_thread = refl; no_attributes = refl },
    inl refl,
  )
  answers true true true true true true true true true false l m n o p q = (
    record { no_job = refl; no_process = refl; no_thread = refl; no_attributes = refl },
    inl refl,
  )
  answers true true true true true true true true true true false m n o p q = (
    record { no_job = refl; no_process = refl; no_thread = refl; no_attributes = refl },
    inl refl,
  )
  answers true true true true true true true true true true true false n o p q = (
    record { no_job = refl; no_process = refl; no_thread = refl; no_attributes = refl },
    inl refl,
  )
  answers true true true true true true true true true true true true false o p q = (
    record { no_job = refl; no_process = refl; no_thread = refl; no_attributes = refl },
    inl refl,
  )
  answers true true true true true true true true true true true true true false p q = (
    record { no_job = refl; no_process = refl; no_thread = refl; no_attributes = refl },
    inr (dropped_stdin refl),
  )
  answers true true true true true true true true true true true true true true false q = (
    record { no_job = refl; no_process = refl; no_thread = refl; no_attributes = refl },
    inr (dropped_stdout refl),
  )
  answers true true true true true true true true true true true true true true true false = (
    record { no_job = refl; no_process = refl; no_thread = refl; no_attributes = refl },
    inr (dropped_stderr refl),
  )
  answers true true true true true true true true true true true true true true true true = record {
    one_job = refl;
    one_process = refl;
    no_thread = refl;
    no_attributes = refl;
    stdin_open = refl;
    stdout_open = refl;
    stderr_open = refl;
    others_closed = refl;
  }

-- Where the calls of the closing succeed, a constructor that returns holds the job and the process and
-- has its three ends open and no other; one that raises holds no job, process, thread or attribute list,
-- and no descriptor but the end whose `os.fdopen` raised.
pub create-Created : (code : ℕ) (k : System) → Created k (create (undisturbed code k))
unfolding Right answering
create-Created code k =
    answers k code k.creates_job k.sets_limits k.pipes_stdin k.pipes_stdout k.pipes_stderr
      k.inherits k.inits_list k.adds_job k.adds_handles k.creates_process k.closes_child_stdin
      k.closes_child_stdout k.closes_child_stderr k.opens_stdin k.opens_stdout k.opens_stderr
