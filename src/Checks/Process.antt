-- ===== src/Checks/Process.antt =====
-- A child process whose constructor fails.
use go_httpx.Prelude.{◌≡◌, refl, true, false, none, [], ◌∷◌, err}
use go_httpx.Process.{stdin_write, timeout_expired, Answers, signalled, timed_out}
use go_httpx.Process.Create.{System, create}
use go_httpx.Process.Safety.{undisturbed, Created, create-Created}

abbrev slow : Answers
slow = record {
  closes_job = true;
  waited = timed_out;
  polled = signalled;
  exit_code = none;
  closes_stdin = true;
  closes_stdout = true;
  closes_stderr = true;
}

-- The first `os.fdopen` raises.
abbrev full_table : System
full_table = record {
  creates_job = true;
  sets_limits = true;
  pipes_stdin = true;
  pipes_stdout = true;
  pipes_stderr = true;
  inherits = true;
  inits_list = true;
  adds_job = true;
  adds_handles = true;
  creates_process = true;
  closes_child_stdin = true;
  closes_child_stdout = true;
  closes_child_stderr = true;
  opens_stdin = false;
  opens_stdout = true;
  opens_stderr = true;
  cleanup = slow;
  closes_left = true;
}

-- The end that was popped stays open: nobody knows it any more.
full_table_ends : (create (undisturbed 1 full_table)).1.open_ends ≡ stdin_write ∷ []
unfolding create undisturbed
full_table_ends = refl

-- A child that does not end in time takes the place of the exception, and its handle is kept.
full_table_slow : (create full_table).0 ≡ err timeout_expired
unfolding create
full_table_slow = refl

full_table_kept : (create full_table).1.process ≡ true
unfolding create
full_table_kept = refl

create-Created_example : Created full_table (create (undisturbed 1 full_table))
create-Created_example = create-Created 1 full_table
