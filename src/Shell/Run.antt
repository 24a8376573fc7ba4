-- ===== src/Shell/Run.antt =====
-- SP_HW5/Part2/run_command.c: fork, and what each of the two processes does.
pub mod Child
use network_system_programmi.Prelude.{
  ℕ, zero, suc, Bool, true, false, not, ◌&&◌, List, [], ◌∷◌, Option, none, some, ◌==◌,
  if◌then◌else◌, length,
}
use network_system_programmi.Machine.{
  Outcome, done, M, ◌>>=◌, ◌>>◌, pure, exit, World, Os, Fork, no_fork, parent, child,
}
use network_system_programmi.Shell.Parse.{Argv}
use network_system_programmi.Shell.Scan.{is_background}
use network_system_programmi.Shell.Redirect.{redirect_in, redirect_out}
use network_system_programmi.Shell.Pipe.{pipe_and_exec}

-- What waitpid reports, and what the parent writes to stderr about it.
pub data Status : Type 0 where
  exited : ℕ → Status
  signalled : ℕ → Status
  other : Status

pub data Report : Type 0 where
  silent : Report
  error_status : ℕ → Report
  due_to_signal : ℕ → Report

unfoldable pub report : Status → Report
report (exited n) = if n == 0 then silent else error_status n
report (signalled n) = if n == 0 then silent else due_to_signal n
report other = silent

-- The parent: it waits unless the command runs in the background. `none` is no wait at all.
unfoldable pub await : Bool → Status → Option Report
await background stat = if background then none else some (report stat)

-- The child.
unfoldable pub run_child : Os → Argv → M (Option Report)
run_child os v = do
  r ← redirect_in os v
  q ← redirect_out os r.1
  e ← pipe_and_exec os (suc (length q.1)) q.1
  exit e

unfoldable pub after_fork : Os → Fork → Status → Bool → Argv → M (Option Report)
after_fork os (no_fork e) stat background v = exit e
after_fork os parent stat background v = pure (await background stat)
after_fork os child stat background v = run_child os v

unfoldable pub run_command : Os → Fork → Status → Argv → M (Option Report)
run_command os role stat v = do background ← is_background v; after_fork os role stat background v
