-- ===== src/Shell3/Run.antt =====
-- SP_HW3/is_background.c and SP_HW3/run_command.c.
pub mod Child
use network_system_programmi.Prelude.{
  ℕ, zero, suc, Bool, true, false, List, [], ◌∷◌, ◌++◌, Option, none, some, if◌then◌else◌,
}
use network_system_programmi.Prelude.Bytes.{Bytes, codes, equal, decimal}
use network_system_programmi.Machine.{
  M, ◌>>=◌, ◌>>◌, pure, exit, print, undefined, Slot, uninit, null, str, load, Os, Fork, no_fork,
  parent, child, execvp,
}
use network_system_programmi.Shell.Parse.{Argv}
use network_system_programmi.Shell.Scan.{has_ampersand}
use network_system_programmi.Shell.Builtin.{from_one}

-- The loop starts at the second word.
unfoldable pub is_background : Argv → M Bool
is_background v = do
  head ← load v 0
  elim head [ none ↦ pure false | some s ↦ has_ampersand (from_one v) ]

-- `while (strcmp (myArgv[i], "&") != 0) i++;` and the NULL in that place. strcmp of NULL is undefined.
unfoldable pub cut_ampersand : Argv → M Argv
cut_ampersand [] = undefined
cut_ampersand (uninit ∷ v) = undefined
cut_ampersand (null ∷ v) = undefined
cut_ampersand (str b ∷ v) =
    if equal b.text (codes "&")
    then pure (null ∷ v)
    else (do v' ← cut_ampersand v; pure (str b ∷ v'))

-- The child: execvp comes back only with an error.
unfoldable pub run_child : Os → Argv → M (Unit {0})
run_child os v = do
  background ← is_background v
  v' ← (if background then cut_ampersand v else pure v)
  e ← execvp os v'
  exit e

-- What waitpid gives: -1, or a status.
pub data Status : Type 0 where
  failed continued other : Status
  exited killed stopped : ℕ → Status

unfoldable pub report : Status → M (Unit {0})
report failed = exit 1
report (exited n) = print (codes "exited, status=" ++ (decimal n ++ codes "\n"))
report (killed n) = print (codes "killed by signal " ++ (decimal n ++ codes "\n"))
report (stopped n) = print (codes "stopped by signal " ++ (decimal n ++ codes "\n"))
report continued = print (codes "continued\n")
report other = pure tt

unfoldable pub run_parent : Status → Argv → M (Unit {0})
run_parent stat v = do background ← is_background v; (if background then pure tt else report stat)

unfoldable pub run_command : Os → Fork → Status → Argv → M (Unit {0})
run_command os (no_fork e) stat v = exit e
run_command os parent stat v = run_parent stat v
run_command os child stat v = run_child os v
