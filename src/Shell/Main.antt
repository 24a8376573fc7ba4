-- ===== src/Shell/Main.antt =====
-- SP_HW5/Part2/shell.c: read a line, run it, free it, until the input ends.
pub mod Loop
use network_system_programmi.Prelude.{
  ℕ, zero, suc, Bool, true, false, List, [], ◌∷◌, Option, none, some, if◌then◌else◌, length,
}
use network_system_programmi.Prelude.Bytes.{Bytes, codes, cstr}
use network_system_programmi.Libc.{fgets}
use network_system_programmi.Machine.{M, ◌>>=◌, ◌>>◌, pure, exit, undefined, print, Os, Fork, load}
use network_system_programmi.Shell.Parse.{Argv, parse, free_argv}
use network_system_programmi.Shell.Builtin.{Host, Builtin, is_builtin, do_builtin}
use network_system_programmi.Shell.Run.{Status, run_command}

-- What is outside the shell. Of the side of fork that a command line is run on, and of what waitpid
-- reports for it, nothing is assumed.
pub record Setting : Type 0 where
  pub os : Os
  pub host : Host
  pub role : Bytes → Fork
  pub stat : Bytes → Status

-- fputs ("myshell -> ", stdout)
abbrev pub prompt : M (Unit {0})
prompt = print (codes "myshell -> ")

-- LONGLINE - 1
abbrev pub long_line : ℕ
long_line = 254

-- Each of these gives the new value of `this`.
unfoldable pub run_builtin : Setting → Bytes → Argv → Bool → Option Builtin → M (Option Builtin)
run_builtin s line v true this = do do_builtin s.host this v; pure this
run_builtin s line v false this = do r ← run_command s.os (s.role line) (s.stat line) v; pure this

unfoldable pub run_argv :
    Setting → Bytes → Argv → Option Bytes → Option Builtin → M (Option Builtin)
run_argv s line v none this = undefined
run_argv s line v (some cmd) this =
    let (found, this') = is_builtin cmd this in run_builtin s line v found this'

unfoldable pub run_parsed : Setting → Bytes → Option Argv → Option Builtin → M (Option Builtin)
run_parsed s line none this = pure this
run_parsed s line (some v) this = do
  cmd ← load v 0
  this' ← run_argv s line v cmd this
  free_argv v
  pure this'

-- `while (fgets (line, LONGLINE, stdin))`; a line is what is read up to its first NUL. No fuel left is a
-- fault.
unfoldable pub main_loop : Setting → ℕ → Bytes → Option Builtin → M (Option Builtin)
main_loop s zero input this = undefined
main_loop s (suc fuel) input this = elim (fgets long_line input) [
  | none ↦ pure this
  | some (line, rest) ↦ do
    v ← parse s.os.grants (cstr line)
    this' ← run_parsed s (cstr line) v this
    prompt
    main_loop s fuel rest this'
]

unfoldable pub main : Setting → Bytes → M (Unit {0})
main s input = do prompt; this ← main_loop s (suc (length input)) input none; exit 0
