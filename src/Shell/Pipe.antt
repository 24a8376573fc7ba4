-- ===== src/Shell/Pipe.antt =====
-- SP_HW5/Part2/pipe_command.c: run one command, or two with a pipe between them.
pub mod Outcomes
use network_system_programmi.Prelude.{
  ℕ, zero, suc, ◌+◌, ◌-◌, Bool, true, false, List, [], ◌∷◌, Option, none, some, if◌then◌else◌,
  length, replicate, drop,
}
use network_system_programmi.Prelude.Bytes.{Bytes}
use network_system_programmi.Prelude.Int.{ℤ, pos, negsuc}
use network_system_programmi.Machine.{
  Outcome, exits, fault, M, ◌>>=◌, ◌>>◌, pure, exit, undefined, World, Slot, uninit, null, str, Os,
  Fork, no_fork, parent, child, pipe_read, pipe_write, malloc, realloc, resize, store, strcpy_new,
  load, execvp,
}
use network_system_programmi.Shell.Parse.{Argv}
use network_system_programmi.Shell.Scan.{pipe_present}

-- EINVAL
abbrev pub einval : ℕ
einval = 22

-- strlen and strcpy of `myArgv[k]`: NULL is undefined.
unfoldable pub copy_word : Os → Option Bytes → M Slot
copy_word os none = undefined
copy_word os (some s) = do malloc os.grants; strcpy_new (length s) s

-- `for (i = 0; i < pipe_argv_index; i++)`, with `n` rounds left
unfoldable pub copy_left : Os → Argv → ℕ → ℕ → Argv → M Argv
copy_left os v zero i left = pure left
copy_left os v (suc n) i left = do
  s ← load v i
  c ← copy_word os s
  left' ← store left i c
  copy_left os v n (i + 1) left'

-- `while (myArgv[i + pipe_argv_index + 1] != NULL)`, on the cells behind the bar
unfoldable pub copy_right : Os → Argv → ℕ → Argv → M (Argv × ℕ)
copy_right os [] i right = undefined
copy_right os (uninit ∷ v) i right = undefined
copy_right os (null ∷ v) i right = pure (right, i)
copy_right os (str b ∷ v) i right = do
  realloc os.grants
  c ← copy_word os (some b.text)
  right' ← store (resize (i + 1) right) i c
  copy_right os v (i + 1) right'

-- The two arrays; each loop is followed by a NULL at `i + 1`.
unfoldable pub split : Os → Argv → ℕ → M (Argv × Argv)
split os v index = do
  malloc os.grants
  left ← copy_left os v index 0 (replicate index uninit)
  left' ← store left (index + 1) null
  malloc os.grants
  r ← copy_right os (drop (index + 1) v) 0 (uninit ∷ [])
  right ← store r.0 (r.1 + 1) null
  pure (left', right)

abbrev set_fd1 : M (Unit {0})
set_fd1 w = Outcome.done (tt, record w { fd1 = pipe_write })

abbrev set_fd0 : M (Unit {0})
set_fd0 w = Outcome.done (tt, record w { fd0 = pipe_read })

-- One process of the two behind fork; `again` is pipe_and_exec on the array behind the bar. The
-- result is errno where the switch is left.
unfoldable pub run_half : Os → Fork → Argv → Argv → M ℕ → M ℕ
run_half os (no_fork e) left right again = pure e
run_half os parent left right again = do set_fd1; execvp os left
run_half os child left right again = do set_fd0; e ← execvp os right; again

-- The switch on `pipe_present`; it is left with errno, and `perror` and `exit (errno)` follow.
-- The fuel bounds the nesting of the calls: each call is on a shorter array.
unfoldable pub pipe_and_exec : Os → ℕ → Argv → M ℕ
pipe_and_exec os zero v = undefined
pipe_and_exec os (suc fuel) v = do
  index ← pipe_present v
  elim index [
    | negsuc n ↦ exit einval
    | pos zero ↦ do e ← execvp os v; exit e
    | pos (suc k) ↦ do
      halves ← split os v (suc k)
      e ←
          (if os.pipe_ok
            then run_half os os.fork halves.0 halves.1 (pipe_and_exec os fuel (drop (suc k + 1) v))
            else exit 1)
      exit e
  ]
