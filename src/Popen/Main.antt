-- ===== src/Popen/Main.antt =====
-- main of SP_HW6/44_2.c: one command, whose output is read or which is given one line.
use network_system_programmi.Prelude.{
  ℕ, zero, suc, ◌+◌, Bool, [], ◌∷◌, List, none, some, ltb, if◌then◌else◌, length, replicate,
}
use network_system_programmi.Prelude.Bytes.{Bytes, codes, equal, cstr}
use network_system_programmi.Prelude.Int.{pos, negsuc}
use network_system_programmi.Libc.{fgets}
use network_system_programmi.Popen.{
  max_popen, End, closed, inherited, Process, Answers, Popened, returns, shell, exits_child,
  my_popen, FilePointer, say, Waits, Pclosed, gives, my_pclose,
}

-- The globals at the start, and the descriptors that a process starts with.
unfoldable pub start : Process
start = record {
  streams = replicate max_popen none;
  pids = replicate max_popen 0;
  count = 0;
  fds = λ q. if ltb q 3 then inherited else closed;
  fileno = λ q. 0;
  out = [];
}

-- What a run finds: the calls' answers, what the command writes to the pipe until it closes it, what
-- stdin holds, which writes succeed, by their number.
pub record Run : Type 0 where
  pub answers : Answers
  pub waits : Waits
  pub output : Bytes
  pub input : Bytes
  pub write_ok : ℕ → Bool

-- How it ends: the parent's status and what it wrote to the command; or the child, as a shell or
-- by the exit behind execl.
pub data Ended : Type 0 where
  exits : (status : ℕ) → (written : Bytes) → Process → Ended
  child_shell : (command : Bytes) → (ℕ → End) → Ended
  child_failed faulted : Ended

-- `if (my_pclose (fp) == -1)`
unfoldable pub closing : Bytes → Pclosed → Ended
closing written Pclosed.undefined = faulted
closing written (gives (negsuc n) w p) = exits 1 written (say (codes "my_pclose") p)
closing written (gives (pos n) w p) = exits 0 written p

-- The loop of mode "r"; `i` is the number of the next write. The fuel is the length of what is
-- read and one more.
unfoldable pub copy_output : Run → FilePointer → ℕ → ℕ → Bytes → Process → Ended
copy_output r fp zero i input p = faulted
copy_output r fp (suc fuel) i input p = elim (fgets 255 input) [
  | none ↦ closing [] (my_pclose r.waits fp p)
  | some (line, rest) ↦
      let more = copy_output r fp fuel (i + 1) rest (say (cstr line) p) in
      if r.write_ok i then more else exits 1 [] p
]

-- The branch of mode "w": one line of stdin.
unfoldable pub give_line : Run → FilePointer → Process → Ended
give_line r fp p = elim (fgets 255 r.input) [
  | none ↦ exits 1 [] p
  | some (line, rest) ↦
      if r.write_ok 0 then closing (cstr line) (my_pclose r.waits fp p) else exits 1 [] p
]

unfoldable pub opened : Run → Bytes → Popened → Ended
opened r mode (shell command fds) = child_shell command fds
opened r mode exits_child = child_failed
opened r mode Popened.undefined = faulted
opened r mode (returns none p) = exits 1 [] (say (codes "Failed to open process.\n") p)
opened r mode (returns (some f) p) =
    if equal mode (codes "r")
    then copy_output r (some f) (suc (length r.output)) 0 r.output p
    else if equal mode (codes "w")
    then give_line r (some f) (say (codes "Enter for command: ") p)
    else closing [] (my_pclose r.waits (some f) p)

-- main, from the arguments behind the program's name.
unfoldable pub main : Run → List Bytes → Ended
main r (command ∷ mode ∷ []) = opened r mode (my_popen r.answers command mode start)
main r args = exits 1 [] (say (codes "Usage: <command> <mode>\n") start)
