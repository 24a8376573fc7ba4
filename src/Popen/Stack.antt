-- ===== src/Popen/Stack.antt =====
-- What my_popen and my_pclose promise over a stack of streams, the newest first.
use network_system_programmi.Prelude.{
  ℕ, Bool, true, false, List, [], ◌∷◌, Option, none, some, leb, ◌==◌, if◌then◌else◌, ◌||◌, length,
}
use network_system_programmi.Prelude.Bytes.{Bytes, codes, equal}
use network_system_programmi.Prelude.Int.{pos, negsuc}
use network_system_programmi.Popen.{
  max_popen, FilePointer, Fork, no_fork, child, parent, Answers, Waits,
}
use network_system_programmi.Popen.Calls.{Call, popen, pclose, Reply, opened, closed}
use network_system_programmi.Popen.Loop.{Entry, is_fresh}

-- A reply and the stack behind it, or nothing for a call that
-- the promise leaves open. my_popen, by what fork and fdopen answer:
unfoldable pub push : Fork → FilePointer → List Entry → Option (Reply × List Entry)
push no_fork f st = some (opened none, st)
push child f st = none
push (parent pid) none st = none
push (parent pid) (some f) st =
    if is_fresh f st then some (opened (some f), (f, pid) ∷ st) else none

abbrev pub has_pipe : Option (ℕ × ℕ) → Bool
has_pipe none = false
has_pipe (some ends) = true

-- A full table, a wrong mode and a failed pipe or fork give NULL.
unfoldable pub stack_popen : Answers → Bytes → List Entry → Option (Reply × List Entry)
unfolding push
stack_popen k mode st =
    if leb max_popen (length st)
    then some (opened none, st)
    else (if equal mode (codes "r") || equal mode (codes "w")
        then (if has_pipe k.pipe then push k.fork k.fdopen st else some (opened none, st))
        else some (opened none, st))

-- my_pclose: the newest stream gives its status, an unknown one -1. The others are left open, and
-- so is a failed waitpid.
unfoldable pub pop : Option ℕ → ℕ → List Entry → Option (Reply × List Entry)
pop none pid st = none
pop (some stat) pid st = some (closed (pos stat) (some pid), st)

unfoldable pub stack_pclose : Waits → FilePointer → List Entry → Option (Reply × List Entry)
unfolding pop
stack_pclose waits none st = none
stack_pclose waits (some f) [] = some (closed (negsuc 0) none, [])
stack_pclose waits (some f) ((g, pid) ∷ st) =
    if g == f
    then pop (waits pid) pid st
    else (if is_fresh f st then some (closed (negsuc 0) none, (g, pid) ∷ st) else none)

unfoldable pub stack_call : Call → List Entry → Option (Reply × List Entry)
unfolding stack_popen stack_pclose
stack_call (popen k command mode) st = stack_popen k mode st
stack_call (pclose waits f) st = stack_pclose waits f st

-- A whole sequence, with all its replies.
abbrev pub and_reply : Reply → Option (List Reply × List Entry) → Option (List Reply × List Entry)
and_reply a none = none
and_reply a (some (replies, st)) = some (a ∷ replies, st)

abbrev pub after :
    (List Entry → Option (List Reply × List Entry))
    → Option (Reply × List Entry)
    → Option (List Reply × List Entry)
after later none = none
after later (some (a, st)) = and_reply a (later st)

unfoldable pub stack_run : List Call → List Entry → Option (List Reply × List Entry)
stack_run [] st = some ([], st)
stack_run (c ∷ calls) st = after (stack_run calls) (stack_call c st)
