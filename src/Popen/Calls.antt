-- ===== src/Popen/Calls.antt =====
-- Sequences of my_popen and my_pclose in one process.
use network_system_programmi.Prelude.{ℕ, List, [], ◌∷◌, Option}
use network_system_programmi.Prelude.Bytes.{Bytes}
use network_system_programmi.Prelude.Int.{ℤ}
use network_system_programmi.Popen.{
  FilePointer, Process, Answers, Popened, returns, shell, exits_child, Waits, Pclosed, gives,
  my_popen, my_pclose,
}

-- One call, with what it is answered.
pub data Call : Type 0 where
  popen : Answers → (command mode : Bytes) → Call
  pclose : Waits → FilePointer → Call

-- What a call gave back.
pub data Reply : Type 0 where
  opened : FilePointer → Reply
  closed : ℤ → (waited : Option ℕ) → Reply

-- A sequence ends in the process that made the calls, in a child of it, or undefined.
pub data Ran : Type 0 where
  goes_on : List Reply → Process → Ran
  in_child faulted : Ran

abbrev pub and_reply : Reply → Ran → Ran
and_reply a (goes_on replies p) = goes_on (a ∷ replies) p
and_reply a r = r

abbrev pub after_popen : (Process → Ran) → Popened → Ran
after_popen later (returns f p) = and_reply (opened f) (later p)
after_popen later (shell c fds) = in_child
after_popen later exits_child = in_child
after_popen later Popened.undefined = faulted

abbrev pub after_pclose : (Process → Ran) → Pclosed → Ran
after_pclose later (gives n w p) = and_reply (closed n w) (later p)
after_pclose later Pclosed.undefined = faulted

unfoldable pub run : List Call → Process → Ran
run [] p = goes_on [] p
run (popen k command mode ∷ calls) p = after_popen (run calls) (my_popen k command mode p)
run (pclose waits f ∷ calls) p = after_pclose (run calls) (my_pclose waits f p)
