-- ===== src/Popen/Nested.antt =====
-- my_popen and my_pclose used as a stack: the newest stream is closed first.
use network_system_programmi.Prelude.{subst, List, [], ◌∷◌, Option, none, some, ◌≡◌, refl}
use network_system_programmi.Popen.{
  Process, Popened, returns, shell, exits_child, my_popen, Pclosed, gives, my_pclose,
}
use network_system_programmi.Popen.Calls
use network_system_programmi.Popen.Calls.{
  in_child, faulted, after_popen, after_pclose, Call, popen, pclose, Reply, opened, closed, Ran,
  goes_on, run,
}
use network_system_programmi.Popen.Loop.{Entry}
use network_system_programmi.Popen.Stack.{
  stack_popen, stack_pclose, stack_call, and_reply, after, stack_run,
}
use network_system_programmi.Popen.Pushes.{Represents, PopenAs, popen-PopenAs}
use network_system_programmi.Popen.Pops.{PcloseAs, pclose-PcloseAs}

-- The code's run gives these replies and a process that holds this stack.
abbrev pub RunAs : Option (List Reply × List Entry) → Ran → Type 0
RunAs none r = Unit
RunAs (some (replies, st)) (goes_on l p) = (l ≡ replies) × Represents st p
RunAs (some (replies, st)) r = ⊥

RunAs-and :
    (a b : Reply) (o : Option (List Reply × List Entry)) (r : Ran)
    → a ≡ b
    → RunAs o r
    → RunAs (and_reply a o) (Calls.and_reply b r)
RunAs-and a b none r e h = tt
RunAs-and a b (some (replies, st)) (goes_on l p) e h = (cc (h.0), h.1)
RunAs-and a b (some (replies, st)) in_child e h = elim h [ ]
RunAs-and a b (some (replies, st)) faulted e h = elim h [ ]

module _ (calls : List Call)
    (later : (st : List Entry) (p : Process)
      → Represents st p
      → RunAs (stack_run calls st) (run calls p)) where
  after_popen-RunAs :
      (o : Option (Reply × List Entry)) (m : Popened)
      → PopenAs o m
      → RunAs (after (stack_run calls) o) (after_popen (run calls) m)
  after_popen-RunAs none m h = tt
  after_popen-RunAs (some (a, st)) (returns f p) h =
      RunAs-and a (opened f) (stack_run calls st) (run calls p) h.0 (later st p h.1)
  after_popen-RunAs (some (a, st)) (shell c fds) h = elim h [ ]
  after_popen-RunAs (some (a, st)) exits_child h = elim h [ ]
  after_popen-RunAs (some (a, st)) Popened.undefined h = elim h [ ]

  after_pclose-RunAs :
      (o : Option (Reply × List Entry)) (m : Pclosed)
      → PcloseAs o m
      → RunAs (after (stack_run calls) o) (after_pclose (run calls) m)
  after_pclose-RunAs none m h = tt
  after_pclose-RunAs (some (a, st)) (gives n w p) h =
      RunAs-and a (closed n w) (stack_run calls st) (run calls p) h.0 (later st p h.1)
  after_pclose-RunAs (some (a, st)) Pclosed.undefined h = elim h [ ]

run-RunAs :
    (calls : List Call) (st : List Entry) (p : Process)
    → Represents st p
    → RunAs (stack_run calls st) (run calls p)
unfolding run stack_run stack_call
run-RunAs [] st p r = (refl, r)
run-RunAs (popen k command mode ∷ calls) st p r =
    after_popen-RunAs calls (run-RunAs calls) (stack_popen k mode st) (my_popen k command mode p)
      (popen-PopenAs k command mode st p r)
run-RunAs (pclose waits f ∷ calls) st p r =
    after_pclose-RunAs calls (run-RunAs calls) (stack_pclose waits f st) (my_pclose waits f p)
      (pclose-PcloseAs waits f st p r)

RunAs-goes_on :
    (replies : List Reply) (st : List Entry) (r : Ran)
    → RunAs (some (replies, st)) r
    → (q : Process) × (r ≡ goes_on replies q) × Represents st q
RunAs-goes_on replies st (goes_on l p) h = (p, cc (h.0), h.1)
RunAs-goes_on replies st in_child h = elim h [ ]
RunAs-goes_on replies st faulted h = elim h [ ]

-- In a process whose tables hold a stack of streams, a sequence of my_popen and my_pclose that keeps to
-- the stack (it closes only the newest stream or an unknown one, is given new addresses by fdopen,
-- is not answered as a child, and its waitpid succeeds) goes on to its end with the stack's replies,
-- each my_pclose with the status of the process of its stream, and the tables then hold the stack
-- that is left.
pub run-stack_run :
    (calls : List Call) (st left : List Entry) (replies : List Reply) (p : Process)
    → Represents st p
    → stack_run calls st ≡ some (replies, left)
    → (q : Process) × (run calls p ≡ goes_on replies q) × Represents left q
run-stack_run calls st left replies p r e =
    RunAs-goes_on replies left (run calls p)
      (subst (λ o. RunAs o (run calls p)) e (run-RunAs calls st p r))
