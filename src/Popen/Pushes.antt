-- ===== src/Popen/Pushes.antt =====
-- my_popen over tables that hold a stack.
use network_system_programmi.Prelude.{
  ℕ, ◌<◌, true, List, ◌∷◌, Option, none, some, ◌≡◌, refl, ap, inl, inr, arith, leb, if◌then◌else◌,
  length, get_elem?-set_self, length-set, Bool-cases,
}
use network_system_programmi.Prelude.Bytes.{Bytes, codes, equal}
use network_system_programmi.Popen.{
  End, say, max_popen, FilePointer, Process, Fork, no_fork, child, parent, Answers, Popened,
  returns, open_pipe, enter, in_tables, register, forked, popen_read, popen_write, my_popen,
}
use network_system_programmi.Popen.Calls.{Reply, opened}
use network_system_programmi.Popen.Bounds.{Bounded}
use network_system_programmi.Popen.Loop.{Entry, is_fresh, Holds, Holds-set}
use network_system_programmi.Popen.Stack.{has_pipe, push, stack_popen}

-- The tables hold this stack and no hole.
pub record Represents (st : List Entry) (p : Process) : Type 0 where
  pub bounded : Bounded p
  pub counted : p.count ≡ length st
  pub holds : Holds st p.streams p.pids

-- my_popen does what the stack does.
abbrev pub PopenAs : Option (Reply × List Entry) → Popened → Type 0
PopenAs none o = Unit
PopenAs (some (a, st)) (returns f p) = (a ≡ opened f) × Represents st p
PopenAs (some (a, st)) o = ⊥

pub register_lem :
    (f : FilePointer) (fd pid : ℕ) (p : Process)
    → Bounded p
    → p.count < max_popen
    → register f fd pid p ≡ returns f (enter f fd pid p)
unfolding register in_tables
register_lem f fd pid p b h = ground arith

pub enter-Represents :
    (f fd pid : ℕ) (st : List Entry) (p : Process)
    → Represents st p
    → length st < max_popen
    → is_fresh f st ≡ true
    → Represents ((f, pid) ∷ st) (enter (some f) fd pid p)
unfolding enter
enter-Represents f fd pid st p r h e = record {
  bounded = ground (arith, length-set p.streams p.count (some f), length-set p.pids p.count pid);
  counted = ground arith;
  holds = (
    rw (← r.counted) (get_elem?-set_self p.streams p.count (some f) (ground arith)),
    rw (← r.counted) (get_elem?-set_self p.pids p.count pid (ground arith)),
    e,
    Holds-set st p.streams p.pids p.count (some f) pid (ground arith) r.holds,
  );
}

register-PopenAs :
    (f : FilePointer) (fd pid : ℕ) (st : List Entry) (p : Process)
    → Represents st p
    → length st < max_popen
    → PopenAs (push (parent pid) f st) (register f fd pid p)
unfolding push
register-PopenAs none fd pid st p r h = tt
register-PopenAs (some f) fd pid st p r h = elim (Bool-cases (is_fresh f st)) [
  | inr e ↦ rw e tt
  | inl e ↦
      rw (e, register_lem (some f) fd pid p r.bounded (ground arith))
        (refl, enter-Represents f fd pid st p r h e)
]

pub same_tables :
    {st : List Entry} {p : Process} (fds : ℕ → End)
    → Represents st p
    → Represents st (record p { fds = fds })
same_tables fds r = record { bounded = ground arith; counted = r.counted; holds = r.holds }

forked-PopenAs :
    (k : Answers) (fork : Fork) (command : Bytes) (mine other std : ℕ) (st : List Entry)
    (p : Process)
    → Represents st p
    → length st < max_popen
    → PopenAs (push fork k.fdopen st) (forked k fork command mine other std p)
unfolding forked push
forked-PopenAs k no_fork command mine other std st p r h = (refl, r)
forked-PopenAs k child command mine other std st p r h = tt
forked-PopenAs k (parent pid) command mine other std st p r h =
    register-PopenAs k.fdopen mine pid st _ (same_tables _ r) h

read-PopenAs :
    (k : Answers) (command : Bytes) (st : List Entry) (p : Process) (ends : Option (ℕ × ℕ))
    → Represents st p
    → length st < max_popen
    → PopenAs
        (if has_pipe ends then push k.fork k.fdopen st else some (opened none, st))
        (popen_read k command p ends)
unfolding popen_read open_pipe
read-PopenAs k command st p none r h = (refl, r)
read-PopenAs k command st p (some (a, b)) r h =
    forked-PopenAs k k.fork command a b 1 st _ (same_tables _ r) h

write-PopenAs :
    (k : Answers) (command : Bytes) (st : List Entry) (p : Process) (ends : Option (ℕ × ℕ))
    → Represents st p
    → length st < max_popen
    → PopenAs
        (if has_pipe ends then push k.fork k.fdopen st else some (opened none, st))
        (popen_write k command p ends)
unfolding popen_write open_pipe
write-PopenAs k command st p none r h = (refl, r)
write-PopenAs k command st p (some (a, b)) r h =
    forked-PopenAs k k.fork command b a 0 st _ (same_tables _ r) h

pub said :
    {st : List Entry} {p : Process} (text : Bytes) → Represents st p → Represents st (say text p)
said text r = record { bounded = ground arith; counted = r.counted; holds = r.holds }

pub popen-PopenAs :
    (k : Answers) (command mode : Bytes) (st : List Entry) (p : Process)
    → Represents st p
    → PopenAs (stack_popen k mode st) (my_popen k command mode p)
unfolding my_popen stack_popen
popen-PopenAs k command mode st p r =
    let same_test : leb max_popen p.count ≡ leb max_popen (length st) =
      ap (leb max_popen) r.counted in
    elim (Bool-cases (leb max_popen (length st))) [
      | inl e ↦ rw (same_test, e) (refl, said _ r)
      | inr e ↦
          rw (same_test, e)
            (elim (Bool-cases (equal mode (codes "r"))) [
              | inl a ↦ rw a (read-PopenAs k command st p k.pipe r (ground arith))
              | inr a ↦ rw a (elim (Bool-cases (equal mode (codes "w"))) [
                | inl b ↦ rw b (write-PopenAs k command st p k.pipe r (ground arith))
                | inr b ↦ rw b (refl, said _ r)
              ])
            ])
    ]
