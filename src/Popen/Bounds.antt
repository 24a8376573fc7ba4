-- ===== src/Popen/Bounds.antt =====
-- The tables of 44_2.c under sequences of calls.
use network_system_programmi.Prelude.{
  ℕ, zero, suc, ◌+◌, ◌≤◌, ◌<◌, List, [], ◌∷◌, Option, none, some, ◌≡◌, ◌≢◌, refl, inl, inr, arith,
  leb, All, length, length-set, get_elem?, get_elem?-some, Bool-cases,
}
use network_system_programmi.Prelude.Bytes.{Bytes, codes, equal}
use network_system_programmi.Popen.{
  max_popen, FilePointer, Process, Fork, no_fork, child, parent, Answers, Popened, returns, shell,
  exits_child, open_pipe, enter, in_tables, register, forked, popen_read, popen_write, my_popen,
  Waits, Pclosed, gives, reap, close_at, same, close_found, pclose_loop, my_pclose,
}
use network_system_programmi.Popen.Calls.{
  Call, popen, pclose, Reply, opened, closed, Ran, goes_on, in_child, faulted, and_reply,
  after_popen, after_pclose, run,
}

pub record Bounded (p : Process) : Type 0 where
  pub streams_fit : length p.streams ≡ max_popen
  pub pids_fit : length p.pids ≡ max_popen
  pub count_fits : p.count ≤ max_popen

-- A call that stays in the process: it is not answered as a child, and NULL is not closed.
abbrev pub StaysIn : Call → Type 0
StaysIn (popen k command mode) = k.fork ≢ child
StaysIn (pclose waits f) = f ≢ none

-- The sequence goes on in a process with this property.
abbrev pub GoesOn : (Process → Type 0) → Ran → Type 0
GoesOn P (goes_on replies p) = P p
GoesOn P r = ⊥

abbrev Opens : (Process → Type 0) → Popened → Type 0
Opens P (returns f p) = P p
Opens P r = ⊥

abbrev Closes : (Process → Type 0) → Pclosed → Type 0
Closes P (gives n w p) = P p
Closes P r = ⊥

register-Bounded :
    (f : FilePointer) (fd pid : ℕ) (p : Process)
    → Bounded p
    → p.count < max_popen
    → Opens Bounded (register f fd pid p)
unfolding register in_tables enter
register-Bounded none fd pid p b h =
    ground (arith, length-set p.streams p.count none, length-set p.pids p.count pid)
register-Bounded (some f) fd pid p b h =
    ground (arith, length-set p.streams p.count (some f), length-set p.pids p.count pid)

forked-Bounded :
    (k : Answers) (fork : Fork) (command : Bytes) (mine other std : ℕ) (p : Process)
    → fork ≢ child
    → Bounded p
    → p.count < max_popen
    → Opens Bounded (forked k fork command mine other std p)
unfolding forked
forked-Bounded k no_fork command mine other std p c b h = b
forked-Bounded k child command mine other std p c b h = absurd (c refl)
forked-Bounded k (parent pid) command mine other std p c b h =
    register-Bounded k.fdopen mine pid _
      (record { streams_fit = b.streams_fit; pids_fit = b.pids_fit; count_fits = b.count_fits }) h

read-Bounded :
    (k : Answers) (command : Bytes) (p : Process) (ends : Option (ℕ × ℕ))
    → k.fork ≢ child
    → Bounded p
    → p.count < max_popen
    → Opens Bounded (popen_read k command p ends)
unfolding popen_read open_pipe
read-Bounded k command p none c b h = b
read-Bounded k command p (some (r, w)) c b h =
    forked-Bounded k k.fork command r w 1 _ c (ground arith) h

write-Bounded :
    (k : Answers) (command : Bytes) (p : Process) (ends : Option (ℕ × ℕ))
    → k.fork ≢ child
    → Bounded p
    → p.count < max_popen
    → Opens Bounded (popen_write k command p ends)
unfolding popen_write open_pipe
write-Bounded k command p none c b h = b
write-Bounded k command p (some (r, w)) c b h =
    forked-Bounded k k.fork command w r 0 _ c (ground arith) h

my_popen-Bounded :
    (k : Answers) (command mode : Bytes) (p : Process)
    → k.fork ≢ child
    → Bounded p
    → Opens Bounded (my_popen k command mode p)
unfolding my_popen
my_popen-Bounded k command mode p c b = elim (Bool-cases (leb max_popen p.count)) [
  | inl e ↦ rw e (ground arith)
  | inr e ↦ rw e (elim (Bool-cases (equal mode (codes "r"))) [
    | inl r ↦ rw r (read-Bounded k command p k.pipe c b (ground arith))
    | inr r ↦ rw r (elim (Bool-cases (equal mode (codes "w"))) [
      | inl w ↦ rw w (write-Bounded k command p k.pipe c b (ground arith))
      | inr w ↦ rw w (ground arith)
    ])
  ])
]

reap-Bounded : (o : Option ℕ) (pid : ℕ) (p : Process) → Bounded p → Closes Bounded (reap o pid p)
unfolding reap
reap-Bounded none pid p b = b
reap-Bounded (some stat) pid p b = ground arith

close_found-Bounded :
    (waits : Waits) (i : ℕ) (f : FilePointer) (p : Process)
    → f ≢ none
    → Bounded p
    → i < p.count
    → Closes Bounded (close_found waits i (get_elem? p.pids i) f p)
unfolding close_found close_at
close_found-Bounded waits i none p c b h = absurd (c refl)
close_found-Bounded waits i (some f) p c b h =
    let (pid, e) = get_elem?-some p.pids i (ground arith) in
    rw e (
      reap-Bounded (waits pid) pid _
        (ground (arith, length-set p.streams i none, length-set p.pids i 0)))

loop-Bounded :
    (waits : Waits) (n i : ℕ) (f : FilePointer) (p : Process)
    → f ≢ none
    → Bounded p
    → n + i ≤ p.count
    → Closes Bounded (pclose_loop waits n i f p)
unfolding pclose_loop
loop-Bounded waits zero i f p c b h = b
loop-Bounded waits (suc n) i f p c b h =
    let (cell, e) = get_elem?-some p.streams i (ground arith) in
    rw (e, pclose_loop)
      (elim (Bool-cases (same cell f)) [
        | inl s ↦ rw s (close_found-Bounded waits i f p c b (omega arith))
        | inr s ↦ rw s (loop-Bounded waits n (i + 1) f p c b (omega arith))
      ])

GoesOn-and : (P : Process → Type 0) (a : Reply) (r : Ran) → GoesOn P r → GoesOn P (and_reply a r)
GoesOn-and P a (goes_on replies p) h = h
GoesOn-and P a in_child h = h
GoesOn-and P a faulted h = h

GoesOn-popen :
    (P Q : Process → Type 0) (later : Process → Ran) (o : Popened)
    → ((p : Process) → P p → GoesOn Q (later p))
    → Opens P o
    → GoesOn Q (after_popen later o)
GoesOn-popen P Q later (returns f p) k h = GoesOn-and Q (opened f) (later p) (k p h)
GoesOn-popen P Q later (shell c fds) k h = elim h [ ]
GoesOn-popen P Q later exits_child k h = elim h [ ]
GoesOn-popen P Q later Popened.undefined k h = elim h [ ]

GoesOn-pclose :
    (P Q : Process → Type 0) (later : Process → Ran) (o : Pclosed)
    → ((p : Process) → P p → GoesOn Q (later p))
    → Closes P o
    → GoesOn Q (after_pclose later o)
GoesOn-pclose P Q later (gives n w p) k h = GoesOn-and Q (closed n w) (later p) (k p h)
GoesOn-pclose P Q later Pclosed.undefined k h = elim h [ ]

-- In a process whose tables have their 128 cells and a count of at most 128, any sequence of my_popen
-- and my_pclose that is not answered as a child and closes no NULL goes on to its end, whatever its
-- modes, failed calls and unknown streams: no access lies outside the tables, which keep their
-- size, and the count stays at most 128.
pub run-Bounded :
    (calls : List Call) (p : Process) → All StaysIn calls → Bounded p → GoesOn Bounded (run calls p)
unfolding run my_pclose
run-Bounded [] p s b = b
run-Bounded (popen k command mode ∷ calls) p s b =
    GoesOn-popen Bounded Bounded (run calls) (my_popen k command mode p)
      (λ q c. run-Bounded calls q s.1 c) (my_popen-Bounded k command mode p s.0 b)
run-Bounded (pclose waits f ∷ calls) p s b =
    GoesOn-pclose Bounded Bounded (run calls) (my_pclose waits f p)
      (λ q c. run-Bounded calls q s.1 c) (loop-Bounded waits p.count 0 f p s.0 b (omega arith))
