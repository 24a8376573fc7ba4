-- ===== src/Popen/Pops.antt =====
-- my_pclose over tables that hold a stack.
use network_system_programmi.Prelude.{
  ℕ, ◌-◌, true, List, [], ◌∷◌, Option, none, some, ◌≡◌, refl, ◌∙◌, inl, inr, arith, ◌==◌, ==_iff,
  length, set, length-set, Bool-cases,
}
use network_system_programmi.Prelude.Int.{negsuc}
use network_system_programmi.Popen.{
  End, set_fd, say, report, FilePointer, Process, Waits, Pclosed, gives, close_found, close_at,
  reap, my_pclose,
}
use network_system_programmi.Popen.Calls.{Reply, closed}
use network_system_programmi.Popen.Loop.{
  loop-unfound, loop-found, Entry, is_fresh, Holds-set, Holds-differs,
}
use network_system_programmi.Popen.Stack.{pop, stack_pclose}
use network_system_programmi.Popen.Pushes.{Represents}

-- my_pclose does what the stack does.
abbrev pub PcloseAs : Option (Reply × List Entry) → Pclosed → Type 0
PcloseAs none o = Unit
PcloseAs (some (a, st)) (gives n w p) = (a ≡ closed n w) × Represents st p
PcloseAs (some (a, st)) o = ⊥

-- An unknown stream.
pub pclose_unknown :
    (waits : Waits) (f : ℕ) (st : List Entry) (p : Process)
    → Represents st p
    → is_fresh f st ≡ true
    → my_pclose waits (some f) p ≡ gives (negsuc 0) none p
unfolding my_pclose
pclose_unknown waits f st p r e =
    loop-unfound waits p.count 0 (some f) p
      (λ j l. Holds-differs f st p j r.holds e (omega (arith, r.counted)))

-- The process once the stream in cell i is closed and its process has ended.
abbrev pub cleared : ℕ → ℕ → Process → Process
cleared i f p = record p {
  fds = set_fd (p.fileno f) End.closed p.fds;
  streams = set p.streams i none;
  pids = set p.pids i 0;
}

unfoldable pub reaped : ℕ → Process → Process
reaped stat p = record (say (report stat) p) { count = p.count - 1 }

-- The newest stream.
pub pclose_newest :
    (waits : Waits) (f pid : ℕ) (st : List Entry) (p : Process)
    → Represents ((f, pid) ∷ st) p
    → my_pclose waits (some f) p ≡ reap (waits pid) pid (cleared (length st) f p)
unfolding my_pclose close_found close_at
pclose_newest waits f pid st p r =
    loop-found waits p.count 0 (length st) (some f) (some f) p (omega arith)
      (omega (arith, r.counted)) (λ j l. Holds-differs f st p j r.holds.3 r.holds.2 l) r.holds.0
      (ground arith)
    ∙ rw r.holds.1 refl

cleared-Represents :
    (f pid stat : ℕ) (st : List Entry) (p : Process)
    → Represents ((f, pid) ∷ st) p
    → Represents st (reaped stat (cleared (length st) f p))
unfolding reaped
cleared-Represents f pid stat st p r = record {
  bounded = ground (
    arith,
    length-set p.streams (length st) none,
    length-set p.pids (length st) 0,
    r.bounded.streams_fit,
    r.bounded.pids_fit,
  );
  counted = omega (arith, r.counted);
  holds = Holds-set st p.streams p.pids (length st) none 0 (omega arith) r.holds.3;
}

pop-PcloseAs :
    (o : Option ℕ) (f pid : ℕ) (st : List Entry) (p : Process)
    → Represents ((f, pid) ∷ st) p
    → PcloseAs (pop o pid st) (reap o pid (cleared (length st) f p))
unfolding pop reap reaped
pop-PcloseAs none f pid st p r = tt
pop-PcloseAs (some stat) f pid st p r = (refl, cleared-Represents f pid stat st p r)

pub pclose-PcloseAs :
    (waits : Waits) (f : FilePointer) (st : List Entry) (p : Process)
    → Represents st p
    → PcloseAs (stack_pclose waits f st) (my_pclose waits f p)
unfolding stack_pclose
pclose-PcloseAs waits none st p r = tt
pclose-PcloseAs waits (some f) [] p r = rw (pclose_unknown waits f [] p r refl) (refl, r)
pclose-PcloseAs waits (some f) ((g, pid) ∷ st) p r = elim (Bool-cases (g == f)) [
  | inl e ↦
      let same : g ≡ f = (==_iff g f).0 e in
      rw (e, pclose_newest waits f pid st p (rw (← same) r))
        (pop-PcloseAs (waits pid) f pid st p (rw (← same) r))
  | inr e ↦ rw e (elim (Bool-cases (is_fresh f st)) [
    | inl n ↦ rw (n, pclose_unknown waits f ((g, pid) ∷ st) p r (ground arith)) (refl, r)
    | inr n ↦ rw n tt
  ])
]
