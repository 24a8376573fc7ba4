-- ===== src/Popen/Lost.antt =====
-- A stream that is closed before a newer one.
use network_system_programmi.Prelude.{
  ℕ, ◌-◌, ◌≤◌, ◌<◌, false, List, [], ◌∷◌, none, some, ◌≡◌, refl, ◌∙◌, arith, length, get_elem?,
  get_elem?-set_self, get_elem?-set_ne,
}
use network_system_programmi.Prelude.Int.{pos, negsuc}
use native.Mathlib.Decide.{ℕ_discrete}
use network_system_programmi.Popen.{Process, Waits, gives, close_found, close_at, reap, my_pclose}
use network_system_programmi.Popen.Loop.{
  Differs, loop-unfound, loop-found, Entry, is_fresh, Holds, Holds-differs,
}
use network_system_programmi.Popen.Pushes.{Represents}
use network_system_programmi.Popen.Pops.{cleared, reaped}

-- Where a stream of the stack stands.
record Place (f : ℕ) (st : List Entry) (p : Process) : Type 0 where
  index : ℕ
  pid : ℕ
  below : index < length st
  stream_at : get_elem? p.streams index ≡ some (some f)
  pid_at : get_elem? p.pids index ≡ some pid
  first : (j : ℕ) → j < index → Differs (some f) p j

place :
    (f : ℕ) (st : List Entry) (p : Process)
    → Holds st p.streams p.pids
    → is_fresh f st ≡ false
    → Place f st p
place f [] p c h = cc
place f ((g, q) ∷ st) p c h = elim (ℕ_discrete g f) [
  | yes e ↦ record {
    index = length st;
    pid = q;
    below = omega arith;
    stream_at = rw (← e) c.0;
    pid_at = c.1;
    first = λ j l. Holds-differs f st p j c.3 (rw (← e) c.2) l;
  }
  | no n ↦
      let rest = place f st p c.3 (ground arith) in
      record {
        index = rest.index;
        pid = rest.pid;
        below = omega (arith, rest.below);
        stream_at = rest.stream_at;
        pid_at = rest.pid_at;
        first = rest.first;
      }
]

pclose_at :
    (waits : Waits) (f stat : ℕ) (st : List Entry) (p : Process) (x : Place f st p)
    → length st ≤ p.count
    → waits x.pid ≡ some stat
    → my_pclose waits (some f) p ≡ gives (pos stat) (some x.pid) (reaped stat (cleared x.index f p))
unfolding my_pclose close_found close_at reap reaped
pclose_at waits f stat st p x l w =
    loop-found waits p.count 0 x.index (some f) (some f) p (omega arith) (omega (arith, x.below))
      x.first x.stream_at (ground arith)
    ∙ rw (x.pid_at, close_found) (rw (w, reap) refl)

-- The newest stream once an older one is closed: it is behind the count.
hidden :
    (waits : Waits) (b q i f stat : ℕ) (st : List Entry) (p : Process)
    → Represents ((b, q) ∷ st) p
    → i < length st
    → let p' = reaped stat (cleared i f p) in
      (my_pclose waits (some b) p' ≡ gives (negsuc 0) none p')
      × (get_elem? p'.streams p'.count ≡ some (some b))
unfolding my_pclose reaped
hidden waits b q i f stat st p r l = (
  loop-unfound waits (p.count - 1) 0 (some b) (reaped stat (cleared i f p)) (λ j m.
      elim (ℕ_discrete i j) [
        | yes e ↦ (
          none,
          rw e (
              get_elem?-set_self p.streams j none
                (omega (arith, r.bounded.streams_fit, r.bounded.count_fits, r.counted))),
          refl,
        )
        | no n ↦
            let (cell, at, d) =
              Holds-differs b st p j r.holds.3 r.holds.2 (omega (arith, r.counted)) in
            (cell, get_elem?-set_ne p.streams i j none n ∙ at, d)
      ]),
  rw (count_is, get_elem?-set_ne p.streams i (length st) none (λ e. omega arith)) r.holds.0,
)
  where
    count_is : p.count - 1 ≡ length st
    count_is = omega (arith, r.counted)

-- Where the tables hold a stack of streams, my_pclose of a stream that is not the newest succeeds if
-- its waitpid does, and hides the newest one: my_pclose of that then returns -1, waits for no process
-- and changes nothing, and its cell is the one that the next my_popen writes to.
pub my_pclose-lost :
    (waits : Waits) (a b q : ℕ) (st : List Entry) (p : Process)
    → Represents ((b, q) ∷ st) p
    → is_fresh a st ≡ false
    → ((pid : ℕ) → (stat : ℕ) × (waits pid ≡ some stat))
    → (stat pid : ℕ) × (p' : Process) × (my_pclose waits (some a) p
        ≡ gives (pos stat) (some pid) p')
      × (my_pclose waits (some b) p' ≡ gives (negsuc 0) none p')
      × (get_elem? p'.streams p'.count ≡ some (some b))
my_pclose-lost waits a b q st p r s w =
    let x = place a st p r.holds.3 s in
    let (stat, e) = w x.pid in
    let (unknown, at) = hidden waits b q x.index a stat st p r x.below in
    (
      stat,
      x.pid,
      reaped stat (cleared x.index a p),
      pclose_at waits a stat st p x (omega (arith, r.counted)) e,
      unknown,
      at,
    )
