-- ===== src/Ring/Reached.antt =====
-- What the programs of the ring reach from their start, by any order of steps.
use network_system_programmi.Prelude.{
  ℕ, zero, suc, ◌+◌, ◌*◌, ◌<◌, ◌≤◌, List, [], ◌∷◌, Option, none, some, ◌≡◌, refl, subst, arith,
  length, get_elem?, replicate, length-replicate, All,
}
use native.Mathlib.Nat.{mul-le-mul_right}
use network_system_programmi.Ring.{
  Slot, waiting, Consumer, Phase, filling, numbering, sending, finished, System, Sizes, Event,
  Progress, next, blocked, undefined, overflow, step,
}
use network_system_programmi.Ring.Slots.{Steps}
use network_system_programmi.Ring.Keeps.{Inv, step-Inv}
use network_system_programmi.Ring.Counts.{Sent, waiting_for, Read, CountInv}
use network_system_programmi.Ring.Overlaps.{step-CountInv}

abbrev pub idle : Consumer
idle = record { pending = []; doing = waiting }

-- Before the first message; the memory holds anything.
unfoldable pub start : Sizes → List Slot → System
start p shmp = record {
  shmp = shmp;
  cnt = 0;
  loss_cnt = 0;
  consumers = replicate p.n idle;
  phase = filling 0;
}

-- The events one after the other; one that is not possible is passed over. `none` is an access outside
-- the memory, or a number beyond an int.
unfoldable pub run : Sizes → List Event → System → Option System
run p [] s = some s
run p (e ∷ es) s = elim (step p e s) [
  | next t ↦ run p es t
  | blocked ↦ run p es s
  | undefined ↦ none
  | overflow ↦ none
]

pub record IsReached (p : Sizes) (s : System) : Type 0 where
  pub slots : Inv p s
  pub counts : CountInv p s

start_waiting : (n : ℕ) → waiting_for (replicate n idle) ≡ 0
start_waiting zero = refl
start_waiting (suc n) = omega (arith, start_waiting n)

start_reads : (n : ℕ) → All (λ (c : Consumer). Read 0 0 c.doing) (replicate n idle)
start_reads zero = tt
start_reads (suc n) = (tt, start_reads n)

start_queued :
    (n j : ℕ) (c : Consumer) → get_elem? (replicate n idle) j ≡ some c → All (λ v. v < 0) c.pending
start_queued zero j c e = cc
start_queued (suc n) zero c e =
    let same : idle ≡ c = cc in subst (λ (x : Consumer). All (λ v. v < 0) x.pending) same tt
start_queued (suc n) (suc j) c e = start_queued n j c e

pub start-IsReached :
    (p : Sizes) (shmp : List Slot) → length shmp ≡ p.b → IsReached p (start p shmp)
unfolding start Inv CountInv
start-IsReached p shmp h = record {
  slots = (
    0,
    (refl, omega arith),
    record {
      sized = h;
      numbered = λ v l. absurd (omega arith);
      staffed = length-replicate p.n idle;
      queued = start_queued p.n;
    },
  );
  counts = (
    0,
    (omega arith, omega arith),
    record {
      counted = 0;
      lost = 0;
      cnt_le = omega arith;
      loss_le = omega arith;
      reads = start_reads p.n;
      taken = omega (arith, start_waiting p.n);
    },
  );
}

-- What is sent is at most all messages for all consumers.
Sent-le : (p : Sizes) (phase : Phase) (k : ℕ) → Sent p phase k → k ≤ p.m * p.n
Sent-le p (filling i) k (e, l) = omega (arith, mul-le-mul_right p.n l)
Sent-le p (numbering i) k (e, l) =
    let below : i ≤ p.m = omega arith in omega (arith, mul-le-mul_right p.n below)
Sent-le p (sending i j) k (e, l, f) =
    let round : i * p.n + p.n ≡ suc i * p.n = grind arith in omega (arith, mul-le-mul_right p.n l)
Sent-le p finished k e = omega arith

-- What the steps of a run lead to.
settle :
    (p : Sizes) (es : List Event) (s u : System) (x : Progress)
    → IsReached p s
    → Steps (Inv p) x
    → Steps (CountInv p) x
    → ((t : System) → IsReached p t → run p es t ≡ some u → IsReached p u)
    → elim x [ next t ↦ run p es t | blocked ↦ run p es s | undefined ↦ none | overflow ↦ none ]
      ≡ some u
    → IsReached p u
settle p es s u (next t) r a b later e = later t (record { slots = a; counts = b }) e
settle p es s u blocked r a b later e = later s r e
settle p es s u undefined r a b later e = elim a [ ]
settle p es s u overflow r a b later e = cc

pub run-IsReached :
    (p : Sizes) (es : List Event) (s u : System)
    → 0 < p.b
    → IsReached p s
    → run p es s ≡ some u
    → IsReached p u
unfolding run
run-IsReached p [] s u h r e = let same : s ≡ u = cc in subst (IsReached p) same r
run-IsReached p (x ∷ es) s u h r e =
    settle p es s u (step p x s) r (step-Inv p x s h r.slots)
      (step-CountInv p x s h r.slots r.counts) (λ t q. run-IsReached p es t u h q) e
