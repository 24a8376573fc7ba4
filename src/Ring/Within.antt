-- ===== src/Ring/Within.antt =====
-- The numbers of the ring's programs as ints.
use network_system_programmi.Prelude.{
  ℕ, suc, ◌+◌, ◌*◌, ◌<◌, ◌≤◌, Bool, List, [], ◌∷◌, none, some, ◌≡◌, refl, subst, arith, ltb, lt→ltb,
  length, get_elem?, inl, inr, Bool-cases, Option-cases,
}
use native.Mathlib.Nat.{mul-le-mul_right}
use Prim.Native.Nat.{◌%◌}
use network_system_programmi.Ring.{
  Slot, Doing, waiting, counting, losing, Consumer, Phase, filling, numbering, sending, finished,
  System, Sizes, Event, produce, handle, increment, Progress, next, blocked, undefined, overflow,
  int_end, in_int, store, send, produce_at, compare_slot, handle_at, increment_at, step,
}
use network_system_programmi.Ring.Slots.{Steps}
use network_system_programmi.Ring.Keeps.{Inv, step-Inv}
use network_system_programmi.Ring.Counts.{Sent, waiting_for, Read, Counted, CountInv, All-get}
use network_system_programmi.Ring.Overlaps.{step-CountInv}
use network_system_programmi.Ring.Reached.{start, run, IsReached, start-IsReached}

-- The numbers of messages and consumers and their product are ints.
pub record IsIntSized (p : Sizes) : Type 0 where
  pub messages : p.m < int_end
  pub staff : p.n < int_end
  pub total : p.m * p.n < int_end

abbrev Fits : Progress → Type 0
Fits overflow = ⊥
Fits _ = Unit

Fits-in_int : (n : ℕ) (x : Progress) → n < int_end → Fits x → Fits (in_int n x)
unfolding in_int
Fits-in_int n x h f = rw (lt→ltb n int_end h) f

store-Fits : (k : ℕ) (f : Slot → Slot) (phase : Phase) (s : System) → Fits (store k f phase s)
unfolding store
store-Fits k f phase s = elim (Option-cases (get_elem? s.shmp k)) [
  | inl e ↦ rw (e, store) tt
  | inr (slot, e) ↦ rw (e, store) tt
]

send-Fits : (q : Bool) (i j : ℕ) (s : System) → Fits (send q i j s)
unfolding send
send-Fits q i j s = elim (Option-cases (get_elem? s.consumers j)) [
  | inl e ↦ rw (e, send) tt
  | inr (c, e) ↦ rw (e, send) tt
]

produce-Fits :
    (p : Sizes) (q : Bool) (phase : Phase) (k : ℕ) (s : System)
    → IsIntSized p
    → Sent p phase k
    → Fits (produce_at p q phase s)
unfolding produce_at
produce-Fits p q (filling i) k s z m = elim (Bool-cases (ltb i p.m)) [
  | inl t ↦ rw t (store-Fits _ _ _ s)
  | inr t ↦ rw t tt
]
produce-Fits p q (numbering i) k s z m = store-Fits _ _ _ s
produce-Fits p q (sending i j) k s z (e, l, f) = elim (Bool-cases (ltb j p.n)) [
  | inl t ↦
      let below : j < p.n = ground arith in
      rw t (Fits-in_int (j + 1) _ (omega (arith, z.staff)) (send-Fits q i j s))
  | inr t ↦ rw t (
      Fits-in_int (i + 1) (next (record s { phase = filling (i + 1) })) (omega (arith, z.messages))
        tt)
]
produce-Fits p q finished k s z m = tt

handle-Fits :
    (p : Sizes) (j : ℕ) (l : List ℕ) (doing : Doing) (s : System) → Fits (handle_at p j l doing s)
unfolding handle_at compare_slot
handle-Fits p j [] doing s = tt
handle-Fits p j (v ∷ l) waiting s = elim (Option-cases (get_elem? s.shmp (v % p.b))) [
  | inl e ↦ rw (e, compare_slot) tt
  | inr (slot, e) ↦ rw (e, compare_slot) tt
]
handle-Fits p j (v ∷ l) (counting k) s = tt
handle-Fits p j (v ∷ l) (losing k) s = tt

-- What is sent is at most all messages for all consumers.
Sent-le : (p : Sizes) (phase : Phase) (k : ℕ) → Sent p phase k → k ≤ p.m * p.n
Sent-le p (filling i) k (e, l) = omega (arith, mul-le-mul_right p.n l)
Sent-le p (numbering i) k (e, l) =
    let below : i ≤ p.m = omega arith in omega (arith, mul-le-mul_right p.n below)
Sent-le p (sending i j) k (e, l, f) =
    let round : i * p.n + p.n ≡ suc i * p.n = grind arith in omega (arith, mul-le-mul_right p.n l)
Sent-le p finished k e = omega arith

increment-Fits :
    (p : Sizes) (j : ℕ) (c : Consumer) (doing : Doing) (k : ℕ) (s : System)
    → IsIntSized p
    → get_elem? s.consumers j ≡ some c
    → c.doing ≡ doing
    → Sent p s.phase k
    → Counted p k s
    → Fits (increment_at j c.pending doing s)
unfolding increment_at
increment-Fits p j c waiting k s z at e m r = tt
increment-Fits p j c (counting n) k s z at e m r =
    let below : n < r.counted =
      subst (Read r.counted r.lost) e
        (All-get (λ c. Read r.counted r.lost c.doing) s.consumers j c at r.reads) in
    Fits-in_int (n + 1) (next _) (omega (arith, r.taken, Sent-le p s.phase k m, z.total)) tt
increment-Fits p j c (losing n) k s z at e m r =
    let below : n < r.lost =
      subst (Read r.counted r.lost) e
        (All-get (λ c. Read r.counted r.lost c.doing) s.consumers j c at r.reads) in
    Fits-in_int (n + 1) (next _) (omega (arith, r.taken, Sent-le p s.phase k m, z.total)) tt

step-Fits : (p : Sizes) (e : Event) (s : System) → IsIntSized p → CountInv p s → Fits (step p e s)
unfolding step CountInv
step-Fits p (produce q) s z (k, m, r) = produce-Fits p q s.phase k s z m
step-Fits p (handle j) s z (k, m, r) = elim (Option-cases (get_elem? s.consumers j)) [
  | inl e ↦ rw (e, step) tt
  | inr (c, e) ↦ rw (e, step) (handle-Fits p j c.pending c.doing s)
]
step-Fits p (increment j) s z (k, m, r) = elim (Option-cases (get_elem? s.consumers j)) [
  | inl e ↦ rw (e, step) tt
  | inr (c, e) ↦ rw (e, step) (increment-Fits p j c c.doing k s z e refl m r)
]

go_on :
    (p : Sizes) (es : List Event) (s : System) (x : Progress)
    → IsReached p s
    → Fits x
    → Steps (Inv p) x
    → Steps (CountInv p) x
    → ((t : System) → IsReached p t → (u : System) × (run p es t ≡ some u) × IsReached p u)
    → (u : System) × (elim x [
      | next t ↦ run p es t
      | blocked ↦ run p es s
      | undefined ↦ none
      | overflow ↦ none
    ]
        ≡ some u)
      × IsReached p u
go_on p es s (next t) r f a b later = later t (record { slots = a; counts = b })
go_on p es s blocked r f a b later = later s r
go_on p es s undefined r f a b later = elim a [ ]
go_on p es s overflow r f a b later = elim f [ ]

run_within :
    (p : Sizes) (es : List Event) (s : System)
    → 0 < p.b
    → IsIntSized p
    → IsReached p s
    → (u : System) × (run p es s ≡ some u) × IsReached p u
unfolding run
run_within p [] s h z r = (s, refl, r)
run_within p (e ∷ es) s h z r =
    go_on p es s (step p e s) r (step-Fits p e s z r.counts) (step-Inv p e s h r.slots)
      (step-CountInv p e s h r.slots r.counts) (λ t q. run_within p es t h z q)

-- For a ring of at least one slot, with numbers of messages and of consumers that are ints as well as their
-- product, in any order of the steps, with any signals dropped: no access lies outside the memory, no
-- counter leaves an int, and the messages counted as received, those counted as lost and the signals
-- still queued are together at most the messages times the consumers.
pub run_bounds :
    (p : Sizes) (es : List Event) (shmp : List Slot)
    → 0 < p.b
    → IsIntSized p
    → length shmp ≡ p.b
    → (s : System) × (run p es (start p shmp) ≡ some s)
      × (s.cnt + s.loss_cnt + waiting_for s.consumers ≤ p.m * p.n)
unfolding CountInv
run_bounds p es shmp h z e =
    let (s, ran, r) = run_within p es (start p shmp) h z (start-IsReached p shmp e) in
    let (k, sent, c) = r.counts in
    (s, ran, omega (arith, c.cnt_le, c.loss_le, c.taken, Sent-le p s.phase k sent))
