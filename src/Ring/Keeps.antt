-- ===== src/Ring/Keeps.antt =====
-- Every step of the ring keeps its slots.
use network_system_programmi.Prelude.{
  ℕ, zero, suc, ◌+◌, ◌<◌, Bool, true, false, List, [], ◌∷◌, some, ◌≡◌, refl, sym, ◌∙◌, ap, subst,
  arith, ltb, length, get_elem?, set, length-set, get_elem?-set_self, get_elem?-set_ne,
  get_elem?-some, All, All-append, inl, inr, Bool-cases, Option-cases,
}
use native.Mathlib.Decide.{ℕ_discrete}
use native.Mathlib.Nat.{mod-lt}
use network_system_programmi.Ring.{
  Doing, waiting, counting, losing, Consumer, Phase, filling, numbering, sending, finished, System,
  Sizes, Event, produce, handle, increment, store, queue, send, produce_at, compare_slot, handle_at,
  increment_at, step, next, with_consumer,
}
use network_system_programmi.Ring.Slots.{
  Written, Slots, Steps, Steps-in_int, slot_at, text-Slots, number-Slots,
}

unfoldable pub Inv : Sizes → System → Type 0
Inv p s = (w : ℕ) × Written p.m s.phase w × Slots p w s

-- A consumer that is replaced by one whose signals are old enough.
consumer-Slots :
    {p : Sizes} {w : ℕ} {s : System} (j : ℕ) (c : Consumer) (phase : Phase) (cnt loss_cnt : ℕ)
    → j < length s.consumers
    → All (λ v. v < w) c.pending
    → Slots p w s
    → Slots p w (record s {
      consumers = set s.consumers j c;
      phase = phase;
      cnt = cnt;
      loss_cnt = loss_cnt;
    })
consumer-Slots {p} {w} {s} j c phase cnt loss_cnt l a r = record {
  sized = r.sized;
  numbered = r.numbered;
  staffed = length-set s.consumers j c ∙ r.staffed;
  queued = λ k d at. elim (ℕ_discrete j k) [
    | yes same ↦
        let here = get_elem?-set_self s.consumers j c l in
        let one : c ≡ d = cc (ap (get_elem? (set s.consumers j c)) same) in
        subst (λ x. All (λ v. v < w) x.pending) one a
    | no other ↦ r.queued k d (sym (get_elem?-set_ne s.consumers j k c other) ∙ at)
  ];
}

pub present : (l : List Consumer) (j : ℕ) (c : Consumer) → get_elem? l j ≡ some c → j < length l
present [] j c e = cc
present (d ∷ l) zero c e = omega arith
present (d ∷ l) (suc j) c e = omega (arith, present l j c e)

send-Inv :
    (p : Sizes) (q : Bool) (i j : ℕ) (s : System)
    → Slots p (suc i) s
    → i < p.m
    → j < p.n
    → Steps (Inv p) (send q i j s)
unfolding send queue Inv
send-Inv p q i j s r l h =
    let (c, e) = get_elem?-some s.consumers j (omega (arith, r.staffed)) in
    rw (e, send)
      (
        suc i,
        (refl, l),
        consumer-Slots j (queue q i c) (sending i (j + 1)) s.cnt s.loss_cnt
            (present s.consumers j c e) (queued_All q c (r.queued j c e)) r,
      )
  where
    queued_All :
        (q : Bool) (c : Consumer)
        → All (λ v. v < suc i) c.pending
        → All (λ v. v < suc i) (queue q i c).pending
    queued_All true c a = All-append (λ v. v < suc i) c.pending (i ∷ []) a (omega arith)
    queued_All false c a = a

behind :
    {p : Sizes} {w : ℕ} {s : System} (phase : Phase)
    → Slots p w s
    → Slots p w (record s { phase = phase })
behind phase r = record {
  sized = r.sized;
  numbered = r.numbered;
  staffed = r.staffed;
  queued = r.queued;
}

produce-Inv :
    (p : Sizes) (q : Bool) (phase : Phase) (w : ℕ) (s : System)
    → 0 < p.b
    → Written p.m phase w
    → Slots p w s
    → Steps (Inv p) (produce_at p q phase s)
unfolding produce_at store Inv
produce-Inv p q (filling i) w s h (e, l) r = elim (Bool-cases (ltb i p.m)) [
  | inr t ↦ rw t (w, ground arith, behind finished r)
  | inl t ↦
      let (slot, at) = slot_at h r i in
      rw t (
        rw (at, store)
          (
            w,
            (e, ground arith),
            text-Slots p w i s slot (numbering i) at (omega (arith, r.sized, mod-lt i h)) r,
          ))
]
produce-Inv p q (numbering i) w s h (e, l) r =
    let (slot, at) = slot_at h r i in
    rw (at, store)
      (
        suc i,
        (refl, l),
        number-Slots p i s slot at (omega (arith, r.sized, mod-lt i h))
            (subst (λ k. Slots p k s) e r),
      )
produce-Inv p q (sending i j) w s h (e, l) r = elim (Bool-cases (ltb j p.n)) [
  | inl t ↦ rw t (
      Steps-in_int (Inv p) (j + 1) _
        (send-Inv p q i j s (subst (λ k. Slots p k s) e r) l (ground arith)))
  | inr t ↦ rw t (
      Steps-in_int (Inv p) (i + 1) (next (record s { phase = filling (i + 1) }))
        (w, (omega (arith, e), omega arith), behind (filling (i + 1)) r))
]
produce-Inv p q finished w s h e r = tt

handle-Inv :
    (p : Sizes) (j : ℕ) (c : Consumer) (l : List ℕ) (doing : Doing) (w : ℕ) (s : System)
    → 0 < p.b
    → get_elem? s.consumers j ≡ some c
    → c.pending ≡ l
    → Written p.m s.phase w
    → Slots p w s
    → Steps (Inv p) (handle_at p j l doing s)
unfolding handle_at compare_slot Inv
handle-Inv p j c [] doing w s h at e m r = tt
handle-Inv p j c (v ∷ l) waiting w s h at e m r =
    let (slot, here) = slot_at h r v in
    let old : All (λ v. v < w) (v ∷ l) = subst (All (λ v. v < w)) e (r.queued j c at) in
    rw (here, compare_slot)
      (w, m, consumer-Slots j _ s.phase s.cnt s.loss_cnt (present s.consumers j c at) old.1 r)
handle-Inv p j c (v ∷ l) (counting k) w s h at e m r = tt
handle-Inv p j c (v ∷ l) (losing k) w s h at e m r = tt

increment-Inv :
    (p : Sizes) (j : ℕ) (c : Consumer) (doing : Doing) (w : ℕ) (s : System)
    → get_elem? s.consumers j ≡ some c
    → Written p.m s.phase w
    → Slots p w s
    → Steps (Inv p) (increment_at j c.pending doing s)
unfolding increment_at Inv
increment-Inv p j c waiting w s at m r = tt
increment-Inv p j c (counting k) w s at m r =
    Steps-in_int (Inv p) (k + 1)
      (next (record (with_consumer s j (record { pending = c.pending; doing = waiting })) {
        cnt = k + 1;
      }))
      (
        w,
        m,
        consumer-Slots j _ s.phase (k + 1) s.loss_cnt (present s.consumers j c at) (r.queued j c at)
            r,
      )
increment-Inv p j c (losing k) w s at m r =
    Steps-in_int (Inv p) (k + 1)
      (next (record (with_consumer s j (record { pending = c.pending; doing = waiting })) {
        loss_cnt = k + 1;
      }))
      (
        w,
        m,
        consumer-Slots j _ s.phase s.cnt (k + 1) (present s.consumers j c at) (r.queued j c at) r,
      )

pub step-Inv : (p : Sizes) (e : Event) (s : System) → 0 < p.b → Inv p s → Steps (Inv p) (step p e s)
unfolding step Inv
step-Inv p (produce q) s h (w, m, r) = produce-Inv p q s.phase w s h m r
step-Inv p (handle j) s h (w, m, r) = elim (Option-cases (get_elem? s.consumers j)) [
  | inl e ↦ rw (e, step) tt
  | inr (c, e) ↦ rw (e, step) (handle-Inv p j c c.pending c.doing w s h e refl m r)
]
step-Inv p (increment j) s h (w, m, r) = elim (Option-cases (get_elem? s.consumers j)) [
  | inl e ↦ rw (e, step) tt
  | inr (c, e) ↦ rw (e, step) (increment-Inv p j c c.doing w s e m r)
]
