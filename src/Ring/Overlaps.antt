-- ===== src/Ring/Overlaps.antt =====
-- Every step of the ring keeps what holds of the counters.
use network_system_programmi.Prelude.{
  ℕ, suc, ◌+◌, ◌*◌, ◌%◌, ◌<◌, Bool, true, false, List, [], ◌∷◌, some, ◌≡◌, refl, ◌∙◌, ap, subst,
  arith, ltb, if◌then◌else◌, length, get_elem?, inl, inr, Bool-cases, Option-cases,
}
use network_system_programmi.Prelude.Int.{pos}
use native.Mathlib.Nat.{mod-lt}
use network_system_programmi.Ring.{
  Doing, waiting, counting, losing, Consumer, Phase, filling, numbering, sending, finished, System,
  Sizes, Event, produce, handle, increment, message, produce_at, is_number, with_consumer,
  compare_slot, handle_at, increment_at, step, next,
}
use network_system_programmi.Ring.Slots.{Steps, Steps-in_int}
use network_system_programmi.Ring.Slots.{Slots, slot_at}
use network_system_programmi.Ring.Keeps.{Inv}
use network_system_programmi.Ring.Counts.{
  Sent, Read, Counted, CountInv, waiting_for-set, All-set, All-get, reads-more, unmoved,
  store-CountInv, send-CountInv,
}

produce-CountInv :
    (p : Sizes) (q : Bool) (phase : Phase) (k : ℕ) (s : System)
    → 0 < p.b
    → length s.shmp ≡ p.b
    → length s.consumers ≡ p.n
    → Sent p phase k
    → Counted p k s
    → Steps (CountInv p) (produce_at p q phase s)
unfolding produce_at CountInv
produce-CountInv p q (filling i) k s h z zc (e, l) r = elim (Bool-cases (ltb i p.m)) [
  | inl t ↦ rw t (
      store-CountInv p k (i % p.b) (λ slot. record slot { buf = message i }) (numbering i) s z
        (mod-lt i h) (e, ground arith) r)
  | inr t ↦
      let last : i ≡ p.m = ground arith in
      rw t (k, e ∙ ap (λ x. x * p.n) last, unmoved s.shmp finished r)
]
produce-CountInv p q (numbering i) k s h z zc (e, l) r =
    store-CountInv p k (i % p.b) (λ slot. record slot { msg_num = pos i }) (sending i 0) s z
      (mod-lt i h) (omega arith, l, omega arith) r
produce-CountInv p q (sending i j) k s h z zc (e, l, f) r = elim (Bool-cases (ltb j p.n)) [
  | inl t ↦
      rw t (Steps-in_int (CountInv p) (j + 1) _ (send-CountInv p q k i j s zc e l (ground arith) r))
  | inr t ↦
      let all : j ≡ p.n = ground arith in
      let round : i * p.n + p.n ≡ (i + 1) * p.n = grind arith in
      rw t (
        Steps-in_int (CountInv p) (i + 1) (next (record s { phase = filling (i + 1) }))
          (k, (omega arith, omega arith), unmoved s.shmp (filling (i + 1)) r))
]
produce-CountInv p q finished k s h z zc e r = tt

handle-CountInv :
    (p : Sizes) (j : ℕ) (c : Consumer) (l : List ℕ) (doing : Doing) (k w : ℕ) (s : System)
    → 0 < p.b
    → Slots p w s
    → get_elem? s.consumers j ≡ some c
    → c.pending ≡ l
    → Sent p s.phase k
    → Counted p k s
    → Steps (CountInv p) (handle_at p j l doing s)
unfolding handle_at compare_slot CountInv
handle-CountInv p j c [] doing k w s h sl at e m r = tt
handle-CountInv p j c (v ∷ l) waiting k w s h sl at e m r =
    let (slot, here) = slot_at h sl v in
    rw (here, compare_slot) (k, m, take_one (is_number slot.msg_num v))
  where
    take_one :
        (b : Bool)
        → Counted p k (
            with_consumer s j
              (record { pending = l; doing = if b then counting s.cnt else losing s.loss_cnt }))
    take_one true = record {
      counted = suc r.counted;
      lost = r.lost;
      cnt_le = omega (arith, r.cnt_le);
      loss_le = r.loss_le;
      reads =
          All-set (λ c. Read (suc r.counted) r.lost c.doing) s.consumers j
            (record { pending = l; doing = counting s.cnt })
            (reads-more r.counted r.lost (suc r.counted) r.lost (omega arith) (omega arith)
              s.consumers r.reads)
            (omega (arith, r.cnt_le));
      taken = omega (
        arith,
        r.taken,
        ap (length {A = ℕ}) e,
        waiting_for-set s.consumers j c (record { pending = l; doing = counting s.cnt }) at,
      );
    }
    take_one false = record {
      counted = r.counted;
      lost = suc r.lost;
      cnt_le = r.cnt_le;
      loss_le = omega (arith, r.loss_le);
      reads =
          All-set (λ c. Read r.counted (suc r.lost) c.doing) s.consumers j
            (record { pending = l; doing = losing s.loss_cnt })
            (reads-more r.counted r.lost r.counted (suc r.lost) (omega arith) (omega arith)
              s.consumers r.reads)
            (omega (arith, r.loss_le));
      taken = omega (
        arith,
        r.taken,
        ap (length {A = ℕ}) e,
        waiting_for-set s.consumers j c (record { pending = l; doing = losing s.loss_cnt }) at,
      );
    }
handle-CountInv p j c (v ∷ l) (counting n) k w s h sl at e m r = tt
handle-CountInv p j c (v ∷ l) (losing n) k w s h sl at e m r = tt

increment-CountInv :
    (p : Sizes) (j : ℕ) (c : Consumer) (doing : Doing) (k : ℕ) (s : System)
    → get_elem? s.consumers j ≡ some c
    → c.doing ≡ doing
    → Sent p s.phase k
    → Counted p k s
    → Steps (CountInv p) (increment_at j c.pending doing s)
unfolding increment_at CountInv
increment-CountInv p j c waiting k s at e m r = tt
increment-CountInv p j c (counting n) k s at e m r =
    let below : n < r.counted =
      subst (Read r.counted r.lost) e
        (All-get (λ c. Read r.counted r.lost c.doing) s.consumers j c at r.reads) in
    Steps-in_int (CountInv p) (n + 1)
      (next (record (with_consumer s j (record { pending = c.pending; doing = waiting })) {
        cnt = n + 1;
      }))
      (
        k,
        m,
        record {
          counted = r.counted;
          lost = r.lost;
          cnt_le = omega arith;
          loss_le = r.loss_le;
          reads =
              All-set (λ c. Read r.counted r.lost c.doing) s.consumers j
                (record { pending = c.pending; doing = waiting }) r.reads tt;
          taken = omega (
            arith,
            r.taken,
            waiting_for-set s.consumers j c (record { pending = c.pending; doing = waiting }) at,
          );
        },
      )
increment-CountInv p j c (losing n) k s at e m r =
    let below : n < r.lost =
      subst (Read r.counted r.lost) e
        (All-get (λ c. Read r.counted r.lost c.doing) s.consumers j c at r.reads) in
    Steps-in_int (CountInv p) (n + 1)
      (next (record (with_consumer s j (record { pending = c.pending; doing = waiting })) {
        loss_cnt = n + 1;
      }))
      (
        k,
        m,
        record {
          counted = r.counted;
          lost = r.lost;
          cnt_le = r.cnt_le;
          loss_le = omega arith;
          reads =
              All-set (λ c. Read r.counted r.lost c.doing) s.consumers j
                (record { pending = c.pending; doing = waiting }) r.reads tt;
          taken = omega (
            arith,
            r.taken,
            waiting_for-set s.consumers j c (record { pending = c.pending; doing = waiting }) at,
          );
        },
      )

pub step-CountInv :
    (p : Sizes) (e : Event) (s : System)
    → 0 < p.b
    → Inv p s
    → CountInv p s
    → Steps (CountInv p) (step p e s)
unfolding step Inv CountInv
step-CountInv p (produce q) s h (w, written, sl) (k, m, r) =
    produce-CountInv p q s.phase k s h sl.sized sl.staffed m r
step-CountInv p (handle j) s h (w, written, sl) (k, m, r) =
    elim (Option-cases (get_elem? s.consumers j)) [
      | inl e ↦ rw (e, step) tt
      | inr (c, e) ↦ rw (e, step) (handle-CountInv p j c c.pending c.doing k w s h sl e refl m r)
    ]
step-CountInv p (increment j) s h (w, written, sl) (k, m, r) =
    elim (Option-cases (get_elem? s.consumers j)) [
      | inl e ↦ rw (e, step) tt
      | inr (c, e) ↦ rw (e, step) (increment-CountInv p j c c.doing k s e refl m r)
    ]
