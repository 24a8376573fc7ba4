-- ===== src/Ring/Handled.antt =====
-- Which counter a handler of the ring increments.
use network_system_programmi.Prelude.{
  ℕ, ◌+◌, ◌%◌, ◌<◌, ◌≤◌, Bool, true, false, List, ◌∷◌, some, ◌≡◌, ◌∙◌, ap, subst, arith, ◌⊎◌,
  if◌then◌else◌, length, get_elem?, get_elem?-set_self, All, inl, inr,
}
use network_system_programmi.Prelude.Int.{ℤ, pos}
use network_system_programmi.Ring.{
  Slot, waiting, counting, losing, Consumer, System, Sizes, Event, handle, next, is_number,
  with_consumer, compare_slot, handle_at, with_pending, step,
}
use network_system_programmi.Ring.Slots.{Written, Kept}
use network_system_programmi.Ring.Keeps.{Inv, present}
use network_system_programmi.Ring.Reached.{start, run, start-IsReached, run-IsReached}

-- The consumer behind the handler's test.
pub record Decided (p : Sizes) (j v w : ℕ) (s t : System) : Type 0 where
  pub consumer : Consumer
  pub stands : get_elem? t.consumers j ≡ some consumer
  pub decided :
      ((w ≤ v + p.b) × (consumer.doing ≡ counting s.cnt))
      ⊎ ((v + p.b < w) × (consumer.doing ≡ losing s.loss_cnt))

pub number_is : (z : ℤ) (v : ℕ) → z ≡ pos v → is_number z v ≡ true
number_is z v e = rw e (ground arith)

number_differs : (z : ℤ) (u v : ℕ) → v < u → z ≡ pos u → is_number z v ≡ false
number_differs z u v l e = rw e (ground arith)

handled : System → ℕ → List ℕ → Bool → Consumer
handled s v rest b = record {
  pending = rest;
  doing = if b then counting s.cnt else losing s.loss_cnt;
}

decide :
    (p : Sizes) (j v w : ℕ) (rest : List ℕ) (s : System) (slot : Slot)
    → j < length s.consumers
    → Kept p.b w v slot.msg_num
    → Decided p j v w s (with_consumer s j (handled s v rest (is_number slot.msg_num v)))
unfolding handled
decide p j v w rest s slot l (inl (near, e)) = record {
  consumer = handled s v rest (is_number slot.msg_num v);
  stands = get_elem?-set_self s.consumers j _ l;
  decided = inl (
    near,
    ap (λ b. if b then counting s.cnt else losing s.loss_cnt) (number_is slot.msg_num v e),
  );
}
decide p j v w rest s slot l (inr (far, u, h, e)) = record {
  consumer = handled s v rest (is_number slot.msg_num v);
  stands = get_elem?-set_self s.consumers j _ l;
  decided = inr (
    far,
    ap (λ b. if b then counting s.cnt else losing s.loss_cnt) (number_differs slot.msg_num u v h e),
  );
}

handle_step :
    (p : Sizes) (j v : ℕ) (rest : List ℕ) (c : Consumer) (s : System) (slot : Slot)
    → get_elem? s.consumers j ≡ some c
    → c.doing ≡ waiting
    → c.pending ≡ v ∷ rest
    → get_elem? s.shmp (v % p.b) ≡ some slot
    → step p (handle j) s ≡ next (with_consumer s j (handled s v rest (is_number slot.msg_num v)))
unfolding step handle_at compare_slot handled
handle_step p j v rest c s slot at d q here =
    ap (λ o. with_pending o (λ c. handle_at p j c.pending c.doing s)) at
    ∙ (λ i. handle_at p j (q i) (d i) s)
    ∙ ap (λ o. compare_slot v rest j o s) here

-- In a system that is reached from the start, let a consumer take the signal of message v, and let the
-- producer have written w numbers: the handler counts the message as received exactly if w is at most
-- v + b, and as lost exactly if it is more, that is, once the slot's next message is in it.
pub handle-Decided :
    (p : Sizes) (es : List Event) (shmp : List Slot) (s : System) (j v : ℕ) (rest : List ℕ)
    (c : Consumer)
    → 0 < p.b
    → length shmp ≡ p.b
    → run p es (start p shmp) ≡ some s
    → get_elem? s.consumers j ≡ some c
    → c.doing ≡ waiting
    → c.pending ≡ v ∷ rest
    → (w : ℕ) × Written p.m s.phase w
      × (t : System) × (step p (handle j) s ≡ next t)
      × Decided p j v w s t
unfolding Inv
handle-Decided p es shmp s j v rest c h e ran at d q =
    let r = run-IsReached p es (start p shmp) s h (start-IsReached p shmp e) ran in
    let (w, m, sl) = r.slots in
    let old : All (λ v. v < w) (v ∷ rest) = subst (All (λ v. v < w)) q (sl.queued j c at) in
    let (slot, here, k) = sl.numbered v old.0 in
    (
      w,
      m,
      with_consumer s j (handled s v rest (is_number slot.msg_num v)),
      handle_step p j v rest c s slot at d q here,
      decide p j v w rest s slot (present s.consumers j c at) k,
    )
