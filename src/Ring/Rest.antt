-- ===== src/Ring/Rest.antt =====
-- A state of the ring between two signals, and one signal that is handled at once.
use network_system_programmi.Prelude.{
  ℕ, zero, suc, ◌+◌, ◌%◌, ◌<◌, true, false, List, [], ◌∷◌, some, ◌≡◌, refl, ◌∙◌, ap, arith, ltb,
  if◌then◌else◌, get_elem?, set, replicate, length-replicate, lt→ltb, get_elem?-set_self,
}
use network_system_programmi.Prelude.Int.{pos}
use network_system_programmi.Ring.{
  Slot, waiting, counting, losing, Consumer, Phase, sending, System, Sizes, Event, produce, handle,
  increment, next, queue, send, produce_at, with_consumer, compare_slot, handle_at, increment_at,
  with_pending, step, overflow, int_end, in_int,
}
use network_system_programmi.Ring.Handled.{number_is}
use network_system_programmi.Ring.Reached.{idle, run}
use network_system_programmi.Ring.Within.{IsIntSized}

-- The order of the steps: each message is signalled to a consumer that handles it at once.
abbrev pub sends : ℕ → ℕ → List Event → List Event
sends zero j rest = rest
sends (suc r) j rest = produce true ∷ handle j ∷ increment j ∷ sends r (j + 1) rest

-- A state between two signals.
abbrev pub at_rest : Sizes → List Slot → ℕ → Phase → System
at_rest p shmp cnt phase = record {
  shmp = shmp;
  cnt = cnt;
  loss_cnt = 0;
  consumers = replicate p.n idle;
  phase = phase;
}

pub run_next :
    (p : Sizes) (e : Event) (es : List Event) (s t : System)
    → step p e s ≡ next t
    → run p (e ∷ es) s ≡ run p es t
unfolding run
run_next p e es s t h = rw (h, run) refl

pub ltb_irrefl : (n : ℕ) → ltb n n ≡ false
ltb_irrefl n = ground arith

set-set : (l : List Consumer) (j : ℕ) (c d : Consumer) → set (set l j c) j d ≡ set l j d
set-set [] j c d = refl
set-set (x ∷ l) zero c d = refl
set-set (x ∷ l) (suc j) c d = ap (◌∷◌ x) (set-set l j c d)

replicate_at : (n j : ℕ) → j < n → get_elem? (replicate n idle) j ≡ some idle
replicate_at zero j h = absurd (omega arith)
replicate_at (suc n) zero h = refl
replicate_at (suc n) (suc j) h = replicate_at n j (omega arith)

set-replicate : (n j : ℕ) → set (replicate n idle) j idle ≡ replicate n idle
set-replicate zero j = refl
set-replicate (suc n) zero = refl
set-replicate (suc n) (suc j) = ap (◌∷◌ idle) (set-replicate n j)

-- One signal, from its sigqueue to the end of its handler.
module _ (p : Sizes) (shmp : List Slot) (i j cnt : ℕ) (slot : Slot) (z : IsIntSized p) (h : j < p.n)
    (room : cnt + 1 < int_end) (here : get_elem? shmp (i % p.b) ≡ some slot)
    (number : slot.msg_num ≡ pos i) where
  signalled : System
  signalled = record {
    shmp = shmp;
    cnt = cnt;
    loss_cnt = 0;
    consumers = set (replicate p.n idle) j (record { pending = i ∷ []; doing = waiting });
    phase = sending i (j + 1);
  }

  reading : System
  reading = record {
    shmp = shmp;
    cnt = cnt;
    loss_cnt = 0;
    consumers = set (replicate p.n idle) j (record { pending = []; doing = counting cnt });
    phase = sending i (j + 1);
  }

  signal_step : step p (produce true) (at_rest p shmp cnt (sending i j)) ≡ next signalled
  unfolding step produce_at send queue in_int signalled
  signal_step =
      rw (lt→ltb j p.n h, lt→ltb (j + 1) int_end (omega (arith, z.staff)))
        (rw (replicate_at p.n j h, send) refl)

  read_step : step p (handle j) signalled ≡ next reading
  unfolding step handle_at compare_slot signalled reading
  read_step =
      ap (λ o. with_pending o (λ c. handle_at p j c.pending c.doing signalled))
        (get_elem?-set_self (replicate p.n idle) j (record { pending = i ∷ []; doing = waiting })
          (omega (arith, length-replicate p.n idle)))
      ∙ ap (λ o. compare_slot i [] j o signalled) here
      ∙ ap
          (λ b. next (
            with_consumer signalled j
              (record { pending = []; doing = if b then counting cnt else losing 0 })))
          (number_is slot.msg_num i number)
      ∙ ap (λ l. next (record reading { consumers = l }))
          (set-set (replicate p.n idle) j _ (record { pending = []; doing = counting cnt }))

  count_step : step p (increment j) reading ≡ next (at_rest p shmp (cnt + 1) (sending i (j + 1)))
  unfolding step increment_at in_int reading
  count_step =
      ap (λ o. with_pending o (λ c. increment_at j c.pending c.doing reading))
        (get_elem?-set_self (replicate p.n idle) j (record { pending = []; doing = counting cnt })
          (omega (arith, length-replicate p.n idle)))
      ∙ ap
          (λ b.
            if b
            then next (record (at_rest p shmp (cnt + 1) (sending i (j + 1))) {
              consumers =
                  set (set (replicate p.n idle) j (record { pending = []; doing = counting cnt })) j
                    idle;
            })
            else overflow)
          (lt→ltb (cnt + 1) int_end room)
      ∙ ap (λ l. next (record (at_rest p shmp (cnt + 1) (sending i (j + 1))) { consumers = l }))
          (set-set (replicate p.n idle) j _ idle ∙ set-replicate p.n j)

pub run-sends :
    (p : Sizes) (shmp : List Slot) (i r j cnt : ℕ) (slot : Slot) (rest : List Event)
    → IsIntSized p
    → j + r ≡ p.n
    → cnt + r < int_end
    → get_elem? shmp (i % p.b) ≡ some slot
    → slot.msg_num ≡ pos i
    → run p (sends r j rest) (at_rest p shmp cnt (sending i j))
      ≡ run p rest (at_rest p shmp (cnt + r) (sending i p.n))
run-sends p shmp i zero j cnt slot rest z e room here number =
    λ t. run p rest (at_rest p shmp (none_more t) (sending i (last t)))
  where
    none_more : cnt ≡ cnt + 0
    none_more = omega arith

    last : j ≡ p.n
    last = omega arith
run-sends p shmp i (suc r) j cnt slot rest z e room here number =
    let h : j < p.n = omega arith in
    let more : cnt + 1 < int_end = omega arith in
    run_next p (produce true) _ _ _ (signal_step p shmp i j cnt slot z h more here number)
    ∙ run_next p (handle j) _ _ _ (read_step p shmp i j cnt slot z h more here number)
    ∙ run_next p (increment j) _ _ _ (count_step p shmp i j cnt slot z h more here number)
    ∙ run-sends p shmp i r (j + 1) (cnt + 1) slot rest z (omega arith) (omega arith) here number
    ∙ ap (λ c. run p rest (at_rest p shmp c (sending i p.n))) (one_more cnt r)
  where
    one_more : (a b : ℕ) → a + 1 + b ≡ a + suc b
    one_more a b = omega arith
