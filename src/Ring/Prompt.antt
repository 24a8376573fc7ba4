-- ===== src/Ring/Prompt.antt =====
-- Consumers that handle each signal before the producer goes on.
use network_system_programmi.Prelude.{
  ℕ, zero, suc, ◌+◌, ◌*◌, ◌%◌, ◌<◌, true, List, [], ◌∷◌, some, ◌≡◌, refl, ◌∙◌, ap, arith, length,
  get_elem?, set, length-set, lt→ltb, get_elem?-set_self, get_elem?-some,
}
use network_system_programmi.Prelude.Int.{pos}
use native.Mathlib.Nat.{mod-lt}
use network_system_programmi.Ring.{
  Slot, filling, numbering, sending, finished, System, Sizes, Event, produce, next, message, store,
  produce_at, step, int_end, in_int,
}
use network_system_programmi.Ring.Reached.{start, run}
use network_system_programmi.Ring.Within.{IsIntSized}
use network_system_programmi.Ring.Rest.{sends, at_rest, run_next, ltb_irrefl, run-sends}

-- The order of the steps: each message is signalled to one consumer after the other.
abbrev pub rounds : ℕ → ℕ → List Event → List Event
rounds zero n rest = rest
rounds (suc r) n rest = produce true ∷ produce true ∷ sends n 0 (produce true ∷ rounds r n rest)

abbrev pub prompt : Sizes → List Event
prompt p = rounds p.m p.n (produce true ∷ [])

-- The steps of the producer round the signals of message i.
module _ (p : Sizes) (shmp : List Slot) (i cnt : ℕ) where
  fill_step :
      (slot : Slot)
      → i < p.m
      → get_elem? shmp (i % p.b) ≡ some slot
      → step p (produce true) (at_rest p shmp cnt (filling i))
        ≡ next (at_rest p (set shmp (i % p.b) (record slot { buf = message i })) cnt (numbering i))
  unfolding step produce_at store
  fill_step slot h e = rw (lt→ltb i p.m h) (rw (e, store) refl)

  number_step :
      (slot : Slot)
      → get_elem? shmp (i % p.b) ≡ some slot
      → step p (produce true) (at_rest p shmp cnt (numbering i))
        ≡ next (at_rest p (set shmp (i % p.b) (record slot { msg_num = pos i })) cnt (sending i 0))
  unfolding step produce_at store
  number_step slot e = rw (e, store) refl

  end_step :
      i + 1 < int_end
      → step p (produce true) (at_rest p shmp cnt (sending i p.n))
        ≡ next (at_rest p shmp cnt (filling (i + 1)))
  unfolding step produce_at in_int
  end_step room = rw (ltb_irrefl p.n, lt→ltb (i + 1) int_end room) refl

  finish_step :
      i ≡ p.m
      → step p (produce true) (at_rest p shmp cnt (filling i)) ≡ next (at_rest p shmp cnt finished)
  unfolding step produce_at
  finish_step e = rw (e, ltb_irrefl p.m) refl

run-round :
    (p : Sizes) (shmp : List Slot) (i cnt : ℕ) (rest : List Event)
    → 0 < p.b
    → IsIntSized p
    → length shmp ≡ p.b
    → i < p.m
    → cnt + p.n < int_end
    → (shmp' : List Slot) × (length shmp' ≡ p.b)
      × (run p
            (produce true ∷ produce true ∷ sends p.n 0 (produce true ∷ rest))
            (at_rest p shmp cnt (filling i))
          ≡ run p rest (at_rest p shmp' (cnt + p.n) (filling (i + 1))))
run-round p shmp i cnt rest h z sized l room =
    let k = i % p.b in
    let (slot, e) = get_elem?-some shmp k (omega (arith, mod-lt i h)) in
    let filled = set shmp k (record slot { buf = message i }) in
    let numbered = set filled k (record slot { buf = message i; msg_num = pos i }) in
    let filled_at =
      get_elem?-set_self shmp k (record slot { buf = message i }) (omega (arith, mod-lt i h)) in
    let long : length filled ≡ p.b = length-set shmp k _ ∙ sized in
    let numbered_at =
      get_elem?-set_self filled k (record slot { buf = message i; msg_num = pos i })
        (omega (arith, mod-lt i h)) in
    (
      numbered,
      length-set filled k _ ∙ long,
      run_next p (produce true) _ _ _ (fill_step p shmp i cnt slot l e)
          ∙ run_next p (produce true) _ _ _
              (number_step p filled i cnt (record slot { buf = message i }) filled_at)
          ∙ run-sends p numbered i p.n 0 cnt (record slot { buf = message i; msg_num = pos i })
              (produce true ∷ rest) z (omega arith) room numbered_at refl
          ∙ run_next p (produce true) _ _ _
              (end_step p numbered i (cnt + p.n) (omega (arith, z.messages))),
    )

run-rounds :
    (p : Sizes) (shmp : List Slot) (r i cnt : ℕ) (rest : List Event)
    → 0 < p.b
    → IsIntSized p
    → length shmp ≡ p.b
    → i + r ≡ p.m
    → cnt + r * p.n < int_end
    → (shmp' : List Slot) × (run p (rounds r p.n rest) (at_rest p shmp cnt (filling i))
        ≡ run p rest (at_rest p shmp' (cnt + r * p.n) (filling p.m)))
run-rounds p shmp zero i cnt rest h z sized e room =
    (shmp, λ t. run p rest (at_rest p shmp (none_more t) (filling (last t))))
  where
    none_more : cnt ≡ cnt + 0 * p.n
    none_more = grind arith

    last : i ≡ p.m
    last = omega arith
run-rounds p shmp (suc r) i cnt rest h z sized e room =
    let split : suc r * p.n ≡ p.n + r * p.n = grind arith in
    let (shmp', sized', first) =
      run-round p shmp i cnt (rounds r p.n rest) h z sized (omega arith) (omega arith) in
    let (last, others) =
      run-rounds p shmp' r (i + 1) (cnt + p.n) rest h z sized' (omega arith) (omega arith) in
    (last, first ∙ others ∙ ap (λ c. run p rest (at_rest p last c (filling p.m))) (more cnt p.n r))
  where
    more : (a n r : ℕ) → a + n + r * n ≡ a + suc r * n
    more a n r = grind arith

-- If the numbers of messages and of consumers are ints as well as their product, and every signal
-- is queued and its consumer handles it before the producer goes on, the run reaches its end with
-- every message counted as received by every consumer and none as lost, with a ring of any size but
-- 0.
pub run-prompt :
    (p : Sizes) (shmp : List Slot)
    → 0 < p.b
    → IsIntSized p
    → length shmp ≡ p.b
    → (s : System) × (run p (prompt p) (start p shmp) ≡ some s)
      × (s.phase ≡ finished)
      × (s.cnt ≡ p.m * p.n)
      × (s.loss_cnt ≡ 0)
unfolding start run
run-prompt p shmp h z sized =
    let (last, e) =
      run-rounds p shmp p.m 0 0 (produce true ∷ []) h z sized (omega arith)
        (omega (arith, z.total)) in
    (
      at_rest p last (0 + p.m * p.n) finished,
      e ∙ run_next p (produce true) [] _ _ (finish_step p last p.m (0 + p.m * p.n) refl),
      refl,
      (omega arith),
      refl,
    )
