-- ===== src/Ring/Slots.antt =====
-- What the ring holds, through every step of the producer and the consumers.
use network_system_programmi.Prelude.{
  ℕ, suc, ◌+◌, ◌*◌, ◌/◌, ◌%◌, ◌<◌, ◌≤◌, List, [], ◌∷◌, some, ◌≡◌, ◌≢◌, refl, sym, ◌∙◌, ap, subst,
  arith, ◌⊎◌, length, get_elem?, set, length-set, get_elem?-set_self, get_elem?-set_ne,
  get_elem?-some, All, inl, inr, ltb, Bool-cases,
}
use network_system_programmi.Prelude.Int.{ℤ, pos}
use native.Mathlib.Decide.{ℕ_discrete, dec_lt}
use native.Mathlib.Nat.{mod-lt, div-add-mod', mul-le-mul_right, add-mod_right}
use network_system_programmi.Ring.{
  Slot, Consumer, Phase, filling, numbering, sending, finished, System, Sizes, Progress, next,
  blocked, undefined, message, overflow, int_end, in_int,
}

-- How many numbers the producer has written.
abbrev pub Written : ℕ → Phase → ℕ → Type 0
Written m (filling i) w = (w ≡ i) × (i ≤ m)
Written m (numbering i) w = (w ≡ i) × (i < m)
Written m (sending i j) w = (w ≡ suc i) × (i < m)
Written m finished w = w ≡ m

-- The number in the slot of message v, after w numbers: v itself, or that of a later message once
-- the ring has come round.
abbrev pub Kept : (b w v : ℕ) → ℤ → Type 0
Kept b w v z = ((w ≤ v + b) × (z ≡ pos v)) ⊎ ((v + b < w) × (u : ℕ) × (v < u) × (z ≡ pos u))

pub record Slots (p : Sizes) (w : ℕ) (s : System) : Type 0 where
  pub sized : length s.shmp ≡ p.b
  pub numbered :
      (v : ℕ)
      → v < w
      → (slot : Slot) × (get_elem? s.shmp (v % p.b) ≡ some slot) × Kept p.b w v slot.msg_num
  pub staffed : length s.consumers ≡ p.n
  pub queued :
      (j : ℕ) (c : Consumer) → get_elem? s.consumers j ≡ some c → All (λ v. v < w) c.pending

-- Messages that share a slot are b apart.
same_slot : (b v i : ℕ) → v < i → v % b ≡ i % b → v + b ≤ i
same_slot b v i l e = elim (dec_lt (v / b) (i / b)) [
  | yes h ↦
      let enough : suc (v / b) * b ≤ i / b * b = mul-le-mul_right b h in
      let spread : suc (v / b) * b ≡ v / b * b + b = grind arith in
      omega (arith, div-add-mod' v b, div-add-mod' i b)
  | no h ↦
      let few : i / b * b ≤ v / b * b = mul-le-mul_right b (omega arith) in
      absurd (omega (arith, div-add-mod' v b, div-add-mod' i b))
]

-- A step keeps P, or is not possible; it is not undefined.
abbrev pub Steps : (System → Type 0) → Progress → Type 0
Steps P (next t) = P t
Steps P blocked = Unit
Steps P undefined = ⊥
Steps P overflow = Unit

pub Steps-in_int : (P : System → Type 0) (n : ℕ) (x : Progress) → Steps P x → Steps P (in_int n x)
unfolding in_int
Steps-in_int P n x h = elim (Bool-cases (ltb n int_end)) [ inl e ↦ rw e h | inr e ↦ rw e tt ]

pub slot_at :
    {p : Sizes} {w : ℕ} {s : System}
    → 0 < p.b
    → Slots p w s
    → (i : ℕ) → (slot : Slot) × (get_elem? s.shmp (i % p.b) ≡ some slot)
slot_at {p} {w} {s} h r i = get_elem?-some s.shmp (i % p.b) (omega (arith, r.sized, mod-lt i h))

-- Writing a text leaves the numbers.
pub text-Slots :
    (p : Sizes) (w i : ℕ) (s : System) (slot : Slot) (phase : Phase)
    → get_elem? s.shmp (i % p.b) ≡ some slot
    → i % p.b < length s.shmp
    → Slots p w s
    → Slots p w
        (record s { shmp = set s.shmp (i % p.b) (record slot { buf = message i }); phase = phase })
text-Slots p w i s slot phase e l r = record {
  sized = length-set s.shmp (i % p.b) _ ∙ r.sized;
  staffed = r.staffed;
  queued = r.queued;
  numbered = λ v h. elim (ℕ_discrete (i % p.b) (v % p.b)) [
    | yes same ↦
        let (old, at, k) = r.numbered v h in
        let one : old ≡ slot = cc (ap (get_elem? s.shmp) same) in
        (
          record slot { buf = message i },
          rw (← same) (get_elem?-set_self s.shmp (i % p.b) _ l),
          subst (λ x. Kept p.b w v x.msg_num) one k,
        )
    | no other ↦
        let (old, at, k) = r.numbered v h in
        (old, get_elem?-set_ne s.shmp (i % p.b) (v % p.b) _ other ∙ at, k)
  ];
}

All-later : (w : ℕ) (l : List ℕ) → All (λ v. v < w) l → All (λ v. v < suc w) l
All-later w [] a = tt
All-later w (v ∷ l) a = (omega (arith, a.0), All-later w l a.1)

-- A number written to another slot changes nothing.
Kept-later : (b w v : ℕ) (z : ℤ) → w % b ≢ v % b → Kept b w v z → Kept b (suc w) v z
Kept-later b w v z other (inr (l, u, h, e)) = inr (omega arith, u, h, e)
Kept-later b w v z other (inl (l, e)) = elim (ℕ_discrete w (v + b)) [
  | yes round ↦ absurd (other (ap (λ k. k % b) round ∙ add-mod_right v b))
  | no short ↦ inl (omega arith, e)
]

-- Writing the number of message w.
pub number-Slots :
    (p : Sizes) (w : ℕ) (s : System) (slot : Slot)
    → get_elem? s.shmp (w % p.b) ≡ some slot
    → w % p.b < length s.shmp
    → Slots p w s
    → Slots p (suc w) (record s {
      shmp = set s.shmp (w % p.b) (record slot { msg_num = pos w });
      phase = sending w 0;
    })
number-Slots p w s slot e l r = record {
  sized = length-set s.shmp (w % p.b) _ ∙ r.sized;
  staffed = r.staffed;
  queued = λ j c at. All-later w c.pending (r.queued j c at);
  numbered = λ v h. elim (ℕ_discrete (w % p.b) (v % p.b)) [
    | yes same ↦ (
      record slot { msg_num = pos w },
      rw (← same) (get_elem?-set_self s.shmp (w % p.b) _ l),
      newest v h same,
    )
    | no other ↦
        let (old, at, k) = r.numbered v (earlier v h other) in
        (
          old,
          get_elem?-set_ne s.shmp (w % p.b) (v % p.b) _ other ∙ at,
          Kept-later p.b w v old.msg_num other k,
        )
  ];
}
  where
    newest : (v : ℕ) → v < suc w → w % p.b ≡ v % p.b → Kept p.b (suc w) v (pos w)
    newest v h same = elim (ℕ_discrete v w) [
      | yes now ↦ inl (omega (arith, r.sized), ap pos (sym now))
      | no before ↦
          let gone : v + p.b ≤ w = same_slot p.b v w (omega arith) (sym same) in
          inr (omega arith, w, omega arith, refl)
    ]

    earlier : (v : ℕ) → v < suc w → w % p.b ≢ v % p.b → v < w
    earlier v h other = elim (ℕ_discrete v w) [
      | yes now ↦ absurd (other (ap (λ k. k % p.b) (sym now)))
      | no before ↦ omega arith
    ]
