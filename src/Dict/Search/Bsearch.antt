-- ===== src/Dict/Search/Bsearch.antt =====
-- Bisection over any comparison that is ordered along the indices.
use Prim.Native.Nat.{Ordering, lt, eq, gt}
use native.Mathlib.Decide.{dec_le}
use network_system_programmi.Prelude.{
  ◌⊎◌, ℕ, zero, suc, ◌+◌, ◌-◌, ◌/◌, ◌≤◌, ◌<◌, false, Option, none, some, ◌≡◌, ◌≢◌, refl, arith, ltb,
  inl, inr, Bool-cases, ltb→lt,
}
use network_system_programmi.Dict.Search.{bsearch}

-- Left of an element that is too large all are too large, right of one that is too small all are.
pub record IsOrdered (at : ℕ → Ordering) (n : ℕ) : Type 0 where
  pub before : (i j : ℕ) → i ≤ j → j < n → at i ≡ lt → at j ≡ lt
  pub behind : (i j : ℕ) → i ≤ j → j < n → at j ≡ gt → at i ≡ gt

-- A hit is an index in the range whose element equals the key; a miss means that there is none.
abbrev pub Hits : (ℕ → Ordering) → ℕ → ℕ → Option ℕ → Type 0
Hits at l u (some i) = (l ≤ i) × (i < u) × (at i ≡ eq)
Hits at l u none = (i : ℕ) → l ≤ i → i < u → at i ≢ eq

Hits-miss_below :
    (at : ℕ → Ordering) (n l u mid : ℕ) (o : Option ℕ)
    → IsOrdered at n
    → u ≤ n
    → l ≤ mid
    → mid < u
    → at mid ≡ lt
    → Hits at l mid o
    → Hits at l u o
Hits-miss_below at n l u mid (some i) ord un lm mu e h = (h.0, omega arith, h.2)
Hits-miss_below at n l u mid none ord un lm mu e h = λ i li iu q. elim (dec_le mid i) [
  | yes p ↦ cc (ord.before mid i p (omega arith) e)
  | no p ↦ h i li (omega arith) q
]

Hits-miss_above :
    (at : ℕ → Ordering) (n l u mid : ℕ) (o : Option ℕ)
    → IsOrdered at n
    → u ≤ n
    → l ≤ mid
    → mid < u
    → at mid ≡ gt
    → Hits at (mid + 1) u o
    → Hits at l u o
Hits-miss_above at n l u mid (some i) ord un lm mu e h = (omega arith, h.1, h.2)
Hits-miss_above at n l u mid none ord un lm mu e h = λ i li iu q. elim (dec_le i mid) [
  | yes p ↦ cc (ord.behind i mid p (omega arith) e)
  | no p ↦ h i (omega arith) iu q
]

pub Ordering-cases : (o : Ordering) → (o ≡ lt) ⊎ (o ≡ eq) ⊎ (o ≡ gt)
Ordering-cases lt = inl refl
Ordering-cases eq = inr (inl refl)
Ordering-cases gt = inr (inr refl)

ltb-false : (a b : ℕ) → ltb a b ≡ false → ¬ (a < b)
ltb-false a b e h = ground arith

pub bsearch-Hits :
    (fuel : ℕ) (at : ℕ → Ordering) (n l u : ℕ)
    → IsOrdered at n
    → u ≤ n
    → u - l < fuel
    → Hits at l u (bsearch fuel at l u)
unfolding bsearch
bsearch-Hits zero at n l u ord un h = absurd (omega arith)
bsearch-Hits (suc fuel) at n l u ord un h = elim (Bool-cases (ltb l u)) [
  | inr e ↦ rw e (λ i li iu. absurd (ltb-false l u e (omega arith)))
  | inl e ↦
      let lu = ltb→lt l u e in
      let mid = (l + u) / 2 in
      elim (Ordering-cases (at mid)) [
        | inl q ↦
            rw (e, q)
              (Hits-miss_below at n l u mid _ ord un (omega arith) (omega arith) q
                (bsearch-Hits fuel at n l mid ord (omega arith) (omega arith)))
        | inr (inl q) ↦ rw (e, q) (omega arith, omega arith, q)
        | inr (inr q) ↦
            rw (e, q)
              (Hits-miss_above at n l u mid _ ord un (omega arith) (omega arith) q
                (bsearch-Hits fuel at n (mid + 1) u ord un (omega arith)))
      ]
]
