-- ===== src/Pingpong/Turns.antt =====
-- The turns of the two processes of 22_3.c.
use network_system_programmi.Prelude.{
  ℕ, ◌+◌, ◌-◌, ◌*◌, ◌<◌, ◌≤◌, Bool, true, false, ◌≡◌, refl, arith, ltb, ◌⊎◌, inl, inr, lt→ltb,
  ltb→lt, subst, sym, Bool-cases, if◌then◌else◌,
}
use network_system_programmi.Pingpong.{
  Child, pinging, awaiting, child_ended, Parent, listening, replying, parent_ended, System, Event,
  child_moves, parent_moves, Progress, next, blocked, failed, sigwaitinfo, kill, child_at,
  parent_at, step, start,
}

abbrev at_turn : Child → Parent → (child_pending parent_pending : Bool) → System
at_turn c p cp pp = record { child = c; parent = p; child_pending = cp; parent_pending = pp }

-- The states of n rounds: one process is to move and the other waits for it, or one or both have ended
-- behind their last round.
pub data InTurn (n : ℕ) : System → Type 0 where
  child_first : (k : ℕ) → k ≤ n → InTurn n (at_turn (pinging k) (listening k) false false)
  sent : (k : ℕ) → k < n → InTurn n (at_turn (awaiting k) (listening k) false true)
  taken : (k : ℕ) → k < n → InTurn n (at_turn (awaiting k) (replying k) false false)
  answered : (k : ℕ) → k < n → InTurn n (at_turn (awaiting k) (listening (k + 1)) true false)
  parent_out_first : (k : ℕ) → k + 1 ≡ n → InTurn n (at_turn (awaiting k) parent_ended true false)
  parent_out : InTurn n (at_turn (pinging n) parent_ended false false)
  child_out : InTurn n (at_turn child_ended (listening n) false false)
  both_out : InTurn n (at_turn child_ended parent_ended false false)

pub start-InTurn : (n : ℕ) → InTurn n start
unfolding start
start-InTurn n = child_first 0 (omega arith)

-- The steps that are left.
abbrev pub left_child : ℕ → Child → ℕ
left_child n (pinging k) = 2 * (n - k) + 1
left_child n (awaiting k) = 2 * (n - k)
left_child n child_ended = 0

abbrev pub left_parent : ℕ → Parent → ℕ
left_parent n (listening k) = 2 * (n - k) + 1
left_parent n (replying k) = 2 * (n - k)
left_parent n parent_ended = 0

abbrev pub left : ℕ → System → ℕ
left n s = left_child n s.child + left_parent n s.parent

-- A step that is taken goes on in turn and is one of those that were left.
abbrev pub Goes : ℕ → ℕ → Progress → Type 0
Goes n m (next t) = InTurn n t × (left n t + 1 ≡ m)
Goes n m blocked = Unit
Goes n m failed = Unit

ltb_irrefl : (n : ℕ) → ltb n n ≡ false
ltb_irrefl n = ground arith

Goes-if :
    (n m : ℕ) (b : Bool) (x y : Progress)
    → (b ≡ true → Goes n m x)
    → (b ≡ false → Goes n m y)
    → Goes n m (if b then x else y)
Goes-if n m true x y h k = h refl
Goes-if n m false x y h k = k refl

Goes-kill : (n m : ℕ) (ok : Bool) (t : System) → Goes n m (next t) → Goes n m (kill ok t)
Goes-kill n m true t h = h
Goes-kill n m false t h = tt

Goes-wait :
    (n m : ℕ) (ok : Bool) (t : System) → Goes n m (next t) → Goes n m (sigwaitinfo ok true t)
Goes-wait n m true t h = h
Goes-wait n m false t h = tt

Goes-idle : (n m : ℕ) (ok : Bool) (t : System) → Goes n m (sigwaitinfo ok false t)
Goes-idle n m true t = tt
Goes-idle n m false t = tt

end_of : (k n : ℕ) → k ≤ n → ltb k n ≡ false → k ≡ n
end_of k n h e = ground arith

child-Goes :
    (n : ℕ) (s : System) (ok : Bool) → InTurn n s → Goes n (left n s) (child_at n ok s.child s)
unfolding child_at
child-Goes n s ok (child_first k h) =
    Goes-if n _ (ltb k n) _ _ (λ l. Goes-kill n _ ok _ (sent k (ltb→lt k n l), omega arith))
      (λ l.
        let out : k ≡ n = end_of k n h l in
        (
          subst (λ j. InTurn n (at_turn child_ended (listening j) false false)) (sym out) child_out,
          omega arith,
        ))
child-Goes n s ok (sent k h) = Goes-idle n _ ok _
child-Goes n s ok (taken k h) = Goes-idle n _ ok _
child-Goes n s ok (answered k h) =
    Goes-wait n _ ok _ (child_first (k + 1) (omega arith), omega arith)
child-Goes n s ok (parent_out_first k h) = Goes-wait n _ ok _ (
  subst (λ j. InTurn n (at_turn (pinging j) parent_ended false false)) (sym h) parent_out,
  omega arith,
)
child-Goes n s ok parent_out = rw (ltb_irrefl n) (both_out, omega arith)
child-Goes n s ok child_out = tt
child-Goes n s ok both_out = tt

parent-Goes :
    (n : ℕ) (s : System) (ok : Bool) → InTurn n s → Goes n (left n s) (parent_at n ok s.parent s)
unfolding parent_at
parent-Goes n s ok (child_first k h) =
    Goes-if n _ (ltb k n) _ _ (λ l. Goes-idle n _ ok _)
      (λ l.
        let out : k ≡ n = end_of k n h l in
        (
          subst (λ j. InTurn n (at_turn (pinging j) parent_ended false false)) (sym out) parent_out,
          omega arith,
        ))
parent-Goes n s ok (sent k h) =
    Goes-if n _ (ltb k n) _ _ (λ l. Goes-wait n _ ok _ (taken k h, omega arith))
      (λ l. absurd (ground arith))
parent-Goes n s ok (taken k h) = Goes-kill n _ ok _ (answered k h, omega arith)
parent-Goes n s ok (answered k h) =
    Goes-if n _ (ltb (k + 1) n) _ _ (λ l. Goes-idle n _ ok _)
      (λ l. (parent_out_first k (end_of (k + 1) n (omega arith) l), ground arith))
parent-Goes n s ok (parent_out_first k h) = tt
parent-Goes n s ok parent_out = tt
parent-Goes n s ok child_out = rw (ltb_irrefl n) (both_out, omega arith)
parent-Goes n s ok both_out = tt

-- One process can move, if it is not all over.
abbrev pub CanMove : ℕ → System → Type 0
CanMove n s = (e : Event) × (t : System) × (step n e s ≡ next t) × (left n t + 1 ≡ left n s)

abbrev pub Over : System → Type 0
Over s = (s.child ≡ child_ended) × (s.parent ≡ parent_ended)

taken_step :
    (n : ℕ) (s t : System) (e : Event)
    → step n e s ≡ next t
    → Goes n (left n s) (step n e s)
    → CanMove n s
taken_step n s t e h g = (e, t, h, (subst (Goes n (left n s)) h g).1)

pub step-Goes : (n : ℕ) (e : Event) (s : System) → InTurn n s → Goes n (left n s) (step n e s)
unfolding step
step-Goes n (child_moves ok) s r = child-Goes n s ok r
step-Goes n (parent_moves ok) s r = parent-Goes n s ok r

pub moves : (n : ℕ) (s : System) → InTurn n s → Over s ⊎ CanMove n s
unfolding step child_at parent_at
moves n s both_out = inl (refl, refl)
moves n s (child_first k h) = inr (elim (Bool-cases (ltb k n)) [
  | inl l ↦
      taken_step n s (at_turn (awaiting k) (listening k) false true) (child_moves true)
        (rw (l, step) refl) (step-Goes n (child_moves true) s (child_first k h))
  | inr l ↦
      taken_step n s (at_turn child_ended (listening k) false false) (child_moves true)
        (rw (l, step) refl) (step-Goes n (child_moves true) s (child_first k h))
])
moves n s (sent k h) = inr (
    taken_step n s (at_turn (awaiting k) (replying k) false false) (parent_moves true)
      (rw (lt→ltb k n h) refl) (step-Goes n (parent_moves true) s (sent k h)))
moves n s (taken k h) =
    inr (taken_step n s _ (parent_moves true) refl (step-Goes n (parent_moves true) s (taken k h)))
moves n s (answered k h) =
    inr (taken_step n s _ (child_moves true) refl (step-Goes n (child_moves true) s (answered k h)))
moves n s (parent_out_first k h) = inr (
    taken_step n s _ (child_moves true) refl
      (step-Goes n (child_moves true) s (parent_out_first k h)))
moves n s parent_out = inr (
    taken_step n s (at_turn child_ended parent_ended false false) (child_moves true)
      (rw (ltb_irrefl n) refl) (step-Goes n (child_moves true) s parent_out))
moves n s child_out = inr (
    taken_step n s (at_turn child_ended parent_ended false false) (parent_moves true)
      (rw (ltb_irrefl n) refl) (step-Goes n (parent_moves true) s child_out))
