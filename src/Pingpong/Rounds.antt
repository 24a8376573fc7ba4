-- ===== src/Pingpong/Rounds.antt =====
-- Runs of the two processes of 22_3.c.
use network_system_programmi.Prelude.{
  inl, inr, suc, ap, ℕ, ◌+◌, ◌*◌, List, [], ◌∷◌, ◌≡◌, arith, ◌⊎◌, subst,
}
use network_system_programmi.Pingpong.{System, Event, Progress, next, blocked, failed, step, start}
use network_system_programmi.Pingpong.Turns.{
  left_child, left_parent, InTurn, start-InTurn, Goes, step-Goes, moves, Over, CanMove, left,
}

-- The events one after the other; one that has to wait is passed over. A failed call ends the run.
unfoldable pub run : ℕ → List Event → System → Progress
run n [] s = next s
run n (e ∷ es) s = elim (step n e s) [
  | next t ↦ run n es t
  | blocked ↦ run n es s
  | failed ↦ failed
]

onward :
    (n m : ℕ) (es : List Event) (s t : System) (x : Progress)
    → InTurn n s
    → Goes n m x
    → ((u : System) → InTurn n u → run n es u ≡ next t → InTurn n t)
    → elim x [ next u ↦ run n es u | blocked ↦ run n es s | failed ↦ failed ] ≡ next t
    → InTurn n t
onward n m es s t (next u) r g later h = later u g.0 h
onward n m es s t blocked r g later h = later s r h
onward n m es s t failed r g later h = cc

run-InTurn :
    (n : ℕ) (es : List Event) (s t : System) → InTurn n s → run n es s ≡ next t → InTurn n t
unfolding run
run-InTurn n [] s t r e = let same : s ≡ t = cc in subst (InTurn n) same r
run-InTurn n (e ∷ es) s t r h =
    onward n (left n s) es s t (step n e s) r (step-Goes n e s r) (λ u q. run-InTurn n es u t q) h

-- How many of the events are steps that are taken.
unfoldable pub steps_taken : ℕ → List Event → System → ℕ
steps_taken n [] s = 0
steps_taken n (e ∷ es) s = elim (step n e s) [
  | next t ↦ suc (steps_taken n es t)
  | blocked ↦ steps_taken n es s
  | failed ↦ 0
]

count_on :
    (n : ℕ) (es : List Event) (s t : System) (x : Progress)
    → Goes n (left n s) x
    → InTurn n s
    → ((u : System) → InTurn n u → run n es u ≡ next t → steps_taken n es u + left n t ≡ left n u)
    → elim x [ next u ↦ run n es u | blocked ↦ run n es s | failed ↦ failed ] ≡ next t
    → elim x [ next u ↦ suc (steps_taken n es u) | blocked ↦ steps_taken n es s | failed ↦ 0 ]
        + left n t
      ≡ left n s
count_on n es s t (next u) g r later h = omega (arith, later u g.0 h, g.1)
count_on n es s t blocked g r later h = later s r h
count_on n es s t failed g r later h = cc

run_count :
    (n : ℕ) (es : List Event) (s t : System)
    → InTurn n s
    → run n es s ≡ next t
    → steps_taken n es s + left n t ≡ left n s
unfolding run steps_taken
run_count n [] s t r e = let same : s ≡ t = cc in omega (arith, ap (left n) same)
run_count n (e ∷ es) s t r h =
    count_on n es s t (step n e s) (step-Goes n e s r) r (λ u q. run_count n es u t q) h

no_more : (n : ℕ) (s : System) → Over s → left n s ≡ 0
no_more n s (c, p) = omega (arith, ap (left_child n) c, ap (left_parent n) p)

-- In any order of the steps, as long as no call fails, the two processes are in turn: a signal is sent
-- only when none is pending, so that none is lost, and each process waits only for the other's next
-- signal. The steps that have been taken and those that are left are together 4 n + 2. They never wait
-- for each other: either both have ended, behind exactly 4 n + 2 steps, or one of them can move.
pub run-turns :
    (n : ℕ) (es : List Event) (s : System)
    → run n es start ≡ next s
    → InTurn n s
      × (steps_taken n es start + left n s ≡ 4 * n + 2)
      × ((Over s × (steps_taken n es start ≡ 4 * n + 2)) ⊎ CanMove n s)
unfolding start
run-turns n es s h =
    let r = run-InTurn n es start s (start-InTurn n) h in
    let count : steps_taken n es start + left n s ≡ 4 * n + 2 =
      omega (arith, run_count n es start s (start-InTurn n) h) in
    (r, count, elim (moves n s r) [ inl o ↦ inl (o, omega (arith, no_more n s o)) | inr m ↦ inr m ])
