-- ===== src/Transfer/Stops.antt =====
-- Where both processes can stop.
use network_system_programmi.Prelude.{
  ℕ, zero, suc, Bool, [], ◌∷◌, none, some, ◌≡◌, inl, inr, refl, arith, Bool-cases,
}
use network_system_programmi.Prelude.Bytes.{Bytes}
use network_system_programmi.Shm.{Progress, blocked, undefined, next}
use network_system_programmi.Transfer.{
  Segment, Writer, reading, posting, checking, ended, Reader, awaiting, testing, writing, giving,
  finished, Input, read_into, writer_at, Received, reader_at, State, write_turn, read_turn,
  after_write, after_read, step, start, Names, left_by, sem_open,
}
use network_system_programmi.Transfer.Stage.{
  content, Pending, full, empty, at_check, at_wait, at_end, Ready, ready, ready_check, Stage, idle,
  taken, filled, posted, seen, counted, copied, over, broken, unread,
}
use network_system_programmi.Transfer.Writes.{check_end, check_on}
use network_system_programmi.Transfer.Reads.{test_end, test_on}
use network_system_programmi.Transfer.Kept.{AreFresh, Reachable, Reachable-Stage}

abbrev IsBlocked : {A : Type 0} → Progress A → Type 0
IsBlocked blocked = Unit
IsBlocked _ = ⊥

check_moves : (s : Segment) (rest : Input) → IsBlocked (writer_at checking s rest) → ⊥
check_moves s rest = split s.cnt refl
  where
    split : (n : ℕ) → s.cnt ≡ n → IsBlocked (writer_at checking s rest) → ⊥
    split zero e b = rw (check_end s rest e) at b
    split (suc n) e b = rw (check_on s rest n e) at b

Ready-moves :
    (s : Segment) (rest : Input) (v : Writer)
    → s.write_sem ≡ 1
    → Ready s v
    → IsBlocked (writer_at v s rest)
    → ⊥
unfolding writer_at
Ready-moves s rest _ w ready b = rw w at b
Ready-moves s rest _ w (ready_check n e) b = check_moves s rest b

read_moves : (s : Segment) (rest : Input) → IsBlocked (writer_at reading s rest) → ⊥
unfolding writer_at read_into
read_moves s [] b = b
read_moves s (none ∷ rest) b = b
read_moves s (some c ∷ rest) b = b

post_moves : (s : Segment) (rest : Input) → IsBlocked (writer_at posting s rest) → ⊥
unfolding writer_at
post_moves s rest b = b

module _ (wrote : ℕ → Bool) (s : Segment) (r : Received) where
  await_moves : s.read_sem ≡ 1 → IsBlocked (reader_at wrote awaiting s r) → ⊥
  unfolding reader_at
  await_moves d b = rw d at b

  test_moves :
      (all out : Bytes) (rest : Input)
      → Pending all out s rest
      → IsBlocked (reader_at wrote testing s r)
      → ⊥
  test_moves all out rest (empty e h) b = rw (test_end wrote s r e) at b
  test_moves all out rest (full x c buf cnt h) b = elim (test_on wrote s r _ cnt) [
    | inl e ↦ rw e at b
    | inr e ↦ rw e at b
  ]

  write_moves : IsBlocked (reader_at wrote writing s r) → ⊥
  unfolding reader_at
  write_moves b = elim (Bool-cases (wrote r.xfrs)) [ inl e ↦ rw e at b | inr e ↦ rw e at b ]

  give_moves : IsBlocked (reader_at wrote giving s r) → ⊥
  unfolding reader_at
  give_moves b = b

-- The ways in which neither process can move any more.
pub data Stopped : Writer → Reader → Type 0 where
  both_done : Stopped (ended 0) (finished 0)
  read_failed : Stopped (ended 1) awaiting
  write_failed : {v : Writer} → Stopped v (finished 1)

stopped :
    (wrote : ℕ → Bool) (all : Bytes) (s : Segment) (rest : Input) (r : Received) (v : Writer)
    (p : Reader)
    → Stage all s rest r v p
    → IsBlocked (writer_at v s rest)
    → IsBlocked (reader_at wrote p s r)
    → Stopped v p
stopped wrote all s rest r v _ (idle w d k b h) x y = absurd (Ready-moves s rest v w k x)
stopped wrote all s rest r _ _ (taken w d b h) x y = absurd (read_moves s rest x)
stopped wrote all s rest r _ _ (filled w d b h) x y = absurd (post_moves s rest x)
stopped wrote all s rest r v _ (posted w d q b h) x y = absurd (await_moves wrote s r d y)
stopped wrote all s rest r v _ (seen w d q b h) x y = absurd (test_moves wrote s r _ _ rest h y)
stopped wrote all s rest r v _ (counted n w d q e b h) x y = absurd (write_moves wrote s r y)
stopped wrote all s rest r v _ (copied n w d q e b h) x y = absurd (give_moves wrote s r y)
stopped wrote all s rest r _ _ (over w d at_check e b h) x y = absurd (check_moves s rest x)
stopped wrote all s rest r _ _ (over w d (at_wait n q) e b h) x y = absurd (omega (arith, q, e))
stopped wrote all s rest r _ _ (over w d (at_end q) e b h) x y = both_done
stopped wrote all s rest r v _ (broken q w) x y = write_failed
stopped wrote all s rest r _ _ (unread w d h) x y = read_failed

after_write-IsBlocked :
    (s : State) (x : Progress (Segment × Input × Writer)) → after_write s x ≡ blocked → IsBlocked x
unfolding after_write
after_write-IsBlocked s blocked e = tt
after_write-IsBlocked s undefined e = cc
after_write-IsBlocked s (next (t, i, p)) e = cc

after_read-IsBlocked :
    (s : State) (x : Progress (Segment × Received × Reader))
    → after_read s x ≡ blocked
    → IsBlocked x
unfolding after_read
after_read-IsBlocked s blocked e = tt
after_read-IsBlocked s undefined e = cc
after_read-IsBlocked s (next (t, r, p)) e = cc

-- The semaphores behind a complete run.
finished_sems :
    (all : Bytes) (s : Segment) (rest : Input) (r : Received) (v : Writer)
    → Stage all s rest r v (finished 0)
    → (s.write_sem ≡ 0) × (s.read_sem ≡ 0)
finished_sems all s rest r v (over w d q e b h) = (w, d)

-- Another run, on the names that this one leaves behind, in which neither process can take a step.
abbrev pub Stuck : (ℕ → Bool) → State → Input → Type 0
Stuck wrote s input =
    (step wrote write_turn (start (left_by s) input) ≡ blocked)
    × (step wrote read_turn (start (left_by s) input) ≡ blocked)

-- What is said of the next run where the reader has ended with status 0.
abbrev pub AfterEnd : (ℕ → Bool) → State → Reader → Type 0
AfterEnd wrote s (finished zero) = (input : Input) → Stuck wrote s input
AfterEnd wrote s _ = Unit

second_run :
    (names : Names) (wrote : ℕ → Bool) (input : Input) (s : State) (input' : Input)
    → AreFresh names
    → Reachable names wrote input s
    → s.reader ≡ finished 0
    → Stuck wrote s input'
unfolding step start sem_open after_write after_read writer_at reader_at
second_run names wrote input s input' f r e =
    let (w, d) =
      finished_sems (content input) s.segment s.input s.received s.writer
        (rw e at (Reachable-Stage names wrote input s f r)) in
    (rw w refl, rw d refl)

after_end :
    (wrote : ℕ → Bool) (s : State) (p : Reader)
    → Stopped s.writer p
    → s.reader ≡ p
    → (s.reader ≡ finished 0 → (input : Input) → Stuck wrote s input)
    → AfterEnd wrote s p
after_end wrote s _ both_done e stuck = stuck e
after_end wrote s _ read_failed e stuck = tt
after_end wrote s _ write_failed e stuck = tt

-- If neither semaphore exists before, then whatever the order of the steps, if neither process can move,
-- then both have ended with status 0, or a read failed and the reader waits for ever behind the
-- writer's end, or a write failed and ended the reader. Where the reader has
-- ended with status 0, the next run of the two programs, on the names that this one leaves behind and
-- whatever its input is, cannot take a single step: both processes wait for ever.
pub stops :
    (names : Names) (wrote : ℕ → Bool) (input : Input) (s : State)
    → AreFresh names
    → Reachable names wrote input s
    → step wrote write_turn s ≡ blocked
    → step wrote read_turn s ≡ blocked
    → Stopped s.writer s.reader × AfterEnd wrote s s.reader
unfolding step
stops names wrote input s f r x y =
    let ends =
      stopped wrote (content input) s.segment s.input s.received s.writer s.reader
        (Reachable-Stage names wrote input s f r) (after_write-IsBlocked s _ x)
        (after_read-IsBlocked s _ y) in
    (ends, after_end wrote s s.reader ends refl (λ e i. second_run names wrote input s i f r e))
