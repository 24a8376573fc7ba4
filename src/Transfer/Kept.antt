-- ===== src/Transfer/Kept.antt =====
-- What the reader of SP_HW9/54_1 has written when it ends.
use network_system_programmi.Prelude.{ℕ, none, Bool, length, ◌≡◌, refl, subst, ◌∙◌, ap}
use network_system_programmi.Prelude.Bytes.{Bytes}
use network_system_programmi.Shm.{Progress, blocked, undefined, next}
use network_system_programmi.Transfer.{
  Segment, Writer, Reader, finished, Input, Received, State, Turn, write_turn, read_turn,
  after_write, after_read, step, start, Names, sem_open,
}
use network_system_programmi.Transfer.Stage.{content, ready, Stage, idle, over, Then}
use network_system_programmi.Transfer.Writes.{writer-Stage}
use network_system_programmi.Transfer.Reads.{reader-Stage}

-- No semaphore exists yet; a segment may.
pub record AreFresh (names : Names) : Type 0 where
  pub no_write : names.old_write ≡ none
  pub no_read : names.old_read ≡ none

-- The states that can come about from what exists at the start.
pub data Reachable (names : Names) (wrote : ℕ → Bool) (input : Input) : State → Type 0 where
  initial : Reachable names wrote input (start names input)
  moved :
      {s t : State} (k : Turn)
      → Reachable names wrote input s
      → step wrote k s ≡ next t
      → Reachable names wrote input t

abbrev StageOf : Bytes → State → Type 0
StageOf all s = Stage all s.segment s.input s.received s.writer s.reader

after_write-Then :
    (all : Bytes) (s : State) (x : Progress (Segment × Input × Writer))
    → Then (λ y. Stage all y.0 y.1 s.received y.2 s.reader) x
    → Then (StageOf all) (after_write s x)
unfolding after_write
after_write-Then all s blocked h = tt
after_write-Then all s undefined h = tt
after_write-Then all s (next (t, i, p)) h = h

after_read-Then :
    (all : Bytes) (s : State) (x : Progress (Segment × Received × Reader))
    → Then (λ y. Stage all y.0 s.input y.1 s.writer y.2) x
    → Then (StageOf all) (after_read s x)
unfolding after_read
after_read-Then all s blocked h = tt
after_read-Then all s undefined h = tt
after_read-Then all s (next (t, r, p)) h = h

step-Stage :
    (wrote : ℕ → Bool) (all : Bytes) (k : Turn) (s : State)
    → StageOf all s
    → Then (StageOf all) (step wrote k s)
unfolding step
step-Stage wrote all write_turn s h =
    after_write-Then all s _ (writer-Stage all s.segment s.input s.received s.writer s.reader h)
step-Stage wrote all read_turn s h =
    after_read-Then all s _
      (reader-Stage wrote all s.segment s.input s.received s.writer s.reader h)

pub Reachable-Stage :
    (names : Names) (wrote : ℕ → Bool) (input : Input) (s : State)
    → AreFresh names
    → Reachable names wrote input s
    → StageOf (content input) s
unfolding start sem_open
Reachable-Stage names wrote input _ f initial =
    idle (ap (λ o. sem_open o 1) f.no_write) (ap (λ o. sem_open o 0) f.no_read) ready refl refl
Reachable-Stage names wrote input t f (moved {s = s} k r e) =
    subst (Then (StageOf (content input))) e
      (step-Stage wrote (content input) k s (Reachable-Stage names wrote input s f r))

finished-Stage :
    (all : Bytes) (s : Segment) (rest : Input) (r : Received) (v : Writer)
    → Stage all s rest r v (finished 0)
    → (r.out ≡ all) × (r.bytes ≡ length all)
finished-Stage all s rest r v (over w d q e b h) = (h, b ∙ ap length h)

-- If neither semaphore exists before, then whatever the order of the steps, when the reader ends
-- with status 0, it has written the bytes of the writer's input up to its end or its first failed
-- read, and has counted them.
pub finished-content :
    (names : Names) (wrote : ℕ → Bool) (input : Input) (s : State)
    → AreFresh names
    → Reachable names wrote input s
    → s.reader ≡ finished 0
    → (s.received.out ≡ content input) × (s.received.bytes ≡ length (content input))
finished-content names wrote input s f r e =
    finished-Stage (content input) s.segment s.input s.received s.writer
      (rw e at (Reachable-Stage names wrote input s f r))
