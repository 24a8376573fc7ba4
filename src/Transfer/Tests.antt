-- ===== src/Transfer/Tests.antt =====
-- A copy of two reads, step by step, and the theorems at its end.
use network_system_programmi.Prelude.{
  ℕ, none, Bool, true, List, [], ◌∷◌, ◌++◌, some, ◌≡◌, refl, length,
}
use network_system_programmi.Prelude.Bytes.{codes}
use network_system_programmi.Shm.{Progress, blocked, undefined, next}
use network_system_programmi.Transfer.{
  finished, Input, read_into, writer_at, reader_at, State, Turn, write_turn, read_turn, after_write,
  after_read, step, start, Names, sem_open, shm_open,
}
use network_system_programmi.Transfer.Stage.{content}
use network_system_programmi.Transfer.Kept.{AreFresh, Reachable, initial, moved, finished-content}
use network_system_programmi.Transfer.Stops.{Stopped, AfterEnd, stops}

abbrev settle : State → (State → State) → Progress State → State
settle s f (next t) = f t
settle s f _ = s

-- The turns one after the other, up to the first that cannot be taken.
unfoldable run : (ℕ → Bool) → List Turn → State → State
run wrote [] s = s
run wrote (k ∷ ks) s = settle s (λ t. run wrote ks t) (step wrote k s)

settle-Reachable :
    (names : Names) (wrote : ℕ → Bool) (input : Input) (k : Turn) (ks : List Turn) (s : State)
    → Reachable names wrote input s
    → ((t : State) → Reachable names wrote input t → Reachable names wrote input (run wrote ks t))
    → (x : Progress State) → step wrote k s ≡ x
    → Reachable names wrote input (settle s (λ t. run wrote ks t) x)
settle-Reachable names wrote input k ks s r later (next t) q = later t (moved k r q)
settle-Reachable names wrote input k ks s r later blocked q = r
settle-Reachable names wrote input k ks s r later undefined q = r

run-Reachable :
    (names : Names) (wrote : ℕ → Bool) (input : Input) (ks : List Turn) (s : State)
    → Reachable names wrote input s
    → Reachable names wrote input (run wrote ks s)
unfolding run
run-Reachable names wrote input [] s r = r
run-Reachable names wrote input (k ∷ ks) s r =
    settle-Reachable names wrote input k ks s r (λ t m. run-Reachable names wrote input ks t m)
      (step wrote k s) refl

abbrev all_written : ℕ → Bool
all_written n = true

abbrev two_reads : Input
two_reads = some (codes "ab") ∷ some (codes "c") ∷ []

-- A read, its hand-over and its copy.
abbrev exchange : List Turn
exchange =
    write_turn ∷ write_turn ∷ write_turn ∷ write_turn ∷ read_turn ∷ read_turn ∷ read_turn
    ∷ read_turn ∷ []

abbrev turns : List Turn
turns =
    exchange
    ++ (exchange
        ++ (write_turn ∷ write_turn ∷ write_turn ∷ write_turn ∷ read_turn ∷ read_turn ∷ []))

-- Nothing exists under the names.
abbrev none_left : Names
none_left = record { old_shm = none; old_write = none; old_read = none }

none_left-AreFresh : AreFresh none_left
none_left-AreFresh = record { no_write = refl; no_read = refl }

abbrev at_end : State
at_end = run all_written turns (start none_left two_reads)

end_reached : (at_end.reader ≡ finished 0) × (at_end.received.out ≡ codes "abc")
unfolding run step after_write after_read writer_at read_into reader_at start sem_open shm_open
end_reached = (refl, refl)

write_stopped : step all_written write_turn at_end ≡ blocked
unfolding run step after_write after_read writer_at read_into reader_at start sem_open shm_open
write_stopped = refl

read_stopped : step all_written read_turn at_end ≡ blocked
unfolding run step after_write after_read writer_at read_into reader_at start sem_open shm_open
read_stopped = refl

finished-content_example :
    (at_end.received.out ≡ content two_reads) × (at_end.received.bytes ≡ length (content two_reads))
finished-content_example =
    finished-content none_left all_written two_reads at_end none_left-AreFresh
      (run-Reachable none_left all_written two_reads turns (start none_left two_reads) initial)
      end_reached.0

stops_example : Stopped at_end.writer at_end.reader × AfterEnd all_written at_end at_end.reader
stops_example =
    stops none_left all_written two_reads at_end none_left-AreFresh
      (run-Reachable none_left all_written two_reads turns (start none_left two_reads) initial)
      write_stopped read_stopped
