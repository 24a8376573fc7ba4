-- ===== src/Ring.antt =====
-- SP_HW10/SP_HW10.c: a producer that writes numbered messages into a ring in shared memory and signals
-- each to all consumers, whose handler compares the signal's number with that in the ring.
pub mod Setup
pub mod Slots
pub mod Keeps
pub mod Counts
pub mod Overlaps
pub mod Reached
pub mod Within
pub mod Handled
pub mod Rest
pub mod Prompt
pub mod Tests
use network_system_programmi.Prelude.{
  ℕ, zero, suc, ◌+◌, ◌-◌, ◌%◌, Bool, true, false, List, [], ◌∷◌, ◌++◌, Option, none, some, ◌==◌,
  ltb, if◌then◌else◌, length, get_elem?, set, take,
}
use network_system_programmi.Prelude.Bytes.{Bytes, codes, decimal}
use network_system_programmi.Prelude.Int.{ℤ, pos, pos_part, neg_part}

-- BUFSIZE
abbrev pub buf_size : ℕ
buf_size = 80

-- struct shmseg; what the memory holds before the first message is any number.
pub record Slot : Type 0 where
  pub msg_num : ℤ
  pub buf : Bytes

-- A consumer between two signals, or in the handler with what it has read of the counter that it
-- increments: `cnt++` is a read and a write.
pub data Doing : Type 0 where
  waiting : Doing
  counting losing : ℕ → Doing

-- The signals that are queued for a consumer, by their numbers, and what it does.
pub record Consumer : Type 0 where
  pub pending : List ℕ
  pub doing : Doing

-- Where the producer's loop stands: before message i, before its number, before the sigqueue to
-- consumer j, or behind the loop.
pub data Phase : Type 0 where
  filling numbering : (i : ℕ) → Phase
  sending : (i j : ℕ) → Phase
  finished : Phase

-- The shared memory, the consumers and the producer.
pub record System : Type 0 where
  pub shmp : List Slot
  pub cnt : ℕ
  pub loss_cnt : ℕ
  pub consumers : List Consumer
  pub phase : Phase

-- m messages, n consumers, b slots.
pub record Sizes : Type 0 where
  pub m : ℕ
  pub n : ℕ
  pub b : ℕ

-- Who moves: the producer, for whom the kernel queues a signal or does not; a consumer that takes its
-- first signal up to the read of the counter; a consumer that writes the counter.
pub data Event : Type 0 where
  produce : (queued : Bool) → Event
  handle increment : (consumer : ℕ) → Event

-- A step is taken, is not possible now, is an access outside the memory, or makes a number that an int
-- does not hold.
pub data Progress : Type 0 where
  next : System → Progress
  blocked undefined overflow : Progress

-- INT_MAX + 1
abbrev pub int_end : ℕ
int_end = 2147483648

-- `n++` of an int gives this number; beyond an int it is undefined.
unfoldable pub in_int : ℕ → Progress → Progress
in_int n x = if ltb n int_end then x else overflow

-- snprintf (shmp[i % b].buf, BUFSIZE, "This is message %d", i)
abbrev pub message : ℕ → Bytes
message i = take (buf_size - 1) (codes "This is message " ++ decimal i)

unfoldable pub store : ℕ → (Slot → Slot) → Phase → System → Progress
store k f phase s = elim (get_elem? s.shmp k) [
  | none ↦ undefined
  | some slot ↦ next (record s { shmp = set s.shmp k (f slot); phase = phase })
]

-- sigqueue (pid_array[j], SIGUSR1, mysigval); whether it fails or drops the signal, the loop goes on.
unfoldable pub queue : Bool → ℕ → Consumer → Consumer
queue true i c = record c { pending = c.pending ++ (i ∷ []) }
queue false i c = c

unfoldable pub send : Bool → ℕ → ℕ → System → Progress
send queued i j s = elim (get_elem? s.consumers j) [
  | none ↦ undefined
  | some c ↦
      next
        (record s { consumers = set s.consumers j (queue queued i c); phase = sending i (j + 1) })
]

unfoldable pub produce_at : Sizes → Bool → Phase → System → Progress
produce_at p queued (filling i) s =
    if ltb i p.m
    then store (i % p.b) (λ slot. record slot { buf = message i }) (numbering i) s
    else next (record s { phase = finished })
produce_at p queued (numbering i) s =
    store (i % p.b) (λ slot. record slot { msg_num = pos i }) (sending i 0) s
produce_at p queued (sending i j) s =
    if ltb j p.n
    then in_int (j + 1) (send queued i j s)
    else in_int (i + 1) (next (record s { phase = filling (i + 1) }))
produce_at p queued finished s = blocked

abbrev pub is_number : ℤ → ℕ → Bool
is_number z v = pos_part z + 0 == v + neg_part z

abbrev pub with_consumer : System → ℕ → Consumer → System
with_consumer s j c = record s { consumers = set s.consumers j c }

-- handler, up to the read of the counter.
unfoldable pub compare_slot : ℕ → List ℕ → ℕ → Option Slot → System → Progress
compare_slot v rest j none s = undefined
compare_slot v rest j (some slot) s = next (
    with_consumer s j (record {
      pending = rest;
      doing = if is_number slot.msg_num v then counting s.cnt else losing s.loss_cnt;
    }))

-- The signal is blocked while the handler runs.
unfoldable pub handle_at : Sizes → ℕ → List ℕ → Doing → System → Progress
handle_at p j [] doing s = blocked
handle_at p j (v ∷ rest) waiting s = compare_slot v rest j (get_elem? s.shmp (v % p.b)) s
handle_at p j (v ∷ rest) doing s = blocked

unfoldable pub increment_at : ℕ → List ℕ → Doing → System → Progress
increment_at j pending waiting s = blocked
increment_at j pending (counting k) s = in_int (k + 1) (
    next
      (record (with_consumer s j (record { pending = pending; doing = waiting })) { cnt = k + 1 }))
increment_at j pending (losing k) s = in_int (k + 1) (
    next (record (with_consumer s j (record { pending = pending; doing = waiting })) {
      loss_cnt = k + 1;
    }))

abbrev pub with_pending : Option Consumer → (Consumer → Progress) → Progress
with_pending none f = blocked
with_pending (some c) f = f c

unfoldable pub step : Sizes → Event → System → Progress
step p (produce queued) s = produce_at p queued s.phase s
step p (handle j) s =
    with_pending (get_elem? s.consumers j) (λ c. handle_at p j c.pending c.doing s)
step p (increment j) s =
    with_pending (get_elem? s.consumers j) (λ c. increment_at j c.pending c.doing s)
