-- ===== src/Transfer.antt =====
-- The copy through shared memory of SP_HW9/54_1: writer.c and reader.c, two processes that take turns
-- by two semaphores. A process moves up to its next call on a semaphore, on a file or on the segment.
pub mod Stage
pub mod Writes
pub mod Reads
pub mod Kept
pub mod Stops
pub mod Tests
use network_system_programmi.Prelude.{
  ℕ, zero, suc, ◌+◌, ◌-◌, ◌*◌, Bool, true, false, List, [], ◌∷◌, ◌++◌, Option, none, some, ◌==◌,
  ltb, if◌then◌else◌, length, take,
}
use network_system_programmi.Prelude.Bytes.{Bytes}
use network_system_programmi.Machine.{Outcome, done, exits}
use network_system_programmi.Shm.{Progress, blocked, undefined, next}

-- `struct shmseg` with what `buf` holds of the last read, and the values of the semaphores.
pub record Segment : Type 0 where
  pub cnt : ℕ
  pub buf : Bytes
  pub write_sem : ℕ
  pub read_sem : ℕ

-- Where a process is: before the call that the name says; `checking` is the test behind sem_post.
-- `ended` with its status.
pub data Writer : Type 0 where
  waiting reading posting checking : Writer
  ended : (status : ℕ) → Writer

pub data Reader : Type 0 where
  awaiting testing writing giving : Reader
  finished : (status : ℕ) → Reader

-- The reads of the writer's input that are still to come: `none` is a failure, and no byte, or
-- nothing left, is the end of the file.
abbrev pub Input : Type 0
Input = List (Option Bytes)

unfoldable pub read_into : Segment → Input → Progress (Segment × Input × Writer)
read_into s [] = next (record s { cnt = 0; buf = [] }, [], posting)
read_into s (none ∷ rest) = next (s, rest, ended 1)
read_into s (some c ∷ rest) = next (record s { cnt = length c; buf = c }, rest, posting)

-- The `while (1)` of the writer.
unfoldable pub writer_at : Writer → Segment → Input → Progress (Segment × Input × Writer)
writer_at waiting s input =
    if s.write_sem == 0
    then blocked
    else next (record s { write_sem = s.write_sem - 1 }, input, reading)
writer_at reading s input = read_into s input
writer_at posting s input = next (record s { read_sem = s.read_sem + 1 }, input, checking)
writer_at checking s input =
    if s.cnt == 0 then next (s, input, ended 0) else next (s, input, waiting)
writer_at (ended n) s input = blocked

-- What the reader has: its output, and its two counters.
pub record Received : Type 0 where
  pub out : Bytes
  pub bytes : ℕ
  pub xfrs : ℕ

-- INT_MAX + 1
abbrev pub int_end : ℕ
int_end = 2147483648

-- The `for` of the reader; `wrote` says whether its `n`-th write writes all bytes. A sum beyond an
-- int is undefined.
unfoldable pub reader_at :
    (ℕ → Bool) → Reader → Segment → Received → Progress (Segment × Received × Reader)
reader_at wrote awaiting s r =
    if s.read_sem == 0 then blocked else next (record s { read_sem = s.read_sem - 1 }, r, testing)
reader_at wrote testing s r =
    if s.cnt == 0
    then next (s, r, finished 0)
    else (if ltb (r.bytes + s.cnt) int_end
        then next (s, record r { bytes = r.bytes + s.cnt }, writing)
        else undefined)
reader_at wrote writing s r =
    if wrote r.xfrs
    then next (s, record r { out = r.out ++ take s.cnt s.buf }, giving)
    else next (s, r, finished 1)
reader_at wrote giving s r =
    next (record s { write_sem = s.write_sem + 1 }, record r { xfrs = r.xfrs + 1 }, awaiting)
reader_at wrote (finished n) s r = blocked

pub record State : Type 0 where
  pub segment : Segment
  pub input : Input
  pub writer : Writer
  pub received : Received
  pub reader : Reader

pub data Turn : Type 0 where
  write_turn read_turn : Turn

unfoldable pub after_write : State → Progress (Segment × Input × Writer) → Progress State
after_write s blocked = blocked
after_write s undefined = undefined
after_write s (next (t, i, p)) = next (record s { segment = t; input = i; writer = p })

unfoldable pub after_read : State → Progress (Segment × Received × Reader) → Progress State
after_read s blocked = blocked
after_read s undefined = undefined
after_read s (next (t, r, p)) = next (record s { segment = t; received = r; reader = p })

unfoldable pub step : (ℕ → Bool) → Turn → State → Progress State
step wrote write_turn s = after_write s (writer_at s.writer s.segment s.input)
step wrote read_turn s = after_read s (reader_at wrote s.reader s.segment s.received)

-- What exists under the three names when the writer starts: the segment with its count and buffer, and
-- the values of the semaphores. No call of either program removes a name.
pub record Names : Type 0 where
  pub old_shm : Option (ℕ × Bytes)
  pub old_write : Option ℕ
  pub old_read : Option ℕ

-- sem_open with O_CREAT: a semaphore that exists keeps its value.
unfoldable pub sem_open : Option ℕ → (value : ℕ) → ℕ
sem_open none value = value
sem_open (some old) value = old

-- shm_open with O_CREAT and ftruncate: a segment that exists keeps its bytes, a new one has zeros.
unfoldable pub shm_open : Option (ℕ × Bytes) → ℕ × Bytes
shm_open none = (0, [])
shm_open (some old) = old

-- Both processes before their loops.
unfoldable pub start : Names → Input → State
start names input = record {
  segment = record {
    cnt = (shm_open names.old_shm).0;
    buf = (shm_open names.old_shm).1;
    write_sem = sem_open names.old_write 1;
    read_sem = sem_open names.old_read 0;
  };
  input = input;
  writer = waiting;
  received = record { out = []; bytes = 0; xfrs = 0 };
  reader = awaiting;
}

-- The names that a run leaves behind.
abbrev pub left_by : State → Names
left_by s = record {
  old_shm = some (s.segment.cnt, s.segment.buf);
  old_write = some s.segment.write_sem;
  old_read = some s.segment.read_sem;
}

-- The calls before the loops, each with the exit of errExit if it fails.
abbrev check : Bool → Outcome (Unit {0}) → Outcome (Unit {0})
check ok later = if ok then later else exits 1

pub record Opening : Type 0 where
  pub shm_open_ok : Bool
  pub ftruncate_ok : Bool
  pub mmap_ok : Bool
  pub write_sem_ok : Bool
  pub read_sem_ok : Bool

unfoldable pub writer_open : Opening → Outcome (Unit {0})
writer_open o =
    check o.shm_open_ok (
      check o.ftruncate_ok (check o.mmap_ok (check o.write_sem_ok (check o.read_sem_ok (done tt)))))

unfoldable pub reader_open : Opening → Outcome (Unit {0})
reader_open o =
    check o.shm_open_ok (check o.mmap_ok (check o.write_sem_ok (check o.read_sem_ok (done tt))))
