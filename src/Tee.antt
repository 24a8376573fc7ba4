-- ===== src/Tee.antt =====
-- SP_HW1/SP_hw1-1.c: tee, which copies stdin to stdout and to files.
pub mod Round
pub mod Copies
pub mod Bounds
pub mod Tests
use network_system_programmi.Prelude.{
  ℕ, zero, suc, ◌+◌, Bool, true, false, List, [], ◌∷◌, ◌++◌, Option, none, some, leb, if◌then◌else◌,
  length, take,
}
use network_system_programmi.Prelude.Bytes.{Bytes, equal}

-- BUFFER_SIZE
abbrev pub buffer_size : ℕ
buffer_size = 10240

-- What read gives: -1, or bytes; at the end of the input it gives none. MAX_SIZE is the most that one
-- read gives, on which nothing here depends.
pub data Read : Type 0 where
  failed : Read
  got : Bytes → Read

-- What write does with its bytes; the source tests only for -1.
pub data Wrote : Type 0 where
  refused whole : Wrote
  part : ℕ → Wrote

-- The answers of the other calls: open and close by the file's name, write by its number in the run.
pub record Calls : Type 0 where
  pub can_open : Bytes → Bool
  pub can_close : Bytes → Bool
  pub wrote : ℕ → Wrote

-- The files by their names.
abbrev pub Disk : Type 0
Disk = Bytes → Option Bytes

-- `all_input` up to `total_size`, what went to stdout, the files, and how many writes there were.
pub record State : Type 0 where
  pub all_input : Bytes
  pub out : Bytes
  pub disk : Disk
  pub writes : ℕ

-- The run goes on, or it ends with a status.
pub data Ended : Type 0 where
  goes_on : State → Ended
  exits : ℕ → State → Ended

infixl 5 ◌>>=◌
abbrev pub ◌>>=◌ : Ended → (State → Ended) → Ended
goes_on s >>= k = k s
exits n s >>= k = exits n s

abbrev pub put : Bytes → Bytes → Disk → Disk
put name content disk q = if equal q name then some content else disk q

abbrev pub content_or_empty : Option Bytes → Bytes
content_or_empty none = []
content_or_empty (some s) = s

-- open with O_APPEND keeps what a file holds, with O_TRUNC it empties it; O_CREAT makes a new one.
unfoldable pub open_file : Bool → Bytes → Disk → Disk
open_file true name disk = put name (content_or_empty (disk name)) disk
open_file false name disk = put name [] disk

-- The bytes that a write passes on.
abbrev pub passed : Wrote → Bytes → Option Bytes
passed refused s = none
passed whole s = some s
passed (part n) s = some (take n s)

-- write (fd, all_input, total_size) behind the open: at the end of the file.
unfoldable pub write_file : Calls → Bytes → State → Ended
write_file c name s = elim (passed (c.wrote s.writes) s.all_input) [
  | none ↦ exits 1 (record s { writes = s.writes + 1 })
  | some sent ↦ goes_on (record s {
    disk = put name (content_or_empty (s.disk name) ++ sent) s.disk;
    writes = s.writes + 1;
  })
]

unfoldable pub close_file : Calls → Bytes → State → Ended
close_file c name s = if c.can_close name then goes_on s else exits 1 s

unfoldable pub one_file : Calls → Bool → Bytes → State → Ended
unfolding write_file close_file
one_file c append name s =
    if c.can_open name
    then (write_file c name (record s { disk = open_file append name s.disk })
        >>= close_file c name)
    else exits 1 s

-- `for (i = optind; i < argc; i++)`
unfoldable pub all_files : Calls → Bool → List Bytes → State → Ended
all_files c append [] s = goes_on s
all_files c append (name ∷ names) s = one_file c append name s >>= all_files c append names

unfoldable pub write_out : Calls → Bytes → State → Ended
write_out c from_in s = elim (passed (c.wrote s.writes) from_in) [
  | none ↦ exits 1 (record s { writes = s.writes + 1 })
  | some sent ↦ goes_on (record s { out = s.out ++ sent; writes = s.writes + 1 })
]

-- One round behind a read that gives bytes. The files are written in the round, and with all of the
-- input so far.
unfoldable pub round : Calls → Bool → List Bytes → Bytes → State → Ended
round c append names from_in s =
    if leb buffer_size (length s.all_input + length from_in)
    then exits 1 s
    else (write_out c from_in (record s { all_input = s.all_input ++ from_in })
        >>= all_files c append names)

-- The `while (1)`, over what the reads give; a read of no bytes ends it.
unfoldable pub loop : Calls → Bool → List Bytes → List Read → State → Ended
loop c append names [] s = exits 0 s
loop c append names (failed ∷ reads) s = exits 1 s
loop c append names (got [] ∷ reads) s = exits 0 s
loop c append names (got (b ∷ bs) ∷ reads) s =
    round c append names (b ∷ bs) s >>= loop c append names reads

-- main behind getopt, with whether -a was given and the names behind the options.
unfoldable pub main : Calls → Bool → List Bytes → List Read → Disk → Ended
main c append names reads disk =
    loop c append names reads (record { all_input = []; out = []; disk = disk; writes = 0 })
