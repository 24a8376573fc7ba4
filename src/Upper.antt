-- ===== src/Upper.antt =====
-- SP_HW6/44_1.c: a parent that sends what it reads through a pipe to a child, which returns it in upper
-- case through another.
pub mod Blocks
pub mod Tests
use network_system_programmi.Prelude.{
  ℕ, zero, suc, ◌+◌, ◌-◌, Bool, true, false, ◌&&◌, List, [], ◌∷◌, ◌++◌, Option, none, some, ◌==◌,
  leb, if◌then◌else◌, length, replicate,
}
use network_system_programmi.Prelude.Bytes.{Bytes, cstr}

-- BUFSIZ of <stdio.h>
abbrev pub buf_size : ℕ
buf_size = 8192

-- toupper in the C locale
unfoldable pub to_upper : ℕ → ℕ
to_upper c = if leb b'a' c && leb c b'z' then c - 32 else c

abbrev pub before : ℕ → Option Bytes → Option Bytes
before c none = none
before c (some a) = some (c ∷ a)

-- `while (upper[i] != '\0')` over the array; without a NUL it leaves the array.
unfoldable pub upper_cells : Bytes → Option Bytes
upper_cells [] = none
upper_cells (c ∷ cs) =
    let rest = before (to_upper c) (upper_cells cs) in if c == 0 then some (c ∷ cs) else rest

-- The array behind memset and read.
unfoldable pub filled : Bytes → Bytes
filled block = block ++ replicate (buf_size - length block) 0

-- What the child writes for a block: strlen (upper) bytes.
unfoldable pub reply : Bytes → Option Bytes
reply block = elim (upper_cells (filled block)) [ none ↦ none | some a ↦ some (cstr a) ]

-- What a read of stdin gives: -1, or the bytes of a block, at most BUFSIZ.
pub data Read : Type 0 where
  failed : Read
  got : Bytes → Read

-- What the other calls answer: both pipes, fork and the closes behind it; and by the round the writes
-- to the first pipe and to stdout.
pub record Calls : Type 0 where
  pub pipe_ok : Bool
  pub pipe2_ok : Bool
  pub fork_ok : Bool
  pub close_ok : Bool
  pub send_ok : ℕ → Bool
  pub show_ok : ℕ → Bool

-- The parent ends with a status; or both processes wait for the other; or the child's loop leaves its
-- array. The output is what write has put out: the messages of printf for a call that failed are left
-- out.
pub data Ended : Type 0 where
  exits : (status : ℕ) → (out : Bytes) → Ended
  hangs : (out : Bytes) → Ended
  undefined : Ended

-- The parent behind its write, with the reply: a reply of no bytes leaves it waiting in read.
unfoldable pub receive : Bytes → Bytes → (shown : Bool) → (Bytes → Ended) → Ended
receive out [] shown later = hangs out
receive out (c ∷ cs) shown later = if shown then later (out ++ (c ∷ cs)) else exits 1 out

-- A block goes through both pipes as a whole.
unfoldable pub exchange : Bytes → Bytes → (shown : Bool) → (Bytes → Ended) → Ended
exchange out block shown later = elim (reply block) [
  | none ↦ undefined
  | some s ↦ receive out s shown later
]

-- The parent's `while (1)`, by the round.
unfoldable pub parent_loop : Calls → ℕ → List Read → Bytes → Ended
parent_loop c i [] out = if c.close_ok then exits 0 out else exits 1 out
parent_loop c i (failed ∷ reads) out = exits 1 out
parent_loop c i (got [] ∷ reads) out = if c.close_ok then exits 0 out else exits 1 out
parent_loop c i (got (b ∷ bs) ∷ reads) out =
    if c.send_ok i
    then exchange out (b ∷ bs) (c.show_ok i) (parent_loop c (i + 1) reads)
    else exits 1 out

unfoldable pub main : Calls → List Read → Ended
main c reads =
    if c.pipe_ok && (c.pipe2_ok && (c.fork_ok && c.close_ok))
    then parent_loop c 0 reads []
    else exits 1 []
