-- ===== src/Transfer/Stage.antt =====
-- The stages of one exchange between writer.c and reader.c of SP_HW9/54_1, with what is kept of the
-- input in each.
use network_system_programmi.Prelude.{ℕ, suc, ◌+◌, [], ◌∷◌, ◌++◌, none, some, length, ◌≡◌}
use network_system_programmi.Prelude.Bytes.{Bytes}
use network_system_programmi.Shm.{Progress, next}
use network_system_programmi.Transfer.{
  Segment, Writer, waiting, reading, posting, checking, ended, Reader, awaiting, testing, writing,
  giving, finished, Input, Received,
}

-- The bytes of an input, up to its end or a failed read.
unfoldable pub content : Input → Bytes
content [] = []
content (none ∷ rest) = []
content (some [] ∷ rest) = []
content (some (b ∷ c) ∷ rest) = (b ∷ c) ++ content rest

-- Between two exchanges: what is written and what is to come is the whole.
abbrev pub Whole : Bytes → Bytes → Input → Type 0
Whole all out rest = out ++ content rest ≡ all

-- Within an exchange: the last read is in the segment; no byte there is the end.
pub data Pending (all out : Bytes) (s : Segment) (rest : Input) : Type 0 where
  full :
      (b : ℕ) (c : Bytes)
      → s.buf ≡ b ∷ c
      → s.cnt ≡ length (b ∷ c)
      → out ++ ((b ∷ c) ++ content rest) ≡ all
      → Pending all out s rest
  empty : s.cnt ≡ 0 → out ≡ all → Pending all out s rest

-- The writer behind its sem_post, by whether bytes are in the segment.
pub data Behind (s : Segment) : Writer → Type 0 where
  at_check : Behind s checking
  at_wait : (n : ℕ) → s.cnt ≡ suc n → Behind s waiting
  at_end : s.cnt ≡ 0 → Behind s (ended 0)

-- The writer may go on to the next read.
pub data Ready (s : Segment) : Writer → Type 0 where
  ready : Ready s waiting
  ready_check : (n : ℕ) → s.cnt ≡ suc n → Ready s checking

pub data Stage (all : Bytes) (s : Segment) (rest : Input) (r : Received)
    : Writer → Reader → Type 0 where
  idle :
      {v : Writer}
      → s.write_sem ≡ 1
      → s.read_sem ≡ 0
      → Ready s v
      → r.bytes ≡ length r.out
      → Whole all r.out rest
      → Stage all s rest r v awaiting
  taken :
      s.write_sem ≡ 0
      → s.read_sem ≡ 0
      → r.bytes ≡ length r.out
      → Whole all r.out rest
      → Stage all s rest r reading awaiting
  filled :
      s.write_sem ≡ 0
      → s.read_sem ≡ 0
      → r.bytes ≡ length r.out
      → Pending all r.out s rest
      → Stage all s rest r posting awaiting
  posted :
      {v : Writer}
      → s.write_sem ≡ 0
      → s.read_sem ≡ 1
      → Behind s v
      → r.bytes ≡ length r.out
      → Pending all r.out s rest
      → Stage all s rest r v awaiting
  seen :
      {v : Writer}
      → s.write_sem ≡ 0
      → s.read_sem ≡ 0
      → Behind s v
      → r.bytes ≡ length r.out
      → Pending all r.out s rest
      → Stage all s rest r v testing
  counted :
      {v : Writer} (n : ℕ)
      → s.write_sem ≡ 0
      → s.read_sem ≡ 0
      → Behind s v
      → s.cnt ≡ suc n
      → r.bytes ≡ length r.out + s.cnt
      → Pending all r.out s rest
      → Stage all s rest r v writing
  copied :
      {v : Writer} (n : ℕ)
      → s.write_sem ≡ 0
      → s.read_sem ≡ 0
      → Behind s v
      → s.cnt ≡ suc n
      → r.bytes ≡ length r.out
      → Whole all r.out rest
      → Stage all s rest r v giving
  over :
      {v : Writer}
      → s.write_sem ≡ 0
      → s.read_sem ≡ 0
      → Behind s v
      → s.cnt ≡ 0
      → r.bytes ≡ length r.out
      → r.out ≡ all
      → Stage all s rest r v (finished 0)
  broken : {v : Writer} → Behind s v → s.write_sem ≡ 0 → Stage all s rest r v (finished 1)
  unread : s.write_sem ≡ 0 → s.read_sem ≡ 0 → r.out ≡ all → Stage all s rest r (ended 1) awaiting

-- What a step leads to has the property, if it is defined and does not have to wait.
abbrev pub Then : {A : Type 0} → (A → Type 0) → Progress A → Type 0
Then P (next a) = P a
Then P _ = Unit
