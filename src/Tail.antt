-- ===== src/Tail.antt =====
-- SP_HW2/SP_hw2_tail.c: the last lines of a file that fits the buffer.
pub mod Count
pub mod Last
pub mod Tests
use network_system_programmi.Prelude.{
  ℕ, zero, suc, ◌+◌, ◌-◌, Bool, true, false, List, [], ◌∷◌, Option, none, some, ◌==◌, ltb,
  if◌then◌else◌, length, take, drop,
}
use network_system_programmi.Prelude.Bytes.{Bytes}
use network_system_programmi.Prelude.Int.{ℤ, pos, negsuc, pos_part, neg_part, ◌+ℤ◌, ltb_ℤ}
use network_system_programmi.Machine.{Outcome, done, exits, fault}

-- BUFF_SIZE
abbrev pub buff_size : ℕ
buff_size = 4096

-- `buf[i]` for an index that was read
unfoldable pub byte_at : Bytes → ℕ → ℕ
byte_at [] i = 0
byte_at (c ∷ cs) zero = c
byte_at (c ∷ cs) (suc i) = byte_at cs i

abbrev pub eqb_ℤ : ℤ → ℤ → Bool
eqb_ℤ a b = pos_part a + neg_part b == pos_part b + neg_part a

unfoldable pub count_at : Bytes → ℕ → ℕ → ℕ
count_at buf i coun = if byte_at buf i == b'\n' then coun + 1 else coun

-- The `for` from the last byte down, with the places below `i` still to come: the count, and the
-- place of the `break` if there is one.
unfoldable pub scan : Bytes → ℤ → ℕ → ℕ → ℕ × Option ℕ
scan buf num zero coun = (coun, none)
scan buf num (suc i) coun =
    let c = count_at buf i coun in
    let rest = scan buf num i c in if eqb_ℤ (pos c) (num +ℤ pos 1) then (c, some i) else rest

-- offset, as the loop leaves it
unfoldable pub offset_of : ℕ → Option ℕ → ℕ
offset_of size none = 0
offset_of size (some i) = size - i

-- The write of `offset - 1` bytes from `buf + read_size - offset + 1`; with an offset of 0 it reads
-- far outside the buffer.
unfoldable pub write_last : Bytes → ℕ → Outcome Bytes
write_last buf zero = fault
write_last buf (suc n) = done (take n (drop (length buf - n) buf))

-- Behind the loop.
unfoldable pub finish : Bytes → ℤ → ℕ × Option ℕ → Outcome Bytes
finish buf num (coun, at) =
    if eqb_ℤ (pos coun) num
    then write_last buf (length buf + 1)
    else (if ltb_ℤ (pos coun) num then exits 1 else write_last buf (offset_of (length buf) at))

-- From the read on; `buf` is what was read, at most the size of the buffer. A full buffer has no place
-- for the NUL behind it.
unfoldable pub print_tail : ℤ → Bytes → Outcome Bytes
print_tail num buf =
    if ltb (length buf) buff_size then finish buf num (scan buf num (length buf) 0) else fault

-- What the calls before and behind answer; the read gives the front of the file.
pub record Calls : Type 0 where
  pub setvbuf_ok : Bool
  pub advise_ok : Bool
  pub content : Option Bytes
  pub read_ok : Bool
  pub write_ok : Bool
  pub close_ok : Bool

unfoldable pub closed : Calls → Outcome Bytes → Outcome Bytes
closed c (done out) = if c.write_ok then (if c.close_ok then done out else exits 1) else exits 1
closed c o = o

-- main behind getopt, with the number that it took.
unfoldable pub main : Calls → ℤ → Outcome Bytes
main c num =
    if c.setvbuf_ok
    then (if c.advise_ok
        then elim c.content [
          | none ↦ exits 1
          | some file ↦
              if c.read_ok then closed c (print_tail num (take buff_size file)) else exits 1
        ]
        else exits 1)
    else exits 1
