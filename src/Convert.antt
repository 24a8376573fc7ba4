-- ===== src/Convert.antt =====
-- SP_HW5/Part3: convert.c, which copies the records of a text file, and lookup1.c, which searches one
-- line by line, with main.c.
pub mod Lookup
pub mod Records
pub mod Copies
pub mod Reads
pub mod Found
pub mod Tests
use network_system_programmi.Prelude.{
  ℕ, zero, suc, ◌+◌, Bool, true, false, not, ◌&&◌, ◌||◌, ◌-◌, List, [], ◌∷◌, ◌++◌, Option, none,
  some, ◌==◌, ltb, if◌then◌else◌, length, take, is_empty,
}
use network_system_programmi.Prelude.Bytes.{Bytes, codes, cstr}
use network_system_programmi.Libc.{fgets}
use network_system_programmi.Dict.{word_size, text_size}

-- BIGLINE
abbrev pub big_line : ℕ
big_line = 512

-- A file that is read: what is left of it, and its end-of-file mark, which is set by a read that meets
-- the end.
pub record File : Type 0 where
  pub left : Bytes
  pub eof : Bool

abbrev pub has_newline : Bytes → Bool
has_newline [] = false
has_newline (c ∷ cs) = c == b'\n' || has_newline cs

-- What a read gives: NULL, or a line, and the file behind it.
pub data Line : Type 0 where
  no_line : File → Line
  line : Bytes → File → Line

-- fgets (line, BIGLINE, in): it meets the end if it stops neither at a newline nor at a full line.
unfoldable pub read_file : File → Line
read_file f = elim (fgets (big_line - 1) f.left) [
  | none ↦ no_line (record { left = []; eof = true })
  | some (l, rest) ↦
      line l (record { left = rest; eof = not (has_newline l) && ltb (length l) (big_line - 1) })
]

-- `line[0] == '\n'`
abbrev pub is_blank : Bytes → Bool
is_blank [] = false
is_blank (c ∷ cs) = c == b'\n'

-- strncat (blank.text, line, TEXT): the string and its NUL have to fit the array.
unfoldable pub append_text : Bytes → Bytes → Option Bytes
append_text text l =
    let more = text ++ take text_size (cstr l) in
    if ltb (length more) text_size then some more else none

-- The loop over the lines of a definition: the text and the file, or undefined. The fuel is the length
-- of the file and one more.
unfoldable pub read_text : ℕ → Bytes → File → Option (Bytes × File)
read_text zero text f = none
read_text (suc fuel) text f = elim (read_file f) [
  | no_line g ↦ some (text, g)
  | line l g ↦ elim (is_blank l) [
    | true ↦ some (text, g)
    | false ↦ elim (append_text text l) [ none ↦ none | some more ↦ read_text fuel more g ]
  ]
]

-- How a program ends: with a status and what it has written, or undefined.
pub data Ended : Type 0 where
  exits : (status : ℕ) → (out : Bytes) → Ended
  undefined : Ended

-- `blank.text[strlen (blank.text)] = '\n'`, and the string that fwrite then writes: a text that this
-- fills has no NUL.
unfoldable pub close_text : Bytes → Option Bytes
close_text text = if ltb (length text + 1) text_size then some (text ++ (b'\n' ∷ [])) else none

-- strncpy (blank.word, line, WORD): a line that fills the array leaves it without a NUL, and the write
-- of one is outside.
unfoldable pub word_in : Bytes → Option Bytes
word_in l = if ltb (length (cstr l)) word_size then some (cstr l) else none

-- One record behind the word's line: what is written, and the file.
unfoldable pub read_record : Bytes → File → Option (Bytes × File)
read_record l f = elim (word_in l) [
  | none ↦ none
  | some word ↦ elim (read_text (suc (length f.left)) [] f) [
    | none ↦ none
    | some (text, g) ↦ elim (close_text text) [ none ↦ none | some whole ↦ some (word ++ whole, g) ]
  ]
]

-- `while (!feof (in))`; DIE exits with 1, where what was written stands.
unfoldable pub convert_loop : ℕ → File → Bytes → Ended
convert_loop zero f out = undefined
convert_loop (suc fuel) f out = elim f.eof [
  | true ↦ exits 0 out
  | false ↦ elim (read_file f) [
    | no_line g ↦ exits 1 out
    | line l g ↦ elim (read_record l g) [
      | none ↦ undefined
      | some (written, h) ↦ convert_loop fuel h (out ++ written)
    ]
  ]
]

-- main behind its arguments: what the two fopen give. fwrite is tested for a negative result, which it
-- has not.
unfoldable pub convert : (input : Option Bytes) → (can_write : Bool) → Ended
convert none w = exits 1 []
convert (some input) false = exits 1 []
convert (some input) true =
    convert_loop (suc (length input)) (record { left = input; eof = false }) []
