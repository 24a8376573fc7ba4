-- ===== src/Convert/Lookup.antt =====
-- lookup1.c, the linear search, and main.c of SP_HW5/Part3.
use network_system_programmi.Prelude.{
  ℕ, zero, suc, Bool, true, false, ◌&&◌, ◌||◌, [], ◌∷◌, ◌++◌, Option, none, some, ◌==◌, ltb,
  if◌then◌else◌, length, take,
}
use network_system_programmi.Prelude.Bytes.{Bytes, codes, cstr}
use network_system_programmi.Dict.{Answer, found, notfound, unavail, word_size, text_size}
use network_system_programmi.Convert.{File, no_line, line, read_file}

-- strncmp (line, word, strlen (word)) == 0
unfoldable pub starts_with : Bytes → Bytes → Bool
starts_with l [] = true
starts_with [] (c ∷ word) = false
starts_with (d ∷ l) (c ∷ word) = d == c && starts_with l word

-- `line[0] == '\0' || line[0] == '\n'`
abbrev pub ends_text : Bytes → Bool
ends_text [] = true
ends_text (c ∷ cs) = c == 0 || c == b'\n'

-- strncat (sought->text, line, strlen (line))
unfoldable pub append_line : Bytes → Bytes → Option Bytes
append_line text l =
    let more = text ++ cstr l in if ltb (length more) text_size then some more else none

-- The inner loop: the text, or undefined. The fuel is the length of the file and one more.
unfoldable pub collect : ℕ → Bytes → File → Option Bytes
collect zero text f = none
collect (suc fuel) text f = elim (read_file f) [
  | no_line g ↦ some text
  | line l g ↦ elim (ends_text l) [
    | true ↦ some text
    | false ↦ elim (append_line text l) [ none ↦ none | some more ↦ collect fuel more g ]
  ]
]

-- `sought->text[strlen (sought->text) - 1] = '\0'`; without a text that is outside.
unfoldable pub drop_last : Bytes → Option Bytes
drop_last [] = none
drop_last (c ∷ cs) = some (take (length cs) (c ∷ cs))

-- What lookup gives, with the text: the rest of `*sought` is as before. It exits where a read fails
-- but not at the end, which no file here does.
pub data Looked : Type 0 where
  gives : Answer → (text : Bytes) → Looked
  undefined : Looked

unfoldable pub answer : Option Bytes → Looked
answer none = undefined
answer (some text) = elim (drop_last text) [ none ↦ undefined | some s ↦ gives found s ]

-- `while (!feof (in))`, from the first line on.
unfoldable pub lookup_loop : ℕ → Bytes → File → Looked
lookup_loop zero word f = undefined
lookup_loop (suc fuel) word f = elim f.eof [
  | true ↦ gives notfound []
  | false ↦ elim (read_file f) [
    | no_line g ↦ gives notfound []
    | line l g ↦ elim (starts_with (cstr l) word) [
      | true ↦ answer (collect (suc (length g.left)) [] g)
      | false ↦ lookup_loop fuel word g
    ]
  ]
]

-- lookup on a file that opens, for a word.
unfoldable pub lookup : Bytes → Bytes → Looked
lookup file word = lookup_loop (suc (length file)) word (record { left = file; eof = false })

-- What main prints for one word: gets stores the word, of any length, in an array of 32 bytes.
unfoldable pub shown : Bytes → Looked → Option Bytes
shown word undefined = none
shown word (gives found text) = some (word ++ (codes " : " ++ (text ++ codes "\n")))
shown word (gives notfound text) = some (word ++ codes " : Not Found!\n")
shown word (gives unavail text) = none

unfoldable pub ask : Bytes → Bytes → Option Bytes
ask file word =
    if ltb (length word) word_size
    then elim (shown word (lookup file word)) [
      | none ↦ none
      | some s ↦ some (codes "What word do you want : " ++ s)
    ]
    else none
