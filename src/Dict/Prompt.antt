-- ===== src/Dict/Prompt.antt =====
-- The client program around every version of lookup: SP_HW11/part1/main.c.
pub mod Queries
pub mod Session
pub mod Remote
use network_system_programmi.Prelude.{
  ℕ, zero, suc, ◌+◌, ◌-◌, Bool, true, false, List, [], ◌∷◌, ◌++◌, Option, none, some, ◌==◌,
  if◌then◌else◌, length, set, drop,
}
use network_system_programmi.Prelude.Bytes.{Bytes, codes, cstr}
use network_system_programmi.Libc.{fgets}
use network_system_programmi.Machine.{Outcome, done, exits, fault, bind_outcome}
use network_system_programmi.Dict.{Answer, found, notfound, unavail, Dictrec, word_of}

-- fgets (tryit.word, sizeof (tryit.word), stdin): the line and its NUL over the front of the array.
unfoldable pub read_word : Bytes → Dictrec → Option (Dictrec × Bytes)
read_word input tryit = elim (fgets 31 input) [
  | none ↦ none
  | some (line, rest) ↦
      some (record tryit { word = line ++ (0 ∷ drop (suc (length line)) tryit.word) }, rest)
]

-- tryit.word[strlen (tryit.word) - 1] = '\0': with an empty string this is no place of the array.
unfoldable pub chop : Dictrec → Outcome Dictrec
chop tryit =
    if length (word_of tryit) == 0
    then fault
    else done (record tryit { word = set tryit.word (length (word_of tryit) - 1) 0 })

-- What is printed for each answer.
unfoldable pub show : Answer → Dictrec → Outcome Bytes
show found r = done (word_of r ++ (codes " : " ++ cstr r.text))
show notfound r = done (word_of r ++ codes " : Not Found!\n")
show unavail r = exits 1

-- One round behind fgets: the record afterwards, and what is printed.
unfoldable pub ask : (Dictrec → Outcome (Answer × Dictrec)) → Dictrec → Outcome (Dictrec × Bytes)
ask lookup tryit =
    bind_outcome (chop tryit)
      (λ q. bind_outcome (lookup q) (λ a. bind_outcome (show a.0 a.1) (λ s. done (a.1, s))))

-- `while (fgets (...))`; no fuel left is a fault.
unfoldable pub ask_all :
    (Dictrec → Outcome (Answer × Dictrec)) → ℕ → Bytes → Dictrec → Outcome (List Bytes)
ask_all lookup zero input tryit = fault
ask_all lookup (suc fuel) input tryit = elim (read_word input tryit) [
  | none ↦ done []
  | some (r, rest) ↦
      bind_outcome (ask lookup r)
        (λ a. bind_outcome (ask_all lookup fuel rest a.0) (λ ss. done (a.1 ∷ ss)))
]

unfoldable pub main :
    (Dictrec → Outcome (Answer × Dictrec)) → ℕ → ℕ → Bytes → Dictrec → Outcome (List Bytes)
main lookup argc errno input tryit =
    if argc == 2 then ask_all lookup (suc (length input)) input tryit else exits errno
