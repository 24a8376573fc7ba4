-- ===== src/Tokens.antt =====
-- strtok over the delimiters of both shells (SP_HW5/Part2/parse.c, SP_HW3/parse.c), and an
-- independent description of the words of a line.
pub mod Words
use network_system_programmi.Prelude.{
  ℕ, Bool, ◌||◌, List, [], ◌∷◌, ◌++◌, Option, none, some, ◌==◌, if◌then◌else◌,
}
use network_system_programmi.Prelude.Bytes.{Bytes}

-- `delim` in `parse`
unfoldable pub is_delim : ℕ → Bool
is_delim c = c == b' ' || c == b'\t' || c == b'\n'

unfoldable pub skip : Bytes → Bytes
skip [] = []
skip (c ∷ cs) = if is_delim c then skip cs else c ∷ cs

-- The bytes up to a delimiter, and those behind that delimiter.
unfoldable pub span : Bytes → Bytes × Bytes
span [] = ([], [])
span (c ∷ cs) = let (t, r) = span cs in if is_delim c then ([], cs) else (c ∷ t, r)

unfoldable pub token_at : Bytes → Option (Bytes × Bytes)
token_at [] = none
token_at (c ∷ cs) = some (span (c ∷ cs))

-- strtok: the next token and what is left of the line for the next call.
unfoldable pub strtok : Bytes → Option (Bytes × Bytes)
unfolding skip token_at
strtok s = token_at (skip s)

-- The specification: the maximal runs of bytes that are no delimiters, from right to left.
unfoldable pub extend : ℕ → Bytes → List Bytes → List Bytes
extend c [] ws = (c ∷ []) ∷ ws
extend c (d ∷ ds) [] = (c ∷ []) ∷ []
extend c (d ∷ ds) (w ∷ ws) = if is_delim d then (c ∷ []) ∷ w ∷ ws else (c ∷ w) ∷ ws

unfoldable pub words : Bytes → List Bytes
words [] = []
words (c ∷ cs) = let ws = words cs in if is_delim c then ws else extend c cs ws

-- Words joined by single blanks.
unfoldable pub join : List Bytes → Bytes
join [] = []
join (w ∷ []) = w
join (w ∷ v ∷ ws) = w ++ (b' ' ∷ join (v ∷ ws))
