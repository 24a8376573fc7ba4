-- ===== src/Shell/Parse.antt =====
-- SP_HW5/Part2/parse.c: a command line becomes an array of strings that a NULL ends.
pub mod Safety
use network_system_programmi.Prelude.{
  ℕ, zero, suc, ◌+◌, Bool, true, false, List, [], ◌∷◌, Option, none, some, if◌then◌else◌, length,
}
use network_system_programmi.Prelude.Bytes.{Bytes, codes, equal}
use network_system_programmi.Tokens.{strtok}
use network_system_programmi.Machine.{
  M, ◌>>=◌, ◌>>◌, pure, Slot, uninit, null, str, Grants, malloc, realloc, resize, store, strcpy_new,
  free, load, undefined,
}

abbrev pub Argv : Type 0
Argv = List Slot

-- The end of `parse`: one more cell, a block of eight bytes for it, and then NULL over its address.
unfoldable pub terminate : Grants → Argv → ℕ → M (Option Argv)
terminate g v count = do
  realloc g
  malloc g
  v' ← store (resize (count + 1) v) count null
  pure (some v')

-- The body of the loop behind its `break`: one more cell, and a copy of the token in it.
unfoldable pub install : Grants → Bytes → Argv → ℕ → M Argv
install g token v count = do
  realloc g
  malloc g
  s ← strcpy_new (length token + 1) token
  store (resize (count + 1) v) count s

-- `while (token)`, with `rest` the line behind the last token. No fuel left is a fault.
unfoldable pub more : Grants → ℕ → Bytes → Argv → ℕ → M (Argv × ℕ)
more g zero rest v count = undefined
more g (suc fuel) rest v count = elim (strtok rest) [
  | none ↦ pure (v, count)
  | some (token, rest') ↦ do v' ← install g token v count; more g fuel rest' v' (count + 1)
]

unfoldable pub first : Grants → Option (Bytes × Bytes) → M (Option Argv)
first g none = pure none
first g (some (token, rest)) = do
  malloc g
  malloc g
  s ← strcpy_new (length token + 1) token
  v ← store (uninit ∷ []) 0 s
  r ← more g (suc (length rest)) rest v 1
  terminate g r.0 r.1

unfoldable pub parse : Grants → Bytes → M (Option Argv)
parse g line = if equal line (codes "\n") then pure none else first g (strtok line)

-- `while (oldArgv[i]) free (oldArgv[i++]);`, on the cells from `i` on
unfoldable pub free_strings : Argv → M (Unit {0})
free_strings [] = undefined
free_strings (uninit ∷ v) = undefined
free_strings (null ∷ v) = pure tt
free_strings (str b ∷ v) = do free; free_strings v

unfoldable pub free_argv : Argv → M (Unit {0})
free_argv v = do free_strings v; free
