-- ===== src/Shell3/Parse.antt =====
-- SP_HW3/parse.c: as in the later shell, with a line printed for each token; the block of the first
-- token has no room for its NUL.
pub mod Overrun
use network_system_programmi.Prelude.{
  ℕ, zero, suc, ◌+◌, List, [], ◌∷◌, ◌++◌, Option, none, some, length,
}
use network_system_programmi.Prelude.Bytes.{Bytes, codes, decimal}
use network_system_programmi.Tokens.{strtok}
use network_system_programmi.Machine.{
  M, ◌>>=◌, ◌>>◌, pure, print, undefined, Slot, uninit, Grants, malloc, realloc, resize, store,
  strcpy_new, free,
}
use network_system_programmi.Shell.Parse.{Argv, terminate, free_strings}

-- printf ("[%d] : %s\n", count, token)
unfoldable pub show_token : ℕ → Bytes → M (Unit {0})
show_token count token =
    print (codes "[" ++ (decimal count ++ (codes "] : " ++ (token ++ codes "\n"))))

-- The body of the loop behind its `break`.
unfoldable pub install : Grants → Bytes → Argv → ℕ → M Argv
install g token v count = do
  realloc g
  malloc g
  s ← strcpy_new (length token + 1) token
  v' ← store (resize (count + 1) v) count s
  show_token count token
  pure v'

-- `while (token)`; no fuel left is a fault.
unfoldable pub more : Grants → ℕ → Bytes → Argv → ℕ → M (Argv × ℕ)
more g zero rest v count = undefined
more g (suc fuel) rest v count = elim (strtok rest) [
  | none ↦ pure (v, count)
  | some (token, rest') ↦ do v' ← install g token v count; more g fuel rest' v' (count + 1)
]

unfoldable pub first : Grants → Option (Bytes × Bytes) → M (Option Argv)
first g none = pure none
first g (some (token, rest)) = do
  malloc g
  malloc g
  show_token 0 token
  s ← strcpy_new (length token) token
  v ← store (uninit ∷ []) 0 s
  r ← more g (suc (length rest)) rest v 1
  terminate g r.0 r.1

unfoldable pub parse : Grants → Bytes → M (Option Argv)
parse g line = first g (strtok line)

unfoldable pub free_argv : Argv → M (Unit {0})
free_argv v = do free_strings v; free
