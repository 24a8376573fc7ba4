-- ===== src/Shell/Scan.antt =====
-- The searches of the shell through an argument array: SP_HW5/Part2/is_background.c and
-- SP_HW5/Part2/pipe_present.c.
pub mod Facts
use network_system_programmi.Prelude.{
  ℕ, suc, ◌+◌, Bool, true, false, List, [], ◌∷◌, Option, none, some, ◌==◌, if◌then◌else◌,
}
use network_system_programmi.Prelude.Bytes.{Bytes, codes, equal}
use network_system_programmi.Prelude.Int.{ℤ, pos, negsuc}
use network_system_programmi.Machine.{M, ◌>>=◌, pure, undefined, Slot, uninit, null, str, load}
use network_system_programmi.Shell.Parse.{Argv}

-- `while (myArgv[i])` of is_background, on the cells from `i` on
unfoldable pub has_ampersand : Argv → M Bool
has_ampersand [] = undefined
has_ampersand (uninit ∷ v) = undefined
has_ampersand (null ∷ v) = pure false
has_ampersand (str b ∷ v) = if equal b.text (codes "&") then pure true else has_ampersand v

-- The test of the first cell answers like the loop that follows it.
unfoldable pub is_background : Argv → M Bool
is_background v = do head ← load v 0; elim head [ none ↦ pure false | some s ↦ has_ampersand v ]

-- `while (myCurrentArgv[index] != NULL)` of pipe_present: the index where it stops
unfoldable pub find_bar : Argv → ℕ → M ℕ
find_bar [] index = undefined
find_bar (uninit ∷ v) index = undefined
find_bar (null ∷ v) index = pure index
find_bar (str b ∷ v) index = if equal b.text (codes "|") then pure index else find_bar v (index + 1)

-- Behind the loop: at the end of the array, at its last word, or in the middle.
unfoldable pub classify : Argv → ℕ → M ℤ
classify v index = do
  here ← load v index
  elim here [
    | none ↦ pure (pos 0)
    | some s ↦ do
      after ← load v (index + 1)
      elim after [ none ↦ pure (negsuc 0) | some t ↦ pure (pos index) ]
  ]

unfoldable pub pipe_present : Argv → M ℤ
pipe_present v = do index ← find_bar v 0; if index == 0 then pure (negsuc 0) else classify v index
