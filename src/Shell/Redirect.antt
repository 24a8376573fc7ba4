-- ===== src/Shell/Redirect.antt =====
-- SP_HW5/Part2/redirect_in.c and SP_HW5/Part2/redirect_out.c.
pub mod Cleared
use network_system_programmi.Prelude.{
  ℕ, Bool, true, false, List, [], ◌∷◌, ◌++◌, Option, none, some, if◌then◌else◌,
}
use network_system_programmi.Prelude.Bytes.{Bytes, codes, equal, decimal}
use network_system_programmi.Prelude.Int.{ℤ, pos, negsuc}
use network_system_programmi.Machine.{
  Outcome, done, M, ◌>>=◌, ◌>>◌, pure, print, exit, undefined, World, Stream, file, Slot, uninit,
  null, str, Os, load,
}
use network_system_programmi.Shell.Parse.{Argv}

-- `while (myArgv[i] != NULL) myArgv[i++] = NULL;`, on the cells from `i` on
unfoldable pub clear : Argv → M Argv
clear [] = undefined
clear (uninit ∷ v) = undefined
clear (null ∷ v) = pure (null ∷ v)
clear (str b ∷ v) = do v' ← clear v; pure (null ∷ v')

-- open: a NULL path is refused (EFAULT), and a refusal ends the process.
unfoldable pub open_or_exit : Os → Option Bytes → M Bytes
open_or_exit os none = exit 1
open_or_exit os (some path) = if os.can_open path then pure path else exit 1

-- dup2 (fd, STD_INPUT); close (fd);
unfoldable pub input_from : Bytes → M (Unit {0})
input_from path w = done (tt, record w { fd0 = file path })

-- dup2 (fd, STD_OUTPUT); close (fd);
unfoldable pub output_to : Bytes → M (Unit {0})
output_to path w = done (tt, record w { fd1 = file path })

-- `while (myArgv[i] != NULL)`, on the cells from `i` on: the value returned and the cells after it
unfoldable pub redirect_in : Os → Argv → M (ℤ × Argv)
redirect_in os [] = undefined
redirect_in os (uninit ∷ v) = undefined
redirect_in os (null ∷ v) = pure (negsuc 0, null ∷ v)
redirect_in os (str b ∷ v) =
    if equal b.text (codes "<")
    then (do
      name ← load v 0
      path ← open_or_exit os name
      input_from path
      v' ← clear (str b ∷ v)
      pure (pos 0, v'))
    else (do r ← redirect_in os v; pure (r.0, str b ∷ r.1))

unfoldable pub redirect_out : Os → Argv → M (ℤ × Argv)
redirect_out os [] = undefined
redirect_out os (uninit ∷ v) = undefined
redirect_out os (null ∷ v) = do
  print (codes "redirect_in, errno: " ++ decimal os.errno)
  pure (negsuc 0, null ∷ v)
redirect_out os (str b ∷ v) =
    if equal b.text (codes ">")
    then (do
      name ← load v 0
      path ← open_or_exit os name
      output_to path
      v' ← clear (str b ∷ v)
      pure (pos 0, v'))
    else (do r ← redirect_out os v; pure (r.0, str b ∷ r.1))
