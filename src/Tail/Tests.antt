-- ===== src/Tail/Tests.antt =====
-- The last two of three lines, and more lines than there are.
use network_system_programmi.Prelude.{List, [], ◌∷◌, ◌++◌, ◌≡◌, refl, arith}
use network_system_programmi.Prelude.Bytes.{Bytes, codes}
use network_system_programmi.Prelude.Int.{pos}
use network_system_programmi.Machine.{done}
use network_system_programmi.Tail.{print_tail}
use network_system_programmi.Tail.Count.{unlines}
use network_system_programmi.Tail.Last.{print_tail-unlines}

abbrev first : List Bytes
first = codes "one" ∷ []

abbrev last : List Bytes
last = codes "two" ∷ codes "three" ∷ []

print_tail-unlines_example :
    print_tail (pos 2) (unlines (first ++ last)) ≡ done (codes "two\nthree\n")
print_tail-unlines_example = print_tail-unlines first last (refl, (refl, tt)) (omega arith)
