-- ===== src/Tee/Tests.antt =====
-- Runs of tee with two files, and the theorems at them.
use network_system_programmi.Prelude.{
  true, false, List, [], ◌∷◌, ◌++◌, none, some, ◌≡◌, refl, arith, map, if◌then◌else◌,
}
use network_system_programmi.Prelude.Bytes.{Bytes, codes, equal}
use network_system_programmi.Tee.{
  got, failed, whole, part, Calls, Disk, State, exits, content_or_empty, main,
}
use network_system_programmi.Tee.Round.{Calm, among}
use network_system_programmi.Tee.Copies.{prefixes, main-truncates, main-appends}
use network_system_programmi.Tee.Bounds.{EndsWithin, input_of, main-EndsWithin}

abbrev calm_calls : Calls
calm_calls = record { can_open = λ q. true; can_close = λ q. true; wrote = λ i. whole }

calm_calls-Calm : Calm calm_calls
calm_calls-Calm = record { opens = λ q. refl; closes = λ q. refl; writes = λ i. refl }

abbrev names : List Bytes
names = codes "a" ∷ codes "b" ∷ []

abbrev disk : Disk
disk q = if equal q (codes "a") then some (codes "old") else none

main-truncates_example :
    (t : State) × (main calm_calls false names (map got (codes "hi" ∷ codes "!" ∷ [])) disk
      ≡ exits 0 t)
    × (t.out ≡ codes "hi!")
    × ((q : Bytes) → t.disk q ≡ (if among q names then some (codes "hi!") else disk q))
main-truncates_example =
    main-truncates calm_calls names (codes "hi") (codes "!" ∷ []) disk calm_calls-Calm
      ((λ e. cc), ((λ e. cc), tt)) (omega arith)

-- The second read repeats what the first gave.
repeated : prefixes [] (codes "hi" ∷ codes "!" ∷ []) ≡ codes "hihi!"
repeated = refl

abbrev named_once : equal (codes "a") (codes "b") ≡ false
unfolding equal
named_once = refl

main-appends_example :
    (t : State) × (main calm_calls true names (map got (codes "hi" ∷ codes "!" ∷ [])) disk
      ≡ exits 0 t)
    × (t.out ≡ codes "hi!")
    × ((q : Bytes)
        → t.disk q
          ≡ (if among q names then some (content_or_empty (disk q) ++ codes "hihi!") else disk q))
main-appends_example =
    main-appends calm_calls names (codes "hi") (codes "!" ∷ []) disk calm_calls-Calm
      (ground (arith, named_once)) ((λ e. cc), ((λ e. cc), tt)) (omega arith)

-- A run whose writes pass on one byte, and whose second read fails.
abbrev broken : Calls
broken = record { can_open = λ q. true; can_close = λ q. true; wrote = λ i. part 1 }

main-EndsWithin_example :
    EndsWithin
      (input_of (got (codes "hi") ∷ failed ∷ []))
      (main broken true names (got (codes "hi") ∷ failed ∷ []) disk)
main-EndsWithin_example = main-EndsWithin broken true names (got (codes "hi") ∷ failed ∷ []) disk
