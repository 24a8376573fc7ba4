-- ===== src/Dict/Parts.antt =====
-- lookup5.c and main.c as they stand in SP_HW11/part2 and SP_HW11/part3, and main.c of SP_HW12.
use network_system_programmi.Prelude.{
  ℕ, suc, Bool, true, false, List, ◌≡◌, refl, ◌==◌, if◌then◌else◌, length,
}
use network_system_programmi.Prelude.Bytes.{Bytes}
use network_system_programmi.Machine.{Outcome, done, exits, bind_outcome}
use network_system_programmi.Dict.{Answer, Dictrec}
use network_system_programmi.Dict.Search.{
  record_at, numrec, dict_cmp, bsearch, deliver, lookup5, Mapping, map_file, outcome, lookup,
}
use network_system_programmi.Dict.Prompt.{ask_all}

-- DIE of a failed call.
abbrev unless_ok : Bool → Outcome (Unit {0}) → Outcome (Unit {0})
unless_ok ok later = if ok then later else exits 1

unfoldable pub lookup5_part2 : Mapping → Bytes → Bool → Dictrec → Outcome (Answer × Dictrec)
lookup5_part2 m file first_time sought =
    bind_outcome
      (if first_time then unless_ok m.open_ok (unless_ok m.mmap_ok (done tt)) else done tt)
      (λ u. outcome (
        deliver file sought
          (bsearch (suc (numrec file)) (λ i. dict_cmp sought (record_at file i)) 0 (numrec file))))

unfoldable pub lookup5_part3 : Mapping → Bytes → Bool → Dictrec → Outcome (Answer × Dictrec)
lookup5_part3 m file first_time sought =
    bind_outcome
      (if first_time then unless_ok m.open_ok (unless_ok m.mmap_ok (done tt)) else done tt)
      (λ u. outcome (
        deliver file sought
          (bsearch (suc (numrec file)) (λ i. dict_cmp sought (record_at file i)) 0 (numrec file))))

unfoldable pub main_part2 :
    (Dictrec → Outcome (Answer × Dictrec)) → ℕ → ℕ → Bytes → Dictrec → Outcome (List Bytes)
main_part2 lookup argc errno input tryit =
    if argc == 2 then ask_all lookup (suc (length input)) input tryit else exits errno

unfoldable pub main_part3 :
    (Dictrec → Outcome (Answer × Dictrec)) → ℕ → ℕ → Bytes → Dictrec → Outcome (List Bytes)
main_part3 lookup argc errno input tryit =
    if argc == 2 then ask_all lookup (suc (length input)) input tryit else exits errno

unfoldable pub main_shm :
    (Dictrec → Outcome (Answer × Dictrec)) → ℕ → ℕ → Bytes → Dictrec → Outcome (List Bytes)
main_shm lookup argc errno input tryit =
    if argc == 2 then ask_all lookup (suc (length input)) input tryit else exits errno

pub lookup5_part2-lookup :
    (m : Mapping) (file : Bytes) (first_time : Bool) (sought : Dictrec)
    → lookup5_part2 m file first_time sought ≡ lookup m file first_time sought
unfolding lookup5_part2 lookup lookup5 map_file
lookup5_part2-lookup m file true sought = refl
lookup5_part2-lookup m file false sought = refl

pub lookup5_part3-lookup :
    (m : Mapping) (file : Bytes) (first_time : Bool) (sought : Dictrec)
    → lookup5_part3 m file first_time sought ≡ lookup m file first_time sought
unfolding lookup5_part3 lookup lookup5 map_file
lookup5_part3-lookup m file true sought = refl
lookup5_part3-lookup m file false sought = refl
