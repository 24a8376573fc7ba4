-- ===== src/Shell3/Tests.antt =====
-- Runs of the first shell, and its theorems at inputs that meet their conditions.
use network_system_programmi.Prelude.{false, List, [], ◌∷◌, ◌≡◌, ◌⊎◌, refl, All}
use network_system_programmi.Prelude.Bytes.{Bytes, codes, equal}
use network_system_programmi.Tokens.{words}
use network_system_programmi.Machine.{exits, parent}
use network_system_programmi.Shell.Parse.Safety.{argv_of}
use network_system_programmi.Shell.Pipe.Outcomes.{Replaced}
use network_system_programmi.Shell.Main.Loop.{lines_of}
use network_system_programmi.Shell.Tests.{always, fresh, plain_os}
use network_system_programmi.Shell3.Run.{exited, run_child}
use network_system_programmi.Shell3.Run.Child.{ampersand, Launch, run_child-Launch}
use network_system_programmi.Shell3.Main.{Setting, main}
use network_system_programmi.Shell3.Main.Ends.{HasWord, Overruns, main-Overruns}

abbrev sleep_words : List Bytes
sleep_words = codes "5" ∷ codes "&" ∷ []

not_ampersand : equal (codes "sleep") ampersand ≡ false
unfolding equal
not_ampersand = refl

run_child-Launch_example :
    (us : List Bytes) × Launch (codes "sleep" ∷ sleep_words) us
    × Replaced plain_os us fresh (run_child plain_os (argv_of (codes "sleep" ∷ sleep_words)) fresh)
run_child-Launch_example = run_child-Launch plain_os (codes "sleep") sleep_words fresh not_ampersand

abbrev setting : Setting
setting = record { os = plain_os; role = λ line. parent; stat = λ line. exited 0 }

main-Overruns_example :
    (All (λ l. words l ≡ []) (lines_of 9 (codes "echo hi\n"))
      × (main setting (codes "echo hi\n") fresh ≡ exits 0))
    ⊎ (HasWord (lines_of 9 (codes "echo hi\n"))
        × Overruns always (main setting (codes "echo hi\n") fresh))
main-Overruns_example = main-Overruns setting (codes "echo hi\n") fresh
