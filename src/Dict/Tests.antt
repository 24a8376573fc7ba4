-- ===== src/Dict/Tests.antt =====
-- Runs of the dictionary programs on a file of two records, and their theorems at inputs that meet
-- their conditions.
use Prim.Native.Nat.{lt}
use network_system_programmi.Prelude.{
  ℕ, zero, suc, ◌<◌, Bool, true, false, List, [], ◌∷◌, ◌++◌, ◌≡◌, refl, arith, All, length,
}
use network_system_programmi.Prelude.Bytes.{Bytes, codes, cstr, strcmp}
use network_system_programmi.Machine.{done}
use network_system_programmi.Dict.{Dictrec, word_of}
use network_system_programmi.Dict.Search.{record_at, numrec, lookup5}
use network_system_programmi.Dict.Remote.Agrees.{Tells, through_server, through_server-Tells}
use network_system_programmi.Dict.Servers.{Startup, Event, connected, not_accepted, usock_server}
use network_system_programmi.Dict.Servers.Children.{
  IsUp, connections, parent_end, AllServed, usock_server-AllServed,
}
use network_system_programmi.Dict.Prompt.{ask_all}
use network_system_programmi.Libc.Lines.{IsTyped}
use network_system_programmi.Dict.Prompt.Remote.{Answered, ask_all-Answered}
use network_system_programmi.Dict.Prompt.Session.{
  AllShows, local, AllShown, typed, ask_all-AllShown,
}
use network_system_programmi.Dict.Search.Correct.{IsDictionary, LooksUp, lookup5-LooksUp}

-- An array of the given size that holds a string.
abbrev pub filled : ℕ → Bytes → Bytes
filled zero s = []
filled (suc n) [] = 0 ∷ filled n []
filled (suc n) (c ∷ s) = c ∷ filled n s

abbrev pub two_records : Bytes
two_records =
    filled 32 (codes "ant")
    ++ (filled 480 (codes "an insect") ++ (filled 32 (codes "bee") ++ filled 480 (codes "XXXX")))

abbrev pub bee : Dictrec
bee = record { word = filled 32 (codes "bee"); text = filled 480 [] }

two : numrec two_records ≡ 2
unfolding numrec
two = refl

first_word : word_of (record_at two_records 0) ≡ codes "ant"
unfolding record_at cstr
first_word = refl

second_word : word_of (record_at two_records 1) ≡ codes "bee"
unfolding record_at cstr
second_word = refl

sorted_two :
    (i j : ℕ)
    → i < j
    → j < 2
    → strcmp (word_of (record_at two_records i)) (word_of (record_at two_records j)) ≡ lt
unfolding strcmp
sorted_two zero (suc zero) h k = rw (first_word, second_word) refl
sorted_two zero zero h k = absurd (omega arith)
sorted_two (suc i) j h k = absurd (omega arith)
sorted_two i (suc (suc j)) h k = absurd (omega arith)

ended_two :
    (i : ℕ)
    → i < 2
    → length (cstr (record_at two_records i).text) < length (record_at two_records i).text
unfolding record_at cstr
ended_two zero h = omega arith
ended_two (suc zero) h = omega arith
ended_two (suc (suc i)) h = absurd (omega arith)

pub two_records-IsDictionary : IsDictionary two_records
two_records-IsDictionary = record {
  sorted = λ i j h k. sorted_two i j h (rw two at k);
  ended = λ i h. ended_two i (rw two at h);
}

abbrev sends : ℕ → Bool
sends n = true

lookup5-LooksUp_example : LooksUp two_records bee (lookup5 two_records bee)
lookup5-LooksUp_example = lookup5-LooksUp two_records bee two_records-IsDictionary refl

through_server-Tells_example : Tells two_records bee (through_server two_records bee)
through_server-Tells_example = through_server-Tells two_records bee two_records-IsDictionary refl

abbrev up : Startup
up = record { errno = 0; socket_ok = true; option_ok = true; bind_ok = true; listen_ok = true }

up-IsUp : IsUp up (codes "/tmp/dict")
up-IsUp = record { socket = refl; bind = refl; listen = refl; short = omega arith }

abbrev two_clients : List Event
two_clients =
    connected sends (bee ∷ []) ∷ connected (λ n. false) (bee ∷ bee ∷ []) ∷ not_accepted ∷ []

usock_server-AllServed_example :
    AllServed
      (lookup5 two_records)
      (connections two_clients)
      (usock_server up 3 (codes "/tmp/dict") (lookup5 two_records) two_clients).0
    × ((usock_server up 3 (codes "/tmp/dict") (lookup5 two_records) two_clients).1
        ≡ parent_end two_clients)
usock_server-AllServed_example =
    usock_server-AllServed up (codes "/tmp/dict") two_records two_clients up-IsUp
      two_records-IsDictionary ((refl, tt), ((refl, (refl, tt)), tt))

bee-IsTyped : All IsTyped (codes "bee")
bee-IsTyped = ((refl, refl), ((refl, refl), ((refl, refl), tt)))

ask_all-AllShown_example :
    (outs : List Bytes) × (ask_all
        (local two_records)
        9
        (typed (codes "bee" ∷ codes "bee" ∷ []))
        bee
      ≡ done outs)
    × AllShown two_records (codes "bee" ∷ codes "bee" ∷ []) outs
ask_all-AllShown_example =
    ask_all-AllShown two_records two_records-IsDictionary 9 (codes "bee" ∷ codes "bee" ∷ []) bee
      (omega arith) ((bee-IsTyped, omega arith), ((bee-IsTyped, omega arith), tt)) refl

ask_all-Answered_example :
    (outs : List Bytes) × (ask_all
        (through_server two_records)
        9
        (typed (codes "bee" ∷ codes "bee" ∷ []))
        bee
      ≡ done outs)
    × AllShows (Answered two_records) (codes "bee" ∷ codes "bee" ∷ []) outs
ask_all-Answered_example =
    ask_all-Answered two_records two_records-IsDictionary 9 (codes "bee" ∷ codes "bee" ∷ []) bee
      (omega arith) ((bee-IsTyped, omega arith), ((bee-IsTyped, omega arith), tt)) refl
