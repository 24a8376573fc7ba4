-- ===== src/Shm/Tests.antt =====
-- Runs of clients and server on a dictionary of two records, and the theorems at them.
use network_system_programmi.Prelude.{
  true, ℕ, zero, List, [], ◌∷◌, ◌++◌, ◌≡◌, ◌≢◌, ◌⊎◌, refl, sym, ◌∙◌, arith,
}
use network_system_programmi.Prelude.Bytes.{codes, cstr, equal, strcmp}
use network_system_programmi.Dict.{
  Answer, notfound, found, Dictrec, Looked, word_of, strcpy, string_in, copy_text,
}
use network_system_programmi.Dict.Search.{Mapping, record_at, numrec, bsearch, dict_cmp, deliver}
use network_system_programmi.Dict.Tests.{filled, two_records, two_records-IsDictionary, bee}
use network_system_programmi.Dict.Remote.{answer, reply, marked}
use network_system_programmi.Shm.{
  next, Phase, holding, answered, returned, copy_word, write_word, take_text, client_at, replied,
  server_at, System, Event, client, call, server, quit, quit_at, update, with_client, with_server,
  call_at, step, start,
}
use network_system_programmi.Shm.Turns.{IsSegment, IsQuery, Outside}
use network_system_programmi.Shm.Runs.{IsGiven, IsStaying, initial}
use network_system_programmi.Shm.Exclusion.{exclusion}
use network_system_programmi.Shm.Told.{Told, answered-Told}
use network_system_programmi.Shm.Moving.{moving}
use network_system_programmi.Shm.Schedule.{run, run-Reachable}
use network_system_programmi.Shm.Search.{lookup, lookup_copied, lookup-lookup}

abbrev ant : Dictrec
ant = record { word = filled 32 (codes "ant"); text = filled 480 [] }

abbrev segment : Dictrec
segment = record { word = filled 32 []; text = filled 480 [] }

segment-IsSegment : IsSegment segment
unfolding cstr
segment-IsSegment = record {
  word_room = refl;
  word_ended = omega arith;
  text_room = refl;
  ended = omega arith;
}

ant-IsQuery : IsQuery ant
unfolding cstr
ant-IsQuery = record { short = omega arith; room = refl }

bee-IsQuery : IsQuery bee
unfolding cstr
bee-IsQuery = record { short = omega arith; room = refl }

-- Client 0 asks for "ant" and has grabbed.
abbrev one_call : List Event
one_call = call 0 ant ∷ client 0 ∷ []

-- ... and its wait is over.
abbrev one_answer : List Event
one_answer = call 0 ant ∷ client 0 ∷ client 0 ∷ client 0 ∷ server ∷ server ∷ server ∷ client 0 ∷ []

-- The server's lookup, with anything in its local variable.
abbrev served : Dictrec → Looked
served = lookup_copied two_records bee

abbrev after : List Event → System
after es = run served es (start segment)

abbrev phase_after : List Event → Phase
phase_after es = ((after es).clients 0).phase

-- Client 0 has released, and before it reads the segment client 1 is served with "bee", whose text
-- is the mark: client 0 is told that "ant" is not there.
overtaken :
    phase_after (
      one_answer
      ++ (client 0 ∷ call 1 bee ∷ client 1 ∷ client 1 ∷ client 1 ∷ server ∷ server ∷ client 0 ∷ []))
    ≡ returned notfound
unfolding run step with_client with_server client_at server_at call_at update copy_word write_word
    take_text replied strcpy string_in copy_text answer reply marked lookup_copied deliver bsearch
    dict_cmp record_at numrec cstr strcmp equal
overtaken = refl

-- Without another client it is told that it is there.
alone : phase_after (one_answer ++ (client 0 ∷ client 0 ∷ [])) ≡ returned found
unfolding run step with_client with_server client_at server_at call_at update copy_word write_word
    take_text replied strcpy string_in copy_text answer reply marked lookup_copied deliver bsearch
    dict_cmp record_at numrec cstr strcmp equal
alone = refl

has_grabbed : phase_after one_call ≡ holding
unfolding run step with_client client_at call_at update
has_grabbed = refl

is_answered : phase_after one_answer ≡ answered
unfolding run step with_client with_server client_at server_at call_at update copy_word write_word
    take_text replied strcpy string_in copy_text answer reply marked lookup_copied deliver bsearch
    dict_cmp record_at numrec cstr strcmp equal
is_answered = refl

holding_inside : (p : Phase) → p ≡ holding → ¬ Outside p
holding_inside p e o = elim (rw e at o) [ ]

-- Client 1 has been served once and ends while client 0 waits for the server: client 0's wait is over
-- at once, and it is told the text of the last reply.
after_quit :
    phase_after (
      call 1 bee
      ∷ client 1
      ∷ client 1
      ∷ client 1
      ∷ server
      ∷ server
      ∷ server
      ∷ client 1
      ∷ client 1
      ∷ client 1
      ∷ call 0 ant
      ∷ client 0
      ∷ client 0
      ∷ client 0
      ∷ quit 1
      ∷ client 0
      ∷ client 0
      ∷ client 0
      ∷ [])
    ≡ returned notfound
unfolding run step with_client with_server client_at server_at call_at quit_at update copy_word
    write_word take_text replied strcpy string_in copy_text answer reply marked lookup_copied
    deliver bsearch dict_cmp record_at numrec cstr strcmp equal
after_quit = refl

exclusion_example : zero ≡ zero
exclusion_example =
    exclusion two_records bee segment (after one_call) zero zero two_records-IsDictionary refl
      segment-IsSegment
      (run-Reachable served IsGiven segment one_call (start segment) (ant-IsQuery, (tt, tt))
        initial)
      (holding_inside _ has_grabbed) (holding_inside _ has_grabbed)

answered-Told_example :
    Told two_records
      (word_of ((after one_answer).clients 0).sought)
      (cstr (after one_answer).shared.shm.text)
answered-Told_example =
    answered-Told two_records bee segment (after one_answer) 0 two_records-IsDictionary refl
      segment-IsSegment
      (run-Reachable served IsStaying segment one_answer (start segment)
        (ant-IsQuery, (tt, (tt, (tt, (tt, (tt, (tt, (tt, tt)))))))) initial)
      is_answered

not_returned : (p : Phase) → p ≡ holding → (a : Answer) → p ≢ returned a
not_returned p e a q = absurd (holding≢returned a (sym e ∙ q))
  where
    holding≢returned : (a : Answer) → holding ≡ returned a → ⊥
    holding≢returned a e = cc

moving_example :
    ((k : ℕ) × (t : System) × (step served (client k) (after one_call) ≡ next t))
    ⊎ ((t : System) × (step served server (after one_call) ≡ next t))
moving_example =
    moving two_records bee segment (after one_call) 0 two_records-IsDictionary refl
      segment-IsSegment
      (run-Reachable served IsGiven segment one_call (start segment) (ant-IsQuery, (tt, tt))
        initial)
      (not_returned _ has_grabbed)

abbrev mapped : Mapping
mapped = record { open_ok = true; mmap_ok = true }

lookup-lookup_example :
    lookup mapped two_records bee true ant
    ≡ network_system_programmi.Dict.Search.lookup mapped two_records true ant
lookup-lookup_example = lookup-lookup mapped two_records bee true ant refl ant-IsQuery.short
