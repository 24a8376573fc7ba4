-- ===== src/Dict/Prompt/Remote.antt =====
-- A session of the client through a server.
use network_system_programmi.Prelude.{
  ℕ, ◌<◌, List, ◌∷◌, ◌++◌, ◌≡◌, ◌≢◌, refl, sym, ◌∙◌, length, All,
}
use network_system_programmi.Prelude.Bytes.{Bytes, codes, cstr}
use network_system_programmi.Machine.{Outcome, done}
use network_system_programmi.Dict.{Answer, Dictrec, word_of, text_size}
use network_system_programmi.Dict.Search.{record_at, numrec}
use network_system_programmi.Dict.Search.Correct.{IsDictionary}
use network_system_programmi.Dict.Remote.{missing}
use network_system_programmi.Dict.Remote.Agrees.{
  through_server, Tells, told, hidden, absent, through_server-Tells,
}
use network_system_programmi.Dict.Prompt.{chop, show, ask, ask_all}
use network_system_programmi.Libc.Lines.{IsTyped}
use network_system_programmi.Dict.Prompt.Queries.{word_of_typed}
use network_system_programmi.Dict.Prompt.Session.{AllShows, typed, IsTypedWord, ask_all-AllShows}

-- What is printed for a word: the text of its record, if that is not the mark; or that it is not
-- found, if there is no such record, or one whose text is the mark.
pub data Answered (file w : Bytes) : Bytes → Type 0 where
  printed :
      (i : ℕ)
      → i < numrec file
      → word_of (record_at file i) ≡ w
      → cstr (record_at file i).text ≢ missing
      → Answered file w (w ++ (codes " : " ++ cstr (record_at file i).text))
  masked :
      (i : ℕ)
      → i < numrec file
      → word_of (record_at file i) ≡ w
      → cstr (record_at file i).text ≡ missing
      → Answered file w (w ++ codes " : Not Found!\n")
  unknown :
      ((i : ℕ) → i < numrec file → word_of (record_at file i) ≢ w)
      → Answered file w (w ++ codes " : Not Found!\n")

module _ (file : Bytes) (dictionary : IsDictionary file) where
  ask-Answered :
      (w behind : Bytes) (r q : Dictrec)
      → All IsTyped w
      → chop r ≡ done q
      → q.word ≡ w ++ (0 ∷ behind)
      → length q.text ≡ text_size
      → (a : Dictrec) × (out : Bytes) × (ask (through_server file) r ≡ done (a, out))
        × Answered file w out
        × (length a.text ≡ text_size)
  unfolding ask show
  ask-Answered w behind r q typed_w chopped word room =
      answered (through_server file q) (through_server-Tells file q dictionary room) refl
    where
      answered :
          (o : Outcome (Answer × Dictrec))
          → Tells file q o
          → through_server file q ≡ o
          → (a : Dictrec) × (out : Bytes) × (ask (through_server file) r ≡ done (a, out))
            × Answered file w out
            × (length a.text ≡ text_size)
      answered _ (told i a h e t s k) given = (
        a,
        w ++ (codes " : " ++ cstr (record_at file i).text),
        rw (chopped, given, word_of_typed w behind a typed_w (k.same_word ∙ word), s),
        printed i h (e ∙ word_of_typed w behind q typed_w word) t,
        k.room,
      )
      answered _ (hidden i a h e t k) given = (
        a,
        w ++ codes " : Not Found!\n",
        rw (chopped, given, word_of_typed w behind a typed_w (k.same_word ∙ word)),
        masked i h (e ∙ word_of_typed w behind q typed_w word) t,
        k.room,
      )
      answered _ (absent a h k) given = (
        a,
        w ++ codes " : Not Found!\n",
        rw (chopped, given, word_of_typed w behind a typed_w (k.same_word ∙ word)),
        unknown (λ i p e. h i p (e ∙ sym (word_of_typed w behind q typed_w word))),
        k.room,
      )

  -- With a dictionary in order behind the server, a record whose text has its size, and words of at
  -- most 30 bytes, none of them NUL or a newline, typed a line each, the client prints for each
  -- word in turn the word and its text, if the dictionary has it and its text is not the mark
  -- "XXXX", and that it is not found if not; then it ends.
  pub ask_all-Answered :
      (fuel : ℕ) (ws : List Bytes) (tryit : Dictrec)
      → length (typed ws) < fuel
      → All IsTypedWord ws
      → length tryit.text ≡ text_size
      → (outs : List Bytes) × (ask_all (through_server file) fuel (typed ws) tryit ≡ done outs)
        × AllShows (Answered file) ws outs
  ask_all-Answered = ask_all-AllShows (through_server file) (Answered file) ask-Answered
