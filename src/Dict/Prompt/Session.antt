-- ===== src/Dict/Prompt/Session.antt =====
-- A whole session of the client on a dictionary: what is printed for the words that are typed.
use network_system_programmi.Prelude.{
  true, ℕ, zero, suc, ◌<◌, ◌≤◌, List, [], ◌∷◌, ◌++◌, some, ◌≡◌, ◌≢◌, ◌⊎◌, refl, sym, ◌∙◌, ap, arith,
  length, All, length-append, inl, inr,
}
use network_system_programmi.Prelude.Bytes.{Bytes, codes, cstr}
use network_system_programmi.Libc.{fgets}
use network_system_programmi.Machine.{Outcome, done}
use network_system_programmi.Dict.{Answer, Dictrec, Looked, word_of, text_size}
use network_system_programmi.Dict.Search.{record_at, numrec, lookup5, lookup, map_file, outcome}
use network_system_programmi.Dict.Search.Correct.{IsDictionary, LooksUp, hit, miss, lookup5-LooksUp}
use network_system_programmi.Dict.Prompt.{read_word, chop, show, ask, ask_all}
use network_system_programmi.Libc.Lines.{IsTyped}
use network_system_programmi.Dict.Prompt.Queries.{word_of_typed, read_word-chop}

-- lookup on a file that can be opened and mapped.
abbrev pub local : Bytes → Dictrec → Outcome (Answer × Dictrec)
local file = lookup (record { open_ok = true; mmap_ok = true }) file true

-- What is printed for a word, by what the dictionary holds.
abbrev pub Shown : Bytes → Bytes → Bytes → Type 0
Shown file w out =
    ((i : ℕ) × (i < numrec file)
      × (word_of (record_at file i) ≡ w)
      × (out ≡ w ++ (codes " : " ++ cstr (record_at file i).text)))
    ⊎ (((i : ℕ) → i < numrec file → word_of (record_at file i) ≢ w)
        × (out ≡ w ++ codes " : Not Found!\n"))

-- The outputs for the words, one for each.
abbrev pub AllShows : (Bytes → Bytes → Type 0) → List Bytes → List Bytes → Type 0
AllShows Shows [] [] = Unit
AllShows Shows (w ∷ ws) (o ∷ os) = Shows w o × AllShows Shows ws os
AllShows Shows _ _ = ⊥

abbrev pub AllShown : Bytes → List Bytes → List Bytes → Type 0
AllShown file = AllShows (Shown file)

-- The words as they are typed, a line each.
abbrev pub typed : List Bytes → Bytes
typed [] = []
typed (w ∷ ws) = w ++ (b'\n' ∷ typed ws)

abbrev pub IsTypedWord : Bytes → Type 0
IsTypedWord w = All IsTyped w × (length w ≤ 30)

-- One round of the client, for a word that was typed.
abbrev pub Round : (Dictrec → Outcome (Answer × Dictrec)) → (Bytes → Bytes → Type 0) → Type 0
Round lookup Shows =
    (w behind : Bytes) (r q : Dictrec)
    → All IsTyped w
    → chop r ≡ done q
    → q.word ≡ w ++ (0 ∷ behind)
    → length q.text ≡ text_size
    → (a : Dictrec) × (out : Bytes) × (ask lookup r ≡ done (a, out))
      × Shows w out
      × (length a.text ≡ text_size)

module _ (lookup : Dictrec → Outcome (Answer × Dictrec)) (Shows : Bytes → Bytes → Type 0)
    (one : Round lookup Shows) where
  ask_all_step :
      (fuel : ℕ) (w : Bytes) (ws : List Bytes) (tryit r a : Dictrec) (out : Bytes)
      (outs : List Bytes)
      → read_word (w ++ (b'\n' ∷ typed ws)) tryit ≡ some (r, typed ws)
      → ask lookup r ≡ done (a, out)
      → ask_all lookup fuel (typed ws) a ≡ done outs
      → ask_all lookup (suc fuel) (typed (w ∷ ws)) tryit ≡ done (out ∷ outs)
  unfolding ask_all
  ask_all_step fuel w ws tryit r a out outs e f g = rw (e, ask_all, f, g)

  ask_all_end : (fuel : ℕ) (tryit : Dictrec) → ask_all lookup (suc fuel) [] tryit ≡ done []
  unfolding ask_all read_word fgets
  ask_all_end fuel tryit = refl

  -- A session is a round for each word.
  pub ask_all-AllShows :
      (fuel : ℕ) (ws : List Bytes) (tryit : Dictrec)
      → length (typed ws) < fuel
      → All IsTypedWord ws
      → length tryit.text ≡ text_size
      → (outs : List Bytes) × (ask_all lookup fuel (typed ws) tryit ≡ done outs)
        × AllShows Shows ws outs
  ask_all-AllShows zero ws tryit h a room = absurd (omega arith)
  ask_all-AllShows (suc fuel) [] tryit h a room = ([], ask_all_end fuel tryit, tt)
  ask_all-AllShows (suc fuel) (w ∷ ws) tryit h a room =
      let (r, q, behind, read, chopped, word, text) =
        read_word-chop w (typed ws) tryit a.0.0 a.0.1 in
      let (x, out, asked, shown, room') =
        one w behind r q a.0.0 chopped word (ap length text ∙ room) in
      let (outs, rest, all_shown) =
        ask_all-AllShows fuel ws x (omega (arith, length-append w (b'\n' ∷ typed ws))) a.1 room' in
      (out ∷ outs, ask_all_step fuel w ws tryit r x out outs read asked rest, (shown, all_shown))

module _ (file : Bytes) (dictionary : IsDictionary file) where
  ask-Shown :
      (w behind : Bytes) (r q : Dictrec)
      → All IsTyped w
      → chop r ≡ done q
      → q.word ≡ w ++ (0 ∷ behind)
      → length q.text ≡ text_size
      → (a : Dictrec) × (out : Bytes) × (ask (local file) r ≡ done (a, out))
        × Shown file w out
        × (length a.text ≡ text_size)
  unfolding ask show lookup map_file outcome
  ask-Shown w behind r q typed_w chopped word room =
      shown (lookup5 file q) (lookup5-LooksUp file q dictionary room) refl
    where
      shown :
          (o : Looked)
          → LooksUp file q o
          → lookup5 file q ≡ o
          → (a : Dictrec) × (out : Bytes) × (ask (local file) r ≡ done (a, out))
            × Shown file w out
            × (length a.text ≡ text_size)
      shown _ (hit i a h e w' t l) looked = (
        a,
        w ++ (codes " : " ++ cstr (record_at file i).text),
        rw (chopped, looked, word_of_typed w behind a typed_w (w' ∙ word), t),
        inl (i, h, e ∙ word_of_typed w behind q typed_w word, refl),
        l,
      )
      shown _ (miss h) looked = (
        q,
        w ++ codes " : Not Found!\n",
        rw (chopped, looked, word_of_typed w behind q typed_w word),
        inr ((λ i p e. h i p (e ∙ sym (word_of_typed w behind q typed_w word))), refl),
        room,
      )

  -- With a dictionary in order, a record whose text has its size, and words of at most 30 bytes, none
  -- of them NUL or a newline, typed a line each, the client prints
  -- for each word in turn the word and its text if the dictionary has it, and that it is not found
  -- if not; then it ends.
  pub ask_all-AllShown :
      (fuel : ℕ) (ws : List Bytes) (tryit : Dictrec)
      → length (typed ws) < fuel
      → All IsTypedWord ws
      → length tryit.text ≡ text_size
      → (outs : List Bytes) × (ask_all (local file) fuel (typed ws) tryit ≡ done outs)
        × AllShown file ws outs
  ask_all-AllShown = ask_all-AllShows (local file) (Shown file) ask-Shown
