-- ===== src/Shm/Search.antt =====
-- SP_HW12/lookup5.c, the search behind the shared memory: the key is a copy of the word.
use network_system_programmi.Prelude.{
  if◌then◌else◌, Bool, true, false, suc, ◌<◌, ◌++◌, ◌∷◌, ◌≡◌, length, drop, append_assoc, lt→ltb,
}
use network_system_programmi.Prelude.Bytes.{Bytes}
use network_system_programmi.Prelude.Order.{cstr-append}
use network_system_programmi.Machine.{Outcome, done, exits, bind_outcome}
use network_system_programmi.Dict.{Answer, Dictrec, Looked, word_of, word_size, strcpy, ◌>>=◌}
use network_system_programmi.Dict.Search.{
  record_at, numrec, dict_cmp, bsearch, deliver, lookup5, Mapping, map_file, outcome,
}

-- Behind `if (first_time)`; `temp` is what the local variable holds before.
unfoldable pub lookup_copied : Bytes → Dictrec → Dictrec → Looked
lookup_copied file temp sought = do
  w ← strcpy temp.word (word_of sought)
  deliver file sought (
      bsearch (suc (numrec file)) (λ i. dict_cmp (record temp { word = w }) (record_at file i)) 0
        (numrec file))

-- lookup as a whole: the file is opened and mapped at the first call.
unfoldable pub lookup : Mapping → Bytes → Dictrec → Bool → Dictrec → Outcome (Answer × Dictrec)
lookup m file temp first_time sought =
    bind_outcome
      (if first_time
        then (if m.open_ok then (if m.mmap_ok then done tt else exits 1) else exits 1)
        else done tt)
      (λ u. outcome (lookup_copied file temp sought))

pub lookup_copied-lookup5 :
    (file : Bytes) (temp sought : Dictrec)
    → length temp.word ≡ word_size
    → length (word_of sought) < word_size
    → lookup_copied file temp sought ≡ lookup5 file sought
unfolding lookup_copied lookup5 strcpy dict_cmp
lookup_copied-lookup5 file temp sought room short =
    let w = word_of sought ++ (0 ∷ drop (suc (length (word_of sought))) temp.word) in
    let same : word_of (record temp { word = w }) ≡ word_of sought =
      rw
        (append_assoc (word_of sought) (0 ∷ drop (suc (length (word_of sought))) temp.word)
          temp.text)
        (cstr-append (sought.word ++ sought.text)
          (drop (suc (length (word_of sought))) temp.word ++ temp.text)) in
    rw (lt→ltb (length (word_of sought)) (length temp.word) (rw room short), same)

-- With a word that fits its array, and whatever the local variable, of the same size, holds before,
-- lookup does what the lookup5 of SP_HW11 does, at its first call and at every later one.
pub lookup-lookup :
    (m : Mapping) (file : Bytes) (temp : Dictrec) (first_time : Bool) (sought : Dictrec)
    → length temp.word ≡ word_size
    → length (word_of sought) < word_size
    → lookup m file temp first_time sought
      ≡ network_system_programmi.Dict.Search.lookup m file first_time sought
unfolding lookup network_system_programmi.Dict.Search.lookup map_file
lookup-lookup m file temp true sought room short =
    rw (lookup_copied-lookup5 file temp sought room short)
lookup-lookup m file temp false sought room short =
    rw (lookup_copied-lookup5 file temp sought room short)
