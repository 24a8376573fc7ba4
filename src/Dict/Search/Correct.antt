-- ===== src/Dict/Search/Correct.antt =====
-- lookup5 in a dictionary whose words are in order.
use Prim.Native.Nat.{Ordering, lt}
use network_system_programmi.Prelude.{
  ℕ, suc, ◌≤◌, ◌<◌, Option, none, some, ◌≡◌, ◌≢◌, refl, sym, ◌∙◌, arith, lt→ltb, ◌++◌, ◌∷◌, length,
  length-append, length-drop, length-take-le, drop,
}
use native.Mathlib.Decide.{ℕ_discrete}
use network_system_programmi.Prelude.Bytes.{Bytes, cstr, strcmp}
use network_system_programmi.Prelude.Order.{
  strcmp-eq, strcmp_refl, strcmp_flip, strcmp_flip_lt, strcmp_trans, cstr-append,
}
use network_system_programmi.Dict.{
  Dictrec, Looked, found, notfound, text_size, word_of, strcpy, string_in, copy_text,
}
use network_system_programmi.Dict.Search.{record_at, numrec, dict_cmp, deliver, lookup5}
use network_system_programmi.Dict.Search.Bsearch.{IsOrdered, Hits, bsearch-Hits}

-- A file of records in strictly ascending order of their words, each text ended by a NUL.
pub record IsDictionary (file : Bytes) : Type 0 where
  pub sorted :
      (i j : ℕ)
      → i < j
      → j < numrec file
      → strcmp (word_of (record_at file i)) (word_of (record_at file j)) ≡ lt
  pub ended :
      (i : ℕ)
      → i < numrec file
      → length (cstr (record_at file i).text) < length (record_at file i).text

-- What lookup promises: the text of the record with the word sought, or that there is none.
pub data LooksUp (file : Bytes) (sought : Dictrec) : Looked → Type 0 where
  hit :
      (i : ℕ) (r : Dictrec)
      → i < numrec file
      → word_of (record_at file i) ≡ word_of sought
      → r.word ≡ sought.word
      → cstr r.text ≡ cstr (record_at file i).text
      → length r.text ≡ text_size
      → LooksUp file sought (some (found, r))
  miss :
      ((i : ℕ) → i < numrec file → word_of (record_at file i) ≢ word_of sought)
      → LooksUp file sought (some (notfound, sought))

length-strcpy :
    (s dst : Bytes)
    → length s < length dst
    → length (s ++ (0 ∷ drop (suc (length s)) dst)) ≡ length dst
length-strcpy s dst h =
    omega (arith, length-append s (0 ∷ drop (suc (length s)) dst), length-drop (suc (length s)) dst)

pub length-text : (file : Bytes) (i : ℕ) → length (record_at file i).text ≤ text_size
unfolding record_at
length-text file i = length-take-le text_size _

module _ (file : Bytes) (sought : Dictrec) (dictionary : IsDictionary file)
    (room : length sought.text ≡ text_size) where
  abbrev compare_with : ℕ → Ordering
  compare_with i = dict_cmp sought (record_at file i)

  compare_with-IsOrdered : IsOrdered compare_with (numrec file)
  unfolding dict_cmp
  compare_with-IsOrdered = record {
    before = λ i j ij jn e. elim (ℕ_discrete i j) [
      | yes q ↦ rw q at e
      | no q ↦ strcmp_trans _ _ _ e (dictionary.sorted i j (omega arith) jn)
    ];
    behind = λ i j ij jn e. elim (ℕ_discrete i j) [
      | yes q ↦ rw (← q) at e
      | no q ↦
          strcmp_flip_lt _ _
            (strcmp_trans _ _ _ (dictionary.sorted i j (omega arith) jn) (strcmp_flip _ _ e))
    ];
  }

  copy_text_lem :
      (i : ℕ)
      → i < numrec file
      → (r : Dictrec) × (copy_text sought (record_at file i) ≡ some r)
        × (r.word ≡ sought.word)
        × (cstr r.text ≡ cstr (record_at file i).text)
        × (length r.text ≡ text_size)
  unfolding copy_text string_in strcpy
  copy_text_lem i h = (
    record sought {
      text =
          cstr (record_at file i).text
          ++ (0 ∷ drop (suc (length (cstr (record_at file i).text))) sought.text);
    },
    rw (
      lt→ltb _ _ (dictionary.ended i h),
      lt→ltb (length (cstr (record_at file i).text)) (length sought.text)
          (omega (arith, dictionary.ended i h, length-text file i)),
    ),
    refl,
    cstr-append (record_at file i).text _,
    length-strcpy (cstr (record_at file i).text) sought.text
          (omega (arith, dictionary.ended i h, length-text file i))
        ∙ room,
  )

  deliver-LooksUp :
      (o : Option ℕ)
      → Hits compare_with 0 (numrec file) o
      → LooksUp file sought (deliver file sought o)
  unfolding deliver dict_cmp
  deliver-LooksUp none h =
      miss (λ i lt_n e. h i (omega arith) lt_n (rw e (strcmp_refl (word_of sought))))
  deliver-LooksUp (some i) h =
      let (r, copied, same_word, same_text, full) = copy_text_lem i h.1 in
      rw copied (hit i r h.1 (sym (strcmp-eq _ _ h.2)) same_word same_text full)

  -- With a dictionary in order and a query whose text has its size, a word is found exactly if a
  -- record of the dictionary has it, and its text is then copied without leaving the arrays;
  -- otherwise the query is as it was.
  pub lookup5-LooksUp : LooksUp file sought (lookup5 file sought)
  unfolding lookup5
  lookup5-LooksUp = deliver-LooksUp _ (
      bsearch-Hits (suc (numrec file)) compare_with (numrec file) 0 (numrec file)
        compare_with-IsOrdered (omega arith) (omega arith))
