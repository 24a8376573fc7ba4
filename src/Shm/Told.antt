-- ===== src/Shm/Told.antt =====
-- With the dictionary behind the server: what a client finds in the segment when its wait is over.
use native.Mathlib.Decide.{ℕ_discrete}
use network_system_programmi.Prelude.{
  ℕ, [], suc, ◌==◌, Bool-cases, inl, inr, ◌<◌, ◌++◌, ◌∷◌, ◌≡◌, ◌≢◌, refl, sym, ◌∙◌, ap, arith,
  length, drop, length-drop,
}
use network_system_programmi.Prelude.Bytes.{Bytes, cstr}
use network_system_programmi.Machine.{done}
use network_system_programmi.Dict.{Dictrec, Looked, word_of, word_size}
use network_system_programmi.Dict.Search.{record_at, numrec, lookup5}
use network_system_programmi.Dict.Search.Correct.{
  IsDictionary, LooksUp, hit, miss, lookup5-LooksUp, length-text,
}
use network_system_programmi.Dict.Remote.{missing, answer}
use network_system_programmi.Dict.Remote.Agrees.{answer_found, answer_notfound}
use network_system_programmi.Shm.{Shared, answered, Serving, System}
use network_system_programmi.Shm.Turns.{IsSegment, IsLookup, Outside, Turn, awaited, Replied}
use network_system_programmi.Shm.Moves.{free, held}
use network_system_programmi.Shm.Runs.{IsStaying, Reachable}
use network_system_programmi.Shm.Served.{Reachable-IsSound}
use network_system_programmi.Shm.Search.{lookup_copied, lookup_copied-lookup5}

-- The reply to a word: the text of the record that has it, or the mark where no record does.
pub data Told (file word text : Bytes) : Type 0 where
  known :
      (i : ℕ)
      → i < numrec file
      → word_of (record_at file i) ≡ word
      → text ≡ cstr (record_at file i).text
      → Told file word text
  unknown :
      ((i : ℕ) → i < numrec file → word_of (record_at file i) ≢ word)
      → text ≡ missing
      → Told file word text

-- A word that is ended in its array does not depend on the bytes behind it.
word_alone : (w t u : Bytes) → length (cstr (w ++ t)) < length w → cstr (w ++ u) ≡ cstr (w ++ t)
unfolding cstr
word_alone [] t u h = absurd (omega arith)
word_alone (c ∷ w) t u h = elim (Bool-cases (c == 0)) [
  | inl e ↦ rw e refl
  | inr e ↦
      let shorter : suc (length (cstr (w ++ t))) < suc (length w) = rw e at h in
      rw e (ap (◌∷◌ c) (word_alone w t u (omega arith)))
]

same_word : (k r : Dictrec) → IsSegment k → r.word ≡ k.word → word_of r ≡ word_of k
same_word k r i e =
    ap (λ w. cstr (w ++ r.text)) e
    ∙ word_alone k.word k.text r.text (omega (arith, i.word_ended, i.word_room))

reply-Told :
    (file : Bytes) (k : Dictrec) (o : Looked)
    → IsDictionary file
    → IsSegment k
    → LooksUp file k o
    → (r : Dictrec) × (answer o ≡ done r) × IsSegment r × Told file (word_of k) (cstr r.text)
unfolding cstr
reply-Told file k o d i (hit j r h e w t l) = (
  r,
  answer_found r,
  record {
    word_room = ap length w ∙ i.word_room;
    word_ended = omega (arith, i.word_ended, ap (length {A = ℕ}) (same_word k r i w));
    text_room = l;
    ended = omega (arith, ap length t, d.ended j h, length-text file j);
  },
  known j h e t,
)
reply-Told file k o d i (miss h) = (
  record k { text = missing ++ (0 ∷ drop 5 k.text) },
  answer_notfound k i.text_room,
  record {
    word_room = i.word_room;
    word_ended = omega (
      arith,
      i.word_ended,
      ap (length {A = ℕ}) (same_word k (record k { text = missing ++ (0 ∷ drop 5 k.text) }) i refl),
    );
    text_room = omega (arith, i.text_room, length-drop 5 k.text);
    ended = omega arith;
  },
  unknown h refl,
)

-- The server's lookup, whatever its local variable holds before.
module _ (file : Bytes) (temp : Dictrec) (d : IsDictionary file)
    (w : length temp.word ≡ word_size) where
  reply_copied :
      (k : Dictrec)
      → IsSegment k
      → (r : Dictrec) × (answer (lookup_copied file temp k) ≡ done r)
        × IsSegment r
        × Told file (word_of k) (cstr r.text)
  reply_copied k i =
      let (r, e, fits, told) =
        reply-Told file k (lookup5 file k) d i (lookup5-LooksUp file k d i.text_room) in
      (r, ap answer (lookup_copied-lookup5 file temp k w i.word_ended) ∙ e, fits, told)

  pub lookup_copied-IsLookup : IsLookup (lookup_copied file temp)
  lookup_copied-IsLookup = record {
    served = λ k i. let (r, e, fits, told) = reply_copied k i in (r, e, fits);
  }

done_inj : (a b : Dictrec) → done a ≡ done b → a ≡ b
done_inj a b e = cc

Turn-answered :
    (lookup : Dictrec → Looked) (s : Shared) (q : Dictrec) (v : Serving)
    → Turn lookup s q answered v
    → Replied lookup s.shm q
Turn-answered lookup s q _ (awaited w r) = r

Replied-Told :
    (file : Bytes) (temp r q : Dictrec)
    → IsDictionary file
    → length temp.word ≡ word_size
    → Replied (lookup_copied file temp) r q
    → Told file (word_of q) (cstr r.text)
Replied-Told file temp r q d w (k, i, word, e) =
    let (r', e', fits, told) = reply_copied file temp d w k i in
    rw (word, done_inj r' r (sym e' ∙ e)) at told

-- On a dictionary in order, from a segment with its sizes whose strings are ended in their arrays,
-- with queries whose words are ended in theirs, and as long as no client's process ends: when a
-- client's wait for the server is over, whatever the order of the steps, the segment holds the
-- reply to its own word, until the client gives semaphore 0 back.
pub answered-Told :
    (file : Bytes) (temp shm : Dictrec) (s : System) (i : ℕ)
    → IsDictionary file
    → length temp.word ≡ word_size
    → IsSegment shm
    → Reachable (lookup_copied file temp) IsStaying shm s
    → (s.clients i).phase ≡ answered
    → Told file (word_of (s.clients i).sought) (cstr s.shared.shm.text)
answered-Told file temp shm s i d w g r e =
    let lookup = lookup_copied file temp in
    elim (Reachable-IsSound lookup shm s (lookup_copied-IsLookup file temp d w) g r).order [
      | free m z v outs ↦ absurd (inside (rw e at (outs i)))
      | held k m turn outs ↦ elim (ℕ_discrete i k) [
        | no ne ↦ absurd (inside (rw e at (outs i ne)))
        | yes q ↦
            Replied-Told file temp s.shared.shm (s.clients i).sought d w
              (Turn-answered lookup s.shared _ s.serving (rw (sym q, e) at turn))
      ]
    ]
  where
    inside : Outside answered → ⊥
    inside o = elim o [ ]
