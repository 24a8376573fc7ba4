-- ===== src/Dict/Remote/Agrees.antt =====
-- What a client learns through a server, against what lookup5 says at the server.
use mathlib.Core.Bool.{false≢true}
use network_system_programmi.Prelude.{
  ℕ, ◌+◌, ◌<◌, Bool, true, false, List, [], ◌∷◌, ◌++◌, Option, none, some, ◌≡◌, ◌≢◌, refl, sym, ◌∙◌,
  ap, arith, lt→ltb, length, length-drop, drop, inl, inr, Bool-cases, All,
}
use network_system_programmi.Prelude.Bytes.{Bytes, equal, equal_iff, cstr}
use network_system_programmi.Machine.{Outcome, done, bind_outcome}
use network_system_programmi.Dict.{
  Answer, found, notfound, Dictrec, Looked, word_of, text_size, strcpy,
}
use network_system_programmi.Dict.Search.{record_at, numrec, lookup5}
use network_system_programmi.Dict.Search.Correct.{IsDictionary, LooksUp, hit, miss, lookup5-LooksUp}
use network_system_programmi.Dict.Remote.{
  missing, marked, reply, answer, End, closed, died, Served, and_then, serve_one, usock_dialogue,
  udp_loop, got, judge, received,
}

-- A query and its reply through a server that looks up in `file`.
unfoldable pub through_server : Bytes → Dictrec → Outcome (Answer × Dictrec)
through_server file sought =
    bind_outcome (answer (lookup5 file sought)) (λ r. received sought (got r))

-- The query's word, and a text of the size of a text.
pub record IsReply (sought r : Dictrec) : Type 0 where
  pub same_word : r.word ≡ sought.word
  pub room : length r.text ≡ text_size

-- What the client is told: the text of the record with the word; or nothing found, if there is no
-- such record, and also if there is one and its text is the mark for a word that is not there.
pub data Tells (file : Bytes) (sought : Dictrec) : Outcome (Answer × Dictrec) → Type 0 where
  told :
      (i : ℕ) (r : Dictrec)
      → i < numrec file
      → word_of (record_at file i) ≡ word_of sought
      → cstr (record_at file i).text ≢ missing
      → cstr r.text ≡ cstr (record_at file i).text
      → IsReply sought r
      → Tells file sought (done (found, r))
  hidden :
      (i : ℕ) (r : Dictrec)
      → i < numrec file
      → word_of (record_at file i) ≡ word_of sought
      → cstr (record_at file i).text ≡ missing
      → IsReply sought r
      → Tells file sought (done (notfound, r))
  absent :
      (r : Dictrec)
      → ((i : ℕ) → i < numrec file → word_of (record_at file i) ≢ word_of sought)
      → IsReply sought r
      → Tells file sought (done (notfound, r))

strcpy-missing : (t : Bytes) → 4 < length t → strcpy t missing ≡ some (missing ++ (0 ∷ drop 5 t))
unfolding strcpy
strcpy-missing t h = rw (lt→ltb 4 (length t) h)

judge_marked : (r : Dictrec) → equal (cstr r.text) missing ≡ true → judge r ≡ (notfound, r)
unfolding judge
judge_marked r h = rw h

judge_text : (r : Dictrec) → equal (cstr r.text) missing ≡ false → judge r ≡ (found, r)
unfolding judge
judge_text r h = rw h

cstr-missing : (rest : Bytes) → equal (cstr (missing ++ (0 ∷ rest))) missing ≡ true
unfolding cstr equal
cstr-missing rest = refl

not_missing : (t : Bytes) → equal t missing ≡ false → t ≢ missing
not_missing t h e = absurd (false≢true (sym h ∙ (equal_iff t missing).1 e))

pub answer_notfound :
    (r : Dictrec)
    → length r.text ≡ text_size
    → answer (some (notfound, r)) ≡ done (record r { text = missing ++ (0 ∷ drop 5 r.text) })
unfolding answer reply marked
answer_notfound r room = rw (strcpy-missing r.text (omega arith))

pub answer_found : (r : Dictrec) → answer (some (found, r)) ≡ done r
unfolding answer reply
answer_found r = refl

through-Tells :
    (file : Bytes) (sought : Dictrec) (o : Looked)
    → length sought.text ≡ text_size
    → LooksUp file sought o
    → Tells file sought (bind_outcome (answer o) (λ r. received sought (got r)))
unfolding received
through-Tells file sought o room (hit i r h e w t l) =
    let kept : IsReply sought r = record { same_word = w; room = l } in
    rw answer_found (elim (Bool-cases (equal (cstr r.text) missing)) [
      | inl q ↦ rw (judge_marked r q) (hidden i r h e (sym t ∙ (equal_iff _ _).0 q) kept)
      | inr q ↦ rw (judge_text r q) (told i r h e (rw t at (not_missing (cstr r.text) q)) t kept)
    ])
through-Tells file sought o room (miss h) =
    rw
      (
        answer_notfound sought room,
        judge_marked (record sought { text = missing ++ (0 ∷ drop 5 sought.text) })
            (cstr-missing (drop 5 sought.text)),
      )
      (absent _ h (record { same_word = refl; room = omega (arith, length-drop 5 sought.text) }))

-- Through a server on a dictionary in order the client is told the text of the word it asked for,
-- if the word is there and its text is not the mark "XXXX"; in every other case it is told that
-- the word is not there. The query's text has to have its size.
pub through_server-Tells :
    (file : Bytes) (sought : Dictrec)
    → IsDictionary file
    → length sought.text ≡ text_size
    → Tells file sought (through_server file sought)
unfolding through_server
through_server-Tells file sought d room =
    through-Tells file sought _ room (lookup5-LooksUp file sought d room)

-- A dialogue from the `n`-th send on: replies in the order of the requests, each the answer to its
-- own request, up to the first send that fails.
pub data Serves (lookup : Dictrec → Looked) (sent : ℕ → Bool)
    : ℕ → List Dictrec → List Dictrec → End → Type 0 where
  finish : {n : ℕ} → Serves lookup sent n [] [] closed
  serve :
      {n : ℕ} {q r : Dictrec} {qs rs : List Dictrec} {e : End}
      → answer (lookup q) ≡ done r
      → sent n ≡ true
      → Serves lookup sent (n + 1) qs rs e
      → Serves lookup sent n (q ∷ qs) (r ∷ rs) e
  stop :
      {n : ℕ} {q : Dictrec} {qs : List Dictrec}
      → sent n ≡ false
      → Serves lookup sent n (q ∷ qs) [] (died 1)

answer-LooksUp :
    (file : Bytes) (q : Dictrec) (o : Looked)
    → length q.text ≡ text_size
    → LooksUp file q o
    → (r : Dictrec) × (answer o ≡ done r)
answer-LooksUp file q o room (hit i r h e w t l) = (r, answer_found r)
answer-LooksUp file q o room (miss h) = (_, answer_notfound q room)

and_then-Serves :
    (lookup : Dictrec → Looked) (sent : ℕ → Bool) (n : ℕ) (q r : Dictrec) (qs : List Dictrec)
    (ok : Bool) (later : Served)
    → answer (lookup q) ≡ done r
    → sent n ≡ ok
    → Serves lookup sent (n + 1) qs later.0 later.1
    → Serves lookup sent n (q ∷ qs) (and_then r ok later).0 (and_then r ok later).1
unfolding and_then
and_then-Serves lookup sent n q r qs true (rs, e) a o s = serve a o s
and_then-Serves lookup sent n q r qs false later a o s = stop o

-- On a dictionary in order and requests whose texts have their size, the server's child answers the
-- requests of a connection in turn, each by what lookup5 gives for it, up to the first send that
-- fails; such a send ends the child with status 1.
pub usock_dialogue-Serves :
    (file : Bytes) (sent : ℕ → Bool) (n : ℕ) (qs : List Dictrec)
    → IsDictionary file
    → All (λ (q : Dictrec). length q.text ≡ text_size) qs
    → Serves
        (lookup5 file)
        sent
        n
        qs
        (usock_dialogue (lookup5 file) sent n qs).0
        (usock_dialogue (lookup5 file) sent n qs).1
unfolding usock_dialogue serve_one
usock_dialogue-Serves file sent n [] d rooms = finish
usock_dialogue-Serves file sent n (q ∷ qs) d rooms =
    let (r, e) =
      answer-LooksUp file q (lookup5 file q) rooms.0 (lookup5-LooksUp file q d rooms.0) in
    rw e (
      and_then-Serves (lookup5 file) sent n q r qs (sent n)
        (usock_dialogue (lookup5 file) sent (n + 1) qs) e refl
        (usock_dialogue-Serves file sent (n + 1) qs d rooms.1))

-- The datagrams that arrive, without the failed calls.
abbrev pub arrived : List (Option Dictrec) → List Dictrec
arrived [] = []
arrived (none ∷ qs) = arrived qs
arrived (some q ∷ qs) = q ∷ arrived qs

-- The UDP server does with the datagrams that arrive what the child of the Unix socket server does
-- with the requests of one connection, for any lookup and any results of the sends.
pub udp_loop-usock_dialogue :
    (lookup : Dictrec → Looked) (sent : ℕ → Bool) (n : ℕ) (qs : List (Option Dictrec))
    → udp_loop lookup sent n qs ≡ usock_dialogue lookup sent n (arrived qs)
unfolding udp_loop usock_dialogue
udp_loop-usock_dialogue lookup sent n [] = refl
udp_loop-usock_dialogue lookup sent n (none ∷ qs) = udp_loop-usock_dialogue lookup sent n qs
udp_loop-usock_dialogue lookup sent n (some q ∷ qs) =
    ap (serve_one (answer (lookup q)) (sent n)) (udp_loop-usock_dialogue lookup sent (n + 1) qs)
