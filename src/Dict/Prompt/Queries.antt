-- ===== src/Dict/Prompt/Queries.antt =====
-- Which word the client asks for, from the line that was typed.
use network_system_programmi.Prelude.{
  ℕ, suc, ◌-◌, ◌≤◌, false, [], ◌∷◌, ◌++◌, some, ◌≡◌, refl, ap, arith, ◌==◌, length, set, drop, All,
  length-append, append_assoc,
}
use network_system_programmi.Prelude.Bytes.{Bytes, cstr}
use network_system_programmi.Libc.Lines.{IsTyped, read_line-typed, fgets_line}
use network_system_programmi.Machine.{done}
use network_system_programmi.Dict.{Dictrec, word_of}
use network_system_programmi.Dict.Prompt.{read_word, chop}

cstr-typed : (w rest : Bytes) → All IsTyped w → cstr (w ++ (0 ∷ rest)) ≡ w
unfolding cstr
cstr-typed [] rest a = refl
cstr-typed (c ∷ w) rest a = rw (a.0.0, cstr-typed w rest a.1)

cstr-line : (w rest : Bytes) → All IsTyped w → cstr (w ++ (b'\n' ∷ 0 ∷ rest)) ≡ w ++ (b'\n' ∷ [])
unfolding cstr
cstr-line [] rest a = refl
cstr-line (c ∷ w) rest a = rw (a.0.0, cstr-line w rest a.1)

set-last :
    (w : Bytes) (x y : ℕ) (rest : Bytes) → set (w ++ (x ∷ rest)) (length w) y ≡ w ++ (y ∷ rest)
set-last [] x y rest = refl
set-last (c ∷ w) x y rest = ap (◌∷◌ c) (set-last w x y rest)

word_of_line :
    (w behind : Bytes) (r : Dictrec)
    → All IsTyped w
    → r.word ≡ w ++ (b'\n' ∷ 0 ∷ behind)
    → word_of r ≡ w ++ (b'\n' ∷ [])
word_of_line w behind r a e =
    rw (e, append_assoc w (b'\n' ∷ 0 ∷ behind) r.text) (cstr-line w (behind ++ r.text) a)

pub word_of_typed :
    (w behind : Bytes) (r : Dictrec) → All IsTyped w → r.word ≡ w ++ (0 ∷ behind) → word_of r ≡ w
word_of_typed w behind r a e =
    rw (e, append_assoc w (0 ∷ behind) r.text) (cstr-typed w (behind ++ r.text) a)

nonempty : (w : Bytes) (x : ℕ) → (length (w ++ (x ∷ [])) == 0) ≡ false
nonempty [] x = refl
nonempty (c ∷ w) x = ground arith

-- What chop leaves of a record whose word array begins with a typed line.
chop_line :
    (w behind : Bytes) (r : Dictrec)
    → All IsTyped w
    → r.word ≡ w ++ (b'\n' ∷ 0 ∷ behind)
    → (q : Dictrec) × (chop r ≡ done q) × (q.word ≡ w ++ (0 ∷ 0 ∷ behind)) × (q.text ≡ r.text)
unfolding chop
chop_line w behind r a e =
    let q = record r { word = w ++ (0 ∷ 0 ∷ behind) } in
    let place : length (w ++ (b'\n' ∷ [])) - 1 ≡ length w =
      omega (arith, length-append w (b'\n' ∷ [])) in
    (
      q,
      rw (word_of_line w behind r a e, nonempty w b'\n', place, e, set-last w b'\n' 0 (0 ∷ behind)),
      refl,
      refl,
    )

-- With a word of at most 30 bytes, none of them NUL or a newline, typed before a newline: the line is
-- read, and cut at its newline, so that the word array begins with the word and its NUL; the text is
-- as it was.
pub read_word-chop :
    (w rest : Bytes) (tryit : Dictrec)
    → All IsTyped w
    → length w ≤ 30
    → (r q : Dictrec) × (behind : Bytes) × (read_word (w ++ (b'\n' ∷ rest)) tryit ≡ some (r, rest))
      × (chop r ≡ done q)
      × (q.word ≡ w ++ (0 ∷ behind))
      × (q.text ≡ tryit.text)
unfolding read_word
read_word-chop w rest tryit a h =
    let behind = drop (suc (length (w ++ (b'\n' ∷ [])))) tryit.word in
    let r = record tryit { word = (w ++ (b'\n' ∷ [])) ++ (0 ∷ behind) } in
    let (q, chopped, word, text) =
      chop_line w behind r a (append_assoc w (b'\n' ∷ []) (0 ∷ behind)) in
    (
      r,
      q,
      0 ∷ behind,
      rw (fgets_line 31 w rest, read_word, read_line-typed 31 w rest a (omega arith)),
      chopped,
      word,
      text,
    )
