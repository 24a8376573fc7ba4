-- ===== src/Tokens/Words.antt =====
-- The tokens of strtok against the words of a line, and words that are joined.
use network_system_programmi.Prelude.{
  ℕ, ◌≤◌, ◌<◌, true, false, List, [], ◌∷◌, ◌++◌, Option, none, some, ◌≡◌, ◌≢◌, refl, ap, ◌∙◌, arith,
  inl, inr, Bool-cases, All, length, append_assoc,
}
use network_system_programmi.Prelude.Bytes.{Bytes}
use network_system_programmi.Tokens.{is_delim, span, strtok, extend, words, join}

abbrev pub IsPlain : ℕ → Type 0
IsPlain c = is_delim c ≡ false

abbrev pub IsWord : Bytes → Type 0
IsWord w = (w ≢ []) × All IsPlain w

-- What one strtok call says about the words of its input.
abbrev pub Splits : List Bytes → Option (Bytes × Bytes) → Type 0
Splits ws none = ws ≡ []
Splits ws (some (t, r)) = ws ≡ t ∷ words r

words_plain : (c : ℕ) (cs : Bytes) → IsPlain c → words (c ∷ cs) ≡ extend c cs (words cs)
unfolding words
words_plain c cs h = rw h

words_delim : (c : ℕ) (cs : Bytes) → is_delim c ≡ true → words (c ∷ cs) ≡ words cs
unfolding words
words_delim c cs h = rw h

span_plain : (c : ℕ) (cs : Bytes) → IsPlain c → span (c ∷ cs) ≡ (c ∷ (span cs).0, (span cs).1)
unfolding span
span_plain c cs h = rw h

extend_delim :
    (c d : ℕ) (ds : Bytes) (ws : List Bytes)
    → is_delim d ≡ true
    → extend c (d ∷ ds) ws ≡ (c ∷ []) ∷ ws
unfolding extend
extend_delim c d ds [] h = refl
extend_delim c d ds (w ∷ ws) h = rw h

extend_plain :
    (c d : ℕ) (ds w : Bytes) (ws : List Bytes)
    → IsPlain d
    → extend c (d ∷ ds) (w ∷ ws) ≡ (c ∷ w) ∷ ws
unfolding extend
extend_plain c d ds w ws h = rw h

words-span :
    (c : ℕ) (cs : Bytes) → IsPlain c → words (c ∷ cs) ≡ (c ∷ (span cs).0) ∷ words (span cs).1
words-span c [] h = words_plain c [] h ∙ (unfold words span extend in refl)
words-span c (d ∷ ds) h = elim (Bool-cases (is_delim d)) [
  | inl e ↦
      rw (words_plain c (d ∷ ds) h, words_delim d ds e, extend_delim c d ds (words ds) e)
        (unfold span in rw e refl)
  | inr e ↦ rw (
    words_plain c (d ∷ ds) h,
    words-span d ds e,
    extend_plain c d ds (d ∷ (span ds).0) (words (span ds).1) e,
    span_plain d ds e,
  )
]

-- The next token and the words of the rest are the words of the line.
pub strtok-Splits : (s : Bytes) → Splits (words s) (strtok s)
unfolding strtok
strtok-Splits [] = unfold words in refl
strtok-Splits (c ∷ cs) = elim (Bool-cases (is_delim c)) [
  | inl e ↦ rw (words_delim c cs e, e) (strtok-Splits cs)
  | inr e ↦ rw (e, span_plain c cs e) (words-span c cs e)
]

length-span : (cs : Bytes) → length (span cs).1 ≤ length cs
unfolding span
length-span [] = omega arith
length-span (c ∷ cs) = ground (arith, length-span cs)

-- A token leaves a shorter line.
pub strtok-lt : (s : Bytes) {t r : Bytes} → strtok s ≡ some (t, r) → length r < length s
unfolding strtok span
strtok-lt [] h = cc
strtok-lt (c ∷ cs) {t} {r} h = ground (arith, length-span cs, strtok-lt cs {t = t} {r = r})

IsWord-extend :
    (c : ℕ) (cs : Bytes) (ws : List Bytes) → IsPlain c → All IsWord ws → All IsWord (extend c cs ws)
unfolding extend
IsWord-extend c [] ws h a = (((λ e. cc), (h, tt)), a)
IsWord-extend c (d ∷ ds) [] h a = (((λ e. cc), (h, tt)), tt)
IsWord-extend c (d ∷ ds) (w ∷ ws) h a = elim (Bool-cases (is_delim d)) [
  | inl e ↦ rw e (((λ q. cc), (h, tt)), a)
  | inr e ↦ rw e (((λ q. cc), (h, a.0.1)), a.1)
]

-- A word has bytes, and no delimiter is among them.
pub words-IsWord : (s : Bytes) → All IsWord (words s)
unfolding words
words-IsWord [] = tt
words-IsWord (c ∷ cs) = elim (Bool-cases (is_delim c)) [
  | inl e ↦ rw e (words-IsWord cs)
  | inr e ↦ rw e (IsWord-extend c cs (words cs) e (words-IsWord cs))
]

-- A word, a delimiter and more: the word comes first.
pub words-append :
    (c : ℕ) (w : Bytes) (d : ℕ) (rest : Bytes)
    → IsPlain c
    → All IsPlain w
    → is_delim d ≡ true
    → words (c ∷ (w ++ (d ∷ rest))) ≡ (c ∷ w) ∷ words rest
words-append c [] d rest h a e =
    rw
      (words_plain c (d ∷ rest) h, extend_delim c d rest (words (d ∷ rest)) e, words_delim d rest e)
words-append c (b ∷ w) d rest h a e = rw (
  words_plain c (b ∷ (w ++ (d ∷ rest))) h,
  words-append b w d rest a.0 a.1 e,
  extend_plain c b (w ++ (d ∷ rest)) (b ∷ w) (words rest) a.0,
)

join_cons : (w v : Bytes) (ws : List Bytes) → join (w ∷ v ∷ ws) ≡ w ++ (b' ' ∷ join (v ∷ ws))
unfolding join
join_cons w v ws = refl

words-join_one :
    (c : ℕ) (w : Bytes) → IsWord (c ∷ w) → words (c ∷ (w ++ (b'\n' ∷ []))) ≡ (c ∷ w) ∷ []
words-join_one c w h =
    words-append c w b'\n' [] h.1.0 h.1.1 (unfold is_delim in refl) ∙ (unfold words in refl)

-- Words joined by blanks and ended by a newline are the words of that line.
pub words-join : (ws : List Bytes) → All IsWord ws → words (join ws ++ (b'\n' ∷ [])) ≡ ws
words-join [] a = unfold words join is_delim in refl
words-join ([] ∷ []) a = absurd (a.0.0 refl)
words-join ((c ∷ w) ∷ []) a = unfold join in words-join_one c w a.0
words-join ([] ∷ v ∷ ws) a = absurd (a.0.0 refl)
words-join ((c ∷ w) ∷ v ∷ ws) a =
    rw (join_cons (c ∷ w) v ws, append_assoc (c ∷ w) (b' ' ∷ join (v ∷ ws)) (b'\n' ∷ []))
      (words-append c w b' ' (join (v ∷ ws) ++ (b'\n' ∷ [])) a.0.1.0 a.0.1.1
          (unfold is_delim in refl)
        ∙ ap (◌∷◌ (c ∷ w)) (words-join (v ∷ ws) a.1))
