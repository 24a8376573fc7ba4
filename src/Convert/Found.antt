-- ===== src/Convert/Found.antt =====
-- What lookup1.c finds in a file that convert.c has written.
use network_system_programmi.Prelude.{
  ℕ, suc, ◌-◌, ◌≤◌, true, false, List, [], ◌∷◌, ◌++◌, some, ◌≡◌, refl, sym, subst, ◌∙◌, ap, arith,
  length, length-append, append_assoc, append-nil, All, All-append,
}
use network_system_programmi.Prelude.Bytes.{Bytes}
use network_system_programmi.Libc.{fgets}
use network_system_programmi.Dict.{found, notfound}
use network_system_programmi.Convert.{read_file, exits, convert}
use network_system_programmi.Tail.Count.{unlines, unlines-append}
use network_system_programmi.Convert.Records.{Entry, IsPlain, Fits, source}
use network_system_programmi.Convert.Copies.{written, length-unlines, convert-source}
use network_system_programmi.Convert.Lookup.{starts_with, gives, lookup_loop, lookup}
use network_system_programmi.Convert.Reads.{skip, hit, text_of, lines_of, Avoids, IsRead}

written-append :
    (before after : List Entry)
    → written (before ++ after) ≡ unlines (lines_of before) ++ written after
written-append [] after = refl
written-append (e ∷ before) after =
    ap (λ s. e.word ++ (b'\n' ∷ (unlines e.lines ++ (b'\n' ∷ s)))) (written-append before after)
    ∙ sym (regrouped (written after))
  where
    regrouped :
        (rest : Bytes)
        → unlines (lines_of (e ∷ before)) ++ rest
          ≡ e.word ++ (b'\n' ∷ (unlines e.lines ++ (b'\n' ∷ (unlines (lines_of before) ++ rest))))
    regrouped rest = simp (unlines-append, append_assoc)

lines_of-IsRead : (es : List Entry) → All Fits es → All IsRead (lines_of es)
lines_of-IsRead [] f = tt
lines_of-IsRead (e ∷ es) f = (
  (f.0.word_plain.0, f.0.word_plain.1),
  All-append IsRead e.lines ([] ∷ lines_of es) (plain e.lines f.0.lines_plain)
      ((tt, omega arith), lines_of-IsRead es f.1),
)
  where
    plain : (ls : List Bytes) → All IsPlain ls → All IsRead ls
    plain [] p = tt
    plain (l ∷ ls) p = ((p.0.0, p.0.1), plain ls p.1)

All-parts :
    (before after : List Entry) → All Fits (before ++ after) → All Fits before × All Fits after
All-parts [] after f = (tt, f)
All-parts (e ∷ before) after f = let (a, b) = All-parts before after f.1 in ((f.0, a), b)

-- In a file that convert has written from entries that fit, lookup of a word gives the definition of
-- the first entry whose line begins with it, without the last newline, if the entry has a
-- definition and no line of the entries before begins with the word, their definitions included.
pub lookup-written :
    (w : Bytes) (before after : List Entry) (e : Entry) (l : Bytes) (ls : List Bytes)
    → All Fits (before ++ (e ∷ after))
    → e.lines ≡ l ∷ ls
    → Avoids w (lines_of before)
    → starts_with (e.word ++ (b'\n' ∷ [])) w ≡ true
    → lookup (written (before ++ (e ∷ after))) w ≡ gives found (text_of l ls)
unfolding lookup
lookup-written w before after e l ls f is a s =
    let file = written (before ++ (e ∷ after)) in
    let parts = All-parts before (e ∷ after) f in
    let whole = written-append before (e ∷ after) in
    let enough : length (lines_of before) ≤ length file = omega (
      arith,
      ap (length {A = ℕ}) whole,
      length-append (unlines (lines_of before)) (written (e ∷ after)),
      length-unlines (lines_of before),
    ) in
    let (m, left, on) =
      skip (suc (length file)) w (written (e ∷ after)) (lines_of before) (omega arith)
        (lines_of-IsRead before parts.0) a in
    let more : m ≡ suc (m - 1) = omega arith in
    let fits = parts.1.0 in
    ap (λ t. lookup_loop (suc (length file)) w (record { left = t; eof = false })) whole
    ∙ on
    ∙ ap (λ k. lookup_loop k w (record { left = written (e ∷ after); eof = false })) more
    ∙ ap
        (λ x. lookup_loop (suc (m - 1)) w (record {
          left = e.word ++ (b'\n' ∷ (unlines x ++ (b'\n' ∷ written after)));
          eof = false;
        }))
        is
    ∙ hit (m - 1) w e.word l (written after) ls (fits.word_plain.0, fits.word_plain.1) s
        (subst (All IsPlain) is fits.lines_plain)
        (omega (arith, fits.text_fits, ap (λ x. length (unlines x)) is))

-- A word with which no line begins is not found.
pub lookup-absent :
    (w : Bytes) (es : List Entry)
    → All Fits es
    → Avoids w (lines_of es)
    → lookup (written es) w ≡ gives notfound []
unfolding lookup lookup_loop read_file fgets
lookup-absent w es f a =
    let whole = ap written (sym (append-nil es)) ∙ written-append es [] in
    let enough : length (lines_of es) ≤ length (written es) = omega (
      arith,
      ap (length {A = ℕ}) whole,
      length-append (unlines (lines_of es)) [],
      length-unlines (lines_of es),
    ) in
    let (m, left, on) =
      skip (suc (length (written es))) w [] (lines_of es) (omega arith) (lines_of-IsRead es f) a in
    let more : m ≡ suc (m - 1) = omega arith in
    ap (λ t. lookup_loop (suc (length (written es))) w (record { left = t; eof = false })) whole
    ∙ on
    ∙ ap (λ k. lookup_loop k w (record { left = []; eof = false })) more

-- convert.c and lookup1.c together: from entries that fit, convert ends with status 0 and a file in which
-- a word with which some entry's line begins gets the definition of that entry, if it has one and
-- no line before begins with the word; and a word with which no line begins is not found.
pub convert-lookup :
    (w : Bytes) (before after : List Entry) (e : Entry) (l : Bytes) (ls : List Bytes)
    (other : Bytes)
    → All Fits (before ++ (e ∷ after))
    → e.lines ≡ l ∷ ls
    → Avoids w (lines_of before)
    → starts_with (e.word ++ (b'\n' ∷ [])) w ≡ true
    → Avoids other (lines_of (before ++ (e ∷ after)))
    → (file : Bytes) × (convert (some (source (before ++ (e ∷ after)))) true ≡ exits 0 file)
      × (lookup file w ≡ gives found (text_of l ls))
      × (lookup file other ≡ gives notfound [])
convert-lookup w before after e l ls other f is a s o = (
  written (before ++ (e ∷ after)),
  converted before after f,
  lookup-written w before after e l ls f is a s,
  lookup-absent other (before ++ (e ∷ after)) f o,
)
  where
    converted :
        (before after : List Entry)
        → All Fits (before ++ (e ∷ after))
        → convert (some (source (before ++ (e ∷ after)))) true
          ≡ exits 0 (written (before ++ (e ∷ after)))
    converted [] after f = convert-source e after f
    converted (b ∷ before) after f = convert-source b (before ++ (e ∷ after)) f
