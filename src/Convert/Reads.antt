-- ===== src/Convert/Reads.antt =====
-- How lookup1.c goes through the lines of a file that convert.c has written.
use network_system_programmi.Prelude.{
  ℕ, zero, suc, ◌+◌, ◌-◌, ◌<◌, ◌≤◌, true, false, List, [], ◌∷◌, ◌++◌, some, ◌≡◌, refl, sym, ◌∙◌, ap,
  arith, length, length-append, append_assoc, append-nil, take, take-append_length, All, lt→ltb,
}
use network_system_programmi.Prelude.Bytes.{Bytes}
use network_system_programmi.Libc.{fgets}
use network_system_programmi.Libc.Lines.{IsTyped}
use network_system_programmi.Dict.{text_size}
use network_system_programmi.Dict.{found}
use network_system_programmi.Convert.{big_line, read_file}
use network_system_programmi.Tail.Count.{unlines}
use network_system_programmi.Convert.Records.{Entry, IsPlain, cstr-line, read_file-line}
use network_system_programmi.Convert.Copies.{length-unlines}
use network_system_programmi.Convert.Lookup.{
  starts_with, ends_text, append_line, collect, drop_last, gives, answer, lookup_loop,
}

-- The lines of a file that convert has written.
abbrev pub lines_of : List Entry → List Bytes
lines_of [] = []
lines_of (e ∷ es) = (e.word ∷ e.lines) ++ ([] ∷ lines_of es)

-- No line begins with the word.
abbrev pub Avoids : Bytes → List Bytes → Type 0
Avoids w = All (λ l. starts_with (l ++ (b'\n' ∷ [])) w ≡ false)

-- A line that lookup reads: typed, and not too long.
abbrev pub IsRead : Bytes → Type 0
IsRead l = All IsTyped l × (length l < big_line - 1)

-- The lines before the first that begins with the word are passed over.
pub skip :
    (fuel : ℕ) (w rest : Bytes) (ls : List Bytes)
    → length ls ≤ fuel
    → All IsRead ls
    → Avoids w ls
    → (m : ℕ) × (m + length ls ≡ fuel)
      × (lookup_loop fuel w (record { left = unlines ls ++ rest; eof = false })
          ≡ lookup_loop m w (record { left = rest; eof = false }))
unfolding lookup_loop
skip fuel w rest [] h r a = (fuel, omega arith, refl)
skip zero w rest (l ∷ ls) h r a = absurd (omega arith)
skip (suc fuel) w rest (l ∷ ls) h r a =
    let (m, e, on) = skip fuel w rest ls (omega arith) r.1 a.1 in
    (
      m,
      omega arith,
      ap (λ s. lookup_loop (suc fuel) w (record { left = s; eof = false }))
            (append_assoc l (b'\n' ∷ unlines ls) rest)
          ∙ rw (read_file-line l (unlines ls ++ rest) false r.0.0 r.0.1, lookup_loop)
              (rw (cstr-line l r.0.0, a.0) on),
    )

not_end : (l : Bytes) → IsPlain l → ends_text (l ++ (b'\n' ∷ [])) ≡ false
not_end [] p = absurd (omega (arith, p.2))
not_end (c ∷ l) p = ground (arith, p.0.0.0, p.0.0.1)

-- The text of an entry, up to the blank line behind it.
collect-lines :
    (fuel : ℕ) (text rest : Bytes) (ls : List Bytes)
    → length ls < fuel
    → All IsPlain ls
    → length text + length (unlines ls) < text_size
    → collect fuel text (record { left = unlines ls ++ (b'\n' ∷ rest); eof = false })
      ≡ some (text ++ unlines ls)
unfolding collect append_line read_file fgets
collect-lines zero text rest ls h p room = absurd (omega arith)
collect-lines (suc fuel) text rest [] h p room = ap some (sym (append-nil text))
collect-lines (suc fuel) text rest (l ∷ ls) h p room =
    let more = text ++ (l ++ (b'\n' ∷ [])) in
    let lengths : length (unlines (l ∷ ls)) ≡ length l + suc (length (unlines ls)) =
      length-append l (b'\n' ∷ unlines ls) in
    let longer : length more ≡ length text + (length l + 1) =
      omega (arith, length-append text (l ++ (b'\n' ∷ [])), length-append l (b'\n' ∷ [])) in
    let fits : append_line text (l ++ (b'\n' ∷ [])) ≡ some more =
      rw (cstr-line l p.0.0, append_line)
        (rw (lt→ltb (length more) text_size (omega arith)) refl) in
    ap (λ s. collect (suc fuel) text (record { left = s; eof = false }))
      (append_assoc l (b'\n' ∷ unlines ls) (b'\n' ∷ rest))
    ∙ rw (read_file-line l (unlines ls ++ (b'\n' ∷ rest)) false p.0.0 p.0.1, collect)
        (rw (not_end l p.0)
          (rw (fits, collect) (collect-lines fuel more rest ls (omega arith) p.1 (omega arith))))
    ∙ ap some (
        append_assoc text (l ++ (b'\n' ∷ [])) (unlines ls)
        ∙ ap (◌++◌ text) (append_assoc l (b'\n' ∷ []) (unlines ls)))

-- The lines of a definition without the newline behind the last.
abbrev pub text_of : Bytes → List Bytes → Bytes
text_of l [] = l
text_of l (m ∷ ls) = l ++ (b'\n' ∷ text_of m ls)

unlines-text_of : (l : Bytes) (ls : List Bytes) → unlines (l ∷ ls) ≡ text_of l ls ++ (b'\n' ∷ [])
unlines-text_of l [] = refl
unlines-text_of l (m ∷ ls) =
    ap (λ s. l ++ (b'\n' ∷ s)) (unlines-text_of m ls)
    ∙ sym (append_assoc l (b'\n' ∷ text_of m ls) (b'\n' ∷ []))

drop_last-append : (s : Bytes) (c : ℕ) → drop_last (s ++ (c ∷ [])) ≡ some s
unfolding drop_last
drop_last-append [] c = refl
drop_last-append (d ∷ s) c =
    ap (λ n. some (take n (d ∷ (s ++ (c ∷ []))))) (length-append s (c ∷ []) ∙ one_more (length s))
    ∙ ap some (take-append_length (d ∷ s) (c ∷ []))
  where
    one_more : (n : ℕ) → n + 1 ≡ suc n
    one_more n = omega arith

-- The line of the word, with the lines of its definition behind it.
pub hit :
    (fuel : ℕ) (w word l rest : Bytes) (ls : List Bytes)
    → IsRead word
    → starts_with (word ++ (b'\n' ∷ [])) w ≡ true
    → All IsPlain (l ∷ ls)
    → length (unlines (l ∷ ls)) < text_size
    → lookup_loop
        (suc fuel)
        w
        (record { left = word ++ (b'\n' ∷ (unlines (l ∷ ls) ++ (b'\n' ∷ rest))); eof = false })
      ≡ gives found (text_of l ls)
unfolding lookup_loop answer
hit fuel w word l rest ls r s p room =
    let behind = unlines (l ∷ ls) ++ (b'\n' ∷ rest) in
    let text =
      collect-lines (suc (length behind)) [] rest (l ∷ ls)
        (omega (arith, length-unlines (l ∷ ls), length-append (unlines (l ∷ ls)) (b'\n' ∷ rest))) p
        (omega arith) in
    rw (read_file-line word behind false r.0 r.1, lookup_loop)
      (rw (cstr-line word r.0, s)
        (ap answer (text ∙ ap some (unlines-text_of l ls))
          ∙ rw (drop_last-append (text_of l ls) b'\n', answer) refl))
