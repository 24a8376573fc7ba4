-- ===== src/Convert/Copies.antt =====
-- What convert.c writes for a text file of entries.
use network_system_programmi.Prelude.{
  ℕ, zero, suc, ◌+◌, ◌<◌, ◌≤◌, true, false, List, [], ◌∷◌, ◌++◌, some, ◌≡◌, refl, sym, ◌∙◌, ap,
  arith, ltb, length, length-append, append_assoc, append-nil, All, is_empty, lt→ltb,
}
use network_system_programmi.Prelude.Bytes.{Bytes}
use network_system_programmi.Dict.{word_size, text_size}
use network_system_programmi.Tail.Count.{unlines}
use network_system_programmi.Convert.{
  close_text, word_in, read_record, exits, convert_loop, convert,
}
use network_system_programmi.Convert.Records.{
  Entry, Fits, behind_text, source, cstr-line, read_file-line, read_text-lines,
}

-- The entries with a blank line behind each.
abbrev pub written : List Entry → Bytes
written [] = []
written (e ∷ es) = e.word ++ (b'\n' ∷ (unlines e.lines ++ (b'\n' ∷ written es)))

pub length-unlines : (ls : List Bytes) → length ls ≤ length (unlines ls)
length-unlines [] = omega arith
length-unlines (l ∷ ls) = omega (arith, length-unlines ls, length-append l (b'\n' ∷ unlines ls))

-- One record, from the file behind its word.
read_record-Fits :
    (e : Entry) (es : List Entry)
    → Fits e
    → read_record
        (e.word ++ (b'\n' ∷ []))
        (record { left = unlines e.lines ++ behind_text es (source es); eof = false })
      ≡ some (
        (e.word ++ (b'\n' ∷ [])) ++ (unlines e.lines ++ (b'\n' ∷ [])),
        record { left = source es; eof = is_empty es },
      )
unfolding read_record word_in close_text
read_record-Fits e es f =
    let short : ltb (length (e.word ++ (b'\n' ∷ []))) word_size ≡ true =
      lt→ltb _ word_size (omega (arith, f.word_fits, length-append e.word (b'\n' ∷ []))) in
    let room : ltb (length (unlines e.lines) + 1) text_size ≡ true =
      lt→ltb _ text_size f.text_fits in
    let text =
      read_text-lines (suc (length (unlines e.lines ++ behind_text es (source es)))) [] e.lines es
        false
        (omega (
          arith,
          length-unlines e.lines,
          length-append (unlines e.lines) (behind_text es (source es)),
        ))
        f.lines_plain (omega (arith, f.text_fits)) in
    let kept : word_in (e.word ++ (b'\n' ∷ [])) ≡ some (e.word ++ (b'\n' ∷ [])) =
      rw (cstr-line e.word f.word_plain.0, word_in) (rw short refl) in
    rw (kept, read_record) (rw (text, read_record) (rw (room, close_text) refl))

regroup :
    (out w u rest : Bytes)
    → (out ++ ((w ++ (b'\n' ∷ [])) ++ (u ++ (b'\n' ∷ [])))) ++ rest
      ≡ out ++ (w ++ (b'\n' ∷ (u ++ (b'\n' ∷ rest))))
regroup out w u rest = simp append_assoc

loop-written :
    (fuel : ℕ) (es : List Entry) (out : Bytes)
    → length es < fuel
    → All Fits es
    → convert_loop fuel (record { left = source es; eof = is_empty es }) out
      ≡ exits 0 (out ++ written es)
unfolding convert_loop
loop-written zero es out h f = absurd (omega arith)
loop-written (suc fuel) [] out h f = ap (exits 0) (sym (append-nil out))
loop-written (suc fuel) (e ∷ es) out h f =
    let here = (e.word ++ (b'\n' ∷ [])) ++ (unlines e.lines ++ (b'\n' ∷ [])) in
    rw
      (
        read_file-line e.word (unlines e.lines ++ behind_text es (source es)) false f.0.word_plain.0
            f.0.word_plain.1,
        convert_loop,
      )
      (rw (read_record-Fits e es f.0, convert_loop)
        (loop-written fuel es (out ++ here) (omega arith) f.1
          ∙ ap (exits 0) (regroup out e.word (unlines e.lines) (written es))))

length-source : (es : List Entry) → length es ≤ length (source es)
length-source [] = omega arith
length-source (e ∷ []) = omega (arith, length-append e.word (b'\n' ∷ (unlines e.lines ++ [])))
length-source (e ∷ f ∷ es) = omega (
  arith,
  length-source (f ∷ es),
  length-append e.word (b'\n' ∷ (unlines e.lines ++ (b'\n' ∷ source (f ∷ es)))),
  length-append (unlines e.lines) (b'\n' ∷ source (f ∷ es)),
)

-- A file of at least one entry that ends behind the last definition, without a blank line, and whose
-- words and definitions fit a record, is copied with status 0: each word on its line, the lines of
-- its definition and a blank line, so that only the last blank line is new. No record gets a fixed
-- length.
pub convert-source :
    (e : Entry) (es : List Entry)
    → All Fits (e ∷ es)
    → convert (some (source (e ∷ es))) true ≡ exits 0 (written (e ∷ es))
unfolding convert
convert-source e es f =
    loop-written (suc (length (source (e ∷ es)))) (e ∷ es) []
      (omega (arith, length-source (e ∷ es))) f
