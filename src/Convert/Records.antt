-- ===== src/Convert/Records.antt =====
-- The text files that convert.c is meant for, and reading them line by line.
use network_system_programmi.Prelude.{
  ℕ, zero, suc, ◌+◌, ◌-◌, ◌<◌, ◌≤◌, Bool, true, false, List, [], ◌∷◌, ◌++◌, some, ◌≡◌, refl, sym,
  ◌∙◌, ap, arith, length, length-append, append_assoc, append-nil, take, All, is_empty, lt→ltb,
}
use network_system_programmi.Prelude.Bytes.{Bytes, cstr}
use network_system_programmi.Libc.{fgets}
use network_system_programmi.Libc.Lines.{IsTyped, read_line-typed, fgets_line}
use network_system_programmi.Dict.{word_size, text_size}
use network_system_programmi.Convert.{
  big_line, line, has_newline, read_file, is_blank, append_text, read_text,
}
use network_system_programmi.Tail.Count.{unlines}

-- A word with the lines of its definition.
pub record Entry : Type 0 where
  pub word : Bytes
  pub lines : List Bytes

-- A line that is not empty and fits the buffer.
abbrev pub IsPlain : Bytes → Type 0
IsPlain l = All IsTyped l × (length l < big_line - 1) × (0 < length l)

-- An entry that fits a record, with room for what convert puts behind the text.
pub record Fits (e : Entry) : Type 0 where
  pub word_plain : IsPlain e.word
  pub word_fits : length e.word + 1 < word_size
  pub lines_plain : All IsPlain e.lines
  pub text_fits : length (unlines e.lines) + 1 < text_size

-- The entries with a blank line between each two of them.
abbrev pub behind_text : List Entry → Bytes → Bytes
behind_text [] s = s
behind_text (e ∷ es) s = b'\n' ∷ s

abbrev pub source : List Entry → Bytes
source [] = []
source (e ∷ es) = e.word ++ (b'\n' ∷ (unlines e.lines ++ behind_text es (source es)))

has_newline-append : (l : Bytes) → has_newline (l ++ (b'\n' ∷ [])) ≡ true
has_newline-append [] = refl
has_newline-append (c ∷ l) = ground (arith, has_newline-append l)

pub cstr-line : (l : Bytes) → All IsTyped l → cstr (l ++ (b'\n' ∷ [])) ≡ l ++ (b'\n' ∷ [])
unfolding cstr
cstr-line [] a = refl
cstr-line (c ∷ l) a = rw (a.0.0, cstr-line l a.1)

take_all : (n : ℕ) (s : Bytes) → length s ≤ n → take n s ≡ s
take_all zero [] h = refl
take_all zero (c ∷ s) h = absurd (omega arith)
take_all (suc n) [] h = refl
take_all (suc n) (c ∷ s) h = ap (◌∷◌ c) (take_all n s (omega arith))

pub not_blank : (l : Bytes) → IsPlain l → is_blank (l ++ (b'\n' ∷ [])) ≡ false
not_blank [] p = absurd (omega (arith, p.2))
not_blank (c ∷ l) p = p.0.0.1

pub read_file-line :
    (l rest : Bytes) (b : Bool)
    → All IsTyped l
    → length l < big_line - 1
    → read_file (record { left = l ++ (b'\n' ∷ rest); eof = b })
      ≡ line (l ++ (b'\n' ∷ [])) (record { left = rest; eof = false })
unfolding read_file
read_file-line l rest b a h =
    rw (fgets_line 511 l rest, read_line-typed 511 l rest a h, read_file)
      (rw (has_newline-append l) refl)

pub append_text-line :
    (text l : Bytes)
    → IsPlain l
    → length text + (length l + 1) < text_size
    → append_text text (l ++ (b'\n' ∷ [])) ≡ some (text ++ (l ++ (b'\n' ∷ [])))
unfolding append_text
append_text-line text l p h =
    rw
      (
        cstr-line l p.0,
        take_all text_size (l ++ (b'\n' ∷ [])) (omega (arith, length-append l (b'\n' ∷ []))),
      )
      (rw
        (lt→ltb (length (text ++ (l ++ (b'\n' ∷ [])))) text_size
          (omega (arith, length-append text (l ++ (b'\n' ∷ [])), length-append l (b'\n' ∷ []))))
        refl)

-- One line of a definition.
read_text-line :
    (fuel : ℕ) (text l rest : Bytes) (b : Bool)
    → IsPlain l
    → length text + (length l + 1) < text_size
    → read_text (suc fuel) text (record { left = l ++ (b'\n' ∷ rest); eof = b })
      ≡ read_text fuel (text ++ (l ++ (b'\n' ∷ []))) (record { left = rest; eof = false })
unfolding read_text
read_text-line fuel text l rest b p h =
    rw (read_file-line l rest b p.0 p.1, read_text)
      (rw (not_blank l p) (rw (append_text-line text l p h) refl))

read_text-end :
    (fuel : ℕ) (text : Bytes) (b : Bool)
    → read_text (suc fuel) text (record { left = []; eof = b })
      ≡ some (text, record { left = []; eof = true })
unfolding read_text read_file fgets
read_text-end fuel text b = refl

read_text-blank :
    (fuel : ℕ) (text rest : Bytes) (b : Bool)
    → read_text (suc fuel) text (record { left = b'\n' ∷ rest; eof = b })
      ≡ some (text, record { left = rest; eof = false })
unfolding read_text read_file fgets
read_text-blank fuel text rest b = refl

-- A definition, up to the blank line or the end behind it.
pub read_text-lines :
    (fuel : ℕ) (text : Bytes) (ls : List Bytes) (es : List Entry) (b : Bool)
    → length ls < fuel
    → All IsPlain ls
    → length text + length (unlines ls) < text_size
    → read_text fuel text (record { left = unlines ls ++ behind_text es (source es); eof = b })
      ≡ some (text ++ unlines ls, record { left = source es; eof = is_empty es })
read_text-lines zero text ls es b h p room = absurd (omega arith)
read_text-lines (suc fuel) text [] [] b h p room =
    read_text-end fuel text b
    ∙ ap (λ t. some (t, record { left = []; eof = true })) (sym (append-nil text))
read_text-lines (suc fuel) text [] (e ∷ es) b h p room =
    read_text-blank fuel text (source (e ∷ es)) b
    ∙ ap (λ t. some (t, record { left = source (e ∷ es); eof = false })) (sym (append-nil text))
read_text-lines (suc fuel) text (l ∷ ls) es b h p room =
    let more = text ++ (l ++ (b'\n' ∷ [])) in
    let lengths : length (unlines (l ∷ ls)) ≡ length l + suc (length (unlines ls)) =
      length-append l (b'\n' ∷ unlines ls) in
    let whole : more ++ unlines ls ≡ text ++ unlines (l ∷ ls) =
      append_assoc text (l ++ (b'\n' ∷ [])) (unlines ls)
      ∙ ap (◌++◌ text) (append_assoc l (b'\n' ∷ []) (unlines ls)) in
    ap (λ s. read_text (suc fuel) text (record { left = s; eof = b }))
      (append_assoc l (b'\n' ∷ unlines ls) (behind_text es (source es)))
    ∙ read_text-line fuel text l (unlines ls ++ behind_text es (source es)) b p.0 (omega arith)
    ∙ read_text-lines fuel more ls es false (omega arith) p.1
        (omega (arith, length-append text (l ++ (b'\n' ∷ [])), length-append l (b'\n' ∷ [])))
    ∙ ap (λ t. some (t, record { left = source es; eof = is_empty es })) whole
