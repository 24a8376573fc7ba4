-- ===== src/Libc/Lines.antt =====
-- The lines that fgets takes from an input.
use network_system_programmi.Prelude.{
  ℕ, zero, suc, ◌<◌, ◌≤◌, [], ◌∷◌, ◌++◌, none, some, ◌≡◌, ◌≢◌, refl, ap, inl, inr, arith, false,
  ◌==◌, All, length, Bool-cases,
}
use network_system_programmi.Prelude.Bytes.{Bytes, cstr}
use network_system_programmi.Libc.{read_line, fgets}

length-read_line : (n : ℕ) (input : Bytes) → length (read_line n input).1 ≤ length input
unfolding read_line
length-read_line zero input = omega arith
length-read_line (suc n) [] = omega arith
length-read_line (suc n) (c ∷ cs) = ground (arith, length-read_line n cs)

-- Each line takes a byte at least.
pub fgets-lt :
    (n : ℕ) (input : Bytes) {line rest : Bytes}
    → fgets (suc n) input ≡ some (line, rest)
    → length rest < length input
unfolding fgets read_line
fgets-lt n [] e = cc
fgets-lt n (c ∷ cs) e = ground (arith, length-read_line n cs)

read_line-append : (n : ℕ) (input : Bytes) → (read_line n input).0 ++ (read_line n input).1 ≡ input
unfolding read_line
read_line-append zero input = refl
read_line-append (suc n) [] = refl
read_line-append (suc n) (c ∷ cs) = elim (Bool-cases (c == b'\n')) [
  | inl e ↦ rw e refl
  | inr e ↦ rw e (ap (◌∷◌ c) (read_line-append n cs))
]

-- A line and what follows it are the input.
pub fgets-append :
    (n : ℕ) (input : Bytes) {line rest : Bytes}
    → fgets n input ≡ some (line, rest)
    → line ++ rest ≡ input
unfolding fgets
fgets-append n [] e = cc
fgets-append n (c ∷ cs) e = ground (arith, read_line-append n (c ∷ cs))

pub fgets-none : (n : ℕ) (input : Bytes) → fgets n input ≡ none → input ≡ []
unfolding fgets
fgets-none n [] e = refl
fgets-none n (c ∷ cs) e = cc

-- Bytes without a NUL, and what a part of them is as a C string.
abbrev pub NoNul : Bytes → Type 0
NoNul = All (λ c. c ≢ 0)

pub cstr-NoNul : (s : Bytes) → NoNul s → cstr s ≡ s
unfolding cstr
cstr-NoNul [] h = refl
cstr-NoNul (c ∷ s) h = ground (arith, cstr-NoNul s h.1)

pub NoNul-split : (s t : Bytes) → NoNul (s ++ t) → NoNul s × NoNul t
NoNul-split [] t h = (tt, h)
NoNul-split (c ∷ s) t h = let (a, b) = NoNul-split s t h.1 in ((h.0, a), b)

-- A byte of a word that is typed: no NUL and no newline.
abbrev pub IsTyped : ℕ → Type 0
IsTyped c = ((c == 0) ≡ false) × ((c == b'\n') ≡ false)

pub read_line-typed :
    (n : ℕ) (w rest : Bytes)
    → All IsTyped w
    → length w < n
    → read_line n (w ++ (b'\n' ∷ rest)) ≡ (w ++ (b'\n' ∷ []), rest)
unfolding read_line
read_line-typed zero w rest a h = absurd (omega arith)
read_line-typed (suc n) [] rest a h = refl
read_line-typed (suc n) (c ∷ w) rest a h = rw (a.0.1, read_line-typed n w rest a.1 (omega arith))

pub fgets_line :
    (n : ℕ) (w rest : Bytes)
    → fgets n (w ++ (b'\n' ∷ rest)) ≡ some (read_line n (w ++ (b'\n' ∷ rest)))
unfolding fgets
fgets_line n [] rest = refl
fgets_line n (c ∷ w) rest = refl
