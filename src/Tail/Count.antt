-- ===== src/Tail/Count.antt =====
-- Newlines in the part of a buffer that the loop has passed.
use native.Mathlib.Decide.{ℕ_discrete}
use native.Mathlib.Nat.{zero-add}
use network_system_programmi.Prelude.{
  ℕ, zero, suc, ◌+◌, ◌<◌, ◌≤◌, Bool, true, false, List, [], ◌∷◌, ◌++◌, ◌≡◌, ◌≢◌, refl, sym, ◌∙◌, ap,
  arith, ◌==◌, if◌then◌else◌, length, drop, All, append_assoc, Bool-cases, inl, inr,
}
use network_system_programmi.Prelude.Bytes.{Bytes}
use network_system_programmi.Prelude.Int.{pos, ◌+ℤ◌, eq_of_parts, +ℤ_parts}
use network_system_programmi.Tail.{byte_at, eqb_ℤ, count_at, scan}

-- 1 for a newline
abbrev one_if : Bool → ℕ
one_if b = if b then 1 else 0

abbrev pub newlines : Bytes → ℕ
newlines [] = 0
newlines (c ∷ cs) = one_if (c == b'\n') + newlines cs

pub newlines-drop :
    (buf : Bytes) (i : ℕ)
    → i < length buf
    → newlines (drop i buf) ≡ one_if (byte_at buf i == b'\n') + newlines (drop (suc i) buf)
unfolding byte_at
newlines-drop [] i h = absurd (omega arith)
newlines-drop (c ∷ cs) zero h = refl
newlines-drop (c ∷ cs) (suc i) h = newlines-drop cs i (omega arith)

pub count_at-drop :
    (buf : Bytes) (i : ℕ)
    → i < length buf
    → count_at buf i (newlines (drop (suc i) buf)) ≡ newlines (drop i buf)
unfolding count_at
count_at-drop buf i h = elim (Bool-cases (byte_at buf i == b'\n')) [
  | inl e ↦ rw e (omega (arith, newlines-drop buf i h, ap one_if e))
  | inr e ↦ rw e (omega (arith, newlines-drop buf i h, ap one_if e))
]

pub newlines-suc : (buf : Bytes) (i : ℕ) → newlines (drop (suc i) buf) ≤ newlines (drop i buf)
newlines-suc [] i = omega arith
newlines-suc (c ∷ cs) zero = omega arith
newlines-suc (c ∷ cs) (suc i) = newlines-suc cs i

pub newlines_mono : (buf : Bytes) (n i : ℕ) → i ≤ n → newlines (drop n buf) ≤ newlines (drop i buf)
newlines_mono buf n i h = elim (ℕ_discrete i n) [
  | yes e ↦ rw e (omega arith)
  | no ne ↦ below n h ne
]
  where
    below : (n : ℕ) → i ≤ n → i ≢ n → newlines (drop n buf) ≤ newlines (drop i buf)
    below zero h ne = absurd (ne (omega arith))
    below (suc n) h ne = elim (ℕ_discrete i n) [
      | yes e ↦ rw e (newlines-suc buf n)
      | no q ↦ omega (arith, newlines-suc buf n, below n (omega arith) q)
    ]

pub plus_one : (k : ℕ) → pos k +ℤ pos 1 ≡ pos (k + 1)
plus_one k = eq_of_parts (pos k +ℤ pos 1) (pos (k + 1)) (omega (arith, +ℤ_parts (pos k) (pos 1)))

pub eqb-no : (c k : ℕ) → c ≤ k → eqb_ℤ (pos c) (pos k +ℤ pos 1) ≡ false
eqb-no c k h = rw (plus_one k) (ground arith)

pub eqb-yes : (k : ℕ) → eqb_ℤ (pos (k + 1)) (pos k +ℤ pos 1) ≡ true
eqb-yes k = rw (plus_one k) (ground arith)

-- One place that does not bring the count above `k`.
pub scan_on :
    (buf : Bytes) (k n : ℕ)
    → n < length buf
    → newlines (drop n buf) ≤ k
    → scan buf (pos k) (suc n) (newlines (drop (suc n) buf))
      ≡ scan buf (pos k) n (newlines (drop n buf))
unfolding scan
scan_on buf k n h le = rw (scan, count_at-drop buf n h, eqb-no (newlines (drop n buf)) k le)

pub scan_down :
    (buf : Bytes) (k n i : ℕ)
    → i ≤ n
    → n ≤ length buf
    → newlines (drop i buf) ≤ k
    → scan buf (pos k) n (newlines (drop n buf)) ≡ scan buf (pos k) i (newlines (drop i buf))
scan_down buf k zero i h l le = let same : i ≡ 0 = omega arith in rw same refl
scan_down buf k (suc n) i h l le = elim (ℕ_discrete i (suc n)) [
  | yes e ↦ rw e refl
  | no ne ↦
      scan_on buf k n (omega arith) (omega (arith, newlines_mono buf n i (omega arith), le))
      ∙ scan_down buf k n i (omega arith) (omega arith) le
]

-- A line without its newline.
abbrev pub IsLine : Bytes → Type 0
IsLine l = newlines l ≡ 0

abbrev pub unlines : List Bytes → Bytes
unlines [] = []
unlines (l ∷ ls) = l ++ (b'\n' ∷ unlines ls)

pub newlines-append : (a b : Bytes) → newlines (a ++ b) ≡ newlines a + newlines b
newlines-append [] b = omega arith
newlines-append (c ∷ a) b = omega (arith, newlines-append a b)

pub newlines-unlines : (ls : List Bytes) → All IsLine ls → newlines (unlines ls) ≡ length ls
newlines-unlines [] h = refl
newlines-unlines (l ∷ ls) h =
    omega (arith, newlines-append l (b'\n' ∷ unlines ls), h.0, newlines-unlines ls h.1)

pub unlines-append : (l r : List Bytes) → unlines (l ++ r) ≡ unlines l ++ unlines r
unlines-append [] r = refl
unlines-append (x ∷ l) r =
    rw (unlines-append l r) (sym (append_assoc x (b'\n' ∷ unlines l) (unlines r)))

pub byte_at-append : (a b : Bytes) (j : ℕ) → byte_at (a ++ b) (length a + j) ≡ byte_at b j
unfolding byte_at
byte_at-append [] b j = ap (byte_at b) (zero-add j)
byte_at-append (c ∷ a) b j =
    let next : suc (length a) + j ≡ suc (length a + j) = omega arith in
    rw next (byte_at-append a b j)

pub drop_all : (buf : Bytes) → drop (length buf) buf ≡ []
drop_all [] = refl
drop_all (c ∷ cs) = drop_all cs

pub byte_at-here : (a : Bytes) (c : ℕ) (b : Bytes) → byte_at (a ++ (c ∷ b)) (length a) ≡ c
unfolding byte_at
byte_at-here [] c b = refl
byte_at-here (x ∷ a) c b = byte_at-here a c b

pub byte_at_behind :
    (a : Bytes) (c : ℕ) (b : Bytes) (m : ℕ)
    → byte_at (a ++ (c ∷ b)) (length a + suc m) ≡ byte_at b m
unfolding byte_at
byte_at_behind a c b m = byte_at-append a (c ∷ b) (suc m)
