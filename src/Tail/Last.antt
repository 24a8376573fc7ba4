-- ===== src/Tail/Last.antt =====
-- Which lines of a file tail writes (SP_HW2/SP_hw2_tail.c).
use network_system_programmi.Prelude.{
  ℕ, suc, ◌+◌, ◌-◌, ◌<◌, ◌≤◌, true, false, List, [], ◌∷◌, ◌++◌, none, some, ◌≡◌, refl, ◌∙◌, ap,
  arith, lt→ltb, length, take, drop, All, length-append, append_assoc, take-append_length,
  drop-append_length, append-nil,
}
use network_system_programmi.Prelude.Bytes.{Bytes}
use network_system_programmi.Prelude.Int.{ℤ, pos, ltb_ℤ}
use network_system_programmi.Machine.{done, exits}
use network_system_programmi.Tail.{
  buff_size, byte_at, eqb_ℤ, count_at, scan, offset_of, write_last, finish, print_tail,
}
use network_system_programmi.Tail.Count.{
  newlines, eqb-yes, scan_down, IsLine, unlines, newlines-unlines, unlines-append, drop_all,
  byte_at-here, byte_at_behind,
}

-- The last byte of some lines is a newline.
ends :
    (x : Bytes) (l : List Bytes) (s : Bytes)
    → (m : ℕ) × (length (unlines (x ∷ l)) ≡ suc m) × (byte_at (unlines (x ∷ l) ++ s) m ≡ b'\n')
ends x [] s = (
  length x,
  omega (arith, length-append x (b'\n' ∷ [])),
  rw (append_assoc x (b'\n' ∷ []) s) (byte_at-here x b'\n' s),
)
ends x (y ∷ l) s =
    let (m, e, b) = ends y l s in
    (
      length x + suc m,
      omega (arith, e, length-append x (b'\n' ∷ unlines (y ∷ l))),
      rw
          (
            append_assoc x (b'\n' ∷ unlines (y ∷ l)) s,
            byte_at_behind x b'\n' (unlines (y ∷ l) ++ s) m,
          )
          b,
    )

scan_stop :
    (buf : Bytes) (k m : ℕ) → byte_at buf m ≡ b'\n' → scan buf (pos k) (suc m) k ≡ (k + 1, some m)
unfolding scan count_at
scan_stop buf k m b = rw (scan, count_at, b, eqb-yes k)

scan_zero : (buf : Bytes) (k c : ℕ) → scan buf (pos k) 0 c ≡ (c, none)
unfolding scan
scan_zero buf k c = refl

-- The loop over the bytes from `i` on, if they hold at most `k` newlines.
scanned :
    (buf : Bytes) (k i : ℕ)
    → i ≤ length buf
    → newlines (drop i buf) ≤ k
    → scan buf (pos k) (length buf) 0 ≡ scan buf (pos k) i (newlines (drop i buf))
scanned buf k i h le = rw (drop_all buf) at (scan_down buf k (length buf) i h (omega arith) le)

finish_found :
    (buf : Bytes) (k m : ℕ) → finish buf (pos k) (k + 1, some m) ≡ write_last buf (length buf - m)
unfolding finish offset_of
finish_found buf k m = rw (not_equal, not_less)
  where
    not_equal : eqb_ℤ (pos (k + 1)) (pos k) ≡ false
    not_equal = ground arith

    not_less : ltb_ℤ (pos (k + 1)) (pos k) ≡ false
    not_less = ground arith

finish_whole :
    (buf : Bytes) (k : ℕ) → finish buf (pos k) (k, none) ≡ write_last buf (length buf + 1)
unfolding finish
finish_whole buf k = rw equal
  where
    equal : eqb_ℤ (pos k) (pos k) ≡ true
    equal = ground arith

finish_few : (buf : Bytes) (k c : ℕ) → c < k → finish buf (pos k) (c, none) ≡ exits 1
unfolding finish
finish_few buf k c h = rw (not_equal, less)
  where
    not_equal : eqb_ℤ (pos c) (pos k) ≡ false
    not_equal = ground arith

    less : ltb_ℤ (pos c) (pos k) ≡ true
    less = ground arith

take-length : (c : Bytes) → take (length c) c ≡ c
take-length c = rw (append-nil c) at (take-append_length c [])

write_last_append : (a b : Bytes) (n : ℕ) → n ≡ suc (length b) → write_last (a ++ b) n ≡ done b
unfolding write_last
write_last_append a b n e =
    let place : length (a ++ b) - length b ≡ length a = omega (arith, length-append a b) in
    rw (e, place, drop-append_length a b, take-length b)

print_tail_fits :
    (num : ℤ) (buf : Bytes)
    → length buf < buff_size
    → print_tail num buf ≡ finish buf num (scan buf num (length buf) 0)
unfolding print_tail
print_tail_fits num buf h = rw (lt→ltb (length buf) buff_size h)

last_of :
    (l r : List Bytes)
    → All IsLine r
    → length (unlines l ++ unlines r) < buff_size
    → print_tail (pos (length r)) (unlines l ++ unlines r) ≡ done (unlines r)
last_of [] r lines h =
    let count = newlines-unlines r lines in
    print_tail_fits (pos (length r)) (unlines r) h
    ∙ (ap (finish (unlines r) (pos (length r))) (
          scanned (unlines r) (length r) 0 (omega arith) (omega (arith, count))
          ∙ (ap (scan (unlines r) (pos (length r)) 0) count
              ∙ scan_zero (unlines r) (length r) (length r)))
        ∙ (finish_whole (unlines r) (length r)
            ∙ write_last_append [] (unlines r) (length (unlines r) + 1) (omega arith)))
last_of (x ∷ l) r lines h =
    let front = unlines (x ∷ l) in
    let buf = front ++ unlines r in
    let k = length r in
    let (m, e, b) = ends x l (unlines r) in
    let count : newlines (drop (length front) buf) ≡ k =
      ap newlines (drop-append_length front (unlines r)) ∙ newlines-unlines r lines in
    let size = length-append front (unlines r) in
    print_tail_fits (pos k) buf h
    ∙ (ap (finish buf (pos k)) (
          scanned buf k (length front) (omega (arith, size)) (omega (arith, count))
          ∙ (ap (scan buf (pos k) (length front)) count
              ∙ (ap (λ n. scan buf (pos k) n k) e ∙ scan_stop buf k m b)))
        ∙ (finish_found buf k m
            ∙ write_last_append front (unlines r) (length buf - m) (omega (arith, e, size))))

-- A file of lines, each with its newline, that is smaller than the buffer: with the number of its
-- last lines `r`, which hold no other newlines, exactly these lines are written.
pub print_tail-unlines :
    (l r : List Bytes)
    → All IsLine r
    → length (unlines (l ++ r)) < buff_size
    → print_tail (pos (length r)) (unlines (l ++ r)) ≡ done (unlines r)
print_tail-unlines l r lines h =
    rw (unlines-append l r) (last_of l r lines (rw (unlines-append l r) at h))

-- A file that is smaller than the buffer and has fewer newlines than lines are asked for: the
-- program exits with status 1.
pub print_tail_few :
    (k : ℕ) (buf : Bytes)
    → newlines buf < k
    → length buf < buff_size
    → print_tail (pos k) buf ≡ exits 1
print_tail_few k buf few h =
    print_tail_fits (pos k) buf h
    ∙ (ap (finish buf (pos k))
          (scanned buf k 0 (omega arith) (omega arith) ∙ scan_zero buf k (newlines buf))
        ∙ finish_few buf k (newlines buf) few)
