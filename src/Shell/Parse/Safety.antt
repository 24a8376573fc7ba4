-- ===== src/Shell/Parse/Safety.antt =====
-- The bounds of parse, the words that it returns, and what free_argv gives back.
use native.Mathlib.Numerals.{add-one}
use network_system_programmi.Prelude.{
  lt→ltb, set, Option-cases, ap, length-append, ℕ, zero, suc, ◌+◌, ◌-◌, ◌<◌, List, [], ◌∷◌, ◌++◌,
  Option, none, some, ◌≡◌, refl, sym, All, is_empty, ◌∙◌, arith, inl, inr, Bool-cases,
  if◌then◌else◌, length, map, append-nil, append_assoc,
}
use network_system_programmi.Prelude.Bytes.{Bytes, codes, equal, equal_iff}
use network_system_programmi.Tokens.{is_delim, strtok, words, join}
use network_system_programmi.Tokens.Words.{IsWord, words-join, Splits, strtok-Splits, strtok-lt}
use network_system_programmi.Machine.{
  done, World, M, pure, Slot, uninit, null, str, Grants, resize, store, strcpy_new, free, Ensures,
  Ensures-bind, Ensures-malloc, Ensures-realloc, Ensures-map,
}
use network_system_programmi.Shell.Parse.{
  Argv, terminate, more, first, install, parse, free_strings, free_argv,
}

-- A string in a block of its own, with room for the NUL.
abbrev pub owned : Bytes → Slot
owned s = str (record { size = length s + 1; text = s })

-- The array for a list of words.
abbrev pub argv_of : List Bytes → Argv
argv_of ws = map owned ws ++ (null ∷ [])

resize_one : (v : Argv) → resize (length v + 1) v ≡ v ++ (uninit ∷ [])
unfolding resize
resize_one [] = refl
resize_one (x ∷ v) = rw (add-one, ← resize_one v, add-one)

set_end : (v : Argv) (y x : Slot) → set (v ++ (y ∷ [])) (length v) x ≡ v ++ (x ∷ [])
set_end [] y x = refl
set_end (z ∷ v) y x = ap (◌∷◌ z) (set_end v y x)

store_last :
    (v : Argv) (x : Slot) (w : World)
    → store (resize (length v + 1) v) (length v) x w ≡ done (v ++ (x ∷ []), w)
unfolding store
store_last v x w = rw (
  resize_one v,
  lt→ltb (length v) (length (v ++ (uninit ∷ []))) (omega (arith, length-append v (uninit ∷ []))),
  set_end v uninit x,
)

strcpy_fits : (s : Bytes) (w : World) → strcpy_new (length s + 1) s w ≡ done (owned s, w)
unfolding strcpy_new
strcpy_fits s w = rw (lt→ltb (length s) (length s + 1) (omega arith))

-- The loop's promise: the words left are appended, each in a block of its own.
abbrev Appended : Argv → List Bytes → World → (Argv × ℕ) × World → Type 0
Appended v ws w r =
    (r.0.0 ≡ v ++ map owned ws) × (r.0.1 ≡ length r.0.0) × (r.1.live ≡ w.live + length ws)

module _ (g : Grants) where
  install-Ensures :
      (t : Bytes) (v : Argv) (count : ℕ) (w : World)
      → count ≡ length v
      → Ensures g
          (install g t v count w)
          (λ r. (r.0 ≡ v ++ (owned t ∷ [])) × (r.1.live ≡ w.live + 1))
  unfolding install
  install-Ensures t v count w e =
      Ensures-realloc g _ w _
        (Ensures-malloc g _ _ _ (rw (strcpy_fits, e, store_last) (refl, refl)))

  more_step :
      (fuel : ℕ) (rest : Bytes) (v : Argv) (count : ℕ) (w : World) {t r : Bytes}
      (Q : (Argv × ℕ) × World → Type 0)
      → strtok rest ≡ some (t, r)
      → count ≡ length v
      → ((w' : World)
          → w'.live ≡ w.live + 1
          → Ensures g (more g fuel r (v ++ (owned t ∷ [])) (count + 1) w') Q)
      → Ensures g (more g (suc fuel) rest v count w) Q
  unfolding more
  more_step fuel rest v count w {t} Q e c h =
      rw (e, more)
        (Ensures-bind g _ Q (install g t v count w) _ (install-Ensures t v count w c)
          (λ a p. rw p.0 (h a.1 p.1)))

  more-Appended :
      (fuel : ℕ) (rest : Bytes) (v : Argv) (count : ℕ) (w : World)
      → length rest < fuel
      → count ≡ length v
      → Ensures g (more g fuel rest v count w) (Appended v (words rest) w)
  more-Appended zero rest v count w h c = absurd (omega arith)
  more-Appended (suc fuel) rest v count w h c = elim (Option-cases (strtok rest)) [
    | inl e ↦
        unfold more in
        rw (e, more)
          (let none_left : words rest ≡ [] = rw e at (strtok-Splits rest) in
            rw none_left (sym (append-nil v), c, omega arith))
    | inr ((t, r), e) ↦ more_step fuel rest v count w _ e c (λ w' l.
        Ensures-map g (Appended (v ++ (owned t ∷ [])) (words r) w') (Appended v (words rest) w) _
          (λ p a.
            rw ((rw e at (strtok-Splits rest))) (
              a.0 ∙ append_assoc v (owned t ∷ []) (map owned (words r)),
              a.1,
              omega (arith, a.2, l),
            ))
          (more-Appended fuel r (v ++ (owned t ∷ [])) (count + 1) w'
            (omega (arith, strtok-lt rest e)) (omega (arith, length-append v (owned t ∷ []), c))))
  ]

-- What `parse` hands back for the words of a line, and the blocks it leaves on the heap: a block for
-- each word, the array, and the block whose address the final NULL overwrites.
abbrev pub Parsed : List Bytes → World → Option Argv × World → Type 0
Parsed [] w r = (r.0 ≡ none) × (r.1.live ≡ w.live)
Parsed (t ∷ ws) w r = (r.0 ≡ some (argv_of (t ∷ ws))) × (r.1.live ≡ w.live + length ws + 3)

module _ (g : Grants) where
  terminate-Ensures :
      (v : Argv) (count : ℕ) (w : World)
      → count ≡ length v
      → Ensures g
          (terminate g v count w)
          (λ r. (r.0 ≡ some (v ++ (null ∷ []))) × (r.1.live ≡ w.live + 1))
  unfolding terminate
  terminate-Ensures v count w e =
      Ensures-realloc g _ w _ (Ensures-malloc g _ _ _ (rw (e, store_last) (refl, refl)))

  store_first : (x : Slot) (w : World) → store (uninit ∷ []) 0 x w ≡ done (x ∷ [], w)
  unfolding store
  store_first x w = refl

  first-Parsed :
      (o : Option (Bytes × Bytes)) (ws : List Bytes) (w : World)
      → Splits ws o
      → Ensures g (first g o w) (Parsed ws w)
  unfolding first
  first-Parsed none ws w s = rw s (refl, refl)
  first-Parsed (some (t, r)) ws w s = rw s (
      Ensures-malloc g _ w _ (
        Ensures-malloc g _ _ _ (
          rw (strcpy_fits, store_first)
            (Ensures-bind g _ _ (more g (suc (length r)) r (owned t ∷ []) 1 _) _
              (more-Appended g (suc (length r)) r (owned t ∷ []) 1 _ (omega arith) refl)
              (λ a p.
                Ensures-map g _ (Parsed (t ∷ words r) w) (terminate g a.0.0 a.0.1 a.1)
                  (λ b q. (q.0 ∙ ap (λ v. some (v ++ (null ∷ []))) p.0, omega (arith, p.2, q.1)))
                  (terminate-Ensures a.0.0 a.0.1 a.1 p.1))))))

  -- For every line and every allocator: parse either returns the words of the line, each in a
  -- block with room for its NUL, the array ended by NULL (no array if the line has no word), or a
  -- refused allocation ends the process with status 1. It never writes out of bounds.
  pub parse-Parsed : (line : Bytes) (w : World) → Ensures g (parse g line w) (Parsed (words line) w)
  unfolding parse
  parse-Parsed line w = elim (Bool-cases (equal line (codes "\n"))) [
    | inl e ↦ rw e (rw ((equal_iff line (codes "\n")).0 e) (unfold words is_delim in (refl, refl)))
    | inr e ↦ rw e (first-Parsed (strtok line) (words line) w (strtok-Splits line))
  ]

-- Words joined by blanks, with a newline behind them, are the words that parse returns, if each has
-- a byte at least and no delimiter; only a refused allocation ends the process before.
pub parse-join :
    (g : Grants) (ws : List Bytes) (w : World)
    → All IsWord ws
    → Ensures g (parse g (join ws ++ (b'\n' ∷ [])) w) (Parsed ws w)
parse-join g ws w a = rw (words-join ws a) at (parse-Parsed g (join ws ++ (b'\n' ∷ [])) w)

free_strings-argv_of :
    (ws : List Bytes) (w : World)
    → free_strings (argv_of ws) w ≡ done (tt, record w { live = w.live - length ws })
unfolding free_strings free
free_strings-argv_of [] w = ground arith
free_strings-argv_of (s ∷ ws) w =
    ground (arith, free_strings-argv_of ws (record w { live = w.live - 1 }))

pub free_argv-argv_of :
    (ws : List Bytes) (w : World)
    → free_argv (argv_of ws) w ≡ done (tt, record w { live = w.live - length ws - 1 })
unfolding free_argv free
free_argv-argv_of ws w = rw (free_strings-argv_of ws w)

-- What the main loop does with a line that is parsed and run: the array is freed if there is one.
abbrev pub free_parsed : Option Argv → M (Unit {0})
free_parsed none = pure tt
free_parsed (some v) = free_argv v

free_parsed-Parsed :
    (g : Grants) (ws : List Bytes) (w : World) (r : Option Argv × World)
    → Parsed ws w r
    → Ensures g (free_parsed r.0 r.1) (λ q. q.1.live ≡ w.live + (if is_empty ws then 0 else 1))
free_parsed-Parsed g [] w r p = rw p.0 (omega (arith, p.1))
free_parsed-Parsed g (s ∷ ws) w r p = rw (p.0, free_argv-argv_of (s ∷ ws) r.1) (omega (arith, p.1))

-- After parse and free_argv every line with a word has left one block more on the heap, and no other
-- line has; only a refused allocation ends the process before, and nothing is undefined.
pub free_argv-parse :
    (g : Grants) (line : Bytes) (w : World)
    → Ensures g (parse g line w) (λ r.
      Ensures g
        (free_parsed r.0 r.1)
        (λ q. q.1.live ≡ w.live + (if is_empty (words line) then 0 else 1)))
free_argv-parse g line w =
    Ensures-map g _ _ (parse g line w) (λ r p. free_parsed-Parsed g (words line) w r p)
      (parse-Parsed g line w)
