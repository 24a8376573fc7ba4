-- ===== src/Shell/Pipe/Outcomes.antt =====
-- What pipe_and_exec does on the words of a command line.
use network_system_programmi.Prelude.{
  ℕ, zero, suc, false, List, [], ◌∷◌, ◌++◌, none, some, ◌≡◌, refl, arith, ◌⊎◌, inl, inr, length,
  Bool-cases, Option-cases,
}
use network_system_programmi.Prelude.Bytes.{Bytes}
use network_system_programmi.Prelude.Int.{ℤ, pos, negsuc}
use network_system_programmi.Machine.{
  Outcome, done, exits, execs, fault, bind_outcome, World, Os, malloc, strcpy_new, strings,
  exec_strings, execvp, load,
}
use network_system_programmi.Shell.Parse.{Argv}
use network_system_programmi.Shell.Parse.Safety.{argv_of}
use network_system_programmi.Shell.Scan.{pipe_present}
use network_system_programmi.Shell.Scan.Facts.{
  bar, PipeIn, empty, front, absent, back, middle, pipe_present-PipeIn,
}
use network_system_programmi.Shell.Pipe.{einval, copy_word, copy_left, split, pipe_and_exec}

-- The process is replaced, or execvp failed and its errno is the exit status.
abbrev pub Replaced : Os → List Bytes → World → {A : Type 0} → Outcome A → Type 0
Replaced os ws w r =
    ((os.exec_errno ws ≡ none) × (r ≡ execs ws w))
    ⊎ ((e : ℕ) × (os.exec_errno ws ≡ some e) × (r ≡ exits e))

-- Memory is written out of bounds, unless the allocator refuses a request before that.
abbrev pub Overflows : Os → {A : Type 0} → Outcome A → Type 0
Overflows os r = (r ≡ fault) ⊎ ((r ≡ exits 1) × ((k : ℕ) × (os.grants k ≡ false)))

Overflows-bind :
    (os : Os) {A B : Type 0} (m : Outcome A) (f : A → Outcome B)
    → Overflows os m
    → Overflows os (bind_outcome m f)
Overflows-bind os m f (inl e) = inl (rw e)
Overflows-bind os m f (inr (e, k)) = inr (rw e, k)

Overflows-malloc :
    (os : Os) {B : Type 0} (w : World) (k : World → Outcome B)
    → ((w' : World) → Overflows os (k w'))
    → Overflows os (bind_outcome (malloc os.grants w) (λ r. k r.1))
unfolding malloc
Overflows-malloc os w k h = elim (Bool-cases (os.grants w.calls)) [
  | inl e ↦ rw e (h _)
  | inr e ↦ rw e (inr (refl, (w.calls, e)))
]

-- strlen leaves no room for the NUL that strcpy writes.
strcpy_new_tight : (s : Bytes) (w : World) → strcpy_new (length s) s w ≡ fault
unfolding strcpy_new
strcpy_new_tight s w = ground arith

copy_word-Overflows : (os : Os) (s : Bytes) (w : World) → Overflows os (copy_word os (some s) w)
unfolding copy_word
copy_word-Overflows os s w = Overflows-malloc os w _ (λ w'. inl (strcpy_new_tight s w'))

load_first :
    (s : Bytes) (ws : List Bytes) (w : World) → load (argv_of (s ∷ ws)) 0 w ≡ done (some s, w)
unfolding load
load_first s ws w = refl

copy_left-Overflows :
    (os : Os) (s : Bytes) (ws : List Bytes) (k : ℕ) (left : Argv) (w : World)
    → Overflows os (copy_left os (argv_of (s ∷ ws)) (suc k) 0 left w)
unfolding copy_left
copy_left-Overflows os s ws k left w =
    rw load_first (Overflows-bind os (copy_word os (some s) w) _ (copy_word-Overflows os s w))

split-Overflows :
    (os : Os) (s : Bytes) (ws : List Bytes) (k : ℕ) (w : World)
    → Overflows os (split os (argv_of (s ∷ ws)) (suc k) w)
unfolding split
split-Overflows os s ws k w = Overflows-malloc os w _ (λ w'.
    Overflows-bind os (copy_left os (argv_of (s ∷ ws)) (suc k) 0 _ w') _
      (copy_left-Overflows os s ws k _ w'))

pub strings-argv_of : (ws : List Bytes) (w : World) → strings (argv_of ws) w ≡ done (ws, w)
unfolding strings
strings-argv_of [] w = refl
strings-argv_of (s ∷ ws) w = rw (strings-argv_of ws w)

execvp-argv_of :
    (os : Os) (s : Bytes) (ws : List Bytes) (w : World)
    → execvp os (argv_of (s ∷ ws)) w ≡ exec_strings os (s ∷ ws) w
unfolding execvp
execvp-argv_of os s ws w = rw (strings-argv_of (s ∷ ws) w)

pub exec_strings-Replaced :
    (os : Os) (s : Bytes) (ws : List Bytes) (w : World) {B : Type 0}
    → Replaced os (s ∷ ws) w (bind_outcome {B = B} (exec_strings os (s ∷ ws) w) (λ r. exits r.0))
unfolding exec_strings
exec_strings-Replaced os s ws w = elim (Option-cases (os.exec_errno (s ∷ ws))) [
  | inl e ↦ inl (e, rw (e, exec_strings))
  | inr (n, e) ↦ inr (n, e, rw (e, exec_strings))
]

-- What pipe_and_exec does, by the answer of pipe_present.
abbrev pub Ran : Os → List Bytes → World → ℤ → Outcome (ℕ × World) → Type 0
Ran os ws w (negsuc n) r = r ≡ exits einval
Ran os ws w (pos zero) r = Replaced os ws w r
Ran os ws w (pos (suc k)) r = Overflows os r

pipe_and_exec_missing :
    (os : Os) (fuel n : ℕ) (v : Argv) (w : World)
    → pipe_present v w ≡ done (negsuc n, w)
    → pipe_and_exec os (suc fuel) v w ≡ exits einval
unfolding pipe_and_exec
pipe_and_exec_missing os fuel n v w e = rw (e, pipe_and_exec)

pub pipe_and_exec_plain :
    (os : Os) (fuel : ℕ) (v : Argv) (w : World)
    → pipe_present v w ≡ done (pos 0, w)
    → pipe_and_exec os (suc fuel) v w ≡ bind_outcome (execvp os v w) (λ r. exits r.0)
unfolding pipe_and_exec
pipe_and_exec_plain os fuel v w e = rw (e, pipe_and_exec)

pipe_and_exec-Overflows :
    (os : Os) (fuel k : ℕ) (s : Bytes) (ws : List Bytes) (w : World)
    → pipe_present (argv_of (s ∷ ws)) w ≡ done (pos (suc k), w)
    → Overflows os (pipe_and_exec os (suc fuel) (argv_of (s ∷ ws)) w)
unfolding pipe_and_exec
pipe_and_exec-Overflows os fuel k s ws w e =
    rw (e, pipe_and_exec)
      (Overflows-bind os (split os (argv_of (s ∷ ws)) (suc k) w) _ (split-Overflows os s ws k w))

-- For every command line: with a bar at an end (or no words) the process exits with EINVAL; with
-- no bar it becomes the command, with all the words as arguments and the descriptors as they are,
-- or exits with the errno of execvp; with words on both sides of the first bar it writes past the
-- end of a heap block, unless the allocator refuses a request first.
pub pipe_and_exec-Ran :
    (os : Os) (fuel : ℕ) (ws : List Bytes) (w : World)
    → (z : ℤ) × PipeIn ws z × Ran os ws w z (pipe_and_exec os (suc fuel) (argv_of ws) w)
pipe_and_exec-Ran os fuel ws w =
    let (z, ran, p) = pipe_present-PipeIn ws w in (z, p, by_place p ran)
  where
    by_place :
        {us : List Bytes} {z : ℤ}
        → PipeIn us z
        → pipe_present (argv_of us) w ≡ done (z, w)
        → Ran os us w z (pipe_and_exec os (suc fuel) (argv_of us) w)
    by_place empty e = pipe_and_exec_missing os fuel 0 (argv_of []) w e
    by_place (front r) e = pipe_and_exec_missing os fuel 0 (argv_of (bar ∷ r)) w e
    by_place (absent s us h) e =
        rw (pipe_and_exec_plain os fuel (argv_of (s ∷ us)) w e, execvp-argv_of)
          (exec_strings-Replaced os s us w)
    by_place (back l h) e = pipe_and_exec_missing os fuel 0 (argv_of (l ++ (bar ∷ []))) w e
    by_place (middle s l t r h) e =
        pipe_and_exec-Overflows os fuel (length l) s (l ++ (bar ∷ t ∷ r)) w e
