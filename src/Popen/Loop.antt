-- ===== src/Popen/Loop.antt =====
-- The search of my_pclose, over tables that hold a stack of streams with the newest on top.
use network_system_programmi.Prelude.{
  ℕ, zero, suc, ◌+◌, ◌≤◌, ◌<◌, Bool, true, false, not, ◌&&◌, List, [], ◌∷◌, none, some, ◌≡◌, refl,
  ap, ◌∙◌, arith, ◌==◌, length, set, get_elem?, get_elem?-set_ne,
}
use network_system_programmi.Prelude.Int.{negsuc}
use native.Mathlib.Decide.{ℕ_discrete}
use network_system_programmi.Popen.{
  FilePointer, Process, Waits, gives, same, close_found, pclose_loop,
}

-- A cell of the table that is not the stream sought.
abbrev pub Differs : FilePointer → Process → ℕ → Type 0
Differs f p j = (cell : FilePointer) × (get_elem? p.streams j ≡ some cell) × (same cell f ≡ false)

pub loop-unfound :
    (waits : Waits) (n i : ℕ) (f : FilePointer) (p : Process)
    → ((j : ℕ) → j < n + i → Differs f p j)
    → pclose_loop waits n i f p ≡ gives (negsuc 0) none p
unfolding pclose_loop
loop-unfound waits zero i f p h = refl
loop-unfound waits (suc n) i f p h =
    let (cell, e, d) = h i (omega arith) in
    rw (e, d, pclose_loop) (loop-unfound waits n (i + 1) f p (λ j l. h j (omega arith)))

pub loop-found :
    (waits : Waits) (n i m : ℕ) (f cell : FilePointer) (p : Process)
    → i ≤ m
    → m < n + i
    → ((j : ℕ) → j < m → Differs f p j)
    → get_elem? p.streams m ≡ some cell
    → same cell f ≡ true
    → pclose_loop waits n i f p ≡ close_found waits m (get_elem? p.pids m) f p
unfolding pclose_loop
loop-found waits zero i m f cell p l u h e s = absurd (omega arith)
loop-found waits (suc n) i m f cell p l u h e s = elim (ℕ_discrete i m) [
  | yes here ↦
      let e' : get_elem? p.streams i ≡ some cell = rw here e in
      rw (e', s, pclose_loop) (ap (λ k. close_found waits k (get_elem? p.pids k) f p) here)
  | no on ↦
      let (other, e', d) = h i (omega arith) in
      rw (e', d, pclose_loop)
        (loop-found waits n (i + 1) m f cell p (omega arith) (omega arith) h e s)
]

-- A stream with the process behind it, and the streams that are open, the newest first.
abbrev pub Entry : Type 0
Entry = ℕ × ℕ

abbrev pub is_fresh : ℕ → List Entry → Bool
is_fresh f [] = true
is_fresh f ((g, pid) ∷ st) = not (g == f) && is_fresh f st

abbrev pub Holds : List Entry → List FilePointer → List ℕ → Type 0
Holds [] streams pids = Unit {0}
Holds ((f, pid) ∷ st) streams pids =
    (get_elem? streams (length st) ≡ some (some f))
    × (get_elem? pids (length st) ≡ some pid)
    × (is_fresh f st ≡ true)
    × Holds st streams pids

-- What is written behind the stack does not touch it.
pub Holds-set :
    (st : List Entry) (streams : List FilePointer) (pids : List ℕ) (i : ℕ) (f : FilePointer)
    (pid : ℕ)
    → length st ≤ i
    → Holds st streams pids
    → Holds st (set streams i f) (set pids i pid)
Holds-set [] streams pids i f pid h c = c
Holds-set ((g, q) ∷ st) streams pids i f pid h c = (
  get_elem?-set_ne streams i (length st) f (λ e. omega arith) ∙ c.0,
  get_elem?-set_ne pids i (length st) pid (λ e. omega arith) ∙ c.1,
  c.2,
  Holds-set st streams pids i f pid (omega arith) c.3,
)

-- The cells of a stack differ from a stream that is not in it.
pub Holds-differs :
    (f : ℕ) (st : List Entry) (p : Process) (j : ℕ)
    → Holds st p.streams p.pids
    → is_fresh f st ≡ true
    → j < length st
    → Differs (some f) p j
Holds-differs f [] p j c h l = absurd (omega arith)
Holds-differs f ((g, q) ∷ st) p j c h l = elim (ℕ_discrete j (length st)) [
  | yes e ↦ (some g, rw e c.0, ground arith)
  | no n ↦ Holds-differs f st p j c.3 (ground arith) (omega arith)
]
