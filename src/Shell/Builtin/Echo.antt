-- ===== src/Shell/Builtin/Echo.antt =====
-- What the builtin echo prints.
use native.Mathlib.Decide.{dec_lt}
use network_system_programmi.Prelude.{
  ℕ, zero, suc, ◌+◌, true, false, List, [], ◌∷◌, ◌++◌, Option, none, some, ◌≡◌, ◌≢◌, refl, ap,
  arith, ◌<◌, ◌≤◌, length, get_elem?, append_assoc, append-nil, lt→ltb, Bool-cases, inl, inr,
}
use network_system_programmi.Prelude.Bytes.{Bytes, codes, equal, equal_iff, equal_refl}
use network_system_programmi.Prelude.Int.{ℤ, pos, negsuc, ◌+ℤ◌, ltb_ℤ}
use network_system_programmi.Libc.{atoi}
use network_system_programmi.Tokens.{join}
use network_system_programmi.Machine.{Outcome, done, exits, fault, World, load}
use network_system_programmi.Shell.Parse.Safety.{argv_of}
use network_system_programmi.Shell.Pipe.Outcomes.{strings-argv_of}
use network_system_programmi.Shell.Builtin.{
  print_words, load_at, print_string, print_nth, option_number, from_one, echo_with, echo,
}

-- Words, each behind a blank.
tail_text : List Bytes → Bytes
tail_text [] = []
tail_text (s ∷ ws) = b' ' ∷ (s ++ tail_text ws)

join-tail_text : (s : Bytes) (ws : List Bytes) → join (s ∷ ws) ≡ s ++ tail_text ws
unfolding join tail_text
join-tail_text s [] = rw append-nil
join-tail_text s (t ∷ ws) = ap (λ x. s ++ (b' ' ∷ x)) (join-tail_text t ws)

abbrev pub said : World → Bytes → World
said w s = record w { out = w.out ++ s }

print_words-later :
    (ws : List Bytes) (w : World)
    → print_words true (argv_of ws) w ≡ done (tt, said w (tail_text ws ++ codes "\n"))
unfolding print_words tail_text
print_words-later [] w = refl
print_words-later (s ∷ ws) w = rw (print_words-later ws (said w (b' ' ∷ s))) (simp append_assoc)

-- `echo` with words that do not begin with `-n` prints them joined by blanks, and a newline.
pub echo_words :
    (c s : Bytes) (ws : List Bytes) (w : World)
    → s ≢ codes "-n"
    → echo (argv_of (c ∷ s ∷ ws)) w ≡ done (tt, said w (join (s ∷ ws) ++ codes "\n"))
unfolding echo echo_with from_one print_words load
echo_words c s ws w h = elim (Bool-cases (equal s (codes "-n"))) [
  | inl e ↦ absurd (h ((equal_iff s (codes "-n")).0 e))
  | inr e ↦ rw (e, print_words-later, join-tail_text) (simp append_assoc)
]

-- The word that a number picks, counted from 1.
abbrev pub pick : ℤ → List Bytes → Option Bytes
pick (negsuc n) ws = none
pick (pos zero) ws = none
pick (pos (suc i)) ws = get_elem? ws i

abbrev pub Picked : World → Option Bytes → Outcome (Unit {0} × World) → Type 0
Picked w none r = r ≡ exits 1
Picked w (some s) r = r ≡ done (tt, said w (s ++ codes "\n"))

-- What `echo -n` does with the words behind the option.
abbrev pub OptionRuns : World → List Bytes → Outcome (Unit {0} × World) → Type 0
OptionRuns w [] r = r ≡ fault
OptionRuns w (a ∷ ws) r = Picked w (pick (atoi a) ws) r

load-argv_of :
    (ws : List Bytes) (i : ℕ) (w : World)
    → i < length ws
    → (s : Bytes) × (load (argv_of ws) i w ≡ done (some s, w)) × (get_elem? ws i ≡ some s)
unfolding load
load-argv_of [] i w h = elim h [ ]
load-argv_of (s ∷ ws) zero w h = (s, refl, refl)
load-argv_of (s ∷ ws) (suc i) w h = load-argv_of ws i w (omega arith)

get_elem?-none : (ws : List Bytes) (i : ℕ) → length ws ≤ i → get_elem? ws i ≡ none
get_elem?-none [] i h = refl
get_elem?-none (s ∷ ws) zero h = absurd (omega arith)
get_elem?-none (s ∷ ws) (suc i) h = get_elem?-none ws i (omega arith)

plus_two : (k : ℕ) → pos k +ℤ pos 2 ≡ pos (suc (suc k))
unfolding ◌+ℤ◌
plus_two k = ground arith

small_negative : (n : ℕ) → ltb_ℤ (pos 2) (negsuc n +ℤ pos 2) ≡ false
unfolding ◌+ℤ◌
small_negative n = ground arith

print_nth_found :
    (c d a : Bytes) (ws : List Bytes) (i : ℕ) (w : World)
    → i < length ws
    → (s : Bytes) × (get_elem? ws i ≡ some s)
      × (print_nth (argv_of (c ∷ d ∷ a ∷ ws)) (pos (suc (suc (suc i)))) w
          ≡ done (tt, said w (s ++ codes "\n")))
unfolding print_nth load_at print_string load
print_nth_found c d a ws i w h =
    let (s, loaded, found) = load-argv_of ws i w h in
    (
      s,
      found,
      rw (
        strings-argv_of (c ∷ d ∷ a ∷ ws),
        lt→ltb 2 (suc (suc (suc i)) + 0) (omega arith),
        lt→ltb (suc (suc (suc i)) + 0) (suc (suc (suc (length ws))) + 0) (omega arith),
        loaded,
      ),
    )

print_nth_beyond :
    (c d a : Bytes) (ws : List Bytes) (i : ℕ) (w : World)
    → length ws ≤ i
    → print_nth (argv_of (c ∷ d ∷ a ∷ ws)) (pos (suc (suc (suc i)))) w ≡ exits 1
unfolding print_nth
print_nth_beyond c d a ws i w h =
    let over : ltb_ℤ (pos (suc (suc (suc i)))) (pos (suc (suc (suc (length ws))))) ≡ false =
      ground arith in
    rw (strings-argv_of (c ∷ d ∷ a ∷ ws), lt→ltb 2 (suc (suc (suc i)) + 0) (omega arith), over)

print_nth-Picked :
    (c d a : Bytes) (ws : List Bytes) (z : ℤ) (w : World)
    → Picked w (pick z ws) (print_nth (argv_of (c ∷ d ∷ a ∷ ws)) (z +ℤ pos 2) w)
print_nth-Picked c d a ws (negsuc n) w =
    unfold print_nth in rw (strings-argv_of (c ∷ d ∷ a ∷ ws), small_negative n)
print_nth-Picked c d a ws (pos zero) w =
    rw (plus_two 0) (unfold print_nth in rw (strings-argv_of (c ∷ d ∷ a ∷ ws)))
print_nth-Picked c d a ws (pos (suc i)) w = rw (plus_two (suc i)) (elim (dec_lt i (length ws)) [
  | yes h ↦ let (s, found, printed) = print_nth_found c d a ws i w h in rw found printed
  | no h ↦ rw (get_elem?-none ws i (omega arith)) (print_nth_beyond c d a ws i w (omega arith))
])

-- `echo -n k` prints the k-th of the words behind the number, counted from 1, and a newline; if
-- there is no such word the whole shell exits with status 1; with no number it reads through NULL.
pub echo_option :
    (c : Bytes) (args : List Bytes) (w : World)
    → OptionRuns w args (echo (argv_of (c ∷ codes "-n" ∷ args)) w)
unfolding echo echo_with option_number load
echo_option c [] w = rw (equal_refl (codes "-n"))
echo_option c (a ∷ ws) w =
    rw (equal_refl (codes "-n")) (print_nth-Picked c (codes "-n") a ws (atoi a) w)
