-- ===== src/Shell/Scan/Facts.antt =====
-- What the searches find in the argument array of a list of words.
use native.Mathlib.Nat.{zero-add}
use mathlib.Core.Bool.{false≢true}
use network_system_programmi.Prelude.{
  ◌∙◌, ◌↔◌, sym, ℕ, zero, suc, ◌+◌, Bool, true, false, List, [], ◌∷◌, ◌++◌, none, some, ◌≡◌, refl,
  arith, ◌⊎◌, inl, inr, length, Bool-cases,
}
use network_system_programmi.Prelude.Bytes.{Bytes, codes, equal, equal_iff, equal_refl}
use network_system_programmi.Prelude.Int.{ℤ, pos, negsuc}
use network_system_programmi.Machine.{World, done, load}
use network_system_programmi.Shell.Cut.{Lacks, Cut, uncut, cut, Cut-words}
use network_system_programmi.Shell.Parse.{Argv}
use network_system_programmi.Shell.Parse.Safety.{argv_of}
use network_system_programmi.Shell.Scan.{
  has_ampersand, is_background, find_bar, classify, pipe_present,
}

abbrev pub bar : Bytes
bar = codes "|"

-- The three answers of pipe_present, by the place of the first bar among the words.
pub data PipeIn : List Bytes → ℤ → Type 0 where
  empty : PipeIn [] (negsuc 0)
  front : (r : List Bytes) → PipeIn (bar ∷ r) (negsuc 0)
  absent : (w : Bytes) (ws : List Bytes) → Lacks bar (w ∷ ws) → PipeIn (w ∷ ws) (pos 0)
  back : (l : List Bytes) → Lacks bar l → PipeIn (l ++ (bar ∷ [])) (negsuc 0)
  middle :
      (w : Bytes) (l : List Bytes) (t : Bytes) (r : List Bytes)
      → Lacks bar (w ∷ l)
      → PipeIn (w ∷ (l ++ (bar ∷ t ∷ r))) (pos (length (w ∷ l)))

find_bar-uncut :
    (ws : List Bytes) (i : ℕ) (w : World)
    → Lacks bar ws
    → find_bar (argv_of ws) i w ≡ done (i + length ws, w)
unfolding find_bar
find_bar-uncut [] i w h = ground arith
find_bar-uncut (s ∷ ws) i w h = rw (h.0, find_bar-uncut ws (i + 1) w h.1) (ground arith)

find_bar-cut :
    (l r : List Bytes) (i : ℕ) (w : World)
    → Lacks bar l
    → find_bar (argv_of (l ++ (bar ∷ r))) i w ≡ done (i + length l, w)
unfolding find_bar
find_bar-cut [] r i w h = rw (equal_refl bar) (ground arith)
find_bar-cut (s ∷ l) r i w h = rw (h.0, find_bar-cut l r (i + 1) w h.1) (ground arith)

load-argv_of_append :
    (l r : List Bytes) (j k : ℕ) (w : World)
    → j ≡ length l + k
    → load (argv_of (l ++ r)) j w ≡ load (argv_of r) k w
unfolding load
load-argv_of_append [] r j k w e = let e' : j ≡ k = omega arith in rw e'
load-argv_of_append (s ∷ l) r zero k w e = absurd (omega arith)
load-argv_of_append (s ∷ l) r (suc j) k w e = load-argv_of_append l r j k w (omega arith)

load-argv_of_end : (ws : List Bytes) (w : World) → load (argv_of ws) (length ws) w ≡ done (none, w)
unfolding load
load-argv_of_end [] w = refl
load-argv_of_end (s ∷ ws) w = load-argv_of_end ws w

load_word : (t : Bytes) (r : List Bytes) (w : World) → load (argv_of (t ∷ r)) 0 w ≡ done (some t, w)
unfolding load
load_word t r w = refl

load_nil : (w : World) → load (argv_of []) 0 w ≡ done (none, w)
unfolding load
load_nil w = refl

load_second :
    (s t : Bytes) (r : List Bytes) (w : World) → load (argv_of (s ∷ t ∷ r)) 1 w ≡ done (some t, w)
unfolding load
load_second s t r w = refl

load_after : (s : Bytes) (w : World) → load (argv_of (s ∷ [])) 1 w ≡ done (none, w)
unfolding load
load_after s w = refl

classify_end : (ws : List Bytes) (w : World) → classify (argv_of ws) (length ws) w ≡ done (pos 0, w)
unfolding classify
classify_end ws w = rw (load-argv_of_end ws w)

classify_back :
    (l : List Bytes) (w : World)
    → classify (argv_of (l ++ (bar ∷ []))) (length l) w ≡ done (negsuc 0, w)
unfolding classify
classify_back l w = rw (
  load-argv_of_append l (bar ∷ []) (length l) 0 w (omega arith),
  load_word bar [] w,
  load-argv_of_append l (bar ∷ []) (length l + 1) 1 w (omega arith),
  load_after bar w,
)

classify_middle :
    (l : List Bytes) (t : Bytes) (r : List Bytes) (w : World)
    → classify (argv_of (l ++ (bar ∷ t ∷ r))) (length l) w ≡ done (pos (length l), w)
unfolding classify
classify_middle l t r w = rw (
  load-argv_of_append l (bar ∷ t ∷ r) (length l) 0 w (omega arith),
  load_word bar (t ∷ r) w,
  load-argv_of_append l (bar ∷ t ∷ r) (length l + 1) 1 w (omega arith),
  load_second bar t r w,
)

-- pipe_present is its second half, at the index that the loop finds.
pub pipe_present-find :
    (v : Argv) (i : ℕ) (w : World)
    → find_bar v 0 w ≡ done (suc i, w)
    → pipe_present v w ≡ classify v (suc i) w
unfolding pipe_present
pipe_present-find v i w e = rw e (ground arith)

pipe_present_front :
    (ws : List Bytes) (w : World)
    → find_bar (argv_of ws) 0 w ≡ done (0, w)
    → pipe_present (argv_of ws) w ≡ done (negsuc 0, w)
unfolding pipe_present
pipe_present_front ws w e = rw e

-- pipe_present reads no cell outside the array, changes nothing, and tells where the first bar
-- stands: -1 if there are no words or it is the first or the last word, 0 if there is none, and
-- otherwise the number of words before it.
pub pipe_present-PipeIn :
    (ws : List Bytes) (w : World)
    → (r : ℤ) × (pipe_present (argv_of ws) w ≡ done (r, w)) × PipeIn ws r
pipe_present-PipeIn ws w = located (Cut-words bar ws)
  where
    located :
        {us : List Bytes}
        → Cut bar us
        → (r : ℤ) × (pipe_present (argv_of us) w ≡ done (r, w)) × PipeIn us r
    located (uncut [] h) = (negsuc 0, pipe_present_front [] w (find_bar-uncut [] 0 w tt), empty)
    located (uncut (s ∷ us) h) = (
      pos 0,
      pipe_present-find (argv_of (s ∷ us)) (length us) w
            (rw zero-add at (find_bar-uncut (s ∷ us) 0 w h))
          ∙ classify_end (s ∷ us) w,
      absent s us h,
    )
    located (cut [] r h) =
        (negsuc 0, pipe_present_front (bar ∷ r) w (find_bar-cut [] r 0 w tt), front r)
    located (cut (s ∷ l) [] h) = (
      negsuc 0,
      pipe_present-find (argv_of (s ∷ (l ++ (bar ∷ [])))) (length l) w
            (rw zero-add at (find_bar-cut (s ∷ l) [] 0 w h))
          ∙ classify_back (s ∷ l) w,
      back (s ∷ l) h,
    )
    located (cut (s ∷ l) (t ∷ r) h) = (
      pos (length (s ∷ l)),
      pipe_present-find (argv_of (s ∷ (l ++ (bar ∷ t ∷ r)))) (length l) w
            (rw zero-add at (find_bar-cut (s ∷ l) (t ∷ r) 0 w h))
          ∙ classify_middle (s ∷ l) t r w,
      middle s l t r h,
    )

-- A word is `s`.
abbrev pub Among : Bytes → List Bytes → Type 0
Among s [] = ⊥
Among s (w ∷ ws) = (w ≡ s) ⊎ Among s ws

has_ampersand-Among :
    (ws : List Bytes) (w : World)
    → (b : Bool) × (has_ampersand (argv_of ws) w ≡ done (b, w))
      × ((b ≡ true) ↔ Among (codes "&") ws)
unfolding has_ampersand
has_ampersand-Among [] w = (false, refl, ((λ e. cc), (λ a. absurd a)))
has_ampersand-Among (s ∷ ws) w = elim (Bool-cases (equal s (codes "&"))) [
  | inl e ↦ (true, rw e, ((λ q. inl ((equal_iff s (codes "&")).0 e)), (λ a. refl)))
  | inr e ↦
      let (b, ran, among) = has_ampersand-Among ws w in
      (b, rw e ran, ((λ q. inr (among.0 q)), later e among.1))
]
  where
    later :
        {b : Bool}
        → equal s (codes "&") ≡ false
        → (Among (codes "&") ws → b ≡ true)
        → Among (codes "&") (s ∷ ws)
        → b ≡ true
    later e k (inl q) = absurd (false≢true (sym e ∙ (equal_iff s (codes "&")).1 q))
    later e k (inr a) = k a

-- is_background answers whether some word is `&`, and changes nothing.
pub is_background-Among :
    (ws : List Bytes) (w : World)
    → (b : Bool) × (is_background (argv_of ws) w ≡ done (b, w))
      × ((b ≡ true) ↔ Among (codes "&") ws)
unfolding is_background
is_background-Among [] w = (false, rw (load_nil w), ((λ e. cc), (λ a. absurd a)))
is_background-Among (s ∷ ws) w =
    let (b, ran, among) = has_ampersand-Among (s ∷ ws) w in (b, rw (load_word s ws w) ran, among)
