-- ===== src/Shell3/Run/Child.antt =====
-- Which program the child becomes, and when the parent waits for it.
use network_system_programmi.Prelude.{
  true, false, List, [], ◌∷◌, ◌++◌, ◌≡◌, ◌⊎◌, refl, inl, inr, map,
}
use network_system_programmi.Prelude.Bytes.{Bytes, codes, equal, equal_refl}
use network_system_programmi.Machine.{done, World, null, Os, load, strings, exec_strings, execvp}
use network_system_programmi.Shell.Cut.{Lacks, Cut, uncut, cut, Cut-words}
use network_system_programmi.Shell.Parse.{Argv}
use network_system_programmi.Shell.Parse.Safety.{owned, argv_of}
use network_system_programmi.Shell.Scan.{has_ampersand}
use network_system_programmi.Shell.Builtin.{from_one}
use network_system_programmi.Shell.Pipe.Outcomes.{Replaced, exec_strings-Replaced}
use network_system_programmi.Shell3.Run.{
  is_background, cut_ampersand, run_child, Status, report, run_parent,
}

abbrev pub ampersand : Bytes
ampersand = codes "&"

has_ampersand-uncut :
    (l : List Bytes) (w : World) → Lacks ampersand l → has_ampersand (argv_of l) w ≡ done (false, w)
unfolding has_ampersand
has_ampersand-uncut [] w h = refl
has_ampersand-uncut (s ∷ l) w h = rw (h.0, has_ampersand-uncut l w h.1)

has_ampersand-cut :
    (l r : List Bytes) (w : World)
    → Lacks ampersand l
    → has_ampersand (argv_of (l ++ (ampersand ∷ r))) w ≡ done (true, w)
unfolding has_ampersand
has_ampersand-cut [] r w h = rw (equal_refl ampersand)
has_ampersand-cut (s ∷ l) r w h = rw (h.0, has_ampersand-cut l r w h.1)

-- The cells up to the NULL, and what is left behind it.
abbrev halves : List Bytes → List Bytes → Argv
halves l r = map owned l ++ (null ∷ argv_of r)

cut_ampersand-cut :
    (l r : List Bytes) (w : World)
    → Lacks ampersand l
    → cut_ampersand (argv_of (l ++ (ampersand ∷ r))) w ≡ done (halves l r, w)
unfolding cut_ampersand
cut_ampersand-cut [] r w h = rw (equal_refl ampersand)
cut_ampersand-cut (s ∷ l) r w h = rw (h.0, cut_ampersand-cut l r w h.1)

strings_front :
    (l : List Bytes) (v : Argv) (w : World) → strings (map owned l ++ (null ∷ v)) w ≡ done (l, w)
unfolding strings
strings_front [] v w = refl
strings_front (s ∷ l) v w = rw (strings_front l v w)

execvp_front :
    (os : Os) (l : List Bytes) (v : Argv) (w : World)
    → execvp os (map owned l ++ (null ∷ v)) w ≡ exec_strings os l w
unfolding execvp
execvp_front os l v w = rw (strings_front l v w)

is_background_tail :
    (s : Bytes) (l : List Bytes) (w : World)
    → is_background (argv_of (s ∷ l)) w ≡ has_ampersand (argv_of l) w
unfolding is_background load from_one
is_background_tail s l w = refl

-- The command of a line: all its words, or those in front of the first `&`.
pub data Launch : List Bytes → List Bytes → Type 0 where
  whole : {ws : List Bytes} → Lacks ampersand ws → Launch ws ws
  front : (l r : List Bytes) → Lacks ampersand l → Launch (l ++ (ampersand ∷ r)) l

-- A line whose first word is not `&`: the child becomes the command in front of the first `&`, or of
-- all the words if there is none, with its descriptors as they are, or exits with the errno of execvp.
pub run_child-Launch :
    (os : Os) (s : Bytes) (l : List Bytes) (w : World)
    → equal s ampersand ≡ false
    → (us : List Bytes) × Launch (s ∷ l) us × Replaced os us w (run_child os (argv_of (s ∷ l)) w)
unfolding run_child
run_child-Launch os s l w h = launched (Cut-words ampersand l)
  where
    launched :
        {us : List Bytes}
        → Cut ampersand us
        → (vs : List Bytes) × Launch (s ∷ us) vs
          × Replaced os vs w (run_child os (argv_of (s ∷ us)) w)
    launched (uncut us k) = (
      s ∷ us,
      whole (h, k),
      rw (is_background_tail s us w, has_ampersand-uncut us w k, execvp_front os (s ∷ us) [] w)
          (exec_strings-Replaced os s us w),
    )
    launched (cut us r k) = (
      s ∷ us,
      front (s ∷ us) r (h, k),
      rw
          (
            is_background_tail s (us ++ (ampersand ∷ r)) w,
            has_ampersand-cut us r w k,
            cut_ampersand-cut (s ∷ us) r w (h, k),
            execvp_front os (s ∷ us) (argv_of r) w,
          )
          (exec_strings-Replaced os s us w),
    )

-- The parent of a line with a word comes back at once if a word behind the first is `&`; otherwise
-- it waits and prints how the child ended, or exits with status 1 where waitpid fails.
pub run_parent-report :
    (stat : Status) (s : Bytes) (l : List Bytes) (w : World)
    → (((u r : List Bytes) × (l ≡ u ++ (ampersand ∷ r)))
        × (run_parent stat (argv_of (s ∷ l)) w ≡ done (tt, w)))
      ⊎ (Lacks ampersand l × (run_parent stat (argv_of (s ∷ l)) w ≡ report stat w))
unfolding run_parent
run_parent-report stat s l w = waited (Cut-words ampersand l)
  where
    waited :
        {us : List Bytes}
        → Cut ampersand us
        → (((u r : List Bytes) × (us ≡ u ++ (ampersand ∷ r)))
            × (run_parent stat (argv_of (s ∷ us)) w ≡ done (tt, w)))
          ⊎ (Lacks ampersand us × (run_parent stat (argv_of (s ∷ us)) w ≡ report stat w))
    waited (uncut us k) = inr (k, rw (is_background_tail s us w, has_ampersand-uncut us w k) refl)
    waited (cut us r k) = inl (
      (us, r, refl),
      rw (is_background_tail s (us ++ (ampersand ∷ r)) w, has_ampersand-cut us r w k) refl,
    )
