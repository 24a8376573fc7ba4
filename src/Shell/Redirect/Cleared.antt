-- ===== src/Shell/Redirect/Cleared.antt =====
-- What a redirection does to the argument array and to the standard descriptors.
use native.Mathlib.Numerals.{towards_suc}
use network_system_programmi.Prelude.{
  ℕ, suc, ◌+◌, true, false, List, [], ◌∷◌, ◌++◌, ◌≡◌, refl, inl, inr, length, map, replicate,
  Bool-cases,
}
use network_system_programmi.Prelude.Bytes.{Bytes, codes, equal_refl, decimal}
use network_system_programmi.Prelude.Int.{ℤ, pos, negsuc}
use network_system_programmi.Machine.{Outcome, done, exits, World, file, null, Os, load}
use network_system_programmi.Shell.Cut.{Lacks, Cut, uncut, cut, Cut-words}
use network_system_programmi.Shell.Parse.{Argv}
use network_system_programmi.Shell.Parse.Safety.{owned, argv_of}
use network_system_programmi.Shell.Redirect.{
  clear, open_or_exit, input_from, redirect_in, redirect_out,
}

abbrev pub less : Bytes
less = codes "<"

-- The array whose first words are `l` and whose other cells, `n` of them, are all NULL.
abbrev pub cut_off : List Bytes → ℕ → Argv
cut_off l n = map owned l ++ replicate n null

clear-argv_of :
    (ws : List Bytes) (w : World)
    → clear (argv_of ws) w ≡ done (replicate (suc (length ws)) null, w)
unfolding clear
clear-argv_of [] w = refl
clear-argv_of (s ∷ ws) w = rw (clear-argv_of ws w)

-- The ways out of redirect_in, by the place of the first `<` among the words.
pub data Redirects (os : Os) (w : World) : List Bytes → Outcome ((ℤ × Argv) × World) → Type 0 where
  absent : (ws : List Bytes) → Lacks less ws → Redirects os w ws (done ((negsuc 0, argv_of ws), w))
  unnamed : (l : List Bytes) → Lacks less l → Redirects os w (l ++ (less ∷ [])) (exits 1)
  refused :
      (l : List Bytes) (f : Bytes) (r : List Bytes)
      → Lacks less l
      → os.can_open f ≡ false
      → Redirects os w (l ++ (less ∷ f ∷ r)) (exits 1)
  taken :
      (l : List Bytes) (f : Bytes) (r : List Bytes)
      → Lacks less l
      → os.can_open f ≡ true
      → Redirects os w
          (l ++ (less ∷ f ∷ r))
          (done ((pos 0, cut_off l (length r + 3)), record w { fd0 = file f }))

module _ (os : Os) where
  pub redirect_in-uncut :
      (ws : List Bytes) (w : World)
      → Lacks less ws
      → redirect_in os (argv_of ws) w ≡ done ((negsuc 0, argv_of ws), w)
  unfolding redirect_in
  redirect_in-uncut [] w h = refl
  redirect_in-uncut (s ∷ ws) w h = rw (h.0, redirect_in-uncut ws w h.1)

  redirect_in_unnamed :
      (l : List Bytes) (w : World)
      → Lacks less l
      → redirect_in os (argv_of (l ++ (less ∷ []))) w ≡ exits 1
  unfolding redirect_in load open_or_exit
  redirect_in_unnamed [] w h = rw (equal_refl less)
  redirect_in_unnamed (s ∷ l) w h = rw (h.0, redirect_in_unnamed l w h.1)

  redirect_in_refused :
      (l : List Bytes) (f : Bytes) (r : List Bytes) (w : World)
      → Lacks less l
      → os.can_open f ≡ false
      → redirect_in os (argv_of (l ++ (less ∷ f ∷ r))) w ≡ exits 1
  unfolding redirect_in load open_or_exit
  redirect_in_refused [] f r w h e = rw (equal_refl less, e)
  redirect_in_refused (s ∷ l) f r w h e = rw (h.0, redirect_in_refused l f r w h.1 e)

  pub redirect_in_taken :
      (l : List Bytes) (f : Bytes) (r : List Bytes) (w : World)
      → Lacks less l
      → os.can_open f ≡ true
      → redirect_in os (argv_of (l ++ (less ∷ f ∷ r))) w
        ≡ done ((pos 0, cut_off l (length r + 3)), record w { fd0 = file f })
  unfolding redirect_in load open_or_exit input_from
  redirect_in_taken [] f r w h e =
      rw (equal_refl less, e, clear-argv_of (less ∷ f ∷ r)) (simp towards_suc)
  redirect_in_taken (s ∷ l) f r w h e = rw (h.0, redirect_in_taken l f r w h.1 e)

  -- redirect_in reads nothing outside the array. With no `<` it returns -1 and changes nothing;
  -- with a name behind the first `<` it takes the input from that file and returns 0, and then
  -- every word from the `<` on is gone, also those behind the name; with no name, or one that does
  -- not open, the process exits with status 1.
  pub redirect_in-Redirects :
      (ws : List Bytes) (w : World) → Redirects os w ws (redirect_in os (argv_of ws) w)
  redirect_in-Redirects ws w = by_place (Cut-words less ws)
    where
      by_place : {us : List Bytes} → Cut less us → Redirects os w us (redirect_in os (argv_of us) w)
      by_place (uncut us h) = rw (redirect_in-uncut us w h) (absent us h)
      by_place (cut l [] h) = rw (redirect_in_unnamed l w h) (unnamed l h)
      by_place (cut l (f ∷ r) h) = elim (Bool-cases (os.can_open f)) [
        | inl e ↦ rw (redirect_in_taken l f r w h e) (taken l f r h e)
        | inr e ↦ rw (redirect_in_refused l f r w h e) (refused l f r h e)
      ]

abbrev pub greater : Bytes
greater = codes ">"

-- With no `>` among the words that a redirection left, redirect_out only prints and returns -1.
pub redirect_out-cut_off :
    (os : Os) (l : List Bytes) (n : ℕ) (w : World)
    → Lacks greater l
    → redirect_out os (cut_off l (suc n)) w
      ≡ done (
        (negsuc 0, cut_off l (suc n)),
        record w { out = w.out ++ (codes "redirect_in, errno: " ++ decimal os.errno) },
      )
unfolding redirect_out
redirect_out-cut_off os [] n w h = refl
redirect_out-cut_off os (s ∷ l) n w h = rw (h.0, redirect_out-cut_off os l n w h.1)
