-- ===== src/Shell3/Main/Ends.antt =====
-- How the whole program of SP_HW3 ends, by the lines of its input.
use network_system_programmi.Prelude.{
  ℕ, zero, suc, ◌+◌, ◌<◌, false, List, [], ◌∷◌, ◌++◌, Option, none, some, ◌≡◌, ◌≢◌, ◌⊎◌, refl, sym,
  ◌∙◌, inl, inr, arith, length, All, Option-cases, Bool-cases,
}
use network_system_programmi.Prelude.Bytes.{Bytes, codes, cstr}
use network_system_programmi.Tokens.{words}
use network_system_programmi.Libc.{fgets}
use network_system_programmi.Machine.{Outcome, done, exits, fault, bind_outcome, World, Grants}
use network_system_programmi.Libc.Lines.{fgets-lt}
use network_system_programmi.Shell.Main.Loop.{lines_of}
use network_system_programmi.Shell3.Parse.{parse}
use network_system_programmi.Shell3.Parse.Overrun.{parsed, parse-parsed}
use network_system_programmi.Shell3.Builtin.{Builtin}
use network_system_programmi.Shell3.Main.{Setting, long_line, run_parsed, main_loop, main}

-- Memory is written out of bounds, or a refused request ends the process with status 1 before.
abbrev pub Overruns : Grants → {A : Type 0} → Outcome A → Type 0
Overruns g r = (r ≡ fault) ⊎ ((r ≡ exits 1) × (k : ℕ) × (g k ≡ false))

-- A line of the input has a word.
abbrev pub HasWord : List Bytes → Type 0
HasWord [] = ⊥
HasWord (l ∷ ls) = (words l ≢ []) ⊎ HasWord ls

lines_of-none :
    (fuel : ℕ) (input : Bytes) → fgets long_line input ≡ none → lines_of (suc fuel) input ≡ []
unfolding lines_of
lines_of-none fuel input e = rw (e, lines_of)

lines_of-some :
    (fuel : ℕ) (input line rest : Bytes)
    → fgets long_line input ≡ some (line, rest)
    → lines_of (suc fuel) input ≡ cstr line ∷ lines_of fuel rest
unfolding lines_of
lines_of-some fuel input line rest e = rw (e, lines_of)

Overruns-bind :
    (g : Grants) {A B : Type 0} (m : Outcome A) (f : A → Outcome B)
    → Overruns g m
    → Overruns g (bind_outcome m f)
Overruns-bind g m f (inl e) = inl (rw e)
Overruns-bind g m f (inr (e, k, q)) = inr (rw e, k, q)

parsed-Overruns :
    (g : Grants) (t : Bytes) (ws : List Bytes) (w : World) → Overruns g (parsed g (t ∷ ws) w)
unfolding parsed
parsed-Overruns g t ws w = elim (Bool-cases (g w.calls)) [
  | inr e ↦ rw e (inr (refl, w.calls, e))
  | inl e ↦ elim (Bool-cases (g (w.calls + 1))) [
    | inr q ↦ rw (e, q) (inr (refl, w.calls + 1, q))
    | inl q ↦ rw (e, q) (inl refl)
  ]
]

-- How the loop ends on these lines.
abbrev Ends : Grants → List Bytes → Option Builtin → Outcome (Option Builtin × World) → Type 0
Ends g ls this r =
    (All (λ l. words l ≡ []) ls × (w : World) × (r ≡ done (this, w))) ⊎ (HasWord ls × Overruns g r)

module _ (s : Setting) where
  main_loop-none :
      (fuel : ℕ) (input : Bytes) (this : Option Builtin) (w : World)
      → fgets long_line input ≡ none
      → main_loop s (suc fuel) input this w ≡ done (this, w)
  unfolding main_loop
  main_loop-none fuel input this w e = rw (e, main_loop)

  parsed_nil : (g : Grants) (w : World) → parsed g [] w ≡ done (none, w)
  unfolding parsed
  parsed_nil g w = refl

  main_loop_blank :
      (fuel : ℕ) (input line rest : Bytes) (this : Option Builtin) (w : World)
      → fgets long_line input ≡ some (line, rest)
      → words (cstr line) ≡ []
      → main_loop s (suc fuel) input this w
        ≡ main_loop s fuel rest this (record w { out = w.out ++ codes "myshell -> " })
  unfolding main_loop run_parsed
  main_loop_blank fuel input line rest this w e h =
      rw (e, main_loop, parse-parsed s.os.grants (cstr line) w, h, parsed_nil s.os.grants w)

  main_loop_word :
      (fuel : ℕ) (input line rest : Bytes) (this : Option Builtin) (w : World) (t : Bytes)
      (ws : List Bytes)
      → fgets long_line input ≡ some (line, rest)
      → words (cstr line) ≡ t ∷ ws
      → Overruns s.os.grants (main_loop s (suc fuel) input this w)
  unfolding main_loop
  main_loop_word fuel input line rest this w t ws e h =
      rw (e, main_loop)
        (Overruns-bind s.os.grants (parse s.os.grants (cstr line) w) _
          (rw (parse-parsed s.os.grants (cstr line) w, h) (parsed-Overruns s.os.grants t ws w)))

  main_loop_line :
      (fuel : ℕ) (input line rest : Bytes) (this : Option Builtin) (w : World) (ls ws : List Bytes)
      → fgets long_line input ≡ some (line, rest)
      → words (cstr line) ≡ ws
      → ((w' : World) → Ends s.os.grants ls this (main_loop s fuel rest this w'))
      → Ends s.os.grants (cstr line ∷ ls) this (main_loop s (suc fuel) input this w)
  main_loop_line fuel input line rest this w ls (t ∷ ws) e h later =
      inr (inl (λ q. cons≢nil (sym h ∙ q)), main_loop_word fuel input line rest this w t ws e h)
    where
      cons≢nil : t ∷ ws ≡ [] → ⊥
      cons≢nil q = cc
  main_loop_line fuel input line rest this w ls [] e h later =
      rw (main_loop_blank fuel input line rest this w e h)
        (elim (later (record w { out = w.out ++ codes "myshell -> " })) [
          | inl (all, w', ends) ↦ inl ((h, all), w', ends)
          | inr (word, over) ↦ inr (inr word, over)
        ])

  main_loop-Ends :
      (fuel : ℕ) (input : Bytes) (this : Option Builtin) (w : World)
      → length input < fuel
      → Ends s.os.grants (lines_of fuel input) this (main_loop s fuel input this w)
  main_loop-Ends zero input this w h = absurd (omega arith)
  main_loop-Ends (suc fuel) input this w h = elim (Option-cases (fgets long_line input)) [
    | inl e ↦ rw (lines_of-none fuel input e) (inl (tt, w, main_loop-none fuel input this w e))
    | inr ((line, rest), e) ↦ rw (lines_of-some fuel input line rest e) (
        main_loop_line fuel input line rest this w (lines_of fuel rest) (words (cstr line)) e refl
          (λ w'. main_loop-Ends fuel rest this w' (omega (arith, fgets-lt 253 input e))))
  ]

  -- The shell comes to the end of its input and exits with status 0 if no line, taken up to its
  -- first NUL, has a word. If one has
  -- a word, it writes out of bounds, or a refused request ends it with status 1 before.
  pub main-Overruns :
      (input : Bytes) (w : World)
      → (All (λ l. words l ≡ []) (lines_of (suc (length input)) input) × (main s input w ≡ exits 0))
        ⊎ (HasWord (lines_of (suc (length input)) input) × Overruns s.os.grants (main s input w))
  unfolding main
  main-Overruns input w =
      elim (main_loop-Ends (suc (length input)) input none
        (record w { out = w.out ++ codes "myshell -> " }) (omega arith)) [
          | inl (all, w', ends) ↦ inl (all, rw ends refl)
          | inr (word, over) ↦ inr (
            word,
            Overruns-bind s.os.grants (main_loop s (suc (length input)) input none _) _ over,
          )
        ]
