-- ===== src/Shell/Main/Loop.antt =====
-- The main loop over lines that name no builtin command: its end, its bounds and the heap.
use network_system_programmi.Prelude.{
  ℕ, zero, suc, ◌+◌, ◌<◌, false, List, [], ◌∷◌, Option, none, some, ◌≡◌, arith, if◌then◌else◌,
  length, is_empty, Option-cases, inl, inr, All,
}
use network_system_programmi.Prelude.Bytes.{Bytes, cstr}
use network_system_programmi.Libc.{fgets}
use network_system_programmi.Libc.Lines.{fgets-lt}
use network_system_programmi.Tokens.{words}
use network_system_programmi.Machine.{done, World, parent, load, Ensures, Ensures-bind, Ensures-map}
use network_system_programmi.Shell.Parse.{Argv, parse}
use network_system_programmi.Shell.Parse.Safety.{argv_of, Parsed, parse-Parsed, free_argv-argv_of}
use network_system_programmi.Shell.Builtin.{Builtin, find_command, inbuilts, is_builtin}
use network_system_programmi.Shell.Run.Child.{run_command_parent}
use network_system_programmi.Shell.Main.{
  Setting, long_line, run_builtin, run_argv, run_parsed, main_loop,
}

-- A line with no words, or whose first word is not in the table.
abbrev pub Plain : List Bytes → Type 0
Plain [] = Unit
Plain (s ∷ ws) = find_command s inbuilts ≡ none

-- The lines that fgets takes from the input one by one, each up to its first NUL.
unfoldable pub lines_of : ℕ → Bytes → List Bytes
lines_of zero input = []
lines_of (suc fuel) input = elim (fgets long_line input) [
  | none ↦ []
  | some (line, rest) ↦ cstr line ∷ lines_of fuel rest
]

-- How many of the lines have a word.
abbrev pub busy : List Bytes → ℕ
busy [] = 0
busy (l ∷ ls) = (if is_empty (words l) then 0 else 1) + busy ls

lines_of-none :
    (fuel : ℕ) (input : Bytes) → fgets long_line input ≡ none → lines_of (suc fuel) input ≡ []
unfolding lines_of
lines_of-none fuel input e = rw (e, lines_of)

lines_of-some :
    (fuel : ℕ) (input line rest : Bytes)
    → fgets long_line input ≡ some (line, rest)
    → lines_of (suc fuel) input ≡ cstr line ∷ lines_of fuel rest
unfolding lines_of
lines_of-some fuel input line rest e = rw (e, lines_of)

is_builtin_plain :
    (cmd : Bytes) (this : Option Builtin)
    → find_command cmd inbuilts ≡ none
    → is_builtin cmd this ≡ (false, this)
unfolding is_builtin
is_builtin_plain cmd this e = rw (e, is_builtin)

module _ (s : Setting) (forked : (line : Bytes) → s.role line ≡ parent) where
  run_argv_plain :
      (line : Bytes) (v : List Bytes) (cmd : Bytes) (this : Option Builtin) (w : World)
      → find_command cmd inbuilts ≡ none
      → run_argv s line (argv_of v) (some cmd) this w ≡ done (this, w)
  unfolding run_argv run_builtin
  run_argv_plain line v cmd this w e =
      let (o, ran, _, _) = run_command_parent s.os (s.stat line) v w in
      rw (is_builtin_plain cmd this e, run_argv, forked, ran)

  run_parsed-Ensures :
      (line : Bytes) (ws : List Bytes) (this : Option Builtin) (w : World) (r : Option Argv × World)
      → Plain ws
      → Parsed ws w r
      → Ensures s.os.grants
          (run_parsed s line r.0 this r.1)
          (λ q. q.1.live ≡ w.live + (if is_empty ws then 0 else 1))
  unfolding run_parsed load
  run_parsed-Ensures line [] this w r p h = rw h.0 (omega (arith, h.1))
  run_parsed-Ensures line (t ∷ ws) this w r p h =
      rw (h.0, run_argv_plain line (t ∷ ws) t this r.1 p, free_argv-argv_of) (omega (arith, h.1))

  main_loop-none :
      (fuel : ℕ) (input : Bytes) (this : Option Builtin) (w : World)
      → fgets long_line input ≡ none
      → main_loop s (suc fuel) input this w ≡ done (this, w)
  unfolding main_loop
  main_loop-none fuel input this w e = rw (e, main_loop)

  main_loop_some :
      (fuel : ℕ) (input line rest : Bytes) (this : Option Builtin) (w : World)
      (Q : Option Builtin × World → Type 0)
      → fgets long_line input ≡ some (line, rest)
      → Plain (words (cstr line))
      → ((this' : Option Builtin) (w' : World)
          → w'.live ≡ w.live + (if is_empty (words (cstr line)) then 0 else 1)
          → Ensures s.os.grants (main_loop s fuel rest this' w') Q)
      → Ensures s.os.grants (main_loop s (suc fuel) input this w) Q
  unfolding main_loop
  main_loop_some fuel input line rest this w Q e p k =
      rw (e, main_loop)
        (Ensures-bind s.os.grants _ Q (parse s.os.grants (cstr line) w) _
          (parse-Parsed s.os.grants (cstr line) w)
          (λ v parsed.
            Ensures-bind s.os.grants _ Q (run_parsed s (cstr line) v.0 this v.1) _
              (run_parsed-Ensures (cstr line) (words (cstr line)) this w v p parsed)
              (λ q live. k q.0 _ live)))

  -- For every input, each line of it taken up to its first NUL, in which no line names a builtin command,
  -- and every allocator, as long as fork gives
  -- the parent: the loop comes to the end of the input, stays in bounds, and each line with a word
  -- leaves one block on the heap; only a refused allocation ends it earlier.
  pub main_loop-Ensures :
      (fuel : ℕ) (input : Bytes) (this : Option Builtin) (w : World)
      → length input < fuel
      → All (λ l. Plain (words l)) (lines_of fuel input)
      → Ensures s.os.grants
          (main_loop s fuel input this w)
          (λ r. r.1.live ≡ w.live + busy (lines_of fuel input))
  main_loop-Ensures zero input this w h p = absurd (omega arith)
  main_loop-Ensures (suc fuel) input this w h p = elim (Option-cases (fgets long_line input)) [
    | inl e ↦ rw (main_loop-none fuel input this w e, lines_of-none fuel input e) (omega arith)
    | inr ((line, rest), e) ↦
        let plain = rw (lines_of-some fuel input line rest e) at p in
        main_loop_some fuel input line rest this w _ e plain.0 (λ this' w' live.
          Ensures-map s.os.grants _ _ (main_loop s fuel rest this' w')
            (λ r total. rw (lines_of-some fuel input line rest e) (omega (arith, total, live)))
            (main_loop-Ensures fuel rest this' w' (omega (arith, fgets-lt 253 input e)) plain.1))
  ]
