-- ===== src/Shell/Run/Child.antt =====
-- Which program the child of run_command becomes, which files it reads and writes, and when the
-- parent waits for it.
use native.Mathlib.Nat.{zero-add}
use network_system_programmi.Prelude.{
  ℕ, suc, ◌+◌, Bool, true, false, List, [], ◌∷◌, ◌++◌, Option, none, some, ◌≡◌, refl, ◌∙◌, ◌≢◌, ◌↔◌,
  arith, inl, inr, length,
}
use network_system_programmi.Prelude.Bytes.{Bytes, codes, decimal}
use network_system_programmi.Prelude.Int.{pos}
use network_system_programmi.Machine.{
  Outcome, done, bind_outcome, World, file, Os, parent, load, strings, exec_strings, execvp,
}
use network_system_programmi.Shell.Cut.{Lacks}
use network_system_programmi.Shell.Parse.Safety.{argv_of}
use network_system_programmi.Shell.Scan.{find_bar, classify, pipe_present}
use network_system_programmi.Shell.Scan.Facts.{bar, Among, is_background-Among, pipe_present-find}
use network_system_programmi.Shell.Redirect.Cleared.{
  less, greater, cut_off, redirect_in-uncut, redirect_in_taken, redirect_out-cut_off,
}
use network_system_programmi.Shell.Pipe.{pipe_and_exec}
use network_system_programmi.Shell.Pipe.Outcomes.{
  Replaced, pipe_and_exec_plain, exec_strings-Replaced,
}
use network_system_programmi.Shell.Run.{
  Status, Report, report, await, after_fork, run_child, run_command,
}

find_bar-cut_off :
    (l : List Bytes) (n i : ℕ) (w : World)
    → Lacks bar l
    → find_bar (cut_off l (suc n)) i w ≡ done (i + length l, w)
unfolding find_bar
find_bar-cut_off [] n i w h = ground arith
find_bar-cut_off (s ∷ l) n i w h = rw (h.0, find_bar-cut_off l n (i + 1) w h.1) (ground arith)

load-cut_off :
    (l : List Bytes) (n : ℕ) (w : World) → load (cut_off l (suc n)) (length l) w ≡ done (none, w)
unfolding load
load-cut_off [] n w = refl
load-cut_off (s ∷ l) n w = load-cut_off l n w

strings-cut_off : (l : List Bytes) (n : ℕ) (w : World) → strings (cut_off l (suc n)) w ≡ done (l, w)
unfolding strings
strings-cut_off [] n w = refl
strings-cut_off (s ∷ l) n w = rw (strings-cut_off l n w)

pipe_present-cut_off :
    (s : Bytes) (l : List Bytes) (n : ℕ) (w : World)
    → Lacks bar (s ∷ l)
    → pipe_present (cut_off (s ∷ l) (suc n)) w ≡ done (pos 0, w)
unfolding classify
pipe_present-cut_off s l n w h =
    pipe_present-find (cut_off (s ∷ l) (suc n)) (length l) w
      (rw zero-add at (find_bar-cut_off (s ∷ l) n 0 w h))
    ∙ rw (load-cut_off (s ∷ l) n w)

execvp-cut_off :
    (os : Os) (l : List Bytes) (n : ℕ) (w : World)
    → execvp os (cut_off l (suc n)) w ≡ exec_strings os l w
unfolding execvp
execvp-cut_off os l n w = rw (strings-cut_off l n w)

pipe_and_exec-cut_off :
    (os : Os) (fuel : ℕ) (s : Bytes) (l : List Bytes) (n : ℕ) (w : World)
    → Lacks bar (s ∷ l)
    → Replaced os (s ∷ l) w (pipe_and_exec os (suc fuel) (cut_off (s ∷ l) (suc n)) w)
pipe_and_exec-cut_off os fuel s l n w h =
    rw
      (
        pipe_and_exec_plain os fuel (cut_off (s ∷ l) (suc n)) w (pipe_present-cut_off s l n w h),
        execvp-cut_off,
      )
      (exec_strings-Replaced os s l w)

-- The state of the child when it calls execvp: redirect_out has printed its message.
abbrev pub complained : Os → World → World
complained os w = record w { out = w.out ++ (codes "redirect_in, errno: " ++ decimal os.errno) }

Replaced-bind :
    (os : Os) (ws : List Bytes) (w : World) {A B : Type 0} (m : Outcome A) (k : A → Outcome B)
    → Replaced os ws w m
    → Replaced os ws w (bind_outcome m k)
Replaced-bind os ws w m k (inl (e, q)) = inl (e, rw q)
Replaced-bind os ws w m k (inr (n, e, q)) = inr (n, e, rw q)

-- With an input file that opens named after the first `<`, and no `>` and no bar in front of it, the
-- child becomes the command in front of the `<`, with its input from that file: whatever words `r`
-- come behind the name are dropped, a `>` and its file among them, and the output stays where it was.
pub run_child_input :
    (os : Os) (s : Bytes) (l : List Bytes) (f : Bytes) (r : List Bytes) (w : World)
    → Lacks less (s ∷ l)
    → Lacks greater (s ∷ l)
    → Lacks bar (s ∷ l)
    → os.can_open f ≡ true
    → Replaced os
        (s ∷ l)
        (complained os (record w { fd0 = file f }))
        (run_child os (argv_of (s ∷ (l ++ (less ∷ f ∷ r)))) w)
unfolding run_child
run_child_input os s l f r w no_less no_greater no_bar opens =
    let three : length r + 3 ≡ suc (length r + 2) = omega arith in
    rw
      (
        redirect_in_taken os (s ∷ l) f r w no_less opens,
        three,
        redirect_out-cut_off os (s ∷ l) (length r + 2) _ no_greater,
      )
      (Replaced-bind os (s ∷ l) _ (pipe_and_exec os _ (cut_off (s ∷ l) (suc (length r + 2))) _) _
        (pipe_and_exec-cut_off os _ s l (length r + 2) _ no_bar))

argv_of-cut_off : (l : List Bytes) → argv_of l ≡ cut_off l 1
argv_of-cut_off l = refl

-- With no redirection and no bar the child becomes the command, with all the words as its
-- arguments, a `&` among them, and the descriptors as they are.
pub run_child_plain :
    (os : Os) (s : Bytes) (l : List Bytes) (w : World)
    → Lacks less (s ∷ l)
    → Lacks greater (s ∷ l)
    → Lacks bar (s ∷ l)
    → Replaced os (s ∷ l) (complained os w) (run_child os (argv_of (s ∷ l)) w)
unfolding run_child
run_child_plain os s l w no_less no_greater no_bar =
    rw (redirect_in-uncut os (s ∷ l) w no_less, redirect_out-cut_off os (s ∷ l) 0 w no_greater)
      (Replaced-bind os (s ∷ l) _ (pipe_and_exec os _ (cut_off (s ∷ l) 1) _) _
        (pipe_and_exec-cut_off os _ s l 0 _ no_bar))

await-none : (b : Bool) (stat : Status) → (await b stat ≡ none) ↔ (b ≡ true)
unfolding await
await-none true stat = ((λ e. refl), (λ e. refl))
await-none false stat = ((λ e. cc), (λ e. cc))

await-some : (b : Bool) (stat : Status) → await b stat ≢ none → await b stat ≡ some (report stat)
unfolding await
await-some true stat h = absurd (h refl)
await-some false stat h = refl

-- The parent comes back with the world unchanged, and does not wait exactly if some word is `&`;
-- if it waits, it reports what waitpid said.
pub run_command_parent :
    (os : Os) (stat : Status) (ws : List Bytes) (w : World)
    → (o : Option Report) × (run_command os parent stat (argv_of ws) w ≡ done (o, w))
      × ((o ≡ none) ↔ Among (codes "&") ws)
      × (o ≢ none → o ≡ some (report stat))
unfolding run_command after_fork
run_command_parent os stat ws w =
    let (b, ran, among) = is_background-Among ws w in
    (
      await b stat,
      rw ran,
      ((λ e. among.0 ((await-none b stat).0 e)), (λ a. (await-none b stat).1 (among.1 a))),
      await-some b stat,
    )
