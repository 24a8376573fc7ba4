-- ===== src/Shell3/Parse/Overrun.antt =====
-- What parse of SP_HW3 does with any line.
use network_system_programmi.Prelude.{
  ◌+◌, List, [], ◌∷◌, Option, none, some, ◌≡◌, refl, arith, length, ◌&&◌, Bool-cases, inl, inr,
  if◌then◌else◌,
}
use network_system_programmi.Prelude.Bytes.{Bytes}
use network_system_programmi.Tokens.{strtok, words}
use network_system_programmi.Tokens.Words.{Splits, strtok-Splits}
use network_system_programmi.Machine.{
  Outcome, done, exits, fault, World, Grants, malloc, strcpy_new,
}
use network_system_programmi.Shell.Parse.{Argv}
use network_system_programmi.Shell3.Parse.{show_token, first, parse}

-- No array for no words; otherwise undefined, unless one of the first two requests is refused.
unfoldable pub parsed : Grants → List Bytes → World → Outcome (Option Argv × World)
parsed g [] w = done (none, w)
parsed g (t ∷ ws) w = if g w.calls && g (w.calls + 1) then fault else exits 1

strcpy_new_tight : (s : Bytes) (w : World) → strcpy_new (length s) s w ≡ fault
unfolding strcpy_new
strcpy_new_tight s w = ground arith

first-parsed :
    (g : Grants) (o : Option (Bytes × Bytes)) (ws : List Bytes) (w : World)
    → Splits ws o
    → first g o w ≡ parsed g ws w
unfolding first parsed malloc show_token
first-parsed g none ws w s = rw s refl
first-parsed g (some (t, r)) ws w s = rw s (elim (Bool-cases (g w.calls)) [
  | inr e ↦ rw e refl
  | inl e ↦ elim (Bool-cases (g (w.calls + 1))) [
    | inr q ↦ rw (e, q) refl
    | inl q ↦ rw (e, q, strcpy_new_tight) refl
  ]
])

-- For every line and every allocator: a line with no word gives no array and changes nothing; for
-- any other the copy of the first token is written past the end of its block, unless one of the
-- first two requests is refused, which ends the process with status 1.
pub parse-parsed :
    (g : Grants) (line : Bytes) (w : World) → parse g line w ≡ parsed g (words line) w
unfolding parse
parse-parsed g line w = first-parsed g (strtok line) (words line) w (strtok-Splits line)
