-- ===== src/Ring/Setup.antt =====
-- The start of SP_HW10.c: its arguments, the calls before the loop and the consumers' forks.
use network_system_programmi.Prelude.{
  ℕ, zero, suc, ◌+◌, Bool, true, ◌&&◌, List, [], ◌∷◌, if◌then◌else◌,
}
use network_system_programmi.Prelude.Bytes.{Bytes}
use network_system_programmi.Prelude.Int.{ℤ, pos, negsuc, pos_part}
use network_system_programmi.Libc.{atoi}
use network_system_programmi.Machine.{Outcome, done, exits, fault}
use network_system_programmi.Ring.{Sizes, System, Slot}
use network_system_programmi.Ring.Reached.{start}

-- What the calls answer; mmap gives memory of any content.
pub record Calls : Type 0 where
  pub opened : Bool
  pub truncated : Bool
  pub cnt_opened : Bool
  pub cnt_truncated : Bool
  pub mapped : Bool
  pub cnt_mapped : Bool
  pub handler_set : Bool
  pub fork_ok : ℕ → Bool
  pub memory : List Slot

-- `for (i = 0; i < n; i++)` with a fork; `i` and what is left.
unfoldable pub fork_all : (ℕ → Bool) → ℕ → ℕ → Bool
fork_all ok i zero = true
fork_all ok i (suc left) = ok i && fork_all ok (i + 1) left

unfoldable pub fork_consumers : Calls → Sizes → Outcome System
fork_consumers c p = if fork_all c.fork_ok 0 p.n then done (start p c.memory) else exits 1

-- `pid_t pid_array[n]` needs a positive n.
unfoldable pub with_consumers : Calls → ℤ → ℤ → ℤ → Outcome System
with_consumers c m (pos zero) b = fault
with_consumers c m (negsuc n) b = fault
with_consumers c m (pos (suc n)) b =
    fork_consumers c (record { m = pos_part m; n = suc n; b = pos_part b })

-- The calls between the arguments and the forks, each of which ends the program if it fails.
unfoldable pub prepared : Calls → Bool
prepared c =
    c.opened
    && (c.truncated
        && (c.cnt_opened && (c.cnt_truncated && (c.mapped && (c.cnt_mapped && c.handler_set)))))

-- main up to the loop over the messages, from the arguments behind the program's name.
unfoldable pub main : Calls → List Bytes → Outcome System
main c (m ∷ r ∷ n ∷ b ∷ []) =
    if prepared c then with_consumers c (atoi m) (atoi n) (atoi b) else exits 1
main c args = exits 1
