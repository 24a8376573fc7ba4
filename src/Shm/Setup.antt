-- ===== src/Shm/Setup.antt =====
-- The calls by which a client and the server get at the segment and the semaphores: the first call of
-- lookup in SP_HW12/lookup6.c, and the start of SP_HW12/shm_server.c.
use network_system_programmi.Prelude.{ℕ, Bool, true, false, ◌==◌, if◌then◌else◌}
use network_system_programmi.Machine.{Outcome, done, exits}

-- What the calls answer.
pub record Calls : Type 0 where
  pub stat_ok : Bool
  pub shmget_ok : Bool
  pub shmat_ok : Bool
  pub semget_ok : Bool
  pub setall_ok : Bool
  pub errno : ℕ

-- DIE of a failed call.
abbrev unless_ok : Bool → Outcome (Unit {0}) → Outcome (Unit {0})
unless_ok ok later = if ok then later else exits 1

-- `if (first_time)`
unfoldable pub attach : Calls → Bool → Outcome (Unit {0})
attach c false = done tt
attach c true = unless_ok c.shmget_ok (unless_ok c.shmat_ok (unless_ok c.semget_ok (done tt)))

unfoldable pub set_up : Calls → ℕ → Outcome (Unit {0})
set_up c argc =
    if argc == 3
    then unless_ok c.stat_ok (
        unless_ok c.shmget_ok
          (unless_ok c.shmat_ok (unless_ok c.semget_ok (unless_ok c.setall_ok (done tt)))))
    else exits c.errno
