-- ===== src/Pingpong.antt =====
-- SP_HW7/22_3.c: a child and its parent that send SIGUSR1 to each other by turns.
pub mod Turns
pub mod Rounds
pub mod Tests
use network_system_programmi.Prelude.{
  ℕ, suc, ◌+◌, Bool, true, false, List, [], ◌∷◌, ltb, if◌then◌else◌,
}

-- The loop of `case 0`: before kill or in sigwaitinfo in a round, or at its end.
pub data Child : Type 0 where
  pinging awaiting : (scnt : ℕ) → Child
  child_ended : Child

-- The loop of `default`: in sigwaitinfo or before kill in a round, or at its end.
pub data Parent : Type 0 where
  listening replying : (scnt : ℕ) → Parent
  parent_ended : Parent

-- The signal is blocked in both from before the fork, so that it stays pending until sigwaitinfo takes
-- it; one that is pending is not queued again.
pub record System : Type 0 where
  pub child : Child
  pub parent : Parent
  pub child_pending : Bool
  pub parent_pending : Bool

-- Who moves; each call succeeds or fails.
pub data Event : Type 0 where
  child_moves parent_moves : (ok : Bool) → Event

-- A step is taken, or it has to wait, or errExit ends the process that moves.
pub data Progress : Type 0 where
  next : System → Progress
  blocked failed : Progress

-- sigwaitinfo (&blockedMask, &info)
abbrev pub sigwaitinfo : (ok pending : Bool) → System → Progress
sigwaitinfo true true s = next s
sigwaitinfo true false s = blocked
sigwaitinfo false pending s = failed

-- kill (pid, TESTSIG)
abbrev pub kill : (ok : Bool) → System → Progress
kill true s = next s
kill false s = failed

-- The child's loop, over exec_nums rounds.
unfoldable pub child_at : ℕ → Bool → Child → System → Progress
child_at n ok (pinging k) s =
    if ltb k n
    then kill ok (record s { child = awaiting k; parent_pending = true })
    else next (record s { child = child_ended })
child_at n ok (awaiting k) s =
    sigwaitinfo ok s.child_pending (record s { child = pinging (k + 1); child_pending = false })
child_at n ok child_ended s = blocked

-- The parent's loop.
unfoldable pub parent_at : ℕ → Bool → Parent → System → Progress
parent_at n ok (listening k) s =
    if ltb k n
    then sigwaitinfo ok s.parent_pending (record s { parent = replying k; parent_pending = false })
    else next (record s { parent = parent_ended })
parent_at n ok (replying k) s =
    kill ok (record s { parent = listening (k + 1); child_pending = true })
parent_at n ok parent_ended s = blocked

unfoldable pub step : ℕ → Event → System → Progress
step n (child_moves ok) s = child_at n ok s.child s
step n (parent_moves ok) s = parent_at n ok s.parent s

-- Behind the fork.
unfoldable pub start : System
start = record {
  child = pinging 0;
  parent = listening 0;
  child_pending = false;
  parent_pending = false;
}
