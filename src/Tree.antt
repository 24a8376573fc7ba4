-- ===== src/Tree.antt =====
-- SP_HW4/12_2.c: the tree of the processes below process 1, from the status files of /proc.
pub mod Status
pub mod Below
pub mod Reached
pub mod Vanished
pub mod Tests
use network_system_programmi.Prelude.{
  ℕ, zero, suc, ◌+◌, ◌-◌, ◌*◌, Bool, true, false, not, ◌&&◌, List, [], ◌∷◌, ◌++◌, Option, none,
  some, ◌==◌, ltb, if◌then◌else◌, length, replicate,
}
use network_system_programmi.Prelude.Bytes.{Bytes, codes, decimal}
use network_system_programmi.Prelude.Int.{ℤ, pos, negsuc}
use network_system_programmi.Tail.{eqb_ℤ}

-- struct set, without its link
pub record Entry : Type 0 where
  pub pid : ℤ
  pub ppid : ℤ
  pub name : Bytes

-- The linked list gets the entry at its end.
unfoldable pub insert : List Entry → Entry → List Entry
insert [] e = e ∷ []
insert (x ∷ root) e = x ∷ insert root e

-- What one pass of the program prints: a text, a process beside its parent or on a line of its own at
-- a depth, or the end of a line.
pub data Item : Type 0 where
  text : Bytes → Item
  beside : (name : Bytes) → (pid : ℤ) → Item
  below : (depth : ℕ) → (name : Bytes) → (pid : ℤ) → Item
  newline : Item

-- The globals f and l, and the output.
pub record State : Type 0 where
  pub own_line : Bool
  pub named : ℕ
  pub out : List Item

abbrev pub print : Item → State → State
print i s = record s { out = s.out ++ (i ∷ []) }

-- The entry itself: `if (f == 0)` and the two assignments behind it.
unfoldable pub show : ℕ → Entry → State → State
show dep e s = record {
  own_line = false;
  named = length e.name;
  out = s.out ++ ((if s.own_line then below dep e.name e.pid else beside e.name e.pid) ∷ []);
}

-- Behind the loop: `if (l == 0) return`.
unfoldable pub end_row : State → State
end_row s =
    if s.named == 0 then s else record { own_line = true; named = 0; out = s.out ++ (newline ∷ []) }

-- `while (temp != NULL)`, for what the call for a child's pid does.
unfoldable pub rows : (ℤ → State → Option State) → ℕ → ℤ → List Entry → State → Option State
rows inner dep ppi [] s = some s
rows inner dep ppi (e ∷ temp) s =
    if eqb_ℤ e.ppid ppi
    then elim (inner e.pid (show dep e s)) [ none ↦ none | some s' ↦ rows inner dep ppi temp s' ]
    else rows inner dep ppi temp s

-- dfs_show, with the levels that the stack has room for as its fuel.
unfoldable pub dfs_show : ℕ → List Entry → ℤ → ℕ → State → Option State
dfs_show zero root ppi dep s = none
dfs_show (suc fuel) root ppi dep s =
    elim (rows (λ p. dfs_show fuel root p (dep + 1)) dep ppi root s) [
      | none ↦ none
      | some s' ↦ some (end_row s')
    ]

abbrev start : State
start = record { own_line = false; named = 0; out = [] }

abbrev pub decimal_ℤ : ℤ → Bytes
decimal_ℤ (pos n) = decimal n
decimal_ℤ (negsuc n) = b'-' ∷ decimal (suc n)

-- The first entry, before the tree.
abbrev pub root_line : Entry → State
root_line e = print (text (e.name ++ (codes ", PID: " ++ (decimal_ℤ e.pid ++ codes " ")))) start

-- main behind its loop over /proc: the first entry is printed and then all that is below process 1. As
-- many levels as there are entries, and one more, are taken for the stack.
unfoldable pub show_tree : List Entry → Option (List Item)
show_tree [] = none
show_tree (e ∷ root) =
    elim (dfs_show (suc (length (e ∷ root))) (e ∷ root) (pos 1) 0 (root_line e)) [
      | none ↦ none
      | some s ↦ some s.out
    ]

-- The blanks in front of a process on a line of its own, with the bar of the level above.
unfoldable pub indent : ℕ → Bytes
indent dep =
    let wide = (dep + 1) * (6 + 6 + 7 + 3) - 6 in
    if ltb 16 wide
    then replicate 16 b' ' ++ (codes "  |   " ++ replicate (wide - 23) b' ')
    else replicate wide b' '

-- The dash — in UTF-8.
abbrev dash : Bytes
dash = 226 ∷ 128 ∷ 148 ∷ []

-- The bytes of an item.
unfoldable pub bytes_of : Item → Bytes
bytes_of (text s) = s
bytes_of (beside name pid) =
    codes " "
    ++ (dash
        ++ (dash
            ++ (dash ++ (dash ++ (codes " " ++ (name ++ (codes ", PID: " ++ decimal_ℤ pid)))))))
bytes_of (below dep name pid) =
    indent dep
    ++ ((if dep == 1 then replicate 8 b' ' else [])
        ++ (codes "  |"
            ++ (dash ++ (dash ++ (codes " " ++ (name ++ (codes ", PID: " ++ decimal_ℤ pid)))))))
bytes_of newline = codes "\n"
