-- ===== src/Tree/Tests.antt =====
-- Trees of a few processes.
use network_system_programmi.Prelude.{
  ◌-◌, subst, ℕ, true, List, [], ◌∷◌, none, some, ◌≡◌, refl, arith, ◌↔◌, inl, inr,
}
use network_system_programmi.Prelude.Bytes.{Bytes, codes, equal, decimal, digits}
use network_system_programmi.Prelude.Int.{ℤ, pos, negsuc}
use network_system_programmi.Libc.{atoi, is_digit, is_space, digits_value, atoi_signed}
use network_system_programmi.Tree.{
  Entry, Item, text, beside, below, newline, show, end_row, rows, dfs_show, show_tree,
}
use network_system_programmi.Tree.Status.{
  Dirent, name_of, read_status_line, read_status, Scan, starts_digit, scan, nothing_read, exits,
  main,
}
use network_system_programmi.Tree.Below.{Descends, In}
use network_system_programmi.Tree.Reached.{pids, show_tree-Descends}
use network_system_programmi.Tree.Vanished.{Reads, unknown, main-Vanished}

-- Process 1 with two children, of which the first has a child.
abbrev systemd : Entry
systemd = record { pid = pos 1; ppid = pos 0; name = codes "systemd" }

abbrev others : List Entry
others =
    record { pid = pos 2; ppid = pos 1; name = codes "sh" }
    ∷ record { pid = pos 3; ppid = pos 1; name = codes "cron" }
    ∷ record { pid = pos 4; ppid = pos 2; name = codes "ls" }
    ∷ []

abbrev height : ℤ → ℕ
height (pos n) = 4 - n
height (negsuc n) = 0

show_tree-Descends_example :
    (items : List Item) × (show_tree (systemd ∷ others) ≡ some items)
    × ((x : ℤ) → In x (pids items) ↔ Descends (systemd ∷ others) (pos 1) x)
show_tree-Descends_example =
    show_tree-Descends systemd others height
      (omega arith, (omega arith, (omega arith, (omega arith, tt)))) (omega arith)

-- The lines of the tree: each leaf ends its line.
shown :
    show_tree (systemd ∷ others)
    ≡ some (
        text (codes "systemd, PID: 1 ")
        ∷ beside (codes "sh") (pos 2)
        ∷ beside (codes "ls") (pos 4)
        ∷ newline
        ∷ below 0 (codes "cron") (pos 3)
        ∷ newline
        ∷ [])
unfolding show_tree dfs_show rows show end_row decimal digits
shown = refl

abbrev init_lines : List Bytes
init_lines = codes "Name:\tinit\n" ∷ codes "Pid:\t1\n" ∷ codes "PPid:\t0\n" ∷ []

abbrev proc : List Dirent
proc =
    record { d_name = codes "1"; status = some init_lines }
    ∷ record { d_name = codes "uptime"; status = none }
    ∷ record { d_name = codes "7"; status = none }
    ∷ []

init_known : read_status init_lines unknown ≡ some (record { ppid = pos 0; name = codes "init" })
unfolding read_status read_status_line name_of equal atoi is_space digits_value is_digit atoi_signed
init_known = refl

init-Reads : Reads (record { d_name = codes "1"; status = some init_lines })
init-Reads lines e =
    let same : init_lines ≡ lines = cc in
    (
      record { ppid = pos 0; name = codes "init" },
      subst (λ l. read_status l unknown ≡ some (record { ppid = pos 0; name = codes "init" })) same
          init_known,
    )

is_seven : starts_digit (codes "7") ≡ true
unfolding is_digit
is_seven = refl

main-Vanished_example :
    (s : Scan) × (scan proc nothing_read ≡ some s) × (main (some proc) true ≡ exits 1 s.out)
main-Vanished_example =
    main-Vanished proc (record { d_name = codes "7"; status = none }) true
      (init-Reads, (λ lines e. absurd (cc e), (λ lines e. absurd (cc e), tt)))
      (inr (inr (inl refl))) (is_seven, refl)
