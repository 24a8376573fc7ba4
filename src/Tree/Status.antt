-- ===== src/Tree/Status.antt =====
-- main of 12_2.c up to the tree: the status files of /proc.
use network_system_programmi.Prelude.{
  ℕ, ◌-◌, Bool, true, false, List, [], ◌∷◌, ◌++◌, Option, none, some, ltb, if◌then◌else◌, length,
  take, drop,
}
use network_system_programmi.Prelude.Bytes.{Bytes, codes, equal}
use network_system_programmi.Prelude.Int.{ℤ, negsuc}
use network_system_programmi.Libc.{atoi, is_digit}
use network_system_programmi.Tail.{eqb_ℤ}
use network_system_programmi.Tree.{Entry, insert, Item, text, show_tree, decimal_ℤ}

-- An entry of /proc: its name, and the lines of its status file if that opens.
pub record Dirent : Type 0 where
  pub d_name : Bytes
  pub status : Option (List Bytes)

-- What is known of a process while its status file is read.
pub record Known : Type 0 where
  pub ppid : ℤ
  pub name : Bytes

-- `strcpy (Name, line + 6); Name[strlen (Name) - 1] = '\0'`: a line of less than 7 bytes leads outside.
unfoldable pub name_of : Bytes → Option Bytes
name_of line = if ltb (length line) 7 then none else some (take (length line - 7) (drop 6 line))

-- One line of the file: strncmp with 5 bytes.
unfoldable pub read_status_line : Bytes → Known → Option Known
read_status_line line k =
    if equal (take 5 line) (codes "PPid:")
    then some (record k { ppid = atoi (drop 5 line) })
    else if equal (take 5 line) (codes "Name:")
    then elim (name_of line) [ none ↦ none | some n ↦ some (record k { name = n }) ]
    else some k

-- The loop over the lines: Name is an array, and not NULL, so that the first PPid ends it.
unfoldable pub read_status : List Bytes → Known → Option Known
read_status [] k = some k
read_status (line ∷ lines) k = elim (read_status_line line k) [
  | none ↦ none
  | some k' ↦ if eqb_ℤ k'.ppid (negsuc 0) then read_status lines k' else some k'
]

-- The list, errno as a flag, and the output.
pub record Scan : Type 0 where
  pub root : List Entry
  pub errno : Bool
  pub out : List Item

abbrev pub starts_digit : Bytes → Bool
starts_digit [] = false
starts_digit (c ∷ cs) = is_digit c

-- A status file that does not open: fopen sets errno, and nothing sets it back. The number behind the
-- path is left out of the message.
unfoldable pub scan_one : Dirent → Scan → Option Scan
scan_one d s =
    if starts_digit d.d_name
    then elim d.status [
      | none ↦ some (record s {
        errno = true;
        out =
            s.out
            ++ (text (
                  codes "fopen failed on '/proc/"
                  ++ (decimal_ℤ (atoi d.d_name) ++ codes "/status'\n"))
                ∷ []);
      })
      | some lines ↦ elim (read_status lines (record { ppid = negsuc 0; name = [] })) [
        | none ↦ none
        | some k ↦ some (record s {
          root = insert s.root (record { pid = atoi d.d_name; ppid = k.ppid; name = k.name });
        })
      ]
    ]
    else some s

abbrev pub nothing_read : Scan
nothing_read = record { root = []; errno = false; out = [] }

-- The loop over readdir.
unfoldable pub scan : List Dirent → Scan → Option Scan
scan [] s = some s
scan (d ∷ ds) s = elim (scan_one d s) [ none ↦ none | some s' ↦ scan ds s' ]

-- How the program ends: with a status and its output, or undefined.
pub data Ended : Type 0 where
  exits : (status : ℕ) → (out : List Item) → Ended
  undefined : Ended

unfoldable pub show_scan : (closes : Bool) → Scan → Ended
show_scan closes s =
    if s.errno
    then exits 1 s.out
    else if closes
    then elim (show_tree s.root) [ none ↦ undefined | some items ↦ exits 0 (s.out ++ items) ]
    else exits 1 s.out

-- main, for what /proc holds if it opens; the messages behind the loop are left out.
unfoldable pub main : Option (List Dirent) → (closes : Bool) → Ended
main none closes = undefined
main (some ds) closes = elim (scan ds nothing_read) [
  | none ↦ undefined
  | some s ↦ show_scan closes s
]
