-- ===== src/Shell/Builtin.antt =====
-- SP_HW5/Part2/builtin.c: the commands that the shell runs in its own process.
pub mod Echo
use network_system_programmi.Prelude.{
  ℕ, zero, suc, ◌+◌, Bool, true, false, List, [], ◌∷◌, ◌++◌, Option, none, some, ◌==◌, leb, ltb,
  if◌then◌else◌, length,
}
use network_system_programmi.Prelude.Bytes.{Bytes, codes, equal, decimal}
use network_system_programmi.Prelude.Int.{ℤ, pos, negsuc, ◌+ℤ◌, ltb_ℤ}
use network_system_programmi.Libc.{atoi}
use network_system_programmi.Machine.{
  Outcome, done, exits, M, ◌>>=◌, ◌>>◌, pure, exit, undefined, print, World, Slot, uninit, null,
  str, load, strings,
}
use network_system_programmi.Shell.Parse.{Argv}

abbrev pub buffer_size : ℕ
buffer_size = 1024

-- What the system calls answer: the directory that a path names, seen from another; the host name;
-- the user id with the entry of the password database for it.
pub record Host : Type 0 where
  pub resolve : Bytes → Bytes → Option Bytes
  pub hostname : Option Bytes
  pub uid : ℕ
  pub passwd : Option (Bytes × ℕ)

-- `do_it`, and `inbuilts` in its order
pub data Builtin : Type 0 where
  bi_builtin bi_echo bi_quit bi_cd bi_pwd bi_id bi_hostname : Builtin

abbrev pub inbuilts : List (Bytes × Builtin)
inbuilts =
    (codes "builtin", bi_builtin)
    ∷ (codes "echo", bi_echo)
    ∷ (codes "quit", bi_quit)
    ∷ (codes "exit", bi_quit)
    ∷ (codes "bye", bi_quit)
    ∷ (codes "logout", bi_quit)
    ∷ (codes "cd", bi_cd)
    ∷ (codes "pwd", bi_pwd)
    ∷ (codes "id", bi_id)
    ∷ (codes "hostname", bi_hostname)
    ∷ []

-- The loop through the table up to its NULL.
unfoldable pub find_command : Bytes → List (Bytes × Builtin) → Option Builtin
find_command cmd [] = none
find_command cmd ((keyword, b) ∷ table) =
    if equal keyword cmd then some b else find_command cmd table

-- The result, and the new value of the static `this`.
unfoldable pub is_builtin : Bytes → Option Builtin → Bool × Option Builtin
is_builtin cmd this = elim (find_command cmd inbuilts) [
  | some b ↦ (true, some b)
  | none ↦ (false, this)
]

-- strcmp with a NULL argument is undefined.
unfoldable pub tell_builtin : Option Bytes → M (Unit {0})
tell_builtin none = undefined
tell_builtin (some s) = elim (find_command s inbuilts) [
  | some b ↦ print (s ++ codes " is a builtin feature.\n")
  | none ↦ print (s ++ codes " is NOT a builtin feature.\n")
]

-- chdir (NULL) fails, and a failure ends the shell.
unfoldable pub change_directory : Host → Option Bytes → M (Unit {0})
change_directory host none w = exits 1
change_directory host (some path) w = elim (host.resolve w.cwd path) [
  | some d ↦ done (tt, record w { cwd = d })
  | none ↦ exits 1
]

unfoldable pub print_directory : M (Unit {0})
print_directory w =
    if ltb (length w.cwd) buffer_size then print (w.cwd ++ codes "\n") w else exits 1

unfoldable pub print_hostname : Option Bytes → M (Unit {0})
print_hostname none = exit 1
print_hostname (some s) = print (codes "hostname: " ++ (s ++ codes "\n"))

-- The name of the user is printed in both places.
unfoldable pub print_id : ℕ → Option (Bytes × ℕ) → M (Unit {0})
print_id uid none = exit 1
print_id uid (some (name, gid)) = print (
    codes "UserID: "
    ++ (decimal uid
        ++ (codes "("
            ++ (name
                ++ (codes "), GroupID: "
                    ++ (decimal gid ++ (codes "(" ++ (name ++ codes ")\n"))))))))

-- `for (i = k; argv[i] != NULL; i++)`, on the cells from `i` on; the flag is `i != k`
unfoldable pub print_words : Bool → Argv → M (Unit {0})
print_words later [] = undefined
print_words later (uninit ∷ v) = undefined
print_words later (null ∷ v) = print (codes "\n")
print_words later (str b ∷ v) = do
  print (if later then codes " " ++ b.text else b.text)
  print_words true v

-- `argv[n]` for an `int` index
unfoldable pub load_at : Argv → ℤ → M (Option Bytes)
load_at v (pos n) = load v n
load_at v (negsuc n) = undefined

unfoldable pub print_string : Option Bytes → M (Unit {0})
print_string none = undefined
print_string (some s) = print (s ++ codes "\n")

-- The word at place `n` of all, if `2 < n < len`; otherwise the shell exits.
unfoldable pub print_nth : Argv → ℤ → M (Unit {0})
print_nth v n = do
  l ← strings v
  (if ltb_ℤ (pos 2) n
      then (if ltb_ℤ n (pos (length l)) then (do s ← load_at v n; print_string s) else exit 1)
      else exit 1)

unfoldable pub option_number : Option Bytes → M ℤ
option_number none = undefined
option_number (some s) = pure (atoi s +ℤ pos 2)

unfoldable pub from_one : Argv → Argv
from_one [] = []
from_one (x ∷ v) = v

-- Behind the test for `argv[1] == NULL`.
unfoldable pub echo_with : Argv → Bytes → M (Unit {0})
echo_with v s =
    if equal s (codes "-n")
    then (do a ← load v 2; n ← option_number a; print_nth v n)
    else print_words false (from_one v)

unfoldable pub echo : Argv → M (Unit {0})
echo v = do
  a ← load v 1
  elim a [
    | none ↦ print (codes "at least one arguement for echo to copy.\n")
    | some s ↦ echo_with v s
  ]

unfoldable pub do_it : Host → Builtin → Argv → M (Unit {0})
do_it host bi_builtin v = do a ← load v 1; tell_builtin a
do_it host bi_echo v = echo v
do_it host bi_quit v = exit 0
do_it host bi_cd v = do a ← load v 1; change_directory host a
do_it host bi_pwd v = print_directory
do_it host bi_id v = print_id host.uid host.passwd
do_it host bi_hostname v = print_hostname host.hostname

-- `this` is NULL until is_builtin has found a command.
unfoldable pub do_builtin : Host → Option Builtin → Argv → M (Unit {0})
do_builtin host none v = undefined
do_builtin host (some b) v = do_it host b v
