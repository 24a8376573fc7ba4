-- ===== src/Shell3/Builtin.antt =====
-- SP_HW3/builtin.c: echo, and four names for the end of the shell.
use network_system_programmi.Prelude.{
  Bool, true, false, List, [], ◌∷◌, Option, none, some, ◌≡◌, refl, if◌then◌else◌,
}
use network_system_programmi.Prelude.Bytes.{Bytes, codes, equal}
use network_system_programmi.Machine.{done, M, World, ◌>>=◌, exit, undefined, load}
use network_system_programmi.Shell.Parse.{Argv}
use network_system_programmi.Shell.Parse.Safety.{argv_of}
use network_system_programmi.Shell.Builtin.{echo_with}

pub data Builtin : Type 0 where
  bi_exit bi_echo : Builtin

abbrev pub inbuilts : List (Bytes × Builtin)
inbuilts =
    (codes "exit", bi_exit)
    ∷ (codes "quit", bi_exit)
    ∷ (codes "logout", bi_exit)
    ∷ (codes "bye", bi_exit)
    ∷ (codes "echo", bi_echo)
    ∷ []

unfoldable pub find_command : Bytes → List (Bytes × Builtin) → Option Builtin
find_command cmd [] = none
find_command cmd ((keyword, b) ∷ table) =
    if equal keyword cmd then some b else find_command cmd table

-- The result, and the new value of the static `this`.
unfoldable pub is_builtin : Bytes → Option Builtin → Bool × Option Builtin
is_builtin cmd this = elim (find_command cmd inbuilts) [
  | some b ↦ (true, some b)
  | none ↦ (false, this)
]

-- With no word behind the name strcmp reads through NULL; the rest is as in the later shell.
unfoldable pub echo : Argv → M (Unit {0})
echo v = do a ← load v 1; elim a [ none ↦ undefined | some s ↦ echo_with v s ]

unfoldable pub do_it : Builtin → Argv → M (Unit {0})
do_it bi_exit v = exit 1
do_it bi_echo v = echo v

unfoldable pub do_builtin : Option Builtin → Argv → M (Unit {0})
do_builtin none v = undefined
do_builtin (some b) v = do_it b v

load_second :
    (c s : Bytes) (ws : List Bytes) (w : World) → load (argv_of (c ∷ s ∷ ws)) 1 w ≡ done (some s, w)
unfolding load
load_second c s ws w = refl

-- With a word behind the name, echo does what the echo of the later shell does.
pub echo-echo :
    (c s : Bytes) (ws : List Bytes) (w : World)
    → echo (argv_of (c ∷ s ∷ ws)) w
      ≡ network_system_programmi.Shell.Builtin.echo (argv_of (c ∷ s ∷ ws)) w
unfolding echo network_system_programmi.Shell.Builtin.echo
echo-echo c s ws w = rw (load_second c s ws w) refl
