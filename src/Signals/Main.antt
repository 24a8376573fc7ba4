-- ===== src/Signals/Main.antt =====
-- main of 22_4.c.
use network_system_programmi.Prelude.{ℕ, Bool, true, false, ◌++◌, ltb, if◌then◌else◌, length}
use network_system_programmi.Prelude.Bytes.{Bytes, codes, equal, decimal}
use network_system_programmi.Signals.{
  returns, undefined, P, ◌>>=◌, ◌>>◌, pure, print, die, or_die, Calls, pause, is_fixed, Handler,
  minus_one, sig_hold, handler, mysigset, mysighold, mysigrelse, mysigignore, mysigpause,
}

-- `char fun[10]` and `char disp[10]`
abbrev pub word_room : ℕ
word_room = 10

abbrev pub is_minus_one : Handler → Bool
is_minus_one minus_one = true
is_minus_one sig_hold = false
is_minus_one handler = false

-- scanf stores what is typed for disp, of any length, in the array.
unfoldable pub store_word : Bytes → P (Unit {0})
store_word s p = if ltb (length s) word_room then returns tt p else undefined

unfoldable pub set_disposition : Calls → ℕ → Bytes → P ℕ
set_disposition c sig disp = do
  h ← mysigset c sig disp
  if is_minus_one h then die (codes "wrong disp[]\n") else pure 0

unfoldable pub main_sigset : Calls → ℕ → Bytes → P ℕ
main_sigset c sig disp = do
  print (codes "Please enter the sig_num (e.g. 2 for SIGINT):")
  print (codes "Please enter disp(SIG_DFL/SIG_IGNORE/SIG_HOLD):")
  store_word disp
  if is_fixed sig
      then die (codes "The dispositions for SIGKILL and SIGSTOP cannot be changed.\n")
      else set_disposition c sig disp

-- The other branches: the question, the call, what is printed behind it, and pause.
unfoldable pub main_call : Calls → Bytes → P Bool → Bytes → Bytes → P ℕ
main_call c question call failure success = do
  print question
  or_die call failure
  print success
  pause c
  pure 0

-- The branches of main for the argument, which run on what is typed.
unfoldable pub run_call : Calls → (fun : Bytes) → (sig : ℕ) → (disp : Bytes) → P ℕ
run_call c fun sig disp =
    if equal fun (codes "sigset")
    then main_sigset c sig disp
    else if equal fun (codes "sighold")
    then main_call c
        (codes "Please enter the sig_num (e.g. 2 for SIGINT) to add in in process's mask:")
        (mysighold c sig) (codes "mysighold\n")
        (codes "Successfully add sig" ++ (decimal sig ++ codes " in process's mask\n"))
    else if equal fun (codes "sigrelse")
    then main_call c
        (codes "Please enter the sig_num (e.g. 2 for SIGINT) to been remove from process's mask:")
        (mysigrelse c sig) (codes "mysigrelse\n")
        (codes "Successfully remove sig" ++ (decimal sig ++ codes " from process's mask\n"))
    else if equal fun (codes "sigignore")
    then main_call c
        (codes "Please enter the sig_num (e.g. 2 for SIGINT), which will be set to SIG_IGN:")
        (mysigignore sig) (codes "mysigignore\n")
        (codes "Successfully set sig" ++ (decimal sig ++ codes " to SIG_IGN\n"))
    else if equal fun (codes "sigpause")
    then main_call c (codes "Please enter the sig_num to block (e.g. 2 for SIGINT):")
        (mysigpause c sig) (codes "mysigpause\n")
        (codes "Successfully block sig" ++ (decimal sig ++ codes "\n"))
    else pure 0

-- main for an argument, with the number and the disposition that are typed; a number is taken to be
-- read, and not to be negative.
unfoldable pub main : Calls → (fun : Bytes) → (sig : ℕ) → (disp : Bytes) → P ℕ
main c fun sig disp = store_word fun >> run_call c fun sig disp
