-- ===== src/Signals.antt =====
-- SP_HW7/22_4.c: sigset, sighold, sigrelse, sigignore and sigpause of System V by sigaction and
-- sigprocmask, and the main that calls one of them.
pub mod Main
pub mod Masks
pub mod Tests
use network_system_programmi.Prelude.{
  ℕ, Bool, true, false, not, ◌&&◌, ◌||◌, List, [], ◌∷◌, ◌++◌, Option, none, some, ◌==◌, ltb, leb,
  if◌then◌else◌, length,
}
use network_system_programmi.Prelude.Bytes.{Bytes, codes, equal, decimal}

-- sigset_t
abbrev pub Set : Type 0
Set = ℕ → Bool

-- SIG_DFL, SIG_IGN or a function.
pub data Action : Type 0 where
  default ignored caught : Action

pub record Process : Type 0 where
  pub mask : Set
  pub action : ℕ → Action
  pub out : Bytes

-- How a call or the program goes on: it returns, exit ends it, it waits in pause or sigsuspend, or it
-- is undefined.
pub data Result (A : Type 0) : Type 0 where
  returns : A → Process → Result A
  exits : (status : ℕ) → (out : Bytes) → Result A
  waits : Process → Result A
  undefined : Result A

abbrev pub P : Type 0 → Type 0
P A = Process → Result A

abbrev pub bind_result : {X Y : Type 0} → Result X → (X → P Y) → Result Y
bind_result (returns a p) later = later a p
bind_result (exits n s) later = exits n s
bind_result (waits p) later = waits p
bind_result undefined later = undefined

infixl 5 ◌>>=◌ ◌>>◌
abbrev pub ◌>>=◌ : {X Y : Type 0} → P X → (X → P Y) → P Y
◌>>=◌ now later p = bind_result (now p) later

abbrev pub ◌>>◌ : {Y : Type 0} → P (Unit {0}) → P Y → P Y
now >> later = now >>= λ _. later

abbrev pub pure : {A : Type 0} → A → P A
pure a p = returns a p

abbrev pub print : Bytes → P (Unit {0})
print s p = returns tt (record p { out = p.out ++ s })

-- printf (s); exit (1)
abbrev pub die : {A : Type 0} → Bytes → P A
die s p = exits 1 (p.out ++ s)

-- Whether sigprocmask succeeds, and whether pause and sigsuspend return, as they do behind a handler.
pub record Calls : Type 0 where
  pub mask_ok : Bool
  pub wakes : Bool

-- The signals of Linux but for the two that the C library keeps for itself.
abbrev pub is_signal : ℕ → Bool
is_signal n = leb 1 n && (leb n 64 && not (n == 32 || n == 33))

-- SIGKILL and SIGSTOP
abbrev pub is_fixed : ℕ → Bool
is_fixed n = n == 9 || n == 19

abbrev pub sigemptyset : Set
sigemptyset n = false

abbrev pub sigfillset : Set
sigfillset n = is_signal n

-- Of a number that is no signal, the two leave the set as it is.
abbrev pub sigaddset : Set → ℕ → Set
sigaddset set sig n = set n || is_signal sig && n == sig

abbrev pub sigdelset : Set → ℕ → Set
sigdelset set sig n = set n && not (is_signal sig && n == sig)

-- -1 for a number that is no signal counts as true.
abbrev pub sigismember : Set → ℕ → Bool
sigismember set sig = set sig || not (is_signal sig)

-- SIG_BLOCK and SIG_SETMASK
pub data How : Type 0 where
  sig_block sig_setmask : How

-- SIGKILL and SIGSTOP are silently left out.
abbrev pub masked : How → Set → Set → Set
masked sig_block set old n = (old n || set n) && not (is_fixed n)
masked sig_setmask set old n = set n && not (is_fixed n)

-- 0 as true, -1 as false, here and below.
unfoldable pub sigprocmask : Calls → How → Set → P Bool
sigprocmask c how set p =
    if c.mask_ok then returns true (record p { mask = masked how set p.mask }) else returns false p

abbrev pub assign : ℕ → Action → (ℕ → Action) → ℕ → Action
assign sig a f n = if n == sig then a else f n

unfoldable pub sigaction : ℕ → Action → P Bool
sigaction sig a p =
    if is_signal sig && not (is_fixed sig)
    then returns true (record p { action = assign sig a p.action })
    else returns false p

unfoldable pub pause : Calls → P (Unit {0})
pause c p = if c.wakes then returns tt p else waits p

-- `if (call == -1) { printf (s); exit (1); }`
abbrev pub or_die : P Bool → Bytes → P (Unit {0})
or_die call s = call >>= λ ok. if ok then pure tt else die s

-- `if (call == -1) { printf (s); return -1; }` and `return 0`
abbrev pub or_fail : P Bool → Bytes → P Bool
or_fail call s = call >>= λ ok. if ok then pure true else print s >> pure false

-- The values of sighandler_t that mysigset returns.
pub data Handler : Type 0 where
  minus_one sig_hold handler : Handler

-- One branch of mysigset: the call, what is printed behind it, and pause.
abbrev pub disposed : Calls → P Bool → (failure success : Bytes) → P Bool
disposed c call failure success = do or_die call failure; print success; pause c; pure true

-- The branches of mysigset; false for a disposition that it does not know.
unfoldable pub dispose : Calls → ℕ → Bytes → P Bool
dispose c sig disp =
    if equal disp (codes "SIG_DFL")
    then disposed c (sigaction sig default) (codes "sigaction in mysigset\n")
        (decimal sig ++ codes "(sig_num) has been reset to default now\n")
    else if equal disp (codes "SIG_IGNORE")
    then disposed c (sigaction sig ignored) (codes "sigaction in mysigset\n")
        (decimal sig ++ codes "(sig_num) has been ignored now\n")
    else if equal disp (codes "SIG_HOLD")
    then disposed c (sigprocmask c sig_block (sigaddset sigemptyset sig))
        (codes "sigprocmask in mysigset\n")
        (decimal sig ++ codes "(sig_num) has been blocked now\n")
    else pure false

-- sigprocmask (SIG_BLOCK, NULL, &block_set)
unfoldable pub block_set : Calls → P Set
block_set c p =
    if c.mask_ok then returns p.mask p else exits 1 (p.out ++ codes "sigprocmask in mysigset\n")

unfoldable pub mysigset : Calls → ℕ → Bytes → P Handler
mysigset c sig disp = do
  old ← block_set c
  known ← dispose c sig disp
  pure (if known then (if sigismember old sig then sig_hold else handler) else minus_one)

unfoldable pub mysighold : Calls → ℕ → P Bool
mysighold c sig =
    or_fail (sigprocmask c sig_block (sigaddset sigemptyset sig))
      (codes "sigprocmask in mysighold\n")

unfoldable pub mysigrelse : Calls → ℕ → P Bool
mysigrelse c sig =
    or_fail (sigprocmask c sig_setmask (sigdelset sigfillset sig))
      (codes "sigprocmask in mysigrelse\n")

unfoldable pub mysigignore : ℕ → P Bool
mysigignore sig = or_fail (sigaction sig ignored) (codes "sigaction in mysigignore\n")

-- sigsuspend waits under another mask and gives -1 behind it, with the mask as before.
unfoldable pub mysigpause : Calls → ℕ → P Bool
mysigpause c sig p =
    if c.wakes
    then returns false p
    else waits (record p { mask = masked sig_setmask (sigaddset sigemptyset sig) p.mask })
