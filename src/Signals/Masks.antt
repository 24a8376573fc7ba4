-- ===== src/Signals/Masks.antt =====
-- The masks and actions that the functions of 22_4.c leave.
use network_system_programmi.Prelude.{
  ℕ, Bool, true, false, not, ◌&&◌, ◌||◌, ◌≡◌, refl, arith, ◌==◌, Bool-cases, inl, inr, ◌++◌,
  append_assoc,
}
use network_system_programmi.Prelude.Bytes.{Bytes, codes, equal, decimal}
use network_system_programmi.Signals.{
  Action, default, ignored, Process, Result, waits, undefined, exits, Calls, is_signal, is_fixed,
  assign, pause, sigaction, sigprocmask, block_set, dispose, mysigset, mysighold, mysigrelse,
  mysigignore, mysigpause,
}
use network_system_programmi.Signals.Main.{
  store_word, main_sigset, main_call, run_call, set_disposition, main,
}

-- A program that waits, in a process with this mask and these actions.
abbrev pub Waits : Result ℕ → (ℕ → Bool) → (ℕ → Action) → Type 0
Waits r mask action =
    (q : Process) × (r ≡ waits q)
    × ((n : ℕ) → q.mask n ≡ mask n)
    × ((n : ℕ) → q.action n ≡ action n)

-- Without the calls that fail and those that return behind a handler, for a signal that is not fixed.
pub record Plain (c : Calls) (sig : ℕ) : Type 0 where
  pub masks : c.mask_ok ≡ true
  pub waits : c.wakes ≡ false
  pub signal : is_signal sig ≡ true
  pub free : is_fixed sig ≡ false

changeable :
    (sig : ℕ)
    → is_signal sig ≡ true
    → is_fixed sig ≡ false
    → (is_signal sig && not (is_fixed sig)) ≡ true
changeable sig s f = rw (s, f) refl

main-sighold :
    (c : Calls) (sig : ℕ) (disp : Bytes) (p : Process)
    → Plain c sig
    → Waits
        (main c (codes "sighold") sig disp p)
        (λ n. (p.mask n || n == sig) && not (is_fixed n))
        p.action
unfolding main run_call store_word equal main_call mysighold sigprocmask pause
main-sighold c sig disp p r = rw (r.masks, r.waits) (_, refl, λ n. rw r.signal refl, λ n. refl)

main-sigrelse :
    (c : Calls) (sig : ℕ) (disp : Bytes) (p : Process)
    → Plain c sig
    → Waits
        (main c (codes "sigrelse") sig disp p)
        (λ n. (is_signal n && not (n == sig)) && not (is_fixed n))
        p.action
unfolding main run_call store_word equal main_call mysigrelse sigprocmask pause
main-sigrelse c sig disp p r = rw (r.masks, r.waits) (_, refl, λ n. rw r.signal refl, λ n. refl)

main-sigignore :
    (c : Calls) (sig : ℕ) (disp : Bytes) (p : Process)
    → Plain c sig
    → Waits (main c (codes "sigignore") sig disp p) p.mask (assign sig ignored p.action)
unfolding main run_call store_word equal main_call mysigignore sigaction pause
main-sigignore c sig disp p r =
    rw (changeable sig r.signal r.free, r.waits) (_, refl, λ n. refl, λ n. refl)

main-sigpause :
    (c : Calls) (sig : ℕ) (disp : Bytes) (p : Process)
    → Plain c sig
    → Waits (main c (codes "sigpause") sig disp p) (λ n. n == sig && not (is_fixed n)) p.action
unfolding main run_call store_word equal main_call mysigpause pause
main-sigpause c sig disp p r = rw r.waits (_, refl, λ n. rw r.signal refl, λ n. refl)

main-default :
    (c : Calls) (sig : ℕ) (p : Process)
    → Plain c sig
    → Waits (main c (codes "sigset") sig (codes "SIG_DFL") p) p.mask (assign sig default p.action)
unfolding main run_call store_word equal main_sigset set_disposition mysigset block_set dispose
    sigaction pause
main-default c sig p r =
    rw (r.free, r.masks, changeable sig r.signal r.free, r.waits) (_, refl, λ n. refl, λ n. refl)

main-hold :
    (c : Calls) (sig : ℕ) (p : Process)
    → Plain c sig
    → Waits
        (main c (codes "sigset") sig (codes "SIG_HOLD") p)
        (λ n. (p.mask n || n == sig) && not (is_fixed n))
        p.action
unfolding main run_call store_word equal main_sigset set_disposition mysigset block_set dispose
    sigprocmask pause
main-hold c sig p r = rw (r.free, r.masks, r.waits) (_, refl, λ n. rw r.signal refl, λ n. refl)

-- 22_4.c where no call fails and no handler runs, for a signal other than SIGKILL and SIGSTOP: each
-- command leaves the program waiting. sighold and sigset with SIG_HOLD add the signal to the mask,
-- sigignore and sigset with SIG_DFL set its action and nothing else; but sigrelse blocks every other
-- signal, whatever the mask was, and sigpause waits with the signal itself blocked and no other.
-- sigset with SIG_IGNORE is undefined for every number, as that word does not fit its array.
pub main-Waits :
    (c : Calls) (sig : ℕ) (disp : Bytes) (p : Process)
    → Plain c sig
    → Waits
        (main c (codes "sighold") sig disp p)
        (λ n. (p.mask n || n == sig) && not (is_fixed n))
        p.action
      × Waits
          (main c (codes "sigset") sig (codes "SIG_HOLD") p)
          (λ n. (p.mask n || n == sig) && not (is_fixed n))
          p.action
      × Waits (main c (codes "sigignore") sig disp p) p.mask (assign sig ignored p.action)
      × Waits (main c (codes "sigset") sig (codes "SIG_DFL") p) p.mask (assign sig default p.action)
      × Waits
          (main c (codes "sigrelse") sig disp p)
          (λ n. (is_signal n && not (n == sig)) && not (is_fixed n))
          p.action
      × Waits (main c (codes "sigpause") sig disp p) (λ n. n == sig && not (is_fixed n)) p.action
      × ((any : ℕ) → main c (codes "sigset") any (codes "SIG_IGNORE") p ≡ undefined)
unfolding main run_call store_word equal main_sigset
main-Waits c sig disp p r = (
  main-sighold c sig disp p r,
  main-hold c sig p r,
  main-sigignore c sig disp p r,
  main-default c sig p r,
  main-sigrelse c sig disp p r,
  main-sigpause c sig disp p r,
  λ any. refl,
)

not_added :
    (sig n : ℕ) (b : Bool)
    → (is_signal sig && not (is_fixed sig)) ≡ false
    → ((b || (false || is_signal sig && n == sig)) && not (is_fixed n)) ≡ (b && not (is_fixed n))
not_added sig n b h = ground arith

-- The program has ended with status 1.
abbrev pub Fails : Result ℕ → Type 0
Fails r = (out : Bytes) × (r ≡ exits 1 out)

-- What sighold prints: the question and the message of success.
abbrev pub hold_text : ℕ → Bytes
hold_text sig =
    codes "Please enter the sig_num (e.g. 2 for SIGINT) to add in in process's mask:"
    ++ (codes "Successfully add sig" ++ (decimal sig ++ codes " in process's mask\n"))

hold_refused :
    (c : Calls) (sig : ℕ) (disp : Bytes) (p : Process)
    → c.mask_ok ≡ true
    → c.wakes ≡ false
    → (is_signal sig && not (is_fixed sig)) ≡ false
    → (q : Process) × (main c (codes "sighold") sig disp p ≡ waits q)
      × ((n : ℕ) → q.mask n ≡ (p.mask n && not (is_fixed n)))
      × ((n : ℕ) → q.action n ≡ p.action n)
      × (q.out ≡ p.out ++ hold_text sig)
unfolding main run_call store_word equal main_call mysighold sigprocmask pause
hold_refused c sig disp p m w h =
    rw (m, w)
      (
        _,
        refl,
        λ n. not_added sig n (p.mask n) h,
        λ n. refl,
        append_assoc p.out
            (codes "Please enter the sig_num (e.g. 2 for SIGINT) to add in in process's mask:")
            (codes "Successfully add sig" ++ (decimal sig ++ codes " in process's mask\n")),
      )

-- 22_4.c where no call of sigprocmask fails and no handler runs, for a number that is no signal, and for
-- SIGKILL and SIGSTOP: sigset to the default and
-- sigignore end the program with status 1, but sighold prints its question and its message of success
-- and waits, though no signal has been added to the mask.
pub main-refused :
    (c : Calls) (sig : ℕ) (disp : Bytes) (p : Process)
    → c.mask_ok ≡ true
    → c.wakes ≡ false
    → (is_signal sig && not (is_fixed sig)) ≡ false
    → Fails (main c (codes "sigset") sig (codes "SIG_DFL") p)
      × Fails (main c (codes "sigignore") sig disp p)
      × (q : Process) × (main c (codes "sighold") sig disp p ≡ waits q)
      × ((n : ℕ) → q.mask n ≡ (p.mask n && not (is_fixed n)))
      × ((n : ℕ) → q.action n ≡ p.action n)
      × (q.out ≡ p.out ++ hold_text sig)
unfolding main run_call store_word equal main_sigset set_disposition mysigset block_set dispose
    main_call mysigignore mysighold sigprocmask sigaction pause
main-refused c sig disp p m w h =
    let (q, waiting, mask, action, out) = hold_refused c sig disp p m w h in
    (
      elim (Bool-cases (is_fixed sig)) [
        | inl e ↦ rw e (_, refl)
        | inr e ↦ rw e (rw (m, h) (_, refl))
      ],
      rw h (_, refl),
      q,
      waiting,
      mask,
      action,
      out,
    )
