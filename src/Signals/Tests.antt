-- ===== src/Signals/Tests.antt =====
-- Runs of 22_4.c for SIGINT and SIGKILL in a process that blocks SIGHUP.
use network_system_programmi.Prelude.{ℕ, true, false, not, ◌&&◌, ◌||◌, [], ◌≡◌, refl, ◌==◌}
use network_system_programmi.Prelude.Bytes.{codes, equal}
use network_system_programmi.Signals.{
  default, ignored, Process, returns, waits, undefined, Calls, is_signal, is_fixed, assign,
}
use network_system_programmi.Signals.Main.{store_word, run_call, main}
use network_system_programmi.Signals.Masks.{
  Waits, Plain, Fails, hold_text, main-Waits, main-refused,
}

abbrev plain_calls : Calls
plain_calls = record { mask_ok = true; wakes = false }

abbrev hup_blocked : Process
hup_blocked = record { mask = λ n. n == 1; action = λ n. default; out = [] }

int-Plain : Plain plain_calls 2
int-Plain = record { masks = refl; waits = refl; signal = refl; free = refl }

main-Waits_example :
    Waits
      (main plain_calls (codes "sighold") 2 [] hup_blocked)
      (λ n. (n == 1 || n == 2) && not (is_fixed n))
      (λ n. default)
    × Waits
        (main plain_calls (codes "sigset") 2 (codes "SIG_HOLD") hup_blocked)
        (λ n. (n == 1 || n == 2) && not (is_fixed n))
        (λ n. default)
    × Waits
        (main plain_calls (codes "sigignore") 2 [] hup_blocked)
        (λ n. n == 1)
        (assign 2 ignored (λ n. default))
    × Waits
        (main plain_calls (codes "sigset") 2 (codes "SIG_DFL") hup_blocked)
        (λ n. n == 1)
        (assign 2 default (λ n. default))
    × Waits
        (main plain_calls (codes "sigrelse") 2 [] hup_blocked)
        (λ n. (is_signal n && not (n == 2)) && not (is_fixed n))
        (λ n. default)
    × Waits
        (main plain_calls (codes "sigpause") 2 [] hup_blocked)
        (λ n. n == 2 && not (is_fixed n))
        (λ n. default)
    × ((any : ℕ)
        → main plain_calls (codes "sigset") any (codes "SIG_IGNORE") hup_blocked ≡ undefined)
main-Waits_example = main-Waits plain_calls 2 [] hup_blocked int-Plain

main-refused_example :
    Fails (main plain_calls (codes "sigset") 9 (codes "SIG_DFL") hup_blocked)
    × Fails (main plain_calls (codes "sigignore") 9 [] hup_blocked)
    × (q : Process) × (main plain_calls (codes "sighold") 9 [] hup_blocked ≡ waits q)
    × ((n : ℕ) → q.mask n ≡ (n == 1 && not (is_fixed n)))
    × ((n : ℕ) → q.action n ≡ default)
    × (q.out ≡ hold_text 9)
main-refused_example = main-refused plain_calls 9 [] hup_blocked refl refl refl

-- A command that it does not know: nothing is done.
no_command : main plain_calls (codes "sigwait") 2 [] hup_blocked ≡ returns 0 hup_blocked
unfolding main run_call store_word equal
no_command = refl
