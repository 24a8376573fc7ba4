-- ===== src/Popen/Tests.antt =====
-- Runs of my_popen and my_pclose, and the theorems at them.
use network_system_programmi.Prelude.{
  ℕ, true, List, [], ◌∷◌, ◌++◌, none, some, ◌≡◌, refl, arith, get_elem?,
}
use network_system_programmi.Prelude.Bytes.{codes, equal, decimal}
use network_system_programmi.Prelude.Int.{pos, negsuc}
use network_system_programmi.Popen.{
  Process, FilePointer, End, read_end, write_end, child, parent, Fork, Answers, shell, enter,
  my_popen, Waits, gives, report, my_pclose,
}
use network_system_programmi.Popen.Main.{start, Run, exits, main}
use network_system_programmi.Popen.Output.{start-Represents, main-output}
use network_system_programmi.Popen.Calls.{Call, popen, pclose, Reply, opened, closed, goes_on, run}
use network_system_programmi.Popen.Bounds.{Bounded, GoesOn, run-Bounded}
use network_system_programmi.Popen.Stack.{stack_run, stack_call}
use network_system_programmi.Popen.Pushes.{Represents, enter-Represents}
use network_system_programmi.Popen.Nested.{run-stack_run}
use network_system_programmi.Popen.Lost.{my_pclose-lost}
use network_system_programmi.Popen.Child.{Prepared, my_popen-shell}

abbrev answers : ℕ → Fork → FilePointer → Answers
answers id fork f = record {
  pipe_id = id;
  pipe = some (3, 4);
  fork = fork;
  fdopen = f;
  exec_ok = true;
}

-- Every process that is waited for has ended with status 1.
abbrev ended : Waits
ended pid = some 256

abbrev calls : List Call
calls =
    popen (answers 0 (parent 40) (some 900)) (codes "ls") (codes "r")
    ∷ popen (answers 1 (parent 41) (some 901)) (codes "cat") (codes "w")
    ∷ popen (answers 2 (parent 42) (some 902)) (codes "cat") (codes "rw")
    ∷ pclose ended (some 901)
    ∷ pclose ended (some 777)
    ∷ pclose ended (some 900)
    ∷ []

run-Bounded_example : GoesOn Bounded (run calls start)
run-Bounded_example =
    run-Bounded calls start
      ((λ e. cc), ((λ e. cc), ((λ e. cc), ((λ e. cc), ((λ e. cc), ((λ e. cc), tt))))))
      start-Represents.bounded

abbrev replies : List Reply
replies =
    opened (some 900)
    ∷ opened (some 901)
    ∷ opened none
    ∷ closed (pos 256) (some 41)
    ∷ closed (negsuc 0) none
    ∷ closed (pos 256) (some 40)
    ∷ []

stack_run_calls : stack_run calls [] ≡ some (replies, [])
unfolding stack_run stack_call equal
stack_run_calls = refl

run-stack_run_example : (q : Process) × (run calls start ≡ goes_on replies q) × Represents [] q
run-stack_run_example = run-stack_run calls [] [] replies start start-Represents stack_run_calls

-- Two streams, the second the newer.
abbrev two_open : Process
two_open = enter (some 901) 6 41 (enter (some 900) 3 40 start)

two_open-Represents : Represents ((901, 41) ∷ (900, 40) ∷ []) two_open
two_open-Represents =
    enter-Represents 901 6 41 ((900, 40) ∷ []) (enter (some 900) 3 40 start)
      (enter-Represents 900 3 40 [] start start-Represents (omega arith) refl) (omega arith) refl

my_pclose-lost_example :
    (stat pid : ℕ) × (p' : Process) × (my_pclose ended (some 900) two_open
      ≡ gives (pos stat) (some pid) p')
    × (my_pclose ended (some 901) p' ≡ gives (negsuc 0) none p')
    × (get_elem? p'.streams p'.count ≡ some (some 901))
my_pclose-lost_example =
    my_pclose-lost ended 900 901 41 ((900, 40) ∷ []) two_open two_open-Represents refl
      (λ pid. (256, refl))

abbrev forks : Answers
forks = answers 2 child none

my_popen-shell_example :
    ((fds : ℕ → End) × (my_popen forks (codes "ls") (codes "r") start ≡ shell (codes "ls") fds)
      × Prepared start 1 3 4 (write_end 2) fds)
    × ((fds : ℕ → End) × (my_popen forks (codes "ls") (codes "w") start ≡ shell (codes "ls") fds)
        × Prepared start 0 3 4 (read_end 2) fds)
my_popen-shell_example =
    my_popen-shell forks (codes "ls") [] start 3 4 start-Represents tt refl (omega arith)
      (omega arith) (λ e. omega arith) (omega arith) refl refl

-- A command that prints one line and ends with status 1.
abbrev one_line : Run
one_line = record {
  answers = answers 0 (parent 40) (some 900);
  waits = ended;
  output = codes "out\n";
  input = [];
  write_ok = λ i. true;
}

main-output_example :
    (p : Process) × (main one_line (codes "ls" ∷ codes "r" ∷ []) ≡ exits 0 [] p)
    × (p.out ≡ codes "out\n" ++ report 256)
    × (p.count ≡ 0)
main-output_example =
    main-output one_line (codes "ls") 900 3 4 40 256 refl refl refl (λ i. refl) refl (omega arith)

report_status : report 256 ≡ codes "exited, status=1\n"
unfolding report decimal
report_status = refl
