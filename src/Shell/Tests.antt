-- ===== src/Shell/Tests.antt =====
-- Runs of the shell on concrete command lines, and its theorems at inputs that meet their conditions.
use network_system_programmi.Prelude.{
  ◌+◌, true, List, [], ◌∷◌, ◌++◌, none, some, ◌≡◌, refl, arith, All, if◌then◌else◌, is_empty,
}
use network_system_programmi.Prelude.Bytes.{Bytes, codes, equal, decimal, cstr}
use network_system_programmi.Prelude.Int.{ℤ}
use network_system_programmi.Tokens.{is_delim, extend, words, join}
use network_system_programmi.Tokens.Words.{IsWord}
use network_system_programmi.Libc.{fgets}
use network_system_programmi.Machine.{World, inherited, file, Grants, Os, parent, Ensures}
use network_system_programmi.Shell.Parse.{parse}
use network_system_programmi.Shell.Parse.Safety.{
  argv_of, Parsed, parse-Parsed, parse-join, free_parsed, free_argv-parse,
}
use network_system_programmi.Shell.Scan.Facts.{bar, PipeIn}
use network_system_programmi.Shell.Pipe.{pipe_and_exec}
use network_system_programmi.Shell.Pipe.Outcomes.{Replaced, Ran, pipe_and_exec-Ran}
use network_system_programmi.Shell.Redirect.Cleared.{less, greater}
use network_system_programmi.Shell.Run.{exited, run_child}
use network_system_programmi.Shell.Run.Child.{complained, run_child_input}
use network_system_programmi.Shell.Builtin.{find_command}
use network_system_programmi.Shell.Main.{Setting, main_loop}
use network_system_programmi.Shell.Main.Loop.{Plain, lines_of, busy, main_loop-Ensures}

abbrev pub always : Grants
always n = true

abbrev pub fresh : World
fresh = record { calls = 0; live = 0; out = []; fd0 = inherited; fd1 = inherited; cwd = codes "/" }

abbrev pub plain_os : Os
plain_os = record {
  grants = always;
  can_open = λ f. true;
  exec_errno = λ l. none;
  pipe_ok = true;
  errno = 0;
  fork = parent;
}

abbrev setting : Setting
setting = record {
  os = plain_os;
  host = record {
    resolve = λ cwd path. some path;
    hostname = some (codes "h");
    uid = 0;
    passwd = none;
  };
  role = λ line. parent;
  stat = λ line. exited 0;
}

abbrev pub ls_line : Bytes
ls_line = codes "ls  -l\n"

words_of_ls : words ls_line ≡ codes "ls" ∷ codes "-l" ∷ []
unfolding words is_delim extend
words_of_ls = refl

decimal_runs : decimal 1203 ≡ codes "1203"
unfolding decimal
decimal_runs = refl

parse-Parsed_example : Ensures always (parse always ls_line fresh) (Parsed (words ls_line) fresh)
parse-Parsed_example = parse-Parsed always ls_line fresh

two : List Bytes
two = codes "ls" ∷ codes "-l" ∷ []

two-IsWord : All IsWord two
unfolding two is_delim
two-IsWord = (((λ e. cc), (refl, (refl, tt))), (((λ e. cc), (refl, (refl, tt))), tt))

parse-join_example :
    Ensures always (parse always (join two ++ (b'\n' ∷ [])) fresh) (Parsed two fresh)
parse-join_example = parse-join always two fresh two-IsWord

free_argv-parse_example : Ensures always (parse always ls_line fresh) (λ r.
    Ensures always
      (free_parsed r.0 r.1)
      (λ q. q.1.live ≡ 0 + (if is_empty (words ls_line) then 0 else 1)))
free_argv-parse_example = free_argv-parse always ls_line fresh

abbrev piped : List Bytes
piped = codes "ls" ∷ bar ∷ codes "wc" ∷ []

pipe_and_exec-Ran_example :
    (z : ℤ) × PipeIn piped z
    × Ran plain_os piped fresh z (pipe_and_exec plain_os 4 (argv_of piped) fresh)
pipe_and_exec-Ran_example = pipe_and_exec-Ran plain_os 3 piped fresh

abbrev redirected : List Bytes
redirected = codes "cat" ∷ less ∷ codes "in" ∷ greater ∷ codes "out" ∷ []

run_child_input_example :
    Replaced plain_os
      (codes "cat" ∷ [])
      (complained plain_os (record fresh { fd0 = file (codes "in") }))
      (run_child plain_os (argv_of redirected) fresh)
unfolding equal
run_child_input_example =
    run_child_input plain_os (codes "cat") [] (codes "in") (greater ∷ codes "out" ∷ []) fresh
      (refl, tt) (refl, tt) (refl, tt) refl

abbrev session : Bytes
session = codes "ls -l\n\nwc x\n"

session-Plain : All (λ l. Plain (words l)) (lines_of 20 session)
unfolding lines_of fgets words is_delim extend find_command equal cstr
session-Plain = (refl, (tt, (refl, tt)))

main_loop-Ensures_example :
    Ensures always
      (main_loop setting 20 session none fresh)
      (λ r. r.1.live ≡ 0 + busy (lines_of 20 session))
main_loop-Ensures_example =
    main_loop-Ensures setting (λ line. refl) 20 session none fresh (omega arith) session-Plain
