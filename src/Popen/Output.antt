-- ===== src/Popen/Output.antt =====
-- A whole run of 44_2.c in mode "r".
use network_system_programmi.Prelude.{
  ℕ, zero, suc, ◌+◌, ◌-◌, ◌<◌, true, [], ◌∷◌, ◌++◌, none, some, ◌≡◌, refl, sym, ap, subst,
  append_assoc, append-nil, ◌∙◌, inl, inr, arith, length, length-replicate, Option-cases,
  if◌then◌else◌,
}
use network_system_programmi.Prelude.Bytes.{Bytes, codes, equal, cstr}
use network_system_programmi.Libc.{fgets}
use network_system_programmi.Libc.Lines.{
  fgets-lt, fgets-append, fgets-none, NoNul, cstr-NoNul, NoNul-split,
}
use network_system_programmi.Popen.{
  max_popen, set_fd, closed, FilePointer, Process, parent, Answers, returns, open_pipe, enter,
  register, forked, popen_read, my_popen, say, report, reap, my_pclose,
}
use network_system_programmi.Popen.Main.{start, Run, exits, closing, copy_output, opened, main}
use network_system_programmi.Popen.Pushes.{
  Represents, enter-Represents, register_lem, same_tables, said,
}
use network_system_programmi.Popen.Pops.{cleared, reaped, pclose_newest}

say-say : (a b : Bytes) (p : Process) → say b (say a p) ≡ say (a ++ b) p
say-say a b p = ap (λ s. record p { out = s }) (append_assoc p.out a b)

-- The loop copies what it reads, line by line.
copy_output_lem :
    (r : Run) (fp : FilePointer) (fuel i : ℕ) (input : Bytes) (p : Process)
    → ((j : ℕ) → r.write_ok j ≡ true)
    → NoNul input
    → length input < fuel
    → copy_output r fp fuel i input p ≡ closing [] (my_pclose r.waits fp (say input p))
unfolding copy_output
copy_output_lem r fp zero i input p ok plain h = absurd (omega arith)
copy_output_lem r fp (suc fuel) i input p ok plain h = elim (Option-cases (fgets 255 input)) [
  | inl e ↦
      let empty : input ≡ [] = fgets-none 255 input e in
      rw (e, copy_output)
        (ap (λ q. closing [] (my_pclose r.waits fp q))
          (sym (rw empty (ap (λ s. record p { out = s }) (append-nil p.out)))))
  | inr ((line, rest), e) ↦
      let parts = NoNul-split line rest (subst NoNul (sym (fgets-append 255 input e)) plain) in
      rw (e, copy_output)
        (ap
            (λ b.
              if b then copy_output r fp fuel (i + 1) rest (say (cstr line) p) else exits 1 [] p)
            (ok i)
          ∙ copy_output_lem r fp fuel (i + 1) rest (say (cstr line) p) ok parts.1
              (omega (arith, fgets-lt 254 input e))
          ∙ ap (λ q. closing [] (my_pclose r.waits fp q))
              (say-say (cstr line) rest p
                ∙ ap (λ s. say s p) (rw (cstr-NoNul line parts.0) (fgets-append 255 input e))))
]

pub start-Represents : Represents [] start
unfolding start
start-Represents = record {
  bounded = record {
    streams_fit = length-replicate {A = FilePointer} max_popen none;
    pids_fit = length-replicate {A = ℕ} max_popen 0;
    count_fits = omega arith;
  };
  counted = refl;
  holds = tt;
}

-- The parent behind my_popen.
my_popen-start :
    (k : Answers) (command : Bytes) (f r w pid : ℕ)
    → k.fork ≡ parent pid
    → k.pipe ≡ some (r, w)
    → k.fdopen ≡ some f
    → (p : Process) × (my_popen k command (codes "r") start ≡ returns (some f) p)
      × Represents ((f, pid) ∷ []) p
      × (p.out ≡ [])
unfolding my_popen equal popen_read open_pipe forked start enter
my_popen-start k command f r w pid a b c =
    let q : Process = record start { fds = set_fd w closed (open_pipe k.pipe_id r w start).fds } in
    (
      enter (some f) r pid q,
      ap (λ o. popen_read k command start o) b
          ∙ ap (λ x. forked k x command r w 1 (open_pipe k.pipe_id r w start)) a
          ∙ ap (λ s. register s r pid q) c
          ∙ register_lem (some f) r pid q ((same_tables q.fds start-Represents).bounded)
              (omega arith),
      enter-Represents f r pid [] q (same_tables q.fds start-Represents) (omega arith) refl,
      refl,
    )

-- Where fork answers as the parent, the pipe and its stream are made, the writes succeed and waitpid
-- gives the command's status: a run in mode "r" of a command whose output has no NUL ends with
-- status 0, its stdout is that output, byte for byte, with the line that reports the status
-- behind it, and no stream is left in the table.
pub main-output :
    (run : Run) (command : Bytes) (f r w pid stat : ℕ)
    → run.answers.fork ≡ parent pid
    → run.answers.pipe ≡ some (r, w)
    → run.answers.fdopen ≡ some f
    → ((i : ℕ) → run.write_ok i ≡ true)
    → run.waits pid ≡ some stat
    → NoNul run.output
    → (p : Process) × (main run (command ∷ codes "r" ∷ []) ≡ exits 0 [] p)
      × (p.out ≡ run.output ++ report stat)
      × (p.count ≡ 0)
unfolding main opened equal closing reap reaped
main-output run command f r w pid stat a b c ok wait plain =
    let (p, opens, holds, silent) = my_popen-start run.answers command f r w pid a b c in
    let p' = say run.output p in
    (
      reaped stat (cleared 0 f p'),
      ap (opened run (codes "r")) opens
          ∙ copy_output_lem run (some f) (suc (length run.output)) 0 run.output p ok plain
              (omega arith)
          ∙ ap (closing []) (
              pclose_newest run.waits f pid [] p' (said run.output holds)
              ∙ ap (λ o. reap o pid (cleared 0 f p')) wait),
      ap (λ o. (o ++ run.output) ++ report stat) silent,
      ap (λ n. n - 1) holds.counted,
    )
