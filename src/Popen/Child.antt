-- ===== src/Popen/Child.antt =====
-- The child of my_popen: which descriptors the shell gets.
use network_system_programmi.Prelude.{
  subst, ℕ, zero, suc, ◌≤◌, ◌<◌, true, false, List, [], ◌∷◌, none, some, ◌≡◌, ◌≢◌, refl, sym, ap,
  ◌∙◌, arith, if◌then◌else◌, All, leb, length, get_elem?,
}
use network_system_programmi.Prelude.Bytes.{Bytes, codes, equal}
use native.Mathlib.Decide.{ℕ_discrete}
use network_system_programmi.Popen.{
  max_popen, FilePointer, Process, End, closed, read_end, write_end, set_fd, dup2, child, Answers,
  shell, exits_child, open_pipe, close_streams, run_shell, forked, popen_read, popen_write,
  my_popen,
}
use network_system_programmi.Popen.Loop.{Entry, Holds}
use network_system_programmi.Popen.Pushes.{Represents}

-- The first cells hold streams, and none of them has a standard descriptor.
Full : (ℕ → ℕ) → ℕ → List FilePointer → Type 0
Full fileno n cells =
    (i : ℕ) → i < n → (f : ℕ) × (get_elem? cells i ≡ some (some f)) × (2 < fileno f)

Holds-Full :
    (fileno : ℕ → ℕ) (st : List Entry) (streams : List FilePointer) (pids : List ℕ)
    → Holds st streams pids
    → All (λ e. 2 < fileno e.0) st
    → Full fileno (length st) streams
unfolding Full
Holds-Full fileno [] streams pids c a i l = absurd (omega arith)
Holds-Full fileno ((g, q) ∷ st) streams pids c a i l = elim (ℕ_discrete i (length st)) [
  | yes e ↦ (g, rw e c.0, a.0)
  | no n ↦ Holds-Full fileno st streams pids c.3 a.1 i (omega arith)
]

-- What the loop leaves: the descriptors of the streams are closed, the standard ones are as before, and
-- what was closed is.
record Closes (fileno : ℕ → ℕ) (n : ℕ) (cells : List FilePointer) (fds out : ℕ → End) : Type 0 where
  still : (q : ℕ) → fds q ≡ closed → out q ≡ closed
  standard : (q : ℕ) → q ≤ 2 → out q ≡ fds q
  streams : (i f : ℕ) → i < n → get_elem? cells i ≡ some (some f) → out (fileno f) ≡ closed

Closes-cons :
    (fileno : ℕ → ℕ) (n g : ℕ) (cells : List FilePointer) (fds out : ℕ → End)
    → Closes fileno n cells (set_fd (fileno g) closed fds) out
    → (i f : ℕ) → i < suc n
    → get_elem? (some g ∷ cells) i ≡ some (some f)
    → out (fileno f) ≡ closed
Closes-cons fileno n g cells fds out c zero f l e =
    let same : g ≡ f = cc in rw (← same) (c.still (fileno g) (ground arith))
Closes-cons fileno n g cells fds out c (suc i) f l e = c.streams i f (omega arith) e

close_streams-Closes :
    (fileno : ℕ → ℕ) (n : ℕ) (cells : List FilePointer) (fds : ℕ → End)
    → Full fileno n cells
    → (out : ℕ → End) × (close_streams fileno n cells fds ≡ some out)
      × Closes fileno n cells fds out
unfolding Full close_streams
close_streams-Closes fileno zero cells fds full = (
  fds,
  refl,
  record { still = λ q e. e; standard = λ q l. refl; streams = λ i f l e. absurd (omega arith) },
)
close_streams-Closes fileno (suc n) [] fds full = let (f, e, l) = full 0 (omega arith) in cc
close_streams-Closes fileno (suc n) (none ∷ cells) fds full =
    let (f, e, l) = full 0 (omega arith) in cc
close_streams-Closes fileno (suc n) (some g ∷ cells) fds full =
    let (out, e, c) =
      close_streams-Closes fileno n cells (set_fd (fileno g) closed fds)
        (λ i l. full (suc i) (omega arith)) in
    let (f, same, high) = full 0 (omega arith) in
    (
      out,
      e,
      record {
        still = λ q was. c.still q (ground arith);
        standard = λ q low. c.standard q low ∙ ground arith;
        streams = Closes-cons fileno n g cells fds out c;
      },
    )

-- What the shell has: its end of the pipe in the place of `std`, its other standard descriptors as they
-- were, and neither the pipe's descriptors nor those of the streams in the table.
pub record Prepared (p : Process) (std r w : ℕ) (own : End) (fds : ℕ → End) : Type 0 where
  pub redirected : fds std ≡ own
  pub kept : (q : ℕ) → q ≤ 2 → q ≢ std → fds q ≡ p.fds q
  pub pipe_closed : (fds r ≡ closed) × (fds w ≡ closed)
  pub streams_closed :
      (i f : ℕ) → i < p.count → get_elem? p.streams i ≡ some (some f) → fds (p.fileno f) ≡ closed

run_shell-Closes :
    (k : Answers) (command : Bytes) (st : List Entry) (p : Process) (f g : ℕ → End)
    → Represents st p
    → All (λ e. 2 < p.fileno e.0) st
    → k.exec_ok ≡ true
    → (fds : ℕ → End) × (run_shell k command (record p { fds = f }) g ≡ shell command fds)
      × Closes p.fileno p.count p.streams g fds
unfolding run_shell
run_shell-Closes k command st p f g rep a x =
    let (out, e, c) = close_streams-Closes p.fileno p.count p.streams g (
      subst (λ n. Full p.fileno n p.streams) (sym rep.counted)
        (Holds-Full p.fileno st p.streams p.pids rep.holds a)) in
    (out, rw (e, run_shell) (ap (λ b. if b then shell command out else exits_child) x), c)

module _ (k : Answers) (command : Bytes) (st : List Entry) (p : Process) (r w : ℕ)
    (rep : Represents st p) (high : All (λ e. 2 < p.fileno e.0) st) (x : k.exec_ok ≡ true)
    (r_high : 2 < r) (w_high : 2 < w) (apart : r ≢ w) where
  reader_child :
      (fds : ℕ → End) × (forked k child command r w 1 (open_pipe k.pipe_id r w p)
        ≡ shell command fds)
      × Prepared p 1 r w (write_end k.pipe_id) fds
  unfolding forked open_pipe
  reader_child =
      let (out, e, c) =
        run_shell-Closes k command st p _
          (set_fd w closed (
            dup2 w 1 (
              set_fd r closed
                (set_fd w (write_end k.pipe_id) (set_fd r (read_end k.pipe_id) p.fds)))))
          rep high x in
      (
        out,
        e,
        record {
          redirected = c.standard 1 (omega arith) ∙ ground arith;
          kept = λ q l n. c.standard q l ∙ ground arith;
          pipe_closed = (c.still r ground arith, c.still w ground arith);
          streams_closed = c.streams;
        },
      )

  writer_child :
      (fds : ℕ → End) × (forked k child command w r 0 (open_pipe k.pipe_id r w p)
        ≡ shell command fds)
      × Prepared p 0 r w (read_end k.pipe_id) fds
  unfolding forked open_pipe
  writer_child =
      let (out, e, c) =
        run_shell-Closes k command st p _
          (set_fd r closed (
            dup2 r 0 (
              set_fd w closed
                (set_fd w (write_end k.pipe_id) (set_fd r (read_end k.pipe_id) p.fds)))))
          rep high x in
      (
        out,
        e,
        record {
          redirected = c.standard 0 (omega arith) ∙ ground arith;
          kept = λ q l n. c.standard q l ∙ ground arith;
          pipe_closed = (c.still r (ground arith), c.still w (ground arith));
          streams_closed = c.streams;
        },
      )

  -- Where the tables hold a stack of fewer than 128 streams, none with a standard descriptor, and fork
  -- answers as the child: if pipe gives two new descriptors above the standard ones and execl
  -- succeeds, the child becomes a shell for the command, in mode "r" with the pipe's write end as
  -- its stdout, in mode "w" with the read end as its stdin; its other standard descriptors are as
  -- they were, and the descriptors of pipe and of all streams in the table are closed.
  pub my_popen-shell :
      length st < max_popen
      → k.fork ≡ child
      → k.pipe ≡ some (r, w)
      → ((fds : ℕ → End) × (my_popen k command (codes "r") p ≡ shell command fds)
          × Prepared p 1 r w (write_end k.pipe_id) fds)
        × ((fds : ℕ → End) × (my_popen k command (codes "w") p ≡ shell command fds)
            × Prepared p 0 r w (read_end k.pipe_id) fds)
  unfolding my_popen popen_read popen_write equal
  my_popen-shell room is_child ends =
      let not_full : leb max_popen p.count ≡ false = ground (arith, rep.counted) in
      let (a, e, c) = reader_child in
      let (b, e', c') = writer_child in
      (
        (
          a,
          rw not_full (
              ap (λ o. popen_read k command p o) ends
              ∙ ap (λ f. forked k f command r w 1 (open_pipe k.pipe_id r w p)) is_child
              ∙ e),
          c,
        ),
        (
          b,
          rw not_full (
              ap (λ o. popen_write k command p o) ends
              ∙ ap (λ f. forked k f command w r 0 (open_pipe k.pipe_id r w p)) is_child
              ∙ e'),
          c',
        ),
      )
