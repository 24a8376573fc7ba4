-- ===== src/Popen.antt =====
-- SP_HW6/44_2.c: my_popen and my_pclose, with their table of streams and processes.
pub mod Main
pub mod Output
pub mod Calls
pub mod Loop
pub mod Stack
pub mod Pushes
pub mod Pops
pub mod Lost
pub mod Bounds
pub mod Nested
pub mod Child
pub mod Tests
use network_system_programmi.Prelude.{
  ℕ, zero, suc, ◌+◌, ◌-◌, ◌/◌, ◌%◌, Bool, true, false, not, ◌&&◌, List, [], ◌∷◌, ◌++◌, Option, none,
  some, ◌==◌, ltb, leb, if◌then◌else◌, length, get_elem?, set,
}
use network_system_programmi.Prelude.Bytes.{Bytes, codes, equal, decimal}
use network_system_programmi.Prelude.Int.{ℤ, pos, negsuc}

-- MAX_POPEN
abbrev pub max_popen : ℕ
max_popen = 128

-- A `FILE *`: its address, or NULL.
abbrev pub FilePointer : Type 0
FilePointer = Option ℕ

-- What a descriptor stands for; a pipe goes by a number.
pub data End : Type 0 where
  closed inherited : End
  read_end write_end : ℕ → End

-- The globals of the file, and of the process what these functions touch: its descriptors, which
-- descriptor a FILE has, and its stdout.
pub record Process : Type 0 where
  pub streams : List FilePointer
  pub pids : List ℕ
  pub count : ℕ
  pub fds : ℕ → End
  pub fileno : ℕ → ℕ
  pub out : Bytes

-- What the kernel and libc answer to one my_popen: the pipe, by its number and its two descriptors;
-- which side of fork the process is; the FILE of fdopen; whether execl succeeds.
pub data Fork : Type 0 where
  no_fork child : Fork
  parent : (pid : ℕ) → Fork

pub record Answers : Type 0 where
  pub pipe_id : ℕ
  pub pipe : Option (ℕ × ℕ)
  pub fork : Fork
  pub fdopen : FilePointer
  pub exec_ok : Bool

-- my_popen returns, in the child becomes the shell with its descriptors, or exits there; `undefined`
-- is an access outside the tables or a fileno of NULL.
pub data Popened : Type 0 where
  returns : FilePointer → Process → Popened
  shell : (command : Bytes) → (ℕ → End) → Popened
  exits_child undefined : Popened

abbrev pub set_fd : ℕ → End → (ℕ → End) → ℕ → End
set_fd fd e fds q = if q == fd then e else fds q

-- dup2 (from, to)
abbrev pub dup2 : ℕ → ℕ → (ℕ → End) → ℕ → End
dup2 from to fds = set_fd to (fds from) fds

-- pipe (pfd)
unfoldable pub open_pipe : ℕ → ℕ → ℕ → Process → Process
open_pipe id r w p = record p { fds = set_fd w (write_end id) (set_fd r (read_end id) p.fds) }

-- `for (int i = 0; i < popen_count; i++) close (fileno (popen_streams[i]))`
unfoldable pub close_streams : (ℕ → ℕ) → ℕ → List FilePointer → (ℕ → End) → Option (ℕ → End)
close_streams fileno zero cells fds = some fds
close_streams fileno (suc n) [] fds = none
close_streams fileno (suc n) (none ∷ cells) fds = none
close_streams fileno (suc n) (some f ∷ cells) fds =
    close_streams fileno n cells (set_fd (fileno f) closed fds)

-- The child behind its dup2: it closes the streams and becomes the shell.
unfoldable pub run_shell : Answers → Bytes → Process → (ℕ → End) → Popened
run_shell k command p fds = elim (close_streams p.fileno p.count p.streams fds) [
  | none ↦ undefined
  | some left ↦ if k.exec_ok then shell command left else exits_child
]

-- The parent: the end that it keeps becomes a stream, which is entered in the table, NULL too.
unfoldable pub enter : FilePointer → ℕ → ℕ → Process → Process
enter none fd pid p = record p {
  streams = set p.streams p.count none;
  pids = set p.pids p.count pid;
  count = p.count + 1;
}
enter (some f) fd pid p = record p {
  streams = set p.streams p.count (some f);
  pids = set p.pids p.count pid;
  count = p.count + 1;
  fileno = λ q. if q == f then fd else p.fileno q;
}

unfoldable pub in_tables : Process → Bool
in_tables p = ltb p.count (length p.streams) && ltb p.count (length p.pids)

unfoldable pub register : FilePointer → ℕ → ℕ → Process → Popened
register stream fd pid p = if in_tables p then returns stream (enter stream fd pid p) else undefined

-- The `switch` of fork: `mine` is the descriptor that the parent keeps, `other` the child's, which
-- becomes its standard descriptor `std`.
unfoldable pub forked : Answers → Fork → Bytes → ℕ → ℕ → ℕ → Process → Popened
forked k no_fork command mine other std p = returns none p
forked k child command mine other std p =
    run_shell k command p (set_fd other closed (dup2 other std (set_fd mine closed p.fds)))
forked k (parent pid) command mine other std p =
    register k.fdopen mine pid (record p { fds = set_fd other closed p.fds })

-- The branches of the modes "r" and "w", with the answer of pipe.
unfoldable pub popen_read : Answers → Bytes → Process → Option (ℕ × ℕ) → Popened
popen_read k command p none = returns none p
popen_read k command p (some (r, w)) = forked k k.fork command r w 1 (open_pipe k.pipe_id r w p)

unfoldable pub popen_write : Answers → Bytes → Process → Option (ℕ × ℕ) → Popened
popen_write k command p none = returns none p
popen_write k command p (some (r, w)) = forked k k.fork command w r 0 (open_pipe k.pipe_id r w p)

abbrev pub say : Bytes → Process → Process
say text p = record p { out = p.out ++ text }

unfoldable pub my_popen : Answers → Bytes → Bytes → Process → Popened
my_popen k command mode p =
    if leb max_popen p.count
    then returns none (say (codes "Error: reached maximum popen limit.\n") p)
    else if equal mode (codes "r")
    then popen_read k command p k.pipe
    else if equal mode (codes "w")
    then popen_write k command p k.pipe
    else returns none (say (codes "wrong mode\n") p)

-- What waitpid is asked and answers: the status, or nothing for -1.
abbrev pub Waits : Type 0
Waits = ℕ → Option ℕ

-- WIFEXITED, WIFSIGNALED and WIFSTOPPED with the numbers that they give way to.
unfoldable pub report : ℕ → Bytes
report stat =
    if stat % 128 == 0
    then codes "exited, status=" ++ (decimal (stat / 256 % 256) ++ codes "\n")
    else if not (stat % 128 == 127)
    then codes "killed by signal " ++ (decimal (stat % 128) ++ codes "\n")
    else if stat % 256 == 127
    then codes "stopped by signal " ++ (decimal (stat / 256 % 256) ++ codes "\n")
    else []

-- my_pclose returns a number, and has waited for a process or for none.
pub data Pclosed : Type 0 where
  gives : ℤ → (waited : Option ℕ) → Process → Pclosed
  undefined : Pclosed

-- Behind close, with the cells cleared.
unfoldable pub reap : Option ℕ → ℕ → Process → Pclosed
reap none pid p = gives (negsuc 0) (some pid) p
reap (some stat) pid p =
    gives (pos stat) (some pid) (record (say (report stat) p) { count = p.count - 1 })

-- The body under `popen_streams[i] == stream`.
unfoldable pub close_at : Waits → ℕ → ℕ → FilePointer → Process → Pclosed
close_at waits i pid none p = undefined
close_at waits i pid (some f) p = reap (waits pid) pid (record p {
  fds = set_fd (p.fileno f) closed p.fds;
  streams = set p.streams i none;
  pids = set p.pids i 0;
})

abbrev pub same : FilePointer → FilePointer → Bool
same none none = true
same (some a) (some b) = a == b
same _ _ = false

-- `popen_pids[i]`
unfoldable pub close_found : Waits → ℕ → Option ℕ → FilePointer → Process → Pclosed
close_found waits i none stream p = undefined
close_found waits i (some pid) stream p = close_at waits i pid stream p

-- The `for`, with the rounds left.
unfoldable pub pclose_loop : Waits → ℕ → ℕ → FilePointer → Process → Pclosed
pclose_loop waits zero i stream p = gives (negsuc 0) none p
pclose_loop waits (suc n) i stream p = elim (get_elem? p.streams i) [
  | none ↦ undefined
  | some cell ↦ elim (same cell stream) [
    | true ↦ close_found waits i (get_elem? p.pids i) stream p
    | false ↦ pclose_loop waits n (i + 1) stream p
  ]
]

unfoldable pub my_pclose : Waits → FilePointer → Process → Pclosed
unfolding pclose_loop
my_pclose waits stream p = pclose_loop waits p.count 0 stream p
