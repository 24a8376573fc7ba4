-- ===== src/Machine.antt =====
-- The C machine that the programs run on, as far as they can observe it: calls that may be refused,
-- heap blocks of a fixed size, process exit, and undefined behaviour as an outcome of its own.
use network_system_programmi.Prelude.{
  ℕ, zero, suc, ◌+◌, ◌-◌, Bool, false, List, [], ◌∷◌, ◌++◌, Option, none, some, ◌≡◌, refl, ltb,
  if◌then◌else◌, length, set, Bool-cases, inl, inr,
}
use network_system_programmi.Prelude.Bytes.{Bytes}

-- What a file descriptor stands for: what the process was started with, a file, the two ends of a pipe.
pub data Stream : Type 0 where
  inherited : Stream
  file : Bytes → Stream
  pipe_read pipe_write : Stream

-- `calls` numbers the requests to the allocator; `live` counts the blocks not yet freed; `out` is
-- what went to stdout; `fd0` and `fd1` are the standard descriptors; `cwd` is the working
-- directory.
pub record World : Type 0 where
  pub calls : ℕ
  pub live : ℕ
  pub out : Bytes
  pub fd0 : Stream
  pub fd1 : Stream
  pub cwd : Bytes

-- `fault` is undefined behaviour: an access out of bounds, through NULL or of uninitialised memory.
-- `execs` is a successful execvp: the process goes on as another program with these arguments.
pub data Outcome (A : Type 0) : Type 0 where
  done : A → Outcome A
  exits : (status : ℕ) → Outcome A
  execs : (args : List Bytes) → World → Outcome A
  fault : Outcome A

abbrev pub M : Type 0 → Type 0
M A = World → Outcome (A × World)

abbrev pub bind_outcome : {A B : Type 0} → Outcome A → (A → Outcome B) → Outcome B
bind_outcome (done a) f = f a
bind_outcome (exits n) f = exits n
bind_outcome (execs l w) f = execs l w
bind_outcome fault f = fault

infixl 5 ◌>>=◌ ◌>>◌
abbrev pub ◌>>=◌ : {X Y : Type 0} → M X → (X → M Y) → M Y
◌>>=◌ now later w = bind_outcome (now w) (λ r. later r.0 r.1)

abbrev pub ◌>>◌ : {Y : Type 0} → M (Unit {0}) → M Y → M Y
now >> later = now >>= λ _. later

abbrev pub pure : {A : Type 0} → A → M A
pure a w = done (a, w)

-- exit (status)
abbrev pub exit : {A : Type 0} → ℕ → M A
exit n w = exits n

abbrev pub undefined : {A : Type 0} → M A
undefined w = fault

-- Text written to stdout.
abbrev pub print : Bytes → M (Unit {0})
print s w = done (tt, record w { out = w.out ++ s })

-- A heap block of `size` bytes that holds a C string.
pub record Block : Type 0 where
  pub size : ℕ
  pub text : Bytes

-- One `char *` in an array of pointers.
pub data Slot : Type 0 where
  uninit null : Slot
  str : Block → Slot

-- Whether the allocator grants the request with a given number, for `malloc` and `realloc`.
abbrev pub Grants : Type 0
Grants = ℕ → Bool

-- `if ((p = malloc (n)) == NULL) exit (1)`: the caller keeps the size.
unfoldable pub malloc : Grants → M (Unit {0})
malloc g w =
    if g w.calls then done (tt, record w { calls = w.calls + 1; live = w.live + 1 }) else exits 1

-- The same for `realloc`; a block that grows stays one block.
unfoldable pub realloc : Grants → M (Unit {0})
realloc g w = if g w.calls then done (tt, record w { calls = w.calls + 1 }) else exits 1

-- The cells of an array of pointers after `realloc` to `n` cells.
unfoldable pub resize : ℕ → List Slot → List Slot
resize zero v = []
resize (suc n) [] = uninit ∷ resize n []
resize (suc n) (x ∷ v) = x ∷ resize n v

unfoldable pub store : List Slot → ℕ → Slot → M (List Slot)
store v i x = if ltb i (length v) then pure (set v i x) else undefined

-- strcpy into a new block of `size` bytes: the string and its NUL have to fit.
unfoldable pub strcpy_new : ℕ → Bytes → M Slot
strcpy_new size s =
    if ltb (length s) size then pure (str (record { size = size; text = s })) else undefined

-- What the kernel answers: whether a file opens, what execvp of an argument list fails with (`none`
-- if it does not fail), whether a pipe is made, what
-- errno holds where it is printed, which side of fork the process is.
pub data Fork : Type 0 where
  no_fork : (errno : ℕ) → Fork
  parent child : Fork

pub record Os : Type 0 where
  pub grants : Grants
  pub can_open : Bytes → Bool
  pub exec_errno : List Bytes → Option ℕ
  pub pipe_ok : Bool
  pub errno : ℕ
  pub fork : Fork

unfoldable pub free : M (Unit {0})
free w = done (tt, record w { live = w.live - 1 })

-- Reading a pointer from an array: an index outside or a cell never written is undefined.
unfoldable pub load : List Slot → ℕ → M (Option Bytes)
load [] i = undefined
load (uninit ∷ v) zero = undefined
load (null ∷ v) zero = pure none
load (str b ∷ v) zero = pure (some b.text)
load (x ∷ v) (suc i) = load v i

-- The strings of an array up to its NULL, as execvp reads them.
unfoldable pub strings : List Slot → M (List Bytes)
strings [] = undefined
strings (uninit ∷ v) = undefined
strings (null ∷ v) = pure []
strings (str b ∷ v) = do l ← strings v; pure (b.text ∷ l)

-- execvp (v[0], v): on success the process is another program; on failure errno is the result.
-- A NULL for the program's name is undefined.
unfoldable pub exec_strings : Os → List Bytes → M ℕ
exec_strings os [] w = fault
exec_strings os (c ∷ args) w = elim (os.exec_errno (c ∷ args)) [
  | none ↦ execs (c ∷ args) w
  | some e ↦ done (e, w)
]

unfoldable pub execvp : Os → List Slot → M ℕ
execvp os v = do l ← strings v; exec_strings os l

-- Every way out of a computation that is allowed by `P`: only a refused allocation ends the process,
-- with status 1, and nothing undefined happens.
abbrev pub Ensures : Grants → {A : Type 0} → Outcome A → (A → Type 0) → Type 0
Ensures g (done a) P = P a
Ensures g (exits n) P = (n ≡ 1) × ((k : ℕ) × (g k ≡ false))
Ensures g (execs l w) P = ⊥
Ensures g fault P = ⊥

module _ (g : Grants) where
  pub Ensures-bind :
      {A B : Type 0} (P : A → Type 0) (Q : B → Type 0) (m : Outcome A) (f : A → Outcome B)
      → Ensures g m P
      → ((a : A) → P a → Ensures g (f a) Q)
      → Ensures g (bind_outcome m f) Q
  Ensures-bind P Q (done a) f h k = k a h
  Ensures-bind P Q (exits n) f h k = h
  Ensures-bind P Q (execs l w) f h k = h
  Ensures-bind P Q fault f h k = h

  -- What follows a granted request is all that has to be shown.
  pub Ensures-malloc :
      {B : Type 0} (Q : B → Type 0) (w : World) (k : World → Outcome B)
      → Ensures g (k (record w { calls = w.calls + 1; live = w.live + 1 })) Q
      → Ensures g (bind_outcome (malloc g w) (λ r. k r.1)) Q
  unfolding malloc
  Ensures-malloc Q w k h = elim (Bool-cases (g w.calls)) [
    | inl e ↦ rw e h
    | inr e ↦ rw e (refl, (w.calls, e))
  ]

  pub Ensures-realloc :
      {B : Type 0} (Q : B → Type 0) (w : World) (k : World → Outcome B)
      → Ensures g (k (record w { calls = w.calls + 1 })) Q
      → Ensures g (bind_outcome (realloc g w) (λ r. k r.1)) Q
  unfolding realloc
  Ensures-realloc Q w k h = elim (Bool-cases (g w.calls)) [
    | inl e ↦ rw e h
    | inr e ↦ rw e (refl, (w.calls, e))
  ]

  pub Ensures-map :
      {A : Type 0} (P Q : A → Type 0) (m : Outcome A)
      → ((a : A) → P a → Q a)
      → Ensures g m P
      → Ensures g m Q
  Ensures-map P Q (done a) k h = k a h
  Ensures-map P Q (exits n) k h = h
  Ensures-map P Q (execs l w) k h = h
  Ensures-map P Q fault k h = h
