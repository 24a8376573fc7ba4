-- ===== src/Tee/Round.antt =====
-- One round of tee in which every call succeeds.
use network_system_programmi.Prelude.{
  ℕ, ◌+◌, ◌<◌, Bool, true, false, not, ◌&&◌, ◌||◌, List, [], ◌∷◌, ◌++◌, Option, some, ◌≡◌, refl,
  ◌∙◌, ap, arith, if◌then◌else◌, leb, length, inl, inr, Bool-cases,
}
use network_system_programmi.Prelude.Bytes.{Bytes, equal, equal_iff, equal_refl}
use network_system_programmi.Tee.{
  buffer_size, whole, Calls, Disk, State, goes_on, put, content_or_empty, open_file, write_file,
  close_file, one_file, all_files, write_out, round,
}

-- Every call succeeds, and a write takes all of its bytes.
pub record Calm (c : Calls) : Type 0 where
  pub opens : (name : Bytes) → c.can_open name ≡ true
  pub closes : (name : Bytes) → c.can_close name ≡ true
  pub writes : (i : ℕ) → c.wrote i ≡ whole

abbrev pub among : Bytes → List Bytes → Bool
among q [] = false
among q (name ∷ names) = equal q name || among q names

abbrev pub distinct : List Bytes → Bool
distinct [] = true
distinct (name ∷ names) = not (among name names) && distinct names

-- What open leaves of a file.
abbrev pub base : Bool → Option Bytes → Bytes
base true o = content_or_empty o
base false o = []

-- A file once all of them are written.
abbrev pub rewritten : Bool → List Bytes → Bytes → Disk → Disk
rewritten append names all disk q =
    if among q names then some (base append (disk q) ++ all) else disk q

-- The state goes on with the same input and stdout, and with these files.
pub record WroteTo (append : Bool) (names : List Bytes) (s t : State) : Type 0 where
  pub same_input : t.all_input ≡ s.all_input
  pub same_out : t.out ≡ s.out
  pub files : (q : Bytes) → t.disk q ≡ rewritten append names s.all_input s.disk q

-- The state behind one file.
abbrev behind : Bool → Bytes → State → State
behind append name s = record s {
  disk =
      put name (content_or_empty (open_file append name s.disk name) ++ s.all_input)
        (open_file append name s.disk);
  writes = s.writes + 1;
}

one_file_lem :
    (c : Calls) (append : Bool) (name : Bytes) (s : State)
    → Calm c
    → one_file c append name s ≡ goes_on (behind append name s)
unfolding one_file write_file close_file
one_file_lem c append name s calm =
    rw (calm.opens name)
      (rw (calm.writes s.writes, write_file) (rw (calm.closes name, close_file) refl))

behind_file :
    (append : Bool) (name : Bytes) (s : State) (q : Bytes)
    → (behind append name s).disk q ≡ put name (base append (s.disk name) ++ s.all_input) s.disk q
unfolding open_file
behind_file true name s q = ground (arith, equal_refl name)
behind_file false name s q = ground (arith, equal_refl name)

-- The name written first is not written again with -a; without -a that would not matter.
rewritten-cons :
    (append : Bool) (name : Bytes) (names : List Bytes) (all : Bytes) (disk d : Disk) (q : Bytes)
    → (append ≡ true → distinct (name ∷ names) ≡ true)
    → ((q : Bytes) → d q ≡ put name (base append (disk name) ++ all) disk q)
    → rewritten append names all d q ≡ rewritten append (name ∷ names) all disk q
rewritten-cons true name names all disk d q apart first = elim (Bool-cases (equal q name)) [
  | inr e ↦ ground (arith, first q)
  | inl e ↦
      let here : q ≡ name = (equal_iff q name).0 e in
      let once : among q names ≡ false = rw here (ground (arith, apart refl)) in
      ground (arith, first q, ap disk here)
]
rewritten-cons false name names all disk d q apart first = elim (Bool-cases (equal q name)) [
  | inr e ↦ ground (arith, first q)
  | inl e ↦ ground (arith, first q)
]

pub all_files-WroteTo :
    (c : Calls) (append : Bool) (names : List Bytes) (s : State)
    → Calm c
    → (append ≡ true → distinct names ≡ true)
    → (t : State) × (all_files c append names s ≡ goes_on t) × WroteTo append names s t
unfolding all_files
all_files-WroteTo c append [] s calm apart =
    (s, refl, record { same_input = refl; same_out = refl; files = λ q. refl })
all_files-WroteTo c append (name ∷ names) s calm apart =
    let (t, e, w) =
      all_files-WroteTo c append names (behind append name s) calm (λ a. ground (arith, apart a)) in
    (
      t,
      rw (one_file_lem c append name s calm) e,
      record {
        same_input = w.same_input;
        same_out = w.same_out;
        files = λ q.
            w.files q
            ∙ rewritten-cons append name names s.all_input s.disk (behind append name s).disk q
                apart (behind_file append name s);
      },
    )

-- A round that the buffer has room for.
pub round-WroteTo :
    (c : Calls) (append : Bool) (names : List Bytes) (from_in : Bytes) (s : State)
    → Calm c
    → (append ≡ true → distinct names ≡ true)
    → length s.all_input + length from_in < buffer_size
    → (t : State) × (round c append names from_in s ≡ goes_on t)
      × WroteTo append names
          (record s { all_input = s.all_input ++ from_in; out = s.out ++ from_in })
          t
unfolding round write_out
round-WroteTo c append names from_in s calm apart room =
    let full : leb buffer_size (length s.all_input + length from_in) ≡ false = ground arith in
    let (t, e, w) =
      all_files-WroteTo c append names
        (record s {
          all_input = s.all_input ++ from_in;
          out = s.out ++ from_in;
          writes = s.writes + 1;
        })
        calm apart in
    (
      t,
      rw full (rw (calm.writes s.writes, write_out) e),
      record { same_input = w.same_input; same_out = w.same_out; files = w.files },
    )
