-- ===== src/Tee/Bounds.antt =====
-- What tee keeps of its input, whatever its calls answer.
use network_system_programmi.Prelude.{
  subst, ◌+◌, ◌<◌, Bool, List, [], ◌∷◌, ◌++◌, ◌≡◌, refl, sym, ◌∙◌, ap, arith, ◌⊎◌, leb, length,
  length-append, append_assoc, append-nil, inl, inr, Bool-cases, Option-cases,
}
use network_system_programmi.Prelude.Bytes.{Bytes}
use network_system_programmi.Tee.{
  buffer_size, Read, got, failed, Calls, Disk, State, Ended, goes_on, exits, ◌>>=◌, passed,
  write_file, close_file, one_file, open_file, all_files, write_out, round, loop, main,
}

-- What the reads give up to the end of the input or an error.
abbrev pub input_of : List Read → Bytes
input_of [] = []
input_of (failed ∷ reads) = []
input_of (got [] ∷ reads) = []
input_of (got (b ∷ bs) ∷ reads) = (b ∷ bs) ++ input_of reads

-- The calls of a round leave `all_input` alone; where they end the run, it is with status 1.
abbrev Keeps : Bytes → Ended → Type 0
Keeps all (goes_on t) = t.all_input ≡ all
Keeps all (exits n t) = (n ≡ 1) × (t.all_input ≡ all)

Keeps-bind :
    (all : Bytes) (e : Ended) (k : State → Ended)
    → Keeps all e
    → ((t : State) → t.all_input ≡ all → Keeps all (k t))
    → Keeps all (e >>= k)
Keeps-bind all (goes_on t) k h f = f t h
Keeps-bind all (exits n t) k h f = h

write_file-Keeps : (c : Calls) (name : Bytes) (s : State) → Keeps s.all_input (write_file c name s)
unfolding write_file
write_file-Keeps c name s = elim (Option-cases (passed (c.wrote s.writes) s.all_input)) [
  | inl e ↦ rw (e, write_file) (refl, refl)
  | inr (sent, e) ↦ rw (e, write_file) refl
]

write_out-Keeps :
    (c : Calls) (from_in : Bytes) (s : State) → Keeps s.all_input (write_out c from_in s)
unfolding write_out
write_out-Keeps c from_in s = elim (Option-cases (passed (c.wrote s.writes) from_in)) [
  | inl e ↦ rw (e, write_out) (refl, refl)
  | inr (sent, e) ↦ rw (e, write_out) refl
]

close_file-Keeps :
    (c : Calls) (name all : Bytes) (t : State) → t.all_input ≡ all → Keeps all (close_file c name t)
unfolding close_file
close_file-Keeps c name all t h = elim (Bool-cases (c.can_close name)) [
  | inl e ↦ rw (e, close_file) h
  | inr e ↦ rw (e, close_file) (refl, h)
]

one_file-Keeps :
    (c : Calls) (append : Bool) (name all : Bytes) (s : State)
    → s.all_input ≡ all
    → Keeps all (one_file c append name s)
unfolding one_file
one_file-Keeps c append name all s h = elim (Bool-cases (c.can_open name)) [
  | inr e ↦ rw (e, one_file) (refl, h)
  | inl e ↦
      let s' = record s { disk = open_file append name s.disk } in
      rw (e, one_file)
        (Keeps-bind all (write_file c name s') (close_file c name)
          (subst (λ a. Keeps a (write_file c name s')) h (write_file-Keeps c name s'))
          (close_file-Keeps c name all))
]

all_files-Keeps :
    (c : Calls) (append : Bool) (names : List Bytes) (all : Bytes) (s : State)
    → s.all_input ≡ all
    → Keeps all (all_files c append names s)
unfolding all_files
all_files-Keeps c append [] all s h = h
all_files-Keeps c append (name ∷ names) all s h =
    Keeps-bind all (one_file c append name s) (all_files c append names)
      (one_file-Keeps c append name all s h) (λ t e. all_files-Keeps c append names all t e)

-- How a run ends whose input is `whole`.
abbrev pub EndsWithin : Bytes → Ended → Type 0
EndsWithin whole (goes_on t) = ⊥
EndsWithin whole (exits n t) =
    (length t.all_input < buffer_size)
    × (((n ≡ 0) × (t.all_input ≡ whole))
        ⊎ ((n ≡ 1) × (rest : Bytes) × (t.all_input ++ rest ≡ whole)))

-- A round, and the rounds behind it.
EndsWithin-bind :
    (before input : Bytes) (e : Ended) (k : State → Ended)
    → length before < buffer_size
    → Keeps before e
    → ((t : State) → t.all_input ≡ before → EndsWithin (before ++ input) (k t))
    → EndsWithin (before ++ input) (e >>= k)
EndsWithin-bind before input (exits n t) k room h later =
    (rw h.1 room, inr (h.0, input, ap (λ a. a ++ input) h.1))
EndsWithin-bind before input (goes_on t) k room h later = later t h

round-EndsWithin :
    (c : Calls) (append : Bool) (names : List Bytes) (from_in input : Bytes) (s : State)
    (k : State → Ended)
    → length s.all_input < buffer_size
    → ((t : State)
        → t.all_input ≡ s.all_input ++ from_in
        → length (s.all_input ++ from_in) < buffer_size
        → EndsWithin ((s.all_input ++ from_in) ++ input) (k t))
    → EndsWithin ((s.all_input ++ from_in) ++ input) (round c append names from_in s >>= k)
unfolding round
round-EndsWithin c append names from_in input s k room later =
    elim (Bool-cases (leb buffer_size (length s.all_input + length from_in))) [
      | inl e ↦
          rw (e, round)
            (room, inr (refl, from_in ++ input, sym (append_assoc s.all_input from_in input)))
      | inr e ↦
          let all = s.all_input ++ from_in in
          let fits : length all < buffer_size = ground (arith, length-append s.all_input from_in) in
          let shown = write_out c from_in (record s { all_input = all }) in
          rw (e, round)
            (EndsWithin-bind all input (shown >>= all_files c append names) k fits
              (Keeps-bind all shown (all_files c append names)
                (write_out-Keeps c from_in (record s { all_input = all }))
                (all_files-Keeps c append names all))
              (λ t h. later t h fits))
    ]

loop-EndsWithin :
    (c : Calls) (append : Bool) (names : List Bytes) (reads : List Read) (before : Bytes)
    (s : State)
    → s.all_input ≡ before
    → length before < buffer_size
    → EndsWithin (before ++ input_of reads) (loop c append names reads s)
unfolding loop
loop-EndsWithin c append names [] before s h room =
    (rw h room, inl (refl, h ∙ sym (append-nil before)))
loop-EndsWithin c append names (failed ∷ reads) before s h room =
    (rw h room, inr (refl, [], append-nil s.all_input ∙ h ∙ sym (append-nil before)))
loop-EndsWithin c append names (got [] ∷ reads) before s h room =
    (rw h room, inl (refl, h ∙ sym (append-nil before)))
loop-EndsWithin c append names (got (b ∷ bs) ∷ reads) before s h room =
    subst (λ a. EndsWithin a (round c append names (b ∷ bs) s >>= loop c append names reads))
      (append_assoc s.all_input (b ∷ bs) (input_of reads)
        ∙ ap (λ a. a ++ ((b ∷ bs) ++ input_of reads)) h)
      (round-EndsWithin c append names (b ∷ bs) (input_of reads) s (loop c append names reads)
        (rw h room)
        (λ t e fits. loop-EndsWithin c append names reads (s.all_input ++ (b ∷ bs)) t e fits))

-- Whatever the calls answer, without -a or with it, a run ends, and its buffer of 10240 bytes has a
-- place left: either with status 0 and the whole input in the buffer, or with status 1 and a front of
-- the input in the buffer. So a run whose input is as long as the buffer or longer ends with
-- status 1.
pub main-EndsWithin :
    (c : Calls) (append : Bool) (names : List Bytes) (reads : List Read) (disk : Disk)
    → EndsWithin (input_of reads) (main c append names reads disk)
unfolding main
main-EndsWithin c append names reads disk =
    loop-EndsWithin c append names reads [] _ refl (omega arith)
