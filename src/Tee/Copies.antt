-- ===== src/Tee/Copies.antt =====
-- Whole runs of tee.
use network_system_programmi.Prelude.{
  ℕ, ◌+◌, ◌<◌, Bool, true, false, List, [], ◌∷◌, ◌++◌, Option, some, ◌≡◌, ◌≢◌, refl, sym, ◌∙◌, ap,
  arith, if◌then◌else◌, length, length-append, append_assoc, append-nil, map, All,
}
use network_system_programmi.Prelude.Bytes.{Bytes}
use network_system_programmi.Tee.{
  buffer_size, got, Calls, Disk, State, exits, content_or_empty, loop, main,
}
use network_system_programmi.Tee.Round.{Calm, among, distinct, base, round-WroteTo}

abbrev pub joined : List Bytes → Bytes
joined [] = []
joined (chunk ∷ chunks) = chunk ++ joined chunks

-- All that was read up to each of the reads, one behind the other.
abbrev pub prefixes : Bytes → List Bytes → Bytes
prefixes before [] = []
prefixes before (chunk ∷ chunks) = (before ++ chunk) ++ prefixes (before ++ chunk) chunks

-- What one of the files holds in the end.
abbrev pub final : Bool → Bytes → List Bytes → Option Bytes → Option Bytes
final append before [] o = o
final append before (chunk ∷ chunks) o =
    final append (before ++ chunk) chunks (some (base append o ++ (before ++ chunk)))

final_truncated :
    (before chunk : Bytes) (chunks : List Bytes) (o : Option Bytes)
    → final false before (chunk ∷ chunks) o ≡ some (before ++ joined (chunk ∷ chunks))
final_truncated before chunk [] o = ap some (ap (◌++◌ before) (sym (append-nil chunk)))
final_truncated before chunk (c ∷ chunks) o =
    final_truncated (before ++ chunk) c chunks (some (before ++ chunk))
    ∙ ap some (append_assoc before chunk (joined (c ∷ chunks)))

final_appended :
    (before : Bytes) (chunks : List Bytes) (old : Bytes)
    → final true before chunks (some old) ≡ some (old ++ prefixes before chunks)
final_appended before [] old = ap some (sym (append-nil old))
final_appended before (chunk ∷ chunks) old =
    final_appended (before ++ chunk) chunks (old ++ (before ++ chunk))
    ∙ ap some (append_assoc old (before ++ chunk) (prefixes (before ++ chunk) chunks))

-- A chunk that a read gives before the end of the input.
abbrev pub Chunk : Bytes → Type 0
Chunk s = s ≢ []

record Copied (append : Bool) (names chunks : List Bytes) (s t : State) : Type 0 where
  all_read : t.all_input ≡ s.all_input ++ joined chunks
  shown : t.out ≡ s.out ++ joined chunks
  files :
      (q : Bytes)
      → t.disk q ≡ (if among q names then final append s.all_input chunks (s.disk q) else s.disk q)

-- A round and the rounds behind it, at one file.
final-step :
    (append named : Bool) (before chunk before' : Bytes) (chunks : List Bytes) (o o' : Option Bytes)
    → before' ≡ before ++ chunk
    → o' ≡ (if named then some (base append o ++ (before ++ chunk)) else o)
    → (if named then final append before' chunks o' else o')
      ≡ (if named then final append before (chunk ∷ chunks) o else o)
final-step append true before chunk before' chunks o o' e f = λ i. final append (e i) chunks (f i)
final-step append false before chunk before' chunks o o' e f = f

loop-Copied :
    (c : Calls) (append : Bool) (names chunks : List Bytes) (s : State)
    → Calm c
    → (append ≡ true → distinct names ≡ true)
    → All Chunk chunks
    → length s.all_input + length (joined chunks) < buffer_size
    → (t : State) × (loop c append names (map got chunks) s ≡ exits 0 t)
      × Copied append names chunks s t
unfolding loop
loop-Copied c append names [] s calm apart full room = (
  s,
  refl,
  record {
    all_read = sym (append-nil s.all_input);
    shown = sym (append-nil s.out);
    files = λ q. ground arith;
  },
)
loop-Copied c append names ([] ∷ chunks) s calm apart full room = absurd (full.0 refl)
loop-Copied c append names ((b ∷ bs) ∷ chunks) s calm apart full room =
    let (m, e, w) =
      round-WroteTo c append names (b ∷ bs) s calm apart
        (omega (arith, length-append (b ∷ bs) (joined chunks))) in
    let (t, e', r) = loop-Copied c append names chunks m calm apart full.1 (
      omega (
        arith,
        ap (length {A = ℕ}) w.same_input,
        length-append s.all_input (b ∷ bs),
        length-append (b ∷ bs) (joined chunks),
      )) in
    (
      t,
      rw e e',
      record {
        all_read =
            r.all_read
            ∙ ap (λ o. o ++ joined chunks) w.same_input
            ∙ append_assoc s.all_input (b ∷ bs) (joined chunks);
        shown =
            r.shown
            ∙ ap (λ o. o ++ joined chunks) w.same_out
            ∙ append_assoc s.out (b ∷ bs) (joined chunks);
        files = λ q.
            r.files q
            ∙ final-step append (among q names) s.all_input (b ∷ bs) m.all_input chunks (s.disk q)
                (m.disk q) w.same_input (w.files q);
      },
    )

-- Where every call succeeds and the input is shorter than the buffer, a run without -a ends with
-- status 0; stdout is the input, every file named holds the input if there is any, also one named
-- twice, and the other files are as before.
pub main-truncates :
    (c : Calls) (names : List Bytes) (chunk : Bytes) (chunks : List Bytes) (disk : Disk)
    → Calm c
    → All Chunk (chunk ∷ chunks)
    → length (joined (chunk ∷ chunks)) < buffer_size
    → (t : State) × (main c false names (map got (chunk ∷ chunks)) disk ≡ exits 0 t)
      × (t.out ≡ joined (chunk ∷ chunks))
      × ((q : Bytes)
          → t.disk q ≡ (if among q names then some (joined (chunk ∷ chunks)) else disk q))
unfolding main
main-truncates c names chunk chunks disk calm full room =
    let (t, e, r) =
      loop-Copied c false names (chunk ∷ chunks)
        (record { all_input = []; out = []; disk = disk; writes = 0 }) calm (λ f. cc) full
        (omega arith) in
    (
      t,
      e,
      r.shown,
      λ q.
          r.files q
          ∙ ap (λ o. if among q names then o else disk q)
              (final_truncated [] chunk chunks (disk q)),
    )

-- Where every call succeeds, the input is shorter than the buffer and no file is named twice, a run
-- with -a ends with status 0 and stdout is the input; but each file named has got, behind what it
-- held, all of the input up to the first read, then all up to the second, and so on, which is the
-- input only if one read gives it all. The other files are as before.
pub main-appends :
    (c : Calls) (names : List Bytes) (chunk : Bytes) (chunks : List Bytes) (disk : Disk)
    → Calm c
    → distinct names ≡ true
    → All Chunk (chunk ∷ chunks)
    → length (joined (chunk ∷ chunks)) < buffer_size
    → (t : State) × (main c true names (map got (chunk ∷ chunks)) disk ≡ exits 0 t)
      × (t.out ≡ joined (chunk ∷ chunks))
      × ((q : Bytes)
          → t.disk q ≡ (
              if among q names
              then some (content_or_empty (disk q) ++ prefixes [] (chunk ∷ chunks))
              else disk q))
unfolding main
main-appends c names chunk chunks disk calm apart full room =
    let (t, e, r) =
      loop-Copied c true names (chunk ∷ chunks)
        (record { all_input = []; out = []; disk = disk; writes = 0 }) calm (λ f. apart) full
        (omega arith) in
    (
      t,
      e,
      r.shown,
      λ q.
          r.files q
          ∙ ap (λ o. if among q names then o else disk q)
              (final_appended chunk chunks (content_or_empty (disk q) ++ chunk)
                ∙ ap some (append_assoc (content_or_empty (disk q)) chunk (prefixes chunk chunks))),
    )
