-- ===== src/Dict/Search.antt =====
-- SP_HW11/part1/lookup5.c: bsearch in a file of records that is mapped into memory.
pub mod Bsearch
pub mod Correct
use Prim.Native.Nat.{Ordering}
use network_system_programmi.Prelude.{
  Bool, true, false, ℕ, zero, suc, ◌+◌, ◌*◌, ◌/◌, List, Option, none, some, ltb, if◌then◌else◌,
  length, take, drop,
}
use network_system_programmi.Prelude.Bytes.{Bytes, strcmp}
use network_system_programmi.Machine.{Outcome, done, exits, fault, bind_outcome}
use network_system_programmi.Dict.{
  Answer, Dictrec, Looked, found, notfound, word_size, text_size, word_of, copy_text, ◌>>=◌,
}

-- The record at an index of the mapped file.
unfoldable pub record_at : Bytes → ℕ → Dictrec
record_at file i = record {
  word = take word_size (drop (i * (word_size + text_size)) file);
  text = take text_size (drop (i * (word_size + text_size) + word_size) file);
}

-- numrec = filsiz / sizeof (Dictrec)
unfoldable pub numrec : Bytes → ℕ
numrec file = length file / (word_size + text_size)

-- The key is `sought->word`, behind which `sought->text` stands.
unfoldable pub dict_cmp : Dictrec → Dictrec → Ordering
dict_cmp sought b = strcmp (word_of sought) (word_of b)

-- The C library's bsearch over the indices from `l` below `u`, where `at i` compares the key with
-- element `i`.
unfoldable pub bsearch : ℕ → (ℕ → Ordering) → ℕ → ℕ → Option ℕ
bsearch zero at l u = none
bsearch (suc fuel) at l u =
    let idx = (l + u) / 2 in
    let below = bsearch fuel at l idx in
    let above = bsearch fuel at (idx + 1) u in
    if ltb l u
    then elim (at idx) [ Ordering.lt ↦ below | Ordering.eq ↦ some idx | Ordering.gt ↦ above ]
    else none

unfoldable pub deliver : Bytes → Dictrec → Option ℕ → Looked
deliver file sought none = some (notfound, sought)
deliver file sought (some i) = do r ← copy_text sought (record_at file i); some (found, r)

-- lookup behind `if (first_time)`: the search in the mapped file.
unfoldable pub lookup5 : Bytes → Dictrec → Looked
lookup5 file sought =
    deliver file sought
      (bsearch (suc (numrec file)) (λ i. dict_cmp sought (record_at file i)) 0 (numrec file))

-- Whether the file that `resource` names can be opened, and be mapped into memory.
pub record Mapping : Type 0 where
  pub open_ok : Bool
  pub mmap_ok : Bool

-- `if (first_time)`
unfoldable pub map_file : Mapping → Bool → Outcome (Unit {0})
map_file m false = done tt
map_file m true = if m.open_ok then (if m.mmap_ok then done tt else exits 1) else exits 1

unfoldable pub outcome : Looked → Outcome (Answer × Dictrec)
outcome none = fault
outcome (some a) = done a

unfoldable pub lookup : Mapping → Bytes → Bool → Dictrec → Outcome (Answer × Dictrec)
lookup m file first_time sought =
    bind_outcome (map_file m first_time) (λ u. outcome (lookup5 file sought))
