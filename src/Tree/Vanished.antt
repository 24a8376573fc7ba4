-- ===== src/Tree/Vanished.antt =====
-- A process that ends between readdir and fopen of 12_2.c.
use network_system_programmi.Prelude.{
  Bool, true, List, [], ◌∷◌, Option, none, some, ◌≡◌, refl, subst, ◌⊎◌, inl, inr, Bool-cases,
  Option-cases, All,
}
use network_system_programmi.Prelude.Bytes.{Bytes}
use network_system_programmi.Prelude.Int.{negsuc}
use network_system_programmi.Tree.Status.{
  Dirent, Known, read_status, Scan, starts_digit, scan_one, scan, exits, nothing_read, show_scan,
  main,
}
use network_system_programmi.Tree.Below.{In}

-- What is known of a process at first.
abbrev pub unknown : Known
unknown = record { ppid = negsuc 0; name = [] }

-- A status file that is read without leaving an array, if it opens.
abbrev pub Reads : Dirent → Type 0
Reads d =
    (lines : List Bytes)
    → d.status ≡ some lines
    → (k : Known) × (read_status lines unknown ≡ some k)

-- A process whose status file does not open.
abbrev pub Vanished : Dirent → Type 0
Vanished d = (starts_digit d.d_name ≡ true) × (d.status ≡ none)

-- A step of the loop that succeeds and leaves errno set if it was, or if the process has vanished.
abbrev Steps : Dirent → Scan → Option Scan → Type 0
Steps d s r = (t : Scan) × (r ≡ some t) × ((s.errno ≡ true) ⊎ Vanished d → t.errno ≡ true)

scan_one-Steps : (d : Dirent) (s : Scan) → Reads d → Steps d s (scan_one d s)
unfolding scan_one
scan_one-Steps d s r = elim (Bool-cases (starts_digit d.d_name)) [
  | inr o ↦ rw o (s, refl, λ w. elim w [ inl e ↦ e | inr v ↦ absurd (cc v.0) ])
  | inl o ↦ elim (Option-cases d.status) [
    | inl e ↦ rw o (rw e (_, refl, λ w. refl))
    | inr (lines, e) ↦
        let (k, q) = r lines e in
        rw o (rw e (rw q (_, refl, λ w. elim w [ inl f ↦ f | inr v ↦ absurd (cc v.1) ])))
  ]
]

scan-errno :
    (ds : List Dirent) (s : Scan)
    → All Reads ds
    → (s.errno ≡ true) ⊎ ((d : Dirent) × In d ds × Vanished d)
    → (t : Scan) × (scan ds s ≡ some t) × (t.errno ≡ true)
unfolding scan
scan-errno [] s r (inl e) = (s, refl, e)
scan-errno [] s r (inr (d, i, v)) = elim i [ ]
scan-errno (d ∷ ds) s r w =
    let (t, one, set) = scan_one-Steps d s r.0 in
    let still : (t.errno ≡ true) ⊎ ((d : Dirent) × In d ds × Vanished d) = elim w [
      | inl e ↦ inl (set (inl e))
      | inr (c, inl same, v) ↦ inl (set (inr (subst Vanished same v)))
      | inr (c, inr i, v) ↦ inr (c, i, v)
    ] in
    let (u, all, e) = scan-errno ds t r.1 still in (u, rw (one, scan) all, e)

-- If one process of /proc vanishes before its status file is opened, and no file leads outside an array,
-- the program ends with status 1 and no tree is printed, though it passes over the process itself:
-- errno is still set when the loop ends.
pub main-Vanished :
    (ds : List Dirent) (d : Dirent) (closes : Bool)
    → All Reads ds
    → In d ds
    → Vanished d
    → (s : Scan) × (scan ds nothing_read ≡ some s) × (main (some ds) closes ≡ exits 1 s.out)
unfolding main show_scan
main-Vanished ds d closes r i v =
    let (s, run, e) = scan-errno ds nothing_read r (inr (d, i, v)) in
    (s, run, rw (run, main) (rw e refl))
