-- ===== src/Tree/Reached.antt =====
-- The processes that dfs_show prints.
use network_system_programmi.Prelude.{
  ℕ, zero, suc, ◌+◌, ◌<◌, ◌≤◌, List, [], ◌∷◌, ◌++◌, Option, some, ◌≡◌, refl, sym, ◌∙◌, ap, subst,
  arith, inl, inr, ◌==◌, Bool-cases, length, append_assoc, append-nil, ◌↔◌,
}
use network_system_programmi.Prelude.Int.{ℤ, pos}
use network_system_programmi.Tail.{eqb_ℤ}
use network_system_programmi.Tree.{
  Entry, Item, text, beside, below, newline, State, show, end_row, rows, dfs_show, root_line,
  show_tree,
}
use network_system_programmi.Tree.Below.{
  In, Descends, Falls, children, visits, same_pid, visits_sound, visits_complete,
}

abbrev pub pids : List Item → List ℤ
pids [] = []
pids (text s ∷ items) = pids items
pids (beside name p ∷ items) = p ∷ pids items
pids (below dep name p ∷ items) = p ∷ pids items
pids (newline ∷ items) = pids items

pids-append : (is js : List Item) → pids (is ++ js) ≡ pids is ++ pids js
pids-append [] js = refl
pids-append (text s ∷ is) js = pids-append is js
pids-append (beside n p ∷ is) js = ap (◌∷◌ p) (pids-append is js)
pids-append (below d n p ∷ is) js = ap (◌∷◌ p) (pids-append is js)
pids-append (newline ∷ is) js = pids-append is js

pids-show : (dep : ℕ) (e : Entry) (s : State) → pids (show dep e s).out ≡ pids s.out ++ (e.pid ∷ [])
unfolding show
pids-show dep e s = elim (Bool-cases s.own_line) [
  | inl o ↦ rw o (pids-append s.out _)
  | inr o ↦ rw o (pids-append s.out _)
]

pids-end_row : (s : State) → pids (end_row s).out ≡ pids s.out
unfolding end_row
pids-end_row s = elim (Bool-cases (s.named == 0)) [
  | inl o ↦ rw o refl
  | inr o ↦ rw o (pids-append s.out _ ∙ append-nil (pids s.out))
]

-- A call that returns and has printed these processes.
abbrev Prints : Option State → State → List ℤ → Type 0
Prints r s new = (t : State) × (r ≡ some t) × (pids t.out ≡ pids s.out ++ new)

rows-Prints :
    (inner : ℤ → State → Option State) (v : ℤ → List ℤ) (dep n : ℕ) (a : ℤ) (h : ℤ → ℕ)
    (es : List Entry) (s : State)
    → ((p : ℤ) (s : State) → h p < n → Prints (inner p s) s (v p))
    → Falls h es
    → h a < suc n
    → Prints (rows inner dep a es s) s (children v a es)
unfolding rows
rows-Prints inner v dep n a h [] s each falls low = (s, refl, sym (append-nil (pids s.out)))
rows-Prints inner v dep n a h (e ∷ es) s each falls low = elim (Bool-cases (eqb_ℤ e.ppid a)) [
  | inr o ↦
      let (t, run, new) = rows-Prints inner v dep n a h es s each falls.1 low in
      (t, rw o run, rw o new)
  | inl o ↦
      let of : h e.ppid ≡ h a = ap h (same_pid e.ppid a o) in
      let (t, run, new) = each e.pid (show dep e s) (omega (arith, falls.0)) in
      let (u, run', new') = rows-Prints inner v dep n a h es t each falls.1 low in
      (
        u,
        rw o (rw run run'),
        rw o (
            new'
            ∙ ap (λ l. l ++ children v a es) (new ∙ ap (λ l. l ++ v e.pid) (pids-show dep e s))
            ∙ regroup (pids s.out) e.pid (v e.pid) (children v a es)),
      )
]
  where
    regroup :
        (l : List ℤ) (p : ℤ) (k m : List ℤ) → ((l ++ (p ∷ [])) ++ k) ++ m ≡ l ++ (p ∷ (k ++ m))
    regroup l p k m = simp append_assoc

dfs_show-Prints :
    (fuel : ℕ) (root : List Entry) (a : ℤ) (dep : ℕ) (h : ℤ → ℕ) (s : State)
    → Falls h root
    → h a < fuel
    → Prints (dfs_show fuel root a dep s) s (visits fuel root a)
unfolding dfs_show
dfs_show-Prints zero root a dep h s falls low = absurd (omega arith)
dfs_show-Prints (suc fuel) root a dep h s falls low =
    let (t, run, new) =
      rows-Prints (λ p. dfs_show fuel root p (dep + 1)) (visits fuel root) dep fuel a h root s
        (λ p s l. dfs_show-Prints fuel root p (dep + 1) h s falls l) falls low in
    (end_row t, rw (run, dfs_show) refl, pids-end_row t ∙ new)

-- For any processes of which none is below itself, and that no more levels lie below process 1 than
-- there are processes, the program returns, and the processes printed behind the first are those
-- below process 1: its children, their children and so on, in whatever order /proc lists them.
pub show_tree-Descends :
    (e : Entry) (root : List Entry) (h : ℤ → ℕ)
    → Falls h (e ∷ root)
    → h (pos 1) ≤ length (e ∷ root)
    → (items : List Item) × (show_tree (e ∷ root) ≡ some items)
      × ((x : ℤ) → In x (pids items) ↔ Descends (e ∷ root) (pos 1) x)
unfolding show_tree
show_tree-Descends e root h f low =
    let n = suc (length (e ∷ root)) in
    let (t, run, new) = dfs_show-Prints n (e ∷ root) (pos 1) 0 h (root_line e) f (omega arith) in
    (
      t.out,
      rw (run, show_tree) refl,
      λ x. (
        λ i. visits_sound n (e ∷ root) (pos 1) x (subst (In x) new i),
        λ d. subst (In x) (sym new) (visits_complete n (e ∷ root) (pos 1) x h f d (omega arith)),
      ),
    )
