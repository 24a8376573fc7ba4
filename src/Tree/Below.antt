-- ===== src/Tree/Below.antt =====
-- The processes below a process in a table like that of 12_2.c.
use network_system_programmi.Prelude.{
  ℕ, zero, suc, ◌<◌, true, List, [], ◌∷◌, ◌++◌, ◌≡◌, refl, sym, subst, arith, ◌⊎◌, inl, inr, ==_iff,
  Bool-cases, if◌then◌else◌, All, ◌↔◌,
}
use network_system_programmi.Prelude.Int.{ℤ, eq_of_parts}
use network_system_programmi.Tail.{eqb_ℤ}
use network_system_programmi.Tree.{Entry}

abbrev pub In : {A : Type 0} → A → List A → Type 0
In x [] = ⊥
In x (y ∷ ys) = (x ≡ y) ⊎ In x ys

-- The processes below a process: its children, and those below one of them.
pub data Descends (root : List Entry) : ℤ → ℤ → Type 0 where
  child : (e : Entry) → In e root → Descends root e.ppid e.pid
  deeper : (e : Entry) (x : ℤ) → In e root → Descends root e.pid x → Descends root e.ppid x

-- Heights that grow from each process to its parent: no process is below itself.
abbrev pub Falls : (ℤ → ℕ) → List Entry → Type 0
Falls h = All (λ e. h e.pid < h e.ppid)

-- Each child of `a` in a list, with what `v` gives for it behind it.
abbrev pub children : (ℤ → List ℤ) → ℤ → List Entry → List ℤ
children v a [] = []
children v a (e ∷ es) =
    if eqb_ℤ e.ppid a then e.pid ∷ (v e.pid ++ children v a es) else children v a es

-- Each process before those below it, to a depth.
abbrev pub visits : ℕ → List Entry → ℤ → List ℤ
visits zero root a = []
visits (suc n) root a = children (visits n root) a root

pub same_pid : (a b : ℤ) → eqb_ℤ a b ≡ true → a ≡ b
same_pid a b h = eq_of_parts a b ((==_iff _ _).0 h)

eqb_refl : (a : ℤ) → eqb_ℤ a a ≡ true
eqb_refl a = (==_iff _ _).1 refl

In-append : (x : ℤ) (k m : List ℤ) → In x (k ++ m) ↔ (In x k ⊎ In x m)
In-append x [] m = (inr, λ i. elim i [ inl j ↦ elim j [ ] | inr j ↦ j ])
In-append x (y ∷ k) m = ground (arith, In-append x k m)

children_sound :
    (v : ℤ → List ℤ) (root es : List Entry) (a x : ℤ)
    → ((p : ℤ) → In x (v p) → Descends root p x)
    → ((e : Entry) → In e es → In e root)
    → In x (children v a es)
    → Descends root a x
children_sound v root [] a x each sub i = elim i [ ]
children_sound v root (e ∷ es) a x each sub i = elim (Bool-cases (eqb_ℤ e.ppid a)) [
  | inr o ↦
      children_sound v root es a x each (λ d j. sub d (inr j))
        (subst (λ b. In x (if b then e.pid ∷ (v e.pid ++ children v a es) else children v a es)) o
          i)
  | inl o ↦
      let same : e.ppid ≡ a = same_pid e.ppid a o in
      let here : In x (e.pid ∷ (v e.pid ++ children v a es)) =
        subst (λ b. In x (if b then e.pid ∷ (v e.pid ++ children v a es) else children v a es)) o
          i in
      elim here [
        | inl q ↦
            subst (λ y. Descends root a y) (sym q)
              (subst (λ b. Descends root b e.pid) same (child e (sub e (inl refl))))
        | inr q ↦ elim ((In-append x (v e.pid) (children v a es)).0 q) [
          | inl r ↦
              subst (λ b. Descends root b x) same (deeper e x (sub e (inl refl)) (each e.pid r))
          | inr r ↦ children_sound v root es a x each (λ d j. sub d (inr j)) r
        ]
      ]
]

children_complete :
    (v : ℤ → List ℤ) (es : List Entry) (e : Entry) (x : ℤ)
    → In e es
    → (x ≡ e.pid) ⊎ In x (v e.pid)
    → In x (children v e.ppid es)
children_complete v [] e x i w = elim i [ ]
children_complete v (d ∷ es) e x (inl p) w =
    let rest = children v e.ppid es in
    let first : In x (e.pid ∷ (v e.pid ++ rest)) = elim w [
      | inl q ↦ inl q
      | inr q ↦ inr ((In-append x (v e.pid) rest).1 (inl q))
    ] in
    subst (λ d. In x (children v e.ppid (d ∷ es))) p (rw (eqb_refl e.ppid) first)
children_complete v (d ∷ es) e x (inr j) w =
    let later = children_complete v es e x j w in
    elim (Bool-cases (eqb_ℤ d.ppid e.ppid)) [
      | inl o ↦ rw o (inr ((In-append x (v d.pid) (children v e.ppid es)).1 (inr later)))
      | inr o ↦ rw o later
    ]

pub visits_sound :
    (n : ℕ) (root : List Entry) (a x : ℤ) → In x (visits n root a) → Descends root a x
visits_sound zero root a x i = elim i [ ]
visits_sound (suc n) root a x i =
    children_sound (visits n root) root root a x (λ p j. visits_sound n root p x j) (λ e j. j) i

In-Falls : (h : ℤ → ℕ) (es : List Entry) (e : Entry) → Falls h es → In e es → h e.pid < h e.ppid
In-Falls h [] e f i = elim i [ ]
In-Falls h (d ∷ es) e f (inl p) = subst (λ d. h d.pid < h d.ppid) (sym p) f.0
In-Falls h (d ∷ es) e f (inr j) = In-Falls h es e f.1 j

pub visits_complete :
    (n : ℕ) (root : List Entry) (a x : ℤ) (h : ℤ → ℕ)
    → Falls h root
    → Descends root a x
    → h a < n
    → In x (visits n root a)
visits_complete zero root a x h f d low = absurd (omega arith)
visits_complete (suc n) root a x h f (child e i) low =
    children_complete (visits n root) root e x i (inl refl)
visits_complete (suc n) root a x h f (deeper e _ i d) low =
    children_complete (visits n root) root e x i
      (inr (visits_complete n root e.pid x h f d (omega (arith, In-Falls h root e f i))))
