-- ===== src/Shell/Cut.antt =====
-- Lists of words split at the first occurrence of an operator of the shell.
use network_system_programmi.Prelude.{false, List, [], ◌∷◌, ◌++◌, ◌≡◌, inl, inr, All, Bool-cases}
use network_system_programmi.Prelude.Bytes.{Bytes, equal, equal_iff}

-- No word of the list is `s`.
abbrev pub Lacks : Bytes → List Bytes → Type 0
Lacks s ws = All (λ w. equal w s ≡ false) ws

-- The words split at the first `s`, if there is one.
pub data Cut (s : Bytes) : List Bytes → Type 0 where
  uncut : (ws : List Bytes) → Lacks s ws → Cut s ws
  cut : (l r : List Bytes) → Lacks s l → Cut s (l ++ (s ∷ r))

Cut-cons : (s w : Bytes) {ws : List Bytes} → equal w s ≡ false → Cut s ws → Cut s (w ∷ ws)
Cut-cons s w e (uncut ws h) = uncut (w ∷ ws) (e, h)
Cut-cons s w e (cut l r h) = cut (w ∷ l) r (e, h)

pub Cut-words : (s : Bytes) (ws : List Bytes) → Cut s ws
Cut-words s [] = uncut [] tt
Cut-words s (w ∷ ws) = elim (Bool-cases (equal w s)) [
  | inl e ↦ let at_front : Cut s (s ∷ ws) = cut [] ws tt in rw ((equal_iff w s).0 e) at_front
  | inr e ↦ Cut-cons s w e (Cut-words s ws)
]
