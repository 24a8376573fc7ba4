-- ===== src/Prelude/Order.antt =====
-- The order of strings by strcmp, and strings inside arrays.
use Prim.Native.Nat.{lt, eq, gt, ◌≤◌}
use mathlib.Core.Path.{◌≡◌, refl, ap}
use mathlib.Core.Logic.{inl, inr}
use mathlib.Core.List.{[], ◌∷◌, ◌++◌}
use native.Mathlib.Omega.{arith}
use network_system_programmi.Prelude.Tests.{◌==◌, Bool-cases}
use network_system_programmi.Prelude.Lists.{length}
use network_system_programmi.Prelude.Bytes.{Bytes, strcmp, cstr}

pub strcmp-eq : (a b : Bytes) → strcmp a b ≡ eq → a ≡ b
unfolding strcmp
strcmp-eq (x ∷ a) (y ∷ b) h = ground (arith, strcmp-eq a b)
strcmp-eq _ _ h = ground arith

pub strcmp_refl : (a : Bytes) → strcmp a a ≡ eq
unfolding strcmp
strcmp_refl [] = refl
strcmp_refl (x ∷ a) = ground (arith, strcmp_refl a)

pub strcmp_flip : (a b : Bytes) → strcmp a b ≡ gt → strcmp b a ≡ lt
unfolding strcmp
strcmp_flip (x ∷ a) (y ∷ b) h = ground (arith, strcmp_flip a b)
strcmp_flip _ _ h = ground arith

pub strcmp_flip_lt : (a b : Bytes) → strcmp a b ≡ lt → strcmp b a ≡ gt
unfolding strcmp
strcmp_flip_lt (x ∷ a) (y ∷ b) h = ground (arith, strcmp_flip_lt a b)
strcmp_flip_lt _ _ h = ground arith

pub strcmp_trans : (a b c : Bytes) → strcmp a b ≡ lt → strcmp b c ≡ lt → strcmp a c ≡ lt
unfolding strcmp
strcmp_trans (x ∷ a) (y ∷ b) (z ∷ c) h k = ground (arith, strcmp_trans a b c)
strcmp_trans _ _ _ h k = ground arith

-- A string copied to the front of an array is the string that the array holds.
pub cstr-append : (a rest : Bytes) → cstr (cstr a ++ (0 ∷ rest)) ≡ cstr a
unfolding cstr
cstr-append [] rest = refl
cstr-append (c ∷ a) rest = elim (Bool-cases (c == 0)) [
  | inl e ↦ rw e
  | inr e ↦ rw e (rw e (ap (◌∷◌ c) (cstr-append a rest)))
]

pub length-cstr : (a : Bytes) → length (cstr a) ≤ length a
unfolding cstr
length-cstr [] = omega arith
length-cstr (c ∷ a) = ground (arith, length-cstr a)
