-- ===== src/Prelude/Bytes.antt =====
-- C strings as lists of byte values without the NUL; `<string.h>` as far as the programs use it.
use Prim.Native.Nat.{ℕ, zero, suc, ◌+◌, ◌/◌, ◌%◌, compare, Ordering}
use Prim.Native.Char.{code}
use Prim.Native.String.{String}
use mathlib.Core.Path.{◌≡◌, refl}
use mathlib.Core.Logic.{◌↔◌}
use mathlib.Core.Bool.{Bool, true, false, ◌&&◌}
use mathlib.Core.List.{List, [], ◌∷◌, ◌++◌}
use native.Mathlib.Omega.{arith}
use network_system_programmi.Prelude.Tests.{◌==◌, ltb, if◌then◌else◌}

abbrev pub Bytes : Type 0
Bytes = List ℕ

-- The bytes of an ASCII literal.
abbrev pub codes : String → Bytes
codes String.[] = []
codes (String.◌∷◌ c s) = code c ∷ codes s

-- `strcmp (a, b) == 0`
unfoldable pub equal : Bytes → Bytes → Bool
equal [] [] = true
equal [] (y ∷ b) = false
equal (x ∷ a) [] = false
equal (x ∷ a) (y ∷ b) = x == y && equal a b

pub equal_iff : (s t : Bytes) → (equal s t ≡ true) ↔ (s ≡ t)
unfolding equal
equal_iff (c ∷ s) (d ∷ t) = ground (arith, equal_iff s t)
equal_iff _ _ = ground arith

pub equal_refl : (a : Bytes) → equal a a ≡ true
equal_refl a = (equal_iff a a).1 refl

-- The sign of `strcmp (a, b)`: bytes compare as unsigned, a proper prefix is smaller.
unfoldable pub strcmp : Bytes → Bytes → Ordering
strcmp [] [] = Ordering.eq
strcmp [] (y ∷ b) = Ordering.lt
strcmp (x ∷ a) [] = Ordering.gt
strcmp (x ∷ a) (y ∷ b) = elim (compare x y) [
  | Ordering.lt ↦ Ordering.lt
  | Ordering.eq ↦ strcmp a b
  | Ordering.gt ↦ Ordering.gt
]

-- The string that an array holds: its bytes up to the first NUL.
unfoldable pub cstr : Bytes → Bytes
cstr [] = []
cstr (c ∷ cs) = if c == 0 then [] else c ∷ cstr cs

unfoldable pub digits : ℕ → ℕ → Bytes
digits zero n = []
digits (suc fuel) n =
    let more = digits fuel (n / 10) ++ ((48 + n % 10) ∷ []) in
    if ltb n 10 then (48 + n) ∷ [] else more

-- `%d` of a number that is not negative.
unfoldable pub decimal : ℕ → Bytes
unfolding digits
decimal n = digits (suc n) n
