-- ===== src/Libc.antt =====
-- The functions of the C library that several programs share, on byte lists.
pub mod Lines
use network_system_programmi.Prelude.{
  ℕ, zero, suc, ◌+◌, ◌-◌, ◌*◌, Bool, ◌&&◌, ◌||◌, [], ◌∷◌, Option, none, some, ◌==◌, leb,
  if◌then◌else◌,
}
use network_system_programmi.Prelude.Bytes.{Bytes}
use network_system_programmi.Prelude.Int.{ℤ, pos, negsuc}

-- isspace in the C locale: blank, and \t \n \v \f \r.
unfoldable pub is_space : ℕ → Bool
is_space c = c == b' ' || leb 9 c && leb c 13

unfoldable pub is_digit : ℕ → Bool
is_digit c = leb b'0' c && leb c b'9'

-- The number that the leading digits stand for.
unfoldable pub digits_value : ℕ → Bytes → ℕ
digits_value acc [] = acc
digits_value acc (c ∷ cs) =
    let more = digits_value (acc * 10 + (c - b'0')) cs in if is_digit c then more else acc

unfoldable pub negate : ℕ → ℤ
negate zero = pos 0
negate (suc n) = negsuc n

-- atoi behind the white space; overflow of `int` is not modelled.
unfoldable pub atoi_signed : Bytes → ℤ
atoi_signed [] = pos 0
atoi_signed (c ∷ cs) =
    if c == b'-'
    then negate (digits_value 0 cs)
    else if c == b'+'
    then pos (digits_value 0 cs)
    else pos (digits_value 0 (c ∷ cs))

unfoldable pub atoi : Bytes → ℤ
unfolding is_space is_digit digits_value negate atoi_signed
atoi [] = pos 0
atoi (c ∷ cs) = let rest = atoi cs in if is_space c then rest else atoi_signed (c ∷ cs)

-- What one line takes from the input: at most `n` bytes, the newline included.
unfoldable pub read_line : ℕ → Bytes → Bytes × Bytes
read_line zero input = ([], input)
read_line (suc n) [] = ([], [])
read_line (suc n) (c ∷ cs) =
    let (line, rest) = read_line n cs in if c == b'\n' then (c ∷ [], cs) else (c ∷ line, rest)

-- fgets (line, n + 1, input): `none` at the end of the input.
unfoldable pub fgets : ℕ → Bytes → Option (Bytes × Bytes)
unfolding read_line
fgets n [] = none
fgets n (c ∷ cs) = some (read_line n (c ∷ cs))
