-- ===== src/Dict.antt =====
-- The progressive dictionary: `Dictrec` (SP_HW11/part1/dict.h) and what every version of lookup shares.
pub mod Search
pub mod Remote
pub mod Servers
pub mod Prompt
pub mod Parts
pub mod Tests
use network_system_programmi.Prelude.{
  ℕ, suc, ◌+◌, Bool, List, [], ◌∷◌, ◌++◌, Option, none, some, ltb, if◌then◌else◌, length, drop,
}
use network_system_programmi.Prelude.Bytes.{Bytes, cstr}

abbrev pub word_size : ℕ
word_size = 32

abbrev pub text_size : ℕ
text_size = 480

-- Two arrays of bytes, one behind the other in memory.
pub record Dictrec : Type 0 where
  pub word : Bytes
  pub text : Bytes

-- FOUND, NOTFOUND; no version of lookup returns UNAVAIL
pub data Answer : Type 0 where
  found notfound unavail : Answer

-- What lookup gives: its result and `*sought` afterwards; `none` is undefined behaviour.
abbrev pub Looked : Type 0
Looked = Option (Answer × Dictrec)

-- The string at `word`: without a NUL in the array it goes on into `text`.
abbrev pub word_of : Dictrec → Bytes
word_of r = cstr (r.word ++ r.text)

-- strcpy of a string with its NUL over the front of an array; too long a string is undefined.
unfoldable pub strcpy : Bytes → Bytes → Option Bytes
strcpy dst src =
    if ltb (length src) (length dst) then some (src ++ (0 ∷ drop (suc (length src)) dst)) else none

-- The string in an array that ends it.
unfoldable pub string_in : Bytes → Option Bytes
string_in a = if ltb (length (cstr a)) (length a) then some (cstr a) else none

infixl 5 ◌>>=◌
abbrev pub ◌>>=◌ : {A B : Type 0} → Option A → (A → Option B) → Option B
none >>= f = none
some a >>= f = f a

-- strcpy (sought->text, found->text)
unfoldable pub copy_text : Dictrec → Dictrec → Option Dictrec
copy_text sought hit = do
  s ← string_in hit.text
  t ← strcpy sought.text s
  some (record sought { text = t })
