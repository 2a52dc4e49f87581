-- ===== src/Text.antt =====
-- Byte strings: std::string and C strings as the list of their bytes, and the standard library's
-- decimal reader.
pub mod Decimal
pub mod Fields
use Prim.Native.Char.{code}
use Prim.Native.String.{String}
use cyc_flow.Base.{
  ℕ, zero, suc, ◌+◌, ◌-◌, ◌*◌, ◌≡◌, refl, Bool, true, false, ◌&&◌, ◌==◌, leb, ltb, if◌then◌else◌,
  Option, none, some, List, [], ◌∷◌, word, arith,
}

abbrev pub Text : Type 0
Text = List ℕ

-- The bytes of an ASCII literal.
abbrev pub codes : String → Text
codes String.[] = []
codes (String.◌∷◌ c s) = code c ∷ codes s

unfoldable pub text_eq : Text → Text → Bool
text_eq [] [] = true
text_eq [] (y ∷ ys) = false
text_eq (x ∷ xs) [] = false
text_eq (x ∷ xs) (y ∷ ys) = x == y && text_eq xs ys

pub text_eq→eq : (s t : Text) → text_eq s t ≡ true → s ≡ t
unfolding text_eq
text_eq→eq [] [] h = refl
text_eq→eq [] (y ∷ ys) h = ground arith
text_eq→eq (x ∷ xs) [] h = ground arith
text_eq→eq (x ∷ xs) (y ∷ ys) h = ground (arith, text_eq→eq xs ys)

pub text_eq_refl : (s : Text) → text_eq s s ≡ true
unfolding text_eq
text_eq_refl [] = refl
text_eq_refl (x ∷ xs) = ground (arith, text_eq_refl xs)

-- What strncpy into a buffer of `n + 1` zeroed bytes leaves: up to `n` bytes, none from the first NUL on.
unfoldable pub strncpy : ℕ → Text → Text
strncpy zero s = []
strncpy (suc n) [] = []
strncpy (suc n) (c ∷ s) = if c == 0 then [] else c ∷ strncpy n s

unfoldable pub is_digit : ℕ → Bool
is_digit c = leb b'0' c && leb c b'9'

unfoldable pub all_digits : Text → Bool
unfolding is_digit
all_digits [] = true
all_digits (c ∷ s) = is_digit c && all_digits s

unfoldable pub decimal : ℕ → Text → ℕ
decimal acc [] = acc
decimal acc (c ∷ s) = decimal (acc * 10 + (c - b'0')) s

-- std::stoul of a text of digits: `none` is std::out_of_range.
unfoldable pub stoul : Text → Option ℕ
unfolding decimal
stoul s = if ltb (decimal 0 s) word then some (decimal 0 s) else none
