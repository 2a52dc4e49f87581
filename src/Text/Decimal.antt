-- ===== src/Text/Decimal.antt =====
-- Numbers in decimal: what a stream writes for a size_t, and what std::stoul makes of a text.
use native.Mathlib.Nat.{pow-succ'}
use cyc_flow.Base.{
  ℕ, zero, suc, ◌+◌, ◌-◌, ◌*◌, ◌/◌, ◌%◌, ◌^◌, ◌≤◌, ◌<◌, ◌≡◌, refl, ap, ◌∙◌, inl, inr, Bool, true,
  false, ◌&&◌, ◌||◌, ◌==◌, not, leb, ltb, if◌then◌else◌, Bool-cases, length, length-append, ltb→lt,
  lt→ltb, ==→eq, [], ◌∷◌, ◌++◌, sub64, word, arith,
}
use cyc_flow.Text.{Text, is_digit, all_digits, decimal}
use cyc_flow.Text.Fields.{lacks}
use cyc_flow.PAttr.{Result, ok, err, Error}

-- The last `n` digits of a number, the leading zeros left out.
unfoldable pub digits : ℕ → ℕ → Text
digits zero k = []
digits (suc n) k =
    let before = digits n (k / 10) in
    if ltb k 10 then (b'0' + k) ∷ [] else before ++ (b'0' + k % 10) ∷ []

-- `stream << k`; a size_t has at most twenty digits.
unfoldable pub print : ℕ → Text
print k = digits 20 k

-- The digits at the front of a text.
unfoldable pub digit_run : Text → Text
digit_run [] = []
digit_run (c ∷ s) = let rest = digit_run s in if is_digit c then c ∷ rest else []

unfoldable pub is_space : ℕ → Bool
is_space c = c == 32 || leb 9 c && leb c 13

unfoldable pub skip_space : Text → Text
skip_space [] = []
skip_space (c ∷ s) = let rest = skip_space s in if is_space c then rest else c ∷ s

unfoldable pub read_run : Bool → Text → Result ℕ
read_run negative [] = err Error.invalid_argument
read_run negative (c ∷ s) =
    let k = decimal 0 (c ∷ s) in
    if not (ltb k word) then err Error.out_of_range else if negative then ok (sub64 0 k) else ok k

unfoldable pub read_signed : Text → Result ℕ
read_signed [] = err Error.invalid_argument
read_signed (c ∷ s) =
    if c == b'-'
    then read_run true (digit_run s)
    else if c == b'+'
    then read_run false (digit_run s)
    else read_run false (digit_run (c ∷ s))

-- std::stoul: spaces, a sign, and as many digits as there are; what follows is ignored.
unfoldable pub read_ulong : Text → Result ℕ
read_ulong s = read_signed (skip_space s)

decimal-append :
    (acc : ℕ) (s : Text) (c : ℕ) → decimal acc (s ++ c ∷ []) ≡ decimal acc s * 10 + (c - b'0')
unfolding decimal
decimal-append acc [] c = refl
decimal-append acc (d ∷ s) c = decimal-append (acc * 10 + (d - b'0')) s c

pub decimal-digits : (n k : ℕ) → k < 10 ^ n → decimal 0 (digits n k) ≡ k
unfolding decimal digits
decimal-digits zero k h = omega arith
decimal-digits (suc n) k h = elim (Bool-cases (ltb k 10)) [
  | inl e ↦ rw e (omega arith)
  | inr e ↦ rw e (
      decimal-append 0 (digits n (k / 10)) (b'0' + k % 10)
      ∙ (omega (arith, decimal-digits n (k / 10) (omega (arith, pow-succ' 10 n, h)))))
]

-- A text that starts with a digit and has nothing else.
abbrev pub IsNumber : Text → Type 0
IsNumber s = (all_digits s ≡ true) × (0 < length s)

all_digits-append :
    (s : Text) (c : ℕ) → all_digits s ≡ true → is_digit c ≡ true → all_digits (s ++ c ∷ []) ≡ true
unfolding all_digits
all_digits-append [] c h k = ground (arith, k)
all_digits-append (d ∷ s) c h k = ground (arith, all_digits-append s c)

pub all_digits-digits : (n k : ℕ) → all_digits (digits n k) ≡ true
unfolding digits all_digits
all_digits-digits zero k = refl
all_digits-digits (suc n) k = elim (Bool-cases (ltb k 10)) [
  | inl e ↦ rw e (ground (arith, digit k (omega (arith, ltb→lt k 10 e))))
  | inr e ↦ rw e (
      all_digits-append (digits n (k / 10)) (b'0' + k % 10) (all_digits-digits n (k / 10))
        (digit (k % 10) (omega arith)))
]
  where
    digit : (d : ℕ) → d < 10 → is_digit (b'0' + d) ≡ true
    digit d h = unfold is_digit in ground arith

pub length-digits : (n k : ℕ) → 0 < length (digits (suc n) k)
unfolding digits
length-digits n k = elim (Bool-cases (ltb k 10)) [
  | inl e ↦ rw e (omega arith)
  | inr e ↦ rw e (omega (arith, length-append (digits n (k / 10)) ((b'0' + k % 10) ∷ [])))
]

digit_run-all : (s : Text) → all_digits s ≡ true → digit_run s ≡ s
unfolding digit_run all_digits
digit_run-all [] h = refl
digit_run-all (c ∷ s) h = elim (Bool-cases (is_digit c)) [
  | inl e ↦ rw e (ap (λ t. c ∷ t) (digit_run-all s (ground (arith, h))))
  | inr e ↦ absurd (ground (arith, e, h))
]

pub lacks-all_digits :
    (sep : ℕ) (s : Text) → is_digit sep ≡ false → all_digits s ≡ true → lacks sep s ≡ true
unfolding lacks all_digits
lacks-all_digits sep [] e h = refl
lacks-all_digits sep (c ∷ s) e h = elim (Bool-cases (c == sep)) [
  | inl f ↦ absurd (ground (arith, e, h, ap is_digit (==→eq c sep f)))
  | inr f ↦ ground (arith, f, h, lacks-all_digits sep s e)
]

read_run-number :
    (s : Text) → 0 < length s → decimal 0 s < word → read_run false s ≡ ok (decimal 0 s)
unfolding read_run
read_run-number [] p h = absurd (omega arith)
read_run-number (c ∷ s) p h = simp (lt→ltb (decimal 0 (c ∷ s)) word h) refl

read_ulong-number :
    (s : Text)
    → all_digits s ≡ true
    → 0 < length s
    → decimal 0 s < word
    → read_ulong s ≡ ok (decimal 0 s)
unfolding read_ulong
read_ulong-number [] d p h = absurd (omega arith)
read_ulong-number (c ∷ s) d p h =
    ap read_signed (unspaced range)
    ∙ unsigned range
    ∙ ap (read_run false) (digit_run-all (c ∷ s) d)
    ∙ read_run-number (c ∷ s) p h
  where
    range : (b'0' ≤ c) × (c ≤ b'9')
    range = unfold all_digits is_digit in ground (arith, d)

    unspaced : (b'0' ≤ c) × (c ≤ b'9') → skip_space (c ∷ s) ≡ c ∷ s
    unspaced r = unfold skip_space is_space in ground (arith, r)

    unsigned : (b'0' ≤ c) × (c ≤ b'9') → read_signed (c ∷ s) ≡ read_run false (digit_run (c ∷ s))
    unsigned r = unfold read_signed in ground (arith, r)

-- Reading what is printed for a size_t gives that number.
pub read_ulong-print : (k : ℕ) → k < word → read_ulong (print k) ≡ ok k
unfolding print
read_ulong-print k h =
    read_ulong-number (digits 20 k) (all_digits-digits 20 k) (length-digits 19 k)
      (omega (arith, value, h))
    ∙ ap ok value
  where
    value : decimal 0 (digits 20 k) ≡ k
    value = decimal-digits 20 k (omega (arith, h))
