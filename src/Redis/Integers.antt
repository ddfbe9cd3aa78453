-- ===== src/Redis/Integers.antt =====
-- Python's `int` on a word, which the Redis honeypot applies to the operand of SELECT
-- (src/honeypots/redis_honeypot.py).
use honey_mind.Prelude.{
  ℕ, zero, suc, ◌+◌, ◌-◌, ◌*◌, Text, codes, is_digit, show, Bool, true, false, ◌&&◌, ◌==◌, [], ◌∷◌,
  ◌++◌, if◌then◌else◌, Option, none, some, ◌≡◌, ◌↔◌, arith,
}

pub data ℤ : Type 0 where
  pos : ℕ → ℤ
  negsuc : ℕ → ℤ

abbrev pub same_int : ℤ → ℤ → Bool
same_int (pos m) (pos n) = m == n
same_int (pos m) (negsuc n) = false
same_int (negsuc m) (pos n) = false
same_int (negsuc m) (negsuc n) = m == n

pub same_int_iff : (i j : ℤ) → (same_int i j ≡ true) ↔ (i ≡ j)
same_int_iff (pos m) (pos n) = ground arith
same_int_iff (pos m) (negsuc n) = (λ h. cc, λ h. cc)
same_int_iff (negsuc m) (pos n) = (λ h. cc, λ h. cc)
same_int_iff (negsuc m) (negsuc n) = ground arith

pub same_int_refl : (i : ℤ) → same_int i i ≡ true
same_int_refl (pos n) = ground arith
same_int_refl (negsuc n) = ground arith

unfoldable pub show_int : ℤ → Text
show_int (pos n) = show n
show_int (negsuc n) = codes "-" ++ show (suc n)

negate : ℕ → ℤ
negate zero = pos 0
negate (suc n) = negsuc n

-- digits, with one underscore between two of them
digits_value : ℕ → Bool → Text → Option ℕ
digits_value n after_digit [] = if after_digit then some n else none
digits_value n after_digit (c ∷ s) = elim (is_digit c) [
  | true ↦ digits_value (n * 10 + (c - b'0')) true s
  | false ↦ elim ((c == b'_') && after_digit) [ true ↦ digits_value n false s | false ↦ none ]
]

signed : (ℕ → ℤ) → Option ℕ → Option ℤ
signed sign none = none
signed sign (some n) = some (sign n)

-- `int(word)`, with `none` for the ValueError
unfoldable pub int : Text → Option ℤ
unfolding digits_value negate signed
int [] = none
int (c ∷ s) =
    if c == b'-'
    then signed negate (digits_value 0 false s)
    else if c == b'+'
    then signed pos (digits_value 0 false s)
    else signed pos (digits_value 0 false (c ∷ s))
