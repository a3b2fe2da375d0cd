-- ===== src/Prelude/Text/Numerals.antt =====
-- Decimal numerals, as the program prints and reads them.
use edg.Prelude.{
  ℕ, zero, suc, ◌+◌, ◌/◌, ◌%◌, ◌^◌, ◌≤◌, ◌≡◌, refl, ◌∙◌, Bool, true, false, [], ◌∷◌, some, arith,
}
use edg.Prelude.Int.{ℤ, pos, negsuc, InRange64}
use edg.Prelude.Text.{
  Bytes, digits, show_nat, show_int, is_digit, read_nat, read_digits, atoi, below, as_pos, as_neg,
}

read_nat-digits :
    (fuel n : ℕ) (out : Bytes) → n ≤ fuel → read_nat (digits fuel n out) 0 ≡ read_nat out n
unfolding digits read_nat is_digit
read_nat-digits zero n out h = ground arith
read_nat-digits (suc fuel) n out h =
    ground (arith, read_nat-digits fuel (n / 10) ((b'0' + n % 10) ∷ out))

read_nat-show_nat : (n : ℕ) → read_nat (show_nat n) 0 ≡ some n
unfolding show_nat read_nat
read_nat-show_nat n = read_nat-digits n n [] (omega arith) ∙ refl

-- Whether the first character is a digit.
leads : Bytes → Bool
leads [] = false
leads (c ∷ s) = is_digit c

leads-digits : (fuel n : ℕ) (out : Bytes) → leads (digits fuel n out) ≡ true
unfolding leads digits is_digit
leads-digits zero n out = ground arith
leads-digits (suc fuel) n out = ground (arith, leads-digits fuel (n / 10) ((b'0' + n % 10) ∷ out))

read_digits-leads : (s : Bytes) → leads s ≡ true → read_digits s ≡ read_nat s 0
unfolding leads read_digits
read_digits-leads [] h = cc
read_digits-leads (c ∷ s) h = refl

atoi-leads : (s : Bytes) → leads s ≡ true → atoi s ≡ as_pos (below (2 ^ 63) (read_nat s 0))
unfolding leads read_digits atoi is_digit
atoi-leads [] h = cc
atoi-leads (c ∷ s) h = ground arith

leads-show_nat : (n : ℕ) → leads (show_nat n) ≡ true
unfolding show_nat
leads-show_nat n = leads-digits n n []

read_digits-show_nat : (n : ℕ) → read_digits (show_nat n) ≡ some n
read_digits-show_nat n = read_digits-leads (show_nat n) (leads-show_nat n) ∙ read_nat-show_nat n

atoi-negative : (s : Bytes) → atoi (b'-' ∷ s) ≡ as_neg (below (2 ^ 63 + 1) (read_digits s))
unfolding atoi
atoi-negative s = refl

-- `strconv.Atoi` reads back what `strconv.Itoa` prints, for every int64.
pub atoi-show_int : (z : ℤ) → InRange64 z → atoi (show_int z) ≡ some z
unfolding show_int below as_pos as_neg
atoi-show_int (pos n) h =
    ground (arith, atoi-leads (show_nat n) (leads-show_nat n), read_nat-show_nat n)
atoi-show_int (negsuc n) h =
    ground (arith, atoi-negative (show_nat (suc n)), read_digits-show_nat (suc n))
