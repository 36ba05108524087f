-- ===== src/Utils/Digits.antt =====
-- The decimal codec of src/utils.c.
use sample_kv.Prelude.{
  ℕ, zero, suc, ◌+◌, ◌*◌, ◌/◌, ◌%◌, ◌^◌, ◌<◌, ◌≡◌, refl, ap, ◌∙◌, some, List, [], ◌∷◌, ◌++◌,
  append-nil, arith,
}
use sample_kv.Utils.{digit_loop, reverse_digits, digit_to_int, int_to_digit}
use native.Mathlib.Nat.{div-add-mod}

-- The digits from the lowest on.
low_digits : ℕ → ℕ → List ℕ
low_digits zero x = []
low_digits (suc n) x = (x % 10 + 48) ∷ low_digits n (x / 10)

reverse-int_to_digit :
    (n x : ℕ) (buf r : List ℕ)
    → reverse_digits (int_to_digit n x buf) r ≡ reverse_digits buf (low_digits n x ++ r)
unfolding int_to_digit reverse_digits low_digits
reverse-int_to_digit zero x buf r = refl
reverse-int_to_digit (suc n) x buf r = reverse-int_to_digit n (x / 10) ((x % 10 + 48) ∷ buf) r

digit_loop-low_digits :
    (n x integer weight : ℕ)
    → x < 10 ^ n
    → digit_loop (low_digits n x) integer weight ≡ some (integer + x * weight)
unfolding digit_loop low_digits
digit_loop-low_digits zero x integer weight h = ground arith
digit_loop-low_digits (suc n) x integer weight h = ground (
  arith,
  digit_loop-low_digits n (x / 10) (integer + x % 10 * weight) (weight * 10) (omega arith),
  ap (λ (t : ℕ). t * weight) (div-add-mod x 10),
)

-- A number below 10 ^ n comes back from its n decimal digits.
pub digit_to_int-int_to_digit : (n x : ℕ) → x < 10 ^ n → digit_to_int (int_to_digit n x []) ≡ some x
unfolding digit_to_int reverse_digits
digit_to_int-int_to_digit n x h =
    rw (reverse-int_to_digit n x [] [], append-nil)
      (digit_loop-low_digits n x 0 1 h ∙ ap some (omega arith))
