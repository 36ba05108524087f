-- ===== src/Utils/Hex.antt =====
-- The hexadecimal codecs of src/kv_recovery.c and src/tx_manager.c: the writers against the readers.
use sample_kv.Prelude.{
  ℕ, zero, suc, ◌+◌, ◌*◌, ◌/◌, ◌%◌, ◌^◌, ◌<◌, ◌≡◌, refl, Bool, true, ◌&&◌, arith, length, ◌==◌,
  ==_iff, ◌↔◌,
}
use sample_kv.Utils.{
  get_hex, from_hex, uint32_to_hex, hex_to_uint32, size_t_to_2_digit_hex, from_2_digit_hex,
}

-- All numbers below `top` pass a test.
unfoldable pub all_pass : (ℕ → Bool) → ℕ → Bool
all_pass test zero = true
all_pass test (suc top) = all_pass test top && test top

pub pass : (test : ℕ → Bool) (top d : ℕ) → d < top → all_pass test top ≡ true → test d ≡ true
unfolding all_pass
pass test zero d small all = absurd (omega arith)
pass test (suc top) d small all = ground (arith, pass test top d)

hex_table : all_pass (λ d. from_hex (get_hex d) == d) 16 ≡ true
unfolding all_pass from_hex get_hex
hex_table = refl

pub from_hex-get_hex : (d : ℕ) → d < 16 → from_hex (get_hex d) ≡ d
from_hex-get_hex d h = (==_iff _ d).0 (pass _ 16 d h hex_table)

pub length-uint32_to_hex : (x : ℕ) → length (uint32_to_hex x) ≡ 8
unfolding uint32_to_hex
length-uint32_to_hex x = refl

pub length-size_t_to_2_digit_hex : (s : ℕ) → length (size_t_to_2_digit_hex s) ≡ 2
unfolding size_t_to_2_digit_hex
length-size_t_to_2_digit_hex s = refl

digit-lt : (x : ℕ) → x % 16 < 16
digit-lt x = omega arith

-- The code of a digit stays shut.
digit : (x : ℕ) → from_hex (get_hex (x % 16)) ≡ x % 16
digit x = from_hex-get_hex (x % 16) (digit-lt x)

-- A `uint32_t` comes back from its eight digits.
pub hex_to_uint32-uint32_to_hex : (x : ℕ) → x < 2 ^ 32 → hex_to_uint32 (uint32_to_hex x) ≡ x
unfolding hex_to_uint32 uint32_to_hex
hex_to_uint32-uint32_to_hex x h = omega (
  arith,
  digit (x / 2 ^ 28),
  digit (x / 2 ^ 24),
  digit (x / 2 ^ 20),
  digit (x / 2 ^ 16),
  digit (x / 2 ^ 12),
  digit (x / 2 ^ 8),
  digit (x / 2 ^ 4),
  digit (x / 2 ^ 0),
)

-- What the two-digit reader makes of the two digits of a length: the upper digit counts double, not
-- sixteenfold.
pub from_2_digit_hex-size_t_to_2_digit_hex :
    (s : ℕ) → from_2_digit_hex (size_t_to_2_digit_hex s) ≡ s / 16 % 16 * 2 + s % 16
unfolding from_2_digit_hex size_t_to_2_digit_hex
from_2_digit_hex-size_t_to_2_digit_hex s = omega (arith, digit (s / 2 ^ 4), digit (s / 2 ^ 0))

-- So a length comes back exactly if it is below 16, among those that two digits can hold.
pub two_digit_exact :
    (s : ℕ) → s < 256 → (from_2_digit_hex (size_t_to_2_digit_hex s) ≡ s) ↔ (s < 16)
two_digit_exact s h =
    rw (from_2_digit_hex-size_t_to_2_digit_hex s) (λ e. omega arith, λ lt. omega arith)
