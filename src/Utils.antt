-- ===== src/Utils.antt =====
-- src/utils.c, and the hexadecimal codecs that src/kv_recovery.c and src/tx_manager.c share.
-- Characters are their codes, bytes below 256; a `uint32_t` is a number below 2 ^ 32, a `size_t` one
-- below 2 ^ 64.
pub mod Digits
pub mod Hex
use sample_kv.Prelude.{
  ℕ, zero, suc, ◌+◌, ◌-◌, ◌*◌, ◌/◌, ◌%◌, ◌^◌, Option, none, some, List, [], ◌∷◌, ◌++◌, get_or,
  length, ltb, if◌then◌else◌,
}

-- The loop of `djb2` over `str`. A `char` of 128 or more is negative and is cast to `size_t`.
abbrev pub char_to_size : ℕ → ℕ
char_to_size c = if ltb c 128 then c else c + (2 ^ 64 - 256)

djb2_loop : ℕ → List ℕ → ℕ
djb2_loop hash [] = hash
djb2_loop hash (c ∷ str) = djb2_loop ((hash * 2 ^ 5 % 2 ^ 64 + hash + char_to_size c) % 2 ^ 64) str

unfoldable pub djb2 : List ℕ → ℕ
unfolding djb2_loop
djb2 str = djb2_loop 5381 str

-- `hex_array`
abbrev hex_array : List ℕ
hex_array =
    b'0' ∷ b'1' ∷ b'2' ∷ b'3' ∷ b'4' ∷ b'5' ∷ b'6' ∷ b'7' ∷ b'8' ∷ b'9' ∷ b'A' ∷ b'B' ∷ b'C' ∷ b'D'
    ∷ b'E' ∷ b'F' ∷ []

-- The callers index below 16.
unfoldable pub get_hex : ℕ → ℕ
get_hex i = get_or hex_array i 0

abbrev from_hex_array : List ℕ
from_hex_array =
    0 ∷ 1 ∷ 2 ∷ 3 ∷ 4 ∷ 5 ∷ 6 ∷ 7 ∷ 8 ∷ 9 ∷ 0 ∷ 0 ∷ 0 ∷ 0 ∷ 0 ∷ 0 ∷ 0 ∷ 10 ∷ 11 ∷ 12 ∷ 13 ∷ 14 ∷ 15
    ∷ []

-- The code indexes `from_hex_array` by `hex - 48`. Outside "0".."F" it reads beyond the array; 0
-- stands for what is read there.
unfoldable pub from_hex : ℕ → ℕ
from_hex hex = if ltb hex 48 then 0 else get_or from_hex_array (hex - 48) 0

-- `digit_to_int`: decimal, from the last digit on, in a 32-bit `int`; `none` where it calls `exit`.
-- `rest` are the digits still to read, the last one first.
digit_loop : List ℕ → ℕ → ℕ → Option ℕ
digit_loop [] integer weight = some integer
digit_loop (d ∷ rest) integer weight =
    let next = digit_loop rest (integer + (d - 48) * weight) (weight * 10) in
    if ltb d 48 then none else if ltb 57 d then none else next

reverse_digits : List ℕ → List ℕ → List ℕ
reverse_digits [] acc = acc
reverse_digits (d ∷ ds) acc = reverse_digits ds (d ∷ acc)

-- The arithmetic is exact: numbers that overflow an `int` are undefined in C.
unfoldable pub digit_to_int : List ℕ → Option ℕ
unfolding digit_loop reverse_digits
digit_to_int digit = digit_loop (reverse_digits digit []) 0 1

-- The loop of `int_to_digit`: `digit_len` decimal digits of a number that is not negative, each
-- written in front of those below it.
unfoldable pub int_to_digit : ℕ → ℕ → List ℕ → List ℕ
int_to_digit zero quotient buf = buf
int_to_digit (suc digit_len) quotient buf =
    int_to_digit digit_len (quotient / 10) ((quotient % 10 + 48) ∷ buf)

-- The loop of `uint32_to_hex` and of `size_t_to_2_digit_hex`: round i writes digit i in front of
-- those below it, with `(x & filter) >> (i * 4)` for `filter = 0xf << (i * 4)`.
unfoldable pub hex_digits : ℕ → ℕ → ℕ → List ℕ → List ℕ
hex_digits zero i x hex = hex
hex_digits (suc n) i x hex = hex_digits n (i + 1) x (get_hex (x / 2 ^ (i * 4) % 16) ∷ hex)

-- `uint32_to_hex`, and what `%08X` prints for a `uint32_t`.
unfoldable pub uint32_to_hex : ℕ → List ℕ
unfolding hex_digits
uint32_to_hex x = hex_digits 8 0 x []

-- `hex_to_uint32`: digit i of eight is shifted by `(7 - i) * 4`.
hex_loop : List ℕ → ℕ → ℕ → ℕ
hex_loop [] i hex_val = hex_val
hex_loop (c ∷ hex) i hex_val =
    hex_loop hex (i + 1) ((hex_val + from_hex c * 2 ^ ((7 - i) * 4)) % 2 ^ 32)

unfoldable pub hex_to_uint32 : List ℕ → ℕ
unfolding hex_loop
hex_to_uint32 hex = hex_loop hex 0 0

-- `size_t_to_2_digit_hex`
unfoldable pub size_t_to_2_digit_hex : ℕ → List ℕ
unfolding hex_digits
size_t_to_2_digit_hex s = hex_digits 2 0 s []

-- `from_2_digit_hex`: the digits are shifted by `1 - i`, one bit and not four.
two_digit_loop : List ℕ → ℕ → ℕ → ℕ
two_digit_loop [] i hex_val = hex_val
two_digit_loop (c ∷ hex) i hex_val =
    two_digit_loop hex (i + 1) ((hex_val + from_hex c * 2 ^ (1 - i)) % 2 ^ 64)

unfoldable pub from_2_digit_hex : List ℕ → ℕ
unfolding two_digit_loop
from_2_digit_hex hex = two_digit_loop hex 0 0
