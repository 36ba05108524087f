-- ===== src/Main/Port.antt =====
-- The arguments behind `-p` (src/main.c).
use sample_kv.Prelude.{
  ℕ, ◌^◌, ◌%◌, ◌<◌, ◌≡◌, refl, false, some, List, [], ◌∷◌, ◌++◌, ◌==◌, if◌then◌else◌,
}
use sample_kv.Key.{Bytes}
use sample_kv.Utils.{int_to_digit}
use sample_kv.Utils.Digits.{digit_to_int-int_to_digit}
use sample_kv.Main.{
  ready, port_setting, strcmp_zero, port_option, default_port, read_args, server_port,
}

-- Arguments that are not "-p".
abbrev pub AreOthers : List Bytes → Type 0
AreOthers [] = Unit
AreOthers (arg ∷ args) = (strcmp_zero port_option arg ≡ false) × AreOthers args

-- Numbers, each with a count of digits that fit an `int`.
abbrev pub FitInt : List (ℕ × ℕ) → Type 0
FitInt [] = Unit
FitInt ((n, digits) ∷ numbers) = (n < 10 ^ digits) × (digits < 10) × FitInt numbers

abbrev pub written : List (ℕ × ℕ) → List Bytes
written [] = []
written ((n, digits) ∷ numbers) = int_to_digit digits n [] ∷ written numbers

abbrev pub last_of : ℕ → List (ℕ × ℕ) → ℕ
last_of port [] = port
last_of port ((n, digits) ∷ numbers) = last_of n numbers

read_args-written :
    (numbers : List (ℕ × ℕ)) (port : ℕ)
    → FitInt numbers
    → read_args (written numbers) port_setting port ≡ some (last_of port numbers)
unfolding read_args
read_args-written [] port h = refl
read_args-written ((n, digits) ∷ numbers) port h =
    rw (read_args, digit_to_int-int_to_digit digits n h.0) (read_args-written numbers n h.2)

read_args-others :
    (others args : List Bytes) (port : ℕ)
    → AreOthers others
    → read_args (others ++ args) ready port ≡ read_args args ready port
unfolding read_args
read_args-others [] args port h = refl
read_args-others (arg ∷ others) args port h =
    rw (read_args, h.0) (read_args-others others args port h.1)

-- Behind the first "-p" each argument sets the port, so that the last of the numbers counts, without its
-- upper bits; the port is 1234 where that number is 0 or there is none.
pub server_port-written :
    (others : List Bytes) (numbers : List (ℕ × ℕ))
    → AreOthers others
    → FitInt numbers
    → server_port (others ++ port_option ∷ written numbers)
      ≡ some ((if last_of 0 numbers == 0 then default_port else last_of 0 numbers) % 2 ^ 16)
unfolding server_port read_args
server_port-written others numbers h fits =
    rw
      (
        server_port,
        read_args-others others (port_option ∷ written numbers) 0 h,
        read_args-written numbers 0 fits,
      )
      refl
