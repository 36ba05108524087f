-- ===== src/Key.antt =====
-- `struct key_data`, `str_hash_func` and `str_cmp_func` of src/kv_command.c.
use sample_kv.Prelude.{
  ℕ, ◌+◌, ◌-◌, ◌≡◌, ◌↔◌, refl, true, List, [], ◌∷◌, arith, length, ltb, ◌==◌, if◌then◌else◌,
}
use sample_kv.Prelude.Int.{ℤ, pos, negsuc, is_zero}
use sample_kv.Hash.{KeyFuncs}
use sample_kv.Utils.{djb2}

-- A string of bytes, with its length.
abbrev pub Bytes : Type 0
Bytes = List ℕ

-- The place of a byte in the order of signed `char`s (numbers that are no byte stay apart).
abbrev pub signed : ℕ → ℕ
signed c = if ltb c 128 then c + 128 else if ltb c 256 then c - 128 else c

-- `str_hash_func`
unfoldable pub str_hash_func : Bytes → ℕ
str_hash_func key = djb2 key

-- The loop of `str_cmp_func` over the shorter length, then the test on the lengths.
cmp_loop : Bytes → Bytes → ℤ → ℤ
cmp_loop [] key2 on_equal = on_equal
cmp_loop (c ∷ key1) [] on_equal = on_equal
cmp_loop (c ∷ key1) (d ∷ key2) on_equal =
    let rest = cmp_loop key1 key2 on_equal in
    if ltb (signed c) (signed d)
    then negsuc 0
    else if ltb (signed d) (signed c)
    then pos 1
    else rest

-- `str_cmp_func`
unfoldable pub str_cmp_func : Bytes → Bytes → ℤ
unfolding cmp_loop
str_cmp_func key1 key2 = cmp_loop key1 key2 (
    if length key1 == length key2
    then pos 0
    else if ltb (length key1) (length key2)
    then pos 1
    else negsuc 0)

loop_zero : (a b : Bytes) (e : ℤ) → is_zero (cmp_loop a b e) ≡ true → is_zero e ≡ true
unfolding cmp_loop
loop_zero [] b e h = h
loop_zero (c ∷ a) [] e h = h
loop_zero (c ∷ a) (d ∷ b) e h = ground (arith, loop_zero a b e)

loop_eq : (a b : Bytes) (e : ℤ) → is_zero (cmp_loop a b e) ≡ true → length a ≡ length b → a ≡ b
unfolding cmp_loop
loop_eq [] [] e h l = refl
loop_eq [] (d ∷ b) e h l = absurd (omega arith)
loop_eq (c ∷ a) [] e h l = absurd (omega arith)
loop_eq (c ∷ a) (d ∷ b) e h l = ground (arith, loop_eq a b e)

loop_refl : (a : Bytes) (e : ℤ) → cmp_loop a a e ≡ e
unfolding cmp_loop
loop_refl [] e = refl
loop_refl (c ∷ a) e = ground (arith, loop_refl a e)

length_of_zero :
    (m n : ℕ)
    → is_zero (if m == n then pos 0 else if ltb m n then pos 1 else negsuc 0) ≡ true
    → m ≡ n
length_of_zero m n h = ground arith

-- `str_cmp_func` returns 0 exactly on keys of the same length and bytes.
pub str_cmp_func-zero : (a b : Bytes) → (is_zero (str_cmp_func a b) ≡ true) ↔ (a ≡ b)
unfolding str_cmp_func
str_cmp_func-zero a b = (
  λ h. loop_eq a b _ h (length_of_zero (length a) (length b) (loop_zero a b _ h)),
  λ e. rw (e, loop_refl) (ground arith),
)

-- The functions that `kv_run_server` gives to `kv_ht_create`.
instance abbrev pub key_funcs : KeyFuncs Bytes
key_funcs = record {
  hash_func = str_hash_func;
  cmp_func = str_cmp_func;
  cmp_zero = str_cmp_func-zero;
}
