-- ===== src/Prelude/Cuts.antt =====
-- Pieces of lists, at numbers that the native arithmetic reads.
use Prim.Native.Nat.{ℕ, zero, suc, ◌+◌, ◌-◌, ◌≤◌}
use mathlib.Core.Path.{◌≡◌, refl, ap}
use mathlib.Core.List.{List, [], ◌∷◌, ◌++◌}
use native.Mathlib.Omega.{arith}
use sample_kv.Prelude.Lists.{length, take, drop, replicate, Lacks}

module _ {ℓ} {A : Type ℓ} where
  pub length-drop : (n : ℕ) (s : List A) → length (drop n s) ≡ length s - n
  length-drop zero s = omega arith
  length-drop (suc n) [] = omega arith
  length-drop (suc n) (c ∷ s) = omega (arith, length-drop n s)

  pub drop-replicate : (n m : ℕ) (c : A) → drop n (replicate m c) ≡ replicate (m - n) c
  drop-replicate zero m c = let e : m - 0 ≡ m = omega arith in rw e refl
  drop-replicate (suc n) zero c = let e : 0 - suc n ≡ 0 = omega arith in rw e refl
  drop-replicate (suc n) (suc m) c =
      let e : suc m - suc n ≡ m - n = omega arith in rw e (drop-replicate n m c)

  pub drop-append_add : (s t : List A) (n : ℕ) → drop (length s + n) (s ++ t) ≡ drop n t
  drop-append_add [] t n = let e : 0 + n ≡ n = omega arith in rw e refl
  drop-append_add (c ∷ s) t n =
      let e : suc (length s) + n ≡ suc (length s + n) = omega arith in rw e (drop-append_add s t n)

  pub take-append_le : (n : ℕ) (s t : List A) → n ≤ length s → take n (s ++ t) ≡ take n s
  take-append_le zero s t h = refl
  take-append_le (suc n) [] t h = absurd (omega arith)
  take-append_le (suc n) (c ∷ s) t h = ap (λ l. c ∷ l) (take-append_le n s t (omega arith))

  pub drop-append_le : (n : ℕ) (s t : List A) → n ≤ length s → drop n (s ++ t) ≡ drop n s ++ t
  drop-append_le zero s t h = refl
  drop-append_le (suc n) [] t h = absurd (omega arith)
  drop-append_le (suc n) (c ∷ s) t h = drop-append_le n s t (omega arith)

pub Lacks-append : (c : ℕ) (a b : List ℕ) → Lacks c a → Lacks c b → Lacks c (a ++ b)
Lacks-append c [] b h k = k
Lacks-append c (d ∷ a) b h k = (h.0, Lacks-append c a b h.1 k)

pub Lacks-drop : (c n : ℕ) (s : List ℕ) → Lacks c s → Lacks c (drop n s)
Lacks-drop c zero s h = h
Lacks-drop c (suc n) [] h = tt
Lacks-drop c (suc n) (d ∷ s) h = Lacks-drop c n s h.1
