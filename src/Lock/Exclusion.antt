-- ===== src/Lock/Exclusion.antt =====
-- src/lock_rwlock.c: one lock, and the threads that ask for it.
use sample_kv.Prelude.{
  ℕ, differ, suc, ◌+◌, ◌-◌, ◌<◌, ◌≡◌, ◌≢◌, refl, ap, sym, ◌∙◌, true, false, Bool-cases, inl, inr,
  Option, none, some, arith, ◌==◌,
}
use mathlib.Core.Path.{subst}
use sample_kv.Lock.{Rwl, free_rwl, wlock, unlock}

-- A lock is free, or a thread holds it, once or more often. Thread 0 is none.
pub data IsValid : Rwl → Type 0 where
  free : IsValid free_rwl
  taken :
      {owner n : ℕ}
      → 0 < owner
      → IsValid (record { held = true; owner = owner; lock_count = suc n })

same_id : (n : ℕ) → (n == n) ≡ true
same_id n = ground arith

ne_of_test : (m n : ℕ) → (m == n) ≡ false → m ≢ n
ne_of_test m n h = λ e. ground arith

abbrev pub held_by : ℕ → ℕ → Rwl
held_by self n = record { held = true; owner = self; lock_count = n }

wlock_free : (self : ℕ) → 0 < self → wlock self free_rwl ≡ some (held_by self 1)
unfolding wlock
wlock_free self h = rw (differ 0 self (omega arith)) refl

wlock_again : (self n : ℕ) → wlock self (held_by self n) ≡ some (held_by self (n + 1))
unfolding wlock
wlock_again self n = rw (same_id self) refl

wlock_busy : (self other n : ℕ) → other ≢ self → wlock self (held_by other n) ≡ none
unfolding wlock
wlock_busy self other n h = rw (differ other self h) refl

unlock_last : (self : ℕ) → unlock self (held_by self 1) ≡ free_rwl
unfolding unlock
unlock_last self = rw (same_id self) refl

unlock_again : (self n : ℕ) → unlock self (held_by self (suc n + 1)) ≡ held_by self (suc n)
unfolding unlock
unlock_again self n =
    let m : suc n + 1 - 1 ≡ suc n = omega arith in
    rw (same_id self, m, differ (suc n) 0 (omega arith)) refl

-- What a lock that a thread gets looks like: free before, or its own.
pub data Gets (self : ℕ) : Rwl → Rwl → Type 0 where
  first : Gets self free_rwl (held_by self 1)
  again : {n : ℕ} → Gets self (held_by self (suc n)) (held_by self (suc n + 1))

from_some : Rwl → Option Rwl → Rwl
from_some d none = d
from_some d (some r) = r

pub wlock-Gets :
    (self : ℕ) (r r' : Rwl) → 0 < self → IsValid r → wlock self r ≡ some r' → Gets self r r'
unfolding from_some
wlock-Gets self r r' pos free e =
    subst (λ (x : Rwl). Gets self free_rwl x)
      (ap (from_some free_rwl) (sym (wlock_free self pos) ∙ e)) first
wlock-Gets self r r' pos (taken {owner} {n} p) e = elim (Bool-cases (owner == self)) [
  | inl h ↦
      let mine : owner ≡ self = ground arith in
      subst (λ (o : ℕ). Gets self (held_by o (suc n)) r') (sym mine)
        (subst (λ (x : Rwl). Gets self (held_by self (suc n)) x)
          (ap (from_some free_rwl) (
            sym (wlock_again self (suc n))
            ∙ subst (λ (o : ℕ). wlock self (held_by o (suc n)) ≡ some r') mine e))
          again)
  | inr h ↦ let busy = wlock_busy self owner (suc n) (ne_of_test owner self h) in absurd cc
]

-- `kv_rwl_unlock` takes back a `kv_rwl_wlock` of the same thread, at any depth.
pub unlock-wlock :
    (self : ℕ) (r r' : Rwl) → 0 < self → IsValid r → wlock self r ≡ some r' → unlock self r' ≡ r
unlock-wlock self r r' pos v e = go (wlock-Gets self r r' pos v e)
  where
    go : {a b : Rwl} → Gets self a b → unlock self b ≡ a
    go first = unlock_last self
    go (again {n}) = unlock_again self n

-- A thread that has the lock excludes every other thread.
pub wlock-excludes :
    (self other : ℕ) (r r' : Rwl)
    → 0 < self
    → other ≢ self
    → IsValid r
    → wlock self r ≡ some r'
    → wlock other r' ≡ none
wlock-excludes self other r r' pos ne v e = go (wlock-Gets self r r' pos v e)
  where
    go : {a b : Rwl} → Gets self a b → wlock other b ≡ none
    go first = wlock_busy other self 1 (λ q. ne (sym q))
    go (again {n}) = wlock_busy other self (suc n + 1) (λ q. ne (sym q))

pub wlock-IsValid :
    (self : ℕ) (r r' : Rwl) → 0 < self → IsValid r → wlock self r ≡ some r' → IsValid r'
wlock-IsValid self r r' pos v e = go (wlock-Gets self r r' pos v e)
  where
    go : {a b : Rwl} → Gets self a b → IsValid b
    go first = taken pos
    go (again {n}) =
        let s : suc n + 1 ≡ suc (suc n) = omega arith in
        subst (λ (m : ℕ). IsValid (held_by self m)) (sym s) (taken pos)
