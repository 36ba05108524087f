-- ===== src/Lock/Release.antt =====
-- The whole `struct kv_lm` of src/lock_manager.c, and `kv_tx_unlock_all` of src/transaction.c.
use sample_kv.Prelude.{
  ℕ, ◌+◌, ◌-◌, ◌%◌, ◌^◌, ◌<◌, ◌≡◌, refl, ap, sym, ◌∙◌, Option, none, some, inl, inr, List, [], ◌∷◌,
  arith, length, get_or, set, length-set, get_or-set, get_or-set_self, set-set, set-get_or,
  Option-cases, ◌==◌, if◌then◌else◌, Bool-cases,
}
use mathlib.Core.Path.{subst}
use sample_kv.Key.{Bytes}
use sample_kv.Lock.{Rwl, free_rwl, wlock, Manager, bucket, lm_wlock, lm_unlock, unlock_all}
use sample_kv.Lock.Exclusion.{IsValid, unlock-wlock, wlock-IsValid}

-- Every bucket is valid, there is a bucket, and the counter is a `size_t`.
pub record AllValid (lm : Manager) : Type 0 where
  pub each : (i : ℕ) → IsValid (get_or lm.lock_list i free_rwl)
  pub some_buckets : 0 < length lm.lock_list
  pub word : lm.counter < 2 ^ 64

-- A call of `kv_lm_wlock` that got the lock.
pub record Locked (self : ℕ) (lm : Manager) (key : Bytes) (lm' : Manager) : Type 0 where
  pub got : Rwl
  pub runs : wlock self (get_or lm.lock_list (bucket lm key) free_rwl) ≡ some got
  pub is :
      record {
        lock_list = set lm.lock_list (bucket lm key) got;
        counter = (lm.counter + 1) % 2 ^ 64;
      }
      ≡ lm'

from_some : Manager → Option Manager → Manager
from_some d none = d
from_some d (some lm) = lm

pub lm_wlock-Locked :
    (self : ℕ) (lm lm' : Manager) (key : Bytes)
    → lm_wlock self lm key ≡ some lm'
    → Locked self lm key lm'
unfolding lm_wlock from_some
lm_wlock-Locked self lm lm' key e =
    elim (Option-cases (wlock self (get_or lm.lock_list (bucket lm key) free_rwl))) [
      | inl h ↦ absurd (let e' = rw (lm_wlock, h) at e in cc)
      | inr (r, h) ↦ record { got = r; runs = h; is = ap (from_some lm) (rw (lm_wlock, h) at e) }
    ]

pub bucket-in_range :
    (lm : Manager) (key : Bytes) → AllValid lm → bucket lm key < length lm.lock_list
bucket-in_range lm key v = omega (arith, v.some_buckets)

module _ (self : ℕ) (lm lm' : Manager) (key : Bytes) (pos : 0 < self) (v : AllValid lm) where
  after : Rwl → Manager
  after got = record {
    lock_list = set lm.lock_list (bucket lm key) got;
    counter = (lm.counter + 1) % 2 ^ 64;
  }

  restored :
      (got : Rwl)
      → wlock self (get_or lm.lock_list (bucket lm key) free_rwl) ≡ some got
      → lm_unlock self (after got) key ≡ lm
  unfolding lm_unlock after
  restored got run =
      let back = unlock-wlock self _ got pos (v.each (bucket lm key)) run in
      let count : ((lm.counter + 1) % 2 ^ 64 + 2 ^ 64 - 1) % 2 ^ 64 ≡ lm.counter =
        omega (arith, v.word) in
      rw
        (
          lm_unlock,
          length-set lm.lock_list (bucket lm key) got,
          get_or-set_self lm.lock_list (bucket lm key) got free_rwl (bucket-in_range lm key v),
          back,
          set-set lm.lock_list (bucket lm key) got _,
          set-get_or lm.lock_list (bucket lm key) free_rwl,
          count,
        )
        refl

  -- `kv_lm_unlock` takes back the `kv_lm_wlock` of the same key and thread, the counter included.
  pub lm_unlock-lm_wlock : lm_wlock self lm key ≡ some lm' → lm_unlock self lm' key ≡ lm
  unfolding after
  lm_unlock-lm_wlock e =
      let l = lm_wlock-Locked self lm lm' key e in
      ap (λ m. lm_unlock self m key) (sym l.is) ∙ restored l.got l.runs

  pub lm_wlock-AllValid : lm_wlock self lm key ≡ some lm' → AllValid lm'
  lm_wlock-AllValid e =
      let l = lm_wlock-Locked self lm lm' key e in
      subst (λ (m : Manager). AllValid m) l.is
        (record {
          each = λ i.
              rw
                (get_or-set lm.lock_list (bucket lm key) i l.got free_rwl
                  (bucket-in_range lm key v))
                (pick (bucket lm key) i l.got
                  (wlock-IsValid self _ l.got pos (v.each (bucket lm key)) l.runs));
          some_buckets =
              omega (arith, length-set lm.lock_list (bucket lm key) l.got, v.some_buckets);
          word = omega arith;
        })
    where
      pick :
          (j i : ℕ) (got : Rwl)
          → IsValid got
          → IsValid (if j == i then got else get_or lm.lock_list i free_rwl)
      pick j i got h = elim (Bool-cases (j == i)) [ inl b ↦ rw b h | inr b ↦ rw b (v.each i) ]

-- A thread that takes the locks of several keys, one after the other.
unfoldable pub lock_all : ℕ → Manager → List Bytes → Option Manager
lock_all self lm [] = some lm
lock_all self lm (key ∷ keys) = elim (lm_wlock self lm key) [
  | none ↦ none
  | some lm' ↦ lock_all self lm' keys
]

-- `kv_tx_unlock_all` gives back all the locks that a transaction took, keys locked more than once and
-- keys that share a bucket included: the lock manager is as it was before the first of them.
pub unlock_all-lock_all :
    (self : ℕ) (lm lm' : Manager) (keys : List Bytes)
    → 0 < self
    → AllValid lm
    → lock_all self lm keys ≡ some lm'
    → unlock_all self lm' keys ≡ lm
unfolding lock_all unlock_all from_some
unlock_all-lock_all self lm lm' [] pos v e = ap (from_some lm) (sym e)
unlock_all-lock_all self lm lm' (key ∷ keys) pos v e = elim (Option-cases (lm_wlock self lm key)) [
  | inl h ↦ absurd (let e' = rw (lock_all, h) at e in cc)
  | inr (m, h) ↦
      let rest =
        unlock_all-lock_all self m lm' keys pos (lm_wlock-AllValid self lm m key pos v h)
          (rw (lock_all, h) at e) in
      ap (λ x. lm_unlock self x key) rest ∙ lm_unlock-lm_wlock self lm m key pos v h
]
