-- ===== src/Lock.antt =====
-- src/lock_rwlock.c and src/lock_manager.c: the reentrant lock of one bucket, and the buckets.
-- A thread is a `pthread_t` that is not 0. A lock call is one step of its thread here.
pub mod Exclusion
pub mod Release
pub mod Counts
use sample_kv.Prelude.{
  ℕ, ◌+◌, ◌-◌, ◌%◌, ◌^◌, Bool, true, false, Option, none, some, List, [], ◌∷◌, get_or, set, length,
  replicate, ◌==◌, if◌then◌else◌,
}
use sample_kv.Key.{Bytes}
use sample_kv.Utils.{djb2}

-- `struct kv_rwl`; `held` is the state of the mutex.
pub record Rwl : Type 0 where
  pub held : Bool
  pub owner : ℕ
  pub lock_count : ℕ

-- `kv_rwl_create`
abbrev pub free_rwl : Rwl
free_rwl = record { held = false; owner = 0; lock_count = 0 }

-- `kv_rwl_wlock`, and `kv_rwl_rlock`, which has the same body; `none` where the thread waits for the
-- mutex. The count is an `int`, far from its bound.
unfoldable pub wlock : ℕ → Rwl → Option Rwl
wlock self rwl =
    if rwl.owner == self
    then some (record rwl { lock_count = rwl.lock_count + 1 })
    else if rwl.held
    then none
    else some (record { held = true; owner = self; lock_count = 1 })

abbrev pub rlock : ℕ → Rwl → Option Rwl
rlock = wlock

-- `kv_rwl_unlock`
unfoldable pub unlock : ℕ → Rwl → Rwl
unlock self rwl =
    if rwl.owner == self
    then (let left = rwl.lock_count - 1 in
        if left == 0
        then record { held = false; owner = 0; lock_count = 0 }
        else record rwl { lock_count = left })
    else rwl

-- `struct kv_lm`
pub record Manager : Type 0 where
  pub lock_list : List Rwl
  pub counter : ℕ

-- `kv_lm_create`
unfoldable pub create : Manager
create = record { lock_list = replicate 64 free_rwl; counter = 0 }

abbrev pub bucket : Manager → Bytes → ℕ
bucket lm key = djb2 key % length lm.lock_list

-- `kv_lm_wlock`, and `kv_lm_rlock` with the same body.
unfoldable pub lm_wlock : ℕ → Manager → Bytes → Option Manager
unfolding wlock
lm_wlock self lm key =
    let idx = bucket lm key in
    elim (wlock self (get_or lm.lock_list idx free_rwl)) [
      | none ↦ none
      | some rwl ↦
          some
            (record { lock_list = set lm.lock_list idx rwl; counter = (lm.counter + 1) % 2 ^ 64 })
    ]

abbrev pub lm_rlock : ℕ → Manager → Bytes → Option Manager
lm_rlock = lm_wlock

-- `kv_lm_unlock`
unfoldable pub lm_unlock : ℕ → Manager → Bytes → Manager
unfolding unlock
lm_unlock self lm key =
    let idx = bucket lm key in
    record {
      lock_list = set lm.lock_list idx (unlock self (get_or lm.lock_list idx free_rwl));
      counter = (lm.counter + 2 ^ 64 - 1) % 2 ^ 64;
    }

-- `kv_tx_unlock_all` of src/transaction.c, over the keys from the head: the tail is unlocked first.
unfoldable pub unlock_all : ℕ → Manager → List Bytes → Manager
unlock_all self lm [] = lm
unlock_all self lm (key ∷ locks) = lm_unlock self (unlock_all self lm locks) key
