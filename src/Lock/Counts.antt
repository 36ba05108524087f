-- ===== src/Lock/Counts.antt =====
-- How often each thread holds each bucket (src/lock_manager.c, and `kv_tx_unlock_all` of
-- src/transaction.c).
use sample_kv.Prelude.{
  none, differ, ℕ, zero, suc, ◌+◌, ◌-◌, ◌%◌, ◌^◌, ◌<◌, ◌≡◌, ◌≢◌, refl, ap, sym, ◌∙◌, Bool, true,
  false, Bool-cases, inl, inr, some, List, [], ◌∷◌, ◌++◌, arith, length, length-set, get_or, set,
  get_or-set, ◌==◌, if◌then◌else◌,
}
use mathlib.Core.Path.{subst}
use sample_kv.Key.{Bytes}
use sample_kv.Utils.{djb2}
use sample_kv.Lock.{Rwl, free_rwl, wlock, unlock, Manager, bucket, lm_wlock, lm_unlock, unlock_all}
use sample_kv.Lock.Exclusion.{held_by, IsValid, free, taken, Gets, first, again, wlock-Gets}
use sample_kv.Lock.Release.{AllValid, lm_wlock-Locked, lm_wlock-AllValid, bucket-in_range}

-- How often thread `i` holds a lock.
abbrev pub held_count : ℕ → Rwl → ℕ
held_count i r = if r.owner == i then r.lock_count else 0

abbrev pub lock_at : Manager → ℕ → Rwl
lock_at lm b = get_or lm.lock_list b free_rwl

-- 1 for the thread and the bucket.
abbrev pub one_if : Bool → Bool → ℕ
one_if true true = 1
one_if _ _ = 0

count-Gets :
    {self : ℕ} {r r' : Rwl} (i : ℕ)
    → 0 < i
    → Gets self r r'
    → held_count i r' ≡ held_count i r + one_if (i == self) true
count-Gets {self} i pos first = ground arith
count-Gets {self} i pos (again {n}) = ground arith

count-unlock :
    (self : ℕ) {r : Rwl} (i : ℕ)
    → 0 < self
    → 0 < i
    → IsValid r
    → held_count i (unlock self r) ≡ held_count i r - one_if (i == self) true
unfolding unlock
count-unlock self i pos pos' free = ground arith
count-unlock self i pos pos' (taken {owner} {n} h) = ground arith

unlock-IsValid : (self : ℕ) {r : Rwl} → IsValid r → IsValid (unlock self r)
unfolding unlock
unlock-IsValid self free = elim (Bool-cases (0 == self)) [ inl e ↦ rw e free | inr e ↦ rw e free ]
unlock-IsValid self (taken {owner} {n = zero} h) = elim (Bool-cases (owner == self)) [
  | inl e ↦ rw e free
  | inr e ↦ rw e (taken h)
]
unlock-IsValid self (taken {owner} {n = suc n} h) = elim (Bool-cases (owner == self)) [
  | inl e ↦
      let m : suc (suc n) - 1 ≡ suc n = omega arith in
      rw (e, m) (let z : (suc n == 0) ≡ false = ground arith in rw z (taken h))
  | inr e ↦ rw e (taken h)
]

-- How many of the keys fall into a bucket, of 64.
unfoldable pub in_bucket : ℕ → List Bytes → ℕ
in_bucket b [] = 0
in_bucket b (k ∷ ks) = one_if true (b == djb2 k % 64) + in_bucket b ks

pub in_bucket-append :
    (b : ℕ) (ks : List Bytes) (k : Bytes)
    → in_bucket b (ks ++ k ∷ []) ≡ in_bucket b ks + one_if true (b == djb2 k % 64)
unfolding in_bucket
in_bucket-append b [] k = omega arith
in_bucket-append b (x ∷ ks) k = omega (arith, in_bucket-append b ks k)

==_symm : (a b : ℕ) → (a == b) ≡ (b == a)
==_symm a b = ground arith

-- A lock manager with the 64 buckets of `kv_lm_create`.
pub record Ready (lm : Manager) : Type 0 where
  pub valid : AllValid lm
  pub buckets : length lm.lock_list ≡ 64

module _ (self : ℕ) (pos : 0 < self) {lm : Manager} (ready : Ready lm) (key : Bytes) where
  bucket-djb2 : bucket lm key ≡ djb2 key % 64
  bucket-djb2 = rw ready.buckets refl

  pub lm_wlock-Ready : {lm' : Manager} → lm_wlock self lm key ≡ some lm' → Ready lm'
  lm_wlock-Ready {lm'} e =
      let l = lm_wlock-Locked self lm lm' key e in
      record {
        valid = lm_wlock-AllValid self lm lm' key pos ready.valid e;
        buckets =
            ap (λ (m : Manager). length m.lock_list) (sym l.is)
            ∙ length-set lm.lock_list (bucket lm key) l.got
            ∙ ready.buckets;
      }

  -- The lock of a key counts for its thread and bucket.
  pub lm_wlock-held :
      {lm' : Manager} (i b : ℕ)
      → 0 < i
      → lm_wlock self lm key ≡ some lm'
      → held_count i (lock_at lm' b)
        ≡ held_count i (lock_at lm b) + one_if (i == self) (b == djb2 key % 64)
  lm_wlock-held {lm'} i b pos' e =
      let l = lm_wlock-Locked self lm lm' key e in
      let g = wlock-Gets self _ l.got pos (ready.valid.each (bucket lm key)) l.runs in
      let at : lock_at lm' b ≡ (if bucket lm key == b then l.got else lock_at lm b) =
        ap (λ (m : Manager). lock_at m b) (sym l.is)
        ∙ get_or-set lm.lock_list (bucket lm key) b l.got free_rwl
            (bucket-in_range lm key ready.valid) in
      elim (Bool-cases (bucket lm key == b)) [
        | inl h ↦
            let same : bucket lm key ≡ b = ground arith in
            let test : (b == djb2 key % 64) ≡ true = ground (arith, bucket-djb2) in
            rw (at, h, test)
              (subst
                (λ (x : ℕ).
                  held_count i l.got ≡ held_count i (lock_at lm x) + one_if (i == self) true)
                same (count-Gets i pos' g))
        | inr h ↦
            let test : (b == djb2 key % 64) ≡ false = ground (arith, bucket-djb2) in
            rw (at, h, test) (none_held (i == self) (held_count i (lock_at lm b)))
      ]
    where
      none_held : (t : Bool) (n : ℕ) → n ≡ n + one_if t false
      none_held true n = omega arith
      none_held false n = omega arith

  pub lm_unlock-Ready : Ready (lm_unlock self lm key)
  unfolding lm_unlock
  lm_unlock-Ready = record {
    valid = record {
      each = λ i.
          rw
            (get_or-set lm.lock_list (bucket lm key) i _ free_rwl
              (bucket-in_range lm key ready.valid))
            (pick i);
      some_buckets = omega (
        arith,
        length-set lm.lock_list (bucket lm key) (unlock self (lock_at lm (bucket lm key))),
        ready.valid.some_buckets,
      );
      word = omega arith;
    };
    buckets =
        length-set lm.lock_list (bucket lm key) (unlock self (lock_at lm (bucket lm key)))
        ∙ ready.buckets;
  }
    where
      pick :
          (i : ℕ)
          → IsValid (
              if bucket lm key == i then unlock self (lock_at lm (bucket lm key)) else lock_at lm i)
      pick i = elim (Bool-cases (bucket lm key == i)) [
        | inl h ↦ rw h (unlock-IsValid self (ready.valid.each (bucket lm key)))
        | inr h ↦ rw h (ready.valid.each i)
      ]

  pub lm_unlock-held :
      (i b : ℕ)
      → 0 < i
      → held_count i (lock_at (lm_unlock self lm key) b)
        ≡ held_count i (lock_at lm b) - one_if (i == self) (b == djb2 key % 64)
  unfolding lm_unlock
  lm_unlock-held i b pos' =
      let at : lock_at (lm_unlock self lm key) b ≡ (
          if bucket lm key == b then unlock self (lock_at lm (bucket lm key)) else lock_at lm b) =
        get_or-set lm.lock_list (bucket lm key) b _ free_rwl (bucket-in_range lm key ready.valid) in
      elim (Bool-cases (bucket lm key == b)) [
        | inl h ↦
            let same : bucket lm key ≡ b = ground arith in
            let test : (b == djb2 key % 64) ≡ true = ground (arith, bucket-djb2) in
            let freed : lock_at (lm_unlock self lm key) b
                ≡ unlock self (lock_at lm (bucket lm key)) =
              at ∙ rw h refl in
            ap (held_count i) freed
            ∙ rw test (
                subst
                  (λ (x : ℕ).
                    held_count i (unlock self (lock_at lm (bucket lm key)))
                    ≡ held_count i (lock_at lm x) - one_if (i == self) true)
                  same (count-unlock self i pos pos' (ready.valid.each (bucket lm key))))
        | inr h ↦
            let test : (b == djb2 key % 64) ≡ false = ground (arith, bucket-djb2) in
            let kept : lock_at (lm_unlock self lm key) b ≡ lock_at lm b = at ∙ rw h refl in
            ap (held_count i) kept ∙ rw test (none_freed (i == self) (held_count i (lock_at lm b)))
      ]
    where
      none_freed : (t : Bool) (n : ℕ) → n ≡ n - one_if t false
      none_freed true n = omega arith
      none_freed false n = omega arith

-- `kv_tx_unlock_all` takes the locks of its keys back, and no others.
pub unlock_all-Ready :
    (self : ℕ) (lm : Manager) (keys : List Bytes)
    → 0 < self
    → Ready lm
    → Ready (unlock_all self lm keys)
unfolding unlock_all
unlock_all-Ready self lm [] pos r = r
unlock_all-Ready self lm (key ∷ keys) pos r =
    lm_unlock-Ready self pos (unlock_all-Ready self lm keys pos r) key

pub unlock_all-held :
    (self : ℕ) (lm : Manager) (keys : List Bytes) (i b : ℕ)
    → 0 < self
    → Ready lm
    → 0 < i
    → held_count i (lock_at (unlock_all self lm keys) b)
      ≡ held_count i (lock_at lm b) - (if i == self then in_bucket b keys else 0)
unfolding unlock_all in_bucket
unlock_all-held self lm [] i b pos r pos' = ground arith
unlock_all-held self lm (key ∷ keys) i b pos r pos' =
    lm_unlock-held self pos (unlock_all-Ready self lm keys pos r) key i b pos'
    ∙ rw (unlock_all-held self lm keys i b pos r pos') (
        taken_off (i == self) (b == djb2 key % 64) (held_count i (lock_at lm b)) (in_bucket b keys))
  where
    taken_off :
        (t u : Bool) (n m : ℕ)
        → n - (if t then m else 0) - one_if t u ≡ n - (if t then one_if true u + m else 0)
    taken_off true true n m = omega arith
    taken_off true false n m = omega arith
    taken_off false u n m = omega arith

-- Two threads do not hold the same bucket.
pub held_apart :
    (lm : Manager) (i j b : ℕ)
    → i ≢ j
    → 0 < held_count i (lock_at lm b)
    → held_count j (lock_at lm b) ≡ 0
held_apart lm i j b ne h = ground arith

wlock_gets :
    (self : ℕ) {r : Rwl}
    → IsValid r
    → ((j : ℕ) → 0 < j → j ≢ self → held_count j r ≡ 0)
    → (r' : Rwl) × (wlock self r ≡ some r')
unfolding wlock
wlock_gets self free h = elim (Bool-cases (0 == self)) [
  | inl e ↦ (record { held = false; owner = 0; lock_count = 1 }, rw e refl)
  | inr e ↦ (held_by self 1, rw e refl)
]
wlock_gets self (taken {owner} {n} p) h = elim (Bool-cases (owner == self)) [
  | inl e ↦ (held_by owner (suc n + 1), rw e refl)
  | inr e ↦ absurd (let busy = h owner p (λ q. ground arith) in ground arith)
]

-- A bucket that no other thread holds can be locked.
pub lm_wlock_gets :
    (self : ℕ) {lm : Manager} (key : Bytes)
    → Ready lm
    → ((j : ℕ) → 0 < j → j ≢ self → held_count j (lock_at lm (djb2 key % 64)) ≡ 0)
    → (lm' : Manager) × (lm_wlock self lm key ≡ some lm')
unfolding lm_wlock
lm_wlock_gets self {lm} key r h =
    let same : djb2 key % 64 ≡ bucket lm key = rw r.buckets refl in
    let (got, run) =
      wlock_gets self (r.valid.each (bucket lm key))
        (subst (λ (b : ℕ). (j : ℕ) → 0 < j → j ≢ self → held_count j (lock_at lm b) ≡ 0) same h) in
    (
      record {
        lock_list = set lm.lock_list (bucket lm key) got;
        counter = (lm.counter + 1) % 2 ^ 64;
      },
      rw (lm_wlock, run) refl,
    )

wlock_waits :
    (self j : ℕ) {r : Rwl} → IsValid r → j ≢ self → 0 < held_count j r → wlock self r ≡ none
unfolding wlock
wlock_waits self j free ne h = absurd (ground arith)
wlock_waits self j (taken {owner} {n} p) ne h =
    let same : owner ≡ j = ground arith in
    let other : (owner == self) ≡ false = differ owner self (λ e. ne (sym same ∙ e)) in
    rw other refl

-- A bucket that another thread holds is waited for.
pub lm_wlock_waits :
    (self j : ℕ) {lm : Manager} (key : Bytes)
    → Ready lm
    → j ≢ self
    → 0 < held_count j (lock_at lm (djb2 key % 64))
    → lm_wlock self lm key ≡ none
unfolding lm_wlock
lm_wlock_waits self j {lm} key r ne h =
    let same : djb2 key % 64 ≡ bucket lm key = rw r.buckets refl in
    let waits =
      wlock_waits self j (r.valid.each (bucket lm key)) ne
        (subst (λ (b : ℕ). 0 < held_count j (lock_at lm b)) same h) in
    rw (lm_wlock, waits) refl
