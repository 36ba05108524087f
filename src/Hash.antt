-- ===== src/Hash.antt =====
-- src/kv_hash.c and src/kv_hash.h: the chained hash table, behind a mutex.
-- Keys and values are generic, as the C code's `void *`; a NULL result is `none`. Each operation is
-- one step here: it accesses the chains under `ht->lock` (`kv_ht_del` reads `ht->size` before).
pub mod Chain
pub mod Placed
pub mod Resize
pub mod Methods
pub mod View
use sample_kv.Prelude.{
  ℕ, zero, suc, ◌+◌, ◌-◌, ◌*◌, ◌%◌, ◌^◌, ◌≡◌, ◌↔◌, Bool, true, false, Option, none, some, List, [],
  ◌∷◌, ◌++◌, get_or, set, replicate, ltb, if◌then◌else◌,
}
use sample_kv.Prelude.Int.{ℤ, is_zero}

-- The function pointers of `struct kv_ht`, with what the table relies on: `cmp_func` returns 0
-- exactly on equal keys.
pub record KeyFuncs {ℓ} (K : Type ℓ) : Type ℓ where
  pub hash_func : K → ℕ
  pub cmp_func : K → K → ℤ
  pub cmp_zero : (a b : K) → (is_zero (cmp_func a b) ≡ true) ↔ (a ≡ b)

-- A chain, from `table[i]` along `next`.
abbrev pub Chain {ℓ} : Type ℓ → Type ℓ → Type ℓ
Chain K V = List (K × V)

pub record Table {ℓ} (K V : Type ℓ) : Type ℓ where
  pub size : ℕ
  pub count : ℕ
  pub table : List (Chain K V)

-- `kv_ht_create`, for a positive size (the code asserts it).
unfoldable pub create {ℓ} : {K V : Type ℓ} → ℕ → Table K V
create size = record { size = size; count = 0; table = replicate size [] }

module _ {ℓ} {K : Type ℓ} ⦃f : KeyFuncs K⦄ where
  abbrev pub same : K → K → Bool
  same a b = is_zero (f.cmp_func a b)

  abbrev pub slot : K → ℕ → ℕ
  slot k n = f.hash_func k % n

module _ {ℓ} {K V : Type ℓ} ⦃f : KeyFuncs K⦄ where
  -- The loop of `kv_ht_get_elem`: the value of the first element with the key.
  unfoldable pub find : K → Chain K V → Option V
  find k [] = none
  find k ((j, v) ∷ c) = let rest = find k c in if same j k then some v else rest

  -- `elem->value = value` at the element that `kv_ht_get_elem` found
  unfoldable pub assign : K → V → Chain K V → Chain K V
  assign k v [] = []
  assign k v ((j, w) ∷ c) =
      let rest = assign k v c in if same j k then (j, v) ∷ c else (j, w) ∷ rest

  -- The unlinking in `kv_ht_del`, at the head or behind an element: what was found, and the chain
  -- without it.
  unfoldable pub unlink : K → Chain K V → Option (K × V) × Chain K V
  unlink k [] = (none, [])
  unlink k ((j, v) ∷ c) =
      let rest = unlink k c in if same j k then (some (j, v), c) else (rest.0, (j, v) ∷ rest.1)

  abbrev pub chain_of : Table K V → K → Chain K V
  chain_of t k = get_or t.table (slot k t.size) []

  -- `kv_ht_get_elem` followed by the choice in `kv_ht_get`
  unfoldable pub get : Table K V → K → Option V
  unfolding find
  get t k = find k (chain_of t k)

  -- The inner loop of `kv_ht_resize`: each element of an old chain goes to the end of its new one.
  unfoldable pub move_chain : ℕ → Chain K V → List (Chain K V) → List (Chain K V)
  move_chain size [] new_table = new_table
  move_chain size ((k, v) ∷ c) new_table =
      let hash = slot k size in
      move_chain size c (set new_table hash (get_or new_table hash [] ++ (k, v) ∷ []))

  -- The outer loop of `kv_ht_resize`, over the buckets in order.
  unfoldable pub move_all : ℕ → List (Chain K V) → List (Chain K V) → List (Chain K V)
  unfolding move_chain
  move_all size [] new_table = new_table
  move_all size (c ∷ cs) new_table = move_all size cs (move_chain size c new_table)

  unfoldable pub resize : Table K V → ℕ → Table K V
  unfolding move_all
  resize t size = record t { size = size; table = move_all size t.table (replicate size []) }

  -- `if (ht->count > ht->size) kv_ht_resize (ht, ht->size << 1)`
  unfoldable pub grow : Table K V → Table K V
  unfolding resize
  grow t = if ltb t.size t.count then resize t (t.size * 2 % 2 ^ 64) else t

  -- The new element of `kv_ht_set`, at the end of its chain.
  unfoldable pub append : Table K V → K → V → Table K V
  append t k v =
      let hash = slot k t.size in
      record t {
        count = (t.count + 1) % 2 ^ 64;
        table = set t.table hash (get_or t.table hash [] ++ (k, v) ∷ []);
      }

  -- `kv_ht_set`: the old value and the table.
  unfoldable pub set_kv : Table K V → K → V → Option V × Table K V
  unfolding grow append assign find
  set_kv t k v = elim (find k (chain_of t k)) [
    | some old ↦
        (some old, record t { table = set t.table (slot k t.size) (assign k v (chain_of t k)) })
    | none ↦ (none, append (grow t) k v)
  ]

  -- `kv_ht_del`: the key and the value that were removed, and the table.
  unfoldable pub del : Table K V → K → Option (K × V) × Table K V
  unfolding unlink
  del t k =
      let hash = slot k t.size in
      let (found, c) = unlink k (get_or t.table hash []) in
      elim found [
        | none ↦ (none, t)
        | some e ↦ (
          some e,
          record t { count = (t.count + 2 ^ 64 - 1) % 2 ^ 64; table = set t.table hash c },
        )
      ]

  -- `kv_ht_foreach`: the calls of `foreach_func`, in order, on a state that it changes.
  unfoldable pub foreach_chain {κ} : {S : Type κ} → (K → V → S → S) → Chain K V → S → S
  foreach_chain g [] s = s
  foreach_chain g ((k, v) ∷ c) s = foreach_chain g c (g k v s)

  unfoldable pub foreach_table {κ} : {S : Type κ} → (K → V → S → S) → List (Chain K V) → S → S
  unfolding foreach_chain
  foreach_table g [] s = s
  foreach_table g (c ∷ cs) s = foreach_table g cs (foreach_chain g c s)

  unfoldable pub foreach {κ} : {S : Type κ} → Table K V → (K → V → S → S) → S → S
  unfolding foreach_table
  foreach t g s = foreach_table g t.table s
