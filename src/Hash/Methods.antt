-- ===== src/Hash/Methods.antt =====
-- The public operations of kv_hash.c against the map from keys to values that the table stands for.
use sample_kv.Prelude.{
  ℕ, ◌+◌, ◌-◌, ◌*◌, ◌%◌, ◌^◌, ◌≤◌, ◌<◌, ◌≡◌, refl, ap, sym, ◌∙◌, Option, none, some, inl, inr,
  arith, length, set, Bool-cases, Option-cases, max, ltb, if◌then◌else◌,
}
use mathlib.Core.Option
use sample_kv.Hash.{
  KeyFuncs, Table, same, slot, find, assign, unlink, chain_of, create, get, grow, append, set_kv,
  del,
}
use sample_kv.Hash.Chain.{
  eq_of_same, find-assign, length-assign, Distinct-assign, unlink-found, find-unlink,
  Distinct-unlink, length-unlink,
}
use sample_kv.Hash.Placed.{
  IsPlaced, lookup, total, total-set, total-replicate, replicate-IsPlaced, lookup-replicate,
  write-IsPlaced, lookup-write,
}
use sample_kv.Hash.Resize.{push-IsPlaced, lookup-push, total-push, resize-Moves}

-- 1 for a value that is there
abbrev pub present {ℓ} : {V : Type ℓ} → Option V → ℕ
present none = 0
present (some v) = 1

module _ {ℓ} {K V : Type ℓ} ⦃f : KeyFuncs K⦄ where
  -- What every operation keeps: the elements are in place and counted, and the load is at most one
  -- element over the size.
  pub record IsValid (t : Table K V) : Type ℓ where
    pub placed : IsPlaced t.size t.table
    pub counted : t.count ≡ total t.table
    pub load : t.count ≤ t.size + 1

  -- Sizes at which neither `size << 1` nor the counter wraps.
  abbrev pub IsSmall : Table K V → Type 0
  IsSmall t = t.size < 2 ^ 62

  pub create-IsValid : (size : ℕ) → 0 < size → IsValid (create {K = K} {V = V} size)
  unfolding create
  create-IsValid size h = record {
    placed = replicate-IsPlaced size h;
    counted = sym (total-replicate (K × V) size);
    load = omega arith;
  }

  pub get-create : (size : ℕ) (q : K) → get (create {K = K} {V = V} size) q ≡ none
  unfolding get create
  get-create size q = lookup-replicate size q

  -- What growing keeps, and the room that it makes.
  record Grown (t r : Table K V) : Type ℓ where
    pub placed : IsPlaced r.size r.table
    pub reads : (q : K) → lookup r.size r.table q ≡ lookup t.size t.table q
    pub entries : total r.table ≡ total t.table
    pub count : r.count ≡ t.count
    pub room : r.count ≤ r.size
    pub at_most : r.size ≤ max t.size (2 * t.count)

  grow-Grown : (t : Table K V) → IsValid t → IsSmall t → Grown t (grow t)
  unfolding grow
  grow-Grown t v small = elim (Bool-cases (ltb t.size t.count)) [
    | inl e ↦ rw e (
        let size : ℕ = t.size * 2 % 2 ^ 64 in
        let double : size ≡ t.size * 2 = omega arith in
        let (placed, reads, entries) = resize-Moves t size v.placed (omega (arith, v.placed.pos)) in
        record {
          placed = placed;
          reads = reads;
          entries = entries;
          count = refl;
          room = omega (arith, double, v.load, v.placed.pos);
          at_most = ground (arith, double);
        })
    | inr e ↦ rw e (record {
      placed = v.placed;
      reads = λ q. refl;
      entries = refl;
      count = refl;
      room = ground arith;
      at_most = omega arith;
    })
  ]

  -- `r` is the table `t` with `o` at the key `k`, and the value that was there.
  pub record Writes (t : Table K V) (k : K) (o old : Option V) (r : Table K V) : Type ℓ where
    pub returns : old ≡ get t k
    pub valid : IsValid r
    pub reads : (q : K) → get r q ≡ (if same k q then o else get t q)
    pub count : r.count + present old ≡ t.count + present o
    pub size : r.size ≤ max t.size (2 * t.count)

  module _ (t : Table K V) (valid : IsValid t) (small : IsSmall t) (k : K) where
    in_range : slot k t.size < length t.table
    in_range = omega (arith, valid.placed.width, valid.placed.pos)

    set_kv_update :
        (v old : V)
        → find k (chain_of t k) ≡ some old
        → Writes t k
            (some v)
            (some old)
            (record t { table = set t.table (slot k t.size) (assign k v (chain_of t k)) })
    unfolding get
    set_kv_update v old e =
        let d = Distinct-assign k v (chain_of t k) (valid.placed.distinct _) in
        let reads = λ (q : K). find-assign k q v old (chain_of t k) e in
        record {
          returns = sym e;
          valid = record {
            placed = write-IsPlaced valid.placed k _ (some v) d reads;
            counted = omega (
              arith,
              valid.counted,
              total-set t.table (slot k t.size) (assign k v (chain_of t k)) in_range,
              length-assign k v (chain_of t k),
            );
            load = valid.load;
          };
          reads = lookup-write valid.placed k _ (some v) d reads;
          count = refl;
          size = omega arith;
        }

    set_kv_insert :
        (v : V) → find k (chain_of t k) ≡ none → Writes t k (some v) none (append (grow t) k v)
    unfolding get append
    set_kv_insert v e =
        let g = grow-Grown t valid small in
        let absent = g.reads k ∙ e in
        let few : t.count < 2 ^ 63 = omega (arith, valid.load) in
        let entries = total-push g.placed k v absent in
        record {
          returns = sym e;
          valid = record {
            placed = push-IsPlaced g.placed k v absent;
            counted = omega (arith, valid.counted, g.count, g.entries, entries);
            load = omega (arith, g.room);
          };
          reads = λ q.
              lookup-push g.placed k v absent q
              ∙ ap (λ x. if same k q then some v else x) (g.reads q);
          count = omega (arith, g.count);
          size = g.at_most;
        }

    -- `kv_ht_set` returns the old value and stores the new one under the key, and under no other.
    pub set_kv-Writes : (v : V) → Writes t k (some v) (set_kv t k v).0 (set_kv t k v).1
    unfolding set_kv
    set_kv-Writes v = elim (Option-cases (find k (chain_of t k))) [
      | inl e ↦ rw (e, set_kv) (set_kv_insert v e)
      | inr (old, e) ↦ rw (e, set_kv) (set_kv_update v old e)
    ]

    del_found :
        (v : V)
        → find k (chain_of t k) ≡ some v
        → Writes t k none (some v) (record t {
          count = (t.count + 2 ^ 64 - 1) % 2 ^ 64;
          table = set t.table (slot k t.size) (unlink k (chain_of t k)).1;
        })
    unfolding get
    del_found v e =
        let d = Distinct-unlink k (chain_of t k) (valid.placed.distinct _) in
        let reads = λ (q : K). find-unlink k q (chain_of t k) (valid.placed.distinct _) in
        let shorter = length-unlink k v (chain_of t k) e in
        let entries = total-set t.table (slot k t.size) (unlink k (chain_of t k)).1 in_range in
        let some_left : 0 < t.count = omega (arith, valid.counted, shorter, entries) in
        record {
          returns = sym e;
          valid = record {
            placed = write-IsPlaced valid.placed k _ none d reads;
            counted = omega (arith, valid.counted, entries, shorter, valid.load, some_left);
            load = omega (arith, valid.load, some_left);
          };
          reads = lookup-write valid.placed k _ none d reads;
          count = omega (arith, some_left, valid.load);
          size = omega arith;
        }

    get-none :
        find k (chain_of t k) ≡ none → (q : K) → get t q ≡ (if same k q then none else get t q)
    unfolding get
    get-none e q = elim (Bool-cases (same k q)) [
      | inl s ↦ rw s (rw (eq_of_same k q s) at e)
      | inr s ↦ rw s
    ]

    -- `kv_ht_del` returns the key with its value, if it is there, and removes it, and no other.
    pub del-Writes :
        ((del t k).0 ≡ Option.map (λ v. (k, v)) (get t k)) × Writes t k none (get t k) (del t k).1
    unfolding del get
    del-Writes = elim (Option-cases (find k (chain_of t k))) [
      | inl e ↦
          rw (unlink-found k (chain_of t k) ∙ ap (Option.map (λ v. (k, v))) e, del, e)
            (
              refl,
              record {
                returns = sym e;
                valid = valid;
                reads = get-none e;
                count = refl;
                size = omega arith;
              },
            )
      | inr (v, e) ↦
          rw (unlink-found k (chain_of t k) ∙ ap (Option.map (λ v. (k, v))) e, del, e)
            (refl, del_found v e)
    ]
