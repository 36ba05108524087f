-- ===== src/Hash/Chain.antt =====
-- What the loops of kv_hash.c do to one chain.
use sample_kv.Prelude.{
  ◌+◌, ◌≡◌, refl, ap, true, false, none, some, inl, inr, [], ◌∷◌, ◌++◌, arith, length, Bool-cases,
  if◌then◌else◌,
}
use mathlib.Core.Option
use mathlib.Core.Option.{or_else}
use sample_kv.Hash.{KeyFuncs, Chain, same, find, assign, unlink}

module _ {ℓ} {K : Type ℓ} ⦃f : KeyFuncs K⦄ where
  pub same_refl : (a : K) → same a a ≡ true
  same_refl a = (f.cmp_zero a a).1 refl

  pub eq_of_same : (a b : K) → same a b ≡ true → a ≡ b
  eq_of_same a b = (f.cmp_zero a b).0

  pub same_congr : (a b q : K) → same a b ≡ true → same a q ≡ same b q
  same_congr a b q h = ap (λ x. same x q) (eq_of_same a b h)

  pub same_symm : (a b : K) → same a b ≡ same b a
  same_symm a b = ground (arith, eq_of_same a b, eq_of_same b a, same_refl a, same_refl b)

module _ {ℓ} {K V : Type ℓ} ⦃f : KeyFuncs K⦄ where
  -- No key stands twice.
  abbrev pub Distinct : Chain K V → Type ℓ
  Distinct [] = Unit
  Distinct ((k, v) ∷ c) = (find k c ≡ none) × Distinct c

  pub find-append :
      (q : K) (front back : Chain K V)
      → find q (front ++ back) ≡ or_else (find q front) (find q back)
  unfolding or_else find
  find-append q [] back = refl
  find-append q ((j, v) ∷ front) back = rw (find-append q front back) (ground arith)

  pub find-one : (q k : K) (v : V) → find q ((k, v) ∷ []) ≡ (if same k q then some v else none)
  unfolding find
  find-one q k v = refl

  pub find-assign :
      (k q : K) (v old : V) (c : Chain K V)
      → find k c ≡ some old
      → find q (assign k v c) ≡ (if same k q then some v else find q c)
  unfolding find assign
  find-assign k q v old [] h = cc
  find-assign k q v old ((j, w) ∷ c) h = ground (
    arith,
    find-assign k q v old c,
    same_congr j k q,
    same_congr k q j,
    same_symm k j,
    same_symm q j,
  )

  pub length-assign : (k : K) (v : V) (c : Chain K V) → length (assign k v c) ≡ length c
  unfolding assign
  length-assign k v [] = refl
  length-assign k v ((j, w) ∷ c) = ground (arith, length-assign k v c)

  pub find-assign-none :
      (k q : K) (v : V) (c : Chain K V) → find q c ≡ none → find q (assign k v c) ≡ none
  unfolding find assign
  find-assign-none k q v [] h = refl
  find-assign-none k q v ((j, w) ∷ c) h = ground (arith, find-assign-none k q v c)

  pub Distinct-assign : (k : K) (v : V) (c : Chain K V) → Distinct c → Distinct (assign k v c)
  unfolding assign
  Distinct-assign k v [] h = tt
  Distinct-assign k v ((j, w) ∷ c) h =
      elim (same j k) as (λ b. Distinct (if b then (j, v) ∷ c else (j, w) ∷ assign k v c)) [
        | true ↦ h
        | false ↦ (find-assign-none k j v c h.0, Distinct-assign k v c h.1)
      ]

  pub Distinct-append_one :
      (k : K) (v : V) (c : Chain K V) → find k c ≡ none → Distinct c → Distinct (c ++ (k, v) ∷ [])
  unfolding find or_else
  Distinct-append_one k v [] h d = (refl, tt)
  Distinct-append_one k v ((j, w) ∷ c) h d = (
    rw (find-append j c ((k, v) ∷ [])) (ground (arith, same_symm j k)),
    Distinct-append_one k v c (ground arith) d.1,
  )

  -- The key and the value that `kv_ht_del` returns.
  pub unlink-found : (k : K) (c : Chain K V) → (unlink k c).0 ≡ Option.map (λ v. (k, v)) (find k c)
  unfolding unlink find
  unlink-found k [] = refl
  unlink-found k ((j, v) ∷ c) = ground (arith, unlink-found k c, eq_of_same j k)

  pub find-unlink :
      (k q : K) (c : Chain K V)
      → Distinct c
      → find q (unlink k c).1 ≡ (if same k q then none else find q c)
  unfolding unlink find
  find-unlink k q [] d = ground arith
  find-unlink k q ((j, v) ∷ c) d =
      ground (arith, find-unlink k q c d.1, same_congr j k q, eq_of_same j q, eq_of_same k q)

  pub Distinct-unlink : (k : K) (c : Chain K V) → Distinct c → Distinct (unlink k c).1
  unfolding unlink
  Distinct-unlink k [] d = tt
  Distinct-unlink k ((j, v) ∷ c) d = elim (Bool-cases (same j k)) [
    | inl e ↦ rw e d.1
    | inr e ↦ rw e (rw (find-unlink k j c d.1, d.0) (ground arith), Distinct-unlink k c d.1)
  ]

  pub length-unlink :
      (k : K) (v : V) (c : Chain K V) → find k c ≡ some v → length (unlink k c).1 + 1 ≡ length c
  unfolding unlink find
  length-unlink k v [] h = cc
  length-unlink k v ((j, w) ∷ c) h = ground (arith, length-unlink k v c)
