-- ===== src/Hash/Placed.antt =====
-- Where the elements of kv_hash.c's table stand, and what a write to one chain does to the lookups.
use sample_kv.Prelude.{
  ℕ, zero, suc, ◌+◌, ◌<◌, ◌≡◌, ◌≢◌, refl, ap, ◌∙◌, Option, none, inl, inr, List, [], ◌∷◌, arith,
  length, get_or, set, length-set, get_or-set, replicate, length-replicate, get_or-replicate,
  Bool-cases, ◌==◌, ==_iff, true, false, if◌then◌else◌,
}
use sample_kv.Hash.{KeyFuncs, Chain, same, slot, find}
use sample_kv.Hash.Chain.{Distinct, eq_of_same}

module _ {ℓ} {A : Type ℓ} where
  unfoldable pub total : List (List A) → ℕ
  total [] = 0
  total (c ∷ cs) = length c + total cs

  pub total-set :
      (bs : List (List A)) (i : ℕ) (c : List A)
      → i < length bs
      → total (set bs i c) + length (get_or bs i []) ≡ total bs + length c
  unfolding total
  total-set [] i c h = absurd (omega arith)
  total-set (b ∷ bs) zero c h = omega arith
  total-set (b ∷ bs) (suc i) c h = omega (arith, total-set bs i c (omega arith))

pub total-replicate {ℓ} : (A : Type ℓ) (n : ℕ) → total {A = A} (replicate n []) ≡ 0
unfolding total
total-replicate A zero = refl
total-replicate A (suc n) = omega (arith, total-replicate A n)

module _ {ℓ} {K V : Type ℓ} ⦃f : KeyFuncs K⦄ where
  -- Each key stands at most once, in the bucket of its hash.
  pub record IsPlaced (n : ℕ) (bs : List (Chain K V)) : Type ℓ where
    pub width : length bs ≡ n
    pub pos : 0 < n
    pub home : (q : K) (i : ℕ) → slot q n ≢ i → find q (get_or bs i []) ≡ none
    pub distinct : (i : ℕ) → Distinct (get_or bs i [])

  abbrev pub lookup : ℕ → List (Chain K V) → K → Option V
  lookup n bs q = find q (get_or bs (slot q n) [])

  pub replicate-IsPlaced : (n : ℕ) → 0 < n → IsPlaced n (replicate n [])
  unfolding find
  replicate-IsPlaced n h = record {
    width = length-replicate n [];
    pos = h;
    home = λ q i _. rw get_or-replicate;
    distinct = λ i. rw get_or-replicate tt;
  }

  pub lookup-replicate : (n : ℕ) (q : K) → lookup n (replicate n []) q ≡ none
  unfolding find
  lookup-replicate n q = rw get_or-replicate

  -- One chain, the home of `k`, is replaced by `c`, in which only `k` reads differently.
  module _ {n : ℕ} {bs : List (Chain K V)} (p : IsPlaced n bs) (k : K) (c : Chain K V)
      (o : Option V) (d : Distinct c)
      (reads : (q : K)
        → find q c ≡ (if same k q then o else find q (get_or bs (slot k n) []))) where
    slot-lt : slot k n < length bs
    slot-lt = omega (arith, p.width, p.pos)

    home-write : (q : K) (i : ℕ) → slot q n ≢ i → find q (get_or (set bs (slot k n) c) i []) ≡ none
    home-write q i h =
        rw (get_or-set bs (slot k n) i c [] slot-lt) (elim (Bool-cases (slot k n == i)) [
          | inl e ↦
              rw (e, reads q)
                (elim (Bool-cases (same k q)) [
                  | inl s ↦ absurd (h (ground (arith, ap (λ x. slot x n) (eq_of_same k q s))))
                  | inr s ↦ rw s (p.home q (slot k n) (ground arith))
                ])
          | inr e ↦ rw e (p.home q i h)
        ])

    pub write-IsPlaced : IsPlaced n (set bs (slot k n) c)
    write-IsPlaced = record {
      width = length-set bs _ c ∙ p.width;
      pos = p.pos;
      home = home-write;
      distinct = λ i.
          rw (get_or-set bs (slot k n) i c [] slot-lt)
            (elim (Bool-cases (slot k n == i)) [ inl e ↦ rw e d | inr e ↦ rw e (p.distinct i) ]);
    }

    slots_differ : (q : K) → slot k n == slot q n ≡ false → same k q ≡ true → ⊥
    slots_differ q e s = ground (arith, ap (λ x. slot x n) (eq_of_same k q s))

    pub lookup-write :
        (q : K) → lookup n (set bs (slot k n) c) q ≡ (if same k q then o else lookup n bs q)
    lookup-write q =
        rw (get_or-set bs (slot k n) (slot q n) c [] slot-lt)
          (elim (Bool-cases (slot k n == slot q n)) [
            | inl e ↦ rw e (rw ((==_iff _ _).0 e) at (reads q))
            | inr e ↦ rw e (elim (Bool-cases (same k q)) [
              | inl s ↦ absurd (slots_differ q e s)
              | inr s ↦ rw s
            ])
          ])
