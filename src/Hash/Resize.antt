-- ===== src/Hash/Resize.antt =====
-- `kv_ht_resize` of src/kv_hash.c: elements that move from one array of chains to another.
use sample_kv.Prelude.{
  ℕ, zero, suc, ◌+◌, ◌<◌, ◌≡◌, ◌≢◌, refl, ap, sym, ◌∙◌, Option, none, some, Option-cases, ◌⊎◌, inl,
  inr, List, [], ◌∷◌, ◌++◌, arith, length, length-append, get_or, set, replicate, Bool-cases, ◌==◌,
  if◌then◌else◌,
}
use mathlib.Core.Option.{or_else}
use sample_kv.Hash.{KeyFuncs, Chain, Table, same, slot, find, move_chain, move_all, resize}
use sample_kv.Hash.Chain.{
  Distinct, find-append, find-one, Distinct-append_one, eq_of_same, same_refl,
}
use sample_kv.Hash.Placed.{
  IsPlaced, lookup, total, total-set, total-replicate, replicate-IsPlaced, lookup-replicate,
  write-IsPlaced, lookup-write,
}

or_else-none {ℓ} : {A : Type ℓ} (o : Option A) → or_else o none ≡ o
unfolding or_else
or_else-none none = refl
or_else-none (some x) = refl

module _ {ℓ} {K V : Type ℓ} ⦃f : KeyFuncs K⦄ where
  -- The elements of all chains, in the order in which `kv_ht_resize` moves them.
  unfoldable pub flat : List (Chain K V) → Chain K V
  flat [] = []
  flat (c ∷ cs) = c ++ flat cs

  move_chain-append :
      (n : ℕ) (a b : Chain K V) (bs : List (Chain K V))
      → move_chain n (a ++ b) bs ≡ move_chain n b (move_chain n a bs)
  unfolding move_chain
  move_chain-append n [] b bs = refl
  move_chain-append n ((k, v) ∷ a) b bs = move_chain-append n a b _

  move_all-flat : (n : ℕ) (cs bs : List (Chain K V)) → move_all n cs bs ≡ move_chain n (flat cs) bs
  unfolding move_all flat
  move_all-flat n [] bs = unfold move_chain in refl
  move_all-flat n (c ∷ cs) bs =
      move_all-flat n cs (move_chain n c bs) ∙ sym (move_chain-append n c (flat cs) bs)

  -- One moved element, whose key the new table lacks.
  module _ {n : ℕ} {bs : List (Chain K V)} (p : IsPlaced n bs) (k : K) (v : V)
      (absent : lookup n bs k ≡ none) where
    pub find-push :
        (q : K)
        → find q (get_or bs (slot k n) [] ++ (k, v) ∷ [])
          ≡ (if same k q then some v else find q (get_or bs (slot k n) []))
    unfolding or_else
    find-push q =
        rw (find-append q (get_or bs (slot k n) []) ((k, v) ∷ []), find-one q k v)
          (elim (Bool-cases (same k q)) [
            | inl s ↦
                rw (s, ap (λ x. find x (get_or bs (slot k n) [])) (sym (eq_of_same k q s)), absent)
            | inr s ↦ rw s (or_else-none (find q (get_or bs (slot k n) [])))
          ])

    pub push-IsPlaced : IsPlaced n (set bs (slot k n) (get_or bs (slot k n) [] ++ (k, v) ∷ []))
    push-IsPlaced =
        write-IsPlaced p k _ (some v) (Distinct-append_one k v _ absent (p.distinct _)) find-push

    pub lookup-push :
        (q : K)
        → lookup n (set bs (slot k n) (get_or bs (slot k n) [] ++ (k, v) ∷ [])) q
          ≡ (if same k q then some v else lookup n bs q)
    lookup-push =
        lookup-write p k _ (some v) (Distinct-append_one k v _ absent (p.distinct _)) find-push

    pub total-push :
        total (set bs (slot k n) (get_or bs (slot k n) [] ++ (k, v) ∷ [])) ≡ total bs + 1
    total-push = omega (
      arith,
      total-set bs (slot k n) (get_or bs (slot k n) [] ++ (k, v) ∷ []),
      length-append (get_or bs (slot k n) []) ((k, v) ∷ []),
      p.width,
      p.pos,
    )

  -- What moving the elements `es` to the table `bs` gives.
  pub record Moves (n : ℕ) (bs : List (Chain K V)) (es : Chain K V) (r : List (Chain K V))
      : Type ℓ where
    pub placed : IsPlaced n r
    pub reads : (q : K) → lookup n r q ≡ or_else (lookup n bs q) (find q es)
    pub entries : total r ≡ total bs + length es

  abbrev Apart : ℕ → List (Chain K V) → Chain K V → Type ℓ
  Apart n bs es = (q : K) → (lookup n bs q ≡ none) ⊎ (find q es ≡ none)

  first_absent :
      (n : ℕ) (bs : List (Chain K V)) (k : K) (v : V) (es : Chain K V)
      → Apart n bs ((k, v) ∷ es)
      → lookup n bs k ≡ none
  unfolding find
  first_absent n bs k v es apart = elim (apart k) [ inl e ↦ e | inr e ↦ cc (rw (same_refl k) at e) ]

  module _ {n : ℕ} {bs : List (Chain K V)} (p : IsPlaced n bs) (k : K) (v : V) (es : Chain K V)
      (fresh : find k es ≡ none) (apart : Apart n bs ((k, v) ∷ es)) where
    absent : lookup n bs k ≡ none
    absent = first_absent n bs k v es apart

    Apart-push : Apart n (set bs (slot k n) (get_or bs (slot k n) [] ++ (k, v) ∷ [])) es
    unfolding find
    Apart-push q = elim (Bool-cases (same k q)) [
      | inl s ↦ inr (rw (ap (λ x. find x es) (sym (eq_of_same k q s))) fresh)
      | inr s ↦ elim (apart q) [
        | inl e ↦ inl (rw (lookup-push p k v absent q, s) e)
        | inr e ↦ inr (rw s at e)
      ]
    ]

    reads-push :
        (q : K)
        → or_else
            (lookup n (set bs (slot k n) (get_or bs (slot k n) [] ++ (k, v) ∷ [])) q)
            (find q es)
          ≡ or_else (lookup n bs q) (find q ((k, v) ∷ es))
    unfolding find or_else
    reads-push q = rw (lookup-push p k v absent q) (elim (Bool-cases (same k q)) [
      | inl s ↦ rw (s, ap (λ x. lookup n bs x) (sym (eq_of_same k q s)), absent)
      | inr s ↦ rw s
    ])

  move_chain-Moves :
      (n : ℕ) (es : Chain K V) (bs : List (Chain K V))
      → IsPlaced n bs
      → Distinct es
      → Apart n bs es
      → Moves n bs es (move_chain n es bs)
  unfolding move_chain find
  move_chain-Moves n [] bs p d apart = record {
    placed = p;
    reads = λ q. sym (or_else-none (lookup n bs q));
    entries = omega arith;
  }
  move_chain-Moves n ((k, v) ∷ es) bs p d apart =
      let absent = first_absent n bs k v es apart in
      let m =
        move_chain-Moves n es _ (push-IsPlaced p k v absent) d.1 (Apart-push p k v es d.0 apart) in
      record {
        placed = m.placed;
        reads = λ q. m.reads q ∙ reads-push p k v es d.0 apart q;
        entries = omega (arith, m.entries, total-push p k v absent);
      }

  -- The chains of a table, one behind the other.
  module _ (q : K) where
    find-flat_nowhere :
        (cs : List (Chain K V))
        → ((j : ℕ) → find q (get_or cs j []) ≡ none)
        → find q (flat cs) ≡ none
    unfolding flat find or_else
    find-flat_nowhere [] h = refl
    find-flat_nowhere (c ∷ cs) h =
        rw (find-append q c (flat cs), h 0) (find-flat_nowhere cs (λ j. h (suc j)))

    find-flat :
        (cs : List (Chain K V)) (i : ℕ)
        → ((j : ℕ) → i ≢ j → find q (get_or cs j []) ≡ none)
        → find q (flat cs) ≡ find q (get_or cs i [])
    unfolding flat find or_else
    find-flat [] i h = refl
    find-flat (c ∷ cs) zero h =
        rw (find-append q c (flat cs), find-flat_nowhere cs (λ j. h (suc j) (omega arith)))
          (or_else-none (find q c))
    find-flat (c ∷ cs) (suc i) h =
        rw (find-append q c (flat cs), h 0 (omega arith))
          (find-flat cs i (λ j e. h (suc j) (omega arith)))

  tail_absent : (k q : K) (v : V) (a : Chain K V) → find q ((k, v) ∷ a) ≡ none → find q a ≡ none
  unfolding find
  tail_absent k q v a h = ground arith

  Distinct-append :
      (a b : Chain K V)
      → Distinct a
      → Distinct b
      → ((q : K) → (find q a ≡ none) ⊎ (find q b ≡ none))
      → Distinct (a ++ b)
  unfolding find or_else
  Distinct-append [] b da db h = db
  Distinct-append ((k, v) ∷ a) b da db h = (
    rw (find-append k a b, da.0) (elim (h k) [ inl e ↦ cc (rw (same_refl k) at e) | inr e ↦ e ]),
    Distinct-append a b da.1 db
        λ q. elim (h q) [ inl e ↦ inl (tail_absent k q v a e) | inr e ↦ inr e ],
  )

  flat-Distinct :
      (cs : List (Chain K V))
      → ((j : ℕ) → Distinct (get_or cs j []))
      → ((q : K) (i j : ℕ)
          → i ≢ j
          → (find q (get_or cs i []) ≡ none) ⊎ (find q (get_or cs j []) ≡ none))
      → Distinct (flat cs)
  unfolding flat
  flat-Distinct [] d h = tt
  flat-Distinct (c ∷ cs) d h =
      Distinct-append c (flat cs) (d 0)
        (flat-Distinct cs (λ j. d (suc j)) (λ q i j e. h q (suc i) (suc j) (omega arith)))
        λ q. elim (Option-cases (find q c)) [
          | inl e ↦ inl e
          | inr (v, e) ↦ inr (
              find-flat_nowhere q cs
                λ j. elim (h q 0 (suc j) (omega arith)) [ inl e' ↦ cc (e, e') | inr e' ↦ e' ])
        ]

  pub length-flat : (cs : List (Chain K V)) → length (flat cs) ≡ total cs
  unfolding flat total
  length-flat [] = refl
  length-flat (c ∷ cs) = omega (arith, length-append c (flat cs), length-flat cs)

  -- Of a table whose elements are in place, `flat` has each key once, and reads as the table.
  module _ {n : ℕ} {cs : List (Chain K V)} (p : IsPlaced n cs) where
    pub Distinct-flat : Distinct (flat cs)
    Distinct-flat = flat-Distinct cs p.distinct λ q i j e. elim (Bool-cases (slot q n == i)) [
      | inl s ↦ inr (p.home q j (ground arith))
      | inr s ↦ inl (p.home q i (ground arith))
    ]

    pub find-flat_home : (q : K) → find q (flat cs) ≡ lookup n cs q
    find-flat_home q = find-flat q cs (slot q n) (p.home q)

  -- `kv_ht_resize` of a table whose elements are in place, to a positive size, puts them in place: every
  -- lookup answers as before, and the number of elements stays.
  pub resize-Moves :
      (t : Table K V) (size : ℕ)
      → IsPlaced t.size t.table
      → 0 < size
      → IsPlaced size (resize t size).table
        × ((q : K) → lookup size (resize t size).table q ≡ lookup t.size t.table q)
        × (total (resize t size).table ≡ total t.table)
  unfolding resize or_else
  resize-Moves t size p pos =
      let m =
        move_chain-Moves size (flat t.table) (replicate size []) (replicate-IsPlaced size pos)
          (Distinct-flat p) (λ q. inl (lookup-replicate size q)) in
      rw (move_all-flat size t.table (replicate size [])) (
        m.placed,
        (λ q. m.reads q ∙ rw (lookup-replicate size q) (find-flat_home p q)),
        omega (arith, m.entries, total-replicate (K × V) size, length-flat t.table),
      )
