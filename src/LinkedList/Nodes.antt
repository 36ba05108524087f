-- ===== src/LinkedList/Nodes.antt =====
-- The list (src/linked_list.c) against the sequence that it stands for.
use sample_kv.Prelude.{
  ℕ, zero, suc, ◌<◌, ◌≡◌, ◌≢◌, refl, ap, sym, ◌∙◌, Option, none, some, List, [], ◌∷◌, ◌++◌, arith,
  length, differ, ==_refl,
}
use sample_kv.LinkedList.{Elem, Heap, LinkedList, store, set_next, found, foreach_loop}

-- An address that is not among others.
unfoldable pub Apart : ℕ → List ℕ → Type 0
Apart p [] = Unit
Apart p (q ∷ ps) = (p ≢ q) × Apart p ps

abbrev pub last : List ℕ → Option ℕ
last [] = none
last (p ∷ []) = some p
last (p ∷ q ∷ ps) = last (q ∷ ps)

pub Apart-last : (p t : ℕ) (ps : List ℕ) → Apart p ps → last ps ≡ some t → p ≢ t
unfolding Apart
Apart-last p t [] h e = cc
Apart-last p t (q ∷ []) h e = λ eq. h.0 (let same : q ≡ t = cc in eq ∙ sym same)
Apart-last p t (q ∷ r ∷ ps) h e = Apart-last p t (r ∷ ps) h.1 e

Apart-snoc : (p q : ℕ) (ps : List ℕ) → Apart p ps → p ≢ q → Apart p (ps ++ q ∷ [])
unfolding Apart
Apart-snoc p q [] h ne = (ne, tt)
Apart-snoc p q (r ∷ ps) h ne = (h.0, Apart-snoc p q ps h.1 ne)

module _ {ℓ} {A : Type ℓ} where
  -- From a pointer on the heap has elements at the addresses, with the data, up to NULL. What `prev`
  -- holds does not count.
  pub data Nodes (heap : Heap A) : Option ℕ → List ℕ → List A → Type ℓ where
    end : Nodes heap none [] []
    node :
        {p : ℕ} {next prev : Option ℕ} {x : A} {ps : List ℕ} {xs : List A}
        → heap p ≡ some (record { elem_data = x; next = next; prev = prev })
        → Apart p ps
        → Nodes heap next ps xs
        → Nodes heap (some p) (p ∷ ps) (x ∷ xs)

  -- The list stands for `xs`.
  pub record Stands (ll : LinkedList A) (xs : List A) : Type ℓ where
    pub addresses : List ℕ
    pub nodes : Nodes ll.heap ll.head addresses xs
    pub tail : ll.tail ≡ last addresses
    pub size : ll.size ≡ length xs

  -- A write elsewhere.
  pub Nodes-store :
      {heap : Heap A} {ptr : Option ℕ} {ps : List ℕ} {xs : List A} (p : ℕ) (cell : Option (Elem A))
      → Apart p ps
      → Nodes heap ptr ps xs
      → Nodes (store heap p cell) ptr ps xs
  unfolding Apart
  Nodes-store p cell h end = end
  Nodes-store p cell h (node {p = q} {next} {prev} {x} at apart ns) =
      node {next = next} {prev = prev} {x = x} (rw (differ p q h.0) at) apart
        (Nodes-store p cell h.1 ns)

  -- A free address is apart.
  pub free-Apart :
      {heap : Heap A} {ptr : Option ℕ} {ps : List ℕ} {xs : List A} (p : ℕ)
      → heap p ≡ none
      → Nodes heap ptr ps xs
      → Apart p ps
  unfolding Apart
  free-Apart p h end = tt
  free-Apart {heap} p h (node {p = q} at apart ns) =
      ((λ e. let bad = sym h ∙ ap heap e ∙ at in cc), free-Apart p h ns)

  unfoldable pub foreach_nodes {ℓ'} : {P : Type ℓ'} → (P → A → P) → P → List A → P
  foreach_nodes func param [] = param
  foreach_nodes func param (x ∷ xs) = foreach_nodes func (func param x) xs

  pub foreach_loop-Nodes {ℓ'} :
      {P : Type ℓ'} (func : P → A → P) (fuel : ℕ) {heap : Heap A} {ptr : Option ℕ} {ps : List ℕ}
      {xs : List A} (param : P)
      → length xs < fuel
      → Nodes heap ptr ps xs
      → foreach_loop fuel func ptr heap param ≡ some (foreach_nodes func param xs)
  unfolding foreach_loop foreach_nodes
  foreach_loop-Nodes func zero param lt ns = absurd (omega arith)
  foreach_loop-Nodes func (suc fuel) param lt end = refl
  foreach_loop-Nodes func (suc fuel) param lt (node {x = x} at apart ns) =
      rw (at, foreach_loop) (foreach_loop-Nodes func fuel (func param x) (omega arith) ns)

  module _ {heap : Heap A} (new_elem t : ℕ) (x : A) (unset : Option ℕ)
      (new : heap new_elem ≡ some (record { elem_data = x; next = none; prev = unset })) where
    -- The last element gets a successor.
    pub linked :
        {ptr : Option ℕ} {ps : List ℕ} {xs : List A}
        → Nodes heap ptr ps xs
        → Apart new_elem ps
        → last ps ≡ some t
        → (e : Elem A) × (heap t ≡ some e)
          × Nodes
              (store heap t (some (set_next (some new_elem) e)))
              ptr
              (ps ++ new_elem ∷ [])
              (xs ++ x ∷ [])
    unfolding Apart
    linked end free e = cc
    linked (node {p} {prev = prev} {x = y} at apart end) free e =
        let same : p ≡ t = cc in
        (
          record { elem_data = y; next = none; prev = prev },
          ap heap (sym same) ∙ at,
          node {next = some new_elem} {prev = prev} {x = y} (rw (sym same, ==_refl p) refl)
              ((λ eq. free.0 (sym eq)), tt)
              (node {next = none} {prev = unset} {x = x}
                (rw (differ t new_elem (λ eq. free.0 (sym (same ∙ eq)))) new) tt end),
        )
    linked (node {p} {next} {prev} {x = y} at apart (node {p = q} {ps = ps} at' apart' ns)) free e =
        let (te, found, rest) = linked (node at' apart' ns) free.1 e in
        (
          te,
          found,
          node {p = p} {next = next} {prev = prev} {x = y}
              (rw (differ t p (λ eq. Apart-last p t (q ∷ ps) apart e (sym eq))) at)
              (Apart-snoc p new_elem (q ∷ ps) apart (λ eq. free.0 (sym eq))) rest,
        )
