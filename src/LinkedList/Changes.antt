-- ===== src/LinkedList/Changes.antt =====
-- `kv_ll_add`, `kv_ll_del` and `kv_ll_foreach` (src/linked_list.c) on the sequence that a list stands for.
use sample_kv.Prelude.{
  ℕ, zero, suc, ◌+◌, ◌-◌, ◌%◌, ◌^◌, ◌<◌, ◌≡◌, refl, ap, sym, ◌∙◌, Bool, true, false, Option, none,
  some, List, [], ◌∷◌, ◌++◌, arith, length, length-append, differ, ==_refl,
}
use mathlib.Core.Path.{subst}
use sample_kv.LinkedList.{
  create, Elem, Heap, LinkedList, store, write_to, set_next, add, unlink_elem, free_elem, found,
  del_loop, del, foreach,
}
use sample_kv.LinkedList.Nodes.{
  Apart, Apart-last, last, Nodes, end, node, Stands, Nodes-store, free-Apart, linked, foreach_nodes,
  foreach_loop-Nodes,
}

last-cons : (p : ℕ) (ps : List ℕ) → (t : ℕ) × (last (p ∷ ps) ≡ some t)
last-cons p [] = (p, refl)
last-cons p (q ∷ ps) = last-cons q ps

last-snoc : (ps : List ℕ) (q : ℕ) → last (ps ++ q ∷ []) ≡ some q
last-snoc [] q = refl
last-snoc (p ∷ []) q = refl
last-snoc (p ∷ r ∷ ps) q = last-snoc (r ∷ ps) q

module _ {ℓ} {A : Type ℓ} where
  pub create-Stands : (heap : Heap A) → Stands (create heap) []
  create-Stands heap = record { addresses = []; nodes = end; tail = refl; size = refl }

  -- `kv_ll_foreach` calls the function on each of the elements, in their order.
  pub foreach-Stands {ℓ'} :
      {P : Type ℓ'} (ll : LinkedList A) (xs : List A) (func : P → A → P) (param : P)
      → Stands ll xs
      → foreach ll func param ≡ some (foreach_nodes func param xs)
  unfolding foreach
  foreach-Stands ll xs func param h =
      foreach_loop-Nodes func (suc ll.size) param (omega (arith, h.size)) h.nodes

  module _ (new_elem : ℕ) (unset : Option ℕ) (x : A) (ll : LinkedList A)
      (free : ll.heap new_elem ≡ none) where
    add-more :
        (p t : ℕ) (te : Elem A) (r : LinkedList A)
        → ll.head ≡ some p
        → ll.tail ≡ some t
        → (let heap =
              store ll.heap new_elem (some (record { elem_data = x; next = none; prev = unset })) in
            (heap t ≡ some te)
            × (r ≡ record ll {
              size = (ll.size + 1) % 2 ^ 64;
              tail = some new_elem;
              heap = store heap t (some (set_next (some new_elem) te));
            }))
        → add new_elem unset x ll ≡ some r
    unfolding add
    add-more p t te r e tail (here, same) = rw (e, add, tail, here) (ap some (sym same))

    add-from :
        {h : Option ℕ} {ps : List ℕ} {xs : List A}
        → ll.head ≡ h
        → Nodes ll.heap h ps xs
        → ll.tail ≡ last ps
        → ll.size ≡ length xs
        → length xs + 1 < 2 ^ 64
        → (r : LinkedList A) × (add new_elem unset x ll ≡ some r) × Stands r (xs ++ x ∷ [])
    unfolding add Apart
    add-from e end tail size room = (
      record {
        size = (ll.size + 1) % 2 ^ 64;
        head = some new_elem;
        tail = some new_elem;
        heap = store ll.heap new_elem (some (record { elem_data = x; next = none; prev = none }));
      },
      rw (e, add) refl,
      record {
        addresses = new_elem ∷ [];
        nodes = node {next = none} {prev = none} {x = x} (rw (==_refl new_elem) refl) tt end;
        tail = refl;
        size = omega (arith, size);
      },
    )
    add-from e (node {p} {x = y} {ps = ps} {xs = xs} at apart ns) tail size room =
        let ne : Elem A = record { elem_data = x; next = none; prev = unset } in
        let heap = store ll.heap new_elem (some ne) in
        let away = free-Apart new_elem free (node at apart ns) in
        let (t, is_last) = last-cons p ps in
        let (te, here, nodes) =
          linked new_elem t x unset (rw (==_refl new_elem) refl)
            (Nodes-store new_elem (some ne) away (node at apart ns)) away is_last in
        let heap' = store heap t (some (set_next (some new_elem) te)) in
        (
          record ll { size = (ll.size + 1) % 2 ^ 64; tail = some new_elem; heap = heap' },
          add-more p t te _ e (tail ∙ is_last) (here, refl),
          record {
            addresses = (p ∷ ps) ++ new_elem ∷ [];
            nodes =
                subst
                  (λ (h : Option ℕ). Nodes heap' h ((p ∷ ps) ++ new_elem ∷ []) ((y ∷ xs) ++ x ∷ []))
                  (sym e) nodes;
            tail = sym (last-snoc (p ∷ ps) new_elem);
            size = omega (arith, size, length-append xs (x ∷ []));
          },
        )

  -- `kv_ll_add`, with memory that was free and whatever `prev` held in it, follows no bad pointer and puts
  -- the element behind the others.
  pub add-Stands :
      (new_elem : ℕ) (unset : Option ℕ) (x : A) (ll : LinkedList A) (xs : List A)
      → Stands ll xs
      → ll.heap new_elem ≡ none
      → length xs + 1 < 2 ^ 64
      → (r : LinkedList A) × (add new_elem unset x ll ≡ some r) × Stands r (xs ++ x ∷ [])
  add-Stands new_elem unset x ll xs h free room =
      add-from new_elem unset x ll free refl h.nodes h.tail h.size room

-- None of the elements is the one that is looked for.
unfoldable pub Missing {ℓ} : {A : Type ℓ} → (A → Bool) → List A → Type 0
Missing is_it [] = Unit
Missing is_it (x ∷ xs) = (is_it x ≡ false) × Missing is_it xs

module _ {ℓ} {A : Type ℓ} where
  del_loop-Missing :
      (fuel : ℕ) (is_it : A → Bool) (ll : LinkedList A) {ptr : Option ℕ} {ps : List ℕ} {xs : List A}
      → Nodes ll.heap ptr ps xs
      → Missing is_it xs
      → length xs < fuel
      → del_loop fuel is_it ptr ll ≡ some (none, ll)
  unfolding del_loop Missing
  del_loop-Missing zero is_it ll ns h lt = absurd (omega arith)
  del_loop-Missing (suc fuel) is_it ll end h lt = refl
  del_loop-Missing (suc fuel) is_it ll (node {x = x} at apart ns) h lt =
      rw (at, del_loop, h.0) (del_loop-Missing fuel is_it ll ns h.1 (omega arith))

  -- `kv_ll_del` of an element that is not there returns NULL and changes nothing.
  pub del-Missing :
      (equal_func : A → A → Bool) (x : A) (ll : LinkedList A) (xs : List A)
      → Stands ll xs
      → Missing (equal_func x) xs
      → del equal_func x ll ≡ some (none, ll)
  unfolding del
  del-Missing equal_func x ll xs h missing =
      del_loop-Missing (suc ll.size) (equal_func x) ll h.nodes missing (omega (arith, h.size))

  -- The first element at `p`, and the result of taking it out.
  del-at :
      (equal_func : A → A → Bool) (x : A) (ll : LinkedList A) (p : ℕ) (e : Elem A)
      (ll' r : LinkedList A)
      → ll.head ≡ some p
      → ll.heap p ≡ some e
      → equal_func x e.elem_data ≡ true
      → unlink_elem p e ll ≡ some ll'
      → free_elem p (some ll') ≡ some r
      → del equal_func x ll ≡ some (some e.elem_data, r)
  unfolding del del_loop
  del-at equal_func x ll p e ll' r head at same un fr =
      ap (λ (h : Option ℕ). del_loop (suc ll.size) (equal_func x) h ll) head ∙ here
    where
      here : del_loop (suc ll.size) (equal_func x) (some p) ll ≡ some (some e.elem_data, r)
      here = rw (at, del_loop, same, un) (ap (found e.elem_data) fr)

  -- The list behind its first element.
  module _ (equal_func : A → A → Bool) (x y : A) (ll : LinkedList A)
      (same : equal_func x y ≡ true) where
    del-from :
        {h : Option ℕ} {ps : List ℕ} {xs : List A}
        → ll.head ≡ h
        → Nodes ll.heap h ps (y ∷ xs)
        → ll.tail ≡ last ps
        → ll.size ≡ length (y ∷ xs)
        → length (y ∷ xs) < 2 ^ 64
        → (r : LinkedList A) × (del equal_func x ll ≡ some (some y, r))
          × Stands r xs
          × ((p : ℕ) × (h ≡ some p) × (r.heap p ≡ none))
    unfolding unlink_elem write_to Apart
    del-from e (node {p} {prev = prev} at apart end) tail size room =
        let un : LinkedList A = record ll { head = none; tail = none } in
        let r : LinkedList A = record un {
          heap = store ll.heap p none;
          size = (ll.size + 2 ^ 64 - 1) % 2 ^ 64;
        } in
        (
          r,
          del-at equal_func x ll p _ un r e at same (rw (e, tail, unlink_elem, ==_refl p) refl)
              refl,
          record { addresses = []; nodes = end; tail = refl; size = omega (arith, size) },
          (p, refl, rw (==_refl p) refl),
        )
    del-from e
          (node {p} {prev = prev} at apart
            (node {p = q} {next} {prev = prev'} {x = z} {ps} {xs} at' apart' ns))
          tail size room =
        let (t, is_last) = last-cons q ps in
        let ze : Elem A = record { elem_data = z; next = next; prev = none } in
        let un : LinkedList A = record ll { head = some q; heap = store ll.heap q (some ze) } in
        let r : LinkedList A = record un {
          heap = store un.heap p none;
          size = (ll.size + 2 ^ 64 - 1) % 2 ^ 64;
        } in
        let not_tail = differ p t (Apart-last p t (q ∷ ps) apart is_last) in
        (
          r,
          del-at equal_func x ll p _ un r e at same
              (rw (e, tail, is_last, unlink_elem, ==_refl p, not_tail, write_to, at') refl) refl,
          record {
            addresses = q ∷ ps;
            nodes = Nodes-store p none apart (
                node {p = q} {next = next} {prev = none} {x = z} (rw (==_refl q) refl) apart'
                  (Nodes-store q (some ze) apart' ns));
            tail = tail;
            size = omega (arith, size);
          },
          (p, refl, rw (==_refl p) refl),
        )

  -- `kv_ll_del` of the first element returns its data and frees its memory, at the old `head`; the list is
  -- that of the others.
  pub del-Stands :
      (equal_func : A → A → Bool) (x y : A) (ll : LinkedList A) (xs : List A)
      → equal_func x y ≡ true
      → Stands ll (y ∷ xs)
      → length (y ∷ xs) < 2 ^ 64
      → (r : LinkedList A) × (del equal_func x ll ≡ some (some y, r))
        × Stands r xs
        × ((p : ℕ) × (ll.head ≡ some p) × (r.heap p ≡ none))
  del-Stands equal_func x y ll xs same h room =
      del-from equal_func x y ll same refl h.nodes h.tail h.size room
