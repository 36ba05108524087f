-- ===== src/Tests/Pointers.antt =====
-- The theorems on the list of pointers, at concrete inputs.
use sample_kv.Prelude.{ℕ, ◌≡◌, refl, Option, none, some, [], ◌∷◌, ◌++◌, arith, ◌==◌}
use sample_kv.LinkedList.{LinkedList, store, add, del}
use sample_kv.LinkedList.Nodes.{Apart, Stands, end, node}
use sample_kv.LinkedList.Changes.{add-Stands, del-Stands}
use sample_kv.Command.Session.{delete_id}
use sample_kv.Command.Session.TxList.{del-delete_id}

-- 5 at address 0.
abbrev one_elem : LinkedList ℕ
one_elem = record {
  size = 1;
  head = some 0;
  tail = some 0;
  heap = store (λ _. none) 0 (some (record { elem_data = 5; next = none; prev = none }));
}

one_elem-Stands : Stands one_elem (5 ∷ [])
unfolding Apart
one_elem-Stands = record { addresses = 0 ∷ []; nodes = node refl tt end; tail = refl; size = refl }

add-Stands_example :
    (r : LinkedList ℕ) × (add 1 none 6 one_elem ≡ some r) × Stands r ((5 ∷ []) ++ 6 ∷ [])
add-Stands_example = add-Stands 1 none 6 one_elem (5 ∷ []) one_elem-Stands refl (omega arith)

-- 5 at address 0, and 6 at address 1.
abbrev two_elems : LinkedList ℕ
two_elems = record {
  size = 2;
  head = some 0;
  tail = some 1;
  heap =
      store (store (λ _. none) 0 (some (record { elem_data = 5; next = some 1; prev = none }))) 1
        (some (record { elem_data = 6; next = none; prev = none }));
}

two_elems-Stands : Stands two_elems (5 ∷ 6 ∷ [])
unfolding Apart
two_elems-Stands = record {
  addresses = 0 ∷ 1 ∷ [];
  nodes = node refl ((λ e. ground arith), tt) (node refl tt end);
  tail = refl;
  size = refl;
}

del-Stands_example :
    (r : LinkedList ℕ) × (del (λ (x y : ℕ). x == y) 5 two_elems ≡ some (some 5, r))
    × Stands r (6 ∷ [])
    × ((p : ℕ) × (two_elems.head ≡ some p) × (r.heap p ≡ none))
del-Stands_example =
    del-Stands (λ (x y : ℕ). x == y) 5 5 two_elems (6 ∷ []) refl two_elems-Stands (omega arith)

-- Of the transactions 5 and 6 the first ends.
del-delete_id_example :
    (o : Option ℕ) × (r : LinkedList ℕ) × (del (λ (x y : ℕ). x == y) 5 two_elems ≡ some (o, r))
    × Stands r (6 ∷ [])
unfolding delete_id
del-delete_id_example =
    del-delete_id 5 two_elems (5 ∷ 6 ∷ []) (6 ∷ []) two_elems-Stands (omega arith) refl
