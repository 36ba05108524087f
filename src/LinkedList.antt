-- ===== src/LinkedList.antt =====
-- src/linked_list.c: the list of pointers, in a heap of elements.
pub mod Nodes
pub mod Changes
use sample_kv.Prelude.{
  ℕ, zero, suc, ◌+◌, ◌-◌, ◌%◌, ◌^◌, Bool, true, false, Option, none, some, ◌==◌, ◌&&◌,
  if◌then◌else◌,
}

-- `struct kv_ll_elem`; a pointer is an address or NULL.
pub record Elem {ℓ} (A : Type ℓ) : Type ℓ where
  pub elem_data : A
  pub next : Option ℕ
  pub prev : Option ℕ

abbrev pub Heap {ℓ} : Type ℓ → Type ℓ
Heap A = ℕ → Option (Elem A)

-- `struct kv_ll`, with the heap that its elements live in.
pub record LinkedList {ℓ} (A : Type ℓ) : Type ℓ where
  pub size : ℕ
  pub head : Option ℕ
  pub tail : Option ℕ
  pub heap : Heap A

abbrev pub is_at : ℕ → Option ℕ → Bool
is_at p none = false
is_at p (some q) = p == q

module _ {ℓ} {A : Type ℓ} where
  abbrev pub store : Heap A → ℕ → Option (Elem A) → Heap A
  store heap p cell q = if p == q then cell else heap q

  -- `kv_ll_create`
  abbrev pub create : Heap A → LinkedList A
  create heap = record { size = 0; head = none; tail = none; heap = heap }

  -- A write to a member of the element at an address; `none` where the pointer is NULL or freed.
  pub write_to : (Elem A → Elem A) → Option ℕ → Heap A → Option (Heap A)
  write_to f none heap = none
  write_to f (some p) heap = elim (heap p) [
    | none ↦ none
    | some e ↦ some (store heap p (some (f e)))
  ]

  abbrev pub set_next : Option ℕ → Elem A → Elem A
  set_next next e = record e { next = next }

  abbrev pub set_prev : Option ℕ → Elem A → Elem A
  set_prev prev e = record e { prev = prev }

  -- `kv_ll_add`: `new_elem` is the address that `malloc` returns, and `unset` what `prev` holds there.
  unfoldable pub add : ℕ → Option ℕ → A → LinkedList A → Option (LinkedList A)
  unfolding write_to
  add new_elem unset elem_data ll =
      let size : ℕ = (ll.size + 1) % 2 ^ 64 in
      elim ll.head [
        | none ↦ some (record {
          size = size;
          head = some new_elem;
          tail = some new_elem;
          heap =
              store ll.heap new_elem
                (some (record { elem_data = elem_data; next = none; prev = none }));
        })
        | some h ↦
            let heap =
              store ll.heap new_elem
                (some (record { elem_data = elem_data; next = none; prev = unset })) in
            elim (write_to (set_next (some new_elem)) ll.tail heap) [
              | none ↦ none
              | some heap' ↦ some (record ll { size = size; tail = some new_elem; heap = heap' })
            ]
      ]

  -- A write that is left out where the pointer is NULL.
  abbrev pub write_if : (Elem A → Elem A) → Option ℕ → Heap A → Option (Heap A)
  write_if f none heap = some heap
  write_if f (some p) heap = write_to f (some p) heap

  abbrev pub with_heap : LinkedList A → Option (Heap A) → Option (LinkedList A)
  with_heap ll none = none
  with_heap ll (some heap) = some (record ll { heap = heap })

  -- The four cases of `kv_ll_del` for the element at `elem`.
  unfoldable pub unlink_elem : ℕ → Elem A → LinkedList A → Option (LinkedList A)
  unfolding write_to
  unlink_elem elem e ll =
      if is_at elem ll.head && is_at elem ll.tail
      then some (record ll { head = none; tail = none })
      else if is_at elem ll.head
      then with_heap (record ll { head = e.next }) (write_if (set_prev none) e.next ll.heap)
      else if is_at elem ll.tail
      then with_heap (record ll { tail = e.prev }) (write_if (set_next none) e.prev ll.heap)
      else elim (write_to (set_next e.next) e.prev ll.heap) [
        | none ↦ none
        | some heap ↦ with_heap ll (write_to (set_prev e.prev) e.next heap)
      ]

  -- `free (elem)` and `--ll->size`
  abbrev pub free_elem : ℕ → Option (LinkedList A) → Option (LinkedList A)
  free_elem elem none = none
  free_elem elem (some ll) =
      some (record ll { heap = store ll.heap elem none; size = (ll.size + 2 ^ 64 - 1) % 2 ^ 64 })

  abbrev pub found : A → Option (LinkedList A) → Option (Option A × LinkedList A)
  found elem_data none = none
  found elem_data (some ll) = some (some elem_data, ll)

  -- The loop of `kv_ll_del`, at `elem`; `none` where a pointer is bad, or where the fuel runs out.
  unfoldable pub del_loop :
      ℕ → (A → Bool) → Option ℕ → LinkedList A → Option (Option A × LinkedList A)
  unfolding unlink_elem
  del_loop zero is_it elem ll = none
  del_loop (suc fuel) is_it none ll = some (none, ll)
  del_loop (suc fuel) is_it (some elem) ll = elim (ll.heap elem) [
    | none ↦ none
    | some e ↦
        let rest = del_loop fuel is_it e.next ll in
        if is_it e.elem_data
        then found e.elem_data (free_elem elem (unlink_elem elem e ll))
        else rest
  ]

  -- `kv_ll_del`; the list has `size` elements, and the loop ends at the NULL behind them.
  unfoldable pub del : (A → A → Bool) → A → LinkedList A → Option (Option A × LinkedList A)
  unfolding del_loop
  del equal_func elem_data ll = del_loop (suc ll.size) (equal_func elem_data) ll.head ll

  -- The loop of `kv_ll_foreach`.
  unfoldable pub foreach_loop {ℓ'} :
      {P : Type ℓ'} → ℕ → (P → A → P) → Option ℕ → Heap A → P → Option P
  foreach_loop zero func elem heap param = none
  foreach_loop (suc fuel) func none heap param = some param
  foreach_loop (suc fuel) func (some elem) heap param = elim (heap elem) [
    | none ↦ none
    | some e ↦ foreach_loop fuel func e.next heap (func param e.elem_data)
  ]

  -- `kv_ll_foreach`, with what `func` makes of `param`.
  unfoldable pub foreach {ℓ'} : {P : Type ℓ'} → LinkedList A → (P → A → P) → P → Option P
  unfolding foreach_loop
  foreach ll func param = foreach_loop (suc ll.size) func ll.head ll.heap param

  -- `kv_ll_del_tail`, which leaves `tail` where it is if another element stands before it.
  unfoldable pub del_tail : LinkedList A → Option (Option A × LinkedList A)
  unfolding write_to
  del_tail ll = elim ll.head [
    | none ↦ some (none, ll)
    | some h ↦ elim ll.tail [
      | none ↦ none
      | some t ↦ elim (ll.heap t) [
        | none ↦ none
        | some e ↦ found e.elem_data (
            free_elem t (
              if h == t
              then some (record ll { head = none; tail = none })
              else with_heap ll (write_to (set_next none) e.prev ll.heap)))
      ]
    ]
  ]
