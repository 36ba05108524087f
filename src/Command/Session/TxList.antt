-- ===== src/Command/Session/TxList.antt =====
-- `tx_list` of src/tx_manager.c as a list of ids, and the linked list (src/linked_list.c) that it is.
use sample_kv.Prelude.{
  ℕ, ◌^◌, ◌<◌, ◌≡◌, refl, true, false, Bool, Bool-cases, inl, inr, Option, none, some, List, [],
  ◌∷◌, length, ◌==◌, ◌||◌,
}
use mathlib.Core.Path.{subst}
use sample_kv.LinkedList.{LinkedList, del}
use sample_kv.LinkedList.Nodes.{Stands}
use sample_kv.LinkedList.Changes.{Missing, del-Missing, del-Stands}
use sample_kv.Command.Session.{has_id, delete_id}

or_false : (a b : Bool) → a || b ≡ false → (a ≡ false) × (b ≡ false)
or_false false b e = (refl, e)
or_false true b e = absurd cc

has_id-Missing : (id : ℕ) (ids : List ℕ) → has_id id ids ≡ false → Missing (λ (x : ℕ). id == x) ids
unfolding Missing
has_id-Missing id [] e = tt
has_id-Missing id (x ∷ ids) e =
    let (here, rest) = or_false (id == x) (has_id id ids) e in (here, has_id-Missing id ids rest)

-- Where `tx_list` in memory stands for `ids`, and the transaction to delete stands first in it or is not
-- there, `kv_ll_del` follows no bad pointer and leaves a list that stands for `delete_id id ids`.
pub del-delete_id :
    (id : ℕ) (ll : LinkedList ℕ) (ids ids' : List ℕ)
    → Stands ll ids
    → length ids < 2 ^ 64
    → delete_id id ids ≡ some ids'
    → (o : Option ℕ) × (r : LinkedList ℕ) × (del (λ (x y : ℕ). x == y) id ll ≡ some (o, r))
      × Stands r ids'
unfolding delete_id
del-delete_id id ll [] ids' h room e = (
  none,
  ll,
  del-Missing (λ (x y : ℕ). x == y) id ll [] h (has_id-Missing id [] refl),
  subst (Stands ll) (let same : [] ≡ ids' = cc in same) h,
)
del-delete_id id ll (x ∷ ids) ids' h room e = elim (Bool-cases (id == x)) [
  | inl first ↦
      let (r, run, stands, freed) = del-Stands (λ (x y : ℕ). x == y) id x ll ids first h room in
      let left = rw first at e in
      (some x, r, run, subst (Stands r) (let same : ids ≡ ids' = cc in same) stands)
  | inr away ↦ elim (Bool-cases (has_id id ids)) [
    | inl behind ↦ let left = rw (away, behind) at e in absurd cc
    | inr missing ↦
        let left = rw (away, missing) at e in
        (
          none,
          ll,
          del-Missing (λ (x y : ℕ). x == y) id ll (x ∷ ids) h
              (has_id-Missing id (x ∷ ids) (rw away missing)),
          subst (Stands ll) (let same : (x ∷ ids) ≡ ids' = cc in same) h,
        )
  ]
]
