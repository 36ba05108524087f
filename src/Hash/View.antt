-- ===== src/Hash/View.antt =====
-- `kv_ht_foreach` of src/kv_hash.c against the list of the pairs of the table.
use sample_kv.Prelude.{◌≡◌, refl, sym, ◌∙◌, List, [], ◌∷◌, ◌++◌, length}
use sample_kv.Hash.{KeyFuncs, Chain, Table, find, get, foreach_chain, foreach_table, foreach}
use sample_kv.Hash.Chain.{Distinct}
use sample_kv.Hash.Resize.{flat, Distinct-flat, find-flat_home, length-flat}
use sample_kv.Hash.Methods.{IsValid}

module _ {ℓ κ} {K V : Type ℓ} {S : Type κ} ⦃f : KeyFuncs K⦄ where
  -- The callback on each pair of a list, in order.
  unfoldable pub visit : (K → V → S → S) → List (K × V) → S → S
  visit g [] s = s
  visit g ((k, v) ∷ es) s = visit g es (g k v s)

  visit-foreach_chain :
      (g : K → V → S → S) (c es : Chain K V) (s : S)
      → visit g (c ++ es) s ≡ visit g es (foreach_chain g c s)
  unfolding visit foreach_chain
  visit-foreach_chain g [] es s = refl
  visit-foreach_chain g ((k, v) ∷ c) es s = visit-foreach_chain g c es (g k v s)

  foreach_table-visit :
      (g : K → V → S → S) (cs : List (Chain K V)) (s : S)
      → foreach_table g cs s ≡ visit g (flat cs) s
  unfolding foreach_table flat visit
  foreach_table-visit g [] s = refl
  foreach_table-visit g (c ∷ cs) s =
      foreach_table-visit g cs (foreach_chain g c s) ∙ sym (visit-foreach_chain g c (flat cs) s)

  -- On a valid table the calls of `kv_ht_foreach` are those on the pairs of a list in which each key
  -- stands once, with the value that `kv_ht_get` returns, and which is as long as the counter says.
  pub foreach-visit :
      (t : Table K V) (g : K → V → S → S) (s : S)
      → IsValid t
      → (es : List (K × V)) × (foreach t g s ≡ visit g es s)
        × Distinct es
        × ((q : K) → find q es ≡ get t q)
        × (length es ≡ t.count)
  unfolding foreach get
  foreach-visit t g s valid = (
    flat t.table,
    foreach_table-visit g t.table s,
    Distinct-flat valid.placed,
    find-flat_home valid.placed,
    length-flat t.table ∙ sym valid.counted,
  )
