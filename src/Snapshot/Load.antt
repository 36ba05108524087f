-- ===== src/Snapshot/Load.antt =====
-- The snapshot loop of `kv_recovery_redo` (src/kv_recovery.c) on the lines that
-- src/kv_recovery_snapshot.c writes.
use sample_kv.Snapshot.Lines.{
  IsPair, snapshot_line-IsRow, length-snapshot_line, load_row, load_line-pair,
}
use sample_kv.Prelude.{
  ℕ, zero, suc, ◌+◌, ◌^◌, ◌≤◌, ◌<◌, ◌≡◌, refl, ap, sym, ◌∙◌, true, Option, none, some, inl, inr,
  List, [], ◌∷◌, ◌++◌, append-nil, append_assoc, arith, length, length-append, leb, Bool-cases,
}
use mathlib.Core.Option.{or_else}
use mathlib.Core.Path.{fun_ext, subst}
use sample_kv.Key.{Bytes, key_funcs}
use sample_kv.Hash
use sample_kv.Hash.{Table, Chain, same, find, get, foreach}
use sample_kv.Hash.Chain.{Distinct, eq_of_same, same_refl}
use sample_kv.Hash.View.{visit, foreach-visit}
use sample_kv.Hash.Methods.{IsValid, set_kv-Writes}
use sample_kv.Recovery.{fputs, overlay}
use sample_kv.Recovery.Format.{c_str-IsRow}
use sample_kv.Recovery.Redo.{Store, load_snapshot}
use sample_kv.Recovery.Redo.Replay.{
  Map, put, Reads, Writes-Reads, Reads-IsSmall, empty_map, create-Reads,
}
use sample_kv.Snapshot.{snapshot_line, hashtable_foreach, write_snapshot}

abbrev pub AllPairs : List (Bytes × Bytes) → Type 0
AllPairs [] = Unit
AllPairs ((k, v) ∷ es) = IsPair k v × AllPairs es

-- The snapshot file of a list of pairs.
pub file_of : List (Bytes × Bytes) → Bytes
file_of [] = []
file_of ((k, v) ∷ es) = snapshot_line k v ++ file_of es

visit-file_of :
    (es : List (Bytes × Bytes)) (file : Bytes)
    → AllPairs es
    → visit hashtable_foreach es (some file) ≡ some (file ++ file_of es)
unfolding visit file_of hashtable_foreach fputs
visit-file_of [] file h = ap some (sym (append-nil file))
visit-file_of ((k, v) ∷ es) file h =
    let len : leb (length (snapshot_line k v) + 1) 128 ≡ true =
      ground (arith, length-snapshot_line k v, h.0.fits) in
    rw (len, c_str-IsRow (snapshot_line-IsRow h.0))
      (visit-file_of es (file ++ snapshot_line k v) h.1
        ∙ ap some (append_assoc file (snapshot_line k v) (file_of es)))

-- The map behind the pairs, one after the other.
put_all : List (Bytes × Bytes) → Map → Map
put_all [] m = m
put_all ((k, v) ∷ es) m = put_all es (put m k (some v))

put_all-find :
    (es : List (Bytes × Bytes)) (m : Map) (q : Bytes)
    → Distinct es
    → put_all es m q ≡ or_else (find q es) (m q)
unfolding put_all find or_else
put_all-find [] m q d = refl
put_all-find ((k, v) ∷ es) m q d =
    put_all-find es (put m k (some v)) q d.1 ∙ elim (Bool-cases (same k q)) [
      | inl s ↦ rw (s, sym (eq_of_same k q s), d.0) refl
      | inr s ↦ rw s refl
    ]

-- No key of the pairs is there yet.
abbrev Fresh : List (Bytes × Bytes) → Map → Type 0
Fresh es m = (q v : Bytes) → find q es ≡ some v → m q ≡ none

Fresh-tail :
    (k v : Bytes) (es : List (Bytes × Bytes)) (m : Map)
    → Distinct ((k, v) ∷ es)
    → Fresh ((k, v) ∷ es) m
    → Fresh es (put m k (some v))
unfolding find
Fresh-tail k v es m d h q w e = elim (Bool-cases (same k q)) [
  | inl s ↦ absurd (let bad : none ≡ some w = sym d.0 ∙ rw (sym (eq_of_same k q s)) at e in cc)
  | inr s ↦ rw s (h q w (rw s e))
]

load_snapshot-Reads :
    (es : List (Bytes × Bytes)) (fuel : ℕ) (buf : Bytes) {n : ℕ} {ht : Store} {m : Map}
    → AllPairs es
    → Distinct es
    → Fresh es m
    → Reads n ht m
    → n + length es < 2 ^ 32
    → length es < fuel
    → (r : Store) × (load_snapshot fuel (file_of es) buf ht ≡ some r)
      × Reads (n + length es) r (put_all es m)
unfolding file_of put_all
load_snapshot-Reads es zero buf h d f reads room le = absurd (omega arith)
load_snapshot-Reads [] (suc fuel) buf {n} {ht} {m} h d f reads room le =
    let e : n ≡ n + 0 = omega arith in
    (ht, (unfold load_snapshot in refl), subst (λ (x : ℕ). Reads x ht m) e reads)
load_snapshot-Reads ((k, v) ∷ es) (suc fuel) buf {n} {ht} {m} h d f reads room le =
    let w = set_kv-Writes ht reads.valid (Reads-IsSmall (omega arith) reads) k v in
    let absent : (Hash.set_kv ht k v).0 ≡ none =
      w.returns ∙ reads.view k ∙ f k v (unfold find in rw (same_refl k) refl) in
    let next = Writes-Reads k (some v) _ (Hash.set_kv ht k v).1 reads w in
    let (r, run, done) =
      load_snapshot-Reads es fuel (overlay (snapshot_line k v) buf) h.1 d.1
        (Fresh-tail k v es m d f) next (omega arith) (omega arith) in
    let e : suc n + length es ≡ n + suc (length es) = omega arith in
    (
      r,
      load_row fuel (file_of es) buf ht (snapshot_line-IsRow h.0)
            (omega (arith, length-snapshot_line k v, h.0.fits))
            (load_line-pair k v buf ht h.0 absent)
          ∙ run,
      subst (λ (x : ℕ). Reads x r (put_all es (put m k (some v)))) e done,
    )

length-file_of : (es : List (Bytes × Bytes)) → length es ≤ length (file_of es)
unfolding file_of
length-file_of [] = omega arith
length-file_of ((k, v) ∷ es) = omega (
  arith,
  length-append (snapshot_line k v) (file_of es),
  length-snapshot_line k v,
  length-file_of es,
)

AllPairs-find :
    (es : List (Bytes × Bytes))
    → Distinct es
    → ((q v : Bytes) → find q es ≡ some v → IsPair q v)
    → AllPairs es
unfolding find
AllPairs-find [] d h = tt
AllPairs-find ((k, v) ∷ es) d h = (h k v (rw (same_refl k) refl), AllPairs-find es d.1 rest)
  where
    rest : (q w : Bytes) → find q es ≡ some w → IsPair q w
    rest q w e = elim (Bool-cases (same k q)) [
      | inl s ↦ absurd (let bad : none ≡ some w = sym d.0 ∙ rw (sym (eq_of_same k q s)) at e in cc)
      | inr s ↦ h q w (rw s e)
    ]

-- Every pair of the table has a line that can be written and read back.
abbrev pub IsStorable : Store → Type 0
IsStorable ht = (q v : Bytes) → get ht q ≡ some v → IsPair q v

-- The snapshot of a valid table of such pairs is written without an overrun, and the snapshot loop of
-- `kv_recovery_redo` takes it in without an exit, whatever its array held before: the new table is
-- valid and reads as the old one.
pub load_snapshot-write_snapshot :
    (ht : Store) (buf : Bytes)
    → IsValid ht
    → IsStorable ht
    → ht.count < 2 ^ 32
    → (file : Bytes) × (write_snapshot ht ≡ some file)
      × ((r : Store) × (load_snapshot (length file + 1) file buf (Hash.create 2) ≡ some r)
          × Reads ht.count r (λ q. get ht q))
unfolding write_snapshot
load_snapshot-write_snapshot ht buf valid storable room =
    let (es, run, distinct, reads, len) = foreach-visit ht hashtable_foreach (some []) valid in
    let pairs = AllPairs-find es distinct (λ q v e. storable q v (sym (reads q) ∙ e)) in
    let (r, load, done) =
      load_snapshot-Reads es (length (file_of es) + 1) buf pairs distinct (λ q v e. refl)
        create-Reads (omega (arith, len)) (omega (arith, length-file_of es)) in
    let n : 0 + length es ≡ ht.count = omega (arith, len) in
    let view : put_all es empty_map ≡ (λ q. get ht q) =
      fun_ext (λ q. put_all-find es empty_map q distinct ∙ or_else_none (find q es) ∙ reads q) in
    (
      file_of es,
      run ∙ visit-file_of es [] pairs,
      (
        r,
        load,
        subst (λ (x : ℕ). Reads x r (λ q. get ht q)) n
            (subst (λ (m : Map). Reads (0 + length es) r m) view done),
      ),
    )
  where
    or_else_none : (o : Option Bytes) → or_else o none ≡ o
    or_else_none none = unfold or_else in refl
    or_else_none (some v) = unfold or_else in refl
