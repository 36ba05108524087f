-- ===== src/Recovery/Redo/Replay.antt =====
-- `kv_recovery_redo` of src/kv_recovery.c, without a snapshot, against the map that the entries spell out.
use sample_kv.Prelude.{
  ℕ, zero, suc, ◌+◌, ◌*◌, ◌%◌, ◌^◌, ◌≤◌, ◌<◌, ◌≡◌, refl, ap, sym, ◌∙◌, false, Option, none, some,
  List, [], ◌∷◌, ◌++◌, append_assoc, arith, length, length-append, ◌==◌, if◌then◌else◌,
}
use mathlib.Core.Option
use mathlib.Core.Path.{subst}
use sample_kv.Key.{Bytes, key_funcs}
use sample_kv.Hash
use sample_kv.Hash.{Table, same, get, set_kv, del}
use sample_kv.Hash.Methods.{
  IsValid, create-IsValid, get-create, IsSmall, Writes, set_kv-Writes, del-Writes, present,
}
use sample_kv.Recovery.{LogLine, get_log}
use sample_kv.Recovery.Entries.{
  Entry, started, committed, aborted, ended, updated, compensated, checked, struct_of, AllEntries,
  render, line_of,
}
use sample_kv.Recovery.Format.{line_of-IsRow}
use sample_kv.Recovery.Search.{
  entry_at, entry_at-append, entry_at_end, get_log-render, length-IsRow,
}
use sample_kv.Recovery.Redo.{Store, redo_line, redo_loop, redo}

-- What a client can see of a store.
abbrev pub Map : Type 0
Map = Bytes → Option Bytes

-- A key with a new value, where the empty value stands for none.
abbrev pub written : Bytes → Option Bytes
written [] = none
written (c ∷ cs) = some (c ∷ cs)

abbrev pub put : Map → Bytes → Option Bytes → Map
put m k o q = if same k q then o else m q

-- The effect of an entry on the map.
unfoldable pub effect : Entry → Map → Map
effect (updated prev tx k old_val new_val) m = put m k (written new_val)
effect (compensated prev tx undo k old_val new_val) m = put m k (written new_val)
effect (started prev tx) m = m
effect (committed prev tx) m = m
effect (aborted prev tx) m = m
effect (ended prev tx) m = m
effect (checked txs) m = m

unfoldable pub replay : List Entry → Map → Map
replay [] m = m
replay (e ∷ es) m = replay es (effect e m)

-- The store reads as the map, and its size and counter are bounded by the number `n` of writes.
pub record Reads (n : ℕ) (ht : Store) (m : Map) : Type 0 where
  pub valid : IsValid ht
  pub view : (q : Bytes) → get ht q ≡ m q
  pub few : ht.count ≤ n
  pub small : ht.size ≤ 2 + 2 * n

pub Writes-Reads :
    {n : ℕ} {ht : Store} {m : Map} (k : Bytes) (o old : Option Bytes) (r : Store)
    → Reads n ht m
    → Writes ht k o old r
    → Reads (suc n) r (put m k o)
Writes-Reads {n} {ht} {m} k o old r h w = record {
  valid = w.valid;
  view = λ q. w.reads q ∙ ap (λ x. if same k q then o else x) (h.view q);
  few = omega (arith, w.count, h.few, present-le o);
  small = omega (arith, w.size, h.few, h.small);
}
  where
    present-le : (x : Option Bytes) → present x ≤ 1
    present-le none = omega arith
    present-le (some v) = omega arith

pub Reads-suc : {n : ℕ} {ht : Store} {m : Map} → Reads n ht m → Reads (suc n) ht m
Reads-suc h = record {
  valid = h.valid;
  view = h.view;
  few = omega (arith, h.few);
  small = omega (arith, h.small);
}

pub Reads-le : {n k : ℕ} {ht : Store} {m : Map} → n ≤ k → Reads n ht m → Reads k ht m
Reads-le le h = record {
  valid = h.valid;
  view = h.view;
  few = omega (arith, h.few, le);
  small = omega (arith, h.small, le);
}

pub Reads-IsSmall : {n : ℕ} {ht : Store} {m : Map} → n < 2 ^ 32 → Reads n ht m → IsSmall ht
Reads-IsSmall lt h = omega (arith, h.small)

-- One line of the log.
data_line-Reads :
    {n : ℕ} {ht : Store} {m : Map} (k v : Bytes)
    → n < 2 ^ 32
    → Reads n ht m
    → Reads
        (suc n)
        (if length v == 0 then (del ht k).1 else (set_kv ht k v).1)
        (put m k (written v))
data_line-Reads {ht = ht} k [] lt h =
    Writes-Reads k none _ _ h (del-Writes ht h.valid (Reads-IsSmall lt h) k).1
data_line-Reads {ht = ht} k (c ∷ v) lt h =
    rw (nonzero (length v))
      (Writes-Reads k _ _ _ h (set_kv-Writes ht h.valid (Reads-IsSmall lt h) k (c ∷ v)))
  where
    nonzero : (x : ℕ) → suc x == 0 ≡ false
    nonzero x = ground arith

redo_line-Reads :
    {n : ℕ} {ht : Store} {m : Map} (lsn : ℕ) (e : Entry)
    → n < 2 ^ 32
    → Reads n ht m
    → Reads (suc n) (redo_line (struct_of lsn e) ht) (effect e m)
unfolding redo_line effect
redo_line-Reads lsn (updated prev tx k old_val new_val) lt h = data_line-Reads k new_val lt h
redo_line-Reads lsn (compensated prev tx undo k old_val new_val) lt h =
    data_line-Reads k new_val lt h
redo_line-Reads lsn (started prev tx) lt h = Reads-suc h
redo_line-Reads lsn (committed prev tx) lt h = Reads-suc h
redo_line-Reads lsn (aborted prev tx) lt h = Reads-suc h
redo_line-Reads lsn (ended prev tx) lt h = Reads-suc h
redo_line-Reads lsn (checked txs) lt h = Reads-suc h

module _ (fuel : ℕ) (stack file : Bytes) (lsn next : ℕ) (ht : Store)
    (e : (lsn + 1) % 2 ^ 32 ≡ next) where
  redo_stop : get_log stack file next ≡ none → redo_loop (suc fuel) stack file lsn ht ≡ some ht
  unfolding redo_loop
  redo_stop h = rw (e, redo_loop, h)

  redo_step :
      (l : LogLine)
      → get_log stack file next ≡ some l
      → redo_loop (suc fuel) stack file lsn ht ≡ redo_loop fuel stack file next (redo_line l ht)
  unfolding redo_loop
  redo_step l h =
      rw (e, redo_loop, h) (ap (λ (x : ℕ). redo_loop fuel stack file x (redo_line l ht)) e)

-- The loop behind the entries `front`, with more fuel than there are entries left.
pub redo_loop-Reads :
    (stack : Bytes) (rest front all : List Entry) (fuel lsn : ℕ) {n : ℕ} {ht : Store} {m : Map}
    → all ≡ front ++ rest
    → AllEntries all
    → suc (length all) < 2 ^ 32
    → lsn ≡ length front
    → length rest < fuel
    → n + length rest < 2 ^ 32
    → Reads n ht m
    → (r : Store) × (redo_loop fuel stack (render 0 all) lsn ht ≡ some r)
      × Reads (n + length rest) r (replay rest m)
unfolding replay
redo_loop-Reads stack rest front all zero lsn e h small at le room reads = absurd (omega arith)
redo_loop-Reads stack [] front all (suc fuel) lsn {n} {ht} {m} e h small at le room reads = (
  ht,
  redo_stop fuel stack (render 0 all) lsn (suc (length front)) ht next
      (get_log-render stack all (length front) h (omega arith) ∙ ap (Option.map _) found),
  subst (λ (x : ℕ). Reads x ht m) same_n reads,
)
  where
    found : entry_at all (length front) ≡ none
    found = rw e (entry_at_end front)

    next : (lsn + 1) % 2 ^ 32 ≡ suc (length front)
    next = omega (arith, ap length e, length-append front [])

    same_n : n ≡ n + 0
    same_n = omega arith
redo_loop-Reads stack (x ∷ rest) front all (suc fuel) lsn {n} {ht} {m} e h small at le room reads =
    let (r, run, done) =
      redo_loop-Reads stack rest (front ++ x ∷ []) all fuel (suc (length front))
        (e ∙ sym (append_assoc front (x ∷ []) rest)) h small
        (omega (arith, length-append front (x ∷ []))) (omega arith) (omega arith)
        (redo_line-Reads (suc (length front)) x (omega arith) reads) in
    (
      r,
      redo_step fuel stack (render 0 all) lsn (suc (length front)) ht next
            (struct_of (suc (length front)) x)
            (get_log-render stack all (length front) h (omega arith) ∙ ap (Option.map _) found)
          ∙ run,
      subst (λ (k : ℕ). Reads k r (replay rest (effect x m))) same_n done,
    )
  where
    found : entry_at all (length front) ≡ some x
    found = rw e (entry_at-append front rest x)

    next : (lsn + 1) % 2 ^ 32 ≡ suc (length front)
    next = omega (arith, ap length e, length-append front (x ∷ rest))

    same_n : suc n + length rest ≡ n + suc (length rest)
    same_n = omega arith

abbrev pub empty_map : Map
empty_map q = none

-- The table of `kv_ht_create` reads as the empty map.
pub create-Reads : Reads 0 (Hash.create 2) empty_map
unfolding Hash.create
create-Reads = record {
  valid = create-IsValid 2 (omega arith);
  view = λ q. get-create 2 q;
  few = omega arith;
  small = omega arith;
}

pub length-render : (n : ℕ) (es : List Entry) → AllEntries es → length es ≤ length (render n es)
unfolding render
length-render n [] h = omega arith
length-render n (e ∷ es) h = omega (
  arith,
  length-append (line_of (suc n) e) (render (suc n) es),
  length-IsRow (line_of-IsRow (suc n) e h.0),
  length-render (suc n) es h.1,
)

-- With a log of the lines of `es` and no snapshot, `kv_recovery_redo` ends, whatever the arrays held
-- before, with a valid table that reads as the replay of `es` on the empty map.
pub redo-replay :
    (stack : Bytes) (snapshot : Bytes → Option Bytes) (es : List Entry)
    → AllEntries es
    → suc (length es) < 2 ^ 32
    → (r : Store) × (redo stack
          (record { last_checked_lsn = none; recovery = render 0 es; snapshot = snapshot })
          (Hash.create 2)
        ≡ some r)
      × IsValid r
      × ((q : Bytes) → get r q ≡ replay es (λ _. none) q)
unfolding redo
redo-replay stack snapshot es h small =
    let (r, run, done) =
      redo_loop-Reads stack es [] es (length (render 0 es) + 1) 0 refl h small refl
        (omega (arith, length-render 0 es h)) (omega arith) create-Reads in
    (r, run, done.valid, done.view)
