-- ===== src/Command/Session/Access.antt =====
-- The writes of `set` and `del` (src/kv_command.c) in a transaction: the table, the log and the changes.
use sample_kv.Prelude.{
  suc, ◌+◌, ◌^◌, ◌≤◌, ◌<◌, ◌≡◌, refl, ap, sym, ◌∙◌, Bool-cases, inl, inr, Option, none, some, List,
  [], ◌∷◌, ◌++◌, arith, length, length-append,
}
use mathlib.Core.Path.{fun_ext, subst}
use sample_kv.Key.{Bytes, key_funcs}
use sample_kv.Hash
use sample_kv.Hash.{get, same}
use sample_kv.Hash.Chain.{eq_of_same}
use sample_kv.Hash.Methods.{Writes, set_kv-Writes, del-Writes}
use sample_kv.Recovery.Entries.{Entry, updated, IsShort, IsData, IsWord, nil}
use sample_kv.Recovery.Search.{entry_at, entry_at-append}
use sample_kv.Recovery.{Log}
use sample_kv.Recovery.Write.{Holds, update_log-Wrote}
use sample_kv.Recovery.Redo.{Store}
use sample_kv.Recovery.Redo.Replay.{Map, Writes-Reads, Reads-IsSmall, effect, written, put}
use sample_kv.Transaction.{State, set_last_lsn}
use sample_kv.Transaction.Durable.{Durable, step-Durable}
use sample_kv.Transaction.Chain.{Change, TxChain, change, undo, TxChain-more}
use sample_kv.Command.Session.{bytes_of, write_set, write_del}

-- A value that the table may hold: short text that is not empty.
pub record IsStored (v : Bytes) : Type 0 where
  pub short : IsShort v
  pub some_bytes : 0 < length v

abbrev pub AllStored : Store → Type 0
AllStored ht = (q v : Bytes) → get ht q ≡ some v → IsStored v

-- A transaction in progress: its changes `cs` lead back from the table to `base`.
pub record Active (t : State) (es : List Entry) (cs : List Change) (base : Map) : Type 0 where
  pub durable : Durable t.ht t.log es
  pub chain : TxChain es t.tx.last_lsn cs
  pub last : t.tx.last_lsn ≤ length es
  pub id : IsWord t.tx.id
  pub stored : AllStored t.ht
  pub undoes : (q : Bytes) → undo cs (λ k. get t.ht k) q ≡ base q

empty-IsShort : IsShort []
empty-IsShort = record { text = nil; short = omega arith }

bytes_of-IsShort : (ht : Store) (k : Bytes) → AllStored ht → IsShort (bytes_of (get ht k))
bytes_of-IsShort ht k h = go (get ht k) refl
  where
    go : (o : Option Bytes) → get ht k ≡ o → IsShort (bytes_of o)
    go none e = empty-IsShort
    go (some v) e = (h k v e).short

-- The stored value comes back from what the log holds of it.
pub written-bytes_of :
    (ht : Store) (k : Bytes) → AllStored ht → written (bytes_of (get ht k)) ≡ get ht k
written-bytes_of ht k h = go (get ht k) refl
  where
    go : (o : Option Bytes) → get ht k ≡ o → written (bytes_of o) ≡ o
    go none e = refl
    go (some []) e = absurd (omega (arith, (h k [] e).some_bytes))
    go (some (c ∷ v)) e = refl

written-fits : (v : Bytes) → IsStored v → (x : Bytes) → written v ≡ some x → IsStored x
written-fits [] h x e = absurd (omega (arith, h.some_bytes))
written-fits (c ∷ v) h x e = subst (λ (y : Bytes). IsStored y) (ap bytes_of e) h

pub written-IsStored : (v : Bytes) → IsStored v → written v ≡ some v
written-IsStored [] h = absurd (omega (arith, h.some_bytes))
written-IsStored (c ∷ v) h = refl

-- A write and its undoing leave the map as it was.
put-put : (m : Map) (k : Bytes) (o : Option Bytes) (q : Bytes) → put (put m k o) k (m k) q ≡ m q
put-put m k o q = elim (Bool-cases (same k q)) [ inl s ↦ rw (s, eq_of_same k q s) | inr s ↦ rw s ]

pub last-append : (es : List Entry) (e : Entry) → entry_at (es ++ e ∷ []) (length es) ≡ some e
last-append es e = entry_at-append es [] e

-- The state after the write `o` under the key `k`, whose UPDATE line has the value `v`.
module _ {t : State} {es : List Entry} {cs : List Change} {base : Map} (a : Active t es cs base)
    (room : suc (length es) < 2 ^ 32) (k v : Bytes) (short_key : IsShort k) (short_val : IsShort v)
    (old : Option Bytes) (ht' : Store) (w : Writes t.ht k (written v) old ht')
    (fits : (x : Bytes) → written v ≡ some x → IsStored x)
    (told : 0 < length (bytes_of (get t.ht k)) + length v) where
  abbrev entry : Entry
  entry = updated t.tx.last_lsn t.tx.id k (bytes_of (get t.ht k)) v

  abbrev the_change : Change
  the_change = record { key = k; old_val = bytes_of (get t.ht k); new_val = v }

  stored-write : AllStored ht'
  stored-write q x h = elim (Bool-cases (same k q)) [
    | inl s ↦ fits x (rw s at (sym (w.reads q)) ∙ h)
    | inr s ↦ a.stored q x (rw s at (sym (w.reads q)) ∙ h)
  ]

  logged-IsData : IsData k (bytes_of (get t.ht k)) v
  logged-IsData = record {
    key = short_key;
    old = bytes_of-IsShort t.ht k a.stored;
    new = short_val;
  }

  before : (q : Bytes) → put (λ x. get ht' x) k (written (bytes_of (get t.ht k))) q ≡ get t.ht q
  before q = elim (Bool-cases (same k q)) [
    | inl s ↦ rw (s, written-bytes_of t.ht k a.stored, eq_of_same k q s)
    | inr s ↦ rw s (rw s at (w.reads q))
  ]

  undoes-write : (q : Bytes) → undo (the_change ∷ cs) (λ x. get ht' x) q ≡ base q
  unfolding undo
  undoes-write q = ap (λ m. undo cs m q) (fun_ext before) ∙ a.undoes q

  next_state : Log → State
  next_state log' = record { tx = set_last_lsn t.tx (suc (length es)); ht = ht'; log = log' }

  write-Active :
      (log' : Log)
      → Holds log' (es ++ entry ∷ [])
      → Active
          (record { tx = set_last_lsn t.tx (suc (length es)); ht = ht'; log = log' })
          (es ++ entry ∷ [])
          (the_change ∷ cs)
          base
  unfolding effect
  write-Active log' holds = record {
    durable = step-Durable es entry holds (Writes-Reads k (written v) old ht' a.durable.reads w);
    chain = change (last-append es entry) a.last told (TxChain-more (entry ∷ []) a.chain);
    last = omega (arith, length-append es (entry ∷ []));
    id = a.id;
    stored = stored-write;
    undoes = undoes-write;
  }

pub record Written (t : State) (es : List Entry) (cs : List Change) (base : Map) (k v : Bytes)
    (r : Option State) : Type 0 where
  pub after : State
  pub runs : r ≡ some after
  pub reads : (q : Bytes) → get after.ht q ≡ put (λ x. get t.ht x) k (written v) q
  pub same_id : after.tx.id ≡ t.tx.id
  pub same_locks : after.tx.locks ≡ t.tx.locks
  pub active :
      Active after
        (es ++ updated t.tx.last_lsn t.tx.id k (bytes_of (get t.ht k)) v ∷ [])
        (record { key = k; old_val = bytes_of (get t.ht k); new_val = v } ∷ cs)
        base

-- `set` in a transaction: an UPDATE line with the value before, and the new value under the key, and
-- under no other; the transaction can still be undone.
pub write_set-Active :
    (t : State) (es : List Entry) (cs : List Change) (base : Map)
    → Active t es cs base
    → suc (length es) < 2 ^ 32
    → (k v : Bytes) → IsShort k
    → IsStored v
    → Written t es cs base k v (write_set k v t)
unfolding write_set
write_set-Active t es cs base a room k [] sk sv = absurd (omega (arith, sv.some_bytes))
write_set-Active t es cs base a room k (c ∷ v) sk sv =
    let w =
      set_kv-Writes t.ht a.durable.reads.valid (Reads-IsSmall a.durable.logged.room a.durable.reads)
        k (c ∷ v) in
    let d : IsData k (bytes_of (get t.ht k)) (c ∷ v) = record {
      key = sk;
      old = bytes_of-IsShort t.ht k a.stored;
      new = sv.short;
    } in
    let u =
      update_log-Wrote a.durable.logged room t.tx.last_lsn t.tx.id k (bytes_of (get t.ht k)) (c ∷ v)
        (omega (arith, a.last)) a.id d in
    record {
      after = record {
        tx = set_last_lsn t.tx (suc (length es));
        ht = (Hash.set_kv t.ht k (c ∷ v)).1;
        log = u.log_after;
      };
      runs = rw (write_set, u.runs) refl;
      reads = w.reads;
      same_id = refl;
      same_locks = refl;
      active =
          write-Active a room k (c ∷ v) sk sv.short _ _ w (written-fits (c ∷ v) sv) (omega arith)
            u.log_after u.holds;
    }

-- `del` of a key that is there, in a transaction.
pub write_del-Active :
    (t : State) (es : List Entry) (cs : List Change) (base : Map)
    → Active t es cs base
    → suc (length es) < 2 ^ 32
    → (k old : Bytes) → IsShort k
    → get t.ht k ≡ some old
    → Written t es cs base k [] (write_del k old t)
unfolding write_del
write_del-Active t es cs base a room k old sk found =
    let w =
      (del-Writes t.ht a.durable.reads.valid (Reads-IsSmall a.durable.logged.room a.durable.reads)
        k).1 in
    let here : bytes_of (get t.ht k) ≡ old = ap bytes_of found in
    let d : IsData k (bytes_of (get t.ht k)) [] = record {
      key = sk;
      old = bytes_of-IsShort t.ht k a.stored;
      new = empty-IsShort;
    } in
    let u =
      update_log-Wrote a.durable.logged room t.tx.last_lsn t.tx.id k (bytes_of (get t.ht k)) []
        (omega (arith, a.last)) a.id d in
    record {
      after = record {
        tx = set_last_lsn t.tx (suc (length es));
        ht = (Hash.del t.ht k).1;
        log = u.log_after;
      };
      runs = rw (write_del, sym here, u.runs) refl;
      reads = w.reads;
      same_id = refl;
      same_locks = refl;
      active =
          write-Active a room k [] sk empty-IsShort _ _ w (λ x e. cc)
            (omega (arith, ap length here, (a.stored k old found).some_bytes)) u.log_after u.holds;
    }
