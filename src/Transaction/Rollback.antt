-- ===== src/Transaction/Rollback.antt =====
-- `kv_tx_rollback` of src/transaction.c against the changes of a transaction.
use sample_kv.Prelude.{
  ℕ, zero, suc, ◌+◌, ◌^◌, ◌≤◌, ◌<◌, ◌≡◌, refl, ap, sym, ◌∙◌, false, Option, none, some, List, [],
  ◌∷◌, ◌++◌, append-nil, append_assoc, arith, length, length-append, ◌==◌,
}
use mathlib.Core.Option
use mathlib.Core.Path.{fun_ext, subst}
use sample_kv.Key.{Bytes, key_funcs}
use sample_kv.Hash
use sample_kv.Hash.{get}
use sample_kv.Hash.Methods.{set_kv-Writes, del-Writes}
use sample_kv.Recovery.{Log, LogLine, get_log}
use sample_kv.Recovery.Entries.{
  Entry, started, aborted, ended, updated, compensated, struct_of, IsWord, IsData,
}
use sample_kv.Recovery.Search.{entry_at, get_log-render, entry-IsEntry}
use sample_kv.Recovery.Write.{clr_log-Wrote, plain_log-ended}
use sample_kv.Recovery.Redo.{Store}
use sample_kv.Recovery.Redo.Replay.{
  Map, Reads, Writes-Reads, Reads-IsSmall, Reads-suc, replay, effect, written, put, empty_map,
}
use sample_kv.Transaction.{State, set_last_lsn, undo_line, rollback_loop, rollback, finish, clr}
use sample_kv.Transaction.Durable.{Durable, step-Durable, replay-append}
use sample_kv.Transaction.Chain.{Change, TxChain, start, change, skip, undo, TxChain-more}

-- `kv_recovery_get_log` on the log of a durable state.
pub read_log :
    {ht : Store} {log : Log} {es : List Entry} (stack : Bytes) (i : ℕ) {e : Entry}
    → Durable ht log es
    → entry_at es i ≡ some e
    → get_log stack log.recovery_file (suc i) ≡ some (struct_of (suc i) e)
read_log {es = es} stack i d found =
    rw d.logged.file
      (get_log-render stack es i d.logged.entries d.logged.room ∙ ap (Option.map _) found)

-- The state after a CLR line that restores the old value of a change.
record Undone (s : State) (es : List Entry) (prev : ℕ) (c : Change) (r : Option State)
    : Type 0 where
  pub after : State
  pub runs : r ≡ some after
  pub id : after.tx.id ≡ s.tx.id
  pub locks : after.tx.locks ≡ s.tx.locks
  pub last_lsn : after.tx.last_lsn ≡ suc (length es)
  pub durable :
      Durable after.ht after.log
        (es ++ compensated s.tx.last_lsn s.tx.id prev c.key c.new_val c.old_val ∷ [])

module _ (s : State) (es : List Entry) (d : Durable s.ht s.log es) (room : suc (length es) < 2 ^ 32)
    (word_last : IsWord s.tx.last_lsn) (word_id : IsWord s.tx.id) where
  swap-IsData : {k o n : Bytes} → IsData k o n → IsData k n o
  swap-IsData h = record { key = h.key; old = h.new; new = h.old }

  -- The CLR line, and a table that does what it says.
  logged :
      (l : LogLine) (o n : Bytes) (ht' : Store)
      → IsWord l.prev_lsn
      → IsData l.key o n
      → Reads (suc (length es)) ht' (put (replay es empty_map) l.key (written o))
      → (log' : Log) × (clr l n o s
          ≡ some (record s { tx = set_last_lsn s.tx (suc (length es)); log = log' }))
        × Durable ht' log' (es ++ compensated s.tx.last_lsn s.tx.id l.prev_lsn l.key n o ∷ [])
  unfolding clr effect
  logged l o n ht' word_prev h reads =
      let w =
        clr_log-Wrote d.logged room s.tx.last_lsn s.tx.id l.prev_lsn l.key n o word_last word_id
          word_prev (swap-IsData h) in
      (w.log_after, rw (w.runs, clr), step-Durable es _ w.holds reads)

  nonzero : (x : ℕ) → suc x == 0 ≡ false
  nonzero x = ground arith

  undo_line-Undone :
      (lsn prev tx : ℕ) (k o n : Bytes)
      → IsWord prev
      → IsData k o n
      → 0 < length o + length n
      → Undone s es prev
          (record { key = k; old_val = o; new_val = n })
          (undo_line (struct_of lsn (updated prev tx k o n)) s)
  unfolding undo_line
  undo_line-Undone lsn prev tx k [] [] word_prev h some_val = absurd (omega arith)
  undo_line-Undone lsn prev tx k [] (x ∷ n) word_prev h some_val =
      let l = struct_of lsn (updated prev tx k [] (x ∷ n)) in
      let reads =
        Writes-Reads k none _ (Hash.del s.ht k).1 d.reads
          (del-Writes s.ht d.reads.valid (Reads-IsSmall d.logged.room d.reads) k).1 in
      let (log', run, durable) = logged l [] (x ∷ n) (Hash.del s.ht k).1 word_prev h reads in
      record {
        after = record {
          tx = set_last_lsn s.tx (suc (length es));
          ht = (Hash.del s.ht k).1;
          log = log';
        };
        runs = rw (nonzero (length n), run);
        id = refl;
        locks = refl;
        last_lsn = refl;
        durable = durable;
      }
  undo_line-Undone lsn prev tx k (y ∷ o) n word_prev h some_val =
      let l = struct_of lsn (updated prev tx k (y ∷ o) n) in
      let reads =
        Writes-Reads k (some (y ∷ o)) _ (Hash.set_kv s.ht k (y ∷ o)).1 d.reads
          (set_kv-Writes s.ht d.reads.valid (Reads-IsSmall d.logged.room d.reads) k (y ∷ o)) in
      let (log', run, durable) =
        logged l (y ∷ o) n (Hash.set_kv s.ht k (y ∷ o)).1 word_prev h reads in
      record {
        after = record {
          tx = set_last_lsn s.tx (suc (length es));
          ht = (Hash.set_kv s.ht k (y ∷ o)).1;
          log = log';
        };
        runs = rw (nonzero (length o), run);
        id = refl;
        locks = refl;
        last_lsn = refl;
        durable = durable;
      }

-- A state in which the changes `cs` are undone; `entries` is the log then.
pub record Rolled (s : State) (es : List Entry) (cs : List Change) (r : Option State) : Type 0 where
  pub after : State
  pub entries : List Entry
  pub ext : List Entry
  pub grows : entries ≡ es ++ ext
  pub runs : r ≡ some after
  pub id : after.tx.id ≡ s.tx.id
  pub locks : after.tx.locks ≡ s.tx.locks
  pub last_lsn : after.tx.last_lsn ≤ length entries
  pub durable : Durable after.ht after.log entries
  pub restored : (q : Bytes) → replay entries empty_map q ≡ undo cs (replay es empty_map) q
  pub few : length entries ≤ length es + length cs

module _ (fuel : ℕ) (stack : Bytes) (i : ℕ) (s : State) {es : List Entry}
    (d : Durable s.ht s.log es) where
  loop_stop :
      {prev tx : ℕ}
      → entry_at es i ≡ some (started prev tx)
      → rollback_loop (suc fuel) stack (suc i) s ≡ some s
  unfolding rollback_loop
  loop_stop found = rw (read_log stack i d found, rollback_loop)

  loop_skip :
      {prev tx : ℕ}
      → entry_at es i ≡ some (aborted prev tx)
      → rollback_loop (suc fuel) stack (suc i) s ≡ rollback_loop fuel stack prev s
  unfolding rollback_loop
  loop_skip found = rw (read_log stack i d found, rollback_loop)

  loop_undo :
      {prev tx : ℕ} {k o n : Bytes} (s' : State)
      → entry_at es i ≡ some (updated prev tx k o n)
      → undo_line (struct_of (suc i) (updated prev tx k o n)) s ≡ some s'
      → rollback_loop (suc fuel) stack (suc i) s ≡ rollback_loop fuel stack prev s'
  unfolding rollback_loop
  loop_undo s' found run = rw (read_log stack i d found, rollback_loop, run)

rollback_loop-Rolled :
    (fuel : ℕ) (stack : Bytes) (s : State) (es : List Entry) (lsn : ℕ) (cs : List Change)
    → Durable s.ht s.log es
    → TxChain es lsn cs
    → lsn ≤ fuel
    → length es + length cs < 2 ^ 32
    → s.tx.last_lsn ≤ length es
    → IsWord s.tx.id
    → Rolled s es cs (rollback_loop fuel stack lsn s)
unfolding undo
rollback_loop-Rolled zero stack s es lsn cs d (start h) le room last id = absurd (omega arith)
rollback_loop-Rolled zero stack s es lsn cs d (change h p v c) le room last id =
    absurd (omega arith)
rollback_loop-Rolled zero stack s es lsn cs d (skip h p c) le room last id = absurd (omega arith)
rollback_loop-Rolled (suc fuel) stack s es lsn cs d (start {i} found) le room last id = record {
  after = s;
  entries = es;
  ext = [];
  grows = sym (append-nil es);
  runs = loop_stop fuel stack i s d found;
  id = refl;
  locks = refl;
  last_lsn = last;
  durable = d;
  restored = λ q. refl;
  few = omega arith;
}
rollback_loop-Rolled (suc fuel) stack s es lsn cs d (skip {i} {prev} found p chain) le room last
      id =
    let r = rollback_loop-Rolled fuel stack s es prev cs d chain (omega arith) room last id in
    record {
      after = r.after;
      entries = r.entries;
      ext = r.ext;
      grows = r.grows;
      runs = loop_skip fuel stack i s d found ∙ r.runs;
      id = r.id;
      locks = r.locks;
      last_lsn = r.last_lsn;
      durable = r.durable;
      restored = r.restored;
      few = r.few;
    }
rollback_loop-Rolled (suc fuel) stack s es lsn cs d
      (change {i} {prev} {tx} {c} {cs = cs'} found p some_val chain) le room last id =
    let e = entry-IsEntry es i _ d.logged.entries found in
    let u =
      undo_line-Undone s es d (omega arith) (omega arith) id (suc i) prev tx c.key c.old_val
        c.new_val e.0 e.2 some_val in
    let comp = compensated s.tx.last_lsn s.tx.id prev c.key c.new_val c.old_val in
    let grown = length-append es (comp ∷ []) in
    let r =
      rollback_loop-Rolled fuel stack u.after (es ++ comp ∷ []) prev cs' u.durable
        (TxChain-more (comp ∷ []) chain) (omega arith) (omega (arith, grown))
        (omega (arith, grown, u.last_lsn)) (omega (arith, u.id)) in
    record {
      after = r.after;
      entries = r.entries;
      ext = comp ∷ r.ext;
      grows = r.grows ∙ append_assoc es (comp ∷ []) r.ext;
      runs = loop_undo fuel stack i s d u.after found u.runs ∙ r.runs;
      id = r.id ∙ u.id;
      locks = r.locks ∙ u.locks;
      last_lsn = r.last_lsn;
      durable = r.durable;
      restored = λ q.
          r.restored q
          ∙ ap (λ m. undo cs' m q) (replay-append es comp empty_map ∙ (unfold effect in refl));
      few = omega (arith, r.few, grown);
    }

undo_congr :
    (cs : List Change) (m m' : Map)
    → ((q : Bytes) → m q ≡ m' q)
    → (q : Bytes) → undo cs m q ≡ undo cs m' q
undo_congr cs m m' h q = ap (λ x. undo cs x q) (fun_ext h)

-- The state behind `kv_tx_rollback`, and its log.
pub record RolledBack (s : State) (es : List Entry) (cs : List Change) (r : Option State)
    : Type 0 where
  pub after : State
  pub ext : List Entry
  pub runs : r ≡ some after
  pub reads : (q : Bytes) → get after.ht q ≡ undo cs (λ k. get s.ht k) q
  pub durable : Durable after.ht after.log (es ++ ext)
  pub few : length ext ≤ length cs + 1
  pub locks : after.tx.locks ≡ s.tx.locks
  pub id : after.tx.id ≡ s.tx.id

pub rollback-RolledBack :
    (stack : Bytes) (s : State) (es : List Entry) (cs : List Change)
    → Durable s.ht s.log es
    → TxChain es s.tx.last_lsn cs
    → s.tx.last_lsn ≤ length es
    → length es + length cs + 1 < 2 ^ 32
    → IsWord s.tx.id
    → RolledBack s es cs (rollback stack s)
unfolding rollback
rollback-RolledBack stack s es cs d chain last room id =
    let r =
      rollback_loop-Rolled s.tx.last_lsn stack s es s.tx.last_lsn cs d chain (omega arith)
        (omega arith) last id in
    let room' : suc (length r.entries) < 2 ^ 32 = omega (arith, r.few) in
    let fin = ended r.after.tx.last_lsn r.after.tx.id in
    let ended_at =
      plain_log-ended r.durable.logged room' r.after.tx.last_lsn r.after.tx.id
        (omega (arith, r.last_lsn)) (omega (arith, r.id)) in
    let all = ap (λ l. l ++ fin ∷ []) r.grows ∙ append_assoc es r.ext (fin ∷ []) in
    let count = ap length r.grows in
    record {
      after = finish r.after;
      ext = r.ext ++ fin ∷ [];
      runs = rw r.runs refl;
      reads = λ q.
          r.durable.reads.view q
          ∙ r.restored q
          ∙ undo_congr cs (replay es empty_map) (λ k. get s.ht k) (λ k. sym (d.reads.view k)) q;
      durable =
          subst (λ l. Durable (finish r.after).ht (finish r.after).log l) all
            (step-Durable r.entries fin ended_at.1 (unfold effect in Reads-suc r.durable.reads));
      few = omega (arith, count, length-append es r.ext, length-append r.ext (fin ∷ []), r.few);
      locks = r.locks;
      id = r.id;
    }

-- `kv_tx_rollback`, from a state whose table agrees with its log, along the lines of the transaction,
-- ends: it neither exits nor overruns an array. It keeps the agreement of table and log, and every key
-- has the value before the changes `cs` of the transaction.
pub rollback-restores :
    (stack : Bytes) (s : State) (es : List Entry) (cs : List Change)
    → Durable s.ht s.log es
    → TxChain es s.tx.last_lsn cs
    → s.tx.last_lsn ≤ length es
    → length es + length cs + 1 < 2 ^ 32
    → IsWord s.tx.id
    → (after : State) × (rollback stack s ≡ some after)
      × ((q : Bytes) → get after.ht q ≡ undo cs (λ k. get s.ht k) q)
      × ((fs : List Entry) × Durable after.ht after.log fs
          × (length fs ≤ length es + length cs + 1))
      × (after.tx.locks ≡ s.tx.locks)
      × (after.tx.id ≡ s.tx.id)
rollback-restores stack s es cs d chain last room id =
    let r = rollback-RolledBack stack s es cs d chain last room id in
    (
      r.after,
      r.runs,
      r.reads,
      (es ++ r.ext, r.durable, omega (arith, length-append es r.ext, r.few)),
      r.locks,
      r.id,
    )
