-- ===== src/Command/Session/Invariant.antt =====
-- The states of a client between commands (src/kv_command.c), and `begin` and `abort`.
use sample_kv.Prelude.{
  ℕ, suc, ◌+◌, ◌%◌, ◌^◌, ◌<◌, ◌≡◌, refl, ap, sym, ◌∙◌, none, some, List, [], ◌∷◌, ◌++◌, arith,
  length, length-append, ==_refl,
}
use mathlib.Core.Path.{subst}
use sample_kv.Key.{Bytes, key_funcs}
use sample_kv.Hash.{get}
use sample_kv.Recovery.{Log, LogType, plain_log}
use sample_kv.Recovery.Entries.{Entry, started, aborted}
use sample_kv.Recovery.Write.{Holds, plain_log-started, plain_log-aborted}
use sample_kv.Recovery.Redo.Replay.{Map, Reads-suc, effect}
use sample_kv.Transaction.{Tx, State, set_last_lsn}
use sample_kv.Transaction.Durable.{Durable, step-Durable}
use sample_kv.Transaction.Chain.{Change, TxChain, start, skip, undo, TxChain-more}
use sample_kv.Transaction.Rollback.{rollback-restores}
use sample_kv.Lock.{unlock_all}
use sample_kv.Command.Session.{
  Session, done, begin_transaction, start_new_transaction, run_begin, run_abort, end_transaction,
  end_with, delete_id, replies, transaction_started, transaction_aborted,
}
use sample_kv.Command.Session.Access.{Active, AllStored, last-append}

-- The client has a transaction: its changes `cs` lead back from the table to `base`.
pub record InTx (s : Session) (es : List Entry) (cs : List Change) (base : Map) : Type 0 where
  pub the_tx : Tx
  pub has : s.tx ≡ some the_tx
  pub active : Active (record { tx = the_tx; ht = s.ht; log = s.log }) es cs base

-- The client has no transaction, and the log agrees with the table.
pub record Idle (s : Session) (es : List Entry) : Type 0 where
  pub no_tx : s.tx ≡ none
  pub durable : Durable s.ht s.log es
  pub stored : AllStored s.ht

abbrev pub next_id : Session → ℕ
next_id s = (s.transaction_id + 1) % 2 ^ 32

pub record Begun (s : Session) (es : List Entry) (r : Session × Tx) : Type 0 where
  pub ht : r.0.ht ≡ s.ht
  pub active :
      Active
        (record { tx = r.1; ht = r.0.ht; log = r.0.log })
        (es ++ started 0 (next_id s) ∷ [])
        []
        (λ q. get s.ht q)

pub begin_transaction-Begun :
    (s : Session) (es : List Entry)
    → Durable s.ht s.log es
    → AllStored s.ht
    → suc (length es) < 2 ^ 32
    → Begun s es (begin_transaction s)
unfolding begin_transaction start_new_transaction effect undo
begin_transaction-Begun s es d stored room =
    let w = plain_log-started d.logged room 0 (next_id s) (omega arith) (omega arith) in
    let grown = length-append es (started 0 (next_id s) ∷ []) in
    record {
      ht = refl;
      active = record {
        durable = step-Durable es _ w.1 (Reads-suc d.reads);
        chain =
            subst (λ (n : ℕ). TxChain (es ++ started 0 (next_id s) ∷ []) n []) (sym w.0)
              (start (last-append es _));
        last = omega (arith, w.0, grown);
        id = omega arith;
        stored = stored;
        undoes = λ q. refl;
      };
    }

-- `begin` of a client without a transaction logs a BEGIN line, and answers that the transaction is
-- started; what the table reads as then is what the transaction can be taken back to. The transaction has
-- the next id, and stands behind the others in the list of open transactions. The log has room for the
-- line.
pub run_begin-InTx :
    (self : ℕ) (stack : Bytes) (freed : Bytes → Bytes) (s : Session) (es : List Entry)
    → Idle s es
    → suc (length es) < 2 ^ 32
    → (s' : Session) × (run_begin self stack freed s ≡ done s' transaction_started)
      × ((i' : InTx s' (es ++ started 0 (next_id s) ∷ []) [] (λ q. get s.ht q)) × (i'.the_tx.id
            ≡ next_id s))
      × (s'.tx_list ≡ s.tx_list ++ next_id s ∷ [])
unfolding run_begin begin_transaction start_new_transaction
run_begin-InTx self stack freed s es i room =
    let b = begin_transaction-Begun s es i.durable i.stored room in
    let s' : Session = record (begin_transaction s).0 { tx = some (begin_transaction s).1 } in
    (
      s',
      rw (run_begin, i.no_tx) refl,
      (record { the_tx = (begin_transaction s).1; has = refl; active = b.active }, refl),
      refl,
    )

pub aborted-Active :
    {t : State} {es : List Entry} {cs : List Change} {base : Map}
    → Active t es cs base
    → suc (length es) < 2 ^ 32
    → (r : ℕ × Log) → (r.0 ≡ suc (length es)) × Holds r.1 (es ++ aborted t.tx.last_lsn t.tx.id ∷ [])
    → Active
        (record { tx = set_last_lsn t.tx r.0; ht = t.ht; log = r.1 })
        (es ++ aborted t.tx.last_lsn t.tx.id ∷ [])
        cs
        base
unfolding effect
aborted-Active {t} {es} {cs} a room r w =
    let e = aborted t.tx.last_lsn t.tx.id in
    record {
      durable = step-Durable es e w.1 (Reads-suc a.durable.reads);
      chain =
          subst (λ (n : ℕ). TxChain (es ++ e ∷ []) n cs) (sym w.0)
            (skip (last-append es e) a.last (TxChain-more (e ∷ []) a.chain));
      last = omega (arith, w.0, length-append es (e ∷ []));
      id = a.id;
      stored = a.stored;
      undoes = a.undoes;
    }

-- `abort` of a transaction that stands first in the list of open transactions answers that it is rolled
-- back. The table reads as before the transaction, the log still agrees with it, the client has no
-- transaction, its locks are released, and the list is that of the other transactions. The
-- log has room for the lines.
pub run_abort-restores :
    (self : ℕ) (stack : Bytes) (freed : Bytes → Bytes) (s : Session) (es : List Entry)
    (cs : List Change) (base : Map) (ids : List ℕ)
    → (i : InTx s es cs base) → s.tx_list ≡ i.the_tx.id ∷ ids
    → length es + length cs + 2 < 2 ^ 32
    → (s' : Session) × (run_abort self stack freed s ≡ done s' transaction_aborted)
      × ((q : Bytes) → get s'.ht q ≡ base q)
      × ((fs : List Entry) × Durable s'.ht s'.log fs)
      × (s'.tx ≡ none)
      × (s'.lm ≡ unlock_all self s.lm i.the_tx.locks)
      × (s'.tx_list ≡ ids)
unfolding run_abort delete_id
run_abort-restores self stack freed s es cs base ids i first room =
    let tx = i.the_tx in
    let w =
      plain_log-aborted i.active.durable.logged (omega arith) tx.last_lsn tx.id
        (omega (arith, i.active.last)) i.active.id in
    let a =
      aborted-Active i.active (omega arith) (plain_log LogType.abort s.log tx.last_lsn tx.id) w in
    let (after, run, reads, (fs, durable, _), locks, same_id) =
      rollback-restores stack
        (record {
          tx = set_last_lsn tx (plain_log LogType.abort s.log tx.last_lsn tx.id).0;
          ht = s.ht;
          log = (plain_log LogType.abort s.log tx.last_lsn tx.id).1;
        })
        (es ++ aborted tx.last_lsn tx.id ∷ []) cs a.durable a.chain a.last
        (omega (arith, length-append es (aborted tx.last_lsn tx.id ∷ []))) a.id in
    let s₁ = record s { ht = after.ht; log = after.log } in
    let ends : end_transaction self stack freed s₁ after.tx
        ≡ some (end_with self stack freed s₁ after.tx ids) =
      rw (end_transaction, first, same_id, ==_refl tx.id) refl in
    (
      end_with self stack freed s₁ after.tx ids,
      rw (run_abort, i.has, run) (ap (λ o. replies self stack freed o transaction_aborted) ends),
      (λ q. reads q ∙ a.undoes q),
      (fs, durable),
      refl,
      ap (unlock_all self s.lm) locks,
      refl,
    )
