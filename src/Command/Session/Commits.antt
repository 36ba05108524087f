-- ===== src/Command/Session/Commits.antt =====
-- `commit` of src/kv_command.c, with `kv_txm_end_transaction` of src/tx_manager.c.
use sample_kv.Prelude.{ℕ, suc, ◌^◌, ◌<◌, ◌≡◌, refl, List, [], ◌∷◌, ◌++◌, arith, length, ==_refl}
use sample_kv.Key.{Bytes, key_funcs}
use sample_kv.Hash.{get}
use sample_kv.Lock.{unlock_all}
use sample_kv.Recovery.Entries.{Entry, committed}
use sample_kv.Recovery.Write.{plain_log-committed}
use sample_kv.Recovery.Redo.Replay.{Map, Reads-suc, effect}
use sample_kv.Transaction.Durable.{step-Durable}
use sample_kv.Transaction.Chain.{Change}
use sample_kv.Command.Session.{
  Session, done, end_with, committed_state, committed_tx, delete_id, run_commit, commit_transaction,
  end_transaction, transaction_committed,
}
use sample_kv.Command.Session.Invariant.{InTx, Idle}

-- `commit` of a transaction that stands first in the list of open transactions, with room in the log for
-- its line, answers that it is committed. The table reads as before, the log has the COMMIT line of the
-- transaction and agrees with the table, the client has no transaction, its locks are released, and the
-- list is that of the other transactions.
pub run_commit-Idle :
    (self : ℕ) (stack : Bytes) (freed : Bytes → Bytes) (s : Session) (es : List Entry)
    (cs : List Change) (base : Map) (ids : List ℕ)
    → (i : InTx s es cs base) → s.tx_list ≡ i.the_tx.id ∷ ids
    → suc (length es) < 2 ^ 32
    → (s' : Session) × (run_commit self stack freed s ≡ done s' transaction_committed)
      × ((q : Bytes) → get s'.ht q ≡ get s.ht q)
      × Idle s' (es ++ committed i.the_tx.last_lsn i.the_tx.id ∷ [])
      × (s'.lm ≡ unlock_all self s.lm i.the_tx.locks)
      × (s'.tx_list ≡ ids)
unfolding run_commit commit_transaction end_transaction delete_id effect
run_commit-Idle self stack freed s es cs base ids i first room =
    let tx = i.the_tx in
    let a = i.active in
    let w =
      plain_log-committed a.durable.logged room tx.last_lsn tx.id (omega (arith, a.last)) a.id in
    (
      end_with self stack freed (committed_state self stack freed s tx)
          (committed_tx self stack freed s tx) ids,
      rw (run_commit, i.has, commit_transaction, end_transaction, first, ==_refl tx.id) refl,
      (λ q. refl),
      record {
        no_tx = refl;
        durable = step-Durable es _ w.1 (Reads-suc a.durable.reads);
        stored = a.stored;
      },
      refl,
      refl,
    )
