-- ===== src/Server/Atomic.antt =====
-- A crash in the middle of a transaction that was open at the last CHECK line, and the start behind it
-- (`kv_run_server`, src/kv_server.c).
use sample_kv.Prelude.{
  ℕ, suc, ◌+◌, ◌^◌, ◌≤◌, ◌<◌, ◌≡◌, ◌≢◌, refl, sym, ◌∙◌, some, List, [], ◌∷◌, ◌++◌, arith, length,
  length-append, ==_refl, append-nil, differ, lt→ltb,
}
use mathlib.Core.Path.{subst}
use sample_kv.Key.{Bytes, key_funcs}
use sample_kv.Hash.{get}
use sample_kv.Recovery.{Log, OngoingTx}
use sample_kv.Recovery.Entries.{Entry, updated, checked, IsEntry, IsWord}
use sample_kv.Recovery.Redo.{Store, Files}
use sample_kv.Recovery.Redo.Replay.{Map}
use sample_kv.Recovery.Recover.Scan.{tx_of}
use sample_kv.Recovery.Recover.Course.{follow, goes_on, running}
use sample_kv.Recovery.Recover.Ongoing.{Ongoing, AllOngoing, Away, no_more, and_more}
use sample_kv.Transaction.{State, Tx}
use sample_kv.Transaction.Chain.{Change, TxChain}
use sample_kv.Transaction.Durable.{Durable}
use sample_kv.Command.Session.Access.{Active}
use sample_kv.TxManager.{init, ongoing_transaction_ids}
use sample_kv.Snapshot.{check_snapshot, snapshot_process}
use sample_kv.Snapshot.Load.{IsStorable}
use sample_kv.Snapshot.Checkpoint.{check_snapshot-Durable}
use sample_kv.Server.{Server, run_server}
use sample_kv.Server.Boot.{run_server-restores}

-- Lines behind `lsn`: UPDATE lines of the transaction, whose last LSN goes from `last` to `last'`, and
-- lines of other transactions.
pub data Continues (tx_id : ℕ) : ℕ → ℕ → List Entry → ℕ → Type 0 where
  here : {lsn last : ℕ} → Continues tx_id lsn last [] last
  other :
      {lsn last last' : ℕ} {e : Entry} {es : List Entry}
      → tx_of e ≢ tx_id
      → Continues tx_id (suc lsn) last es last'
      → Continues tx_id lsn last (e ∷ es) last'
  writes :
      {lsn last last' prev : ℕ} {k o n : Bytes} {es : List Entry}
      → Continues tx_id (suc lsn) (suc lsn) es last'
      → Continues tx_id lsn last (updated prev tx_id k o n ∷ es) last'

follow-Continues :
    {tx_id lsn last last' : ℕ} {es : List Entry}
    → Continues tx_id lsn last es last'
    → follow tx_id lsn es (goes_on last) ≡ goes_on last'
unfolding follow
follow-Continues here = refl
follow-Continues {tx_id} (other {e = e} ne c) = rw (differ (tx_of e) tx_id ne) (follow-Continues c)
follow-Continues {tx_id} (writes c) = rw (==_refl tx_id) (follow-Continues c)

-- The transaction in the CHECK line.
abbrev pub listed : Tx → OngoingTx
listed tx = record { tx_id = tx.id; last_lsn = tx.last_lsn }

abbrev pub check_entry : Tx → Entry
check_entry tx = checked (listed tx ∷ [])

ongoing-listed : (tx : Tx) → ongoing_transaction_ids (tx ∷ []) ≡ listed tx ∷ []
unfolding ongoing_transaction_ids
ongoing-listed tx = refl

check_entry-IsEntry : (tx : Tx) → IsWord tx.id → IsWord tx.last_lsn → IsEntry (check_entry tx)
check_entry-IsEntry tx id last = (omega arith, (id, last, tt))

-- The CHECK line with one transaction.
checks :
    (ht : Store) (log : Log) (es : List Entry) (tx : Tx)
    → Durable ht log es
    → suc (length es) < 2 ^ 32
    → IsEntry (check_entry tx)
    → (log' : Log) × (check_snapshot (tx ∷ []) log ≡ some (suc (length es), log'))
      × Durable ht log' (es ++ check_entry tx ∷ [])
checks ht log es tx d room h =
    let same = ongoing-listed tx in
    let (log', run, d') =
      check_snapshot-Durable ht log es (tx ∷ []) d room
        (subst (λ l. IsEntry (checked l)) (sym same) h) in
    (log', run, subst (λ l. Durable ht log' (es ++ checked l ∷ [])) same d')

-- The transaction is to be undone from its last line on.
pub continued-Ongoing :
    (es rest : List Entry) (tx tx' : Tx) {cs : List Change}
    → tx.last_lsn ≤ length es
    → IsWord tx.id
    → Continues tx.id (suc (length es)) tx.last_lsn rest tx'.last_lsn
    → TxChain ((es ++ check_entry tx ∷ []) ++ rest) tx'.last_lsn cs
    → Ongoing ((es ++ check_entry tx ∷ []) ++ rest) (suc (length es)) (listed tx) cs
continued-Ongoing es rest tx tx' {cs} last id c chain =
    let from = lt→ltb tx.last_lsn (suc (length es)) (omega arith) in
    record {
      front = es ++ check_entry tx ∷ [];
      rest = rest;
      split = refl;
      at = rw from (omega (arith, length-append es (check_entry tx ∷ [])));
      id = id;
      fate = rw (from, follow-Continues c) (running refl chain);
    }

none-Away : (tx_id : ℕ) → Away tx_id []
unfolding Away
none-Away tx_id = tt

pub only_one :
    {es : List Entry} {lsn : ℕ} {tx : OngoingTx} {cs : List Change}
    → Ongoing es lsn tx cs
    → AllOngoing es lsn (tx ∷ []) cs
only_one {es} {lsn} {tx} {cs} o =
    subst (AllOngoing es lsn (tx ∷ [])) (append-nil cs) (and_more o (none-Away tx.tx_id) no_more)

module _ (stack redo_stack id_stack tx_id_file : Bytes) (id : ℕ)
    (counter : init id_stack tx_id_file ≡ some id) where
  -- At a CHECK line a transaction is open, with its BEGIN line in the log, and no other; the pairs of the
  -- table fit snapshot lines, and a snapshot is taken. The transaction goes on, by UPDATE lines between
  -- lines of others, to a state `t` that still leads back to the values `base` before it, and the server
  -- stops. There is room for the LSNs. Then `kv_run_server` starts, where it can read the id file: its
  -- table reads as `base`, its log agrees with the table, and its id is that of the id file.
  pub run_server-atomic :
      (ht : Store) (log : Log) (es : List Entry) (tx : Tx) (files : Files)
      → Durable ht log es
      → IsStorable ht
      → 0 < tx.last_lsn
      → tx.last_lsn ≤ length es
      → IsWord tx.id
      → (t : State) (rest : List Entry) {cs : List Change} {base : Map}
      → Active t ((es ++ check_entry tx ∷ []) ++ rest) cs base
      → Continues tx.id (suc (length es)) tx.last_lsn rest t.tx.last_lsn
      → length es + length rest + length cs + 4 < 2 ^ 32
      → (log' : Log) × (check_snapshot (tx ∷ []) log ≡ some (suc (length es), log'))
        × ((files' : Files) × (snapshot_process ht (suc (length es)) files ≡ some files')
            × ((s : Server) × (run_server stack redo_stack id_stack
                    (record files' { recovery = t.log.recovery_file })
                    tx_id_file
                  ≡ some s)
                × ((fs : List Entry) × Durable s.ht s.log fs)
                × (s.transaction_id ≡ id)
                × ((q : Bytes) → get s.ht q ≡ base q)))
  run_server-atomic ht log es tx files d storable pos last word t rest {cs} active goes room =
      let (log', check, d') =
        checks ht log es tx d (omega arith) (check_entry-IsEntry tx word (omega arith)) in
      let (files', run, (s, boot, durable, same_id, reads)) =
        run_server-restores stack redo_stack id_stack tx_id_file id counter ht log' es
          (listed tx ∷ []) files d' storable t.ht t.log rest active.durable (λ e. omega arith)
          (only_one (continued-Ongoing es rest tx t.tx last word goes active.chain))
          (omega arith) in
      (log', check, (files', run, (s, boot, durable, same_id, (λ q. reads q ∙ active.undoes q))))
