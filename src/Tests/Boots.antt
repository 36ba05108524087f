-- ===== src/Tests/Boots.antt =====
-- The theorems on snapshots and on the start of the server, at concrete inputs: a client sets a key in a
-- transaction, a CHECK line is written, and the server stops.
use sample_kv.Prelude.{
  ℕ, ◌+◌, ◌<◌, ◌≡◌, refl, ap, sym, ◌∙◌, Bool-cases, inl, inr, Option, none, some, List, [], ◌∷◌,
  ◌++◌, append-nil, arith, length, if◌then◌else◌,
}
use mathlib.Core.Path.{subst}
use sample_kv.Key.{Bytes, key_funcs}
use sample_kv.Hash
use sample_kv.Hash.{get, same}
use sample_kv.Hash.Chain.{eq_of_same}
use sample_kv.Hash.Methods.{IsValid, get-create}
use sample_kv.Recovery.{Log, newline}
use sample_kv.Utils.{uint32_to_hex, hex_to_uint32, get_hex, from_hex}
use sample_kv.Recovery.Entries.{Entry, checked, IsEntry}
use sample_kv.Recovery.Redo.{Store, Files, redo, load_snapshot}
use sample_kv.Recovery.Redo.Replay.{Reads}
use sample_kv.Transaction.{State}
use sample_kv.Transaction.Chain.{Change, TxChain, start, change, skip, TxChain-more, undo}
use sample_kv.Transaction.Durable.{Durable}
use sample_kv.Transaction.Crash.{files_of}
use sample_kv.Command.Session.{begin_transaction}
use sample_kv.Command.Session.Access.{Active}
use sample_kv.TxManager.{init, ongoing_transaction_ids}
use sample_kv.Snapshot.{write_snapshot, check_snapshot, snapshot_process}
use sample_kv.Snapshot.Lines.{IsPair}
use sample_kv.Snapshot.Load.{IsStorable, load_snapshot-write_snapshot}
use sample_kv.Snapshot.Checkpoint.{check_snapshot-Durable, redo-snapshot_process}
use sample_kv.Server.{Server, run_server}
use sample_kv.Server.Boot.{run_server-first, run_server-restores}
use sample_kv.Server.Atomic.{
  here, listed, check_entry, continued-Ongoing, only_one, run_server-atomic,
}
use sample_kv.Tests.{key_a, key_b, val_x, IsShort-a, IsShort-x}
use sample_kv.Tests.Sessions.{
  opened, begun_state, set_state, set_lines, set_change, set_state-Active, write_x, after_set,
}

abbrev no_files : Files
no_files = record { last_checked_lsn = none; recovery = []; snapshot = λ _. none }

a-IsPair : IsPair key_a val_x
a-IsPair = record {
  key = IsShort-a.text;
  val = IsShort-x.text;
  no_space = (λ e. ground arith, tt);
  fits = omega arith;
}

no_key : (q : Bytes) → get begun_state.ht q ≡ none
unfolding begin_transaction
no_key q = get-create 2 q

set_state-reads : (q : Bytes) → get set_state.ht q ≡ (if same key_a q then some val_x else none)
set_state-reads q =
    ap (λ (t : State). get t.ht q) after_set
    ∙ write_x.reads q
    ∙ ap (λ o. if same key_a q then some val_x else o) (no_key q)

set_state-IsStorable : IsStorable set_state.ht
set_state-IsStorable q v e = elim (Bool-cases (same key_a q)) [
  | inl s ↦
      let val : val_x ≡ v =
        let o : some val_x ≡ some v = rw s at (sym (set_state-reads q) ∙ e) in cc in
      subst (λ (k : Bytes). IsPair k v) (eq_of_same key_a q s)
        (subst (λ (w : Bytes). IsPair key_a w) val a-IsPair)
  | inr s ↦ absurd (let o : none ≡ some v = rw s at (sym (set_state-reads q) ∙ e) in cc)
]

load_snapshot-write_snapshot_example :
    (file : Bytes) × (write_snapshot set_state.ht ≡ some file)
    × ((r : Store) × (load_snapshot (length file + 1) file key_b (Hash.create 2) ≡ some r)
        × Reads set_state.ht.count r (λ q. get set_state.ht q))
load_snapshot-write_snapshot_example =
    load_snapshot-write_snapshot set_state.ht key_b set_state-Active.durable.reads.valid
      set_state-IsStorable (omega (arith, set_state-Active.durable.reads.few))

listed-IsEntry : IsEntry (checked (ongoing_transaction_ids (set_state.tx ∷ [])))
unfolding ongoing_transaction_ids
listed-IsEntry = (omega arith, (set_state-Active.id, omega (arith, set_state-Active.last), tt))

-- The log behind a CHECK line.
abbrev log_of : Option (ℕ × Log) → Log
log_of none = set_state.log
log_of (some (lsn, log)) = log

abbrev checked_log : Log
checked_log = log_of (check_snapshot (set_state.tx ∷ []) set_state.log)

checked_log-Durable : Durable set_state.ht checked_log (set_lines ++ check_entry set_state.tx ∷ [])
unfolding ongoing_transaction_ids
checked_log-Durable =
    let (log', run, d) =
      check_snapshot-Durable set_state.ht set_state.log set_lines (set_state.tx ∷ [])
        set_state-Active.durable (omega arith) listed-IsEntry in
    subst (λ (l : Log). Durable set_state.ht l (set_lines ++ check_entry set_state.tx ∷ []))
      (ap log_of (sym run)) d

redo-snapshot_process_example :
    (files' : Files) × (snapshot_process set_state.ht (length set_lines) no_files ≡ some files')
    × ((r : Store) × (redo key_b
            (record files' { recovery = checked_log.recovery_file })
            (Hash.create 2)
          ≡ some r)
        × IsValid r
        × ((q : Bytes) → get r q ≡ get set_state.ht q))
redo-snapshot_process_example =
    redo-snapshot_process key_b set_state.ht set_state.log set_lines no_files
      set_state-Active.durable set_state-IsStorable (omega arith) set_state.ht checked_log
      (check_entry set_state.tx ∷ []) checked_log-Durable (omega arith)

-- The id file behind the first transaction.
abbrev pub id_file : Bytes
id_file = uint32_to_hex 1 ++ newline ∷ []

pub id_found : init key_a id_file ≡ some 1
unfolding init uint32_to_hex hex_to_uint32 get_hex from_hex
id_found = refl

run_server-first_example :
    (s : Server) × (run_server key_a key_b key_a (files_of set_state.log (λ _. none)) id_file
      ≡ some s)
    × Durable s.ht s.log set_lines
    × (s.transaction_id ≡ 1)
    × ((q : Bytes) → get s.ht q ≡ get set_state.ht q)
run_server-first_example =
    run_server-first key_a key_b key_a id_file 1 id_found (λ _. none) set_state.ht set_state.log
      set_lines set_state-Active.durable (λ e. omega arith) (omega arith)

-- The state of the transaction behind the CHECK line.
abbrev checked_state : State
checked_state = record { tx = set_state.tx; ht = set_state.ht; log = checked_log }

checked_state-Active :
    Active checked_state
      ((set_lines ++ check_entry set_state.tx ∷ []) ++ [])
      (set_change ∷ [])
      (λ q. get opened.ht q)
checked_state-Active = record {
  durable =
      subst (λ (l : List Entry). Durable set_state.ht checked_log l) (sym (append-nil _))
        checked_log-Durable;
  chain = TxChain-more [] (TxChain-more (check_entry set_state.tx ∷ []) set_state-Active.chain);
  last = omega (arith, set_state-Active.last);
  id = set_state-Active.id;
  stored = set_state-Active.stored;
  undoes = set_state-Active.undoes;
}

TxChain-pos : {es : List Entry} {lsn : ℕ} {cs : List Change} → TxChain es lsn cs → 0 < lsn
TxChain-pos (start h) = omega arith
TxChain-pos (change h p v c) = omega arith
TxChain-pos (skip h p c) = omega arith

run_server-restores_example :
    (files' : Files) × (snapshot_process set_state.ht 3 no_files ≡ some files')
    × ((s : Server) × (run_server key_a key_b key_a
            (record files' { recovery = checked_log.recovery_file })
            id_file
          ≡ some s)
        × ((fs : List Entry) × Durable s.ht s.log fs)
        × (s.transaction_id ≡ 1)
        × ((q : Bytes) → get s.ht q ≡ undo (set_change ∷ []) (λ k. get set_state.ht k) q))
run_server-restores_example =
    run_server-restores key_a key_b key_a id_file 1 id_found set_state.ht checked_log set_lines
      (listed set_state.tx ∷ []) no_files checked_log-Durable set_state-IsStorable set_state.ht
      checked_log [] checked_state-Active.durable (λ e. omega arith)
      (only_one (
        continued-Ongoing set_lines [] set_state.tx set_state.tx set_state-Active.last
          set_state-Active.id here checked_state-Active.chain))
      (omega arith)

run_server-atomic_example :
    (log' : Log) × (check_snapshot (set_state.tx ∷ []) set_state.log ≡ some (3, log'))
    × ((files' : Files) × (snapshot_process set_state.ht 3 no_files ≡ some files')
        × ((s : Server) × (run_server key_a key_b key_a
                (record files' { recovery = checked_log.recovery_file })
                id_file
              ≡ some s)
            × ((fs : List Entry) × Durable s.ht s.log fs)
            × (s.transaction_id ≡ 1)
            × ((q : Bytes) → get s.ht q ≡ get opened.ht q)))
run_server-atomic_example =
    run_server-atomic key_a key_b key_a id_file 1 id_found set_state.ht set_state.log set_lines
      set_state.tx no_files set_state-Active.durable set_state-IsStorable
      (TxChain-pos set_state-Active.chain) set_state-Active.last set_state-Active.id checked_state
      [] checked_state-Active here (omega arith)
