-- ===== src/Snapshot.antt =====
-- src/kv_recovery_snapshot.c: the CHECK line, and the process that writes a snapshot of the table.
pub mod Lines
pub mod Load
pub mod Checkpoint
use sample_kv.Prelude.{
  ℕ, ◌+◌, Option, none, some, List, [], ◌∷◌, ◌++◌, length, drop, leb, if◌then◌else◌,
}
use sample_kv.Key.{Bytes, key_funcs}
use sample_kv.Utils.{uint32_to_hex}
use sample_kv.Hash.{same, foreach}
use sample_kv.Recovery.{Log, newline, max_line_len, fputs, check_log}
use sample_kv.Recovery.Redo.{Store, Files}
use sample_kv.Transaction.{Tx}
use sample_kv.TxManager.{ongoing_transaction_ids}

abbrev pub snapshot_line : Bytes → Bytes → Bytes
snapshot_line key value = key ++ b' ' ∷ (value ++ newline ∷ [])

-- `kv_hashtable_foreach`: one line more in the file; `none` where the line overruns its array.
unfoldable pub hashtable_foreach : Bytes → Bytes → Option Bytes → Option Bytes
unfolding fputs
hashtable_foreach key value none = none
hashtable_foreach key value (some file) =
    let line = snapshot_line key value in
    if leb (length line + 1) max_line_len then some (fputs line file) else none

-- The snapshot file, which is opened by "w+".
unfoldable pub write_snapshot : Store → Option Bytes
unfolding hashtable_foreach
write_snapshot ht = foreach ht hashtable_foreach (some [])

-- The CHECK line that `kv_recovery_snapshot_handler` writes under the locks, before it forks.
unfoldable pub check_snapshot : List Tx → Log → Option (ℕ × Log)
check_snapshot tx_list log = check_log log (ongoing_transaction_ids tx_list)

-- The last LSN file is opened by "r+": what it held is overwritten from the start.
abbrev pub overwrite : Bytes → Option Bytes → Bytes
overwrite line none = line
overwrite line (some old) = line ++ drop (length line) old

-- The forked process, with the table of the moment of the fork: "snapshot_%08X.kvdb", and "%08X" and a
-- newline in the last LSN file. The calls that open files do not fail here.
unfoldable pub snapshot_process : Store → ℕ → Files → Option Files
unfolding write_snapshot
snapshot_process ht check_lsn files = elim (write_snapshot ht) [
  | none ↦ none
  | some file ↦
      let hex = uint32_to_hex check_lsn in
      some (record files {
        snapshot = λ name. if same hex name then some file else files.snapshot name;
        last_checked_lsn = some (overwrite (hex ++ newline ∷ []) files.last_checked_lsn);
      })
]
