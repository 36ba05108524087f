-- ===== src/TxManager.antt =====
-- src/tx_manager.c beside what a session calls of it: the id with which a server starts again, and the
-- list of the transactions for a CHECK line.
pub mod Restart
use sample_kv.Prelude.{
  ℕ, ◌-◌, Option, none, some, List, [], ◌∷◌, ◌++◌, length, take, drop, leb, ◌==◌, if◌then◌else◌,
}
use sample_kv.Key.{Bytes}
use sample_kv.Utils.{hex_to_uint32}
use sample_kv.Recovery.{OngoingTx, fgets, overlay}
use sample_kv.Transaction.{Tx}

-- `kv_txm_init`: the last id in tx_id.kvdb; `none` where it calls `exit`. `stack` is what the array
-- `last_tx_id_hex` holds before. Where the seek by -9 fails, the file stays at its end.
unfoldable pub init : Bytes → Bytes → Option ℕ
unfolding fgets overlay
init stack tx_id_file =
    if length tx_id_file == 0
    then some 0
    else if leb 9 (length tx_id_file)
    then (let read = fgets 8 (drop (length tx_id_file - 9) tx_id_file) in
        some (hex_to_uint32 (take 8 (overlay read.0 stack))))
    else none

-- `add_data`, which `kv_ll_foreach` calls on the array filled so far.
unfoldable pub add_data : List OngoingTx → Tx → List OngoingTx
add_data ongoing tx = ongoing ++ record { tx_id = tx.id; last_lsn = tx.last_lsn } ∷ []

add_all : List Tx → List OngoingTx → List OngoingTx
unfolding add_data
add_all [] ongoing = ongoing
add_all (tx ∷ tx_list) ongoing = add_all tx_list (add_data ongoing tx)

-- `kv_txm_ongoing_transaction_ids`, with an array that is large enough (the code allocates one byte
-- for each transaction).
unfoldable pub ongoing_transaction_ids : List Tx → List OngoingTx
unfolding add_all
ongoing_transaction_ids tx_list = add_all tx_list []
