-- ===== src/Server.antt =====
-- src/kv_server.c: what `kv_run_server` does with the files before it takes clients.
pub mod Recovered
pub mod Boot
pub mod Atomic
pub mod Accepts
use sample_kv.Prelude.{ℕ, Option, none, some}
use sample_kv.Key.{Bytes, key_funcs}
use sample_kv.Hash
use sample_kv.Recovery.{Log}
use sample_kv.Recovery.Redo.{Store, Files, redo}
use sample_kv.Recovery.Recover.{recover}
use sample_kv.TxManager.{init}

-- What the clients then share.
pub record Server : Type 0 where
  pub ht : Store
  pub log : Log
  pub transaction_id : ℕ

-- `kv_recovery_init` opens the log to append to it. `stack` is what the arrays of `kv_recovery_recover`,
-- `redo_stack` and `id_stack` what those of `kv_recovery_redo` and `kv_txm_init` hold before; `none` where
-- one of them exits or does not end.
unfoldable pub run_server : Bytes → Bytes → Bytes → Files → Bytes → Option Server
run_server stack redo_stack id_stack files tx_id_file =
    let ht : Store = Hash.create 2 in
    elim (recover stack files) [
      | none ↦ none
      | some log ↦ elim (redo redo_stack (record files { recovery = log.recovery_file }) ht) [
        | none ↦ none
        | some ht' ↦ elim (init id_stack tx_id_file) [
          | none ↦ none
          | some id ↦ some (record { ht = ht'; log = log; transaction_id = id })
        ]
      ]
    ]
