-- ===== src/Tests/Restarts.antt =====
-- The theorems on the log and the id file that a restart finds, at concrete inputs.
use sample_kv.Prelude.{◌≡◌, refl, some, [], ◌∷◌, arith, length, ◌==◌, if◌then◌else◌}
use sample_kv.Recovery.{OngoingTx}
use sample_kv.Recovery.Entries.{render}
use sample_kv.Recovery.Recover.{last_lsn, recover_txs}
use sample_kv.Recovery.Recover.Lsn.{last_lsn-render}
use sample_kv.Recovery.Recover.Course.{follow, running}
use sample_kv.Recovery.Recover.Ongoing.{
  Ongoing, Away, no_more, and_more, Restored, recover_txs-restores,
}
use sample_kv.Transaction.Chain.{Change, start, change}
use sample_kv.Command.Session.{start_new_transaction}
use sample_kv.TxManager.{init}
use sample_kv.TxManager.Restart.{init-start_new_transaction}
use sample_kv.Tests.{key_a, val_x, two_lines, two_lines-AllEntries, two_log, two_log-Holds}
use sample_kv.Tests.Sessions.{opened}

init-start_new_transaction_example :
    init key_a (start_new_transaction opened).1.tx_id_file
    ≡ some (start_new_transaction opened).1.transaction_id
init-start_new_transaction_example = init-start_new_transaction key_a opened

last_lsn-render_example :
    last_lsn key_a (render 0 two_lines) ≡ (if length two_lines == 1 then 0 else length two_lines)
last_lsn-render_example = last_lsn-render key_a two_lines two_lines-AllEntries (omega arith)

abbrev at_update : OngoingTx
at_update = record { tx_id = 7; last_lsn = 2 }

abbrev a_change : Change
a_change = record { key = key_a; old_val = []; new_val = val_x }

two_lines-Ongoing : Ongoing two_lines 2 at_update (a_change ∷ [])
unfolding follow
two_lines-Ongoing = record {
  front = two_lines;
  rest = [];
  split = refl;
  at = refl;
  id = omega arith;
  fate = running refl (change refl (omega arith) (omega arith) (start refl));
}

no_more-Away : Away 7 []
unfolding Away
no_more-Away = tt

recover_txs-restores_example :
    Restored two_lines (a_change ∷ []) 3 (recover_txs key_a 2 (at_update ∷ []) two_log)
recover_txs-restores_example =
    recover_txs-restores key_a 2 (at_update ∷ []) two_log-Holds
      (and_more two_lines-Ongoing no_more-Away no_more) (omega arith)
