-- ===== src/Transaction.antt =====
-- src/transaction.c: a transaction's identity, its last LSN, the locks that it holds, and rollback.
pub mod Durable
pub mod Crash
pub mod Chain
pub mod Touched
pub mod Rollback
use sample_kv.Prelude.{
  ℕ, zero, suc, ◌+◌, Bool, true, false, Option, none, some, List, [], ◌∷◌, ◌++◌, length, ◌==◌,
  if◌then◌else◌,
}
use sample_kv.Key.{Bytes, key_funcs}
use sample_kv.Hash
use sample_kv.Recovery.{LogType, LogLine, Log, get_log, end_log, clr_log}
use sample_kv.Recovery.Redo.{Store}

-- `struct kv_tx`; `locks` are the keys from `lock_head` to `lock_tail`.
pub record Tx : Type 0 where
  pub id : ℕ
  pub last_lsn : ℕ
  pub locks : List Bytes

-- `kv_tx_create`
abbrev pub create : ℕ → Tx
create tx_id = record { id = tx_id; last_lsn = 0; locks = [] }

-- `kv_tx_set_last_lsn`
abbrev pub set_last_lsn : Tx → ℕ → Tx
set_last_lsn tx new_lsn = record tx { last_lsn = new_lsn }

-- `kv_tx_add_lock`
abbrev pub add_lock : Tx → Bytes → Tx
add_lock tx key = record tx { locks = tx.locks ++ key ∷ [] }

-- What a transaction works on.
pub record State : Type 0 where
  pub tx : Tx
  pub ht : Store
  pub log : Log

-- `kv_recovery_clr_log` and `kv_tx_set_last_lsn`
clr : LogLine → Bytes → Bytes → State → Option State
clr l cur_val prev_val s =
    elim (clr_log s.log s.tx.last_lsn s.tx.id l.prev_lsn l.key cur_val prev_val) [
      | none ↦ none
      | some (new_lsn, log') ↦ some (record s { tx = set_last_lsn s.tx new_lsn; log = log' })
    ]

restore : LogLine → State → State
restore l s = record s { ht = (Hash.set_kv s.ht l.key l.old_val).1 }

remove : LogLine → State → State
remove l s = record s { ht = (Hash.del s.ht l.key).1 }

abbrev map_state : (State → State) → Option State → Option State
map_state f none = none
map_state f (some s) = some (f s)

-- The part of `kv_tx_rollback` for an UPDATE line.
pub undo_line : LogLine → State → Option State
unfolding restore remove
undo_line l s =
    if length l.old_val == 0
    then (if length l.new_val == 0
        then clr l [] [] s
        else map_state (remove l) (clr l l.new_val [] s))
    else map_state (restore l) (clr l l.new_val l.old_val s)

abbrev pub undo_typed : LogType → LogLine → State → Option State
undo_typed LogType.update l s = undo_line l s
undo_typed _ l s = some s

abbrev pub is_begin : LogType → Bool
is_begin LogType.begin = true
is_begin _ = false

-- The loop of `kv_tx_rollback` from the log line `next_lsn` on; `none` where the code exits, where a
-- CLR line does not fit in its array, or where the fuel runs out.
unfoldable pub rollback_loop : ℕ → Bytes → ℕ → State → Option State
rollback_loop zero stack next_lsn s = none
rollback_loop (suc fuel) stack next_lsn s = elim (get_log stack s.log.recovery_file next_lsn) [
  | none ↦ none
  | some l ↦
      let undone : Option State = elim (undo_typed l.log_type l s) [
        | none ↦ none
        | some s' ↦ rollback_loop fuel stack l.prev_lsn s'
      ] in
      if is_begin l.log_type then some s else undone
]

abbrev pub finish : State → State
finish s =
    let (new_lsn, log') = end_log s.log s.tx.last_lsn s.tx.id in
    record s { tx = set_last_lsn s.tx new_lsn; log = log' }

-- `kv_tx_rollback`. LSNs fall along `prev_lsn`, so the last LSN is enough fuel.
unfoldable pub rollback : Bytes → State → Option State
unfolding rollback_loop
rollback stack s = map_state finish (rollback_loop s.tx.last_lsn stack s.tx.last_lsn s)
