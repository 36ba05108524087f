-- ===== src/Recovery/Recover.antt =====
-- `kv_recovery_recover` of src/kv_recovery.c: where the LSNs go on, and the undoing of the transactions
-- of the last CHECK line that did not end.
pub mod Lsn
pub mod Scan
pub mod Undo
pub mod Fates
pub mod Course
pub mod Ongoing
use sample_kv.Prelude.{
  ℕ, zero, suc, ◌+◌, ◌-◌, ◌%◌, ◌^◌, Bool, true, false, ◌&&◌, ◌||◌, Option, none, some, List, [],
  ◌∷◌, ◌++◌, get_or, length, take, drop, ltb, leb, ◌==◌, if◌then◌else◌, max,
}
use sample_kv.Key.{Bytes}
use sample_kv.Utils.{hex_to_uint32}
use sample_kv.Recovery.{
  LogType, LogLine, OngoingTx, Log, newline, fgets, overlay, get_log, abort_log, end_log, clr_log,
}
use sample_kv.Recovery.Redo.{Files}

-- The loop that steps back from `pos` until a newline stands before it.
unfoldable pub line_start : Bytes → ℕ → ℕ
line_start file zero = 0
line_start file (suc pos) =
    let rest = line_start file pos in if get_or file pos 0 == newline then suc pos else rest

-- The LSN of the last line, as the next lines count on. `stack` is what the array held before.
unfoldable pub last_lsn : Bytes → Bytes → ℕ
unfolding line_start fgets overlay
last_lsn stack file =
    let pos = line_start file (length file - 1) in
    if pos == 0 then 0 else hex_to_uint32 (take 8 (overlay (fgets 8 (drop pos file)).0 stack))

-- The variables of the loop that analyses a transaction.
pub record Analysis : Type 0 where
  pub last_tx_lsn : ℕ
  pub is_abort_started : Bool
  pub is_abort_end : Bool
  pub is_committed : Bool

abbrev pub is_abort : LogType → Bool
is_abort LogType.abort = true
is_abort _ = false

abbrev pub is_commit : LogType → Bool
is_commit LogType.commit = true
is_commit _ = false

abbrev pub is_end : LogType → Bool
is_end LogType.end = true
is_end _ = false

-- A line of the transaction, at `temp_lsn`: the variables, and whether the loop breaks.
unfoldable pub analyse_line : ℕ → LogType → Analysis → Analysis × Bool
analyse_line temp_lsn log_type a =
    let started = a.is_abort_started || is_abort log_type in
    let a' = record a { last_tx_lsn = temp_lsn; is_abort_started = started } in
    if is_commit log_type
    then (record a' { is_committed = true }, true)
    else if started && is_end log_type
    then (record a' { is_abort_end = true }, true)
    else (a', false)

-- The loop, behind `temp_lsn`; `none` where the fuel runs out.
unfoldable pub analyse : ℕ → Bytes → Bytes → ℕ → ℕ → Analysis → Option Analysis
unfolding analyse_line
analyse zero stack file tx_id temp_lsn a = none
analyse (suc fuel) stack file tx_id temp_lsn a =
    let lsn : ℕ = (temp_lsn + 1) % 2 ^ 32 in
    elim (get_log stack file lsn) [
      | none ↦ some a
      | some l ↦
          let (a', stop) = if l.tx_id == tx_id then analyse_line lsn l.log_type a else (a, false) in
          if stop then some a' else analyse fuel stack file tx_id lsn a'
    ]

-- The CLR line of an UPDATE line, and `last_tx_lsn` behind it.
abbrev pub clr_line : LogType → LogLine → ℕ → ℕ → Log → Option (ℕ × Log)
clr_line LogType.update l tx_id last_tx_lsn log =
    clr_log log last_tx_lsn tx_id l.prev_lsn l.key l.new_val l.old_val
clr_line _ l tx_id last_tx_lsn log = some (last_tx_lsn, log)

abbrev pub is_begin : LogType → Bool
is_begin LogType.begin = true
is_begin _ = false

-- The loop that undoes, from `temp_lsn` on; `none` where a line is not there, where a CLR line overruns
-- its array, or where the fuel runs out.
unfoldable pub undo_loop : ℕ → Bytes → ℕ → ℕ → ℕ → Log → Option Log
undo_loop zero stack tx_id temp_lsn last_tx_lsn log = none
undo_loop (suc fuel) stack tx_id temp_lsn last_tx_lsn log =
    elim (get_log stack log.recovery_file temp_lsn) [
      | none ↦ none
      | some l ↦
          let next : Option Log = elim (clr_line l.log_type l tx_id last_tx_lsn log) [
            | none ↦ none
            | some (last', log') ↦ undo_loop fuel stack tx_id l.prev_lsn last' log'
          ] in
          if is_begin l.log_type then some (end_log log temp_lsn tx_id).1 else next
    ]

-- Where the undoing starts: at an ABORT line written now, or behind what is undone.
unfoldable pub undo_from : Bytes → ℕ → Analysis → Log → Option (ℕ × Log)
undo_from stack tx_id a log =
    if a.is_abort_started
    then elim (get_log stack log.recovery_file a.last_tx_lsn) [
      | none ↦ none
      | some l ↦ some (if is_abort l.log_type then l.prev_lsn else l.undo_next_lsn, log)
    ]
    else some (abort_log log a.last_tx_lsn tx_id)

-- LSNs fall along `prev_lsn`, so the first one is fuel enough.
unfoldable pub undo_tx : Bytes → ℕ → Analysis → Log → Option Log
unfolding undo_from undo_loop
undo_tx stack tx_id a log = elim (undo_from stack tx_id a log) [
  | none ↦ none
  | some (temp_lsn, log') ↦ undo_loop (suc temp_lsn) stack tx_id temp_lsn a.last_tx_lsn log'
]

abbrev pub fresh_analysis : ℕ → Analysis
fresh_analysis last_tx_lsn = record {
  last_tx_lsn = last_tx_lsn;
  is_abort_started = false;
  is_abort_end = false;
  is_committed = false;
}

-- The body of the loop over the transactions of the CHECK line.
unfoldable pub recover_tx : Bytes → ℕ → OngoingTx → Log → Option Log
unfolding analyse undo_tx
recover_tx stack last_checked_lsn tx log =
    let from : ℕ = if ltb tx.last_lsn last_checked_lsn then last_checked_lsn else tx.last_lsn in
    elim (analyse (length log.recovery_file + 1) stack log.recovery_file tx.tx_id from
      (fresh_analysis tx.last_lsn)) [
        | none ↦ none
        | some a ↦
            if a.is_committed || a.is_abort_end then some log else undo_tx stack tx.tx_id a log
      ]

unfoldable pub recover_txs : Bytes → ℕ → List OngoingTx → Log → Option Log
unfolding recover_tx
recover_txs stack last_checked_lsn [] log = some log
recover_txs stack last_checked_lsn (tx ∷ txs) log =
    elim (recover_tx stack last_checked_lsn tx log) [
      | none ↦ none
      | some log' ↦ recover_txs stack last_checked_lsn txs log'
    ]

-- `fread` of the last LSN file; `none` for -1.
abbrev pub last_checked : Option Bytes → Option ℕ
last_checked none = none
last_checked (some file) =
    let lsn = hex_to_uint32 (take 8 file) in
    if leb 8 (length file) then (if lsn == 2 ^ 32 - 1 then none else some lsn) else none

-- The transactions of the CHECK line, if it is one.
abbrev pub check_list : Option LogLine → List OngoingTx
check_list none = []
check_list (some l) = elim l.tx_list [ none ↦ [] | some txs ↦ txs ]

-- `kv_recovery_recover`: the log that it leaves.
unfoldable pub recover : Bytes → Files → Option Log
unfolding last_lsn recover_txs
recover stack files =
    let log : Log = record {
      lsn = last_lsn stack files.recovery;
      recovery_file = files.recovery;
    } in
    elim (last_checked files.last_checked_lsn) [
      | none ↦ some log
      | some lsn ↦ recover_txs stack lsn (check_list (get_log stack files.recovery lsn)) log
    ]
