-- ===== src/Recovery/Redo.antt =====
-- `kv_recovery_redo` of src/kv_recovery.c: the table is rebuilt from the last snapshot and the log
-- behind it.
pub mod Replay
use sample_kv.Prelude.{
  ℕ, zero, suc, ◌+◌, ◌-◌, ◌%◌, ◌^◌, Bool, true, false, Option, none, some, List, [], ◌∷◌, ◌++◌,
  length, take, drop, ltb, ◌==◌, if◌then◌else◌,
}
use sample_kv.Key.{Bytes, key_funcs}
use sample_kv.Hash
use sample_kv.Hash.{Table}
use sample_kv.Utils.{hex_to_uint32}
use sample_kv.Recovery.{LogType, LogLine, newline, fgets, overlay, get_log}

-- The hash table of the server: the bytes of keys and of values.
abbrev pub Store : Type 0
Store = Table Bytes Bytes

abbrev pub is_data : LogType → Bool
is_data LogType.update = true
is_data LogType.clr = true
is_data _ = false

-- The body of the redo loop, for one log line.
unfoldable pub redo_line : LogLine → Store → Store
redo_line l ht =
    if is_data l.log_type
    then (if length l.new_val == 0
        then (Hash.del ht l.key).1
        else (Hash.set_kv ht l.key l.new_val).1)
    else ht

-- The redo loop behind `lsn`; `none` only where the fuel runs out. `stack` is the uninitialised array
-- of `kv_recovery_get_log`.
unfoldable pub redo_loop : ℕ → Bytes → Bytes → ℕ → Store → Option Store
redo_loop zero stack file lsn ht = none
redo_loop (suc fuel) stack file lsn ht =
    let lsn' : ℕ = (lsn + 1) % 2 ^ 32 in
    elim (get_log stack file lsn') [
      | none ↦ some ht
      | some l ↦ redo_loop fuel stack file lsn' (redo_line l ht)
    ]

-- The scan of a snapshot line: the last space before the newline, and the newline. `i` counts the
-- characters already read; the result is `key_len` and `val_len`.
unfoldable pub scan_line : ℕ → Bytes → ℕ → ℕ → ℕ × ℕ
scan_line zero line i key_len = (key_len, 0)
scan_line (suc n) [] i key_len = (key_len, 0)
scan_line (suc n) (ch ∷ line) i key_len =
    let rest = scan_line n line (i + 1) (if ch == b' ' then i else key_len) in
    if ch == b' '
    then rest
    else if ch == newline
    then (key_len, (i + 2 ^ 64 - key_len - 1) % 2 ^ 64)
    else rest

-- `if (kv_ht_set (ht, k_data, v_data) != NULL) exit (1)`
abbrev pub only_new : Option Bytes × Store → Option Store
only_new (none, ht) = some ht
only_new (some old, ht) = none

-- One snapshot line, put into the table, with the lengths `key_len` and `val_len`.
abbrev pub cut_line : ℕ × ℕ → Bytes → Store → Option Store
cut_line (key_len, val_len) line ht =
    only_new (Hash.set_kv ht (take key_len line) (take val_len (drop (key_len + 1) line)))

unfoldable pub load_line : Bytes → Store → Option Store
unfolding scan_line
load_line line ht = cut_line (scan_line 128 line 0 0) line ht

-- The snapshot loop; `none` where the code exits, or where the fuel runs out.
unfoldable pub load_snapshot : ℕ → Bytes → Bytes → Store → Option Store
unfolding load_line fgets overlay
load_snapshot zero file line_buf ht = none
load_snapshot (suc fuel) [] line_buf ht = some ht
load_snapshot (suc fuel) (c ∷ file) line_buf ht =
    let read = fgets 127 (c ∷ file) in
    let line = overlay read.0 line_buf in
    elim (load_line line ht) [ none ↦ none | some ht' ↦ load_snapshot fuel read.1 line ht' ]

-- The files that the server finds: last_checked_lsn.kvdb, recovery.kvdb, and the snapshots by the
-- hexadecimal LSN in their names.
pub record Files : Type 0 where
  pub last_checked_lsn : Option Bytes
  pub recovery : Bytes
  pub snapshot : Bytes → Option Bytes

-- `kv_recovery_redo`; `none` where the code exits. `stack` is what the arrays held before. An empty last_checked_lsn.kvdb makes `fgets` fail.
unfoldable pub redo : Bytes → Files → Store → Option Store
unfolding redo_loop load_snapshot fgets overlay
redo stack files ht = elim files.last_checked_lsn [
  | none ↦ redo_loop (length files.recovery + 1) stack files.recovery 0 ht
  | some [] ↦ none
  | some (c ∷ cs) ↦ redo_from (fgets 8 (c ∷ cs)).0
]
  where
    redo_from : Bytes → Option Store
    redo_from hex =
        let last = hex_to_uint32 (take 8 (overlay hex stack)) in
        let replay =
          λ (t : Store). redo_loop (length files.recovery + 1) stack files.recovery last t in
        let loaded : Option Store = elim (files.snapshot hex) [
          | none ↦ none
          | some file ↦ load_snapshot (length file + 1) file stack ht
        ] in
        if ltb 0 last then elim loaded [ none ↦ none | some t ↦ replay t ] else replay ht
