-- ===== src/Transaction/Crash.antt =====
-- What `kv_recovery_redo` of src/kv_recovery.c finds behind a crash.
use sample_kv.Prelude.{Option, none}
use sample_kv.Key.{Bytes, key_funcs}
use sample_kv.Recovery.{Log}
use sample_kv.Recovery.Redo.{Files}

-- The files that the server finds when it starts again and has not taken a snapshot.
abbrev pub files_of : Log → (Bytes → Option Bytes) → Files
files_of log snapshot = record {
  last_checked_lsn = none;
  recovery = log.recovery_file;
  snapshot = snapshot;
}
