-- ===== src/Server/Recovered.antt =====
-- The log that `kv_recovery_recover` (src/kv_recovery.c) leaves, with a CHECK line and without.
use sample_kv.Prelude.{
  ℕ, suc, ◌+◌, ◌-◌, ◌*◌, ◌^◌, ◌≤◌, ◌<◌, ◌≡◌, ◌≢◌, refl, ap, sym, ◌∙◌, true, false, Option, none,
  some, List, arith, length, take, leb, ◌==◌, differ,
}
use mathlib.Core.Option
use mathlib.Core.Path.{subst}
use sample_kv.Key.{Bytes}
use sample_kv.Utils.{hex_to_uint32}
use sample_kv.Recovery.{Log, OngoingTx, get_log}
use sample_kv.Recovery.Entries.{Entry, checked, struct_of}
use sample_kv.Recovery.Search.{entry_at, get_log-render}
use sample_kv.Recovery.Write.{Holds}
use sample_kv.Recovery.Redo.{Files}
use sample_kv.Recovery.Recover.{last_lsn, recover_txs, recover}
use sample_kv.Recovery.Recover.Lsn.{last_lsn-render}
use sample_kv.Recovery.Recover.Ongoing.{AllOngoing, Restored, recover_txs-restores}
use sample_kv.Transaction.Chain.{Change}

-- The log that `kv_recovery_recover` starts with.
abbrev pub found_log : Bytes → Bytes → Log
found_log stack file = record { lsn = last_lsn stack file; recovery_file = file }

-- It counts on from a log of written lines, of which there is not just one.
pub found_log-Holds :
    (stack : Bytes) {log : Log} {es : List Entry}
    → Holds log es
    → length es ≢ 1
    → Holds (found_log stack log.recovery_file) es
found_log-Holds stack {log} {es} d ne = record {
  counted =
      ap (last_lsn stack) d.file
      ∙ last_lsn-render stack es d.entries d.room
      ∙ rw (differ (length es) 1 ne) refl;
  file = d.file;
  entries = d.entries;
  room = d.room;
}

-- Without a last LSN file, `kv_recovery_recover` undoes nothing.
pub recover-first :
    (stack recovery : Bytes) (snapshot : Bytes → Option Bytes)
    → recover stack (record { last_checked_lsn = none; recovery = recovery; snapshot = snapshot })
      ≡ some (found_log stack recovery)
unfolding recover
recover-first stack recovery snapshot = refl

module _ (stack : Bytes) (files : Files) (last_file : Bytes) (i : ℕ)
    (named : files.last_checked_lsn ≡ some last_file) (long : 8 ≤ length last_file)
    (lsn : hex_to_uint32 (take 8 last_file) ≡ suc i) where
  recover-checked :
      (txs : List OngoingTx) (r : Option Log)
      → suc i < 2 ^ 32 - 1
      → get_log stack files.recovery (suc i) ≡ some (struct_of (suc i) (checked txs))
      → recover_txs stack (suc i) txs (found_log stack files.recovery) ≡ r
      → recover stack files ≡ r
  unfolding recover
  recover-checked txs r small line e =
      let eight : leb 8 (length last_file) ≡ true = ground arith in
      let here : (suc i == 2 ^ 32 - 1) ≡ false = ground arith in
      rw (named, recover, eight, lsn, here, line) e

  -- With the CHECK line of the last LSN file.
  pub recover-restores :
      (txs : List OngoingTx) {log : Log} {es : List Entry} {cs : List Change}
      → Holds log es
      → files.recovery ≡ log.recovery_file
      → length es ≢ 1
      → entry_at es i ≡ some (checked txs)
      → suc i < 2 ^ 32 - 1
      → AllOngoing es (suc i) txs cs
      → length es + length cs + 2 * length txs < 2 ^ 32
      → Restored es cs (length cs + 2 * length txs) (recover stack files)
  recover-restores txs {log} {es} {cs} d file ne found small ongoing room =
      let d' = found_log-Holds stack d ne in
      let line : get_log stack files.recovery (suc i) ≡ some (struct_of (suc i) (checked txs)) =
        ap (λ (f : Bytes). get_log stack f (suc i)) (file ∙ d.file)
        ∙ get_log-render stack es i d.entries d.room
        ∙ ap (Option.map _) found in
      let r =
        recover_txs-restores stack (suc i) txs
          (subst (λ (f : Bytes). Holds (found_log stack f) es) (sym file) d') ongoing room in
      record {
        after = r.after;
        ext = r.ext;
        runs = recover-checked txs (some r.after) small line r.runs;
        holds = r.holds;
        restored = r.restored;
        few = r.few;
      }
