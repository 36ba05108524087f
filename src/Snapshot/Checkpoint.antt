-- ===== src/Snapshot/Checkpoint.antt =====
-- A snapshot, what the server does behind it, a crash, and `kv_recovery_redo` of src/kv_recovery.c.
use sample_kv.Prelude.{
  ℕ, suc, ◌+◌, ◌^◌, ◌≤◌, ◌<◌, ◌≡◌, refl, ap, sym, ◌∙◌, Option, none, some, List, [], ◌∷◌, ◌++◌,
  append_assoc, arith, length, length-append, take, drop, lt→ltb, if◌then◌else◌,
}
use mathlib.Core.Path.{fun_ext, subst}
use sample_kv.Key.{Bytes, key_funcs}
use sample_kv.Utils.{uint32_to_hex, hex_to_uint32}
use sample_kv.Utils.Hex.{length-uint32_to_hex, hex_to_uint32-uint32_to_hex}
use sample_kv.Hash
use sample_kv.Hash.{get, same}
use sample_kv.Hash.Chain.{same_refl}
use sample_kv.Hash.Methods.{IsValid}
use sample_kv.Recovery.{Log, newline}
use sample_kv.Recovery.Entries.{Entry, checked, IsEntry, render}
use sample_kv.Recovery.Write.{Holds, check_log-Wrote}
use sample_kv.Recovery.Redo.{Store, Files, redo, redo_loop, load_snapshot}
use sample_kv.Recovery.Redo.Replay.{
  Map, Reads, Reads-suc, replay, effect, empty_map, Reads-le, redo_loop-Reads, length-render,
}
use sample_kv.Transaction.{Tx}
use sample_kv.Transaction.Durable.{Durable, step-Durable}
use sample_kv.TxManager.{ongoing_transaction_ids}
use sample_kv.TxManager.Restart.{take_hex, fgets-IsText}
use sample_kv.Recovery.Format.{hex-IsText}
use sample_kv.Recovery.{fgets, overlay}
use sample_kv.Snapshot.{check_snapshot, snapshot_process, overwrite}
use sample_kv.Snapshot.Load.{IsStorable, load_snapshot-write_snapshot}

replay-append_all :
    (es rest : List Entry) (m : Map) → replay (es ++ rest) m ≡ replay rest (replay es m)
unfolding replay
replay-append_all [] rest m = refl
replay-append_all (e ∷ es) rest m = replay-append_all es rest (effect e m)

-- The name in the last LSN file is the LSN.
take-overwrite :
    (lsn : ℕ) (old : Option Bytes)
    → take 8 (overwrite (uint32_to_hex lsn ++ newline ∷ []) old) ≡ uint32_to_hex lsn
take-overwrite lsn none = take_hex lsn (newline ∷ [])
take-overwrite lsn (some old) =
    rw append_assoc (take_hex lsn (newline ∷ drop (length (uint32_to_hex lsn ++ newline ∷ [])) old))

-- `fgets` reads no more than the LSN.
fgets-overwrite :
    (lsn : ℕ) (old : Option Bytes)
    → (fgets 8 (overwrite (uint32_to_hex lsn ++ newline ∷ []) old)).0 ≡ uint32_to_hex lsn
fgets-overwrite lsn none =
    ap (λ (x : Bytes × Bytes). x.0)
      (fgets-IsText 8 (newline ∷ []) (hex-IsText lsn) (length-uint32_to_hex lsn))
fgets-overwrite lsn (some old) = rw append_assoc (
    ap (λ (x : Bytes × Bytes). x.0)
      (fgets-IsText 8 (newline ∷ drop (length (uint32_to_hex lsn ++ newline ∷ [])) old)
        (hex-IsText lsn) (length-uint32_to_hex lsn)))

hex-overlay :
    (lsn : ℕ) (stack : Bytes) → take 8 (overlay (uint32_to_hex lsn) stack) ≡ uint32_to_hex lsn
unfolding overlay
hex-overlay lsn stack = take_hex lsn (0 ∷ drop (length (uint32_to_hex lsn) + 1) stack)

-- `kv_recovery_redo` where the last LSN file names a snapshot.
redo_named :
    (lsn : ℕ) (stack file last_file recovery : Bytes) (snapshot : Bytes → Option Bytes)
    (ht t : Store)
    → 0 < length last_file
    → (fgets 8 last_file).0 ≡ uint32_to_hex lsn
    → snapshot (uint32_to_hex lsn) ≡ some file
    → 0 < hex_to_uint32 (uint32_to_hex lsn)
    → load_snapshot (length file + 1) file stack ht ≡ some t
    → redo stack
        (record { last_checked_lsn = some last_file; recovery = recovery; snapshot = snapshot })
        ht
      ≡ redo_loop (length recovery + 1) stack recovery (hex_to_uint32 (uint32_to_hex lsn)) t
unfolding redo
redo_named lsn stack file [] recovery snapshot ht t some_bytes read found pos load =
    absurd (omega arith)
redo_named lsn stack file (c ∷ last_file) recovery snapshot ht t some_bytes read found pos load =
    rw (read, hex-overlay lsn stack, found, load, lt→ltb 0 (hex_to_uint32 (uint32_to_hex lsn)) pos)
      (rw (read, hex-overlay lsn stack) refl)

-- The CHECK line under the locks keeps the agreement of log and table.
pub check_snapshot-Durable :
    (ht : Store) (log : Log) (es : List Entry) (txs : List Tx)
    → Durable ht log es
    → suc (length es) < 2 ^ 32
    → IsEntry (checked (ongoing_transaction_ids txs))
    → (log' : Log) × (check_snapshot txs log ≡ some (suc (length es), log'))
      × Durable ht log' (es ++ checked (ongoing_transaction_ids txs) ∷ [])
unfolding check_snapshot effect
check_snapshot-Durable ht log es txs d room h =
    let w = check_log-Wrote d.logged room (ongoing_transaction_ids txs) h in
    (w.log_after, w.runs, step-Durable es _ w.holds (Reads-suc d.reads))

-- The files behind `snapshot_process`, and `kv_recovery_redo` on them with a longer log.
module _ (stack : Bytes) (ht : Store) (log : Log) (es : List Entry) (files : Files)
    (d : Durable ht log es) (storable : IsStorable ht) (some_entry : 0 < length es) where
  small : ht.count < 2 ^ 32
  small = omega (arith, d.reads.few, d.logged.room)

  named : (name : Bytes) → name ≡ uint32_to_hex (length es) → hex_to_uint32 name ≡ length es
  named name e = rw e (hex_to_uint32-uint32_to_hex (length es) d.logged.room)

  -- The files, and the table that the snapshot and the log behind it give.
  pub redo-snapshot_logged :
      (log' : Log) (rest : List Entry)
      → Holds log' (es ++ rest)
      → suc (length (es ++ rest)) < 2 ^ 32
      → (files' : Files) × (snapshot_process ht (length es) files ≡ some files')
        × ((last_file : Bytes) × (files'.last_checked_lsn ≡ some last_file)
            × (8 ≤ length last_file)
            × (hex_to_uint32 (take 8 last_file) ≡ length es))
        × ((r : Store) × (redo stack
                (record files' { recovery = log'.recovery_file })
                (Hash.create 2)
              ≡ some r)
            × Reads (length (es ++ rest)) r (replay (es ++ rest) empty_map))
  unfolding snapshot_process
  redo-snapshot_logged log' rest d' room =
      let (file, run, (t, load, reads)) =
        load_snapshot-write_snapshot ht stack d.reads.valid storable small in
      let hex = uint32_to_hex (length es) in
      let last_file = overwrite (hex ++ newline ∷ []) files.last_checked_lsn in
      let snapshot = λ (name : Bytes). if same hex name then some file else files.snapshot name in
      let name : take 8 last_file ≡ hex = take-overwrite (length es) files.last_checked_lsn in
      let lsn = named (take 8 last_file) name in
      let value = hex_to_uint32-uint32_to_hex (length es) d.logged.room in
      let all = length-append es rest in
      let long = overwrite_long (length es) files.last_checked_lsn in
      let (r, loop, done) =
        redo_loop-Reads stack rest es (es ++ rest) (length (render 0 (es ++ rest)) + 1)
          (hex_to_uint32 hex) refl d'.entries room value
          (omega (arith, length-render 0 (es ++ rest) d'.entries, all))
          (omega (arith, d.reads.few, all)) reads in
      (
        record files { snapshot = snapshot; last_checked_lsn = some last_file },
        rw (snapshot_process, run) refl,
        (last_file, refl, long, lsn),
        (
          r,
          redo_named (length es) stack file last_file log'.recovery_file snapshot (Hash.create 2) t
                (omega (arith, long)) (fgets-overwrite (length es) files.last_checked_lsn)
                (rw (same_refl hex) refl) (omega (arith, value)) load
              ∙ subst
                  (λ (f : Bytes). redo_loop (length f + 1) stack f (hex_to_uint32 hex) t ≡ some r)
                  (sym d'.file) loop,
          Reads-le (omega (arith, d.reads.few, all)) (
              subst (λ m. Reads (ht.count + length rest) r m)
                (ap (replay rest) (fun_ext d.reads.view)
                  ∙ sym (replay-append_all es rest empty_map))
                done),
        ),
      )
    where
      overwrite_long :
          (lsn : ℕ) (old : Option Bytes)
          → 8 ≤ length (overwrite (uint32_to_hex lsn ++ newline ∷ []) old)
      overwrite_long lsn none =
          omega (arith, length-append (uint32_to_hex lsn) (newline ∷ []), length-uint32_to_hex lsn)
      overwrite_long lsn (some old) =
          let hex = uint32_to_hex lsn in
          omega (
            arith,
            length-uint32_to_hex lsn,
            length-append hex (newline ∷ []),
            length-append (hex ++ newline ∷ []) (drop (length (hex ++ newline ∷ [])) old),
          )

  -- Behind a snapshot of a table whose pairs fit snapshot lines the server goes on, to a table `ht'` and a
  -- log of the entries `es`, of which there is one, and `rest`, with room for one more LSN, and stops.
  -- Log and table agree at both moments. The forked process, which saw the table `ht` of the CHECK line,
  -- writes its files without an overrun, and `kv_recovery_redo` of the snapshot and of the log behind it rebuilds,
  -- whatever the arrays held before, a valid table that reads as `ht'`.
  pub redo-snapshot_process :
      (ht' : Store) (log' : Log) (rest : List Entry)
      → Durable ht' log' (es ++ rest)
      → suc (length (es ++ rest)) < 2 ^ 32
      → (files' : Files) × (snapshot_process ht (length es) files ≡ some files')
        × ((r : Store) × (redo stack
                (record files' { recovery = log'.recovery_file })
                (Hash.create 2)
              ≡ some r)
            × IsValid r
            × ((q : Bytes) → get r q ≡ get ht' q))
  redo-snapshot_process ht' log' rest d' room =
      let (files', run, _, (r, again, reads)) = redo-snapshot_logged log' rest d'.logged room in
      (files', run, (r, again, reads.valid, (λ q. reads.view q ∙ sym (d'.reads.view q))))
