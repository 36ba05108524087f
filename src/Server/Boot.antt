-- ===== src/Server/Boot.antt =====
-- The start of the server (`kv_run_server`, src/kv_server.c) behind a crash.
use sample_kv.Prelude.{
  ℕ, suc, ◌+◌, ◌*◌, ◌^◌, ◌<◌, ◌≡◌, ◌≢◌, refl, ap, sym, ◌∙◌, Option, none, some, List, [], ◌∷◌, ◌++◌,
  append_assoc, arith, length, length-append,
}
use mathlib.Core.Path.{subst, fun_ext}
use sample_kv.Key.{Bytes, key_funcs}
use sample_kv.Hash
use sample_kv.Hash.{get}
use sample_kv.Recovery.{Log, OngoingTx}
use sample_kv.Recovery.Entries.{Entry, checked, render}
use sample_kv.Recovery.Search.{entry_at-append}
use sample_kv.Recovery.Write.{Holds}
use sample_kv.Recovery.Redo.{Store, Files, redo}
use sample_kv.Recovery.Redo.Replay.{
  Reads, Reads-le, replay, empty_map, redo_loop-Reads, create-Reads, length-render,
}
use sample_kv.Recovery.Recover.{recover}
use sample_kv.Recovery.Recover.Ongoing.{AllOngoing}
use sample_kv.Transaction.Chain.{Change, undo, entry_at-more}
use sample_kv.Transaction.Durable.{Durable}
use sample_kv.Transaction.Crash.{files_of}
use sample_kv.TxManager.{init}
use sample_kv.Snapshot.{snapshot_process}
use sample_kv.Snapshot.Load.{IsStorable}
use sample_kv.Snapshot.Checkpoint.{redo-snapshot_logged}
use sample_kv.Server.{Server, run_server}
use sample_kv.Server.Recovered.{found_log, found_log-Holds, recover-first, recover-restores}

run_server-steps :
    (stack redo_stack id_stack : Bytes) (files : Files) (tx_id_file : Bytes) (log : Log)
    (ht : Store) (id : ℕ)
    → recover stack files ≡ some log
    → redo redo_stack (record files { recovery = log.recovery_file }) (Hash.create 2) ≡ some ht
    → init id_stack tx_id_file ≡ some id
    → run_server stack redo_stack id_stack files tx_id_file
      ≡ some (record { ht = ht; log = log; transaction_id = id })
unfolding run_server
run_server-steps stack redo_stack id_stack files tx_id_file log ht id h h' h'' =
    rw (h, run_server, h', h'') refl

redo_first :
    (stack : Bytes) (snapshot : Bytes → Option Bytes) {log : Log} {es : List Entry}
    → Holds log es
    → suc (length es) < 2 ^ 32
    → (r : Store) × (redo stack (files_of log snapshot) (Hash.create 2) ≡ some r)
      × Reads (length es) r (replay es empty_map)
unfolding redo
redo_first stack snapshot {log} {es} d room =
    let (r, run, done) =
      redo_loop-Reads stack es [] es (length (render 0 es) + 1) 0 refl d.entries room refl
        (omega (arith, length-render 0 es d.entries)) (omega arith) create-Reads in
    (
      r,
      subst
          (λ (f : Bytes).
            redo stack (record { last_checked_lsn = none; recovery = f; snapshot = snapshot })
              (Hash.create 2)
            ≡ some r)
          (sym d.file) run,
      Reads-le (omega arith) done,
    )

module _ (stack redo_stack id_stack tx_id_file : Bytes) (id : ℕ)
    (counter : init id_stack tx_id_file ≡ some id) where
  -- Where no snapshot was taken, the log has not just one line and room for the next LSN, and the id file
  -- can be read, the server starts with a table that reads as the one that was lost, with the log of the
  -- same entries, which agrees with the table, and with the id of the id file. The writes of
  -- transactions that did not end are still there.
  pub run_server-first :
      (snapshot : Bytes → Option Bytes) (ht : Store) (log : Log) (es : List Entry)
      → Durable ht log es
      → length es ≢ 1
      → suc (length es) < 2 ^ 32
      → (s : Server) × (run_server stack redo_stack id_stack (files_of log snapshot) tx_id_file
          ≡ some s)
        × Durable s.ht s.log es
        × (s.transaction_id ≡ id)
        × ((q : Bytes) → get s.ht q ≡ get ht q)
  run_server-first snapshot ht log es d ne room =
      let log' = found_log stack log.recovery_file in
      let (r, run, reads) = redo_first redo_stack snapshot d.logged room in
      (
        record { ht = r; log = log'; transaction_id = id },
        run_server-steps stack redo_stack id_stack (files_of log snapshot) tx_id_file log' r id
            (recover-first stack log.recovery_file snapshot) run counter,
        record { logged = found_log-Holds stack d.logged ne; reads = reads },
        refl,
        (λ q. reads.view q ∙ sym (d.reads.view q)),
      )

  -- A snapshot of a table whose pairs fit snapshot lines is taken at the CHECK line behind `before`, with
  -- the transactions `txs`, all different; the server goes on to a table `ht'` and a log with the lines
  -- of `rest` behind, and stops. That log has more than one line and the lines of each of `txs`, there is
  -- room for the LSNs, and the id file can be read. Then `kv_run_server` starts, with the id of that
  -- file: its table has for every key the value before the changes `cs` of those of `txs` that are
  -- not over by their lines in `rest`, and its log agrees with the table.
  pub run_server-restores :
      (ht : Store) (log : Log) (before : List Entry) (txs : List OngoingTx) (files : Files)
      → Durable ht log (before ++ checked txs ∷ [])
      → IsStorable ht
      → (ht' : Store) (log' : Log) (rest : List Entry) {cs : List Change}
      → Durable ht' log' ((before ++ checked txs ∷ []) ++ rest)
      → length before + length rest ≢ 0
      → AllOngoing ((before ++ checked txs ∷ []) ++ rest) (suc (length before)) txs cs
      → length before + length rest + length cs + 2 * length txs + 2 < 2 ^ 32
      → (files' : Files) × (snapshot_process ht (suc (length before)) files ≡ some files')
        × ((s : Server) × (run_server stack redo_stack id_stack
                (record files' { recovery = log'.recovery_file })
                tx_id_file
              ≡ some s)
            × ((fs : List Entry) × Durable s.ht s.log fs)
            × (s.transaction_id ≡ id)
            × ((q : Bytes) → get s.ht q ≡ undo cs (λ k. get ht' k) q))
  run_server-restores ht log before txs files d storable ht' log' rest {cs} d' many ongoing room =
      let es = before ++ checked txs ∷ [] in
      let count : length es ≡ suc (length before) =
        omega (arith, length-append before (checked txs ∷ [])) in
      let all = length-append es rest in
      let pos : 0 < length es = omega (arith, count) in
      let (files', run, (last_file, named, long, lsn), _) =
        redo-snapshot_logged redo_stack ht log es files d storable pos log' rest d'.logged
          (omega (arith, all, count)) in
      let u =
        recover-restores stack (record files' { recovery = log'.recovery_file }) last_file
          (length before) named long (lsn ∙ count) txs d'.logged refl
          (λ one. many (omega (arith, one, all, count)))
          (entry_at-more es rest (length before) (entry_at-append before [] (checked txs)))
          (omega arith) ongoing (omega (arith, all, count)) in
      let held = subst (λ l. Holds u.after l) (append_assoc es rest u.ext) u.holds in
      let (files'', run', _, (r, again, reads)) =
        redo-snapshot_logged redo_stack ht log es files d storable pos u.after (rest ++ u.ext) held
          (omega
            (arith, length-append es (rest ++ u.ext), length-append rest u.ext, u.few, count)) in
      let view : (q : Bytes) → get r q ≡ undo cs (λ k. get ht' k) q = λ q.
        reads.view q
        ∙ ap (λ m. m q)
            (ap (λ l. replay l empty_map) (sym (append_assoc es rest u.ext))
              ∙ u.restored empty_map
              ∙ ap (undo cs) (sym (fun_ext d'.reads.view))) in
      (
        files'',
        ap (λ n. snapshot_process ht n files) (sym count) ∙ run',
        (
          record { ht = r; log = u.after; transaction_id = id },
          run_server-steps stack redo_stack id_stack
              (record files'' { recovery = log'.recovery_file }) tx_id_file u.after r id
              (subst
                (λ (f : Files).
                  recover stack (record f { recovery = log'.recovery_file }) ≡ some u.after)
                (same_files run run') u.runs)
              again counter,
          (es ++ (rest ++ u.ext), record { logged = held; reads = reads }),
          refl,
          view,
        ),
      )
    where
      same_files : {r : Option Files} {f g : Files} → r ≡ some f → r ≡ some g → f ≡ g
      same_files h h' = cc
