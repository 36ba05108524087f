-- ===== src/Clients/Runs.antt =====
-- The steps of the clients, in any order (src/kv_server.c, src/kv_client_handler.c).
use sample_kv.Prelude.{
  ℕ, suc, ◌^◌, ◌<◌, ◌≡◌, refl, sym, Bool-cases, inl, inr, Option, none, some, List, [], ◌∷◌, ◌++◌,
  arith, length, ◌==◌,
}
use mathlib.Core.Path.{subst}
use sample_kv.Key.{key_funcs}
use sample_kv.Recovery.{Log}
use sample_kv.Recovery.Entries.{Entry, IsEntry, checked}
use sample_kv.TxManager.{ongoing_transaction_ids}
use sample_kv.Snapshot.{check_snapshot}
use sample_kv.Snapshot.Checkpoint.{check_snapshot-Durable}
use sample_kv.Transaction.Durable.{Durable}
use sample_kv.Clients.Takes.{ClientOk-more}
use sample_kv.Recovery.Redo.Replay.{Map}
use sample_kv.Transaction.{Tx}
use sample_kv.Transaction.Chain.{Change}
use sample_kv.Command.{Request}
use sample_kv.Command.Session.{Session, blocked}
use sample_kv.Clients.{
  World, update, session_of, Step, answers, waits, snapshots, resumes, Reach, here, later,
}
use sample_kv.Clients.Blocked.{run_request-waits}
use sample_kv.Clients.Consistent.{Consistent}
use sample_kv.Clients.Answers.{Handled}
use sample_kv.Clients.Spec.{After}
use sample_kv.Recovery.Redo.{Store}
use sample_kv.Prelude.{refl, ap, sym, ◌∙◌, Bool-cases, inl, inr, none, some, ◌==◌}
use sample_kv.Clients.{act, is_none, events, trace}
use sample_kv.Clients.Answers.{shown}
use sample_kv.Clients.Replies.{
  single_flag, abs_of, Same, Spoke, silent, spoke, SpecRun, stop, more, Serves, handled,
  run_request-Meets, go_on-Meets, same-Waits, update-Waits,
}

-- A step to a world that serves, and the same step of the specification.
pub record Moves {w v : World} {db : Map} (h : Serves w db) (s : Step w v) : Type 0 where
  pub committed_map : Map
  pub serves : Serves v committed_map
  pub spoken : Spoke (abs_of h) (abs_of serves) (events s)

-- A request that waits is not seen, and its command is as before one of its own or not.
waits-Same :
    {w : World} {db : Map} (h : Serves w db) (i : ℕ) (r : Request) {s : Session}
    (h' : Serves (act i s (some (record { request = r; is_single = is_none (w.txs i) })) w) db)
    → w.waiting i ≡ none
    → s.ht ≡ w.shared.ht
    → h'.changes ≡ h.changes
    → Same (abs_of h) (abs_of h')
waits-Same {w} h i r {s} h' idle ht cs = record {
  map = λ q. refl;
  overlays = λ j pos q.
      ap (λ t. shown t (h'.changes j) q) ht
      ∙ ap (λ (c : ℕ → List Change). shown w.shared.ht (c j) q) cs;
  singles = λ j pos. elim (Bool-cases (i == j)) [
    | inl b ↦ rw b (
        subst (λ (k : ℕ). is_none (w.txs i) ≡ single_flag (w.waiting k) (w.txs k))
          (let e : i ≡ j = ground arith in e) (ap (λ p. single_flag p (w.txs i)) (sym idle)))
    | inr b ↦ rw b refl
  ];
}

blocked-Consistent :
    {txs : ℕ → Option Tx} {ht : Store} {cs : ℕ → List Change} {db : Map} {i : ℕ} {a : After}
    {s : Session} {left : Option (List ℕ)}
    → Handled txs ht cs db i a left (blocked s)
    → (es : List Entry) × (s.ht ≡ ht) × Consistent s (update txs i s.tx) es cs db
blocked-Consistent (Handled.waits {es = es} c same) = (es, same, c)

-- The CHECK line of the snapshot thread.
checks :
    {s : Session} {txs : ℕ → Option Tx} {es : List Entry} {cs : ℕ → List Change} {db : Map}
    (c : Consistent s txs es cs db) (ongoing : List Tx) {lsn : ℕ} {log' : Log}
    → IsEntry (checked (ongoing_transaction_ids ongoing))
    → suc (length es) < 2 ^ 32
    → check_snapshot ongoing s.log ≡ some (lsn, log')
    → Consistent
        (record s { log = log' })
        txs
        (es ++ checked (ongoing_transaction_ids ongoing) ∷ [])
        cs
        db
checks {s} {txs} {es} {cs} {db} c ongoing {lsn} {log'} fits room e =
    let (log, runs, durable) = check_snapshot-Durable s.ht s.log es ongoing c.durable room fits in
    let same : log ≡ log' = cc in
    record {
      durable =
          subst (λ (l : Log). Durable s.ht l (es ++ checked (ongoing_transaction_ids ongoing) ∷ []))
            same durable;
      stored = c.stored;
      ready = c.ready;
      client =
          λ i pos. ClientOk-more (checked (ongoing_transaction_ids ongoing) ∷ []) (c.client i pos);
      rest = c.rest;
      db_stored = c.db_stored;
    }

-- Every step of a client, or of the snapshot thread, keeps what holds between the steps, whatever the other
-- threads have begun, and is a step of the specification with the same answer, or is not seen where no
-- client gets one. A command that follows a pointer of `tx_list` that was never set is a fault and no step.
pub Step-Serves : {w v : World} {db : Map} (s : Step w v) (h : Serves w db) → Moves h s
Step-Serves {w} {v} {db} (answers i stack freed r pos idle f room e) h =
    let m = run_request-Meets h i stack freed pos room r f idle e in
    record {
      committed_map = m.committed_map;
      serves = m.serves;
      spoken = spoke i r m.says m.becomes;
    }
Step-Serves {w} {v} {db} (waits i stack freed r pos idle f room e) h =
    let (keyed, tx, has) = run_request-waits i stack freed r (session_of i w) _ e in
    let (es, same, c) = blocked-Consistent (
      subst (Handled w.txs w.shared.ht h.changes db i _ _) e
        (handled h i stack freed pos room r f)) in
    let h' : Serves (act i _ (some (record { request = r; is_single = is_none (w.txs i) })) w) db =
      record {
        entries = es;
        changes = h.changes;
        consistent = c;
        pending_waits =
            update-Waits w.waiting w.txs i _ _ h.pending_waits
              (λ q. same-Waits _ q _ (record { fits = f; keyed = keyed; started = (tx, has) }));
      } in
    record { committed_map = db; serves = h'; spoken = silent (waits-Same h i r h' idle same refl) }
Step-Serves {w} {v} {db} (snapshots ongoing {lsn} {log'} lists fits room e) h = record {
  committed_map = db;
  serves = record {
    entries = h.entries ++ checked (ongoing_transaction_ids ongoing) ∷ [];
    changes = h.changes;
    consistent =
        checks h.consistent ongoing fits (omega (arith, h.consistent.durable.logged.counted)) e;
    pending_waits = h.pending_waits;
  };
  spoken = silent (record { map = λ q. refl; overlays = λ j pos q. refl; singles = λ j pos. refl });
}
Step-Serves {w} {v} {db} (resumes i stack freed p pos pending room e) h =
    let m = go_on-Meets h i stack freed pos room p pending e in
    record {
      committed_map = m.committed_map;
      serves = m.serves;
      spoken = spoke i p.request m.says m.becomes;
    }

-- A world that is reached from one that serves, by any steps in any order, also serves, and the
-- specification gives the clients the same answers in the same order: `get` sees the writes of its own
-- open transaction over the committed map, `commit` moves them there, `abort` drops them, and a command
-- outside a transaction is committed at once. The keys and values of a step fit the log, and the log has
-- room for it; a command that follows a pointer of `tx_list` that was never set is a fault and no step.
pub Reach-SpecRun :
    {w v : World} {db : Map} (r : Reach w v) (h : Serves w db)
    → (db' : Map) × (h' : Serves v db') × SpecRun (abs_of h) (abs_of h') (trace r)
Reach-SpecRun here h = (_, h, stop)
Reach-SpecRun (later r s) h =
    let (db, h', run) = Reach-SpecRun r h in
    let m = Step-Serves s h' in (m.committed_map, m.serves, more run m.spoken)
