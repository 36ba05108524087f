-- ===== src/Clients/Ends.antt =====
-- A thread that ends its transaction (`kv_txm_end_transaction`, src/tx_manager.c), by COMMIT or by
-- rollback.
use sample_kv.Prelude.{
  ℕ, suc, ◌+◌, ◌-◌, ◌^◌, ◌<◌, ◌≡◌, refl, ap, sym, ◌∙◌, Bool, true, false, Bool-cases, inl, inr,
  Option, none, some, List, [], ◌∷◌, ◌++◌, arith, append_assoc, length, length-append, ◌==◌,
  if◌then◌else◌, differ, ==_refl,
}
use mathlib.Core.Path.{subst}
use sample_kv.Key.{Bytes, key_funcs}
use sample_kv.Hash.{get}
use sample_kv.Lock.{unlock_all, lm_unlock}
use sample_kv.Lock.Counts.{
  held_count, lock_at, in_bucket, unlock_all-Ready, unlock_all-held, lm_unlock-Ready,
  lm_unlock-held,
}
use sample_kv.Recovery.{LogType, plain_log}
use sample_kv.Recovery.Entries.{Entry, committed, aborted}
use sample_kv.Recovery.Write.{plain_log-committed, plain_log-aborted}
use sample_kv.Recovery.Redo.Replay.{Map, Reads-suc, effect}
use sample_kv.Transaction.{Tx, State, set_last_lsn, rollback}
use sample_kv.Transaction.Durable.{Durable, step-Durable}
use sample_kv.Transaction.Chain.{Change}
use sample_kv.Transaction.Touched.{touches, oldest, undo-at}
use sample_kv.Transaction.Rollback.{RolledBack, rollback-RolledBack}
use sample_kv.Command.Session.{
  Session, Outcome, done, fault, replies, run_abort, end_with, committed_state, committed_tx,
  delete_id, end_transaction, transaction_aborted,
}
use sample_kv.Command.Session.Access.{IsStored}
use sample_kv.Command.Session.Invariant.{aborted-Active}
use sample_kv.Clients.{update}
use sample_kv.Clients.Consistent.{
  locks_of, ClientOk, Consistent, update_all, update_other, locked_apart, client-Active,
}
use sample_kv.Clients.Takes.{ClientOk-more, ClientOk-locks}

touches-clear :
    (cs : ℕ → List Change) (i : ℕ) (q : Bytes)
    → ((j : ℕ) → 0 < j → touches q (update cs i [] j) ≡ false)
    → touches q (cs i) ≡ false
    → (j : ℕ) → 0 < j
    → touches q (cs j) ≡ false
touches-clear cs i q h mine j pos = elim (Bool-cases (i == j)) [
  | inl e ↦ subst (λ (k : ℕ). touches q (cs k) ≡ false) (let e' : i ≡ j = ground arith in e') mine
  | inr e ↦ ap (touches q) (sym (update_other cs i j [] (λ e'. ground arith))) ∙ h j pos
]

module _ {s : Session} {txs : ℕ → Option Tx} {es : List Entry} {cs : ℕ → List Change} {db : Map}
    (c : Consistent s txs es cs db) (i : ℕ) (pos : 0 < i) where
  -- The end of a transaction, with the table `ht` and the committed map `db'`.
  ends :
      (tx : Tx) (s' : Session) (ext : List Entry) (db' : Map)
      → txs i ≡ some tx
      → s'.lm ≡ unlock_all i s.lm tx.locks
      → Durable s'.ht s'.log (es ++ ext)
      → ((q : Bytes) → get s'.ht q ≡ (if touches q (cs i) then db' q else get s.ht q))
      → ((q : Bytes) → touches q (cs i) ≡ false → db' q ≡ db q)
      → ((q v : Bytes) → db' q ≡ some v → IsStored v)
      → Consistent s' (update txs i none) (es ++ ext) (update cs i []) db'
  unfolding touches in_bucket
  ends tx s' ext db' has lm d reads away db_ok =
      let held : (j b : ℕ)
          → 0 < j
          → held_count j (lock_at s'.lm b)
            ≡ held_count j (lock_at s.lm b) - (if j == i then in_bucket b tx.locks else 0) =
        λ j b pos'.
          ap (λ m. held_count j (lock_at m b)) lm
          ∙ unlock_all-held i s.lm tx.locks j b pos c.ready pos' in
      record {
        durable = d;
        stored = λ q v e. elim (Bool-cases (touches q (cs i))) [
          | inl t ↦ db_ok q v (sym (reads q ∙ rw t refl) ∙ e)
          | inr t ↦ c.stored q v (sym (reads q ∙ rw t refl) ∙ e)
        ];
        ready = rw lm (unlock_all-Ready i s.lm tx.locks pos c.ready);
        client =
            update_all (λ j o l. ClientOk s'.lm (es ++ ext) db' j o l) txs cs i none []
              (record {
                held = λ b.
                    held i b pos
                    ∙ rw (==_refl i) (
                        omega
                          (arith, (c.client i pos).held b, ap (λ o. in_bucket b (locks_of o)) has));
                closed = λ e. refl;
                opened = λ tx' e. cc;
                locked = λ q e. cc;
                own = λ q e. cc;
              })
              (λ j pos' ne.
                let k =
                  ClientOk-locks {lm' = s'.lm}
                    (λ b. held j b pos' ∙ rw (differ j i (λ e. ne (sym e))) (omega arith))
                    (ClientOk-more ext (c.client j pos')) in
                record {
                  held = k.held;
                  closed = k.closed;
                  opened = k.opened;
                  locked = k.locked;
                  own = λ q e.
                      k.own q e
                      ∙ sym (
                          away q
                            (locked_apart c j i q pos' pos (λ e'. ne (sym e')) (k.locked q e)));
                });
        rest = λ q h. elim (Bool-cases (touches q (cs i))) [
          | inl t ↦ reads q ∙ rw t refl
          | inr t ↦ reads q ∙ rw t (c.rest q (touches-clear cs i q h t)) ∙ sym (away q t)
        ];
        db_stored = db_ok;
      }

  -- The committed map behind a COMMIT line.
  abbrev pub commit_map : Map
  commit_map q = if touches q (cs i) then get s.ht q else db q

  pub commits :
      (stack : Bytes) (freed : Bytes → Bytes) (tx : Tx) (ids : List ℕ)
      → txs i ≡ some tx
      → suc (length es) < 2 ^ 32
      → Consistent
          (end_with i stack freed
            (committed_state i stack freed s tx)
            (committed_tx i stack freed s tx)
            ids)
          (update txs i none)
          (es ++ committed tx.last_lsn tx.id ∷ [])
          (update cs i [])
          commit_map
  unfolding effect
  commits stack freed tx ids has room =
      let o = (c.client i pos).opened tx has in
      let w =
        plain_log-committed c.durable.logged room tx.last_lsn tx.id (omega (arith, o.last)) o.id in
      ends tx
        (end_with i stack freed (committed_state i stack freed s tx)
          (committed_tx i stack freed s tx) ids)
        (committed tx.last_lsn tx.id ∷ []) commit_map has refl
        (step-Durable es _ w.1 (Reads-suc c.durable.reads))
        (λ q. same_read (touches q (cs i)) (get s.ht q) (db q)) (λ q t. rw t refl)
        (λ q v e. elim (Bool-cases (touches q (cs i))) [
          | inl t ↦ c.stored q v (rw t at e)
          | inr t ↦ c.db_stored q v (rw t at e)
        ])
    where
      same_read : (t : Bool) (x y : Option Bytes) → x ≡ (if t then (if t then x else y) else x)
      same_read true x y = refl
      same_read false x y = refl

  -- The lock of a single command, which is released once more.
  pub unlocks :
      (key : Bytes)
      → txs i ≡ none
      → Consistent (record s { lm = lm_unlock i s.lm key }) txs es cs db
  unfolding in_bucket
  unlocks key no_tx = record {
    durable = c.durable;
    stored = c.stored;
    ready = lm_unlock-Ready i pos c.ready key;
    client = λ j pos'. ClientOk-locks (λ b. same_held j b pos') (c.client j pos');
    rest = c.rest;
    db_stored = c.db_stored;
  }
    where
      same_held :
          (j b : ℕ)
          → 0 < j
          → held_count j (lock_at (lm_unlock i s.lm key) b) ≡ held_count j (lock_at s.lm b)
      same_held j b pos' = elim (Bool-cases (i == j)) [
        | inl e ↦
            let e' : i ≡ j = ground arith in
            let zero_held : held_count i (lock_at s.lm b) ≡ 0 =
              (c.client i pos).held b ∙ ap (λ o. in_bucket b (locks_of o)) no_tx in
            subst
              (λ (k : ℕ).
                held_count k (lock_at (lm_unlock i s.lm key) b) ≡ held_count k (lock_at s.lm b))
              e' (lm_unlock-held i pos c.ready key i b pos ∙ rw zero_held (omega arith))
        | inr e ↦
            lm_unlock-held i pos c.ready key j b pos'
            ∙ rw (differ j i (λ e'. ground arith)) (omega arith)
      ]

  -- A rollback, and what it leaves, where the transaction can be taken off the list.
  pub record Aborted (r : Outcome) : Type 0 where
    pub after : Session
    pub lines : List Entry
    pub runs : r ≡ done after transaction_aborted
    pub no_tx : after.tx ≡ none
    pub consistent : Consistent after (update txs i none) (es ++ lines) (update cs i []) db
    pub reads : (q : Bytes) → get after.ht q ≡ (if touches q (cs i) then db q else get s.ht q)

  -- The state behind the ABORT line of `tx`.
  abbrev rolling : Tx → State
  rolling tx = record {
    tx = set_last_lsn tx (plain_log LogType.abort s.log tx.last_lsn tx.id).0;
    ht = s.ht;
    log = (plain_log LogType.abort s.log tx.last_lsn tx.id).1;
  }

  rolls :
      (stack : Bytes) (tx : Tx)
      → txs i ≡ some tx
      → length es + length (cs i) + 2 < 2 ^ 32
      → RolledBack
          (rolling tx)
          (es ++ aborted tx.last_lsn tx.id ∷ [])
          (cs i)
          (rollback stack (rolling tx))
  rolls stack tx has room =
      let a = client-Active c i tx pos has in
      let w =
        plain_log-aborted c.durable.logged (omega arith) tx.last_lsn tx.id (omega (arith, a.last))
          a.id in
      let line = aborted tx.last_lsn tx.id in
      let a' = aborted-Active a (omega arith) (plain_log LogType.abort s.log tx.last_lsn tx.id) w in
      rollback-RolledBack stack (rolling tx) (es ++ line ∷ []) (cs i) a'.durable a'.chain a'.last
        (omega (arith, length-append es (line ∷ []))) a'.id

  -- The rollback, and then the bad pointer.
  pub abort_lost :
      (stack : Bytes) (freed : Bytes → Bytes) (tx : Tx)
      → txs i ≡ some tx
      → delete_id tx.id s.tx_list ≡ none
      → length es + length (cs i) + 2 < 2 ^ 32
      → run_abort i stack freed (record s { tx = some tx }) ≡ fault
  unfolding run_abort
  abort_lost stack freed tx has lost room =
      let r = rolls stack tx has room in
      let lost' : delete_id r.after.tx.id s.tx_list ≡ none =
        ap (λ (n : ℕ). delete_id n s.tx_list) r.id ∙ lost in
      let ended : end_transaction i stack freed
            (record s { ht = r.after.ht; log = r.after.log; tx = some tx }) r.after.tx
          ≡ none =
        rw (end_transaction, lost') refl in
      rw (run_abort, r.runs) (ap (λ o. replies i stack freed o transaction_aborted) ended)

  pub aborts :
      (stack : Bytes) (freed : Bytes → Bytes) (tx : Tx) {ids : List ℕ}
      → txs i ≡ some tx
      → delete_id tx.id s.tx_list ≡ some ids
      → length es + length (cs i) + 2 < 2 ^ 32
      → Aborted (run_abort i stack freed (record s { tx = some tx }))
  unfolding run_abort
  aborts stack freed tx {ids} has left room =
      let line = aborted tx.last_lsn tx.id in
      let r = rolls stack tx has room in
      let after =
        end_with i stack freed (record s { ht = r.after.ht; log = r.after.log; tx = some tx })
          r.after.tx ids in
      let taken_off : delete_id r.after.tx.id s.tx_list ≡ some ids =
        ap (λ (n : ℕ). delete_id n s.tx_list) r.id ∙ left in
      let ended : end_transaction i stack freed
            (record s { ht = r.after.ht; log = r.after.log; tx = some tx }) r.after.tx
          ≡ some after =
        rw (end_transaction, taken_off) refl in
      record {
        after = after;
        lines = line ∷ r.ext;
        runs = rw (run_abort, r.runs) (ap (λ o. replies i stack freed o transaction_aborted) ended);
        no_tx = refl;
        consistent =
            ends tx after (line ∷ r.ext) db has (ap (unlock_all i s.lm) r.locks)
              (subst (λ l. Durable r.after.ht r.after.log l) (append_assoc es (line ∷ []) r.ext)
                r.durable)
              (λ q. r.reads q ∙ undo-at (cs i) (λ k. get s.ht k) q ∙ restored q) (λ q t. refl)
              c.db_stored;
        reads = λ q. r.reads q ∙ undo-at (cs i) (λ k. get s.ht k) q ∙ restored q;
      }
    where
      restored :
          (q : Bytes)
          → (if touches q (cs i) then oldest q (cs i) else get s.ht q)
            ≡ (if touches q (cs i) then db q else get s.ht q)
      restored q = elim (Bool-cases (touches q (cs i))) [
        | inl t ↦ rw t ((c.client i pos).own q t)
        | inr t ↦ rw t refl
      ]
