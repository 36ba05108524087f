-- ===== src/Command/Session/Writes.antt =====
-- `set` and `del`, inside a transaction and as single commands.
use sample_kv.Prelude.{
  ℕ, suc, ◌+◌, ◌^◌, ◌<◌, ◌≡◌, refl, ap, ◌∙◌, Bool, true, false, Option, none, some, List, [], ◌∷◌,
  ◌++◌, arith, length, length-append, ==_refl,
}
use mathlib.Core.Option
use sample_kv.Key.{Bytes, key_funcs}
use sample_kv.Hash
use sample_kv.Hash.{get}
use sample_kv.Hash.Methods.{del-Writes}
use sample_kv.Lock.{Manager, lm_wlock}
use sample_kv.Recovery.Entries.{Entry, started, updated, committed, IsShort}
use sample_kv.Recovery.Write.{plain_log-committed}
use sample_kv.Recovery.Redo.Replay.{Map, Reads-suc, Reads-IsSmall, effect, put, written}
use sample_kv.Transaction.{Tx, State, add_lock}
use sample_kv.Transaction.Durable.{step-Durable}
use sample_kv.Transaction.Chain.{Change}
use sample_kv.Command.Session.{
  Session, done, replies, unlocked, end_with, committed_state, committed_tx, delete_id,
  begin_transaction, run_set, run_del, del_with, commit_transaction, end_transaction, bytes_of,
  start_new_transaction, close_single, ensure, set_with, set_success, del_success, write_set,
  write_del,
}
use sample_kv.Command.Session.Access.{Active, IsStored, write_set-Active, write_del-Active}
use sample_kv.Command.Session.Invariant.{InTx, Idle, next_id, begin_transaction-Begun}

pub add_lock-Active :
    {t : State} {es : List Entry} {cs : List Change} {base : Map} (key : Bytes)
    → Active t es cs base
    → Active (record t { tx = add_lock t.tx key }) es cs base
add_lock-Active key a = record {
  durable = a.durable;
  chain = a.chain;
  last = a.last;
  id = a.id;
  stored = a.stored;
  undoes = a.undoes;
}

-- The session behind a command of a transaction that wrote `o` under `key`.
pub record InTxAfter (s : Session) (cs : List Change) (base : Map) (key : Bytes) (o : Option Bytes)
    (s' : Session) : Type 0 where
  pub entries : List Entry
  pub the_change : Change
  pub in_tx : InTx s' entries (the_change ∷ cs) base
  pub reads : (q : Bytes) → get s'.ht q ≡ put (λ x. get s.ht x) key o q

module _ (self : ℕ) (stack : Bytes) (freed : Bytes → Bytes) where
  pub locked_set :
      (key value : Bytes) (is_single : Bool) (s : Session) (tx : Tx) (lm : Manager) {t : State}
      → lm_wlock self s.lm key ≡ some lm
      → write_set key value (record { tx = add_lock tx key; ht = s.ht; log = s.log }) ≡ some t
      → set_with self stack freed key value (is_single, s, tx)
        ≡ replies self stack freed
            (close_single self stack freed is_single key
              (record s { lm = lm; ht = t.ht; log = t.log })
              t.tx)
            set_success
  unfolding set_with
  locked_set key value is_single s tx lm lock w = rw (set_with, lock, w) refl

  -- `set` of a value that is short and not empty, in a transaction that gets the write lock: it answers
  -- OK, the new value stands under the key and under no other, the log agrees with the table, and the
  -- transaction, with one change more, can still be undone.
  pub run_set-InTx :
      (s : Session) (es : List Entry) (cs : List Change) (base : Map) (key value : Bytes)
      (lm : Manager)
      → InTx s es cs base
      → lm_wlock self s.lm key ≡ some lm
      → suc (length es) < 2 ^ 32
      → IsShort key
      → IsStored value
      → (s' : Session) × (run_set self stack freed key value s ≡ done s' set_success)
        × InTxAfter s cs base key (written value) s'
  unfolding run_set close_single
  run_set-InTx s es cs base key value lm i lock room sk sv =
      let w = write_set-Active _ es cs base (add_lock-Active key i.active) room key value sk sv in
      (
        record s { lm = lm; ht = w.after.ht; log = w.after.log; tx = some w.after.tx },
        ap (λ o. set_with self stack freed key value (ensure self stack freed o s)) i.has
            ∙ locked_set key value false s i.the_tx lm lock w.runs,
        record {
          entries = _;
          the_change = _;
          in_tx = record { the_tx = w.after.tx; has = refl; active = w.active };
          reads = w.reads;
        },
      )

  committed-Idle :
      (is_key : Bytes) (s : Session) (tx : Tx) (ids : List ℕ) {es : List Entry} {cs : List Change}
      {base : Map}
      → Active (record { tx = tx; ht = s.ht; log = s.log }) es cs base
      → suc (length es) < 2 ^ 32
      → Idle
          (unlocked self stack freed is_key (
            end_with self stack freed
              (committed_state self stack freed s tx)
              (committed_tx self stack freed s tx)
              ids))
          (es ++ committed tx.last_lsn tx.id ∷ [])
  unfolding effect
  committed-Idle is_key s tx ids {es} a room =
      let w =
        plain_log-committed a.durable.logged room tx.last_lsn tx.id (omega (arith, a.last)) a.id in
      record {
        no_tx = refl;
        durable = step-Durable es _ w.1 (Reads-suc a.durable.reads);
        stored = a.stored;
      }

  -- The end of a single command, where its transaction is the only one.
  close_only :
      (is_key : Bytes) (s : Session) (tx : Tx) (id : ℕ)
      → s.tx_list ≡ id ∷ []
      → tx.id ≡ id
      → close_single self stack freed true is_key s tx
        ≡ some (
            unlocked self stack freed is_key (
              end_with self stack freed
                (committed_state self stack freed s tx)
                (committed_tx self stack freed s tx)
                []))
  unfolding close_single commit_transaction end_transaction delete_id
  close_only is_key s tx id only same = rw (only, same, ==_refl id) refl

  -- `set` of a short value that is not empty, outside a transaction, where no transaction is open and the
  -- lock is got: it answers OK, the new value stands under the key and under no other, the log, with the
  -- BEGIN, UPDATE and COMMIT lines of the command, agrees with the table, and no transaction is open.
  pub run_set-single :
      (s : Session) (es : List Entry) (key value : Bytes) (lm : Manager)
      → Idle s es
      → s.tx_list ≡ []
      → lm_wlock self s.lm key ≡ some lm
      → length es + 3 < 2 ^ 32
      → IsShort key
      → IsStored value
      → (s' : Session) × (run_set self stack freed key value s ≡ done s' set_success)
        × ((q : Bytes) → get s'.ht q ≡ put (λ x. get s.ht x) key (written value) q)
        × ((fs : List Entry) × Idle s' fs × (length fs ≡ length es + 3))
        × (s'.tx_list ≡ [])
  unfolding run_set begin_transaction start_new_transaction
  run_set-single s es key value lm i alone lock room sk sv =
      let b = begin_transaction-Begun s es i.durable i.stored (omega arith) in
      let (s₁, tx) = begin_transaction s in
      let e1 = length-append es (started 0 (next_id s) ∷ []) in
      let w =
        write_set-Active _ _ [] _ (add_lock-Active key b.active) (omega (arith, e1)) key value sk
          sv in
      let s₂ : Session = record s₁ { lm = lm; ht = w.after.ht; log = w.after.log } in
      let fs = es ++ started 0 (next_id s) ∷ [] in
      let e2 =
        length-append fs (updated tx.last_lsn tx.id key (bytes_of (get s.ht key)) value ∷ []) in
      let gs = fs ++ updated tx.last_lsn tx.id key (bytes_of (get s.ht key)) value ∷ [] in
      let e3 = length-append gs (committed w.after.tx.last_lsn w.after.tx.id ∷ []) in
      let closed = committed-Idle key s₂ w.after.tx [] w.active (omega (arith, e1, e2)) in
      (
        unlocked self stack freed key (
            end_with self stack freed (committed_state self stack freed s₂ w.after.tx)
              (committed_tx self stack freed s₂ w.after.tx) []),
        ap (λ o. set_with self stack freed key value (ensure self stack freed o s)) i.no_tx
            ∙ locked_set key value true s₁ tx lm lock w.runs
            ∙ ap (λ o. replies self stack freed o set_success)
                (close_only key s₂ w.after.tx (next_id s)
                  (ap (λ (l : List ℕ). l ++ next_id s ∷ []) alone) w.same_id),
        w.reads,
        (_, closed, omega (arith, e1, e2, e3)),
        refl,
      )

  pub locked_del :
      (key old : Bytes) (is_single : Bool) (s : Session) (tx : Tx) (lm : Manager) {t : State}
      → lm_wlock self s.lm key ≡ some lm
      → get s.ht key ≡ some old
      → write_del key old (record { tx = add_lock tx key; ht = s.ht; log = s.log }) ≡ some t
      → (Hash.del s.ht key).0 ≡ some (key, old)
      → del_with self stack freed key (is_single, s, tx)
        ≡ replies self stack freed
            (close_single self stack freed is_single
              (freed key)
              (record s { lm = lm; ht = t.ht; log = t.log })
              t.tx)
            del_success
  unfolding del_with
  locked_del key old is_single s tx lm lock found w removed =
      rw (del_with, lock, found, w, removed) refl

  -- `del` in a transaction that gets the write lock, of a key that is there: it answers 1, the key is
  -- gone and no other, and the transaction can still be undone.
  pub run_del-InTx :
      (s : Session) (es : List Entry) (cs : List Change) (base : Map) (key old : Bytes)
      (lm : Manager)
      → InTx s es cs base
      → lm_wlock self s.lm key ≡ some lm
      → suc (length es) < 2 ^ 32
      → IsShort key
      → get s.ht key ≡ some old
      → (s' : Session) × (run_del self stack freed key s ≡ done s' del_success)
        × InTxAfter s cs base key none s'
  unfolding run_del close_single
  run_del-InTx s es cs base key old lm i lock room sk found =
      let w = write_del-Active _ es cs base (add_lock-Active key i.active) room key old sk found in
      let valid = i.active.durable.reads.valid in
      let small = Reads-IsSmall i.active.durable.logged.room i.active.durable.reads in
      let removed = (del-Writes s.ht valid small key).0 ∙ ap (Option.map (λ v. (key, v))) found in
      (
        record s { lm = lm; ht = w.after.ht; log = w.after.log; tx = some w.after.tx },
        ap (λ o. del_with self stack freed key (ensure self stack freed o s)) i.has
            ∙ locked_del key old false s i.the_tx lm lock found w.runs removed,
        record {
          entries = _;
          the_change = _;
          in_tx = record { the_tx = w.after.tx; has = refl; active = w.active };
          reads = w.reads;
        },
      )
