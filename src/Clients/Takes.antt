-- ===== src/Clients/Takes.antt =====
-- A thread that begins a transaction (`kv_txm_start_new_transaction`, src/tx_manager.c) and one that gets
-- a lock (src/lock_manager.c).
use sample_kv.Prelude.{
  ℕ, suc, ◌+◌, ◌%◌, ◌^◌, ◌<◌, ◌≡◌, ap, sym, ◌∙◌, true, Option, none, some, List, [], ◌∷◌, ◌++◌,
  arith, length, ◌==◌, differ, ==_refl,
}
use mathlib.Core.Path.{subst}
use sample_kv.Key.{Bytes, key_funcs}
use sample_kv.Utils.{djb2}
use sample_kv.Hash.{same}
use sample_kv.Lock.{Manager, lm_wlock}
use sample_kv.Lock.Counts.{
  held_count, lock_at, one_if, in_bucket, in_bucket-append, lm_wlock-Ready, lm_wlock-held,
}
use sample_kv.Recovery.Entries.{Entry, started}
use sample_kv.Recovery.Redo.Replay.{Map}
use sample_kv.Transaction.{Tx, add_lock}
use sample_kv.Transaction.Chain.{Change, TxChain}
use sample_kv.Transaction.Touched.{touches}
use sample_kv.Command.Session.{Session, begin_transaction, start_new_transaction}
use sample_kv.Command.Session.Invariant.{next_id, begin_transaction-Begun}
use sample_kv.Clients.{update}
use sample_kv.Clients.Consistent.{locks_of, Opened, Opened-more, ClientOk, Consistent, update_one}

-- No lock is taken or given back, and the log grows.
pub ClientOk-more :
    {lm : Manager} {es : List Entry} {db : Map} {i : ℕ} {o : Option Tx} {cs : List Change}
    (ext : List Entry)
    → ClientOk lm es db i o cs
    → ClientOk lm (es ++ ext) db i o cs
ClientOk-more ext k = record {
  held = k.held;
  closed = k.closed;
  opened = λ tx h. Opened-more ext (k.opened tx h);
  locked = k.locked;
  own = k.own;
}

-- The locks of another thread change, the changes of this one stay.
pub ClientOk-locks :
    {lm lm' : Manager} {es : List Entry} {db : Map} {i : ℕ} {o : Option Tx} {cs : List Change}
    → ((b : ℕ) → held_count i (lock_at lm' b) ≡ held_count i (lock_at lm b))
    → ClientOk lm es db i o cs
    → ClientOk lm' es db i o cs
ClientOk-locks same k = record {
  held = λ b. same b ∙ k.held b;
  closed = k.closed;
  opened = k.opened;
  locked = k.locked;
  own = k.own;
}

abbrev pub some_tx : Tx → Option Tx → Tx
some_tx d none = d
some_tx d (some tx) = tx

module _ {s : Session} {txs : ℕ → Option Tx} {es : List Entry} {cs : ℕ → List Change} {db : Map}
    (c : Consistent s txs es cs db) (i : ℕ) (pos : 0 < i) where
  -- `begin`, or a command outside a transaction.
  pub begins :
      txs i ≡ none
      → suc (length es) < 2 ^ 32
      → Consistent
          (begin_transaction s).0
          (update txs i (some (begin_transaction s).1))
          (es ++ started 0 (next_id s) ∷ [])
          cs
          db
  unfolding begin_transaction start_new_transaction touches
  begins no_tx room =
      let b = begin_transaction-Begun s es c.durable c.stored room in
      let k = c.client i pos in
      let nothing = k.closed no_tx in
      record {
        durable = b.active.durable;
        stored = c.stored;
        ready = c.ready;
        client =
            update_one (λ j o. ClientOk s.lm (es ++ started 0 (next_id s) ∷ []) db j o (cs j)) txs i
              (some (begin_transaction s).1)
              (record {
                held = λ b'. k.held b' ∙ ap (λ o. in_bucket b' (locks_of o)) no_tx;
                closed = λ e. cc;
                opened = λ tx e.
                    subst (λ t. Opened (es ++ started 0 (next_id s) ∷ []) t (cs i))
                      (ap (some_tx (begin_transaction s).1) e)
                      (record {
                        chain =
                            subst
                              (λ l.
                                TxChain (es ++ started 0 (next_id s) ∷ [])
                                  (begin_transaction s).1.last_lsn l)
                              (sym nothing) b.active.chain;
                        last = b.active.last;
                        id = b.active.id;
                      });
                locked = λ q e. absurd (let bad = sym (ap (touches q) nothing) ∙ e in cc);
                own = k.own;
              })
              (λ j pos' ne. ClientOk-more (started 0 (next_id s) ∷ []) (c.client j pos'));
        rest = c.rest;
        db_stored = c.db_stored;
      }

  -- A lock that the thread gets.
  pub locks :
      (tx : Tx) (key : Bytes) {lm : Manager}
      → txs i ≡ some tx
      → lm_wlock i s.lm key ≡ some lm
      → Consistent (record s { lm = lm }) (update txs i (some (add_lock tx key))) es cs db
  locks tx key {lm} has run =
      let k = c.client i pos in
      record {
        durable = c.durable;
        stored = c.stored;
        ready = lm_wlock-Ready i pos c.ready key run;
        client =
            update_one (λ j o. ClientOk lm es db j o (cs j)) txs i (some (add_lock tx key))
              (record {
                held = λ b.
                    lm_wlock-held i pos c.ready key i b pos run
                    ∙ rw (==_refl i, in_bucket-append b tx.locks key)
                        (ap (λ (n : ℕ). n + one_if true (b == djb2 key % 64))
                          (k.held b ∙ ap (λ o. in_bucket b (locks_of o)) has));
                closed = λ e. cc;
                opened = λ tx' e.
                    let o = k.opened tx has in
                    subst (λ t. Opened es t (cs i)) (ap (some_tx tx) e)
                      (record { chain = o.chain; last = o.last; id = o.id });
                locked = λ q e. omega (
                  arith,
                  in_bucket-append (djb2 q % 64) tx.locks key,
                  k.locked q e,
                  ap (λ o. in_bucket (djb2 q % 64) (locks_of o)) has,
                );
                own = k.own;
              })
              (λ j pos' ne.
                ClientOk-locks
                  (λ b.
                    lm_wlock-held i pos c.ready key j b pos' run
                    ∙ rw (differ j i (λ e. ne (sym e))) (omega arith))
                  (c.client j pos'));
        rest = c.rest;
        db_stored = c.db_stored;
      }
