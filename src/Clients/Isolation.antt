-- ===== src/Clients/Isolation.antt =====
-- What a thread reads while other threads write (`run_get`, src/kv_command.c).
use sample_kv.Prelude.{
  ℕ, ◌%◌, ◌<◌, ◌≡◌, refl, ap, sym, ◌∙◌, Bool, true, false, inl, inr, Option, none, some,
  Option-cases, List, arith, ==_refl,
}
use mathlib.Core.Path.{subst}
use sample_kv.Key.{Bytes, key_funcs}
use sample_kv.Utils.{djb2}
use sample_kv.Hash.{get}
use sample_kv.Lock.{lm_rlock}
use sample_kv.Lock.Counts.{in_bucket, in_bucket-append, one_if}
use sample_kv.Recovery.Entries.{Entry}
use sample_kv.Recovery.Redo.Replay.{Map}
use sample_kv.Transaction.{Tx, add_lock}
use sample_kv.Transaction.Chain.{Change}
use sample_kv.Transaction.Touched.{touches}
use sample_kv.Command.{Request}
use sample_kv.Command.Session.{
  Session, Outcome, done, blocked, replies, ensure, begin_transaction, close_single, get_with,
  run_get, run_request,
}
use sample_kv.Command.Session.Reads.{answer, reply_value-fits}
use sample_kv.Clients.{World, session_of, HasRoom}
use sample_kv.Clients.Consistent.{Consistent, reads_committed, locks_of, update_self}
use sample_kv.Clients.Takes.{locks, begins}
use sample_kv.Clients.Answers.{with_tx}
use sample_kv.Clients.Replies.{Serves}

abbrev reply_of : Outcome → Option Bytes
reply_of (done s reply) = some reply
reply_of _ = none

module _ (i : ℕ) (pos : 0 < i) (stack : Bytes) (freed : Bytes → Bytes) (db : Map) where
  same_reply :
      (o : Option Session) (reply : Bytes) {s' : Session} {reply' : Bytes}
      → replies i stack freed o reply ≡ done s' reply'
      → reply ≡ reply'
  same_reply none reply e = absurd cc
  same_reply (some s) reply e = let same = ap reply_of e in cc

  -- `get` under the lock, in the transaction of the thread.
  get_with-committed :
      {txs : ℕ → Option Tx} (s : Session) (tx : Tx) (q : Bytes) (b : Bool) {es : List Entry}
      {cs : ℕ → List Change} {s' : Session} {reply : Bytes}
      → Consistent s txs es cs db
      → txs i ≡ some tx
      → touches q (cs i) ≡ false
      → get_with i stack freed q (b, s, tx) ≡ done s' reply
      → reply ≡ answer (db q)
  unfolding get_with
  get_with-committed {txs} s tx q b {es} {cs} {s'} {reply} c has mine e =
      elim (Option-cases (lm_rlock i s.lm q)) [
        | inl busy ↦
            let waits : get_with i stack freed q (b, s, tx) ≡ blocked (record s { tx = some tx }) =
              rw (get_with, busy) refl in
            let no_reply = ap reply_of (sym waits ∙ e) in absurd cc
        | inr (lm, got) ↦
            let s0 =
              close_single i stack freed b (freed q) (record s { lm = lm }) (add_lock tx q) in
            let runs : get_with i stack freed q (b, s, tx)
                ≡ replies i stack freed s0 (answer (get s.ht q)) =
              rw
                (
                  get_with,
                  got,
                  reply_value-fits (get s.ht q) s0
                      (λ v h. omega (arith, (c.stored q v h).short.short)) i stack freed,
                )
                refl in
            let in_locks : 0 < in_bucket (djb2 q % 64) (add_lock tx q).locks = omega (
              arith,
              in_bucket-append (djb2 q % 64) tx.locks q,
              ap (one_if true) (==_refl (djb2 q % 64)),
            ) in
            let same : get s.ht q ≡ db q =
              reads_committed (locks c i pos tx q has got) i q pos
                (subst (λ o. 0 < in_bucket (djb2 q % 64) (locks_of o)) (sym (update_self txs i _))
                  in_locks)
                mine in
            let is : answer (get s.ht q) ≡ reply =
              same_reply s0 (answer (get s.ht q)) (sym runs ∙ e) in
            sym is ∙ ap answer same
      ]

-- In a world that serves, with room in the log, the answer to `get` of a key that the thread has not
-- written in its transaction is the committed value, whatever the transactions of the other threads have
-- written.
pub get-committed :
    {w : World} {db : Map} (h : Serves w db) (i : ℕ) (stack : Bytes) (freed : Bytes → Bytes)
    (q : Bytes) {s : Session} {reply : Bytes}
    → 0 < i
    → HasRoom w
    → touches q (h.changes i) ≡ false
    → run_request i stack freed (Request.get q) (session_of i w) ≡ done s reply
    → reply ≡ answer (db q)
unfolding run_request run_get
get-committed {w} {db} h i stack freed q {s} {reply} pos room mine e =
    elim (Option-cases (w.txs i)) [
      | inl none_yet ↦
          get_with-committed i pos stack freed db (begin_transaction (session_of i w)).0
            (begin_transaction (session_of i w)).1 q true
            (begins (with_tx (w.txs i) h.consistent) i pos none_yet
              (omega (arith, h.consistent.durable.logged.counted)))
            (update_self w.txs i _) mine
            (subst
              (λ o.
                get_with i stack freed q (ensure i stack freed o (session_of i w)) ≡ done s reply)
              none_yet e)
      | inr (tx, has) ↦
          get_with-committed i pos stack freed db (session_of i w) tx q false
            (with_tx (w.txs i) h.consistent) has mine
            (subst
              (λ o.
                get_with i stack freed q (ensure i stack freed o (session_of i w)) ≡ done s reply)
              has e)
    ]
