-- ===== src/Clients/Blocked.antt =====
-- Which requests of src/kv_command.c wait for a lock, and with what transaction.
use sample_kv.Prelude.{
  ℕ, length, Bool-cases, ◌≢◌, ◌≡◌, refl, ap, sym, ◌∙◌, inl, inr, Bool, Option, none, some,
  Option-cases, ltb,
}
use sample_kv.Key.{Bytes, key_funcs}
use sample_kv.Hash.{get}
use sample_kv.Lock.{Manager, lm_wlock, lm_rlock}
use sample_kv.Recovery.{abort_log}
use sample_kv.Transaction.{Tx, add_lock, set_last_lsn, rollback}
use sample_kv.Command.{Request}
use sample_kv.Command.Session.{
  Session, Outcome, done, blocked, fault, ensure, reply_value, write_set, write_del, run_request,
  run_get, run_set, run_del, run_begin, run_commit, run_abort, get_with, set_with, del_with,
  replies, commit_transaction,
}

-- The key whose lock a request takes.
abbrev pub key_of : Request → Option Bytes
key_of (Request.get key) = some key
key_of (Request.set key value) = some key
key_of (Request.del key) = some key
key_of _ = none

abbrev waiting_tx : Outcome → Option Tx
waiting_tx (blocked s) = s.tx
waiting_tx _ = none

-- An outcome under a lock that was tried: it waits only where the lock is not got, with its transaction.
pub data Tried (lock : Option Manager) (tx : Tx) : Outcome → Type 0 where
  ran : {lm : Manager} {s : Session} {reply : Bytes} → lock ≡ some lm → Tried lock tx (done s reply)
  failed : Tried lock tx fault
  stuck : {s : Session} → lock ≡ none → s.tx ≡ some tx → Tried lock tx (blocked s)

module _ (i : ℕ) (stack : Bytes) (freed : Bytes → Bytes) where
  replies-Tried :
      (lm : Manager) (tx : Tx) (o : Option Session) (reply : Bytes)
      → Tried (some lm) tx (replies i stack freed o reply)
  replies-Tried lm tx none reply = failed
  replies-Tried lm tx (some s) reply = ran refl

  replies_answers :
      (o : Option Session) (reply : Bytes) (s' : Session)
      → replies i stack freed o reply ≢ blocked s'
  replies_answers none reply s' = λ e. cc
  replies_answers (some s) reply s' = λ e. cc

  reply_value-Tried :
      (lm : Manager) (tx : Tx) (o : Option Bytes) (s : Option Session)
      → Tried (some lm) tx (reply_value i stack freed o s)
  reply_value-Tried lm tx none s = replies-Tried lm tx s _
  reply_value-Tried lm tx (some v) s = elim (Bool-cases (ltb (length v) 64)) [
    | inl e ↦ rw e (replies-Tried lm tx s v)
    | inr e ↦ rw e failed
  ]

  pub get_with-Tried :
      (key : Bytes) (b : Bool) (s : Session) (tx : Tx)
      → Tried (lm_wlock i s.lm key) tx (get_with i stack freed key (b, s, tx))
  unfolding get_with
  get_with-Tried key b s tx = elim (Option-cases (lm_rlock i s.lm key)) [
    | inl e ↦ rw (get_with, e) (stuck refl refl)
    | inr (lm, e) ↦ rw (get_with, e) (reply_value-Tried lm tx (get s.ht key) _)
  ]

  pub set_with-Tried :
      (key value : Bytes) (b : Bool) (s : Session) (tx : Tx)
      → Tried (lm_wlock i s.lm key) tx (set_with i stack freed key value (b, s, tx))
  unfolding set_with
  set_with-Tried key value b s tx = elim (Option-cases (lm_wlock i s.lm key)) [
    | inl e ↦ rw (set_with, e) (stuck refl refl)
    | inr (lm, e) ↦
        elim (Option-cases
          (write_set key value (record { tx = add_lock tx key; ht = s.ht; log = s.log }))) [
            | inl e' ↦ rw (set_with, e, e') failed
            | inr (t, e') ↦ rw (set_with, e, e') (replies-Tried lm tx _ _)
          ]
  ]

  pub del_with-Tried :
      (key : Bytes) (b : Bool) (s : Session) (tx : Tx)
      → Tried (lm_wlock i s.lm key) tx (del_with i stack freed key (b, s, tx))
  unfolding del_with
  del_with-Tried key b s tx = elim (Option-cases (lm_wlock i s.lm key)) [
    | inl e ↦ rw (del_with, e) (stuck refl refl)
    | inr (lm, e) ↦ elim (Option-cases (get s.ht key)) [
      | inl missing ↦ rw (del_with, e, missing) (replies-Tried lm tx _ _)
      | inr (old, found) ↦
          elim (Option-cases
            (write_del key old (record { tx = add_lock tx key; ht = s.ht; log = s.log }))) [
              | inl e' ↦ rw (del_with, e, found, e') failed
              | inr (t, e') ↦ rw (del_with, e, found, e') (replies-Tried lm tx _ _)
            ]
    ]
  ]

  -- An outcome that waits has its key and transaction.
  stuck_tx :
      {lock : Option Manager} {tx : Tx} {o : Outcome} {s : Session}
      → Tried lock tx o
      → o ≡ blocked s
      → s.tx ≡ some tx
  stuck_tx (ran got) e = cc
  stuck_tx failed e = cc
  stuck_tx {tx = tx} (stuck {s} none_got t) e = ap waiting_tx (sym e) ∙ t

  begin_answers : (s s' : Session) → run_begin i stack freed s ≢ blocked s'
  unfolding run_begin
  begin_answers s s' = elim (Option-cases s.tx) [
    | inl h ↦ rw (run_begin, h) (λ e. cc)
    | inr (tx, h) ↦ rw (run_begin, h) (λ e. cc)
  ]

  commit_answers : (s s' : Session) → run_commit i stack freed s ≢ blocked s'
  unfolding run_commit
  commit_answers s s' = elim (Option-cases s.tx) [
    | inl h ↦ rw (run_commit, h) (λ e. cc)
    | inr (tx, h) ↦
        rw (run_commit, h) (replies_answers (commit_transaction i stack freed s tx) _ s')
  ]

  abort_answers : (s s' : Session) → run_abort i stack freed s ≢ blocked s'
  unfolding run_abort
  abort_answers s s' = elim (Option-cases s.tx) [
    | inl h ↦ rw (run_abort, h) (λ e. cc)
    | inr (tx, h) ↦
        let (new_lsn, log') = abort_log s.log tx.last_lsn tx.id in
        elim (Option-cases
          (rollback stack (record { tx = set_last_lsn tx new_lsn; ht = s.ht; log = log' }))) [
            | inl e' ↦ rw (run_abort, h, e') (λ e. cc)
            | inr (t, e') ↦ rw (run_abort, h, e') (replies_answers _ _ s')
          ]
  ]

  pub run_request-waits :
      (r : Request) (s s' : Session)
      → run_request i stack freed r s ≡ blocked s'
      → ((key : Bytes) × (key_of r ≡ some key)) × (tx : Tx) × (s'.tx ≡ some tx)
  unfolding run_request run_get run_set run_del run_begin run_commit run_abort
  run_request-waits (Request.get key) s s' e =
      let (b, s0, tx) = ensure i stack freed s.tx s in
      ((key, refl), tx, stuck_tx (get_with-Tried key b s0 tx) e)
  run_request-waits (Request.set key value) s s' e =
      let (b, s0, tx) = ensure i stack freed s.tx s in
      ((key, refl), tx, stuck_tx (set_with-Tried key value b s0 tx) e)
  run_request-waits (Request.del key) s s' e =
      let (b, s0, tx) = ensure i stack freed s.tx s in
      ((key, refl), tx, stuck_tx (del_with-Tried key b s0 tx) e)
  run_request-waits Request.nothing s s' e = cc
  run_request-waits Request.invalid s s' e = cc
  run_request-waits Request.overrun s s' e = cc
  run_request-waits Request.begin s s' e = absurd (begin_answers s s' e)
  run_request-waits Request.commit s s' e = absurd (commit_answers s s' e)
  run_request-waits Request.abort s s' e = absurd (abort_answers s s' e)
