-- ===== src/Clients/Puts.antt =====
-- A thread that writes a key which it has under lock (`set` and `del`, src/kv_command.c).
use sample_kv.Prelude.{
  ℕ, ◌%◌, ◌<◌, ◌≡◌, ap, sym, ◌∙◌, true, false, ◌||◌, Bool-cases, inl, inr, Option, some, List, [],
  ◌∷◌, ◌++◌, arith, ◌==◌,
}
use mathlib.Core.Path.{subst}
use sample_kv.Key.{Bytes, key_funcs}
use sample_kv.Utils.{djb2}
use sample_kv.Hash.{get, same}
use sample_kv.Hash.Chain.{eq_of_same}
use sample_kv.Lock.Counts.{in_bucket}
use sample_kv.Recovery.Entries.{Entry, updated}
use sample_kv.Recovery.Redo.Replay.{Map}
use sample_kv.Transaction.{Tx, State}
use sample_kv.Transaction.Chain.{Change}
use sample_kv.Transaction.Touched.{touches, oldest}
use sample_kv.Command.Session.{Session, bytes_of}
use sample_kv.Command.Session.Access.{Written, written-bytes_of}
use sample_kv.Clients.{update}
use sample_kv.Clients.Consistent.{
  locks_of, Opened, ClientOk, Consistent, update_all, update_self, update_other, reads_committed,
}
use sample_kv.Clients.Takes.{some_tx, ClientOk-more}

-- Nothing else is written, where one thread has one change more.
touches-update :
    (cs : ℕ → List Change) (i : ℕ) (x : Change) (q : Bytes)
    → 0 < i
    → ((j : ℕ) → 0 < j → touches q (update cs i (x ∷ cs i) j) ≡ false)
    → (same x.key q ≡ false) × ((j : ℕ) → 0 < j → touches q (cs j) ≡ false)
unfolding touches
touches-update cs i x q pos h =
    let own : same x.key q || touches q (cs i) ≡ false =
      ap (touches q) (sym (update_self cs i (x ∷ cs i))) ∙ h i pos in
    (
      ground arith,
      (λ j pos'. elim (Bool-cases (i == j)) [
        | inl e ↦
            subst (λ (k : ℕ). touches q (cs k) ≡ false) (let e' : i ≡ j = ground arith in e')
              (let mine : touches q (cs i) ≡ false = ground arith in mine)
        | inr e ↦
            ap (touches q) (sym (update_other cs i j (x ∷ cs i) (λ e'. ground arith))) ∙ h j pos'
      ]),
    )

module _ {s : Session} {txs : ℕ → Option Tx} {es : List Entry} {cs : ℕ → List Change} {db : Map}
    (c : Consistent s txs es cs db) (i : ℕ) (pos : 0 < i) (tx : Tx) (has : txs i ≡ some tx)
    (k v : Bytes) (under_lock : 0 < in_bucket (djb2 k % 64) tx.locks) where
  abbrev pub the_change : Change
  the_change = record { key = k; old_val = bytes_of (get s.ht k); new_val = v }

  abbrev pub the_line : Entry
  the_line = updated tx.last_lsn tx.id k (bytes_of (get s.ht k)) v

  same_locks : (b : ℕ) → in_bucket b (locks_of (txs i)) ≡ in_bucket b tx.locks
  same_locks b = ap (λ o. in_bucket b (locks_of o)) has

  locked_key :
      (q : Bytes) → touches q (the_change ∷ cs i) ≡ true → 0 < in_bucket (djb2 q % 64) tx.locks
  unfolding touches
  locked_key q e = elim (Bool-cases (same k q)) [
    | inl h ↦
        subst (λ (x : Bytes). 0 < in_bucket (djb2 x % 64) tx.locks) (eq_of_same k q h) under_lock
    | inr h ↦ omega (arith, (c.client i pos).locked q (rw h at e), same_locks (djb2 q % 64))
  ]

  own_key : (q : Bytes) → touches q (the_change ∷ cs i) ≡ true → oldest q (the_change ∷ cs i) ≡ db q
  unfolding touches oldest
  own_key q e = elim (Bool-cases (touches q (cs i))) [
    | inl h ↦ rw h ((c.client i pos).own q h)
    | inr h ↦
        let at_k : same k q ≡ true = ground arith in
        let is_k = eq_of_same k q at_k in
        rw h (
          written-bytes_of s.ht k c.stored
          ∙ ap (λ x. get s.ht x) is_k
          ∙ reads_committed c i q pos
              (subst (λ (x : Bytes). 0 < in_bucket (djb2 x % 64) (locks_of (txs i))) is_k
                (omega (arith, same_locks (djb2 k % 64))))
              h)
  ]

  pub puts :
      {base : Map} {r : Option State}
      → (w : Written (record { tx = tx; ht = s.ht; log = s.log }) es (cs i) base k v r)
      → Consistent
          (record s { ht = w.after.ht; log = w.after.log })
          (update txs i (some w.after.tx))
          (es ++ the_line ∷ [])
          (update cs i (the_change ∷ cs i))
          db
  puts w = record {
    durable = w.active.durable;
    stored = w.active.stored;
    ready = c.ready;
    client =
        update_all (λ j o l. ClientOk s.lm (es ++ the_line ∷ []) db j o l) txs cs i
          (some w.after.tx) (the_change ∷ cs i)
          (record {
            held =
                λ b. (c.client i pos).held b ∙ same_locks b ∙ ap (in_bucket b) (sym w.same_locks);
            closed = λ e. cc;
            opened = λ tx' e.
                subst (λ t. Opened (es ++ the_line ∷ []) t (the_change ∷ cs i)) (ap (some_tx tx) e)
                  (record { chain = w.active.chain; last = w.active.last; id = w.active.id });
            locked =
                λ q e. omega (arith, locked_key q e, ap (in_bucket (djb2 q % 64)) w.same_locks);
            own = own_key;
          })
          (λ j pos' ne. ClientOk-more (the_line ∷ []) (c.client j pos'));
    rest = λ q h.
        let (away, others) = touches-update cs i the_change q pos h in
        w.reads q ∙ rw away (c.rest q others);
    db_stored = c.db_stored;
  }
