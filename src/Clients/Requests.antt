-- ===== src/Clients/Requests.antt =====
-- Every request (`run_command`, src/kv_command.c) of every thread keeps what holds between the steps.
use sample_kv.Prelude.{
  ℕ, ◌+◌, ◌*◌, ◌^◌, ◌≤◌, ◌<◌, ◌≡◌, ◌≢◌, refl, ap, sym, ◌∙◌, Bool, true, false, Bool-cases, inl, inr,
  Option, none, some, Option-cases, List, [], ◌∷◌, ◌++◌, arith, length, length-append, ◌==◌,
  if◌then◌else◌,
}
use mathlib.Core.Path.{subst, fun_ext}
use sample_kv.Key.{Bytes, key_funcs}
use sample_kv.Recovery.Entries.{Entry, started}
use sample_kv.Recovery.Redo.Replay.{Map}
use sample_kv.Transaction.{Tx}
use sample_kv.Hash.{get}
use sample_kv.Transaction.Touched.{touches}
use sample_kv.Transaction.Chain.{Change, TxChain, start, change, skip}
use sample_kv.Command.{Request}
use sample_kv.Command.Session.{
  Session, Outcome, done, ensure, begin_transaction, run_request, get_with, set_with, del_with,
  run_get, run_set, run_del, run_begin, run_commit, run_abort, transaction_already_started,
  transaction_not_started, invalid_command, commit_transaction, end_transaction, delete_id,
}
use sample_kv.Command.Session.Invariant.{next_id}
use sample_kv.Clients.{update, go_on, Fits, is_none}
use sample_kv.Recovery.Redo.{Store}
use sample_kv.Clients.Spec.{After, spec}
use sample_kv.Clients.Consistent.{Consistent, update_self, update_other, locked_apart}
use sample_kv.Clients.Blocked.{key_of}
use sample_kv.Clients.Takes.{begins}
use sample_kv.Clients.Ends.{commits, commit_map, aborts, abort_lost}
use sample_kv.Clients.Keyed.{get_with-Handled, set_with-Handled, del_with-Handled}
use sample_kv.Clients.Answers.{
  shown, over-shown, Handled, answered, fails, forgets, list_behind, same_txs, with_tx,
}

-- An update by what is there.
pub update_same {ℓ} : {A : Type ℓ} (f : ℕ → A) (i : ℕ) (a : A) → f i ≡ a → f ≡ update f i a
update_same f i a e = fun_ext (λ j. elim (Bool-cases (i == j)) [
  | inl t ↦ rw t (ap f (let same : j ≡ i = ground arith in same) ∙ e)
  | inr t ↦ rw t refl
])

-- A chain is as long as the log at most.
length-TxChain :
    {es : List Entry} {lsn : ℕ} {cs : List Change} → TxChain es lsn cs → length cs ≤ lsn
length-TxChain (start h) = omega arith
length-TxChain (change h p v c) = omega (arith, length-TxChain c)
length-TxChain (skip h p c) = omega (arith, length-TxChain c)

abort_nothing :
    (i : ℕ) (stack : Bytes) (freed : Bytes → Bytes) (s : Session)
    → s.tx ≡ none
    → run_abort i stack freed s ≡ done s transaction_not_started
unfolding run_abort
abort_nothing i stack freed s e =
    rw (run_abort, e) (ap (λ o. done (record s { tx = o }) transaction_not_started) e)

module _ (i : ℕ) (pos : 0 < i) (stack : Bytes) (freed : Bytes → Bytes) (txs : ℕ → Option Tx)
    (db : Map) where
  -- The command in the transaction of the client, or in one that it begins.
  ensured :
      (run : Bool × Session × Tx → Outcome) (a : Bool → Store → After) (s : Session)
      {es : List Entry} {cs : ℕ → List Change}
      → Consistent s txs es cs db
      → length es + 3 < 2 ^ 32
      → ((b : Bool) (s' : Session) (tx : Tx) (es' : List Entry)
          → Consistent s' (update txs i (some tx)) es' cs db
          → length es' + 2 < 2 ^ 32
          → Handled txs s'.ht cs db i (a b s'.ht) none (run (b, s', tx)))
      → Handled txs s.ht cs db i
          (a (is_none (txs i)) s.ht)
          none
          (run (ensure i stack freed (txs i) s))
  unfolding begin_transaction
  ensured run a s {es} {cs} c room h = elim (Option-cases (txs i)) [
    | inl e ↦ rw e (
        h true (begin_transaction s).0 (begin_transaction s).1 _ (begins c i pos e (omega arith))
          (omega (arith, length-append es (started 0 (next_id s) ∷ []))))
    | inr (tx, e) ↦
        rw e (h false s tx es (same_txs (update_same txs i (some tx) e) c) (omega arith))
  ]

  -- A request that has waited for its lock and tries it again.
  pub go_on-Handled :
      (r : Request) (key : Bytes) (b : Bool) (s : Session) (tx : Tx) (es : List Entry)
      (cs : ℕ → List Change)
      → key_of r ≡ some key
      → Fits r
      → Consistent s (update txs i (some tx)) es cs db
      → length es + 2 < 2 ^ 32
      → Handled txs s.ht cs db i
          (spec r b db (shown s.ht (cs i)))
          (list_behind b tx.id s.tx_list)
          (go_on i stack freed r b s (some tx))
  go_on-Handled (Request.get key) k b s tx es cs e f c room =
      get_with-Handled i pos stack freed txs db s tx c room key b
  go_on-Handled (Request.set key value) k b s tx es cs e f c room =
      set_with-Handled i pos stack freed txs db s tx c room key value b f.0 f.1
  go_on-Handled (Request.del key) k b s tx es cs e f c room =
      del_with-Handled i pos stack freed txs db s tx c room key b f
  go_on-Handled Request.nothing k b s tx es cs e f c room = absurd cc
  go_on-Handled Request.begin k b s tx es cs e f c room = absurd cc
  go_on-Handled Request.commit k b s tx es cs e f c room = absurd cc
  go_on-Handled Request.abort k b s tx es cs e f c room = absurd cc
  go_on-Handled Request.invalid k b s tx es cs e f c room = absurd cc
  go_on-Handled Request.overrun k b s tx es cs e f c room = absurd cc

  module _ (s : Session) (es : List Entry) (cs : ℕ → List Change) (c : Consistent s txs es cs db)
      (room : 2 * length es + 4 < 2 ^ 32) where
    seen : Session
    seen = record s { tx = txs i }

    abbrev staying : Option Tx → Bytes → After
    staying o reply = record {
      map = db;
      overlay = shown s.ht (cs i);
      is_single = is_none o;
      reply = reply;
    }

    stays :
        {a : After} (reply : Bytes)
        → a ≡ staying (txs i) reply
        → Handled txs s.ht cs db i a none (done seen reply)
    unfolding seen
    stays reply e =
        subst (λ (x : After). Handled txs s.ht cs db i x none (done seen reply)) (sym e)
          (answered (record {
            entries = es;
            changes = cs;
            committed_map = db;
            consistent = with_tx (txs i) (same_txs (update_same txs i (txs i) refl) c);
            map = λ q. refl;
            mine = λ q. refl;
            others = λ j pos' ne q. refl;
            single = refl;
            says = refl;
          }))

    abbrev spec_of : Request → After
    spec_of r = spec r (is_none (txs i)) db (shown s.ht (cs i))

    begin-Handled :
        Handled txs s.ht cs db i (spec_of Request.begin) none (run_begin i stack freed seen)
    unfolding run_begin seen begin_transaction
    begin-Handled = elim (Option-cases (txs i)) [
      | inl e ↦ rw e (
          answered (record {
            entries = es ++ started 0 (next_id s) ∷ [];
            changes = cs;
            committed_map = db;
            consistent =
                with_tx (some (begin_transaction seen).1)
                  (begins (with_tx (txs i) c) i pos e (omega arith));
            map = λ q. refl;
            mine = λ q. refl;
            others = λ j pos' ne q. refl;
            single = refl;
            says = refl;
          }))
      | inr (tx, e) ↦ rw e (
          stays transaction_already_started
            (ap (λ o. staying o transaction_already_started) (sym e)))
    ]

    commit-Handled :
        Handled txs s.ht cs db i (spec_of Request.commit) none (run_commit i stack freed seen)
    unfolding run_commit seen commit_transaction end_transaction touches
    commit-Handled = elim (Option-cases (txs i)) [
      | inl e ↦
          rw e (stays transaction_not_started (ap (λ o. staying o transaction_not_started) (sym e)))
      | inr (tx, e) ↦ elim (Option-cases (delete_id tx.id s.tx_list)) [
        | inl lost ↦ rw (e, commit_transaction, end_transaction, lost) (fails refl)
        | inr (ids, left) ↦
            rw (e, commit_transaction, end_transaction, left)
              (answered (record {
                entries = _;
                changes = update cs i [];
                committed_map = commit_map c i pos;
                consistent = commits (with_tx (txs i) c) i pos stack freed tx ids e (omega arith);
                map = λ q. over-shown (touches q (cs i)) (get s.ht q) (db q);
                mine = λ q. ap (λ (l : List Change). shown s.ht l q) (update_self cs i []);
                others = λ j pos' ne q.
                    ap (λ (l : List Change). shown s.ht l q) (update_other cs i j [] ne);
                single = refl;
                says = refl;
              }))
      ]
    ]

    abort-Handled :
        Handled txs s.ht cs db i (spec_of Request.abort) none (run_abort i stack freed seen)
    unfolding seen touches
    abort-Handled = elim (Option-cases (txs i)) [
      | inl e ↦ subst (Handled txs s.ht cs db i _ none) (sym (no_abort e)) (
          stays transaction_not_started
            (at_tx e ∙ ap (λ o. staying o transaction_not_started) (sym e)))
      | inr (tx, e) ↦
          let chain = (c.client i pos).opened tx e in
          let fit : length es + length (cs i) + 2 < 2 ^ 32 =
            omega (arith, length-TxChain chain.chain, chain.last) in
          elim (Option-cases (delete_id tx.id s.tx_list)) [
            | inl lost ↦
                subst (Handled txs s.ht cs db i _ none)
                  (sym (
                    ap (λ o. run_abort i stack freed (record s { tx = o })) e
                    ∙ abort_lost c i pos stack freed tx e lost fit))
                  (fails refl)
            | inr (ids, left) ↦
                let a = aborts c i pos stack freed tx e left fit in
                subst (Handled txs s.ht cs db i _ none)
                  (sym (ap (λ o. run_abort i stack freed (record s { tx = o })) e ∙ a.runs))
                  (answered (record {
                    entries = _;
                    changes = update cs i [];
                    committed_map = db;
                    consistent =
                        subst
                          (λ o.
                            Consistent a.after (update txs i o) (es ++ a.lines) (update cs i []) db)
                          (sym a.no_tx) a.consistent;
                    map = λ q. ap (λ (x : After). x.map q) (sym (at_tx e));
                    mine = λ q.
                        ap (λ (l : List Change). shown a.after.ht l q) (update_self cs i [])
                        ∙ ap (λ (x : After). x.overlay q) (sym (at_tx e));
                    others = λ j pos' ne q.
                        ap (λ (l : List Change). shown a.after.ht l q) (update_other cs i j [] ne)
                        ∙ untouched a.after.ht a.reads j pos' ne q;
                    single = ap is_none a.no_tx ∙ ap (λ (x : After). x.is_single) (sym (at_tx e));
                    says = ap (λ (x : After). x.reply) (sym (at_tx e));
                  }))
          ]
    ]
      where
        at_tx :
            {o : Option Tx}
            → txs i ≡ o
            → spec_of Request.abort ≡ spec Request.abort (is_none o) db (shown s.ht (cs i))
        at_tx e = ap (λ (o : Option Tx). spec Request.abort (is_none o) db (shown s.ht (cs i))) e

        untouched :
            (ht : Store)
            → ((q : Bytes) → get ht q ≡ (if touches q (cs i) then db q else get s.ht q))
            → (j : ℕ) → 0 < j
            → i ≢ j
            → (q : Bytes) → shown ht (cs j) q ≡ shown s.ht (cs j) q
        untouched ht reads j pos' ne q = elim (Bool-cases (touches q (cs j))) [
          | inl t ↦
              let free =
                locked_apart c j i q pos' pos (λ e'. ne (sym e')) ((c.client j pos').locked q t) in
              rw t (ap some (reads q ∙ rw free refl))
          | inr t ↦ rw t refl
        ]

        no_abort :
            txs i ≡ none
            → run_abort i stack freed (record s { tx = txs i })
              ≡ done (record s { tx = txs i }) transaction_not_started
        no_abort e = abort_nothing i stack freed (record s { tx = txs i }) e

    -- Any request of a thread, among open transactions of the other threads, ends in an answer, in a
    -- wait for a lock, or at the pointer of `tx_list` that was never set; where keys and values fit the log
    -- and the log has room for the lines. What holds between the steps holds then, and the answer, the committed map and the writes of
    -- the thread are those of `spec`.
    pub run_request-Handled :
        (r : Request)
        → Fits r
        → Handled txs s.ht cs db i
            (spec_of r)
            none
            (run_request i stack freed r (record s { tx = txs i }))
    unfolding run_request run_get run_set run_del seen
    run_request-Handled Request.nothing f = stays [] refl
    run_request-Handled Request.invalid f = stays invalid_command refl
    run_request-Handled Request.overrun f = absurd f
    run_request-Handled Request.begin f = begin-Handled
    run_request-Handled Request.commit f = commit-Handled
    run_request-Handled Request.abort f = abort-Handled
    run_request-Handled (Request.get key) f =
        ensured (get_with i stack freed key) (λ b ht. spec (Request.get key) b db (shown ht (cs i)))
          seen (with_tx (txs i) c) (omega arith)
          (λ b s' tx es' c' room'.
            forgets (get_with-Handled i pos stack freed txs db s' tx c' room' key b))
    run_request-Handled (Request.set key value) f =
        ensured (set_with i stack freed key value)
          (λ b ht. spec (Request.set key value) b db (shown ht (cs i))) seen (with_tx (txs i) c)
          (omega arith)
          (λ b s' tx es' c' room'.
            forgets (set_with-Handled i pos stack freed txs db s' tx c' room' key value b f.0 f.1))
    run_request-Handled (Request.del key) f =
        ensured (del_with i stack freed key) (λ b ht. spec (Request.del key) b db (shown ht (cs i)))
          seen (with_tx (txs i) c) (omega arith)
          (λ b s' tx es' c' room'.
            forgets (del_with-Handled i pos stack freed txs db s' tx c' room' key b f))
