-- ===== src/Clients/Keyed.antt =====
-- `get`, `set` and `del` (src/kv_command.c) of one thread among the others.
use sample_kv.Prelude.{
  ◌≢◌, Bool-cases, ◌||◌, ℕ, ◌+◌, ◌%◌, ◌^◌, ◌<◌, ◌≡◌, refl, ap, sym, ◌∙◌, Bool, true, false, inl,
  inr, Option, none, some, Option-cases, List, [], ◌∷◌, arith, length, length-append, if◌then◌else◌,
  ==_refl,
}
use mathlib.Core.Option
use mathlib.Core.Path.{subst, fun_ext}
use sample_kv.Key.{Bytes, key_funcs}
use sample_kv.Utils.{djb2}
use sample_kv.Hash.{get, same}
use sample_kv.Hash.Chain.{eq_of_same}
use sample_kv.Command.{Request}
use sample_kv.Hash.Methods.{del-Writes}
use sample_kv.Lock.{Manager, lm_rlock, lm_wlock}
use sample_kv.Lock.Counts.{in_bucket, in_bucket-append, one_if}
use sample_kv.Recovery.Entries.{Entry, IsShort}
use sample_kv.Recovery.Redo.Replay.{Map, put, written, Reads-IsSmall}
use sample_kv.Transaction.{Tx, add_lock}
use sample_kv.Transaction.Chain.{Change}
use sample_kv.Transaction.Touched.{touches}
use sample_kv.Command.Session.{
  Session, replies, blocked, close_single, get_with, set_with, del_with,
}
use sample_kv.Command.Session.Access.{
  IsStored, written-IsStored, write_set-Active, write_del-Active,
}
use sample_kv.Command.Session.Reads.{reply_value-fits, answer}
use sample_kv.Command.Session.Writes.{locked_set, locked_del}
use sample_kv.Clients.{update}
use sample_kv.Clients.Spec.{After, over, write_key, deletes, in_tx, ending}
use sample_kv.Recovery.Redo.{Store}
use sample_kv.Transaction.Chain.{Change}
use sample_kv.Command.Session.{set_success, del_success, del_not_found}
use sample_kv.Clients.Consistent.{
  Consistent, update_self, update_other, client-Active, reads_committed, locked_apart, locks_of,
}
use sample_kv.Clients.Takes.{locks}
use sample_kv.Clients.Puts.{puts, the_line}
use sample_kv.Clients.Answers.{
  shown, Handled, list_behind, waits, update-update, same_txs, with_tx, closes, writes_first,
}

module _ (i : ℕ) (pos : 0 < i) (stack : Bytes) (freed : Bytes → Bytes) (txs : ℕ → Option Tx)
    (db : Map) where
  -- The lock is got, or waited for.
  module _ (s : Session) (tx : Tx) {es : List Entry} {cs : ℕ → List Change}
      (c : Consistent s (update txs i (some tx)) es cs db) (room : length es + 2 < 2 ^ 32)
      (key : Bytes) where
    has : update txs i (some tx) i ≡ some tx
    has = update_self txs i (some tx)

    stands :
        {a : After} {left : Option (List ℕ)}
        → Handled txs s.ht cs db i a left (blocked (record s { tx = some tx }))
    stands = waits (with_tx (some tx) c) refl

    in_locks : 0 < in_bucket (djb2 key % 64) (add_lock tx key).locks
    in_locks = omega (
      arith,
      in_bucket-append (djb2 key % 64) tx.locks key,
      ap (one_if true) (==_refl (djb2 key % 64)),
    )

    locked :
        {lm : Manager}
        → lm_wlock i s.lm key ≡ some lm
        → Consistent (record s { lm = lm }) (update txs i (some (add_lock tx key))) es cs db
    locked run = same_txs (update-update txs i (some tx) _) (locks c i pos tx key has run)

    locks_key :
        {lm : Manager}
        → lm_wlock i s.lm key ≡ some lm
        → 0 < in_bucket (djb2 key % 64) (locks_of (update txs i (some (add_lock tx key)) i))
    locks_key run =
        subst (λ o. 0 < in_bucket (djb2 key % 64) (locks_of o)) (sym (update_self txs i _)) in_locks

    -- What the thread sees.
    looks :
        {lm : Manager}
        → lm_wlock i s.lm key ≡ some lm
        → get s.ht key ≡ over (shown s.ht (cs i) key) (db key)
    looks run = elim (Bool-cases (touches key (cs i))) [
      | inl t ↦ rw t refl
      | inr t ↦ rw t (reads_committed (locked run) i key pos (locks_key run) t)
    ]

    -- What the others wrote stays where the thread writes its key.
    kept_others :
        (ht : Store) (v : Option Bytes) (x : Change) {lm : Manager}
        → lm_wlock i s.lm key ≡ some lm
        → ((q : Bytes) → get ht q ≡ put (λ k. get s.ht k) key v q)
        → (j : ℕ) → 0 < j
        → i ≢ j
        → (q : Bytes) → shown ht (update cs i (x ∷ cs i) j) q ≡ shown s.ht (cs j) q
    kept_others ht v x run reads j pos' ne q =
        ap (λ (l : List Change). shown ht l q) (update_other cs i j (x ∷ cs i) ne)
        ∙ (elim (Bool-cases (touches q (cs j))) [
          | inl t ↦ rw t (ap some (reads q ∙ away j pos' ne q t))
          | inr t ↦ rw t refl
        ])
      where
        away :
            (j : ℕ)
            → 0 < j
            → i ≢ j
            → (q : Bytes) → touches q (cs j) ≡ true
            → put (λ k. get s.ht k) key v q ≡ get s.ht q
        away j pos' ne q t = elim (Bool-cases (same key q)) [
          | inl b ↦
              let free =
                subst (λ (x : Bytes). touches x (cs j) ≡ false) (eq_of_same key q b)
                  (locked_apart (locked run) i j key pos pos' ne (locks_key run)) in
              absurd cc
          | inr b ↦ rw b refl
        ]

    wrote :
        (ht : Store) (old new : Bytes)
        → ((q : Bytes) → get ht q ≡ put (λ k. get s.ht k) key (written new) q)
        → shown ht (update cs i (record { key = key; old_val = old; new_val = new } ∷ cs i) i)
          ≡ write_key key (written new) (shown s.ht (cs i))
    unfolding touches
    wrote ht old new reads =
        ap (λ (l : List Change). shown ht l) (update_self cs i _)
        ∙ fun_ext (λ q.
          cases (same key q) (touches q (cs i)) (get ht q) (written new) (get s.ht q) (reads q))
      where
        cases :
            (b t : Bool) (x y z : Option Bytes)
            → x ≡ (if b then y else z)
            → (if b || t then some x else none)
              ≡ (if b then some y else (if t then some z else none))
        cases true t x y z e = ap some e
        cases false true x y z e = ap some e
        cases false false x y z e = refl

    pub get_with-Handled :
        (is_single : Bool)
        → Handled txs s.ht cs db i
            (ending is_single db (in_tx (Request.get key) db (shown s.ht (cs i))))
            (list_behind is_single tx.id s.tx_list)
            (get_with i stack freed key (is_single, s, tx))
    unfolding get_with
    get_with-Handled is_single = elim (Option-cases (lm_rlock i s.lm key)) [
      | inl e ↦ rw (get_with, e) stands
      | inr (lm, e) ↦
          let c' = locked e in
          let s' =
            close_single i stack freed is_single (freed key) (record s { lm = lm })
              (add_lock tx key) in
          rw
            (
              get_with,
              e,
              reply_value-fits (get s.ht key) s'
                  (λ v h. omega (arith, (c.stored key v h).short.short)) i stack freed,
            )
            (writes_first i pos stack freed txs db _ _
              (closes i pos stack freed txs db is_single (freed key) (record s { lm = lm })
                (add_lock tx key) (answer (get s.ht key)) c' (omega arith))
              (ap (λ v. ending is_single db (shown s.ht (cs i), answer v)) (looks e))
              (λ j pos' ne q. refl) refl)
    ]

    pub set_with-Handled :
        (value : Bytes) (is_single : Bool)
        → IsShort key
        → IsStored value
        → Handled txs s.ht cs db i
            (ending is_single db (in_tx (Request.set key value) db (shown s.ht (cs i))))
            (list_behind is_single tx.id s.tx_list)
            (set_with i stack freed key value (is_single, s, tx))
    unfolding set_with
    set_with-Handled value is_single sk sv = elim (Option-cases (lm_wlock i s.lm key)) [
      | inl e ↦ rw (set_with, e) stands
      | inr (lm, e) ↦
          let c' = locked e in
          let w =
            write_set-Active _ es (cs i) _
              (client-Active c' i (add_lock tx key) pos (update_self txs i _)) (omega arith) key
              value sk sv in
          let c'' =
            same_txs (update-update txs i _ _)
              (puts c' i pos (add_lock tx key) (update_self txs i _) key value in_locks w) in
          subst (Handled txs s.ht cs db i _ _)
            (sym (locked_set i stack freed key value is_single s tx lm e w.runs))
            (writes_first i pos stack freed txs db _ _
              (closes i pos stack freed txs db is_single key
                (record s { lm = lm; ht = w.after.ht; log = w.after.log }) w.after.tx set_success
                c''
                (omega (
                  arith,
                  length-append es (
                      the_line c' i pos (add_lock tx key) (update_self txs i _) key value in_locks
                      ∷ []),
                )))
              (ap (λ o. ending is_single db (o, set_success))
                (wrote w.after.ht _ value w.reads
                  ∙ ap (λ v. write_key key v (shown s.ht (cs i))) (written-IsStored value sv)))
              (kept_others w.after.ht _ _ e w.reads)
              (ap (λ (n : ℕ). list_behind is_single n s.tx_list) w.same_id))
    ]

    pub del_with-Handled :
        (is_single : Bool)
        → IsShort key
        → Handled txs s.ht cs db i
            (ending is_single db (in_tx (Request.del key) db (shown s.ht (cs i))))
            (list_behind is_single tx.id s.tx_list)
            (del_with i stack freed key (is_single, s, tx))
    unfolding del_with
    del_with-Handled is_single sk = elim (Option-cases (lm_wlock i s.lm key)) [
      | inl e ↦ rw (del_with, e) stands
      | inr (lm, e) ↦ elim (Option-cases (get s.ht key)) [
        | inl missing ↦
            let runs : del_with i stack freed key (is_single, s, tx)
                ≡ replies i stack freed
                    (close_single i stack freed is_single (freed key) (record s { lm = lm })
                      (add_lock tx key))
                    del_not_found =
              rw (del_with, e, missing) refl in
            subst (Handled txs s.ht cs db i _ _) (sym runs) (
              writes_first i pos stack freed txs db _ _
                (closes i pos stack freed txs db is_single (freed key) (record s { lm = lm })
                  (add_lock tx key) del_not_found (locked e) (omega arith))
                (ap (λ v. ending is_single db (deletes key (shown s.ht (cs i)) v))
                  (sym missing ∙ looks e))
                (λ j pos' ne q. refl) refl)
        | inr (old, found) ↦
            let c' = locked e in
            let valid = c.durable.reads.valid in
            let small = Reads-IsSmall c.durable.logged.room c.durable.reads in
            let removed =
              (del-Writes s.ht valid small key).0 ∙ ap (Option.map (λ v. (key, v))) found in
            let w =
              write_del-Active _ es (cs i) _
                (client-Active c' i (add_lock tx key) pos (update_self txs i _)) (omega arith) key
                old sk found in
            let c'' =
              same_txs (update-update txs i _ _)
                (puts c' i pos (add_lock tx key) (update_self txs i _) key [] in_locks w) in
            subst (Handled txs s.ht cs db i _ _)
              (sym (locked_del i stack freed key old is_single s tx lm e found w.runs removed))
              (writes_first i pos stack freed txs db _ _
                (closes i pos stack freed txs db is_single (freed key)
                  (record s { lm = lm; ht = w.after.ht; log = w.after.log }) w.after.tx del_success
                  c''
                  (omega (
                    arith,
                    length-append es (
                        the_line c' i pos (add_lock tx key) (update_self txs i _) key [] in_locks
                        ∷ []),
                  )))
                (ap (λ o. ending is_single db (o, del_success)) (wrote w.after.ht _ [] w.reads)
                  ∙ ap (λ v. ending is_single db (deletes key (shown s.ht (cs i)) v))
                      (sym found ∙ looks e))
                (kept_others w.after.ht _ _ e w.reads)
                (ap (λ (n : ℕ). list_behind is_single n s.tx_list) w.same_id))
      ]
    ]
