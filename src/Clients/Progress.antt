-- ===== src/Clients/Progress.antt =====
-- When a thread that waits for a lock (`kv_rwl_wlock` of src/lock_rwlock.c) gets on.
use sample_kv.Prelude.{
  ℕ, ◌%◌, ◌<◌, ◌≡◌, ◌≢◌, refl, sym, ◌∙◌, Bool, true, false, Option, none, some, List, ◌∷◌, ==_refl,
}
use mathlib.Core.Path.{subst}
use sample_kv.Key.{Bytes}
use sample_kv.Utils.{djb2}
use sample_kv.Lock.{Manager, lm_wlock}
use sample_kv.Lock.Counts.{in_bucket, lm_wlock_gets}
use sample_kv.Recovery.Redo.Replay.{Map}
use sample_kv.Transaction.{Tx}
use sample_kv.Command.{Request}
use sample_kv.Command.Session.{Session, Outcome, done, delete_id}
use sample_kv.Clients.{World, Pending, session_of, act, go_on, HasRoom, Step, resumes}
use sample_kv.Clients.Blocked.{key_of, Tried, stuck, get_with-Tried, set_with-Tried, del_with-Tried}
use sample_kv.Clients.Consistent.{locks_of, update_self}
use sample_kv.Clients.Answers.{Handled, fails, answered, waits, list_behind}
use sample_kv.Clients.Spec.{After}
use sample_kv.Recovery.Redo.{Store}
use sample_kv.Transaction.Chain.{Change}
use sample_kv.Clients.Replies.{Serves, resumed}

at_key :
    (i : ℕ) (s : Session) (tx : Tx) {key k : Bytes} {o : Outcome}
    → some key ≡ some k
    → Tried (lm_wlock i s.lm key) tx o
    → Tried (lm_wlock i s.lm k) tx o
at_key i s tx {key} {k} {o} e t =
    subst (λ (x : Bytes). Tried (lm_wlock i s.lm x) tx o) (let same : key ≡ k = cc in same) t

pub go_on-Tried :
    (i : ℕ) (stack : Bytes) (freed : Bytes → Bytes) (r : Request) (key : Bytes) (b : Bool)
    (s : Session) (tx : Tx)
    → key_of r ≡ some key
    → Tried (lm_wlock i s.lm key) tx (go_on i stack freed r b s (some tx))
go_on-Tried i stack freed (Request.get key) k b s tx e =
    at_key i s tx e (get_with-Tried i stack freed key b s tx)
go_on-Tried i stack freed (Request.set key value) k b s tx e =
    at_key i s tx e (set_with-Tried i stack freed key value b s tx)
go_on-Tried i stack freed (Request.del key) k b s tx e =
    at_key i s tx e (del_with-Tried i stack freed key b s tx)
go_on-Tried i stack freed Request.nothing k b s tx e = absurd cc
go_on-Tried i stack freed Request.begin k b s tx e = absurd cc
go_on-Tried i stack freed Request.commit k b s tx e = absurd cc
go_on-Tried i stack freed Request.abort k b s tx e = absurd cc
go_on-Tried i stack freed Request.invalid k b s tx e = absurd cc
go_on-Tried i stack freed Request.overrun k b s tx e = absurd cc

-- The list can be left: there is no fault where the lock is got.
answers_of :
    {txs : ℕ → Option Tx} {ht : Store} {cs : ℕ → List Change} {db : Map} {i : ℕ} {a : After}
    {left : Option (List ℕ)} {lm : Manager} {tx : Tx} {o : Outcome}
    → Handled txs ht cs db i a left o
    → left ≢ none
    → Tried (some lm) tx o
    → (s : Session) × (reply : Bytes) × (o ≡ done s reply)
answers_of (fails e) open_end t = absurd (open_end e)
answers_of (answered {s} {reply} r) open_end t = (s, reply, refl)
answers_of (waits c same) open_end (stuck e e') = absurd cc

-- The first of the list can be taken off it.
can_leave :
    (b : Bool) (id : ℕ) (l : List ℕ)
    → (b ≡ true → (ids : List ℕ) × (l ≡ id ∷ ids))
    → list_behind b id l ≢ none
unfolding delete_id
can_leave false id l h e = cc
can_leave true id l h e =
    let (ids, first) = h refl in
    let left : delete_id id l ≡ some ids = rw (first, ==_refl id) refl in
    let impossible = sym left ∙ e in cc

-- In a world that serves, with room in the log, a request that waits can be answered in the next step, and
-- then waits no more, where no other thread has a lock in the bucket of its key and, for a command outside
-- a transaction, its own transaction is the oldest that is open.
pub waiting_goes_on :
    {w : World} {db : Map} (h : Serves w db) (i : ℕ) (stack : Bytes) (freed : Bytes → Bytes)
    (p : Pending) (key : Bytes) (tx : Tx)
    → 0 < i
    → w.waiting i ≡ some p
    → w.txs i ≡ some tx
    → HasRoom w
    → key_of p.request ≡ some key
    → ((j : ℕ) → 0 < j → j ≢ i → in_bucket (djb2 key % 64) (locks_of (w.txs j)) ≡ 0)
    → (p.is_single ≡ true → (ids : List ℕ) × (w.shared.tx_list ≡ tx.id ∷ ids))
    → (v : World) × Step w v × (v.waiting i ≡ none)
waiting_goes_on {w} {db} h i stack freed p key tx pos pending has room e others first =
    let (lm, got) =
      lm_wlock_gets i key h.consistent.ready
        (λ j pos' ne. (h.consistent.client j pos').held (djb2 key % 64) ∙ others j pos' ne) in
    let t =
      subst (λ o. Tried (some lm) tx (go_on i stack freed p.request p.is_single (session_of i w) o))
        (sym has)
        (subst
          (λ (l : Option Manager).
            Tried l tx (go_on i stack freed p.request p.is_single (session_of i w) (some tx)))
          got (go_on-Tried i stack freed p.request key p.is_single (session_of i w) tx e)) in
    let (s, reply, runs) =
      answers_of (resumed h i stack freed pos room p tx pending has)
        (can_leave p.is_single tx.id w.shared.tx_list first) t in
    (act i s none w, resumes i stack freed p pos pending room runs, update_self w.waiting i none)
