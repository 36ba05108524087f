-- ===== src/Clients/Replies.antt =====
-- The requests of one thread (`run_command`, src/kv_command.c) among those of the others, and what they do
-- to the committed map.
use sample_kv.Prelude.{
  ℕ, ◌<◌, ◌≡◌, sym, Bool-cases, inl, inr, Option, none, some, List, [], ◌∷◌, ◌++◌, arith, ◌==◌,
}
use mathlib.Core.Path.{subst}
use sample_kv.Key.{Bytes, key_funcs}
use sample_kv.Recovery.Entries.{Entry}
use sample_kv.Recovery.Redo.Replay.{Map}
use sample_kv.Transaction.{Tx}
use sample_kv.Transaction.Chain.{Change}
use sample_kv.Command.{Request}
use sample_kv.Command.Session.{Session, done}
use sample_kv.Clients.{World, Pending, update, session_of, go_on, Fits, HasRoom}
use sample_kv.Clients.Blocked.{key_of}
use sample_kv.Clients.Consistent.{Consistent, update_self, update_other}
use sample_kv.Clients.Answers.{Handled, list_behind, with_tx, same_txs}
use sample_kv.Clients.Requests.{run_request-Handled, go_on-Handled, update_same}
use sample_kv.Clients.Spec.{After, Overlay, spec}
use sample_kv.Clients.{is_none, act, Event}
use sample_kv.Prelude.{[], ◌∷◌, ◌++◌}
use sample_kv.Command.Session.{run_request}
use sample_kv.Prelude.{◌≢◌, Bool, ap, sym, ◌∙◌}
use sample_kv.Clients.Answers.{shown}

-- A request that waits: it has a key and a transaction, and fits the log.
pub record Waits (r : Request) (o : Option Tx) : Type 0 where
  pub fits : Fits r
  pub keyed : (key : Bytes) × (key_of r ≡ some key)
  pub started : (tx : Tx) × (o ≡ some tx)

-- What holds of a world, with the map `db` that was committed.
pub record Serves (w : World) (db : Map) : Type 0 where
  pub entries : List Entry
  pub changes : ℕ → List Change
  pub consistent : Consistent w.shared w.txs entries changes db
  pub pending_waits : (i : ℕ) (p : Pending) → w.waiting i ≡ some p → Waits p.request (w.txs i)

-- What the clients can see of a world: the committed map, and for each thread what its open transaction
-- wrote and whether the next command is one of its own.
pub record Abs : Type 0 where
  pub map : Map
  pub overlays : ℕ → Overlay
  pub singles : ℕ → Bool

abbrev pub single_flag : Option Pending → Option Tx → Bool
single_flag none o = is_none o
single_flag (some p) o = p.is_single

abbrev pub abs_of : {w : World} {db : Map} → Serves w db → Abs
abs_of {w} {db} h = record {
  map = db;
  overlays = λ i. shown w.shared.ht (h.changes i);
  singles = λ i. single_flag (w.waiting i) (w.txs i);
}

abbrev pub spec_of : Abs → ℕ → Request → After
spec_of a i r = spec r (a.singles i) a.map (a.overlays i)

-- Thread `i` has become what `x` says, and the others are as they were.
pub record Becomes (a : Abs) (i : ℕ) (x : After) (a' : Abs) : Type 0 where
  pub map : (q : Bytes) → a'.map q ≡ x.map q
  pub mine : (q : Bytes) → a'.overlays i q ≡ x.overlay q
  pub single : a'.singles i ≡ x.is_single
  pub others : (j : ℕ) → 0 < j → i ≢ j → (q : Bytes) → a'.overlays j q ≡ a.overlays j q
  pub other_singles : (j : ℕ) → 0 < j → i ≢ j → a'.singles j ≡ a.singles j

-- No client can tell the difference.
pub record Same (a a' : Abs) : Type 0 where
  pub map : (q : Bytes) → a'.map q ≡ a.map q
  pub overlays : (j : ℕ) → 0 < j → (q : Bytes) → a'.overlays j q ≡ a.overlays j q
  pub singles : (j : ℕ) → 0 < j → a'.singles j ≡ a.singles j

-- The specification goes on with the answers that the clients get in a step.
pub data Spoke (a a' : Abs) : List Event → Type 0 where
  silent : Same a a' → Spoke a a' []
  spoke :
      (i : ℕ) (r : Request) {reply : Bytes}
      → reply ≡ (spec_of a i r).reply
      → Becomes a i (spec_of a i r) a'
      → Spoke a a' (record { who = i; request = r; reply = reply } ∷ [])

pub data SpecRun (a : Abs) : Abs → List Event → Type 0 where
  stop : SpecRun a a []
  more : {b c : Abs} {es fs : List Event} → SpecRun a b es → Spoke b c fs → SpecRun a c (es ++ fs)

-- The world behind an answer to `r`, as the specification has it.
pub record Meets {w : World} {db : Map} (h : Serves w db) (i : ℕ) (r : Request) (v : World)
    (reply : Bytes) : Type 0 where
  pub committed_map : Map
  pub serves : Serves v committed_map
  pub becomes : Becomes (abs_of h) i (spec_of (abs_of h) i r) (abs_of serves)
  pub says : reply ≡ (spec_of (abs_of h) i r).reply

pub same-Waits :
    (p q : Pending) (o : Option Tx) → Waits p.request o → some p ≡ some q → Waits q.request o
same-Waits p q o h e = subst (λ (x : Pending). Waits x.request o) (let same : p ≡ q = cc in same) h

-- The requests that wait, where one has come or gone.
pub update-Waits :
    (f : ℕ → Option Pending) (txs : ℕ → Option Tx) (i : ℕ) (o : Option Pending) (t : Option Tx)
    → ((j : ℕ) (p : Pending) → f j ≡ some p → Waits p.request (txs j))
    → ((p : Pending) → o ≡ some p → Waits p.request t)
    → (j : ℕ) (p : Pending) → update f i o j ≡ some p
    → Waits p.request (update txs i t j)
update-Waits f txs i o t h h' j p e = elim (Bool-cases (i == j)) [
  | inl b ↦ rw b (h' p (rw b at e))
  | inr b ↦ rw b (h j p (rw b at e))
]

meets :
    {w : World} {db : Map} (h : Serves w db) (i : ℕ) (r : Request) {a : After} {s : Session}
    {reply : Bytes} {left : Option (List ℕ)}
    → a ≡ spec_of (abs_of h) i r
    → Handled w.txs w.shared.ht h.changes db i a left (done s reply)
    → Meets h i r (act i s none w) reply
meets {w} h i r {a} {s} e (Handled.answered t) = record {
  committed_map = t.committed_map;
  serves = record {
    entries = t.entries;
    changes = t.changes;
    consistent = t.consistent;
    pending_waits = update-Waits w.waiting w.txs i none _ h.pending_waits (λ p q. cc);
  };
  becomes = record {
    map = λ q. t.map q ∙ ap (λ (x : After). x.map q) e;
    mine = λ q. t.mine q ∙ ap (λ (x : After). x.overlay q) e;
    single =
        ap (λ p. single_flag p (update w.txs i s.tx i)) (update_self w.waiting i none)
        ∙ ap is_none (update_self w.txs i s.tx)
        ∙ t.single
        ∙ ap (λ (x : After). x.is_single) e;
    others = t.others;
    other_singles = λ j pos ne.
        ap (λ p. single_flag p (update w.txs i s.tx j)) (update_other w.waiting i j none ne)
        ∙ ap (single_flag (w.waiting j)) (update_other w.txs i j s.tx ne);
  };
  says = t.says ∙ ap (λ (x : After). x.reply) e;
}

module _ {w : World} {db : Map} (h : Serves w db) (i : ℕ) (stack : Bytes) (freed : Bytes → Bytes)
    (pos : 0 < i) (room : HasRoom w) where
  pub handled :
      (r : Request)
      → Fits r
      → Handled w.txs w.shared.ht h.changes db i
          (spec r (is_none (w.txs i)) db ((abs_of h).overlays i))
          none
          (run_request i stack freed r (session_of i w))
  handled r f =
      run_request-Handled i pos stack freed w.txs db w.shared h.entries h.changes h.consistent
        (omega (arith, h.consistent.durable.logged.counted)) r f

  -- A request that is answered, of a thread among open transactions of the others: the reply, the committed
  -- map and the writes of the thread are those that `spec` says, and the writes of the others stay.
  pub run_request-Meets :
      (r : Request) {s : Session} {reply : Bytes}
      → Fits r
      → w.waiting i ≡ none
      → run_request i stack freed r (session_of i w) ≡ done s reply
      → Meets h i r (act i s none w) reply
  run_request-Meets r f idle e =
      meets h i r (ap (λ p. spec r (single_flag p (w.txs i)) db ((abs_of h).overlays i)) (sym idle))
        (subst (Handled w.txs w.shared.ht h.changes db i _ _) e (handled r f))

  -- The outcome where a thread that has waited tries its lock again.
  pub resumed :
      (p : Pending) (tx : Tx)
      → w.waiting i ≡ some p
      → w.txs i ≡ some tx
      → Handled w.txs w.shared.ht h.changes db i
          (spec p.request p.is_single db ((abs_of h).overlays i))
          (list_behind p.is_single tx.id w.shared.tx_list)
          (go_on i stack freed p.request p.is_single (session_of i w) (w.txs i))
  resumed p tx pending e =
      let q = h.pending_waits i p pending in
      let (key, keyed) = q.keyed in
      subst
        (λ o.
          Handled w.txs w.shared.ht h.changes db i
            (spec p.request p.is_single db ((abs_of h).overlays i))
            (list_behind p.is_single tx.id w.shared.tx_list)
            (go_on i stack freed p.request p.is_single (session_of i w) o))
        (sym e)
        (go_on-Handled i pos stack freed w.txs db p.request key p.is_single (session_of i w) tx
          h.entries h.changes keyed q.fits
          (same_txs (update_same w.txs i (some tx) e) (with_tx (w.txs i) h.consistent))
          (omega (arith, h.consistent.durable.logged.counted)))

  -- The same for a request that has waited.
  pub go_on-Meets :
      (p : Pending) {s : Session} {reply : Bytes}
      → w.waiting i ≡ some p
      → go_on i stack freed p.request p.is_single (session_of i w) (w.txs i) ≡ done s reply
      → Meets h i p.request (act i s none w) reply
  go_on-Meets p pending e =
      meets h i p.request
        (ap (λ o. spec p.request (single_flag o (w.txs i)) db ((abs_of h).overlays i))
          (sym pending))
        (let (tx, has) = (h.pending_waits i p pending).started in
          subst (Handled w.txs w.shared.ht h.changes db i _ _) e (resumed p tx pending has))
