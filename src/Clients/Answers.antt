-- ===== src/Clients/Answers.antt =====
-- What an outcome of a command (src/kv_command.c) of one thread leaves to it and to the others.
use sample_kv.Prelude.{
  ◌≢◌, ℕ, suc, ◌^◌, ◌<◌, ◌≡◌, refl, ap, sym, ◌∙◌, inl, inr, Option-cases, Bool, true, false, Option,
  none, some, List, [], length, ◌==◌, if◌then◌else◌,
}
use mathlib.Core.Path.{subst, fun_ext}
use sample_kv.Key.{Bytes, key_funcs}
use sample_kv.Hash.{get}
use sample_kv.Recovery.Entries.{Entry}
use sample_kv.Recovery.Redo.Replay.{Map}
use sample_kv.Transaction.{Tx}
use sample_kv.Transaction.Chain.{Change}
use sample_kv.Transaction.Touched.{touches}
use sample_kv.Command.Session.{
  Session, Outcome, done, blocked, fault, close_single, delete_id, replies, unlocked, end_with,
  committed_state, committed_tx,
}
use sample_kv.Clients.{update, is_none}
use sample_kv.Clients.Spec.{After, Overlay, over, ending}
use sample_kv.Recovery.Redo.{Store}
use sample_kv.Transaction.Chain.{Change}
use sample_kv.Command.Session.{commit_transaction, end_transaction}
use sample_kv.Clients.Consistent.{Consistent, update_self, update_other}
use sample_kv.Clients.Ends.{commits, commit_map, unlocks}

-- What an open transaction with the changes `cs` wrote, as the table has it.
abbrev pub shown : Store → List Change → Overlay
shown ht cs q = if touches q cs then some (get ht q) else none

-- A state that thread `i` leaves, among the transactions `txs` of the others, where the table was `ht`
-- and the changes `cs`, and what it does to the committed map, its own writes, and its client is `a`.
pub record Answered (txs : ℕ → Option Tx) (ht : Store) (cs : ℕ → List Change) (db : Map) (i : ℕ)
    (a : After) (s : Session) (reply : Bytes) : Type 0 where
  pub entries : List Entry
  pub changes : ℕ → List Change
  pub committed_map : Map
  pub consistent : Consistent s (update txs i s.tx) entries changes committed_map
  pub map : (q : Bytes) → committed_map q ≡ a.map q
  pub mine : (q : Bytes) → shown s.ht (changes i) q ≡ a.overlay q
  pub others : (j : ℕ) → 0 < j → i ≢ j → (q : Bytes) → shown s.ht (changes j) q ≡ shown ht (cs j) q
  pub single : is_none s.tx ≡ a.is_single
  pub says : reply ≡ a.reply

-- The list that is left of `ids` where a command is `is_single` and ends the transaction `id`.
abbrev pub list_behind : Bool → ℕ → List ℕ → Option (List ℕ)
list_behind is_single id ids = if is_single then delete_id id ids else some ids

-- An outcome that is a fault only where the list `left` is lost.
pub data Handled (txs : ℕ → Option Tx) (ht : Store) (cs : ℕ → List Change) (db : Map) (i : ℕ)
    (a : After) (left : Option (List ℕ)) : Outcome → Type 0 where
  fails : left ≡ none → Handled txs ht cs db i a left fault
  answered :
      {s : Session} {reply : Bytes}
      → Answered txs ht cs db i a s reply
      → Handled txs ht cs db i a left (done s reply)
  waits :
      {s : Session} {es : List Entry}
      → Consistent s (update txs i s.tx) es cs db
      → s.ht ≡ ht
      → Handled txs ht cs db i a left (blocked s)

pub update-update {ℓ} :
    {A : Type ℓ} (f : ℕ → A) (i : ℕ) (a b : A) → update (update f i a) i b ≡ update f i b
update-update f i a b = fun_ext (λ j. cases (i == j) (f j))
  where
    cases : (t : Bool) (x : _) → (if t then b else (if t then a else x)) ≡ (if t then b else x)
    cases true x = refl
    cases false x = refl

pub same_txs :
    {s : Session} {txs txs' : ℕ → Option Tx} {es : List Entry} {cs : ℕ → List Change} {db : Map}
    → txs ≡ txs'
    → Consistent s txs es cs db
    → Consistent s txs' es cs db
same_txs {s} {es = es} {cs} {db} e c = subst (λ (f : ℕ → Option Tx). Consistent s f es cs db) e c

-- The client's own field is not read.
pub with_tx :
    {s : Session} {txs : ℕ → Option Tx} {es : List Entry} {cs : ℕ → List Change} {db : Map}
    (o : Option Tx)
    → Consistent s txs es cs db
    → Consistent (record s { tx = o }) txs es cs db
with_tx o c = record {
  durable = c.durable;
  stored = c.stored;
  ready = c.ready;
  client = c.client;
  rest = c.rest;
  db_stored = c.db_stored;
}

pub over-shown :
    (t : Bool) (x y : Option Bytes) → (if t then x else y) ≡ over (if t then some x else none) y
over-shown true x y = refl
over-shown false x y = refl

module _ (i : ℕ) (pos : 0 < i) (stack : Bytes) (freed : Bytes → Bytes) (txs : ℕ → Option Tx)
    (db : Map) where
  -- The end of a single command, where the transaction can be taken off the list.
  closed :
      (key : Bytes) (s : Session) (tx : Tx) (reply : Bytes) (ids : List ℕ) {es : List Entry}
      {cs : ℕ → List Change}
      → Consistent s (update txs i (some tx)) es cs db
      → suc (length es) < 2 ^ 32
      → Answered txs s.ht cs db i
          (ending true db (shown s.ht (cs i), reply))
          (unlocked i stack freed key (
            end_with i stack freed
              (committed_state i stack freed s tx)
              (committed_tx i stack freed s tx)
              ids))
          reply
  unfolding touches
  closed key s tx reply ids {es} {cs} c room =
      let has = update_self txs i (some tx) in
      let done_c = commits c i pos stack freed tx ids has room in
      let freed_c = unlocks done_c i pos key (update_self (update txs i (some tx)) i none) in
      record {
        entries = _;
        changes = update cs i [];
        committed_map = commit_map c i pos;
        consistent = same_txs (update-update txs i (some tx) none) freed_c;
        map = λ q. over-shown (touches q (cs i)) (get s.ht q) (db q);
        mine = λ q. ap (λ (l : List Change). shown s.ht l q) (update_self cs i []);
        others =
            λ j pos' ne q. ap (λ (l : List Change). shown s.ht l q) (update_other cs i j [] ne);
        single = refl;
        says = refl;
      }

  -- The end of a command.
  pub closes :
      (is_single : Bool) (key : Bytes) (s : Session) (tx : Tx) (reply : Bytes) {es : List Entry}
      {cs : ℕ → List Change}
      → Consistent s (update txs i (some tx)) es cs db
      → suc (length es) < 2 ^ 32
      → Handled txs s.ht cs db i
          (ending is_single db (shown s.ht (cs i), reply))
          (list_behind is_single tx.id s.tx_list)
          (replies i stack freed (close_single i stack freed is_single key s tx) reply)
  unfolding close_single commit_transaction end_transaction
  closes false key s tx reply {es} {cs} c room = answered (record {
    entries = es;
    changes = cs;
    committed_map = db;
    consistent = with_tx (some tx) c;
    map = λ q. refl;
    mine = λ q. refl;
    others = λ j pos' ne q. refl;
    single = refl;
    says = refl;
  })
  closes true key s tx reply {es} {cs} c room = elim (Option-cases (delete_id tx.id s.tx_list)) [
    | inl lost ↦ rw (close_single, commit_transaction, end_transaction, lost) (fails refl)
    | inr (ids, left) ↦
        rw (close_single, commit_transaction, end_transaction, left)
          (answered (closed key s tx reply ids c room))
  ]

  -- The same, for a command that has written first.
  moved :
      {ht ht' : Store} {cs cs' : ℕ → List Change} {a a' : After} {s : Session} {reply : Bytes}
      → Answered txs ht' cs' db i a' s reply
      → a' ≡ a
      → ((j : ℕ) → 0 < j → i ≢ j → (q : Bytes) → shown ht' (cs' j) q ≡ shown ht (cs j) q)
      → Answered txs ht cs db i a s reply
  moved r e h = record {
    entries = r.entries;
    changes = r.changes;
    committed_map = r.committed_map;
    consistent = r.consistent;
    map = λ q. r.map q ∙ ap (λ (x : After). x.map q) e;
    mine = λ q. r.mine q ∙ ap (λ (x : After). x.overlay q) e;
    others = λ j pos' ne q. r.others j pos' ne q ∙ h j pos' ne q;
    single = r.single ∙ ap (λ (x : After). x.is_single) e;
    says = r.says ∙ ap (λ (x : After). x.reply) e;
  }

  pub writes_first :
      {ht ht' : Store} {cs cs' : ℕ → List Change} {a a' : After} {left left' : Option (List ℕ)}
      (o : Option Session) (reply : Bytes)
      → Handled txs ht' cs' db i a' left' (replies i stack freed o reply)
      → a' ≡ a
      → ((j : ℕ) → 0 < j → i ≢ j → (q : Bytes) → shown ht' (cs' j) q ≡ shown ht (cs j) q)
      → left' ≡ left
      → Handled txs ht cs db i a left (replies i stack freed o reply)
  writes_first none reply (fails e') e h same = fails (sym same ∙ e')
  writes_first (some s) reply (answered r) e h same = answered (moved r e h)

-- A fault of any kind is let through.
pub forgets :
    {txs : ℕ → Option Tx} {ht : Store} {cs : ℕ → List Change} {db : Map} {i : ℕ} {a : After}
    {left : Option (List ℕ)} {o : Outcome}
    → Handled txs ht cs db i a left o
    → Handled txs ht cs db i a none o
forgets (fails e) = fails refl
forgets (answered r) = answered r
forgets (waits c e) = waits c e
