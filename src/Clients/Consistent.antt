-- ===== src/Clients/Consistent.antt =====
-- What holds between the steps of the clients: the log agrees with the table, each open transaction can
-- be undone, and holds the locks of the keys that it wrote.
use sample_kv.Prelude.{
  ℕ, ◌%◌, ◌≤◌, ◌<◌, ◌≡◌, ◌≢◌, refl, true, false, Bool-cases, inl, inr, Option, none, some, List, [],
  ◌++◌, arith, length, length-append, ◌==◌, differ,
}
use mathlib.Core.Path.{subst}
use sample_kv.Key.{Bytes, key_funcs}
use sample_kv.Utils.{djb2}
use sample_kv.Hash.{get}
use sample_kv.Lock.{Manager}
use sample_kv.Lock.Counts.{held_count, lock_at, in_bucket, Ready, held_apart}
use sample_kv.Recovery.Entries.{Entry, IsWord}
use sample_kv.Recovery.Redo.Replay.{Map}
use sample_kv.Transaction.{Tx}
use sample_kv.Transaction.Durable.{Durable}
use sample_kv.Transaction.Chain.{Change, TxChain, TxChain-more, undo}
use sample_kv.Transaction.Touched.{touches, oldest}
use sample_kv.Command.Session.{Session}
use sample_kv.Command.Session.Access.{IsStored, AllStored, Active}
use sample_kv.Clients.{update}

abbrev pub locks_of : Option Tx → List Bytes
locks_of none = []
locks_of (some tx) = tx.locks

-- The lines of a transaction in the log.
pub record Opened (es : List Entry) (tx : Tx) (cs : List Change) : Type 0 where
  pub chain : TxChain es tx.last_lsn cs
  pub last : tx.last_lsn ≤ length es
  pub id : IsWord tx.id

pub Opened-more :
    {es : List Entry} {tx : Tx} {cs : List Change} (ext : List Entry)
    → Opened es tx cs
    → Opened (es ++ ext) tx cs
Opened-more {es} ext o = record {
  chain = TxChain-more ext o.chain;
  last = omega (arith, o.last, length-append es ext);
  id = o.id;
}

-- Thread `i` with the transaction `o`, whose changes are `cs`; `db` is what was committed.
pub record ClientOk (lm : Manager) (es : List Entry) (db : Map) (i : ℕ) (o : Option Tx)
    (cs : List Change) : Type 0 where
  pub held : (b : ℕ) → held_count i (lock_at lm b) ≡ in_bucket b (locks_of o)
  pub closed : o ≡ none → cs ≡ []
  pub opened : (tx : Tx) → o ≡ some tx → Opened es tx cs
  pub locked : (q : Bytes) → touches q cs ≡ true → 0 < in_bucket (djb2 q % 64) (locks_of o)
  pub own : (q : Bytes) → touches q cs ≡ true → oldest q cs ≡ db q

pub record Consistent (s : Session) (txs : ℕ → Option Tx) (es : List Entry) (cs : ℕ → List Change)
    (db : Map) : Type 0 where
  pub durable : Durable s.ht s.log es
  pub stored : AllStored s.ht
  pub ready : Ready s.lm
  pub client : (i : ℕ) → 0 < i → ClientOk s.lm es db i (txs i) (cs i)
  pub rest : (q : Bytes) → ((i : ℕ) → 0 < i → touches q (cs i) ≡ false) → get s.ht q ≡ db q
  pub db_stored : (q v : Bytes) → db q ≡ some v → IsStored v

-- A property of all threads, where one thread has new values.
pub update_all {ℓ κ} :
    {A : Type ℓ} {B : Type κ} (P : ℕ → A → B → Type 0) (f : ℕ → A) (g : ℕ → B) (i : ℕ) (a : A)
    (b : B)
    → P i a b
    → ((j : ℕ) → 0 < j → i ≢ j → P j (f j) (g j))
    → (j : ℕ) → 0 < j
    → P j (update f i a j) (update g i b j)
update_all P f g i a b h h' j pos = elim (Bool-cases (i == j)) [
  | inl e ↦ rw e (subst (λ (k : ℕ). P k a b) (let same : i ≡ j = ground arith in same) h)
  | inr e ↦ rw e (h' j pos (λ same. ground arith))
]

pub update_one {ℓ} :
    {A : Type ℓ} (P : ℕ → A → Type 0) (f : ℕ → A) (i : ℕ) (a : A)
    → P i a
    → ((j : ℕ) → 0 < j → i ≢ j → P j (f j))
    → (j : ℕ) → 0 < j
    → P j (update f i a j)
update_one P f i a h h' j pos = elim (Bool-cases (i == j)) [
  | inl e ↦ rw e (subst (λ (k : ℕ). P k a) (let same : i ≡ j = ground arith in same) h)
  | inr e ↦ rw e (h' j pos (λ same. ground arith))
]

pub update_self {ℓ} : {A : Type ℓ} (f : ℕ → A) (i : ℕ) (a : A) → update f i a i ≡ a
update_self f i a = let e : (i == i) ≡ true = ground arith in rw e refl

pub update_other {ℓ} : {A : Type ℓ} (f : ℕ → A) (i j : ℕ) (a : A) → i ≢ j → update f i a j ≡ f j
update_other f i j a ne = rw (differ i j ne) refl

module _ {s : Session} {txs : ℕ → Option Tx} {es : List Entry} {cs : ℕ → List Change} {db : Map}
    (c : Consistent s txs es cs db) where
  -- A key that another thread has under lock is not among the changes of a thread.
  pub locked_apart :
      (i j : ℕ) (q : Bytes)
      → 0 < i
      → 0 < j
      → i ≢ j
      → 0 < in_bucket (djb2 q % 64) (locks_of (txs i))
      → touches q (cs j) ≡ false
  locked_apart i j q pos pos' ne h = elim (Bool-cases (touches q (cs j))) [
    | inl e ↦ absurd (
        omega (
          arith,
          (c.client i pos).held (djb2 q % 64),
          (c.client j pos').held (djb2 q % 64),
          (c.client j pos').locked q e,
          held_apart s.lm i j (djb2 q % 64) ne (omega (arith, (c.client i pos).held (djb2 q % 64))),
        ))
    | inr e ↦ e
  ]

  -- What a thread reads under its lock, of a key that it did not write, was committed.
  pub reads_committed :
      (i : ℕ) (q : Bytes)
      → 0 < i
      → 0 < in_bucket (djb2 q % 64) (locks_of (txs i))
      → touches q (cs i) ≡ false
      → get s.ht q ≡ db q
  reads_committed i q pos h mine = c.rest q (λ j pos'. others j pos')
    where
      others : (j : ℕ) → 0 < j → touches q (cs j) ≡ false
      others j pos' = elim (Bool-cases (i == j)) [
        | inl e ↦
            subst (λ (k : ℕ). touches q (cs k) ≡ false) (let e' : i ≡ j = ground arith in e') mine
        | inr e ↦ locked_apart i j q pos pos' (λ same. ground arith) h
      ]

  pub client-Active :
      (i : ℕ) (tx : Tx)
      → 0 < i
      → txs i ≡ some tx
      → Active
          (record { tx = tx; ht = s.ht; log = s.log })
          es
          (cs i)
          (undo (cs i) (λ k. get s.ht k))
  client-Active i tx pos h =
      let o = (c.client i pos).opened tx h in
      record {
        durable = c.durable;
        chain = o.chain;
        last = o.last;
        id = o.id;
        stored = c.stored;
        undoes = λ q. refl;
      }
