-- ===== src/Transaction/Chain.antt =====
-- The log lines of one transaction, along `prev_lsn` from its last one to its BEGIN line.
use sample_kv.Prelude.{ℕ, zero, suc, ◌+◌, ◌≤◌, ◌<◌, ◌≡◌, some, List, [], ◌∷◌, ◌++◌, length}
use sample_kv.Key.{Bytes}
use sample_kv.Recovery.Entries.{Entry, started, aborted, updated}
use sample_kv.Recovery.Search.{entry_at}
use sample_kv.Recovery.Redo.Replay.{Map, put, written}

-- A write of a transaction: the key, and the values before and behind it.
pub record Change : Type 0 where
  pub key : Bytes
  pub old_val : Bytes
  pub new_val : Bytes

pub data TxChain (es : List Entry) : ℕ → List Change → Type 0 where
  start : {i prev tx : ℕ} → entry_at es i ≡ some (started prev tx) → TxChain es (suc i) []
  change :
      {i prev tx : ℕ} {c : Change} {cs : List Change}
      → entry_at es i ≡ some (updated prev tx c.key c.old_val c.new_val)
      → prev ≤ i
      → 0 < length c.old_val + length c.new_val
      → TxChain es prev cs
      → TxChain es (suc i) (c ∷ cs)
  skip :
      {i prev tx : ℕ} {cs : List Change}
      → entry_at es i ≡ some (aborted prev tx)
      → prev ≤ i
      → TxChain es prev cs
      → TxChain es (suc i) cs

-- The values before the changes, the latest of which stands first.
unfoldable pub undo : List Change → Map → Map
undo [] m = m
undo (c ∷ cs) m = undo cs (put m c.key (written c.old_val))

pub entry_at-more :
    (es fs : List Entry) (i : ℕ) {e : Entry}
    → entry_at es i ≡ some e
    → entry_at (es ++ fs) i ≡ some e
entry_at-more [] fs i h = cc
entry_at-more (x ∷ es) fs zero h = h
entry_at-more (x ∷ es) fs (suc i) h = entry_at-more es fs i h

-- A chain stays one when the log grows.
pub TxChain-more :
    {es : List Entry} (fs : List Entry) {lsn : ℕ} {cs : List Change}
    → TxChain es lsn cs
    → TxChain (es ++ fs) lsn cs
TxChain-more {es} fs (start {i} h) = start (entry_at-more es fs i h)
TxChain-more {es} fs (change {i} h le some_val c) =
    change (entry_at-more es fs i h) le some_val (TxChain-more fs c)
TxChain-more {es} fs (skip {i} h le c) = skip (entry_at-more es fs i h) le (TxChain-more fs c)
