-- ===== src/Recovery/Recover/Fates.antt =====
-- What `kv_recovery_recover` (src/kv_recovery.c) does about one transaction, by what the analysis tells.
use sample_kv.Prelude.{
  ℕ, suc, ◌+◌, ◌^◌, ◌≤◌, ◌<◌, ◌≡◌, refl, ap, ◌∙◌, true, false, Option, some, List, [], ◌∷◌, ◌++◌,
  arith, length, length-append, ◌||◌, if◌then◌else◌,
}
use sample_kv.Key.{Bytes}
use sample_kv.Recovery.{Log, abort_log}
use sample_kv.Recovery.Entries.{Entry, aborted, compensated, struct_of, IsWord}
use sample_kv.Recovery.Search.{entry_at, entry_at-append}
use sample_kv.Recovery.Write.{Holds, plain_log-aborted}
use sample_kv.Recovery.Redo.Replay.{effect}
use sample_kv.Recovery.Recover.{Analysis, is_abort, undo_loop, undo_from, undo_tx}
use sample_kv.Recovery.Recover.Undo.{
  Undone, Undone-more, undo_loop-Undone, read_held, entry_at-lt, TxChain-le,
}
use sample_kv.Transaction.Chain.{Change, TxChain, skip, undo, TxChain-more}
use sample_kv.Transaction.Durable.{replay-append}

-- What follows from the variables of the analysis of a transaction in the log `es`: the changes that are
-- undone.
pub data Verdict (es : List Entry) (a : Analysis) : List Change → Type 0 where
  settled : a.is_committed || a.is_abort_end ≡ true → Verdict es a []
  unaborted :
      {cs : List Change}
      → a.is_committed || a.is_abort_end ≡ false
      → a.is_abort_started ≡ false
      → TxChain es a.last_tx_lsn cs
      → Verdict es a cs
  from_abort :
      {i prev tx : ℕ} {cs : List Change}
      → a.is_committed || a.is_abort_end ≡ false
      → a.is_abort_started ≡ true
      → a.last_tx_lsn ≡ suc i
      → entry_at es i ≡ some (aborted prev tx)
      → TxChain es prev cs
      → Verdict es a cs
  from_clr :
      {i prev tx next : ℕ} {k o n : Bytes} {cs : List Change}
      → a.is_committed || a.is_abort_end ≡ false
      → a.is_abort_started ≡ true
      → a.last_tx_lsn ≡ suc i
      → entry_at es i ≡ some (compensated prev tx next k o n)
      → TxChain es next cs
      → Verdict es a cs

pub Undone-weaken :
    {es : List Entry} {tx_id room room' : ℕ} {cs : List Change} {r r' : Option Log}
    → r' ≡ r
    → room ≤ room'
    → Undone es tx_id cs room r
    → Undone es tx_id cs room' r'
Undone-weaken e le u = record {
  after = u.after;
  ext = u.ext;
  runs = e ∙ u.runs;
  holds = u.holds;
  own = u.own;
  restored = u.restored;
  few = omega (arith, u.few, le);
}

module _ (stack : Bytes) (tx_id : ℕ) (a : Analysis) {log : Log} {es : List Entry}
    (d : Holds log es) where
  undo_tx_from :
      {lsn : ℕ} {log' : Log}
      → undo_from stack tx_id a log ≡ some (lsn, log')
      → undo_tx stack tx_id a log ≡ undo_loop (suc lsn) stack tx_id lsn a.last_tx_lsn log'
  unfolding undo_tx
  undo_tx_from run = rw (run, undo_tx)

  from_line :
      {i : ℕ} {e : Entry}
      → a.is_abort_started ≡ true
      → a.last_tx_lsn ≡ suc i
      → entry_at es i ≡ some e
      → undo_from stack tx_id a log
        ≡ some (
          let l = struct_of (suc i) e in
              (if is_abort l.log_type then l.prev_lsn else l.undo_next_lsn),
          log,
        )
  unfolding undo_from
  from_line {i} b l found = rw (b, l, read_held stack i d found, undo_from)

pub undo_tx-Undone :
    (stack : Bytes) (tx_id : ℕ) (a : Analysis) {log : Log} {es : List Entry} {cs : List Change}
    → Holds log es
    → a.is_committed || a.is_abort_end ≡ false
    → Verdict es a cs
    → length es + length cs + 2 < 2 ^ 32
    → IsWord tx_id
    → Undone es tx_id cs (length cs + 2) (undo_tx stack tx_id a log)
undo_tx-Undone stack tx_id a d live (settled h) room id = cc
undo_tx-Undone stack tx_id a {log} {es} {cs} d live (unaborted h b c) room id =
    let le = TxChain-le c in
    let new = aborted a.last_tx_lsn tx_id in
    let wrote = plain_log-aborted d (omega arith) a.last_tx_lsn tx_id (omega (arith, le)) id in
    let log' = (abort_log log a.last_tx_lsn tx_id).1 in
    let grown = length-append es (new ∷ []) in
    let first : undo_from stack tx_id a log ≡ some (suc (length es), log') =
      unfold undo_from in rw (b, wrote.0) refl in
    Undone-weaken refl (omega arith) (
      Undone-more new refl (undo_tx_from stack tx_id a d first)
        (λ m. ap (undo cs) (replay-append es new m ∙ (unfold effect in refl)))
        (undo_loop-Undone (suc (suc (length es))) stack tx_id (suc (length es)) a.last_tx_lsn log'
          (es ++ new ∷ []) cs wrote.1
          (skip (entry_at-append es [] new) le (TxChain-more (new ∷ []) c)) (omega arith)
          (omega (arith, grown)) (omega (arith, le)) id))
undo_tx-Undone stack tx_id a {log} {es} {cs} d live (from_abort {i} {prev} h b l found c) room id =
    Undone-weaken (undo_tx_from stack tx_id a d (from_line stack tx_id a d b l found)) (omega arith)
      (undo_loop-Undone (suc prev) stack tx_id prev a.last_tx_lsn log es cs d c (omega arith)
        (omega arith) (omega (arith, l, entry_at-lt es i found)) id)
undo_tx-Undone stack tx_id a {log} {es} {cs} d live (from_clr {i} {next = next} h b l found c) room
      id =
    Undone-weaken (undo_tx_from stack tx_id a d (from_line stack tx_id a d b l found)) (omega arith)
      (undo_loop-Undone (suc next) stack tx_id next a.last_tx_lsn log es cs d c (omega arith)
        (omega arith) (omega (arith, l, entry_at-lt es i found)) id)
