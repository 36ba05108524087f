-- ===== src/Recovery/Recover/Undo.antt =====
-- The loop of `kv_recovery_recover` (src/kv_recovery.c) that undoes a transaction, on the entries of the log.
use sample_kv.Prelude.{
  ℕ, zero, suc, ◌+◌, ◌^◌, ◌≤◌, ◌<◌, ◌≡◌, refl, ap, sym, ◌∙◌, Option, some, List, [], ◌∷◌, ◌++◌,
  append_assoc, arith, length, length-append,
}
use mathlib.Core.Option
use mathlib.Core.Path.{subst}
use sample_kv.Key.{Bytes}
use sample_kv.Recovery.{Log, get_log, clr_log, end_log}
use sample_kv.Recovery.Entries.{
  Entry, started, aborted, ended, updated, compensated, struct_of, IsWord,
}
use sample_kv.Recovery.Search.{entry_at, get_log-render, entry-IsEntry}
use sample_kv.Recovery.Write.{Holds, clr_log-Wrote, plain_log-ended}
use sample_kv.Recovery.Redo.Replay.{Map, replay, effect}
use sample_kv.Recovery.Recover.{undo_loop}
use sample_kv.Recovery.Recover.Scan.{tx_of}
use sample_kv.Transaction.Chain.{Change, TxChain, start, change, skip, undo, TxChain-more}
use sample_kv.Transaction.Durable.{replay-append}

-- Entries of one transaction.
unfoldable pub Own : ℕ → List Entry → Type 0
Own tx_id [] = Unit
Own tx_id (e ∷ es) = (tx_of e ≡ tx_id) × Own tx_id es

-- A log with new lines of the transaction behind `es`, which restore the values before `cs`.
pub record Undone (es : List Entry) (tx_id : ℕ) (cs : List Change) (room : ℕ) (r : Option Log)
    : Type 0 where
  pub after : Log
  pub ext : List Entry
  pub runs : r ≡ some after
  pub holds : Holds after (es ++ ext)
  pub own : Own tx_id ext
  pub restored : (m : Map) → replay (es ++ ext) m ≡ undo cs (replay es m)
  pub few : length ext ≤ room

-- `kv_recovery_get_log` on a log of written lines.
pub read_held :
    {log : Log} {es : List Entry} (stack : Bytes) (i : ℕ) {e : Entry}
    → Holds log es
    → entry_at es i ≡ some e
    → get_log stack log.recovery_file (suc i) ≡ some (struct_of (suc i) e)
read_held {es = es} stack i d found =
    rw d.file (get_log-render stack es i d.entries d.room ∙ ap (Option.map _) found)

pub entry_at-lt : (es : List Entry) (i : ℕ) {e : Entry} → entry_at es i ≡ some e → i < length es
entry_at-lt [] i found = cc
entry_at-lt (x ∷ es) zero found = omega arith
entry_at-lt (x ∷ es) (suc i) found = omega (arith, entry_at-lt es i found)

pub TxChain-le :
    {es : List Entry} {lsn : ℕ} {cs : List Change} → TxChain es lsn cs → lsn ≤ length es
TxChain-le {es} (start {i} found) = omega (arith, entry_at-lt es i found)
TxChain-le {es} (change {i} found p v c) = omega (arith, entry_at-lt es i found)
TxChain-le {es} (skip {i} found p c) = omega (arith, entry_at-lt es i found)

-- A first new line, and then the others.
pub Undone-more :
    {es : List Entry} {tx_id : ℕ} {cs cs' : List Change} {room : ℕ} {r r' : Option Log} (e : Entry)
    → tx_of e ≡ tx_id
    → r' ≡ r
    → ((m : Map) → undo cs (replay (es ++ e ∷ []) m) ≡ undo cs' (replay es m))
    → Undone (es ++ e ∷ []) tx_id cs room r
    → Undone es tx_id cs' (suc room) r'
unfolding Own
Undone-more {es} {tx_id} e id runs same u = record {
  after = u.after;
  ext = e ∷ u.ext;
  runs = runs ∙ u.runs;
  holds = subst (λ l. Holds u.after l) (append_assoc es (e ∷ []) u.ext) u.holds;
  own = (id, u.own);
  restored =
      λ m. ap (λ l. replay l m) (sym (append_assoc es (e ∷ []) u.ext)) ∙ u.restored m ∙ same m;
  few = omega (arith, u.few);
}

module _ (fuel : ℕ) (stack : Bytes) (tx_id i last : ℕ) (log : Log) {es : List Entry}
    (d : Holds log es) where
  loop_end :
      {prev tx : ℕ}
      → entry_at es i ≡ some (started prev tx)
      → undo_loop (suc fuel) stack tx_id (suc i) last log ≡ some (end_log log (suc i) tx_id).1
  unfolding undo_loop
  loop_end found = rw (read_held stack i d found, undo_loop)

  loop_skip :
      {prev tx : ℕ}
      → entry_at es i ≡ some (aborted prev tx)
      → undo_loop (suc fuel) stack tx_id (suc i) last log ≡ undo_loop fuel stack tx_id prev last log
  unfolding undo_loop
  loop_skip found = rw (read_held stack i d found, undo_loop)

  loop_undo :
      {prev tx : ℕ} {k o n : Bytes} (last' : ℕ) (log' : Log)
      → entry_at es i ≡ some (updated prev tx k o n)
      → clr_log log last tx_id prev k n o ≡ some (last', log')
      → undo_loop (suc fuel) stack tx_id (suc i) last log
        ≡ undo_loop fuel stack tx_id prev last' log'
  unfolding undo_loop
  loop_undo last' log' found run = rw (read_held stack i d found, undo_loop, run)

pub undo_loop-Undone :
    (fuel : ℕ) (stack : Bytes) (tx_id lsn last : ℕ) (log : Log) (es : List Entry) (cs : List Change)
    → Holds log es
    → TxChain es lsn cs
    → lsn ≤ fuel
    → length es + length cs + 1 < 2 ^ 32
    → IsWord last
    → IsWord tx_id
    → Undone es tx_id cs (suc (length cs)) (undo_loop fuel stack tx_id lsn last log)
unfolding undo
undo_loop-Undone zero stack tx_id lsn last log es cs d (start h) le room w id = absurd (omega arith)
undo_loop-Undone zero stack tx_id lsn last log es cs d (change h p v c) le room w id =
    absurd (omega arith)
undo_loop-Undone zero stack tx_id lsn last log es cs d (skip h p c) le room w id =
    absurd (omega arith)
undo_loop-Undone (suc fuel) stack tx_id lsn last log es cs d (start {i} found) le room w id =
    let wrote =
      plain_log-ended d (omega arith) (suc i) tx_id (omega (arith, entry_at-lt es i found)) id in
    record {
      after = (end_log log (suc i) tx_id).1;
      ext = ended (suc i) tx_id ∷ [];
      runs = loop_end fuel stack tx_id i last log d found;
      holds = wrote.1;
      own = unfold Own in (refl, tt);
      restored = λ m. replay-append es (ended (suc i) tx_id) m ∙ (unfold effect in refl);
      few = omega arith;
    }
undo_loop-Undone (suc fuel) stack tx_id lsn last log es cs d (skip {i} {prev} found p chain) le room
      w id =
    let u = undo_loop-Undone fuel stack tx_id prev last log es cs d chain (omega arith) room w id in
    record {
      after = u.after;
      ext = u.ext;
      runs = loop_skip fuel stack tx_id i last log d found ∙ u.runs;
      holds = u.holds;
      own = u.own;
      restored = u.restored;
      few = u.few;
    }
undo_loop-Undone (suc fuel) stack tx_id lsn last log es cs d
      (change {i} {prev} {tx} {c} {cs = cs'} found p some_val chain) le room w id =
    let e = entry-IsEntry es i _ d.entries found in
    let comp = compensated last tx_id prev c.key c.new_val c.old_val in
    let wrote =
      clr_log-Wrote d (omega arith) last tx_id prev c.key c.new_val c.old_val w id e.0
        (record { key = e.2.key; old = e.2.new; new = e.2.old }) in
    let grown = length-append es (comp ∷ []) in
    Undone-more comp refl
      (loop_undo fuel stack tx_id i last log d (suc (length es)) wrote.log_after found wrote.runs)
      (λ m. ap (undo cs') (replay-append es comp m ∙ (unfold effect in refl)))
      (undo_loop-Undone fuel stack tx_id prev (suc (length es)) wrote.log_after (es ++ comp ∷ [])
        cs' wrote.holds (TxChain-more (comp ∷ []) chain) (omega arith) (omega (arith, grown))
        (omega arith) id)
