-- ===== src/Recovery/Recover/Ongoing.antt =====
-- `kv_recovery_recover` (src/kv_recovery.c) over the transactions of the last CHECK line.
use sample_kv.Prelude.{
  ℕ, ◌+◌, ◌*◌, ◌^◌, ◌≤◌, ◌<◌, ◌≡◌, ◌≢◌, refl, ap, sym, ◌∙◌, false, Option, some, List, [], ◌∷◌,
  ◌++◌, append-nil, append_assoc, arith, length, length-append, ◌||◌, if◌then◌else◌, ltb,
}
use mathlib.Core.Path.{subst}
use sample_kv.Key.{Bytes}
use sample_kv.Recovery.{OngoingTx, Log}
use sample_kv.Recovery.Entries.{Entry, IsWord, render}
use sample_kv.Recovery.Write.{Holds}
use sample_kv.Recovery.Redo.Replay.{Map, replay, length-render}
use sample_kv.Recovery.Recover.{Analysis, undo_tx, analyse, fresh_analysis, recover_tx, recover_txs}
use sample_kv.Recovery.Recover.Scan.{scan, analyse-scan, Others}
use sample_kv.Recovery.Recover.Course.{
  Course, goes_on, follow, follow-append, scan-follow, decides, Fate, Fate-more,
}
use sample_kv.Recovery.Recover.Undo.{Undone, Own}
use sample_kv.Transaction.Chain.{Change, undo}
use sample_kv.Recovery.Recover.Fates.{
  Verdict, settled, unaborted, from_abort, from_clr, Undone-weaken, undo_tx-Undone,
}

-- The place where the analysis of a transaction starts.
abbrev pub start_of : ℕ → OngoingTx → ℕ
start_of last_checked_lsn tx =
    if ltb tx.last_lsn last_checked_lsn then last_checked_lsn else tx.last_lsn

-- A transaction that a CHECK line lists, the log behind the later one of that line and its last line then,
-- and the changes that are to be undone by what these lines stand for.
pub record Ongoing (es : List Entry) (last_checked_lsn : ℕ) (tx : OngoingTx) (cs : List Change)
    : Type 0 where
  pub front : List Entry
  pub rest : List Entry
  pub split : es ≡ front ++ rest
  pub at : start_of last_checked_lsn tx ≡ length front
  pub id : IsWord tx.tx_id
  pub fate : Fate es (follow tx.tx_id (start_of last_checked_lsn tx) rest (goes_on tx.last_lsn)) cs

-- New lines of another transaction change nothing.
Ongoing-more :
    {es : List Entry} {lsn : ℕ} {tx : OngoingTx} {cs : List Change} (ext : List Entry)
    → Others tx.tx_id ext
    → Ongoing es lsn tx cs
    → Ongoing (es ++ ext) lsn tx cs
Ongoing-more {es} {lsn} {tx} {cs} ext others o = record {
  front = o.front;
  rest = o.rest ++ ext;
  split = ap (λ l. l ++ ext) o.split ∙ append_assoc o.front o.rest ext;
  at = o.at;
  id = o.id;
  fate =
      subst (λ (c : Course). Fate (es ++ ext) c cs)
        (sym (follow-append tx.tx_id (start_of lsn tx) o.rest ext (goes_on tx.last_lsn) others))
        (Fate-more ext o.fate);
}

Undone-none :
    {log : Log} {es : List Entry} (tx_id : ℕ) {room : ℕ} {r : Option Log}
    → Holds log es
    → r ≡ some log
    → Undone es tx_id [] room r
Undone-none {log} {es} tx_id d e = record {
  after = log;
  ext = [];
  runs = e;
  holds = subst (λ l. Holds log l) (sym (append-nil es)) d;
  own = unfold Own in tt;
  restored = λ m. ap (λ l. replay l m) (append-nil es) ∙ (unfold undo in refl);
  few = omega arith;
}

-- What follows the analysis.
decided-Undone :
    (stack : Bytes) (tx_id : ℕ) (a : Analysis) {log : Log} {es : List Entry} {cs : List Change}
    → Holds log es
    → Verdict es a cs
    → length es + length cs + 2 < 2 ^ 32
    → IsWord tx_id
    → Undone es tx_id cs
        (length cs + 2)
        (if a.is_committed || a.is_abort_end then some log else undo_tx stack tx_id a log)
decided-Undone stack tx_id a d (settled h) room id = Undone-none tx_id d (rw h refl)
decided-Undone stack tx_id a d (unaborted h b c) room id =
    rw h (undo_tx-Undone stack tx_id a d h (unaborted h b c) room id)
decided-Undone stack tx_id a d (from_abort h b l found c) room id =
    rw h (undo_tx-Undone stack tx_id a d h (from_abort h b l found c) room id)
decided-Undone stack tx_id a d (from_clr h b l found c) room id =
    rw h (undo_tx-Undone stack tx_id a d h (from_clr h b l found c) room id)

recover_tx-Undone :
    (stack : Bytes) (lsn : ℕ) (tx : OngoingTx) {log : Log} {es : List Entry} {cs : List Change}
    → Holds log es
    → Ongoing es lsn tx cs
    → length es + length cs + 2 < 2 ^ 32
    → Undone es tx.tx_id cs (length cs + 2) (recover_tx stack lsn tx log)
unfolding recover_tx
recover_tx-Undone stack lsn tx {log} {es} {cs} d o room =
    let a = scan tx.tx_id (start_of lsn tx) o.rest (fresh_analysis tx.last_lsn) in
    let told =
      analyse-scan stack tx.tx_id o.rest o.front es (length (render 0 es) + 1) (start_of lsn tx)
        (fresh_analysis tx.last_lsn) o.split d.entries (omega arith) o.at
        (omega
          (arith, length-render 0 es d.entries, ap length o.split, length-append o.front o.rest)) in
    Undone-weaken
      (rw
        (
          subst
              (λ (file : Bytes).
                analyse (length file + 1) stack file tx.tx_id (start_of lsn tx)
                  (fresh_analysis tx.last_lsn)
                ≡ some a)
              (sym d.file) told,
          recover_tx,
        )
        refl)
      (omega arith)
      (decided-Undone stack tx.tx_id a d
        (decides (scan-follow tx.tx_id (start_of lsn tx) o.rest tx.last_lsn false) o.fate) room
        o.id)

-- Each transaction of a list, with its changes; no two have the same identity.
unfoldable pub Away : ℕ → List OngoingTx → Type 0
Away tx_id [] = Unit
Away tx_id (t ∷ ts) = (tx_id ≢ t.tx_id) × Away tx_id ts

pub data AllOngoing (es : List Entry) (lsn : ℕ) : List OngoingTx → List Change → Type 0 where
  no_more : AllOngoing es lsn [] []
  and_more :
      {tx : OngoingTx} {txs : List OngoingTx} {cs cs' : List Change}
      → Ongoing es lsn tx cs
      → Away tx.tx_id txs
      → AllOngoing es lsn txs cs'
      → AllOngoing es lsn (tx ∷ txs) (cs ++ cs')

Own-Others : {tx_id id : ℕ} (ext : List Entry) → Own tx_id ext → tx_id ≢ id → Others id ext
unfolding Own Others
Own-Others [] h ne = tt
Own-Others (e ∷ es) h ne = ((λ eq. ne (sym h.0 ∙ eq)), Own-Others es h.1 ne)

AllOngoing-more :
    {es : List Entry} {lsn : ℕ} {txs : List OngoingTx} {cs : List Change} (tx_id : ℕ)
    (ext : List Entry)
    → Own tx_id ext
    → Away tx_id txs
    → AllOngoing es lsn txs cs
    → AllOngoing (es ++ ext) lsn txs cs
unfolding Away
AllOngoing-more tx_id ext own away no_more = no_more
AllOngoing-more tx_id ext own away (and_more o a r) =
    and_more (Ongoing-more ext (Own-Others ext own away.0) o) a
      (AllOngoing-more tx_id ext own away.1 r)

undo-append : (cs cs' : List Change) (m : Map) → undo (cs ++ cs') m ≡ undo cs' (undo cs m)
unfolding undo
undo-append [] cs' m = refl
undo-append (c ∷ cs) cs' m = undo-append cs cs' _

-- The new lines, and what they undo.
pub record Restored (es : List Entry) (cs : List Change) (room : ℕ) (r : Option Log) : Type 0 where
  pub after : Log
  pub ext : List Entry
  pub runs : r ≡ some after
  pub holds : Holds after (es ++ ext)
  pub restored : (m : Map) → replay (es ++ ext) m ≡ undo cs (replay es m)
  pub few : length ext ≤ room

-- `kv_recovery_recover`, over the transactions of the CHECK line, all different, in a log of written
-- lines that has the lines of each and room for the new ones, ends: it adds lines such that a replay
-- gives the values before the changes `cs` of those that are not over by their lines, at most two lines for
-- each transaction and one for each change.
pub recover_txs-restores :
    (stack : Bytes) (lsn : ℕ) (txs : List OngoingTx) {log : Log} {es : List Entry}
    {cs : List Change}
    → Holds log es
    → AllOngoing es lsn txs cs
    → length es + length cs + 2 * length txs < 2 ^ 32
    → Restored es cs (length cs + 2 * length txs) (recover_txs stack lsn txs log)
unfolding recover_txs
recover_txs-restores stack lsn [] {log} {es} d no_more room =
    let u : Undone es 0 [] 0 (some log) = Undone-none 0 d refl in
    record {
      after = u.after;
      ext = u.ext;
      runs = u.runs;
      holds = u.holds;
      restored = u.restored;
      few = omega (arith, u.few);
    }
recover_txs-restores stack lsn (tx ∷ txs) {log} {es} d (and_more {cs = cs} {cs'} o away more) room =
    let all = length-append cs cs' in
    let u = recover_tx-Undone stack lsn tx d o (omega (arith, all)) in
    let grown = length-append es u.ext in
    let r =
      recover_txs-restores stack lsn txs u.holds (AllOngoing-more tx.tx_id u.ext u.own away more)
        (omega (arith, all, grown, u.few)) in
    record {
      after = r.after;
      ext = u.ext ++ r.ext;
      runs = rw (u.runs, recover_txs) r.runs;
      holds = subst (λ l. Holds r.after l) (append_assoc es u.ext r.ext) r.holds;
      restored = λ m.
          ap (λ l. replay l m) (sym (append_assoc es u.ext r.ext))
          ∙ r.restored m
          ∙ ap (undo cs') (u.restored m)
          ∙ sym (undo-append cs cs' (replay es m));
      few = omega (arith, length-append u.ext r.ext, all, u.few, r.few);
    }
