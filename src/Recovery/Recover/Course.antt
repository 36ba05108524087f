-- ===== src/Recovery/Recover/Course.antt =====
-- What the lines of the log say of a transaction from a place on, by what they stand for, and that the
-- analysis of `kv_recovery_recover` (src/kv_recovery.c) finds it out.
use sample_kv.Prelude.{
  ℕ, suc, ◌≡◌, refl, ap, Bool, true, false, Bool-cases, inl, inr, some, List, [], ◌∷◌, ◌++◌, ◌==◌,
  ◌||◌, if◌then◌else◌, differ,
}
use sample_kv.Key.{Bytes}
use sample_kv.Recovery.Entries.{Entry, aborted, compensated}
use sample_kv.Recovery.Search.{entry_at}
use sample_kv.Recovery.Recover.{Analysis, analyse_line}
use sample_kv.Recovery.Recover.Scan.{tx_of, type_of, scan, Others}
use sample_kv.Recovery.Recover.Fates.{Verdict, settled, unaborted, from_abort, from_clr}
use sample_kv.Transaction.Chain.{Change, TxChain, TxChain-more, entry_at-more}

-- A transaction goes on, is rolled back behind an ABORT line, or is over: with a COMMIT line, or with an
-- END line behind an ABORT line.
pub data Status : Type 0 where
  ongoing rolling_back finished : Status

-- The LSN of its last line, and its status.
pub record Course : Type 0 where
  pub last : ℕ
  pub status : Status

abbrev pub next_status : Status → Entry → Status
next_status finished e = finished
next_status ongoing (Entry.committed prev tx) = finished
next_status ongoing (Entry.aborted prev tx) = rolling_back
next_status ongoing e = ongoing
next_status rolling_back (Entry.committed prev tx) = finished
next_status rolling_back (Entry.ended prev tx) = finished
next_status rolling_back e = rolling_back

abbrev pub on_line : ℕ → Entry → Course → Course
on_line lsn e c = record { last = lsn; status = next_status c.status e }

-- Along the entries behind `lsn`; only those of the transaction count.
unfoldable pub follow : ℕ → ℕ → List Entry → Course → Course
follow tx_id lsn [] c = c
follow tx_id lsn (e ∷ es) c =
    follow tx_id (suc lsn) es (if tx_of e == tx_id then on_line (suc lsn) e c else c)

-- A transaction whose last line so far is at `last`.
abbrev pub goes_on : ℕ → Course
goes_on last = record { last = last; status = ongoing }

-- The changes of a transaction that are to be undone: none if it is over; those behind its last line; or
-- those behind the line that its rollback came to.
pub data Fate (es : List Entry) (c : Course) : List Change → Type 0 where
  over : c.status ≡ finished → Fate es c []
  running : {cs : List Change} → c.status ≡ ongoing → TxChain es c.last cs → Fate es c cs
  aborting :
      {i prev tx : ℕ} {cs : List Change}
      → c.status ≡ rolling_back
      → c.last ≡ suc i
      → entry_at es i ≡ some (aborted prev tx)
      → TxChain es prev cs
      → Fate es c cs
  undoing :
      {i prev tx next : ℕ} {k o n : Bytes} {cs : List Change}
      → c.status ≡ rolling_back
      → c.last ≡ suc i
      → entry_at es i ≡ some (compensated prev tx next k o n)
      → TxChain es next cs
      → Fate es c cs

pub Fate-more :
    {es : List Entry} {c : Course} (ext : List Entry) {cs : List Change}
    → Fate es c cs
    → Fate (es ++ ext) c cs
Fate-more ext (over h) = over h
Fate-more ext (running h t) = running h (TxChain-more ext t)
Fate-more {es} ext (aborting {i} h l found t) =
    aborting h l (entry_at-more es ext i found) (TxChain-more ext t)
Fate-more {es} ext (undoing {i} h l found t) =
    undoing h l (entry_at-more es ext i found) (TxChain-more ext t)

follow-Others :
    (tx_id lsn : ℕ) (ext : List Entry) (c : Course) → Others tx_id ext → follow tx_id lsn ext c ≡ c
unfolding follow Others
follow-Others tx_id lsn [] c h = refl
follow-Others tx_id lsn (e ∷ es) c h =
    rw (differ (tx_of e) tx_id h.0) (follow-Others tx_id (suc lsn) es c h.1)

pub follow-append :
    (tx_id lsn : ℕ) (es ext : List Entry) (c : Course)
    → Others tx_id ext
    → follow tx_id lsn (es ++ ext) c ≡ follow tx_id lsn es c
unfolding follow
follow-append tx_id lsn [] ext c h = follow-Others tx_id lsn ext c h
follow-append tx_id lsn (e ∷ es) ext c h = follow-append tx_id (suc lsn) es ext _ h

-- The variables of the analysis of a transaction that is not over, rolled back or not.
abbrev live : ℕ → Bool → Analysis
live last aborts = record {
  last_tx_lsn = last;
  is_abort_started = aborts;
  is_abort_end = false;
  is_committed = false;
}

abbrev live_course : ℕ → Bool → Course
live_course last aborts = record { last = last; status = if aborts then rolling_back else ongoing }

-- The analysis agrees with what the lines stand for.
pub data Tells : Analysis → Course → Type 0 where
  alive : (last : ℕ) (aborts : Bool) → Tells (live last aborts) (live_course last aborts)
  dead :
      {a : Analysis} {c : Course}
      → a.is_committed || a.is_abort_end ≡ true
      → c.status ≡ finished
      → Tells a c

data Steps : Analysis × Bool → Course → Type 0 where
  goes : (last : ℕ) (aborts : Bool) → Steps (live last aborts, false) (live_course last aborts)
  stops :
      {a : Analysis} {c : Course}
      → a.is_committed || a.is_abort_end ≡ true
      → c.status ≡ finished
      → Steps (a, true) c

analyse_line-Steps :
    (lsn last : ℕ) (aborts : Bool) (e : Entry)
    → Steps
        (analyse_line lsn (type_of e) (live last aborts))
        (on_line lsn e (live_course last aborts))
unfolding analyse_line
analyse_line-Steps lsn last false (Entry.started prev tx) = goes lsn false
analyse_line-Steps lsn last true (Entry.started prev tx) = goes lsn true
analyse_line-Steps lsn last false (Entry.committed prev tx) = stops refl refl
analyse_line-Steps lsn last true (Entry.committed prev tx) = stops refl refl
analyse_line-Steps lsn last false (Entry.aborted prev tx) = goes lsn true
analyse_line-Steps lsn last true (Entry.aborted prev tx) = goes lsn true
analyse_line-Steps lsn last false (Entry.ended prev tx) = goes lsn false
analyse_line-Steps lsn last true (Entry.ended prev tx) = stops refl refl
analyse_line-Steps lsn last false (Entry.updated prev tx k o n) = goes lsn false
analyse_line-Steps lsn last true (Entry.updated prev tx k o n) = goes lsn true
analyse_line-Steps lsn last false (Entry.compensated prev tx u k o n) = goes lsn false
analyse_line-Steps lsn last true (Entry.compensated prev tx u k o n) = goes lsn true
analyse_line-Steps lsn last false (Entry.checked txs) = goes lsn false
analyse_line-Steps lsn last true (Entry.checked txs) = goes lsn true

follow-finished :
    (tx_id lsn : ℕ) (es : List Entry) (c : Course)
    → c.status ≡ finished
    → (follow tx_id lsn es c).status ≡ finished
unfolding follow
follow-finished tx_id lsn [] c h = h
follow-finished tx_id lsn (e ∷ es) c h =
    follow-finished tx_id (suc lsn) es _ (stays (tx_of e == tx_id))
  where
    stays : (t : Bool) → (if t then on_line (suc lsn) e c else c).status ≡ finished
    stays true = ap (λ (s : Status). next_status s e) h
    stays false = h

behind-Tells :
    (tx_id lsn : ℕ) (es : List Entry) {v : Analysis × Bool} {c : Course}
    → Steps v c
    → ((last : ℕ) (aborts : Bool)
        → Tells
            (scan tx_id lsn es (live last aborts))
            (follow tx_id lsn es (live_course last aborts)))
    → Tells (if v.1 then v.0 else scan tx_id lsn es v.0) (follow tx_id lsn es c)
behind-Tells tx_id lsn es (goes last aborts) rest = rest last aborts
behind-Tells tx_id lsn es (stops {c = c} h fin) rest = dead h (follow-finished tx_id lsn es c fin)

-- The analysis tells what the lines stand for.
pub scan-follow :
    (tx_id lsn : ℕ) (es : List Entry) (last : ℕ) (aborts : Bool)
    → Tells (scan tx_id lsn es (live last aborts)) (follow tx_id lsn es (live_course last aborts))
unfolding scan follow
scan-follow tx_id lsn [] last aborts = alive last aborts
scan-follow tx_id lsn (e ∷ es) last aborts = elim (Bool-cases (tx_of e == tx_id)) [
  | inl mine ↦ rw mine (
      behind-Tells tx_id (suc lsn) es (analyse_line-Steps (suc lsn) last aborts e)
        (λ l b. scan-follow tx_id (suc lsn) es l b))
  | inr other ↦ rw other (scan-follow tx_id (suc lsn) es last aborts)
]

-- So the analysis decides by the fate.
pub decides :
    {es : List Entry} {a : Analysis} {c : Course} {cs : List Change}
    → Tells a c
    → Fate es c cs
    → Verdict es a cs
decides (dead h fin) (over e) = settled h
decides (dead h fin) (running e t) = absurd cc
decides (dead h fin) (aborting e l found t) = absurd cc
decides (dead h fin) (undoing e l found t) = absurd cc
decides (alive last false) (over e) = absurd cc
decides (alive last false) (running e t) = unaborted refl refl t
decides (alive last false) (aborting e l found t) = absurd cc
decides (alive last false) (undoing e l found t) = absurd cc
decides (alive last true) (over e) = absurd cc
decides (alive last true) (running e t) = absurd cc
decides (alive last true) (aborting e l found t) = from_abort refl refl l found t
decides (alive last true) (undoing e l found t) = from_clr refl refl l found t
