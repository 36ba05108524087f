-- ===== src/Recovery/Recover/Scan.antt =====
-- The analysis of a transaction by `kv_recovery_recover` (src/kv_recovery.c), on the entries of the log.
use sample_kv.Prelude.{
  ℕ, zero, suc, ◌+◌, ◌%◌, ◌^◌, ◌<◌, ◌≡◌, ◌≢◌, refl, ap, sym, ◌∙◌, Bool, true, false, Option, none,
  some, List, [], ◌∷◌, ◌++◌, append_assoc, arith, length, length-append, ◌==◌, if◌then◌else◌,
}
use mathlib.Core.Option
use sample_kv.Key.{Bytes}
use sample_kv.Recovery.{LogType, get_log}
use sample_kv.Recovery.Entries.{Entry, struct_of, AllEntries, render}
use sample_kv.Recovery.Search.{entry_at, get_log-render, entry_at-append, entry_at_end}
use sample_kv.Recovery.Recover.{Analysis, analyse_line, analyse}

-- The transaction of an entry.
abbrev pub tx_of : Entry → ℕ
tx_of e = (struct_of 0 e).tx_id

abbrev pub type_of : Entry → LogType
type_of e = (struct_of 0 e).log_type

-- An entry with an LSN: the variables behind it, and whether the analysis stops.
abbrev pub visit_entry : ℕ → ℕ → Entry → Analysis → Analysis × Bool
visit_entry tx_id lsn e a = if tx_of e == tx_id then analyse_line lsn (type_of e) a else (a, false)

-- The analysis of the entries behind `lsn`.
unfoldable pub scan : ℕ → ℕ → List Entry → Analysis → Analysis
scan tx_id lsn [] a = a
scan tx_id lsn (e ∷ es) a =
    let (a', stop) = visit_entry tx_id (suc lsn) e a in
    let rest = scan tx_id (suc lsn) es a' in if stop then a' else rest

-- The fields that the analysis reads do not depend on the LSN.
same_struct :
    (lsn : ℕ) (e : Entry)
    → ((struct_of lsn e).tx_id ≡ tx_of e) × ((struct_of lsn e).log_type ≡ type_of e)
same_struct lsn (Entry.started prev tx) = (refl, refl)
same_struct lsn (Entry.committed prev tx) = (refl, refl)
same_struct lsn (Entry.aborted prev tx) = (refl, refl)
same_struct lsn (Entry.ended prev tx) = (refl, refl)
same_struct lsn (Entry.updated prev tx k o n) = (refl, refl)
same_struct lsn (Entry.compensated prev tx u k o n) = (refl, refl)
same_struct lsn (Entry.checked txs) = (refl, refl)

module _ (fuel : ℕ) (stack file : Bytes) (tx_id lsn next : ℕ) (a : Analysis)
    (e : (lsn + 1) % 2 ^ 32 ≡ next) where
  analyse_stop : get_log stack file next ≡ none → analyse (suc fuel) stack file tx_id lsn a ≡ some a
  unfolding analyse
  analyse_stop h = rw (e, analyse, h) refl

  analyse_step :
      (x : Entry)
      → get_log stack file next ≡ some (struct_of next x)
      → analyse (suc fuel) stack file tx_id lsn a ≡ (
          if (visit_entry tx_id next x a).1
          then some (visit_entry tx_id next x a).0
          else analyse fuel stack file tx_id next (visit_entry tx_id next x a).0)
  unfolding analyse
  analyse_step x h =
      rw (e, analyse, h, (same_struct next x).0, (same_struct next x).1)
        (ap
          (λ (y : ℕ).
            if (visit_entry tx_id y x a).1
            then some (visit_entry tx_id y x a).0
            else analyse fuel stack file tx_id y (visit_entry tx_id y x a).0)
          e)

-- The loop behind the entries `front`, with more fuel than there are entries left.
pub analyse-scan :
    (stack : Bytes) (tx_id : ℕ) (rest front all : List Entry) (fuel lsn : ℕ) (a : Analysis)
    → all ≡ front ++ rest
    → AllEntries all
    → suc (length all) < 2 ^ 32
    → lsn ≡ length front
    → length rest < fuel
    → analyse fuel stack (render 0 all) tx_id lsn a ≡ some (scan tx_id lsn rest a)
analyse-scan stack tx_id rest front all zero lsn a e h small at le = absurd (omega arith)
analyse-scan stack tx_id [] front all (suc fuel) lsn a e h small at le =
    analyse_stop fuel stack (render 0 all) tx_id lsn (suc (length front)) a next
      (get_log-render stack all (length front) h (omega arith) ∙ ap (Option.map _) found)
    ∙ (unfold scan in refl)
  where
    found : entry_at all (length front) ≡ none
    found = rw e (entry_at_end front)

    next : (lsn + 1) % 2 ^ 32 ≡ suc (length front)
    next = omega (arith, ap length e, length-append front [])
analyse-scan stack tx_id (x ∷ rest) front all (suc fuel) lsn a e h small at le =
    analyse_step fuel stack (render 0 all) tx_id lsn (suc (length front)) a next x
      (get_log-render stack all (length front) h (omega arith) ∙ ap (Option.map _) found)
    ∙ ap
        (λ (r : Option Analysis).
          let v = visit_entry tx_id (suc (length front)) x a in if v.1 then some v.0 else r)
        (analyse-scan stack tx_id rest (front ++ x ∷ []) all fuel (suc (length front))
          (visit_entry tx_id (suc (length front)) x a).0
          (e ∙ sym (append_assoc front (x ∷ []) rest)) h small
          (omega (arith, length-append front (x ∷ []))) (omega arith))
    ∙ stopped (visit_entry tx_id (suc (length front)) x a)
    ∙ scanned
  where
    found : entry_at all (length front) ≡ some x
    found = rw e (entry_at-append front rest x)

    next : (lsn + 1) % 2 ^ 32 ≡ suc (length front)
    next = omega (arith, ap length e, length-append front (x ∷ rest))

    stopped :
        (v : Analysis × Bool)
        → (if v.1 then some v.0 else some (scan tx_id (suc (length front)) rest v.0))
          ≡ some (if v.1 then v.0 else scan tx_id (suc (length front)) rest v.0)
    stopped (b, true) = refl
    stopped (b, false) = refl

    scanned :
        some (
          let v = visit_entry tx_id (suc (length front)) x a in
          if v.1 then v.0 else scan tx_id (suc (length front)) rest v.0)
        ≡ some (scan tx_id lsn (x ∷ rest) a)
    scanned = rw at (unfold scan in refl)

-- Entries of other transactions do not count.
unfoldable pub Others : ℕ → List Entry → Type 0
Others tx_id [] = Unit
Others tx_id (e ∷ es) = (tx_of e ≢ tx_id) × Others tx_id es
