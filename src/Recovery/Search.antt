-- ===== src/Recovery/Search.antt =====
-- The search of `kv_recovery_get_log` (src/kv_recovery.c) in a file of written lines.
use sample_kv.Prelude.{
  ℕ, zero, suc, ◌+◌, ◌^◌, ◌≤◌, ◌<◌, ◌≡◌, ◌≢◌, refl, ap, ◌∙◌, false, Option, none, some, inl, inr,
  List, [], ◌∷◌, ◌++◌, arith, length, length-append, take, drop, ◌==◌, Option-cases, ==_refl,
  if◌then◌else◌,
}
use mathlib.Core.Option
use mathlib.Core.Path.{subst}
use sample_kv.Key.{Bytes}
use sample_kv.Utils.{hex_to_uint32}
use sample_kv.Recovery.{overlay, search_line, get_log}
use sample_kv.Recovery.Entries.{Entry, line_of, struct_of, IsWord, IsEntry, AllEntries, render}
use sample_kv.Recovery.Format.{
  IsRow, last, more, fgets-IsRow, line_of-IsRow, length-line_of, lsn-line_of,
}
use sample_kv.Recovery.Parse.{parse_line-line_of}

-- The entry at a position, from 0.
abbrev pub entry_at : List Entry → ℕ → Option Entry
entry_at [] i = none
entry_at (e ∷ es) zero = some e
entry_at (e ∷ es) (suc i) = entry_at es i

pub entry_at-append :
    (front rest : List Entry) (e : Entry) → entry_at (front ++ e ∷ rest) (length front) ≡ some e
entry_at-append [] rest e = refl
entry_at-append (x ∷ front) rest e = entry_at-append front rest e

pub entry_at_end : (front : List Entry) → entry_at (front ++ []) (length front) ≡ none
entry_at_end [] = refl
entry_at_end (x ∷ front) = entry_at_end front

-- One round on a row.
search_row :
    (fuel : ℕ) {s : Bytes} (rest line : Bytes) (l lsn : ℕ)
    → IsRow s
    → length s ≤ 127
    → search_line (suc fuel) (s ++ rest) line l lsn ≡ (
        let found = hex_to_uint32 (take 8 (overlay s line)) in
        if found == lsn
        then (overlay s line, found)
        else search_line fuel rest (overlay s line) found lsn)
unfolding search_line
search_row fuel rest line l lsn last le = rw (fgets-IsRow 127 rest last le)
search_row fuel rest line l lsn (more ne nz h) le = rw (fgets-IsRow 127 rest (more ne nz h) le)

pub length-IsRow : {s : Bytes} → IsRow s → 0 < length s
length-IsRow last = omega arith
length-IsRow (more ne nz h) = omega arith

module _ (n : ℕ) (e : Entry) (es : List Entry) (fuel : ℕ) (line : Bytes) (l lsn : ℕ)
    (he : IsEntry e) (small : IsWord (suc n)) where
  array : Bytes
  array = overlay (line_of (suc n) e) line

  lsn-array : hex_to_uint32 (take 8 array) ≡ suc n
  unfolding array overlay
  lsn-array = lsn-line_of (suc n) e _ small

  search_entry : search_line (suc fuel) (render n (e ∷ es)) line l lsn ≡ (
      if suc n == lsn
      then (array, suc n)
      else search_line fuel (render (suc n) es) array (suc n) lsn)
  unfolding render array
  search_entry =
      search_row fuel (render (suc n) es) line l lsn (line_of-IsRow (suc n) e he)
        (length-line_of (suc n) e he)
      ∙ rw lsn-array

  fuel_left : length (render n (e ∷ es)) ≤ suc fuel → length (render (suc n) es) ≤ fuel
  unfolding render
  fuel_left h = omega (
    arith,
    length-append (line_of (suc n) e) (render (suc n) es),
    length-IsRow (line_of-IsRow (suc n) e he),
  )

  fuel_pos : length (render n (e ∷ es)) ≡ 0 → ⊥
  unfolding render
  fuel_pos h = omega (
    arith,
    length-append (line_of (suc n) e) (render (suc n) es),
    length-IsRow (line_of-IsRow (suc n) e he),
  )

-- The line that the search stops at, and its LSN.
search_found :
    (n : ℕ) (es : List Entry) (fuel : ℕ) (line : Bytes) (l i : ℕ) (e : Entry)
    → AllEntries es
    → n + length es < 2 ^ 32
    → length (render n es) ≤ fuel
    → entry_at es i ≡ some e
    → (tail : Bytes) × (search_line fuel (render n es) line l (n + suc i)
        ≡ (line_of (n + suc i) e ++ tail, n + suc i))
search_found n [] fuel line l i e h small le found = cc
search_found n (e' ∷ es) zero line l i e h small le found =
    absurd (fuel_pos n e' es 0 line l i h.0 (omega arith) (omega arith))
search_found n (e' ∷ es) (suc fuel) line l zero e h small le found =
    let word : n + suc zero ≡ suc n = omega arith in
    let same : e' ≡ e = cc in
    (
      0 ∷ drop (length (line_of (suc n) e') + 1) line,
      rw (word, ← same)
          (search_entry n e' es fuel line l (suc n) h.0 (omega arith)
            ∙ rw ==_refl (unfold array overlay in refl)),
    )
search_found n (e' ∷ es) (suc fuel) line l (suc i) e h small le found =
    let next : n + suc (suc i) ≡ suc n + suc i = omega arith in
    let (tail, run) =
      search_found (suc n) es fuel (array n e' es fuel line l (suc n + suc i) h.0 (omega arith))
        (suc n) i e h.1 (omega arith) (fuel_left n e' es fuel line l i h.0 (omega arith) le)
        found in
    (
      tail,
      rw next
          (search_entry n e' es fuel line l (suc n + suc i) h.0 (omega arith) ∙ rw (skip n i) run),
    )
  where
    skip : (n i : ℕ) → suc n == suc n + suc i ≡ false
    skip n i = ground arith

-- Of an LSN that no line has, the search ends with another.
search_missed :
    (n : ℕ) (es : List Entry) (fuel : ℕ) (line : Bytes) (l lsn : ℕ)
    → AllEntries es
    → n + length es < lsn
    → n + length es < 2 ^ 32
    → l ≢ lsn
    → (search_line fuel (render n es) line l lsn).1 ≢ lsn
search_missed n [] zero line l lsn h far small ne = unfold search_line in ne
search_missed n [] (suc fuel) line l lsn h far small ne = unfold search_line render in ne
search_missed n (e ∷ es) zero line l lsn h far small ne = unfold search_line in ne
search_missed n (e ∷ es) (suc fuel) line l lsn h far small ne =
    rw (search_entry n e es fuel line l lsn h.0 (omega arith), skip)
      (search_missed (suc n) es fuel (array n e es fuel line l lsn h.0 (omega arith)) (suc n) lsn
        h.1 (omega arith) (omega arith) (omega arith))
  where
    skip : suc n == lsn ≡ false
    skip = ground arith

entry_at-none : (es : List Entry) (i : ℕ) → entry_at es i ≡ none → length es ≤ i
entry_at-none [] i h = omega arith
entry_at-none (e ∷ es) zero h = cc
entry_at-none (e ∷ es) (suc i) h = omega (arith, entry_at-none es i h)

pub entry-IsEntry :
    (es : List Entry) (i : ℕ) (e : Entry) → AllEntries es → entry_at es i ≡ some e → IsEntry e
entry-IsEntry [] i e h found = cc
entry-IsEntry (e' ∷ es) zero e h found = let same : e' ≡ e = cc in subst IsEntry same h.0
entry-IsEntry (e' ∷ es) (suc i) e h found = entry-IsEntry es i e h.1 found

search_from_start :
    (es : List Entry) (stack : Bytes) (i : ℕ) (e : Entry)
    → AllEntries es
    → length es < 2 ^ 32
    → entry_at es i ≡ some e
    → (tail : Bytes) × (search_line (length (render 0 es)) (render 0 es) stack 0 (suc i)
        ≡ (line_of (suc i) e ++ tail, suc i))
search_from_start es stack i e h small found =
    subst
      (λ (m : ℕ).
        (tail : Bytes) × (search_line (length (render 0 es)) (render 0 es) stack 0 m
          ≡ (line_of m e ++ tail, m)))
      start
      (search_found 0 es (length (render 0 es)) stack 0 i e h (omega arith) (omega arith) found)
  where
    start : 0 + suc i ≡ suc i
    start = omega arith

-- In a file of written lines, whatever the array held before, `kv_recovery_get_log` returns the
-- struct of the entry at the LSN, and NULL for an LSN past the last.
pub get_log-render :
    (stack : Bytes) (es : List Entry) (i : ℕ)
    → AllEntries es
    → length es < 2 ^ 32
    → get_log stack (render 0 es) (suc i) ≡ Option.map (struct_of (suc i)) (entry_at es i)
unfolding get_log
get_log-render stack es i h small = elim (Option-cases (entry_at es i)) [
  | inl e ↦ rw (e, not_found (entry_at-none es i e))
  | inr (e, found) ↦
      let (tail, run) = search_from_start es stack i e h small found in
      rw (found, run, ==_refl)
        (ap some (parse_line-line_of (suc i) e tail (entry-IsEntry es i e h found)))
]
  where
    not_found :
        length es ≤ i
        → ((search_line (length (render 0 es)) (render 0 es) stack 0 (suc i)).1 == suc i) ≡ false
    not_found le = ground (
      arith,
      search_missed 0 es (length (render 0 es)) stack 0 (suc i) h (omega arith) (omega arith)
          (omega arith),
    )
