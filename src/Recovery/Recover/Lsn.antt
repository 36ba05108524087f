-- ===== src/Recovery/Recover/Lsn.antt =====
-- The LSN that `kv_recovery_recover` (src/kv_recovery.c) goes on from, in a file of written lines.
use sample_kv.Prelude.{
  ℕ, zero, suc, ◌+◌, ◌-◌, ◌^◌, ◌≤◌, ◌<◌, ◌≡◌, ◌≢◌, refl, ap, sym, ◌∙◌, false, List, [], ◌∷◌, ◌++◌,
  append-nil, append_assoc, arith, get_or, length, length-append, take, drop, drop-append, ◌==◌,
  if◌then◌else◌, differ,
}
use mathlib.Core.Path.{subst}
use sample_kv.Key.{Bytes}
use sample_kv.Utils.{hex_to_uint32, uint32_to_hex}
use sample_kv.Recovery.{newline, fgets, overlay, line_head, data_line, check_line}
use sample_kv.Recovery.Entries.{
  Entry, started, checked, line_of, AllEntries, IsEntry, IsWord, render,
}
use sample_kv.Recovery.Format.{IsRow, last, more, line_of-IsRow, lsn-line_of}
use sample_kv.Recovery.Search.{length-IsRow}
use sample_kv.Recovery.Write.{render-append_first}
use sample_kv.Recovery.Recover.{line_start, last_lsn}

get_or-append : (s t : Bytes) (j : ℕ) → get_or (s ++ t) (length s + j) 0 ≡ get_or t j 0
get_or-append [] t j = let e : 0 + j ≡ j = omega arith in rw e refl
get_or-append (c ∷ s) t j =
    let e : suc (length s) + j ≡ suc (length s + j) = omega arith in rw e (get_or-append s t j)

get_or-append_lt : (s t : Bytes) (j : ℕ) → j < length s → get_or (s ++ t) j 0 ≡ get_or s j 0
get_or-append_lt [] t j h = absurd (omega arith)
get_or-append_lt (c ∷ s) t zero h = refl
get_or-append_lt (c ∷ s) t (suc j) h = get_or-append_lt s t j (omega arith)

-- The newline of a row is its last character, and no other.
row_inner : {s : Bytes} (j : ℕ) → IsRow s → j + 1 < length s → get_or s j 0 ≢ newline
row_inner j last h = absurd (omega arith)
row_inner zero (more ne nz r) h = ne
row_inner (suc j) (more ne nz r) h = row_inner j r (omega arith)

row_last : {s : Bytes} (j : ℕ) → IsRow s → j + 1 ≡ length s → get_or s j 0 ≡ newline
row_last zero last h = refl
row_last (suc j) last h = absurd (omega arith)
row_last zero (more ne nz last) h = absurd (omega arith)
row_last zero (more ne nz (more ne' nz' r)) h = absurd (omega arith)
row_last (suc j) (more ne nz r) h = row_last j r (omega arith)

-- From inside the last row the loop steps back to its start.
line_start-row :
    (front row : Bytes) (j : ℕ)
    → IsRow row
    → j < length row
    → line_start (front ++ row) (length front + j) ≡ line_start (front ++ row) (length front)
unfolding line_start
line_start-row front row zero r h =
    let e : length front + 0 ≡ length front = omega arith in rw e refl
line_start-row front row (suc j) r h =
    let e : length front + suc j ≡ suc (length front + j) = omega arith in
    rw
      (
        e,
        line_start,
        get_or-append front row j,
        differ (get_or row j 0) newline (row_inner j r (omega arith)),
      )
      (line_start-row front row j r (omega arith))

-- Behind a row the loop stays.
line_start-end :
    (front row rest : Bytes)
    → IsRow row
    → line_start ((front ++ row) ++ rest) (length (front ++ row)) ≡ length (front ++ row)
unfolding line_start
line_start-end front row rest r =
    let pos = length-IsRow r in
    let n : length (front ++ row) ≡ suc (length front + (length row - 1)) =
      omega (arith, length-append front row) in
    let inner : length row - 1 < length row = omega arith in
    let here : get_or ((front ++ row) ++ rest) (length front + (length row - 1)) 0 ≡ newline =
      ap (λ (t : Bytes). get_or t (length front + (length row - 1)) 0) (append_assoc front row rest)
      ∙ get_or-append front (row ++ rest) (length row - 1)
      ∙ get_or-append_lt row rest (length row - 1) inner
      ∙ row_last (length row - 1) r (omega arith) in
    ap (line_start ((front ++ row) ++ rest)) n ∙ rw (line_start, here) (sym n)

-- The last one of a list that is not empty.
unsnoc : (es : List Entry) → 0 < length es → (fs : List Entry) × (e : Entry) × (es ≡ fs ++ e ∷ [])
unsnoc [] h = absurd (omega arith)
unsnoc (e ∷ []) h = ([], e, refl)
unsnoc (e ∷ e' ∷ es) h =
    let (fs, l, q) = unsnoc (e' ∷ es) (omega arith) in (e ∷ fs, l, ap (λ x. e ∷ x) q)

AllEntries-front :
    (es : List Entry) (e : Entry) → AllEntries (es ++ e ∷ []) → AllEntries es × IsEntry e
AllEntries-front [] e h = (tt, h.0)
AllEntries-front (x ∷ es) e h = let (rest, he) = AllEntries-front es e h.1 in ((h.0, rest), he)

fgets-row : (n : ℕ) {s : Bytes} → IsRow s → fgets n s ≡ (take n s, drop n s)
unfolding fgets
fgets-row zero r = refl
fgets-row (suc zero) last = refl
fgets-row (suc (suc n)) last = refl
fgets-row (suc n) (more {c} ne nz r) = rw (differ c newline ne, fgets-row n r) refl

take-take : (n : ℕ) (s t : Bytes) → n ≤ length s → take n (take n s ++ t) ≡ take n s
take-take zero s t h = refl
take-take (suc n) [] t h = absurd (omega arith)
take-take (suc n) (c ∷ s) t h = ap (λ l. c ∷ l) (take-take n s t (omega arith))

le-length-line_of : (lsn : ℕ) (e : Entry) → 8 ≤ length (line_of lsn e)
unfolding line_of data_line check_line line_head uint32_to_hex
le-length-line_of lsn (started prev tx) = omega arith
le-length-line_of lsn (checked []) = omega arith
le-length-line_of lsn (checked (t ∷ ts)) = omega arith
le-length-line_of lsn _ = omega arith

lsn-read :
    (lsn : ℕ) (e : Entry) (stack : Bytes)
    → IsEntry e
    → IsWord lsn
    → hex_to_uint32 (take 8 (overlay (fgets 8 (line_of lsn e)).0 stack)) ≡ lsn
unfolding overlay
lsn-read lsn e stack he word =
    rw
      (
        overlay,
        fgets-row 8 (line_of-IsRow lsn e he),
        take-take 8 (line_of lsn e) _ (le-length-line_of lsn e),
      )
      (ap (λ l. hex_to_uint32 (take 8 l)) (sym (append-nil (line_of lsn e)))
        ∙ lsn-line_of lsn e [] word)

-- In a file of two parts, the second a row, the first empty or ending in a row.
start-one : (row : Bytes) → IsRow row → line_start row (length row - 1) ≡ 0
unfolding line_start
start-one row r =
    let pos = length-IsRow r in
    let e : length row - 1 ≡ 0 + (length row - 1) = omega arith in
    rw e (line_start-row [] row (length row - 1) r (omega arith))

start-more :
    (front row row' : Bytes)
    → IsRow row
    → IsRow row'
    → line_start ((front ++ row) ++ row') (length ((front ++ row) ++ row') - 1)
      ≡ length (front ++ row)
start-more front row row' r r' =
    let pos = length-IsRow r' in
    let e : length ((front ++ row) ++ row') - 1 ≡ length (front ++ row) + (length row' - 1) =
      omega (arith, length-append (front ++ row) row') in
    rw e (
      line_start-row (front ++ row) row' (length row' - 1) r' (omega arith)
      ∙ line_start-end front row row' r)

last_lsn-more :
    (stack : Bytes) (es : List Entry) (e e' : Entry)
    → AllEntries ((es ++ e ∷ []) ++ e' ∷ [])
    → length es + 2 < 2 ^ 32
    → last_lsn stack (render 0 ((es ++ e ∷ []) ++ e' ∷ [])) ≡ length es + 2
unfolding last_lsn
last_lsn-more stack es e e' h small =
    let (front, he') = AllEntries-front (es ++ e ∷ []) e' h in
    let (_, he) = AllEntries-front es e front in
    let row = line_of-IsRow (suc (length es)) e he in
    let row' = line_of-IsRow (suc (length (es ++ e ∷ []))) e' he' in
    let file =
      render-append_first (es ++ e ∷ []) e'
      ∙ ap (λ l. l ++ line_of (suc (length (es ++ e ∷ []))) e') (render-append_first es e) in
    let pos : (length (render 0 es ++ line_of (suc (length es)) e) == 0) ≡ false =
      ground (arith, length-append (render 0 es) (line_of (suc (length es)) e), length-IsRow row) in
    let lsn : suc (length (es ++ e ∷ [])) ≡ length es + 2 =
      omega (arith, length-append es (e ∷ [])) in
    rw
      (
        file,
        last_lsn,
        start-more (render 0 es) _ _ row row',
        pos,
        drop-append (render 0 es ++ line_of (suc (length es)) e)
            (line_of (suc (length (es ++ e ∷ []))) e'),
      )
      (lsn-read (suc (length (es ++ e ∷ []))) e' stack he' (omega (arith, lsn)) ∙ lsn)

render-one : (e : Entry) → render 0 (e ∷ []) ≡ line_of 1 e
unfolding render
render-one e = append-nil (line_of 1 e)

last_lsn-one : (stack row : Bytes) → IsRow row → last_lsn stack row ≡ 0
unfolding last_lsn
last_lsn-one stack row r = rw (start-one row r) refl

-- The LSN that `kv_recovery_recover` goes on from in a file of written lines, whatever its array held
-- before: it is the LSN of the last line, but 0 where the file has a single line.
pub last_lsn-render :
    (stack : Bytes) (es : List Entry)
    → AllEntries es
    → length es < 2 ^ 32
    → last_lsn stack (render 0 es) ≡ (if length es == 1 then 0 else length es)
last_lsn-render stack [] h small = unfold last_lsn in unfold render in refl
last_lsn-render stack (e ∷ []) h small =
    ap (last_lsn stack) (render-one e) ∙ last_lsn-one stack (line_of 1 e) (line_of-IsRow 1 e h.0)
last_lsn-render stack (e ∷ e' ∷ es) h small =
    let (fs, l, q) = unsnoc (e ∷ e' ∷ es) (omega arith) in
    let len = length-append fs (l ∷ []) in
    let (gs, m, p) = unsnoc fs (omega (arith, ap length q, len)) in
    let all = q ∙ ap (λ x. x ++ l ∷ []) p in
    let count : length gs + 2 ≡ suc (suc (length es)) =
      omega (arith, ap length q, len, ap length p, length-append gs (m ∷ [])) in
    let many : (suc (suc (length es)) == 1) ≡ false = ground arith in
    rw many (
      ap (λ x. last_lsn stack (render 0 x)) all
      ∙ last_lsn-more stack gs m l (subst (λ x. AllEntries x) all h) (omega (arith, count))
      ∙ count)
