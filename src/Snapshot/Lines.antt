-- ===== src/Snapshot/Lines.antt =====
-- One line of a snapshot (src/kv_recovery_snapshot.c), and what `kv_recovery_redo` (src/kv_recovery.c)
-- reads of it.
use sample_kv.Prelude.{
  ℕ, Lacks, differ, zero, suc, ◌+◌, ◌-◌, ◌%◌, ◌^◌, ◌≤◌, ◌<◌, ◌≡◌, refl, ap, sym, ◌∙◌, Bool, true,
  false, Option, none, some, [], ◌∷◌, ◌++◌, append_assoc, arith, length, length-append, drop,
  take-append, drop_past, ◌==◌, if◌then◌else◌,
}
use sample_kv.Key.{Bytes, key_funcs}
use sample_kv.Hash
use sample_kv.Hash.{Table, Chain, same, find, get, foreach}
use sample_kv.Recovery.{newline, overlay}
use sample_kv.Recovery.Entries.{IsText}
use sample_kv.Recovery.Format.{IsRow, last, more, IsRow-append, fgets-IsRow}
use sample_kv.Recovery.Redo.{Store, scan_line, only_new, cut_line, load_line, load_snapshot}
use sample_kv.Snapshot.{snapshot_line}

-- A pair whose line can be written and read back.
pub record IsPair (k v : Bytes) : Type 0 where
  pub key : IsText k
  pub val : IsText v
  pub no_space : Lacks b' ' v
  pub fits : length k + length v ≤ 125

pub snapshot_line-IsRow : {k v : Bytes} → IsPair k v → IsRow (snapshot_line k v)
snapshot_line-IsRow h =
    IsRow-append h.key (more (omega arith) (omega arith) (IsRow-append h.val last))

pub length-snapshot_line : (k v : Bytes) → length (snapshot_line k v) ≡ length k + length v + 2
length-snapshot_line k v =
    omega (arith, length-append k (b' ' ∷ (v ++ newline ∷ [])), length-append v (newline ∷ []))

scan_val :
    (n i key_len : ℕ) (v rest : Bytes)
    → IsText v
    → Lacks b' ' v
    → length v < n
    → scan_line n (v ++ newline ∷ rest) i key_len
      ≡ (key_len, (i + length v + 2 ^ 64 - key_len - 1) % 2 ^ 64)
unfolding scan_line
scan_val zero i key_len v rest t s lt = absurd (omega arith)
scan_val (suc n) i key_len [] rest t s lt = ap (λ (x : ℕ). (key_len, x)) (omega arith)
scan_val (suc n) i key_len (c ∷ v) rest (IsText.char ne nz t) s lt =
    rw (differ c b' ' s.0, differ c newline ne)
      (scan_val n (i + 1) key_len v rest t s.1 (omega arith)
        ∙ ap (λ (x : ℕ). (key_len, x)) (omega arith))

if_same {ℓ} : {A : Type ℓ} (b : Bool) (x : A) → (if b then x else x) ≡ x
if_same true x = refl
if_same false x = refl

scan_pair :
    (n i key_len : ℕ) (k v rest : Bytes)
    → IsText k
    → IsText v
    → Lacks b' ' v
    → length k + length v + 1 < n
    → i + length k + length v + 1 < 2 ^ 64
    → scan_line n (k ++ b' ' ∷ (v ++ newline ∷ rest)) i key_len ≡ (i + length k, length v)
unfolding scan_line
scan_pair zero i key_len k v rest tk tv s lt small = absurd (omega arith)
scan_pair (suc n) i key_len [] v rest tk tv s lt small =
    scan_val n (i + 1) i v rest tv s (omega arith)
    ∙ let at : i ≡ i + 0 = omega arith in
      let len : (i + 1 + length v + 2 ^ 64 - i - 1) % 2 ^ 64 ≡ length v = omega arith in
      rw (len, sym at) refl
scan_pair (suc n) i key_len (c ∷ k) v rest (IsText.char ne nz t) tv s lt small =
    rw (differ c newline ne) (
      (if_same (c == b' ') _)
      ∙ scan_pair n (i + 1) (if c == b' ' then i else key_len) k v rest t tv s (omega arith)
          (omega arith)
      ∙ let e : i + 1 + length k ≡ i + suc (length k) = omega arith in
        ap (λ (x : ℕ). (x, length v)) e)

-- A line of the file, read into the array.
pub load_row :
    (fuel : ℕ) {s : Bytes} (rest buf : Bytes) (ht : Store) {ht' : Store}
    → IsRow s
    → length s ≤ 127
    → load_line (overlay s buf) ht ≡ some ht'
    → load_snapshot (suc fuel) (s ++ rest) buf ht ≡ load_snapshot fuel rest (overlay s buf) ht'
unfolding load_snapshot
load_row fuel {s} rest buf ht h le e = read_row h le ∙ rw e refl
  where
    body : Bytes × Bytes → Option Store
    body read = elim (load_line (overlay read.0 buf) ht) [
      | none ↦ none
      | some t ↦ load_snapshot fuel read.1 (overlay read.0 buf) t
    ]

    read_row :
        {s : Bytes}
        → IsRow s
        → length s ≤ 127
        → load_snapshot (suc fuel) (s ++ rest) buf ht ≡ body (s, rest)
    read_row last le = ap body (fgets-IsRow 127 rest last le)
    read_row (more ne nz h) le = ap body (fgets-IsRow 127 rest (more ne nz h) le)

-- What the line of a pair does to the table.
pub load_line-pair :
    (k v buf : Bytes) (ht : Store)
    → IsPair k v
    → (Hash.set_kv ht k v).0 ≡ none
    → load_line (overlay (snapshot_line k v) buf) ht ≡ some (Hash.set_kv ht k v).1
unfolding load_line overlay
load_line-pair k v buf ht h absent =
    let tail = 0 ∷ drop (length (snapshot_line k v) + 1) buf in
    let line : snapshot_line k v ++ tail ≡ k ++ b' ' ∷ (v ++ newline ∷ tail) = simp append_assoc in
    let scan =
      scan_pair 128 0 0 k v tail h.key h.val h.no_space (omega (arith, h.fits))
        (omega (arith, h.fits)) in
    let next : 0 + length k + 1 ≡ suc (length k) = omega arith in
    let len : 0 + length k ≡ length k = omega arith in
    ap (λ (l : Bytes). cut_line (scan_line 128 l 0 0) l ht) line
    ∙ ap (λ lens. cut_line lens (k ++ b' ' ∷ (v ++ newline ∷ tail)) ht) scan
    ∙ rw
        (
          next,
          len,
          take-append k (b' ' ∷ (v ++ newline ∷ tail)),
          drop_past k (v ++ newline ∷ tail) b' ',
          take-append v (newline ∷ tail),
        )
        (found (Hash.set_kv ht k v) absent)
  where
    found : (r : Option Bytes × Store) → r.0 ≡ none → only_new r ≡ some r.1
    found (none, t) e = refl
    found (some w, t) e = cc
