-- ===== src/Recovery/Format.antt =====
-- The shape of the lines that src/kv_recovery.c writes: their text, their length, and their LSN.
use sample_kv.Prelude.{
  ℕ, zero, suc, ◌+◌, ◌*◌, ◌%◌, ◌/◌, ◌^◌, ◌≤◌, ◌≡◌, ◌≢◌, refl, ap, Bool, true, not, ◌&&◌, List, [],
  ◌∷◌, ◌++◌, arith, length, length-append, take, ◌==◌,
}
use sample_kv.Key.{Bytes}
use sample_kv.Utils.{get_hex, uint32_to_hex, hex_to_uint32, size_t_to_2_digit_hex}
use sample_kv.Utils.Hex.{
  all_pass, pass, length-uint32_to_hex, length-size_t_to_2_digit_hex, hex_to_uint32-uint32_to_hex,
}
use sample_kv.Recovery.{
  LogType, OngoingTx, newline, type_name, c_str, fgets, line_head, data_part, data_line, check_line,
  tx_entries,
}
use sample_kv.Recovery.Entries.{
  Entry, started, committed, aborted, ended, updated, compensated, checked, line_of, IsText, nil,
  char, IsData, IsWord, IsEntry,
}

-- Text and a newline behind it.
pub data IsRow : Bytes → Type 0 where
  last : IsRow (newline ∷ [])
  more : {c : ℕ} {cs : Bytes} → c ≢ newline → c ≢ 0 → IsRow cs → IsRow (c ∷ cs)

pub IsRow-append : {s r : Bytes} → IsText s → IsRow r → IsRow (s ++ r)
IsRow-append nil h = h
IsRow-append (char ne nz t) h = more ne nz (IsRow-append t h)

space : {r : Bytes} → IsRow r → IsRow (b' ' ∷ r)
space h = more (omega arith) (omega arith) h

pub fgets-IsRow :
    (n : ℕ) {s : Bytes} (rest : Bytes) → IsRow s → length s ≤ n → fgets n (s ++ rest) ≡ (s, rest)
unfolding fgets
fgets-IsRow zero rest last le = absurd (omega arith)
fgets-IsRow zero rest (more ne nz h) le = absurd (omega arith)
fgets-IsRow (suc n) rest last le = refl
fgets-IsRow (suc n) rest (more ne nz h) le = rw (fgets-IsRow n rest h (omega arith)) (ground arith)

pub c_str-IsRow : {s : Bytes} → IsRow s → c_str s ≡ s
unfolding c_str
c_str-IsRow last = refl
c_str-IsRow (more ne nz h) = rw (c_str-IsRow h) (ground arith)

code_table : all_pass (λ d. not (get_hex d == newline) && not (get_hex d == 0)) 16 ≡ true
unfolding all_pass get_hex
code_table = refl

code_text : (x : ℕ) → (get_hex (x % 16) ≢ newline) × (get_hex (x % 16) ≢ 0)
code_text x =
    let h =
      pass (λ d. not (get_hex d == newline) && not (get_hex d == 0)) 16 (x % 16) (omega arith)
        code_table in
    ground (arith, h)

pub hex-IsText : (x : ℕ) → IsText (uint32_to_hex x)
unfolding uint32_to_hex
hex-IsText x =
    digit 28 (digit 24 (digit 20 (digit 16 (digit 12 (digit 8 (digit 4 (digit 0 nil)))))))
  where
    digit : (n : ℕ) {cs : Bytes} → IsText cs → IsText (get_hex (x / 2 ^ n % 16) ∷ cs)
    digit n t = char (code_text (x / 2 ^ n)).0 (code_text (x / 2 ^ n)).1 t

size-IsText : (x : ℕ) → IsText (size_t_to_2_digit_hex x)
unfolding size_t_to_2_digit_hex
size-IsText x =
    char (code_text (x / 2 ^ 4)).0 (code_text (x / 2 ^ 4)).1
      (char (code_text (x / 2 ^ 0)).0 (code_text (x / 2 ^ 0)).1 nil)

unfoldable pub text_test : Bytes → Bool
text_test [] = true
text_test (c ∷ cs) = not (c == newline) && not (c == 0) && text_test cs

-- Concrete text is recognised by evaluation.
pub IsText-of_test : (s : Bytes) → text_test s ≡ true → IsText s
unfolding text_test
IsText-of_test [] h = nil
IsText-of_test (c ∷ cs) h = char (ground arith) (ground arith) (IsText-of_test cs (ground arith))

type-IsText : (t : LogType) → IsText (type_name t)
unfolding text_test
type-IsText LogType.begin = IsText-of_test _ refl
type-IsText LogType.commit = IsText-of_test _ refl
type-IsText LogType.update = IsText-of_test _ refl
type-IsText LogType.abort = IsText-of_test _ refl
type-IsText LogType.clr = IsText-of_test _ refl
type-IsText LogType.check = IsText-of_test _ refl
type-IsText LogType.end = IsText-of_test _ refl

-- One part of a line and a space, before what is a row.
part : {s r : Bytes} → IsText s → IsRow r → IsRow (s ++ b' ' ∷ r)
part t h = IsRow-append t (space h)

append_cons : (a : Bytes) (c : ℕ) (b r : Bytes) → (a ++ c ∷ b) ++ r ≡ a ++ c ∷ (b ++ r)
append_cons [] c b r = refl
append_cons (x ∷ a) c b r = ap (λ l. x ∷ l) (append_cons a c b r)

head-IsRow :
    (lsn prev tx : ℕ) (t : LogType) {r : Bytes} → IsRow r → IsRow (line_head lsn prev tx t ++ r)
unfolding line_head
head-IsRow lsn prev tx t h = simp append_cons (
    part (hex-IsText lsn) (
      part (hex-IsText prev)
        (more (omega arith) (omega arith) (part (hex-IsText tx) (IsRow-append (type-IsText t) h)))))

data-IsRow : {k o n : Bytes} → IsData k o n → IsRow (data_part k o n)
unfolding data_part
data-IsRow {k} {o} {n} h = part (size-IsText (length k)) (
    part (size-IsText (length o)) (
      part (size-IsText (length n))
        (part h.key.text (part h.old.text (IsRow-append h.new.text last)))))

txs-IsRow :
    (t : OngoingTx) (ts : List OngoingTx) {r : Bytes} → IsRow r → IsRow (tx_entries (t ∷ ts) ++ r)
unfolding tx_entries
txs-IsRow t [] h =
    more (omega arith) (omega arith)
      (rw append_cons (part (hex-IsText t.tx_id) (IsRow-append (hex-IsText t.last_lsn) h)))
txs-IsRow t (u ∷ ts) h =
    more (omega arith) (omega arith) (
      simp append_cons
        (part (hex-IsText t.tx_id) (part (hex-IsText t.last_lsn) (txs-IsRow u ts h))))

-- Every line is text up to its end.
pub line_of-IsRow : (lsn : ℕ) (e : Entry) → IsEntry e → IsRow (line_of lsn e)
unfolding line_of data_line check_line text_test
line_of-IsRow lsn (started prev tx) h = head-IsRow lsn prev tx LogType.begin last
line_of-IsRow lsn (committed prev tx) h = head-IsRow lsn prev tx LogType.commit last
line_of-IsRow lsn (aborted prev tx) h = head-IsRow lsn prev tx LogType.abort last
line_of-IsRow lsn (ended prev tx) h = head-IsRow lsn prev tx LogType.end last
line_of-IsRow lsn (updated prev tx k o n) h =
    head-IsRow lsn prev tx LogType.update (space (data-IsRow h.2))
line_of-IsRow lsn (compensated prev tx undo k o n) h =
    head-IsRow lsn prev tx LogType.clr (space (part (hex-IsText undo) (data-IsRow h.3)))
line_of-IsRow lsn (checked []) h =
    head-IsRow lsn 0 0 LogType.check
      (space (IsRow-append (IsText-of_test (b'0' ∷ b'0' ∷ []) refl) last))
line_of-IsRow lsn (checked (t ∷ ts)) h =
    head-IsRow lsn 0 0 LogType.check
      (space (part (size-IsText (length (t ∷ ts))) (txs-IsRow t ts last)))

ruleset lengths = (length-append, length-uint32_to_hex, length-size_t_to_2_digit_hex)

length-line_head : (lsn prev tx : ℕ) (t : LogType) → length (line_head lsn prev tx t) ≡ 35
unfolding line_head uint32_to_hex
length-line_head lsn prev tx LogType.begin = refl
length-line_head lsn prev tx _ = refl

length-data_part : (k o n : Bytes) → length (data_part k o n) ≡ 12 + length k + length o + length n
unfolding data_part
length-data_part k o n = simp lengths (omega arith)

length-tx_entries :
    (t : OngoingTx) (ts : List OngoingTx) → length (tx_entries (t ∷ ts)) ≡ 18 + 19 * length ts
unfolding tx_entries
length-tx_entries t [] = simp lengths (omega arith)
length-tx_entries t (u ∷ ts) = simp lengths (omega (arith, length-tx_entries u ts))

-- Every line fits in `line`, with its NUL.
pub length-line_of : (lsn : ℕ) (e : Entry) → IsEntry e → length (line_of lsn e) ≤ 127
unfolding line_of data_line check_line
length-line_of lsn (started prev tx) h = simp (lengths, length-line_head) (omega arith)
length-line_of lsn (committed prev tx) h = simp (lengths, length-line_head) (omega arith)
length-line_of lsn (aborted prev tx) h = simp (lengths, length-line_head) (omega arith)
length-line_of lsn (ended prev tx) h = simp (lengths, length-line_head) (omega arith)
length-line_of lsn (updated prev tx k o n) h =
    simp (lengths, length-line_head, length-data_part)
      (omega (arith, h.2.key.short, h.2.old.short, h.2.new.short))
length-line_of lsn (compensated prev tx undo k o n) h =
    simp (lengths, length-line_head, length-data_part)
      (omega (arith, h.3.key.short, h.3.old.short, h.3.new.short))
length-line_of lsn (checked []) h = simp (lengths, length-line_head) (omega arith)
length-line_of lsn (checked (t ∷ ts)) h =
    simp (lengths, length-line_head, length-tx_entries) (omega (arith, h.0))

-- A line begins with its LSN.
pub lsn-line_of :
    (lsn : ℕ) (e : Entry) (tail : Bytes)
    → IsWord lsn
    → hex_to_uint32 (take 8 (line_of lsn e ++ tail)) ≡ lsn
unfolding line_of data_line check_line uint32_to_hex
lsn-line_of lsn (started prev tx) tail h = hex_to_uint32-uint32_to_hex lsn h
lsn-line_of lsn (checked []) tail h = hex_to_uint32-uint32_to_hex lsn h
lsn-line_of lsn (checked (t ∷ ts)) tail h = hex_to_uint32-uint32_to_hex lsn h
lsn-line_of lsn _ tail h = hex_to_uint32-uint32_to_hex lsn h
