-- ===== src/Recovery/Parse.antt =====
-- The parser of `kv_recovery_get_log` (src/kv_recovery.c) on the lines that the writers write.
use sample_kv.Prelude.{
  ℕ, suc, ◌≤◌, ◌≡◌, refl, ap, ◌∙◌, some, List, [], ◌∷◌, ◌++◌, arith, length, drop, take-append,
}
use sample_kv.Key.{Bytes}
use sample_kv.Utils.{
  uint32_to_hex, hex_to_uint32, size_t_to_2_digit_hex, from_hex, from_2_digit_hex,
}
use sample_kv.Utils.Hex.{hex_to_uint32-uint32_to_hex, two_digit_exact}
use sample_kv.Recovery.{
  LogType, LogLine, OngoingTx, newline, line_head, data_part, data_line, check_line, tx_entries,
  parse_data, parse_txs, parse_payload, parse_line,
}
use sample_kv.Recovery.Entries.{
  Entry, started, committed, aborted, ended, updated, compensated, checked, line_of, struct_of,
  plain, IsShort, IsData, IsWord, AllTxs, IsEntry,
}

word : (x : ℕ) → IsWord x → hex_to_uint32 (uint32_to_hex x) ≡ x
word = hex_to_uint32-uint32_to_hex

short_length :
    (s : Bytes) → IsShort s → from_2_digit_hex (size_t_to_2_digit_hex (length s)) ≡ length s
short_length s h = (two_digit_exact (length s) (omega (arith, h.short))).1 h.short

drop-append_sep : (xs : Bytes) (c : ℕ) (ys : Bytes) → drop (suc (length xs)) (xs ++ c ∷ ys) ≡ ys
drop-append_sep [] c ys = refl
drop-append_sep (x ∷ xs) c ys = drop-append_sep xs c ys

append_sep : (xs : Bytes) (c : ℕ) (ys zs : Bytes) → (xs ++ c ∷ ys) ++ zs ≡ xs ++ c ∷ (ys ++ zs)
append_sep [] c ys zs = refl
append_sep (x ∷ xs) c ys zs = ap (λ l. x ∷ l) (append_sep xs c ys zs)

parse_data-data_part :
    (l : LogLine) (k old_val new_val tail : Bytes)
    → IsData k old_val new_val
    → parse_data l (data_part k old_val new_val ++ tail)
      ≡ record l { key = k; old_val = old_val; new_val = new_val }
unfolding parse_data data_part size_t_to_2_digit_hex
parse_data-data_part l k old_val new_val tail h = simp (
  short_length k h.key,
  short_length old_val h.old,
  short_length new_val h.new,
  append_sep,
  drop-append_sep,
  take-append,
)

-- The part of a line that all types share.
parse_head :
    (t : LogType) (lsn prev tx c : ℕ) (cur : Bytes)
    → IsWord prev
    → IsWord tx
    → parse_line lsn (line_head lsn prev tx t ++ c ∷ cur)
      ≡ parse_payload t (plain lsn prev tx t) cur
unfolding parse_line line_head uint32_to_hex
parse_head LogType.begin lsn prev tx c cur hp ht = λ i.
    parse_payload LogType.begin
      (record (plain lsn prev tx LogType.begin) { prev_lsn = word prev hp i; tx_id = word tx ht i })
      cur
parse_head t lsn prev tx c cur hp ht = λ i.
    parse_payload t
      (record (plain lsn prev tx t) { prev_lsn = word prev hp i; tx_id = word tx ht i }) cur

-- The entries of a CHECK__ line.
parse_txs-tx_entries :
    (txs : List OngoingTx) (tail : Bytes)
    → AllTxs txs
    → parse_txs (length txs) (tx_entries txs ++ tail) ≡ txs
unfolding parse_txs tx_entries uint32_to_hex
parse_txs-tx_entries [] tail h = refl
parse_txs-tx_entries (t ∷ []) tail h =
    λ i. record { tx_id = word t.tx_id h.0 i; last_lsn = word t.last_lsn h.1 i } ∷ []
parse_txs-tx_entries (t ∷ u ∷ ts) tail h = λ i.
    record { tx_id = word t.tx_id h.0 i; last_lsn = word t.last_lsn h.1 i }
    ∷ parse_txs-tx_entries (u ∷ ts) tail h.2 i

parse_payload-update :
    (l : LogLine) (k old_val new_val tail : Bytes)
    → IsData k old_val new_val
    → parse_payload LogType.update l (data_part k old_val new_val ++ tail)
      ≡ record l { key = k; old_val = old_val; new_val = new_val }
unfolding parse_payload
parse_payload-update = parse_data-data_part

parse_payload-clr :
    (l : LogLine) (undo : ℕ) (k old_val new_val tail : Bytes)
    → IsWord undo
    → IsData k old_val new_val
    → parse_payload LogType.clr l
        ((uint32_to_hex undo ++ b' ' ∷ data_part k old_val new_val) ++ tail)
      ≡ record l { undo_next_lsn = undo; key = k; old_val = old_val; new_val = new_val }
unfolding parse_payload uint32_to_hex
parse_payload-clr l undo k old_val new_val tail hu hd =
    parse_data-data_part (record l { undo_next_lsn = hex_to_uint32 (uint32_to_hex undo) }) k old_val
      new_val tail hd
    ∙ ap (λ x. record l { undo_next_lsn = x; key = k; old_val = old_val; new_val = new_val })
        (word undo hu)

count_length : (n : ℕ) → n ≤ 4 → from_2_digit_hex (size_t_to_2_digit_hex n) ≡ n
count_length n h = (two_digit_exact n (omega arith)).1 (omega arith)

parse_payload-check :
    (l : LogLine) (t : OngoingTx) (ts : List OngoingTx) (tail : Bytes)
    → length (t ∷ ts) ≤ 4
    → AllTxs (t ∷ ts)
    → parse_payload LogType.check l (
        (size_t_to_2_digit_hex (length (t ∷ ts)) ++ b' ' ∷ (tx_entries (t ∷ ts) ++ newline ∷ []))
        ++ tail)
      ≡ record l { tx_list = some (t ∷ ts) }
unfolding parse_payload size_t_to_2_digit_hex
parse_payload-check l t ts tail h ha =
    rw (count_length (length (t ∷ ts)) h, append_sep)
      (ap (λ x. record l { tx_list = some x }) (parse_txs-tx_entries (t ∷ ts) (newline ∷ tail) ha))

parse_payload-check_none :
    (l : LogLine) (tail : Bytes)
    → parse_payload LogType.check l (b'0' ∷ b'0' ∷ tail) ≡ record l { tx_list = some [] }
unfolding parse_payload from_2_digit_hex from_hex
parse_payload-check_none l tail = refl

-- The parser of `kv_recovery_get_log` takes a written line apart into the struct of its entry, whatever
-- stands behind the line in the array, for numbers that fit and short text.
pub parse_line-line_of :
    (lsn : ℕ) (e : Entry) (tail : Bytes)
    → IsEntry e
    → parse_line lsn (line_of lsn e ++ tail) ≡ struct_of lsn e
unfolding line_of data_line check_line parse_payload
parse_line-line_of lsn (started prev tx) tail h =
    rw append_sep (parse_head LogType.begin lsn prev tx newline tail h.0 h.1)
parse_line-line_of lsn (committed prev tx) tail h =
    rw append_sep (parse_head LogType.commit lsn prev tx newline tail h.0 h.1)
parse_line-line_of lsn (aborted prev tx) tail h =
    rw append_sep (parse_head LogType.abort lsn prev tx newline tail h.0 h.1)
parse_line-line_of lsn (ended prev tx) tail h =
    rw append_sep (parse_head LogType.end lsn prev tx newline tail h.0 h.1)
parse_line-line_of lsn (updated prev tx k old_val new_val) tail h = rw append_sep (
    parse_head LogType.update lsn prev tx b' ' (data_part k old_val new_val ++ tail) h.0 h.1
    ∙ parse_payload-update (plain lsn prev tx LogType.update) k old_val new_val tail h.2)
parse_line-line_of lsn (compensated prev tx undo k old_val new_val) tail h = rw append_sep (
    parse_head LogType.clr lsn prev tx b' '
      ((uint32_to_hex undo ++ b' ' ∷ data_part k old_val new_val) ++ tail) h.0 h.1
    ∙ parse_payload-clr (plain lsn prev tx LogType.clr) undo k old_val new_val tail h.2 h.3)
parse_line-line_of lsn (checked []) tail h = rw append_sep (
    parse_head LogType.check lsn 0 0 b' ' (b'0' ∷ b'0' ∷ newline ∷ tail) (omega arith) (omega arith)
    ∙ parse_payload-check_none (plain lsn 0 0 LogType.check) (newline ∷ tail))
parse_line-line_of lsn (checked (t ∷ ts)) tail h = rw append_sep (
    parse_head LogType.check lsn 0 0 b' '
      ((size_t_to_2_digit_hex (length (t ∷ ts)) ++ b' ' ∷ (tx_entries (t ∷ ts) ++ newline ∷ []))
        ++ tail)
      (omega arith) (omega arith)
    ∙ parse_payload-check (plain lsn 0 0 LogType.check) t ts tail h.0 h.1)
