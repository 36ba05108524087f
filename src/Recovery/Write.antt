-- ===== src/Recovery/Write.antt =====
-- The writers of src/kv_recovery.c against the entries that the log holds.
use sample_kv.Prelude.{
  ℕ, suc, ◌+◌, ◌%◌, ◌^◌, ◌≤◌, ◌<◌, ◌≡◌, ap, sym, ◌∙◌, true, Option, some, List, [], ◌∷◌, ◌++◌,
  append-nil, append_assoc, arith, length, length-append, leb,
}
use sample_kv.Key.{Bytes}
use sample_kv.Recovery.{
  LogType, Log, OngoingTx, fputs, plain_log, data_change_log, check_log, update_log, clr_log,
}
use sample_kv.Recovery.Entries.{
  Entry, started, committed, aborted, ended, updated, compensated, checked, line_of, IsData, IsWord,
  IsEntry, AllEntries, render,
}
use sample_kv.Recovery.Format.{c_str-IsRow, line_of-IsRow, length-line_of}

-- The file holds the lines of `es`, and the next LSN is the one behind them.
pub record Holds (log : Log) (es : List Entry) : Type 0 where
  pub counted : log.lsn ≡ length es
  pub file : log.recovery_file ≡ render 0 es
  pub entries : AllEntries es
  pub room : length es < 2 ^ 32

render-append :
    (n : ℕ) (es : List Entry) (e : Entry)
    → render n (es ++ e ∷ []) ≡ render n es ++ line_of (suc (n + length es)) e
unfolding render
render-append n [] e =
    rw append-nil (let z : n ≡ n + 0 = omega arith in ap (λ x. line_of (suc x) e) z)
render-append n (e' ∷ es) e =
    rw (render-append (suc n) es e, append_assoc)
      (let z : suc n + length es ≡ n + suc (length es) = omega arith in
        ap (λ x. line_of (suc n) e' ++ (render (suc n) es ++ line_of (suc x) e)) z)

pub render-append_first :
    (es : List Entry) (e : Entry)
    → render 0 (es ++ e ∷ []) ≡ render 0 es ++ line_of (suc (length es)) e
render-append_first es e =
    let z : 0 + length es ≡ length es = omega arith in
    render-append 0 es e ∙ ap (λ x. render 0 es ++ line_of (suc x) e) z

leb_128 : (n : ℕ) → n ≤ 127 → leb (n + 1) 128 ≡ true
leb_128 n h = ground arith

AllEntries-append :
    (es : List Entry) (e : Entry) → AllEntries es → IsEntry e → AllEntries (es ++ e ∷ [])
AllEntries-append [] e h he = (he, tt)
AllEntries-append (e' ∷ es) e h he = (h.0, AllEntries-append es e h.1 he)

-- The log after the line of `e`.
abbrev pub with_line : Log → Entry → Log
with_line log e = record {
  lsn = (log.lsn + 1) % 2 ^ 32;
  recovery_file = fputs (line_of ((log.lsn + 1) % 2 ^ 32) e) log.recovery_file;
}

module _ {log : Log} {es : List Entry} (h : Holds log es) (room : suc (length es) < 2 ^ 32) where
  pub next_lsn : (log.lsn + 1) % 2 ^ 32 ≡ suc (length es)
  next_lsn = omega (arith, h.counted)

  pub append-Holds : (e : Entry) → IsEntry e → Holds (with_line log e) (es ++ e ∷ [])
  unfolding fputs
  append-Holds e he = record {
    counted = next_lsn ∙ sym (length-append es (e ∷ []) ∙ plus_one);
    file =
        rw (next_lsn, c_str-IsRow (line_of-IsRow (suc (length es)) e he), h.file)
          (sym (render-append_first es e));
    entries = AllEntries-append es e h.entries he;
    room = rw length-append (omega arith);
  }
    where
      plus_one : length es + 1 ≡ suc (length es)
      plus_one = omega arith

  pub plain_log-started :
      (prev tx : ℕ)
      → IsWord prev
      → IsWord tx
      → ((plain_log LogType.begin log prev tx).0 ≡ suc (length es))
        × Holds (plain_log LogType.begin log prev tx).1 (es ++ started prev tx ∷ [])
  unfolding plain_log
  plain_log-started prev tx hp ht =
      (next_lsn, unfold line_of in append-Holds (started prev tx) (hp, ht))

  pub plain_log-committed :
      (prev tx : ℕ)
      → IsWord prev
      → IsWord tx
      → ((plain_log LogType.commit log prev tx).0 ≡ suc (length es))
        × Holds (plain_log LogType.commit log prev tx).1 (es ++ committed prev tx ∷ [])
  unfolding plain_log
  plain_log-committed prev tx hp ht =
      (next_lsn, unfold line_of in append-Holds (committed prev tx) (hp, ht))

  pub plain_log-aborted :
      (prev tx : ℕ)
      → IsWord prev
      → IsWord tx
      → ((plain_log LogType.abort log prev tx).0 ≡ suc (length es))
        × Holds (plain_log LogType.abort log prev tx).1 (es ++ aborted prev tx ∷ [])
  unfolding plain_log
  plain_log-aborted prev tx hp ht =
      (next_lsn, unfold line_of in append-Holds (aborted prev tx) (hp, ht))

  pub plain_log-ended :
      (prev tx : ℕ)
      → IsWord prev
      → IsWord tx
      → ((plain_log LogType.end log prev tx).0 ≡ suc (length es))
        × Holds (plain_log LogType.end log prev tx).1 (es ++ ended prev tx ∷ [])
  unfolding plain_log
  plain_log-ended prev tx hp ht =
      (next_lsn, unfold line_of in append-Holds (ended prev tx) (hp, ht))

  -- A write that succeeded under the next LSN and left the line of `e`.
  pub record Wrote (e : Entry) (r : Option (ℕ × Log)) : Type 0 where
    pub log_after : Log
    pub runs : r ≡ some (suc (length es), log_after)
    pub holds : Holds log_after (es ++ e ∷ [])

  -- `kv_recovery_update_log`, on a log of written lines with room for one more, does not overrun its
  -- array: it appends the line of the UPDATE entry and returns the next LSN, for short text.
  pub update_log-Wrote :
      (prev tx : ℕ) (k old_val new_val : Bytes)
      → IsWord prev
      → IsWord tx
      → IsData k old_val new_val
      → Wrote (updated prev tx k old_val new_val) (update_log log prev tx k old_val new_val)
  unfolding data_change_log line_of
  update_log-Wrote prev tx k o n hp ht hd =
      let e = updated prev tx k o n in
      let fits = length-line_of ((log.lsn + 1) % 2 ^ 32) e (hp, ht, hd) in
      record {
        log_after = with_line log e;
        runs = rw (leb_128 _ fits) (ap (λ x. some (x, with_line log e)) next_lsn);
        holds = append-Holds e (hp, ht, hd);
      }

  -- `kv_recovery_clr_log`, on a log of written lines with room for one more, does not overrun its
  -- array: it appends the line of the CLR entry and returns the next LSN, for short text.
  pub clr_log-Wrote :
      (prev tx undo : ℕ) (k cur_val prev_val : Bytes)
      → IsWord prev
      → IsWord tx
      → IsWord undo
      → IsData k cur_val prev_val
      → Wrote
          (compensated prev tx undo k cur_val prev_val)
          (clr_log log prev tx undo k cur_val prev_val)
  unfolding data_change_log line_of
  clr_log-Wrote prev tx undo k c p hp ht hu hd =
      let e = compensated prev tx undo k c p in
      let fits = length-line_of ((log.lsn + 1) % 2 ^ 32) e (hp, ht, hu, hd) in
      record {
        log_after = with_line log e;
        runs = rw (leb_128 _ fits) (ap (λ x. some (x, with_line log e)) next_lsn);
        holds = append-Holds e (hp, ht, hu, hd);
      }

  -- `kv_recovery_check_log`, on a log of written lines with room for one more and with at most four
  -- ongoing transactions, does not overrun its array: it appends the line of the CHECK entry and returns
  -- the next LSN.
  pub check_log-Wrote :
      (txs : List OngoingTx) → IsEntry (checked txs) → Wrote (checked txs) (check_log log txs)
  unfolding check_log line_of
  check_log-Wrote txs he =
      let fits = length-line_of ((log.lsn + 1) % 2 ^ 32) (checked txs) he in
      record {
        log_after = with_line log (checked txs);
        runs = rw (leb_128 _ fits) (ap (λ x. some (x, with_line log (checked txs))) next_lsn);
        holds = append-Holds (checked txs) he;
      }
