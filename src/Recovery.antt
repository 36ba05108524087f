-- ===== src/Recovery.antt =====
-- The log of src/kv_recovery.c: the lines that it writes to recovery.kvdb, and how it reads them.
-- A file is its bytes; stdio and the mutex `lsn_lock` around each write are one step.
pub mod Format
pub mod Parse
pub mod Entries
pub mod Search
pub mod Write
pub mod Redo
pub mod Recover
use sample_kv.Prelude.{
  ℕ, zero, suc, ◌+◌, ◌*◌, ◌%◌, ◌^◌, Bool, true, false, Option, none, some, List, [], ◌∷◌, ◌++◌,
  length, take, drop, get_or, leb, ◌==◌, if◌then◌else◌,
}
use sample_kv.Key.{Bytes}
use sample_kv.Utils.{uint32_to_hex, hex_to_uint32, size_t_to_2_digit_hex, from_2_digit_hex}

pub data LogType : Type 0 where
  begin commit update abort clr check end : LogType

-- `struct kv_ongoing_tx`, `struct kv_recovery_tx`
pub record OngoingTx : Type 0 where
  pub tx_id : ℕ
  pub last_lsn : ℕ

-- `struct kv_recovery_log_line`. A pointer with its length is one list, empty for NULL and 0; the
-- count of `tx_list` is its length.
pub record LogLine : Type 0 where
  pub lsn : ℕ
  pub prev_lsn : ℕ
  pub tx_id : ℕ
  pub log_type : LogType
  pub undo_next_lsn : ℕ
  pub key : Bytes
  pub old_val : Bytes
  pub new_val : Bytes
  pub tx_list : Option (List OngoingTx)

-- The static variables of kv_recovery.c.
pub record Log : Type 0 where
  pub lsn : ℕ
  pub recovery_file : Bytes

-- KV_RECOVERY_MAX_LINE_LEN
abbrev pub max_line_len : ℕ
max_line_len = 128

abbrev pub type_name : LogType → Bytes
type_name begin = b'B' ∷ b'E' ∷ b'G' ∷ b'I' ∷ b'N' ∷ b'_' ∷ b'_' ∷ []
type_name commit = b'C' ∷ b'O' ∷ b'M' ∷ b'M' ∷ b'I' ∷ b'T' ∷ b'_' ∷ []
type_name update = b'U' ∷ b'P' ∷ b'D' ∷ b'A' ∷ b'T' ∷ b'E' ∷ b'_' ∷ []
type_name abort = b'A' ∷ b'B' ∷ b'O' ∷ b'R' ∷ b'T' ∷ b'_' ∷ b'_' ∷ []
type_name clr = b'C' ∷ b'L' ∷ b'R' ∷ b'_' ∷ b'_' ∷ b'_' ∷ b'_' ∷ []
type_name check = b'C' ∷ b'H' ∷ b'E' ∷ b'C' ∷ b'K' ∷ b'_' ∷ b'_' ∷ []
type_name end = b'E' ∷ b'N' ∷ b'D' ∷ b'_' ∷ b'_' ∷ b'_' ∷ b'_' ∷ []

abbrev pub newline : ℕ
newline = 10

-- A C string ends at its first NUL.
unfoldable pub c_str : Bytes → Bytes
c_str [] = []
c_str (c ∷ cs) = let rest = c_str cs in if c == 0 then [] else c ∷ rest

unfoldable pub fputs : Bytes → Bytes → Bytes
fputs line file = file ++ c_str line

-- "%08X %08X T%08X TYPE"
unfoldable pub line_head : ℕ → ℕ → ℕ → LogType → Bytes
line_head lsn prev_id tx_id log_type =
    uint32_to_hex lsn
    ++ b' '
      ∷ (uint32_to_hex prev_id ++ b' ' ∷ b'T' ∷ (uint32_to_hex tx_id ++ b' ' ∷ type_name log_type))

-- The body that `kv_recovery_begin_log`, `kv_recovery_commit_log`, `kv_recovery_abort_log` and
-- `kv_recovery_end_log` share: the new LSN, and the line written.
unfoldable pub plain_log : LogType → Log → ℕ → ℕ → ℕ × Log
plain_log log_type log prev_id tx_id =
    let new_lsn : ℕ = (log.lsn + 1) % 2 ^ 32 in
    (
      new_lsn,
      record {
        lsn = new_lsn;
        recovery_file =
            fputs (line_head new_lsn prev_id tx_id log_type ++ newline ∷ []) log.recovery_file;
      },
    )

abbrev pub begin_log : Log → ℕ → ℕ → ℕ × Log
begin_log = plain_log begin

abbrev pub commit_log : Log → ℕ → ℕ → ℕ × Log
commit_log = plain_log commit

abbrev pub abort_log : Log → ℕ → ℕ → ℕ × Log
abort_log = plain_log abort

abbrev pub end_log : Log → ℕ → ℕ → ℕ × Log
end_log = plain_log end

-- The three lengths, the key and the two values of a data line, up to the newline.
unfoldable pub data_part : Bytes → Bytes → Bytes → Bytes
data_part key old_val new_val =
    size_t_to_2_digit_hex (length key)
    ++ b' '
      ∷ (size_t_to_2_digit_hex (length old_val)
          ++ b' '
            ∷ (size_t_to_2_digit_hex (length new_val)
                ++ b' ' ∷ (key ++ b' ' ∷ (old_val ++ b' ' ∷ (new_val ++ newline ∷ [])))))

unfoldable pub data_line : ℕ → ℕ → ℕ → Bytes → Bytes → Bytes → Bool → ℕ → Bytes
unfolding line_head data_part
data_line lsn prev_id tx_id key old_val new_val is_clr undo_next_lsn =
    if is_clr
    then line_head lsn prev_id tx_id clr
      ++ b' ' ∷ (uint32_to_hex undo_next_lsn ++ b' ' ∷ data_part key old_val new_val)
    else line_head lsn prev_id tx_id update ++ b' ' ∷ data_part key old_val new_val

-- `data_change_log`. `none` where the line and its NUL do not fit in `line`: the C code then writes
-- beyond the array.
unfoldable pub data_change_log : Log → ℕ → ℕ → Bytes → Bytes → Bytes → Bool → ℕ → Option (ℕ × Log)
data_change_log log prev_id tx_id key old_val new_val is_clr undo_next_lsn =
    let new_lsn : ℕ = (log.lsn + 1) % 2 ^ 32 in
    let line = data_line new_lsn prev_id tx_id key old_val new_val is_clr undo_next_lsn in
    if leb (length line + 1) max_line_len
    then some (new_lsn, record { lsn = new_lsn; recovery_file = fputs line log.recovery_file })
    else none

abbrev pub update_log : Log → ℕ → ℕ → Bytes → Bytes → Bytes → Option (ℕ × Log)
update_log log prev_id tx_id key old_val new_val =
    data_change_log log prev_id tx_id key old_val new_val false 0

abbrev pub clr_log : Log → ℕ → ℕ → ℕ → Bytes → Bytes → Bytes → Option (ℕ × Log)
clr_log log prev_id tx_id undo_next_lsn key cur_val prev_val =
    data_change_log log prev_id tx_id key cur_val prev_val true undo_next_lsn

-- The loop that fills `tx_id_line` behind the count: the entries, with a space between two.
tx_entries : List OngoingTx → Bytes
tx_entries [] = []
tx_entries (t ∷ []) = b'T' ∷ (uint32_to_hex t.tx_id ++ b' ' ∷ uint32_to_hex t.last_lsn)
tx_entries (t ∷ u ∷ ts) =
    b'T'
    ∷ (uint32_to_hex t.tx_id ++ b' ' ∷ (uint32_to_hex t.last_lsn ++ b' ' ∷ tx_entries (u ∷ ts)))

unfoldable pub check_line : ℕ → List OngoingTx → Bytes
unfolding line_head tx_entries
check_line lsn [] = line_head lsn 0 0 check ++ b' ' ∷ b'0' ∷ b'0' ∷ newline ∷ []
check_line lsn (t ∷ ts) =
    line_head lsn 0 0 check
    ++ b' '
      ∷ (size_t_to_2_digit_hex (length (t ∷ ts)) ++ b' ' ∷ (tx_entries (t ∷ ts) ++ newline ∷ []))

-- `kv_recovery_check_log`, which the caller runs under the lock.
unfoldable pub check_log : Log → List OngoingTx → Option (ℕ × Log)
check_log log tx_list =
    let new_lsn : ℕ = (log.lsn + 1) % 2 ^ 32 in
    let line = check_line new_lsn tx_list in
    if leb (length line + 1) max_line_len
    then some (new_lsn, record { lsn = new_lsn; recovery_file = fputs line log.recovery_file })
    else none

-- `fgets` into `line`: at most `n` bytes, up to and with a newline, and what is left of the file.
unfoldable pub fgets : ℕ → Bytes → Bytes × Bytes
fgets zero file = ([], file)
fgets (suc n) [] = ([], [])
fgets (suc n) (c ∷ file) =
    let rest = fgets n file in if c == newline then (c ∷ [], file) else (c ∷ rest.0, rest.1)

-- The array after `fgets`: what was read, a NUL, and what stood there before.
unfoldable pub overlay : Bytes → Bytes → Bytes
overlay text line = text ++ 0 ∷ drop (length text + 1) line

-- The loop of `kv_recovery_get_log`, with the array and `line_lsn`; each round reads a byte at least,
-- so the length of the file is enough fuel.
unfoldable pub search_line : ℕ → Bytes → Bytes → ℕ → ℕ → Bytes × ℕ
search_line zero file line line_lsn lsn = (line, line_lsn)
search_line (suc fuel) [] line line_lsn lsn = (line, line_lsn)
search_line (suc fuel) (c ∷ file) line line_lsn lsn =
    let read = fgets 127 (c ∷ file) in
    let line' = overlay read.0 line in
    let found = hex_to_uint32 (take 8 line') in
    let rest = search_line fuel read.1 line' found lsn in
    if found == lsn then (line', found) else rest

-- The tests on `log_type_char`.
unfoldable pub log_type_of : ℕ → ℕ → LogType
log_type_of c d =
    if c == b'B'
    then begin
    else if c == b'C'
    then (if d == b'O' then commit else if d == b'L' then clr else check)
    else if c == b'U'
    then update
    else if c == b'A'
    then abort
    else end

-- The loop over `tx_list`, from `line + pos` on.
parse_txs : ℕ → Bytes → List OngoingTx
parse_txs zero cur = []
parse_txs (suc n) cur =
    record {
      tx_id = hex_to_uint32 (take 8 (drop 1 cur));
      last_lsn = hex_to_uint32 (take 8 (drop 10 cur));
    }
    ∷ parse_txs n (drop 19 cur)

-- What is read behind the type, at `cur = line + pos`. The key and the values are `length`ed by what
-- `from_2_digit_hex` reads.
parse_data : LogLine → Bytes → LogLine
parse_data l cur =
    let key_len = from_2_digit_hex (take 2 cur) in
    let old_len = from_2_digit_hex (take 2 (drop 3 cur)) in
    let new_len = from_2_digit_hex (take 2 (drop 6 cur)) in
    let at_key = drop 9 cur in
    let at_old = drop (suc key_len) at_key in
    let at_new = drop (suc old_len) at_old in
    record l {
      key = take key_len at_key;
      old_val = take old_len at_old;
      new_val = take new_len at_new;
    }

parse_payload : LogType → LogLine → Bytes → LogLine
unfolding parse_data parse_txs
parse_payload update l cur = parse_data l cur
parse_payload clr l cur =
    parse_data (record l { undo_next_lsn = hex_to_uint32 (take 8 cur) }) (drop 9 cur)
parse_payload check l cur = record l {
  tx_list = some (parse_txs (from_2_digit_hex (take 2 cur)) (drop 3 cur));
}
parse_payload begin l cur = l
parse_payload commit l cur = l
parse_payload abort l cur = l
parse_payload end l cur = l

-- The part of `kv_recovery_get_log` behind the search.
unfoldable pub parse_line : ℕ → Bytes → LogLine
unfolding log_type_of parse_payload
parse_line lsn line =
    let type_char = drop 28 line in
    let log_type = log_type_of (get_or type_char 0 0) (get_or type_char 1 0) in
    parse_payload log_type
      (record {
        lsn = lsn;
        prev_lsn = hex_to_uint32 (take 8 (drop 9 line));
        tx_id = hex_to_uint32 (take 8 (drop 19 line));
        log_type = log_type;
        undo_next_lsn = 0;
        key = [];
        old_val = [];
        new_val = [];
        tx_list = none;
      })
      (drop 36 line)

-- `kv_recovery_get_log`; `stack` is what the array `line` holds before the first `fgets`.
unfoldable pub get_log : Bytes → Bytes → ℕ → Option LogLine
get_log stack file lsn =
    let (line, line_lsn) = search_line (length file) file stack 0 lsn in
    if line_lsn == lsn then some (parse_line lsn line) else none
