-- ===== src/Recovery/Entries.antt =====
-- What recovery.kvdb says, independently of its format: a list of entries, the entry at position i
-- (from 0) standing in the line with LSN i + 1.
use sample_kv.Prelude.{
  ℕ, suc, ◌^◌, ◌≤◌, ◌<◌, ◌≢◌, true, false, none, some, List, [], ◌∷◌, ◌++◌, length,
}
use sample_kv.Key.{Bytes}
use sample_kv.Recovery.{LogType, LogLine, OngoingTx, newline, line_head, data_line, check_line}

pub data Entry : Type 0 where
  started committed aborted ended : ℕ → ℕ → Entry
  updated : ℕ → ℕ → Bytes → Bytes → Bytes → Entry
  compensated : ℕ → ℕ → ℕ → Bytes → Bytes → Bytes → Entry
  checked : List OngoingTx → Entry

-- The line that stands for an entry.
unfoldable pub line_of : ℕ → Entry → Bytes
line_of lsn (started prev tx) = line_head lsn prev tx LogType.begin ++ newline ∷ []
line_of lsn (committed prev tx) = line_head lsn prev tx LogType.commit ++ newline ∷ []
line_of lsn (aborted prev tx) = line_head lsn prev tx LogType.abort ++ newline ∷ []
line_of lsn (ended prev tx) = line_head lsn prev tx LogType.end ++ newline ∷ []
line_of lsn (updated prev tx key old_val new_val) =
    data_line lsn prev tx key old_val new_val false 0
line_of lsn (compensated prev tx undo key old_val new_val) =
    data_line lsn prev tx key old_val new_val true undo
line_of lsn (checked txs) = check_line lsn txs

abbrev pub plain : ℕ → ℕ → ℕ → LogType → LogLine
plain lsn prev tx log_type = record {
  lsn = lsn;
  prev_lsn = prev;
  tx_id = tx;
  log_type = log_type;
  undo_next_lsn = 0;
  key = [];
  old_val = [];
  new_val = [];
  tx_list = none;
}

-- The struct that stands for an entry.
abbrev pub struct_of : ℕ → Entry → LogLine
struct_of lsn (started prev tx) = plain lsn prev tx LogType.begin
struct_of lsn (committed prev tx) = plain lsn prev tx LogType.commit
struct_of lsn (aborted prev tx) = plain lsn prev tx LogType.abort
struct_of lsn (ended prev tx) = plain lsn prev tx LogType.end
struct_of lsn (updated prev tx k old_val new_val) =
    let l = plain lsn prev tx LogType.update in
    record l { key = k; old_val = old_val; new_val = new_val }
struct_of lsn (compensated prev tx undo k old_val new_val) =
    let l = plain lsn prev tx LogType.clr in
    record l { undo_next_lsn = undo; key = k; old_val = old_val; new_val = new_val }
struct_of lsn (checked txs) = let l = plain lsn 0 0 LogType.check in record l { tx_list = some txs }

-- No newline and no NUL.
pub data IsText : Bytes → Type 0 where
  nil : IsText []
  char : {c : ℕ} {cs : Bytes} → c ≢ newline → c ≢ 0 → IsText cs → IsText (c ∷ cs)

-- Text whose length the two hexadecimal digits hold as the reader takes them.
pub record IsShort (s : Bytes) : Type 0 where
  pub text : IsText s
  pub short : length s < 16

pub record IsData (k old_val new_val : Bytes) : Type 0 where
  pub key : IsShort k
  pub old : IsShort old_val
  pub new : IsShort new_val

abbrev pub IsWord : ℕ → Type 0
IsWord n = n < 2 ^ 32

abbrev pub AllTxs : List OngoingTx → Type 0
AllTxs [] = Unit
AllTxs (t ∷ ts) = IsWord t.tx_id × IsWord t.last_lsn × AllTxs ts

-- Entries that come back from their lines.
abbrev pub IsEntry : Entry → Type 0
IsEntry (started prev tx) = IsWord prev × IsWord tx
IsEntry (committed prev tx) = IsWord prev × IsWord tx
IsEntry (aborted prev tx) = IsWord prev × IsWord tx
IsEntry (ended prev tx) = IsWord prev × IsWord tx
IsEntry (updated prev tx k old_val new_val) = IsWord prev × IsWord tx × IsData k old_val new_val
IsEntry (compensated prev tx undo k old_val new_val) =
    IsWord prev × IsWord tx × IsWord undo × IsData k old_val new_val
IsEntry (checked txs) = (length txs ≤ 4) × AllTxs txs

abbrev pub AllEntries : List Entry → Type 0
AllEntries [] = Unit
AllEntries (e ∷ es) = IsEntry e × AllEntries es

-- The file with the lines of `es`, of which the first has LSN `suc n`.
unfoldable pub render : ℕ → List Entry → Bytes
render n [] = []
render n (e ∷ es) = line_of (suc n) e ++ render (suc n) es
