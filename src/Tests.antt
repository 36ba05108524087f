-- ===== src/Tests.antt =====
-- The theorems on src/kv_hash.c, src/utils.c, src/kv_command.c and the log, at concrete inputs.
pub mod Sessions
pub mod Commands
pub mod Clients
pub mod Restarts
pub mod Boots
pub mod Pointers
pub mod Worlds
pub mod Deadlocks
use sample_kv.Prelude.{
  ℕ, zero, suc, ◌+◌, ◌*◌, ◌/◌, ◌%◌, ◌^◌, ◌≤◌, ◌<◌, ◌≡◌, ◌↔◌, refl, ap, true, Option, none, some,
  List, [], ◌∷◌, ◌++◌, arith, length, if◌then◌else◌,
}
use mathlib.Core.Option
use sample_kv.Prelude.Int.{is_zero}
use sample_kv.Key.{Bytes, key_funcs, str_cmp_func, str_cmp_func-zero}
use sample_kv.Utils.{
  uint32_to_hex, hex_to_uint32, size_t_to_2_digit_hex, from_2_digit_hex, digit_to_int, int_to_digit,
}
use sample_kv.Utils.Hex.{hex_to_uint32-uint32_to_hex, two_digit_exact}
use sample_kv.Utils.Digits.{digit_to_int-int_to_digit}
use sample_kv.Hash
use sample_kv.Hash.{Table, same, get, set_kv, del, resize, foreach}
use sample_kv.Hash.Chain.{Distinct}
use sample_kv.Hash.Placed.{IsPlaced, lookup, total}
use sample_kv.Hash.Resize.{resize-Moves}
use sample_kv.Hash.Methods.{IsValid, Writes, create-IsValid, set_kv-Writes, del-Writes}
use sample_kv.Hash.View.{visit, foreach-visit}
use sample_kv.Recovery.{
  Log, OngoingTx, get_log, parse_line, update_log, clr_log, check_log, newline,
}
use sample_kv.Recovery.Entries.{
  Entry, started, updated, checked, compensated, line_of, struct_of, AllEntries, IsEntry, IsData,
  IsShort, render,
}
use sample_kv.Recovery.Format.{text_test, IsText-of_test}
use sample_kv.Recovery.Parse.{parse_line-line_of}
use sample_kv.Recovery.Search.{entry_at, get_log-render}
use sample_kv.Recovery.Write.{Holds, Wrote, update_log-Wrote, clr_log-Wrote, check_log-Wrote}
use sample_kv.Recovery.Redo.{Store, redo}
use sample_kv.Recovery.Redo.Replay.{replay, redo-replay}

abbrev pub key_a : Bytes
key_a = b'a' ∷ []

abbrev pub key_b : Bytes
key_b = b'b' ∷ []

abbrev pub val_x : Bytes
val_x = b'x' ∷ []

abbrev pub val_yz : Bytes
val_yz = b'y' ∷ b'z' ∷ []

-- A table with the pair (a, x).
abbrev pub one_pair : Store
one_pair = (set_kv (Hash.create 2) key_a val_x).1

pub one_pair-Writes :
    Writes (Hash.create 2) key_a (some val_x) (set_kv (Hash.create 2) key_a val_x).0 one_pair
unfolding Hash.create
one_pair-Writes =
    set_kv-Writes (Hash.create 2) (create-IsValid 2 (omega arith)) (omega arith) key_a val_x

one_pair-size : one_pair.size < 2 ^ 62
unfolding Hash.create
one_pair-size = omega (arith, one_pair-Writes.size)

set_kv-Writes_example :
    Writes one_pair key_a
      (some val_yz)
      (set_kv one_pair key_a val_yz).0
      (set_kv one_pair key_a val_yz).1
set_kv-Writes_example = set_kv-Writes one_pair one_pair-Writes.valid one_pair-size key_a val_yz

del-Writes_example :
    ((del one_pair key_a).0 ≡ Option.map (λ v. (key_a, v)) (get one_pair key_a))
    × Writes one_pair key_a none (get one_pair key_a) (del one_pair key_a).1
del-Writes_example = del-Writes one_pair one_pair-Writes.valid one_pair-size key_a

resize-Moves_example :
    IsPlaced 4 (resize one_pair 4).table
    × ((q : Bytes) → lookup 4 (resize one_pair 4).table q ≡ lookup one_pair.size one_pair.table q)
    × (total (resize one_pair 4).table ≡ total one_pair.table)
resize-Moves_example = resize-Moves one_pair 4 one_pair-Writes.valid.placed (omega arith)

abbrev count_pair : Bytes → Bytes → ℕ → ℕ
count_pair k v n = n + 1

foreach-visit_example :
    (es : List (Bytes × Bytes)) × (foreach one_pair count_pair 0 ≡ visit count_pair es 0)
    × Distinct es
    × ((q : Bytes) → Hash.find q es ≡ get one_pair q)
    × (length es ≡ one_pair.count)
foreach-visit_example = foreach-visit one_pair count_pair 0 one_pair-Writes.valid

two_digit_exact_example : (from_2_digit_hex (size_t_to_2_digit_hex 20) ≡ 20) ↔ (20 < 16)
two_digit_exact_example = two_digit_exact 20 (omega arith)

pub IsShort-a : IsShort key_a
unfolding text_test
IsShort-a = record { text = IsText-of_test key_a refl; short = omega arith }

pub IsShort-b : IsShort key_b
unfolding text_test
IsShort-b = record { text = IsText-of_test key_b refl; short = omega arith }

pub IsShort-x : IsShort val_x
unfolding text_test
IsShort-x = record { text = IsText-of_test val_x refl; short = omega arith }

pub IsShort-none : IsShort []
unfolding text_test
IsShort-none = record { text = IsText-of_test [] refl; short = omega arith }

abbrev pub two_lines : List Entry
two_lines = started 0 7 ∷ updated 1 7 key_a [] val_x ∷ []

pub two_lines-AllEntries : AllEntries two_lines
two_lines-AllEntries = (
  (omega arith, omega arith),
  ((omega arith, omega arith, record { key = IsShort-a; old = IsShort-none; new = IsShort-x }), tt),
)

get_log-render_example :
    get_log key_b (render 0 two_lines) 2 ≡ Option.map (struct_of 2) (entry_at two_lines 1)
get_log-render_example = get_log-render key_b two_lines 1 two_lines-AllEntries (omega arith)

redo-replay_example :
    (r : Store) × (redo key_b
        (record { last_checked_lsn = none; recovery = render 0 two_lines; snapshot = λ _. none })
        (Hash.create 2)
      ≡ some r)
    × IsValid r
    × ((q : Bytes) → get r q ≡ replay two_lines (λ _. none) q)
redo-replay_example = redo-replay key_b (λ _. none) two_lines two_lines-AllEntries (omega arith)

abbrev pub two_log : Log
two_log = record { lsn = 2; recovery_file = render 0 two_lines }

pub two_log-Holds : Holds two_log two_lines
two_log-Holds = record {
  counted = refl;
  file = refl;
  entries = two_lines-AllEntries;
  room = omega arith;
}

abbrev ongoing : List OngoingTx
ongoing = record { tx_id = 7; last_lsn = 2 } ∷ []

check_log-Wrote_example :
    Wrote two_log-Holds (omega arith) (checked ongoing) (check_log two_log ongoing)
check_log-Wrote_example =
    check_log-Wrote two_log-Holds (omega arith) ongoing
      (omega arith, (omega arith, omega arith, tt))
