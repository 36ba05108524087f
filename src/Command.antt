-- ===== src/Command.antt =====
-- src/kv_command.c: how a command is recognised and run for one client, with the transaction manager
-- of src/tx_manager.c. A command is a C string, its characters before the NUL.
pub mod Session
use sample_kv.Prelude.{
  ℕ, zero, suc, ◌+◌, ◌-◌, Bool, true, false, ◌&&◌, Option, none, some, List, [], ◌∷◌, ◌++◌, get_or,
  take, drop, length, ltb, ◌==◌, if◌then◌else◌,
}
use sample_kv.Key.{Bytes}
use sample_kv.Recovery.{newline}

abbrev pub carriage_return : ℕ
carriage_return = 13

-- `command[i]`; every use is guarded by a test on `strlen`.
abbrev pub at : Bytes → ℕ → ℕ
at command i = get_or command i 0

unfoldable pub is_command_empty : Bytes → Bool
is_command_empty command =
    (length command == 2) && (at command 0 == carriage_return) && (at command 1 == newline)

unfoldable pub is_command_get : Bytes → Bool
is_command_get command =
    ltb 4 (length command)
    && (at command 0 == b'g')
    && (at command 1 == b'e')
    && (at command 2 == b't')
    && (at command 3 == b' ')

unfoldable pub space_count : Bytes → ℕ
space_count [] = 0
space_count (c ∷ command) = let rest = space_count command in if c == b' ' then rest + 1 else rest

unfoldable pub is_command_set : Bytes → Bool
unfolding space_count
is_command_set command =
    ltb 4 (length command)
    && (at command 0 == b's')
    && (at command 1 == b'e')
    && (at command 2 == b't')
    && (at command 3 == b' ')
    && (space_count command == 2)

unfoldable pub is_command_del : Bytes → Bool
is_command_del command =
    ltb 4 (length command)
    && (at command 0 == b'd')
    && (at command 1 == b'e')
    && (at command 2 == b'l')
    && (at command 3 == b' ')

unfoldable pub is_transaction_started : Bytes → Bool
is_transaction_started command =
    (length command == 7)
    && (at command 0 == b'b')
    && (at command 1 == b'e')
    && (at command 2 == b'g')
    && (at command 3 == b'i')
    && (at command 4 == b'n')

unfoldable pub is_transaction_commited : Bytes → Bool
is_transaction_commited command =
    (length command == 8)
    && (at command 0 == b'c')
    && (at command 1 == b'o')
    && (at command 2 == b'm')
    && (at command 3 == b'm')
    && (at command 4 == b'i')
    && (at command 5 == b't')

unfoldable pub is_transaction_aborted : Bytes → Bool
is_transaction_aborted command =
    (length command == 7)
    && (at command 0 == b'a')
    && (at command 1 == b'b')
    && (at command 2 == b'o')
    && (at command 3 == b'r')
    && (at command 4 == b't')

-- The loop of `get_key_len_of_set`, from `command + 5` on with the length so far; `none` where it runs
-- past the end of the string.
unfoldable pub key_len_loop : Bytes → ℕ → Option ℕ
key_len_loop [] len = none
key_len_loop (c ∷ command) len =
    let rest = key_len_loop command (len + 1) in if c == b' ' then some len else rest

unfoldable pub get_key_len_of_set : Bytes → Option ℕ
unfolding key_len_loop
get_key_len_of_set command = key_len_loop (drop 5 command) 1

-- `find_end_of_command`: the index of the first "\r\n" plus 1; `none` for -1. `i` is the index of the
-- first character.
unfoldable pub find_end_loop : Bytes → ℕ → Option ℕ
find_end_loop [] i = none
find_end_loop (c ∷ []) i = none
find_end_loop (c ∷ d ∷ buffer) i =
    let rest = find_end_loop (d ∷ buffer) (i + 1) in
    if (c == carriage_return) && (d == newline) then some (i + 1) else rest

unfoldable pub find_end_of_command : Bytes → Option ℕ
unfolding find_end_loop
find_end_of_command buffer = find_end_loop buffer 0

-- What a command asks for, by the tests of `run_command` in their order.
pub data Request : Type 0 where
  nothing begin commit abort invalid : Request
  get del : Bytes → Request
  set : Bytes → Bytes → Request
  overrun : Request

-- The key and the value that `run_command` cuts out; `command_len` leaves out the "\r\n".
set_request : Bytes → ℕ → Request
set_request command command_len = elim (get_key_len_of_set command) [
  | none ↦ overrun
  | some key_len ↦
      set (take key_len (drop 4 command))
        (take (command_len - key_len - 5) (drop (key_len + 5) command))
]

unfoldable pub request : Bytes → ℕ → Request
unfolding is_command_empty is_transaction_started is_command_get is_command_set is_command_del
    is_transaction_commited is_transaction_aborted get_key_len_of_set set_request
request command command_len =
    if is_command_empty command
    then nothing
    else if is_transaction_started command
    then begin
    else if is_command_get command
    then get (take (command_len - 4) (drop 4 command))
    else if is_command_set command
    then set_request command command_len
    else if is_command_del command
    then del (take (command_len - 4) (drop 4 command))
    else if is_transaction_commited command
    then commit
    else if is_transaction_aborted command
    then abort
    else invalid
