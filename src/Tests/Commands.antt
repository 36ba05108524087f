-- ===== src/Tests/Commands.antt =====
-- The theorems on `consume_command`, at concrete inputs: "set a x" and the start of another command.
use sample_kv.Prelude.{◌≡◌, some, [], ◌∷◌, ◌++◌, length, arith}
use sample_kv.Key.{Bytes}
use sample_kv.Recovery.{newline}
use sample_kv.Command.{carriage_return}
use sample_kv.Command.Session.{run_command, run_set}
use sample_kv.Command.Session.Consume.{
  consume_command, consume_command-line, consume_command-set, IsToken, line_end, set_line,
}
use sample_kv.Tests.{key_a, val_x}
use sample_kv.Tests.Sessions.{opened, other_key}

abbrev next_packet : Bytes
next_packet = b'g' ∷ b'e' ∷ []

a-IsToken : IsToken key_a
a-IsToken = record { no_space = (λ e. ground arith, tt); no_return = (λ e. ground arith, tt) }

x-IsToken : IsToken val_x
x-IsToken = record { no_space = (λ e. ground arith, tt); no_return = (λ e. ground arith, tt) }

consume_command-line_example :
    consume_command 1 [] other_key (key_a ++ carriage_return ∷ newline ∷ next_packet) opened
    ≡ some (next_packet, run_command 1 [] other_key (key_a ++ line_end) (length key_a) opened)
consume_command-line_example =
    consume_command-line 1 [] other_key key_a next_packet opened a-IsToken.no_return

consume_command-set_example :
    consume_command 1 [] other_key
      (set_line key_a val_x ++ carriage_return ∷ newline ∷ next_packet)
      opened
    ≡ some (next_packet, run_set 1 [] other_key key_a val_x opened)
consume_command-set_example =
    consume_command-set 1 [] other_key b'a' [] val_x next_packet opened a-IsToken x-IsToken
