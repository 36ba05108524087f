-- ===== src/Tests/Clients.antt =====
-- The theorems on `kv_handle_client`, at concrete inputs: a set command in two packets.
use sample_kv.Prelude.{◌≡◌, ◌≢◌, [], ◌∷◌, ◌++◌, arith}
use sample_kv.Key.{Bytes}
use sample_kv.Recovery.{newline}
use sample_kv.Command.{carriage_return}
use sample_kv.ClientHandler.{Run, client_of, handle_client}
use sample_kv.ClientHandler.Termination.{handle_client-terminates}
use sample_kv.ClientHandler.Packets.{handle_client-packets}
use sample_kv.Tests.Sessions.{opened, other_key}

-- "s", "et a x" and a line end, and "get a" and a line end.
abbrev first_packet : Bytes
first_packet = b'e' ∷ b't' ∷ b' ' ∷ []

abbrev second_packet : Bytes
second_packet = b'a' ∷ b' ' ∷ b'x' ∷ carriage_return ∷ newline ∷ []

abbrev third_packet : Bytes
third_packet = b'g' ∷ b'e' ∷ b't' ∷ b' ' ∷ b'a' ∷ carriage_return ∷ newline ∷ []

handle_client-terminates_example :
    handle_client 1 [] other_key
      (first_packet ∷ second_packet ∷ third_packet ∷ [])
      (client_of (b's' ∷ []) opened)
    ≢ Run.out_of_fuel
handle_client-terminates_example =
    handle_client-terminates 1 [] other_key (first_packet ∷ second_packet ∷ third_packet ∷ [])
      (client_of (b's' ∷ []) opened)

handle_client-packets_example :
    handle_client 1 [] other_key
      (first_packet ∷ second_packet ∷ third_packet ∷ [])
      (client_of (b's' ∷ []) opened)
    ≡ handle_client 1 [] other_key
        ((first_packet ++ second_packet) ∷ third_packet ∷ [])
        (client_of (b's' ∷ []) opened)
handle_client-packets_example =
    handle_client-packets 1 [] other_key (b's' ∷ []) first_packet second_packet (third_packet ∷ [])
      opened (λ e. ground arith, tt)
      (λ e. ground arith, (λ e. ground arith, (λ e. ground arith, tt)))
      (
        λ e. ground arith,
        (λ e. ground arith, (λ e. ground arith, (λ e. ground arith, (λ e. ground arith, tt)))),
      )
      (omega arith)
