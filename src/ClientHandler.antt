-- ===== src/ClientHandler.antt =====
-- `kv_handle_client` of src/kv_client_handler.c: the thread of one client, which puts packets together to
-- commands. What a `read` returns is a packet, below 128 bytes; each `write` is complete.
pub mod Termination
pub mod Text
pub mod Packets
use sample_kv.Prelude.{
  ℕ, zero, suc, ◌+◌, ◌-◌, Option, none, some, List, [], ◌∷◌, ◌++◌, length, take, drop, replicate,
  leb, ltb, ◌==◌, if◌then◌else◌,
}
use sample_kv.Key.{Bytes}
use sample_kv.Recovery.{newline, c_str}
use sample_kv.Command.{carriage_return}
use sample_kv.Command.Session.{Session, Outcome}
use sample_kv.Command.Session.Consume.{consume_command}

abbrev pub command_size : ℕ
command_size = 128

abbrev pub result_size : ℕ
result_size = 64

-- `command` is the array, with what stands behind the text in it.
pub record Client : Type 0 where
  pub session : Session
  pub command : Bytes
  pub command_cur : ℕ

-- Where the thread is, with what it has written before: it waits for a packet, or for a lock, or has
-- run over an array or ended the process.
pub data Run : Type 0 where
  waits : Client → List Bytes → Run
  locked : Session → List Bytes → Run
  fault : List Bytes → Run
  out_of_fuel : Run

abbrev pub wrote : List Bytes → Run → Run
wrote sent (waits c replies) = waits c (sent ++ replies)
wrote sent (locked s replies) = locked s (sent ++ replies)
wrote sent (fault replies) = fault (sent ++ replies)
wrote sent out_of_fuel = out_of_fuel

abbrev pub and_then : Run → (Client → Run) → Run
and_then (waits c replies) k = wrote replies (k c)
and_then (locked s replies) k = locked s replies
and_then (fault replies) k = fault replies
and_then out_of_fuel k = out_of_fuel

-- The bytes that are written for `result`: the string, a line end if it is not empty, and the NUL;
-- `none` where `strcpy` overruns `result`.
unfoldable pub reply : Bytes → Option Bytes
reply result =
    let text = c_str result in
    if length text == 0
    then some (0 ∷ [])
    else if leb (length text + 3) result_size
    then some (text ++ carriage_return ∷ newline ∷ 0 ∷ [])
    else none

-- `write`, and what follows.
abbrev pub send : Option Bytes → Run → Run
send none next = fault []
send (some out) next = wrote (out ∷ []) next

-- The array after `consume_command`: the rest, and zeros.
abbrev pub zero_fill : Bytes → Bytes
zero_fill text = text ++ replicate (command_size - length text) 0

abbrev pub client_of : Bytes → Session → Client
client_of text s = record { session = s; command = zero_fill text; command_cur = length text }

module _ (self : ℕ) (stack : Bytes) (freed : Bytes → Bytes) where
  -- What follows the outcome of a command, with `rest` in the array.
  abbrev pub answer : Outcome → (Session → Run) → Run
  answer (Outcome.done s result) next = send (reply result) (next s)
  answer (Outcome.blocked s) next = locked s []
  answer Outcome.fault next = fault []

  -- The inner loop: the commands that are complete.
  unfoldable pub drain : ℕ → Client → Run
  drain zero c = out_of_fuel
  drain (suc fuel) c = elim (consume_command self stack freed (c_str c.command) c.session) [
    | none ↦ waits c []
    | some (rest, outcome) ↦ answer outcome (λ s. drain fuel (client_of rest s))
  ]

  -- A packet behind what the array holds. The array must keep a NUL, or `strlen` runs over its end.
  unfoldable pub handle_packet : Bytes → Client → Run
  unfolding drain
  handle_packet packet c =
      let cur : ℕ = c.command_cur + length packet in
      let command = take c.command_cur c.command ++ (packet ++ drop cur c.command) in
      if ltb cur command_size
      then drain (suc (length (c_str command))) (record c { command = command; command_cur = cur })
      else fault []

  -- The outer loop, over the packets; at their end the client is gone, and its transaction stays.
  unfoldable pub handle_client : List Bytes → Client → Run
  handle_client [] c = waits c []
  handle_client (packet ∷ packets) c = and_then (handle_packet packet c) (handle_client packets)
