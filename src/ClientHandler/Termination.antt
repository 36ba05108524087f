-- ===== src/ClientHandler/Termination.antt =====
-- The inner loop of `kv_handle_client` (src/kv_client_handler.c): every command makes the text shorter.
use sample_kv.Prelude.{
  ℕ, zero, suc, ◌+◌, ◌-◌, ◌≤◌, ◌<◌, ◌≡◌, ◌≢◌, refl, ap, Option, none, some, List, [], ◌∷◌, ◌++◌,
  arith, length, take, drop, replicate, ltb, Bool-cases, Option-cases, inl, inr,
}
use sample_kv.Prelude.Cuts.{length-drop}
use sample_kv.Key.{Bytes}
use sample_kv.Recovery.{c_str}
use sample_kv.Command.{find_end_loop, find_end_of_command}
use sample_kv.Command.Session.{Session, Outcome}
use sample_kv.Command.Session.Consume.{consume_command}
use sample_kv.ClientHandler.{
  Client, Run, reply, wrote, send, client_of, answer, and_then, drain, handle_packet, handle_client,
}

-- A line end lies in the text.
pub find_end_loop-le :
    (s : Bytes) (i e : ℕ) → find_end_loop s i ≡ some e → (i < e) × (e + 1 ≤ i + length s)
unfolding find_end_loop
find_end_loop-le [] i e h = absurd (cc)
find_end_loop-le (c ∷ []) i e h = absurd (cc)
find_end_loop-le (c ∷ d ∷ s) i e h = ground (arith, find_end_loop-le (d ∷ s) (i + 1) e)

c_str-zeros : (n : ℕ) → c_str (replicate n 0) ≡ []
unfolding c_str
c_str-zeros zero = refl
c_str-zeros (suc n) = refl

pub length-c_str : (s : Bytes) (n : ℕ) → length (c_str (s ++ replicate n 0)) ≤ length s
unfolding c_str
length-c_str [] n = omega (arith, ap length (c_str-zeros n))
length-c_str (c ∷ s) n = ground (arith, length-c_str s n)

wrote-total : (sent : List Bytes) (r : Run) → r ≢ Run.out_of_fuel → wrote sent r ≢ Run.out_of_fuel
wrote-total sent (Run.waits c rs) h = λ e. cc
wrote-total sent (Run.locked s rs) h = λ e. cc
wrote-total sent (Run.fault rs) h = λ e. cc
wrote-total sent Run.out_of_fuel h = λ e. h refl

send-total : (o : Option Bytes) (r : Run) → r ≢ Run.out_of_fuel → send o r ≢ Run.out_of_fuel
send-total none r h = λ e. cc
send-total (some out) r h = wrote-total (out ∷ []) r h

module _ (self : ℕ) (stack : Bytes) (freed : Bytes → Bytes) where
  pub consume_command-shorter :
      (text rest : Bytes) (s : Session) (o : Outcome)
      → consume_command self stack freed text s ≡ some (rest, o)
      → length rest < length text
  unfolding consume_command find_end_of_command
  consume_command-shorter text rest s o h = elim (Option-cases (find_end_loop text 0)) [
    | inl none_found ↦
        absurd (let bad = rw (consume_command, find_end_of_command, none_found) at h in cc)
    | inr (e, found) ↦
        let bounds = find_end_loop-le text 0 e found in
        let pair = rw (consume_command, find_end_of_command, found) at h in
        omega (
          arith,
          bounds,
          ap (λ (p : Option (Bytes × Outcome)). left_length p) pair,
          length-drop (e + 1) text,
        )
  ]
    where
      left_length : Option (Bytes × Outcome) → ℕ
      left_length none = 0
      left_length (some p) = length p.0

  answer-total :
      (o : Outcome) (next : Session → Run)
      → ((s : Session) → next s ≢ Run.out_of_fuel)
      → answer self stack freed o next ≢ Run.out_of_fuel
  answer-total (Outcome.done s result) next h = send-total (reply result) (next s) (h s)
  answer-total (Outcome.blocked s) next h = λ e. cc
  answer-total Outcome.fault next h = λ e. cc

  drain-total :
      (fuel : ℕ) (c : Client)
      → length (c_str c.command) < fuel
      → drain self stack freed fuel c ≢ Run.out_of_fuel
  unfolding drain
  drain-total zero c h = absurd (omega arith)
  drain-total (suc fuel) c h =
      go (drain-total fuel) (consume_command self stack freed (c_str c.command) c.session) refl
    where
      go :
          ((d : Client)
            → length (c_str d.command) < fuel
            → drain self stack freed fuel d ≢ Run.out_of_fuel)
          → (r : Option (Bytes × Outcome))
          → consume_command self stack freed (c_str c.command) c.session ≡ r
          → elim r as (λ _. Run) [
            | none ↦ Run.waits c []
            | some (rest, outcome) ↦
                answer self stack freed outcome
                  (λ s. drain self stack freed fuel (client_of rest s))
          ]
            ≢ Run.out_of_fuel
      go ih none e = λ q. cc
      go ih (some (rest, o)) e = answer-total o _ (λ s. ih (client_of rest s) (
          omega (
            arith,
            length-c_str rest (128 - length rest),
            consume_command-shorter (c_str c.command) rest c.session o e,
          )))

  handle_packet-total :
      (packet : Bytes) (c : Client) → handle_packet self stack freed packet c ≢ Run.out_of_fuel
  unfolding handle_packet
  handle_packet-total packet c =
      let cur : ℕ = c.command_cur + length packet in
      let command = take c.command_cur c.command ++ (packet ++ drop cur c.command) in
      elim (Bool-cases (ltb (c.command_cur + length packet) 128)) [
        | inl fits ↦
            rw (handle_packet, fits)
              (drain-total (suc (length (c_str command)))
                (record c { command = command; command_cur = cur }) (omega arith))
        | inr full ↦ rw (handle_packet, full) (λ e. cc)
      ]

  and_then-total :
      (r : Run) (k : Client → Run)
      → r ≢ Run.out_of_fuel
      → ((c : Client) → k c ≢ Run.out_of_fuel)
      → and_then r k ≢ Run.out_of_fuel
  and_then-total (Run.waits c rs) k h hk = wrote-total rs (k c) (hk c)
  and_then-total (Run.locked s rs) k h hk = λ e. cc
  and_then-total (Run.fault rs) k h hk = λ e. cc
  and_then-total Run.out_of_fuel k h hk = λ e. h refl

  -- `kv_handle_client` does not run on without end behind any packet: whatever the packets and the contents
  -- of the array are, the thread has come to wait for the next packet, waits for a lock, or has stopped by a
  -- fault.
  pub handle_client-terminates :
      (packets : List Bytes) (c : Client)
      → handle_client self stack freed packets c ≢ Run.out_of_fuel
  unfolding handle_client
  handle_client-terminates [] c = λ e. cc
  handle_client-terminates (packet ∷ packets) c =
      and_then-total (handle_packet self stack freed packet c)
        (handle_client self stack freed packets) (handle_packet-total packet c)
        (handle_client-terminates packets)
