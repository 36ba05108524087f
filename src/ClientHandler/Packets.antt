-- ===== src/ClientHandler/Packets.antt =====
-- `kv_handle_client` of src/kv_client_handler.c: a command may come in pieces.
use sample_kv.ClientHandler.Text.{
  text-client_of, command-append, find_end_loop-append, and_then-wrote, and_then-send,
}
use sample_kv.Prelude.{
  ℕ, zero, suc, ◌+◌, ◌<◌, ◌≡◌, refl, ap, sym, ◌∙◌, Option, none, some, List, [], ◌∷◌, ◌++◌,
  append_assoc, arith, length, length-append, lt→ltb, Lacks, Option-cases, inl, inr,
}
use mathlib.Core.Option
use mathlib.Core.Path.{fun_ext, subst}
use sample_kv.Prelude.Cuts.{take-append_le, drop-append_le, Lacks-append, Lacks-drop}
use sample_kv.Key.{Bytes}
use sample_kv.Command.{find_end_loop, find_end_of_command}
use sample_kv.Command.Session.{Session, Outcome}
use sample_kv.Command.Session.Consume.{consume_command}
use sample_kv.ClientHandler.{
  Client, Run, reply, wrote, and_then, client_of, answer, drain, handle_packet, handle_client,
}
use sample_kv.ClientHandler.Termination.{find_end_loop-le, consume_command-shorter}

module _ (self : ℕ) (stack : Bytes) (freed : Bytes → Bytes) where
  -- What comes later does not change the first command.
  consume_command-append :
      (text more rest : Bytes) (s : Session) (o : Outcome)
      → consume_command self stack freed text s ≡ some (rest, o)
      → consume_command self stack freed (text ++ more) s ≡ some (rest ++ more, o)
  unfolding consume_command find_end_of_command
  consume_command-append text more rest s o h = elim (Option-cases (find_end_loop text 0)) [
    | inl none_found ↦
        absurd (let bad = rw (consume_command, find_end_of_command, none_found) at h in cc)
    | inr (e, found) ↦
        let bounds = find_end_loop-le text 0 e found in
        let pair = rw (consume_command, find_end_of_command, found) at h in
        rw
          (
            consume_command,
            find_end_of_command,
            find_end_loop-append text more 0 e found,
            take-append_le (e + 1) text more (omega (arith, bounds)),
            drop-append_le (e + 1) text more (omega (arith, bounds)),
          )
          (ap (Option.map (λ (p : Bytes × Outcome). (p.0 ++ more, p.1))) pair)
  ]

  consume_command-Lacks :
      (text rest : Bytes) (s : Session) (o : Outcome)
      → Lacks 0 text
      → consume_command self stack freed text s ≡ some (rest, o)
      → Lacks 0 rest
  unfolding consume_command find_end_of_command
  consume_command-Lacks text rest s o h run = elim (Option-cases (find_end_loop text 0)) [
    | inl none_found ↦
        absurd (let bad = rw (consume_command, find_end_of_command, none_found) at run in cc)
    | inr (e, found) ↦
        let pair = rw (consume_command, find_end_of_command, found) at run in
        subst (λ (x : Bytes). Lacks 0 x) (ap (λ (p : Option (Bytes × Outcome)). left p) pair)
          (Lacks-drop 0 (e + 1) text h)
  ]
    where
      left : Option (Bytes × Outcome) → Bytes
      left none = []
      left (some p) = p.0

  module _ (fuel : ℕ) (text : Bytes) (s : Session) (h : Lacks 0 text) (lt : length text < 128) where
    drain-none :
        consume_command self stack freed text s ≡ none
        → drain self stack freed (suc fuel) (client_of text s) ≡ Run.waits (client_of text s) []
    unfolding drain
    drain-none e = rw (drain, text-client_of text h lt, e) refl

    drain-some :
        (rest : Bytes) (o : Outcome)
        → consume_command self stack freed text s ≡ some (rest, o)
        → drain self stack freed (suc fuel) (client_of text s)
          ≡ answer self stack freed o (λ s'. drain self stack freed fuel (client_of rest s'))
    unfolding drain
    drain-some rest o e = rw (drain, text-client_of text h lt, e) refl

  drain-fuel :
      (f g : ℕ) (text : Bytes) (s : Session)
      → Lacks 0 text
      → length text < 128
      → length text < f
      → length text < g
      → drain self stack freed f (client_of text s) ≡ drain self stack freed g (client_of text s)
  drain-fuel zero g text s h lt hf hg = absurd (omega arith)
  drain-fuel (suc f) zero text s h lt hf hg = absurd (omega arith)
  drain-fuel (suc f) (suc g) text s h lt hf hg =
      elim (Option-cases (consume_command self stack freed text s)) [
        | inl e ↦ drain-none f text s h lt e ∙ sym (drain-none g text s h lt e)
        | inr ((rest, o), e) ↦
            let le = consume_command-shorter self stack freed text rest s o e in
            let lacks = consume_command-Lacks text rest s o h e in
            drain-some f text s h lt rest o e
            ∙ ap (answer self stack freed o) (
                fun_ext (λ s'.
                  drain-fuel f g rest s' lacks (omega (arith, le)) (omega (arith, le))
                    (omega (arith, le))))
            ∙ sym (drain-some g text s h lt rest o e)
      ]

  and_then-answer :
      (o : Outcome) (next : Session → Run) (k : Client → Run)
      → and_then (answer self stack freed o next) k
        ≡ answer self stack freed o (λ s. and_then (next s) k)
  and_then-answer (Outcome.done s result) next k = and_then-send (reply result) (next s) k
  and_then-answer (Outcome.blocked s) next k = refl
  and_then-answer Outcome.fault next k = refl

  wrote-nil : (r : Run) → wrote [] r ≡ r
  wrote-nil (Run.waits c rs) = refl
  wrote-nil (Run.locked s rs) = refl
  wrote-nil (Run.fault rs) = refl
  wrote-nil Run.out_of_fuel = refl

  packet-drain :
      (f : ℕ) (text p : Bytes) (s : Session)
      → Lacks 0 text
      → Lacks 0 p
      → length text + length p < 128
      → length (text ++ p) < f
      → handle_packet self stack freed p (client_of text s)
        ≡ drain self stack freed f (client_of (text ++ p) s)
  unfolding handle_packet
  packet-drain f text p s h hp lt hf =
      let all = length-append text p in
      let fits = lt→ltb (length text + length p) 128 lt in
      let lacks = Lacks-append 0 text p h hp in
      let str = text-client_of (text ++ p) lacks (omega (arith, all)) in
      rw (handle_packet, fits, command-append text p lt, str, sym all)
        (drain-fuel (suc (length (text ++ p))) f (text ++ p) s lacks (omega (arith, all))
          (omega arith) hf)

  drain-append :
      (f g : ℕ) (text p : Bytes) (s : Session)
      → Lacks 0 text
      → Lacks 0 p
      → length text + length p < 128
      → length text < f
      → length (text ++ p) < g
      → and_then (drain self stack freed f (client_of text s)) (handle_packet self stack freed p)
        ≡ drain self stack freed g (client_of (text ++ p) s)
  drain-append zero g text p s h hp lt hf hg = absurd (omega arith)
  drain-append (suc f) zero text p s h hp lt hf hg = absurd (omega arith)
  drain-append (suc f) (suc g) text p s h hp lt hf hg =
      elim (Option-cases (consume_command self stack freed text s)) [
        | inl e ↦
            rw (drain-none f text s h (omega arith) e)
              (wrote-nil _ ∙ packet-drain (suc g) text p s h hp lt hg)
        | inr ((rest, o), e) ↦
            let le = consume_command-shorter self stack freed text rest s o e in
            let lacks = consume_command-Lacks text rest s o h e in
            rw (drain-some f text s h (omega arith) rest o e) (
              and_then-answer o _ (handle_packet self stack freed p)
              ∙ ap (answer self stack freed o) (
                  fun_ext (λ s'.
                    drain-append f g rest p s' lacks hp (omega (arith, le)) (omega (arith, le))
                      (omega (arith, le, length-append text p, length-append rest p))))
              ∙ sym (
                  drain-some g (text ++ p) s (Lacks-append 0 text p h hp)
                    (omega (arith, length-append text p)) (rest ++ p) o
                    (consume_command-append text p rest s o e)))
      ]

  and_then_assoc :
      (r : Run) (k l : Client → Run)
      → and_then (and_then r k) l ≡ and_then r (λ c. and_then (k c) l)
  and_then_assoc (Run.waits c rs) k l = and_then-wrote rs (k c) l
  and_then_assoc (Run.locked s rs) k l = refl
  and_then_assoc (Run.fault rs) k l = refl
  and_then_assoc Run.out_of_fuel k l = refl

  -- Two packets, and the same bytes in one packet, have the same effect: the same replies in the same
  -- order, and the same state of the server and of the client, also where a command waits for a lock or
  -- faults. The array holds the text `text` and zeros, no packet has a NUL, and all of it fits.
  pub handle_client-packets :
      (text p q : Bytes) (packets : List Bytes) (s : Session)
      → Lacks 0 text
      → Lacks 0 p
      → Lacks 0 q
      → length text + length p + length q < 128
      → handle_client self stack freed (p ∷ q ∷ packets) (client_of text s)
        ≡ handle_client self stack freed ((p ++ q) ∷ packets) (client_of text s)
  unfolding handle_client
  handle_client-packets text p q packets s h hp hq lt =
      let f : ℕ = suc (length (text ++ p)) in
      let g : ℕ = suc (length ((text ++ p) ++ q)) in
      let first = length-append text p in
      let both = length-append p q in
      let all = length-append (text ++ p) q in
      let step = packet-drain f text p s h hp (omega arith) (omega arith) in
      let joined =
        drain-append f g (text ++ p) q s (Lacks-append 0 text p h hp) hq (omega (arith, first))
          (omega arith) (omega arith) in
      let whole =
        packet-drain g text (p ++ q) s h (Lacks-append 0 p q hp hq) (omega (arith, both))
          (omega (arith, both, first, all, length-append text (p ++ q))) in
      sym (
        and_then_assoc (handle_packet self stack freed p (client_of text s))
          (handle_packet self stack freed q) (handle_client self stack freed packets))
      ∙ ap (λ r. and_then r (handle_client self stack freed packets))
          (ap (λ r. and_then r (handle_packet self stack freed q)) step
            ∙ joined
            ∙ ap (λ t. drain self stack freed g (client_of t s)) (append_assoc text p q)
            ∙ sym whole)
