-- ===== src/ClientHandler/Text.antt =====
-- The array of `kv_handle_client` (src/kv_client_handler.c) as text, and the replies of a run.
use sample_kv.Prelude.{
  ℕ, suc, ◌+◌, ◌-◌, ◌<◌, ◌≡◌, refl, ap, sym, Option, none, some, List, [], ◌∷◌, ◌++◌, append_assoc,
  arith, length, length-append, take, drop, take-append, replicate, Lacks, differ,
}
use sample_kv.Prelude.Cuts.{drop-replicate, drop-append_add}
use sample_kv.Key.{Bytes}
use sample_kv.Recovery.{c_str}
use sample_kv.Command.{find_end_loop}
use sample_kv.ClientHandler.{Client, Run, wrote, send, and_then, zero_fill}

pub c_str-zero_fill : (s : Bytes) (n : ℕ) → Lacks 0 s → c_str (s ++ replicate (suc n) 0) ≡ s
unfolding c_str
c_str-zero_fill [] n h = refl
c_str-zero_fill (c ∷ s) n h = rw (differ c 0 h.0) (ap (λ l. c ∷ l) (c_str-zero_fill s n h.1))

pub text-client_of : (s : Bytes) → Lacks 0 s → length s < 128 → c_str (zero_fill s) ≡ s
text-client_of s h lt =
    let e : 128 - length s ≡ suc (127 - length s) = omega arith in
    rw e (c_str-zero_fill s (127 - length s) h)

-- The array with a packet behind the text.
pub command-append :
    (s p : Bytes)
    → length s + length p < 128
    → take (length s) (zero_fill s) ++ (p ++ drop (length s + length p) (zero_fill s))
      ≡ zero_fill (s ++ p)
command-append s p lt =
    let left : 128 - length s - length p ≡ 128 - length (s ++ p) =
      omega (arith, length-append s p) in
    rw
      (
        take-append s (replicate (128 - length s) 0),
        drop-append_add s (replicate (128 - length s) 0) (length p),
        drop-replicate {A = ℕ} (length p) (128 - length s) 0,
        left,
        append_assoc,
      )
      refl

pub find_end_loop-append :
    (s t : Bytes) (i e : ℕ) → find_end_loop s i ≡ some e → find_end_loop (s ++ t) i ≡ some e
unfolding find_end_loop
find_end_loop-append [] t i e h = absurd (cc)
find_end_loop-append (c ∷ []) t i e h = absurd (cc)
find_end_loop-append (c ∷ d ∷ s) t i e h = ground (arith, find_end_loop-append (d ∷ s) t (i + 1) e)

pub wrote-wrote : (a b : List Bytes) (r : Run) → wrote a (wrote b r) ≡ wrote (a ++ b) r
wrote-wrote a b (Run.waits c rs) = rw append_assoc
wrote-wrote a b (Run.locked s rs) = rw append_assoc
wrote-wrote a b (Run.fault rs) = rw append_assoc
wrote-wrote a b Run.out_of_fuel = refl

pub and_then-wrote :
    (a : List Bytes) (r : Run) (k : Client → Run) → and_then (wrote a r) k ≡ wrote a (and_then r k)
and_then-wrote a (Run.waits c rs) k = sym (wrote-wrote a rs (k c))
and_then-wrote a (Run.locked s rs) k = refl
and_then-wrote a (Run.fault rs) k = refl
and_then-wrote a Run.out_of_fuel k = refl

pub and_then-send :
    (o : Option Bytes) (r : Run) (k : Client → Run) → and_then (send o r) k ≡ send o (and_then r k)
and_then-send none r k = refl
and_then-send (some out) r k = and_then-wrote (out ∷ []) r k
