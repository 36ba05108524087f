-- ===== src/Transaction/Durable.antt =====
-- The table and the log agree: what the log replays to is what the table reads as.
use sample_kv.Prelude.{ℕ, suc, ◌≡◌, refl, sym, List, [], ◌∷◌, ◌++◌, arith, length, length-append}
use mathlib.Core.Path.{subst}
use sample_kv.Key.{key_funcs}
use sample_kv.Recovery.{Log}
use sample_kv.Recovery.Entries.{Entry}
use sample_kv.Recovery.Write.{Holds}
use sample_kv.Recovery.Redo.{Store}
use sample_kv.Recovery.Redo.Replay.{Map, Reads, replay, effect, empty_map}

-- `es` are the entries of the log, and the table reads as their replay.
pub record Durable (ht : Store) (log : Log) (es : List Entry) : Type 0 where
  pub logged : Holds log es
  pub reads : Reads (length es) ht (replay es empty_map)

pub replay-append :
    (es : List Entry) (e : Entry) (m : Map) → replay (es ++ e ∷ []) m ≡ effect e (replay es m)
unfolding replay
replay-append [] e m = refl
replay-append (x ∷ es) e m = replay-append es e (effect x m)

length-snoc : (es : List Entry) (e : Entry) → length (es ++ e ∷ []) ≡ suc (length es)
length-snoc es e = omega (arith, length-append es (e ∷ []))

-- A step of the table that does what the new entry says.
pub step-Durable :
    {ht' : Store} {log' : Log} (es : List Entry) (e : Entry)
    → Holds log' (es ++ e ∷ [])
    → Reads (suc (length es)) ht' (effect e (replay es empty_map))
    → Durable ht' log' (es ++ e ∷ [])
step-Durable {ht' = ht'} es e h r = record {
  logged = h;
  reads =
      subst (λ (n : ℕ). Reads n ht' (replay (es ++ e ∷ []) empty_map)) (sym (length-snoc es e))
        (subst (λ (m : Map). Reads (suc (length es)) ht' m) (sym (replay-append es e empty_map)) r);
}
