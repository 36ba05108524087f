-- ===== src/Transaction/Touched.antt =====
-- The keys that a transaction wrote (src/transaction.c), and their values before it.
use sample_kv.Prelude.{
  ◌≡◌, refl, ◌∙◌, Bool, true, false, ◌||◌, Option, none, List, [], ◌∷◌, if◌then◌else◌,
}
use sample_kv.Key.{Bytes, key_funcs}
use sample_kv.Hash.{same}
use sample_kv.Recovery.Redo.Replay.{Map, put, written}
use sample_kv.Transaction.Chain.{Change, undo}

unfoldable pub touches : Bytes → List Change → Bool
touches q [] = false
touches q (c ∷ cs) = same c.key q || touches q cs

-- The value before the first of the changes of a key; the latest change stands first.
unfoldable pub oldest : Bytes → List Change → Option Bytes
oldest q [] = none
oldest q (c ∷ cs) = if touches q cs then oldest q cs else written c.old_val

-- What undoing gives: for a key that was written its oldest value, whatever the map is.
pub undo-at :
    (cs : List Change) (m : Map) (q : Bytes)
    → undo cs m q ≡ (if touches q cs then oldest q cs else m q)
unfolding undo touches oldest
undo-at [] m q = refl
undo-at (c ∷ cs) m q =
    undo-at cs (put m c.key (written c.old_val)) q
    ∙ cases (same c.key q) (touches q cs) (oldest q cs) (written c.old_val) (m q)
  where
    cases :
        (s t : Bool) (x y z : Option Bytes)
        → (if t then x else (if s then y else z)) ≡ (if s || t then (if t then x else y) else z)
    cases true true x y z = refl
    cases true false x y z = refl
    cases false true x y z = refl
    cases false false x y z = refl
