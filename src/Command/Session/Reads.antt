-- ===== src/Command/Session/Reads.antt =====
-- What `get` answers (`run_command`, src/kv_command.c).
use sample_kv.Prelude.{ℕ, ◌<◌, ◌≡◌, refl, true, Option, none, some, arith, length, ltb}
use sample_kv.Key.{Bytes, key_funcs}
use sample_kv.Command.Session.{Session, reply_value, replies, get_notfound}

-- The answer to `get`.
abbrev pub answer : Option Bytes → Bytes
answer none = get_notfound
answer (some v) = v

pub reply_value-fits :
    (o : Option Bytes) (s : Option Session)
    → ((v : Bytes) → o ≡ some v → length v < 64)
    → (self : ℕ) (stack : Bytes) (freed : Bytes → Bytes)
    → reply_value self stack freed o s ≡ replies self stack freed s (answer o)
reply_value-fits none s h self stack freed = refl
reply_value-fits (some v) s h self stack freed = rw (below (h v refl)) refl
  where
    below : length v < 64 → ltb (length v) 64 ≡ true
    below = ground arith
