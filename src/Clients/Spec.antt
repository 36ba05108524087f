-- ===== src/Clients/Spec.antt =====
-- What the commands of src/kv_command.c do to the committed map and to the writes of the thread that sends
-- them.
use sample_kv.Prelude.{Bool, true, false, Option, none, some, [], if◌then◌else◌}
use sample_kv.Key.{Bytes, key_funcs}
use sample_kv.Hash.{same}
use sample_kv.Recovery.Redo.Replay.{Map}
use sample_kv.Command.{Request}
use sample_kv.Command.Session.{
  set_success, del_success, del_not_found, transaction_started, transaction_already_started,
  transaction_not_started, transaction_committed, transaction_aborted, invalid_command,
}
use sample_kv.Command.Session.Reads.{answer}

-- For each key that an open transaction wrote, what it left there: a value, or none.
abbrev pub Overlay : Type 0
Overlay = Bytes → Option (Option Bytes)

-- A map under the writes of a transaction.
abbrev pub over : Option (Option Bytes) → Option Bytes → Option Bytes
over none v = v
over (some w) v = w

abbrev pub write_key : Bytes → Option Bytes → Overlay → Overlay
write_key k v o q = if same k q then some v else o q

-- The committed map, the writes of the thread, whether it has no transaction, and the reply.
pub record After : Type 0 where
  pub map : Map
  pub overlay : Overlay
  pub is_single : Bool
  pub reply : Bytes

abbrev pub deletes : Bytes → Overlay → Option Bytes → Overlay × Bytes
deletes k o none = (o, del_not_found)
deletes k o (some v) = (write_key k none o, del_success)

-- In a transaction.
abbrev pub in_tx : Request → Map → Overlay → Overlay × Bytes
in_tx (Request.get k) m o = (o, answer (over (o k) (m k)))
in_tx (Request.set k v) m o = (write_key k (some v) o, set_success)
in_tx (Request.del k) m o = deletes k o (over (o k) (m k))
in_tx _ m o = (o, [])

-- A command of its own is committed at once.
abbrev pub ending : Bool → Map → Overlay × Bytes → After
ending false m (o, r) = record { map = m; overlay = o; is_single = false; reply = r }
ending true m (o, r) = record {
  map = λ q. over (o q) (m q);
  overlay = λ q. none;
  is_single = true;
  reply = r;
}

-- What a request does, where `is_single` says that the thread has no transaction.
abbrev pub spec : Request → Bool → Map → Overlay → After
spec (Request.get k) is_single m o = ending is_single m (in_tx (Request.get k) m o)
spec (Request.set k v) is_single m o = ending is_single m (in_tx (Request.set k v) m o)
spec (Request.del k) is_single m o = ending is_single m (in_tx (Request.del k) m o)
spec Request.begin is_single m o = record {
  map = m;
  overlay = o;
  is_single = false;
  reply = if is_single then transaction_started else transaction_already_started;
}
spec Request.commit is_single m o =
    if is_single
    then record { map = m; overlay = o; is_single = true; reply = transaction_not_started }
    else ending true m (o, transaction_committed)
spec Request.abort is_single m o =
    if is_single
    then record { map = m; overlay = o; is_single = true; reply = transaction_not_started }
    else record { map = m; overlay = λ q. none; is_single = true; reply = transaction_aborted }
spec Request.invalid is_single m o = record {
  map = m;
  overlay = o;
  is_single = is_single;
  reply = invalid_command;
}
spec _ is_single m o = record { map = m; overlay = o; is_single = is_single; reply = [] }
