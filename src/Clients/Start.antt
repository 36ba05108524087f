-- ===== src/Clients/Start.antt =====
-- The clients of a server that has started (`kv_run_server`, src/kv_server.c).
use sample_kv.Prelude.{
  ℕ, ◌<◌, ◌≡◌, ◌≢◌, refl, ap, sym, ◌∙◌, Option, none, some, List, [], arith, get_or-replicate,
  length-replicate,
}
use mathlib.Core.Path.{subst}
use sample_kv.Key.{Bytes, key_funcs}
use sample_kv.Hash.{get}
use sample_kv.Lock
use sample_kv.Lock.{free_rwl}
use sample_kv.Lock.Exclusion.{IsValid, free}
use sample_kv.Lock.Counts.{Ready, held_count, lock_at, in_bucket}
use sample_kv.Recovery.Entries.{Entry}
use sample_kv.Recovery.Redo.Replay.{Map}
use sample_kv.Transaction.Crash.{files_of}
use sample_kv.Transaction.Durable.{Durable}
use sample_kv.Transaction.Touched.{touches}
use sample_kv.TxManager.{init}
use sample_kv.Command.Session.Access.{AllStored}
use sample_kv.Server.{Server, run_server}
use sample_kv.Server.Boot.{run_server-first}
use sample_kv.Clients.{World, HasRoom}
use sample_kv.Clients.Replies.{Serves}

-- `kv_lm_create`, and clients that have not begun a transaction.
abbrev pub world_of : Server → Bytes → World
world_of s tx_id_file = record {
  shared = record {
    ht = s.ht;
    log = s.log;
    lm = Lock.create;
    transaction_id = s.transaction_id;
    tx_id_file = tx_id_file;
    tx_list = [];
    tx = none;
  };
  txs = λ i. none;
  waiting = λ i. none;
}

all_free : (b : ℕ) → lock_at Lock.create b ≡ free_rwl
unfolding Lock.create
all_free b = get_or-replicate 64 b free_rwl

pub create-Ready : Ready Lock.create
unfolding Lock.create
create-Ready = record {
  valid = record {
    each = λ b. subst IsValid (sym (all_free b)) free;
    some_buckets = omega (arith, length-replicate 64 free_rwl);
    word = omega (arith, length-replicate 64 free_rwl);
  };
  buckets = length-replicate 64 free_rwl;
}

-- A server whose log agrees with a table of stored values serves, and that table is the committed map.
pub start-Serves :
    (s : Server) (tx_id_file : Bytes) (es : List Entry)
    → Durable s.ht s.log es
    → AllStored s.ht
    → Serves (world_of s tx_id_file) (λ q. get s.ht q)
unfolding touches in_bucket
start-Serves s tx_id_file es d stored = record {
  entries = es;
  changes = λ i. [];
  consistent = record {
    durable = d;
    stored = stored;
    ready = create-Ready;
    client = λ i pos. record {
      held = λ b. ap (held_count i) (all_free b) ∙ none_held i;
      closed = λ e. refl;
      opened = λ tx e. absurd cc;
      locked = λ q e. absurd cc;
      own = λ q e. absurd cc;
    };
    rest = λ q h. refl;
    db_stored = stored;
  };
  pending_waits = λ i p e. absurd cc;
}
  where
    none_held : (i : ℕ) → held_count i free_rwl ≡ 0
    none_held i = ground arith

-- A server that has served any clients, and stops where no thread has a transaction, starts again from
-- its files, without a snapshot: the clients find the committed map, and the
-- id of the id file. The log has room and not just one line, and the id file can be read.
pub restart-Serves :
    {w : World} {db : Map} (h : Serves w db) (stack redo_stack id_stack : Bytes) (id : ℕ)
    (snapshot : Bytes → Option Bytes)
    → HasRoom w
    → ((i : ℕ) → 0 < i → w.txs i ≡ none)
    → w.shared.log.lsn ≢ 1
    → init id_stack w.shared.tx_id_file ≡ some id
    → (s : Server) × (run_server stack redo_stack id_stack
          (files_of w.shared.log snapshot)
          w.shared.tx_id_file
        ≡ some s)
      × (s.transaction_id ≡ id)
      × ((q : Bytes) → get s.ht q ≡ db q)
      × Serves (world_of s w.shared.tx_id_file) (λ q. get s.ht q)
unfolding touches
restart-Serves {w} {db} h stack redo_stack id_stack id snapshot room ended lines counter =
    let c = h.consistent in
    let count = c.durable.logged.counted in
    let (s, runs, durable, same_id, reads) =
      run_server-first stack redo_stack id_stack w.shared.tx_id_file id counter snapshot w.shared.ht
        w.shared.log h.entries c.durable (λ one. lines (omega (arith, one, count)))
        (omega (arith, count)) in
    let read : (q : Bytes) → get s.ht q ≡ db q =
      λ q. reads q ∙ c.rest q (λ i pos. ap (touches q) ((c.client i pos).closed (ended i pos))) in
    (
      s,
      runs,
      same_id,
      read,
      start-Serves s w.shared.tx_id_file h.entries durable
          (λ q v e. c.stored q v (sym (reads q) ∙ e)),
    )
