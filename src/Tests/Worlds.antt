-- ===== src/Tests/Worlds.antt =====
-- The theorems on several clients, on the loop that takes them, and on the arguments, at concrete inputs.
use sample_kv.Prelude.{
  ℕ, ◌%◌, ◌<◌, ◌≡◌, ◌≢◌, refl, ap, sym, true, false, Bool-cases, inl, inr, none, some, [], ◌∷◌,
  arith, differ, ◌==◌,
}
use sample_kv.Key.{Bytes, key_funcs, str_hash_func}
use sample_kv.Utils.{djb2}
use sample_kv.Hash
use sample_kv.Hash.{get}
use sample_kv.Tests.{key_a, key_b, IsShort-a}
use sample_kv.Tests.Sessions.{opened, opened-Idle}
use sample_kv.Tests.Boots.{id_file, id_found}
use sample_kv.Lock.{lm_wlock, wlock}
use sample_kv.Lock
use sample_kv.Lock.Counts.{in_bucket}
use sample_kv.Recovery.Redo.Replay.{Map}
use sample_kv.Transaction.Crash.{files_of}
use sample_kv.Recovery.{plain_log}
use sample_kv.Transaction.Touched.{touches}
use sample_kv.Utils.{int_to_digit}
use sample_kv.Command.{Request}
use sample_kv.Command.Session.{
  Session, Outcome, done, run_request, run_begin, run_get, get_with, begin_transaction,
  transaction_started, get_notfound, transaction_committed, run_commit, start_new_transaction,
  close_single, commit_transaction, end_transaction, delete_id,
}
use sample_kv.Command.Session.Reads.{answer}
use sample_kv.Server.{Server, run_server}
use sample_kv.Server.Accepts.{take_clients, take_clients-kept}
use sample_kv.Clients.{World, Pending, update, session_of, act, Step, answers, Reach, here, later}
use sample_kv.Clients.Consistent.{locks_of}
use sample_kv.Clients.Runs.{Moves, Step-Serves, Reach-SpecRun}
use sample_kv.Clients.Replies.{Serves, SpecRun, abs_of, update-Waits, same-Waits}
use sample_kv.Clients.Isolation.{get-committed}
use sample_kv.Clients.Progress.{waiting_goes_on}
use sample_kv.Clients.Start.{world_of, start-Serves, restart-Serves}
use sample_kv.Main.{server_port, port_option}
use sample_kv.Main.Port.{server_port-written}

-- A server that found no files.
abbrev first_server : Server
first_server = record {
  ht = Hash.create 2;
  log = record { lsn = 0; recovery_file = [] };
  transaction_id = 0;
}

abbrev pub first_world : World
first_world = world_of first_server id_file

abbrev first_map : Map
first_map q = get (Hash.create 2) q

pub first_world-Serves : Serves first_world first_map
first_world-Serves = start-Serves first_server id_file [] opened-Idle.durable opened-Idle.stored

abbrev begun_session : Session
begun_session =
    let (s, tx) = begin_transaction (session_of 1 first_world) in record s { tx = some tx }

runs_begin :
    run_request 1 key_a (λ k. key_b) Request.begin (session_of 1 first_world)
    ≡ done begun_session transaction_started
unfolding run_request run_begin
runs_begin = refl

-- Client 1 begins a transaction.
begins_one : Step first_world (act 1 begun_session none first_world)
begins_one =
    answers 1 key_a (λ k. key_b) Request.begin (omega arith) refl tt (omega arith) runs_begin

Step-Serves_example : Moves first_world-Serves begins_one
Step-Serves_example = Step-Serves begins_one first_world-Serves

abbrev get_outcome : Outcome
unfolding run_request
get_outcome = run_request 2 key_a (λ k. key_b) (Request.get key_a) (session_of 2 first_world)

abbrev pub session_after : Outcome → Session
session_after (Outcome.done s reply) = s
session_after (Outcome.blocked s) = s
session_after Outcome.fault = opened

runs_get :
    run_request 2 key_a (λ k. key_b) (Request.get key_a) (session_of 2 first_world)
    ≡ done (session_after get_outcome) get_notfound
unfolding run_request get_outcome run_get get_with lm_wlock wlock Hash.get Hash.create Lock.create
    djb2 str_hash_func begin_transaction start_new_transaction close_single commit_transaction
    end_transaction delete_id
runs_get = refl

abbrev begun_world : World
begun_world = act 1 begun_session none first_world

abbrev second_outcome : Outcome
unfolding run_request
second_outcome = run_request 2 key_a (λ k. key_b) Request.begin (session_of 2 begun_world)

runs_second :
    run_request 2 key_a (λ k. key_b) Request.begin (session_of 2 begun_world)
    ≡ done (session_after second_outcome) transaction_started
unfolding run_request run_begin second_outcome begin_transaction
runs_second = refl

abbrev both_world : World
both_world = act 2 (session_after second_outcome) none begun_world

abbrev last_outcome : Outcome
unfolding run_request
last_outcome = run_request 1 key_a (λ k. key_b) Request.commit (session_of 1 both_world)

runs_last :
    run_request 1 key_a (λ k. key_b) Request.commit (session_of 1 both_world)
    ≡ done (session_after last_outcome) transaction_committed
unfolding run_request run_begin second_outcome last_outcome begin_transaction run_commit
    commit_transaction end_transaction delete_id start_new_transaction
runs_last = refl

-- Client 1 begins, client 2 begins, and client 1 commits.
abbrev last_world : World
last_world = act 1 (session_after last_outcome) none both_world

last_run : Reach first_world last_world
unfolding run_request run_begin begin_transaction plain_log
last_run =
    later
      (later (later here begins_one) (
        answers 2 key_a (λ k. key_b) Request.begin (omega arith) refl tt (omega arith) runs_second))
      (answers 1 key_a (λ k. key_b) Request.commit (omega arith) refl tt (omega arith) runs_last)

Reach-SpecRun_example :
    (db' : Map) × (h : Serves last_world db') × SpecRun (abs_of first_world-Serves) (abs_of h) (
      record { who = 1; request = Request.begin; reply = transaction_started }
      ∷ record { who = 2; request = Request.begin; reply = transaction_started }
      ∷ record { who = 1; request = Request.commit; reply = transaction_committed }
      ∷ [])
unfolding last_run begins_one
Reach-SpecRun_example = Reach-SpecRun last_run first_world-Serves

get-committed_example : get_notfound ≡ answer (first_map key_a)
unfolding touches
get-committed_example =
    get-committed first_world-Serves 2 key_a (λ k. key_b) key_a (omega arith) (omega arith)
      (ap (touches key_a) ((first_world-Serves.consistent.client 2 (omega arith)).closed refl))
      runs_get

-- Client 1, which has begun, waits for the lock of a key.
abbrev wants_key : Pending
wants_key = record { request = Request.get key_a; is_single = false }

abbrev waiting_world : World
waiting_world = record begun_world { waiting = update begun_world.waiting 1 (some wants_key) }

begun_map : Map
begun_map = (Step-Serves begins_one first_world-Serves).committed_map

nothing_waits : (j : ℕ) (p : Pending) → begun_world.waiting j ≡ some p → ⊥
nothing_waits j p e = elim (Bool-cases (1 == j)) [
  | inl t ↦ let e' = rw t at e in cc
  | inr t ↦ let e' = rw t at e in cc
]

waiting_world-Serves : Serves waiting_world begun_map
unfolding begun_map
waiting_world-Serves =
    let m = Step-Serves begins_one first_world-Serves in
    record {
      entries = m.serves.entries;
      changes = m.serves.changes;
      consistent = m.serves.consistent;
      pending_waits =
          update-Waits begun_world.waiting first_world.txs 1 (some wants_key) begun_session.tx
            (λ j p e. absurd (nothing_waits j p e))
            (λ q.
              same-Waits wants_key q _
                (record { fits = IsShort-a; keyed = (key_a, refl); started = (_, refl) }));
    }

others_free :
    (j : ℕ) → 0 < j → j ≢ 1 → in_bucket (djb2 key_a % 64) (locks_of (waiting_world.txs j)) ≡ 0
unfolding in_bucket
others_free j pos ne = rw (differ 1 j (λ e. ne (sym e))) refl

waiting_goes_on_example : (v : World) × Step waiting_world v × (v.waiting 1 ≡ none)
unfolding begin_transaction plain_log
waiting_goes_on_example =
    waiting_goes_on waiting_world-Serves 1 key_a (λ k. key_b) wants_key key_a _ (omega arith) refl
      refl (omega arith) refl others_free (λ e. cc)

restart-Serves_example :
    (s : Server) × (run_server key_a key_b key_a
        (files_of first_world.shared.log (λ name. none))
        id_file
      ≡ some s)
    × (s.transaction_id ≡ 1)
    × ((q : Bytes) → get s.ht q ≡ first_map q)
    × Serves (world_of s id_file) (λ q. get s.ht q)
restart-Serves_example =
    restart-Serves first_world-Serves key_a key_b key_a 1 (λ name. none) (omega arith)
      (λ i pos. refl) (λ e. omega arith) id_found

-- "-v" "-p" "80" "65537"
server_port-written_example :
    server_port
      ((45 ∷ 118 ∷ []) ∷ port_option ∷ int_to_digit 2 80 [] ∷ int_to_digit 5 65537 [] ∷ [])
    ≡ some 1
server_port-written_example =
    server_port-written ((45 ∷ 118 ∷ []) ∷ []) ((80, 2) ∷ (65537, 5) ∷ []) (refl, tt)
      (omega arith, omega arith, (omega arith, omega arith, tt))

-- The greeting of the second client fails.
take_clients-kept_example :
    take_clients
      (record { client_fd = 5; greeted = true; created = true }
        ∷ record { client_fd = 6; greeted = false; created = true }
        ∷ [])
      (record { opened = []; threads = [] })
    ≡ record { opened = 5 ∷ []; threads = 6 ∷ 5 ∷ [] }
take_clients-kept_example =
    take_clients-kept
      (record { client_fd = 5; greeted = true; created = true }
        ∷ record { client_fd = 6; greeted = false; created = true }
        ∷ [])
      (record { opened = []; threads = [] }) (tt, (((λ e. omega arith), tt), tt))
