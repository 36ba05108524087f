-- ===== src/Tests/Deadlocks.antt =====
-- Two clients that lock one key each and then ask for the other's.
use sample_kv.Prelude.{ℕ, refl, false, Option, none, some, arith}
use sample_kv.Key.{Bytes, str_hash_func}
use sample_kv.Utils.{djb2}
use sample_kv.Hash
use sample_kv.Tests.{key_a, key_b, IsShort-a, IsShort-b}
use sample_kv.Tests.Worlds.{first_world, first_world-Serves, session_after}
use sample_kv.Lock
use sample_kv.Lock.{lm_wlock, wlock}
use sample_kv.Lock.Counts.{in_bucket}
use sample_kv.Recovery.{plain_log}
use sample_kv.Command.{Request}
use sample_kv.Command.Session.{
  Outcome, run_request, run_begin, run_get, get_with, begin_transaction, transaction_started,
  get_notfound,
}
use sample_kv.Clients.{World, Pending, session_of, act, Step, answers, waits, Reach, here, later}
use sample_kv.Clients.Deadlock.{WaitsFor, Stays, deadlock-Stays}
use sample_kv.Clients.Runs.{Reach-SpecRun}

abbrev out : World → ℕ → Request → Outcome
unfolding run_request
out w i r = run_request i key_a (λ k. key_b) r (session_of i w)

abbrev next : World → ℕ → Request → Option Pending → World
unfolding out
next w i r o = act i (session_after (out w i r)) o w

abbrev world_1 : World
world_1 = next first_world 1 Request.begin none

abbrev world_2 : World
world_2 = next world_1 2 Request.begin none

abbrev world_3 : World
world_3 = next world_2 1 (Request.get key_a) none

abbrev world_4 : World
world_4 = next world_3 2 (Request.get key_b) none

abbrev wants : Bytes → Pending
wants key = record { request = Request.get key; is_single = false }

abbrev world_5 : World
world_5 = next world_4 1 (Request.get key_b) (some (wants key_b))

abbrev world_6 : World
world_6 = next world_5 2 (Request.get key_a) (some (wants key_a))

step_1 : Step first_world world_1
unfolding out run_begin run_request begin_transaction
step_1 =
    answers 1 key_a (λ k. key_b) Request.begin {reply = transaction_started} (omega arith) refl tt
      (omega arith) refl

step_2 : Step world_1 world_2
unfolding out run_begin run_request begin_transaction plain_log
step_2 =
    answers 2 key_a (λ k. key_b) Request.begin {reply = transaction_started} (omega arith) refl tt
      (omega arith) refl

step_3 : Step world_2 world_3
unfolding out run_begin run_request begin_transaction plain_log run_get get_with lm_wlock wlock
    Hash.get Hash.create Lock.create djb2 str_hash_func
step_3 =
    answers 1 key_a (λ k. key_b) (Request.get key_a) {reply = get_notfound} (omega arith) refl
      IsShort-a (omega arith) refl

step_4 : Step world_3 world_4
unfolding out run_begin run_request begin_transaction plain_log run_get get_with lm_wlock wlock
    Hash.get Hash.create Lock.create djb2 str_hash_func
step_4 =
    answers 2 key_a (λ k. key_b) (Request.get key_b) {reply = get_notfound} (omega arith) refl
      IsShort-b (omega arith) refl

step_5 : Step world_4 world_5
unfolding out run_begin run_request begin_transaction plain_log run_get get_with lm_wlock wlock
    Hash.get Hash.create Lock.create djb2 str_hash_func
step_5 =
    waits 1 key_a (λ k. key_b) (Request.get key_b) (omega arith) refl IsShort-b (omega arith) refl

step_6 : Step world_5 world_6
unfolding out run_begin run_request begin_transaction plain_log run_get get_with lm_wlock wlock
    Hash.get Hash.create Lock.create djb2 str_hash_func
step_6 =
    waits 2 key_a (λ k. key_b) (Request.get key_a) (omega arith) refl IsShort-a (omega arith) refl

reach_6 : Reach first_world world_6
reach_6 =
    later (later (later (later (later (later here step_1) step_2) step_3) step_4) step_5) step_6

one_waits_now : WaitsFor world_6 1 2
unfolding out run_begin run_request begin_transaction plain_log run_get get_with lm_wlock wlock
    Hash.get Hash.create Lock.create djb2 str_hash_func in_bucket
one_waits_now = record {
  pending = wants key_b;
  waits_now = refl;
  key = key_b;
  keyed = refl;
  locked = omega arith;
}

two_waits_now : WaitsFor world_6 2 1
unfolding out run_begin run_request begin_transaction plain_log run_get get_with lm_wlock wlock
    Hash.get Hash.create Lock.create djb2 str_hash_func in_bucket
two_waits_now = record {
  pending = wants key_a;
  waits_now = refl;
  key = key_a;
  keyed = refl;
  locked = omega arith;
}

deadlock-Stays_example : Stays world_6 world_6 1 2
deadlock-Stays_example =
    deadlock-Stays here (Reach-SpecRun reach_6 first_world-Serves).1 (omega arith) (omega arith)
      (λ e. omega arith) one_waits_now two_waits_now
