-- ===== src/Tests/Sessions.antt =====
-- The theorems on transactions, sessions and locks, at concrete inputs: a client begins, sets a key, and
-- ends the transaction in each way.
use sample_kv.Prelude.{
  ◌+◌, ◌%◌, ◌≤◌, ◌≡◌, refl, ap, sym, ◌∙◌, true, Option, none, some, List, [], ◌∷◌, ◌++◌, arith,
  length, replicate, set, get_or-replicate, length-replicate,
}
use mathlib.Core.Path.{subst}
use sample_kv.Key.{Bytes, key_funcs, str_cmp_func}
use sample_kv.Utils.{djb2}
use sample_kv.Hash
use sample_kv.Hash.{get}
use sample_kv.Hash.Methods.{get-create}
use sample_kv.Tests.{key_a, key_b, val_x, IsShort-a, IsShort-x}
use sample_kv.Lock
use sample_kv.Lock.{
  Rwl, free_rwl, wlock, unlock, Manager, lm_wlock, lm_rlock, lm_unlock, unlock_all,
}
use sample_kv.Lock.Exclusion.{IsValid, free}
use sample_kv.Lock.Release.{AllValid, lock_all, unlock_all-lock_all}
use sample_kv.Recovery.Entries.{committed}
use sample_kv.Recovery.Entries.{Entry, started, updated, render}
use sample_kv.Recovery.Redo.Replay.{create-Reads, replay, put}
use sample_kv.Transaction.{State, rollback}
use sample_kv.Transaction.Chain.{Change, undo}
use sample_kv.Transaction.Durable.{Durable}
use sample_kv.Transaction.Rollback.{rollback-restores}
use sample_kv.Command.Session.{
  Session, done, begin_transaction, start_new_transaction, bytes_of, write_set, run_begin,
  run_abort, run_set, run_del, transaction_started, transaction_aborted, set_success, del_success,
}
use sample_kv.Command.Session.Access.{Active, IsStored, write_set-Active, Written}
use sample_kv.Command.Session.Invariant.{
  InTx, Idle, next_id, begin_transaction-Begun, run_begin-InTx, run_abort-restores,
}
use sample_kv.Command.Session.{run_commit, transaction_committed}
use sample_kv.Command.Session.Commits.{run_commit-Idle}
use sample_kv.Command.Session.Writes.{InTxAfter, run_set-InTx, run_set-single, run_del-InTx}

abbrev pub other_key : Bytes → Bytes
other_key k = key_b

-- A server that has just started.
abbrev pub opened : Session
opened = record {
  ht = Hash.create 2;
  log = record { lsn = 0; recovery_file = [] };
  lm = Lock.create;
  transaction_id = 0;
  tx_id_file = [];
  tx_list = [];
  tx = none;
}

pub opened-Idle : Idle opened []
unfolding render replay
opened-Idle = record {
  no_tx = refl;
  durable = record {
    logged = record { counted = refl; file = refl; entries = tt; room = omega arith };
    reads = create-Reads;
  };
  stored = λ q v e. let nothing : none ≡ some v = sym (get-create 2 q) ∙ e in absurd cc;
}

abbrev first_lines : List Entry
first_lines = started 0 1 ∷ []

abbrev pub begun : Session
begun = record (begin_transaction opened).0 { tx = some (begin_transaction opened).1 }

abbrev state_of : Option State → State → State
state_of none d = d
state_of (some t) d = t

abbrev pub begun_state : State
begun_state = record { tx = (begin_transaction opened).1; ht = begun.ht; log = begun.log }

begun-Active : Active begun_state first_lines [] (λ q. get opened.ht q)
begun-Active =
    (begin_transaction-Begun opened [] opened-Idle.durable opened-Idle.stored (omega arith)).active

begun-InTx : InTx begun first_lines [] (λ q. get opened.ht q)
begun-InTx = record { the_tx = begun_state.tx; has = refl; active = begun-Active }

-- Behind `set` of x under a.
abbrev pub set_state : State
set_state = state_of (write_set key_a val_x begun_state) begun_state

abbrev pub set_lines : List Entry
set_lines =
    first_lines
    ++ updated begun_state.tx.last_lsn begun_state.tx.id key_a (bytes_of (get begun_state.ht key_a))
        val_x
      ∷ []

abbrev pub set_change : Change
set_change = record { key = key_a; old_val = bytes_of (get begun_state.ht key_a); new_val = val_x }

x-IsStored : IsStored val_x
x-IsStored = record { short = IsShort-x; some_bytes = omega arith }

pub write_x :
    Written begun_state first_lines []
      (λ q. get opened.ht q)
      key_a
      val_x
      (write_set key_a val_x begun_state)
write_x =
    write_set-Active begun_state first_lines [] (λ q. get opened.ht q) begun-Active (omega arith)
      key_a val_x IsShort-a x-IsStored

pub after_set : set_state ≡ write_x.after
after_set = ap (λ o. state_of o begun_state) write_x.runs

pub set_state-Active : Active set_state set_lines (set_change ∷ []) (λ q. get opened.ht q)
set_state-Active =
    subst (λ (t : State). Active t set_lines (set_change ∷ []) (λ q. get opened.ht q))
      (sym after_set) write_x.active

abbrev written_session : Session
written_session = record begun { tx = some set_state.tx; ht = set_state.ht; log = set_state.log }

written-InTx : InTx written_session set_lines (set_change ∷ []) (λ q. get opened.ht q)
written-InTx = record { the_tx = set_state.tx; has = refl; active = set_state-Active }

a_here : get written_session.ht key_a ≡ some val_x
unfolding str_cmp_func
a_here = ap (λ (t : State). get t.ht key_a) after_set ∙ write_x.reads key_a

rollback-restores_example :
    (after : State) × (rollback key_b set_state ≡ some after)
    × ((q : Bytes) → get after.ht q ≡ undo (set_change ∷ []) (λ k. get set_state.ht k) q)
    × ((fs : List Entry) × Durable after.ht after.log fs × (length fs ≤ length set_lines + 1 + 1))
    × (after.tx.locks ≡ set_state.tx.locks)
    × (after.tx.id ≡ set_state.tx.id)
rollback-restores_example =
    rollback-restores key_b set_state set_lines (set_change ∷ []) set_state-Active.durable
      set_state-Active.chain set_state-Active.last (omega arith) set_state-Active.id

stands_first : written_session.tx_list ≡ set_state.tx.id ∷ []
unfolding begin_transaction start_new_transaction
stands_first = ap (λ n. n ∷ []) (sym (ap (λ (t : State). t.tx.id) after_set ∙ write_x.same_id))

run_abort-restores_example :
    (s' : Session) × (run_abort 1 key_b other_key written_session ≡ done s' transaction_aborted)
    × ((q : Bytes) → get s'.ht q ≡ get opened.ht q)
    × ((fs : List Entry) × Durable s'.ht s'.log fs)
    × (s'.tx ≡ none)
    × (s'.lm ≡ unlock_all 1 written_session.lm set_state.tx.locks)
    × (s'.tx_list ≡ [])
unfolding written-InTx write_set
run_abort-restores_example =
    run_abort-restores 1 key_b other_key written_session set_lines (set_change ∷ [])
      (λ q. get opened.ht q) [] written-InTx stands_first (omega arith)

run_commit-Idle_example :
    (s' : Session) × (run_commit 1 key_b other_key written_session ≡ done s' transaction_committed)
    × ((q : Bytes) → get s'.ht q ≡ get written_session.ht q)
    × Idle s' (set_lines ++ committed set_state.tx.last_lsn set_state.tx.id ∷ [])
    × (s'.lm ≡ unlock_all 1 written_session.lm set_state.tx.locks)
    × (s'.tx_list ≡ [])
unfolding written-InTx write_set
run_commit-Idle_example =
    run_commit-Idle 1 key_b other_key written_session set_lines (set_change ∷ [])
      (λ q. get opened.ht q) [] written-InTx stands_first (omega arith)

run_begin-InTx_example :
    (s' : Session) × (run_begin 1 key_b other_key opened ≡ done s' transaction_started)
    × ((i' : InTx s' (started 0 (next_id opened) ∷ []) [] (λ q. get opened.ht q)) × (i'.the_tx.id
          ≡ next_id opened))
    × (s'.tx_list ≡ next_id opened ∷ [])
run_begin-InTx_example = run_begin-InTx 1 key_b other_key opened [] opened-Idle (omega arith)

-- The locks behind the first lock of a.
abbrev one_lock : Manager
one_lock = record {
  lock_list =
      set (replicate 64 free_rwl) (djb2 key_a % 64)
        (record { held = true; owner = 1; lock_count = 1 });
  counter = 1;
}

gets_lock : lm_wlock 1 Lock.create key_a ≡ some one_lock
unfolding lm_wlock wlock djb2 Lock.create
gets_lock = refl

begun_lock : lm_wlock 1 begun.lm key_a ≡ some one_lock
unfolding begin_transaction
begun_lock = gets_lock

run_set-InTx_example :
    (s' : Session) × (run_set 1 key_b other_key key_a val_x begun ≡ done s' set_success)
    × InTxAfter begun [] (λ q. get opened.ht q) key_a (some val_x) s'
run_set-InTx_example =
    run_set-InTx 1 key_b other_key begun first_lines [] (λ q. get opened.ht q) key_a val_x one_lock
      begun-InTx begun_lock (omega arith) IsShort-a x-IsStored

run_set-single_example :
    (s' : Session) × (run_set 1 key_b other_key key_a val_x opened ≡ done s' set_success)
    × ((q : Bytes) → get s'.ht q ≡ put (λ x. get opened.ht x) key_a (some val_x) q)
    × ((fs : List Entry) × Idle s' fs × (length fs ≡ 3))
    × (s'.tx_list ≡ [])
run_set-single_example =
    run_set-single 1 key_b other_key opened [] key_a val_x one_lock opened-Idle refl gets_lock
      (omega arith) IsShort-a x-IsStored

run_del-InTx_example :
    (s' : Session) × (run_del 1 key_b other_key key_a written_session ≡ done s' del_success)
    × InTxAfter written_session (set_change ∷ []) (λ q. get opened.ht q) key_a none s'
run_del-InTx_example =
    run_del-InTx 1 key_b other_key written_session set_lines (set_change ∷ [])
      (λ q. get opened.ht q) key_a val_x one_lock written-InTx begun_lock (omega arith) IsShort-a
      a_here

create-AllValid : AllValid Lock.create
unfolding Lock.create
create-AllValid = record {
  each = λ i. subst (λ (r : Rwl). IsValid r) (sym (get_or-replicate 64 i free_rwl)) free;
  some_buckets = omega (arith, length-replicate 64 free_rwl);
  word = omega arith;
}

lock_all_two : lock_all 1 Lock.create (key_a ∷ []) ≡ some one_lock
unfolding lock_all
lock_all_two = rw (lock_all, gets_lock) refl

unlock_all-lock_all_example : unlock_all 1 one_lock (key_a ∷ []) ≡ Lock.create
unlock_all-lock_all_example =
    unlock_all-lock_all 1 Lock.create one_lock (key_a ∷ []) (omega arith) create-AllValid
      lock_all_two
