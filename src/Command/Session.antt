-- ===== src/Command/Session.antt =====
-- `run_command` of src/kv_command.c on the state of the server and of one client, with the parts of
-- src/tx_manager.c that it calls.
pub mod Access
pub mod Invariant
pub mod Writes
pub mod Reads
pub mod Consume
pub mod TxList
pub mod Commits
use sample_kv.Prelude.{
  ℕ, zero, suc, ◌+◌, ◌%◌, ◌^◌, Bool, true, false, Option, none, some, List, [], ◌∷◌, ◌++◌, length,
  ltb, ◌==◌, ◌||◌, if◌then◌else◌,
}
use mathlib.Core.Option
use sample_kv.Key.{Bytes, key_funcs}
use sample_kv.Hash
use sample_kv.Utils.{uint32_to_hex}
use sample_kv.Lock.{Manager, lm_rlock, lm_wlock, lm_unlock, unlock_all}
use sample_kv.Recovery.{Log, newline, fputs, begin_log, commit_log, abort_log, update_log}
use sample_kv.Recovery.Redo.{Store}
use sample_kv.Transaction
use sample_kv.Transaction.{Tx, State, set_last_lsn, add_lock}
use sample_kv.Command.{Request, request}

-- The shared state, and the `struct kv_client_data` of the client. A transaction stands in `tx_list`
-- by its id; of its elements only the first has a `prev` that was set.
pub record Session : Type 0 where
  pub ht : Store
  pub log : Log
  pub lm : Manager
  pub transaction_id : ℕ
  pub tx_id_file : Bytes
  pub tx_list : List ℕ
  pub tx : Option Tx

-- `done`: the new state and the contents of `result`; `blocked`: the state in which the thread waits
-- for a lock; `fault`: an exit, an array overrun, or a pointer that was never set.
pub data Outcome : Type 0 where
  done : Session → Bytes → Outcome
  blocked : Session → Outcome
  fault : Outcome

abbrev pub get_notfound : Bytes
get_notfound = b'(' ∷ b'n' ∷ b'i' ∷ b'l' ∷ b')' ∷ []

abbrev pub set_success : Bytes
set_success = b'O' ∷ b'K' ∷ []

abbrev pub del_success : Bytes
del_success = b'1' ∷ []

abbrev pub del_not_found : Bytes
del_not_found = b'0' ∷ []

abbrev pub transaction_started : Bytes
transaction_started = b's' ∷ b't' ∷ b'a' ∷ b'r' ∷ b't' ∷ b'e' ∷ b'd' ∷ []

abbrev pub transaction_already_started : Bytes
transaction_already_started =
    b't' ∷ b'r' ∷ b'a' ∷ b'n' ∷ b's' ∷ b'a' ∷ b'c' ∷ b't' ∷ b'i' ∷ b'o' ∷ b'n' ∷ b' ' ∷ b'i' ∷ b's'
    ∷ b' ' ∷ b'o' ∷ b'n' ∷ b'g' ∷ b'o' ∷ b'i' ∷ b'n' ∷ b'g' ∷ []

abbrev pub transaction_not_started : Bytes
transaction_not_started =
    b't' ∷ b'r' ∷ b'a' ∷ b'n' ∷ b's' ∷ b'a' ∷ b'c' ∷ b't' ∷ b'i' ∷ b'o' ∷ b'n' ∷ b' ' ∷ b'i' ∷ b's'
    ∷ b' ' ∷ b'n' ∷ b'o' ∷ b't' ∷ b' ' ∷ b'o' ∷ b'n' ∷ b'g' ∷ b'o' ∷ b'i' ∷ b'n' ∷ b'g' ∷ []

abbrev pub transaction_committed : Bytes
transaction_committed = b'c' ∷ b'o' ∷ b'm' ∷ b'm' ∷ b'i' ∷ b't' ∷ []

abbrev pub transaction_aborted : Bytes
transaction_aborted = b'r' ∷ b'o' ∷ b'l' ∷ b'l' ∷ b'b' ∷ b'a' ∷ b'c' ∷ b'k' ∷ []

abbrev pub invalid_command : Bytes
invalid_command =
    b'i' ∷ b'n' ∷ b'v' ∷ b'a' ∷ b'l' ∷ b'i' ∷ b'd' ∷ b'_' ∷ b'c' ∷ b'o' ∷ b'm' ∷ b'm' ∷ b'a' ∷ b'n'
    ∷ b'd' ∷ []

-- `kv_txm_start_new_transaction`
unfoldable pub start_new_transaction : Session → Tx × Session
start_new_transaction s =
    let id : ℕ = (s.transaction_id + 1) % 2 ^ 32 in
    (
      Transaction.create id,
      record s {
        transaction_id = id;
        tx_list = s.tx_list ++ id ∷ [];
        tx_id_file = fputs (uint32_to_hex id ++ newline ∷ []) s.tx_id_file;
      },
    )

-- The transaction that `begin`, and a command outside a transaction, starts: with its BEGIN line.
unfoldable pub begin_transaction : Session → Session × Tx
unfolding start_new_transaction
begin_transaction s =
    let (tx, s') = start_new_transaction s in
    let (new_lsn, log') = begin_log s'.log tx.last_lsn tx.id in
    (record s' { log = log' }, set_last_lsn tx new_lsn)

abbrev pub has_id : ℕ → List ℕ → Bool
has_id id [] = false
has_id id (x ∷ ids) = (id == x) || has_id id ids

-- `kv_ll_del` on `tx_list`: `none` where the transaction stands behind another one, since it then
-- follows a `prev` that `kv_ll_add` never set.
unfoldable pub delete_id : ℕ → List ℕ → Option (List ℕ)
delete_id id [] = some []
delete_id id (x ∷ ids) =
    if id == x then some ids else if has_id id ids then none else some (x ∷ ids)

-- The value of a key as `kv_recovery_update_log` gets it: NULL with length 0 for none.
abbrev pub bytes_of : Option Bytes → Bytes
bytes_of none = []
bytes_of (some v) = v

-- What `set` does under the lock of the key: the UPDATE line, then the table.
unfoldable pub write_set : Bytes → Bytes → State → Option State
write_set key value s =
    elim (update_log s.log s.tx.last_lsn s.tx.id key (bytes_of (Hash.get s.ht key)) value) [
      | none ↦ none
      | some (new_lsn, log') ↦ some (record {
        tx = set_last_lsn s.tx new_lsn;
        ht = (Hash.set_kv s.ht key value).1;
        log = log';
      })
    ]

-- What `del` does under the lock of a key that is there.
unfoldable pub write_del : Bytes → Bytes → State → Option State
write_del key old s = elim (update_log s.log s.tx.last_lsn s.tx.id key old []) [
  | none ↦ none
  | some (new_lsn, log') ↦
      some (record { tx = set_last_lsn s.tx new_lsn; ht = (Hash.del s.ht key).1; log = log' })
]

-- `self` is the thread of the client, `stack` an uninitialised array, and `freed key` what a freed key
-- holds when it is read once more.
module _ (self : ℕ) (stack : Bytes) (freed : Bytes → Bytes) where
  -- The state behind the end of a transaction, with the list that is left.
  abbrev pub end_with : Session → Tx → List ℕ → Session
  end_with s tx ids = record s { lm = unlock_all self s.lm tx.locks; tx_list = ids; tx = none }

  -- `kv_txm_end_transaction`, and `c_data->tx = NULL` behind it; `none` where `kv_ll_del` is lost.
  unfoldable pub end_transaction : Session → Tx → Option Session
  unfolding delete_id
  end_transaction s tx = Option.map (end_with s tx) (delete_id tx.id s.tx_list)

  abbrev pub committed_state : Session → Tx → Session
  committed_state s tx = record s { log = (commit_log s.log tx.last_lsn tx.id).1 }

  abbrev pub committed_tx : Session → Tx → Tx
  committed_tx s tx = set_last_lsn tx (commit_log s.log tx.last_lsn tx.id).0

  unfoldable pub commit_transaction : Session → Tx → Option Session
  unfolding end_transaction
  commit_transaction s tx = end_transaction (committed_state s tx) (committed_tx s tx)

  -- `if (c_data->tx == NULL)` at the start of `get`, `set` and `del`: whether the command is single.
  abbrev pub ensure : Option Tx → Session → Bool × Session × Tx
  ensure (some tx) s = (false, s, tx)
  ensure none s = let (s', tx) = begin_transaction s in (true, s', tx)

  abbrev pub ensure_transaction : Session → Bool × Session × Tx
  ensure_transaction s = ensure s.tx s

  abbrev pub unlocked : Bytes → Session → Session
  unlocked key s = record s { lm = lm_unlock self s.lm key }

  -- `if (is_single_command)` at their end; the lock of `key` is released once more.
  unfoldable pub close_single : Bool → Bytes → Session → Tx → Option Session
  unfolding commit_transaction
  close_single is_single key s tx =
      if is_single
      then Option.map (unlocked key) (commit_transaction s tx)
      else some (record s { tx = some tx })

  abbrev pub replies : Option Session → Bytes → Outcome
  replies none reply = fault
  replies (some s) reply = done s reply

  abbrev pub with_state : Session → State → Session
  with_state s t = record s { ht = t.ht; log = t.log }

  -- `memcpy` and the NUL into `result`, an array of 64.
  abbrev pub reply_value : Option Bytes → Option Session → Outcome
  reply_value none s = replies s get_notfound
  reply_value (some v) s = if ltb (length v) 64 then replies s v else fault

  unfoldable pub get_with : Bytes → Bool × Session × Tx → Outcome
  unfolding close_single
  get_with key (is_single, s, tx) = elim (lm_rlock self s.lm key) [
    | none ↦ blocked (record s { tx = some tx })
    | some lm ↦
        reply_value (Hash.get s.ht key)
          (close_single is_single (freed key) (record s { lm = lm }) (add_lock tx key))
  ]

  unfoldable pub run_get : Bytes → Session → Outcome
  unfolding get_with
  run_get key s = get_with key (ensure_transaction s)

  unfoldable pub set_with : Bytes → Bytes → Bool × Session × Tx → Outcome
  unfolding close_single write_set
  set_with key value (is_single, s, tx) = elim (lm_wlock self s.lm key) [
    | none ↦ blocked (record s { tx = some tx })
    | some lm ↦
        elim (write_set key value (record { tx = add_lock tx key; ht = s.ht; log = s.log })) [
          | none ↦ fault
          | some t ↦
              replies (close_single is_single key (with_state (record s { lm = lm }) t) t.tx)
                set_success
        ]
  ]

  unfoldable pub run_set : Bytes → Bytes → Session → Outcome
  unfolding set_with
  run_set key value s = set_with key value (ensure_transaction s)

  abbrev del_reply : Option (Bytes × Bytes) → Bytes
  del_reply none = del_not_found
  del_reply (some kv) = del_success

  unfoldable pub del_with : Bytes → Bool × Session × Tx → Outcome
  unfolding close_single write_del
  del_with key (is_single, s, tx) = elim (lm_wlock self s.lm key) [
    | none ↦ blocked (record s { tx = some tx })
    | some lm ↦ elim (Hash.get s.ht key) [
      | none ↦
          replies (close_single is_single (freed key) (record s { lm = lm }) (add_lock tx key))
            del_not_found
      | some old ↦
          elim (write_del key old (record { tx = add_lock tx key; ht = s.ht; log = s.log })) [
            | none ↦ fault
            | some t ↦
                replies
                  (close_single is_single (freed key) (with_state (record s { lm = lm }) t) t.tx)
                  (del_reply (Hash.del s.ht key).0)
          ]
    ]
  ]

  unfoldable pub run_del : Bytes → Session → Outcome
  unfolding del_with
  run_del key s = del_with key (ensure_transaction s)

  unfoldable pub run_begin : Session → Outcome
  unfolding begin_transaction
  run_begin s = elim s.tx [
    | some tx ↦ done s transaction_already_started
    | none ↦
        let (s', tx) = begin_transaction s in done (record s' { tx = some tx }) transaction_started
  ]

  unfoldable pub run_commit : Session → Outcome
  unfolding commit_transaction
  run_commit s = elim s.tx [
    | none ↦ done s transaction_not_started
    | some tx ↦ replies (commit_transaction s tx) transaction_committed
  ]

  unfoldable pub run_abort : Session → Outcome
  unfolding end_transaction
  run_abort s = elim s.tx [
    | none ↦ done s transaction_not_started
    | some tx ↦
        let (new_lsn, log') = abort_log s.log tx.last_lsn tx.id in
        elim (Transaction.rollback stack
          (record { tx = set_last_lsn tx new_lsn; ht = s.ht; log = log' })) [
            | none ↦ fault
            | some t ↦ replies (end_transaction (with_state s t) t.tx) transaction_aborted
          ]
  ]

  unfoldable pub run_request : Request → Session → Outcome
  unfolding run_get run_set run_del run_begin run_commit run_abort
  run_request Request.nothing s = done s []
  run_request Request.begin s = run_begin s
  run_request (Request.get key) s = run_get key s
  run_request (Request.set key value) s = run_set key value s
  run_request (Request.del key) s = run_del key s
  run_request Request.commit s = run_commit s
  run_request Request.abort s = run_abort s
  run_request Request.invalid s = done s invalid_command
  run_request Request.overrun s = fault

  -- `run_command`
  unfoldable pub run_command : Bytes → ℕ → Session → Outcome
  unfolding run_request
  run_command command command_len s = run_request (request command command_len) s
