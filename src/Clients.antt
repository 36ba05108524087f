-- ===== src/Clients.antt =====
-- The clients of the server (src/kv_server.c), each with a thread that runs `kv_handle_client`
-- (src/kv_client_handler.c) and a transaction of its own. A command is one step, up to its answer or to a
-- wait for a lock, and from there to its answer.
pub mod Consistent
pub mod Takes
pub mod Puts
pub mod Ends
pub mod Spec
pub mod Answers
pub mod Keyed
pub mod Requests
pub mod Blocked
pub mod Replies
pub mod Runs
pub mod Progress
pub mod Deadlock
pub mod Isolation
pub mod Start
use sample_kv.Prelude.{
  ℕ, ◌+◌, ◌*◌, ◌^◌, ◌<◌, ◌≡◌, Bool, true, false, Option, none, some, List, [], ◌∷◌, ◌++◌, ◌==◌,
  if◌then◌else◌,
}
use mathlib.Core.List.{Memᴰ}
use mathlib.Core.List.{map}
use sample_kv.Key.{Bytes}
use sample_kv.Transaction.{Tx}
use sample_kv.Command.{Request}
use sample_kv.Command.Session.{
  Session, Outcome, done, blocked, fault, run_request, get_with, set_with, del_with,
}
use sample_kv.Recovery.Entries.{IsShort, IsEntry, checked}
use sample_kv.Recovery.{Log}
use sample_kv.TxManager.{ongoing_transaction_ids}
use sample_kv.Snapshot.{check_snapshot}
use sample_kv.Command.Session.Access.{IsStored}

-- A request that waits for its lock, and whether it began its transaction itself.
pub record Pending : Type 0 where
  pub request : Request
  pub is_single : Bool

-- The shared state, and for each thread the transaction and the request that waits.
pub record World : Type 0 where
  pub shared : Session
  pub txs : ℕ → Option Tx
  pub waiting : ℕ → Option Pending

abbrev pub update {ℓ} : {A : Type ℓ} → (ℕ → A) → ℕ → A → ℕ → A
update f i v j = if i == j then v else f j

-- The state as thread `i` sees it.
abbrev pub session_of : ℕ → World → Session
session_of i w = record w.shared { tx = w.txs i }

-- Thread `i` leaves the state `s`, and a request that waits.
abbrev pub act : ℕ → Session → Option Pending → World → World
act i s p w = record { shared = s; txs = update w.txs i s.tx; waiting = update w.waiting i p }

module _ (self : ℕ) (stack : Bytes) (freed : Bytes → Bytes) where
  -- What follows where the lock is got, in the transaction of the client.
  abbrev pub go_on : Request → Bool → Session → Option Tx → Outcome
  go_on (Request.get key) is_single s (some tx) = get_with self stack freed key (is_single, s, tx)
  go_on (Request.set key value) is_single s (some tx) =
      set_with self stack freed key value (is_single, s, tx)
  go_on (Request.del key) is_single s (some tx) = del_with self stack freed key (is_single, s, tx)
  go_on _ is_single s tx = fault

abbrev pub is_none {ℓ} : {A : Type ℓ} → Option A → Bool
is_none none = true
is_none (some a) = false

-- Keys and values that the log can hold; a value is not empty.
abbrev pub Fits : Request → Type 0
Fits (Request.get key) = IsShort key
Fits (Request.set key value) = IsShort key × IsStored value
Fits (Request.del key) = IsShort key
Fits Request.overrun = ⊥
Fits _ = Unit

-- Room in the log for any command: an abort writes at most as many lines as there are, and two.
abbrev pub HasRoom : World → Type 0
HasRoom w = 2 * w.shared.log.lsn + 4 < 2 ^ 32

-- The open transactions, as they stand in `tx_list`.
pub record Lists (w : World) (ongoing : List Tx) : Type 0 where
  pub each : (tx : Tx) → Memᴰ tx ongoing → (i : ℕ) × (0 < i) × (w.txs i ≡ some tx)
  pub ids : map (λ (t : Tx). t.id) ongoing ≡ w.shared.tx_list

-- Any thread may take the next step: with a command, up to its answer or its wait, or with the command
-- that waited.
pub data Step (w : World) : World → Type 0 where
  answers :
      (i : ℕ) (stack : Bytes) (freed : Bytes → Bytes) (r : Request) {s : Session} {reply : Bytes}
      → 0 < i
      → w.waiting i ≡ none
      → Fits r
      → HasRoom w
      → run_request i stack freed r (session_of i w) ≡ done s reply
      → Step w (act i s none w)
  waits :
      (i : ℕ) (stack : Bytes) (freed : Bytes → Bytes) (r : Request) {s : Session}
      → 0 < i
      → w.waiting i ≡ none
      → Fits r
      → HasRoom w
      → run_request i stack freed r (session_of i w) ≡ blocked s
      → Step w (act i s (some (record { request = r; is_single = is_none (w.txs i) })) w)
  -- The snapshot thread, under the locks of the list, the log and the table.
  snapshots :
      (ongoing : List Tx) {lsn : ℕ} {log' : Log}
      → Lists w ongoing
      → IsEntry (checked (ongoing_transaction_ids ongoing))
      → HasRoom w
      → check_snapshot ongoing w.shared.log ≡ some (lsn, log')
      → Step w (record w { shared = record w.shared { log = log' } })
  resumes :
      (i : ℕ) (stack : Bytes) (freed : Bytes → Bytes) (p : Pending) {s : Session} {reply : Bytes}
      → 0 < i
      → w.waiting i ≡ some p
      → HasRoom w
      → go_on i stack freed p.request p.is_single (session_of i w) (w.txs i) ≡ done s reply
      → Step w (act i s none w)

pub data Reach (w : World) : World → Type 0 where
  here : Reach w w
  later : {u v : World} → Reach w u → Step u v → Reach w v

-- An answer that a client gets.
pub record Event : Type 0 where
  pub who : ℕ
  pub request : Request
  pub reply : Bytes

abbrev pub events : {w v : World} → Step w v → List Event
events (answers i stack freed r {s} {reply} pos idle f room e) =
    record { who = i; request = r; reply = reply } ∷ []
events (resumes i stack freed p {s} {reply} pos pending room e) =
    record { who = i; request = p.request; reply = reply } ∷ []
events s = []

abbrev pub trace : {w v : World} → Reach w v → List Event
trace here = []
trace (later r s) = trace r ++ events s
