-- ===== src/Lib.antt =====
-- sample-kv is a key-value server with transactions, a write-ahead log and crash recovery. A client sends
-- text commands; `run_command` (src/kv_command.c) takes them apart, locks the key (src/lock_manager.c),
-- logs what it does (src/kv_recovery.c), and changes the hash table (src/kv_hash.c). `abort` walks the log
-- backwards (src/transaction.c). At the start the table is rebuilt from the log. The development models
-- these parts as functions on explicit state.
--
-- The parts, and the files here that model them:
-- - Prelude: numbers, tests and lists that the others share. A byte is a number below 256, a string a list
--   of them with its length; `uint32_t` and `size_t` wrap with `% 2 ^ 32` and `% 2 ^ 64`.
-- - Hash (src/kv_hash.c): `Table` is `struct kv_ht`, a chain a list; `get`, `set_kv`, `del`, `foreach`, and
--   `resize`. Children: Chain, Placed, Resize, Methods (validity and the map that a table stands for), View.
-- - Utils (src/utils.c, and the codecs of src/kv_recovery.c and src/tx_manager.c): `djb2`, the
--   hexadecimal and the decimal codecs. Children: Hex, Digits.
-- - Key (`str_hash_func` and `str_cmp_func` of src/kv_command.c): the instance of the table's functions.
-- - Recovery (src/kv_recovery.c): `Log` is `lsn` with the file; the writers `..._log`, and the reader
--   `get_log`. Children: Entries (what the log says, without its format), Format, Parse, Search, Write,
--   Redo (`kv_recovery_redo`) with Replay (the map that the entries spell out), and Recover
--   (`kv_recovery_recover`) with Lsn (where the LSNs go on), Scan (the analysis), Undo,
--   Fates, Course (what the lines of a transaction stand for) and Ongoing.
-- - Transaction (src/transaction.c): `Tx` is `struct kv_tx`; `rollback`. Children: Durable (log and table
--   agree), Chain (the lines of a transaction along `prev_lsn`), Touched (the keys
--   that it wrote), Rollback, Crash (the files behind a crash).
-- - Lock (src/lock_rwlock.c, src/lock_manager.c, `kv_tx_unlock_all`): a reentrant lock and the array of
--   locks. Children: Exclusion, Release, Counts (how often each thread holds each bucket).
-- - Command (src/kv_command.c): `request` recognises a command. Its child Session runs it on the server's
--   state and the client's transaction, with `kv_txm_start_new_transaction` and `kv_txm_end_transaction` of
--   src/tx_manager.c. Children of Session: Access (the invariant of a transaction in progress), Invariant
--   (`begin`, `abort`), Writes (`set`, `del`), Commits (`commit`), Reads (the reply of
--   `get`), Consume (`consume_command`), TxList (`tx_list` in memory).
-- - LinkedList (src/linked_list.c): `LinkedList` is `struct kv_ll` with the heap of its elements, and
--   addresses are numbers. Children: Nodes (the sequence that a list stands for), Changes.
-- - TxManager (src/tx_manager.c): the id at a restart, and the list for the CHECK line. Child: Restart.
-- - Snapshot (src/kv_recovery_snapshot.c): the CHECK line, the snapshot file and the last LSN file.
--   Children: Lines and Load (what redo reads of it), Checkpoint.
-- - ClientHandler (src/kv_client_handler.c): packets, the array of the command, and replies.
--   Children: Termination, Text, Packets.
-- - Server (`kv_run_server`, src/kv_server.c): recover, redo and the id counter, in this order.
--   Children: Recovered, Boot, Atomic, Accepts (the loop that takes clients).
-- - Clients (the threads of src/kv_server.c, each in src/kv_client_handler.c): a `World` is the shared
--   state with the transaction and the waiting request of every thread, and `Step` lets any of them, or the
--   snapshot thread, go on. Children: Consistent (what holds between the steps), Takes, Puts and Ends (what
--   begin, a lock, a write and an end keep of it), Spec (what the clients are promised: a committed map, and
--   the writes of each open transaction over it), Answers, Keyed, Requests and Replies (each command and its
--   answer), Blocked (which requests wait), Runs (all orders of the steps), Progress, Deadlock,
--   Isolation, Start.
-- - Main (src/main.c): the arguments. Child: Port.
-- - Tests: the theorems at concrete inputs.
--
-- Conventions. A mutex-protected call is one step, and for several clients a command is one step up to
-- its answer or to a wait for a lock: finer interleavings of two commands are not modelled.
-- A wait for a lock is the outcome `blocked`, an exit or an array overrun is `fault` or `none`. Memory that the code reads before it writes it (the line array of
-- `kv_recovery_get_log`, a freed key) is an argument, and the theorems hold for every value of it.
-- `tx_list` is the list of its ids; the end of a transaction that stands behind another one in it is a
-- `fault`, whatever its `prev` holds. The exception to overruns is the array of
-- `kv_txm_ongoing_transaction_ids`, which is too short on the heap: it is taken as long enough. In
-- ClientHandler a wait for a lock is where a run ends; what follows it is in Clients.
--
-- Fuel. The redo loop takes one line a round and has one unit more than the file has bytes; the rollback
-- loop goes to ever smaller LSNs and starts with the last LSN; the snapshot loop reads at least one byte
-- a round. The analysis of recover takes one line a round, its undo loop goes to ever smaller LSNs, and
-- the loop over the commands of a client takes at least one byte from the array a round.
-- The loops over a list of pointers have one unit more than its `size`.
--
-- Bounds. Keys and values in the log are text below 16 bytes (the two-digit lengths of longer ones are
-- read with a shift of one bit for the upper digit, see Utils.Hex) and LSNs and ids below 2 ^ 32.
-- Command theorems assume values that are not empty, since the log uses the empty value for none. A step
-- of a client has room for twice the lines of the log and four more, which is enough for an abort.
--
-- Malformed files are not followed to the byte: a character out of range of `from_hex_array` counts as 0.
--
-- Not modelled: the lock of the lock manager itself (`lm->lock`, which `kv_lm_create` does not initialise
-- and every call takes for reading), sockets, the creation of threads and signals (src/kv_server.c,
-- src/shutdown.c), whose results are inputs, the output of src/main.c, the timer, the fork and the
-- directory of a snapshot, the wrappers of `lseek` and `read` in src/utils.c, writes that fail or are cut
-- short, and allocation.
pub mod Prelude
pub mod Hash
pub mod Utils
pub mod Key
pub mod Recovery
pub mod Transaction
pub mod Lock
pub mod Main
pub mod LinkedList
pub mod TxManager
pub mod Snapshot
pub mod Command
pub mod ClientHandler
pub mod Server
pub mod Clients
pub mod Tests
