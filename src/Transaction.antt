-- ===== src/Transaction.antt =====
-- include/qindb/transaction.h and src/storage/transaction.cpp: the transaction table, the page
-- locks and the operations of TransactionManager.
--
-- `transactions_` and `page_locks_` (QHash) are association lists, the QSets lists of numbers. The
-- write-ahead log is a parameter: the log's state and the three calls that the manager makes. The
-- pointer to it may be null, hence `Option`. The mutex makes every operation one step; `lock_page`,
-- which releases it to sleep, takes the sequence of what it finds when it wakes up.
pub mod Locks
pub mod Lifecycle
pub mod Views
pub mod Invariant
pub mod Finish
pub mod Grants
pub mod Changes
pub mod Steps
pub mod Outcomes
pub mod Conflicts
pub mod Waits
pub mod Wakes
pub mod History
use qin_db.Shared.{
  ℕ, ◌+◌, ◌%◌, ◌^◌, ◌≤◌, ◌≡◌, Bool, true, false, ◌&&◌, ◌||◌, Option, none, some, List, [], ◌∷◌,
  ◌++◌, ltb, leb, ◌==◌, if◌then◌else◌, length,
}
use qin_db.Shared.Maps.{lookup}
use qin_db.Shared.Maps
use qin_db.Shared.Sets.{contains}
use qin_db.Shared.Sets

pub data TransactionState : Type 0 where
  invalid active committed aborted : TransactionState

pub data LockType : Type 0 where
  shared exclusive : LockType

-- The undo record: what rolls an operation back. Its old values are opaque to the manager.
pub record UndoRecord : Type 0 where
  pub op_type : ℕ
  pub table_name : List ℕ
  pub page_id : ℕ
  pub slot_index : ℕ
  pub lsn : ℕ

pub record Transaction : Type 0 where
  pub txn_id : ℕ
  pub state : TransactionState
  pub start_time : ℕ
  pub locked_pages : List ℕ
  pub undo_log : List UndoRecord

pub record PageLock : Type 0 where
  pub page_id : ℕ
  pub lock_type : LockType
  pub holders : List ℕ

abbrev pub invalid_txn_id : ℕ
invalid_txn_id = 0

abbrev pub txn_id_mod : ℕ
txn_id_mod = 2 ^ 64

-- What the manager calls of the write-ahead log: the new state of the log and the result.
pub record WalCalls (W : Type 0) : Type 0 where
  pub begin_transaction : ℕ → W → W × Bool
  pub commit_transaction : ℕ → W → W × Bool
  pub abort_transaction : ℕ → W → W × Bool

pub record TransactionManager (W : Type 0) : Type 0 where
  pub wal_manager : Option W
  pub transactions : List (ℕ × Transaction)
  pub page_locks : List (ℕ × PageLock)
  pub next_txn_id : ℕ

-- Tests that the source writes with `==` and `!=`.
abbrev pub is_active : TransactionState → Bool
is_active TransactionState.active = true
is_active _ = false

abbrev pub is_shared : LockType → Bool
is_shared LockType.shared = true
is_shared LockType.exclusive = false

abbrev pub is_exclusive : LockType → Bool
is_exclusive LockType.shared = false
is_exclusive LockType.exclusive = true

-- isLockCompatible
unfoldable pub is_lock_compatible : PageLock → LockType → Bool
is_lock_compatible existing requested = is_shared existing.lock_type && is_shared requested

unfoldable pub init : {W : Type 0} → Option W → TransactionManager W
init w = record { wal_manager = w; transactions = []; page_locks = []; next_txn_id = 1 }
