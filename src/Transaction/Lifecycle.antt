-- ===== src/Transaction/Lifecycle.antt =====
-- The life of a transaction in src/storage/transaction.cpp: beginTransaction, commitTransaction,
-- abortTransaction, the destructor, and the reads of the transaction table.
use qin_db.Shared.{ℕ, ◌+◌, ◌%◌, Bool, true, false, none, some, List, [], ◌∷◌, ◌++◌, if◌then◌else◌}
use qin_db.Shared.Maps
use qin_db.Transaction.{
  Transaction, TransactionState, UndoRecord, TransactionManager, WalCalls, txn_id_mod, is_active,
}
use qin_db.Transaction.Locks.{release_all_locks}

-- getTransactionState
unfoldable pub state_of : ℕ → List (ℕ × Transaction) → TransactionState
state_of t ts = elim (Maps.lookup t ts) [ none ↦ TransactionState.invalid | some txn ↦ txn.state ]

-- getActiveTransactionCount
unfoldable pub active_count : List (ℕ × Transaction) → ℕ
active_count [] = 0
active_count ((t, txn) ∷ ts) = (if is_active txn.state then 1 else 0) + active_count ts

unfoldable pub active_ids : List (ℕ × Transaction) → List ℕ
active_ids [] = []
active_ids ((t, txn) ∷ ts) =
    let rest = active_ids ts in if is_active txn.state then t ∷ rest else rest

-- The constructor of a transaction with an id, at the time `now`.
abbrev pub new_transaction : ℕ → ℕ → Transaction
new_transaction t now = record {
  txn_id = t;
  state = TransactionState.active;
  start_time = now;
  locked_pages = [];
  undo_log = [];
}

module _ {W : Type 0} where
  unfoldable pub set_state :
      TransactionManager W → ℕ → Transaction → TransactionState → TransactionManager W
  set_state m t txn s = record m {
    transactions = Maps.insert t (record txn { state = s }) m.transactions;
  }

  -- addUndoRecord
  unfoldable pub add_undo_record : TransactionManager W → ℕ → UndoRecord → TransactionManager W
  add_undo_record m t undo = elim (Maps.lookup t m.transactions) [
    | none ↦ m
    | some txn ↦
        if is_active txn.state
        then record m {
          transactions =
              Maps.insert t (record txn { undo_log = txn.undo_log ++ (undo ∷ []) }) m.transactions;
        }
        else m
  ]

  -- A call of the log, if there is one; without it the call counts as done.
  unfoldable pub write_wal :
      (ℕ → W → W × Bool) → TransactionManager W → ℕ → TransactionManager W × Bool
  write_wal call m t = elim m.wal_manager [
    | none ↦ (m, true)
    | some w ↦ (record m { wal_manager = some (call t w).0 }, (call t w).1)
  ]

  -- The part of beginTransaction under the mutex: the next id is taken and its transaction stored.
  -- Ids are 64 bits and wrap.
  unfoldable pub register : TransactionManager W → ℕ → TransactionManager W
  register m now = record m {
    transactions = Maps.insert m.next_txn_id (new_transaction m.next_txn_id now) m.transactions;
    next_txn_id = (m.next_txn_id + 1) % txn_id_mod;
  }

  module _ (calls : WalCalls W) where
    -- beginTransaction, with generateTransactionId. The result of the log is not looked at.
    unfoldable pub begin_transaction : TransactionManager W → ℕ → TransactionManager W × ℕ
    begin_transaction m now =
        ((write_wal calls.begin_transaction (register m now) m.next_txn_id).0, m.next_txn_id)

    -- commitTransaction. The result of the log decides what is returned, after the locks are gone.
    unfoldable pub commit_transaction : TransactionManager W → ℕ → TransactionManager W × Bool
    commit_transaction m t = elim (Maps.lookup t m.transactions) [
      | none ↦ (m, false)
      | some txn ↦
          if is_active txn.state
          then write_wal calls.commit_transaction
              (release_all_locks (set_state m t txn TransactionState.committed) t) t
          else (m, false)
    ]

    -- abortTransaction. The result of the log is not looked at.
    unfoldable pub abort_transaction : TransactionManager W → ℕ → TransactionManager W × Bool
    abort_transaction m t = elim (Maps.lookup t m.transactions) [
      | none ↦ (m, false)
      | some txn ↦
          if is_active txn.state
          then (
            (write_wal calls.abort_transaction
                (release_all_locks (set_state m t txn TransactionState.aborted) t) t).0,
            true,
          )
          else (m, false)
    ]

    unfoldable pub abort_all : TransactionManager W → List ℕ → TransactionManager W
    abort_all m [] = m
    abort_all m (t ∷ ts) = abort_all (abort_transaction m t).0 ts

    -- The destructor: the active ids are listed, then each is aborted.
    unfoldable pub shutdown : TransactionManager W → TransactionManager W
    unfolding abort_all active_ids
    shutdown m = abort_all m (active_ids m.transactions)
