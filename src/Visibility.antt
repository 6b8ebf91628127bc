-- ===== src/Visibility.antt =====
-- src/storage/visibility_checker.cpp, and canDelete of src/storage/vacuum.cpp: which records a
-- transaction sees, and which the vacuum may take away. The transaction manager is asked through
-- getTransactionState.
pub mod Rules
use qin_db.Shared.{ℕ, ◌≡◌, Bool, true, false, not, ◌&&◌, ◌||◌, List, ◌==◌, if◌then◌else◌}
use qin_db.Transaction.{Transaction, TransactionState, invalid_txn_id}
use qin_db.Transaction.Lifecycle.{state_of}

-- The header of a stored record (include/qindb/table_page.h).
pub record RecordHeader : Type 0 where
  pub row_id : ℕ
  pub create_txn_id : ℕ
  pub delete_txn_id : ℕ
  pub column_count : ℕ

-- A transaction that is not in the table counts as committed.
abbrev pub committed_state : TransactionState → Bool
committed_state TransactionState.invalid = true
committed_state TransactionState.active = false
committed_state TransactionState.committed = true
committed_state TransactionState.aborted = false

abbrev pub aborted_state : TransactionState → Bool
aborted_state TransactionState.aborted = true
aborted_state _ = false

abbrev pub active_state : TransactionState → Bool
active_state TransactionState.active = true
active_state _ = false

abbrev pub is_committed_state : TransactionState → Bool
is_committed_state TransactionState.committed = true
is_committed_state _ = false

unfoldable pub is_committed : List (ℕ × Transaction) → ℕ → Bool
is_committed ts t = if t == invalid_txn_id then false else committed_state (state_of t ts)

unfoldable pub is_aborted : List (ℕ × Transaction) → ℕ → Bool
is_aborted ts t = if t == invalid_txn_id then false else aborted_state (state_of t ts)

unfoldable pub is_running : List (ℕ × Transaction) → ℕ → Bool
is_running ts t = if t == invalid_txn_id then false else active_state (state_of t ts)

-- The rules of isVisible, in its order.
unfoldable pub is_visible : List (ℕ × Transaction) → RecordHeader → ℕ → Bool
is_visible ts header current =
    let xmin = header.create_txn_id in
    let xmax = header.delete_txn_id in
    if not (is_committed ts xmin) && not (xmin == current)
    then false
    else if is_aborted ts xmin
    then false
    else if xmax == invalid_txn_id
    then true
    else if xmax == current
    then false
    else if is_committed ts xmax && not (xmax == current)
    then false
    else if not (is_committed ts xmax) || is_aborted ts xmax
    then true
    else true

-- VacuumWorker::canDelete
unfoldable pub can_delete : List (ℕ × Transaction) → RecordHeader → Bool
can_delete ts header =
    if header.delete_txn_id == invalid_txn_id
    then false
    else if not (is_committed_state (state_of header.delete_txn_id ts))
    then false
    else if not (is_committed_state (state_of header.create_txn_id ts))
    then false
    else true
