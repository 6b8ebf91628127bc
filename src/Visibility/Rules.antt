-- ===== src/Visibility/Rules.antt =====
-- What the visibility rules come to, alone and together with commits, aborts and the vacuum.
use qin_db.Shared.{ℕ, ◌≡◌, ◌≢◌, true, false, ◌↔◌, ◌⊎◌, List, arith}
use qin_db.Transaction.{Transaction, TransactionState, TransactionManager, WalCalls, invalid_txn_id}
use qin_db.Transaction.Lifecycle.{state_of, commit_transaction, abort_transaction}
use qin_db.Transaction.Invariant.{Inv}
use qin_db.Transaction.Outcomes.{commit_transaction-Ended, abort_transaction-Ended}
use qin_db.Transaction.Steps.{Reach}
use qin_db.Transaction.History.{Reach-Stays}
use qin_db.Visibility.{RecordHeader, is_committed, is_aborted, is_visible, can_delete}

-- The write of transaction `t` counts for `current`: it is its own, or committed.
abbrev pub Counts : List (ℕ × Transaction) → ℕ → ℕ → Type 0
Counts ts current t = (t ≡ current) ⊎ (is_committed ts t ≡ true)

-- A record is visible exactly when its creation counts and is not undone, and it is not deleted by
-- a deletion that counts; a deletion by the reader itself counts even if it is undone.
pub is_visible_iff :
    (ts : List (ℕ × Transaction)) (header : RecordHeader) (current : ℕ)
    → (is_visible ts header current ≡ true) ↔ (
        Counts ts current header.create_txn_id
        × (is_aborted ts header.create_txn_id ≡ false)
        × ((header.delete_txn_id ≡ invalid_txn_id) ⊎ (¬ Counts ts current header.delete_txn_id)))
unfolding is_visible
is_visible_iff ts header current = (λ e. ground arith, λ (c, a, d). ground arith)

-- No transaction sees a record that another transaction, still active, has created.
pub is_visible-active :
    (ts : List (ℕ × Transaction)) (header : RecordHeader) (current : ℕ)
    → state_of header.create_txn_id ts ≡ TransactionState.active
    → header.create_txn_id ≢ current
    → is_visible ts header current ≡ false
unfolding is_visible is_committed is_aborted
is_visible-active ts header current a other = ground arith

module _ {W : Type 0} (calls : WalCalls W) (m : TransactionManager W) (v : Inv m) where
  -- Committing an active transaction makes a record that it created, and that nobody deleted,
  -- visible to every reader.
  pub is_visible-commit :
      (header : RecordHeader) (current : ℕ)
      → state_of header.create_txn_id m.transactions ≡ TransactionState.active
      → header.create_txn_id ≢ invalid_txn_id
      → header.delete_txn_id ≡ invalid_txn_id
      → is_visible (commit_transaction calls m header.create_txn_id).0.transactions header current
        ≡ true
  unfolding is_visible is_committed is_aborted
  is_visible-commit header current a real kept =
      let t = header.create_txn_id in
      ground (arith, (commit_transaction-Ended calls m t v a).0.states t)

  -- Aborting an active transaction hides every record that it created from every reader, itself
  -- included.
  pub is_visible-abort :
      (header : RecordHeader) (current : ℕ)
      → state_of header.create_txn_id m.transactions ≡ TransactionState.active
      → header.create_txn_id ≢ invalid_txn_id
      → is_visible (abort_transaction calls m header.create_txn_id).0.transactions header current
        ≡ false
  unfolding is_visible is_committed is_aborted
  is_visible-abort header current a real =
      let t = header.create_txn_id in
      ground (arith, (abort_transaction-Ended calls m t v a).0.states t)

  -- Aborting an active transaction takes its deletions back: every other reader sees a record that it
  -- deleted exactly as if the record were not deleted, provided that it did not create the record.
  pub is_visible-abort_delete :
      (header : RecordHeader) (current : ℕ)
      → state_of header.delete_txn_id m.transactions ≡ TransactionState.active
      → header.delete_txn_id ≢ invalid_txn_id
      → header.delete_txn_id ≢ current
      → header.delete_txn_id ≢ header.create_txn_id
      → is_visible (abort_transaction calls m header.delete_txn_id).0.transactions header current
        ≡ is_visible m.transactions (record header { delete_txn_id = invalid_txn_id }) current
  unfolding is_visible is_committed is_aborted
  is_visible-abort_delete header current a real other foreign =
      let t = header.delete_txn_id in
      let ended = (abort_transaction-Ended calls m t v a).0 in
      ground (arith, ended.states t, ended.states header.create_txn_id)

can_delete-state :
    (ts : List (ℕ × Transaction)) (header : RecordHeader)
    → can_delete ts header ≡ true
    → (header.delete_txn_id ≢ invalid_txn_id)
      × (state_of header.delete_txn_id ts ≡ TransactionState.committed)
      × (state_of header.create_txn_id ts ≡ TransactionState.committed)
unfolding can_delete
can_delete-state ts header e = ground arith

module _ {W : Type 0} {calls : WalCalls W} where
  -- What the vacuum may delete is visible to nobody, now and after every further history of calls.
  pub can_delete-is_visible :
      (m m' : TransactionManager W) (header : RecordHeader) (current : ℕ)
      → Inv m
      → Reach calls m m'
      → can_delete m.transactions header ≡ true
      → is_visible m'.transactions header current ≡ false
  unfolding is_visible is_committed is_aborted
  can_delete-is_visible m m' header current v r e =
      let (real, deleted, created) = can_delete-state m.transactions header e in
      ground (
        arith,
        Reach-Stays r v header.delete_txn_id (ground (arith, deleted)),
        Reach-Stays r v header.create_txn_id (ground (arith, created)),
        real,
        deleted,
        created,
      )
