-- ===== src/Transaction/Finish.antt =====
-- The invariant through beginTransaction, commitTransaction and abortTransaction.
use qin_db.Shared.{
  ℕ, ◌≡◌, ◌≢◌, Bool, true, false, ◌⊎◌, inl, inr, some, List, [], arith, ◌==◌, if◌then◌else◌, ==_iff,
  Option-cases, Bool-cases,
}
use qin_db.Shared.Maps
use qin_db.Shared.Maps.{lookup-insert}
use qin_db.Shared.Sets.{contains}
use qin_db.Transaction.{Transaction, TransactionState, TransactionManager, WalCalls, is_active}
use qin_db.Transaction.Locks.{release_pages, release_all_locks}
use qin_db.Transaction.Lifecycle.{
  state_of, set_state, write_wal, commit_transaction, abort_transaction,
}
use qin_db.Transaction.Views.{holds, notes, notes-insert, holds-release_pages}
use qin_db.Transaction.Invariant.{Inv, AreLocks-release_pages}

pub state_of-insert :
    (t u : ℕ) (txn : Transaction) (ts : List (ℕ × Transaction))
    → state_of u (Maps.insert t txn ts) ≡ (if t == u then txn.state else state_of u ts)
unfolding state_of
state_of-insert t u txn ts = ground (arith, lookup-insert t u txn ts)

-- A transaction whose pages hold exactly what it notes.
abbrev pub ended : Transaction → TransactionState → Transaction
ended txn s = record txn { state = s; locked_pages = [] }

module _ {W : Type 0} where
  -- The manager after a transaction has ended in state `s` and its locks are released.
  unfoldable pub finished :
      TransactionManager W → ℕ → Transaction → TransactionState → TransactionManager W
  finished m t txn s = record m {
    transactions =
        Maps.insert t (ended txn s) (Maps.insert t (record txn { state = s }) m.transactions);
    page_locks = release_pages t txn.locked_pages m.page_locks;
  }

  pub release_all_locks-set_state :
      (m : TransactionManager W) (t : ℕ) (txn : Transaction) (s : TransactionState)
      → release_all_locks (set_state m t txn s) t ≡ finished m t txn s
  unfolding release_all_locks set_state finished
  release_all_locks-set_state m t txn s =
      ground (arith, lookup-insert t t (record txn { state = s }) m.transactions)

  module _ (m : TransactionManager W) (t : ℕ) (txn : Transaction) (s : TransactionState)
      (found : Maps.lookup t m.transactions ≡ some txn) where
    pub notes-finished :
        (u p : ℕ)
        → notes u p (finished m t txn s).transactions
          ≡ (if t == u then false else notes u p m.transactions)
    unfolding finished contains
    notes-finished u p = ground (
      arith,
      notes-insert t u p (ended txn s) (Maps.insert t (record txn { state = s }) m.transactions),
      notes-insert t u p (record txn { state = s }) m.transactions,
    )

    pub state_of-finished :
        (u : ℕ)
        → state_of u (finished m t txn s).transactions
          ≡ (if t == u then s else state_of u m.transactions)
    unfolding finished
    state_of-finished u = ground (
      arith,
      state_of-insert t u (ended txn s) (Maps.insert t (record txn { state = s }) m.transactions),
      state_of-insert t u (record txn { state = s }) m.transactions,
    )

    notes-found : (p : ℕ) → notes t p m.transactions ≡ contains p txn.locked_pages
    unfolding notes
    notes-found p = rw (found, notes)

    pub holds-finished :
        Inv m
        → (u p : ℕ)
        → holds u p (finished m t txn s).page_locks
          ≡ (if t == u then false else holds u p m.page_locks)
    unfolding finished
    holds-finished v u p = ground (
      arith,
      holds-release_pages t txn.locked_pages u p m.page_locks,
      v.agree t p,
      notes-found p,
      ==_iff t u,
    )

    pub finished-Inv : Inv m → Inv (finished m t txn s)
    unfolding finished
    finished-Inv v = record {
      agree = λ u p. ground (arith, holds-finished v u p, notes-finished u p, v.agree u p);
      locks = AreLocks-release_pages t txn.locked_pages m.page_locks v.locks;
      owner = λ u p e. ground (arith, notes-finished u p, state_of-finished u, v.owner u p);
      fresh = λ u h. ground (
        arith,
        lookup-insert t u (ended txn s) (Maps.insert t (record txn { state = s }) m.transactions),
        lookup-insert t u (record txn { state = s }) m.transactions,
        v.fresh u,
        found,
      );
    }

  pub write_wal-Inv :
      (call : ℕ → W → W × Bool) (m : TransactionManager W) (t : ℕ)
      → Inv m
      → Inv (write_wal call m t).0
  unfolding write_wal
  write_wal-Inv call m t v = elim (Option-cases m.wal_manager) [
    | inl e ↦ rw (e, write_wal) v
    | inr (w, e) ↦
        rw (e, write_wal)
          (record { agree = v.agree; locks = v.locks; owner = v.owner; fresh = v.fresh })
  ]

  module _ (calls : WalCalls W) (m : TransactionManager W) (t : ℕ) where
    pub commit_transaction-active :
        (txn : Transaction)
        → Maps.lookup t m.transactions ≡ some txn
        → txn.state ≡ TransactionState.active
        → commit_transaction calls m t
          ≡ write_wal calls.commit_transaction (finished m t txn TransactionState.committed) t
    unfolding commit_transaction
    commit_transaction-active txn e a =
        ground (arith, e, a, release_all_locks-set_state m t txn TransactionState.committed)

    pub abort_transaction-active :
        (txn : Transaction)
        → Maps.lookup t m.transactions ≡ some txn
        → txn.state ≡ TransactionState.active
        → abort_transaction calls m t ≡ (
          (write_wal calls.abort_transaction (finished m t txn TransactionState.aborted) t).0,
          true,
        )
    unfolding abort_transaction
    abort_transaction-active txn e a =
        ground (arith, e, a, release_all_locks-set_state m t txn TransactionState.aborted)

    pub commit_transaction_refused :
        state_of t m.transactions ≢ TransactionState.active
        → commit_transaction calls m t ≡ (m, false)
    unfolding commit_transaction state_of
    commit_transaction_refused h = ground arith

    pub abort_transaction_refused :
        state_of t m.transactions ≢ TransactionState.active
        → abort_transaction calls m t ≡ (m, false)
    unfolding abort_transaction state_of
    abort_transaction_refused h = ground arith

    -- A transaction is active, and in the table, or it is not active.
    active-cases :
        ((txn : Transaction) × (Maps.lookup t m.transactions ≡ some txn)
          × (txn.state ≡ TransactionState.active))
        ⊎ (state_of t m.transactions ≢ TransactionState.active)
    unfolding state_of
    active-cases = elim (Option-cases (Maps.lookup t m.transactions)) [
      | inl e ↦ inr (ground arith)
      | inr (txn, e) ↦ elim (Bool-cases (is_active txn.state)) [
        | inl a ↦ inl (txn, e, ground arith)
        | inr a ↦ inr (ground arith)
      ]
    ]

    pub commit_transaction-Inv : Inv m → Inv (commit_transaction calls m t).0
    commit_transaction-Inv v = elim active-cases [
      | inl (txn, e, a) ↦
          rw (commit_transaction-active txn e a)
            (write_wal-Inv _ _ t (finished-Inv m t txn TransactionState.committed e v))
      | inr h ↦ rw (commit_transaction_refused h) v
    ]

    pub abort_transaction-Inv : Inv m → Inv (abort_transaction calls m t).0
    abort_transaction-Inv v = elim active-cases [
      | inl (txn, e, a) ↦
          rw (abort_transaction-active txn e a)
            (write_wal-Inv _ _ t (finished-Inv m t txn TransactionState.aborted e v))
      | inr h ↦ rw (abort_transaction_refused h) v
    ]
