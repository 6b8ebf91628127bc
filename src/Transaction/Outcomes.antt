-- ===== src/Transaction/Outcomes.antt =====
-- What commitTransaction and abortTransaction leave behind.
use qin_db.Shared.{
  ℕ, ◌≡◌, refl, Bool, true, false, inl, inr, none, some, List, arith, ◌==◌, if◌then◌else◌,
  Option-cases,
}
use qin_db.Shared.Maps
use qin_db.Transaction.{Transaction, TransactionState, TransactionManager, WalCalls}
use qin_db.Transaction.Lifecycle.{state_of, write_wal, commit_transaction, abort_transaction}
use qin_db.Transaction.Views.{holds}
use qin_db.Transaction.Invariant.{Inv}
use qin_db.Transaction.Finish.{
  finished, holds-finished, state_of-finished, commit_transaction-active, abort_transaction-active,
}

pub active-found :
    (t : ℕ) (ts : List (ℕ × Transaction))
    → state_of t ts ≡ TransactionState.active
    → (txn : Transaction) × (Maps.lookup t ts ≡ some txn) × (txn.state ≡ TransactionState.active)
unfolding state_of
active-found t ts h = elim (Option-cases (Maps.lookup t ts)) [
  | inl e ↦ absurd (ground arith)
  | inr (txn, e) ↦ (txn, e, ground arith)
]

module _ {W : Type 0} where
  pub write_wal-transactions :
      (call : ℕ → W → W × Bool) (m : TransactionManager W) (t : ℕ)
      → (write_wal call m t).0.transactions ≡ m.transactions
  unfolding write_wal
  write_wal-transactions call m t = ground arith

  pub write_wal-page_locks :
      (call : ℕ → W → W × Bool) (m : TransactionManager W) (t : ℕ)
      → (write_wal call m t).0.page_locks ≡ m.page_locks
  unfolding write_wal
  write_wal-page_locks call m t = ground arith

  -- Only `t` has changed: it is in state `s` and holds nothing.
  pub record Ended (m m' : TransactionManager W) (t : ℕ) (s : TransactionState) : Type 0 where
    pub held :
        (u p : ℕ) → holds u p m'.page_locks ≡ (if t == u then false else holds u p m.page_locks)
    pub states :
        (u : ℕ) → state_of u m'.transactions ≡ (if t == u then s else state_of u m.transactions)

  module _ (calls : WalCalls W) (m : TransactionManager W) (t : ℕ) where
    finished-Ended :
        (call : ℕ → W → W × Bool) (txn : Transaction) (s : TransactionState)
        → Maps.lookup t m.transactions ≡ some txn
        → Inv m
        → Ended m (write_wal call (finished m t txn s) t).0 t s
    finished-Ended call txn s e v = record {
      held = λ u p.
          rw (write_wal-page_locks call (finished m t txn s) t) (holds-finished m t txn s e v u p);
      states = λ u.
          rw (write_wal-transactions call (finished m t txn s) t) (state_of-finished m t txn s e u);
    }

    -- What the log answers to a commit; with no log, that it is done.
    abbrev pub logged : Bool
    logged = elim m.wal_manager [ none ↦ true | some w ↦ (calls.commit_transaction t w).1 ]

    write_wal-answer :
        (txn : Transaction) (s : TransactionState)
        → (write_wal calls.commit_transaction (finished m t txn s) t).1 ≡ logged
    unfolding write_wal finished
    write_wal-answer txn s = ground arith

    -- Committing an active transaction marks it committed and releases every lock that it holds,
    -- for all others the locks and the states stay as they are, and the call returns the answer of
    -- the log.
    pub commit_transaction-Ended :
        Inv m
        → state_of t m.transactions ≡ TransactionState.active
        → Ended m (commit_transaction calls m t).0 t TransactionState.committed
          × ((commit_transaction calls m t).1 ≡ logged)
    commit_transaction-Ended v h =
        let (txn, e, a) = active-found t m.transactions h in
        rw (commit_transaction-active calls m t txn e a) (
          finished-Ended calls.commit_transaction txn TransactionState.committed e v,
          write_wal-answer txn TransactionState.committed,
        )

    -- Aborting an active transaction marks it aborted, releases every lock that it holds, leaves the
    -- locks and the states of all others as they are, and returns true whatever the log answers.
    pub abort_transaction-Ended :
        Inv m
        → state_of t m.transactions ≡ TransactionState.active
        → Ended m (abort_transaction calls m t).0 t TransactionState.aborted
          × ((abort_transaction calls m t).1 ≡ true)
    abort_transaction-Ended v h =
        let (txn, e, a) = active-found t m.transactions h in
        rw (abort_transaction-active calls m t txn e a)
          (finished-Ended calls.abort_transaction txn TransactionState.aborted e v, refl)
