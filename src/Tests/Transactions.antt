-- ===== src/Tests/Transactions.antt =====
-- The transaction manager: two transactions that contend for page 7.
use qin_db.Shared.{ℕ, ◌+◌, ◌≡◌, refl, Bool, true, inr, some, [], ◌∷◌, arith}
use qin_db.Shared.Maps
use qin_db.Shared.Sets
use qin_db.Transaction.{
  TransactionState, PageLock, LockType, TransactionManager, WalCalls, init, is_lock_compatible,
}
use qin_db.Transaction.Locks.{
  blocked, drop_holder, release_page, release_pages, release_all_locks, grant, share, on_existing,
  request, attempt, lock_page, unlock_page, release_held,
}
use qin_db.Transaction.Lifecycle.{
  state_of, new_transaction, set_state, write_wal, register, begin_transaction, commit_transaction,
  abort_transaction, active_count, active_ids, abort_all, shutdown,
}
use qin_db.Transaction.Views.{holds}
use qin_db.Transaction.Invariant.{Inv, init-Inv}
use qin_db.Transaction.Steps.{Reach, here, next, begins, commits, locks, exclusive_alone, Reach-Inv}
use qin_db.Transaction.Outcomes.{Ended, commit_transaction-Ended}
use qin_db.Transaction.Conflicts.{attempt-blocked}
use qin_db.Transaction.Waits.{lock_page-Inv, lock_page_ends}
use qin_db.Transaction.History.{Reach-Stays}

unfoldable pub program : Unit {0}
unfolding Maps.lookup Maps.insert Maps.remove Sets.contains Sets.insert Sets.remove init
    is_lock_compatible drop_holder release_page release_pages release_all_locks grant share
    on_existing request attempt lock_page unlock_page release_held state_of set_state write_wal
    register begin_transaction commit_transaction abort_transaction active_count active_ids
    abort_all shutdown holds
program = tt

-- A log that counts its records and always answers true.
abbrev pub calls : WalCalls ℕ
calls = record {
  begin_transaction = λ t w. (w + 1, true);
  commit_transaction = λ t w. (w + 1, true);
  abort_transaction = λ t w. (w + 1, true);
}

abbrev pub lock_of_1 : PageLock
lock_of_1 = record { page_id = 7; lock_type = LockType.exclusive; holders = 1 ∷ [] }

-- Transactions 1 and 2 run.
abbrev pub two : TransactionManager ℕ
two = record {
  wal_manager = some 2;
  transactions = (1, new_transaction 1 5) ∷ (2, new_transaction 2 6) ∷ [];
  page_locks = [];
  next_txn_id = 3;
}

-- Transaction 1 holds page 7.
abbrev pub locked : TransactionManager ℕ
locked = record two {
  transactions =
      (1, record (new_transaction 1 5) { locked_pages = 7 ∷ [] }) ∷ (2, new_transaction 2 6) ∷ [];
  page_locks = (7, lock_of_1) ∷ [];
}

two-Reach : Reach calls (init (some 0)) two
unfolding program
two-Reach = next (next here (begins _ 5 (omega arith))) (begins _ 6 (omega arith))

locked-Reach : Reach calls (init (some 0)) locked
unfolding program
locked-Reach = next two-Reach (locks two locked 1 7 LockType.exclusive refl)

pub two-Inv : Inv two
two-Inv = Reach-Inv two-Reach (init-Inv (some 0))

pub locked-Inv : Inv locked
locked-Inv = Reach-Inv locked-Reach (init-Inv (some 0))

exclusive_alone_example :
    (◌≡◌ {A = ℕ} 1 1) × (state_of 1 locked.transactions ≡ TransactionState.active)
unfolding program
exclusive_alone_example =
    exclusive_alone (some 0) locked 7 1 1 lock_of_1 locked-Reach refl refl refl refl

commit_transaction-Ended_example :
    Ended locked (commit_transaction calls locked 1).0 1 TransactionState.committed
    × ((commit_transaction calls locked 1).1 ≡ true)
unfolding program
commit_transaction-Ended_example = commit_transaction-Ended calls locked 1 locked-Inv refl

attempt-blocked_example : attempt locked 2 7 LockType.shared ≡ blocked
unfolding program
attempt-blocked_example =
    attempt-blocked locked 2 7 1 LockType.shared lock_of_1 locked-Inv refl (omega arith) refl refl
      (inr refl)

-- Transaction 2 sleeps twice; transaction 1 commits during the second sleep.
abbrev pub released : TransactionManager ℕ
released = (commit_transaction calls locked 1).0

abbrev pub taken : TransactionManager ℕ
taken = record {
  wal_manager = some 3;
  transactions =
      (1, record (new_transaction 1 5) { state = TransactionState.committed })
      ∷ (2, record (new_transaction 2 6) { locked_pages = 7 ∷ [] })
      ∷ [];
  page_locks = (7, record { page_id = 7; lock_type = LockType.exclusive; holders = 2 ∷ [] }) ∷ [];
  next_txn_id = 3;
}

released-Reach : Reach calls (init (some 0)) released
released-Reach = next locked-Reach (commits locked 1)

pub released-Inv : Inv released
released-Inv = Reach-Inv released-Reach (init-Inv (some 0))

lock_page-Inv_example : Inv taken × (◌≡◌ {A = Bool} true true → holds 2 7 taken.page_locks ≡ true)
unfolding program
lock_page-Inv_example =
    lock_page-Inv 2 7 LockType.exclusive 5000 100 locked taken
      ((100, locked) ∷ (110, released) ∷ []) true locked-Inv (locked-Inv, (released-Inv, tt)) refl

lock_page_ends_example :
    (r : TransactionManager ℕ × Bool) × (lock_page 2 7 LockType.shared 20 100 locked
        ((100, locked) ∷ (120, locked) ∷ [])
      ≡ some r)
lock_page_ends_example =
    lock_page_ends 2 7 LockType.shared 20 100 locked ((100, locked) ∷ (120, locked) ∷ [])
      (omega arith) refl

Reach-Stays_example :
    state_of 1 (commit_transaction calls released 2).0.transactions
    ≡ state_of 1 released.transactions
unfolding program
Reach-Stays_example =
    Reach-Stays {calls = calls} (next here (commits released 2)) released-Inv 1 refl

-- An unlock and a shutdown leave no lock; the shutdown aborts what runs.
shutdown_runs :
    ((unlock_page locked 1 7).0 ≡ two)
    × ((shutdown calls locked).page_locks ≡ [])
    × (active_count (shutdown calls locked).transactions ≡ 0)
unfolding program
shutdown_runs = (refl, refl, refl)
