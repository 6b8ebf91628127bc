-- ===== src/Transaction/Locks.antt =====
-- The page locks of src/storage/transaction.cpp: releaseAllLocks, lockPage and unlockPage.
use qin_db.Shared.{
  ℕ, ◌+◌, Bool, true, false, ◌&&◌, Option, none, some, List, [], ◌∷◌, ltb, leb, ◌==◌, if◌then◌else◌,
  length,
}
use qin_db.Shared.Maps
use qin_db.Shared.Sets
use qin_db.Transaction.{
  Transaction, PageLock, LockType, TransactionManager, is_active, is_shared, is_exclusive,
  is_lock_compatible,
}

-- `lock.holders.isEmpty()`
abbrev pub is_empty : List ℕ → Bool
is_empty [] = true
is_empty (x ∷ xs) = false

-- The part that unlockPage and releaseAllLocks share: the holder goes, and the lock with the last.
unfoldable pub drop_holder : ℕ → ℕ → PageLock → List (ℕ × PageLock) → List (ℕ × PageLock)
drop_holder t p lock locks =
    let rest = Sets.remove t lock.holders in
    if is_empty rest
    then Maps.remove p locks
    else Maps.insert p (record lock { holders = rest }) locks

unfoldable pub release_page : ℕ → ℕ → List (ℕ × PageLock) → List (ℕ × PageLock)
release_page t p locks = elim (Maps.lookup p locks) [
  | none ↦ locks
  | some lock ↦ drop_holder t p lock locks
]

-- The loop of releaseAllLocks over its copy of `lockedPages`.
unfoldable pub release_pages : ℕ → List ℕ → List (ℕ × PageLock) → List (ℕ × PageLock)
release_pages t [] locks = locks
release_pages t (p ∷ ps) locks = release_pages t ps (release_page t p locks)

-- One round of the loop of lockPage: the lock is granted, refused for good, or not free yet.
pub data Attempt (W : Type 0) : Type 0 where
  granted : TransactionManager W → Attempt W
  refused : Attempt W
  blocked : Attempt W

module _ {W : Type 0} where
  unfoldable pub release_all_locks : TransactionManager W → ℕ → TransactionManager W
  release_all_locks m t = elim (Maps.lookup t m.transactions) [
    | none ↦ m
    | some txn ↦ record m {
      transactions = Maps.insert t (record txn { locked_pages = [] }) m.transactions;
      page_locks = release_pages t txn.locked_pages m.page_locks;
    }
  ]

  -- The lock is stored, and the page noted in the transaction.
  unfoldable pub grant :
      TransactionManager W → ℕ → Transaction → ℕ → PageLock → TransactionManager W
  grant m t txn p lock = record m {
    transactions =
        Maps.insert t (record txn { locked_pages = Sets.insert p txn.locked_pages }) m.transactions;
    page_locks = Maps.insert p lock m.page_locks;
  }

  unfoldable pub share :
      TransactionManager W → ℕ → Transaction → ℕ → LockType → PageLock → Attempt W
  share m t txn p ty lock =
      if is_lock_compatible lock ty
      then granted (grant m t txn p (record lock { holders = Sets.insert t lock.holders }))
      else blocked

  unfoldable pub on_existing :
      TransactionManager W → ℕ → Transaction → ℕ → LockType → PageLock → Attempt W
  on_existing m t txn p ty lock =
      if Sets.contains t lock.holders
      then (if is_shared lock.lock_type && is_exclusive ty
          then (if length lock.holders == 1
              then granted (record m {
                page_locks =
                    Maps.insert p (record lock { lock_type = LockType.exclusive }) m.page_locks;
              })
              else share m t txn p ty lock)
          else granted m)
      else share m t txn p ty lock

  unfoldable pub request : TransactionManager W → ℕ → Transaction → ℕ → LockType → Attempt W
  request m t txn p ty = elim (Maps.lookup p m.page_locks) [
    | none ↦ granted (grant m t txn p (record { page_id = p; lock_type = ty; holders = t ∷ [] }))
    | some lock ↦ on_existing m t txn p ty lock
  ]

  unfoldable pub attempt : TransactionManager W → ℕ → ℕ → LockType → Attempt W
  attempt m t p ty = elim (Maps.lookup t m.transactions) [
    | none ↦ refused
    | some txn ↦ if is_active txn.state then request m t txn p ty else refused
  ]

  -- lockPage. A round that is blocked reads the clock, gives up after `timeout` milliseconds (never,
  -- if that is 0), and sleeps; other threads run meanwhile. `rounds` lists, for each sleep, the
  -- clock read before it and the manager found after it. `none`: still waiting when they end.
  unfoldable pub lock_page :
      ℕ
      → ℕ
      → LockType
      → ℕ
      → ℕ
      → TransactionManager W
      → List (ℕ × TransactionManager W)
      → Option (TransactionManager W × Bool)
  lock_page t p ty timeout start m [] = elim (attempt m t p ty) [
    | granted m' ↦ some (m', true)
    | refused ↦ some (m, false)
    | blocked ↦ none
  ]
  lock_page t p ty timeout start m ((now, next) ∷ rounds) = elim (attempt m t p ty) [
    | granted m' ↦ some (m', true)
    | refused ↦ some (m, false)
    | blocked ↦
        if ltb 0 timeout && leb (start + timeout) now
        then some (m, false)
        else lock_page t p ty timeout start next rounds
  ]

  unfoldable pub release_held :
      TransactionManager W → ℕ → ℕ → Transaction → PageLock → TransactionManager W × Bool
  release_held m t p txn lock =
      if Sets.contains t lock.holders
      then (
        record m {
          transactions =
              Maps.insert t (record txn { locked_pages = Sets.remove p txn.locked_pages })
                m.transactions;
          page_locks = drop_holder t p lock m.page_locks;
        },
        true,
      )
      else (m, false)

  unfoldable pub unlock_page : TransactionManager W → ℕ → ℕ → TransactionManager W × Bool
  unlock_page m t p = elim (Maps.lookup t m.transactions) [
    | none ↦ (m, false)
    | some txn ↦ elim (Maps.lookup p m.page_locks) [
      | none ↦ (m, false)
      | some lock ↦ release_held m t p txn lock
    ]
  ]
