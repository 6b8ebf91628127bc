-- ===== src/Transaction/History.antt =====
-- How the state of a transaction moves: from active to committed or aborted, and no further.
use qin_db.Shared.{
  ℕ, ◌≡◌, ◌≢◌, refl, subst, ◌∙◌, ◌&&◌, length, Bool, true, false, ◌⊎◌, inl, inr, none, some, List,
  arith, ◌==◌, Option-cases, Bool-cases, ==_iff,
}
use qin_db.Shared.Maps
use qin_db.Shared.Sets.{contains}
use qin_db.Transaction.{
  Transaction, TransactionState, PageLock, LockType, UndoRecord, TransactionManager, WalCalls,
  is_active, is_shared, is_exclusive, is_lock_compatible,
}
use qin_db.Transaction.Locks.{
  Attempt, granted, refused, blocked, grant, share, on_existing, request, attempt, release_held,
  unlock_page,
}
use qin_db.Transaction.Lifecycle.{
  state_of, new_transaction, write_wal, register, begin_transaction, commit_transaction,
  abort_transaction, add_undo_record,
}
use qin_db.Transaction.Invariant.{Inv}
use qin_db.Transaction.Finish.{
  finished, state_of-insert, state_of-finished, commit_transaction-active, abort_transaction-active,
  commit_transaction_refused, abort_transaction_refused,
}
use qin_db.Transaction.Outcomes.{active-found, write_wal-transactions}
use qin_db.Transaction.Steps.{
  Step, begins, commits, aborts, locks, unlocks, notes_undo, Reach, here, next, Reach-Inv,
}

-- Committed or aborted: nothing more happens to the transaction.
abbrev pub is_over : TransactionState → Bool
is_over TransactionState.invalid = false
is_over TransactionState.active = false
is_over TransactionState.committed = true
is_over TransactionState.aborted = true

state-cases : (s : TransactionState) → (s ≡ TransactionState.active) ⊎ (s ≢ TransactionState.active)
state-cases TransactionState.invalid = inr (λ e. cc)
state-cases TransactionState.active = inl refl
state-cases TransactionState.committed = inr (λ e. cc)
state-cases TransactionState.aborted = inr (λ e. cc)

-- Every state that is over in the first table is the same in the second.
abbrev pub Stays : List (ℕ × Transaction) → List (ℕ × Transaction) → Type 0
Stays ts ts' = (u : ℕ) → is_over (state_of u ts) ≡ true → state_of u ts' ≡ state_of u ts

state_of-found :
    (t : ℕ) (txn : Transaction) (ts : List (ℕ × Transaction))
    → Maps.lookup t ts ≡ some txn
    → state_of t ts ≡ txn.state
unfolding state_of
state_of-found t txn ts e = rw (e, state_of)

state_of-fresh :
    (t : ℕ) (ts : List (ℕ × Transaction))
    → Maps.lookup t ts ≡ none
    → state_of t ts ≡ TransactionState.invalid
unfolding state_of
state_of-fresh t ts e = rw (e, state_of)

-- A write that leaves the state alone.
Stays-insert :
    (t : ℕ) (txn txn' : Transaction) (ts : List (ℕ × Transaction))
    → Maps.lookup t ts ≡ some txn
    → txn'.state ≡ txn.state
    → Stays ts (Maps.insert t txn' ts)
Stays-insert t txn txn' ts e s u over =
    ground (arith, state_of-insert t u txn' ts, state_of-found t txn ts e, ==_iff t u)

module _ {W : Type 0} where
  abbrev AttemptStays : List (ℕ × Transaction) → Attempt W → Type 0
  AttemptStays ts (granted m') = Stays ts m'.transactions
  AttemptStays ts refused = Unit
  AttemptStays ts blocked = Unit

  share-Stays :
      (m : TransactionManager W) (t p : ℕ) (txn : Transaction) (ty : LockType) (lock : PageLock)
      → Maps.lookup t m.transactions ≡ some txn
      → AttemptStays m.transactions (share m t txn p ty lock)
  unfolding share grant
  share-Stays m t p txn ty lock e = elim (Bool-cases (is_lock_compatible lock ty)) [
    | inl fit ↦ rw fit (Stays-insert t txn _ m.transactions e refl)
    | inr no_fit ↦ rw no_fit tt
  ]

  on_existing-Stays :
      (m : TransactionManager W) (t p : ℕ) (txn : Transaction) (ty : LockType) (lock : PageLock)
      → Maps.lookup t m.transactions ≡ some txn
      → AttemptStays m.transactions (on_existing m t txn p ty lock)
  unfolding on_existing
  on_existing-Stays m t p txn ty lock e = elim (Bool-cases (contains t lock.holders)) [
    | inr other ↦ rw other (share-Stays m t p txn ty lock e)
    | inl mine ↦ rw mine (elim (Bool-cases (is_shared lock.lock_type && is_exclusive ty)) [
      | inr same ↦ rw same (λ u over. refl)
      | inl up ↦ rw up (elim (Bool-cases (length lock.holders == 1)) [
        | inr many ↦ rw many (share-Stays m t p txn ty lock e)
        | inl one ↦ rw one (λ u over. refl)
      ])
    ])
  ]

  attempt-Stays :
      (m : TransactionManager W) (t p : ℕ) (ty : LockType)
      → AttemptStays m.transactions (attempt m t p ty)
  unfolding attempt request grant
  attempt-Stays m t p ty = elim (Option-cases (Maps.lookup t m.transactions)) [
    | inl e ↦ rw (e, attempt) tt
    | inr (txn, e) ↦
        rw (e, attempt)
          (elim (Bool-cases (is_active txn.state)) [
            | inr idle ↦ rw idle tt
            | inl a ↦ rw a (elim (Option-cases (Maps.lookup p m.page_locks)) [
              | inl f ↦ rw (f, request) (Stays-insert t txn _ m.transactions e refl)
              | inr (lock, f) ↦ rw (f, request) (on_existing-Stays m t p txn ty lock e)
            ])
          ])
  ]

  unlock_page-Stays :
      (m : TransactionManager W) (t p : ℕ) → Stays m.transactions (unlock_page m t p).0.transactions
  unfolding unlock_page release_held
  unlock_page-Stays m t p = elim (Option-cases (Maps.lookup t m.transactions)) [
    | inl e ↦ rw (e, unlock_page) (λ u over. refl)
    | inr (txn, e) ↦
        rw (e, unlock_page)
          (elim (Option-cases (Maps.lookup p m.page_locks)) [
            | inl f ↦ rw (f, unlock_page) (λ u over. refl)
            | inr (lock, f) ↦
                rw (f, unlock_page)
                  (elim (Bool-cases (contains t lock.holders)) [
                    | inl mine ↦ rw mine (Stays-insert t txn _ m.transactions e refl)
                    | inr other ↦ rw other (λ u over. refl)
                  ])
          ])
  ]

  add_undo_record-Stays :
      (m : TransactionManager W) (t : ℕ) (undo : UndoRecord)
      → Stays m.transactions (add_undo_record m t undo).transactions
  unfolding add_undo_record
  add_undo_record-Stays m t undo = elim (Option-cases (Maps.lookup t m.transactions)) [
    | inl e ↦ rw (e, add_undo_record) (λ u over. refl)
    | inr (txn, e) ↦
        rw (e, add_undo_record)
          (elim (Bool-cases (is_active txn.state)) [
            | inl a ↦ rw a (Stays-insert t txn _ m.transactions e refl)
            | inr idle ↦ rw idle (λ u over. refl)
          ])
  ]

  module _ (calls : WalCalls W) (m : TransactionManager W) where
    begin_transaction-Stays :
        (now : ℕ) → Inv m → Stays m.transactions (begin_transaction calls m now).0.transactions
    unfolding begin_transaction register
    begin_transaction-Stays now v u over =
        let t = m.next_txn_id in
        rw (write_wal-transactions calls.begin_transaction (register m now) t) (
          ground (
            arith,
            state_of-insert t u (new_transaction t now) m.transactions,
            state_of-fresh t m.transactions (v.fresh t (omega arith)),
            ==_iff t u,
          ))

    finished-Stays :
        (call : ℕ → W → W × Bool) (t : ℕ) (txn : Transaction) (s : TransactionState)
        → Maps.lookup t m.transactions ≡ some txn
        → txn.state ≡ TransactionState.active
        → Stays m.transactions (write_wal call (finished m t txn s) t).0.transactions
    finished-Stays call t txn s e a u over =
        rw (write_wal-transactions call (finished m t txn s) t) (
          ground (
            arith,
            state_of-finished m t txn s e u,
            state_of-found t txn m.transactions e,
            ==_iff t u,
          ))

    commit_transaction-Stays :
        (t : ℕ) → Stays m.transactions (commit_transaction calls m t).0.transactions
    commit_transaction-Stays t = elim (state-cases (state_of t m.transactions)) [
      | inl h ↦
          let (txn, e, a) = active-found t m.transactions h in
          rw (commit_transaction-active calls m t txn e a)
            (finished-Stays calls.commit_transaction t txn TransactionState.committed e a)
      | inr h ↦ rw (commit_transaction_refused calls m t h) (λ u over. refl)
    ]

    abort_transaction-Stays :
        (t : ℕ) → Stays m.transactions (abort_transaction calls m t).0.transactions
    abort_transaction-Stays t = elim (state-cases (state_of t m.transactions)) [
      | inl h ↦
          let (txn, e, a) = active-found t m.transactions h in
          rw (abort_transaction-active calls m t txn e a)
            (finished-Stays calls.abort_transaction t txn TransactionState.aborted e a)
      | inr h ↦ rw (abort_transaction_refused calls m t h) (λ u over. refl)
    ]

module _ {W : Type 0} {calls : WalCalls W} where
  Step-Stays :
      {m m' : TransactionManager W} → Step calls m m' → Inv m → Stays m.transactions m'.transactions
  Step-Stays (begins m now small) v = begin_transaction-Stays calls m now v
  Step-Stays (commits m t) v = commit_transaction-Stays calls m t
  Step-Stays (aborts m t) v = abort_transaction-Stays calls m t
  Step-Stays (locks m m' t p ty e) v =
      subst (AttemptStays m.transactions) e (attempt-Stays m t p ty)
  Step-Stays (unlocks m t p) v = unlock_page-Stays m t p
  Step-Stays (notes_undo m t undo) v = add_undo_record-Stays m t undo

  -- From a manager that satisfies the invariant, no history of calls changes the state of a
  -- transaction that is committed or aborted.
  pub Reach-Stays :
      {m m' : TransactionManager W}
      → Reach calls m m'
      → Inv m
      → (u : ℕ) → is_over (state_of u m.transactions) ≡ true
      → state_of u m'.transactions ≡ state_of u m.transactions
  Reach-Stays here v u over = refl
  Reach-Stays (next r s) v u over =
      let same = Reach-Stays r v u over in Step-Stays s (Reach-Inv r v) u (rw same over) ∙ same
