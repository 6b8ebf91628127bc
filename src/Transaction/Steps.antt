-- ===== src/Transaction/Steps.antt =====
-- TransactionManager as a transition system: what holds after any history of calls.
use qin_db.Shared.{ℕ, ◌+◌, ◌<◌, ◌≡◌, sym, ◌∙◌, subst, true, Option, some}
use qin_db.Shared.Maps
use qin_db.Shared.Sets.{contains, contains_one}
use qin_db.Transaction.{
  TransactionState, PageLock, LockType, UndoRecord, TransactionManager, WalCalls, txn_id_mod, init,
}
use qin_db.Transaction.Locks.{granted, attempt, unlock_page}
use qin_db.Transaction.Lifecycle.{
  state_of, begin_transaction, commit_transaction, abort_transaction, add_undo_record,
}
use qin_db.Transaction.Views.{holds_found}
use qin_db.Transaction.Invariant.{Inv, init-Inv}
use qin_db.Transaction.Finish.{commit_transaction-Inv, abort_transaction-Inv}
use qin_db.Transaction.Grants.{Keeps, attempt-Keeps}
use qin_db.Transaction.Changes.{unlock_page-Inv, begin_transaction-Inv, add_undo_record-Inv}

-- One call that changes the manager. An id counter about to wrap ends the history.
pub data Step {W : Type 0} (calls : WalCalls W)
    : TransactionManager W → TransactionManager W → Type 0 where
  begins :
      (m : TransactionManager W) (now : ℕ)
      → m.next_txn_id + 1 < txn_id_mod
      → Step calls m (begin_transaction calls m now).0
  commits : (m : TransactionManager W) (t : ℕ) → Step calls m (commit_transaction calls m t).0
  aborts : (m : TransactionManager W) (t : ℕ) → Step calls m (abort_transaction calls m t).0
  locks :
      (m m' : TransactionManager W) (t p : ℕ) (ty : LockType)
      → attempt m t p ty ≡ granted m'
      → Step calls m m'
  unlocks : (m : TransactionManager W) (t p : ℕ) → Step calls m (unlock_page m t p).0
  notes_undo :
      (m : TransactionManager W) (t : ℕ) (undo : UndoRecord)
      → Step calls m (add_undo_record m t undo)

pub data Reach {W : Type 0} (calls : WalCalls W) (m : TransactionManager W)
    : TransactionManager W → Type 0 where
  here : Reach calls m m
  next : {k l : TransactionManager W} → Reach calls m k → Step calls k l → Reach calls m l

module _ {W : Type 0} {calls : WalCalls W} where
  pub Step-Inv : {m m' : TransactionManager W} → Step calls m m' → Inv m → Inv m'
  Step-Inv (begins m now small) v = begin_transaction-Inv m calls now small v
  Step-Inv (commits m t) v = commit_transaction-Inv calls m t v
  Step-Inv (aborts m t) v = abort_transaction-Inv calls m t v
  Step-Inv (locks m m' t p ty e) v = subst Keeps e (attempt-Keeps m t p ty v)
  Step-Inv (unlocks m t p) v = unlock_page-Inv m t p v
  Step-Inv (notes_undo m t undo) v = add_undo_record-Inv m t undo v

  pub Reach-Inv : {m m' : TransactionManager W} → Reach calls m m' → Inv m → Inv m'
  Reach-Inv here v = v
  Reach-Inv (next r s) v = Step-Inv s (Reach-Inv r v)

  -- After any history of calls from a new manager, a transaction that holds an exclusive lock is
  -- active, and every holder of that lock is this transaction.
  pub exclusive_alone :
      (w : Option W) (m : TransactionManager W) (p t u : ℕ) (lock : PageLock)
      → Reach calls (init w) m
      → Maps.lookup p m.page_locks ≡ some lock
      → lock.lock_type ≡ LockType.exclusive
      → contains t lock.holders ≡ true
      → contains u lock.holders ≡ true
      → (t ≡ u) × (state_of t m.transactions ≡ TransactionState.active)
  exclusive_alone w m p t u lock r e x ht hu =
      let v : Inv m = Reach-Inv r (init-Inv w) in
      (
        contains_one t u lock.holders ((v.locks p lock e).single x) ht hu,
        v.owner t p (sym (v.agree t p) ∙ holds_found t p lock m.page_locks e ∙ ht),
      )
