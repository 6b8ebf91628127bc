-- ===== src/Transaction/Changes.antt =====
-- The invariant through unlockPage, beginTransaction and addUndoRecord.
use qin_db.Shared.{
  ℕ, ◌+◌, ◌<◌, ◌≡◌, refl, false, inl, inr, none, some, arith, Option-cases, Bool-cases, ==_iff,
}
use qin_db.Shared.Maps
use qin_db.Shared.Maps.{lookup-insert}
use qin_db.Shared.Sets
use qin_db.Shared.Sets.{contains, contains-nil, contains-remove}
use qin_db.Transaction.{
  Transaction, PageLock, UndoRecord, TransactionManager, WalCalls, txn_id_mod, is_active,
}
use qin_db.Transaction.Locks.{drop_holder, release_held, unlock_page}
use qin_db.Transaction.Lifecycle.{register, begin_transaction, new_transaction, add_undo_record}
use qin_db.Transaction.Views.{holds, notes, notes-insert, holds-drop_holder}
use qin_db.Transaction.Invariant.{Inv, AreLocks-drop_holder}
use qin_db.Transaction.Finish.{state_of-insert, write_wal-Inv}
use qin_db.Transaction.Grants.{notes-found, state_of-found}

module _ {W : Type 0} (m : TransactionManager W) (t p : ℕ) where
  released_agree :
      (txn : Transaction) (lock : PageLock)
      → Maps.lookup t m.transactions ≡ some txn
      → Maps.lookup p m.page_locks ≡ some lock
      → Inv m
      → (u q : ℕ)
      → holds u q (drop_holder t p lock m.page_locks)
        ≡ notes u q (
            Maps.insert t
              (record txn { locked_pages = Sets.remove p txn.locked_pages })
              m.transactions)
  released_agree txn lock ft fp v u q = ground (
    arith,
    holds-drop_holder t p u q lock m.page_locks fp,
    notes-insert t u q (record txn { locked_pages = Sets.remove p txn.locked_pages })
        m.transactions,
    contains-remove p q txn.locked_pages,
    v.agree u q,
    notes-found m t p txn ft q,
    ==_iff t u,
  )

  release_held-Inv :
      (txn : Transaction) (lock : PageLock)
      → Maps.lookup t m.transactions ≡ some txn
      → Maps.lookup p m.page_locks ≡ some lock
      → Inv m
      → Inv (release_held m t p txn lock).0
  unfolding release_held
  release_held-Inv txn lock ft fp v = elim (Bool-cases (contains t lock.holders)) [
    | inr e ↦ rw e v
    | inl e ↦ rw e (
        let txn' : Transaction = record txn { locked_pages = Sets.remove p txn.locked_pages } in
        record {
          agree = released_agree txn lock ft fp v;
          locks = AreLocks-drop_holder t p lock m.page_locks (v.locks p lock fp) v.locks;
          owner = λ u q x. ground (
            arith,
            notes-insert t u q txn' m.transactions,
            state_of-insert t u txn' m.transactions,
            contains-remove p q txn.locked_pages,
            v.owner u q,
            notes-found m t p txn ft q,
            state_of-found m t p txn ft,
            ==_iff t u,
          );
          fresh = λ u h. ground (arith, lookup-insert t u txn' m.transactions, v.fresh u, ft);
        })
  ]

  pub unlock_page-Inv : Inv m → Inv (unlock_page m t p).0
  unfolding unlock_page
  unlock_page-Inv v = elim (Option-cases (Maps.lookup t m.transactions)) [
    | inl ft ↦ rw (ft, unlock_page) v
    | inr (txn, ft) ↦
        rw (ft, unlock_page)
          (elim (Option-cases (Maps.lookup p m.page_locks)) [
            | inl fp ↦ rw (fp, unlock_page) v
            | inr (lock, fp) ↦ rw (fp, unlock_page) (release_held-Inv txn lock ft fp v)
          ])
  ]

module _ {W : Type 0} (m : TransactionManager W) where
  notes_fresh :
      Maps.lookup m.next_txn_id m.transactions ≡ none
      → (q : ℕ) → notes m.next_txn_id q m.transactions ≡ false
  unfolding notes
  notes_fresh e q = rw (e, notes)

  register-Inv : (now : ℕ) → m.next_txn_id + 1 < txn_id_mod → Inv m → Inv (register m now)
  unfolding register
  register-Inv now small v =
      let t = m.next_txn_id in
      let txn : Transaction = new_transaction t now in
      record {
        agree = λ u q. ground (
          arith,
          notes-insert t u q txn m.transactions,
          contains-nil q,
          notes_fresh (v.fresh t (omega arith)) q,
          v.agree u q,
          ==_iff t u,
        );
        locks = v.locks;
        owner = λ u q e. ground (
          arith,
          notes-insert t u q txn m.transactions,
          contains-nil q,
          state_of-insert t u txn m.transactions,
          v.owner u q,
        );
        fresh = λ u h. ground (arith, lookup-insert t u txn m.transactions, v.fresh u);
      }

  -- Ids are not used again as long as the counter does not wrap.
  pub begin_transaction-Inv :
      (calls : WalCalls W) (now : ℕ)
      → m.next_txn_id + 1 < txn_id_mod
      → Inv m
      → Inv (begin_transaction calls m now).0
  unfolding begin_transaction
  begin_transaction-Inv calls now small v =
      write_wal-Inv calls.begin_transaction (register m now) m.next_txn_id
        (register-Inv now small v)

  -- A write to a transaction that leaves its state and its pages alone.
  touch-Inv :
      (t : ℕ) (txn txn' : Transaction)
      → Maps.lookup t m.transactions ≡ some txn
      → txn'.locked_pages ≡ txn.locked_pages
      → txn'.state ≡ txn.state
      → Inv m
      → Inv (record m { transactions = Maps.insert t txn' m.transactions })
  touch-Inv t txn txn' found same_pages same_state v = record {
    agree = λ u q. ground (
      arith,
      notes-insert t u q txn' m.transactions,
      v.agree u q,
      notes-found m t q txn found q,
      ==_iff t u,
    );
    locks = v.locks;
    owner = λ u q e. ground (
      arith,
      notes-insert t u q txn' m.transactions,
      state_of-insert t u txn' m.transactions,
      v.owner u q,
      notes-found m t q txn found q,
      state_of-found m t q txn found,
      ==_iff t u,
    );
    fresh = λ u h. ground (arith, lookup-insert t u txn' m.transactions, v.fresh u, found);
  }

  pub add_undo_record-Inv : (t : ℕ) (undo : UndoRecord) → Inv m → Inv (add_undo_record m t undo)
  unfolding add_undo_record
  add_undo_record-Inv t undo v = elim (Option-cases (Maps.lookup t m.transactions)) [
    | inl e ↦ rw (e, add_undo_record) v
    | inr (txn, e) ↦
        rw (e, add_undo_record)
          (elim (Bool-cases (is_active txn.state)) [
            | inr idle ↦ rw idle v
            | inl a ↦ rw a (touch-Inv t txn _ e refl refl v)
          ])
  ]
