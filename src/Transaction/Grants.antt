-- ===== src/Transaction/Grants.antt =====
-- The invariant through a round of lockPage.
use qin_db.Shared.{
  ℕ, ◌≡◌, refl, true, ◌&&◌, inl, inr, none, some, [], ◌∷◌, arith, ◌==◌, if◌then◌else◌, length,
  Option-cases, Bool-cases, ==_iff,
}
use qin_db.Shared.Maps
use qin_db.Shared.Maps.{lookup-insert}
use qin_db.Shared.Sets
use qin_db.Shared.Sets.{contains, contains-insert, contains-remove, contains-ne-nil}
use qin_db.Transaction.{
  Transaction, TransactionState, PageLock, LockType, TransactionManager, is_active, is_shared,
  is_exclusive, is_lock_compatible,
}
use qin_db.Transaction.Locks.{
  Attempt, granted, refused, blocked, grant, share, on_existing, request, attempt,
}
use qin_db.Transaction.Lifecycle.{state_of}
use qin_db.Transaction.Views.{holds, notes, holds-insert, notes-insert}
use qin_db.Transaction.Invariant.{Inv, IsLock, AreLocks-insert}
use qin_db.Transaction.Finish.{state_of-insert}

-- What a round of lockPage may end in when the invariant holds.
abbrev pub Keeps : {W : Type 0} → Attempt W → Type 0
Keeps (granted m') = Inv m'
Keeps refused = Unit
Keeps blocked = Unit

module _ {W : Type 0} (m : TransactionManager W) (t p : ℕ) (txn : Transaction)
    (found : Maps.lookup t m.transactions ≡ some txn) where
  pub notes-found : (q : ℕ) → notes t q m.transactions ≡ contains q txn.locked_pages
  unfolding notes
  notes-found q = rw (found, notes)

  pub state_of-found : state_of t m.transactions ≡ txn.state
  unfolding state_of
  state_of-found = rw (found, state_of)

  grant-Inv :
      (lock : PageLock)
      → txn.state ≡ TransactionState.active
      → IsLock lock
      → ((u : ℕ) → contains u lock.holders ≡ (if t == u then true else holds u p m.page_locks))
      → Inv m
      → Inv (grant m t txn p lock)
  unfolding grant
  grant-Inv lock a ok who v =
      let txn' : Transaction = record txn { locked_pages = Sets.insert p txn.locked_pages } in
      record {
        agree = λ u q. ground (
          arith,
          holds-insert u p q lock m.page_locks,
          notes-insert t u q txn' m.transactions,
          contains-insert p q txn.locked_pages,
          who u,
          v.agree u q,
          notes-found q,
          ==_iff t u,
          ==_iff p q,
        );
        locks = AreLocks-insert p lock m.page_locks ok v.locks;
        owner = λ u q e. ground (
          arith,
          notes-insert t u q txn' m.transactions,
          state_of-insert t u txn' m.transactions,
          v.owner u q,
          a,
        );
        fresh = λ u h. ground (arith, lookup-insert t u txn' m.transactions, v.fresh u, found);
      }

  shared-IsLock :
      (ty : LockType) (lock : PageLock)
      → is_lock_compatible lock ty ≡ true
      → IsLock (record lock { holders = Sets.insert t lock.holders })
  unfolding is_lock_compatible
  shared-IsLock ty lock fit = record {
    held =
        contains-ne-nil t (Sets.insert t lock.holders)
          (ground (arith, contains-insert t t lock.holders));
    single = λ x. ground arith;
  }

  held_by :
      (lock : PageLock)
      → Maps.lookup p m.page_locks ≡ some lock
      → (u : ℕ) → holds u p m.page_locks ≡ contains u lock.holders
  unfolding holds
  held_by lock e u = rw (e, holds)

  joined :
      (lock : PageLock)
      → Maps.lookup p m.page_locks ≡ some lock
      → (u : ℕ)
      → contains u (Sets.insert t lock.holders) ≡ (if t == u then true else holds u p m.page_locks)
  unfolding holds
  joined lock e u = rw (e, holds) (contains-insert t u lock.holders)

  share-Keeps :
      (ty : LockType) (lock : PageLock)
      → Maps.lookup p m.page_locks ≡ some lock
      → txn.state ≡ TransactionState.active
      → Inv m
      → Keeps (share m t txn p ty lock)
  unfolding share
  share-Keeps ty lock e a v = elim (Bool-cases (is_lock_compatible lock ty)) [
    | inr no_fit ↦ rw no_fit tt
    | inl fit ↦ rw fit (grant-Inv _ a (shared-IsLock ty lock fit) (joined lock e) v)
  ]

  upgrade-Inv :
      (lock : PageLock)
      → Maps.lookup p m.page_locks ≡ some lock
      → (length lock.holders == 1) ≡ true
      → Inv m
      → Inv (record m {
        page_locks = Maps.insert p (record lock { lock_type = LockType.exclusive }) m.page_locks;
      })
  upgrade-Inv lock e one v =
      let lock' : PageLock = record lock { lock_type = LockType.exclusive } in
      record {
        agree = λ u q. ground (
          arith,
          holds-insert u p q lock' m.page_locks,
          held_by lock e u,
          v.agree u q,
          ==_iff p q,
        );
        locks =
            AreLocks-insert p lock' m.page_locks
              (record { held = (v.locks p lock e).held; single = λ x. ground arith }) v.locks;
        owner = v.owner;
        fresh = v.fresh;
      }

  alone-IsLock : (ty : LockType) → IsLock (record { page_id = p; lock_type = ty; holders = t ∷ [] })
  alone-IsLock ty = record { held = λ x. cc; single = λ x. refl }

  alone :
      Maps.lookup p m.page_locks ≡ none
      → (u : ℕ) → contains u (t ∷ []) ≡ (if t == u then true else holds u p m.page_locks)
  unfolding contains holds
  alone e u = ground arith

  on_existing-Keeps :
      (ty : LockType) (lock : PageLock)
      → Maps.lookup p m.page_locks ≡ some lock
      → txn.state ≡ TransactionState.active
      → Inv m
      → Keeps (on_existing m t txn p ty lock)
  unfolding on_existing
  on_existing-Keeps ty lock e a v = elim (Bool-cases (contains t lock.holders)) [
    | inr other ↦ rw other (share-Keeps ty lock e a v)
    | inl mine ↦ rw mine (elim (Bool-cases (is_shared lock.lock_type && is_exclusive ty)) [
      | inr same ↦ rw same v
      | inl up ↦ rw up (elim (Bool-cases (length lock.holders == 1)) [
        | inr many ↦ rw many (share-Keeps ty lock e a v)
        | inl one ↦ rw one (upgrade-Inv lock e one v)
      ])
    ])
  ]

  request-Keeps :
      (ty : LockType) → txn.state ≡ TransactionState.active → Inv m → Keeps (request m t txn p ty)
  unfolding request
  request-Keeps ty a v = elim (Option-cases (Maps.lookup p m.page_locks)) [
    | inl e ↦ rw (e, request) (grant-Inv _ a (alone-IsLock ty) (alone e) v)
    | inr (lock, e) ↦ rw (e, request) (on_existing-Keeps ty lock e a v)
  ]

module _ {W : Type 0} (m : TransactionManager W) (t p : ℕ) where
  -- A round of lockPage keeps the invariant, whatever it asks for.
  pub attempt-Keeps : (ty : LockType) → Inv m → Keeps (attempt m t p ty)
  unfolding attempt
  attempt-Keeps ty v = elim (Option-cases (Maps.lookup t m.transactions)) [
    | inl e ↦ rw (e, attempt) tt
    | inr (txn, e) ↦
        rw (e, attempt)
          (elim (Bool-cases (is_active txn.state)) [
            | inr idle ↦ rw idle tt
            | inl a ↦ rw a (request-Keeps m t p txn e ty (ground arith) v)
          ])
  ]
