-- ===== src/Transaction/Conflicts.antt =====
-- Which requests of lockPage are granted, and when its loop ends.
use qin_db.Shared.{
  ℕ, ◌≡◌, ◌≢◌, subst, true, false, ◌&&◌, ◌⊎◌, inl, inr, none, some, [], ◌∷◌, arith, ◌==◌,
  if◌then◌else◌, length, Option-cases, Bool-cases, ==_iff,
}
use qin_db.Shared.Maps
use qin_db.Shared.Maps.{lookup-insert}
use qin_db.Shared.Sets
use qin_db.Shared.Sets.{contains, contains-insert, contains_one, contains-nil}
use qin_db.Transaction.{
  Transaction, TransactionState, PageLock, LockType, TransactionManager, is_active, is_shared,
  is_exclusive, is_lock_compatible,
}
use qin_db.Transaction.Locks.{
  Attempt, granted, refused, blocked, grant, share, on_existing, request, attempt,
}
use qin_db.Transaction.Lifecycle.{state_of}
use qin_db.Transaction.Views.{holds, holds-insert, holds_found}
use qin_db.Transaction.Invariant.{Inv}
use qin_db.Transaction.Outcomes.{active-found}

module _ {W : Type 0} (m : TransactionManager W) (t p : ℕ) where
  -- The request cannot be met beside the lock of another holder.
  abbrev pub Conflicts : LockType → PageLock → Type 0
  Conflicts ty lock = (ty ≡ LockType.exclusive) ⊎ (lock.lock_type ≡ LockType.exclusive)

  share-blocked :
      (txn : Transaction) (ty : LockType) (lock : PageLock)
      → Conflicts ty lock
      → share m t txn p ty lock ≡ blocked
  unfolding share is_lock_compatible
  share-blocked txn ty lock c = ground arith

  on_existing-blocked :
      (u : ℕ) (txn : Transaction) (ty : LockType) (lock : PageLock)
      → Inv m
      → u ≢ t
      → Maps.lookup p m.page_locks ≡ some lock
      → contains u lock.holders ≡ true
      → Conflicts ty lock
      → on_existing m t txn p ty lock ≡ blocked
  unfolding on_existing
  on_existing-blocked u txn ty lock v ne e hu c =
      ground (
        arith,
        share-blocked txn ty lock c,
        (v.locks p lock e).single,
        contains_one t u lock.holders,
      )

  -- While another transaction holds the page, a request of an active transaction that wants or meets
  -- an exclusive lock is not granted but waits.
  pub attempt-blocked :
      (u : ℕ) (ty : LockType) (lock : PageLock)
      → Inv m
      → state_of t m.transactions ≡ TransactionState.active
      → u ≢ t
      → Maps.lookup p m.page_locks ≡ some lock
      → contains u lock.holders ≡ true
      → Conflicts ty lock
      → attempt m t p ty ≡ blocked
  unfolding attempt request
  attempt-blocked u ty lock v h ne e hu c =
      let (txn, f, a) = active-found t m.transactions h in
      ground (arith, f, a, e, on_existing-blocked u txn ty lock v ne e hu c)

  -- What a granted request changes.
  pub record Granted (ty : LockType) (m' : TransactionManager W) : Type 0 where
    pub held :
        (u q : ℕ)
        → holds u q m'.page_locks ≡ (if p == q && t == u then true else holds u q m.page_locks)
    pub strong :
        (lock : PageLock)
        → Maps.lookup p m'.page_locks ≡ some lock
        → ty ≡ LockType.exclusive
        → lock.lock_type ≡ LockType.exclusive

  abbrev Grants : LockType → Attempt W → Type 0
  Grants ty (granted m') = Granted ty m'
  Grants ty refused = Unit
  Grants ty blocked = Unit

  grant-Granted :
      (txn : Transaction) (ty : LockType) (lock : PageLock)
      → (ty ≡ LockType.exclusive → lock.lock_type ≡ LockType.exclusive)
      → ((u : ℕ) → contains u lock.holders ≡ (if t == u then true else holds u p m.page_locks))
      → Granted ty (grant m t txn p lock)
  unfolding grant
  grant-Granted txn ty lock strong who = record {
    held = λ u q. ground (arith, holds-insert u p q lock m.page_locks, who u, ==_iff p q);
    strong = λ other e x. ground (arith, lookup-insert p p lock m.page_locks, strong x);
  }

  fits :
      (ty : LockType) (lock : PageLock)
      → is_lock_compatible lock ty ≡ true
      → ty ≡ LockType.exclusive
      → lock.lock_type ≡ LockType.exclusive
  unfolding is_lock_compatible
  fits ty lock fit x = ground arith

  alone :
      Maps.lookup p m.page_locks ≡ none
      → (u : ℕ) → contains u (t ∷ []) ≡ (if t == u then true else holds u p m.page_locks)
  unfolding contains holds
  alone f u = ground arith

  share-Grants :
      (txn : Transaction) (ty : LockType) (lock : PageLock)
      → Maps.lookup p m.page_locks ≡ some lock
      → Grants ty (share m t txn p ty lock)
  unfolding share
  share-Grants txn ty lock e = elim (Bool-cases (is_lock_compatible lock ty)) [
    | inr no_fit ↦ rw no_fit tt
    | inl fit ↦ rw fit (grant-Granted txn ty _ (fits ty lock fit) who)
  ]
    where
      who :
          (u : ℕ)
          → contains u (Sets.insert t lock.holders)
            ≡ (if t == u then true else holds u p m.page_locks)
      who u = rw (holds_found u p lock m.page_locks e) (contains-insert t u lock.holders)

  on_existing-Grants :
      (txn : Transaction) (ty : LockType) (lock : PageLock)
      → Maps.lookup p m.page_locks ≡ some lock
      → Grants ty (on_existing m t txn p ty lock)
  unfolding on_existing
  on_existing-Grants txn ty lock e = elim (Bool-cases (contains t lock.holders)) [
    | inr other ↦ rw other (share-Grants txn ty lock e)
    | inl mine ↦ rw mine (elim (Bool-cases (is_shared lock.lock_type && is_exclusive ty)) [
      | inr same ↦ rw same (kept mine same)
      | inl up ↦ rw up (elim (Bool-cases (length lock.holders == 1)) [
        | inr many ↦ rw many (share-Grants txn ty lock e)
        | inl one ↦ rw one (upgraded mine)
      ])
    ])
  ]
    where
      kept :
          contains t lock.holders ≡ true
          → (is_shared lock.lock_type && is_exclusive ty) ≡ false
          → Granted ty m
      kept mine same = record {
        held = λ u q. ground (arith, ==_iff p q, ==_iff t u, holds_found t p lock m.page_locks e);
        strong = λ other eo x. ground arith;
      }

      upgraded :
          contains t lock.holders ≡ true
          → Granted ty (record m {
            page_locks =
                Maps.insert p (record lock { lock_type = LockType.exclusive }) m.page_locks;
          })
      upgraded mine = record {
        held = λ u q. ground (
          arith,
          holds-insert u p q (record lock { lock_type = LockType.exclusive }) m.page_locks,
          holds_found u p lock m.page_locks e,
          ==_iff p q,
          ==_iff t u,
        );
        strong = λ other eo x. ground (
          arith,
          lookup-insert p p (record lock { lock_type = LockType.exclusive }) m.page_locks,
        );
      }

  attempt-Grants : (ty : LockType) → Grants ty (attempt m t p ty)
  unfolding attempt request
  attempt-Grants ty = elim (Option-cases (Maps.lookup t m.transactions)) [
    | inl e ↦ rw (e, attempt) tt
    | inr (txn, e) ↦
        rw (e, attempt)
          (elim (Bool-cases (is_active txn.state)) [
            | inr idle ↦ rw idle tt
            | inl a ↦ rw a (elim (Option-cases (Maps.lookup p m.page_locks)) [
              | inl f ↦ rw (f, request) (grant-Granted txn ty _ (λ x. x) (alone f))
              | inr (lock, f) ↦ rw (f, request) (on_existing-Grants txn ty lock f)
            ])
          ])
  ]

  -- A granted request makes the transaction a holder of the page and changes no other holder of any
  -- page; after a granted request for an exclusive lock the lock of the page is exclusive.
  pub attempt-Granted :
      (ty : LockType) (m' : TransactionManager W) → attempt m t p ty ≡ granted m' → Granted ty m'
  attempt-Granted ty m' e = subst (Grants ty) e (attempt-Grants ty)
