-- ===== src/Transaction/Invariant.antt =====
-- The invariant of TransactionManager, over its two tables and its id counter.
use qin_db.Shared.{
  ℕ, ◌≤◌, ◌≡◌, ◌≢◌, refl, subst, true, false, inl, inr, Option, none, some, List, [], ◌∷◌, arith,
  ◌==◌, length, Option-cases, Bool-cases,
}
use qin_db.Shared.Maps
use qin_db.Shared.Maps.{lookup-insert, lookup-remove}
use qin_db.Shared.Sets
use qin_db.Shared.Sets.{contains, contains-insert, contains-remove, length-remove_le}
use qin_db.Transaction.{TransactionState, PageLock, LockType, TransactionManager, init}
use qin_db.Transaction.Locks.{drop_holder, release_page, release_pages, is_empty}
use qin_db.Transaction.Lifecycle.{state_of}
use qin_db.Transaction.Views.{holds, notes}

-- A lock in the table has a holder, and an exclusive lock has one alone.
pub record IsLock (lock : PageLock) : Type 0 where
  pub held : lock.holders ≢ []
  pub single : lock.lock_type ≡ LockType.exclusive → length lock.holders ≡ 1

abbrev pub AreLocks : List (ℕ × PageLock) → Type 0
AreLocks locks = (p : ℕ) (lock : PageLock) → Maps.lookup p locks ≡ some lock → IsLock lock

-- The lock table and the transactions agree on who holds what, the locks are well formed, only
-- active transactions hold locks, and the ids from the counter on are unused.
pub record Inv {W : Type 0} (m : TransactionManager W) : Type 0 where
  pub agree : (t p : ℕ) → holds t p m.page_locks ≡ notes t p m.transactions
  pub locks : AreLocks m.page_locks
  pub owner :
      (t p : ℕ)
      → notes t p m.transactions ≡ true
      → state_of t m.transactions ≡ TransactionState.active
  pub fresh : (t : ℕ) → m.next_txn_id ≤ t → Maps.lookup t m.transactions ≡ none

pub AreLocks-insert :
    (p : ℕ) (lock : PageLock) (locks : List (ℕ × PageLock))
    → IsLock lock
    → AreLocks locks
    → AreLocks (Maps.insert p lock locks)
AreLocks-insert p lock locks new old q other e = elim (Bool-cases (p == q)) [
  | inl hit ↦
      let same : lock ≡ other = ground (arith, lookup-insert p q lock locks) in
      subst IsLock same new
  | inr miss ↦ old q other (ground (arith, lookup-insert p q lock locks))
]

pub AreLocks-remove :
    (p : ℕ) (locks : List (ℕ × PageLock)) → AreLocks locks → AreLocks (Maps.remove p locks)
AreLocks-remove p locks old q other e = old q other (ground (arith, lookup-remove p q locks))

is_empty-false : (xs : List ℕ) → is_empty xs ≡ false → (xs ≢ []) × (1 ≤ length xs)
is_empty-false [] e = cc
is_empty-false (x ∷ xs) e = (λ h. cc, omega arith)

IsLock-remove :
    (t : ℕ) (lock : PageLock)
    → is_empty (Sets.remove t lock.holders) ≡ false
    → IsLock lock
    → IsLock (record lock { holders = Sets.remove t lock.holders })
IsLock-remove t lock e v = record {
  held = (is_empty-false _ e).0;
  single = λ x. omega (arith, v.single x, (is_empty-false _ e).1, length-remove_le t lock.holders);
}

pub AreLocks-drop_holder :
    (t p : ℕ) (lock : PageLock) (locks : List (ℕ × PageLock))
    → IsLock lock
    → AreLocks locks
    → AreLocks (drop_holder t p lock locks)
unfolding drop_holder
AreLocks-drop_holder t p lock locks v old =
    elim (Bool-cases (is_empty (Sets.remove t lock.holders))) [
      | inl e ↦ rw e (AreLocks-remove p locks old)
      | inr e ↦ rw e (AreLocks-insert p _ locks (IsLock-remove t lock e v) old)
    ]

AreLocks-release_page :
    (t p : ℕ) (locks : List (ℕ × PageLock)) → AreLocks locks → AreLocks (release_page t p locks)
unfolding release_page
AreLocks-release_page t p locks old = elim (Option-cases (Maps.lookup p locks)) [
  | inl e ↦ rw (e, release_page) old
  | inr (lock, e) ↦ rw (e, release_page) (AreLocks-drop_holder t p lock locks (old p lock e) old)
]

pub AreLocks-release_pages :
    (t : ℕ) (ps : List ℕ) (locks : List (ℕ × PageLock))
    → AreLocks locks
    → AreLocks (release_pages t ps locks)
unfolding release_pages
AreLocks-release_pages t [] locks old = old
AreLocks-release_pages t (p ∷ ps) locks old =
    AreLocks-release_pages t ps _ (AreLocks-release_page t p locks old)

pub init-Inv : {W : Type 0} (w : Option W) → Inv (init w)
unfolding init holds notes Maps.lookup
init-Inv w = record {
  agree = λ t p. refl;
  locks = λ p lock e. cc;
  owner = λ t p e. cc;
  fresh = λ t h. refl;
}
