-- ===== src/Transaction/Views.antt =====
-- The transaction table and the lock table as functions, and what each write does to them.
use qin_db.Shared.{
  ℕ, ◌≡◌, refl, Bool, true, false, ◌&&◌, inl, inr, none, some, List, [], ◌∷◌, arith, ◌==◌,
  if◌then◌else◌, Option-cases,
}
use qin_db.Shared.Maps
use qin_db.Shared.Maps.{lookup-insert, lookup-remove}
use qin_db.Shared.Sets
use qin_db.Shared.Sets.{contains, contains-remove}
use qin_db.Transaction.{Transaction, PageLock}
use qin_db.Transaction.Locks.{is_empty, drop_holder, release_page, release_pages}

-- Transaction `t` is among the holders of the lock on page `p`.
unfoldable pub holds : ℕ → ℕ → List (ℕ × PageLock) → Bool
holds t p locks = elim (Maps.lookup p locks) [ none ↦ false | some lock ↦ contains t lock.holders ]

-- Page `p` is among the pages that transaction `t` notes as locked.
unfoldable pub notes : ℕ → ℕ → List (ℕ × Transaction) → Bool
notes t p ts = elim (Maps.lookup t ts) [ none ↦ false | some txn ↦ contains p txn.locked_pages ]

pub holds_found :
    (t p : ℕ) (lock : PageLock) (locks : List (ℕ × PageLock))
    → Maps.lookup p locks ≡ some lock
    → holds t p locks ≡ contains t lock.holders
unfolding holds
holds_found t p lock locks e = rw (e, holds)

pub holds-insert :
    (t p q : ℕ) (lock : PageLock) (locks : List (ℕ × PageLock))
    → holds t q (Maps.insert p lock locks)
      ≡ (if p == q then contains t lock.holders else holds t q locks)
unfolding holds
holds-insert t p q lock locks = ground (arith, lookup-insert p q lock locks)

pub holds-remove :
    (t p q : ℕ) (locks : List (ℕ × PageLock))
    → holds t q (Maps.remove p locks) ≡ (if p == q then false else holds t q locks)
unfolding holds
holds-remove t p q locks = ground (arith, lookup-remove p q locks)

pub notes-insert :
    (t u p : ℕ) (txn : Transaction) (ts : List (ℕ × Transaction))
    → notes u p (Maps.insert t txn ts)
      ≡ (if t == u then contains p txn.locked_pages else notes u p ts)
unfolding notes
notes-insert t u p txn ts = ground (arith, lookup-insert t u txn ts)

contains-is_empty : (a : ℕ) (xs : List ℕ) → is_empty xs ≡ true → contains a xs ≡ false
unfolding contains
contains-is_empty a [] h = refl
contains-is_empty a (x ∷ xs) h = cc

pub holds-drop_holder :
    (t p u q : ℕ) (lock : PageLock) (locks : List (ℕ × PageLock))
    → Maps.lookup p locks ≡ some lock
    → holds u q (drop_holder t p lock locks) ≡ (if p == q && t == u then false else holds u q locks)
unfolding drop_holder holds
holds-drop_holder t p u q lock locks h = ground (
  arith,
  lookup-insert p q (record lock { holders = Sets.remove t lock.holders }) locks,
  lookup-remove p q locks,
  contains-is_empty u (Sets.remove t lock.holders),
  contains-remove t u lock.holders,
)

pub holds-release_page :
    (t p u q : ℕ) (locks : List (ℕ × PageLock))
    → holds u q (release_page t p locks) ≡ (if p == q && t == u then false else holds u q locks)
unfolding release_page holds
holds-release_page t p u q locks = elim (Option-cases (Maps.lookup p locks)) [
  | inl e ↦ rw (e, release_page) (ground arith)
  | inr (lock, e) ↦ rw (e, release_page) (holds-drop_holder t p u q lock locks e)
]

pub holds-release_pages :
    (t : ℕ) (ps : List ℕ) (u q : ℕ) (locks : List (ℕ × PageLock))
    → holds u q (release_pages t ps locks)
      ≡ (if contains q ps && t == u then false else holds u q locks)
unfolding release_pages contains
holds-release_pages t [] u q locks = refl
holds-release_pages t (p ∷ ps) u q locks =
    ground (
      arith,
      holds-release_pages t ps u q (release_page t p locks),
      holds-release_page t p u q locks,
    )
