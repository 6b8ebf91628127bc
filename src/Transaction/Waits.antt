-- ===== src/Transaction/Waits.antt =====
-- The waiting loop of lockPage: it ends by its timeout, and what it returns.
use qin_db.Shared.{
  ℕ, ◌+◌, ◌<◌, ◌≡◌, refl, subst, Bool, true, false, ◌&&◌, ◌||◌, ◌⊎◌, inl, inr, Option, none, some,
  List, [], ◌∷◌, arith, ltb, leb, Bool-cases, ==_refl,
}
use qin_db.Transaction.{TransactionManager, LockType}
use qin_db.Transaction.Locks.{Attempt, granted, refused, blocked, attempt, lock_page}
use qin_db.Transaction.Views.{holds}
use qin_db.Transaction.Invariant.{Inv}
use qin_db.Transaction.Grants.{Keeps, attempt-Keeps}
use qin_db.Transaction.Conflicts.{attempt-Granted}

-- The clock passes `limit` in some round.
abbrev pub reaches {ℓ} : {A : Type ℓ} → ℕ → List (ℕ × A) → Bool
reaches limit [] = false
reaches limit ((now, next) ∷ rounds) = leb limit now || reaches limit rounds

-- Every manager found after a sleep satisfies `P`.
abbrev pub Finds {ℓ κ} : {A : Type ℓ} → (A → Type κ) → List (ℕ × A) → Type κ
Finds P [] = Unit
Finds P ((now, next) ∷ rounds) = P next × Finds P rounds

module _ {W : Type 0} (t p : ℕ) (ty : LockType) (timeout start : ℕ) where
  pub Attempt-cases :
      (m : TransactionManager W)
      → ((m' : TransactionManager W) × (attempt m t p ty ≡ granted m'))
        ⊎ ((attempt m t p ty ≡ refused) ⊎ (attempt m t p ty ≡ blocked))
  Attempt-cases m = go (attempt m t p ty) refl
    where
      go :
          (a : Attempt W)
          → attempt m t p ty ≡ a
          → ((m' : TransactionManager W) × (attempt m t p ty ≡ granted m'))
            ⊎ ((attempt m t p ty ≡ refused) ⊎ (attempt m t p ty ≡ blocked))
      go (granted m') e = inl (m', e)
      go refused e = inr (inl e)
      go blocked e = inr (inr e)

  -- With a positive timeout the call returns as soon as the clock has passed it, whatever the other
  -- threads do meanwhile.
  pub lock_page_ends :
      (m : TransactionManager W) (rounds : List (ℕ × TransactionManager W))
      → 0 < timeout
      → reaches (start + timeout) rounds ≡ true
      → (r : TransactionManager W × Bool) × (lock_page t p ty timeout start m rounds ≡ some r)
  unfolding lock_page
  lock_page_ends m [] pos late = cc
  lock_page_ends m ((now, next) ∷ rounds) pos late = elim (Attempt-cases m) [
    | inl (m', e) ↦ ((m', true), rw (e, lock_page))
    | inr (inl e) ↦ ((m, false), rw (e, lock_page))
    | inr (inr e) ↦
        rw (e, lock_page)
          (elim (Bool-cases (ltb 0 timeout && leb (start + timeout) now)) [
            | inl over ↦ ((m, false), rw over)
            | inr early ↦ rw early (lock_page_ends next rounds pos (ground arith))
          ])
  ]

  -- What a call of lockPage may return.
  abbrev Result : Option (TransactionManager W × Bool) → Type 0
  Result none = Unit
  Result (some (m', ok)) = Inv m' × (ok ≡ true → holds t p m'.page_locks ≡ true)

  granted-Result :
      (m m' : TransactionManager W)
      → Inv m
      → attempt m t p ty ≡ granted m'
      → Result (some (m', true))
  granted-Result m m' v e = (
    subst Keeps e (attempt-Keeps m t p ty v),
    λ x. ground (arith, (attempt-Granted m t p ty m' e).held t p, ==_refl t, ==_refl p),
  )

  lock_page-Result :
      (m : TransactionManager W) (rounds : List (ℕ × TransactionManager W))
      → Inv m
      → Finds Inv rounds
      → Result (lock_page t p ty timeout start m rounds)
  unfolding lock_page
  lock_page-Result m [] v vs = elim (Attempt-cases m) [
    | inl (m', e) ↦ rw (e, lock_page) (granted-Result m m' v e)
    | inr (inl e) ↦ rw (e, lock_page) (v, λ x. cc)
    | inr (inr e) ↦ rw (e, lock_page) tt
  ]
  lock_page-Result m ((now, next) ∷ rounds) v vs = elim (Attempt-cases m) [
    | inl (m', e) ↦ rw (e, lock_page) (granted-Result m m' v e)
    | inr (inl e) ↦ rw (e, lock_page) (v, λ x. cc)
    | inr (inr e) ↦
        rw (e, lock_page)
          (elim (Bool-cases (ltb 0 timeout && leb (start + timeout) now)) [
            | inl over ↦ rw over (v, λ x. cc)
            | inr early ↦ rw early (lock_page-Result next rounds vs.0 vs.1)
          ])
  ]

  -- If the invariant holds at the call and after each sleep, it holds when the call returns, and a
  -- call that returns true has made the transaction a holder of the page.
  pub lock_page-Inv :
      (m m' : TransactionManager W) (rounds : List (ℕ × TransactionManager W)) (ok : Bool)
      → Inv m
      → Finds Inv rounds
      → lock_page t p ty timeout start m rounds ≡ some (m', ok)
      → Inv m' × (ok ≡ true → holds t p m'.page_locks ≡ true)
  lock_page-Inv m m' rounds ok v vs e = subst Result e (lock_page-Result m rounds v vs)
