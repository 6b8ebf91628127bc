-- ===== src/BufferPool/Victim.antt =====
-- findVictim of src/storage/buffer_pool_manager.cpp.
use native.Mathlib.Nat.{add-mod_right, mod-add-mod, mod-eq_of_lt, mod-lt}
use qin_db.Shared.{
  ℕ, zero, suc, ◌+◌, ◌-◌, ◌*◌, ◌%◌, ◌≤◌, ◌<◌, ◌≡◌, sym, ap, ap₂, subst, ◌∙◌, Bool, true, false, not,
  ◌&&◌, ◌⊎◌, inl, inr, Option, none, some, List, arith, ltb, leb, ◌==◌, length, get_elem?,
  get_elem?_of_lt, Bool-cases, Option-cases,
}
use qin_db.BufferPool.{Frame, find_victim_from, find_victim, invalid_page_id}

-- The frame may be taken: nobody has pinned it, and it holds a page.
abbrev pub is_candidate : Frame → Bool
is_candidate f = not (ltb 0 f.pin_count) && not (f.page_id == invalid_page_id)

-- Frame `i` may be taken.
unfoldable pub candidate_at : List Frame → ℕ → Bool
candidate_at frames i = elim (get_elem? frames i) [ none ↦ false | some f ↦ is_candidate f ]

module _ (frames : List Frame) (size : ℕ) where
  -- A victim is a candidate.
  find_victim_from_sound :
      (rounds scanned hand i : ℕ)
      → (find_victim_from rounds scanned size hand frames).1 ≡ some i
      → candidate_at frames i ≡ true
  unfolding find_victim_from candidate_at
  find_victim_from_sound zero scanned hand i e = cc
  find_victim_from_sound (suc rounds) scanned hand i e =
      ground (arith, find_victim_from_sound rounds (scanned + 1) ((hand + 1) % size) i)

  pub find_victim_sound :
      (hand i : ℕ) → (find_victim size hand frames).1 ≡ some i → candidate_at frames i ≡ true
  unfolding find_victim
  find_victim_sound hand i e = find_victim_from_sound (size * 2) 0 hand i e

module _ (frames : List Frame) (size : ℕ) (sized : length frames ≡ size) where
  rest_zero : (hand : ℕ) → hand < size → (hand + 0) % size ≡ hand
  rest_zero hand lt = let z : hand + 0 ≡ hand = omega arith in rw z (mod-eq_of_lt lt)

  step-skip :
      (rounds scanned hand : ℕ)
      → scanned < size
      → hand < size
      → find_victim_from (suc rounds) scanned size hand frames
        ≡ find_victim_from rounds (scanned + 1) size ((hand + 1) % size) frames
  unfolding find_victim_from
  step-skip rounds scanned hand h lt =
      let (f, e) = get_elem?_of_lt frames hand (omega arith) in ground (arith, e)

  next_hand : (hand k : ℕ) → ((hand + 1) % size + k) % size ≡ (hand + suc k) % size
  next_hand hand k =
      let same : hand + 1 + k ≡ hand + suc k = omega arith in
      mod-add-mod (hand + 1) size k ∙ ap (λ n. n % size) same

  -- The first round over the pool takes nothing.
  find_victim_from-skip :
      (k n rounds scanned hand : ℕ)
      → n ≡ k + rounds
      → scanned + k ≤ size
      → hand < size
      → find_victim_from n scanned size hand frames
        ≡ find_victim_from rounds (scanned + k) size ((hand + k) % size) frames
  find_victim_from-skip zero n rounds scanned hand e h lt =
      let n_eq : n ≡ rounds = omega arith in
      let s_eq : scanned + 0 ≡ scanned = omega arith in
      let h_eq : (hand + 0) % size ≡ hand = rest_zero hand lt in rw (n_eq, s_eq, h_eq)
  find_victim_from-skip (suc k) zero rounds scanned hand e h lt = absurd (omega arith)
  find_victim_from-skip (suc k) (suc n) rounds scanned hand e h lt =
      let s_eq : scanned + 1 + k ≡ scanned + suc k = omega arith in
      step-skip n scanned hand (omega arith) lt
      ∙ find_victim_from-skip k n rounds (scanned + 1) ((hand + 1) % size) (omega arith)
          (omega arith) (mod-lt (hand + 1) (omega arith))
      ∙ ap₂ (λ a b. find_victim_from rounds a size b frames) s_eq (next_hand hand k)

  candidate-found :
      (rounds scanned hand : ℕ)
      → size ≤ scanned
      → hand < size
      → (find_victim_from (suc rounds) scanned size hand frames).1 ≡ none
      → (candidate_at frames hand ≡ false)
        × ((find_victim_from rounds (scanned + 1) size ((hand + 1) % size) frames).1 ≡ none)
  unfolding find_victim_from candidate_at
  candidate-found rounds scanned hand h lt e =
      let (f, at) = get_elem?_of_lt frames hand (omega arith) in ground (arith, at)

  -- A second round that takes nothing has met no candidate.
  find_victim_from-none :
      (rounds scanned hand j : ℕ)
      → size ≤ scanned
      → hand < size
      → (find_victim_from rounds scanned size hand frames).1 ≡ none
      → j < rounds
      → candidate_at frames ((hand + j) % size) ≡ false
  find_victim_from-none zero scanned hand j h lt e hj = absurd (omega arith)
  find_victim_from-none (suc rounds) scanned hand zero h lt e hj =
      let same : (hand + 0) % size ≡ hand = rest_zero hand lt in
      rw same (candidate-found rounds scanned hand h lt e).0
  find_victim_from-none (suc rounds) scanned hand (suc j) h lt e hj =
      subst (λ n. candidate_at frames n ≡ false) (next_hand hand j)
        (find_victim_from-none rounds (scanned + 1) ((hand + 1) % size) j (omega arith)
          (mod-lt (hand + 1) (omega arith)) (candidate-found rounds scanned hand h lt e).1
          (omega arith))

  -- Every index is met in a round.
  met : (hand i : ℕ) → hand < size → i < size → (j : ℕ) × (j < size) × ((hand + j) % size ≡ i)
  met hand i lt h = elim (Bool-cases (leb hand i)) [
    | inl after ↦ (
      i - hand,
      ground arith,
      let e : hand + (i - hand) ≡ i = ground arith in rw e (mod-eq_of_lt h),
    )
    | inr before ↦ (
      i + size - hand,
      ground arith,
      let e : hand + (i + size - hand) ≡ i + size = omega arith in
          rw e (add-mod_right i size ∙ mod-eq_of_lt h),
    )
  ]

  -- In a pool of as many frames as its size, with the hand inside it, findVictim returns a frame that
  -- holds a page and that nobody has pinned, and it returns none only if there is no such frame.
  pub find_victim-cases :
      (hand : ℕ)
      → hand < size
      → ((i : ℕ) × ((find_victim size hand frames).1 ≡ some i) × (candidate_at frames i ≡ true))
        ⊎ (((find_victim size hand frames).1 ≡ none)
            × ((i : ℕ) → i < size → candidate_at frames i ≡ false))
  unfolding find_victim
  find_victim-cases hand lt = elim (Option-cases (find_victim size hand frames).1) [
    | inr (i, e) ↦ inl (i, e, find_victim_from_sound frames size (size * 2) 0 hand i e)
    | inl e ↦ inr (e, none_left e)
  ]
    where
      none_left :
          (find_victim size hand frames).1 ≡ none
          → (i : ℕ) → i < size
          → candidate_at frames i ≡ false
      none_left e i h =
          let (j, hj, same) = met hand i lt h in
          let back : (hand + size) % size ≡ hand = add-mod_right hand size ∙ mod-eq_of_lt lt in
          let skipped =
            find_victim_from-skip size (size * 2) size 0 hand (omega arith) (omega arith) lt in
          subst (λ n. candidate_at frames n ≡ false) (ap (λ n. (n + j) % size) back ∙ same)
            (find_victim_from-none size (0 + size) ((hand + size) % size) j (omega arith)
              (mod-lt (hand + size) (omega arith))
              (ap (λ (r : ℕ × Option ℕ). r.1) (sym skipped) ∙ e) hj)
