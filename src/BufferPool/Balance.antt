-- ===== src/BufferPool/Balance.antt =====
-- A user of src/storage/buffer_pool_manager.cpp that gives back every pin it has taken.
use qin_db.Shared.{
  Bool, inl, inr, get_elem?, Option-cases, ==_iff, ℕ, ◌≡◌, refl, ◌∙◌, false, none, some, arith,
}
use qin_db.Shared.Maps
use qin_db.Page.{Page}
use qin_db.BufferPool.Frames.{pins_at-set, pins_at-found}
use qin_db.BufferPool.{Frame, put_frame, BufferPool, fetch_page, unpin_page}
use qin_db.BufferPool.Calls.{DiskCalls}
use qin_db.BufferPool.Invariant.{IsPool, put_frame_same-IsPool}
use qin_db.BufferPool.Fetching.{fetch_page-Safe}
use qin_db.BufferPool.Returning.{unpin_page-Sound}
use qin_db.BufferPool.Pins.{pins_of, fetch_page-pins, unpin_page-pins}

-- The invariant of the pool, and no pin of any page more or less than before.
abbrev pub Balanced : {D : Type 0} → BufferPool D → BufferPool D → Type 0
Balanced b b' = IsPool b' × ((q : ℕ) → pins_of q b' ≡ pins_of q b)

pub Balanced-refl : {D : Type 0} (b : BufferPool D) → IsPool b → Balanced b b
Balanced-refl b v = (v, λ q. refl)

pub Balanced-trans :
    {D : Type 0} (a b c : BufferPool D) → Balanced a b → Balanced b c → Balanced a c
Balanced-trans a b c ab bc = (bc.0, λ q. bc.1 q ∙ ab.1 q)

module _ {D : Type 0} (calls : DiskCalls D) (id : ℕ) (b : BufferPool D) (v : IsPool b) where
  -- A page that was fetched and is unpinned again has its old pins, as has every other page.
  pub fetch_unpin-Balanced :
      (i : ℕ)
      → (fetch_page calls id b).1 ≡ some i
      → Balanced b (unpin_page id false (fetch_page calls id b).0).0
  fetch_unpin-Balanced i found =
      let b' = (fetch_page calls id b).0 in
      let v' = (fetch_page-Safe calls b id v).0 in
      (
        (unpin_page-Sound b' v' id false).0,
        λ q. ground (
          arith,
          (unpin_page-pins calls b' id q false v').0,
          fetch_page-pins calls b id q v,
          found,
        ),
      )

  -- A page that could not be fetched has no pin more.
  pub fetch_failed-Balanced :
      (fetch_page calls id b).1 ≡ none → Balanced b (fetch_page calls id b).0
  fetch_failed-Balanced failed = (
    (fetch_page-Safe calls b id v).0,
    λ q. ground (arith, fetch_page-pins calls b id q v, failed),
  )

module _ {D : Type 0} (b : BufferPool D) (v : IsPool b) (i : ℕ) (f : Frame)
    (at : get_elem? b.frames i ≡ some f) where
  -- New bytes in a frame change no pins.
  pub put_page-Balanced : (page : Page) → Balanced b (put_frame i (record f { page = page }) b)
  unfolding pins_of
  put_page-Balanced page =
      let g : Frame = record f { page = page } in
      (
        put_frame_same-IsPool b i f g at refl refl v,
        λ q. elim (Option-cases (Maps.lookup q b.page_table)) [
          | inl absent ↦ rw (absent, pins_of) refl
          | inr (j, found) ↦
              rw (found, pins_of)
                (ground (
                  arith,
                  pins_at-set b.frames i f at g j,
                  pins_at-found b.frames i f at,
                  ==_iff i j,
                ))
        ],
      )

module _ {D : Type 0} (calls : DiskCalls D) (id : ℕ) (b : BufferPool D) (v : IsPool b) where
  -- A page that was fetched, overwritten and unpinned again has its old pins.
  pub fetch_put_unpin-Balanced :
      (i : ℕ) (f : Frame) (page : Page) (dirty : Bool)
      → (fetch_page calls id b).1 ≡ some i
      → get_elem? (fetch_page calls id b).0.frames i ≡ some f
      → Balanced b
          (unpin_page id dirty (put_frame i (record f { page = page }) (fetch_page calls id b).0)).0
  fetch_put_unpin-Balanced i f page dirty found at =
      let b' = (fetch_page calls id b).0 in
      let v' = (fetch_page-Safe calls b id v).0 in
      let put = put_page-Balanced b' v' i f at page in
      let c = put_frame i (record f { page = page }) b' in
      (
        (unpin_page-Sound c put.0 id dirty).0,
        λ q. ground (
          arith,
          (unpin_page-pins calls c id q dirty put.0).0,
          put.1 q,
          fetch_page-pins calls b id q v,
          found,
        ),
      )
