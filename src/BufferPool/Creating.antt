-- ===== src/BufferPool/Creating.antt =====
-- newPage of src/storage/buffer_pool_manager.cpp.
use qin_db.Shared.{
  ℕ, ◌≡◌, ◌≢◌, refl, inl, inr, Option, none, some, arith, ◌==◌, get_elem?, Bool-cases, ==_iff,
}
use qin_db.Shared.Maps
use qin_db.Shared.Maps.{lookup-insert}
use qin_db.BufferPool.Calls.{DiskCalls}
use qin_db.BufferPool.{
  Frame, BufferPool, new_page, place_new, fill_new, take_frame, invalid_page_id,
}
use qin_db.BufferPool.Frames.{frame_of_pins}
use qin_db.BufferPool.Invariant.{IsPool, IsTaken, fill-IsPool}
use qin_db.BufferPool.Taking.{Kept, Took, take_frame-Took, other-IsPool}
use qin_db.BufferPool.Fetching.{Safe, apart-Stays, Kept-Stays}

module _ {D : Type 0} (calls : DiskCalls D) (b : BufferPool D) where
  fill_new-Safe :
      (p i : ℕ) (f : Frame) (b' : BufferPool D)
      → get_elem? b'.frames i ≡ some f
      → p ≢ invalid_page_id
      → Maps.lookup p b.page_table ≡ none
      → IsTaken i b'
      → Kept b b'
      → Safe b (fill_new calls p i f b').0
  unfolding fill_new
  fill_new-Safe p i f b' at real fresh t k =
      let absent = k.absent p fresh in
      (
        fill-IsPool b' i p f _ at refl real absent t,
        apart-Stays calls b b' i f _ _ at t k
            λ q j e. ground (arith, lookup-insert p q i b'.page_table, ==_iff p q),
      )

  place_new-Safe :
      (p : ℕ) (r : BufferPool D × Option ℕ)
      → p ≢ invalid_page_id
      → Maps.lookup p b.page_table ≡ none
      → Took b r
      → Safe b (place_new calls p r).0
  unfolding place_new
  place_new-Safe p (b', none) real fresh (v, k) = (
    other-IsPool b' (calls.deallocate_page p b'.disk) b'.clock_hand b'.hit_count b'.miss_count v,
    Kept-Stays calls b b' k,
  )
  place_new-Safe p (b', some i) real fresh (t, k) =
      let (f, at, idle) = frame_of_pins b'.frames i 0 t.idle in
      rw (at, place_new) (fill_new-Safe p i f b' at real fresh t k)

module _ {D : Type 0} (calls : DiskCalls D) (b : BufferPool D) where
  -- If the disk allocates the id of a page that is not in the pool, newPage keeps the invariant, and
  -- every page that somebody has pinned stays in its frame with its bytes.
  pub new_page-Safe :
      IsPool b
      → Maps.lookup (calls.allocate_page b.disk).1 b.page_table ≡ none
      → Safe b (new_page calls b).0.0
  unfolding new_page
  new_page-Safe v fresh =
      let r = calls.allocate_page b.disk in
      let b' = record b { disk = r.0 } in
      let v' = other-IsPool b r.0 b.clock_hand b.hit_count b.miss_count v in
      elim (Bool-cases (r.1 == invalid_page_id)) [
        | inl failed ↦ rw failed (v', λ q j e n. (e, refl))
        | inr ok ↦ rw ok (
            place_new-Safe calls b' r.1 (take_frame calls b') (ground arith) fresh
              (take_frame-Took calls b' v'))
      ]
