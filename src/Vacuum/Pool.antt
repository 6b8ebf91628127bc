-- ===== src/Vacuum/Pool.antt =====
-- cleanupTable of src/storage/vacuum.cpp and the pages of the buffer pool.
use qin_db.Shared.{ℕ, zero, suc, ◌+◌, not, inl, inr, ◌==◌, Bool, Bool-cases, Option-cases}
use qin_db.Page.{get_next_page_id}
use qin_db.Visibility.{RecordHeader}
use qin_db.BufferPool.{BufferPool, put_frame, fetch_page, unpin_page}
use qin_db.BufferPool.Calls.{DiskCalls}
use qin_db.BufferPool.Frames.{frame_of_page}
use qin_db.BufferPool.Invariant.{IsPool}
use qin_db.BufferPool.Fetching.{fetch_page-Safe}
use qin_db.BufferPool.Pins.{fetch_page-lookup}
use qin_db.BufferPool.Balance.{
  Balanced, Balanced-refl, Balanced-trans, fetch_failed-Balanced, fetch_put_unpin-Balanced,
}
use qin_db.Vacuum.{clean_page, cleanup_table}

module _ {D : Type 0} (calls : DiskCalls D) (test : RecordHeader → Bool) where
  -- If the pool satisfies its invariant, cleaning a table keeps it and leaves every page with as many
  -- pins as before, wherever the loop stops.
  pub cleanup_table-Balanced :
      (rounds id removed : ℕ) (b : BufferPool D)
      → IsPool b
      → Balanced b (cleanup_table calls test rounds id removed b).0
  unfolding cleanup_table
  cleanup_table-Balanced zero id removed b v = Balanced-refl b v
  cleanup_table-Balanced (suc rounds) id removed b v =
      let b' = (fetch_page calls id b).0 in
      let v' = (fetch_page-Safe calls b id v).0 in
      elim (Bool-cases (id == 0)) [
        | inl end ↦ rw (end, cleanup_table) (Balanced-refl b v)
        | inr more ↦ elim (Option-cases (fetch_page calls id b).1) [
          | inl failed ↦
              rw (more, failed, cleanup_table) (fetch_failed-Balanced calls id b v failed)
          | inr (i, found) ↦
              let e = fetch_page-lookup calls b id i found in
              let (f, at, same) = frame_of_page b'.frames i id (v'.fits.table id i e).0 in
              let (page, count) = clean_page test f.page in
              let back =
                fetch_put_unpin-Balanced calls id b v i f page (not (count == 0)) found at in
              let c =
                (unpin_page id (not (count == 0)) (put_frame i (record f { page = page }) b')).0 in
              rw (more, found, at, cleanup_table)
                (Balanced-trans b c _ back (
                  cleanup_table-Balanced rounds (get_next_page_id page) (removed + count) c back.0))
        ]
      ]
