-- ===== src/TableCache/Scanning.antt =====
-- The pages that src/cache/table_cache.cpp reads through the buffer pool.
use qin_db.Shared.{
  ℕ, zero, suc, ◌+◌, refl, ◌∙◌, false, inl, inr, Option, List, [], ◌==◌, Bool-cases, Option-cases,
  ltb,
}
use qin_db.Page.{Page, page_size, get_next_page_id}
use qin_db.Visibility.{RecordHeader}
use qin_db.BufferPool.{BufferPool, fetch_page, unpin_page}
use qin_db.BufferPool.Calls.{DiskCalls}
use qin_db.BufferPool.Frames.{frame_of_page}
use qin_db.BufferPool.Invariant.{IsPool}
use qin_db.BufferPool.Fetching.{fetch_page-Safe}
use qin_db.BufferPool.Balance.{Balanced, fetch_unpin-Balanced, fetch_failed-Balanced}
use qin_db.BufferPool.Pins.{fetch_page-lookup}
use qin_db.TableCache.{
  TableCache, scan_pages, estimate_table_size, load_table, max_pages, add_records,
}

module _ {D A : Type 0} (calls : DiskCalls D) (visit : Page → A → A) where
  pub scan_pages-Balanced :
      (rounds id : ℕ) (a : A) (b : BufferPool D)
      → IsPool b
      → Balanced b (scan_pages calls visit rounds id a b).0
  unfolding scan_pages
  scan_pages-Balanced zero id a b v = (v, λ q. refl)
  scan_pages-Balanced (suc rounds) id a b v =
      let b' = (fetch_page calls id b).0 in
      let v' = (fetch_page-Safe calls b id v).0 in
      elim (Bool-cases (id == 0)) [
        | inl end ↦ rw (end, scan_pages) (v, λ q. refl)
        | inr more ↦ elim (Option-cases (fetch_page calls id b).1) [
          | inl failed ↦ rw (more, failed, scan_pages) (fetch_failed-Balanced calls id b v failed)
          | inr (i, found) ↦
              let e = fetch_page-lookup calls b id i found in
              let (f, at, same) = frame_of_page b'.frames i id (v'.fits.table id i e).0 in
              let back = fetch_unpin-Balanced calls id b v i found in
              let rest =
                scan_pages-Balanced rounds (get_next_page_id f.page) (visit f.page a)
                  (unpin_page id false b').0 back.0 in
              rw (more, found, at, scan_pages) (rest.0, λ q. rest.1 q ∙ back.1 q)
        ]
      ]

module _ {D : Type 0} (calls : DiskCalls D) where
  estimate-Balanced :
      (first : ℕ) (b : BufferPool D) → IsPool b → Balanced b (estimate_table_size calls first b).0
  unfolding estimate_table_size
  estimate-Balanced first b v =
      scan_pages-Balanced calls (λ page total. total + page_size) max_pages first 0 b v

module _ {D R : Type 0} (calls : DiskCalls D) where
  -- Loading a table reads its pages through the pool and gives every pin back: whether the table is
  -- cached, is too large, or a page cannot be read, the pool keeps its invariant, and every page is
  -- pinned as often as before.
  pub load_table-Balanced :
      (records : Page → Option (List R × List RecordHeader)) (estimate : List R → ℕ)
      (now key first : ℕ) (b : BufferPool D) (c : TableCache R)
      → IsPool b
      → Balanced b (load_table calls records estimate now key first b c).0.0
  unfolding load_table
  load_table-Balanced records estimate now key first b c v =
      let size = estimate-Balanced calls first b v in
      let b' = (estimate_table_size calls first b).0 in
      let start : List R × List RecordHeader = ([], []) in
      let read = scan_pages-Balanced calls (add_records records) max_pages first start b' size.0 in
      elim (Bool-cases c.enabled) [
        | inr off ↦ rw off (v, λ q. refl)
        | inl on ↦
            rw on
              (elim (Bool-cases
                (ltb c.max_table_size_bytes (estimate_table_size calls first b).1)) [
                  | inl large ↦ rw large size
                  | inr fits ↦ rw fits (read.0, λ q. read.1 q ∙ size.1 q)
                ])
      ]
