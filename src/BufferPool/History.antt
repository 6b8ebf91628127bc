-- ===== src/BufferPool/History.antt =====
-- Histories of calls of the buffer pool, from its constructor on.
use qin_db.Shared.{ℕ, ◌≡◌, ◌≢◌, Bool, none, some, arith}
use qin_db.Shared.Maps
use qin_db.BufferPool.Calls.{DiskCalls}
use qin_db.BufferPool.{
  BufferPool, init, fetch_page, new_page, unpin_page, flush_page, flush_all_pages, delete_page,
  evict_page, invalid_page_id,
}
use qin_db.BufferPool.Frames.{page_at}
use qin_db.BufferPool.Invariant.{IsPool}
use qin_db.BufferPool.Start.{init-IsPool}
use qin_db.BufferPool.Fetching.{fetch_page-Safe, Safe}
use qin_db.BufferPool.Creating.{new_page-Safe}
use qin_db.BufferPool.Returning.{
  Sound, unpin_page-Sound, flush_page-Sound, flush_all_pages-Sound, delete_page-Sound,
  evict_page-Sound,
}

module _ {D : Type 0} (calls : DiskCalls D) where
  -- One call. The disk gives newPage the id of a page that is not in the pool.
  pub data Step (b : BufferPool D) : BufferPool D → Type 0 where
    fetches : (p : ℕ) → Step b (fetch_page calls p b).0
    creates :
        Maps.lookup (calls.allocate_page b.disk).1 b.page_table ≡ none
        → Step b (new_page calls b).0.0
    unpins : (p : ℕ) (dirty : Bool) → Step b (unpin_page p dirty b).0
    flushes : (p : ℕ) → Step b (flush_page calls p b).0
    flushes_all : Step b (flush_all_pages calls b)
    deletes : (p : ℕ) → Step b (delete_page calls p b).0
    evicts : (p : ℕ) → Step b (evict_page calls p b).0

  pub data Reach (b : BufferPool D) : BufferPool D → Type 0 where
    here : Reach b b
    next : {c d : BufferPool D} → Reach b c → Step c d → Reach b d

  Safe-Sound : (b c : BufferPool D) → Safe b c → Sound b c
  Safe-Sound b c (v, stays) = (v, λ q j e n. (stays q j e n).0)

  -- Every call on a pool that satisfies the invariant keeps it, and leaves every page that somebody
  -- has pinned in its frame; of newPage this is said where the id that the disk gives is not that of a
  -- page in the pool.
  pub Step-Sound : (b c : BufferPool D) → IsPool b → Step b c → Sound b c
  Step-Sound b c v (fetches p) = Safe-Sound b _ (fetch_page-Safe calls b p v)
  Step-Sound b c v (creates fresh) = Safe-Sound b _ (new_page-Safe calls b v fresh)
  Step-Sound b c v (unpins p dirty) = unpin_page-Sound b v p dirty
  Step-Sound b c v (flushes p) = flush_page-Sound calls b v p
  Step-Sound b c v flushes_all = flush_all_pages-Sound calls b v
  Step-Sound b c v (deletes p) = delete_page-Sound calls b v p
  Step-Sound b c v (evicts p) = evict_page-Sound calls b v p

  Reach-IsPool : (b c : BufferPool D) → IsPool b → Reach b c → IsPool c
  Reach-IsPool b c v here = v
  Reach-IsPool b c v (next {c = m} r s) = (Step-Sound m c (Reach-IsPool b m v r) s).0

  -- After any history of calls from a new pool of any size, a page that the pool gives out stands in
  -- the frame that the page table names, no other page stands there, and its id is valid.
  pub Reach-table :
      (n : ℕ) (disk : D) (b : BufferPool D) (p i : ℕ)
      → Reach (init n disk) b
      → Maps.lookup p b.page_table ≡ some i
      → (page_at b.frames i ≡ some p)
        × ((q : ℕ) → Maps.lookup q b.page_table ≡ some i → q ≡ p)
        × (p ≢ invalid_page_id)
  Reach-table n disk b p i r e =
      let v = Reach-IsPool (init n disk) b (init-IsPool n disk) r in
      let mine = v.fits.table p i e in
      (mine.0, λ q k. ground (arith, v.fits.table q i k, mine.0), mine.1)
