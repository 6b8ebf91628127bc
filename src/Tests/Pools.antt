-- ===== src/Tests/Pools.antt =====
-- A pool of two frames over the disk of `Tests.Files`.
use qin_db.Shared.{ℕ, suc, ◌≢◌, ◌<◌, ◌≡◌, refl, true, false, ◌⊎◌, some, none, List, ◌∷◌, [], arith}
use qin_db.Shared.Maps
use qin_db.Page.{Page}
use qin_db.Disk.{DiskManager}
use qin_db.BufferPool
use qin_db.BufferPool.Calls.{DiskCalls, disk_calls}
use qin_db.BufferPool.{
  Frame, BufferPool, init, empty_frame, find_victim, find_victim_from, fetch_page, new_page,
  unpin_page, invalid_page_id,
}
use qin_db.BufferPool.Victim.{candidate_at, find_victim-cases}
use qin_db.BufferPool.Invariant.{IsPool}
use qin_db.BufferPool.Fetching.{Stays, fetch_page-Safe}
use qin_db.BufferPool.Frames.{page_at}
use qin_db.BufferPool.Returning.{Sound}
use qin_db.BufferPool.History.{Reach-table, Step-Sound, here, next, fetches, creates, unpins}
use qin_db.BufferPool.Start.{init-IsPool}
use qin_db.Tests.Files.{Memory, memory, disk}

abbrev pub pool : BufferPool (DiskManager Memory)
pool = (fetch_page (disk_calls memory) 2 (init 2 disk)).0

abbrev blank : Page
blank = record { bytes = []; pin_count = 0; is_dirty = false }

-- The frame of page 5, pinned, and that of page 6, not pinned.
abbrev frames : List Frame
frames =
    record (empty_frame blank) { page_id = 5; pin_count = 1 }
    ∷ record (empty_frame blank) { page_id = 6 }
    ∷ []

pub pool-IsPool : IsPool pool
pool-IsPool = (fetch_page-Safe (disk_calls memory) (init 2 disk) 2 (init-IsPool 2 disk)).0

fetch_page-Safe_example :
    IsPool (fetch_page (disk_calls memory) 1 pool).0
    × Stays pool (fetch_page (disk_calls memory) 1 pool).0
fetch_page-Safe_example = fetch_page-Safe (disk_calls memory) pool 1 pool-IsPool

find_victim-cases_example :
    ((i : ℕ) × ((find_victim 2 0 frames).1 ≡ some i) × (candidate_at frames i ≡ true))
    ⊎ (((find_victim 2 0 frames).1 ≡ none) × ((i : ℕ) → i < 2 → candidate_at frames i ≡ false))
find_victim-cases_example = find_victim-cases frames 2 refl 0 (omega arith)

find_victim_runs : find_victim 2 0 frames ≡ (0, some 1)
unfolding find_victim find_victim_from
find_victim_runs = refl

-- A disk of short pages that counts the ids it gives out.
abbrev pub counting : DiskCalls ℕ
counting = record {
  read_page = λ p old d. (d, p ∷ [], true);
  write_page = λ p bytes d. (d, true);
  allocate_page = λ d. (suc d, suc d);
  deallocate_page = λ p d. d;
  flush = λ d. d;
}

abbrev used : BufferPool ℕ
used = (unpin_page 1 true (new_page counting (fetch_page counting 2 (init 2 0)).0).0.0).0

used_runs : (Maps.lookup 2 used.page_table ≡ some 0) × (Maps.lookup 1 used.page_table ≡ some 1)
unfolding Maps.lookup unpin_page new_page fetch_page init BufferPool.load BufferPool.take_frame
    BufferPool.take_from BufferPool.read_into BufferPool.place_new BufferPool.fill_new Maps.insert
    BufferPool.unpin_frame
used_runs = (refl, refl)

Reach-table_example :
    (page_at used.frames 1 ≡ some 1)
    × ((q : ℕ) → Maps.lookup q used.page_table ≡ some 1 → q ≡ 1)
    × (1 ≢ invalid_page_id)
unfolding Maps.lookup fetch_page init BufferPool.load BufferPool.take_frame BufferPool.take_from
    BufferPool.read_into Maps.insert
Reach-table_example =
    Reach-table counting 2 0 used 1 1
      (next (next (next here (fetches 2)) (creates refl)) (unpins 1 true)) used_runs.1

Step-Sound_example : Sound pool (unpin_page 2 true pool).0
Step-Sound_example =
    Step-Sound (disk_calls memory) pool (unpin_page 2 true pool).0 pool-IsPool (unpins 2 true)
