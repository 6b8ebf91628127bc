-- ===== src/Tests/Caches.antt =====
-- A table cache of 300 bytes in all over the pool of `Tests.Pools`.
use qin_db.Shared.{ℕ, ◌*◌, ◌≡◌, ◌⊎◌, true, false, none, Option, some, List, [], ◌∷◌, length, arith}
use qin_db.Page.{Page}
use qin_db.Visibility.{RecordHeader}
use qin_db.BufferPool.Calls.{disk_calls}
use qin_db.Disk.{DiskManager}
use qin_db.Tests.Files.{Memory, memory}
use qin_db.Tests.Pools.{pool, pool-IsPool}
use qin_db.TableCache.{TableCacheEntry, TableCache, init, load_table}
use qin_db.BufferPool.Balance.{Balanced}
use qin_db.TableCache.Scanning.{load_table-Balanced}
use qin_db.TableCache.Accounting.{
  Call, sizes, Covers, gets, loads, invalidates, enables, any_disables, run, run-Covers,
}

-- Every page has one row, of a hundred bytes.
abbrev rows_of : Page → Option (List ℕ × List RecordHeader)
rows_of p = some (1 ∷ [], [])

abbrev estimate : List ℕ → ℕ
estimate rows = 100 * length rows

abbrev cache : TableCache ℕ
cache = init 20000 300

abbrev entry : TableCacheEntry ℕ
entry = record {
  rows = 1 ∷ [];
  headers = [];
  row_count = 1;
  memory_size_bytes = 100;
  loaded_at = 9;
  is_valid = true;
}

load_table-Balanced_example :
    Balanced pool (load_table (disk_calls memory) rows_of estimate 10 1 2 pool cache).0.0
load_table-Balanced_example =
    load_table-Balanced (disk_calls memory) rows_of estimate 10 1 2 pool cache pool-IsPool

abbrev requests : List (Call (DiskManager Memory) ℕ)
requests = loads 10 1 2 pool ∷ loads 11 1 2 pool ∷ enables true ∷ gets 1 ∷ invalidates 1 ∷ []

run-Covers_example :
    ((any_disables requests ≡ false)
      × (c' : TableCache ℕ) × (run (disk_calls memory) rows_of estimate requests cache ≡ some c')
      × Covers c')
    ⊎ ((any_disables requests ≡ true)
        × (run (disk_calls memory) rows_of estimate requests cache ≡ none))
unfolding init sizes
run-Covers_example = run-Covers (disk_calls memory) rows_of estimate requests cache (omega arith)
