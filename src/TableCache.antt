-- ===== src/TableCache.antt =====
-- include/qindb/table_cache.h and src/cache/table_cache.cpp: the rows of whole tables, read through the
-- buffer pool.
--
-- Names are numbers; `make_key` joins a database's name and a table's, and `in_database` is the test
-- by startsWith of invalidateDatabase. `records` is TablePage::getAllRecords, `estimate` is
-- estimateMemorySize, which looks at the capacity of Qt's containers. The clock is an argument. The
-- QHash is an association list in the order of iteration; 64-bit counters do not wrap, and taking a
-- size off the memory in use stops at 0. The mutex makes every operation one step.
pub mod Scanning
pub mod Accounting
use qin_db.Shared.{
  ℕ, zero, suc, ◌+◌, ◌-◌, ◌≡◌, Bool, true, false, not, ◌&&◌, ◌||◌, Option, none, some, List, [],
  ◌∷◌, ◌++◌, ltb, ◌==◌, if◌then◌else◌, length, get_elem?,
}
use qin_db.Shared.Maps
use qin_db.Page.{Page, page_size, get_next_page_id}
use qin_db.Visibility.{RecordHeader}
use qin_db.BufferPool.{BufferPool, fetch_page, unpin_page}
use qin_db.BufferPool.Calls.{DiskCalls}

pub record TableCacheEntry (R : Type 0) : Type 0 where
  pub rows : List R
  pub headers : List RecordHeader
  pub row_count : ℕ
  pub memory_size_bytes : ℕ
  pub loaded_at : ℕ
  pub is_valid : Bool

pub record TableCache (R : Type 0) : Type 0 where
  pub cache : List (ℕ × TableCacheEntry R)
  pub max_table_size_bytes : ℕ
  pub max_total_memory_bytes : ℕ
  pub enabled : Bool
  pub cache_hits : ℕ
  pub cache_misses : ℕ
  pub invalidations : ℕ
  pub total_memory_bytes : ℕ

-- The limit of both loops over the pages of a table.
abbrev pub max_pages : ℕ
max_pages = 1000

-- The loop over the pages of a table in estimateTableSize and in loadTable: a page is fetched, looked
-- at and unpinned, and the link in its header leads on.
unfoldable pub scan_pages :
    {D A : Type 0} → DiskCalls D → (Page → A → A) → ℕ → ℕ → A → BufferPool D → BufferPool D × A
scan_pages calls visit zero id a b = (b, a)
scan_pages calls visit (suc rounds) id a b =
    let (b', found) = fetch_page calls id b in
    elim (id == 0) [
      | true ↦ (b, a)
      | false ↦ elim found [
        | none ↦ (b', a)
        | some i ↦ elim (get_elem? b'.frames i) [
          | none ↦ (b', a)
          | some f ↦
              scan_pages calls visit rounds (get_next_page_id f.page) (visit f.page a)
                (unpin_page id false b').0
        ]
      ]
    ]

-- estimateTableSize, from the table's first page on.
unfoldable pub estimate_table_size :
    {D : Type 0} → DiskCalls D → ℕ → BufferPool D → BufferPool D × ℕ
unfolding scan_pages
estimate_table_size calls first b =
    scan_pages calls (λ page total. total + page_size) max_pages first 0 b

module _ {R : Type 0} where
  unfoldable pub init : ℕ → ℕ → TableCache R
  init max_table max_total = record {
    cache = [];
    max_table_size_bytes = max_table;
    max_total_memory_bytes = max_total;
    enabled = true;
    cache_hits = 0;
    cache_misses = 0;
    invalidations = 0;
    total_memory_bytes = 0;
  }

  -- isTableCached
  unfoldable pub is_table_cached : ℕ → TableCache R → Bool
  is_table_cached key c =
      c.enabled && elim (Maps.lookup key c.cache) [ none ↦ false | some e ↦ e.is_valid ]

  -- getTableData
  unfoldable pub get_table_data :
      ℕ → TableCache R → TableCache R × Option (List R × List RecordHeader)
  get_table_data key c =
      let miss = record c { cache_misses = c.cache_misses + 1 } in
      let hit = record c { cache_hits = c.cache_hits + 1 } in
      if not c.enabled then (miss, none) else elim (Maps.lookup key c.cache) [
        | none ↦ (miss, none)
        | some e ↦ if e.is_valid then (hit, some (e.rows, e.headers)) else (miss, none)
      ]

  -- erase of the entry that was found.
  unfoldable pub erase : ℕ → List (ℕ × TableCacheEntry R) → List (ℕ × TableCacheEntry R)
  erase k [] = []
  erase k ((j, e) ∷ m) = if j == k then m else (j, e) ∷ erase k m

  -- The key of the entry that was loaded first, of equal ones the first in the order of iteration.
  unfoldable pub oldest : ℕ → ℕ → List (ℕ × TableCacheEntry R) → ℕ
  oldest key time [] = key
  oldest key time ((k, e) ∷ m) =
      let earlier = ltb e.loaded_at time in
      oldest (if earlier then k else key) (if earlier then e.loaded_at else time) m

  -- A key stands for the iterator to its entry.
  unfoldable pub evict_key : ℕ → TableCache R → TableCache R
  evict_key key c = elim (Maps.lookup key c.cache) [
    | none ↦ c
    | some e ↦ record c {
      cache = erase key c.cache;
      total_memory_bytes = c.total_memory_bytes - e.memory_size_bytes;
    }
  ]

  unfoldable pub evict_from : List (ℕ × TableCacheEntry R) → TableCache R → TableCache R
  evict_from [] c = c
  evict_from ((k, e) ∷ m) c = evict_key (oldest k e.loaded_at m) c

  -- evictLRU
  unfoldable pub evict_lru : TableCache R → TableCache R
  unfolding evict_from
  evict_lru c = evict_from c.cache c

  -- The eviction loops of loadTable, with the size of the table, and of setMaxTotalMemory, with 0.
  -- Every round takes an entry, so the number of entries is fuel enough.
  unfoldable pub make_room : ℕ → ℕ → TableCache R → TableCache R
  make_room zero size c = c
  make_room (suc fuel) size c =
      let rest = make_room fuel size (evict_lru c) in
      if ltb c.max_total_memory_bytes (c.total_memory_bytes + size) && ltb 0 (length c.cache)
      then rest
      else c

  -- The end of loadTable.
  unfoldable pub store : ℕ → TableCacheEntry R → TableCache R → TableCache R
  store key e c = record c {
    cache = Maps.insert key e c.cache;
    total_memory_bytes = c.total_memory_bytes + e.memory_size_bytes;
  }

  -- What loadTable takes from a page.
  unfoldable pub add_records :
      (Page → Option (List R × List RecordHeader))
      → Page
      → List R × List RecordHeader
      → List R × List RecordHeader
  add_records records page (rows, headers) = elim (records page) [
    | none ↦ (rows, headers)
    | some (rs, hs) ↦ (rows ++ rs, headers ++ hs)
  ]

  -- setMaxTableSize
  unfoldable pub set_max_table_size : ℕ → TableCache R → TableCache R
  set_max_table_size bytes c = record c { max_table_size_bytes = bytes }

  -- loadTable. The pool is read twice, for the size and for the rows.
  unfoldable pub load_table :
      {D : Type 0}
      → DiskCalls D
      → (Page → Option (List R × List RecordHeader))
      → (List R → ℕ)
      → ℕ
      → ℕ
      → ℕ
      → BufferPool D
      → TableCache R
      → (BufferPool D × TableCache R) × Bool
  load_table calls records estimate now key first b c =
      let (b', size) = estimate_table_size calls first b in
      let start : List R × List RecordHeader = ([], []) in
      let (b'', found) = scan_pages calls (add_records records) max_pages first start b' in
      let entry : TableCacheEntry R = record {
        rows = found.0;
        headers = found.1;
        row_count = length found.0;
        memory_size_bytes = estimate found.0;
        loaded_at = now;
        is_valid = true;
      } in
      if not c.enabled
      then ((b, c), false)
      else if ltb c.max_table_size_bytes size
      then ((b', c), false)
      else ((b'', store key entry (make_room (length c.cache) size c)), true)

  -- invalidateTable
  unfoldable pub invalidate_table : ℕ → TableCache R → TableCache R
  invalidate_table key c = elim (Maps.lookup key c.cache) [
    | none ↦ c
    | some e ↦ record c {
      cache = erase key c.cache;
      total_memory_bytes = c.total_memory_bytes - e.memory_size_bytes;
      invalidations = c.invalidations + 1;
    }
  ]

  -- The first loop of invalidateDatabase takes off the sizes, the second the entries.
  unfoldable pub drop_sizes : (ℕ → Bool) → List (ℕ × TableCacheEntry R) → ℕ × ℕ → ℕ × ℕ
  drop_sizes in_database [] n = n
  drop_sizes in_database ((k, e) ∷ m) (total, dropped) =
      drop_sizes in_database m
        (if in_database k then (total - e.memory_size_bytes, dropped + 1) else (total, dropped))

  unfoldable pub drop_entries :
      (ℕ → Bool) → List (ℕ × TableCacheEntry R) → List (ℕ × TableCacheEntry R)
  drop_entries in_database [] = []
  drop_entries in_database ((k, e) ∷ m) =
      let rest = drop_entries in_database m in if in_database k then rest else (k, e) ∷ rest

  -- invalidateDatabase
  unfoldable pub invalidate_database : (ℕ → Bool) → TableCache R → TableCache R
  invalidate_database in_database c =
      let (total, dropped) = drop_sizes in_database c.cache (c.total_memory_bytes, 0) in
      record c {
        cache = drop_entries in_database c.cache;
        total_memory_bytes = total;
        invalidations = c.invalidations + dropped;
      }

  -- clear
  unfoldable pub clear : TableCache R → TableCache R
  clear c = record c { cache = []; total_memory_bytes = 0 }

  -- setMaxTotalMemory
  unfoldable pub set_max_total_memory : ℕ → TableCache R → TableCache R
  set_max_total_memory bytes c =
      let c' = record c { max_total_memory_bytes = bytes } in make_room (length c.cache) 0 c'

  -- setEnabled. To disable the cache it calls clear, which locks the mutex that setEnabled holds; a
  -- QMutex is not recursive, so the call does not return.
  unfoldable pub set_enabled : Bool → TableCache R → Option (TableCache R)
  set_enabled true c = some (record c { enabled = true })
  set_enabled false c = none
