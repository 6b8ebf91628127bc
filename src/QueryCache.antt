-- ===== src/QueryCache.antt =====
-- include/qindb/query_cache.h and src/cache/query_cache.cpp: results of queries under their SQL text,
-- evicted by age, by number and by memory.
--
-- The SQL texts and the table names are numbers, since the cache only compares them; `mentions` is
-- the search for a database's name in a text. A result is opaque: `success` is its field, and
-- `estimate` the estimate of its size. The clock is an argument. The QHashes are association lists,
-- in the order of iteration. The 64-bit counters do not wrap; taking a size off the memory in use
-- stops at 0, where the source would wrap.
pub mod Sizes
pub mod Eviction
pub mod Memory
pub mod Entries
use qin_db.Shared.{
  ℕ, zero, suc, ◌+◌, ◌-◌, ◌*◌, ◌/◌, ◌%◌, ◌^◌, ◌≡◌, Bool, true, false, not, ◌&&◌, ◌||◌, Option, none,
  some, List, [], ◌∷◌, map, ltb, leb, ◌==◌, if◌then◌else◌, length,
}
use qin_db.Shared.Maps
use qin_db.Shared.Sets

pub record CacheEntry (R : Type 0) : Type 0 where
  pub result : R
  pub created_at : ℕ
  pub last_accessed_at : ℕ
  pub access_count : ℕ
  pub affected_tables : List ℕ
  pub memory_size_bytes : ℕ

pub record QueryCache (R : Type 0) : Type 0 where
  pub cache : List (ℕ × CacheEntry R)
  pub table_to_queries : List (ℕ × List ℕ)
  pub max_entries : ℕ
  pub max_memory_bytes : ℕ
  pub ttl_seconds : ℕ
  pub enabled : Bool
  pub total_hits : ℕ
  pub total_misses : ℕ
  pub total_evictions : ℕ
  pub total_memory_bytes : ℕ

-- cache_.size() >= static_cast<int>(maxEntries_): the cast keeps the low 32 bits of the limit, and a
-- number from 2 ^ 31 on is then negative.
unfoldable pub reaches_limit : ℕ → ℕ → Bool
reaches_limit n max_entries =
    let low = max_entries % 2 ^ 32 in if leb (2 ^ 31) low then true else leb low n

unfoldable pub init : {R : Type 0} → ℕ → ℕ → ℕ → QueryCache R
init max_entries max_memory_mb ttl = record {
  cache = [];
  table_to_queries = [];
  max_entries = max_entries;
  max_memory_bytes = max_memory_mb * 1024 * 1024;
  ttl_seconds = ttl;
  enabled = true;
  total_hits = 0;
  total_misses = 0;
  total_evictions = 0;
  total_memory_bytes = 0;
}

-- erase(it): the entry that find has found goes.
unfoldable pub erase : {R : Type 0} → ℕ → List (ℕ × CacheEntry R) → List (ℕ × CacheEntry R)
erase k [] = []
erase k ((j, e) ∷ m) = if j == k then m else (j, e) ∷ erase k m

abbrev pub is_empty : List ℕ → Bool
is_empty [] = true
is_empty (x ∷ xs) = false

-- A query is taken out of the queries of a table; a table with none left goes.
unfoldable pub unlink_table : ℕ → ℕ → List (ℕ × List ℕ) → List (ℕ × List ℕ)
unlink_table q table links = elim (Maps.lookup table links) [
  | none ↦ links
  | some queries ↦
      let rest = Sets.remove q queries in
      if is_empty rest then Maps.remove table links else Maps.insert table rest links
]

unfoldable pub unlink : ℕ → List ℕ → List (ℕ × List ℕ) → List (ℕ × List ℕ)
unlink q [] links = links
unlink q (table ∷ tables) links = unlink q tables (unlink_table q table links)

-- The last loop of put.
unfoldable pub link : ℕ → List ℕ → List (ℕ × List ℕ) → List (ℕ × List ℕ)
link q [] links = links
link q (table ∷ tables) links = link q tables (elim (Maps.lookup table links) [
  | none ↦ Maps.insert table (q ∷ []) links
  | some queries ↦ Maps.insert table (Sets.insert q queries) links
])

-- The entry that was not used for the longest time, the first such in the order of iteration.
unfoldable pub oldest : {R : Type 0} → ℕ → ℕ → List (ℕ × CacheEntry R) → ℕ
oldest key time [] = key
oldest key time ((k, e) ∷ m) =
    let found = ltb e.last_accessed_at time in
    oldest (if found then k else key) (if found then e.last_accessed_at else time) m

module _ {R : Type 0} where
  unfoldable pub lru_key : List (ℕ × CacheEntry R) → Option ℕ
  lru_key [] = none
  lru_key ((k, e) ∷ m) = some (oldest k e.last_accessed_at m)

  -- What every removal of an entry does to the cache, the memory and the links.
  unfoldable pub drop_entry : ℕ → CacheEntry R → QueryCache R → QueryCache R
  drop_entry q e c = record c {
    cache = erase q c.cache;
    table_to_queries = unlink q e.affected_tables c.table_to_queries;
    total_memory_bytes = c.total_memory_bytes - e.memory_size_bytes;
  }

  -- isExpired, at the time `now` in seconds.
  unfoldable pub is_expired : ℕ → CacheEntry R → QueryCache R → Bool
  is_expired now e c = if c.ttl_seconds == 0 then false else ltb (e.created_at + c.ttl_seconds) now

  unfoldable pub get_entry : ℕ → ℕ → CacheEntry R → QueryCache R → QueryCache R × Option R
  get_entry now q e c =
      let c' = drop_entry q e c in
      if is_expired now e c then (record c' { total_misses = c.total_misses + 1 }, none) else (
        record c {
          total_hits = c.total_hits + 1;
          cache =
              Maps.insert q (record e { access_count = e.access_count + 1; last_accessed_at = now })
                c.cache;
        },
        some e.result,
      )

  -- get
  unfoldable pub get : ℕ → ℕ → QueryCache R → QueryCache R × Option R
  get now q c = if not c.enabled then (c, none) else elim (Maps.lookup q c.cache) [
    | none ↦ (record c { total_misses = c.total_misses + 1 }, none)
    | some e ↦ get_entry now q e c
  ]

  unfoldable pub evict_key : Option ℕ → QueryCache R → QueryCache R × Option ℕ
  evict_key none c = (c, none)
  evict_key (some q) c = elim (Maps.lookup q c.cache) [
    | none ↦ (c, none)
    | some e ↦ (
      record (drop_entry q e c) { total_evictions = c.total_evictions + 1 },
      some e.memory_size_bytes,
    )
  ]

  -- evictLRU: the size of the entry that went, if one did.
  unfoldable pub evict_lru : QueryCache R → QueryCache R × Option ℕ
  evict_lru c = evict_key (lru_key c.cache) c

  -- evictToFreeMemory. Every round takes an entry, so the number of entries is fuel enough.
  unfoldable pub evict_to_free : ℕ → ℕ → ℕ → QueryCache R → QueryCache R
  evict_to_free zero required freed c = c
  evict_to_free (suc fuel) required freed c =
      let (c', size) = evict_lru c in
      let rest = λ (n : ℕ). evict_to_free fuel required (freed + n) c' in
      if ltb freed required then elim size [ none ↦ c | some n ↦ rest n ] else c

  -- The loop of put over the number of entries; the fuel is as above. With a negative limit it goes
  -- on until the cache is empty.
  unfoldable pub evict_to_fit : ℕ → QueryCache R → QueryCache R
  evict_to_fit zero c = c
  evict_to_fit (suc fuel) c =
      let (c', size) = evict_lru c in
      let rest = evict_to_fit fuel c' in
      if reaches_limit (length c.cache) c.max_entries
      then elim size [ none ↦ c | some n ↦ rest ]
      else c

  unfoldable pub update_entry : ℕ → ℕ → R → List ℕ → ℕ → CacheEntry R → QueryCache R → QueryCache R
  update_entry now q r tables size e c = record c {
    cache =
        Maps.insert q
          (record {
            result = r;
            created_at = now;
            last_accessed_at = now;
            access_count = 0;
            affected_tables = tables;
            memory_size_bytes = size;
          })
          c.cache;
    total_memory_bytes = c.total_memory_bytes - e.memory_size_bytes + size;
  }

  unfoldable pub add_entry : ℕ → ℕ → R → List ℕ → ℕ → QueryCache R → QueryCache R
  add_entry now q r tables size c = record c {
    cache =
        Maps.insert q
          (record {
            result = r;
            created_at = now;
            last_accessed_at = now;
            access_count = 0;
            affected_tables = tables;
            memory_size_bytes = size;
          })
          c.cache;
    total_memory_bytes = c.total_memory_bytes + size;
    table_to_queries = link q tables c.table_to_queries;
  }

  unfoldable pub make_room : ℕ → QueryCache R → QueryCache R
  make_room size c =
      let c' =
        if ltb c.max_memory_bytes (c.total_memory_bytes + size)
        then evict_to_free (length c.cache) size 0 c
        else c in
      evict_to_fit (length c'.cache) c'

  -- put
  unfoldable pub put :
      (R → Bool) → (R → ℕ) → ℕ → ℕ → R → List ℕ → QueryCache R → QueryCache R × Bool
  put success estimate now q r tables c =
      let size = estimate r in
      if not c.enabled
      then (c, false)
      else if not (success r)
      then (c, false)
      else if ltb (c.max_memory_bytes / 2) size
      then (c, false)
      else elim (Maps.lookup q c.cache) [
        | some e ↦ (update_entry now q r tables size e c, true)
        | none ↦ (add_entry now q r tables size (make_room size c), true)
      ]

  -- clear
  unfoldable pub clear : QueryCache R → QueryCache R
  clear c = record c { cache = []; table_to_queries = []; total_memory_bytes = 0 }

  unfoldable pub set_enabled : Bool → QueryCache R → QueryCache R
  set_enabled b c = record c { enabled = b }

  -- The first loop of invalidateTable: the queries go from the cache, and are counted.
  unfoldable pub drop_queries : List ℕ → QueryCache R → QueryCache R × ℕ
  drop_queries [] c = (c, 0)
  drop_queries (q ∷ qs) c = elim (Maps.lookup q c.cache) [
    | none ↦ drop_queries qs c
    | some e ↦
        (let r = drop_queries qs (record c {
          cache = erase q c.cache;
          total_memory_bytes = c.total_memory_bytes - e.memory_size_bytes;
        }) in
          (r.0, r.1 + 1))
  ]

  -- Its second loop: what is no longer cached goes from the queries of every table.
  unfoldable pub strip_queries :
      List (ℕ × CacheEntry R) → List ℕ → List (ℕ × List ℕ) → List (ℕ × List ℕ)
  strip_queries m [] links = links
  strip_queries m (q ∷ qs) links = strip_queries m qs (elim (Maps.lookup q m) [
    | none ↦ map (λ (l : ℕ × List ℕ). (l.0, Sets.remove q l.1)) links
    | some e ↦ links
  ])

  -- invalidateTable
  unfoldable pub invalidate_table : ℕ → QueryCache R → QueryCache R × ℕ
  invalidate_table table c = elim (Maps.lookup table c.table_to_queries) [
    | none ↦ (c, 0)
    | some qs ↦
        (let r = drop_queries qs c in
          (
            record r.0 {
              table_to_queries =
                  Maps.remove table (strip_queries r.0.cache qs r.0.table_to_queries);
            },
            r.1,
          ))
  ]

  unfoldable pub matching : (ℕ → Bool) → List (ℕ × CacheEntry R) → List ℕ
  matching mentions [] = []
  matching mentions ((q, e) ∷ m) =
      let rest = matching mentions m in if mentions q then q ∷ rest else rest

  unfoldable pub drop_all : List ℕ → QueryCache R → QueryCache R × ℕ
  drop_all [] c = (c, 0)
  drop_all (q ∷ qs) c = elim (Maps.lookup q c.cache) [
    | none ↦ drop_all qs c
    | some e ↦ (let r = drop_all qs (drop_entry q e c) in (r.0, r.1 + 1))
  ]

  -- invalidateDatabase
  unfoldable pub invalidate_database : (ℕ → Bool) → QueryCache R → QueryCache R × ℕ
  invalidate_database mentions c = drop_all (matching mentions c.cache) c
