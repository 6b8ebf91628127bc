-- ===== src/QueryCache/Memory.antt =====
-- totalMemoryBytes_ of src/cache/query_cache.cpp, under every call.
use qin_db.Shared.{ℕ, ◌+◌, ◌-◌, refl, Bool, inl, inr, List, [], ◌∷◌, arith, Option-cases}
use qin_db.Shared.Maps.{lookup}
use qin_db.QueryCache.{
  CacheEntry, QueryCache, erase, drop_entry, get_entry, get, update_entry, add_entry, make_room,
  put, clear, drop_queries, invalidate_table, drop_all, invalidate_database, matching, set_enabled,
}
use qin_db.QueryCache.Sizes.{
  sizes, IsExact, sizes-erase, sizes-insert_new, sizes-insert_old, drop_entry-IsExact,
}
use qin_db.QueryCache.Eviction.{make_room-IsExact, make_room-lookup}

module _ {R : Type 0} where
  get-IsExact : (now q : ℕ) (c : QueryCache R) → IsExact c → IsExact (get now q c).0
  unfolding get get_entry drop_entry
  get-IsExact now q c v = elim (Option-cases (lookup q c.cache)) [
    | inl absent ↦ ground (arith, absent, v)
    | inr (e, found) ↦ ground (
      arith,
      found,
      v,
      drop_entry-IsExact q e c found v,
      sizes-insert_old q (record e { access_count = e.access_count + 1; last_accessed_at = now }) e
          c.cache found,
    )
  ]

  -- The entry that put makes.
  abbrev entry : ℕ → R → List ℕ → ℕ → CacheEntry R
  entry now r tables size = record {
    result = r;
    created_at = now;
    last_accessed_at = now;
    access_count = 0;
    affected_tables = tables;
    memory_size_bytes = size;
  }

  put-IsExact :
      (success : R → Bool) (estimate : R → ℕ) (now q : ℕ) (r : R) (tables : List ℕ)
      (c : QueryCache R)
      → IsExact c
      → IsExact (put success estimate now q r tables c).0
  unfolding put update_entry add_entry
  put-IsExact success estimate now q r tables c v = elim (Option-cases (lookup q c.cache)) [
    | inl absent ↦ ground (
      arith,
      absent,
      v,
      make_room-IsExact (estimate r) c v,
      sizes-insert_new q (entry now r tables (estimate r)) (make_room (estimate r) c).cache
          (make_room-lookup (estimate r) q c absent),
    )
    | inr (e, found) ↦ ground (
      arith,
      found,
      v,
      sizes-erase q e c.cache found,
      sizes-insert_old q (entry now r tables (estimate r)) e c.cache found,
    )
  ]

  drop_queries-IsExact :
      (qs : List ℕ) (c : QueryCache R) → IsExact c → IsExact (drop_queries qs c).0
  unfolding drop_queries drop_entry
  drop_queries-IsExact [] c v = v
  drop_queries-IsExact (q ∷ qs) c v = elim (Option-cases (lookup q c.cache)) [
    | inl absent ↦ rw (absent, drop_queries) (drop_queries-IsExact qs c v)
    | inr (e, found) ↦
        rw (found, drop_queries)
          (drop_queries-IsExact qs
            (record c {
              cache = erase q c.cache;
              total_memory_bytes = c.total_memory_bytes - e.memory_size_bytes;
            })
            (drop_entry-IsExact q e c found v))
  ]

  invalidate_table-IsExact :
      (table : ℕ) (c : QueryCache R) → IsExact c → IsExact (invalidate_table table c).0
  unfolding invalidate_table
  invalidate_table-IsExact table c v = elim (Option-cases (lookup table c.table_to_queries)) [
    | inl absent ↦ rw (absent, invalidate_table) v
    | inr (qs, found) ↦ rw (found, invalidate_table) (drop_queries-IsExact qs c v)
  ]

  drop_all-IsExact : (qs : List ℕ) (c : QueryCache R) → IsExact c → IsExact (drop_all qs c).0
  unfolding drop_all
  drop_all-IsExact [] c v = v
  drop_all-IsExact (q ∷ qs) c v = elim (Option-cases (lookup q c.cache)) [
    | inl absent ↦ rw (absent, drop_all) (drop_all-IsExact qs c v)
    | inr (e, found) ↦
        rw (found, drop_all)
          (drop_all-IsExact qs (drop_entry q e c) (drop_entry-IsExact q e c found v))
  ]

-- The calls of the cache's clients; `now` is the time of the call.
pub data Call (R : Type 0) : Type 0 where
  gets : ℕ → ℕ → Call R
  puts : ℕ → ℕ → R → List ℕ → Call R
  invalidates : ℕ → Call R
  invalidates_all : (ℕ → Bool) → Call R
  clears : Call R
  enables : Bool → Call R

module _ {R : Type 0} (success : R → Bool) (estimate : R → ℕ) where
  unfoldable pub call : Call R → QueryCache R → QueryCache R
  call (gets now q) c = (get now q c).0
  call (puts now q r tables) c = (put success estimate now q r tables c).0
  call (invalidates table) c = (invalidate_table table c).0
  call (invalidates_all mentions) c = (invalidate_database mentions c).0
  call clears c = clear c
  call (enables b) c = set_enabled b c

  call-IsExact : (k : Call R) (c : QueryCache R) → IsExact c → IsExact (call k c)
  unfolding call invalidate_database clear set_enabled sizes
  call-IsExact (gets now q) c v = get-IsExact now q c v
  call-IsExact (puts now q r tables) c v = put-IsExact success estimate now q r tables c v
  call-IsExact (invalidates table) c v = invalidate_table-IsExact table c v
  call-IsExact (invalidates_all mentions) c v = drop_all-IsExact (matching mentions c.cache) c v
  call-IsExact clears c v = refl
  call-IsExact (enables b) c v = v

  unfoldable pub run : List (Call R) → QueryCache R → QueryCache R
  run [] c = c
  run (k ∷ ks) c = run ks (call k c)

  -- Whatever calls are made of the cache, the memory that it accounts for stays the sum of the sizes
  -- of its entries, if it was so before them.
  pub run-IsExact : (ks : List (Call R)) (c : QueryCache R) → IsExact c → IsExact (run ks c)
  unfolding run
  run-IsExact [] c v = v
  run-IsExact (k ∷ ks) c v = run-IsExact ks (call k c) (call-IsExact k c v)
