-- ===== src/QueryCache/Entries.antt =====
-- put of src/cache/query_cache.cpp and the number of entries.
use qin_db.Shared.{
  ℕ, zero, suc, ◌+◌, ◌≡◌, ◌≤◌, ◌<◌, refl, Bool, inl, inr, some, List, [], ◌∷◌, arith, ltb, length,
  Bool-cases, Option-cases,
}
use qin_db.Shared.Maps
use qin_db.Shared.Maps.{lookup}
use qin_db.QueryCache.{
  CacheEntry, QueryCache, drop_entry, evict_lru, evict_to_free, update_entry, add_entry, make_room,
  put,
}
use qin_db.QueryCache.Eviction.{evict_lru-cases, evict_to_fit-length}

module _ {R : Type 0} where
  length-insert :
      (q : ℕ) (e : CacheEntry R) (m : List (ℕ × CacheEntry R))
      → length (Maps.insert q e m) ≤ length m + 1
  unfolding Maps.insert
  length-insert q e [] = omega arith
  length-insert q e ((k, x) ∷ m) = ground (arith, length-insert q e m)

  length-insert_old :
      (q : ℕ) (e old : CacheEntry R) (m : List (ℕ × CacheEntry R))
      → lookup q m ≡ some old
      → length (Maps.insert q e m) ≡ length m
  unfolding Maps.insert lookup
  length-insert_old q e old [] h = cc
  length-insert_old q e old ((k, x) ∷ m) h = ground (arith, length-insert_old q e old m)

  evict_lru-max_entries : (c : QueryCache R) → (evict_lru c).0.max_entries ≡ c.max_entries
  unfolding drop_entry
  evict_lru-max_entries c = elim (evict_lru-cases c) [
    | inl (same, nothing, empty) ↦ rw same refl
    | inr (q, e, found, goes, size) ↦ rw goes refl
  ]

  evict_to_free-max_entries :
      (fuel required freed : ℕ) (c : QueryCache R)
      → (evict_to_free fuel required freed c).max_entries ≡ c.max_entries
  unfolding evict_to_free
  evict_to_free-max_entries zero required freed c = refl
  evict_to_free-max_entries (suc fuel) required freed c = elim (Option-cases (evict_lru c).1) [
    | inl nothing ↦ ground (arith, nothing)
    | inr (n, size) ↦ ground (
      arith,
      size,
      evict_lru-max_entries c,
      evict_to_free-max_entries fuel required (freed + n) (evict_lru c).0,
    )
  ]

  make_room-length :
      (size : ℕ) (c : QueryCache R)
      → 0 < c.max_entries
      → length (make_room size c).cache < c.max_entries
  unfolding make_room
  make_room-length size c limit =
      let room = evict_to_free (length c.cache) size 0 c in
      let same : room.max_entries ≡ c.max_entries =
        evict_to_free-max_entries (length c.cache) size 0 c in
      elim (Bool-cases (ltb c.max_memory_bytes (c.total_memory_bytes + size))) [
        | inl full ↦ rw full (
            omega (
              arith,
              same,
              evict_to_fit-length (length room.cache) room (omega (arith, same, limit))
                  (omega arith),
            ))
        | inr enough ↦ rw enough (evict_to_fit-length (length c.cache) c limit (omega arith))
      ]

  -- If a cache that may hold an entry is within its limit on their number, it is so after every put,
  -- whether the put is refused, replaces an entry, or adds one after others were evicted.
  pub put-length :
      (success : R → Bool) (estimate : R → ℕ) (now q : ℕ) (r : R) (tables : List ℕ)
      (c : QueryCache R)
      → 0 < c.max_entries
      → length c.cache ≤ c.max_entries
      → length (put success estimate now q r tables c).0.cache ≤ c.max_entries
  unfolding put update_entry add_entry
  put-length success estimate now q r tables c limit within =
      let entry : CacheEntry R = record {
        result = r;
        created_at = now;
        last_accessed_at = now;
        access_count = 0;
        affected_tables = tables;
        memory_size_bytes = estimate r;
      } in
      elim (Option-cases (lookup q c.cache)) [
        | inl absent ↦ ground (
          arith,
          absent,
          within,
          make_room-length (estimate r) c limit,
          length-insert q entry (make_room (estimate r) c).cache,
        )
        | inr (e, found) ↦ ground (arith, found, within, length-insert_old q entry e c.cache found)
      ]
