-- ===== src/QueryCache/Eviction.antt =====
-- evictLRU of src/cache/query_cache.cpp, and the two loops of put that evict entries.
use qin_db.Shared.{
  ℕ, zero, suc, ◌+◌, ◌≡◌, ◌≢◌, ◌≤◌, ◌<◌, refl, ◌⊎◌, inl, inr, none, some, List, [], ◌∷◌, arith, ltb,
  ap, false, length, Bool-cases, Option-cases,
}
use qin_db.Shared.Maps.{lookup}
use qin_db.QueryCache.{
  CacheEntry, QueryCache, erase, oldest, lru_key, drop_entry, evict_key, evict_lru, evict_to_free,
  evict_to_fit, make_room, reaches_limit,
}
use qin_db.QueryCache.Sizes.{IsExact, length-erase, drop_entry-IsExact}

-- Whatever the cast makes of the limit, a number that passes the test is below the limit itself.
reaches_limit-below : (n max : ℕ) → reaches_limit n max ≡ false → n < max
unfolding reaches_limit
reaches_limit-below n max h = ground (arith, h)

module _ {R : Type 0} where
  oldest-lookup :
      (k t : ℕ) (e : CacheEntry R) (m : List (ℕ × CacheEntry R))
      → lookup (oldest k t m) ((k, e) ∷ m) ≢ none
  unfolding oldest lookup
  oldest-lookup k t e [] h = ground arith
  oldest-lookup k t e ((j, x) ∷ m) h =
      ground (arith, h, oldest-lookup j x.last_accessed_at x m, oldest-lookup k t e m)

  -- The key that is to be evicted is in the cache, unless the cache is empty.
  lru_key-lookup : (m : List (ℕ × CacheEntry R)) (q : ℕ) → lru_key m ≡ some q → lookup q m ≢ none
  unfolding lru_key
  lru_key-lookup [] q h absent = cc
  lru_key-lookup ((k, x) ∷ m) q h absent =
      oldest-lookup k x.last_accessed_at x m (ground (arith, h, absent))

  length-lru_key : (m : List (ℕ × CacheEntry R)) → lru_key m ≡ none → length m ≡ 0
  unfolding lru_key
  length-lru_key [] h = refl
  length-lru_key ((k, x) ∷ m) h = cc

  -- What evict_lru does: nothing on an empty cache, and else an entry goes.
  pub evict_lru-cases :
      (c : QueryCache R)
      → (((evict_lru c).0 ≡ c) × ((evict_lru c).1 ≡ none) × (length c.cache ≡ 0))
        ⊎ ((q : ℕ) × (e : CacheEntry R) × (lookup q c.cache ≡ some e)
            × ((evict_lru c).0
                ≡ record (drop_entry q e c) { total_evictions = c.total_evictions + 1 })
            × ((evict_lru c).1 ≡ some e.memory_size_bytes))
  unfolding evict_lru evict_key
  evict_lru-cases c = elim (Option-cases (lru_key c.cache)) [
    | inl nothing ↦ rw nothing (inl (refl, refl, length-lru_key c.cache nothing))
    | inr (q, chosen) ↦ elim (Option-cases (lookup q c.cache)) [
      | inl absent ↦ absurd (lru_key-lookup c.cache q chosen absent)
      | inr (e, found) ↦ rw (chosen, found, evict_key) (inr (q, e, found, refl, refl))
    ]
  ]

  evict_lru-IsExact : (c : QueryCache R) → IsExact c → IsExact (evict_lru c).0
  unfolding drop_entry
  evict_lru-IsExact c v = elim (evict_lru-cases c) [
    | inl (same, nothing, empty) ↦ ground (arith, same, v)
    | inr (q, e, found, goes, size) ↦ rw goes (drop_entry-IsExact q e c found v)
  ]

  evict_to_free-IsExact :
      (fuel required freed : ℕ) (c : QueryCache R)
      → IsExact c
      → IsExact (evict_to_free fuel required freed c)
  unfolding evict_to_free
  evict_to_free-IsExact zero required freed c v = v
  evict_to_free-IsExact (suc fuel) required freed c v = elim (Option-cases (evict_lru c).1) [
    | inl nothing ↦ ground (arith, nothing, v)
    | inr (n, size) ↦ ground (
      arith,
      size,
      v,
      evict_to_free-IsExact fuel required (freed + n) (evict_lru c).0 (evict_lru-IsExact c v),
    )
  ]

  evict_to_fit-IsExact : (fuel : ℕ) (c : QueryCache R) → IsExact c → IsExact (evict_to_fit fuel c)
  unfolding evict_to_fit
  evict_to_fit-IsExact zero c v = v
  evict_to_fit-IsExact (suc fuel) c v = elim (Option-cases (evict_lru c).1) [
    | inl nothing ↦ ground (arith, nothing, v)
    | inr (n, size) ↦
        ground (arith, size, v, evict_to_fit-IsExact fuel (evict_lru c).0 (evict_lru-IsExact c v))
  ]

  pub make_room-IsExact : (size : ℕ) (c : QueryCache R) → IsExact c → IsExact (make_room size c)
  unfolding make_room
  make_room-IsExact size c v =
      elim (Bool-cases (ltb c.max_memory_bytes (c.total_memory_bytes + size))) [
        | inl full ↦ rw full (
            evict_to_fit-IsExact (length (evict_to_free (length c.cache) size 0 c).cache)
              (evict_to_free (length c.cache) size 0 c)
              (evict_to_free-IsExact (length c.cache) size 0 c v))
        | inr enough ↦ rw enough (evict_to_fit-IsExact (length c.cache) c v)
      ]

  lookup-erase :
      (k q : ℕ) (m : List (ℕ × CacheEntry R)) → lookup q m ≡ none → lookup q (erase k m) ≡ none
  unfolding lookup erase
  lookup-erase k q [] h = h
  lookup-erase k q ((j, x) ∷ m) h = ground (arith, h, lookup-erase k q m)

  evict_lru-lookup :
      (q : ℕ) (c : QueryCache R) → lookup q c.cache ≡ none → lookup q (evict_lru c).0.cache ≡ none
  unfolding drop_entry
  evict_lru-lookup q c h = elim (evict_lru-cases c) [
    | inl (same, nothing, empty) ↦ rw same h
    | inr (k, e, found, goes, size) ↦ rw goes (lookup-erase k q c.cache h)
  ]

  evict_to_free-lookup :
      (fuel required freed q : ℕ) (c : QueryCache R)
      → lookup q c.cache ≡ none
      → lookup q (evict_to_free fuel required freed c).cache ≡ none
  unfolding evict_to_free
  evict_to_free-lookup zero required freed q c h = h
  evict_to_free-lookup (suc fuel) required freed q c h = elim (Option-cases (evict_lru c).1) [
    | inl nothing ↦ ground (arith, nothing, h)
    | inr (n, size) ↦ ground (
      arith,
      size,
      h,
      evict_to_free-lookup fuel required (freed + n) q (evict_lru c).0 (evict_lru-lookup q c h),
    )
  ]

  evict_to_fit-lookup :
      (fuel q : ℕ) (c : QueryCache R)
      → lookup q c.cache ≡ none
      → lookup q (evict_to_fit fuel c).cache ≡ none
  unfolding evict_to_fit
  evict_to_fit-lookup zero q c h = h
  evict_to_fit-lookup (suc fuel) q c h = elim (Option-cases (evict_lru c).1) [
    | inl nothing ↦ ground (arith, nothing, h)
    | inr (n, size) ↦
        ground (arith, size, h, evict_to_fit-lookup fuel q (evict_lru c).0 (evict_lru-lookup q c h))
  ]

  pub make_room-lookup :
      (size q : ℕ) (c : QueryCache R)
      → lookup q c.cache ≡ none
      → lookup q (make_room size c).cache ≡ none
  unfolding make_room
  make_room-lookup size q c h =
      elim (Bool-cases (ltb c.max_memory_bytes (c.total_memory_bytes + size))) [
        | inl full ↦ rw full (
            evict_to_fit-lookup (length (evict_to_free (length c.cache) size 0 c).cache) q
              (evict_to_free (length c.cache) size 0 c)
              (evict_to_free-lookup (length c.cache) size 0 q c h))
        | inr enough ↦ rw enough (evict_to_fit-lookup (length c.cache) q c h)
      ]

  -- With fuel for every entry, the loop of put ends with fewer entries than the limit allows.
  pub evict_to_fit-length :
      (fuel : ℕ) (c : QueryCache R)
      → 0 < c.max_entries
      → length c.cache ≤ fuel
      → length (evict_to_fit fuel c).cache < c.max_entries
  unfolding evict_to_fit drop_entry
  evict_to_fit-length zero c limit enough = omega arith
  evict_to_fit-length (suc fuel) c limit enough = elim (evict_lru-cases c) [
    | inl (same, nothing, empty) ↦ ground (arith, nothing, empty, limit)
    | inr (q, e, found, goes, size) ↦
        elim (Bool-cases (reaches_limit (length c.cache) c.max_entries)) [
          | inl full ↦
              rw (full, size)
                (omega (
                  arith,
                  ap (λ d. d.max_entries) goes,
                  evict_to_fit-length fuel (evict_lru c).0 (rw goes limit)
                      (rw goes (omega (arith, length-erase q e c.cache found))),
                ))
          | inr fits ↦ rw fits (reaches_limit-below (length c.cache) c.max_entries fits)
        ]
  ]
