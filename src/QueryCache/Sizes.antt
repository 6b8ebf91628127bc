-- ===== src/QueryCache/Sizes.antt =====
-- The entries in src/cache/query_cache.cpp and the sum of their sizes.
use qin_db.Shared.{ℕ, ◌+◌, ◌≡◌, none, some, List, [], ◌∷◌, arith, length}
use qin_db.Shared.Maps
use qin_db.Shared.Maps.{lookup}
use qin_db.QueryCache.{CacheEntry, QueryCache, erase, drop_entry}

module _ {R : Type 0} where
  unfoldable pub sizes : List (ℕ × CacheEntry R) → ℕ
  sizes [] = 0
  sizes ((k, e) ∷ m) = e.memory_size_bytes + sizes m

  pub sizes-erase :
      (q : ℕ) (e : CacheEntry R) (m : List (ℕ × CacheEntry R))
      → lookup q m ≡ some e
      → sizes (erase q m) + e.memory_size_bytes ≡ sizes m
  unfolding sizes erase lookup
  sizes-erase q e [] h = cc
  sizes-erase q e ((k, x) ∷ m) h = ground (arith, sizes-erase q e m)

  pub length-erase :
      (q : ℕ) (e : CacheEntry R) (m : List (ℕ × CacheEntry R))
      → lookup q m ≡ some e
      → length (erase q m) + 1 ≡ length m
  unfolding erase lookup
  length-erase q e [] h = cc
  length-erase q e ((k, x) ∷ m) h = ground (arith, length-erase q e m)

  pub sizes-insert_new :
      (q : ℕ) (e : CacheEntry R) (m : List (ℕ × CacheEntry R))
      → lookup q m ≡ none
      → sizes (Maps.insert q e m) ≡ sizes m + e.memory_size_bytes
  unfolding sizes Maps.insert lookup
  sizes-insert_new q e [] h = omega arith
  sizes-insert_new q e ((k, x) ∷ m) h = ground (arith, sizes-insert_new q e m)

  pub sizes-insert_old :
      (q : ℕ) (e old : CacheEntry R) (m : List (ℕ × CacheEntry R))
      → lookup q m ≡ some old
      → sizes (Maps.insert q e m) + old.memory_size_bytes ≡ sizes m + e.memory_size_bytes
  unfolding sizes Maps.insert lookup
  sizes-insert_old q e old [] h = cc
  sizes-insert_old q e old ((k, x) ∷ m) h = ground (arith, sizes-insert_old q e old m)

  -- The memory in use is the sum of the sizes of the entries.
  abbrev pub IsExact : QueryCache R → Type 0
  IsExact c = c.total_memory_bytes ≡ sizes c.cache

  pub drop_entry-IsExact :
      (q : ℕ) (e : CacheEntry R) (c : QueryCache R)
      → lookup q c.cache ≡ some e
      → IsExact c
      → IsExact (drop_entry q e c)
  unfolding drop_entry
  drop_entry-IsExact q e c h v = omega (arith, sizes-erase q e c.cache h)
