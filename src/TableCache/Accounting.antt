-- ===== src/TableCache/Accounting.antt =====
-- totalMemoryBytes_ of src/cache/table_cache.cpp.
use qin_db.Shared.{
  ℕ, zero, suc, ◌+◌, ◌-◌, ◌≡◌, ◌≤◌, Bool, true, false, inl, inr, Option, none, some, List, [], ◌∷◌,
  arith, refl, ◌⊎◌, ◌||◌, if◌then◌else◌, Bool-cases, Option-cases, ltb, not, length,
}
use qin_db.Shared.Maps
use qin_db.Shared.Maps.{lookup}
use qin_db.Page.{Page}
use qin_db.Visibility.{RecordHeader}
use qin_db.BufferPool.{BufferPool}
use qin_db.BufferPool.Calls.{DiskCalls}
use qin_db.TableCache.{
  TableCacheEntry, TableCache, erase, oldest, evict_key, evict_from, evict_lru, make_room, store,
  estimate_table_size, load_table, get_table_data, invalidate_table, drop_sizes, drop_entries,
  invalidate_database, clear, set_max_total_memory, set_max_table_size, set_enabled,
}

if-both :
    {A : Type 0} (P : A → Type 0) (test : Bool) (x y : A) → P x → P y → P (if test then x else y)
if-both P true x y at_x at_y = at_x
if-both P false x y at_x at_y = at_y

module _ {R : Type 0} where
  unfoldable pub sizes : List (ℕ × TableCacheEntry R) → ℕ
  sizes [] = 0
  sizes ((k, e) ∷ m) = e.memory_size_bytes + sizes m

  sizes-erase :
      (q : ℕ) (e : TableCacheEntry R) (m : List (ℕ × TableCacheEntry R))
      → lookup q m ≡ some e
      → sizes (erase q m) + e.memory_size_bytes ≡ sizes m
  unfolding sizes erase lookup
  sizes-erase q e [] h = cc
  sizes-erase q e ((k, x) ∷ m) h = ground (arith, sizes-erase q e m)

  sizes-insert_new :
      (q : ℕ) (e : TableCacheEntry R) (m : List (ℕ × TableCacheEntry R))
      → lookup q m ≡ none
      → sizes (Maps.insert q e m) ≡ sizes m + e.memory_size_bytes
  unfolding sizes Maps.insert lookup
  sizes-insert_new q e [] h = omega arith
  sizes-insert_new q e ((k, x) ∷ m) h = ground (arith, sizes-insert_new q e m)

  sizes-insert_old :
      (q : ℕ) (e old : TableCacheEntry R) (m : List (ℕ × TableCacheEntry R))
      → lookup q m ≡ some old
      → sizes (Maps.insert q e m) + old.memory_size_bytes ≡ sizes m + e.memory_size_bytes
  unfolding sizes Maps.insert lookup
  sizes-insert_old q e old [] h = cc
  sizes-insert_old q e old ((k, x) ∷ m) h = ground (arith, sizes-insert_old q e old m)

  -- The memory accounted for is that of the entries at least.
  abbrev pub Covers : TableCache R → Type 0
  Covers c = sizes c.cache ≤ c.total_memory_bytes

  -- What the accounted memory is above that of the entries.
  abbrev pub excess : TableCache R → ℕ
  excess c = c.total_memory_bytes - sizes c.cache

  -- Storing a table that is not cached keeps the excess; storing one that is cached adds the size of
  -- the entry that is replaced, which is never taken off again by itself.
  pub excess-store :
      (key : ℕ) (e : TableCacheEntry R) (c : TableCache R)
      → Covers c
      → Covers (store key e c)
        × (lookup key c.cache ≡ none → excess (store key e c) ≡ excess c)
        × ((old : TableCacheEntry R)
            → lookup key c.cache ≡ some old
            → excess (store key e c) ≡ excess c + old.memory_size_bytes)
  unfolding store
  excess-store key e c v = (
    elim (Option-cases (lookup key c.cache)) [
      | inl new ↦ omega (arith, sizes-insert_new key e c.cache new)
      | inr (old, there) ↦ omega (arith, sizes-insert_old key e old c.cache there)
    ],
    λ new. omega (arith, sizes-insert_new key e c.cache new),
    λ old there. omega (arith, sizes-insert_old key e old c.cache there),
  )

  evict_key-Covers : (key : ℕ) (c : TableCache R) → Covers c → Covers (evict_key key c)
  unfolding evict_key
  evict_key-Covers key c v = elim (Option-cases (lookup key c.cache)) [
    | inl absent ↦ rw (absent, evict_key) v
    | inr (e, found) ↦ rw (found, evict_key) (omega (arith, sizes-erase key e c.cache found))
  ]

  evict_from-Covers :
      (m : List (ℕ × TableCacheEntry R)) (c : TableCache R) → Covers c → Covers (evict_from m c)
  unfolding evict_from
  evict_from-Covers [] c v = v
  evict_from-Covers ((k, e) ∷ m) c v = evict_key-Covers (oldest k e.loaded_at m) c v

  make_room-Covers : (fuel size : ℕ) (c : TableCache R) → Covers c → Covers (make_room fuel size c)
  unfolding make_room evict_lru
  make_room-Covers zero size c v = v
  make_room-Covers (suc fuel) size c v =
      ground (
        arith,
        v,
        make_room-Covers fuel size (evict_from c.cache c) (evict_from-Covers c.cache c v),
      )

  invalidate_table-Covers :
      (key : ℕ) (c : TableCache R) → Covers c → Covers (invalidate_table key c)
  unfolding invalidate_table
  invalidate_table-Covers key c v = elim (Option-cases (lookup key c.cache)) [
    | inl absent ↦ rw (absent, invalidate_table) v
    | inr (e, found) ↦ rw (found, invalidate_table) (omega (arith, sizes-erase key e c.cache found))
  ]

  drop-Covers :
      (in_database : ℕ → Bool) (m : List (ℕ × TableCacheEntry R)) (kept total dropped : ℕ)
      → kept + sizes m ≤ total
      → kept + sizes (drop_entries in_database m) ≤ (drop_sizes in_database m (total, dropped)).0
  unfolding sizes drop_entries drop_sizes
  drop-Covers in_database [] kept total dropped h = omega arith
  drop-Covers in_database ((k, e) ∷ m) kept total dropped h = elim (Bool-cases (in_database k)) [
    | inl goes ↦
        rw (goes, drop_sizes)
          (drop-Covers in_database m kept (total - e.memory_size_bytes) (dropped + 1) (omega arith))
    | inr stays ↦
        let rest =
          drop-Covers in_database m (kept + e.memory_size_bytes) total dropped (omega arith) in
        rw (stays, drop_sizes) (omega arith)
  ]

-- The calls that change the cache; a load reads some pool. A call that disables the cache does not
-- return, since it takes the mutex a second time.
pub data Call (D R : Type 0) : Type 0 where
  gets : ℕ → Call D R
  loads : ℕ → ℕ → ℕ → BufferPool D → Call D R
  invalidates : ℕ → Call D R
  invalidates_all : (ℕ → Bool) → Call D R
  clears : Call D R
  limits_table : ℕ → Call D R
  limits_total : ℕ → Call D R
  enables : Bool → Call D R

unfoldable pub disables : {D R : Type 0} → Call D R → Bool
disables (enables b) = not b
disables (gets key) = false
disables (loads now key first b) = false
disables (invalidates key) = false
disables (invalidates_all in_database) = false
disables clears = false
disables (limits_table bytes) = false
disables (limits_total bytes) = false

unfoldable pub any_disables : {D R : Type 0} → List (Call D R) → Bool
any_disables [] = false
any_disables (k ∷ ks) = disables k || any_disables ks

module _ {D R : Type 0} (calls : DiskCalls D) (records : Page → Option (List R × List RecordHeader))
    (estimate : List R → ℕ) where
  load_table-Covers :
      (now key first : ℕ) (b : BufferPool D) (c : TableCache R)
      → Covers c
      → Covers (load_table calls records estimate now key first b c).0.1
  unfolding load_table
  load_table-Covers now key first b c v =
      let size = (estimate_table_size calls first b).1 in
      if-both {A = (BufferPool D × TableCache R) × Bool} (λ r. Covers r.0.1) (not c.enabled) _ _ v
        (if-both {A = (BufferPool D × TableCache R) × Bool} (λ r. Covers r.0.1)
          (ltb c.max_table_size_bytes size) _ _ v
          (excess-store key _ (make_room (length c.cache) size c)
            (make_room-Covers (length c.cache) size c v)).0)

  -- What a call leaves of the cache, if it returns.
  unfoldable pub call : Call D R → TableCache R → Option (TableCache R)
  call (gets key) c = some (get_table_data key c).0
  call (loads now key first b) c = some (load_table calls records estimate now key first b c).0.1
  call (invalidates key) c = some (invalidate_table key c)
  call (invalidates_all in_database) c = some (invalidate_database in_database c)
  call clears c = some (clear c)
  call (limits_table bytes) c = some (set_max_table_size bytes c)
  call (limits_total bytes) c = some (set_max_total_memory bytes c)
  call (enables b) c = set_enabled b c

  -- The calls one after another, as long as they return.
  unfoldable pub run : List (Call D R) → TableCache R → Option (TableCache R)
  run [] c = some c
  run (k ∷ ks) c = elim (call k c) [ none ↦ none | some c' ↦ run ks c' ]

  CallCovers : Call D R → TableCache R → Type 0
  CallCovers k c =
      ((disables k ≡ false) × (c' : TableCache R) × (call k c ≡ some c') × Covers c')
      ⊎ ((disables k ≡ true) × (call k c ≡ none))

  call-Covers : (k : Call D R) (c : TableCache R) → Covers c → CallCovers k c
  unfolding call disables get_table_data invalidate_database clear set_max_table_size
      set_max_total_memory set_enabled sizes CallCovers
  call-Covers (gets key) c v = inl (refl, (get_table_data key c).0, refl, ground (arith, v))
  call-Covers (loads now key first b) c v =
      inl (refl, _, refl, load_table-Covers now key first b c v)
  call-Covers (invalidates key) c v = inl (refl, _, refl, invalidate_table-Covers key c v)
  call-Covers (invalidates_all in_database) c v = inl (
    refl,
    _,
    refl,
    omega (arith, drop-Covers in_database c.cache 0 c.total_memory_bytes 0 (omega arith)),
  )
  call-Covers clears c v = inl (refl, _, refl, omega arith)
  call-Covers (limits_table bytes) c v = inl (refl, _, refl, v)
  call-Covers (limits_total bytes) c v = inl (
    refl,
    _,
    refl,
    make_room-Covers (length c.cache) 0 (record c { max_total_memory_bytes = bytes }) v,
  )
  call-Covers (enables true) c v = inl (refl, _, refl, v)
  call-Covers (enables false) c v = inr (refl, refl)

  -- Whatever calls are made of the table cache: if none of them disables it, then all of them return,
  -- and the memory that the cache accounts for is at least the sum of the sizes of its entries, if it
  -- was so before them; if one disables it, then the calls do not all return.
  pub run-Covers :
      (ks : List (Call D R)) (c : TableCache R)
      → Covers c
      → ((any_disables ks ≡ false) × (c' : TableCache R) × (run ks c ≡ some c') × Covers c')
        ⊎ ((any_disables ks ≡ true) × (run ks c ≡ none))
  unfolding run any_disables CallCovers
  run-Covers [] c v = inl (refl, c, refl, v)
  run-Covers (k ∷ ks) c v = elim (call-Covers k c v) [
    | inr (off, stuck) ↦ rw (off, stuck, run) (inr (refl, refl))
    | inl (on, c', after, v') ↦ rw (on, after, run) (run-Covers ks c' v')
  ]
