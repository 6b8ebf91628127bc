-- ===== src/Disk/Allocation.antt =====
-- The ids that allocatePage hands out.
use qin_db.Shared.{
  ℕ, zero, suc, ◌+◌, ◌≤◌, ◌<◌, ◌≡◌, refl, Bool, true, false, ◌⊎◌, inl, inr, arith, ◌==◌, Bool-cases,
}
use qin_db.Page.{page_size, zero_bytes}
use qin_db.Disk.File.{FileCalls}
use qin_db.Disk.{
  DiskManager, append_pages, flushed, extend_file, allocated, allocate_page, invalid_page_id,
  page_id_mod,
}

module _ {F : Type 0} where
  -- How an extension moves the counters: never the next id, and the count by `n` if it succeeds.
  pub record Extended (n : ℕ) (d : DiskManager F) (r : DiskManager F × Bool) : Type 0 where
    pub same : r.0.next_page_id ≡ d.next_page_id
    pub grown : d.num_pages ≤ r.0.num_pages
    pub all : r.1 ≡ true → r.0.num_pages ≡ d.num_pages + n

  -- The next id is at least 1 and at most one past the last page.
  pub record IsDisk (d : DiskManager F) : Type 0 where
    pub positive : 1 ≤ d.next_page_id
    pub within : d.next_page_id ≤ d.num_pages + 1

module _ {F : Type 0} (calls : FileCalls F) where
  append_pages-Extended : (n : ℕ) (d : DiskManager F) → Extended n d (append_pages calls n d)
  unfolding append_pages
  append_pages-Extended zero d = ground arith
  append_pages-Extended (suc n) d =
      let (file, written) = calls.write zero_bytes d.db_file in
      let ih = append_pages-Extended n (record d { db_file = file; num_pages = d.num_pages + 1 }) in
      elim (Bool-cases (written == page_size)) [
        | inl whole ↦ rw whole (record {
          same = ih.same;
          grown = omega (arith, ih.grown);
          all = λ e. omega (arith, ih.all e);
        })
        | inr part ↦ rw part (record { same = refl; grown = omega arith; all = λ e. cc })
      ]

  flushed-Extended :
      (n : ℕ) (d : DiskManager F) (r : DiskManager F × Bool)
      → Extended n d r
      → Extended n d (flushed calls r)
  unfolding flushed
  flushed-Extended n d (d', true) x = record { same = x.same; grown = x.grown; all = x.all }
  flushed-Extended n d (d', false) x = x

  extend_file-Extended : (n : ℕ) (d : DiskManager F) → Extended n d (extend_file calls n d)
  unfolding extend_file
  extend_file-Extended n d =
      let (file, found) = calls.seek (calls.size d.db_file) d.db_file in
      elim (Bool-cases found) [
        | inl e ↦ rw e (
            let x = append_pages-Extended n (record d { db_file = file }) in
            flushed-Extended n d _ (record { same = x.same; grown = x.grown; all = x.all }))
        | inr e ↦ rw e (record { same = refl; grown = omega arith; all = λ x. cc })
      ]

  -- From a manager whose counters are in order and whose next id is not the last one, an allocation
  -- keeps the counters in order; one that fails returns 0 and does not move the next id, and one that
  -- succeeds returns the next id, which is then the id of a page in the file, and moves on to the id
  -- after it.
  pub allocate_page-cases :
      (d : DiskManager F)
      → IsDisk d
      → d.next_page_id + 1 < page_id_mod
      → let (d', id) = allocate_page calls d in
        IsDisk d'
        × (((id ≡ invalid_page_id) × (d'.next_page_id ≡ d.next_page_id))
            ⊎ ((id ≡ d.next_page_id)
                × (d'.next_page_id ≡ d.next_page_id + 1)
                × (id ≤ d'.num_pages)))
  unfolding allocate_page allocated
  allocate_page-cases d v small =
      let x = extend_file-Extended 1 d in ground (arith, x.same, x.grown, x.all)
