-- ===== src/TablePage/Deletion.antt =====
-- deleteRecord of src/storage/table_page.cpp, and what every operation leaves when it fails.
use qin_db.Shared.{
  ℕ, ◌+◌, ◌*◌, ◌^◌, ◌≤◌, ◌<◌, ◌≡◌, ◌≢◌, refl, sym, ◌∙◌, ◌⊎◌, inl, inr, true, false, Option, none,
  some, List, arith, length, Option-cases,
}
use qin_db.Page.{Page, page_size, header_size}
use qin_db.Page.LittleEndian.{
  Bytes, write_le, length-write_le, read_le-write_le, read_le-write_le_ne,
}
use qin_db.Page.Slices.{Agree, read_le-Agree, read_bytes-Agree, write_le-Agree}
use qin_db.TablePage.{
  slot_size, slot_count, free_space_offset, slot_offset, slot_length, record_header_size, place,
  insert_tuple, insert_record, get_tuple, header_at, get_record_header, delete_record,
  update_record, serialize_record,
}
use qin_db.TablePage.Layout.{IsTablePage}

-- A page with the same header and slots.
module _ (p p' : Page) (v : IsTablePage p) (whole : length p'.bytes ≡ page_size)
    (same : Agree 0 (free_space_offset p) p'.bytes p.bytes) where
  pub slot_count_kept : slot_count p' ≡ slot_count p
  unfolding slot_count
  slot_count_kept =
      let fits = v.fits in
      read_le-Agree 2 2 p'.bytes p.bytes (λ i l u. same i (omega arith) (omega arith))

  pub free_space_offset_kept : free_space_offset p' ≡ free_space_offset p
  unfolding free_space_offset
  free_space_offset_kept =
      let fits = v.fits in
      read_le-Agree 2 4 p'.bytes p.bytes (λ i l u. same i (omega arith) (omega arith))

  pub slot_offset_kept : (i : ℕ) → i < slot_count p → slot_offset i p' ≡ slot_offset i p
  unfolding slot_offset
  slot_offset_kept i h =
      let fits = v.fits in
      read_le-Agree 2 (header_size + slot_size * i) p'.bytes p.bytes
        (λ j l u. same j (omega arith) (omega arith))

  pub slot_length_kept : (i : ℕ) → i < slot_count p → slot_length i p' ≡ slot_length i p
  unfolding slot_length
  slot_length_kept i h =
      let fits = v.fits in
      read_le-Agree 2 (header_size + slot_size * i + 2) p'.bytes p.bytes
        (λ j l u. same j (omega arith) (omega arith))

  pub IsTablePage-kept : IsTablePage p'
  IsTablePage-kept =
      let fits = v.fits in
      let free = v.free in
      let count = slot_count_kept in
      let start = free_space_offset_kept in
      record {
        size = whole;
        fits = omega (arith, count, start);
        free = omega (arith, start);
        low = λ i h.
            let o : i < slot_count p = omega (arith, count) in
            omega (arith, start, v.low i o, slot_offset_kept i o);
        high = λ i h.
            let o : i < slot_count p = omega (arith, count) in
            omega (arith, v.high i o, slot_offset_kept i o, slot_length_kept i o);
        apart = λ i j h k d.
            let o : i < slot_count p = omega (arith, count) in
            let q : j < slot_count p = omega (arith, count) in
            rw
              (
                slot_offset_kept i o,
                slot_length_kept i o,
                slot_offset_kept j q,
                slot_length_kept j q,
              )
              (v.apart i j o q d);
      }

-- A deletion of a record that is not marked as deleted, on a page that is laid out well, by a
-- transaction with a 64-bit id that is not 0.
module _ (i txn : ℕ) (p : Page) (v : IsTablePage p) (there : i < slot_count p)
    (long : record_header_size ≤ slot_length i p)
    (unmarked : (header_at (slot_offset i p) p).delete_txn_id ≡ 0) (small : txn < 2 ^ 64)
    (valid : txn ≢ 0) where
  marked : Page
  marked = record p { bytes = write_le 8 (slot_offset i p + 16) txn p.bytes; is_dirty = true }

  length-marked : length marked.bytes ≡ page_size
  unfolding marked
  length-marked = length-write_le 8 (slot_offset i p + 16) txn p.bytes ∙ v.size

  delete_record-marked : delete_record i txn p ≡ (marked, true)
  unfolding marked delete_record
  delete_record-marked = ground (arith, there, long, unmarked)

  marked-Agree :
      (lo hi : ℕ)
      → (hi ≤ slot_offset i p + 16) ⊎ (slot_offset i p + 24 ≤ lo)
      → Agree lo hi marked.bytes p.bytes
  unfolding marked
  marked-Agree lo hi h = write_le-Agree lo hi 8 (slot_offset i p + 16) txn p.bytes (ground arith)

  kept : Agree 0 (free_space_offset p) marked.bytes p.bytes
  kept = marked-Agree 0 (free_space_offset p) (inl (omega (arith, v.low i there)))

  header_at-marked :
      header_at (slot_offset i p) marked
      ≡ record (header_at (slot_offset i p) p) { delete_txn_id = txn }
  unfolding header_at marked
  header_at-marked =
      let off = slot_offset i p in
      let high = v.high i there in
      let whole = v.size in
      ground (
        arith,
        read_le-write_le_ne 8 off 8 (off + 16) txn p.bytes (inl (omega arith)),
        read_le-write_le_ne 8 (off + 8) 8 (off + 16) txn p.bytes (inl (omega arith)),
        read_le-write_le 8 (off + 16) txn p.bytes (omega arith) (omega arith),
        read_le-write_le_ne 2 (off + 24) 8 (off + 16) txn p.bytes (inr (omega arith)),
      )

  get_tuple-marked : (j : ℕ) → j < slot_count p → j ≢ i → get_tuple j marked ≡ get_tuple j p
  unfolding get_tuple
  get_tuple-marked j h d =
      let apart = v.apart i j there h (λ e. d (sym e)) in
      rw
        (
          slot_count_kept p marked v length-marked kept,
          slot_offset_kept p marked v length-marked kept j h,
          slot_length_kept p marked v length-marked kept j h,
        )
        (ground (
          arith,
          read_bytes-Agree (slot_length j p) (slot_offset j p) marked.bytes p.bytes
              (marked-Agree (slot_offset j p) (slot_offset j p + slot_length j p) (ground arith)),
        ))

  -- Deleting a record, which is not yet marked and as long as its header, by a 64-bit id other than 0
  -- succeeds and marks it with the id. The rest of its header, every other tuple and the layout stay,
  -- and deleting it once more is refused.
  pub get_record_header-delete_record :
      ((delete_record i txn p).1 ≡ true)
      × (get_record_header i (delete_record i txn p).0
          ≡ some (record (header_at (slot_offset i p) p) { delete_txn_id = txn }))
      × ((j : ℕ) → j < slot_count p → j ≢ i → get_tuple j (delete_record i txn p).0 ≡ get_tuple j p)
      × IsTablePage (delete_record i txn p).0
      × ((other : ℕ)
          → delete_record i other (delete_record i txn p).0 ≡ ((delete_record i txn p).0, false))
  unfolding get_record_header
  get_record_header-delete_record =
      let count = slot_count_kept p marked v length-marked kept in
      let off = slot_offset_kept p marked v length-marked kept i there in
      let len = slot_length_kept p marked v length-marked kept i there in
      let fits = v.fits in
      let low = v.low i there in
      rw delete_record-marked (
        refl,
        rw (count, off, len) (ground (arith, header_at-marked, there, long)),
        get_tuple-marked,
        IsTablePage-kept p marked v length-marked kept,
        λ other.
            unfold delete_record in
            rw (count, off, len) (ground (arith, header_at-marked, there, long, valid)),
      )

pub place-fails : (bytes : Bytes) (p : Page) → (place bytes p).1 ≡ false → (place bytes p).0 ≡ p
unfolding place
place-fails bytes p h = ground (arith, h)

-- An operation that reports a failure leaves the page as it was, whatever the page looks like.
pub failures_change_nothing :
    {C V : Type 0} (field : C → V → Option Bytes) (cs : List C) (row i txn : ℕ) (vs : List V)
    (bytes : Bytes) (p : Page)
    → ((insert_tuple bytes p).1 ≡ none → (insert_tuple bytes p).0 ≡ p)
      × ((insert_record field cs row vs txn p).1 ≡ false
          → (insert_record field cs row vs txn p).0 ≡ p)
      × ((delete_record i txn p).1 ≡ false → (delete_record i txn p).0 ≡ p)
      × ((update_record field cs i vs p).1 ≡ false → (update_record field cs i vs p).0 ≡ p)
unfolding insert_tuple insert_record delete_record update_record
failures_change_nothing field cs row i txn vs bytes p = (
  λ h. ground (arith, place-fails bytes p, h),
  λ h. elim (Option-cases (serialize_record field cs row vs txn)) [
    | inl unfit ↦ ground (arith, unfit)
    | inr (bs, fit) ↦ ground (arith, fit, place-fails bs p, h)
  ],
  λ h. ground (arith, h),
  λ h. ground (arith, h),
)
