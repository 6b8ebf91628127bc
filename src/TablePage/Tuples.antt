-- ===== src/TablePage/Tuples.antt =====
-- getTuple of src/storage/table_page.cpp after insertTuple.
use qin_db.Shared.{
  ℕ, ◌+◌, ◌*◌, ◌/◌, ◌%◌, ◌≤◌, ◌<◌, ◌≡◌, refl, ◌∙◌, inr, true, some, List, [], ◌∷◌, arith, length,
  take, ap,
}
use qin_db.Page.{Page, page_size, header_size, get_page_id}
use qin_db.Page.LittleEndian.{Bytes}
use qin_db.Page.Slices.{read_bytes-Agree}
use qin_db.TablePage.{
  slot_size, u16_mod, slot_count, free_space_offset, slot_offset, slot_length, add_record, place,
  insert_tuple, get_tuple,
}
use qin_db.TablePage.Layout.{
  IsTablePage, slot_count-add_record, slot_offset-add_record, slot_length-add_record,
  add_record-Agree, add_record-record,
}
use qin_db.TablePage.Insertion.{
  place-succeeds, add_record-IsTablePage, slot_offset-add_record_old, slot_length-add_record_old,
}

take-length {ℓ} : {A : Type ℓ} (xs : List A) → take (length xs) xs ≡ xs
take-length [] = refl
take-length (x ∷ xs) = ap (λ ys. x ∷ ys) (take-length xs)

-- The tuples of the new page are the old ones and the new one.
module _ (offset space : ℕ) (bytes : Bytes) (p : Page) (v : IsTablePage p)
    (after_slots : header_size + slot_size * slot_count p + slot_size ≤ offset)
    (below : offset + length bytes ≤ free_space_offset p) (small : space < u16_mod) where
  inside : offset + length bytes ≤ page_size
  inside = let free = v.free in omega arith

  next : Page
  next = add_record offset (length bytes) space bytes p

  get_tuple-add_record : 0 < length bytes → get_tuple (slot_count p) next ≡ some bytes
  unfolding next get_tuple
  get_tuple-add_record h =
      let whole = v.size in
      let count =
        slot_count-add_record offset (length bytes) space bytes p whole (omega arith) after_slots
          inside small in
      let off =
        slot_offset-add_record offset (length bytes) space bytes p whole (omega arith) after_slots
          inside small in
      let len =
        slot_length-add_record offset (length bytes) space bytes p whole (omega arith) after_slots
          inside small in
      let record_read =
        add_record-record offset (length bytes) space bytes p whole (omega arith) after_slots inside
          small
        ∙ take-length bytes in
      rw (count, len, off) (ground (arith, record_read, h))

  get_tuple-add_record_old : (i : ℕ) → i < slot_count p → get_tuple i next ≡ get_tuple i p
  unfolding next get_tuple
  get_tuple-add_record_old i h =
      let whole = v.size in
      let low = v.low i h in
      let count =
        slot_count-add_record offset (length bytes) space bytes p whole (omega arith) after_slots
          inside small in
      let off =
        slot_offset-add_record_old offset (length bytes) space bytes p whole (omega arith)
          after_slots inside small i h in
      let len =
        slot_length-add_record_old offset (length bytes) space bytes p whole (omega arith)
          after_slots inside small i h in
      let record_read = read_bytes-Agree (slot_length i p) (slot_offset i p) next.bytes p.bytes (
        add_record-Agree offset (length bytes) space bytes p whole (omega arith) after_slots inside
          small (slot_offset i p) (slot_offset i p + slot_length i p) (omega arith)
          (inr (omega arith, inr (omega arith)))) in
      rw (count, len, off) (ground (arith, record_read, h))

-- After insertTuple has put a tuple of less than 65536 bytes into a page that is laid out well, the
-- row id that it gives splits into the page's id and a slot, getTuple returns the tuple at this slot,
-- returns at every slot before it what it did, and the page is still laid out well.
pub get_tuple-insert_tuple :
    (bytes : Bytes) (p : Page) (row : ℕ)
    → IsTablePage p
    → length bytes < u16_mod
    → (insert_tuple bytes p).1 ≡ some row
    → (row / u16_mod ≡ get_page_id p)
      × (get_tuple (row % u16_mod) (insert_tuple bytes p).0 ≡ some bytes)
      × ((i : ℕ) → i < row % u16_mod → get_tuple i (insert_tuple bytes p).0 ≡ get_tuple i p)
      × IsTablePage (insert_tuple bytes p).0
unfolding insert_tuple next
get_tuple-insert_tuple [] p row v short h = cc
get_tuple-insert_tuple (b ∷ bs) p row v short h =
    let bytes : Bytes = b ∷ bs in
    let fits = v.fits in
    let free = v.free in
    let put : (place bytes p).1 ≡ true = ground (arith, h) in
    let (offset, space, after_slots, below, small, done) = place-succeeds bytes p v short put in
    let row_is : row ≡ get_page_id p * u16_mod + slot_count p = ground (arith, h, done) in
    let slot : row % u16_mod ≡ slot_count p = omega arith in
    rw (done, slot)
      (
        omega arith,
        get_tuple-add_record offset space bytes p v after_slots below small (omega arith),
        get_tuple-add_record_old offset space bytes p v after_slots below small,
        add_record-IsTablePage offset (length bytes) space bytes p v.size (omega arith) after_slots
            (omega arith) small v below,
      )
