-- ===== src/Tests/Tables.antt =====
-- A table page with two tuples.
use qin_db.Shared.{
  ℕ, ◌+◌, ◌%◌, ◌<◌, ◌≤◌, ◌≡◌, ◌≢◌, ◌↔◌, refl, zero, suc, some, none, Option, [], ◌∷◌, arith,
  replicate, length, true, false, get_elem?,
}
use qin_db.Page
use qin_db.Page.{Page, get_page_id}
use qin_db.Page.LittleEndian.{Bytes, read_le}
use qin_db.Page.Slices.{write_bytes}
use qin_db.TablePage.{
  init, insert_tuple, insert_record, update_record, get_tuple, slot_length, slot_count, slot_offset,
  place, header_at, get_record_header, delete_record, get_free_space, add_record, free_space_offset,
  u16_mod,
}
use qin_db.TablePage.Layout.{IsTablePage}
use qin_db.TablePage.Initial.{init-IsTablePage}
use qin_db.TablePage.Insertion.{place_iff}
use qin_db.TablePage.Deletion.{get_record_header-delete_record, failures_change_nothing}
use qin_db.TablePage.Filling.{tuples, insert_all, tuples-insert_tuple, tuples-filled}

abbrev pub blank : Page
blank = record { bytes = []; pin_count = 0; is_dirty = false }

abbrev pub empty_page : Page
empty_page = init 7 blank

-- A record header of zeros and four bytes more.
abbrev bytes : Bytes
bytes = replicate 30 0

abbrev one_tuple : Page
one_tuple = (insert_tuple bytes empty_page).0

one_tuple_runs :
    ((insert_tuple bytes empty_page).1 ≡ some 458752)
    × (slot_count one_tuple ≡ 1)
    × (slot_length 0 one_tuple ≡ 30)
    × ((header_at (slot_offset 0 one_tuple) one_tuple).delete_txn_id ≡ 0)
unfolding slot_length read_le insert_tuple place free_space_offset init Page.set_prev_page_id
    Page.set_next_page_id Page.set_page_id Page.set_page_type Page.reset slot_count add_record
    write_bytes header_at slot_offset get_page_id
one_tuple_runs = (refl, refl, refl, refl)

one_tuple-IsTablePage : IsTablePage one_tuple
one_tuple-IsTablePage =
    (tuples-insert_tuple bytes empty_page (init-IsTablePage 7 blank) (omega arith)).0

short : (i : ℕ) (b : Bytes) → get_elem? (bytes ∷ (9 ∷ []) ∷ []) i ≡ some b → length b < u16_mod
short zero b h = ground (arith, h)
short (suc zero) b h = ground (arith, h)
short (suc (suc i)) b h = cc

tuples-filled_example :
    tuples (insert_all (bytes ∷ (9 ∷ []) ∷ []) empty_page).0
    ≡ (insert_all (bytes ∷ (9 ∷ []) ∷ []) empty_page).1
tuples-filled_example = tuples-filled 7 blank (bytes ∷ (9 ∷ []) ∷ []) short

place_iff_example :
    ((place bytes one_tuple).1 ≡ true) ↔ (length bytes % u16_mod + 8 ≤ get_free_space one_tuple)
place_iff_example = place_iff bytes one_tuple one_tuple-IsTablePage

get_record_header-delete_record_example :
    ((delete_record 0 5 one_tuple).1 ≡ true)
    × (get_record_header 0 (delete_record 0 5 one_tuple).0
        ≡ some (record (header_at (slot_offset 0 one_tuple) one_tuple) { delete_txn_id = 5 }))
    × ((j : ℕ)
        → j < slot_count one_tuple
        → j ≢ 0
        → get_tuple j (delete_record 0 5 one_tuple).0 ≡ get_tuple j one_tuple)
    × IsTablePage (delete_record 0 5 one_tuple).0
    × ((other : ℕ)
        → delete_record 0 other (delete_record 0 5 one_tuple).0
          ≡ ((delete_record 0 5 one_tuple).0, false))
get_record_header-delete_record_example =
    get_record_header-delete_record 0 5 one_tuple one_tuple-IsTablePage
      (omega (arith, one_tuple_runs.1)) (omega (arith, one_tuple_runs.2)) one_tuple_runs.3
      (omega arith) (omega arith)

-- Columns are numbers of bytes, and a value fills its column.
abbrev field : ℕ → ℕ → Option Bytes
field size v = some (replicate size v)

failures_change_nothing_example :
    ((insert_tuple [] empty_page).1 ≡ none → (insert_tuple [] empty_page).0 ≡ empty_page)
    × ((insert_record field (4 ∷ []) 1 (6 ∷ []) 5 empty_page).1 ≡ false
        → (insert_record field (4 ∷ []) 1 (6 ∷ []) 5 empty_page).0 ≡ empty_page)
    × ((delete_record 0 5 empty_page).1 ≡ false → (delete_record 0 5 empty_page).0 ≡ empty_page)
    × ((update_record field (4 ∷ []) 0 (6 ∷ []) empty_page).1 ≡ false
        → (update_record field (4 ∷ []) 0 (6 ∷ []) empty_page).0 ≡ empty_page)
failures_change_nothing_example =
    failures_change_nothing field (4 ∷ []) 1 0 5 (6 ∷ []) [] empty_page
