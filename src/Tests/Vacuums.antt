-- ===== src/Tests/Vacuums.antt =====
-- A table page with a row that transaction 1 has created.
use qin_db.Shared.{◌<◌, ◌≡◌, refl, Bool, true, none, ◌∷◌, ◌++◌, arith, replicate, if◌then◌else◌}
use qin_db.Page
use qin_db.Page.{Page, get_page_id, get_next_page_id}
use qin_db.Page.LittleEndian.{Bytes, read_le}
use qin_db.Page.Slices.{write_bytes}
use qin_db.Visibility.{RecordHeader, can_delete, is_visible, is_committed, is_aborted}
use qin_db.BufferPool.Calls.{disk_calls}
use qin_db.BufferPool.Balance.{Balanced}
use qin_db.Transaction.Steps.{here}
use qin_db.TablePage.{
  init, insert_tuple, get_tuple, slot_length, slot_count, slot_offset, place, header_at,
  get_record_header, add_record, free_space_offset,
}
use qin_db.TablePage.Layout.{IsTablePage}
use qin_db.TablePage.Initial.{init-IsTablePage}
use qin_db.TablePage.Filling.{tuples-insert_tuple}
use qin_db.Vacuum.{is_cleanable, clean_page, cleanup_table}
use qin_db.Vacuum.Pages.{clean_page-lem, clean_page-is_visible}
use qin_db.Vacuum.Pool.{cleanup_table-Balanced}
use qin_db.Tests.Files.{memory}
use qin_db.Tests.Pools.{pool, pool-IsPool}
use qin_db.Tests.Tables.{empty_page, blank}
use qin_db.Tests.Transactions.{program, calls, released, released-Inv}

abbrev bytes : Bytes
bytes = replicate 8 0 ++ (1 ∷ replicate 21 0)

abbrev page : Page
page = (insert_tuple bytes empty_page).0

page-IsTablePage : IsTablePage page
page-IsTablePage = (tuples-insert_tuple bytes empty_page (init-IsTablePage 7 blank) (omega arith)).0

first_slot : 0 < slot_count page
unfolding insert_tuple place free_space_offset init Page.set_prev_page_id Page.set_next_page_id
    Page.set_page_id Page.set_page_type Page.reset slot_count add_record write_bytes get_page_id
    read_le
first_slot = omega arith

seen : is_visible released.transactions (header_at (slot_offset 0 page) page) 2 ≡ true
unfolding program slot_length read_le insert_tuple place free_space_offset init
    Page.set_prev_page_id Page.set_next_page_id Page.set_page_id Page.set_page_type Page.reset
    slot_count add_record write_bytes header_at slot_offset get_page_id is_visible is_committed
    is_aborted
seen = refl

clean_page-is_visible_example :
    let p' = (clean_page (can_delete released.transactions) page).0 in
    (get_tuple 0 p' ≡ get_tuple 0 page) × (get_record_header 0 p' ≡ get_record_header 0 page)
clean_page-is_visible_example =
    clean_page-is_visible {calls = calls} released released page 0 2 released-Inv here
      page-IsTablePage first_slot seen

abbrev any_record : RecordHeader → Bool
any_record h = true

clean_page-lem_example :
    let p' = (clean_page any_record page).0 in
    (get_tuple 0 p' ≡ (if is_cleanable any_record 0 page then none else get_tuple 0 page))
    × (get_record_header 0 p'
        ≡ (if is_cleanable any_record 0 page then none else get_record_header 0 page))
    × (slot_count p' ≡ slot_count page)
    × (get_next_page_id p' ≡ get_next_page_id page)
clean_page-lem_example = clean_page-lem any_record page page-IsTablePage 0 first_slot

cleanup_table-Balanced_example :
    Balanced pool (cleanup_table (disk_calls memory) any_record 5 2 0 pool).0
cleanup_table-Balanced_example =
    cleanup_table-Balanced (disk_calls memory) any_record 5 2 0 pool pool-IsPool
