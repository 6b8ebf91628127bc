-- ===== src/Vacuum.antt =====
-- src/storage/vacuum.cpp: cleanupTable of the VacuumWorker. Its test canDelete is in Visibility.antt.
--
-- `test` is canDelete, fixed for one call; the source asks the transaction manager anew at every slot. The loop over the pages of a table has no limit in the
-- source; here it is fuel.
pub mod Pages
pub mod Pool
use qin_db.Shared.{
  ℕ, zero, suc, ◌+◌, Bool, true, false, not, ◌&&◌, Option, none, some, List, [], ◌∷◌, ◌++◌, leb,
  ◌==◌, if◌then◌else◌, length, get_elem?,
}
use qin_db.Page.{Page, get_next_page_id}
use qin_db.Visibility.{RecordHeader}
use qin_db.TablePage.{slot_count, slot_offset, slot_length, set_slot, header_at, record_header_size}
use qin_db.BufferPool.{Frame, BufferPool, put_frame, fetch_page, unpin_page}
use qin_db.BufferPool.Calls.{DiskCalls}

-- A slot that is not empty, whose record has a whole header, and whose header passes the test.
unfoldable pub is_cleanable : (RecordHeader → Bool) → ℕ → Page → Bool
is_cleanable test i p =
    not (slot_length i p == 0)
    && leb record_header_size (slot_length i p)
    && test (header_at (slot_offset i p) p)

-- slotsToDelete after the first `n` slots.
unfoldable pub slots_to_delete : (RecordHeader → Bool) → ℕ → Page → List ℕ
slots_to_delete test zero p = []
slots_to_delete test (suc n) p =
    let before = slots_to_delete test n p in
    if is_cleanable test n p then before ++ (n ∷ []) else before

-- The slots are emptied, the last one first.
unfoldable pub empty_slots : List ℕ → Page → Page
empty_slots [] p = p
empty_slots (i ∷ is) p = set_slot i 0 0 (empty_slots is p)

-- What cleanupTable does to one page, and the number of records it has removed.
unfoldable pub clean_page : (RecordHeader → Bool) → Page → Page × ℕ
clean_page test p =
    let slots = slots_to_delete test (slot_count p) p in (empty_slots slots p, length slots)

-- cleanupTable from a page on, with the number of records removed so far.
unfoldable pub cleanup_table :
    {D : Type 0} → DiskCalls D → (RecordHeader → Bool) → ℕ → ℕ → ℕ → BufferPool D → BufferPool D × ℕ
cleanup_table calls test zero id removed b = (b, removed)
cleanup_table calls test (suc rounds) id removed b =
    let (b', found) = fetch_page calls id b in
    elim (id == 0) [
      | true ↦ (b, removed)
      | false ↦ elim found [
        | none ↦ (b', removed)
        | some i ↦ elim (get_elem? b'.frames i) [
          | none ↦ (b', removed)
          | some f ↦
              let (page, count) = clean_page test f.page in
              cleanup_table calls test rounds (get_next_page_id page) (removed + count)
                (unpin_page id (not (count == 0)) (put_frame i (record f { page = page }) b')).0
        ]
      ]
    ]
