-- ===== src/TablePage.antt =====
-- include/qindb/table_page.h and src/storage/table_page.cpp: records in a slotted page.
--
-- The slots grow from the header upwards, the records from the end of the page downwards. Every
-- function here returns the page that it leaves. Null pointers are not modelled; uint16_t arithmetic
-- is written out. A read outside the page, which the source does not guard against everywhere,
-- reads zeros here.
pub mod Layout
pub mod Insertion
pub mod Tuples
pub mod Deletion
pub mod Conversions
pub mod Fields
pub mod Filling
pub mod Headers
pub mod Initial
pub mod Reading
pub mod Records
pub mod Scans
use qin_db.Shared.{
  ℕ, zero, suc, ◌+◌, ◌-◌, ◌*◌, ◌/◌, ◌%◌, ◌^◌, Bool, true, false, ◌||◌, Option, none, some, List, [],
  ◌∷◌, ◌++◌, ltb, leb, ◌==◌, if◌then◌else◌, length, take,
}
use qin_db.Page.LittleEndian.{Bytes, le_bytes, read_le, write_le}
use qin_db.Page.Slices.{read_bytes, write_bytes}
use qin_db.Page.{
  Page, page_size, header_size, get_field, set_field, slot_count_offset, free_space_offset_offset,
  free_space_size_offset, reset, set_page_type, set_page_id, set_next_page_id, set_prev_page_id,
  get_page_id, set_dirty,
}
use qin_db.Visibility.{RecordHeader}

abbrev pub u16_mod : ℕ
u16_mod = 2 ^ 16

-- sizeof(Slot) and sizeof(RecordHeader).
abbrev pub slot_size : ℕ
slot_size = 4

abbrev pub record_header_size : ℕ
record_header_size = 26

-- PageType::TABLE_PAGE
abbrev pub table_page_type : ℕ
table_page_type = 3

-- getSlotCount
unfoldable pub slot_count : Page → ℕ
unfolding get_field
slot_count = get_field 2 slot_count_offset

unfoldable pub free_space_offset : Page → ℕ
unfolding get_field
free_space_offset = get_field 2 free_space_offset_offset

unfoldable pub free_space_size : Page → ℕ
unfolding get_field
free_space_size = get_field 2 free_space_size_offset

-- getSlotArray(page)[i], its offset and its length.
unfoldable pub slot_offset : ℕ → Page → ℕ
slot_offset i p = read_le 2 (header_size + slot_size * i) p.bytes

unfoldable pub slot_length : ℕ → Page → ℕ
slot_length i p = read_le 2 (header_size + slot_size * i + 2) p.bytes

unfoldable pub set_slot : ℕ → ℕ → ℕ → Page → Page
set_slot i offset size p = record p {
  bytes =
      write_le 2 (header_size + slot_size * i + 2) size
        (write_le 2 (header_size + slot_size * i) offset p.bytes);
}

-- initialize
unfoldable pub initialize : Page → Page
initialize p = set_prev_page_id 0 (
    set_next_page_id 0 (
      set_field 2 free_space_size_offset (page_size - header_size) (
        set_field 2 free_space_offset_offset page_size
          (set_field 2 slot_count_offset 0 (set_page_type table_page_type (reset p))))))

-- init
unfoldable pub init : ℕ → Page → Page
init id p = set_prev_page_id 0 (
    set_next_page_id 0 (
      set_field 2 free_space_size_offset (page_size - header_size) (
        set_field 2 free_space_offset_offset page_size (
          set_field 2 slot_count_offset 0
            (set_page_id id (set_page_type table_page_type (reset p)))))))

-- getFreeSpace
unfoldable pub get_free_space : Page → ℕ
get_free_space p =
    let slots_end = (header_size + slot_count p * slot_size) % u16_mod in
    if leb (free_space_offset p) slots_end then 0 else free_space_offset p - slots_end

-- hasEnoughSpace
unfoldable pub has_enough_space : ℕ → Page → Bool
has_enough_space size p = leb (size + slot_size) (get_free_space p)

-- The writes of an insertion, once all tests have passed: the bytes, the slot, the header.
unfoldable pub add_record : ℕ → ℕ → ℕ → Bytes → Page → Page
unfolding set_slot set_field set_dirty
add_record offset size space bytes p =
    let written = record p { bytes = write_bytes offset (take size bytes) p.bytes } in
    let slotted = set_slot (slot_count p) offset size written in
    set_dirty true (
      set_field 2 free_space_size_offset space (
        set_field 2 free_space_offset_offset offset
          (set_field 2 slot_count_offset ((slot_count p + 1) % u16_mod) slotted)))

-- The part that insertRecord and insertTuple share. The size is a uint16_t.
unfoldable pub place : Bytes → Page → Page × Bool
place bytes p =
    let size = length bytes % u16_mod in
    let required = (size + slot_size) % u16_mod in
    let free = free_space_offset p in
    let slots_end = (header_size + (slot_count p + 1) * slot_size) % u16_mod in
    let available = free - slots_end in
    let offset = (free + u16_mod - size) % u16_mod in
    if ltb page_size free
    then (p, false)
    else if ltb ((page_size - header_size) / slot_size) (slot_count p)
    then (p, false)
    else if ltb page_size slots_end
    then (p, false)
    else if ltb free slots_end
    then (p, false)
    else if ltb available required
    then (p, false)
    else if ltb offset slots_end || ltb page_size (offset + size)
    then (p, false)
    else (add_record offset size (available - required) bytes p, true)

abbrev pub is_empty : Bytes → Bool
is_empty [] = true
is_empty (b ∷ bs) = false

-- insertTuple, with the row id that goes out through a pointer.
unfoldable pub insert_tuple : Bytes → Page → Page × Option ℕ
insert_tuple bytes p =
    let (p', done) = place bytes p in
    if is_empty bytes
    then (p, none)
    else if done
    then (p', some (get_page_id p * u16_mod + slot_count p))
    else (p', none)

-- getTuple
unfoldable pub get_tuple : ℕ → Page → Option Bytes
get_tuple i p =
    if leb (slot_count p) i
    then none
    else if slot_length i p == 0
    then none
    else some (read_bytes (slot_length i p) (slot_offset i p) p.bytes)

-- The fields of the record header that stands at an offset of the page.
unfoldable pub header_at : ℕ → Page → RecordHeader
header_at off p = record {
  row_id = read_le 8 off p.bytes;
  create_txn_id = read_le 8 (off + 8) p.bytes;
  delete_txn_id = read_le 8 (off + 16) p.bytes;
  column_count = read_le 2 (off + 24) p.bytes;
}

-- getRecordHeader
unfoldable pub get_record_header : ℕ → Page → Option RecordHeader
get_record_header i p =
    if leb (slot_count p) i
    then none
    else if slot_offset i p == 0 || slot_length i p == 0
    then none
    else some (header_at (slot_offset i p) p)

-- deleteRecord: the record is marked, and stays where it is.
unfoldable pub delete_record : ℕ → ℕ → Page → Page × Bool
unfolding set_dirty
delete_record i txn p =
    let off = slot_offset i p in
    if leb (slot_count p) i
    then (p, false)
    else if slot_length i p == 0
    then (p, false)
    else if (header_at off p).delete_txn_id == 0
    then (set_dirty true (record p { bytes = write_le 8 (off + 16) txn p.bytes }), true)
    else (p, false)

unfoldable pub header_bytes : RecordHeader → Bytes
unfolding le_bytes
header_bytes h =
    le_bytes 8 h.row_id
    ++ (le_bytes 8 h.create_txn_id ++ (le_bytes 8 h.delete_txn_id ++ le_bytes 2 h.column_count))

-- The writes of an update in place.
unfoldable pub overwrite_record : ℕ → Bytes → Page → Page
unfolding set_dirty
overwrite_record i bytes p =
    let size = length bytes % u16_mod in
    let off = slot_offset i p in
    let written = record p { bytes = write_bytes off (take size bytes) p.bytes } in
    let shrunk = record written {
      bytes = write_le 2 (header_size + slot_size * i + 2) size written.bytes;
    } in
    set_dirty true (if ltb size (slot_length i p) then shrunk else written)

-- `C` are the columns of a table, `V` the values; `field` is serializeField with the stream that it
-- writes to.
module _ {C V : Type 0} (field : C → V → Option Bytes) where
  unfoldable pub serialize_fields : List C → List V → Option Bytes
  serialize_fields [] vs = some []
  serialize_fields (c ∷ cs) [] = none
  serialize_fields (c ∷ cs) (v ∷ vs) = elim (field c v) [
    | none ↦ none
    | some b ↦ elim (serialize_fields cs vs) [ none ↦ none | some bs ↦ some (b ++ bs) ]
  ]

  -- serializeRecord
  unfoldable pub serialize_record : List C → ℕ → List V → ℕ → Option Bytes
  serialize_record cs row vs txn =
      let header = header_bytes (record {
        row_id = row;
        create_txn_id = txn;
        delete_txn_id = 0;
        column_count = length cs % u16_mod;
      }) in
      if length vs == length cs
      then elim (serialize_fields cs vs) [ none ↦ none | some bs ↦ some (header ++ bs) ]
      else none

  -- calculateRecordSize
  unfoldable pub calculate_record_size : List C → List V → ℕ
  calculate_record_size cs vs = elim (serialize_record cs 0 vs 0) [
    | none ↦ 0
    | some bs ↦ length bs % u16_mod
  ]

  -- insertRecord
  unfoldable pub insert_record : List C → ℕ → List V → ℕ → Page → Page × Bool
  insert_record cs row vs txn p = elim (serialize_record cs row vs txn) [
    | none ↦ (p, false)
    | some bytes ↦ place bytes p
  ]

  -- updateRecord: in place, if the new record is no longer than the old one.
  unfoldable pub update_record : List C → ℕ → List V → Page → Page × Bool
  update_record cs i vs p =
      let old = header_at (slot_offset i p) p in
      if leb (slot_count p) i
      then (p, false)
      else if slot_length i p == 0
      then (p, false)
      else if old.delete_txn_id == 0
      then elim (serialize_record cs old.row_id vs old.create_txn_id) [
        | none ↦ (p, false)
        | some bytes ↦
            if ltb (slot_length i p) (length bytes % u16_mod)
            then (p, false)
            else (overwrite_record i bytes p, true)
      ]
      else (p, false)
