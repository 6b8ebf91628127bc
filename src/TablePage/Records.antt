-- ===== src/TablePage/Records.antt =====
-- getAllRecords and deserializeRecord of src/storage/table_page.cpp.
--
-- `C` are the columns, `V` the values; `read` is deserializeField with what is left of the stream,
-- which fails together with the status of the stream. Vectors that grow together are one list of
-- pairs. An error in a slot is logged and the slot skipped, so the result is always true.
use qin_db.Shared.{
  ℕ, zero, suc, ◌+◌, Option, none, some, List, [], ◌∷◌, ltb, leb, ◌==◌, if◌then◌else◌, length, drop,
}
use qin_db.Page.{Page, page_size}
use qin_db.Page.LittleEndian.{Bytes, read_le}
use qin_db.Page.Slices.{read_bytes}
use qin_db.Visibility.{RecordHeader}
use qin_db.TablePage.{record_header_size, slot_count, slot_offset, slot_length}

-- The loop over the slots: `visit` gives what is appended for one, if anything is.
unfoldable pub visit_slots : {A : Type 0} → (ℕ → Option A) → ℕ → ℕ → List A
visit_slots visit zero i = []
visit_slots visit (suc n) i =
    let rest = visit_slots visit n (suc i) in elim (visit i) [ none ↦ rest | some a ↦ a ∷ rest ]

-- The header that is read from the front of a record's bytes, if they are as many.
unfoldable pub read_header : Bytes → Option RecordHeader
read_header bytes =
    if ltb (length bytes) record_header_size
    then none
    else some (record {
      row_id = read_le 8 0 bytes;
      create_txn_id = read_le 8 8 bytes;
      delete_txn_id = read_le 8 16 bytes;
      column_count = read_le 2 24 bytes;
    })

-- The bytes of the record that a slot names.
unfoldable pub record_at : ℕ → Page → Bytes
record_at i p = read_bytes (slot_length i p) (slot_offset i p) p.bytes

module _ {C V : Type 0} (read : C → Bytes → Option (V × Bytes)) where
  unfoldable pub deserialize_fields : List C → Bytes → Option (List V)
  deserialize_fields [] bytes = some []
  deserialize_fields (c ∷ cs) bytes = elim (read c bytes) [
    | none ↦ none
    | some (v, rest) ↦ elim (deserialize_fields cs rest) [ none ↦ none | some vs ↦ some (v ∷ vs) ]
  ]

  -- deserializeRecord
  unfoldable pub deserialize_record : List C → Bytes → Option (List V)
  deserialize_record cs bytes = elim (read_header bytes) [
    | none ↦ none
    | some h ↦
        if h.delete_txn_id == 0 then deserialize_fields cs (drop record_header_size bytes) else none
  ]

  -- getAllRecords without headers
  unfoldable pub get_all_records : List C → Page → List (List V)
  get_all_records cs p =
      visit_slots
        (λ i. if slot_length i p == 0 then none else deserialize_record cs (record_at i p))
        (slot_count p) 0

  -- A record and the row id in its header, unless it is deleted.
  unfoldable pub live_record : List C → Bytes → Option (List V × ℕ)
  live_record cs bytes = elim (read_header bytes) [
    | none ↦ none
    | some h ↦
        if h.delete_txn_id == 0
        then elim (deserialize_record cs bytes) [ none ↦ none | some vs ↦ some (vs, h.row_id) ]
        else none
  ]

  -- getAllRecords with row ids
  unfoldable pub get_all_row_ids : List C → Page → List (List V × ℕ)
  get_all_row_ids cs p =
      visit_slots (λ i. if slot_length i p == 0 then none else live_record cs (record_at i p))
        (slot_count p) 0

  -- A record and its header, deleted or not.
  unfoldable pub record_with_header : List C → Bytes → Option (List V × RecordHeader)
  record_with_header cs bytes = elim (read_header bytes) [
    | none ↦ none
    | some h ↦ elim (deserialize_fields cs (drop record_header_size bytes)) [
      | none ↦ none
      | some vs ↦ some (vs, h)
    ]
  ]

  -- getAllRecords with headers
  unfoldable pub get_all_headers : List C → Page → List (List V × RecordHeader)
  get_all_headers cs p =
      visit_slots
        (λ i.
          if slot_length i p == 0
          then none
          else if leb page_size (slot_offset i p)
          then none
          else if ltb page_size (slot_offset i p + slot_length i p)
          then none
          else if ltb (slot_length i p) record_header_size
          then none
          else record_with_header cs (record_at i p))
        (slot_count p) 0
