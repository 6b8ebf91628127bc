-- ===== src/TablePage/Reading.antt =====
-- getAllRecords of src/storage/table_page.cpp after insertRecord.
use mathlib.Core.List.{append_assoc, append-nil}
use qin_db.Shared.{
  ℕ, ◌%◌, ◌^◌, ◌≤◌, ◌<◌, ◌≡◌, refl, subst, inl, inr, Option, some, List, length-append, [], ◌∷◌,
  ◌++◌, arith, length, drop, Bool-cases, Option-cases, ◌==◌,
}
use qin_db.Page.LittleEndian.{Bytes}
use qin_db.Visibility.{RecordHeader}
use qin_db.TablePage.{u16_mod, record_header_size, header_bytes, serialize_fields, serialize_record}
use qin_db.TablePage.Headers.{drop-append_of_length, length-header_bytes, read_header-header_bytes}
use qin_db.TablePage.Records.{read_header, deserialize_fields}

-- What is read of each field.
module _ {C V : Type 0} (stored : C → V → V) where
  unfoldable pub stored_fields : List C → List V → List V
  stored_fields [] vs = []
  stored_fields (c ∷ cs) [] = []
  stored_fields (c ∷ cs) (v ∷ vs) = stored c v ∷ stored_fields cs vs

-- The header that an insertion gives a record.
abbrev pub new_header : {C : Type 0} → List C → ℕ → ℕ → RecordHeader
new_header cs row txn = record {
  row_id = row;
  create_txn_id = txn;
  delete_txn_id = 0;
  column_count = length cs % u16_mod;
}

-- `stored` is what a field that was written is read as, whatever follows it.
module _ {C V : Type 0} (field : C → V → Option Bytes) (read : C → Bytes → Option (V × Bytes))
    (stored : C → V → V)
    (law : (c : C) (v : V) (bs rest : Bytes)
      → field c v ≡ some bs
      → read c (bs ++ rest) ≡ some (stored c v, rest)) where
  deserialize-serialize_fields :
      (cs : List C) (vs : List V) (bytes rest : Bytes)
      → serialize_fields field cs vs ≡ some bytes
      → deserialize_fields read cs (bytes ++ rest) ≡ some (stored_fields stored cs vs)
  unfolding serialize_fields deserialize_fields stored_fields
  deserialize-serialize_fields [] vs bytes rest h = refl
  deserialize-serialize_fields (c ∷ cs) [] bytes rest h = cc
  deserialize-serialize_fields (c ∷ cs) (v ∷ vs) bytes rest h = elim (Option-cases (field c v)) [
    | inl e ↦ ground (arith, e, h)
    | inr (b, e) ↦ elim (Option-cases (serialize_fields field cs vs)) [
      | inl e' ↦ ground (arith, e, e', h)
      | inr (bs, e') ↦
          let whole : bytes ≡ b ++ bs = ground (arith, e, e', h) in
          rw
            (
              whole,
              append_assoc b bs rest,
              law c v b (bs ++ rest) e,
              deserialize_fields,
              deserialize-serialize_fields cs vs bs rest e',
            )
            refl
    ]
  ]

  -- What is read from a record that was written.
  module _ (cs : List C) (row txn : ℕ) (vs : List V) (bytes : Bytes) (small_row : row < 2 ^ 64)
      (small_txn : txn < 2 ^ 64) (h : serialize_record field cs row vs txn ≡ some bytes) where
    serialize_record-parts :
        (bs : Bytes) × (serialize_fields field cs vs ≡ some bs)
        × (bytes ≡ header_bytes (new_header cs row txn) ++ bs)
    unfolding serialize_record
    serialize_record-parts = elim (Bool-cases (length vs == length cs)) [
      | inr other ↦ ground (arith, other, h)
      | inl same ↦ elim (Option-cases (serialize_fields field cs vs)) [
        | inl e ↦ ground (arith, same, e, h)
        | inr (bs, e) ↦ (bs, e, ground (arith, same, e, h))
      ]
    ]

    pub read_header-serialize_record : read_header bytes ≡ some (new_header cs row txn)
    read_header-serialize_record =
        let (bs, e, whole) = serialize_record-parts in
        rw whole (
          read_header-header_bytes (new_header cs row txn) bs small_row small_txn (omega arith)
            (omega arith))

    pub deserialize_fields-serialize_record :
        deserialize_fields read cs (drop record_header_size bytes)
        ≡ some (stored_fields stored cs vs)
    deserialize_fields-serialize_record =
        let (bs, e, whole) = serialize_record-parts in
        let header = new_header cs row txn in
        rw
          (
            whole,
            drop-append_of_length record_header_size (header_bytes header) bs
                (length-header_bytes header bs),
          )
          (subst (λ b. deserialize_fields read cs b ≡ some (stored_fields stored cs vs))
            (append-nil bs) (deserialize-serialize_fields cs vs bs [] e))

    pub length-serialize_record : record_header_size ≤ length bytes
    length-serialize_record =
        let (bs, e, whole) = serialize_record-parts in
        let header = new_header cs row txn in
        rw whole
          (omega (arith, length-append (header_bytes header) bs, length-header_bytes header bs))
