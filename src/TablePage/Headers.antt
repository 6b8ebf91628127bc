-- ===== src/TablePage/Headers.antt =====
-- The header of a record as serializeRecord of src/storage/table_page.cpp writes it.
use qin_db.Shared.{
  ℕ, ◌+◌, ◌^◌, ◌<◌, ◌≡◌, refl, sym, subst, ap, some, length-append, drop-append, ◌++◌, arith,
  length, drop,
}
use qin_db.Page.LittleEndian.{Bytes, le_bytes, read_le}
use qin_db.Page.Structs.{read_le-skip, read_le-le_bytes, length-le_bytes}
use qin_db.Visibility.{RecordHeader}
use qin_db.TablePage.{record_header_size, header_bytes}
use qin_db.TablePage.Records.{read_header}

pub drop-append_of_length : (n : ℕ) (bs cs : Bytes) → length bs ≡ n → drop n (bs ++ cs) ≡ cs
drop-append_of_length n bs cs h = subst (λ k. drop k (bs ++ cs) ≡ cs) h (drop-append bs cs)

-- The header at the front of a record's bytes is the one that was written.
module _ (h : RecordHeader) (rest : Bytes) where
  pub length-header_bytes : length (header_bytes h) ≡ record_header_size
  unfolding header_bytes
  length-header_bytes = refl

  past_delete : Bytes
  past_delete = le_bytes 2 h.column_count ++ rest

  past_create : Bytes
  past_create = le_bytes 8 h.delete_txn_id ++ past_delete

  past_row : Bytes
  past_row = le_bytes 8 h.create_txn_id ++ past_create

  header_bytes-parts : header_bytes h ++ rest ≡ le_bytes 8 h.row_id ++ past_row
  unfolding header_bytes past_row past_create past_delete
  header_bytes-parts = refl

  past_row-at : (n off : ℕ) → read_le n (8 + off) (header_bytes h ++ rest) ≡ read_le n off past_row
  unfolding le_bytes
  past_row-at n off =
      rw (header_bytes-parts, sym (length-le_bytes 8 h.row_id))
        (read_le-skip n off (le_bytes 8 h.row_id) past_row)

  past_create-at : (n off : ℕ) → read_le n (8 + off) past_row ≡ read_le n off past_create
  unfolding past_row le_bytes
  past_create-at n off =
      rw (sym (length-le_bytes 8 h.create_txn_id))
        (read_le-skip n off (le_bytes 8 h.create_txn_id) past_create)

  past_delete-at : (n off : ℕ) → read_le n (8 + off) past_create ≡ read_le n off past_delete
  unfolding past_create le_bytes
  past_delete-at n off =
      rw (sym (length-le_bytes 8 h.delete_txn_id))
        (read_le-skip n off (le_bytes 8 h.delete_txn_id) past_delete)

  pub read_header-header_bytes :
      h.row_id < 2 ^ 64
      → h.create_txn_id < 2 ^ 64
      → h.delete_txn_id < 2 ^ 64
      → h.column_count < 2 ^ 16
      → read_header (header_bytes h ++ rest) ≡ some h
  unfolding read_header past_row past_create past_delete
  read_header-header_bytes row create delete count = ground (
    arith,
    length-append (header_bytes h) rest,
    length-header_bytes,
    ap (read_le 8 0) header_bytes-parts,
    read_le-le_bytes 8 h.row_id past_row row,
    past_row-at 8 0,
    read_le-le_bytes 8 h.create_txn_id past_create create,
    past_row-at 8 8,
    past_create-at 8 0,
    read_le-le_bytes 8 h.delete_txn_id past_delete delete,
    past_row-at 2 16,
    past_create-at 2 8,
    past_delete-at 2 0,
    read_le-le_bytes 2 h.column_count rest count,
  )
