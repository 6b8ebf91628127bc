-- ===== src/Wal/Layout.antt =====
-- A record of src/storage/wal.cpp as bytes, whole or torn.
use qin_db.Shared.{
  ℕ, ◌+◌, ◌*◌, ◌%◌, ◌^◌, ◌<◌, ◌≡◌, refl, ◌∙◌, ap, true, List, [], ◌∷◌, ◌++◌, arith, length, ==_refl,
  length-append,
}
use qin_db.Page.LittleEndian.{Bytes, le_bytes}
use qin_db.Page.Structs.{read_le-struct}
use qin_db.Wal.{
  WalRecordHeader, WalRecord, wal_header_size, header_fields, wal_header_bytes, read_wal_header,
  sum_bytes, calculate_wal_checksum, verify_wal_checksum, stamped,
}

-- Every field of the header fits its width.
pub record Fits (h : WalRecordHeader) : Type 0 where
  pub record_type : h.record_type < 2 ^ 8
  pub reserved_1 : h.reserved_1 < 2 ^ 8
  pub data_size : h.data_size < 2 ^ 16
  pub txn_id : h.txn_id < 2 ^ 64
  pub lsn : h.lsn < 2 ^ 64
  pub checksum : h.checksum < 2 ^ 32
  pub reserved_2 : h.reserved_2 < 2 ^ 32

-- A record as it is written: its size is that of its data, and its checksum is right.
pub record IsWhole (r : WalRecord) : Type 0 where
  pub fits : Fits r.header
  pub size : r.header.data_size ≡ length r.payload
  pub sound : verify_wal_checksum r ≡ true

unfoldable pub record_bytes : WalRecord → Bytes
unfolding wal_header_bytes
record_bytes r = wal_header_bytes r.header ++ r.payload

unfoldable pub log_bytes : List WalRecord → Bytes
unfolding record_bytes
log_bytes [] = []
log_bytes (r ∷ rs) = record_bytes r ++ log_bytes rs

pub length-wal_header_bytes : (h : WalRecordHeader) → length (wal_header_bytes h) ≡ wal_header_size
unfolding wal_header_bytes le_bytes
length-wal_header_bytes h = refl

pub length-record_bytes :
    (r : WalRecord) → length (record_bytes r) ≡ wal_header_size + length r.payload
unfolding record_bytes
length-record_bytes r =
    length-append (wal_header_bytes r.header) r.payload
    ∙ ap (λ n. n + length r.payload) (length-wal_header_bytes r.header)

pub read_wal_header-wal_header_bytes :
    (h : WalRecordHeader) → Fits h → read_wal_header (wal_header_bytes h) ≡ h
unfolding read_wal_header wal_header_bytes
read_wal_header-wal_header_bytes h v =
    let fields = header_fields h in
    rw
      (
        read_le-struct fields 0 1 h.record_type refl v.record_type,
        read_le-struct fields 1 1 h.reserved_1 refl v.reserved_1,
        read_le-struct fields 2 2 h.data_size refl v.data_size,
        read_le-struct fields 3 8 h.txn_id refl v.txn_id,
        read_le-struct fields 4 8 h.lsn refl v.lsn,
        read_le-struct fields 5 4 h.checksum refl v.checksum,
        read_le-struct fields 6 4 h.reserved_2 refl v.reserved_2,
      )
      refl

-- stamped gives a record whose data are short a right size and a right checksum.
sum_bytes-lt : (acc : ℕ) (bs : Bytes) → acc < 2 ^ 32 → sum_bytes acc bs < 2 ^ 32
unfolding sum_bytes
sum_bytes-lt acc [] h = h
sum_bytes-lt acc (b ∷ bs) h = sum_bytes-lt ((acc * 33 + b % 256) % 2 ^ 32) bs (omega arith)

checksum_head-lt :
    (h : WalRecordHeader)
    → sum_bytes
        (sum_bytes (sum_bytes 0 (le_bytes 1 h.record_type)) (le_bytes 8 h.txn_id))
        (le_bytes 8 h.lsn)
      < 2 ^ 32
checksum_head-lt h =
    sum_bytes-lt _ (le_bytes 8 h.lsn) (
      sum_bytes-lt _ (le_bytes 8 h.txn_id)
        (sum_bytes-lt 0 (le_bytes 1 h.record_type) (omega arith)))

pub calculate_wal_checksum-lt : (r : WalRecord) → calculate_wal_checksum r < 2 ^ 32
unfolding calculate_wal_checksum
calculate_wal_checksum-lt r = sum_bytes-lt _ r.payload (checksum_head-lt r.header)

pub stamped-IsWhole :
    (lsn : ℕ) (r : WalRecord)
    → Fits r.header
    → lsn < 2 ^ 64
    → length r.payload < 2 ^ 16
    → IsWhole (stamped lsn r)
unfolding stamped verify_wal_checksum calculate_wal_checksum
stamped-IsWhole lsn r v small short = record {
  fits = record {
    record_type = v.record_type;
    reserved_1 = v.reserved_1;
    data_size = omega arith;
    txn_id = v.txn_id;
    lsn = small;
    checksum = calculate_wal_checksum-lt (record r {
      header = record r.header { lsn = lsn; data_size = length r.payload % 2 ^ 16 };
    });
    reserved_2 = v.reserved_2;
  };
  size = omega arith;
  sound = ==_refl _;
}
