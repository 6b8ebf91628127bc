-- ===== src/Page.antt =====
-- include/qindb/page.h and src/storage/page.cpp: a page of 8192 bytes, its packed header of 32 bytes
-- and its checksum.
--
-- The bytes of a page are a list of numbers below 256; a header field is read and written as
-- little-endian bytes at its offset in the packed struct.
pub mod LittleEndian
pub mod Fields
pub mod Checksum
pub mod Slices
pub mod Structs
use qin_db.Shared.{
  ℕ, suc, ◌+◌, ◌*◌, ◌/◌, ◌%◌, ◌^◌, ◌-◌, ◌≡◌, Bool, true, false, List, [], ◌∷◌, ltb, ◌==◌,
  if◌then◌else◌, take, drop, replicate,
}
use LittleEndian.{Bytes, read_le, write_le}

-- PAGE_SIZE and sizeof(PageHeader).
abbrev pub page_size : ℕ
page_size = 8192

abbrev pub header_size : ℕ
header_size = 32

-- The offsets of the fields of PageHeader in the packed struct.
abbrev pub page_type_offset : ℕ
page_type_offset = 0

abbrev pub slot_count_offset : ℕ
slot_count_offset = 2

abbrev pub free_space_offset_offset : ℕ
free_space_offset_offset = 4

abbrev pub free_space_size_offset : ℕ
free_space_size_offset = 6

abbrev pub page_id_offset : ℕ
page_id_offset = 8

abbrev pub next_page_id_offset : ℕ
next_page_id_offset = 12

abbrev pub prev_page_id_offset : ℕ
prev_page_id_offset = 16

abbrev pub last_modified_txn_id_offset : ℕ
last_modified_txn_id_offset = 20

abbrev pub checksum_offset : ℕ
checksum_offset = 28

pub record Page : Type 0 where
  pub bytes : Bytes
  pub pin_count : ℕ
  pub is_dirty : Bool

-- Reading and writing a field of `n` bytes of the header.
unfoldable pub get_field : ℕ → ℕ → Page → ℕ
unfolding read_le
get_field n off p = read_le n off p.bytes

unfoldable pub set_field : ℕ → ℕ → ℕ → Page → Page
unfolding write_le
set_field n off v p = record p { bytes = write_le n off v p.bytes }

unfoldable pub get_page_id : Page → ℕ
unfolding get_field
get_page_id = get_field 4 page_id_offset

unfoldable pub set_page_id : ℕ → Page → Page
unfolding set_field
set_page_id = set_field 4 page_id_offset

unfoldable pub get_page_type : Page → ℕ
unfolding get_field
get_page_type = get_field 1 page_type_offset

unfoldable pub set_page_type : ℕ → Page → Page
unfolding set_field
set_page_type = set_field 1 page_type_offset

unfoldable pub get_next_page_id : Page → ℕ
unfolding get_field
get_next_page_id = get_field 4 next_page_id_offset

unfoldable pub set_next_page_id : ℕ → Page → Page
unfolding set_field
set_next_page_id = set_field 4 next_page_id_offset

unfoldable pub get_prev_page_id : Page → ℕ
unfolding get_field
get_prev_page_id = get_field 4 prev_page_id_offset

unfoldable pub set_prev_page_id : ℕ → Page → Page
unfolding set_field
set_prev_page_id = set_field 4 prev_page_id_offset

-- 8192 zero bytes.
unfoldable pub zero_bytes : Bytes
zero_bytes = replicate page_size 0

-- reset: zeros, then the constructor of PageHeader. Only two of its fields are not zero.
unfoldable pub reset : Page → Page
unfolding zero_bytes set_field
reset p = set_field 2 free_space_size_offset (page_size - header_size) (
    set_field 2 free_space_offset_offset header_size
      (record { bytes = zero_bytes; pin_count = 0; is_dirty = false }))

unfoldable pub pin : Page → Page
pin p = record p { pin_count = p.pin_count + 1 }

-- unpin does nothing at 0.
unfoldable pub unpin : Page → Page
unpin p = if ltb 0 p.pin_count then record p { pin_count = p.pin_count - 1 } else p

unfoldable pub set_dirty : Bool → Page → Page
set_dirty d p = record p { is_dirty = d }

-- A uint32_t accumulator over bytes.
unfoldable pub add_bytes : ℕ → Bytes → ℕ
add_bytes acc [] = acc
add_bytes acc (b ∷ bs) = add_bytes ((acc + b) % 2 ^ 32) bs

-- calculateChecksum: the bytes before the checksum field, then those after the header.
unfoldable pub calculate_checksum : Page → ℕ
unfolding add_bytes
calculate_checksum p =
    add_bytes (add_bytes 0 (take checksum_offset p.bytes)) (drop header_size p.bytes)

unfoldable pub verify_checksum : Page → Bool
unfolding get_field calculate_checksum
verify_checksum p = get_field 4 checksum_offset p == calculate_checksum p

unfoldable pub update_checksum : Page → Page
unfolding set_field calculate_checksum
update_checksum p = set_field 4 checksum_offset (calculate_checksum p) p
