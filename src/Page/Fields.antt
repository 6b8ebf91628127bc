-- ===== src/Page/Fields.antt =====
-- The header fields of a page are independent of one another.
use qin_db.Shared.{ℕ, ◌^◌, ◌<◌, ◌≡◌, inl, inr, arith, length}
use qin_db.Page.LittleEndian.{read_le-write_le, read_le-write_le_ne, length-write_le}
use qin_db.Page.{
  Page, page_size, get_field, get_page_id, set_page_id, get_page_type, get_next_page_id,
  get_prev_page_id, checksum_offset, get_field,
}

-- Setting the id of a page of full size to a 32-bit number makes it the id that is read back, and
-- leaves the type, both links and the stored checksum of the page and its size as they were.
set_page_id_lem :
    (p : Page) (id : ℕ)
    → length p.bytes ≡ page_size
    → id < 2 ^ 32
    → (get_page_id (set_page_id id p) ≡ id)
      × (get_page_type (set_page_id id p) ≡ get_page_type p)
      × (get_next_page_id (set_page_id id p) ≡ get_next_page_id p)
      × (get_prev_page_id (set_page_id id p) ≡ get_prev_page_id p)
      × (get_field 4 checksum_offset (set_page_id id p) ≡ get_field 4 checksum_offset p)
      × (length (set_page_id id p).bytes ≡ page_size)
unfolding get_page_id set_page_id get_page_type get_next_page_id get_prev_page_id
set_page_id_lem p id size small = (
  read_le-write_le 4 8 id p.bytes (omega arith) (omega arith),
  read_le-write_le_ne 1 0 4 8 id p.bytes (inl (omega arith)),
  read_le-write_le_ne 4 12 4 8 id p.bytes (inr (omega arith)),
  read_le-write_le_ne 4 16 4 8 id p.bytes (inr (omega arith)),
  read_le-write_le_ne 4 28 4 8 id p.bytes (inr (omega arith)),
  omega (arith, length-write_le 4 8 id p.bytes),
)
