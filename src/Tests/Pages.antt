-- ===== src/Tests/Pages.antt =====
-- Pages: the fields of a zero page and the checksum of a short one.
use qin_db.Shared.{ℕ, ◌≡◌, false, ◌∷◌, [], ◌++◌, length, replicate, length-replicate}
use qin_db.Page.{Page, page_size, zero_bytes}

abbrev zero_page : Page
zero_page = record { bytes = zero_bytes; pin_count = 0; is_dirty = false }

pub zero_page_size : length zero_bytes ≡ page_size
unfolding zero_bytes
zero_page_size = length-replicate {A = ℕ} page_size 0

-- The first 34 bytes of a page: 5 at the front, the checksum 12, and 7 behind the header.
abbrev short_page : Page
short_page = record {
  bytes = 5 ∷ (replicate 27 0 ++ (12 ∷ 0 ∷ 0 ∷ 0 ∷ 7 ∷ 0 ∷ []));
  pin_count = 0;
  is_dirty = false;
}
