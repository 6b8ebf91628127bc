-- ===== src/TablePage/Layout.antt =====
-- What holds of a page that src/storage/table_page.cpp has laid out, and what the writes of an
-- insertion leave where it was.
use qin_db.Shared.{
  ℕ, zero, suc, ◌+◌, ◌*◌, ◌%◌, ◌≤◌, ◌<◌, ◌≡◌, ◌≢◌, refl, subst, ◌∙◌, ◌⊎◌, inl, inr, List, [], ◌∷◌,
  arith, length, take,
}
use qin_db.Page.{Page, page_size, header_size}
use qin_db.Page.LittleEndian.{
  Bytes, write_le, length-write_le, read_le-write_le, read_le-write_le_ne,
}
use qin_db.Page.Slices.{
  Agree, read_bytes, read_bytes-Agree, read_bytes-write_bytes, write_bytes, length-write_bytes,
  write_bytes-Agree, write_le-Agree,
}
use qin_db.TablePage.{
  slot_size, u16_mod, slot_count, free_space_offset, slot_offset, slot_length, add_record,
}

-- The slots end before the records begin; each record lies between there and the end of the page;
-- no two records overlap.
pub record IsTablePage (p : Page) : Type 0 where
  pub size : length p.bytes ≡ page_size
  pub fits : header_size + slot_size * slot_count p ≤ free_space_offset p
  pub free : free_space_offset p ≤ page_size
  pub low : (i : ℕ) → i < slot_count p → free_space_offset p ≤ slot_offset i p
  pub high : (i : ℕ) → i < slot_count p → slot_offset i p + slot_length i p ≤ page_size
  pub apart :
      (i j : ℕ)
      → i < slot_count p
      → j < slot_count p
      → i ≢ j
      → (slot_offset i p + slot_length i p ≤ slot_offset j p)
        ⊎ (slot_offset j p + slot_length j p ≤ slot_offset i p)

pub length-take {ℓ} : {A : Type ℓ} (n : ℕ) (xs : List A) → n ≤ length xs → length (take n xs) ≡ n
length-take zero xs h = refl
length-take (suc n) [] h = absurd (omega arith)
length-take (suc n) (x ∷ xs) h = omega (arith, length-take n xs)

-- An insertion at an offset between the slots and the end of the page.
module _ (offset size space : ℕ) (bytes : Bytes) (p : Page) (whole : length p.bytes ≡ page_size)
    (given : size ≤ length bytes)
    (after_slots : header_size + slot_size * slot_count p + slot_size ≤ offset)
    (inside : offset + size ≤ page_size) (small : space < u16_mod) where
  record_bytes : Bytes
  record_bytes = write_bytes offset (take size bytes) p.bytes

  offset_bytes : Bytes
  offset_bytes = write_le 2 (header_size + slot_size * slot_count p) offset record_bytes

  slot_bytes : Bytes
  slot_bytes = write_le 2 (header_size + slot_size * slot_count p + 2) size offset_bytes

  count_bytes : Bytes
  count_bytes = write_le 2 2 ((slot_count p + 1) % u16_mod) slot_bytes

  free_bytes : Bytes
  free_bytes = write_le 2 4 offset count_bytes

  length-record_bytes : length record_bytes ≡ page_size
  unfolding record_bytes
  length-record_bytes = length-write_bytes offset (take size bytes) p.bytes ∙ whole

  length-slot_bytes : length slot_bytes ≡ page_size
  unfolding slot_bytes offset_bytes
  length-slot_bytes = omega (
    arith,
    length-write_le 2 (header_size + slot_size * slot_count p + 2) size offset_bytes,
    length-write_le 2 (header_size + slot_size * slot_count p) offset record_bytes,
    length-record_bytes,
  )

  length-free_bytes : length free_bytes ≡ page_size
  unfolding free_bytes count_bytes
  length-free_bytes = omega (
    arith,
    length-write_le 2 4 offset count_bytes,
    length-write_le 2 2 ((slot_count p + 1) % u16_mod) slot_bytes,
    length-slot_bytes,
  )

  pub length-add_record : length (add_record offset size space bytes p).bytes ≡ page_size
  unfolding add_record free_bytes count_bytes slot_bytes offset_bytes record_bytes
  length-add_record = length-write_le 2 6 space free_bytes ∙ length-free_bytes

  pub slot_count-add_record : slot_count (add_record offset size space bytes p) ≡ slot_count p + 1
  unfolding add_record slot_count free_bytes count_bytes slot_bytes offset_bytes record_bytes
  slot_count-add_record = omega (
    arith,
    read_le-write_le_ne 2 2 2 6 space free_bytes (inl (omega arith)),
    read_le-write_le_ne 2 2 2 4 offset count_bytes (inl (omega arith)),
    read_le-write_le 2 2 ((slot_count p + 1) % u16_mod) slot_bytes
        (omega (arith, length-slot_bytes)) (omega arith),
  )

  pub free_space_offset-add_record :
      free_space_offset (add_record offset size space bytes p) ≡ offset
  unfolding add_record free_space_offset free_bytes count_bytes slot_bytes offset_bytes record_bytes
  free_space_offset-add_record = omega (
    arith,
    read_le-write_le_ne 2 4 2 6 space free_bytes (inl (omega arith)),
    read_le-write_le 2 4 offset count_bytes
        (omega
          (arith, length-write_le 2 2 ((slot_count p + 1) % u16_mod) slot_bytes, length-slot_bytes))
        (omega arith),
  )

  -- The new slot says where the record is.
  pub slot_offset-add_record :
      slot_offset (slot_count p) (add_record offset size space bytes p) ≡ offset
  unfolding add_record slot_offset free_bytes count_bytes slot_bytes offset_bytes record_bytes
  slot_offset-add_record =
      let at = header_size + slot_size * slot_count p in
      omega (
        arith,
        read_le-write_le_ne 2 at 2 6 space free_bytes (inr (omega arith)),
        read_le-write_le_ne 2 at 2 4 offset count_bytes (inr (omega arith)),
        read_le-write_le_ne 2 at 2 2 ((slot_count p + 1) % u16_mod) slot_bytes (inr (omega arith)),
        read_le-write_le_ne 2 at 2 (at + 2) size offset_bytes (inl (omega arith)),
        read_le-write_le 2 at offset record_bytes (omega (arith, length-record_bytes))
            (omega arith),
      )

  pub slot_length-add_record :
      slot_length (slot_count p) (add_record offset size space bytes p) ≡ size
  unfolding add_record slot_length free_bytes count_bytes slot_bytes offset_bytes record_bytes
  slot_length-add_record =
      let at = header_size + slot_size * slot_count p + 2 in
      omega (
        arith,
        read_le-write_le_ne 2 at 2 6 space free_bytes (inr (omega arith)),
        read_le-write_le_ne 2 at 2 4 offset count_bytes (inr (omega arith)),
        read_le-write_le_ne 2 at 2 2 ((slot_count p + 1) % u16_mod) slot_bytes (inr (omega arith)),
        read_le-write_le 2 at size offset_bytes
            (omega (
              arith,
              length-record_bytes,
              length-write_le 2 (header_size + slot_size * slot_count p) offset record_bytes,
            ))
            (omega arith),
      )

  -- Outside the header, the new slot and the new record, the page keeps its bytes.
  pub add_record-Agree :
      (lo hi : ℕ)
      → 8 ≤ lo
      → (hi ≤ header_size + slot_size * slot_count p)
        ⊎ ((header_size + slot_size * slot_count p + slot_size ≤ lo)
            × ((hi ≤ offset) ⊎ (offset + size ≤ lo)))
      → Agree lo hi (add_record offset size space bytes p).bytes p.bytes
  unfolding add_record free_bytes count_bytes slot_bytes offset_bytes record_bytes
  add_record-Agree lo hi from outside i l u =
      let at = header_size + slot_size * slot_count p in
      write_le-Agree lo hi 2 6 space free_bytes (inr (omega arith)) i l u
      ∙ write_le-Agree lo hi 2 4 offset count_bytes (inr (omega arith)) i l u
      ∙ write_le-Agree lo hi 2 2 ((slot_count p + 1) % u16_mod) slot_bytes (inr (omega arith)) i l u
      ∙ write_le-Agree lo hi 2 (at + 2) size offset_bytes (ground arith) i l u
      ∙ write_le-Agree lo hi 2 at offset record_bytes (ground arith) i l u
      ∙ write_bytes-Agree lo hi offset (take size bytes) p.bytes
          (ground (arith, length-take size bytes given)) i l u

  -- The record itself is in the page.
  pub add_record-record :
      read_bytes size offset (add_record offset size space bytes p).bytes ≡ take size bytes
  unfolding add_record free_bytes count_bytes slot_bytes offset_bytes record_bytes
  add_record-record =
      let at = header_size + slot_size * slot_count p in
      let same : Agree offset (offset + size) (write_le 2 6 space free_bytes) record_bytes =
        λ i l u.
          write_le-Agree offset (offset + size) 2 6 space free_bytes (inr (omega arith)) i l u
          ∙ write_le-Agree offset (offset + size) 2 4 offset count_bytes (inr (omega arith)) i l u
          ∙ write_le-Agree offset (offset + size) 2 2 ((slot_count p + 1) % u16_mod) slot_bytes
              (inr (omega arith)) i l u
          ∙ write_le-Agree offset (offset + size) 2 (at + 2) size offset_bytes (inr (omega arith)) i
              l u
          ∙ write_le-Agree offset (offset + size) 2 at offset record_bytes (inr (omega arith)) i l
              u in
      read_bytes-Agree size offset (write_le 2 6 space free_bytes) record_bytes same
      ∙ subst
          (λ n.
            read_bytes n offset (write_bytes offset (take size bytes) p.bytes) ≡ take size bytes)
          (length-take size bytes given)
          (read_bytes-write_bytes offset (take size bytes) p.bytes
            (omega (arith, length-take size bytes given)))
