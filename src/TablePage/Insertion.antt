-- ===== src/TablePage/Insertion.antt =====
-- insertRecord and insertTuple of src/storage/table_page.cpp: when they insert, and what they keep.
use qin_db.Shared.{
  ℕ, ◌+◌, ◌-◌, ◌*◌, ◌%◌, ◌≤◌, ◌<◌, ◌≡◌, ◌↔◌, subst, ◌⊎◌, inl, inr, true, false, arith, length, ltb,
  Bool-cases,
}
use qin_db.Page.{Page, page_size, header_size}
use qin_db.Page.LittleEndian.{Bytes}
use qin_db.Page.Slices.{read_le-Agree}
use qin_db.TablePage.{
  slot_size, u16_mod, slot_count, free_space_offset, slot_offset, slot_length, add_record,
  get_free_space, place,
}
use qin_db.TablePage.Layout.{
  IsTablePage, length-add_record, slot_count-add_record, free_space_offset-add_record,
  slot_offset-add_record, slot_length-add_record, add_record-Agree,
}

-- On a page that is laid out well, a record is refused if fewer than eight bytes are free beside its
-- own, and else it is put right before the records that are there.
pub place-cases :
    (bytes : Bytes) (p : Page)
    → IsTablePage p
    → ((get_free_space p < length bytes % u16_mod + 8) × (place bytes p ≡ (p, false)))
      ⊎ ((length bytes % u16_mod + 8 ≤ get_free_space p)
          × (place bytes p ≡ (
            add_record
                (free_space_offset p - length bytes % u16_mod)
                (length bytes % u16_mod)
                (free_space_offset p
                  - (header_size + (slot_count p + 1) * slot_size)
                  - (length bytes % u16_mod + slot_size))
                bytes
                p,
            true,
          )))
unfolding place get_free_space
place-cases bytes p v =
    let fits = v.fits in
    let free = v.free in
    elim (Bool-cases (ltb (get_free_space p) (length bytes % u16_mod + 8))) [
      | inl less ↦ inl (ground arith, ground arith)
      | inr more ↦ inr (ground arith, ground arith)
    ]

-- What an insertion at `offset` leaves of the page.
module _ (offset size space : ℕ) (bytes : Bytes) (p : Page) (whole : length p.bytes ≡ page_size)
    (given : size ≤ length bytes)
    (after_slots : header_size + slot_size * slot_count p + slot_size ≤ offset)
    (inside : offset + size ≤ page_size) (small : space < u16_mod) where
  pub slot_offset-add_record_old :
      (i : ℕ)
      → i < slot_count p
      → slot_offset i (add_record offset size space bytes p) ≡ slot_offset i p
  unfolding slot_offset
  slot_offset-add_record_old i h =
      let at = header_size + slot_size * i in
      read_le-Agree 2 at (add_record offset size space bytes p).bytes p.bytes (
        add_record-Agree offset size space bytes p whole given after_slots inside small at (at + 2)
          (omega arith) (inl (omega arith)))

  pub slot_length-add_record_old :
      (i : ℕ)
      → i < slot_count p
      → slot_length i (add_record offset size space bytes p) ≡ slot_length i p
  unfolding slot_length
  slot_length-add_record_old i h =
      let at = header_size + slot_size * i + 2 in
      read_le-Agree 2 at (add_record offset size space bytes p).bytes p.bytes (
        add_record-Agree offset size space bytes p whole given after_slots inside small at (at + 2)
          (omega arith) (inl (omega arith)))

  -- Every slot of the new page is an old one or the new one.
  Placed : ℕ → Type 0
  Placed i =
      ((i < slot_count p)
        × (slot_offset i (add_record offset size space bytes p) ≡ slot_offset i p)
        × (slot_length i (add_record offset size space bytes p) ≡ slot_length i p))
      ⊎ ((i ≡ slot_count p)
          × (slot_offset i (add_record offset size space bytes p) ≡ offset)
          × (slot_length i (add_record offset size space bytes p) ≡ size))

  placed : (i : ℕ) → i < slot_count p + 1 → Placed i
  unfolding Placed
  placed i h = elim (Bool-cases (ltb i (slot_count p))) [
    | inl old ↦ inl (
      ground arith,
      slot_offset-add_record_old i (ground arith),
      slot_length-add_record_old i (ground arith),
    )
    | inr new ↦
        let e : i ≡ slot_count p = ground arith in
        inr (
          e,
          rw e (
              slot_offset-add_record offset size space bytes p whole given after_slots inside
                small),
          rw e (
              slot_length-add_record offset size space bytes p whole given after_slots inside
                small),
        )
  ]

  pub add_record-IsTablePage :
      IsTablePage p
      → offset + size ≤ free_space_offset p
      → IsTablePage (add_record offset size space bytes p)
  unfolding Placed
  add_record-IsTablePage v below =
      let count =
        slot_count-add_record offset size space bytes p whole given after_slots inside small in
      let start =
        free_space_offset-add_record offset size space bytes p whole given after_slots inside
          small in
      record {
        size = length-add_record offset size space bytes p whole given after_slots inside small;
        fits = omega (arith, count, start);
        free = omega (arith, start);
        low = λ i h.
            let in_old = λ (o : i < slot_count p). v.low i o in
            ground (arith, start, placed i (omega (arith, count)), in_old);
        high = λ i h.
            let in_old = λ (o : i < slot_count p). v.high i o in
            ground (arith, placed i (omega (arith, count)), in_old);
        apart = λ i j h k d. ground (
          arith,
          placed i (omega (arith, count)),
          placed j (omega (arith, count)),
          v.apart i j,
          v.low i,
          v.low j,
        );
      }

module _ (bytes : Bytes) (p : Page) (v : IsTablePage p) where
  -- An insertion keeps the page laid out well, whether it succeeds or not.
  pub place-IsTablePage : IsTablePage (place bytes p).0
  unfolding get_free_space
  place-IsTablePage =
      let fits = v.fits in
      let free = v.free in
      elim (place-cases bytes p v) [
        | inl (full, same) ↦ rw same v
        | inr (room, done) ↦
            let wide : header_size + slot_size * slot_count p + 4 + length bytes % u16_mod + 4
                ≤ free_space_offset p =
              ground arith in
            rw done (
              add_record-IsTablePage (free_space_offset p - length bytes % u16_mod)
                (length bytes % u16_mod)
                (free_space_offset p
                  - (header_size + (slot_count p + 1) * slot_size)
                  - (length bytes % u16_mod + slot_size))
                bytes p v.size (omega arith) (omega arith) (omega arith) (omega arith) v
                (omega arith))
      ]

  -- An insertion into a page that is laid out well succeeds exactly if the size of the record,
  -- taken modulo 65536, and eight bytes more are free.
  pub place_iff : ((place bytes p).1 ≡ true) ↔ (length bytes % u16_mod + 8 ≤ get_free_space p)
  place_iff = elim (place-cases bytes p v) [
    | inl (full, same) ↦ (λ h. ground (arith, same, h), λ h. absurd (omega (arith, full, h)))
    | inr (room, done) ↦ (λ h. room, λ h. ground (arith, done))
  ]

-- A record of less than 65536 bytes that is inserted is put between the slots and the other records.
pub place-succeeds :
    (bytes : Bytes) (p : Page)
    → IsTablePage p
    → length bytes < u16_mod
    → (place bytes p).1 ≡ true
    → (offset : ℕ) × (space : ℕ) × (header_size + slot_size * slot_count p + slot_size ≤ offset)
      × (offset + length bytes ≤ free_space_offset p)
      × (space < u16_mod)
      × (place bytes p ≡ (add_record offset (length bytes) space bytes p, true))
unfolding get_free_space
place-succeeds bytes p v short h =
    let fits = v.fits in
    let free = v.free in
    let whole : length bytes % u16_mod ≡ length bytes = omega arith in
    elim (place-cases bytes p v) [
      | inl (full, same) ↦ absurd (ground (arith, same, h))
      | inr (room, done) ↦ (
        free_space_offset p - length bytes,
        free_space_offset p
            - (header_size + (slot_count p + 1) * slot_size)
            - (length bytes + slot_size),
        ground arith,
        ground arith,
        omega arith,
        subst
            (λ n. place bytes p ≡ (
              add_record (free_space_offset p - n) n
                  (free_space_offset p
                    - (header_size + (slot_count p + 1) * slot_size)
                    - (n + slot_size))
                  bytes p,
              true,
            ))
            whole done,
      )
    ]
