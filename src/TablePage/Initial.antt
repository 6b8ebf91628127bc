-- ===== src/TablePage/Initial.antt =====
-- A new page, as init of src/storage/table_page.cpp leaves it.
use qin_db.Shared.{ℕ, ◌-◌, refl, ◌≡◌, ◌∙◌, inl, arith, length, length-replicate}
use qin_db.Page.LittleEndian.{
  Bytes, write_le, length-write_le, read_le-write_le, read_le-write_le_ne,
}
use qin_db.Page.{
  Page, page_size, header_size, zero_bytes, reset, set_field, set_page_type, set_page_id,
  set_next_page_id, set_prev_page_id, get_field,
}
use qin_db.TablePage.{init, slot_count, free_space_offset, table_page_type}
use qin_db.TablePage.Layout.{IsTablePage}

module _ (id : ℕ) (p : Page) where
  typed : Page
  typed = set_page_id id (set_page_type table_page_type (reset p))

  length-typed : length typed.bytes ≡ page_size
  unfolding typed set_page_id set_page_type set_field reset zero_bytes
  length-typed =
      let zeros = length-replicate {A = ℕ} page_size 0 in
      let start = write_le 2 4 header_size zero_bytes in
      let free = write_le 2 6 (page_size - header_size) start in
      let kind = write_le 1 0 table_page_type free in
      length-write_le 4 8 id kind
      ∙ length-write_le 1 0 table_page_type free
      ∙ length-write_le 2 6 (page_size - header_size) start
      ∙ length-write_le 2 4 header_size zero_bytes
      ∙ zeros

  counted : Bytes
  counted = write_le 2 2 0 typed.bytes

  started : Bytes
  started = write_le 2 4 page_size counted

  spaced : Bytes
  spaced = write_le 2 6 (page_size - header_size) started

  linked : Bytes
  linked = write_le 4 12 0 spaced

  init-linked : (init id p).bytes ≡ write_le 4 16 0 linked
  unfolding init typed counted started spaced linked set_page_id set_page_type set_field
      set_next_page_id set_prev_page_id
  init-linked = refl

  length-counted : length counted ≡ page_size
  unfolding counted
  length-counted = length-write_le 2 2 0 typed.bytes ∙ length-typed

  length-init : length (init id p).bytes ≡ page_size
  unfolding linked spaced started
  length-init = rw init-linked (
      length-write_le 4 16 0 linked
      ∙ length-write_le 4 12 0 spaced
      ∙ length-write_le 2 6 (page_size - header_size) started
      ∙ length-write_le 2 4 page_size counted
      ∙ length-counted)

  pub slot_count-init : slot_count (init id p) ≡ 0
  unfolding slot_count get_field linked spaced started counted
  slot_count-init = rw init-linked (
      read_le-write_le_ne 2 2 4 16 0 linked (inl (omega arith))
      ∙ read_le-write_le_ne 2 2 4 12 0 spaced (inl (omega arith))
      ∙ read_le-write_le_ne 2 2 2 6 (page_size - header_size) started (inl (omega arith))
      ∙ read_le-write_le_ne 2 2 2 4 page_size counted (inl (omega arith))
      ∙ read_le-write_le 2 2 0 typed.bytes (omega (arith, length-typed)) (omega arith))

  free_space_offset-init : free_space_offset (init id p) ≡ page_size
  unfolding free_space_offset get_field linked spaced started
  free_space_offset-init = rw init-linked (
      read_le-write_le_ne 2 4 4 16 0 linked (inl (omega arith))
      ∙ read_le-write_le_ne 2 4 4 12 0 spaced (inl (omega arith))
      ∙ read_le-write_le_ne 2 4 2 6 (page_size - header_size) started (inl (omega arith))
      ∙ read_le-write_le 2 4 page_size counted (omega (arith, length-counted)) (omega arith))

  pub init-IsTablePage : IsTablePage (init id p)
  init-IsTablePage = record {
    size = length-init;
    fits = omega (arith, slot_count-init, free_space_offset-init);
    free = omega (arith, free_space_offset-init);
    low = λ i h. absurd (omega (arith, slot_count-init));
    high = λ i h. absurd (omega (arith, slot_count-init));
    apart = λ i j h k d. absurd (omega (arith, slot_count-init));
  }
