-- ===== src/Tests/Columns.antt =====
-- A table with three columns, over values that are nothing, a number or bytes.
use qin_db.Shared.{
  length-append, take-append, drop-append, ℕ, ◌%◌, ◌^◌, ◌<◌, ◌≡◌, refl, true, false, Option, none,
  some, List, [], ◌∷◌, ◌++◌, arith, length, take, drop, leb, ltb, if◌then◌else◌, replicate,
}
use qin_db.Page
use qin_db.Page.LittleEndian.{Bytes, le_bytes, read_le}
use qin_db.TablePage.{
  init, serialize_record, serialize_fields, insert_record, header_bytes, place, slot_count,
  free_space_offset,
}
use qin_db.TablePage.Layout.{IsTablePage}
use qin_db.TablePage.Initial.{init-IsTablePage}
use qin_db.Page.Structs.{read_le-le_bytes, length-le_bytes}
use qin_db.TablePage.Headers.{drop-append_of_length}
use qin_db.TablePage.Fields.{
  ColumnDef, Variants, VariantLaws, int_column, char_column, serialize_field, deserialize_field,
  stored_value, put_value, padded,
}
use qin_db.TablePage.Conversions.{deserialize-serialize_field}
use qin_db.TablePage.Records.{get_all_records, get_all_row_ids, get_all_headers}
use qin_db.TablePage.Reading.{stored_fields, new_header}
use qin_db.TablePage.Scans.{get_all_records-insert_record}
use qin_db.Tests.Tables.{empty_page, blank}

data Cell : Type 0 where
  nothing : Cell
  number : ℕ → Cell
  words : Bytes → Cell

number_in : Cell → ℕ
number_in (number n) = n
number_in nothing = 0
number_in (words w) = 0

words_in : Cell → Bytes
words_in (words w) = w
words_in nothing = []
words_in (number n) = []

get_number : ℕ → Bytes → Option (ℕ × Bytes)
get_number n bs = if leb n (length bs) then some (read_le n 0 bs, drop n bs) else none

-- Bytes behind their number.
get_words : Bytes → Option (Bytes × Bytes)
get_words [] = none
get_words (n ∷ bs) = some (take n bs, drop n bs)

get_one : Bytes → Option (ℕ × Bytes)
get_one [] = none
get_one (n ∷ bs) = some (n, bs)

abbrev variants : Variants
variants = record {
  Value = Cell;
  Text = Bytes;
  null = nothing;
  is_null = elim [ nothing ↦ true | number n ↦ false | words w ↦ false ];
  to_int = λ v. number_in v % 256 ^ 4;
  to_long = λ v. number_in v % 256 ^ 8;
  to_float = number_in;
  to_double = number_in;
  to_bool = λ v. ltb 0 (number_in v);
  to_text = words_in;
  to_blob = words_in;
  of_int = number;
  of_long = number;
  of_float = number;
  of_double = number;
  of_bool = λ b. number (if b then 1 else 0);
  of_text = words;
  of_blob = words;
  left_justified = λ n t. take n (t ++ replicate n 32);
  trimmed = λ t. t;
  put_number = le_bytes;
  get_number = get_number;
  put_float = λ v. v ∷ [];
  get_float = get_one;
  put_double = λ v. v ∷ [];
  get_double = get_one;
  put_text = λ t. length t ∷ t;
  get_text = get_words;
  put_blob = λ t. length t ∷ t;
  get_blob = get_words;
}

get_number-le_bytes :
    (n v : ℕ) (bs : Bytes) → v < 256 ^ n → get_number n (le_bytes n v ++ bs) ≡ some (v, bs)
unfolding get_number
get_number-le_bytes n v bs h = ground (
  arith,
  length-append (le_bytes n v) bs,
  length-le_bytes n v,
  read_le-le_bytes n v bs h,
  drop-append_of_length n (le_bytes n v) bs (length-le_bytes n v),
)

get_words-put : (t bs : Bytes) → get_words (length t ∷ (t ++ bs)) ≡ some (t, bs)
unfolding get_words
get_words-put t bs = rw (take-append t bs, drop-append t bs) refl

variant_laws : VariantLaws variants
unfolding get_one
variant_laws = record {
  to_int_small = λ v. omega arith;
  to_long_small = λ v. omega arith;
  length-put_number = length-le_bytes;
  get-put_number = get_number-le_bytes;
  get-put_float = λ v bs. refl;
  get-put_double = λ v bs. refl;
  get-put_text = get_words-put;
  get-put_blob = get_words-put;
}

abbrev id_column : ColumnDef
id_column = record { type = int_column; length = 0 }

abbrev name_column : ColumnDef
name_column = record { type = char_column; length = 4 }

abbrev columns : List ColumnDef
columns = id_column ∷ name_column ∷ []

abbrev values : List Cell
values = number 300 ∷ words (97 ∷ []) ∷ []

-- The header of row 5, created by transaction 2, and the two fields.
abbrev written : Bytes
written =
    header_bytes (new_header columns 5 2) ++ (0 ∷ 44 ∷ 1 ∷ 0 ∷ 0 ∷ 0 ∷ 4 ∷ 97 ∷ 32 ∷ 32 ∷ 32 ∷ [])

written_is : serialize_record (serialize_field variants) columns 5 values 2 ≡ some written
unfolding serialize_record serialize_fields serialize_field put_value padded le_bytes words_in
    number_in header_bytes
written_is = refl

insert_record_succeeds :
    (insert_record (serialize_field variants) columns 5 values 2 empty_page).1 ≡ true
unfolding insert_record serialize_record serialize_fields serialize_field put_value place
    free_space_offset init Page.set_prev_page_id Page.set_next_page_id Page.set_page_id
    Page.set_page_type Page.reset slot_count header_bytes padded words_in
insert_record_succeeds = refl

get_all_records-insert_record_example :
    (get_all_records
        (deserialize_field variants)
        columns
        (insert_record (serialize_field variants) columns 5 values 2 empty_page).0
      ≡ get_all_records (deserialize_field variants) columns empty_page
        ++ (stored_fields (stored_value variants) columns values ∷ []))
    × (get_all_row_ids
          (deserialize_field variants)
          columns
          (insert_record (serialize_field variants) columns 5 values 2 empty_page).0
        ≡ get_all_row_ids (deserialize_field variants) columns empty_page
          ++ ((stored_fields (stored_value variants) columns values, 5) ∷ []))
    × (get_all_headers
          (deserialize_field variants)
          columns
          (insert_record (serialize_field variants) columns 5 values 2 empty_page).0
        ≡ get_all_headers (deserialize_field variants) columns empty_page
          ++ ((stored_fields (stored_value variants) columns values, new_header columns 5 2) ∷ []))
    × IsTablePage (insert_record (serialize_field variants) columns 5 values 2 empty_page).0
unfolding header_bytes
get_all_records-insert_record_example =
    get_all_records-insert_record (serialize_field variants) (deserialize_field variants)
      (stored_value variants) (deserialize-serialize_field variants variant_laws) columns 5 2 values
      written empty_page (init-IsTablePage 7 blank) (omega arith) (omega arith) written_is
      (omega arith) insert_record_succeeds
