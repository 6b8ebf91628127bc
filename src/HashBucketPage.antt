-- ===== src/HashBucketPage.antt =====
-- include/qindb/hash_bucket_page.h and src/index/hash_bucket_page.cpp: a bucket of the hash index.
--
-- A page is never null here. The header is the number of entries and the next overflow page; behind
-- it, from byte 32, the entries stand one after the other: size of the key (4), key, size of the value
-- (4), value (8). `memmove` is a copy of the bytes as they were before.
pub mod Layout
pub mod Reading
pub mod Inserting
pub mod Removing
pub mod Runs
use qin_db.Shared.{
  ℕ, zero, suc, ◌+◌, ◌-◌, Bool, true, false, ◌&&◌, ◌||◌, Option, none, some, List, [], ◌∷◌, ◌++◌,
  ltb, ◌==◌, if◌then◌else◌, length, replicate,
}
use qin_db.RowIndex.{invalid_row_id}
use qin_db.Page.{Page, page_size, get_field, set_field, zero_bytes}
use qin_db.Page.LittleEndian.{Bytes, read_le, write_le}
use qin_db.Page.Slices.{write_bytes, read_bytes}

-- NUM_ENTRIES_OFFSET, NEXT_BUCKET_PAGE_ID_OFFSET, HEADER_SIZE and MAX_ENTRY_SPACE.
abbrev pub num_entries_offset : ℕ
num_entries_offset = 0

abbrev pub next_bucket_offset : ℕ
next_bucket_offset = 4

abbrev pub bucket_header_size : ℕ
bucket_header_size = 32

abbrev pub max_entry_space : ℕ
max_entry_space = page_size - bucket_header_size

abbrev pub Entry : Type 0
Entry = Bytes × ℕ

-- operator== of QByteArray.
unfoldable pub same_key : Bytes → Bytes → Bool
same_key [] [] = true
same_key [] (y ∷ ys) = false
same_key (x ∷ xs) [] = false
same_key (x ∷ xs) (y ∷ ys) = x == y && same_key xs ys

abbrev pub is_empty_key : Bytes → Bool
is_empty_key [] = true
is_empty_key (b ∷ bs) = false

unfoldable pub get_num_entries : Page → ℕ
unfolding get_field
get_num_entries = get_field 4 num_entries_offset

unfoldable pub get_next_bucket_page_id : Page → ℕ
unfolding get_field
get_next_bucket_page_id = get_field 4 next_bucket_offset

unfoldable pub set_next_bucket_page_id : ℕ → Page → Page
unfolding set_field
set_next_bucket_page_id = set_field 4 next_bucket_offset

-- initialize of a bucket.
unfoldable pub initialize_bucket : Page → Page
initialize_bucket p =
    set_field 4 next_bucket_offset 0
      (set_field 4 num_entries_offset 0 (record p { bytes = zero_bytes }))

-- KEY_SIZE_FIELD + keySize + VALUE_SIZE_FIELD + VALUE_DATA_SIZE
abbrev pub entry_size : ℕ → ℕ
entry_size key_size = 4 + key_size + 4 + 8

-- The entry at an offset, and the offset behind it, as every loop of the file reads them.
abbrev pub read_entry : ℕ → Bytes → Entry × ℕ
read_entry off bs =
    let n = read_le 4 off bs in
    ((read_bytes n (off + 4) bs, read_le 8 (off + 4 + n + 4) bs), off + entry_size n)

-- The loop of search.
unfoldable pub find_value : ℕ → ℕ → Bytes → Bytes → Option ℕ
unfolding read_le read_bytes same_key
find_value zero off key bs = none
find_value (suc n) off key bs =
    let ((k, v), off') = read_entry off bs in
    let rest = find_value n off' key bs in if same_key k key then some v else rest

unfoldable pub search : Bytes → Page → Option ℕ
unfolding find_value get_num_entries
search key p =
    if is_empty_key key then none else find_value (get_num_entries p) bucket_header_size key p.bytes

-- The loop of searchAll.
unfoldable pub find_values : ℕ → ℕ → Bytes → Bytes → List ℕ
unfolding read_le read_bytes same_key
find_values zero off key bs = []
find_values (suc n) off key bs =
    let ((k, v), off') = read_entry off bs in
    let rest = find_values n off' key bs in if same_key k key then v ∷ rest else rest

-- The values that searchAll appends; it answers whether there are any.
unfoldable pub search_all : Bytes → Page → List ℕ
unfolding find_values get_num_entries
search_all key p =
    if is_empty_key key then [] else find_values (get_num_entries p) bucket_header_size key p.bytes

unfoldable pub entries_from : ℕ → ℕ → Bytes → List Entry
unfolding read_le read_bytes
entries_from zero off bs = []
entries_from (suc n) off bs = let (e, off') = read_entry off bs in e ∷ entries_from n off' bs

unfoldable pub get_all : Page → List Entry
unfolding entries_from get_num_entries
get_all p = entries_from (get_num_entries p) bucket_header_size p.bytes

-- The loops of isFull and of insert that skip the entries.
unfoldable pub skip_entries : ℕ → ℕ → Bytes → ℕ
unfolding read_le
skip_entries zero off bs = off
skip_entries (suc n) off bs = skip_entries n (off + entry_size (read_le 4 off bs)) bs

unfoldable pub is_full : ℕ → Page → Bool
unfolding skip_entries get_num_entries
is_full key_size p =
    let used = skip_entries (get_num_entries p) bucket_header_size p.bytes - bucket_header_size in
    ltb max_entry_space (used + entry_size key_size)

-- The four copies of insert at an offset.
unfoldable pub write_entry : ℕ → Bytes → ℕ → Bytes → Bytes
unfolding write_le write_bytes
write_entry off key value bs =
    let sized = write_le 4 off (length key) bs in
    let keyed = write_bytes (off + 4) key sized in
    write_le 8 (off + 4 + length key + 4) value (write_le 4 (off + 4 + length key) 8 keyed)

unfoldable pub insert : Bytes → ℕ → Page → Page × Bool
insert key value p =
    let off = skip_entries (get_num_entries p) bucket_header_size p.bytes in
    let written = record p { bytes = write_entry off key value p.bytes } in
    let counted = set_field 4 num_entries_offset (get_num_entries p + 1) written in
    if is_empty_key key then (p, false) else elim (search key p) [
      | some v ↦ (p, false)
      | none ↦ if is_full (length key) p then (p, false) else (counted, true)
    ]

-- The loop of remove, with the start and the end of the first entry that matches.
unfoldable pub find_entry : ℕ → ℕ → Bytes → ℕ → Bytes → Option (ℕ × ℕ)
unfolding read_le read_bytes same_key
find_entry zero off key value bs = none
find_entry (suc n) off key value bs =
    let ((k, v), off') = read_entry off bs in
    let rest = find_entry n off' key value bs in
    if same_key k key && (value == invalid_row_id || v == value) then some (off, off') else rest

-- memmove of what is behind an entry, and zeros at the end.
unfoldable pub close_gap : ℕ → ℕ → Bytes → Bytes
unfolding write_bytes read_bytes
close_gap start off bs =
    let remaining = bucket_header_size + max_entry_space - off in
    let size = off - start in
    write_bytes (bucket_header_size + max_entry_space - size) (replicate size 0)
      (write_bytes start (read_bytes remaining off bs) bs)

unfoldable pub remove : Bytes → ℕ → Page → Page × Bool
remove key value p =
    let n = get_num_entries p in
    if is_empty_key key
    then (p, false)
    else elim (find_entry n bucket_header_size key value p.bytes) [
      | none ↦ (p, false)
      | some (start, off) ↦ (
        set_field 4 num_entries_offset (n - 1) (record p { bytes = close_gap start off p.bytes }),
        true,
      )
    ]
