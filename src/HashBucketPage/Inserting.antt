-- ===== src/HashBucketPage/Inserting.antt =====
-- insert of src/index/hash_bucket_page.cpp appends to the entries.
use qin_db.Shared.{
  ℕ, ◌+◌, ◌*◌, ◌^◌, ◌≤◌, ◌<◌, ◌≡◌, inl, inr, refl, ◌∙◌, Bool, true, false, none, some, List, [],
  ◌∷◌, ◌++◌, leb, leb→le, if◌then◌else◌, length, arith, length-append, Bool-cases, Option-cases,
}
use qin_db.Page.{Page, page_size, get_field, set_field}
use qin_db.Page.LittleEndian.{Bytes, write_le, read_le-write_le, length-write_le}
use qin_db.Page.Slices.{
  Agree, write_bytes, write_le-Agree, write_bytes-Agree, read_le-Agree, read_bytes-Agree,
  read_bytes-write_bytes, length-write_bytes,
}
use qin_db.HashBucketPage.{
  Entry, is_empty_key, entry_size, skip_entries, is_full, write_entry, insert, get_num_entries,
  get_next_bucket_page_id, max_entry_space, bucket_header_size,
}
use qin_db.HashBucketPage.Layout.{
  space, space-append, LiesAt, LiesAt-append, LiesAt-Moved, Agree-Moved,
}
use qin_db.HashBucketPage.Reading.{value_in, IsBucket, IsBucket-Reads, skip_entries-LiesAt}

pub Agree_trans :
    (lo hi : ℕ) (bs cs ds : Bytes) → Agree lo hi bs cs → Agree lo hi cs ds → Agree lo hi bs ds
Agree_trans lo hi bs cs ds f g i l u = f i l u ∙ g i l u

-- The fields of the new entry, read behind all four copies.
write_entry-LiesAt :
    (off : ℕ) (key : Bytes) (value : ℕ) (bs : Bytes)
    → off + entry_size (length key) ≤ length bs
    → length key < 2 ^ 32
    → value < 2 ^ 64
    → LiesAt ((key, value) ∷ []) off (write_entry off key value bs)
unfolding write_entry
write_entry-LiesAt off key value bs room short small =
    let n = length key in
    let a = write_le 4 off n bs in
    let b = write_bytes (off + 4) key a in
    let c = write_le 4 (off + 4 + n) 8 b in
    let d = write_le 8 (off + 4 + n + 4) value c in
    let la = length-write_le 4 off n bs in
    let lb = length-write_bytes (off + 4) key a in
    let lc = length-write_le 4 (off + 4 + n) 8 b in
    let dc = λ (lo hi : ℕ) (h : hi ≤ off + 4 + n + 4).
      write_le-Agree lo hi 8 (off + 4 + n + 4) value c (inl h) in
    let cb =
      λ (lo hi : ℕ) (h : hi ≤ off + 4 + n). write_le-Agree lo hi 4 (off + 4 + n) 8 b (inl h) in
    let ba = λ (lo hi : ℕ) (h : hi ≤ off + 4). write_bytes-Agree lo hi (off + 4) key a (inl h) in
    let front : Agree off (off + 4) d a =
      Agree_trans off (off + 4) d c a (dc off (off + 4) (omega arith)) (
        Agree_trans off (off + 4) c b a (cb off (off + 4) (omega arith))
          (ba off (off + 4) (omega arith))) in
    let middle : Agree (off + 4) (off + 4 + n) d b =
      Agree_trans (off + 4) (off + 4 + n) d c b (dc (off + 4) (off + 4 + n) (omega arith))
        (cb (off + 4) (off + 4 + n) (omega arith)) in
    (
      read_le-Agree 4 off d a front ∙ read_le-write_le 4 off n bs (omega arith) short,
      read_bytes-Agree n (off + 4) d b middle
          ∙ read_bytes-write_bytes (off + 4) key a (omega (arith, la)),
      read_le-write_le 8 (off + 4 + n + 4) value c (omega (arith, la, lb, lc)) small,
      tt,
    )

write_entry-Agree :
    (off : ℕ) (key : Bytes) (value : ℕ) (bs : Bytes) → Agree 0 off (write_entry off key value bs) bs
unfolding write_entry
write_entry-Agree off key value bs i l u =
    let n = length key in
    let a = write_le 4 off n bs in
    let b = write_bytes (off + 4) key a in
    let c = write_le 4 (off + 4 + n) 8 b in
    write_le-Agree 0 off 8 (off + 4 + n + 4) value c (inl (omega arith)) i l u
    ∙ write_le-Agree 0 off 4 (off + 4 + n) 8 b (inl (omega arith)) i l u
    ∙ write_bytes-Agree 0 off (off + 4) key a (inl (omega arith)) i l u
    ∙ write_le-Agree 0 off 4 off n bs (inl (omega arith)) i l u

length-write_entry :
    (off : ℕ) (key : Bytes) (value : ℕ) (bs : Bytes)
    → length (write_entry off key value bs) ≡ length bs
unfolding write_entry
length-write_entry off key value bs =
    let n = length key in
    let a = write_le 4 off n bs in
    let b = write_bytes (off + 4) key a in
    let c = write_le 4 (off + 4 + n) 8 b in
    length-write_le 8 (off + 4 + n + 4) value c
    ∙ length-write_le 4 (off + 4 + n) 8 b
    ∙ length-write_bytes (off + 4) key a
    ∙ length-write_le 4 off n bs

pub length-space : (es : List Entry) → length es * 16 ≤ space es
length-space [] = omega arith
length-space ((k, v) ∷ es) = omega (arith, length-space es)

-- The count is written, and all behind the header stays.
pub counted-IsBucket :
    (p : Page) (bs : Bytes) (es : List Entry)
    → length bs ≡ page_size
    → LiesAt es bucket_header_size bs
    → space es ≤ max_entry_space
    → IsBucket (set_field 4 0 (length es) (record p { bytes = bs })) es
unfolding set_field get_num_entries
counted-IsBucket p bs es sized lies fits =
    let off = bucket_header_size in
    let cs = write_le 4 0 (length es) bs in
    record {
      sized = length-write_le 4 0 (length es) bs ∙ sized;
      count = read_le-write_le 4 0 (length es) bs (omega arith) (omega (arith, length-space es));
      lies =
          LiesAt-Moved es off off cs bs
            (Agree-Moved (space es) off cs bs
              (write_le-Agree off (off + space es) 4 0 (length es) bs (inr (omega arith))))
            lies;
      fits = fits;
    }

-- A new count leaves the overflow page as it is, and so does what is written behind the header.
pub counted-next :
    (p : Page) (bs : Bytes) (n : ℕ)
    → Agree 0 bucket_header_size bs p.bytes
    → get_next_bucket_page_id (set_field 4 0 n (record p { bytes = bs }))
      ≡ get_next_bucket_page_id p
unfolding set_field get_next_bucket_page_id get_field
counted-next p bs n same = read_le-Agree 4 4 (write_le 4 0 n bs) p.bytes (
    Agree_trans 4 8 (write_le 4 0 n bs) bs p.bytes (write_le-Agree 4 8 4 0 n bs (inr (omega arith)))
      (λ i l u. same i (omega arith) (omega arith)))

module _ (key : Bytes) (value : ℕ) (p : Page) (es : List Entry) (v : IsBucket p es) where
  abbrev appended : Page
  appended =
      let off = skip_entries (get_num_entries p) bucket_header_size p.bytes in
      set_field 4 0 (get_num_entries p + 1) (record p { bytes = write_entry off key value p.bytes })

  appended-IsBucket :
      value < 2 ^ 64
      → space es + entry_size (length key) ≤ max_entry_space
      → IsBucket appended (es ++ ((key, value) ∷ []))
        × (get_next_bucket_page_id appended ≡ get_next_bucket_page_id p)
  appended-IsBucket small room =
      let end = bucket_header_size + space es in
      let behind : skip_entries (get_num_entries p) bucket_header_size p.bytes ≡ end =
        rw v.count (skip_entries-LiesAt es bucket_header_size p.bytes v.lies) in
      let fs = es ++ ((key, value) ∷ []) in
      let more : get_num_entries p + 1 ≡ length fs =
        omega (arith, v.count, length-append es ((key, value) ∷ [])) in
      let bs = write_entry end key value p.bytes in
      let size = v.sized in
      let same = write_entry-Agree end key value p.bytes in
      let old : LiesAt es bucket_header_size bs =
        LiesAt-Moved es bucket_header_size bucket_header_size bs p.bytes
          (Agree-Moved (space es) bucket_header_size bs p.bytes (λ i l u. same i (omega arith) u))
          v.lies in
      let new =
        write_entry-LiesAt end key value p.bytes (omega (arith, size)) (omega arith) small in
      rw (behind, more)
        (
          counted-IsBucket p bs fs (length-write_entry end key value p.bytes ∙ size)
              ((LiesAt-append es ((key, value) ∷ []) bucket_header_size bs).1 old new)
              (omega (arith, space-append es ((key, value) ∷ []))),
          counted-next p bs (length fs) (λ i l u. same i l (omega arith)),
        )

-- Whether insert takes an entry.
abbrev pub accepts : Bytes → List Entry → Bool
accepts key es =
    let room = leb (space es + entry_size (length key)) max_entry_space in
    if is_empty_key key then false else elim (value_in key es) [ none ↦ room | some v ↦ false ]

-- On a bucket of a list of entries, insert of a value below 2 ^ 64 succeeds exactly if the key is not
-- empty, not in the list and fits with its entry; the page is then a bucket of the list with the new
-- entry at its end, otherwise of the same list, and the overflow page stays.
pub insert-IsBucket :
    (key : Bytes) (value : ℕ) (p : Page) (es : List Entry)
    → IsBucket p es
    → value < 2 ^ 64
    → let (p', done) = insert key value p in
      (done ≡ accepts key es)
      × IsBucket p' (if accepts key es then es ++ ((key, value) ∷ []) else es)
      × (get_next_bucket_page_id p' ≡ get_next_bucket_page_id p)
unfolding insert
insert-IsBucket key value p es v small =
    let reads = IsBucket-Reads p es v in
    elim (Bool-cases (is_empty_key key)) [
      | inl empty ↦ rw (empty) (refl, v, refl)
      | inr there ↦ elim (Option-cases (value_in key es)) [
        | inr (old, found) ↦ rw (there, reads.one key there, found) (refl, v, refl)
        | inl fresh ↦ elim (Bool-cases (leb (space es + entry_size (length key)) max_entry_space)) [
          | inr no_room ↦
              let full : is_full (length key) p ≡ true =
                reads.full (length key) ∙ ground (arith, no_room) in
              rw (there, reads.one key there, fresh, no_room, full) (refl, v, refl)
          | inl room ↦
              let not_full : is_full (length key) p ≡ false =
                reads.full (length key) ∙ ground (arith, room) in
              let (bucket, next) =
                appended-IsBucket key value p es v small
                  (leb→le (space es + entry_size (length key)) max_entry_space room) in
              rw (there, reads.one key there, fresh, room, not_full) (refl, bucket, next)
        ]
      ]
    ]
