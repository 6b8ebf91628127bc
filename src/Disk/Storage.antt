-- ===== src/Disk/Storage.antt =====
-- What is written to a page is read back, and no other page changes.
use qin_db.Shared.{
  ℕ, zero, suc, ◌+◌, ◌-◌, ◌*◌, ◌≤◌, ◌<◌, ◌≡◌, ◌≢◌, refl, sym, ap, ap₂, subst, ◌∙◌, ◌≡⟨◌⟩◌, ◌∎, Bool,
  true, ◌&&◌, inl, inr, Option, [], ◌∷◌, ◌++◌, arith, ltb, leb, ◌==◌, if◌then◌else◌, length, drop,
  get_elem?, Bool-cases,
}
use qin_db.Page.{page_size}
use qin_db.Page.LittleEndian.{Bytes}
use qin_db.Disk.File.{FileCalls, FileLaws}
use qin_db.Disk.{DiskManager, read_page, write_at, write_page, page_offset, invalid_page_id}

get_elem?-append : (xs ys : Bytes) (k : ℕ) → k < length xs → get_elem? (xs ++ ys) k ≡ get_elem? xs k
get_elem?-append [] ys k h = absurd (omega arith)
get_elem?-append (x ∷ xs) ys zero h = refl
get_elem?-append (x ∷ xs) ys (suc k) h = get_elem?-append xs ys k (omega arith)

-- A place in page `j` lies in page `id` only if the two are one.
page_test :
    (id j k : ℕ)
    → id ≢ invalid_page_id
    → j ≢ invalid_page_id
    → k < page_size
    → (leb (page_offset id) (page_offset j + k)
        && ltb (page_offset j + k) (page_offset id + page_size))
      ≡ (id == j)
page_test id j k real real' h = ground arith

same_page :
    (id j k : ℕ) (bytes : Bytes) (old : Option ℕ)
    → id ≢ invalid_page_id
    → j ≢ invalid_page_id
    → k < page_size
    → (if leb (page_offset id) (page_offset j + k)
          && ltb (page_offset j + k) (page_offset id + page_size)
        then get_elem? bytes (page_offset j + k - page_offset id)
        else old)
      ≡ (if id == j then get_elem? bytes k else old)
same_page id j k bytes old real real' h =
    rw (page_test id j k real real' h) (elim (Bool-cases (id == j)) [
      | inl e ↦ let back : page_offset j + k - page_offset id ≡ k = ground arith in rw (e, back)
      | inr e ↦ rw e
    ])

module _ {F : Type 0} (calls : FileCalls F) (laws : FileLaws calls) where
  open laws use {contents}

  -- The file reaches to the end of the last page.
  abbrev pub Covers : DiskManager F → Type 0
  Covers d = 8 + d.num_pages * page_size ≤ length (contents d.db_file)

  -- A read that succeeds has found its place and has delivered a whole page.
  read_page-succeeds :
      (j : ℕ) (buffer : Bytes) (d : DiskManager F)
      → (read_page calls j buffer d).2 ≡ true
      → let (file, found) = calls.seek (page_offset j) d.db_file in
        let bytes = (calls.read page_size file).1 in
        (found ≡ true)
        × (length bytes ≡ page_size)
        × ((read_page calls j buffer d).1 ≡ bytes ++ drop (length bytes) buffer)
  unfolding read_page
  read_page-succeeds j buffer d e = ground arith

  read_page-contents :
      (j : ℕ) (buffer : Bytes) (d : DiskManager F)
      → (read_page calls j buffer d).2 ≡ true
      → (k : ℕ) → k < page_size
      → get_elem? (read_page calls j buffer d).1 k
        ≡ get_elem? (contents d.db_file) (page_offset j + k)
  read_page-contents j buffer d e k h =
      let file = (calls.seek (page_offset j) d.db_file).0 in
      let bytes = (calls.read page_size file).1 in
      let (found, whole, same) = read_page-succeeds j buffer d e in
      let at = laws.position-seek (page_offset j) d.db_file found in
      get_elem? (read_page calls j buffer d).1 k
      ≡⟨ ap (λ bs. get_elem? bs k) same ⟩ get_elem? (bytes ++ drop (length bytes) buffer) k
      ≡⟨ get_elem?-append bytes (drop (length bytes) buffer) k (omega arith) ⟩ get_elem? bytes k
      ≡⟨ laws.get_elem?-read page_size file whole k h ⟩
        get_elem? (contents file) (laws.position file + k)
      ≡⟨ ap₂ get_elem? (laws.contents-seek (page_offset j) d.db_file) (ap (λ o. o + k) at) ⟩
        get_elem? (contents d.db_file) (page_offset j + k) ∎

  write_at-succeeds :
      (id : ℕ) (bytes : Bytes) (d : DiskManager F)
      → (write_at calls id bytes d).1 ≡ true
      → let (file, found) = calls.seek (page_offset id) d.db_file in
        let (file', written) = calls.write bytes file in
        (found ≡ true)
        × (written ≡ page_size)
        × ((write_at calls id bytes d).0.db_file ≡ calls.flush file')
  unfolding write_at
  write_at-succeeds id bytes d e = ground arith

  write_at-contents :
      (id : ℕ) (bytes : Bytes) (d : DiskManager F)
      → id ≢ invalid_page_id
      → id ≤ d.num_pages
      → length bytes ≡ page_size
      → Covers d
      → (write_at calls id bytes d).1 ≡ true
      → (k : ℕ)
      → get_elem? (contents (write_at calls id bytes d).0.db_file) k ≡ (
          if leb (page_offset id) k && ltb k (page_offset id + page_size)
          then get_elem? bytes (k - page_offset id)
          else get_elem? (contents d.db_file) k)
  write_at-contents id bytes d real within size covers e k =
      let file = (calls.seek (page_offset id) d.db_file).0 in
      let (found, whole, same) = write_at-succeeds id bytes d e in
      let at = laws.position-seek (page_offset id) d.db_file found in
      let old = laws.contents-seek (page_offset id) d.db_file in
      let written =
        laws.get_elem?-write bytes file (whole ∙ sym size) (omega (arith, at, ap length old)) k in
      rw (same, laws.contents-flush (calls.write bytes file).0)
        (ground (arith, written, at, size, ap (λ bs. get_elem? bs k) old))

  write_page-write_at :
      (id : ℕ) (bytes : Bytes) (d : DiskManager F)
      → id ≤ d.num_pages
      → (write_page calls id bytes d).1 ≡ true
      → (id ≢ invalid_page_id) × (write_page calls id bytes d ≡ write_at calls id bytes d)
  unfolding write_page
  write_page-write_at id bytes d within e = ground arith

  -- After a successful write of a whole page inside a file that covers its pages, every successful
  -- read delivers, byte by byte, what was written if it is a read of that page, and what the file
  -- held before at that page otherwise.
  pub read_page-write_page :
      (id j : ℕ) (bytes buffer : Bytes) (d : DiskManager F)
      → id ≤ d.num_pages
      → length bytes ≡ page_size
      → Covers d
      → (write_page calls id bytes d).1 ≡ true
      → let d' = (write_page calls id bytes d).0 in
        (read_page calls j buffer d').2 ≡ true
        → j ≢ invalid_page_id
        → (k : ℕ) → k < page_size
        → get_elem? (read_page calls j buffer d').1 k ≡ (
            if id == j
            then get_elem? bytes k
            else get_elem? (contents d.db_file) (page_offset j + k))
  read_page-write_page id j bytes buffer d within size covers e r real' k h =
      let (real, same) = write_page-write_at id bytes d within e in
      let at = page_offset j + k in
      let done = subst (λ (x : DiskManager F × Bool). x.1 ≡ true) same e in
      read_page-contents j buffer (write_page calls id bytes d).0 r k h
      ∙ ap (λ (x : DiskManager F × Bool). get_elem? (contents x.0.db_file) at) same
      ∙ write_at-contents id bytes d real within size covers done at
      ∙ same_page id j k bytes (get_elem? (contents d.db_file) at) real real' h
