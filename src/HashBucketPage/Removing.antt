-- ===== src/HashBucketPage/Removing.antt =====
-- remove of src/index/hash_bucket_page.cpp takes one entry out and closes the gap.
use qin_db.Shared.{
  ℕ, zero, suc, ◌+◌, ◌-◌, ◌≤◌, ◌<◌, ◌≡◌, inl, inr, refl, sym, subst, ◌∙◌, ap, Bool, false, some,
  List, ◌∷◌, ◌++◌, if◌then◌else◌, length, arith, length-append, Bool-cases, get_elem?,
  get_elem?-set_self, replicate, length-replicate, length-set, set, get_elem?_of_lt,
}
use qin_db.Page.{Page, page_size, set_field}
use qin_db.Page.LittleEndian.{Bytes, byte_at}
use qin_db.Page.Slices.{Agree, read_bytes, write_bytes, length-write_bytes, get_elem?-write_bytes}
use qin_db.HashBucketPage.{
  Entry, is_empty_key, entry_size, find_entry, close_gap, remove, get_num_entries,
  get_next_bucket_page_id, bucket_header_size,
}
use qin_db.HashBucketPage.Layout.{
  space, space-append, LiesAt, LiesAt-append, LiesAt-Moved, Agree-Moved, Moved,
}
use qin_db.HashBucketPage.Reading.{IsBucket, find_entry-LiesAt, any_removed, without}
use qin_db.HashBucketPage.Inserting.{counted-IsBucket, counted-next}

pub length-read_bytes : (n off : ℕ) (bs : Bytes) → length (read_bytes n off bs) ≡ n
unfolding read_bytes
length-read_bytes zero off bs = refl
length-read_bytes (suc n) off bs = ap suc (length-read_bytes n (suc off) bs)

get_elem?-byte_at : (i : ℕ) (bs : Bytes) → i < length bs → get_elem? bs i ≡ some (byte_at i bs)
unfolding byte_at
get_elem?-byte_at i bs h = let (b, e) = get_elem?_of_lt bs i h in rw (e, byte_at) refl

-- A copy of `n` bytes of a list into itself, read after it.
write_bytes-Moved :
    (n off from : ℕ) (bs cs : Bytes)
    → off + n ≤ length cs
    → from + n ≤ length bs
    → Moved n off from (write_bytes off (read_bytes n from bs) cs) bs
unfolding read_bytes write_bytes
write_bytes-Moved zero off from bs cs h h' i small = absurd (omega arith)
write_bytes-Moved (suc n) off from bs cs h h' zero small =
    let e : off + 0 ≡ off = omega arith in
    let e' : from + 0 ≡ from = omega arith in
    rw (e, e')
      (get_elem?-write_bytes (suc off) (read_bytes n (suc from) bs) (set cs off (byte_at from bs))
          off (inl (omega arith))
        ∙ get_elem?-set_self cs off (byte_at from bs) (omega arith)
        ∙ sym (get_elem?-byte_at from bs (omega arith)))
write_bytes-Moved (suc n) off from bs cs h h' (suc i) small =
    let deeper =
      write_bytes-Moved n (suc off) (suc from) bs (set cs off (byte_at from bs))
        (omega (arith, length-set cs off (byte_at from bs))) (omega arith) i (omega arith) in
    let e : suc off + i ≡ off + suc i = omega arith in
    let e' : suc from + i ≡ from + suc i = omega arith in rw (sym e, sym e') deeper

-- The bytes in front of the gap stay, and those behind it move to its start.
close_gap-lem :
    (start size n : ℕ) (bs : Bytes)
    → length bs ≡ page_size
    → start + size + n ≤ page_size
    → Agree 0 start (close_gap start (start + size) bs) bs
      × Moved n start (start + size) (close_gap start (start + size) bs) bs
      × (length (close_gap start (start + size) bs) ≡ page_size)
unfolding close_gap
close_gap-lem start size n bs sized room =
    let stop = start + size in
    let rest = page_size - stop in
    let cs = write_bytes start (read_bytes rest stop bs) bs in
    let gone : stop - start ≡ size = omega arith in
    let zeros : Bytes = replicate size 0 in
    let clear = page_size - size in
    let count = length-read_bytes rest stop bs in
    let zero_count = length-replicate {A = ℕ} size 0 in
    rw gone (
      (λ i l u.
          get_elem?-write_bytes clear zeros cs i (inl (omega arith))
          ∙ get_elem?-write_bytes start (read_bytes rest stop bs) bs i (inl u)),
      (λ i u.
          get_elem?-write_bytes clear zeros cs (start + i) (inl (omega arith))
          ∙ write_bytes-Moved rest start stop bs bs (omega arith) (omega arith) i (omega arith)),
      length-write_bytes clear zeros cs
          ∙ length-write_bytes start (read_bytes rest stop bs) bs
          ∙ sized,
    )

module _ (key : Bytes) (value : ℕ) (p : Page) (pre : List Entry) (e : Entry) (post : List Entry)
    (v : IsBucket p (pre ++ (e ∷ post))) where
  abbrev closed : Page
  closed =
      let start = bucket_header_size + space pre in
      set_field 4 0 (get_num_entries p - 1)
        (record p { bytes = close_gap start (start + entry_size (length e.0)) p.bytes })

  closed-IsBucket :
      IsBucket closed (pre ++ post) × (get_next_bucket_page_id closed ≡ get_next_bucket_page_id p)
  closed-IsBucket =
      let start = bucket_header_size + space pre in
      let size = entry_size (length e.0) in
      let bs = close_gap start (start + size) p.bytes in
      let total = space-append pre (e ∷ post) in
      let fits = v.fits in
      let (same, moved, sized) =
        close_gap-lem start size (space post) p.bytes v.sized (omega (arith, total, fits)) in
      let (front, back) = (LiesAt-append pre (e ∷ post) bucket_header_size p.bytes).0 v.lies in
      let old : LiesAt pre bucket_header_size bs =
        LiesAt-Moved pre bucket_header_size bucket_header_size bs p.bytes
          (Agree-Moved (space pre) bucket_header_size bs p.bytes (λ i l u. same i (omega arith) u))
          front in
      let shifted : LiesAt post start bs =
        LiesAt-Moved post start (start + size) bs p.bytes moved back.3 in
      let fewer : get_num_entries p - 1 ≡ length (pre ++ post) =
        omega (arith, v.count, length-append pre (e ∷ post), length-append pre post) in
      rw fewer (
        counted-IsBucket p bs (pre ++ post) sized
            ((LiesAt-append pre post bucket_header_size bs).1 old shifted)
            (omega (arith, total, space-append pre post)),
        counted-next p bs (length (pre ++ post)) (λ i l u. same i l (omega arith)),
      )

-- Whether remove takes an entry out.
abbrev pub removes : Bytes → ℕ → List Entry → Bool
removes key value es = if is_empty_key key then false else any_removed key value es

-- On a bucket of a list of entries, remove succeeds exactly if the key is not empty and some entry has
-- it and, unless the value is the invalid one, the value; the page is then a bucket of the list
-- without the first such entry, otherwise of the same list, and the overflow page stays.
pub remove-IsBucket :
    (key : Bytes) (value : ℕ) (p : Page) (es : List Entry)
    → IsBucket p es
    → let (p', done) = remove key value p in
      (done ≡ removes key value es)
      × IsBucket p' (if removes key value es then without key value es else es)
      × (get_next_bucket_page_id p' ≡ get_next_bucket_page_id p)
unfolding remove
remove-IsBucket key value p es v = elim (Bool-cases (is_empty_key key)) [
  | inl empty ↦ rw empty (refl, v, refl)
  | inr there ↦ elim (find_entry-LiesAt key value es bucket_header_size p.bytes v.lies) [
    | inl (nothing, kept) ↦ rw (there, v.count, nothing, kept) (refl, v, refl)
    | inr (pre, e, post, split, found, hit, left) ↦
        let (bucket, next) = closed-IsBucket key value p pre e post (subst (IsBucket p) split v) in
        let found' = ap (λ n. find_entry n bucket_header_size key value p.bytes) v.count ∙ found in
        rw (there, found', hit, left) (refl, bucket, next)
  ]
]
