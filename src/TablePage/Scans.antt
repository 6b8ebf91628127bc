-- ===== src/TablePage/Scans.antt =====
-- getAllRecords of src/storage/table_page.cpp after insertRecord.
use qin_db.Shared.{
  ℕ, zero, suc, ◌+◌, ◌*◌, ◌^◌, ◌≤◌, ◌<◌, ◌≡◌, refl, sym, subst, ◌∙◌, ap, inl, inr, Option, none,
  some, List, [], ◌∷◌, ◌++◌, arith, length, true, Option-cases, ◌==◌, if◌then◌else◌,
}
use qin_db.Page.{Page, get_page_id}
use qin_db.Page.LittleEndian.{Bytes}
use qin_db.TablePage.{
  u16_mod, slot_count, slot_offset, slot_length, place, insert_tuple, get_tuple, serialize_record,
  insert_record,
}
use qin_db.TablePage.Layout.{IsTablePage}
use qin_db.TablePage.Tuples.{get_tuple-insert_tuple}
use qin_db.TablePage.Filling.{slot_count-insert_tuple}
use qin_db.TablePage.Reading.{
  stored_fields, new_header, read_header-serialize_record, deserialize_fields-serialize_record,
  length-serialize_record,
}
use qin_db.TablePage.Insertion.{place-IsTablePage}
use qin_db.Page.Slices.{read_bytes}
use qin_db.TablePage.Records.{
  visit_slots, read_header, record_at, deserialize_record, live_record, record_with_header,
  get_all_records, get_all_row_ids, get_all_headers,
}

abbrev one : {A : Type 0} → Option A → List A
one none = []
one (some a) = a ∷ []

visit_slots-last :
    {A : Type 0} (visit : ℕ → Option A) (n i : ℕ)
    → visit_slots visit (suc n) i ≡ visit_slots visit n i ++ one (visit (i + n))
unfolding visit_slots
visit_slots-last visit zero i =
    let e : i + 0 ≡ i = omega arith in
    rw e (elim (Option-cases (visit i)) [
      | inl skipped ↦ rw (skipped, visit_slots) refl
      | inr (a, found) ↦ rw (found, visit_slots) refl
    ])
visit_slots-last visit (suc n) i =
    let e : i + suc n ≡ suc i + n = omega arith in
    let rest = visit_slots-last visit n (suc i) in
    rw e (elim (Option-cases (visit i)) [
      | inl skipped ↦ rw (skipped, visit_slots) rest
      | inr (a, found) ↦ rw (found, visit_slots) (ap (λ xs. a ∷ xs) rest)
    ])

visit_slots-eq :
    {A : Type 0} (visit visit' : ℕ → Option A) (n i : ℕ)
    → ((j : ℕ) → i ≤ j → j < i + n → visit j ≡ visit' j)
    → visit_slots visit n i ≡ visit_slots visit' n i
unfolding visit_slots
visit_slots-eq visit visit' zero i h = refl
visit_slots-eq visit visit' (suc n) i h =
    let rest = visit_slots-eq visit visit' n (suc i) (λ j l u. h j (omega arith) (omega arith)) in
    let same = h i (omega arith) (omega arith) in
    elim (Option-cases (visit' i)) [
      | inl skipped ↦ rw (same ∙ skipped, skipped, visit_slots) rest
      | inr (a, found) ↦ rw (same ∙ found, found, visit_slots) (ap (λ xs. a ∷ xs) rest)
    ]

length-read_bytes : (n off : ℕ) (bs : Bytes) → length (read_bytes n off bs) ≡ n
unfolding read_bytes
length-read_bytes zero off bs = refl
length-read_bytes (suc n) off bs = ap suc (length-read_bytes n (suc off) bs)

abbrev chosen : {A : Type 0} → (Bytes → Option A) → Option Bytes → Option A
chosen f none = none
chosen f (some bytes) = f bytes

-- The scan of a page by `f`, without the tests of a slot that is outside the page.
module _ {A : Type 0} (f : Bytes → Option A) where
  visited : ℕ → Page → Option A
  visited i p = if slot_length i p == 0 then none else f (record_at i p)

  scan : Page → List A
  scan p = visit_slots (λ i. visited i p) (slot_count p) 0

  visited-get_tuple : (i : ℕ) (p : Page) → i < slot_count p → visited i p ≡ chosen f (get_tuple i p)
  unfolding visited get_tuple record_at
  visited-get_tuple i p h = ground (arith, h)

  scan-grows :
      (p p' : Page) (bytes : Bytes)
      → slot_count p' ≡ slot_count p + 1
      → get_tuple (slot_count p) p' ≡ some bytes
      → ((i : ℕ) → i < slot_count p → get_tuple i p' ≡ get_tuple i p)
      → scan p' ≡ scan p ++ one (f bytes)
  unfolding scan
  scan-grows p p' bytes count new old =
      let n = slot_count p in
      let more : slot_count p' ≡ suc n = omega (arith, count) in
      let same =
        visit_slots-eq (λ i. visited i p') (λ i. visited i p) n 0
          (λ j l u.
            visited-get_tuple j p' (omega (arith, count))
            ∙ ap (chosen f) (old j (omega arith))
            ∙ sym (visited-get_tuple j p (omega arith))) in
      let last : visited (0 + n) p' ≡ f bytes =
        let start : 0 + n ≡ n = omega arith in
        ap (λ k. visited k p') start
        ∙ visited-get_tuple n p' (omega (arith, count))
        ∙ ap (chosen f) new in
      ap (λ k. visit_slots (λ i. visited i p') k 0) more
      ∙ visit_slots-last (λ i. visited i p') n 0
      ∙ ap (λ xs. xs ++ one (visited (0 + n) p')) same
      ∙ ap (λ v. visit_slots (λ i. visited i p) n 0 ++ one v) last

place-insert_tuple :
    (bytes : Bytes) (p : Page)
    → 0 < length bytes
    → (place bytes p).1 ≡ true
    → insert_tuple bytes p ≡ ((place bytes p).0, some (get_page_id p * u16_mod + slot_count p))
unfolding insert_tuple
place-insert_tuple [] p long h = absurd (omega arith)
place-insert_tuple (b ∷ bs) p long h = ground (arith, h)

-- What a record that was placed does to every scan.
scan-place :
    {A : Type 0} (f : Bytes → Option A) (bytes : Bytes) (p : Page)
    → IsTablePage p
    → 0 < length bytes
    → length bytes < u16_mod
    → (place bytes p).1 ≡ true
    → scan f (place bytes p).0 ≡ scan f p ++ one (f bytes)
scan-place f bytes p v long short h =
    let row = get_page_id p * u16_mod + slot_count p in
    let placed = place-insert_tuple bytes p long h in
    let done : (insert_tuple bytes p).1 ≡ some row = ap (λ r. r.1) placed in
    let p' = (insert_tuple bytes p).0 in
    let (page, new, old, v') = get_tuple-insert_tuple bytes p row v short done in
    let (count, slot) = slot_count-insert_tuple bytes p row v short done in
    let at : get_tuple (slot_count p) p' ≡ some bytes =
      subst (λ k. get_tuple k p' ≡ some bytes) slot new in
    let grown = scan-grows f p p' bytes count at (λ i l. old i (omega (arith, slot))) in
    subst (λ r. scan f r.0 ≡ scan f p ++ one (f bytes)) placed grown

-- On a page that is laid out well the tests of the overload with headers are never met.
module _ {C V : Type 0} (read : C → Bytes → Option (V × Bytes)) (cs : List C) (p : Page) where
  get_all_headers-scan :
      IsTablePage p → get_all_headers read cs p ≡ scan (record_with_header read cs) p
  unfolding get_all_headers scan visited record_with_header read_header record_at
  get_all_headers-scan v =
      visit_slots-eq _ (λ i. visited (record_with_header read cs) i p) (slot_count p) 0
        (λ j l u.
          let high = v.high j (omega arith) in
          let size = length-read_bytes (slot_length j p) (slot_offset j p) p.bytes in
          ground (arith, high, size))

  get_all_records-scan : get_all_records read cs p ≡ scan (deserialize_record read cs) p
  unfolding get_all_records scan visited
  get_all_records-scan = refl

  get_all_row_ids-scan : get_all_row_ids read cs p ≡ scan (live_record read cs) p
  unfolding get_all_row_ids scan visited
  get_all_row_ids-scan = refl

-- Fields that are read as `stored` when they were written.
module _ {C V : Type 0} (field : C → V → Option Bytes) (read : C → Bytes → Option (V × Bytes))
    (stored : C → V → V)
    (law : (c : C) (v : V) (bs rest : Bytes)
      → field c v ≡ some bs
      → read c (bs ++ rest) ≡ some (stored c v, rest)) where
  -- After insertRecord has put a record of less than 65536 bytes into a page that is laid out well, each
  -- overload of getAllRecords appends its stored values to what it gave before, with the row id or with
  -- the header that the record was given, and the page is still laid out well.
  pub get_all_records-insert_record :
      (cs : List C) (row txn : ℕ) (vs : List V) (bytes : Bytes) (p : Page)
      → IsTablePage p
      → row < 2 ^ 64
      → txn < 2 ^ 64
      → serialize_record field cs row vs txn ≡ some bytes
      → length bytes < u16_mod
      → (insert_record field cs row vs txn p).1 ≡ true
      → (get_all_records read cs (insert_record field cs row vs txn p).0
          ≡ get_all_records read cs p ++ (stored_fields stored cs vs ∷ []))
        × (get_all_row_ids read cs (insert_record field cs row vs txn p).0
            ≡ get_all_row_ids read cs p ++ ((stored_fields stored cs vs, row) ∷ []))
        × (get_all_headers read cs (insert_record field cs row vs txn p).0
            ≡ get_all_headers read cs p
              ++ ((stored_fields stored cs vs, new_header cs row txn) ∷ []))
        × IsTablePage (insert_record field cs row vs txn p).0
  unfolding insert_record deserialize_record live_record record_with_header get_all_records
      get_all_row_ids scan visited
  get_all_records-insert_record cs row txn vs bytes p v small_row small_txn h short done =
      let long =
        length-serialize_record field read stored law cs row txn vs bytes small_row small_txn h in
      let header =
        read_header-serialize_record field read stored law cs row txn vs bytes small_row small_txn
          h in
      let fields =
        deserialize_fields-serialize_record field read stored law cs row txn vs bytes small_row
          small_txn h in
      let p' = (place bytes p).0 in
      let v' = place-IsTablePage bytes p v in
      let placed : (place bytes p).1 ≡ true = ground (arith, h, done) in
      let row_read : deserialize_record read cs bytes ≡ some (stored_fields stored cs vs) =
        rw (header, deserialize_record) fields in
      let live : live_record read cs bytes ≡ some (stored_fields stored cs vs, row) =
        rw (header, row_read, live_record) refl in
      let whole : record_with_header read cs bytes
          ≡ some (stored_fields stored cs vs, new_header cs row txn) =
        rw (header, fields, record_with_header) refl in
      let some_bytes : 0 < length bytes = omega (arith, long) in
      rw (h, insert_record)
        (
          get_all_records-scan read cs p'
              ∙ scan-place (deserialize_record read cs) bytes p v some_bytes short placed
              ∙ ap (λ r. scan (deserialize_record read cs) p ++ one r) row_read,
          get_all_row_ids-scan read cs p'
              ∙ scan-place (live_record read cs) bytes p v some_bytes short placed
              ∙ ap (λ r. scan (live_record read cs) p ++ one r) live,
          get_all_headers-scan read cs p' v'
              ∙ scan-place (record_with_header read cs) bytes p v some_bytes short placed
              ∙ ap (λ r. scan (record_with_header read cs) p ++ one r) whole
              ∙ ap (λ xs. xs ++ ((stored_fields stored cs vs, new_header cs row txn) ∷ []))
                  (sym (get_all_headers-scan read cs p v)),
          v',
        )
