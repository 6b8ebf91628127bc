-- ===== src/Vacuum/Pages.antt =====
-- What src/storage/vacuum.cpp leaves of a page.
use qin_db.Shared.{
  ℕ, zero, suc, ◌+◌, ◌*◌, ◌≤◌, ◌<◌, ◌≡◌, ◌≢◌, refl, subst, ◌∙◌, ap, Bool, true, ◌&&◌, ◌⊎◌, inl, inr,
  none, List, [], ◌∷◌, ◌++◌, ltb, ◌==◌, if◌then◌else◌, arith, length, Bool-cases, ==_iff,
}
use qin_db.Shared.Sets.{contains, contains-nil, contains-push}
use qin_db.Page.{Page, page_size, header_size, get_field, get_next_page_id}
use qin_db.Page.LittleEndian.{write_le, length-write_le, read_le-write_le, read_le-write_le_ne}
use qin_db.Page.Slices.{Agree, write_le-Agree, read_le-Agree, read_bytes-Agree}
use qin_db.Visibility.{RecordHeader, can_delete, is_visible}
use qin_db.Transaction.{TransactionManager, WalCalls}
use qin_db.Transaction.Invariant.{Inv}
use qin_db.Transaction.Steps.{Reach}
use qin_db.Visibility.Rules.{can_delete-is_visible}
use qin_db.TablePage.{
  slot_size, slot_count, free_space_offset, slot_offset, slot_length, set_slot, header_at,
  get_tuple, get_record_header,
}
use qin_db.TablePage.Layout.{IsTablePage}
use qin_db.Vacuum.{is_cleanable, slots_to_delete, empty_slots, clean_page}

-- An emptied slot.
module _ (i : ℕ) (q : Page) (whole : length q.bytes ≡ page_size)
    (room : header_size + slot_size * i + 4 ≤ page_size) where
  abbrev cleared : Page
  cleared = set_slot i 0 0 q

  length-set_slot : length cleared.bytes ≡ page_size
  unfolding set_slot
  length-set_slot =
      let off = header_size + slot_size * i in
      length-write_le 2 (off + 2) 0 (write_le 2 off 0 q.bytes)
      ∙ length-write_le 2 off 0 q.bytes
      ∙ whole

  set_slot-Agree :
      (lo hi : ℕ)
      → (hi ≤ header_size + slot_size * i) ⊎ (header_size + slot_size * i + 4 ≤ lo)
      → Agree lo hi cleared.bytes q.bytes
  unfolding set_slot
  set_slot-Agree lo hi out k l u =
      let off = header_size + slot_size * i in
      write_le-Agree lo hi 2 (off + 2) 0 (write_le 2 off 0 q.bytes) (ground (arith, out)) k l u
      ∙ write_le-Agree lo hi 2 off 0 q.bytes (ground (arith, out)) k l u

  set_slot_self : (slot_length i cleared ≡ 0) × (slot_offset i cleared ≡ 0)
  unfolding set_slot slot_length slot_offset
  set_slot_self =
      let off = header_size + slot_size * i in
      let a = write_le 2 off 0 q.bytes in
      (
        read_le-write_le 2 (off + 2) 0 a (omega (arith, length-write_le 2 off 0 q.bytes, whole))
            (omega arith),
        read_le-write_le_ne 2 off 2 (off + 2) 0 a (inl (omega arith))
            ∙ read_le-write_le 2 off 0 q.bytes (omega (arith, whole)) (omega arith),
      )

  set_slot_ne :
      (j : ℕ)
      → i ≢ j
      → (slot_length j cleared ≡ slot_length j q) × (slot_offset j cleared ≡ slot_offset j q)
  unfolding slot_length slot_offset
  set_slot_ne j other =
      let at = header_size + slot_size * j in
      (
        read_le-Agree 2 (at + 2) cleared.bytes q.bytes
            (set_slot-Agree (at + 2) (at + 2 + 2) (ground (arith, other))),
        read_le-Agree 2 at cleared.bytes q.bytes
            (set_slot-Agree at (at + 2) (ground (arith, other))),
      )

  set_slot-header :
      (slot_count cleared ≡ slot_count q) × (get_next_page_id cleared ≡ get_next_page_id q)
  unfolding slot_count get_next_page_id get_field
  set_slot-header = (
    read_le-Agree 2 2 cleared.bytes q.bytes (set_slot-Agree 2 4 (inl (omega arith))),
    read_le-Agree 4 12 cleared.bytes q.bytes (set_slot-Agree 12 16 (inl (omega arith))),
  )

-- The slots in the list are empty, the others and all records are as they were.
record Emptied (is : List ℕ) (p p' : Page) : Type 0 where
  size : length p'.bytes ≡ page_size
  count : slot_count p' ≡ slot_count p
  next : get_next_page_id p' ≡ get_next_page_id p
  lengths :
      (j : ℕ) → j < slot_count p → slot_length j p' ≡ (if contains j is then 0 else slot_length j p)
  offsets :
      (j : ℕ) → j < slot_count p → slot_offset j p' ≡ (if contains j is then 0 else slot_offset j p)
  records : (hi : ℕ) → Agree (free_space_offset p) hi p'.bytes p.bytes

abbrev Within : List ℕ → ℕ → Type 0
Within [] n = Unit
Within (i ∷ is) n = (i < n) × Within is n

empty_slots-Emptied :
    (is : List ℕ) (p : Page)
    → IsTablePage p
    → Within is (slot_count p)
    → Emptied is p (empty_slots is p)
unfolding empty_slots contains
empty_slots-Emptied [] p v inside = record {
  size = v.size;
  count = refl;
  next = refl;
  lengths = λ j h. refl;
  offsets = λ j h. refl;
  records = λ hi i l u. refl;
}
empty_slots-Emptied (i ∷ is) p v (here, inside) =
    let old = empty_slots-Emptied is p v inside in
    let q = empty_slots is p in
    let fits = v.fits in
    let free = v.free in
    let room : header_size + slot_size * i + 4 ≤ page_size = omega arith in
    let head = set_slot-header i q old.size room in
    let self = set_slot_self i q old.size room in
    let ne = set_slot_ne i q old.size room in
    record {
      size = length-set_slot i q old.size room;
      count = head.0 ∙ old.count;
      next = head.1 ∙ old.next;
      lengths = λ j h. elim (Bool-cases (i == j)) [
        | inl same ↦
            let e = (==_iff i j).0 same in
            rw same (subst (λ k. slot_length k (set_slot i 0 0 q) ≡ 0) e self.0)
        | inr other ↦ rw other ((ne j (ground (arith, other))).0 ∙ old.lengths j h)
      ];
      offsets = λ j h. elim (Bool-cases (i == j)) [
        | inl same ↦
            let e = (==_iff i j).0 same in
            rw same (subst (λ k. slot_offset k (set_slot i 0 0 q) ≡ 0) e self.1)
        | inr other ↦ rw other ((ne j (ground (arith, other))).1 ∙ old.offsets j h)
      ];
      records = λ hi k l u.
          set_slot-Agree i q old.size room (free_space_offset p) hi (inr (omega arith)) k l u
          ∙ old.records hi k l u;
    }

append-Within : (is : List ℕ) (i n : ℕ) → Within is n → i < n → Within (is ++ (i ∷ [])) n
append-Within [] i n v h = (h, tt)
append-Within (j ∷ is) i n v h = (v.0, append-Within is i n v.1 h)

slots_to_delete-Within :
    (test : RecordHeader → Bool) (n m : ℕ) (p : Page) → n ≤ m → Within (slots_to_delete test n p) m
unfolding slots_to_delete
slots_to_delete-Within test zero m p h = tt
slots_to_delete-Within test (suc n) m p h =
    let before = slots_to_delete-Within test n m p (omega arith) in
    elim (Bool-cases (is_cleanable test n p)) [
      | inl gone ↦ rw gone (append-Within (slots_to_delete test n p) n m before (omega arith))
      | inr kept ↦ rw kept before
    ]

contains-slots_to_delete :
    (test : RecordHeader → Bool) (n j : ℕ) (p : Page)
    → contains j (slots_to_delete test n p) ≡ (ltb j n && is_cleanable test j p)
unfolding slots_to_delete
contains-slots_to_delete test zero j p = contains-nil j ∙ ground arith
contains-slots_to_delete test (suc n) j p =
    let before = contains-slots_to_delete test n j p in
    let same = λ (e : n ≡ j). ap (λ k. is_cleanable test k p) e in
    let pushed = contains-push n j (slots_to_delete test n p) in
    elim (Bool-cases (n == j)) [
      | inl last ↦
          let e = same ((==_iff n j).0 last) in
          elim (Bool-cases (is_cleanable test n p)) [
            | inl gone ↦ rw gone (pushed ∙ ground (arith, last, gone, e))
            | inr kept ↦ rw kept (before ∙ ground (arith, last, kept, e))
          ]
      | inr other ↦ elim (Bool-cases (is_cleanable test n p)) [
        | inl gone ↦ rw gone (pushed ∙ ground (arith, other, before))
        | inr kept ↦ rw kept (before ∙ ground (arith, other))
      ]
    ]

is_cleanable-test :
    (test : RecordHeader → Bool) (j : ℕ) (p : Page)
    → is_cleanable test j p ≡ true
    → test (header_at (slot_offset j p) p) ≡ true
unfolding is_cleanable
is_cleanable-test test j p h = ground (arith, h)

header_at-Agree :
    (off lo : ℕ) (p p' : Page)
    → lo ≤ off
    → ((hi : ℕ) → Agree lo hi p'.bytes p.bytes)
    → header_at off p' ≡ header_at off p
unfolding header_at
header_at-Agree off lo p p' h a =
    let at = λ (n d : ℕ).
      read_le-Agree n (off + d) p'.bytes p.bytes (λ i l u. a (off + d + n) i (omega arith) u) in
    let first = read_le-Agree 8 off p'.bytes p.bytes (λ i l u. a (off + 8) i (omega arith) u) in
    rw (first, at 8 8, at 8 16, at 2 24) refl

-- What readers see of a slot of a cleaned page.
module _ (test : RecordHeader → Bool) (p : Page) (v : IsTablePage p) where
  clean_page-Emptied : Emptied (slots_to_delete test (slot_count p) p) p (clean_page test p).0
  unfolding clean_page
  clean_page-Emptied =
      empty_slots-Emptied (slots_to_delete test (slot_count p) p) p v
        (slots_to_delete-Within test (slot_count p) (slot_count p) p (omega arith))

  -- Cleaning a well laid out page empties exactly the slots whose record has a whole header that passes
  -- the test; every other slot gives the tuple and the header that it gave before, and the number of
  -- slots and the next page stay.
  pub clean_page-lem :
      (j : ℕ)
      → j < slot_count p
      → let p' = (clean_page test p).0 in
        (get_tuple j p' ≡ (if is_cleanable test j p then none else get_tuple j p))
        × (get_record_header j p' ≡ (if is_cleanable test j p then none else get_record_header j p))
        × (slot_count p' ≡ slot_count p)
        × (get_next_page_id p' ≡ get_next_page_id p)
  unfolding get_tuple get_record_header
  clean_page-lem j h =
      let p' = (clean_page test p).0 in
      let e = clean_page-Emptied in
      let hit = contains-slots_to_delete test (slot_count p) j p in
      let size = e.lengths j h in
      let place = e.offsets j h in
      let low = v.low j h in
      let off = slot_offset j p in
      let head = header_at-Agree off (free_space_offset p) p p' low e.records in
      elim (Bool-cases (is_cleanable test j p)) [
        | inl gone ↦
            let none_left : slot_length j p' ≡ 0 = ground (arith, size, hit, gone, h) in
            (
              rw (none_left, gone, e.count) ground arith,
              rw (none_left, gone, e.count) ground arith,
              e.count,
              e.next,
            )
        | inr kept ↦
            let same_size : slot_length j p' ≡ slot_length j p = ground (arith, size, hit, kept) in
            let same_place : slot_offset j p' ≡ slot_offset j p =
              ground (arith, place, hit, kept) in
            let body =
              read_bytes-Agree (slot_length j p) off p'.bytes p.bytes
                (λ i l u. e.records (off + slot_length j p) i (omega arith) u) in
            (
              rw (same_size, same_place, kept, e.count, body) refl,
              rw (same_size, same_place, kept, e.count, head) refl,
              e.count,
              e.next,
            )
      ]

module _ {W : Type 0} {calls : WalCalls W} where
  -- If a well laid out page is cleaned with the test canDelete of a manager that satisfies the
  -- invariant, a slot whose record some reader sees then, or after any further history of calls, gives
  -- the same tuple and the same header as before.
  pub clean_page-is_visible :
      (m m' : TransactionManager W) (p : Page) (j current : ℕ)
      → Inv m
      → Reach calls m m'
      → IsTablePage p
      → j < slot_count p
      → is_visible m'.transactions (header_at (slot_offset j p) p) current ≡ true
      → let p' = (clean_page (can_delete m.transactions) p).0 in
        (get_tuple j p' ≡ get_tuple j p) × (get_record_header j p' ≡ get_record_header j p)
  clean_page-is_visible m m' p j current inv r v h seen =
      let test = can_delete m.transactions in
      let (tuple, head, count, next) = clean_page-lem test p v j h in
      elim (Bool-cases (is_cleanable test j p)) [
        | inl gone ↦
            let passed : test (header_at (slot_offset j p) p) ≡ true =
              is_cleanable-test test j p gone in
            absurd (
              ground (
                arith,
                seen,
                can_delete-is_visible m m' (header_at (slot_offset j p) p) current inv r passed,
              ))
        | inr kept ↦ (tuple ∙ rw kept refl, head ∙ rw kept refl)
      ]
