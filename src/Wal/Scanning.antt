-- ===== src/Wal/Scanning.antt =====
-- The first pass of recoverFromFile of src/storage/wal.cpp over a log that was written.
use mathlib.Core.List.{append_assoc}
use qin_db.Shared.{
  ℕ, zero, suc, ◌+◌, ◌-◌, ◌≤◌, ◌<◌, ◌≡◌, refl, sym, subst, ◌∙◌, ap, Bool, true, false, inl, inr,
  none, some, List, [], ◌∷◌, ◌++◌, arith, length, take, drop, leb, leb→le, ==_refl, ◌==◌,
  length-append, take-append, drop-append, Bool-cases,
}
use qin_db.Page.LittleEndian.{Bytes}
use qin_db.Wal.{
  WalRecordHeader, WalRecord, Scan, LogCalls, wal_header_size, wal_header_bytes, read_wal_header,
  verify_wal_checksum, read_record, scan_log, note_record, read_payload,
}
use qin_db.Wal.Layout.{
  IsWhole, record_bytes, log_bytes, length-wal_header_bytes, length-record_bytes,
  read_wal_header-wal_header_bytes,
}

abbrev pub is_nil : Bytes → Bool
is_nil [] = true
is_nil (b ∷ bs) = false

-- What the documentation of QFile says. `contents` are the bytes that were written, `durable` those
-- of them that have left the buffer and so outlast the program: some front part, and after a flush
-- that succeeds all of them. `rest` are those that reading has not reached. A short write leaves a
-- part of what was to be written.
pub record LogLaws {F : Type 0} (calls : LogCalls F) : Type 0 where
  pub contents : F → Bytes
  pub durable : F → Bytes
  pub rest : F → Bytes
  pub at_end-rest : (f : F) → calls.at_end f ≡ is_nil (rest f)
  pub read_lem : (n : ℕ) (f : F) → (calls.read n f).1 ≡ take n (rest f)
  pub rest-read : (n : ℕ) (f : F) → rest (calls.read n f).0 ≡ drop n (rest f)
  pub rest-skip : (n : ℕ) (f : F) → rest (calls.skip n f) ≡ drop n (rest f)
  pub contents-skip : (n : ℕ) (f : F) → contents (calls.skip n f) ≡ contents f
  pub contents-read : (n : ℕ) (f : F) → contents (calls.read n f).0 ≡ contents f
  pub rest-open_read :
      (f : F) → (calls.open_read f).1 ≡ true → rest (calls.open_read f).0 ≡ contents f
  pub contents-open_read : (f : F) → contents (calls.open_read f).0 ≡ contents f
  pub contents-open_append : (f : F) → contents (calls.open_append f).0 ≡ contents f
  pub contents-close : (f : F) → contents (calls.close f) ≡ contents f
  pub contents-flush : (f : F) → contents (calls.flush f).0 ≡ contents f
  pub write_le : (bs : Bytes) (f : F) → (calls.write bs f).1 ≤ length bs
  pub contents-write :
      (bs : Bytes) (f : F)
      → contents (calls.write bs f).0 ≡ contents f ++ take (calls.write bs f).1 bs
  pub is_open-write : (bs : Bytes) (f : F) → calls.is_open (calls.write bs f).0 ≡ calls.is_open f
  pub durable-take : (f : F) → (n : ℕ) × (durable f ≡ take n (contents f))
  pub durable-flush :
      (f : F) → (calls.flush f).1 ≡ true → durable (calls.flush f).0 ≡ contents (calls.flush f).0

pub take-append_of_le : (n : ℕ) (xs ys : Bytes) → n ≤ length xs → take n (xs ++ ys) ≡ take n xs
take-append_of_le zero xs ys h = refl
take-append_of_le (suc n) [] ys h = absurd (omega arith)
take-append_of_le (suc n) (x ∷ xs) ys h =
    ap (λ zs. x ∷ zs) (take-append_of_le n xs ys (omega arith))

pub take-take_of_le : (n k : ℕ) (xs : Bytes) → n ≤ k → take n (take k xs) ≡ take n xs
take-take_of_le zero k xs h = refl
take-take_of_le (suc n) zero xs h = absurd (omega arith)
take-take_of_le (suc n) (suc k) [] h = refl
take-take_of_le (suc n) (suc k) (x ∷ xs) h =
    ap (λ zs. x ∷ zs) (take-take_of_le n k xs (omega arith))

pub length-take_le :
    {A : Type 0} (n : ℕ) (xs : List A) → (length (take n xs) ≤ n) × (length (take n xs) ≤ length xs)
length-take_le zero xs = (omega arith, omega arith)
length-take_le (suc n) [] = (omega arith, omega arith)
length-take_le (suc n) (x ∷ xs) =
    (omega (arith, (length-take_le n xs).0), omega (arith, (length-take_le n xs).1))

pub length-take_of_le : (n : ℕ) (xs : Bytes) → n ≤ length xs → length (take n xs) ≡ n
length-take_of_le zero xs h = refl
length-take_of_le (suc n) [] h = absurd (omega arith)
length-take_of_le (suc n) (x ∷ xs) h = ap suc (length-take_of_le n xs (omega arith))

pub length-drop : (n : ℕ) (xs : Bytes) → length (drop n xs) ≡ length xs - n
length-drop zero xs = omega arith
length-drop (suc n) [] = omega arith
length-drop (suc n) (x ∷ xs) = omega (arith, length-drop n xs)

pub take-exact : (n : ℕ) (xs ys : Bytes) → length xs ≡ n → take n (xs ++ ys) ≡ xs
take-exact n xs ys h = subst (λ k. take k (xs ++ ys) ≡ xs) h (take-append xs ys)

pub drop-exact : (n : ℕ) (xs ys : Bytes) → length xs ≡ n → drop n (xs ++ ys) ≡ ys
drop-exact n xs ys h = subst (λ k. drop k (xs ++ ys) ≡ ys) h (drop-append xs ys)

pub is_nil-append : (xs ys : Bytes) → 0 < length xs → is_nil (xs ++ ys) ≡ false
is_nil-append [] ys h = absurd (omega arith)
is_nil-append (x ∷ xs) ys h = refl

nil_of_length : (xs : Bytes) → length xs ≡ 0 → xs ≡ []
nil_of_length [] h = refl
nil_of_length (x ∷ xs) h = absurd (omega arith)

-- What the first pass has noted of whole records.
abbrev pub noted : List WalRecord → Scan → Scan
noted [] s = s
noted (r ∷ rs) s = noted rs (note_record r s)

abbrev pub AllWhole : List WalRecord → Type 0
AllWhole [] = Unit
AllWhole (r ∷ rs) = IsWhole r × AllWhole rs

-- What follows the whole records: nothing, or a part of one more.
pub data IsTail : Bytes → Type 0 where
  ends : IsTail []
  torn :
      (r : WalRecord) (k : ℕ)
      → IsWhole r
      → k < length (record_bytes r)
      → IsTail (take k (record_bytes r))

module _ {F : Type 0} (calls : LogCalls F) (laws : LogLaws calls) where
  read_payload-whole :
      (r : WalRecord) (tail : Bytes) (f : F)
      → IsWhole r
      → laws.rest f ≡ r.payload ++ tail
      → ((read_payload calls r.header f).1 ≡ some r)
        × (laws.rest (read_payload calls r.header f).0 ≡ tail)
  unfolding read_payload
  read_payload-whole r tail f v left =
      let h = r.header in
      let size = v.size in
      let body : (calls.read h.data_size f).1 ≡ r.payload =
        laws.read_lem h.data_size f
        ∙ ap (take h.data_size) left
        ∙ take-exact h.data_size r.payload tail (sym size) in
      let behind : laws.rest (calls.read h.data_size f).0 ≡ tail =
        laws.rest-read h.data_size f
        ∙ ap (drop h.data_size) left
        ∙ drop-exact h.data_size r.payload tail (sym size) in
      let long : (length (calls.read h.data_size f).1 == h.data_size) ≡ true =
        ap (λ n. n == h.data_size) (ap length body ∙ sym size) ∙ ==_refl h.data_size in
      let at : Bytes → WalRecord = λ p. record { header = h; payload = p } in
      elim (Bool-cases (h.data_size == 0)) [
        | inl none_there ↦
            let nil : r.payload ≡ [] = nil_of_length r.payload (ground (arith, size)) in
            let bare : at [] ≡ r = ap at (sym nil) in
            let sound : verify_wal_checksum (at []) ≡ true =
              ap verify_wal_checksum bare ∙ v.sound in
            rw (none_there, sound, read_payload) (ap some bare, left ∙ ap (λ p. p ++ tail) nil)
        | inr data_there ↦
            let full : at (calls.read h.data_size f).1 ≡ r = ap at body in
            let sound : verify_wal_checksum (at (calls.read h.data_size f).1) ≡ true =
              ap verify_wal_checksum full ∙ v.sound in
            rw (data_there, long, sound, read_payload) (ap some full, behind)
      ]

  -- A whole record at the place of reading is read, and the place moves behind it.
  read_record-whole :
      (r : WalRecord) (tail : Bytes) (f : F)
      → IsWhole r
      → laws.rest f ≡ record_bytes r ++ tail
      → ((read_record calls f).1 ≡ some r) × (laws.rest (read_record calls f).0 ≡ tail)
  unfolding read_record record_bytes
  read_record-whole r tail f v e =
      let h = r.header in
      let split : laws.rest f ≡ wal_header_bytes h ++ (r.payload ++ tail) =
        e ∙ append_assoc (wal_header_bytes h) r.payload tail in
      let front = calls.read wal_header_size f in
      let head : front.1 ≡ wal_header_bytes h =
        laws.read_lem wal_header_size f
        ∙ ap (take wal_header_size) split
        ∙ take-exact wal_header_size (wal_header_bytes h) (r.payload ++ tail)
            (length-wal_header_bytes h) in
      let left : laws.rest front.0 ≡ r.payload ++ tail =
        laws.rest-read wal_header_size f
        ∙ ap (drop wal_header_size) split
        ∙ drop-exact wal_header_size (wal_header_bytes h) (r.payload ++ tail)
            (length-wal_header_bytes h) in
      let parsed : read_wal_header front.1 ≡ h =
        ap read_wal_header head ∙ read_wal_header-wal_header_bytes h v.fits in
      let whole_head : (length front.1 == wal_header_size) ≡ true =
        ap (λ n. n == wal_header_size) (ap length head ∙ length-wal_header_bytes h) in
      rw (whole_head, parsed, read_record) (read_payload-whole r tail front.0 v left)

  read_payload-torn :
      (h : WalRecordHeader) (f : F)
      → length (laws.rest f) < h.data_size
      → (read_payload calls h f).1 ≡ none
  unfolding read_payload
  read_payload-torn h f short =
      let body = ap length (laws.read_lem h.data_size f) in
      let most = (length-take_le h.data_size (laws.rest f)).1 in
      let some_data : (h.data_size == 0) ≡ false = ground (arith, short) in
      let torn : (length (calls.read h.data_size f).1 == h.data_size) ≡ false =
        ground (arith, body, most, short) in
      rw (some_data, torn, read_payload) refl

  -- Of a torn record nothing is read.
  read_record-torn :
      (r : WalRecord) (k : ℕ) (f : F)
      → IsWhole r
      → k < length (record_bytes r)
      → laws.rest f ≡ take k (record_bytes r)
      → (read_record calls f).1 ≡ none
  unfolding read_record record_bytes
  read_record-torn r k f v short e =
      let h = r.header in
      let size = v.size in
      let all : length (wal_header_bytes h ++ r.payload) ≡ wal_header_size + length r.payload =
        length-append (wal_header_bytes h) r.payload
        ∙ ap (λ n. n + length r.payload) (length-wal_header_bytes h) in
      let front = calls.read wal_header_size f in
      let head : front.1 ≡ take wal_header_size (take k (wal_header_bytes h ++ r.payload)) =
        laws.read_lem wal_header_size f ∙ ap (take wal_header_size) e in
      elim (Bool-cases (leb wal_header_size k)) [
        | inr torn_head ↦
            let part = length-take_le k (wal_header_bytes h ++ r.payload) in
            let front_part =
              length-take_le wal_header_size (take k (wal_header_bytes h ++ r.payload)) in
            let missing : (length front.1 == wal_header_size) ≡ false =
              ground (arith, ap length head, part, front_part, torn_head) in
            rw (missing, read_record) refl
        | inl torn_data ↦
            let there : wal_header_size ≤ k = leb→le wal_header_size k torn_data in
            let bytes = wal_header_bytes h ++ r.payload in
            let whole : front.1 ≡ wal_header_bytes h =
              head
              ∙ take-take_of_le wal_header_size k bytes there
              ∙ take-exact wal_header_size (wal_header_bytes h) r.payload
                  (length-wal_header_bytes h) in
            let parsed : read_wal_header front.1 ≡ h =
              ap read_wal_header whole ∙ read_wal_header-wal_header_bytes h v.fits in
            let whole_head : (length front.1 == wal_header_size) ≡ true =
              ap (λ n. n == wal_header_size) (ap length whole ∙ length-wal_header_bytes h) in
            let left : length (laws.rest front.0) ≡ length (take k bytes) - wal_header_size =
              ap length (laws.rest-read wal_header_size f ∙ ap (drop wal_header_size) e)
              ∙ length-drop wal_header_size (take k bytes) in
            rw (whole_head, parsed, read_record)
              (read_payload-torn h front.0
                (omega (arith, left, all, short, (length-take_le k bytes).0)))
      ]

  scan_tail :
      (fuel : ℕ) (f : F) (s : Scan) (tail : Bytes)
      → IsTail tail
      → laws.rest f ≡ tail
      → (scan_log calls fuel f s).1 ≡ s
  unfolding scan_log
  scan_tail zero f s tail t e = refl
  scan_tail (suc fuel) f s tail ends e =
      let over : calls.at_end f ≡ true = laws.at_end-rest f ∙ ap is_nil e in
      rw (over, scan_log) refl
  scan_tail (suc fuel) f s tail (torn r k v short) e = elim (Bool-cases (calls.at_end f)) [
    | inl over ↦ rw (over, scan_log) refl
    | inr more ↦ rw (more, read_record-torn r k f v short e, scan_log) refl
  ]

  -- If the unread part of the log is the bytes of whole records, and then nothing or a part of one
  -- more record, the first pass notes exactly the whole records, given more rounds than records.
  pub scan_log-log_bytes :
      (fuel : ℕ) (rs : List WalRecord) (tail : Bytes) (f : F) (s : Scan)
      → length rs < fuel
      → AllWhole rs
      → IsTail tail
      → laws.rest f ≡ log_bytes rs ++ tail
      → (scan_log calls fuel f s).1 ≡ noted rs s
  unfolding log_bytes scan_log
  scan_log-log_bytes zero rs tail f s enough v t e = absurd (omega arith)
  scan_log-log_bytes (suc fuel) [] tail f s enough v t e = scan_tail (suc fuel) f s tail t e
  scan_log-log_bytes (suc fuel) (r ∷ rs) tail f s enough v t e =
      let split : laws.rest f ≡ record_bytes r ++ (log_bytes rs ++ tail) =
        e ∙ append_assoc (record_bytes r) (log_bytes rs) tail in
      let (found, left) = read_record-whole r (log_bytes rs ++ tail) f v.0 split in
      let more : calls.at_end f ≡ false =
        laws.at_end-rest f
        ∙ ap is_nil split
        ∙ is_nil-append (record_bytes r) (log_bytes rs ++ tail)
            (omega (arith, length-record_bytes r)) in
      rw (more, found, scan_log)
        (scan_log-log_bytes fuel rs tail (read_record calls f).0 (note_record r s) (omega arith) v.1
          t left)
