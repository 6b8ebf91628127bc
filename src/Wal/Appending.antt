-- ===== src/Wal/Appending.antt =====
-- writeRecordToFile of src/storage/wal.cpp: a record is appended as a whole, or torn off.
use mathlib.Core.List.{append_assoc, append-nil}
use qin_db.Shared.{
  ℕ, suc, ◌+◌, ◌≤◌, ◌≡◌, refl, sym, ◌∙◌, ap, inl, inr, List, [], ◌∷◌, ◌++◌, arith, length, take,
  ◌==◌, Bool-cases,
}
use qin_db.Page.LittleEndian.{Bytes}
use qin_db.Wal.{WalRecord, LogCalls, wal_header_size, wal_header_bytes, append_record}
use qin_db.Wal.Layout.{record_bytes, log_bytes, length-wal_header_bytes, length-record_bytes}
use qin_db.Wal.Scanning.{LogLaws, take-append_of_le}

pub take-full : (xs : Bytes) → take (length xs) xs ≡ xs
take-full [] = refl
take-full (x ∷ xs) = ap (λ ys. x ∷ ys) (take-full xs)

pub take-append_of_ge : (k : ℕ) (xs ys : Bytes) → take (length xs + k) (xs ++ ys) ≡ xs ++ take k ys
take-append_of_ge k [] ys = let e : 0 + k ≡ k = omega arith in rw e refl
take-append_of_ge k (x ∷ xs) ys =
    let e : suc (length xs) + k ≡ suc (length xs + k) = omega arith in
    rw e (ap (λ zs. x ∷ zs) (take-append_of_ge k xs ys))

pub log_bytes-append :
    (rs : List WalRecord) (r : WalRecord)
    → log_bytes (rs ++ (r ∷ [])) ≡ log_bytes rs ++ record_bytes r
unfolding log_bytes
log_bytes-append [] r = append-nil (record_bytes r)
log_bytes-append (x ∷ rs) r =
    ap (λ bs. record_bytes x ++ bs) (log_bytes-append rs r)
    ∙ sym (append_assoc (record_bytes x) (log_bytes rs) (record_bytes r))

module _ {F : Type 0} (calls : LogCalls F) (laws : LogLaws calls) (r : WalRecord) (f : F) where
  -- Whatever the writes return, the file has grown by a front part of the record, which is the whole
  -- record exactly if the append reports success.
  pub append_record-contents :
      (k : ℕ) × (laws.contents (append_record calls r f).0
        ≡ laws.contents f ++ take k (record_bytes r))
      × ((append_record calls r f).1 ≡ (k == length (record_bytes r)))
      × (k ≤ length (record_bytes r))
  unfolding append_record record_bytes
  append_record-contents =
      let head = wal_header_bytes r.header in
      let first = calls.write head f in
      let second = calls.write r.payload first.0 in
      let grown = laws.contents-write head f in
      let head_le = laws.write_le head f in
      let data_le = laws.write_le r.payload first.0 in
      let size = length-wal_header_bytes r.header in
      let all : length (head ++ r.payload) ≡ wal_header_size + length r.payload =
        length-record_bytes r in
      let front = take-append_of_le first.1 head r.payload head_le in
      elim (Bool-cases (first.1 == wal_header_size)) [
        | inr short ↦ (
          first.1,
          rw (short, append_record) (grown ∙ ap (λ bs. laws.contents f ++ bs) (sym front)),
          rw (short, append_record) (ground (arith, head_le, all, size, short)),
          omega (arith, head_le, all, size),
        )
        | inl full ↦ elim (Bool-cases (length r.payload == 0)) [
          | inl bare ↦ (
            first.1,
            rw (full, bare, append_record) (grown ∙ ap (λ bs. laws.contents f ++ bs) (sym front)),
            rw (full, bare, append_record) (ground (arith, all, full, bare)),
            omega (arith, head_le, all, size),
          )
          | inr data_there ↦
              let whole : take first.1 head ≡ head =
                let n : first.1 ≡ length head = ground (arith, full, size) in
                ap (λ k. take k head) n ∙ take-full head in
              let parts : head ++ take second.1 r.payload
                  ≡ take (wal_header_size + second.1) (head ++ r.payload) =
                sym (
                  ap (λ k. take (k + second.1) (head ++ r.payload)) (sym size)
                  ∙ take-append_of_ge second.1 head r.payload) in
              (
                wal_header_size + second.1,
                rw (full, data_there, append_record)
                    (laws.contents-write r.payload first.0
                      ∙ ap (λ bs. bs ++ take second.1 r.payload)
                          (grown ∙ ap (λ bs. laws.contents f ++ bs) whole)
                      ∙ append_assoc (laws.contents f) head (take second.1 r.payload)
                      ∙ ap (λ bs. laws.contents f ++ bs) parts),
                rw (full, data_there, append_record) (ground (arith, all)),
                omega (arith, data_le, all),
              )
        ]
      ]

  pub is_open-append_record : calls.is_open (append_record calls r f).0 ≡ calls.is_open f
  unfolding append_record
  is_open-append_record =
      let first = calls.write (wal_header_bytes r.header) f in
      ground (
        arith,
        laws.is_open-write (wal_header_bytes r.header) f,
        laws.is_open-write r.payload first.0,
      )
