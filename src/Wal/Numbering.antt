-- ===== src/Wal/Numbering.antt =====
-- The log sequence numbers that initialize and recoverFromFile of src/storage/wal.cpp restore.
use mathlib.Core.List.{append_assoc}
use qin_db.Shared.{
  ℕ, zero, suc, ◌≤◌, ◌<◌, ◌≡◌, refl, sym, ◌∙◌, ap, true, false, inl, inr, List, [], ◌∷◌, ◌++◌,
  arith, length, take, drop, ltb, ◌==◌, if◌then◌else◌, Bool-cases,
}
use qin_db.Page.LittleEndian.{Bytes}
use qin_db.Wal.{
  WalRecord, Scan, LogCalls, wal_header_size, wal_header_bytes, read_wal_header, note_record,
  note_header, last_lsn,
}
use qin_db.Wal.Layout.{
  IsWhole, record_bytes, log_bytes, length-wal_header_bytes, read_wal_header-wal_header_bytes,
  length-record_bytes,
}
use qin_db.Wal.Scanning.{LogLaws, is_nil, is_nil-append, noted, AllWhole, take-exact, drop-exact}

-- No record has a larger number.
abbrev pub Below : ℕ → List WalRecord → Type 0
Below n [] = Unit
Below n (r ∷ rs) = (r.header.lsn ≤ n) × Below n rs

max_lsn-note_record :
    (r : WalRecord) (s : Scan)
    → (note_record r s).max_lsn ≡ (if ltb s.max_lsn r.header.lsn then r.header.lsn else s.max_lsn)
unfolding note_record note_header
max_lsn-note_record r s = ground arith

noted-le : (rs : List WalRecord) (s : Scan) → s.max_lsn ≤ (noted rs s).max_lsn
noted-le [] s = omega arith
noted-le (r ∷ rs) s = ground (arith, max_lsn-note_record r s, noted-le rs (note_record r s))

pub noted-Below : (rs : List WalRecord) (s : Scan) → Below (noted rs s).max_lsn rs
noted-Below [] s = tt
noted-Below (r ∷ rs) s = (
  ground (arith, max_lsn-note_record r s, noted-le rs (note_record r s)),
  noted-Below rs (note_record r s),
)

module _ {F : Type 0} (calls : LogCalls F) (laws : LogLaws calls) where
  -- One round of the loop of initialize.
  skipped :
      (r : WalRecord) (tail : Bytes) (f : F)
      → IsWhole r
      → laws.rest f ≡ record_bytes r ++ tail
      → let (f', head) = calls.read wal_header_size f in
        (head ≡ wal_header_bytes r.header)
        × (laws.rest (if ltb 0 r.header.data_size then calls.skip r.header.data_size f' else f')
            ≡ tail)
  unfolding record_bytes
  skipped r tail f v e =
      let h = r.header in
      let split : laws.rest f ≡ wal_header_bytes h ++ (r.payload ++ tail) =
        e ∙ append_assoc (wal_header_bytes h) r.payload tail in
      let front = calls.read wal_header_size f in
      let left : laws.rest front.0 ≡ r.payload ++ tail =
        laws.rest-read wal_header_size f
        ∙ ap (drop wal_header_size) split
        ∙ drop-exact wal_header_size (wal_header_bytes h) (r.payload ++ tail)
            (length-wal_header_bytes h) in
      let over : drop h.data_size (r.payload ++ tail) ≡ tail =
        drop-exact h.data_size r.payload tail (sym v.size) in
      (
        laws.read_lem wal_header_size f
            ∙ ap (take wal_header_size) split
            ∙ take-exact wal_header_size (wal_header_bytes h) (r.payload ++ tail)
                (length-wal_header_bytes h),
        elim (Bool-cases (ltb 0 h.data_size)) [
          | inl data_there ↦
              rw data_there (laws.rest-skip h.data_size front.0 ∙ ap (drop h.data_size) left ∙ over)
          | inr bare ↦
              let none_there : h.data_size ≡ 0 = ground arith in
              rw bare (left ∙ sym (ap (λ n. drop n (r.payload ++ tail)) none_there) ∙ over)
        ],
      )

  -- initialize reads only the headers, and comes to the number that recovery comes to.
  pub last_lsn-log_bytes :
      (fuel : ℕ) (rs : List WalRecord) (f : F) (s : Scan)
      → length rs < fuel
      → AllWhole rs
      → laws.rest f ≡ log_bytes rs
      → (last_lsn calls fuel f s.max_lsn).1 ≡ (noted rs s).max_lsn
  unfolding log_bytes last_lsn
  last_lsn-log_bytes zero rs f s enough v e = absurd (omega arith)
  last_lsn-log_bytes (suc fuel) [] f s enough v e =
      let over : calls.at_end f ≡ true = laws.at_end-rest f ∙ ap is_nil e in
      rw (over, last_lsn) refl
  last_lsn-log_bytes (suc fuel) (r ∷ rs) f s enough v e =
      let (head, left) = skipped r (log_bytes rs) f v.0 e in
      let more : calls.at_end f ≡ false =
        laws.at_end-rest f
        ∙ ap is_nil e
        ∙ is_nil-append (record_bytes r) (log_bytes rs) (omega (arith, length-record_bytes r)) in
      let front = calls.read wal_header_size f in
      let parsed : read_wal_header front.1 ≡ r.header =
        ap read_wal_header head ∙ read_wal_header-wal_header_bytes r.header v.0.fits in
      let whole_head : (length front.1 == wal_header_size) ≡ true =
        ap (λ n. n == wal_header_size) (ap length head ∙ length-wal_header_bytes r.header) in
      rw (more, whole_head, parsed, last_lsn, sym (max_lsn-note_record r s))
        (last_lsn-log_bytes fuel rs
          (if ltb 0 r.header.data_size then calls.skip r.header.data_size front.0 else front.0)
          (note_record r s) (omega arith) v.1 left)
