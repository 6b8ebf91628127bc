-- ===== src/Wal/Durability.antt =====
-- Commits that src/storage/wal.cpp has written, and those that were torn, as recovery finds them.
use mathlib.Core.List.{append-nil}
use qin_db.Shared.{
  ℕ, ◌^◌, ◌<◌, ◌≡◌, ◌≢◌, refl, sym, subst, ◌∙◌, ap, Bool, true, false, ◌&&◌, ◌||◌, inl, inr, some,
  List, [], ◌∷◌, ◌++◌, arith, length, take, ==_iff, ◌==◌, if◌then◌else◌, Bool-cases,
}
use qin_db.Shared.Sets
use qin_db.Shared.Sets.{contains-insert}
use qin_db.Page.LittleEndian.{Bytes}
use qin_db.Wal.{
  WalRecord, Scan, empty_scan, LogCalls, Backend, WalManager, stamped, new_record, commit_type,
  append_record, next_lsn, write_record_to_file, write_record, flush_wal, commit_record,
  note_record, note_header, scan_log,
}
use qin_db.Wal.Layout.{IsWhole, record_bytes, log_bytes, stamped-IsWhole, calculate_wal_checksum-lt}
use qin_db.Wal.Scanning.{LogLaws, noted, AllWhole, ends, torn, scan_log-log_bytes}
use qin_db.Wal.Crashes.{IsLog}
use qin_db.Wal.Appending.{
  is_open-append_record, append_record-contents, log_bytes-append, take-full,
}

-- The records hold the commit of a transaction.
abbrev pub commits : ℕ → List WalRecord → Bool
commits t [] = false
commits t (r ∷ rs) = r.header.record_type == commit_type && r.header.txn_id == t || commits t rs

AllWhole-append :
    (rs : List WalRecord) (r : WalRecord) → AllWhole rs → IsWhole r → AllWhole (rs ++ (r ∷ []))
AllWhole-append [] r v w = (w, tt)
AllWhole-append (x ∷ rs) r v w = (v.0, AllWhole-append rs r v.1 w)

module _ {F : Type 0} (calls : LogCalls F) (laws : LogLaws calls) where
  -- Recovery of a file with these bytes finds these records.
  abbrev pub Finds : Bytes → List WalRecord → Type 0
  Finds bs rs =
      (fuel : ℕ) (g : F)
      → laws.contents g ≡ bs
      → (calls.open_read g).1 ≡ true
      → length rs < fuel
      → (scan_log calls fuel (calls.open_read g).0 empty_scan).1 ≡ noted rs empty_scan

  pub IsLog-Finds : (bs : Bytes) (rs : List WalRecord) → IsLog bs rs → Finds bs rs
  IsLog-Finds bs rs (v, (tail, t, e)) fuel g same ok enough =
      scan_log-log_bytes calls laws fuel rs tail (calls.open_read g).0 empty_scan enough v t
        (laws.rest-open_read g ok ∙ same ∙ e)

  -- An append leaves the log of the records of before, and of the new one if it succeeds.
  append_record-IsLog :
      (rs : List WalRecord) (r : WalRecord) (f : F)
      → AllWhole rs
      → IsWhole r
      → laws.contents f ≡ log_bytes rs
      → IsLog
          (laws.contents (append_record calls r f).0)
          (if (append_record calls r f).1 then rs ++ (r ∷ []) else rs)
  append_record-IsLog rs r f v w e =
      let (k, grown, done, short) = append_record-contents calls laws r f in
      let after = grown ∙ ap (λ bs. bs ++ take k (record_bytes r)) e in
      elim (Bool-cases (append_record calls r f).1) [
        | inl ok ↦
            let full : k ≡ length (record_bytes r) =
              (==_iff k (length (record_bytes r))).0 (sym done ∙ ok) in
            rw ok (
              AllWhole-append rs r v w,
              (
                [],
                ends,
                after
                    ∙ ap (λ n. log_bytes rs ++ take n (record_bytes r)) full
                    ∙ ap (λ bs. log_bytes rs ++ bs) (take-full (record_bytes r))
                    ∙ sym (log_bytes-append rs r)
                    ∙ sym (append-nil (log_bytes (rs ++ (r ∷ [])))),
              ),
            )
        | inr failed ↦
            let less : k < length (record_bytes r) = ground (arith, short, done, failed) in
            rw failed (v, (take k (record_bytes r), torn r k w less, after))
      ]

-- What the first pass notes of records, as a function of the records.
contains-note_record :
    (t : ℕ) (r : WalRecord) (s : Scan)
    → Sets.contains t (note_record r s).committed_txns ≡ (
        r.header.record_type == commit_type && r.header.txn_id == t
        || Sets.contains t s.committed_txns)
unfolding note_record note_header
contains-note_record t r s = ground (arith, contains-insert r.header.txn_id t s.committed_txns)

pub contains-noted :
    (t : ℕ) (rs : List WalRecord) (s : Scan)
    → Sets.contains t (noted rs s).committed_txns
      ≡ (commits t rs || Sets.contains t s.committed_txns)
contains-noted t [] s = refl
contains-noted t (r ∷ rs) s =
    ground (arith, contains-noted t rs (note_record r s), contains-note_record t r s)

commits-append :
    (t : ℕ) (rs : List WalRecord) (r : WalRecord)
    → commits t (rs ++ (r ∷ []))
      ≡ (commits t rs || r.header.record_type == commit_type && r.header.txn_id == t)
commits-append t [] r = ground arith
commits-append t (x ∷ rs) r = ground (arith, commits-append t rs r)

-- A transaction's record as it is written.
abbrev pub commit_of : ℕ → ℕ → WalRecord
commit_of lsn t = stamped lsn (new_record commit_type t [])

pub commit_of-IsWhole : (lsn t : ℕ) → lsn < 2 ^ 64 → t < 2 ^ 64 → IsWhole (commit_of lsn t)
unfolding new_record
commit_of-IsWhole lsn t small id =
    stamped-IsWhole lsn (new_record commit_type t [])
      (record {
        record_type = omega arith;
        reserved_1 = omega arith;
        data_size = omega arith;
        txn_id = id;
        lsn = omega arith;
        checksum = calculate_wal_checksum-lt (record {
          header = record {
            record_type = commit_type;
            reserved_1 = 0;
            data_size = 0;
            txn_id = t;
            lsn = 0;
            checksum = 0;
            reserved_2 = 0;
          };
          payload = [];
        });
        reserved_2 = omega arith;
      })
      small (omega arith)

pub commits-commit_of :
    (lsn t u : ℕ) (rs : List WalRecord)
    → commits u (rs ++ (commit_of lsn t ∷ [])) ≡ (commits u rs || t == u)
unfolding stamped new_record
commits-commit_of lsn t u rs = commits-append u rs (commit_of lsn t)

module _ {F B : Type 0} (calls : LogCalls F) (laws : LogLaws calls) (backend : Backend B) where
  -- The manager writes to an open file that holds these records and nothing else.
  pub record Logs (w : WalManager F B) (f : F) (rs : List WalRecord) : Type 0 where
    pub by_file : w.use_database ≡ false
    pub there : w.wal_file ≡ some f
    pub opened : calls.is_open f ≡ true
    pub held : laws.contents f ≡ log_bytes rs
    pub whole : AllWhole rs

  -- What commitTransaction of the log leaves, by its answer and that of the flush.
  commit_record-file :
      (t : ℕ) (w : WalManager F B) (f : F)
      → w.use_database ≡ false
      → w.wal_file ≡ some f
      → calls.is_open f ≡ true
      → next_lsn calls backend w ≢ 0
      → let (f', ok) = append_record calls (commit_of (next_lsn calls backend w) t) f in
        ((commit_record calls backend t w).1 ≡ ok)
        × ((g : F) × ((commit_record calls backend t w).0.wal_file ≡ some g)
            × (laws.contents g ≡ laws.contents f')
            × (ok ≡ true → (calls.flush f').1 ≡ true → laws.durable g ≡ laws.contents g))
  unfolding commit_record write_record write_record_to_file flush_wal
  commit_record-file t w f by there opened fresh =
      let r = commit_of (next_lsn calls backend w) t in
      let (f', ok) = append_record calls r f in
      let still : calls.is_open f' ≡ true = is_open-append_record calls laws r f ∙ opened in
      elim (Bool-cases ok) [
        | inr failed ↦ (
          ground (arith, by, there, opened, failed),
          (
            f',
            ground (arith, by, there, opened, failed),
            refl,
            λ done flushed. ground (arith, done, failed),
          ),
        )
        | inl done ↦ (
          ground (arith, by, there, opened, done, fresh),
          (
            (calls.flush f').0,
            ground (arith, by, there, opened, done, still, fresh),
            laws.contents-flush f',
            λ ok flushed. laws.durable-flush f' flushed,
          ),
        )
      ]

  -- A commit leaves the log of the records of before, and of the commit if the answer is true; after
  -- a flush that succeeds, none of it is in the buffer.
  pub commit_record-IsLog :
      (t : ℕ) (w : WalManager F B) (f : F) (rs : List WalRecord)
      → Logs w f rs
      → t < 2 ^ 64
      → next_lsn calls backend w ≢ 0
      → let (w', ok) = commit_record calls backend t w in
        let r = commit_of (next_lsn calls backend w) t in
        (g : F) × (w'.wal_file ≡ some g)
        × IsLog (laws.contents g) (if ok then rs ++ (r ∷ []) else rs)
        × (ok ≡ true
            → (calls.flush (append_record calls r f).0).1 ≡ true
            → laws.durable g ≡ laws.contents g)
  commit_record-IsLog t w f rs v small fresh =
      let r = commit_of (next_lsn calls backend w) t in
      let sound : IsWhole r = commit_of-IsWhole (next_lsn calls backend w) t (omega arith) small in
      let (answer, (g, there, same, flushed)) =
        commit_record-file t w f v.by_file v.there v.opened fresh in
      let log = append_record-IsLog calls laws rs r f v.whole sound v.held in
      (
        g,
        there,
        subst (λ b. IsLog (laws.contents g) (if b then rs ++ (r ∷ []) else rs)) (sym answer)
            (subst (λ bs. IsLog bs (if (append_record calls r f).1 then rs ++ (r ∷ []) else rs))
              (sym same) log),
        λ ok. flushed (sym answer ∙ ok),
      )
