-- ===== src/Wal/Restoring.antt =====
-- The sequence number after initialize and after recoverFromFile of src/storage/wal.cpp.
use mathlib.Core.List.{append-nil}
use qin_db.Shared.{
  ℕ, ◌<◌, ◌≡◌, sym, ◌∙◌, ap, Bool, true, false, inl, inr, List, [], length, if◌then◌else◌,
  Bool-cases,
}
use qin_db.MessageCodec.Wire.{Qt, Stream}
use qin_db.BufferPool.{BufferPool}
use qin_db.BufferPool.Calls.{DiskCalls}
use qin_db.Wal.{
  WalRecord, WalManager, LogCalls, Backend, empty_scan, initialize_wal, recover_from_file,
}
use qin_db.Wal.Layout.{log_bytes}
use qin_db.Wal.Scanning.{LogLaws, noted, AllWhole, ends, scan_log-log_bytes}
use qin_db.Wal.Numbering.{Below, noted-Below, last_lsn-log_bytes}

module _ (q : Qt) (read_text : Stream → Stream × q.Text) (has_table : q.Text → Bool)
    {D F B : Type 0} (disk : DiskCalls D) (calls : LogCalls F) (laws : LogLaws calls)
    (backend : Backend B) (rounds : ℕ) (rs : List WalRecord) (f : F) (w : WalManager F B)
    (held : laws.contents f ≡ log_bytes rs) (whole : AllWhole rs) (enough : length rs < rounds)
    (readable : (g : F) → (calls.open_read g).1 ≡ true) where
  initialize_wal-lsn :
      calls.exists f ≡ true
      → w.use_database ≡ false
      → (initialize_wal calls backend rounds f w).0.current_lsn ≡ (noted rs empty_scan).max_lsn
  unfolding initialize_wal
  initialize_wal-lsn there by_file =
      rw (by_file, there, readable f, initialize_wal)
        (last_lsn-log_bytes calls laws rounds rs (calls.open_read f).0 empty_scan enough whole
          (laws.rest-open_read f (readable f) ∙ held))

  recover_from_file-lsn :
      (b : BufferPool D)
      → (recover_from_file q read_text has_table disk calls backend rounds f w b).0.0.current_lsn
        ≡ (noted rs empty_scan).max_lsn
  unfolding recover_from_file
  recover_from_file-lsn b =
      let shut : F = if calls.is_open f then calls.close f else f in
      let same : laws.contents shut ≡ log_bytes rs = elim (Bool-cases (calls.is_open f)) [
        | inl open_before ↦ rw open_before (laws.contents-close f ∙ held)
        | inr shut_before ↦ rw shut_before held
      ] in
      rw (readable shut, recover_from_file)
        (ap (λ s. s.max_lsn)
          (scan_log-log_bytes calls laws rounds rs [] (calls.open_read shut).0 empty_scan enough
            whole ends
            (laws.rest-open_read shut (readable shut) ∙ same ∙ sym (append-nil (log_bytes rs)))))

  -- On a log file of whole records that exists and can be opened, with more rounds than records, a
  -- manager in file mode restores the same number in recovery as in initialize, and no record of the
  -- log has a larger one.
  pub recover_from_file-initialize_wal :
      (b : BufferPool D)
      → calls.exists f ≡ true
      → w.use_database ≡ false
      → let found =
          (recover_from_file q read_text has_table disk calls backend rounds f w
            b).0.0.current_lsn in
        (found ≡ (initialize_wal calls backend rounds f w).0.current_lsn) × Below found rs
  recover_from_file-initialize_wal b there by_file =
      let found = recover_from_file-lsn b in
      (found ∙ sym (initialize_wal-lsn there by_file), rw found (noted-Below rs empty_scan))
