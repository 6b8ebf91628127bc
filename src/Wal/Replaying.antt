-- ===== src/Wal/Replaying.antt =====
-- The second pass of recovery of src/storage/wal.cpp, on the pages of the buffer pool.
use qin_db.Shared.{
  ℕ, ◌+◌, Bool, true, false, inl, inr, List, [], ◌∷◌, ◌==◌, if◌then◌else◌, Bool-cases, Option-cases,
}
use qin_db.Shared.Sets
use qin_db.MessageCodec.Wire.{Qt, Stream}
use qin_db.BufferPool.{BufferPool, fetch_page}
use qin_db.BufferPool.Calls.{DiskCalls}
use qin_db.BufferPool.Invariant.{IsPool}
use qin_db.BufferPool.Balance.{
  Balanced, Balanced-refl, Balanced-trans, fetch_unpin-Balanced, fetch_failed-Balanced,
}
use qin_db.Wal.{
  WalRecord, WalManager, LogCalls, Backend, replay_page, replay_insert, replay_change,
  replay_record, replay_all, recover_from_file, recover_from_database, recover, scan_log,
  empty_scan, note_all, insert_type, update_type, delete_type,
}

-- Both branches of a test have a property.
if_both : {A : Type 0} (P : A → Type 0) (c : Bool) (x y : A) → P x → P y → P (if c then x else y)
if_both P true x y hx hy = hx
if_both P false x y hx hy = hy

module _ (q : Qt) (read_text : Stream → Stream × q.Text) (has_table : q.Text → Bool) {D : Type 0}
    (disk : DiskCalls D) where
  replay_page-Balanced :
      (table : q.Text) (p : ℕ) (b : BufferPool D)
      → IsPool b
      → Balanced b (replay_page q read_text has_table disk table p b).0
  unfolding replay_page
  replay_page-Balanced table p b v = elim (Bool-cases (has_table table)) [
    | inr unknown ↦ rw (unknown, replay_page) (Balanced-refl b v)
    | inl known ↦ elim (Option-cases (fetch_page disk p b).1) [
      | inl failed ↦ rw (known, failed, replay_page) (fetch_failed-Balanced disk p b v failed)
      | inr (i, found) ↦ rw (known, found, replay_page) (fetch_unpin-Balanced disk p b v i found)
    ]
  ]

  replay_record-Balanced :
      (r : WalRecord) (b : BufferPool D)
      → IsPool b
      → Balanced b (replay_record q read_text has_table disk r b).0
  unfolding replay_record replay_insert replay_change
  replay_record-Balanced r b v =
      let Fine : BufferPool D × Bool → Type 0 = λ x. Balanced b x.0 in
      let insert = replay_insert q read_text has_table disk r b in
      let change = replay_change q read_text has_table disk r b in
      let type = r.header.record_type in
      let inserted : Fine insert = replay_page-Balanced _ _ b v in
      let changed : Fine change = replay_page-Balanced _ _ b v in
      if_both Fine (type == insert_type) insert _ inserted (
        if_both Fine (type == update_type) change _ changed
          (if_both Fine (type == delete_type) change (b, false) changed (Balanced-refl b v)))

  replay_all-Balanced :
      (committed : List ℕ) (rs : List WalRecord) (b : BufferPool D) (n : ℕ)
      → IsPool b
      → Balanced b (replay_all q read_text has_table disk committed rs (b, n)).0
  unfolding replay_all
  replay_all-Balanced committed [] b n v = Balanced-refl b v
  replay_all-Balanced committed (r ∷ rs) b n v =
      let b' = (replay_record q read_text has_table disk r b).0 in
      let one = replay_record-Balanced r b v in
      elim (Bool-cases (Sets.contains r.header.txn_id committed)) [
        | inl redo ↦
            rw (redo, replay_all)
              (Balanced-trans b b' _ one (
                replay_all-Balanced committed rs b'
                  (if (replay_record q read_text has_table disk r b).1 then n + 1 else n) one.0))
        | inr skip ↦ rw (skip, replay_all) (replay_all-Balanced committed rs b n v)
      ]

  module _ {F B : Type 0} (calls : LogCalls F) (backend : Backend B) where
    recover_from_file-Balanced :
        (rounds : ℕ) (f : F) (w : WalManager F B) (b : BufferPool D)
        → IsPool b
        → Balanced b (recover_from_file q read_text has_table disk calls backend rounds f w b).0.1
    unfolding recover_from_file
    recover_from_file-Balanced rounds f w b v =
        let (opened, ok) = calls.open_read (if calls.is_open f then calls.close f else f) in
        let s = (scan_log calls rounds opened empty_scan).1 in
        elim (Bool-cases ok) [
          | inr failed ↦ rw (failed, recover_from_file) (Balanced-refl b v)
          | inl done ↦
              rw (done, recover_from_file)
                (replay_all-Balanced s.committed_txns s.all_records b 0 v)
        ]

    recover_from_database-Balanced :
        (w : WalManager F B) (b : BufferPool D)
        → IsPool b
        → Balanced b (recover_from_database q read_text has_table disk calls backend w b).0.1
    unfolding recover_from_database
    recover_from_database-Balanced w b v = elim (Option-cases w.db_backend) [
      | inl absent ↦ rw (absent, recover_from_database) (Balanced-refl b v)
      | inr (backing, there) ↦ elim (Option-cases (backend.read_all_records backing)) [
        | inl failed ↦ rw (there, failed, recover_from_database) (Balanced-refl b v)
        | inr (rs, found) ↦
            rw (there, found, recover_from_database)
              (replay_all-Balanced (note_all rs empty_scan).committed_txns rs b 0 v)
      ]
    ]

    -- Recovery of either kind, whatever it answers, keeps the invariant of the pool and leaves every
    -- page with as many pins as before.
    recover-Balanced :
        (rounds : ℕ) (f : F) (w : WalManager F B) (b : BufferPool D)
        → IsPool b
        → Balanced b (recover q read_text has_table disk calls backend rounds f w b).0.1
    unfolding recover
    recover-Balanced rounds f w b v =
        if_both (λ x. Balanced b x.0.1) w.use_database
          (recover_from_database q read_text has_table disk calls backend w b)
          (recover_from_file q read_text has_table disk calls backend rounds f w b)
          (recover_from_database-Balanced w b v) (recover_from_file-Balanced rounds f w b v)
