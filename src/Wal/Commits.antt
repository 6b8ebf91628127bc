-- ===== src/Wal/Commits.antt =====
-- commitTransaction of src/storage/transaction.cpp on top of the log of src/storage/wal.cpp, and
-- what recovery finds afterwards.
use qin_db.Shared.{
  ℕ, ◌+◌, ◌^◌, ◌<◌, ◌≤◌, ◌≡◌, ◌≢◌, refl, sym, ◌∙◌, ap, Bool, true, false, take, ◌&&◌, ◌||◌, subst,
  some, List, [], ◌∷◌, ◌++◌, arith, length, ◌==◌, if◌then◌else◌, length-append,
}
use qin_db.Shared.Sets
use qin_db.Shared.Sets.{contains-nil}
use qin_db.Transaction.{TransactionManager, TransactionState}
use qin_db.Transaction.Lifecycle.{state_of, write_wal, commit_transaction}
use qin_db.Transaction.Finish.{finished, commit_transaction-active}
use qin_db.Transaction.Outcomes.{active-found}
use qin_db.Wal.{
  WalRecord, WalManager, LogCalls, Backend, empty_scan, next_lsn, scan_log, commit_record,
  append_record, wal_calls,
}
use qin_db.Page.LittleEndian.{Bytes}
use qin_db.Wal.Crashes.{IsLog, take-IsLog}
use qin_db.Wal.Scanning.{LogLaws, length-take_le}
use qin_db.Wal.Durability.{
  commits, commit_of, commits-commit_of, contains-noted, IsLog-Finds, Logs, commit_record-IsLog,
}

module _ {F B : Type 0} (calls : LogCalls F) (laws : LogLaws calls) (backend : Backend B) where
  -- Every later recovery of a file with these bytes finds exactly these transactions committed.
  abbrev pub Recovers : Bytes → ℕ → (ℕ → Bool) → Type 0
  Recovers bs n is_committed =
      (fuel : ℕ) (h : F) (u : ℕ)
      → laws.contents h ≡ bs
      → (calls.open_read h).1 ≡ true
      → n < fuel
      → Sets.contains u (scan_log calls fuel (calls.open_read h).0 empty_scan).1.committed_txns
        ≡ is_committed u

  IsLog-Recovers :
      (bs : Bytes) (rs : List WalRecord) (n : ℕ)
      → IsLog bs rs
      → length rs ≤ n
      → Recovers bs n (λ u. commits u rs)
  IsLog-Recovers bs rs n v le fuel h u same ok enough =
      ap (λ s. Sets.contains u s.committed_txns)
        (IsLog-Finds calls laws bs rs v fuel h same ok (omega (arith, le, enough)))
      ∙ ground (arith, contains-noted u rs empty_scan, contains-nil u)

  -- The records of a log after a commit.
  abbrev pub after_commit : Bool → ℕ → ℕ → List WalRecord → List WalRecord
  after_commit ok lsn t rs = if ok then rs ++ (commit_of lsn t ∷ []) else rs

  length-after_commit :
      (ok : Bool) (lsn t : ℕ) (rs : List WalRecord)
      → length (after_commit ok lsn t rs) ≤ length rs + 1
  length-after_commit true lsn t rs = omega (arith, length-append rs (commit_of lsn t ∷ []))
  length-after_commit false lsn t rs = omega arith

  commits-after_commit :
      (ok : Bool) (lsn t u : ℕ) (rs : List WalRecord)
      → commits u (after_commit ok lsn t rs) ≡ (commits u rs || ok && t == u)
  commits-after_commit true lsn t u rs = commits-commit_of lsn t u rs
  commits-after_commit false lsn t u rs = ground arith

  -- What recovery finds of the file `g` after a commit with this answer: as it stands, if the program
  -- stops there, and if it stops there and the flush has succeeded.
  abbrev pub Survives : Bool → Bool → ℕ → ℕ → List WalRecord → F → Type 0
  Survives ok flushed lsn t rs g =
      Recovers (laws.contents g) (length rs + 1) (λ u. commits u rs || ok && t == u)
      × ((k : ℕ) × Recovers (laws.durable g) (length rs + 1)
            (λ u. commits u (take k (after_commit ok lsn t rs))))
      × (ok ≡ true
          → flushed ≡ true
          → Recovers (laws.durable g) (length rs + 1) (λ u. commits u rs || t == u))

  -- What the flush of commitTransaction answers, after the record was appended.
  abbrev pub flushes : WalManager F B → F → ℕ → Bool
  flushes w f t = (calls.flush (append_record calls (commit_of (next_lsn calls backend w) t) f).0).1

  IsLog-Survives :
      (ok flushed : Bool) (lsn t : ℕ) (rs : List WalRecord) (g : F)
      → IsLog (laws.contents g) (after_commit ok lsn t rs)
      → (ok ≡ true → flushed ≡ true → laws.durable g ≡ laws.contents g)
      → Survives ok flushed lsn t rs g
  IsLog-Survives ok flushed lsn t rs g v synced =
      let all = after_commit ok lsn t rs in
      let most = length-after_commit ok lsn t rs in
      let (n, front) = laws.durable-take g in
      let (k, part) = take-IsLog n (laws.contents g) all v in
      let whole : Recovers (laws.contents g) (length rs + 1) (λ u. commits u rs || ok && t == u) =
        λ fuel h u same found enough.
          IsLog-Recovers (laws.contents g) all (length rs + 1) v most fuel h u same found enough
          ∙ commits-after_commit ok lsn t u rs in
      (
        whole,
        (
          k,
          IsLog-Recovers (laws.durable g) (take k all) (length rs + 1)
              (subst (λ bs. IsLog bs (take k all)) (sym front) part)
              (omega (arith, most, (length-take_le k all).1)),
        ),
        λ done yes fuel h u same found enough.
            whole fuel h u (same ∙ synced done yes) found enough ∙ ground (arith, done),
      )

  commit_record-Survives :
      (t : ℕ) (w : WalManager F B) (f : F) (rs : List WalRecord)
      → Logs calls laws backend w f rs
      → t < 2 ^ 64
      → next_lsn calls backend w ≢ 0
      → let (w', ok) = commit_record calls backend t w in
        (g : F) × (w'.wal_file ≡ some g)
        × Survives ok (flushes w f t) (next_lsn calls backend w) t rs g
  commit_record-Survives t w f rs v small fresh =
      let (g, there, log, synced) = commit_record-IsLog calls laws backend t w f rs v small fresh in
      (
        g,
        there,
        IsLog-Survives (commit_record calls backend t w).1 (flushes w f t)
            (next_lsn calls backend w) t rs g log synced,
      )

  write_wal-some :
      (m : TransactionManager (WalManager F B)) (t : ℕ) (w : WalManager F B)
      → m.wal_manager ≡ some w
      → ((write_wal (commit_record calls backend) m t).0.wal_manager
          ≡ some (commit_record calls backend t w).0)
        × ((write_wal (commit_record calls backend) m t).1 ≡ (commit_record calls backend t w).1)
  unfolding write_wal
  write_wal-some m t w e = rw (e, write_wal) (refl, refl)

  -- If the transaction manager commits an active transaction, and the log is an open file that holds
  -- whole records and nothing else, then every later recovery of that file, with more rounds than
  -- records, finds exactly these transactions committed: those whose commit was in the log before,
  -- and this transaction if and only if the commit has returned true. If the program stops after the
  -- commit, and the file has only what has left the buffer, then recovery finds the commits of some
  -- first part of these records; and if the commit has returned true and its flush has succeeded, it
  -- finds all of them, this transaction too. The id is below 2 ^ 64, and the next sequence number does
  -- not wrap to 0.
  pub commit_transaction-Recovers :
      (m : TransactionManager (WalManager F B)) (t : ℕ) (w : WalManager F B) (f : F)
      (rs : List WalRecord)
      → m.wal_manager ≡ some w
      → state_of t m.transactions ≡ TransactionState.active
      → Logs calls laws backend w f rs
      → t < 2 ^ 64
      → next_lsn calls backend w ≢ 0
      → let (m', ok) = commit_transaction (wal_calls calls backend) m t in
        (w' : WalManager F B) × (g : F) × (m'.wal_manager ≡ some w')
        × (w'.wal_file ≡ some g)
        × Survives ok (flushes w f t) (next_lsn calls backend w) t rs g
  unfolding finished
  commit_transaction-Recovers m t w f rs logged active v small fresh =
      let (txn, e, a) = active-found t m.transactions active in
      let (g, there, found) = commit_record-Survives t w f rs v small fresh in
      let (kept, answer) =
        write_wal-some (finished m t txn TransactionState.committed) t w logged in
      rw (commit_transaction-active (wal_calls calls backend) m t txn e a, answer)
        ((commit_record calls backend t w).0, g, kept, there, found)
