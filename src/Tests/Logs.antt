-- ===== src/Tests/Logs.antt =====
-- A log file in memory that holds one commit, and a record torn off behind it.
use qin_db.Shared.{
  ℕ, ◌≡◌, refl, sym, ap, Bool, true, false, none, some, List, [], ◌∷◌, ◌++◌, arith, length, take,
  drop,
}
use qin_db.Shared.Maps
use qin_db.Page.LittleEndian.{Bytes}
use qin_db.MessageCodec.Wire.{Stream}
use qin_db.BufferPool.Calls.{disk_calls}
use qin_db.Transaction.{TransactionManager, TransactionState}
use qin_db.Transaction.Lifecycle.{new_transaction, state_of, commit_transaction}
use qin_db.Wal.{
  WalRecord, WalManager, LogCalls, Backend, empty_scan, next_lsn, scan_log, initialize_wal,
  recover_from_file, wal_calls,
}
use qin_db.Wal.Layout.{record_bytes, log_bytes, length-record_bytes}
use qin_db.Wal.Scanning.{LogLaws, is_nil, noted, AllWhole, IsTail, torn, scan_log-log_bytes}
use qin_db.Wal.Appending.{take-full}
use qin_db.Wal.Durability.{commit_of, commit_of-IsWhole, Logs}
use qin_db.Wal.Commits.{Survives, flushes, commit_transaction-Recovers}
use qin_db.Wal.Numbering.{Below}
use qin_db.Wal.Restoring.{recover_from_file-initialize_wal}
use qin_db.Tests.Files.{memory}
use qin_db.Tests.Messages.{qt}
use qin_db.Tests.Pools.{pool}

record LogFile : Type 0 where
  content : Bytes
  synced : ℕ
  left : Bytes

-- Every call succeeds, and a write writes all; `synced` bytes of the content have left the buffer.
abbrev file_calls : LogCalls LogFile
file_calls = record {
  exists = λ f. true;
  is_open = λ f. true;
  open_read = λ f. (record f { left = f.content }, true);
  open_append = λ f. (f, true);
  close = λ f. f;
  at_end = λ f. is_nil f.left;
  read = λ n f. (record f { left = drop n f.left }, take n f.left);
  skip = λ n f. record f { left = drop n f.left };
  write = λ bs f. (record f { content = f.content ++ bs }, length bs);
  flush = λ f. (record f { synced = length f.content }, true);
}

file_laws : LogLaws file_calls
file_laws = record {
  contents = λ f. f.content;
  durable = λ f. take f.synced f.content;
  rest = λ f. f.left;
  at_end-rest = λ f. refl;
  read_lem = λ n f. refl;
  rest-read = λ n f. refl;
  rest-skip = λ n f. refl;
  contents-skip = λ n f. refl;
  contents-read = λ n f. refl;
  rest-open_read = λ f e. refl;
  contents-open_read = λ f. refl;
  contents-open_append = λ f. refl;
  contents-close = λ f. refl;
  contents-flush = λ f. refl;
  write_le = λ bs f. omega arith;
  contents-write = λ bs f. ap (λ xs. f.content ++ xs) (sym (take-full bs));
  is_open-write = λ bs f. refl;
  durable-take = λ f. (f.synced, refl);
  durable-flush = λ f e. take-full f.content;
}

-- No database holds the log.
abbrev no_backend : Backend Unit
no_backend = record {
  get_current_lsn = λ b. 0;
  set_current_lsn = λ n b. b;
  write_record = λ r b. (b, false);
  read_all_records = λ b. none;
  flush = λ b. (b, false);
}

abbrev one_commit : List WalRecord
one_commit = commit_of 1 9 ∷ []

one_commit-AllWhole : AllWhole one_commit
one_commit-AllWhole = (commit_of-IsWhole 1 9 (omega arith) (omega arith), tt)

abbrev log : LogFile
log = record { content = log_bytes one_commit; synced = 0; left = [] }

abbrev manager : WalManager LogFile Unit
manager = record { wal_file = some log; current_lsn = 1; db_backend = none; use_database = false }

manager-Logs : Logs file_calls file_laws no_backend manager log one_commit
unfolding file_laws
manager-Logs = record {
  by_file = refl;
  there = refl;
  opened = refl;
  held = refl;
  whole = one_commit-AllWhole;
}

-- Transaction 1 runs.
abbrev transactions : TransactionManager (WalManager LogFile Unit)
transactions = record {
  wal_manager = some manager;
  transactions = (1, new_transaction 1 5) ∷ [];
  page_locks = [];
  next_txn_id = 2;
}

running : state_of 1 transactions.transactions ≡ TransactionState.active
unfolding state_of Maps.lookup
running = refl

commit_transaction-Recovers_example :
    let (m', ok) = commit_transaction (wal_calls file_calls no_backend) transactions 1 in
    (w' : WalManager LogFile Unit) × (g : LogFile) × (m'.wal_manager ≡ some w')
    × (w'.wal_file ≡ some g)
    × Survives file_calls file_laws no_backend ok
        (flushes file_calls file_laws no_backend manager log 1)
        (next_lsn file_calls no_backend manager)
        1
        one_commit
        g
commit_transaction-Recovers_example =
    commit_transaction-Recovers file_calls file_laws no_backend transactions 1 manager log
      one_commit refl running manager-Logs (omega arith) (λ e. absurd (omega (arith, e)))

abbrev torn_record : Bytes
torn_record = take 5 (record_bytes (commit_of 2 10))

torn_record-IsTail : IsTail torn_record
torn_record-IsTail =
    let size = length-record_bytes (commit_of 2 10) in
    torn (commit_of 2 10) 5 (commit_of-IsWhole 2 10 (omega arith) (omega arith))
      (omega (arith, size))

abbrev torn_log : LogFile
torn_log = record { content = []; synced = 0; left = log_bytes one_commit ++ torn_record }

scan_log-log_bytes_example :
    (scan_log file_calls 9 torn_log empty_scan).1 ≡ noted one_commit empty_scan
unfolding file_laws
scan_log-log_bytes_example =
    scan_log-log_bytes file_calls file_laws 9 one_commit torn_record torn_log empty_scan
      (omega arith) one_commit-AllWhole torn_record-IsTail refl

-- A text takes one byte; every table is known.
abbrev read_text : Stream → Stream × Bytes
read_text s = (record s { rest = drop 1 s.rest }, take 1 s.rest)

abbrev has_table : Bytes → Bool
has_table name = true

recover_from_file-initialize_wal_example :
    let found =
      (recover_from_file qt read_text has_table
        (disk_calls memory)
        file_calls
        no_backend
        9
        log
        manager
        pool).0.0.current_lsn in
    (found ≡ (initialize_wal file_calls no_backend 9 log manager).0.current_lsn)
    × Below found one_commit
unfolding file_laws
recover_from_file-initialize_wal_example =
    recover_from_file-initialize_wal qt read_text has_table (disk_calls memory) file_calls file_laws
      no_backend 9 one_commit log manager refl one_commit-AllWhole (omega arith) (λ g. refl) pool
      refl refl
