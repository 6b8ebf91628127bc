-- ===== src/Wal.antt =====
-- include/qindb/wal.h and src/storage/wal.cpp: the write-ahead log.
--
-- `LogCalls` is what WALManager uses of QFile: `write` appends, and returns how many bytes it wrote;
-- `read` returns at most so many bytes from the place that reading has reached. `Backend` is what it
-- uses of WalDbBackend. The catalog is the test whether a table exists. The manager exists once per
-- log; of the two pointers walFile_ and dbBackend_, an absent one is `none`. Sequence numbers wrap at
-- 2 ^ 64, sizes of data at 2 ^ 16, the checksum at 2 ^ 32.
pub mod Layout
pub mod Appending
pub mod Scanning
pub mod Crashes
pub mod Replaying
pub mod Durability
pub mod Commits
pub mod Numbering
pub mod Restoring
use qin_db.Shared.{
  ℕ, zero, suc, ◌+◌, ◌*◌, ◌%◌, ◌^◌, Bool, true, false, not, ◌&&◌, Option, none, some, List, [], ◌∷◌,
  ◌++◌, ltb, ◌==◌, if◌then◌else◌, length,
}
use qin_db.Shared.Sets
use qin_db.Page.LittleEndian.{Bytes, read_le, le_bytes}
use qin_db.Page.Structs.{struct_bytes}
use qin_db.MessageCodec.Wire.{Qt, Stream, stream_of, read_number}
use qin_db.BufferPool.{BufferPool, fetch_page, unpin_page}
use qin_db.BufferPool.Calls.{DiskCalls}
use qin_db.Transaction.{WalCalls}

-- WALRecordType. Every other byte is read as a type that nothing handles.
abbrev pub insert_type : ℕ
insert_type = 1

abbrev pub update_type : ℕ
update_type = 2

abbrev pub delete_type : ℕ
delete_type = 3

abbrev pub begin_type : ℕ
begin_type = 4

abbrev pub commit_type : ℕ
commit_type = 5

abbrev pub abort_type : ℕ
abort_type = 6

abbrev pub checkpoint_type : ℕ
checkpoint_type = 7

pub record WalRecordHeader : Type 0 where
  pub record_type : ℕ
  pub reserved_1 : ℕ
  pub data_size : ℕ
  pub txn_id : ℕ
  pub lsn : ℕ
  pub checksum : ℕ
  pub reserved_2 : ℕ

pub record WalRecord : Type 0 where
  pub header : WalRecordHeader
  pub payload : Bytes

-- sizeof(WALRecordHeader)
abbrev pub wal_header_size : ℕ
wal_header_size = 28

-- The packed struct, field by field.
abbrev pub header_fields : WalRecordHeader → List (ℕ × ℕ)
header_fields h =
    (1, h.record_type)
    ∷ (1, h.reserved_1)
    ∷ (2, h.data_size)
    ∷ (8, h.txn_id)
    ∷ (8, h.lsn)
    ∷ (4, h.checksum)
    ∷ (4, h.reserved_2)
    ∷ []

unfoldable pub wal_header_bytes : WalRecordHeader → Bytes
wal_header_bytes h = struct_bytes (header_fields h)

unfoldable pub read_wal_header : Bytes → WalRecordHeader
read_wal_header bs = record {
  record_type = read_le 1 0 bs;
  reserved_1 = read_le 1 1 bs;
  data_size = read_le 2 2 bs;
  txn_id = read_le 8 4 bs;
  lsn = read_le 8 12 bs;
  checksum = read_le 4 20 bs;
  reserved_2 = read_le 4 24 bs;
}

-- A loop of calculateChecksum: checksum = (checksum << 5) + checksum + byte, in a uint32_t.
unfoldable pub sum_bytes : ℕ → Bytes → ℕ
sum_bytes acc [] = acc
sum_bytes acc (b ∷ bs) = sum_bytes ((acc * 33 + b % 256) % 2 ^ 32) bs

-- calculateChecksum
unfoldable pub calculate_wal_checksum : WalRecord → ℕ
unfolding sum_bytes le_bytes
calculate_wal_checksum r =
    sum_bytes
      (sum_bytes
        (sum_bytes (sum_bytes 0 (le_bytes 1 r.header.record_type)) (le_bytes 8 r.header.txn_id))
        (le_bytes 8 r.header.lsn))
      r.payload

-- verifyChecksum
unfoldable pub verify_wal_checksum : WalRecord → Bool
verify_wal_checksum r = r.header.checksum == calculate_wal_checksum r

-- The constructor of WALRecord, whose checksum writeRecord computes again.
unfoldable pub new_record : ℕ → ℕ → Bytes → WalRecord
unfolding calculate_wal_checksum
new_record type txn payload =
    let bare : WalRecord = record {
      header = record {
        record_type = type;
        reserved_1 = 0;
        data_size = length payload % 2 ^ 16;
        txn_id = txn;
        lsn = 0;
        checksum = 0;
        reserved_2 = 0;
      };
      payload = payload;
    } in
    record bare { header = record bare.header { checksum = calculate_wal_checksum bare } }

pub record LogCalls (F : Type 0) : Type 0 where
  pub exists : F → Bool
  pub is_open : F → Bool
  pub open_read : F → F × Bool
  pub open_append : F → F × Bool
  pub close : F → F
  pub at_end : F → Bool
  pub read : ℕ → F → F × Bytes
  pub skip : ℕ → F → F
  pub write : Bytes → F → F × ℕ
  pub flush : F → F × Bool

pub record Backend (B : Type 0) : Type 0 where
  pub get_current_lsn : B → ℕ
  pub set_current_lsn : ℕ → B → B
  pub write_record : WalRecord → B → B × Bool
  pub read_all_records : B → Option (List WalRecord)
  pub flush : B → B × Bool

pub record WalManager (F B : Type 0) : Type 0 where
  pub wal_file : Option F
  pub current_lsn : ℕ
  pub db_backend : Option B
  pub use_database : Bool

-- The header that writeRecord gives a record.
unfoldable pub stamped : ℕ → WalRecord → WalRecord
unfolding calculate_wal_checksum
stamped lsn r =
    let sized = record r {
      header = record r.header { lsn = lsn; data_size = length r.payload % 2 ^ 16 };
    } in
    record sized { header = record sized.header { checksum = calculate_wal_checksum sized } }

module _ {F : Type 0} (calls : LogCalls F) where
  -- The two writes of writeRecordToFile; the data are written only if there are any.
  unfoldable pub append_record : WalRecord → F → F × Bool
  unfolding wal_header_bytes
  append_record r f =
      let (f', n) = calls.write (wal_header_bytes r.header) f in
      let (f'', k) = calls.write r.payload f' in
      if not (n == wal_header_size)
      then (f', false)
      else if length r.payload == 0
      then (f', true)
      else (f'', k == length r.payload)

module _ {F B : Type 0} (calls : LogCalls F) (backend : Backend B) where
  abbrev pub next_lsn : WalManager F B → ℕ
  next_lsn w = (w.current_lsn + 1) % 2 ^ 64

  -- writeRecordToFile, with the sequence number, or 0.
  unfoldable pub write_record_to_file : WalRecord → WalManager F B → WalManager F B × ℕ
  unfolding stamped
  write_record_to_file r w = elim w.wal_file [
    | none ↦ (w, 0)
    | some f ↦
        let (f', ok) = append_record calls (stamped (next_lsn w) r) f in
        if not (calls.is_open f) then (w, 0) else (
          record w { wal_file = some f'; current_lsn = next_lsn w },
          if ok then next_lsn w else 0,
        )
  ]

  -- writeRecordToDatabase
  unfoldable pub write_record_to_database : WalRecord → WalManager F B → WalManager F B × ℕ
  unfolding stamped
  write_record_to_database r w = elim w.db_backend [
    | none ↦ (w, 0)
    | some b ↦
        let (b', ok) = backend.write_record (stamped (next_lsn w) r) b in
        let w' = record w { current_lsn = next_lsn w } in
        if ok
        then (record w' { db_backend = some (backend.set_current_lsn (next_lsn w) b') }, next_lsn w)
        else (record w' { db_backend = some b' }, 0)
  ]

  -- writeRecord
  unfoldable pub write_record : WalRecord → WalManager F B → WalManager F B × ℕ
  write_record r w =
      if w.use_database then write_record_to_database r w else write_record_to_file r w

  -- flush
  unfoldable pub flush_wal : WalManager F B → WalManager F B × Bool
  flush_wal w =
      if w.use_database
      then elim w.db_backend [
        | none ↦ (w, false)
        | some b ↦ let (b', ok) = backend.flush b in (record w { db_backend = some b' }, ok)
      ]
      else elim w.wal_file [
        | none ↦ (w, false)
        | some f ↦
            let (f', ok) = calls.flush f in
            if calls.is_open f then (record w { wal_file = some f' }, ok) else (w, false)
      ]

  -- checkpoint locks the mutex that writeRecord locks again. A QMutex is not recursive, so the call
  -- does not return if there is a log to write to or not.
  unfoldable pub checkpoint : WalManager F B → Option (WalManager F B × Bool)
  checkpoint w = none

  -- beginTransaction, commitTransaction and abortTransaction
  unfoldable pub begin_record : ℕ → WalManager F B → WalManager F B × Bool
  begin_record t w = let (w', lsn) = write_record (new_record begin_type t []) w in (w', ltb 0 lsn)

  unfoldable pub commit_record : ℕ → WalManager F B → WalManager F B × Bool
  commit_record t w =
      let (w', lsn) = write_record (new_record commit_type t []) w in
      if ltb 0 lsn then ((flush_wal w').0, true) else (w', false)

  unfoldable pub abort_record : ℕ → WalManager F B → WalManager F B × Bool
  abort_record t w = let (w', lsn) = write_record (new_record abort_type t []) w in (w', ltb 0 lsn)

  -- The log that the transaction manager calls.
  abbrev pub wal_calls : WalCalls (WalManager F B)
  wal_calls = record {
    begin_transaction = begin_record;
    commit_transaction = commit_record;
    abort_transaction = abort_record;
  }

-- What the first pass of recovery collects.
pub record Scan : Type 0 where
  pub all_records : List WalRecord
  pub committed_txns : List ℕ
  pub aborted_txns : List ℕ
  pub max_lsn : ℕ

abbrev pub empty_scan : Scan
empty_scan = record { all_records = []; committed_txns = []; aborted_txns = []; max_lsn = 0 }

-- What a record whose checksum holds adds to the sets and to the largest sequence number.
unfoldable pub note_header : WalRecordHeader → Scan → Scan
note_header h s =
    let counted = record s { max_lsn = if ltb s.max_lsn h.lsn then h.lsn else s.max_lsn } in
    if h.record_type == commit_type
    then record counted { committed_txns = Sets.insert h.txn_id s.committed_txns }
    else if h.record_type == abort_type
    then record counted { aborted_txns = Sets.insert h.txn_id s.aborted_txns }
    else counted

unfoldable pub note_record : WalRecord → Scan → Scan
unfolding note_header
note_record r s = record (note_header r.header s) { all_records = s.all_records ++ (r ∷ []) }

-- The first pass of recoverFromDatabase. A record whose checksum fails ends it.
unfoldable pub note_all : List WalRecord → Scan → Scan
unfolding note_header
note_all [] s = s
note_all (r ∷ rs) s =
    let rest = note_all rs (note_header r.header s) in if verify_wal_checksum r then rest else s

module _ {F : Type 0} (calls : LogCalls F) where
  -- The rest of a round of recoverFromFile, behind the header: data, if there are any, and checksum.
  unfoldable pub read_payload : WalRecordHeader → F → F × Option WalRecord
  read_payload h f =
      let (f', body) = calls.read h.data_size f in
      let bare : WalRecord = record { header = h; payload = [] } in
      let full : WalRecord = record { header = h; payload = body } in
      if h.data_size == 0
      then (f, if verify_wal_checksum bare then some bare else none)
      else if not (length body == h.data_size)
      then (f', none)
      else (f', if verify_wal_checksum full then some full else none)

  -- One record of the log, or nothing where the loop of recoverFromFile breaks off.
  unfoldable pub read_record : F → F × Option WalRecord
  unfolding read_payload
  read_record f =
      let (f', head) = calls.read wal_header_size f in
      if not (length head == wal_header_size)
      then (f', none)
      else read_payload (read_wal_header head) f'

  -- The first pass of recoverFromFile. Every round but the last takes a header off the file.
  unfoldable pub scan_log : ℕ → F → Scan → F × Scan
  unfolding note_record
  scan_log zero f s = (f, s)
  scan_log (suc fuel) f s = elim (calls.at_end f) [
    | true ↦ (f, s)
    | false ↦
        let (f', found) = read_record f in
        elim found [ none ↦ (f', s) | some r ↦ scan_log fuel f' (note_record r s) ]
  ]

  -- The loop of initialize, which looks at the headers only.
  unfoldable pub last_lsn : ℕ → F → ℕ → F × ℕ
  last_lsn zero f n = (f, n)
  last_lsn (suc fuel) f n = elim (calls.at_end f) [
    | true ↦ (f, n)
    | false ↦
        let (f', head) = calls.read wal_header_size f in
        let h = read_wal_header head in
        elim (length head == wal_header_size) [
          | false ↦ (f', n)
          | true ↦
              last_lsn fuel (if ltb 0 h.data_size then calls.skip h.data_size f' else f')
                (if ltb n h.lsn then h.lsn else n)
        ]
  ]

module _ {F B : Type 0} (calls : LogCalls F) (backend : Backend B) where
  -- initialize
  unfoldable pub initialize_wal : ℕ → F → WalManager F B → WalManager F B × Bool
  initialize_wal rounds f w =
      let (opened, readable) = calls.open_read f in
      let (read, lsn) = last_lsn calls rounds opened 0 in
      let found = calls.exists f && readable in
      let (appended, ok) = calls.open_append (if found then calls.close read else opened) in
      let (fresh, ok') = calls.open_append f in
      if w.use_database
      then elim w.db_backend [
        | none ↦ (w, false)
        | some b ↦ (record w { current_lsn = backend.get_current_lsn b }, true)
      ]
      else if calls.exists f
      then (
        record w { wal_file = some appended; current_lsn = if found then lsn else w.current_lsn },
        ok,
      )
      else (record w { wal_file = some fresh }, ok')

-- The second pass. The data of a record are read by a QDataStream: `read_text` is its operator>> of a
-- QString, `has_table` whether the catalog knows the table.
module _ (q : Qt) (read_text : Stream → Stream × q.Text) (has_table : q.Text → Bool) {D : Type 0}
    (disk : DiskCalls D) where
  -- What the three replays share: the page is fetched and unpinned again.
  unfoldable pub replay_page : q.Text → ℕ → BufferPool D → BufferPool D × Bool
  replay_page table p b =
      let (b', found) = fetch_page disk p b in
      if has_table table
      then elim found [ none ↦ (b', false) | some i ↦ ((unpin_page p false b').0, true) ]
      else (b, false)

  -- replayInsert: the table, the row id, the page.
  unfoldable pub replay_insert : WalRecord → BufferPool D → BufferPool D × Bool
  replay_insert r b =
      let (s, table) = read_text (stream_of r.payload) in
      let (s', row) = read_number q 8 s in
      let (s'', p) = read_number q 4 s' in replay_page table p b

  -- replayUpdate and replayDelete: the table and the page.
  unfoldable pub replay_change : WalRecord → BufferPool D → BufferPool D × Bool
  replay_change r b =
      let (s, table) = read_text (stream_of r.payload) in
      let (s', p) = read_number q 4 s in replay_page table p b

  -- The switch in the loop of the second pass.
  unfoldable pub replay_record : WalRecord → BufferPool D → BufferPool D × Bool
  replay_record r b =
      if r.header.record_type == insert_type
      then replay_insert r b
      else if r.header.record_type == update_type
      then replay_change r b
      else if r.header.record_type == delete_type
      then replay_change r b
      else (b, false)

  -- The loop of the second pass, with the number of operations replayed.
  unfoldable pub replay_all : List ℕ → List WalRecord → BufferPool D × ℕ → BufferPool D × ℕ
  replay_all committed [] (b, n) = (b, n)
  replay_all committed (r ∷ rs) (b, n) =
      let (b', ok) = replay_record r b in
      replay_all committed rs
        (if Sets.contains r.header.txn_id committed then (b', if ok then n + 1 else n) else (b, n))

  module _ {F B : Type 0} (calls : LogCalls F) (backend : Backend B) where
    -- recoverFromFile, with the file that initialize has opened.
    unfoldable pub recover_from_file :
        ℕ → F → WalManager F B → BufferPool D → (WalManager F B × BufferPool D) × Bool
    recover_from_file rounds f w b =
        let (opened, ok) = calls.open_read (if calls.is_open f then calls.close f else f) in
        let (read, s) = scan_log calls rounds opened empty_scan in
        let (again, ok') = calls.open_append (calls.close read) in
        if not ok then ((record w { wal_file = some opened }, b), false) else (
          (
            record w { wal_file = some again; current_lsn = s.max_lsn },
            (replay_all s.committed_txns s.all_records (b, 0)).0,
          ),
          ok',
        )

    -- recoverFromDatabase. The second pass runs over all records, not only over those before the first
    -- whose checksum fails.
    unfoldable pub recover_from_database :
        WalManager F B → BufferPool D → (WalManager F B × BufferPool D) × Bool
    recover_from_database w b = elim w.db_backend [
      | none ↦ ((w, b), false)
      | some backing ↦ elim (backend.read_all_records backing) [
        | none ↦ ((w, b), false)
        | some rs ↦
            let s = note_all rs empty_scan in
            (
              (record w { current_lsn = s.max_lsn }, (replay_all s.committed_txns rs (b, 0)).0),
              true,
            )
      ]
    ]

    -- recover
    unfoldable pub recover :
        ℕ → F → WalManager F B → BufferPool D → (WalManager F B × BufferPool D) × Bool
    recover rounds f w b =
        if w.use_database then recover_from_database w b else recover_from_file rounds f w b
