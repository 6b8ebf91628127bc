-- ===== src/Disk.antt =====
-- include/qindb/disk_manager.h and src/storage/disk_manager.cpp: pages in a file.
--
-- The file (QFile) is a parameter: its state and the calls that the manager makes, each of which may
-- fail. `Disk.File` states what is documented of them. The file begins with a magic number of 8
-- bytes; page n, counted from 1, follows at 8 + (n - 1) * 8192. Logging is left out.
pub mod File
pub mod Allocation
pub mod Storage
use qin_db.Shared.{
  ℕ, zero, suc, ◌+◌, ◌-◌, ◌*◌, ◌/◌, ◌%◌, ◌^◌, ◌≡◌, Bool, true, false, not, ◌&&◌, ◌||◌, Option, none,
  some, List, [], ◌∷◌, ◌++◌, ltb, leb, ◌==◌, if◌then◌else◌, length, drop,
}
use qin_db.Page.LittleEndian.{Bytes, read_le, write_le}
use qin_db.Page.{
  Page, page_size, zero_bytes, reset, set_page_id, set_page_type, set_next_page_id, update_checksum,
}
use qin_db.Magic.{calculate_db_magic, is_valid_db_magic, parse_db_magic}
use File.{FileCalls}

abbrev pub invalid_page_id : ℕ
invalid_page_id = 0

abbrev pub page_id_mod : ℕ
page_id_mod = 2 ^ 32

pub record DiskManager (F : Type 0) : Type 0 where
  pub db_file : F
  pub num_pages : ℕ
  pub next_page_id : ℕ

-- Where page `id` begins in the file.
abbrev pub page_offset : ℕ → ℕ
page_offset id = 8 + (id - 1) * page_size

module _ {F : Type 0} (calls : FileCalls F) where
  open calls use {is_open, size, seek, read, write, flush}

  -- The loop of extendFile: `n` empty pages are appended, and counted as they are written.
  unfoldable pub append_pages : ℕ → DiskManager F → DiskManager F × Bool
  append_pages zero d = (d, true)
  append_pages (suc n) d =
      let (file, written) = write zero_bytes d.db_file in
      let rest = append_pages n (record d { db_file = file; num_pages = d.num_pages + 1 }) in
      if written == page_size then rest else (record d { db_file = file }, false)

  unfoldable pub flushed : DiskManager F × Bool → DiskManager F × Bool
  flushed (d, true) = (record d { db_file = flush d.db_file }, true)
  flushed (d, false) = (d, false)

  -- extendFile
  unfoldable pub extend_file : ℕ → DiskManager F → DiskManager F × Bool
  extend_file n d =
      let (file, found) = seek (size d.db_file) d.db_file in
      let d' = record d { db_file = file } in
      if found then flushed (append_pages n d') else (d', false)

  -- readPage. The bytes that arrive replace the front of the buffer, also if they are too few. A
  -- checksum that does not fit is only logged.
  unfoldable pub read_page : ℕ → Bytes → DiskManager F → DiskManager F × Bytes × Bool
  read_page id buffer d =
      if id == invalid_page_id || ltb d.num_pages id
      then (d, buffer, false)
      else if not (is_open d.db_file)
      then (d, buffer, false)
      else (let (file, found) = seek (page_offset id) d.db_file in
          let (file', bytes) = read page_size file in
          if found
          then (
            record d { db_file = file' },
            bytes ++ drop (length bytes) buffer,
            length bytes == page_size,
          )
          else (record d { db_file = file }, buffer, false))

  -- The part of writePage after the file is large enough.
  unfoldable pub write_at : ℕ → Bytes → DiskManager F → DiskManager F × Bool
  write_at id bytes d =
      let (file, found) = seek (page_offset id) d.db_file in
      let (file', written) = write bytes file in
      if not found
      then (record d { db_file = file }, false)
      else if written == page_size
      then (record d { db_file = flush file' }, true)
      else (record d { db_file = file' }, false)

  unfoldable pub write_extended : ℕ → Bytes → DiskManager F × Bool → DiskManager F × Bool
  write_extended id bytes (d, true) = write_at id bytes d
  write_extended id bytes (d, false) = (d, false)

  -- writePage. A page beyond the end extends the file first.
  unfoldable pub write_page : ℕ → Bytes → DiskManager F → DiskManager F × Bool
  write_page id bytes d =
      if id == invalid_page_id
      then (d, false)
      else if not (is_open d.db_file)
      then (d, false)
      else if ltb d.num_pages id
      then write_extended id bytes (extend_file (id - d.num_pages) d)
      else write_at id bytes d

  unfoldable pub allocated : ℕ → DiskManager F × Bool → DiskManager F × ℕ
  allocated id (d, true) = (record d { next_page_id = (id + 1) % page_id_mod }, id)
  allocated id (d, false) = (record d { next_page_id = id }, invalid_page_id)

  -- allocatePage. Ids are 32 bits and wrap; a failure takes the id back.
  unfoldable pub allocate_page : DiskManager F → DiskManager F × ℕ
  allocate_page d =
      let id = d.next_page_id in
      if ltb d.num_pages id
      then allocated id (extend_file 1 d)
      else (record d { next_page_id = (id + 1) % page_id_mod }, id)

  -- deallocatePage only logs: freed ids are not used again.
  unfoldable pub deallocate_page : ℕ → DiskManager F → DiskManager F
  deallocate_page id d = d

  unfoldable pub flush_file : DiskManager F → DiskManager F
  flush_file d = if is_open d.db_file then record d { db_file = flush d.db_file } else d

  unfoldable pub close_file : DiskManager F → DiskManager F
  close_file d =
      if is_open d.db_file then record d { db_file = calls.close (flush d.db_file) } else d

  -- The page that initializeFile writes.
  unfoldable pub header_page : Page
  header_page = update_checksum (
      set_next_page_id 1 (
        set_page_type 1
          (set_page_id 0 (reset (record { bytes = []; pin_count = 0; is_dirty = false })))))

  -- initializeFile: eight zero bytes for the magic number, then the header page.
  unfoldable pub initialize_file : DiskManager F → DiskManager F × Bool
  initialize_file d =
      let (file, head) = write (write_le 8 0 0 (0 ∷ 0 ∷ 0 ∷ 0 ∷ 0 ∷ 0 ∷ 0 ∷ 0 ∷ [])) d.db_file in
      let (file', written) = write header_page.bytes file in
      if not (head == 8)
      then (record d { db_file = file }, false)
      else if not (written == page_size)
      then (record d { db_file = file' }, false)
      else (record { db_file = flush file'; num_pages = 1; next_page_id = 1 }, true)

  -- The constructor, on a file that exists or not. The result tells whether the file is in use.
  unfoldable pub open_disk : Bool → F → DiskManager F × Bool
  open_disk exists file =
      let (file', opened) = calls.open_file file in
      let d : DiskManager F = record { db_file = file'; num_pages = 0; next_page_id = 1 } in
      let n = if leb 8 (size file') then (size file' - 8) / page_size else 0 in
      let (fresh, done) = initialize_file d in
      if not opened
      then (d, false)
      else if exists
      then (record d { num_pages = n; next_page_id = (n + 1) % page_id_mod }, true)
      else if done
      then (fresh, true)
      else (record fresh { db_file = calls.close fresh.db_file }, false)

  -- writeMagicNumber
  unfoldable pub write_magic_number : Bool → Bool → DiskManager F → DiskManager F × Bool
  write_magic_number catalog_use_db wal_use_db d =
      let magic = calculate_db_magic catalog_use_db wal_use_db in
      let (file, found) = seek 0 d.db_file in
      let (file', written) = write (write_le 8 0 magic (0 ∷ 0 ∷ 0 ∷ 0 ∷ 0 ∷ 0 ∷ 0 ∷ 0 ∷ [])) file in
      if not (is_open d.db_file)
      then (d, false)
      else if not found
      then (record d { db_file = file }, false)
      else if written == 8
      then (record d { db_file = flush file' }, true)
      else (record d { db_file = file' }, false)

  -- readMagicNumber; `none` is its false.
  unfoldable pub read_magic_number : DiskManager F → DiskManager F × Option ℕ
  read_magic_number d =
      let (file, found) = seek 0 d.db_file in
      let (file', bytes) = read 8 file in
      if not (is_open d.db_file)
      then (d, none)
      else if not found
      then (record d { db_file = file }, none)
      else if length bytes == 8
      then (record d { db_file = file' }, some (read_le 8 0 bytes))
      else (record d { db_file = file' }, none)

  -- verifyAndParseMagic
  unfoldable pub verify_and_parse_magic : DiskManager F → DiskManager F × Option (Bool × Bool)
  verify_and_parse_magic d =
      let (d', magic) = read_magic_number d in
      (
        d',
        elim magic [
          | none ↦ none
          | some n ↦ if is_valid_db_magic n then some (parse_db_magic n) else none
        ],
      )
