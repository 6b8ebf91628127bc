-- ===== src/BufferPool/Calls.antt =====
-- The calls of the disk manager that the buffer pool makes, and their implementation by `Disk`.
use qin_db.Shared.{ℕ, Bool}
use qin_db.Page.LittleEndian.{Bytes}
use qin_db.Disk
use qin_db.Disk.{DiskManager}
use qin_db.Disk.File.{FileCalls}

pub record DiskCalls (D : Type 0) : Type 0 where
  pub read_page : ℕ → Bytes → D → D × Bytes × Bool
  pub write_page : ℕ → Bytes → D → D × Bool
  pub allocate_page : D → D × ℕ
  pub deallocate_page : ℕ → D → D
  pub flush : D → D

abbrev pub disk_calls : {F : Type 0} → FileCalls F → DiskCalls (DiskManager F)
disk_calls calls = record {
  read_page = Disk.read_page calls;
  write_page = Disk.write_page calls;
  allocate_page = Disk.allocate_page calls;
  deallocate_page = Disk.deallocate_page calls;
  flush = Disk.flush_file calls;
}
