-- ===== src/Disk/File.antt =====
-- QFile, as the disk manager uses it: the calls, what is documented of them, and a file in memory that
-- behaves so.
use qin_db.Shared.{
  ℕ, ◌+◌, ◌-◌, ◌≤◌, ◌<◌, ◌≡◌, Bool, true, ◌&&◌, ltb, leb, if◌then◌else◌, length, get_elem?,
}
use qin_db.Page.LittleEndian.{Bytes}

-- A call returns the new state of the file and its result: whether a seek succeeded, the bytes that a
-- read delivered, the number of bytes written.
pub record FileCalls (F : Type 0) : Type 0 where
  pub is_open : F → Bool
  pub open_file : F → F × Bool
  pub close : F → F
  pub size : F → ℕ
  pub seek : ℕ → F → F × Bool
  pub read : ℕ → F → F × Bytes
  pub write : Bytes → F → F × ℕ
  pub flush : F → F

-- What the documentation of QFile says of calls that succeed, byte by byte.
pub record FileLaws {F : Type 0} (calls : FileCalls F) : Type 0 where
  pub contents : F → Bytes
  pub position : F → ℕ
  pub contents-seek : (off : ℕ) (f : F) → contents (calls.seek off f).0 ≡ contents f
  pub position-seek :
      (off : ℕ) (f : F) → (calls.seek off f).1 ≡ true → position (calls.seek off f).0 ≡ off
  pub get_elem?-read :
      (n : ℕ) (f : F)
      → length (calls.read n f).1 ≡ n
      → (k : ℕ) → k < n
      → get_elem? (calls.read n f).1 k ≡ get_elem? (contents f) (position f + k)
  pub get_elem?-write :
      (bs : Bytes) (f : F)
      → (calls.write bs f).1 ≡ length bs
      → position f ≤ length (contents f)
      → (k : ℕ)
      → get_elem? (contents (calls.write bs f).0) k ≡ (
          if leb (position f) k && ltb k (position f + length bs)
          then get_elem? bs (k - position f)
          else get_elem? (contents f) k)
  pub contents-flush : (f : F) → contents (calls.flush f) ≡ contents f
