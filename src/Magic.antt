-- ===== src/Magic.antt =====
-- The magic number at the head of a database file (include/qindb/common.h): the persistence mode of
-- the catalogue and of the log, in its highest byte.
use Prim.Native.Nat.{bit_and, bit_or}
use qin_db.Shared.{ℕ, ◌*◌, ◌/◌, ◌%◌, ◌^◌, ◌≡◌, refl, Bool, true, false, not, ◌==◌, if◌then◌else◌}

abbrev pub magic_base : ℕ
magic_base = 0x5144424E4951

-- calculateDbMagic
unfoldable pub calculate_db_magic : Bool → Bool → ℕ
calculate_db_magic catalog_use_db wal_use_db =
    let mode = bit_or (if catalog_use_db then 2 else 0) (if wal_use_db then 1 else 0) in
    bit_or magic_base (mode * 2 ^ 56 % 2 ^ 64)

-- parseDbMagic: the two flags of the mode byte.
unfoldable pub parse_db_magic : ℕ → Bool × Bool
parse_db_magic magic =
    let mode = bit_and (magic / 2 ^ 56) 0xFF in
    (not (bit_and mode 2 == 0), not (bit_and mode 1 == 0))

-- isValidDbMagic
unfoldable pub is_valid_db_magic : ℕ → Bool
is_valid_db_magic magic = bit_and magic 0x00FFFFFFFFFFFFFF == magic_base

-- For both flags, the magic number that is computed from them is valid and is parsed to them again.
parse-calculate_db_magic :
    (catalog_use_db wal_use_db : Bool)
    → (is_valid_db_magic (calculate_db_magic catalog_use_db wal_use_db) ≡ true)
      × (parse_db_magic (calculate_db_magic catalog_use_db wal_use_db)
          ≡ (catalog_use_db, wal_use_db))
unfolding calculate_db_magic parse_db_magic is_valid_db_magic
parse-calculate_db_magic true true = (refl, refl)
parse-calculate_db_magic true false = (refl, refl)
parse-calculate_db_magic false true = (refl, refl)
parse-calculate_db_magic false false = (refl, refl)
