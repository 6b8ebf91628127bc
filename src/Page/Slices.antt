-- ===== src/Page/Slices.antt =====
-- Stretches of bytes in a page: memcpy into it and out of it, and where two pages agree.
use qin_db.Shared.{
  ℕ, zero, suc, ◌+◌, ◌≤◌, ◌<◌, ◌≡◌, refl, ◌∙◌, ◌⊎◌, inl, [], ◌∷◌, some, arith, length, get_elem?,
  set, length-set, get_elem?-set_self, get_elem?-set_ne,
}
use qin_db.Page.LittleEndian.{Bytes, byte_at, byte_at-eq, read_le, write_le, get_elem?-write_le}

-- memcpy of all of `ds` to an offset; what would lie outside is lost.
unfoldable pub write_bytes : ℕ → Bytes → Bytes → Bytes
write_bytes off [] bs = bs
write_bytes off (d ∷ ds) bs = write_bytes (suc off) ds (set bs off d)

-- `n` bytes from an offset.
unfoldable pub read_bytes : ℕ → ℕ → Bytes → Bytes
read_bytes zero off bs = []
read_bytes (suc n) off bs = byte_at off bs ∷ read_bytes n (suc off) bs

-- Two lists of bytes agree from `lo` on and below `hi`.
abbrev pub Agree : ℕ → ℕ → Bytes → Bytes → Type 0
Agree lo hi bs cs = (i : ℕ) → lo ≤ i → i < hi → get_elem? bs i ≡ get_elem? cs i

pub length-write_bytes : (off : ℕ) (ds bs : Bytes) → length (write_bytes off ds bs) ≡ length bs
unfolding write_bytes
length-write_bytes off [] bs = refl
length-write_bytes off (d ∷ ds) bs =
    length-write_bytes (suc off) ds (set bs off d) ∙ length-set bs off d

pub get_elem?-write_bytes :
    (off : ℕ) (ds bs : Bytes) (i : ℕ)
    → (i < off) ⊎ (off + length ds ≤ i)
    → get_elem? (write_bytes off ds bs) i ≡ get_elem? bs i
unfolding write_bytes
get_elem?-write_bytes off [] bs i h = refl
get_elem?-write_bytes off (d ∷ ds) bs i h =
    get_elem?-write_bytes (suc off) ds (set bs off d) i (ground arith)
    ∙ get_elem?-set_ne bs off i d (ground arith)

pub write_bytes-Agree :
    (lo hi off : ℕ) (ds bs : Bytes)
    → (hi ≤ off) ⊎ (off + length ds ≤ lo)
    → Agree lo hi (write_bytes off ds bs) bs
write_bytes-Agree lo hi off ds bs h i l u = get_elem?-write_bytes off ds bs i (ground arith)

pub write_le-Agree :
    (lo hi n off v : ℕ) (bs : Bytes)
    → (hi ≤ off) ⊎ (off + n ≤ lo)
    → Agree lo hi (write_le n off v bs) bs
write_le-Agree lo hi n off v bs h i l u = get_elem?-write_le n off v i bs (ground arith)

pub read_le-Agree :
    (n off : ℕ) (bs cs : Bytes) → Agree off (off + n) bs cs → read_le n off bs ≡ read_le n off cs
unfolding read_le
read_le-Agree zero off bs cs a = refl
read_le-Agree (suc n) off bs cs a = ground (
  arith,
  byte_at-eq off bs cs (a off (omega arith) (omega arith)),
  read_le-Agree n (suc off) bs cs (λ i l u. a i (omega arith) (omega arith)),
)

pub read_bytes-Agree :
    (n off : ℕ) (bs cs : Bytes)
    → Agree off (off + n) bs cs
    → read_bytes n off bs ≡ read_bytes n off cs
unfolding read_bytes
read_bytes-Agree zero off bs cs a = refl
read_bytes-Agree (suc n) off bs cs a = ground (
  arith,
  byte_at-eq off bs cs (a off (omega arith) (omega arith)),
  read_bytes-Agree n (suc off) bs cs (λ i l u. a i (omega arith) (omega arith)),
)

byte_at_of_get_elem? : (i b : ℕ) (bs : Bytes) → get_elem? bs i ≡ some b → byte_at i bs ≡ b
unfolding byte_at
byte_at_of_get_elem? i b bs e = rw (e, byte_at)

-- What was copied in is copied out.
pub read_bytes-write_bytes :
    (off : ℕ) (ds bs : Bytes)
    → off + length ds ≤ length bs
    → read_bytes (length ds) off (write_bytes off ds bs) ≡ ds
unfolding read_bytes write_bytes
read_bytes-write_bytes off [] bs h = refl
read_bytes-write_bytes off (d ∷ ds) bs h = ground (
  arith,
  byte_at_of_get_elem? off d (write_bytes (suc off) ds (set bs off d)) (
      get_elem?-write_bytes (suc off) ds (set bs off d) off (inl (omega arith))
      ∙ get_elem?-set_self bs off d (omega arith)),
  read_bytes-write_bytes (suc off) ds (set bs off d) (omega (arith, length-set bs off d)),
)
