-- ===== src/Page/LittleEndian.antt =====
-- Little-endian numbers in a list of bytes, as the packed structs of the source lay them out.
use native.Mathlib.Nat.{pow-suc}
use qin_db.Shared.{
  ℕ, zero, suc, [], ◌∷◌, ◌+◌, ◌*◌, ◌/◌, ◌%◌, ◌^◌, ◌≤◌, ◌<◌, ◌≡◌, refl, ◌∙◌, ◌⊎◌, inl, List, none,
  some, arith, length, get_elem?, set, length-set, get_elem?-set_self, get_elem?-set_ne,
}

abbrev pub Bytes : Type 0
Bytes = List ℕ

-- The byte at an offset; 0 outside.
unfoldable pub byte_at : ℕ → Bytes → ℕ
byte_at i bs = elim (get_elem? bs i) [ none ↦ 0 | some b ↦ b ]

-- `n` bytes from an offset, the lowest first.
unfoldable pub read_le : ℕ → ℕ → Bytes → ℕ
unfolding byte_at
read_le zero off bs = 0
read_le (suc n) off bs = byte_at off bs + 256 * read_le n (suc off) bs

-- The little-endian bytes of a number.
unfoldable pub le_bytes : ℕ → ℕ → Bytes
le_bytes zero v = []
le_bytes (suc n) v = (v % 256) ∷ le_bytes n (v / 256)

unfoldable pub write_le : ℕ → ℕ → ℕ → Bytes → Bytes
write_le zero off v bs = bs
write_le (suc n) off v bs = write_le n (suc off) (v / 256) (set bs off (v % 256))

pub length-write_le : (n off v : ℕ) (bs : Bytes) → length (write_le n off v bs) ≡ length bs
unfolding write_le
length-write_le zero off v bs = refl
length-write_le (suc n) off v bs =
    length-write_le n (suc off) (v / 256) (set bs off (v % 256)) ∙ length-set bs off (v % 256)

pub get_elem?-write_le :
    (n off v i : ℕ) (bs : Bytes)
    → (i < off) ⊎ (off + n ≤ i)
    → get_elem? (write_le n off v bs) i ≡ get_elem? bs i
unfolding write_le
get_elem?-write_le zero off v i bs h = refl
get_elem?-write_le (suc n) off v i bs h =
    get_elem?-write_le n (suc off) (v / 256) i (set bs off (v % 256)) (ground arith)
    ∙ get_elem?-set_ne bs off i (v % 256) (ground arith)

pub byte_at-eq :
    (i : ℕ) (bs cs : Bytes) → get_elem? bs i ≡ get_elem? cs i → byte_at i bs ≡ byte_at i cs
unfolding byte_at
byte_at-eq i bs cs e = rw (e, byte_at)

-- A read outside the bytes written sees the old bytes.
pub read_le-write_le_ne :
    (k o n off v : ℕ) (bs : Bytes)
    → (o + k ≤ off) ⊎ (off + n ≤ o)
    → read_le k o (write_le n off v bs) ≡ read_le k o bs
unfolding read_le
read_le-write_le_ne zero o n off v bs h = refl
read_le-write_le_ne (suc k) o n off v bs h = ground (
  arith,
  byte_at-eq o (write_le n off v bs) bs (get_elem?-write_le n off v o bs (ground arith)),
  read_le-write_le_ne k (suc o) n off v bs (ground arith),
)

byte_at-write_le :
    (n off v : ℕ) (bs : Bytes) → off < length bs → byte_at off (write_le (suc n) off v bs) ≡ v % 256
unfolding write_le byte_at
byte_at-write_le n off v bs h = ground (
  arith,
  get_elem?-write_le n (suc off) (v / 256) off (set bs off (v % 256)) (inl (omega arith)),
  get_elem?-set_self bs off (v % 256) h,
)

-- What is written is read back, as far as the field is wide.
pub read_le-write_le :
    (n off v : ℕ) (bs : Bytes)
    → off + n ≤ length bs
    → v < 256 ^ n
    → read_le n off (write_le n off v bs) ≡ v
unfolding read_le write_le
read_le-write_le zero off v bs h small = omega arith
read_le-write_le (suc n) off v bs h small =
    let rest : v / 256 < 256 ^ n = omega (arith, pow-suc 256 n) in
    omega (
      arith,
      byte_at-write_le n off v bs (omega arith),
      read_le-write_le n (suc off) (v / 256) (set bs off (v % 256))
          (omega (arith, length-set bs off (v % 256))) rest,
    )
