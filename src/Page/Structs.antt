-- ===== src/Page/Structs.antt =====
-- Packed structs as lists of bytes: their fields, with a width and a value each, one after the other.
use native.Mathlib.Nat.{pow-suc}
use mathlib.Core.List.{append_assoc, append-nil}
use qin_db.Shared.{
  ℕ, zero, suc, ◌+◌, ◌*◌, ◌/◌, ◌%◌, ◌^◌, ◌<◌, ◌≡◌, refl, subst, ◌∙◌, ap, some, List, [], ◌∷◌, ◌++◌,
  arith, length, get_elem?,
}
use qin_db.Page.LittleEndian.{Bytes, read_le, byte_at, le_bytes}

read_le-cons : (n off b : ℕ) (bs : Bytes) → read_le n (suc off) (b ∷ bs) ≡ read_le n off bs
unfolding read_le byte_at
read_le-cons zero off b bs = refl
read_le-cons (suc n) off b bs = ap (λ k. byte_at off bs + 256 * k) (read_le-cons n (suc off) b bs)

pub read_le-skip :
    (n off : ℕ) (bs cs : Bytes) → read_le n (length bs + off) (bs ++ cs) ≡ read_le n off cs
read_le-skip n off [] cs = let e : 0 + off ≡ off = omega arith in rw e refl
read_le-skip n off (b ∷ bs) cs =
    let e : suc (length bs) + off ≡ suc (length bs + off) = omega arith in
    rw e (read_le-cons n (length bs + off) b (bs ++ cs) ∙ read_le-skip n off bs cs)

-- A number that fits is read back from its bytes.
pub read_le-le_bytes : (n v : ℕ) (bs : Bytes) → v < 256 ^ n → read_le n 0 (le_bytes n v ++ bs) ≡ v
unfolding read_le le_bytes byte_at
read_le-le_bytes zero v bs small = omega arith
read_le-le_bytes (suc n) v bs small =
    let rest : v / 256 < 256 ^ n = omega (arith, pow-suc 256 n) in
    omega (
      arith,
      read_le-cons n 0 (v % 256) (le_bytes n (v / 256) ++ bs),
      read_le-le_bytes n (v / 256) bs rest,
    )

pub length-le_bytes : (n v : ℕ) → length (le_bytes n v) ≡ n
unfolding le_bytes
length-le_bytes zero v = refl
length-le_bytes (suc n) v = ap suc (length-le_bytes n (v / 256))

abbrev pub struct_bytes : List (ℕ × ℕ) → Bytes
struct_bytes [] = []
struct_bytes ((n, v) ∷ fs) = le_bytes n v ++ struct_bytes fs

abbrev pub offset_of : ℕ → List (ℕ × ℕ) → ℕ
offset_of zero fs = 0
offset_of (suc i) [] = 0
offset_of (suc i) ((n, v) ∷ fs) = n + offset_of i fs

-- Every field that fits is read back at its offset.
pub read_le-struct_bytes :
    (fs : List (ℕ × ℕ)) (i n v : ℕ) (rest : Bytes)
    → get_elem? fs i ≡ some (n, v)
    → v < 256 ^ n
    → read_le n (offset_of i fs) (struct_bytes fs ++ rest) ≡ v
read_le-struct_bytes [] i n v rest e small = cc
read_le-struct_bytes ((m, w) ∷ fs) zero n v rest e small =
    let same_width : m ≡ n = ground arith in
    let same_value : w ≡ v = ground arith in
    let fits : w < 256 ^ m = rw (same_width, same_value) small in
    subst (λ k. read_le k 0 ((le_bytes m w ++ struct_bytes fs) ++ rest) ≡ v) same_width
      (rw (append_assoc (le_bytes m w) (struct_bytes fs) rest)
        (read_le-le_bytes m w (struct_bytes fs ++ rest) fits ∙ same_value))
read_le-struct_bytes ((m, w) ∷ fs) (suc i) n v rest e small =
    rw (append_assoc (le_bytes m w) (struct_bytes fs) rest) (
      subst (λ k. read_le n (k + offset_of i fs) (le_bytes m w ++ (struct_bytes fs ++ rest)) ≡ v)
        (length-le_bytes m w)
        (read_le-skip n (offset_of i fs) (le_bytes m w) (struct_bytes fs ++ rest)
          ∙ read_le-struct_bytes fs i n v rest e small))

pub read_le-struct :
    (fs : List (ℕ × ℕ)) (i n v : ℕ)
    → get_elem? fs i ≡ some (n, v)
    → v < 256 ^ n
    → read_le n (offset_of i fs) (struct_bytes fs) ≡ v
read_le-struct fs i n v e small =
    subst (λ bs. read_le n (offset_of i fs) bs ≡ v) (append-nil (struct_bytes fs))
      (read_le-struct_bytes fs i n v [] e small)
