-- ===== src/HashBucketPage/Layout.antt =====
-- The entries of a bucket of src/index/hash_bucket_page.cpp as they lie in the page.
use qin_db.Shared.{
  ℕ, zero, suc, ◌+◌, ◌≤◌, ◌<◌, ◌≡◌, refl, sym, subst, ◌∙◌, List, [], ◌∷◌, ◌++◌, length, arith,
  get_elem?,
}
use qin_db.Page.LittleEndian.{Bytes, read_le, byte_at}
use qin_db.Page.Slices.{Agree, read_bytes}
use qin_db.HashBucketPage.{Entry, entry_size}

-- The bytes that the entries take.
abbrev pub space : List Entry → ℕ
space [] = 0
space ((k, v) ∷ es) = entry_size (length k) + space es

-- The entries stand one after the other from an offset.
abbrev pub LiesAt : List Entry → ℕ → Bytes → Type 0
LiesAt [] off bs = Unit
LiesAt ((k, v) ∷ es) off bs =
    (read_le 4 off bs ≡ length k)
    × (read_bytes (length k) (off + 4) bs ≡ k)
    × (read_le 8 (off + 4 + length k + 4) bs ≡ v)
    × LiesAt es (off + entry_size (length k)) bs

pub space-append : (es fs : List Entry) → space (es ++ fs) ≡ space es + space fs
space-append [] fs = omega arith
space-append ((k, v) ∷ es) fs = omega (arith, space-append es fs)

-- `cs` has at `off + i` what `bs` has at `from + i`, for all places of `n` bytes.
abbrev pub Moved : ℕ → ℕ → ℕ → Bytes → Bytes → Type 0
Moved n off from cs bs = (i : ℕ) → i < n → get_elem? cs (off + i) ≡ get_elem? bs (from + i)

pub Agree-Moved : (n off : ℕ) (cs bs : Bytes) → Agree off (off + n) cs bs → Moved n off off cs bs
Agree-Moved n off cs bs a i h = a (off + i) (omega arith) (omega arith)

pub Moved-part :
    (n m d off from : ℕ) (cs bs : Bytes)
    → Moved n off from cs bs
    → d + m ≤ n
    → Moved m (off + d) (from + d) cs bs
Moved-part n m d off from cs bs v h i small =
    let e : off + d + i ≡ off + (d + i) = omega arith in
    let e' : from + d + i ≡ from + (d + i) = omega arith in rw (e, e') (v (d + i) (omega arith))

Moved-tail :
    (n off from : ℕ) (cs bs : Bytes)
    → Moved (suc n) off from cs bs
    → Moved n (suc off) (suc from) cs bs
Moved-tail n off from cs bs v i h =
    let e : suc off + i ≡ off + suc i = omega arith in
    let e' : suc from + i ≡ from + suc i = omega arith in rw (e, e') (v (suc i) (omega arith))

byte_at-Moved :
    (n off from : ℕ) (cs bs : Bytes)
    → Moved (suc n) off from cs bs
    → byte_at off cs ≡ byte_at from bs
unfolding byte_at
byte_at-Moved n off from cs bs v =
    let same : get_elem? cs off ≡ get_elem? bs from =
      let e : off + 0 ≡ off = omega arith in
      let e' : from + 0 ≡ from = omega arith in
      subst (λ j. get_elem? cs off ≡ get_elem? bs j) e'
        (subst (λ j. get_elem? cs j ≡ get_elem? bs (from + 0)) e (v 0 (omega arith))) in
    rw (same, byte_at)

read_le-Moved :
    (n off from : ℕ) (cs bs : Bytes) → Moved n off from cs bs → read_le n off cs ≡ read_le n from bs
unfolding read_le
read_le-Moved zero off from cs bs v = refl
read_le-Moved (suc n) off from cs bs v =
    let head = byte_at-Moved n off from cs bs v in
    let tail = read_le-Moved n (suc off) (suc from) cs bs (Moved-tail n off from cs bs v) in
    omega (arith, head, tail)

read_bytes-Moved :
    (n off from : ℕ) (cs bs : Bytes)
    → Moved n off from cs bs
    → read_bytes n off cs ≡ read_bytes n from bs
unfolding read_bytes
read_bytes-Moved zero off from cs bs v = refl
read_bytes-Moved (suc n) off from cs bs v =
    let head = byte_at-Moved n off from cs bs v in
    let tail = read_bytes-Moved n (suc off) (suc from) cs bs (Moved-tail n off from cs bs v) in
    rw (head, tail) refl

-- Entries that were moved as a whole lie at the new place.
pub LiesAt-Moved :
    (es : List Entry) (off from : ℕ) (cs bs : Bytes)
    → Moved (space es) off from cs bs
    → LiesAt es from bs
    → LiesAt es off cs
LiesAt-Moved [] off from cs bs m v = tt
LiesAt-Moved ((k, v) ∷ es) off from cs bs m (size, key, value, rest) =
    let n = length k in
    let part = λ (d w : ℕ) (h : d + w ≤ entry_size n + space es).
      Moved-part (entry_size n + space es) w d off from cs bs m h in
    let at : off + 4 + n + 4 ≡ off + (4 + n + 4) = omega arith in
    let at' : from + 4 + n + 4 ≡ from + (4 + n + 4) = omega arith in
    (
      read_le-Moved 4 off from cs bs (λ i h. m i (omega arith)) ∙ size,
      read_bytes-Moved n (off + 4) (from + 4) cs bs (part 4 n (omega arith)) ∙ key,
      rw at (
          read_le-Moved 8 (off + (4 + n + 4)) (from + (4 + n + 4)) cs bs
            (part (4 + n + 4) 8 (omega arith))
          ∙ subst (λ j. read_le 8 j bs ≡ v) at' value),
      LiesAt-Moved es (off + entry_size n) (from + entry_size n) cs bs
          (part (entry_size n) (space es) (omega arith)) rest,
    )

pub LiesAt-append :
    (es fs : List Entry) (off : ℕ) (bs : Bytes)
    → (LiesAt (es ++ fs) off bs → LiesAt es off bs × LiesAt fs (off + space es) bs)
      × (LiesAt es off bs → LiesAt fs (off + space es) bs → LiesAt (es ++ fs) off bs)
LiesAt-append [] fs off bs =
    let e : off + 0 ≡ off = omega arith in
    ((λ v. (tt, subst (λ j. LiesAt fs j bs) (sym e) v)), (λ u v. subst (λ j. LiesAt fs j bs) e v))
LiesAt-append ((k, v) ∷ es) fs off bs =
    let (split, join) = LiesAt-append es fs (off + entry_size (length k)) bs in
    let e : off + entry_size (length k) + space es ≡ off + (entry_size (length k) + space es) =
      omega arith in
    (
      (λ (size, key, value, rest).
          ((size, key, value, (split rest).0), subst (λ j. LiesAt fs j bs) e (split rest).1)),
      (λ (size, key, value, rest) behind.
          (size, key, value, join rest (subst (λ j. LiesAt fs j bs) (sym e) behind))),
    )
