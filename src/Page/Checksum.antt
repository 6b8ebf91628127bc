-- ===== src/Page/Checksum.antt =====
-- The checksum of a page: an update makes it valid, and what it detects.
use qin_db.Shared.{
  ℕ, zero, suc, ◌+◌, ◌/◌, ◌%◌, ◌^◌, ◌≤◌, ◌<◌, ◌≡◌, ◌≢◌, ◌↔◌, refl, sym, ap, ap₂, ◌∙◌, ◌⊎◌, inl, inr,
  true, false, [], ◌∷◌, some, arith, length, get_elem?, set, take, drop, get_elem?-set_ne,
  Bool-cases, ==_iff,
}
use qin_db.Page.LittleEndian.{Bytes, byte_at, read_le, write_le, read_le-write_le}
use qin_db.Page.{
  Page, page_size, header_size, checksum_offset, add_bytes, calculate_checksum, verify_checksum,
  update_checksum,
}

sum : Bytes → ℕ
sum [] = 0
sum (b ∷ bs) = b + sum bs

-- The loop adds modulo 2 ^ 32.
add_bytes-sum : (acc : ℕ) (bs : Bytes) → acc < 2 ^ 32 → add_bytes acc bs ≡ (acc + sum bs) % 2 ^ 32
unfolding add_bytes sum
add_bytes-sum acc [] h = omega arith
add_bytes-sum acc (b ∷ bs) h = omega (arith, add_bytes-sum ((acc + b) % 2 ^ 32) bs (omega arith))

-- The bytes that count, added up.
content : Bytes → ℕ
unfolding sum
content bs = sum (take checksum_offset bs) + sum (drop header_size bs)

calculate_checksum-content : (p : Page) → calculate_checksum p ≡ content p.bytes % 2 ^ 32
unfolding calculate_checksum content
calculate_checksum-content p =
    let first = take checksum_offset p.bytes in
    let second = drop header_size p.bytes in
    let e : add_bytes 0 first ≡ sum first % 2 ^ 32 =
      omega (arith, add_bytes-sum 0 first (omega arith)) in
    omega (arith, e, add_bytes-sum (add_bytes 0 first) second (omega (arith, e)))

take-set : (k i v : ℕ) (xs : Bytes) → k ≤ i → take k (set xs i v) ≡ take k xs
take-set zero i v xs h = refl
take-set (suc k) i v [] h = refl
take-set (suc k) zero v (x ∷ xs) h = absurd (omega arith)
take-set (suc k) (suc i) v (x ∷ xs) h = ap (◌∷◌ x) (take-set k i v xs (omega arith))

drop-set : (k i v : ℕ) (xs : Bytes) → i < k → drop k (set xs i v) ≡ drop k xs
drop-set zero i v xs h = absurd (omega arith)
drop-set (suc k) i v [] h = refl
drop-set (suc k) zero v (x ∷ xs) h = refl
drop-set (suc k) (suc i) v (x ∷ xs) h = drop-set k i v xs (omega arith)

sum-take-set :
    (k i b c : ℕ) (xs : Bytes)
    → i < k
    → get_elem? xs i ≡ some b
    → sum (take k (set xs i c)) + b ≡ sum (take k xs) + c
unfolding sum
sum-take-set zero i b c xs h e = absurd (omega arith)
sum-take-set (suc k) i b c [] h e = cc
sum-take-set (suc k) zero b c (x ∷ xs) h e = ground arith
sum-take-set (suc k) (suc i) b c (x ∷ xs) h e =
    omega (arith, sum-take-set k i b c xs (omega arith) e)

sum-drop-set :
    (k i b c : ℕ) (xs : Bytes)
    → k ≤ i
    → get_elem? xs i ≡ some b
    → sum (drop k (set xs i c)) + b ≡ sum (drop k xs) + c
unfolding sum
sum-drop-set zero zero b c [] h e = cc
sum-drop-set zero (suc i) b c [] h e = cc
sum-drop-set zero zero b c (x ∷ xs) h e = ground arith
sum-drop-set zero (suc i) b c (x ∷ xs) h e =
    omega (arith, sum-drop-set zero i b c xs (omega arith) e)
sum-drop-set (suc k) i b c [] h e = cc
sum-drop-set (suc k) zero b c (x ∷ xs) h e = absurd (omega arith)
sum-drop-set (suc k) (suc i) b c (x ∷ xs) h e = sum-drop-set k i b c xs (omega arith) e

-- The checksum field itself does not count.
content-write_le :
    (n off v : ℕ) (bs : Bytes)
    → checksum_offset ≤ off
    → off + n ≤ header_size
    → content (write_le n off v bs) ≡ content bs
unfolding content write_le
content-write_le zero off v bs lo hi = refl
content-write_le (suc n) off v bs lo hi =
    content-write_le n (suc off) (v / 256) (set bs off (v % 256)) (omega arith) (omega arith)
    ∙ ap₂ (λ a b. sum a + sum b) (take-set checksum_offset off (v % 256) bs lo)
        (drop-set header_size off (v % 256) bs (omega arith))

-- After updateChecksum the checksum of a page of full size verifies.
verify-update_checksum :
    (p : Page) → length p.bytes ≡ page_size → verify_checksum (update_checksum p) ≡ true
unfolding verify_checksum update_checksum
verify-update_checksum p size =
    let c = calculate_checksum p in
    let bs = write_le 4 checksum_offset c p.bytes in
    let small : c < 2 ^ 32 = omega (arith, calculate_checksum-content p) in
    let same : calculate_checksum (record p { bytes = bs }) ≡ c = omega (
      arith,
      calculate_checksum-content (record p { bytes = bs }),
      calculate_checksum-content p,
      content-write_le 4 checksum_offset c p.bytes (omega arith) (omega arith),
    ) in
    (==_iff _ _).1 (read_le-write_le 4 checksum_offset c p.bytes (omega arith) small ∙ sym same)

byte_at-set_ne : (bs : Bytes) (i j v : ℕ) → i ≢ j → byte_at j (set bs i v) ≡ byte_at j bs
unfolding byte_at
byte_at-set_ne bs i j v h = rw (get_elem?-set_ne bs i j v h, byte_at)

read_le-set_ne :
    (n off i v : ℕ) (bs : Bytes)
    → (i < off) ⊎ (off + n ≤ i)
    → read_le n off (set bs i v) ≡ read_le n off bs
unfolding read_le
read_le-set_ne zero off i v bs h = refl
read_le-set_ne (suc n) off i v bs h = omega (
  arith,
  byte_at-set_ne bs i off v (omega arith),
  read_le-set_ne n (suc off) i v bs (ground arith),
)

content-set :
    (i b c : ℕ) (bs : Bytes)
    → (i < checksum_offset) ⊎ (header_size ≤ i)
    → get_elem? bs i ≡ some b
    → content (set bs i c) + b ≡ content bs + c
unfolding content
content-set i b c bs (inl h) e = omega (
  arith,
  sum-take-set checksum_offset i b c bs h e,
  ap sum (drop-set header_size i c bs (omega arith)),
)
content-set i b c bs (inr h) e = omega (
  arith,
  sum-drop-set header_size i b c bs h e,
  ap sum (take-set checksum_offset i c bs (omega arith)),
)

-- Verification is the equation of the stored number and the sum of the bytes.
verify_checksum_iff :
    (p : Page)
    → (verify_checksum p ≡ true) ↔ (read_le 4 checksum_offset p.bytes ≡ content p.bytes % 2 ^ 32)
unfolding verify_checksum
verify_checksum_iff p = (
  λ e. (==_iff _ _).0 e ∙ calculate_checksum-content p,
  λ e. (==_iff _ _).1 (e ∙ sym (calculate_checksum-content p)),
)

-- A single changed byte outside the checksum field is detected: if a page verifies and one byte is
-- replaced by another, the page no longer verifies.
pub verify_checksum-set :
    (p : Page) (i b c : ℕ)
    → verify_checksum p ≡ true
    → (i < checksum_offset) ⊎ (header_size ≤ i)
    → get_elem? p.bytes i ≡ some b
    → b < 256
    → c < 256
    → b ≢ c
    → verify_checksum (record p { bytes = set p.bytes i c }) ≡ false
verify_checksum-set p i b c ok place e hb hc ne =
    let q : Page = record p { bytes = set p.bytes i c } in
    let field = read_le-set_ne 4 checksum_offset i c p.bytes (ground arith) in
    elim (Bool-cases (verify_checksum q)) [
      | inr bad ↦ bad
      | inl good ↦ absurd (
          omega (
            arith,
            field,
            content-set i b c p.bytes place e,
            (verify_checksum_iff p).0 ok,
            (verify_checksum_iff q).0 good,
          ))
    ]

-- Two bytes that change places go unnoticed: if a page verifies, it still does after the bytes at
-- two places outside the checksum field are exchanged.
verify_checksum-swap :
    (p : Page) (i j b c : ℕ)
    → verify_checksum p ≡ true
    → (i < checksum_offset) ⊎ (header_size ≤ i)
    → (j < checksum_offset) ⊎ (header_size ≤ j)
    → i ≢ j
    → get_elem? p.bytes i ≡ some b
    → get_elem? p.bytes j ≡ some c
    → verify_checksum (record p { bytes = set (set p.bytes i c) j b }) ≡ true
verify_checksum-swap p i j b c ok pi pj ne ei ej =
    let bs = set p.bytes i c in
    let q : Page = record p { bytes = set bs j b } in
    (verify_checksum_iff q).1 (
      omega (
        arith,
        read_le-set_ne 4 checksum_offset j b bs (ground arith),
        read_le-set_ne 4 checksum_offset i c p.bytes (ground arith),
        content-set i b c p.bytes pi ei,
        content-set j c b bs pj (get_elem?-set_ne p.bytes i j c ne ∙ ej),
        (verify_checksum_iff p).0 ok,
      ))
