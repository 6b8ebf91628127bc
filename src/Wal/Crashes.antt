-- ===== src/Wal/Crashes.antt =====
-- What is left of a log of src/storage/wal.cpp if its bytes are cut off anywhere.
use mathlib.Core.List.{append_assoc}
use qin_db.Shared.{
  ℕ, zero, suc, ◌+◌, ◌-◌, ◌≤◌, ◌<◌, ◌≡◌, refl, sym, subst, ◌∙◌, ap, inl, inr, List, [], ◌∷◌, ◌++◌,
  arith, length, take, leb, leb→le, Bool-cases,
}
use qin_db.Page.LittleEndian.{Bytes}
use qin_db.Wal.{WalRecord}
use qin_db.Wal.Layout.{record_bytes, log_bytes}
use qin_db.Wal.Scanning.{
  AllWhole, IsTail, ends, torn, take-append_of_le, take-take_of_le, length-take_le,
}
use qin_db.Wal.Appending.{take-append_of_ge}

-- The bytes are those of whole records, these, and then nothing or a part of one more record.
abbrev pub IsLog : Bytes → List WalRecord → Type 0
IsLog bs rs = AllWhole rs × ((tail : Bytes) × IsTail tail × (bs ≡ log_bytes rs ++ tail))

take_short : (n : ℕ) (xs : Bytes) → length xs ≤ n → take n xs ≡ xs
take_short zero [] h = refl
take_short zero (x ∷ xs) h = absurd (omega arith)
take_short (suc n) [] h = refl
take_short (suc n) (x ∷ xs) h = ap (λ ys. x ∷ ys) (take_short n xs (omega arith))

take-IsTail : (n : ℕ) (tail : Bytes) → IsTail tail → IsTail (take n tail)
take-IsTail zero tail t = ends
take-IsTail (suc n) tail ends = ends
take-IsTail (suc n) tail (torn r k v short) = elim (Bool-cases (leb (suc n) k)) [
  | inl less ↦
      let le : suc n ≤ k = leb→le (suc n) k less in
      subst IsTail (sym (take-take_of_le (suc n) k (record_bytes r) le))
        (torn r (suc n) v (omega arith))
  | inr more ↦
      let part = (length-take_le k (record_bytes r)).0 in
      subst IsTail (sym (take_short (suc n) (take k (record_bytes r)) (ground (arith, part, more))))
        (torn r k v short)
]

log_bytes-IsLog :
    (n : ℕ) (rs : List WalRecord) (tail : Bytes)
    → AllWhole rs
    → IsTail tail
    → (k : ℕ) × IsLog (take n (log_bytes rs ++ tail)) (take k rs)
unfolding log_bytes
log_bytes-IsLog n [] tail v t = (0, (tt, (take n tail, take-IsTail n tail t, refl)))
log_bytes-IsLog n (r ∷ rs) tail v t =
    let split = append_assoc (record_bytes r) (log_bytes rs) tail in
    let cut = ap (take n) split in
    elim (Bool-cases (leb (length (record_bytes r)) n)) [
      | inl past ↦
          let k = n - length (record_bytes r) in
          let all : n ≡ length (record_bytes r) + k = ground (arith, past) in
          let (j, (whole, (rest, t', e))) = log_bytes-IsLog k rs tail v.1 t in
          (
            suc j,
            (
              (v.0, whole),
              (
                rest,
                t',
                cut
                    ∙ ap (λ m. take m (record_bytes r ++ (log_bytes rs ++ tail))) all
                    ∙ take-append_of_ge k (record_bytes r) (log_bytes rs ++ tail)
                    ∙ ap (λ bs. record_bytes r ++ bs) e
                    ∙ sym (append_assoc (record_bytes r) (log_bytes (take j rs)) rest),
              ),
            ),
          )
      | inr inside ↦
          let less : n < length (record_bytes r) = ground (arith, inside) in
          (
            0,
            (
              tt,
              (
                take n (record_bytes r),
                torn r n v.0 less,
                cut ∙ take-append_of_le n (record_bytes r) (log_bytes rs ++ tail) (omega arith),
              ),
            ),
          )
    ]

-- A front part of a log is the log of its first records.
pub take-IsLog :
    (n : ℕ) (bs : Bytes) (rs : List WalRecord)
    → IsLog bs rs
    → (k : ℕ) × IsLog (take n bs) (take k rs)
take-IsLog n bs rs (v, (tail, t, e)) =
    subst (λ xs. (k : ℕ) × IsLog (take n xs) (take k rs)) (sym e) (log_bytes-IsLog n rs tail v t)
