-- ===== src/Tests/Files.antt =====
-- A file in memory, which behaves as the documentation of QFile says, and a disk and a pool over it.
use qin_db.Shared.{
  ℕ, zero, suc, ◌+◌, ◌-◌, ◌≤◌, ◌<◌, ◌≡◌, refl, ◌∙◌, true, ◌&&◌, arith, ◌∷◌, [], ◌++◌, ltb, leb,
  if◌then◌else◌, length, get_elem?, take, drop, replicate, length-replicate,
}
use qin_db.Page.LittleEndian.{Bytes}
use qin_db.Page.{zero_bytes}
use qin_db.Disk.File.{FileCalls, FileLaws}
use qin_db.Disk.{DiskManager, read_page, write_at, write_page, allocate_page}
use qin_db.Disk.Storage.{read_page-write_page}
use qin_db.Disk.Allocation.{IsDisk, allocate_page-cases}
use qin_db.Tests.Pages.{zero_page_size}

pub record Memory : Type 0 where
  pub bytes : Bytes
  pub position : ℕ

-- Bytes put over others from a place on; a gap is filled with zeros.
pub overwrite : Bytes → ℕ → Bytes → Bytes
overwrite cs zero bs = bs ++ drop (length bs) cs
overwrite [] (suc n) bs = 0 ∷ overwrite [] n bs
overwrite (c ∷ cs) (suc n) bs = c ∷ overwrite cs n bs

abbrev pub memory : FileCalls Memory
memory = record {
  is_open = λ f. true;
  open_file = λ f. (f, true);
  close = λ f. f;
  size = λ f. length f.bytes;
  seek = λ off f. (record f { position = off }, true);
  read = λ n f. (f, take n (drop f.position f.bytes));
  write = λ bs f. (record f { bytes = overwrite f.bytes f.position bs }, length bs);
  flush = λ f. f;
}

get_elem?-take : (n k : ℕ) (xs : Bytes) → k < n → get_elem? (take n xs) k ≡ get_elem? xs k
get_elem?-take zero k xs h = absurd (omega arith)
get_elem?-take (suc n) k [] h = refl
get_elem?-take (suc n) zero (x ∷ xs) h = refl
get_elem?-take (suc n) (suc k) (x ∷ xs) h = get_elem?-take n k xs (omega arith)

get_elem?-drop : (n k : ℕ) (xs : Bytes) → get_elem? (drop n xs) k ≡ get_elem? xs (n + k)
get_elem?-drop zero k xs = let e : 0 + k ≡ k = omega arith in rw e
get_elem?-drop (suc n) k [] = refl
get_elem?-drop (suc n) k (x ∷ xs) =
    let e : suc n + k ≡ suc (n + k) = omega arith in rw e (get_elem?-drop n k xs)

drop-nil : (n : ℕ) → drop {A = ℕ} n [] ≡ []
drop-nil zero = refl
drop-nil (suc n) = refl

get_elem?-put :
    (bs cs : Bytes) (k : ℕ)
    → get_elem? (bs ++ drop (length bs) cs) k
      ≡ (if ltb k (length bs) then get_elem? bs k else get_elem? cs k)
get_elem?-put [] cs k = ground arith
get_elem?-put (b ∷ bs) [] zero = ground arith
get_elem?-put (b ∷ bs) (c ∷ cs) zero = ground arith
get_elem?-put (b ∷ bs) [] (suc k) = ground (arith, get_elem?-put bs [] k, drop-nil (length bs))
get_elem?-put (b ∷ bs) (c ∷ cs) (suc k) = ground (arith, get_elem?-put bs cs k)

get_elem?-overwrite :
    (cs : Bytes) (n : ℕ) (bs : Bytes) (k : ℕ)
    → n ≤ length cs
    → get_elem? (overwrite cs n bs) k
      ≡ (if leb n k && ltb k (n + length bs) then get_elem? bs (k - n) else get_elem? cs k)
unfolding overwrite
get_elem?-overwrite cs zero bs k h =
    let e : k - 0 ≡ k = omega arith in rw e (ground (arith, get_elem?-put bs cs k))
get_elem?-overwrite [] (suc n) bs k h = absurd (omega arith)
get_elem?-overwrite (c ∷ cs) (suc n) bs zero h = ground arith
get_elem?-overwrite (c ∷ cs) (suc n) bs (suc k) h =
    let e : suc k - suc n ≡ k - n = omega arith in
    rw e (ground (arith, get_elem?-overwrite cs n bs k (omega arith)))

memory_laws : FileLaws memory
memory_laws = record {
  contents = λ f. f.bytes;
  position = λ f. f.position;
  contents-seek = λ off f. refl;
  position-seek = λ off f e. refl;
  get_elem?-read = λ n f e k h.
      get_elem?-take n k (drop f.position f.bytes) h ∙ get_elem?-drop f.position k f.bytes;
  get_elem?-write = λ bs f e h k. get_elem?-overwrite f.bytes f.position bs k h;
  contents-flush = λ f. refl;
}

-- The bytes of a file with two zero pages.
pub two_pages : Bytes
two_pages = replicate 16392 0

abbrev pub disk : DiskManager Memory
disk = record {
  db_file = record { bytes = two_pages; position = 0 };
  num_pages = 2;
  next_page_id = 3;
}

allocate_page-cases_example : IsDisk (allocate_page memory disk).0
allocate_page-cases_example =
    (allocate_page-cases memory disk (record { positive = omega arith; within = omega arith })
      (omega arith)).0

write_page_succeeds : (write_page memory 2 zero_bytes disk).1 ≡ true
unfolding write_page write_at zero_bytes
write_page_succeeds = refl

read_page_succeeds : (read_page memory 2 [] (write_page memory 2 zero_bytes disk).0).2 ≡ true
unfolding write_page write_at zero_bytes read_page overwrite two_pages
read_page_succeeds = refl

two_pages_size : 16392 ≤ length two_pages
unfolding two_pages
two_pages_size = omega (arith, length-replicate {A = ℕ} 16392 0)

read_page-write_page_example :
    get_elem? (read_page memory 2 [] (write_page memory 2 zero_bytes disk).0).1 9
    ≡ get_elem? zero_bytes 9
unfolding memory_laws
read_page-write_page_example =
    read_page-write_page memory memory_laws 2 2 zero_bytes [] disk (omega arith) zero_page_size
      two_pages_size write_page_succeeds read_page_succeeds (omega arith) 9 (omega arith)
