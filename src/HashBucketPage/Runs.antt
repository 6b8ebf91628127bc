-- ===== src/HashBucketPage/Runs.antt =====
-- Runs of insert and remove of src/index/hash_bucket_page.cpp from an empty bucket.
use qin_db.Shared.{
  ℕ, ◌^◌, ◌≤◌, ◌<◌, ◌≡◌, inl, inr, refl, subst, ◌∙◌, ap, Bool, true, false, none, List, [], ◌∷◌,
  ◌++◌, if◌then◌else◌, length, arith, length-append, Bool-cases, Option-cases, length-replicate,
}
use qin_db.Page.{Page, page_size, zero_bytes, set_field, get_field}
use qin_db.Page.LittleEndian.{
  Bytes, write_le, length-write_le, read_le-write_le, read_le-write_le_ne,
}
use qin_db.HashBucketPage.{
  Entry, same_key, is_empty_key, insert, remove, initialize_bucket, get_num_entries, get_all,
  search,
}
use qin_db.HashBucketPage.Reading.{
  value_in, values_in, without, is_removed, IsBucket, IsBucket-Reads,
}
use qin_db.HashBucketPage.Inserting.{accepts, insert-IsBucket}
use qin_db.HashBucketPage.Removing.{removes, remove-IsBucket}

pub data Op : Type 0 where
  puts : Bytes → ℕ → Op
  takes : Bytes → ℕ → Op

-- The calls on the page, with their answers.
abbrev pub run : List Op → Page → Page × List Bool
run [] p = (p, [])
run (puts key value ∷ ops) p =
    let (p', done) = insert key value p in let (q, answers) = run ops p' in (q, done ∷ answers)
run (takes key value ∷ ops) p =
    let (p', done) = remove key value p in let (q, answers) = run ops p' in (q, done ∷ answers)

-- The same on a list of entries.
abbrev pub run_list : List Op → List Entry → List Entry × List Bool
run_list [] es = (es, [])
run_list (puts key value ∷ ops) es =
    let (fs, answers) = run_list ops (if accepts key es then es ++ ((key, value) ∷ []) else es) in
    (fs, accepts key es ∷ answers)
run_list (takes key value ∷ ops) es =
    let (fs, answers) = run_list ops (if removes key value es then without key value es else es) in
    (fs, removes key value es ∷ answers)

-- Every value is a RowId of 64 bits.
abbrev pub Small : List Op → Type 0
Small [] = Unit
Small (puts key value ∷ ops) = (value < 2 ^ 64) × Small ops
Small (takes key value ∷ ops) = Small ops

-- No key stands twice.
abbrev pub Unique : List Entry → Type 0
Unique es = (key : Bytes) → length (values_in key es) ≤ 1

run-IsBucket :
    (ops : List Op) (p : Page) (es : List Entry)
    → IsBucket p es
    → Small ops
    → ((run ops p).1 ≡ (run_list ops es).1) × IsBucket (run ops p).0 (run_list ops es).0
run-IsBucket [] p es v small = (refl, v)
run-IsBucket (puts key value ∷ ops) p es v (here, small) =
    let (answer, bucket, next) = insert-IsBucket key value p es v here in
    let (answers, after) = run-IsBucket ops (insert key value p).0 _ bucket small in
    (rw (answer, answers) refl, after)
run-IsBucket (takes key value ∷ ops) p es v small =
    let (answer, bucket, next) = remove-IsBucket key value p es v in
    let (answers, after) = run-IsBucket ops (remove key value p).0 _ bucket small in
    (rw (answer, answers) refl, after)

same_key-eq : (xs ys : Bytes) → same_key xs ys ≡ true → xs ≡ ys
unfolding same_key
same_key-eq [] [] h = refl
same_key-eq [] (y ∷ ys) h = cc
same_key-eq (x ∷ xs) [] h = cc
same_key-eq (x ∷ xs) (y ∷ ys) h =
    let head : x ≡ y = ground arith in
    let tail : same_key xs ys ≡ true = ground arith in rw (head, same_key-eq xs ys tail) refl

values_in-none : (key : Bytes) (es : List Entry) → value_in key es ≡ none → values_in key es ≡ []
values_in-none key [] h = refl
values_in-none key ((k, v) ∷ es) h = elim (Bool-cases (same_key k key)) [
  | inl same ↦ absurd (ground (arith, same))
  | inr other ↦ rw other (values_in-none key es (ground (arith, other)))
]

values_in-append :
    (key : Bytes) (es fs : List Entry)
    → values_in key (es ++ fs) ≡ values_in key es ++ values_in key fs
values_in-append key [] fs = refl
values_in-append key ((k, v) ∷ es) fs = elim (Bool-cases (same_key k key)) [
  | inl same ↦ rw same (ap (λ vs. v ∷ vs) (values_in-append key es fs))
  | inr other ↦ rw other (values_in-append key es fs)
]

accepts-fresh : (key : Bytes) (es : List Entry) → accepts key es ≡ true → value_in key es ≡ none
accepts-fresh key es h = elim (Option-cases (value_in key es)) [
  | inl e ↦ e
  | inr (v, e) ↦ absurd (ground (arith, e))
]

append-Unique :
    (key : Bytes) (value : ℕ) (es : List Entry)
    → Unique es
    → accepts key es ≡ true
    → Unique (es ++ ((key, value) ∷ []))
append-Unique key value es u h other = elim (Bool-cases (same_key key other)) [
  | inl same ↦
      let e = same_key-eq key other same in
      let nothing : values_in other es ≡ [] =
        subst (λ k. values_in k es ≡ []) e (values_in-none key es (accepts-fresh key es h)) in
      rw (values_in-append other es ((key, value) ∷ []), nothing, same) (omega arith)
  | inr differs ↦
      rw (values_in-append other es ((key, value) ∷ []), differs)
        (omega (arith, length-append (values_in other es) [], u other))
]

without-fewer :
    (key other : Bytes) (value : ℕ) (es : List Entry)
    → length (values_in other (without key value es)) ≤ length (values_in other es)
without-fewer key other value [] = omega arith
without-fewer key other value ((k, v) ∷ es) =
    let deeper = without-fewer key other value es in
    elim (Bool-cases (is_removed key value (k, v))) [
      | inl hit ↦ elim (Bool-cases (same_key k other)) [
        | inl same ↦ rw (hit, same) (omega arith)
        | inr differs ↦ rw (hit, differs) (omega arith)
      ]
      | inr miss ↦ elim (Bool-cases (same_key k other)) [
        | inl same ↦ rw (miss, same) (omega (arith, deeper))
        | inr differs ↦ rw (miss, differs) deeper
      ]
    ]

run_list-Unique : (ops : List Op) (es : List Entry) → Unique es → Unique (run_list ops es).0
run_list-Unique [] es u = u
run_list-Unique (puts key value ∷ ops) es u = elim (Bool-cases (accepts key es)) [
  | inl fresh ↦
      rw fresh
        (run_list-Unique ops (es ++ ((key, value) ∷ [])) (append-Unique key value es u fresh))
  | inr refused ↦ rw refused (run_list-Unique ops es u)
]
run_list-Unique (takes key value ∷ ops) es u = elim (Bool-cases (removes key value es)) [
  | inl hit ↦ rw hit (
      run_list-Unique ops (without key value es)
        (λ other. omega (arith, without-fewer key other value es, u other)))
  | inr miss ↦ rw miss (run_list-Unique ops es u)
]

length-zero_bytes : length zero_bytes ≡ page_size
unfolding zero_bytes
length-zero_bytes = length-replicate {A = ℕ} page_size 0

pub initialize_bucket-IsBucket : (p : Page) → IsBucket (initialize_bucket p) []
unfolding initialize_bucket set_field get_num_entries get_field
initialize_bucket-IsBucket p =
    let bs = write_le 4 0 0 zero_bytes in
    record {
      sized = length-write_le 4 4 0 bs ∙ length-write_le 4 0 0 zero_bytes ∙ length-zero_bytes;
      count =
          read_le-write_le_ne 4 0 4 4 0 bs (inl (omega arith))
          ∙ read_le-write_le 4 0 0 zero_bytes (omega (arith, length-zero_bytes)) (omega arith);
      lies = tt;
      fits = omega arith;
    }

-- After any sequence of inserts and removals on a new bucket, with values below 2 ^ 64, the answers
-- are those of the list of entries, getAll gives that list, search gives the value of its first entry
-- with the key, if the key is not empty, and no key stands in the list twice.
pub initialize_bucket-run :
    (ops : List Op) (p : Page)
    → Small ops
    → let (p', answers) = run ops (initialize_bucket p) in
      let (es, expected) = run_list ops [] in
      (answers ≡ expected)
      × (get_all p' ≡ es)
      × ((key : Bytes) → is_empty_key key ≡ false → search key p' ≡ value_in key es)
      × Unique es
initialize_bucket-run ops p small =
    let (same, bucket) =
      run-IsBucket ops (initialize_bucket p) [] (initialize_bucket-IsBucket p) small in
    let reads = IsBucket-Reads _ _ bucket in
    (same, reads.all, reads.one, run_list-Unique ops [] (λ key. omega arith))
