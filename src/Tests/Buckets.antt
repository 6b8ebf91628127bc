-- ===== src/Tests/Buckets.antt =====
-- A bucket of the hash index with two keys.
use qin_db.Shared.{◌≡◌, false, List, [], ◌∷◌, ◌++◌, arith, if◌then◌else◌}
use qin_db.Page.{Page}
use qin_db.Page.LittleEndian.{Bytes}
use qin_db.HashBucketPage.{
  Entry, initialize_bucket, insert, remove, get_all, search, is_empty_key, get_next_bucket_page_id,
}
use qin_db.HashBucketPage.Reading.{value_in, without, IsBucket}
use qin_db.HashBucketPage.Inserting.{accepts, insert-IsBucket}
use qin_db.HashBucketPage.Removing.{removes, remove-IsBucket}
use qin_db.HashBucketPage.Runs.{
  Op, puts, takes, run, run_list, Unique, initialize_bucket-IsBucket, initialize_bucket-run,
}

abbrev blank : Page
blank = record { bytes = []; pin_count = 0; is_dirty = false }

abbrev key : Bytes
key = 1 ∷ 2 ∷ []

abbrev bucket : Page
bucket = initialize_bucket blank

insert-IsBucket_example :
    let (p', done) = insert key 7 bucket in
    (done ≡ accepts key [])
    × IsBucket p' (if accepts key [] then [] ++ ((key, 7) ∷ []) else [])
    × (get_next_bucket_page_id p' ≡ get_next_bucket_page_id bucket)
insert-IsBucket_example =
    insert-IsBucket key 7 bucket [] (initialize_bucket-IsBucket blank) (omega arith)

abbrev one_entry : List Entry
one_entry = (key, 7) ∷ []

filled-IsBucket : IsBucket (insert key 7 bucket).0 one_entry
filled-IsBucket =
    (insert-IsBucket key 7 bucket [] (initialize_bucket-IsBucket blank) (omega arith)).1

remove-IsBucket_example :
    let (p', done) = remove key 0 (insert key 7 bucket).0 in
    (done ≡ removes key 0 one_entry)
    × IsBucket p' (if removes key 0 one_entry then without key 0 one_entry else one_entry)
    × (get_next_bucket_page_id p' ≡ get_next_bucket_page_id (insert key 7 bucket).0)
remove-IsBucket_example = remove-IsBucket key 0 (insert key 7 bucket).0 one_entry filled-IsBucket

abbrev ops : List Op
ops = puts key 7 ∷ puts (3 ∷ []) 9 ∷ puts key 8 ∷ takes key 0 ∷ []

initialize_bucket-run_example :
    let (p', answers) = run ops (initialize_bucket blank) in
    let (es, expected) = run_list ops [] in
    (answers ≡ expected)
    × (get_all p' ≡ es)
    × ((k : Bytes) → is_empty_key k ≡ false → search k p' ≡ value_in k es)
    × Unique es
initialize_bucket-run_example =
    initialize_bucket-run ops blank (omega arith, (omega arith, (omega arith, tt)))
