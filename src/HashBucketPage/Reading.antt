-- ===== src/HashBucketPage/Reading.antt =====
-- The loops of src/index/hash_bucket_page.cpp over entries that lie in a page.
use qin_db.Shared.{
  ℕ, ◌+◌, ◌-◌, ◌≤◌, ◌≡◌, ◌⊎◌, inl, inr, refl, sym, subst, ◌∙◌, ap, Bool, true, false, ◌&&◌, ◌||◌,
  Option, none, some, List, [], ◌∷◌, ◌++◌, ltb, ◌==◌, if◌then◌else◌, length, arith, Bool-cases,
}
use qin_db.Page.{Page, page_size}
use qin_db.Page.LittleEndian.{Bytes}
use qin_db.RowIndex.{invalid_row_id}
use qin_db.HashBucketPage.{
  Entry, same_key, is_empty_key, entry_size, find_value, search, find_values, search_all,
  entries_from, get_all, skip_entries, is_full, find_entry, get_num_entries, max_entry_space,
  bucket_header_size,
}
use qin_db.HashBucketPage.Layout.{space, LiesAt}

-- The bucket as a list: the first value of a key, all values of a key, and the list without the first
-- entry that remove takes.
abbrev pub value_in : Bytes → List Entry → Option ℕ
value_in key [] = none
value_in key ((k, v) ∷ es) = if same_key k key then some v else value_in key es

abbrev pub values_in : Bytes → List Entry → List ℕ
values_in key [] = []
values_in key ((k, v) ∷ es) = if same_key k key then v ∷ values_in key es else values_in key es

abbrev pub is_removed : Bytes → ℕ → Entry → Bool
is_removed key value (k, v) = same_key k key && (value == invalid_row_id || v == value)

abbrev pub any_removed : Bytes → ℕ → List Entry → Bool
any_removed key value [] = false
any_removed key value (e ∷ es) = is_removed key value e || any_removed key value es

abbrev pub without : Bytes → ℕ → List Entry → List Entry
without key value [] = []
without key value (e ∷ es) = if is_removed key value e then es else e ∷ without key value es

entries_from-LiesAt :
    (es : List Entry) (off : ℕ) (bs : Bytes)
    → LiesAt es off bs
    → entries_from (length es) off bs ≡ es
unfolding entries_from
entries_from-LiesAt [] off bs h = refl
entries_from-LiesAt ((k, v) ∷ es) off bs (size, key, value, rest) =
    rw (size, key, value)
      (ap (λ fs. (k, v) ∷ fs) (entries_from-LiesAt es (off + entry_size (length k)) bs rest))

pub skip_entries-LiesAt :
    (es : List Entry) (off : ℕ) (bs : Bytes)
    → LiesAt es off bs
    → skip_entries (length es) off bs ≡ off + space es
unfolding skip_entries
skip_entries-LiesAt [] off bs h = omega arith
skip_entries-LiesAt ((k, v) ∷ es) off bs (size, key, value, rest) =
    rw (size, skip_entries)
      (skip_entries-LiesAt es (off + entry_size (length k)) bs rest ∙ omega arith)

find_value-LiesAt :
    (key : Bytes) (es : List Entry) (off : ℕ) (bs : Bytes)
    → LiesAt es off bs
    → find_value (length es) off key bs ≡ value_in key es
unfolding find_value
find_value-LiesAt key [] off bs h = refl
find_value-LiesAt key ((k, v) ∷ es) off bs (size, same, value, rest) =
    rw (size, same, value)
      (ap (λ r. if same_key k key then some v else r)
        (find_value-LiesAt key es (off + entry_size (length k)) bs rest))

find_values-LiesAt :
    (key : Bytes) (es : List Entry) (off : ℕ) (bs : Bytes)
    → LiesAt es off bs
    → find_values (length es) off key bs ≡ values_in key es
unfolding find_values
find_values-LiesAt key [] off bs h = refl
find_values-LiesAt key ((k, v) ∷ es) off bs (size, same, value, rest) =
    rw (size, same, value)
      (ap (λ r. if same_key k key then v ∷ r else r)
        (find_values-LiesAt key es (off + entry_size (length k)) bs rest))

-- What find_entry answers: no entry is to be removed, or the place of the first such entry.
abbrev pub FindsEntry : Bytes → ℕ → List Entry → ℕ → Option (ℕ × ℕ) → Type 0
FindsEntry key value es off found =
    ((found ≡ none) × (any_removed key value es ≡ false))
    ⊎ ((pre : List Entry) × (e : Entry) × (post : List Entry) × (es ≡ pre ++ (e ∷ post))
        × (found ≡ some (off + space pre, off + space pre + entry_size (length e.0)))
        × (any_removed key value es ≡ true)
        × (without key value es ≡ pre ++ post))

FindsEntry-cons :
    (key : Bytes) (value : ℕ) (e : Entry) (es : List Entry) (off : ℕ) (found : Option (ℕ × ℕ))
    → is_removed key value e ≡ false
    → FindsEntry key value es (off + entry_size (length e.0)) found
    → FindsEntry key value (e ∷ es) off found
FindsEntry-cons key value e es off found other (inl (nothing, none_there)) =
    inl (nothing, rw (other) none_there)
FindsEntry-cons key value e es off found other (inr (pre, x, post, split, at, there, left)) =
    let shift : off + entry_size (length e.0) + space pre
        ≡ off + (entry_size (length e.0) + space pre) =
      omega arith in
    inr (
      e ∷ pre,
      x,
      post,
      ap (λ fs. e ∷ fs) split,
      subst (λ j. found ≡ some (j, j + entry_size (length x.0))) shift at,
      rw other there,
      rw other (ap (λ fs. e ∷ fs) left),
    )

pub find_entry-LiesAt :
    (key : Bytes) (value : ℕ) (es : List Entry) (off : ℕ) (bs : Bytes)
    → LiesAt es off bs
    → FindsEntry key value es off (find_entry (length es) off key value bs)
unfolding find_entry
find_entry-LiesAt key value [] off bs h = inl (refl, refl)
find_entry-LiesAt key value ((k, v) ∷ es) off bs (size, same, stored, rest) =
    let off' = off + entry_size (length k) in
    let deeper = find_entry-LiesAt key value es off' bs rest in
    elim (Bool-cases (is_removed key value (k, v))) [
      | inl hit ↦
          let here : off + 0 ≡ off = omega arith in
          rw (size, same, stored, hit)
            (inr (
              [],
              (k, v),
              es,
              refl,
              ap (λ j. some (j, j + entry_size (length k))) (sym here),
              refl,
              refl,
            ))
      | inr miss ↦
          let step : find_entry (length ((k, v) ∷ es)) off key value bs
              ≡ find_entry (length es) off' key value bs =
            rw (size, same, stored, miss) refl in
          subst (FindsEntry key value ((k, v) ∷ es) off) (sym step) (
            FindsEntry-cons key value (k, v) es off (find_entry (length es) off' key value bs) miss
              deeper)
    ]

-- What a bucket promises: its entries lie in the page, no more of them than fit.
pub record IsBucket (p : Page) (es : List Entry) : Type 0 where
  pub sized : length p.bytes ≡ page_size
  pub count : get_num_entries p ≡ length es
  pub lies : LiesAt es bucket_header_size p.bytes
  pub fits : space es ≤ max_entry_space

-- The readers answer for the entries.
pub record Reads (p : Page) (es : List Entry) : Type 0 where
  pub all : get_all p ≡ es
  pub one : (key : Bytes) → is_empty_key key ≡ false → search key p ≡ value_in key es
  pub many : (key : Bytes) → is_empty_key key ≡ false → search_all key p ≡ values_in key es
  pub full : (n : ℕ) → is_full n p ≡ ltb max_entry_space (space es + entry_size n)
  pub empty_key : (search [] p ≡ none) × (search_all [] p ≡ [])

pub IsBucket-Reads : (p : Page) (es : List Entry) → IsBucket p es → Reads p es
unfolding get_all search search_all is_full
IsBucket-Reads p es v =
    let off = bucket_header_size in
    record {
      all = rw v.count (entries_from-LiesAt es off p.bytes v.lies);
      one = λ key there. rw (there, v.count) (find_value-LiesAt key es off p.bytes v.lies);
      many = λ key there. rw (there, v.count) (find_values-LiesAt key es off p.bytes v.lies);
      full = λ n.
          let used : off + space es - off ≡ space es = omega arith in
          rw (v.count, skip_entries-LiesAt es off p.bytes v.lies, used) refl;
      empty_key = (refl, refl);
    }
