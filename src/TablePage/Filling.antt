-- ===== src/TablePage/Filling.antt =====
-- A page that insertTuple of src/storage/table_page.cpp fills, as the list of its tuples.
use mathlib.Core.List.{append_assoc, append-nil}
use qin_db.Shared.{
  ℕ, zero, suc, ◌+◌, ◌%◌, ◌<◌, ◌≡◌, refl, sym, subst, ◌*◌, ◌∙◌, ap, inl, inr, Option, none, some,
  List, [], ◌∷◌, ◌++◌, arith, length, get_elem?, true, Option-cases,
}
use qin_db.Page.{Page, get_page_id}
use qin_db.Page.LittleEndian.{Bytes}
use qin_db.TablePage.{u16_mod, slot_count, place, insert_tuple, get_tuple, init}
use qin_db.TablePage.Layout.{IsTablePage, slot_count-add_record}
use qin_db.TablePage.Insertion.{place-succeeds}
use qin_db.TablePage.Tuples.{get_tuple-insert_tuple}
use qin_db.TablePage.Deletion.{place-fails}
use qin_db.TablePage.Initial.{init-IsTablePage, slot_count-init}

unfoldable pub tuples_below : ℕ → Page → List (Option Bytes)
tuples_below zero p = []
tuples_below (suc n) p = tuples_below n p ++ (get_tuple n p ∷ [])

-- What getTuple delivers at each slot of a page.
abbrev pub tuples : Page → List (Option Bytes)
tuples p = tuples_below (slot_count p) p

tuples_below-eq :
    (n : ℕ) (p q : Page)
    → ((i : ℕ) → i < n → get_tuple i p ≡ get_tuple i q)
    → tuples_below n p ≡ tuples_below n q
unfolding tuples_below
tuples_below-eq zero p q h = refl
tuples_below-eq (suc n) p q h =
    rw (h n (omega arith), tuples_below-eq n p q (λ i l. h i (omega arith))) refl

-- The tuple that an insertion has added, if its answer is a row id.
abbrev pub accepted : Bytes → Option ℕ → List (Option Bytes)
accepted bytes none = []
accepted bytes (some row) = some bytes ∷ []

pub slot_count-insert_tuple :
    (bytes : Bytes) (p : Page) (row : ℕ)
    → IsTablePage p
    → length bytes < u16_mod
    → (insert_tuple bytes p).1 ≡ some row
    → (slot_count (insert_tuple bytes p).0 ≡ slot_count p + 1) × (row % u16_mod ≡ slot_count p)
unfolding insert_tuple
slot_count-insert_tuple [] p row v short h = cc
slot_count-insert_tuple (b ∷ bs) p row v short h =
    let bytes : Bytes = b ∷ bs in
    let fits = v.fits in
    let free = v.free in
    let put : (place bytes p).1 ≡ true = ground (arith, h) in
    let (offset, space, after_slots, below, small, done) = place-succeeds bytes p v short put in
    let row_is : row ≡ get_page_id p * u16_mod + slot_count p = ground (arith, h, done) in
    rw done (
      slot_count-add_record offset (length bytes) space bytes p v.size (omega arith) after_slots
          (omega arith) small,
      omega arith,
    )

insert_tuple-fails :
    (bytes : Bytes) (p : Page) → (insert_tuple bytes p).1 ≡ none → (insert_tuple bytes p).0 ≡ p
unfolding insert_tuple
insert_tuple-fails bytes p h = ground (arith, place-fails bytes p, h)

-- An insertion appends its tuple, if it succeeds, and changes nothing, if it does not.
pub tuples-insert_tuple :
    (bytes : Bytes) (p : Page)
    → IsTablePage p
    → length bytes < u16_mod
    → IsTablePage (insert_tuple bytes p).0
      × (tuples (insert_tuple bytes p).0 ≡ tuples p ++ accepted bytes (insert_tuple bytes p).1)
unfolding tuples_below
tuples-insert_tuple bytes p v short = elim (Option-cases (insert_tuple bytes p).1) [
  | inl failed ↦ rw (insert_tuple-fails bytes p failed, failed) (v, sym (append-nil (tuples p)))
  | inr (row, done) ↦
      let (page, new, old, v') = get_tuple-insert_tuple bytes p row v short done in
      let (count, slot) = slot_count-insert_tuple bytes p row v short done in
      let n = slot_count p in
      let p' = (insert_tuple bytes p).0 in
      let more : slot_count p' ≡ suc n = omega (arith, count) in
      let same = tuples_below-eq n p' p (λ i h. old i (omega (arith, slot))) in
      let last : get_tuple n p' ≡ some bytes = subst (λ k. get_tuple k p' ≡ some bytes) slot new in
      (
        v',
        ap (λ k. tuples_below k p') more
            ∙ rw (done, last, tuples_below) (ap (λ ts. ts ++ (some bytes ∷ [])) same),
      )
]

unfoldable pub insert_all : List Bytes → Page → Page × List (Option Bytes)
insert_all [] p = (p, [])
insert_all (bytes ∷ more) p =
    let (p', answer) = insert_tuple bytes p in
    let rest = insert_all more p' in (rest.0, accepted bytes answer ++ rest.1)

tuples-insert_all :
    (all : List Bytes) (p : Page)
    → IsTablePage p
    → ((i : ℕ) (bytes : Bytes) → get_elem? all i ≡ some bytes → length bytes < u16_mod)
    → IsTablePage (insert_all all p).0
      × (tuples (insert_all all p).0 ≡ tuples p ++ (insert_all all p).1)
unfolding insert_all
tuples-insert_all [] p v short = (v, sym (append-nil (tuples p)))
tuples-insert_all (bytes ∷ more) p v short =
    let p' = (insert_tuple bytes p).0 in
    let (v', one) = tuples-insert_tuple bytes p v (short 0 bytes refl) in
    let (v'', rest) = tuples-insert_all more p' v' (λ i b h. short (suc i) b h) in
    (
      v'',
      rest
          ∙ ap (λ ts. ts ++ (insert_all more p').1) one
          ∙ append_assoc (tuples p) (accepted bytes (insert_tuple bytes p).1)
              (insert_all more p').1,
    )

-- A page that is filled from new on, by tuples of less than 65536 bytes of which some may be refused,
-- delivers those that were accepted, in the order in which they came, and nothing else.
pub tuples-filled :
    (id : ℕ) (p : Page) (all : List Bytes)
    → ((i : ℕ) (bytes : Bytes) → get_elem? all i ≡ some bytes → length bytes < u16_mod)
    → tuples (insert_all all (init id p)).0 ≡ (insert_all all (init id p)).1
unfolding tuples_below
tuples-filled id p all short =
    (tuples-insert_all all (init id p) (init-IsTablePage id p) short).1
    ∙ ap (λ n. tuples_below n (init id p) ++ (insert_all all (init id p)).1) (slot_count-init id p)
