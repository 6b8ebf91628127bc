-- ===== src/RowIndex.antt =====
-- include/qindb/row_id_index.h and src/storage/row_id_index.cpp: where each row is stored. The QHash is
-- an association list; logging is left out.
use qin_db.Shared.{
  ℕ, ◌≡◌, refl, ◌∙◌, Bool, true, false, ◌||◌, Option, none, some, List, [], ◌∷◌, map, arith, ◌==◌,
  if◌then◌else◌, length, fun_ext, ap, Bool-cases, inl, inr,
}
use qin_db.Shared.Maps
use qin_db.Shared.Maps.{lookup-insert, lookup-remove}

pub record RowLocation : Type 0 where
  pub page_id : ℕ
  pub slot_index : ℕ

abbrev pub RowIdIndex : Type 0
RowIdIndex = List (ℕ × RowLocation)

abbrev pub invalid_row_id : ℕ
invalid_row_id = 0

-- isValid, negated.
abbrev pub is_invalid : RowLocation → Bool
is_invalid location = location.page_id == 0

-- insert only logs an invalid row id or location.
unfoldable pub insert_row : ℕ → RowLocation → RowIdIndex → RowIdIndex
insert_row r location index =
    if r == invalid_row_id || is_invalid location then index else Maps.insert r location index

unfoldable pub remove_row : ℕ → RowIdIndex → RowIdIndex
remove_row r index = Maps.remove r index

-- lookup; the location goes out through a reference.
unfoldable pub lookup_row : ℕ → RowIdIndex → Option RowLocation
lookup_row r index = Maps.lookup r index

-- update changes a row that is there, and does not look at the new location.
unfoldable pub update_row : ℕ → RowLocation → RowIdIndex → RowIdIndex × Bool
update_row r location index = elim (Maps.lookup r index) [
  | none ↦ (index, false)
  | some old ↦ (Maps.insert r location index, true)
]

unfoldable pub clear_rows : RowIdIndex → RowIdIndex
clear_rows index = []

unfoldable pub size_rows : RowIdIndex → ℕ
size_rows index = length index

unfoldable pub all_row_ids : RowIdIndex → List ℕ
all_row_ids index = map (λ e. e.0) index

pub data Call : Type 0 where
  inserts : ℕ → RowLocation → Call
  removes : ℕ → Call
  updates : ℕ → RowLocation → Call
  clears : Call

unfoldable pub run : List Call → RowIdIndex → RowIdIndex
run [] index = index
run (inserts r location ∷ calls) index = run calls (insert_row r location index)
run (removes r ∷ calls) index = run calls (remove_row r index)
run (updates r location ∷ calls) index = run calls (update_row r location index).0
run (clears ∷ calls) index = run calls (clear_rows index)

-- The specification: a function from row ids to locations, changed at one place.
abbrev pub RowMap : Type 0
RowMap = ℕ → Option RowLocation

abbrev pub at_row : ℕ → Option RowLocation → RowMap → RowMap
at_row r value m q = if r == q then value else m q

abbrev pub spec : Call → RowMap → RowMap
spec (inserts r location) m =
    if r == 0 || is_invalid location then m else at_row r (some location) m
spec (removes r) m = at_row r none m
spec (updates r location) m = elim (m r) [ none ↦ m | some old ↦ at_row r (some location) m ]
spec clears m = λ q. none

abbrev pub run_spec : List Call → RowMap → RowMap
run_spec [] m = m
run_spec (c ∷ calls) m = run_spec calls (spec c m)

abbrev pub view : RowIdIndex → RowMap
view index q = lookup_row q index

module _ (r : ℕ) (location : RowLocation) (index : RowIdIndex) where
  view-insert_row : view (insert_row r location index) ≡ spec (inserts r location) (view index)
  unfolding insert_row lookup_row
  view-insert_row = elim (Bool-cases (r == 0 || is_invalid location)) [
    | inl bad ↦ rw bad
    | inr good ↦ rw good (fun_ext λ q. lookup-insert r q location index)
  ]

  view-update_row : view (update_row r location index).0 ≡ spec (updates r location) (view index)
  unfolding update_row lookup_row
  view-update_row = fun_ext λ q. ground (arith, lookup-insert r q location index)

view-remove_row :
    (r : ℕ) (index : RowIdIndex) → view (remove_row r index) ≡ spec (removes r) (view index)
unfolding remove_row lookup_row
view-remove_row r index = fun_ext λ q. lookup-remove r q index

view-clear_rows : (index : RowIdIndex) → view (clear_rows index) ≡ spec clears (view index)
unfolding clear_rows lookup_row Maps.lookup
view-clear_rows index = refl

-- After any sequence of calls, looking up a row in the index gives what the function from row ids to
-- locations gives that the same calls change one place at a time.
pub run-view :
    (calls : List Call) (index : RowIdIndex) → view (run calls index) ≡ run_spec calls (view index)
unfolding run
run-view [] index = refl
run-view (inserts r location ∷ calls) index =
    run-view calls (insert_row r location index)
    ∙ ap (run_spec calls) (view-insert_row r location index)
run-view (removes r ∷ calls) index =
    run-view calls (remove_row r index) ∙ ap (run_spec calls) (view-remove_row r index)
run-view (updates r location ∷ calls) index =
    run-view calls (update_row r location index).0
    ∙ ap (run_spec calls) (view-update_row r location index)
run-view (clears ∷ calls) index =
    run-view calls (clear_rows index) ∙ ap (run_spec calls) (view-clear_rows index)
