-- ===== src/Tests/Rows.antt =====
-- Rows that are inserted, moved and removed, and queries that are cached under them.
use qin_db.Shared.{ℕ, ◌≡◌, ◌≤◌, length, arith, refl, true, List, [], ◌∷◌}
use qin_db.RowIndex.{RowLocation, Call, inserts, removes, updates, run, view, run_spec, run-view}
use qin_db.QueryCache.{QueryCache, init, put}
use qin_db.QueryCache.Memory
use qin_db.QueryCache.Entries.{put-length}
use qin_db.QueryCache.Memory.{gets, puts, invalidates, run-IsExact}
use qin_db.QueryCache.Sizes.{sizes, IsExact}

abbrev here : RowLocation
here = record { page_id = 3; slot_index = 1 }

abbrev there : RowLocation
there = record { page_id = 4; slot_index = 0 }

abbrev calls : List Call
calls = inserts 1 here ∷ inserts 2 here ∷ updates 1 there ∷ removes 2 ∷ []

run-view_example : view (run calls []) ≡ run_spec calls (view [])
run-view_example = run-view calls []

abbrev queries : List (Memory.Call ℕ)
queries = puts 10 1 7 (5 ∷ []) ∷ puts 11 2 8 (5 ∷ 6 ∷ []) ∷ gets 12 1 ∷ invalidates 5 ∷ []

run-IsExact_example : IsExact (Memory.run (λ (r : ℕ). true) (λ (r : ℕ). 100) queries (init 1 1 300))
unfolding init sizes
run-IsExact_example = run-IsExact (λ (r : ℕ). true) (λ (r : ℕ). 100) queries (init 1 1 300) refl

abbrev small : QueryCache ℕ
small = init 1 1 300

put-length_example :
    length (put (λ (r : ℕ). true) (λ (r : ℕ). 100) 10 1 7 (5 ∷ []) small).0.cache
    ≤ small.max_entries
unfolding init
put-length_example =
    put-length (λ (r : ℕ). true) (λ (r : ℕ). 100) 10 1 7 (5 ∷ []) small (omega arith) (omega arith)
