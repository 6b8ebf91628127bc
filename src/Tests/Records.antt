-- ===== src/Tests/Records.antt =====
-- Visibility of records written by the transactions of `Tests.Transactions`.
use qin_db.Shared.{ℕ, ◌≡◌, ◌↔◌, ◌⊎◌, refl, true, false}
use qin_db.Transaction.{invalid_txn_id}
use qin_db.Transaction.Lifecycle.{abort_transaction}
use qin_db.Transaction.Steps.{here, next, aborts}
use qin_db.Visibility.{RecordHeader, is_aborted, is_visible, can_delete}
use qin_db.Visibility.Rules.{Counts, is_visible_iff, can_delete-is_visible}
use qin_db.Tests.Transactions.{program, calls, locked, released, released-Inv}

-- Created by transaction 1, and not deleted.
abbrev row : RecordHeader
row = record { row_id = 10; create_txn_id = 1; delete_txn_id = 0; column_count = 3 }

-- Created by transaction 2, and deleted by transaction 1.
abbrev gone : RecordHeader
gone = record { row_id = 11; create_txn_id = 2; delete_txn_id = 1; column_count = 3 }

-- Created and deleted by transaction 1.
abbrev short_lived : RecordHeader
short_lived = record { row_id = 12; create_txn_id = 1; delete_txn_id = 1; column_count = 3 }

is_visible_iff_example : (is_visible locked.transactions row 2 ≡ true) ↔ (
    Counts locked.transactions 2 1
    × (is_aborted locked.transactions 1 ≡ false)
    × ((◌≡◌ {A = ℕ} 0 invalid_txn_id) ⊎ (¬ Counts locked.transactions 2 0)))
is_visible_iff_example = is_visible_iff locked.transactions row 2

can_delete-is_visible_example :
    is_visible (abort_transaction calls released 2).0.transactions short_lived 2 ≡ false
unfolding program can_delete
can_delete-is_visible_example =
    can_delete-is_visible {calls = calls} released (abort_transaction calls released 2).0
      short_lived 2 released-Inv (next here (aborts released 2)) refl
