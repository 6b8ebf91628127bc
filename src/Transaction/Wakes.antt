-- ===== src/Transaction/Wakes.antt =====
-- A waiting lockPage, when the transaction that holds the page commits.
use qin_db.Shared.Maps
use qin_db.Transaction.{Transaction}
