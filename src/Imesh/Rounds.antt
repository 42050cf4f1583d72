-- ===== src/Imesh/Rounds.antt =====
-- imesh/confirm.go: the exported `Confirm` and `RevertConfirmation`. Both run under the package's
-- mutex, so nothing interleaves with them. `fuel` bounds the depth of the recursions.
pub mod Verdicts
pub mod Safety
pub mod Total
pub mod Returns
pub mod Growth
use aknode.Base.{ℕ, Bool, true, false, List, [], Result, ok, err, refused}
use aknode.Imesh.Types.{Hash, Txs, Spend, StatNo}
use aknode.Imesh.Confirm.{confirm, revert_confirmation}
use aknode.Imesh.Conflict.{Checked, check_conflict}

-- `s.DB.Update`: an error of the function rolls the transaction back. The first argument is false
-- where the database refuses a write that the function gets to, or the commit; that error is
-- returned, and rolls back as well.
unfoldable pub update : Bool → Result (Txs × List Hash) → Txs → Result (List Hash) × Txs
update true (err e) db = (err e, db)
update true (ok (db', hs)) db = (ok hs, db')
update false r db = (err refused, db)

-- `Confirm` after `checkConflict` has returned.
unfoldable pub confirm_checked :
    Bool → Result Checked → ℕ → StatNo → Hash → Txs → Result (List Hash) × Txs
confirm_checked takes (err e) fuel stat h db = (err e, db)
confirm_checked takes (ok (c, visited)) fuel stat h db =
    update takes (confirm fuel c.conflicts stat h db) db

unfoldable pub confirm_in : Bool → (Spend → ℕ) → ℕ → Hash → StatNo → Txs → Result (List Hash) × Txs
confirm_in takes serialize fuel h stat db =
    confirm_checked takes (check_conflict serialize fuel db h []) fuel stat h db

-- `Confirm` and `RevertConfirmation` on a database that takes the writes.
unfoldable pub confirm_from : (Spend → ℕ) → ℕ → Hash → StatNo → Txs → Result (List Hash) × Txs
unfolding confirm_in
confirm_from serialize fuel h stat db = confirm_in true serialize fuel h stat db

unfoldable pub revert_from : ℕ → Hash → StatNo → Txs → Result (List Hash) × Txs
revert_from fuel h stat db = update true (revert_confirmation fuel stat h db) db
