-- ===== src/Imesh/Confirm.antt =====
-- imesh/confirm.go: `confirm` and `revertConfirmation`, as far as the database takes their writes. An
-- error of a write ends them, and the transaction of the database is dropped: `update` of
-- Imesh/Rounds has that.
pub mod Marks
pub mod Writes
pub mod Steps
pub mod Effects
pub mod Spending
pub mod Reverts
use aknode.Base.{
  ℕ, zero, suc, ◌==◌, if◌then◌else◌, Bool, true, false, not, ◌||◌, List, [], ◌∷◌, ◌++◌, Result, ok,
  err, no_fuel, contains, ◌>>=◌,
}
use aknode.Imesh.Types.{
  Hash, Txs, TxInfo, Spend, StatNo, status_pending, is_accepted, is_confirmed, references, spends,
  status_at, set_spent, put, or_missing, or_panic,
}

-- The loops that visit the referenced transactions and collect what the calls return. A call is
-- made on the database that the one before it left, and the first error ends the loop.
unfoldable pub visit_all :
    (Hash → Txs → Result (Txs × List Hash)) → List Hash → Txs → Result (Txs × List Hash)
visit_all visit [] db = ok (db, [])
visit_all visit (p ∷ ps) db = do
  (db1, hs1) ← visit p db
  (db2, hs2) ← visit_all visit ps db1
  ok (db2, hs1 ++ hs2)

-- `if !pti.IsAccepted() { reject = true }; if ….IsSpent { reject = true }` for one input.
unfoldable pub blocked : Txs → Spend → Result Bool
blocked db s = do
  pti ← or_missing (db s.previous_tx)
  st ← or_panic (status_at pti s)
  ok (not (is_accepted pti) || st.is_spent)

unfoldable pub any_blocked : Txs → List Spend → Result Bool
unfolding blocked
any_blocked db [] = ok false
any_blocked db (s ∷ ss) = do b ← blocked db s; rest ← any_blocked db ss; ok (b || rest)

-- Get, set IsSpent, Put, for one input and for all.
unfoldable pub mark : Bool → Spend → Txs → Result Txs
mark v s db = do
  pti ← or_missing (db s.previous_tx)
  pti' ← set_spent pti s v
  ok (put db s.previous_tx pti')

unfoldable pub mark_all : Bool → List Spend → Txs → Result Txs
mark_all v [] db = ok db
mark_all v (s ∷ ss) db = do db1 ← mark v s db; mark_all v ss db1

-- The new record of `h`: `IsRejected` is only ever set here.
unfoldable pub settled : TxInfo → StatNo → Bool → TxInfo
settled ti stat reject = record ti {
  stat_no = stat;
  is_rejected = if reject then true else ti.is_rejected;
}

-- What `confirm` does after its recursive calls: decide, store the verdict, mark the inputs.
unfoldable pub settle : List Hash → StatNo → Hash → TxInfo → Txs → Result Txs
unfolding settled
settle reject_txs stat h ti db = do
  bad ← any_blocked db (spends ti.body)
  let reject = contains reject_txs h || bad
  let db1 = put db h (settled ti stat reject)
  if reject then ok db1 else mark_all true (spends ti.body) db1

-- The body of `confirm` for a pending transaction; `visit` is the recursive call.
unfoldable pub confirm_pending :
    (Hash → Txs → Result (Txs × List Hash))
    → List Hash
    → StatNo
    → Hash
    → TxInfo
    → Txs
    → Result (Txs × List Hash)
confirm_pending visit reject_txs stat h ti db = do
  (db1, hs) ← visit_all visit (references ti.body) db
  db2 ← settle reject_txs stat h ti db1
  ok (db2, hs ++ h ∷ [])

unfoldable pub confirm : ℕ → List Hash → StatNo → Hash → Txs → Result (Txs × List Hash)
confirm zero reject_txs stat h db = err no_fuel
confirm (suc fuel) reject_txs stat h db = do
  ti ← or_missing (db h)
  if is_confirmed ti
      then ok (db, [])
      else confirm_pending (confirm fuel reject_txs stat) reject_txs stat h ti db

-- The new record of `h` under `revertConfirmation`.
unfoldable pub pending_again : TxInfo → TxInfo
pending_again ti = record ti { stat_no = status_pending; is_rejected = false }

-- What `revertConfirmation` does after its recursive calls.
unfoldable pub unsettle : Hash → TxInfo → Txs → Result Txs
unfolding pending_again
unsettle h ti db =
    let db1 = put db h (pending_again ti) in
    if ti.is_rejected then ok db1 else mark_all false (spends ti.body) db1

-- The body of `revertConfirmation` for a transaction of the round.
unfoldable pub revert_round :
    (Hash → Txs → Result (Txs × List Hash)) → Hash → TxInfo → Txs → Result (Txs × List Hash)
revert_round visit h ti db = do
  (db1, hs) ← visit_all visit (references ti.body) db
  db2 ← unsettle h ti db1
  ok (db2, h ∷ hs)

unfoldable pub revert_confirmation : ℕ → StatNo → Hash → Txs → Result (Txs × List Hash)
revert_confirmation zero stat h db = err no_fuel
revert_confirmation (suc fuel) stat h db = do
  ti ← or_missing (db h)
  if ti.stat_no == stat then revert_round (revert_confirmation fuel stat) h ti db else ok (db, [])
