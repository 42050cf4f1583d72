-- ===== src/Imesh/Rounds/Safety.antt =====
-- What rounds of confirmation and reversal keep, whether they succeed or fail.
use aknode.Base.{true, ℕ, List, [], ◌∷◌, Result, ok, err, ◌≡◌, ◌≢◌, refl, All}
use aknode.Imesh.Types.{Hash, Txs, Spend, StatNo}
use aknode.Imesh.Confirm.{confirm, revert_confirmation}
use aknode.Imesh.Confirm.Writes.{IsRanked}
use aknode.Imesh.Confirm.Steps.{
  Settles, Unsettles, Settles-IsWriting, Unsettles-IsWriting, step-IsRanked, Steps_keep,
  confirm-Traced,
}
use aknode.Imesh.Confirm.Reverts.{revert-Traced, Unsettles-NoDoubleSpend}
use aknode.Imesh.Confirm.Spending.{NoDoubleSpend, Settles-NoDoubleSpend}
use aknode.Imesh.Conflict.{Checked, check_conflict}
use aknode.Imesh.Rounds.{update, confirm_checked, confirm_in, confirm_from, revert_from}

update_keep :
    (P : Txs → Type 0) (r : Result (Txs × List Hash)) (db : Txs)
    → P db
    → ((db' : Txs) (hs : List Hash) → r ≡ ok (db', hs) → P db')
    → P (update true r db).1
unfolding update
update_keep P (ok (db', hs)) db p keep = keep db' hs refl
update_keep P (err e) db p keep = p

-- What every step of a round keeps, the round keeps.
module _ (P : Txs → Type 0) (rank : Hash → ℕ) (db : Txs) (ranked : IsRanked rank db)
    (p : P db) where
  confirm_checked_keep :
      (r : Result Checked) (fuel : ℕ) (stat : StatNo) (h : Hash)
      → ((reject_txs : List Hash) (d : Txs) (k : Hash) (d' : Txs)
          → Settles reject_txs stat d k d'
          → P d
          → P d')
      → P (confirm_checked true r fuel stat h db).1
  unfolding confirm_checked
  confirm_checked_keep (err e) fuel stat h keep = p
  confirm_checked_keep (ok (c, visited)) fuel stat h keep =
      update_keep P (confirm fuel c.conflicts stat h db) db p λ db' hs e.
        let t = confirm-Traced c.conflicts stat rank fuel h db db' hs ranked e in
        Steps_keep (Settles c.conflicts stat) P (keep c.conflicts) db t.order db' t.steps p

  pub revert_from_keep :
      (fuel : ℕ) (stat : StatNo) (h : Hash)
      → ((d : Txs) (k : Hash) (d' : Txs) → Unsettles stat d k d' → P d → P d')
      → P (revert_from fuel h stat db).1
  unfolding revert_from
  revert_from_keep fuel stat h keep =
      update_keep P (revert_confirmation fuel stat h db) db p λ db' hs e.
        let t = revert-Traced stat rank fuel h db db' hs ranked e in
        Steps_keep (Unsettles stat) P keep db t.order db' t.steps p

  pub confirm_from_keep :
      (serialize : Spend → ℕ) (fuel : ℕ) (stat : StatNo) (h : Hash)
      → ((reject_txs : List Hash) (d : Txs) (k : Hash) (d' : Txs)
          → Settles reject_txs stat d k d'
          → P d
          → P d')
      → P (confirm_from serialize fuel h stat db).1
  unfolding confirm_from confirm_in
  confirm_from_keep serialize fuel stat h keep =
      confirm_checked_keep (check_conflict serialize fuel db h []) fuel stat h keep

-- A call of one of the two exported functions.
pub data Round : Type 0 where
  confirms reverts : Hash → StatNo → Round

abbrev pub round_of : Round → StatNo
round_of (confirms h stat) = stat
round_of (reverts h stat) = stat

unfoldable pub play_round : (Spend → ℕ) → ℕ → Txs → Round → Txs
play_round serialize fuel db (confirms h stat) = (confirm_from serialize fuel h stat db).1
play_round serialize fuel db (reverts h stat) = (revert_from fuel h stat db).1

unfoldable pub play : (Spend → ℕ) → ℕ → Txs → List Round → Txs
unfolding play_round
play serialize fuel db [] = db
play serialize fuel db (r ∷ rs) = play serialize fuel (play_round serialize fuel db r) rs

play_round_keep :
    (P : Txs → Type 0) (rank : Hash → ℕ) (serialize : Spend → ℕ) (fuel : ℕ) (db : Txs) (r : Round)
    → ((reject_txs : List Hash) (d : Txs) (k : Hash) (d' : Txs)
        → Settles reject_txs (round_of r) d k d'
        → P d
        → P d')
    → ((d : Txs) (k : Hash) (d' : Txs) → Unsettles (round_of r) d k d' → P d → P d')
    → IsRanked rank db
    → P db
    → P (play_round serialize fuel db r)
unfolding play_round
play_round_keep P rank serialize fuel db (confirms h stat) up down ranked p =
    confirm_from_keep P rank db ranked p serialize fuel stat h up
play_round_keep P rank serialize fuel db (reverts h stat) up down ranked p =
    revert_from_keep P rank db ranked p fuel stat h down

pub play_round-IsRanked :
    (rank : Hash → ℕ) (serialize : Spend → ℕ) (fuel : ℕ) (db : Txs) (r : Round)
    → IsRanked rank db
    → IsRanked rank (play_round serialize fuel db r)
play_round-IsRanked rank serialize fuel db r ranked =
    play_round_keep (IsRanked rank) rank serialize fuel db r
      (λ l. step-IsRanked (Settles l (round_of r)) (Settles-IsWriting l (round_of r)) rank)
      (step-IsRanked (Unsettles (round_of r)) (Unsettles-IsWriting (round_of r)) rank) ranked ranked

pub play_round-NoDoubleSpend :
    (rank : Hash → ℕ) (serialize : Spend → ℕ) (fuel : ℕ) (db : Txs) (r : Round)
    → IsRanked rank db
    → round_of r ≢ 0
    → NoDoubleSpend db
    → NoDoubleSpend (play_round serialize fuel db r)
play_round-NoDoubleSpend rank serialize fuel db r ranked ne inv =
    play_round_keep NoDoubleSpend rank serialize fuel db r
      (λ l d k d'. Settles-NoDoubleSpend l (round_of r) d k d')
      (λ d k d'. Unsettles-NoDoubleSpend (round_of r) ne d k d') ranked inv

-- From a ledger in which references have smaller ranks and no output is spent twice, any sequence
-- of confirmations and reversals, failing ones included, in rounds that are not StatusPending,
-- leads to a ledger in which every output that an accepted transaction spends is flagged as
-- spent, and no two accepted transactions spend one output.
pub play-NoDoubleSpend :
    (rank : Hash → ℕ) (serialize : Spend → ℕ) (fuel : ℕ) (db : Txs) (rs : List Round)
    → IsRanked rank db
    → NoDoubleSpend db
    → All (λ r. round_of r ≢ 0) rs
    → NoDoubleSpend (play serialize fuel db rs)
unfolding play
play-NoDoubleSpend rank serialize fuel db [] ranked inv ne = inv
play-NoDoubleSpend rank serialize fuel db (r ∷ rs) ranked inv ne =
    play-NoDoubleSpend rank serialize fuel (play_round serialize fuel db r) rs
      (play_round-IsRanked rank serialize fuel db r ranked)
      (play_round-NoDoubleSpend rank serialize fuel db r ranked ne.0 inv) ne.1
