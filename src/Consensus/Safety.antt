-- ===== src/Consensus/Safety.antt =====
-- What following the consensus keeps of the iMesh, whether it succeeds or fails.
use aknode.Base.{ℕ, ◌≢◌, true, List, [], ◌∷◌}
use aknode.Imesh.Types.{Hash, Spend}
use aknode.Imesh.Confirm.Spending.{NoDoubleSpend}
use aknode.Imesh.Confirm.Writes.{IsRanked}
use aknode.Imesh.Rounds.Safety.{play_round-IsRanked, play_round-NoDoubleSpend}
use aknode.Consensus.{Library, Ledger, State, txs_of, confirm_ledger}
use aknode.Consensus.Keeps.{confirm_ledger_keep}

module _ (lib : Library) (serialize : Spend → ℕ) (fuel : ℕ) where
  -- The state after the ledgers of a list, failing calls included.
  unfoldable pub confirm_each : List Ledger → State → State
  confirm_each [] s = s
  confirm_each (l ∷ ls) s = confirm_each ls (confirm_ledger lib serialize fuel true l s).1

  -- If no ledger has the ID 0, and in an iMesh references have smaller ranks and no output is
  -- spent twice: after Confirm of any sequence of ledgers, failing calls included, every output
  -- that an accepted transaction spends is flagged as spent, and no two accepted transactions
  -- spend one output.
  pub confirm_each-NoDoubleSpend :
      (rank : Hash → ℕ) (ls : List Ledger) (s : State)
      → ((l : Ledger) → lib.id_of l ≢ 0)
      → IsRanked rank (txs_of s)
      → NoDoubleSpend (txs_of s)
      → NoDoubleSpend (txs_of (confirm_each ls s))
  unfolding confirm_each
  confirm_each-NoDoubleSpend rank [] s numbered ranked inv = inv
  confirm_each-NoDoubleSpend rank (l ∷ ls) s numbered ranked inv =
      let safe =
        confirm_ledger_keep lib serialize fuel (λ ls db. IsRanked rank db × NoDoubleSpend db)
          numbered
          (λ r ls db ne p. (
            play_round-IsRanked rank serialize fuel db r p.0,
            play_round-NoDoubleSpend rank serialize fuel db r p.0 ne p.1,
          ))
          (λ id x ls db p. p) true l s (ranked, inv) in
      confirm_each-NoDoubleSpend rank ls (confirm_ledger lib serialize fuel true l s).1 numbered
        safe.0 safe.1
