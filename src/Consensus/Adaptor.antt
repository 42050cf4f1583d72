-- ===== src/Consensus/Adaptor.antt =====
-- akconsensus/adaptor.go: what the consensus asks of the node. OnStale, Flush, OnModeChange, ShareTx
-- and ShareTxset do nothing; Propose, SharePosition and ShareValidaton only send.
pub mod Closing
use aknode.Base.{
  ℕ, ◌+◌, ◌/◌, ltb, leb, Bool, true, false, List, [], ◌∷◌, ◌++◌, length, Dict, Result, ok, err,
  refused, ◌>>=◌,
}
use aknode.Imesh.Types.{Hash, Txs, TxInfo, Transaction, Spend}
use aknode.Imesh.Tables.{Tables, get_tx, get_tx_info}
use aknode.Leaves.{Leaves, get_all_unconfirmed}
use aknode.Consensus.{Library, Ledger, LedgerId, State, get_ledger, put_ledger, confirm_ledger}

unfoldable pub acquire_ledger : Library → LedgerId → State → Result Ledger × State
acquire_ledger lib id s = elim (get_ledger lib s id) [
  | ok l ↦ (ok l, s)
  | err e ↦ (err refused, record s { asked = s.asked ++ id ∷ [] })
]

-- The ID of a set is the hash of its transaction.
unfoldable pub acquire_tx_set : Tables → Hash → Result (List Transaction)
acquire_tx_set t id = do tr ← get_tx t id; ok (tr ∷ [])

-- `sort` is the sort of GetAllUnconfirmed.
unfoldable pub has_open_transactions : (List Hash → List Hash) → Leaves → Bool
unfolding get_all_unconfirmed
has_open_transactions sort ls = ltb 0 (length (get_all_unconfirmed sort ls))

-- The records of the leaves; their hashes stand beside them.
unfoldable pub infos_of : Txs → List Hash → Result (List (Hash × TxInfo))
unfolding get_tx_info
infos_of txs [] = ok []
infos_of txs (h ∷ hs) = do ti ← get_tx_info txs h; rest ← infos_of txs hs; ok ((h, ti) ∷ rest)

-- The transaction of the first record of the sorted ones; an error is logged, and gives the nil set.
unfoldable pub oldest : Tables → List (Hash × TxInfo) → Dict Transaction
oldest t [] = []
oldest t ((h, ti) ∷ more) = elim (get_tx t h) [ err e ↦ [] | ok tr ↦ (h, tr) ∷ [] ]

-- `sort_infos` is sort.Slice by the time of arrival.
unfoldable pub on_close :
    (List Hash → List Hash)
    → (List (Hash × TxInfo) → List (Hash × TxInfo))
    → Tables
    → Leaves
    → Dict Transaction
unfolding infos_of oldest get_all_unconfirmed
on_close sort sort_infos t ls = elim (infos_of t.txs (get_all_unconfirmed sort ls)) [
  | err e ↦ []
  | ok infos ↦ oldest t (sort_infos infos)
]

-- Errors are logged.
unfoldable pub on_accept : Library → (Spend → ℕ) → ℕ → Bool → Ledger → State → State
unfolding confirm_ledger put_ledger
on_accept lib serialize fuel writes l s =
    let c = confirm_ledger lib serialize fuel writes l s in
    elim c.0 [ err e ↦ c.1 | ok _ ↦ (put_ledger lib writes l c.1).1 ]

unfoldable pub should_accept : ℕ → ℕ → Bool
should_accept trusted_nodes proposers = leb (trusted_nodes / 2 + 1) proposers
