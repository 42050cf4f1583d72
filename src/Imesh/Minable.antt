-- ===== src/Imesh/Minable.antt =====
-- imesh/db_core.go: the tables of minable transactions, and the marks that they leave on the
-- outputs which they want to spend.
use aknode.Base.{
  ℕ, leb, if◌then◌else◌, Bool, true, false, Option, none, some, List, [], ◌∷◌, get_elem?, Dict,
  lookup, insert, remove, set_cell, Result, ok, err, refused, panic, ◌>>=◌,
}
use aknode.Imesh.Types.{
  Hash, Output, Header, header_tx_info, header_tx_reward_ticket, header_tx_reward_fee, OutputStatus,
  TxInfo, Txs, Transaction, Body, Spend, put, status_at, or_missing, or_panic,
}
use aknode.Imesh.Tables.{
  TxType, type_normal, type_reward_fee, type_reward_ticket, type_unknown, Tables,
  tx_type_to_db_header,
}

-- The minable transactions of a header. HeaderTxInfo holds no transactions of this kind.
abbrev pub table_of : Header → Tables → Dict Transaction
table_of header_tx_info t = []
table_of header_tx_reward_ticket t = t.tickets
table_of header_tx_reward_fee t = t.fees

abbrev pub set_table : Header → Dict Transaction → Tables → Tables
set_table header_tx_info m t = t
set_table header_tx_reward_ticket m t = record t { tickets = m }
set_table header_tx_reward_fee m t = record t { fees = m }

-- ti.OutputStatus[slot][index] = st
abbrev pub with_status : TxInfo → Spend → OutputStatus → TxInfo
with_status ti s st = record ti { output_status = set_cell ti.output_status s.slot s.index st }

-- One turn of the loop of `deleteMinableTx`.
unfoldable pub unmark : Spend → Txs → Result Txs
unfolding status_at
unmark s txs = do
  ti ← or_missing (txs s.previous_tx)
  st ← or_panic (status_at ti s)
  ok (put txs s.previous_tx (with_status ti s (record st { used_by_minable = none })))

unfoldable pub unmark_all : List Spend → Txs → Result Txs
unfolding unmark
unmark_all [] txs = ok txs
unmark_all (s ∷ ss) txs = do txs1 ← unmark s txs; unmark_all ss txs1

-- The loop of `IsMinableTxValid`.
unfoldable pub none_referred : Txs → List Spend → Result Bool
unfolding status_at
none_referred txs [] = ok true
none_referred txs (s ∷ ss) = do
  ti ← or_missing (txs s.previous_tx)
  st ← or_panic (status_at ti s)
  elim st.is_referred [ true ↦ ok false | false ↦ none_referred txs ss ]

-- `input_hashes` is aklib's `tx.InputHashes`: the outputs that a body spends.
module _ (input_hashes : Body → List Spend) where
  unfoldable pub delete_minable_tx : Hash → Header → Tables → Result Tables
  unfolding unmark_all
  delete_minable_tx h header t = do
    min_tx ← or_missing (lookup h (table_of header t))
    let t1 = set_table header (remove h (table_of header t)) t
    txs ← unmark_all (input_hashes min_tx.body) t1.txs
    ok (record t1 { txs = txs })

  -- if m := ….UsedByMinable; m != nil { deleteMinableTx(txn, m[:32], db.Header(m[32])) }
  unfoldable pub displace : Option (Hash × Header) → Tables → Result Tables
  unfolding delete_minable_tx
  displace none t = ok t
  displace (some m) t = delete_minable_tx m.0 m.1 t

  -- One turn of the loop of `putMinableTx`: the record that was read before the deletion is the one
  -- that is written back.
  unfoldable pub claim_output : Hash → Header → Spend → Tables → Result Tables
  unfolding displace status_at
  claim_output h header s t = do
    ti ← or_missing (t.txs s.previous_tx)
    st ← or_panic (status_at ti s)
    t1 ← displace st.used_by_minable t
    ok (record t1 {
      txs =
          put t1.txs s.previous_tx
            (with_status ti s (record st { used_by_minable = some (h, header) }));
    })

  unfoldable pub claim_outputs : Hash → Header → List Spend → Tables → Result Tables
  unfolding claim_output
  claim_outputs h header [] t = ok t
  claim_outputs h header (s ∷ ss) t = do
    t1 ← claim_output h header s t
    claim_outputs h header ss t1

  -- The transaction of the database in `putMinableTx`.
  unfoldable pub put_minable : Transaction → Header → Tables → Result Tables
  unfolding claim_outputs
  put_minable tr header t = do
    t1 ← claim_outputs tr.hash header (input_hashes tr.body) t
    ok (set_table header (insert tr.hash tr (table_of header t1)) t1)

  -- `check` is aklib's `tr.Check`.
  unfoldable pub put_minable_tx :
      (Transaction → TxType → Bool) → Transaction → TxType → Tables → Result Tables
  unfolding put_minable
  put_minable_tx check tr type_normal t = err refused
  put_minable_tx check tr (type_unknown k) t = err refused
  put_minable_tx check tr kind t =
      if check tr kind
      then tx_type_to_db_header kind >>= (λ header. put_minable tr header t)
      else err refused

  unfoldable pub is_minable_tx_valid : Txs → Transaction → Result Bool
  unfolding none_referred
  is_minable_tx_valid txs tr = none_referred txs (input_hashes tr.body)

  -- What `GetMinableTx` reads under a header that its type gives.
  unfoldable pub get_minable : Hash → Header → Tables → Result Transaction
  unfolding is_minable_tx_valid
  get_minable h header t = do
    tr ← or_missing (lookup h (table_of header t))
    valid ← is_minable_tx_valid t.txs tr
    if valid then ok tr else err refused

  unfoldable pub get_minable_tx : Hash → TxType → Tables → Result Transaction
  unfolding get_minable
  get_minable_tx h type_reward_fee t = get_minable h header_tx_reward_fee t
  get_minable_tx h type_reward_ticket t = get_minable h header_tx_reward_ticket t
  get_minable_tx h _ t = err refused

-- The keys that `f` picks, in the order of the table.
unfoldable pub picked : (Transaction → Result Bool) → Dict Transaction → Result (List Hash)
picked f [] = ok []
picked f ((h, tr) ∷ m) = do take_it ← f tr; hs ← picked f m; ok (if take_it then h ∷ hs else hs)

abbrev pub no_minable : Option Hash → Dict Transaction → Result Transaction
no_minable none m = err refused
no_minable (some h) m = elim (lookup h m) [ none ↦ err refused | some tr ↦ ok tr ]

-- `draw` is what `rand.R.Intn` gave. An error of the iteration leaves no transaction, which is
-- reported in its place; a panic stays one.
unfoldable pub random_of : Result (List Hash) → ℕ → Dict Transaction → Result Transaction
random_of (err panic) draw m = err panic
random_of (err _) draw m = err refused
random_of (ok hs) draw m = no_minable (get_elem? hs draw) m

unfoldable pub get_random_minable_tx :
    (Transaction → Result Bool) → ℕ → Dict Transaction → Result Transaction
unfolding picked random_of
get_random_minable_tx f draw m = random_of (picked f m) draw m

abbrev pub last_output : List Output → Option Output
last_output [] = none
last_output (o ∷ []) = some o
last_output (o ∷ p ∷ os) = last_output (p ∷ os)

-- trr.Outputs[len(trr.Outputs)-1].Value >= min, which panics without outputs.
unfoldable pub pays : ℕ → Transaction → Result Bool
pays least tr = do o ← or_panic (last_output tr.body.outputs); ok (leb least o.value)

unfoldable pub get_random_fee_tx : ℕ → ℕ → Tables → Result Transaction
unfolding get_random_minable_tx pays
get_random_fee_tx least draw t = get_random_minable_tx (pays least) draw t.fees

unfoldable pub get_random_ticket_tx : ℕ → Tables → Result Transaction
unfolding get_random_minable_tx
get_random_ticket_tx draw t = get_random_minable_tx (λ tr. ok true) draw t.tickets
