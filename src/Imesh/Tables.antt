-- ===== src/Imesh/Tables.antt =====
-- imesh/db_core.go, imesh/db_multisig.go and imesh/inout.go: the tables of the database that the
-- package writes, what it keeps in memory beside them, and the operations that read them.
use aknode.Base.{
  ℕ, ◌%◌, ◌^◌, ltb, if◌then◌else◌, Bool, true, false, Option, none, some, List, length, get_elem?,
  Dict, Result, ok, err, refused, ◌>>=◌,
}
use aknode.Imesh.Types.{
  Hash, Address, Input, Output, MultiSigOut, Body, Header, header_tx_info, header_tx_reward_ticket,
  header_tx_reward_fee, TxInfo, Txs, Transaction, or_missing, or_panic,
}
use aknode.AddressIndex.{Index, InoutType, type_in, type_out}

-- aklib's `tx.Type`.
pub data TxType : Type 0 where
  type_normal type_reward_fee type_reward_ticket : TxType
  type_unknown : ℕ → TxType

pub record InoutHash : Type 0 where
  pub hash : Hash
  pub kind : InoutType
  pub index : ℕ

-- The tables, by their headers: HeaderTxInfo, HeaderTxSig, HeaderAddressToTx,
-- HeaderMultisigAddress, HeaderTxRewardFee, HeaderTxRewardTicket and HeaderTxNo.
pub record Tables : Type 0 where
  pub txs : Txs
  pub sigs : ℕ → Option ℕ
  pub index : Index
  pub multisigs : Address → Option InoutHash
  pub fees : Dict Transaction
  pub tickets : Dict Transaction
  pub saved_no : ℕ

-- The variables `txno` and `latestTxs` of the package; the latter holds records with their hashes.
pub record Memory : Type 0 where
  pub tx_no : ℕ
  pub latest_txs : List (Hash × TxInfo)

-- TxType2DBHeader of msg/msg.go.
unfoldable pub tx_type_to_db_header : TxType → Result Header
tx_type_to_db_header type_normal = ok header_tx_info
tx_type_to_db_header type_reward_ticket = ok header_tx_reward_ticket
tx_type_to_db_header type_reward_fee = ok header_tx_reward_fee
tx_type_to_db_header (type_unknown _) = err refused

-- The first five bytes of the number.
unfoldable pub sig_key : ℕ → ℕ
sig_key tx_no = tx_no % 2 ^ 40

unfoldable pub has : Txs → Hash → Bool
has txs h = elim (txs h) [ none ↦ false | some _ ↦ true ]

unfoldable pub get_tx_info : Txs → Hash → Result TxInfo
get_tx_info txs h = or_missing (txs h)

-- The function that `getTxFunc` returns.
unfoldable pub get_tx_func : Txs → Hash → Result Body
unfolding get_tx_info
get_tx_func txs h = do ti ← get_tx_info txs h; ok ti.body

unfoldable pub get_tx : Tables → Hash → Result Transaction
unfolding sig_key
get_tx t h = do
  ti ← or_missing (t.txs h)
  sig ← or_missing (t.sigs (sig_key ti.tx_no))
  ok (record { hash = h; body = ti.body; signatures = sig })

unfoldable pub previous_output : Txs → Input → Result Output
unfolding get_tx_info
previous_output txs i = do
  prev ← get_tx_info txs i.previous_tx
  or_panic (get_elem? prev.body.outputs i.index)

unfoldable pub previous_multisig_output : Txs → Input → Result MultiSigOut
unfolding get_tx_info
previous_multisig_output txs i = do
  prev ← get_tx_info txs i.previous_tx
  or_panic (get_elem? prev.body.multi_sig_outs i.index)

-- `GetOutput`, by the type of the entry.
unfoldable pub output_of : Txs → InoutType → ℕ → TxInfo → Result Output
unfolding get_tx_info
output_of txs type_out i tr = or_panic (get_elem? tr.body.outputs i)
output_of txs type_in i tr = do
  inp ← or_panic (get_elem? tr.body.inputs i)
  prev ← get_tx_info txs inp.previous_tx
  or_panic (get_elem? prev.body.outputs inp.index)
output_of txs _ i tr = err refused

unfoldable pub get_output : Txs → InoutHash → Result Output
unfolding get_tx_info output_of
get_output txs ih = do tr ← get_tx_info txs ih.hash; output_of txs ih.kind ih.index tr

-- `len(ti.Body.MultiSigOuts) < int(ih.Index)` lets an index equal to the length pass.
unfoldable pub get_multisig : Tables → Address → Result MultiSigOut
get_multisig t madr = do
  ih ← or_missing (t.multisigs madr)
  ti ← or_missing (t.txs ih.hash)
  if ltb (length ti.body.multi_sig_outs) ih.index
      then err refused
      else or_panic (get_elem? ti.body.multi_sig_outs ih.index)
