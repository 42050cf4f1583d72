-- ===== src/AddressIndex/History.antt =====
-- imesh/db_utxo.go: GetHisoty2, and GetHisoty, which calls it.
pub mod Outputs
use aknode.Base.{
  ℕ, ◌==◌, leb, if◌then◌else◌, Bool, true, false, not, ◌||◌, Option, none, some, List, [], ◌∷◌,
  ◌++◌, length, get_elem?, take, drop, map, Result, ok, err, ◌>>=◌,
}
use aknode.Imesh.Types.{Hash, Address, Input, TxInfo, Txs, or_panic}
use aknode.Imesh.Tables.{InoutHash, get_tx_info}
use aknode.AddressIndex.{
  InoutType, type_in, type_mulin, type_ticketin, type_out, type_mulout, type_ticketout, Index,
  entries, at_least, is_at,
}

-- What the code takes from outside: `tx.NewInoutHash`, `ih.Bytes()`, the nil hash and sort.Search.
pub record Decoder : Type 0 where
  pub new_inout_hash : ℕ → Result InoutHash
  pub bytes : InoutHash → ℕ
  pub nil_hash : Hash
  pub search : ℕ → (ℕ → Bool) → ℕ

abbrev spent_by : InoutType → Input → InoutHash
spent_by kind i = record { hash = i.previous_tx; kind = kind; index = i.index }

abbrev ticket_or : Hash → Option Hash → Hash
ticket_or nil_hash none = nil_hash
ticket_or nil_hash (some h) = h

-- The output that an input refers to; `none` for an output.
unfoldable pub spent_output : Hash → Txs → InoutHash → Result (Option InoutHash)
unfolding get_tx_info
spent_output nil_hash txs ih = elim ih.kind [
  | type_out ↦ ok none
  | type_mulout ↦ ok none
  | type_ticketout ↦ ok none
  | type_in ↦ do
    tr ← get_tx_info txs ih.hash
    i ← or_panic (get_elem? tr.body.inputs ih.index)
    ok (some (spent_by type_out i))
  | type_mulin ↦ do
    tr ← get_tx_info txs ih.hash
    i ← or_panic (get_elem? tr.body.multi_sig_ins ih.index)
    ok (some (spent_by type_mulout i))
  | type_ticketin ↦ do
    tr ← get_tx_info txs ih.hash
    ok (
        some (record {
          hash = ticket_or nil_hash tr.body.ticket_input;
          kind = type_ticketout;
          index = 0;
        }))
]

module _ (dec : Decoder) where
  unfoldable pub parsed : List ℕ → Result (List InoutHash)
  parsed [] = ok []
  parsed (h ∷ hs) = do ih ← dec.new_inout_hash h; rest ← parsed hs; ok (ih ∷ rest)

  -- `n` is `len(hashes)`, which does not grow with the list.
  unfoldable pub insert_output : ℕ → InoutHash → List InoutHash → List InoutHash
  unfolding at_least is_at
  insert_output n new ihs =
      let i = dec.search (length ihs) (at_least (map dec.bytes ihs) (dec.bytes new)) in
      if leb n i || not (is_at (map dec.bytes ihs) (dec.bytes new) i)
      then take i ihs ++ new ∷ drop i ihs
      else ihs

  abbrev pub insert_some : ℕ → Option InoutHash → List InoutHash → List InoutHash
  insert_some n none ihs = ihs
  insert_some n (some new) ihs = insert_output n new ihs

  -- The loop over the copy of the list.
  unfoldable pub add_outputs : Txs → ℕ → List InoutHash → List InoutHash → Result (List InoutHash)
  unfolding spent_output insert_output
  add_outputs txs n [] ihs = ok ihs
  add_outputs txs n (ih ∷ more) ihs = do
    o ← spent_output dec.nil_hash txs ih
    add_outputs txs n more (insert_some n o ihs)

  -- `adr` is what `address.ParseAddress58` gives.
  unfoldable pub get_hisoty2 : Result Address → Bool → Index → Txs → Result (List InoutHash)
  unfolding parsed add_outputs
  get_hisoty2 adr utxo_only ix txs = do
    a ← adr
    let hashes = entries ix (some a)
    ihs ← parsed hashes
    if utxo_only then ok ihs else add_outputs txs (length hashes) ihs ihs
