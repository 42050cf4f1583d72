-- ===== src/AddressIndex.antt =====
-- imesh/db_utxo.go: the index from addresses to the inputs and outputs that concern them.
pub mod Sorted
pub mod Covers
pub mod Entered
pub mod History
use aknode.Base.{
  ℕ, zero, suc, ◌+◌, ◌%◌, ◌==◌, leb, if◌then◌else◌, Bool, true, false, not, ◌||◌, Option, none,
  some, List, [], ◌∷◌, ◌++◌, length, get_elem?, take, drop, Result, ok, err, ◌>>=◌,
}
use aknode.Imesh.Types.{
  Hash, Address, Input, Output, MultiSigOut, Body, TxInfo, Txs, Transaction, or_missing, or_panic,
}

pub data InoutType : Type 0 where
  type_in type_mulin type_ticketin type_out type_mulout type_ticketout : InoutType

-- What the code takes from outside: `tx.Inout2key`, and `sort.Search` of the standard library.
pub record Library : Type 0 where
  pub inout2key : Hash → InoutType → ℕ → ℕ
  pub search : ℕ → (ℕ → Bool) → ℕ

-- The HeaderAddressToTx table. The key is an address, or nil. The keys of inputs and outputs have
-- one length, so that `bytes.Compare` is the order of the numbers that their bytes spell.
abbrev pub Index : Type 0
Index = Option Address → Option (List ℕ)

-- A missing key leaves the list empty.
abbrev pub entries : Index → Option Address → List ℕ
entries ix adr = elim (ix adr) [ none ↦ [] | some hs ↦ hs ]

abbrev pub same_address : Option Address → Option Address → Bool
same_address none none = true
same_address (some a) (some b) = a == b
same_address _ _ = false

abbrev pub put_entries : Index → Option Address → List ℕ → Index
put_entries ix adr hs a = if same_address adr a then some hs else ix a

-- bytes.Compare(hashes[i], h) >= 0
unfoldable pub at_least : List ℕ → ℕ → ℕ → Bool
at_least hashes h i = elim (get_elem? hashes i) [ none ↦ false | some x ↦ leb h x ]

-- i < len(hashes) && bytes.Equal(hashes[i], h)
unfoldable pub is_at : List ℕ → ℕ → ℕ → Bool
is_at hashes h i = elim (get_elem? hashes i) [ none ↦ false | some x ↦ x == h ]

module _ (lib : Library) where
  unfoldable pub add_hash : ℕ → List ℕ → List ℕ
  unfolding at_least is_at
  add_hash add hashes =
      let i = lib.search (length hashes) (at_least hashes add) in
      if is_at hashes add i then hashes else take i hashes ++ add ∷ drop i hashes

  -- A key that is not there is logged, and nothing is removed.
  unfoldable pub del_hash : Option ℕ → List ℕ → List ℕ
  unfolding at_least is_at
  del_hash none hashes = hashes
  del_hash (some del) hashes =
      let i = lib.search (length hashes) (at_least hashes del) in
      if is_at hashes del i then take i hashes ++ drop (suc i) hashes else hashes

  unfoldable pub update_address_to_tx : Option Address → ℕ → Option ℕ → Index → Index
  update_address_to_tx adr add del ix =
      put_entries ix adr (del_hash del (add_hash add (entries ix adr)))

  -- `if tr.TicketInput != nil { … }`
  unfoldable pub put_ticket_input : Txs → Transaction → Option Hash → Index → Result Index
  put_ticket_input db tr none ix = ok ix
  put_ticket_input db tr (some prev) ix = do
    ti ← or_missing (db prev)
    ok (
        update_address_to_tx ti.body.ticket_output (lib.inout2key tr.hash type_ticketin 0)
          (some (lib.inout2key prev type_ticketout 0)) ix)

  -- for i, inp := range tr.Inputs; `byte(i)` wraps.
  unfoldable pub put_inputs : Txs → Transaction → ℕ → List Input → Index → Result Index
  put_inputs db tr i [] ix = ok ix
  put_inputs db tr i (inp ∷ rest) ix = do
    ti ← or_missing (db inp.previous_tx)
    out ← or_panic (get_elem? ti.body.outputs inp.index)
    put_inputs db tr (i + 1) rest (
        update_address_to_tx (some out.address) (lib.inout2key tr.hash type_in (i % 256))
          (some (lib.inout2key inp.previous_tx type_out inp.index)) ix)

  unfoldable pub put_input_address_to_tx : Txs → Transaction → Index → Result Index
  unfolding put_ticket_input put_inputs
  put_input_address_to_tx db tr ix = do
    ix1 ← put_ticket_input db tr tr.body.ticket_input ix
    put_inputs db tr 0 tr.body.inputs ix1

  -- for _, adr := range … .Addresses
  unfoldable pub update_each : List Address → ℕ → Option ℕ → Index → Index
  update_each [] add del ix = ix
  update_each (adr ∷ adrs) add del ix =
      update_each adrs add del (update_address_to_tx (some adr) add del ix)

  unfoldable pub put_multisig_in_address_to_tx :
      Txs → Transaction → ℕ → List Input → Index → Result Index
  put_multisig_in_address_to_tx db tr i [] ix = ok ix
  put_multisig_in_address_to_tx db tr i (inp ∷ rest) ix = do
    ti ← or_missing (db inp.previous_tx)
    out ← or_panic (get_elem? ti.body.multi_sig_outs inp.index)
    put_multisig_in_address_to_tx db tr (i + 1) rest (
        update_each out.addresses (lib.inout2key tr.hash type_mulin (i % 256))
          (some (lib.inout2key inp.previous_tx type_mulout inp.index)) ix)

  unfoldable pub put_ticket_output : Transaction → Option Address → Index → Index
  put_ticket_output tr none ix = ix
  put_ticket_output tr (some adr) ix =
      update_address_to_tx (some adr) (lib.inout2key tr.hash type_ticketout 0) none ix

  unfoldable pub put_outputs : Transaction → ℕ → List Output → Index → Index
  put_outputs tr i [] ix = ix
  put_outputs tr i (out ∷ rest) ix =
      put_outputs tr (i + 1) rest
        (update_address_to_tx (some out.address) (lib.inout2key tr.hash type_out (i % 256)) none ix)

  unfoldable pub put_output_address_to_tx : Transaction → Index → Index
  unfolding put_ticket_output put_outputs
  put_output_address_to_tx tr ix =
      put_outputs tr 0 tr.body.outputs (put_ticket_output tr tr.body.ticket_output ix)

  unfoldable pub put_multisig_out_address_to_tx : Transaction → ℕ → List MultiSigOut → Index → Index
  put_multisig_out_address_to_tx tr i [] ix = ix
  put_multisig_out_address_to_tx tr i (out ∷ rest) ix =
      put_multisig_out_address_to_tx tr (i + 1) rest
        (update_each out.addresses (lib.inout2key tr.hash type_mulout (i % 256)) none ix)

  unfoldable pub put_address_to_tx : Txs → Transaction → Index → Result Index
  put_address_to_tx db tr ix = do
    ix1 ← put_input_address_to_tx db tr ix
    ix2 ← put_multisig_in_address_to_tx db tr 0 tr.body.multi_sig_ins ix1
    ok (
        put_multisig_out_address_to_tx tr 0 tr.body.multi_sig_outs
          (put_output_address_to_tx tr ix2))
