-- ===== src/Imesh/Store.antt =====
-- imesh/db_core.go and imesh/db_multisig.go: how a transaction is stored. `s.DB.Update` drops what
-- its function wrote when the function fails, but the variables of the package keep their values.
pub mod Kept
pub mod Reading
pub mod Referred
pub mod Latest
pub mod Growing
pub mod Arrivals
use aknode.Base.{
  ℕ, zero, suc, ◌+◌, ◌%◌, ◌^◌, ◌==◌, leb, if◌then◌else◌, Bool, true, false, Option, none, some,
  List, [], ◌∷◌, ◌++◌, length, drop, set_cell, Result, ok, err, refused, ◌>>=◌,
}
use aknode.Imesh.Types.{
  Hash, Address, MultiSigOut, OutputStatus, TxInfo, Txs, Transaction, Body, Spend, put, status_at,
  or_missing, or_panic, status_pending,
}
use aknode.Imesh.Tables.{TxType, type_normal, Tables, Memory, InoutHash, sig_key}
use aknode.Imesh.Minable.{with_status, displace}
use aknode.AddressIndex.{Library, type_mulout, put_address_to_tx}

-- What the database answers to the writes of one call of `putTxSub`: it refuses one before the
-- latest transactions change (that the call gets to), it refuses the signatures or the commit, or
-- it takes them all.
pub data Writes : Type 0 where
  refuses_earlier refuses_last takes : Writes

-- What the code takes from outside: `tx.InputHashes` and `AddressByte` of aklib, the library of the
-- index, and the database's answer to a call at a time.
pub record Aklib : Type 0 where
  pub input_hashes : Body → List Spend
  pub address_byte : MultiSigOut → Address
  pub library : Library
  pub writes : ℕ → Transaction → Writes

abbrev pub fresh : OutputStatus
fresh = record { is_referred = false; is_spent = false; used_by_minable = none }

-- make([]OutputStatus, n)
abbrev pub make : ℕ → List OutputStatus
make zero = []
make (suc n) = fresh ∷ make n

abbrev pub ticket_row : Option Address → List OutputStatus
ticket_row none = []
ticket_row (some a) = make 1

-- The record of a new transaction, with the number that `nextTxNo` gives.
unfoldable pub new_info : ℕ → ℕ → Body → TxInfo
new_info now tx_no b = record {
  body = b;
  tx_no = tx_no;
  is_rejected = false;
  stat_no = status_pending;
  received = now;
  output_status =
      make (length b.outputs) ∷ make (length b.multi_sig_outs) ∷ ticket_row b.ticket_output ∷ [];
}

-- txno.TxNo++, a 64-bit number.
unfoldable pub update_tx_no : Memory → Memory
update_tx_no m = record m { tx_no = (m.tx_no + 1) % 2 ^ 64 }

-- Once there are five, the oldest is dropped.
unfoldable pub add_latest : Hash × TxInfo → Memory → Memory
add_latest entry m =
    let kept = if leb 5 (length m.latest_txs) then drop 1 m.latest_txs else m.latest_txs in
    record m { latest_txs = kept ++ entry ∷ [] }

-- Set IsReferred, in a record whose flag is not set.
unfoldable pub set_referred : OutputStatus → TxInfo → Spend → Txs → Txs
set_referred st ti s txs =
    if st.is_referred
    then txs
    else put txs s.previous_tx (with_status ti s (record st { is_referred = true }))

-- The first multisig output with an address is recorded for it; `byte(i)` wraps.
unfoldable pub update_mulsig_address :
    (MultiSigOut → Address)
    → Hash
    → ℕ
    → List MultiSigOut
    → (Address → Option InoutHash)
    → Address
    → Option InoutHash
update_mulsig_address address_byte h i [] table = table
update_mulsig_address address_byte h i (out ∷ outs) table =
    update_mulsig_address address_byte h (i + 1) outs (elim (table (address_byte out)) [
      | some _ ↦ table
      | none ↦ λ a.
          if address_byte out == a
          then some (record { hash = h; kind = type_mulout; index = i % 256 })
          else table a
    ])

-- The end of `putTxSub`: the latest transactions change before the last write and the commit, and
-- stay changed when one of those fails; the database's tables do not.
unfoldable pub finish :
    Writes → Hash × TxInfo → Result Tables → Tables → Memory → Result (Unit {0}) × Tables × Memory
unfolding add_latest
finish refuses_earlier entry r t m = (err refused, t, m)
finish refuses_last entry (err e) t m = (err e, t, m)
finish refuses_last entry (ok t') t m = (err refused, t, add_latest entry m)
finish takes entry (err e) t m = (err e, t, m)
finish takes entry (ok t') t m = (ok tt, t', add_latest entry m)

module _ (lib : Aklib) where
  -- One turn of the loop of `putTxSub`: flag the output, and delete a minable transaction that
  -- wants it. The mark is the one that was read before.
  unfoldable pub refer : Spend → Tables → Result Tables
  unfolding set_referred status_at displace
  refer s t = do
    ti ← or_missing (t.txs s.previous_tx)
    st ← or_panic (status_at ti s)
    displace lib.input_hashes st.used_by_minable (record t { txs = set_referred st ti s t.txs })

  unfoldable pub refer_all : List Spend → Tables → Result Tables
  unfolding refer
  refer_all [] t = ok t
  refer_all (s ∷ ss) t = do t1 ← refer s t; refer_all ss t1

  -- The transaction of the database in `putTxSub`, for the number that was drawn for it, as far as
  -- the database takes its writes; `finish` has what it answers.
  unfoldable pub store_tx : ℕ → ℕ → Transaction → Tables → Result Tables
  unfolding refer_all new_info update_mulsig_address
  store_tx now tx_no tr t = do
    let t0 = record t { saved_no = tx_no; txs = put t.txs tr.hash (new_info now tx_no tr.body) }
    t1 ← refer_all (lib.input_hashes tr.body) t0
    index ← put_address_to_tx lib.library t1.txs tr t1.index
    ok (record t1 {
      index = index;
      multisigs =
          update_mulsig_address lib.address_byte tr.hash 0 tr.body.multi_sig_outs t1.multisigs;
      sigs = λ k. if sig_key tx_no == k then some tr.signatures else t1.sigs k;
    })

  unfoldable pub put_tx_sub :
      ℕ → Transaction → Tables → Memory → Result (Unit {0}) × Tables × Memory
  unfolding store_tx finish update_tx_no new_info
  put_tx_sub now tr t m =
      let m1 = update_tx_no m in
      finish (lib.writes now tr) (tr.hash, new_info now m1.tx_no tr.body)
        (store_tx now m1.tx_no tr t) t m1

  -- `check` is aklib's `tr.Check`.
  unfoldable pub put_tx :
      (Transaction → TxType → Bool)
      → ℕ
      → Transaction
      → Tables
      → Memory
      → Result (Unit {0}) × Tables × Memory
  put_tx check now tr t m =
      if check tr type_normal then put_tx_sub now tr t m else (err refused, t, m)

  -- `PutRawTxDirect`: no flag is set, no index entry is made, and the latest are left alone.
  unfoldable pub put_raw_tx_direct :
      ℕ → Transaction → Tables → Memory → Result (Unit {0}) × Tables × Memory
  unfolding update_tx_no new_info update_mulsig_address
  put_raw_tx_direct now tr t m =
      let m1 = update_tx_no m in
      (
        ok tt,
        record t {
          saved_no = m1.tx_no;
          txs = put t.txs tr.hash (new_info now m1.tx_no tr.body);
          multisigs =
              update_mulsig_address lib.address_byte tr.hash 0 tr.body.multi_sig_outs t.multisigs;
          sigs = λ k. if sig_key m1.tx_no == k then some tr.signatures else t.sigs k;
        },
        m1,
      )
