-- ===== src/Imesh/Types.antt =====
-- The records that imesh/db_core.go keeps for a transaction, with the parts of a transaction's body
-- (aklib's `tx.Body`) that the code reads, and the table of them in the database.
use aknode.Base.{
  ℕ, ◌==◌, if◌then◌else◌, Bool, not, ◌&&◌, Option, none, some, List, [], ◌∷◌, ◌++◌, map, Result, ok,
  err, key_not_found, panic, cell?, set_cell, ◌>>=◌, ◌≡◌,
}

-- A 32-byte hash is the number that its bytes spell, so `bytes.Compare` is the order of numbers.
abbrev pub Hash : Type 0
Hash = ℕ

-- An address, as the number that its bytes spell.
abbrev pub Address : Type 0
Address = ℕ

-- tx.Input and tx.MultiSigIn, as far as the store reads them.
pub record Input : Type 0 where
  pub previous_tx : Hash
  pub index : ℕ

pub record Output : Type 0 where
  pub address : Address
  pub value : ℕ

pub record MultiSigOut : Type 0 where
  pub addresses : List Address
  pub value : ℕ

pub record Body : Type 0 where
  pub parent : List Hash
  pub inputs : List Input
  pub multi_sig_ins : List Input
  pub ticket_input : Option Hash
  pub outputs : List Output
  pub multi_sig_outs : List MultiSigOut
  pub ticket_output : Option Address

-- The tables of the database that hold transactions (aklib's `db.Header`), by the names of its
-- constants.
pub data Header : Type 0 where
  header_tx_info header_tx_reward_ticket header_tx_reward_fee : Header

-- UsedByMinable: the hash of a minable transaction and the header of its table.
pub record OutputStatus : Type 0 where
  pub is_referred : Bool
  pub is_spent : Bool
  pub used_by_minable : Option (Hash × Header)

-- StatNo is a 32-byte number; StatusPending is 0.
abbrev pub StatNo : Type 0
StatNo = ℕ

abbrev pub status_pending : StatNo
status_pending = 0

abbrev pub status_genesis : StatNo
status_genesis = 0xffffffffffffffffffffffffffffffffffffffffffffffffffffffffffffff00

-- `output_status` has a row for each of TypeIn, TypeMulin and TypeTicketin.
pub record TxInfo : Type 0 where
  pub body : Body
  pub tx_no : ℕ
  pub is_rejected : Bool
  pub stat_no : StatNo
  pub received : ℕ
  pub output_status : List (List OutputStatus)

unfoldable pub is_confirmed : TxInfo → Bool
is_confirmed ti = not (ti.stat_no == status_pending)

unfoldable pub is_accepted : TxInfo → Bool
is_accepted ti = not (ti.stat_no == status_pending) && not ti.is_rejected

-- The HeaderTxInfo table. `db.Get` of a missing key is badger.ErrKeyNotFound.
abbrev pub Txs : Type 0
Txs = Hash → Option TxInfo

abbrev pub or_missing {ℓ} : {A : Type ℓ} → Option A → Result A
or_missing none = err key_not_found
or_missing (some a) = ok a

-- An index out of range panics.
abbrev pub or_panic {ℓ} : {A : Type ℓ} → Option A → Result A
or_panic none = err panic
or_panic (some a) = ok a

pub or_missing-eq-ok {ℓ} : {A : Type ℓ} (o : Option A) {a : A} → or_missing o ≡ ok a → o ≡ some a
or_missing-eq-ok none e = cc
or_missing-eq-ok (some x) e = cc

pub or_panic-eq-ok {ℓ} : {A : Type ℓ} (o : Option A) {a : A} → or_panic o ≡ ok a → o ≡ some a
or_panic-eq-ok none e = cc
or_panic-eq-ok (some x) e = cc

abbrev pub put : Txs → Hash → TxInfo → Txs
put db h ti k = if h == k then some ti else db k

-- An output as confirmation sees it: the transaction, the row of `output_status` and the index.
pub record Spend : Type 0 where
  pub previous_tx : Hash
  pub slot : ℕ
  pub index : ℕ

abbrev pub ticket_list : Option Hash → List Hash
ticket_list none = []
ticket_list (some h) = h ∷ []

-- The transactions that the loops over Parent, Inputs, MultiSigIns and the `if` on TicketInput
-- visit, in that order.
unfoldable pub references : Body → List Hash
references b =
    b.parent
    ++ (map (λ i. i.previous_tx) b.inputs
        ++ (map (λ i. i.previous_tx) b.multi_sig_ins ++ ticket_list b.ticket_input))

-- The outputs that the loops over Inputs, MultiSigIns and the `if` on TicketInput read, in order,
-- with the literal rows 0, 1 and 2.
unfoldable pub spends : Body → List Spend
spends b =
    map (λ (i : Input). record { previous_tx = i.previous_tx; slot = 0; index = i.index }) b.inputs
    ++ (map (λ (i : Input). record { previous_tx = i.previous_tx; slot = 1; index = i.index })
          b.multi_sig_ins
        ++ map (λ (h : Hash). record { previous_tx = h; slot = 2; index = 0 })
            (ticket_list b.ticket_input))

unfoldable pub status_at : TxInfo → Spend → Option OutputStatus
status_at ti s = cell? ti.output_status s.slot s.index

-- pti.OutputStatus[slot][index].IsSpent = v
unfoldable pub set_spent : TxInfo → Spend → Bool → Result TxInfo
unfolding status_at
set_spent pti s v = do
  st ← or_panic (status_at pti s)
  ok (record pti {
    output_status = set_cell pti.output_status s.slot s.index (record st { is_spent = v });
  })

-- tx.Transaction: `hash` is what `tr.Hash()` of aklib returns. The signatures are stored and given
-- back, and never read.
pub record Transaction : Type 0 where
  pub hash : Hash
  pub body : Body
  pub signatures : ℕ
