-- ===== src/Tests/Store.antt =====
-- A genesis transaction with two outputs; one that arrives and spends the first, and a minable one
-- that spends the second.
use aknode.Base.{
  ℕ, List, map, contains, ◌||◌, ◌==◌, if◌then◌else◌, false, [], ◌∷◌, ◌++◌, none, some, ok, ◌≡◌,
  refl, arith, Bool-cases, inl, inr, lookup, cell?, set_cell, In,
}
use aknode.Imesh.Types.{
  TxInfo, Body, Transaction, put, references, spends, status_at, status_genesis,
}
use aknode.Imesh.Confirm.Spending.{NoDoubleSpend}
use aknode.Imesh.Rounds.Total.{IsWhole}
use aknode.Imesh.Rounds.Safety.{confirms}
use aknode.Imesh.Rounds.Growth.{
  no_txs, no_txs-IsRanked, no_txs-IsWhole, no_txs-NoDoubleSpend, put-IsRanked, put-IsWhole,
  put-NoDoubleSpend,
}
use aknode.Imesh.Tables.{Tables, Memory, type_reward_fee, sig_key, get_tx, has}
use aknode.Imesh.Minable.{none_referred, get_minable, get_minable_tx, is_minable_tx_valid, displace}
use aknode.Imesh.Store.{
  Aklib, refuses_last, takes, put_tx_sub, finish, store_tx, refer, refer_all, set_referred,
  add_latest, update_tx_no, new_info, update_mulsig_address,
}
use aknode.Imesh.Store.Reading.{
  IsNumbered, get_tx-put_tx_sub, get_tx-put_tx_sub_other, put_tx_sub-IsNumbered,
}
use aknode.Imesh.Store.Referred.{get_minable_tx-put_tx_sub}
use aknode.Imesh.Store.Latest.{last_five, arrive, listed, latest-arrive}
use aknode.Imesh.Store.Growing.{put_tx_sub-IsWhole}
use aknode.Imesh.Store.Arrivals.{stored, has-arrive}
use aknode.Imesh.Ledger.{arrival, consensus, history, history-NoDoubleSpend}
use aknode.AddressIndex.{
  at_least, is_at, add_hash, del_hash, update_address_to_tx, put_ticket_input, put_inputs,
  put_input_address_to_tx, update_each, put_multisig_in_address_to_tx, put_ticket_output,
  put_outputs, put_output_address_to_tx, put_multisig_out_address_to_tx, put_address_to_tx,
}
use aknode.Tests.AddressIndex.{search, library}
use aknode.Tests.Rounds.{plain, info, rank, serialize}

-- The database refuses the commits at the time 13, and takes all other writes.
abbrev pub lib : Aklib
lib = record {
  input_hashes = spends;
  address_byte = λ o. o.value;
  library = library;
  writes = λ now tr. if now == 13 then refuses_last else takes;
}

abbrev pub two_outputs : Body
two_outputs = record (plain [] []) {
  outputs = record { address = 1; value = 5 } ∷ record { address = 2; value = 6 } ∷ [];
}

abbrev pub first : TxInfo
first = record (info two_outputs 1) {
  stat_no = status_genesis;
  output_status =
      (record { is_referred = false; is_spent = false; used_by_minable = none }
        ∷ record { is_referred = false; is_spent = false; used_by_minable = none }
        ∷ [])
      ∷ []
      ∷ []
      ∷ [];
}

abbrev pub arriving : Transaction
arriving = record {
  hash = 10;
  body = plain (100 ∷ []) (record { previous_tx = 100; index = 0 } ∷ []);
  signatures = 77;
}

abbrev minable : Transaction
minable = record {
  hash = 50;
  body = plain (100 ∷ []) (record { previous_tx = 100; index = 1 } ∷ []);
  signatures = 78;
}

abbrev pub tables : Tables
tables = record {
  txs = put no_txs 100 first;
  sigs = λ k. if k == 1 then some 76 else none;
  index = λ a. none;
  multisigs = λ a. none;
  fees = (50, minable) ∷ [];
  tickets = [];
  saved_no = 1;
}

abbrev pub memory : Memory
memory = record { tx_no = 1; latest_txs = (100, first) ∷ [] }

it-stored : (put_tx_sub lib 9 arriving tables memory).0 ≡ ok tt
unfolding put_tx_sub finish store_tx refer_all refer set_referred displace new_info update_tx_no
    add_latest update_mulsig_address spends status_at cell? set_cell at_least is_at add_hash
    del_hash update_address_to_tx put_ticket_input put_inputs put_input_address_to_tx update_each
    put_multisig_in_address_to_tx put_ticket_output put_outputs put_output_address_to_tx
    put_multisig_out_address_to_tx put_address_to_tx search
it-stored = refl

get_tx-put_tx_sub_example : get_tx (put_tx_sub lib 9 arriving tables memory).1 10 ≡ ok arriving
get_tx-put_tx_sub_example = get_tx-put_tx_sub lib 9 arriving tables memory it-stored

tables-IsNumbered : IsNumbered tables memory
tables-IsNumbered k = elim (Bool-cases (100 == k)) [
  | inl same ↦ rw same (omega arith)
  | inr other ↦ rw other tt
]

get_tx-put_tx_sub_other_example :
    get_tx (put_tx_sub lib 9 arriving tables memory).1 100 ≡ get_tx tables 100
get_tx-put_tx_sub_other_example =
    get_tx-put_tx_sub_other lib 9 arriving tables memory 100 (λ e. omega (arith, e))
      tables-IsNumbered (omega arith) it-stored

genesis_read : get_tx tables 100 ≡ ok (record { hash = 100; body = two_outputs; signatures = 76 })
unfolding get_tx sig_key
genesis_read = refl

put_tx_sub-IsNumbered_example :
    IsNumbered
      (put_tx_sub lib 9 arriving tables memory).1
      (put_tx_sub lib 9 arriving tables memory).2
put_tx_sub-IsNumbered_example =
    put_tx_sub-IsNumbered lib 9 arriving tables memory tables-IsNumbered (omega arith)

minable_given :
    get_minable_tx lib.input_hashes 50 type_reward_fee (put_tx_sub lib 9 arriving tables memory).1
    ≡ ok minable
unfolding get_minable_tx get_minable is_minable_tx_valid none_referred lookup put_tx_sub finish
    store_tx refer_all refer set_referred displace new_info update_tx_no add_latest
    update_mulsig_address spends status_at cell? set_cell at_least is_at add_hash del_hash
    update_address_to_tx put_ticket_input put_inputs put_input_address_to_tx update_each
    put_multisig_in_address_to_tx put_ticket_output put_outputs put_output_address_to_tx
    put_multisig_out_address_to_tx put_address_to_tx search
minable_given = refl

get_minable_tx-put_tx_sub_example :
    ¬ In (record { previous_tx = 100; slot = 0; index = 0 }) (lib.input_hashes minable.body)
unfolding spends
get_minable_tx-put_tx_sub_example =
    get_minable_tx-put_tx_sub lib 9 arriving tables memory 50 type_reward_fee minable
      (record { previous_tx = 100; slot = 0; index = 0 }) it-stored minable_given (inl refl)

-- The commit of the first is refused, and the second is stored.
abbrev two_arrive : List (ℕ × Transaction)
two_arrive = (13, arriving) ∷ (14, minable) ∷ []

latest-arrive_example :
    (arrive lib two_arrive tables memory).1.latest_txs
    ≡ last_five (memory.latest_txs ++ listed lib two_arrive tables memory)
latest-arrive_example = latest-arrive lib two_arrive tables memory (omega arith)

only_second : stored lib two_arrive tables memory ≡ 50 ∷ []
unfolding stored put_tx_sub finish store_tx refer_all refer set_referred displace new_info
    update_tx_no add_latest update_mulsig_address spends status_at cell? set_cell at_least is_at
    add_hash del_hash update_address_to_tx put_ticket_input put_inputs put_input_address_to_tx
    update_each put_multisig_in_address_to_tx put_ticket_output put_outputs put_output_address_to_tx
    put_multisig_out_address_to_tx put_address_to_tx search
only_second = refl

both_listed : map (λ e. e.0) (listed lib two_arrive tables memory) ≡ 10 ∷ 50 ∷ []
unfolding listed put_tx_sub finish store_tx refer_all refer set_referred displace new_info
    update_tx_no add_latest update_mulsig_address spends status_at cell? set_cell at_least is_at
    add_hash del_hash update_address_to_tx put_ticket_input put_inputs put_input_address_to_tx
    update_each put_multisig_in_address_to_tx put_ticket_output put_outputs put_output_address_to_tx
    put_multisig_out_address_to_tx put_address_to_tx search
both_listed = refl

has-arrive_example :
    has (arrive lib two_arrive tables memory).0.txs 10
    ≡ (has tables.txs 10 || contains (stored lib two_arrive tables memory) 10)
has-arrive_example = has-arrive lib two_arrive tables memory 10

tables-IsWhole : IsWhole tables.txs
unfolding references spends
tables-IsWhole =
    put-IsWhole no_txs 100 first refl no_txs-IsWhole (λ p m. absurd m) (λ s m. absurd m)

put_tx_sub-IsWhole_example : IsWhole (put_tx_sub lib 9 arriving tables memory).1.txs
unfolding references spends status_at cell?
put_tx_sub-IsWhole_example =
    put_tx_sub-IsWhole lib 9 arriving tables memory it-stored refl
      (λ p m. (two_outputs, ground arith)) (λ s m. (false, ground arith)) tables-IsWhole

history-NoDoubleSpend_example :
    NoDoubleSpend
      (history lib serialize 3
        (arrival 9 arriving ∷ consensus (confirms 10 7) ∷ [])
        (tables, memory)).0.txs
unfolding references spends
history-NoDoubleSpend_example =
    history-NoDoubleSpend lib rank serialize 3 (arrival 9 arriving ∷ consensus (confirms 10 7) ∷ [])
      (tables, memory) (put-IsRanked no_txs 100 first rank (no_txs-IsRanked rank) tt)
      (put-NoDoubleSpend no_txs 100 first refl (λ s g m. m) no_txs-NoDoubleSpend)
      (((omega arith), ((omega arith), tt)), ((λ e. omega arith), tt))
