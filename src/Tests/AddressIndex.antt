-- ===== src/Tests/AddressIndex.antt =====
-- A linear search, and a transaction that spends one output and has two.
use aknode.Base.{
  ℕ, zero, suc, ◌+◌, ◌*◌, ◌<◌, ◌≤◌, ◌==◌, if◌then◌else◌, Bool, true, false, none, some, List, [],
  ◌∷◌, ok, ◌≡◌, refl, arith, Bool-cases, inl, inr,
}
use aknode.Imesh.Types.{Txs, Body, Transaction, Input, Output, MultiSigOut, put}
use aknode.AddressIndex.{
  InoutType, type_in, type_mulin, type_ticketin, type_out, type_mulout, type_ticketout, Library,
  Index, entries, at_least, is_at, add_hash, del_hash, update_address_to_tx, put_ticket_input,
  put_inputs, put_input_address_to_tx, update_each, put_multisig_in_address_to_tx,
  put_ticket_output, put_outputs, put_output_address_to_tx, put_multisig_out_address_to_tx,
  put_address_to_tx,
}
use aknode.AddressIndex.Sorted.{IsSearch}
use aknode.AddressIndex.Covers.{AllSorted, put_address_to_tx-AllSorted}
use aknode.AddressIndex.Entered.{has, multisig_output, has-put_address_to_tx}
use aknode.Imesh.Rounds.Growth.{no_txs}

unfoldable pub search : ℕ → (ℕ → Bool) → ℕ
search zero f = 0
search (suc n) f = let rest = search n (λ i. f (suc i)) in if f 0 then 0 else suc rest

search_found : (n : ℕ) (f : ℕ → Bool) → search n f < n → f (search n f) ≡ true
unfolding search
search_found zero f lt = absurd (omega arith)
search_found (suc n) f lt = elim (Bool-cases (f 0)) [
  | inl e ↦ rw e e
  | inr e ↦ let later = rw e at lt in rw e (search_found n (λ i. f (suc i)) (omega (arith, later)))
]

passed_from :
    (k : ℕ) (f : ℕ → Bool) (i : ℕ)
    → f 0 ≡ false
    → ((j : ℕ) → j < k → f (suc j) ≡ false)
    → i < suc k
    → f i ≡ false
passed_from k f zero e later lt = e
passed_from k f (suc i) e later lt = later i (omega (arith, lt))

search_passed : (n : ℕ) (f : ℕ → Bool) (i : ℕ) → i < search n f → f i ≡ false
unfolding search
search_passed zero f i lt = absurd (omega arith)
search_passed (suc n) f i lt = elim (Bool-cases (f 0)) [
  | inl e ↦ absurd (omega (arith, rw e at lt))
  | inr e ↦
      passed_from (search n (λ i. f (suc i))) f i e (λ j. search_passed n (λ i. f (suc i)) j)
        (rw e at lt)
]

search_bounded : (n : ℕ) (f : ℕ → Bool) → search n f ≤ n
unfolding search
search_bounded zero f = omega arith
search_bounded (suc n) f = ground (arith, search_bounded n (λ i. f (suc i)))

search-IsSearch : IsSearch search
search-IsSearch = record {
  above = λ n f up. search_found n f;
  below = λ n f up. search_passed n f;
  bounded = search_bounded;
}

abbrev code : InoutType → ℕ
code type_in = 0
code type_mulin = 1
code type_ticketin = 2
code type_out = 3
code type_mulout = 4
code type_ticketout = 5

abbrev pub library : Library
library = record { inout2key = λ h t i. (h * 6 + code t) * 256 + i; search = search }

abbrev body : List Input → List Output → Body
body inputs outputs = record {
  parent = [];
  inputs = inputs;
  multi_sig_ins = [];
  ticket_input = none;
  outputs = outputs;
  multi_sig_outs = [];
  ticket_output = none;
}

abbrev store : Txs
store = put no_txs 9 (record {
  body = body [] (record { address = 1; value = 5 } ∷ []);
  tx_no = 1;
  is_rejected = false;
  stat_no = 0;
  received = 0;
  output_status = [];
})

abbrev payment : Transaction
payment = record {
  hash = 4;
  signatures = 0;
  body =
      body (record { previous_tx = 9; index = 0 } ∷ [])
        (record { address = 1; value = 2 } ∷ record { address = 2; value = 3 } ∷ []);
}

abbrev before : Index
before none = none
before (some a) = if a == 1 then some (14592 ∷ []) else none

before-AllSorted : AllSorted before
before-AllSorted none = tt
before-AllSorted (some a) = elim (Bool-cases (a == 1)) [
  | inl e ↦ rw (e, entries) (tt, tt)
  | inr e ↦ rw (e, entries) tt
]

abbrev after : Index
after = update_address_to_tx library (some 2) 6913 none (
    update_address_to_tx library (some 1) 6912 none
      (update_address_to_tx library (some 1) 6144 (some 14592) before))

put_run : put_address_to_tx library store payment before ≡ ok after
unfolding put_address_to_tx put_input_address_to_tx put_ticket_input put_inputs
    put_multisig_in_address_to_tx put_output_address_to_tx put_ticket_output put_outputs
    put_multisig_out_address_to_tx
put_run = refl

put_address_to_tx-AllSorted_example : AllSorted after
put_address_to_tx-AllSorted_example =
    put_address_to_tx-AllSorted library search-IsSearch store payment before after put_run
      before-AllSorted

-- It has two multisig outputs, the second of two addresses, and a ticket output.
abbrev two_signers : MultiSigOut
two_signers = record { addresses = 1 ∷ 3 ∷ []; value = 2 }

abbrev grant : Transaction
grant = record {
  hash = 5;
  signatures = 0;
  body = record {
    parent = [];
    inputs = record { previous_tx = 9; index = 0 } ∷ [];
    multi_sig_ins = [];
    ticket_input = none;
    outputs = [];
    multi_sig_outs = record { addresses = 8 ∷ []; value = 3 } ∷ two_signers ∷ [];
    ticket_output = some 7;
  };
}

abbrev granted : Index
granted = update_address_to_tx library (some 3) 8705 none (
    update_address_to_tx library (some 1) 8705 none (
      update_address_to_tx library (some 8) 8704 none (
        update_address_to_tx library (some 7) 8960 none
          (update_address_to_tx library (some 1) 7680 (some 14592) before))))

grant_run : put_address_to_tx library store grant before ≡ ok granted
unfolding put_address_to_tx put_input_address_to_tx put_ticket_input put_inputs
    put_multisig_in_address_to_tx put_output_address_to_tx put_ticket_output put_outputs
    put_multisig_out_address_to_tx update_each
grant_run = refl

has-put_address_to_tx_example : has granted (some 3) 8705 ≡ true
has-put_address_to_tx_example =
    has-put_address_to_tx library search-IsSearch store grant before granted 3 8705 before-AllSorted
      grant_run (multisig_output 1 two_signers 3 refl (inr (inl refl)))

-- The spent output leaves the list of its address.
spent_gone : entries after (some 1) ≡ 6144 ∷ 6912 ∷ []
unfolding update_address_to_tx add_hash del_hash at_least is_at search
spent_gone = refl
