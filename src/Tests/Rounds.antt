-- ===== src/Tests/Rounds.antt =====
-- A small store: a genesis transaction with one output, two pending transactions that both spend
-- it, and a pending transaction that has both for parents.
use aknode.Base.{
  err, refused, some, In, Bool-cases, inl, inr, subst, sym, ◌∙◌, ℕ, ◌+◌, ◌*◌, ◌==◌, if◌then◌else◌,
  true, false, List, [], ◌∷◌, none, ok, ◌≡◌, refl, arith, contains, ◌||◌, lookup, insert, cell?,
  set_cell, add,
}
use aknode.Imesh.Types.{
  Hash, Txs, TxInfo, Body, Input, OutputStatus, Spend, put, references, spends, is_accepted,
  is_confirmed, status_at, set_spent, status_genesis,
}
use aknode.Imesh.Confirm.{
  visit_all, any_blocked, mark, mark_all, settled, settle, confirm_pending, confirm,
}
use aknode.Imesh.Confirm.Effects.{accepted}
use aknode.Imesh.Confirm.Marks.{verdict}
use aknode.Imesh.Confirm.Spending.{NoDoubleSpend}
use aknode.Imesh.Confirm.Writes.{IsRanked}
use aknode.Imesh.Conflict.{
  add_all, merge_refs, merge, gather, claim, claim_all, check_conflict, Claims,
}
use aknode.Imesh.Rounds.{update, confirm_checked, confirm_in, confirm_from}
use aknode.Imesh.Rounds.Safety.{confirms, reverts, play, play-NoDoubleSpend}
use aknode.Imesh.Rounds.Total.{IsWhole}
use aknode.Imesh.Rounds.Returns.{confirm_in_total}
use aknode.Imesh.Rounds.Verdicts.{Change, confirmed_at, confirm_from-Change}
use aknode.Imesh.Conflict.Rivals.{IsKeying, IsFair, check_conflict-IsFair}
use aknode.Imesh.Conflict.Merge.{loses, least, contains-merge, lookup-merge}
use aknode.Imesh.Rounds.Growth.{
  no_txs, no_txs-IsRanked, no_txs-IsWhole, no_txs-NoDoubleSpend, put-IsRanked, put-IsWhole,
  put-NoDoubleSpend,
}

abbrev pub plain : List Hash → List Input → Body
plain parent inputs = record {
  parent = parent;
  inputs = inputs;
  multi_sig_ins = [];
  ticket_input = none;
  outputs = record { address = 1; value = 5 } ∷ [];
  multi_sig_outs = [];
  ticket_output = none;
}

abbrev unspent : OutputStatus
unspent = record { is_referred = false; is_spent = false; used_by_minable = none }

abbrev pub info : Body → ℕ → TxInfo
info body tx_no = record {
  body = body;
  tx_no = tx_no;
  is_rejected = false;
  stat_no = 0;
  received = 0;
  output_status = (unspent ∷ []) ∷ [] ∷ [] ∷ [];
}

abbrev genesis : TxInfo
genesis = record (info (plain [] []) 1) { stat_no = status_genesis }

abbrev pub spender : ℕ → TxInfo
spender = info (plain [] (record { previous_tx = 100; index = 0 } ∷ []))

abbrev store0 : Txs
store0 = put no_txs 100 genesis

abbrev store1 : Txs
store1 = put store0 10 (spender 2)

abbrev store2 : Txs
store2 = put store1 20 (spender 3)

abbrev pub store : Txs
store = put store2 30 (info (plain (10 ∷ 20 ∷ []) []) 4)

abbrev pub rank : Hash → ℕ
rank k = if k == 100 then 0 else if k == 30 then 2 else 1

abbrev pub serialize : Spend → ℕ
serialize s = s.previous_tx * 65536 + s.slot * 256 + s.index

pub store-IsRanked : IsRanked rank store
unfolding references
store-IsRanked =
    put-IsRanked store2 30 _ rank
      (put-IsRanked store1 20 _ rank
        (put-IsRanked store0 10 _ rank
          (put-IsRanked no_txs 100 _ rank (no_txs-IsRanked rank) (omega arith)) (omega arith))
        (omega arith))
      (omega arith)

-- The smaller hash wins the output, and the larger is rejected.
confirm_store : (confirm_from serialize 3 30 7 store).0 ≡ ok (10 ∷ 20 ∷ 30 ∷ [])
unfolding set_cell status_at settled confirm_from confirm_in confirm_checked update check_conflict
    gather merge claim_all claim add_all merge_refs confirm confirm_pending visit_all settle
    any_blocked mark_all mark set_spent references spends is_confirmed is_accepted insert lookup
    contains cell? add
confirm_store = refl

store0-IsWhole : IsWhole store0
unfolding references spends
store0-IsWhole =
    put-IsWhole no_txs 100 genesis refl no_txs-IsWhole (λ p m. absurd m) (λ s m. absurd m)

store1-IsWhole : IsWhole store1
unfolding references spends status_at cell?
store1-IsWhole =
    put-IsWhole store0 10 (spender 2) refl store0-IsWhole (λ p m. (genesis.body, ground arith))
      (λ s m. (false, ground arith))

store2-IsWhole : IsWhole store2
unfolding references spends status_at cell?
store2-IsWhole =
    put-IsWhole store1 20 (spender 3) refl store1-IsWhole (λ p m. (genesis.body, ground arith))
      (λ s m. (false, ground arith))

store-IsWhole : IsWhole store
unfolding references spends
store-IsWhole =
    put-IsWhole store2 30 (info (plain (10 ∷ 20 ∷ []) []) 4) refl store2-IsWhole
      (λ p m. ((spender 2).body, ground arith)) (λ s m. absurd m)

pub store-NoDoubleSpend : NoDoubleSpend store
unfolding accepted spends
store-NoDoubleSpend =
    put-NoDoubleSpend store2 30 (info (plain (10 ∷ 20 ∷ []) []) 4) refl (λ s g m. cc)
      (put-NoDoubleSpend store1 20 (spender 3) refl (λ s g m. cc)
        (put-NoDoubleSpend store0 10 (spender 2) refl (λ s g m. cc)
          (put-NoDoubleSpend no_txs 100 genesis refl (λ s g m. m) no_txs-NoDoubleSpend)))

play-NoDoubleSpend_example :
    NoDoubleSpend (play serialize 3 store (confirms 30 7 ∷ reverts 30 7 ∷ confirms 20 8 ∷ []))
play-NoDoubleSpend_example =
    play-NoDoubleSpend rank serialize 3 store (confirms 30 7 ∷ reverts 30 7 ∷ confirms 20 8 ∷ [])
      store-IsRanked store-NoDoubleSpend
      ((λ e. omega arith), ((λ e. omega arith), ((λ e. omega arith), tt)))

confirm_in_total_example :
    ((hs : List Hash) × ((confirm_in true serialize 3 30 7 store).0 ≡ ok hs))
    × (confirm_in false serialize 3 30 7 store ≡ (err refused, store))
confirm_in_total_example =
    confirm_in_total rank serialize store store-IsRanked store-IsWhole 3 30 7
      (plain (10 ∷ 20 ∷ []) []) refl (omega arith)

abbrev confirmed_store : Txs
confirmed_store = (confirm_from serialize 3 30 7 store).1

confirm_from_returns :
    confirm_from serialize 3 30 7 store ≡ (ok (10 ∷ 20 ∷ 30 ∷ []), confirmed_store)
confirm_from_returns = λ i. (confirm_store i, confirmed_store)

confirm_from-Change_example :
    (c : Claims) × (visited : List Hash) × (check_conflict serialize 3 store 30 []
      ≡ ok (c, visited))
    × ((k : Hash)
        → Change
            (contains (10 ∷ 20 ∷ 30 ∷ []) k)
            c.conflicts
            7
            k
            (verdict store k)
            (verdict confirmed_store k))
    × (confirmed_at (verdict confirmed_store 30) ≡ true)
confirm_from-Change_example =
    confirm_from-Change rank serialize 3 30 7 store confirmed_store (10 ∷ 20 ∷ 30 ∷ [])
      store-IsRanked (λ e. omega arith) confirm_from_returns

check_store :
    check_conflict serialize 3 store 30 []
    ≡ ok (record { base = (6553600, 10) ∷ []; conflicts = 20 ∷ [] }, 30 ∷ 20 ∷ 10 ∷ [])
unfolding check_conflict gather merge claim_all claim add_all merge_refs references spends insert
    lookup contains add
check_store = refl

abbrev disputed : Spend
disputed = record { previous_tx = 100; slot = 0; index = 0 }

only_disputed-put :
    (db : Txs) (h : Hash) (new : TxInfo)
    → ((s : Spend) → In s (spends new.body) → s ≡ disputed)
    → ((x : Hash)
        → (ti : TxInfo) → db x ≡ some ti
        → (s : Spend) → In s (spends ti.body)
        → s ≡ disputed)
    → (x : Hash) → (ti : TxInfo) → put db h new x ≡ some ti
    → (s : Spend) → In s (spends ti.body)
    → s ≡ disputed
only_disputed-put db h new first rest x ti at s m = elim (Bool-cases (h == x)) [
  | inl e ↦
      let same : ti ≡ new = cc (rw e at at) in
      first s (subst (λ (t : TxInfo). In s (spends t.body)) same m)
  | inr e ↦ rest x ti (rw e at at) s m
]

disputes : (no : ℕ) (s : Spend) → In s (spends (spender no).body) → s ≡ disputed
unfolding spends
disputes n s (inl e) = e
disputes n s (inr m) = absurd m

only_disputed_lem :
    (x : Hash) (ti : TxInfo)
    → store x ≡ some ti
    → (s : Spend) → In s (spends ti.body)
    → s ≡ disputed
unfolding spends
only_disputed_lem =
    only_disputed-put store2 30 _ (λ s m. absurd m)
      (only_disputed-put store1 20 _ (disputes 3) (
        only_disputed-put store0 10 _ (disputes 2)
          (only_disputed-put no_txs 100 _ (λ s m. absurd m) (λ x ti e. cc))))

store-IsKeying : IsKeying serialize store
store-IsKeying = record {
  apart = λ x y ti tj s t at at' m m' e.
      only_disputed_lem x ti at s m ∙ sym (only_disputed_lem y tj at' t m');
}

check_conflict-IsFair_example :
    IsFair serialize store (record { base = (6553600, 10) ∷ []; conflicts = 20 ∷ [] })
check_conflict-IsFair_example =
    check_conflict-IsFair serialize store 3 30 []
      (record { base = (6553600, 10) ∷ []; conflicts = 20 ∷ [] }, 30 ∷ 20 ∷ 10 ∷ []) store-IsKeying
      check_store

contains-merge_example :
    contains
      (merge
        (record { base = (1, 5) ∷ []; conflicts = [] })
        ((1, 3) ∷ (2, 9) ∷ [])
        (8 ∷ [])).conflicts
      5
    ≡ (contains [] 5 || contains (8 ∷ []) 5 || loses ((1, 3) ∷ (2, 9) ∷ []) ((1, 5) ∷ []) 5)
unfolding lookup
contains-merge_example =
    contains-merge 5 (record { base = (1, 5) ∷ []; conflicts = [] }) ((1, 3) ∷ (2, 9) ∷ []) (8 ∷ [])
      (refl, (refl, tt))

lookup-merge_example :
    lookup 1
      (merge (record { base = (1, 5) ∷ []; conflicts = [] }) ((1, 3) ∷ (2, 9) ∷ []) (8 ∷ [])).base
    ≡ least (lookup 1 ((1, 5) ∷ [])) (lookup 1 ((1, 3) ∷ (2, 9) ∷ []))
unfolding lookup
lookup-merge_example =
    lookup-merge 1 (record { base = (1, 5) ∷ []; conflicts = [] }) ((1, 3) ∷ (2, 9) ∷ []) (8 ∷ [])
      (refl, (refl, tt))
