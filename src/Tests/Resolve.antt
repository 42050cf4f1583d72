-- ===== src/Tests/Resolve.antt =====
-- Two waiting transactions, of which one refers to the other, and that to a stored one.
use aknode.Base.{
  Result, ℕ, ◌==◌, ==_iff, if◌then◌else◌, true, false, ◌&&◌, List, [], ◌∷◌, none, some, ok, ◌≡◌,
  refl, subst, arith, Bool-cases, inl, inr, lookup, insert, contains, cell?, set_cell, All,
}
use aknode.Imesh.Types.{Hash, Transaction, spends, status_at}
use aknode.Imesh.Tables.{TxType, type_normal, has, get_tx_func, get_tx_info}
use aknode.Imesh.Minable.{displace}
use aknode.Imesh.Store.{
  put_tx, put_tx_sub, finish, store_tx, refer, refer_all, set_referred, add_latest, update_tx_no,
  new_info, update_mulsig_address,
}
use aknode.Imesh.Resolve.{
  prevs, UnresolvedTx, Finder, Outside, kinds, save, change, put_broken_tx, delete_unresolved_tx,
  want, inherit, visited_then, walk, remaining, reported, add_normal, add_resolved, settle_entry,
  resolved, conclude, walked, dfs, is_resolved, resolve,
}
use aknode.Imesh.Resolve.Adding.{lands}
use aknode.Imesh.Resolve.Settled.{all_stored, IsFiled}
use aknode.Imesh.Resolve.Flags.{IsRanked, RankedEntry}
use aknode.Imesh.Resolve.Returns.{resolve_total}
use aknode.Imesh.Startup.{init}
use aknode.Imesh.Startup.Restored.{rested, init_restores}
use aknode.Imesh.Resolve.Calls.{IsUnseen, prevs_at}
use aknode.Imesh.Resolve.Reports.{resolve-reported}
use aknode.Leaves
use aknode.Leaves.{
  is_visited, visit, visit_each, enter, used, all_used, leaves_of, check_add, check_add_end,
}
use aknode.AddressIndex.{
  at_least, is_at, add_hash, del_hash, update_address_to_tx, put_ticket_input, put_inputs,
  put_input_address_to_tx, update_each, put_multisig_in_address_to_tx, put_ticket_output,
  put_outputs, put_output_address_to_tx, put_multisig_out_address_to_tx, put_address_to_tx,
}
use aknode.Tests.AddressIndex.{search}
use aknode.Tests.Rounds.{plain}
use aknode.Tests.Store.{lib, arriving, tables, memory}

abbrev later : Transaction
later = record {
  hash = 20;
  body = plain (10 ∷ []) (record { previous_tx = 10; index = 0 } ∷ []);
  signatures = 80;
}

abbrev pub out : Outside
out = record {
  lib = lib;
  check = λ tr kind. true;
  check_all = λ get tr kind. true;
  nil_array = 0;
  now = 9;
}

abbrev waits : List Hash → UnresolvedTx
waits ps = record {
  prevs = ps;
  kind = type_normal;
  unresolved = false;
  visited = false;
  broken = false;
}

abbrev pub finder : Finder
finder = record {
  entries = (20, waits (10 ∷ 10 ∷ [])) ∷ (10, waits (100 ∷ 100 ∷ [])) ∷ [];
  missing = record { noexists = []; broken = []; stored = [] };
  waiting = λ k. if k == 20 then some later else if k == 10 then some arriving else none;
  saved = [];
  tables = tables;
  memory = memory;
  leaves = record { leaves = []; stored = [] };
}

abbrev after : Finder
after = elim (resolve out 3 true finder) [ none ↦ finder | some r ↦ r.1 ]

both_reported :
    resolve out 3 true finder ≡ some (((20, type_normal) ∷ (10, type_normal) ∷ [], ok tt), after)
unfolding resolve is_resolved dfs walked conclude resolved settle_entry add_resolved add_normal
    reported remaining walk visited_then inherit want delete_unresolved_tx put_broken_tx change save
    kinds lookup insert contains has get_tx_func get_tx_info put_tx check_add check_add_end
    is_visited visit visit_each enter used all_used leaves_of put_tx_sub finish store_tx refer_all
    refer set_referred displace new_info update_tx_no add_latest update_mulsig_address spends
    status_at cell? set_cell at_least is_at add_hash del_hash update_address_to_tx put_ticket_input
    put_inputs put_input_address_to_tx update_each put_multisig_in_address_to_tx put_ticket_output
    put_outputs put_output_address_to_tx put_multisig_out_address_to_tx put_address_to_tx search
    Leaves.put
both_reported = refl

abbrev pub rank : Hash → ℕ
rank k = if k == 20 then 2 else if k == 10 then 1 else 0

pub finder-IsRanked : IsRanked rank finder
unfolding lookup
finder-IsRanked k = elim (Bool-cases (20 == k)) [
  | inl same ↦
      subst (λ (j : Hash). RankedEntry rank j (lookup j finder.entries)) ((==_iff 20 k).0 same)
        ((omega arith), ((omega arith), tt))
  | inr other ↦ elim (Bool-cases (10 == k)) [
    | inl same ↦
        subst (λ (j : Hash). RankedEntry rank j (lookup j finder.entries)) ((==_iff 10 k).0 same)
          ((omega arith), ((omega arith), tt))
    | inr other' ↦ rw (other, other') tt
  ]
]

finder-IsFiled : IsFiled finder
finder-IsFiled k = elim (Bool-cases (k == 20)) [
  | inl same ↦ rw (same, (==_iff k 20).0 same) refl
  | inr other ↦ elim (Bool-cases (k == 10)) [
    | inl same ↦ rw (other, same, (==_iff k 10).0 same) refl
    | inr other' ↦ rw (other, other') refl
  ]
]

finder-IsUnseen : IsUnseen finder
unfolding lookup
finder-IsUnseen k = elim (Bool-cases (20 == k)) [
  | inl same ↦ rw same refl
  | inr other ↦ elim (Bool-cases (10 == k)) [
    | inl same ↦ rw (other, same) refl
    | inr other' ↦ rw (other, other') refl
  ]
]

resolve-reported_example :
    All
      (λ (r : Hash × TxType).
        (lands r.1 after.tables.txs r.0
          && all_stored after.tables.txs (prevs_at finder.entries r.0))
        ≡ true)
      ((20, type_normal) ∷ (10, type_normal) ∷ [])
unfolding lookup
resolve-reported_example =
    resolve-reported out rank 3 true finder after ((20, type_normal) ∷ (10, type_normal) ∷ [])
      finder-IsRanked finder-IsFiled finder-IsUnseen (refl, (refl, tt)) both_reported

resolve_total_example :
    (r : (List (Hash × TxType) × Result (Unit {0})) × Finder) × (resolve out 3 true finder ≡ some r)
resolve_total_example =
    resolve_total out rank 3 true finder finder-IsRanked ((omega arith), ((omega arith), tt))

abbrev genesis : Transaction
genesis = record { hash = 100; body = plain [] []; signatures = 76 }

init_restores_example :
    (f' : Finder) × (init out true genesis (save true finder).1 ≡ (ok tt, f'))
    × ((k : Hash) → lookup k f'.entries ≡ rested (lookup k finder.entries))
    × (f'.missing.noexists ≡ finder.missing.noexists)
    × (f'.memory.tx_no ≡ finder.tables.saved_no)
unfolding has prevs lookup
init_restores_example =
    init_restores out genesis finder refl (refl, (refl, tt))
      ((later, refl, refl, refl), ((arriving, refl, refl, refl), tt))
