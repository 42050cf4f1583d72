-- ===== src/AddressIndex/Covers.antt =====
-- `PutAddressToTx` keeps the lists of the index sorted.
use aknode.Base.{
  ℕ, ◌+◌, ==_iff, if◌then◌else◌, Bool, true, false, Option, none, some, List, [], ◌∷◌, get_elem?,
  ◌≡◌, refl, sym, ap, Bool-cases, inl, inr, ok, >>=-eq-ok, ok-injective, subst,
}
use aknode.Imesh.Types.{
  Hash, Address, Input, Output, MultiSigOut, Txs, Transaction, or_missing, or_panic,
}
use aknode.AddressIndex.{
  Library, Index, entries, put_entries, same_address, add_hash, del_hash, update_address_to_tx,
  put_ticket_input, put_inputs, put_input_address_to_tx, update_each, put_multisig_in_address_to_tx,
  put_ticket_output, put_outputs, put_output_address_to_tx, put_multisig_out_address_to_tx,
  put_address_to_tx,
}
use aknode.AddressIndex.Sorted.{IsSorted, IsSearch, update-IsSorted}

-- The list under every key is sorted, without repetition.
abbrev pub AllSorted : Index → Type 0
AllSorted ix = (adr : Option Address) → IsSorted (entries ix adr)

pub same_address-eq : (a b : Option Address) → same_address a b ≡ true → a ≡ b
same_address-eq none none e = refl
same_address-eq (some a) (some b) e = ap some ((==_iff a b).0 e)
same_address-eq none (some b) e = cc
same_address-eq (some a) none e = cc

entries-put_entries :
    (adr k : Option Address) (hs : List ℕ) (ix : Index)
    → entries (put_entries ix adr hs) k ≡ (if same_address adr k then hs else entries ix k)
entries-put_entries adr k hs ix = elim (Bool-cases (same_address adr k)) [
  | inl e ↦ rw (e, entries, put_entries) refl
  | inr e ↦ rw (e, entries, put_entries) refl
]

module _ (lib : Library) (law : IsSearch lib.search) where
  pub entries-update :
      (adr k : Option Address) (a : ℕ) (d : Option ℕ) (ix : Index)
      → entries (update_address_to_tx lib adr a d ix) k ≡ (
          if same_address adr k
          then del_hash lib d (add_hash lib a (entries ix adr))
          else entries ix k)
  unfolding update_address_to_tx
  entries-update adr k a d ix =
      entries-put_entries adr k (del_hash lib d (add_hash lib a (entries ix adr))) ix

  if-IsSorted :
      (b : Bool) (xs ys : List ℕ) → IsSorted xs → IsSorted ys → IsSorted (if b then xs else ys)
  if-IsSorted true xs ys x y = x
  if-IsSorted false xs ys x y = y

  pub update-AllSorted :
      (adr : Option Address) (a : ℕ) (d : Option ℕ) (ix : Index)
      → AllSorted ix
      → AllSorted (update_address_to_tx lib adr a d ix)
  update-AllSorted adr a d ix s k = subst IsSorted (sym (entries-update adr k a d ix)) (
      if-IsSorted (same_address adr k) _ _ (update-IsSorted lib law a d (entries ix adr) (s adr))
        (s k))

  pub ticket_input-AllSorted :
      (db : Txs) (tr : Transaction) (t : Option Hash) (ix ix' : Index)
      → put_ticket_input lib db tr t ix ≡ ok ix'
      → AllSorted ix
      → AllSorted ix'
  unfolding put_ticket_input
  ticket_input-AllSorted db tr none ix ix' e s = subst AllSorted (ok-injective e) s
  ticket_input-AllSorted db tr (some prev) ix ix' e s =
      let (ti, _, e1) = >>=-eq-ok (or_missing (db prev)) _ e in
      subst AllSorted (ok-injective e1) (update-AllSorted _ _ _ ix s)

  pub inputs-AllSorted :
      (db : Txs) (tr : Transaction) (i : ℕ) (ins : List Input) (ix ix' : Index)
      → put_inputs lib db tr i ins ix ≡ ok ix'
      → AllSorted ix
      → AllSorted ix'
  unfolding put_inputs
  inputs-AllSorted db tr i [] ix ix' e s = subst AllSorted (ok-injective e) s
  inputs-AllSorted db tr i (inp ∷ ins) ix ix' e s =
      let (ti, _, e1) = >>=-eq-ok (or_missing (db inp.previous_tx)) _ e in
      let (out, _, e2) = >>=-eq-ok (or_panic (get_elem? ti.body.outputs inp.index)) _ e1 in
      inputs-AllSorted db tr (i + 1) ins _ ix' e2 (update-AllSorted _ _ _ ix s)

  pub each-AllSorted :
      (adrs : List Address) (a : ℕ) (d : Option ℕ) (ix : Index)
      → AllSorted ix
      → AllSorted (update_each lib adrs a d ix)
  unfolding update_each
  each-AllSorted [] a d ix s = s
  each-AllSorted (adr ∷ adrs) a d ix s = each-AllSorted adrs a d _ (update-AllSorted _ a d ix s)

  pub multisig_in-AllSorted :
      (db : Txs) (tr : Transaction) (i : ℕ) (ins : List Input) (ix ix' : Index)
      → put_multisig_in_address_to_tx lib db tr i ins ix ≡ ok ix'
      → AllSorted ix
      → AllSorted ix'
  unfolding put_multisig_in_address_to_tx
  multisig_in-AllSorted db tr i [] ix ix' e s = subst AllSorted (ok-injective e) s
  multisig_in-AllSorted db tr i (inp ∷ ins) ix ix' e s =
      let (ti, _, e1) = >>=-eq-ok (or_missing (db inp.previous_tx)) _ e in
      let (out, _, e2) = >>=-eq-ok (or_panic (get_elem? ti.body.multi_sig_outs inp.index)) _ e1 in
      multisig_in-AllSorted db tr (i + 1) ins _ ix' e2 (each-AllSorted out.addresses _ _ ix s)

  pub outputs-AllSorted :
      (tr : Transaction) (i : ℕ) (outs : List Output) (ix : Index)
      → AllSorted ix
      → AllSorted (put_outputs lib tr i outs ix)
  unfolding put_outputs
  outputs-AllSorted tr i [] ix s = s
  outputs-AllSorted tr i (out ∷ outs) ix s =
      outputs-AllSorted tr (i + 1) outs _ (update-AllSorted _ _ none ix s)

  pub ticket_output-AllSorted :
      (tr : Transaction) (t : Option Address) (ix : Index)
      → AllSorted ix
      → AllSorted (put_ticket_output lib tr t ix)
  unfolding put_ticket_output
  ticket_output-AllSorted tr none ix s = s
  ticket_output-AllSorted tr (some adr) ix s = update-AllSorted (some adr) _ none ix s

  pub output-AllSorted :
      (tr : Transaction) (ix : Index)
      → AllSorted ix
      → AllSorted (put_output_address_to_tx lib tr ix)
  unfolding put_output_address_to_tx
  output-AllSorted tr ix s =
      outputs-AllSorted tr 0 tr.body.outputs _
        (ticket_output-AllSorted tr tr.body.ticket_output ix s)

  multisig_out-AllSorted :
      (tr : Transaction) (i : ℕ) (outs : List MultiSigOut) (ix : Index)
      → AllSorted ix
      → AllSorted (put_multisig_out_address_to_tx lib tr i outs ix)
  unfolding put_multisig_out_address_to_tx
  multisig_out-AllSorted tr i [] ix s = s
  multisig_out-AllSorted tr i (out ∷ outs) ix s =
      multisig_out-AllSorted tr (i + 1) outs _ (each-AllSorted out.addresses _ none ix s)

  -- With a search that does what sort.Search promises: when PutAddressToTx succeeds on an index
  -- whose lists are sorted and have no entry twice, the lists are so afterwards.
  pub put_address_to_tx-AllSorted :
      (db : Txs) (tr : Transaction) (ix ix' : Index)
      → put_address_to_tx lib db tr ix ≡ ok ix'
      → AllSorted ix
      → AllSorted ix'
  unfolding put_address_to_tx put_input_address_to_tx
  put_address_to_tx-AllSorted db tr ix ix' e s =
      let (ix1, e1, e2) = >>=-eq-ok (put_input_address_to_tx lib db tr ix) _ e in
      let (ix0, e3, e4) = >>=-eq-ok (put_ticket_input lib db tr tr.body.ticket_input ix) _ e1 in
      let (ix2, e5, e6) =
        >>=-eq-ok (put_multisig_in_address_to_tx lib db tr 0 tr.body.multi_sig_ins ix1) _ e2 in
      subst AllSorted (ok-injective e6) (
        multisig_out-AllSorted tr 0 tr.body.multi_sig_outs _ (
          output-AllSorted tr ix2 (
            multisig_in-AllSorted db tr 0 tr.body.multi_sig_ins ix1 ix2 e5 (
              inputs-AllSorted db tr 0 tr.body.inputs ix0 ix1 e4
                (ticket_input-AllSorted db tr tr.body.ticket_input ix ix0 e3 s)))))
