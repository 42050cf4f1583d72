-- ===== src/AddressIndex/Entered.antt =====
-- `PutAddressToTx` enters every output of the transaction under its addresses.
use aknode.Base.{
  ℕ, zero, suc, ◌+◌, ◌%◌, ◌==◌, if◌then◌else◌, Bool, true, ◌||◌, Option, none, some, List, [], ◌∷◌,
  get_elem?, contains, ◌≡◌, refl, sym, ap, arith, Bool-cases, inl, inr, ok, >>=-eq-ok, ok-injective,
  subst, In,
}
use aknode.Imesh.Types.{Address, Output, MultiSigOut, Txs, Transaction}
use aknode.AddressIndex.{
  Library, type_out, type_mulout, type_ticketout, Index, entries, same_address, del_hash,
  update_address_to_tx, put_ticket_input, put_input_address_to_tx, update_each,
  put_multisig_in_address_to_tx, put_outputs, put_ticket_output, put_output_address_to_tx,
  put_multisig_out_address_to_tx, put_address_to_tx,
}
use aknode.AddressIndex.Sorted.{IsSearch, contains-add_hash}
use aknode.AddressIndex.Covers.{
  AllSorted, same_address-eq, entries-update, update-AllSorted, ticket_input-AllSorted,
  inputs-AllSorted, each-AllSorted, multisig_in-AllSorted, ticket_output-AllSorted,
  output-AllSorted,
}

-- `k` stands in the list under `adr`.
abbrev pub has : Index → Option Address → ℕ → Bool
has ix adr k = contains (entries ix adr) k

-- The transaction creates an output of `adr`, with the key `k`: an output, an address of a multisig
-- output, or the ticket output. Positions are cut to a byte.
pub data Creates (lib : Library) (tr : Transaction) : Address → ℕ → Type 0 where
  output :
      (j : ℕ) (out : Output)
      → get_elem? tr.body.outputs j ≡ some out
      → Creates lib tr out.address (lib.inout2key tr.hash type_out (j % 256))
  multisig_output :
      (j : ℕ) (out : MultiSigOut) (adr : Address)
      → get_elem? tr.body.multi_sig_outs j ≡ some out
      → In adr out.addresses
      → Creates lib tr adr (lib.inout2key tr.hash type_mulout (j % 256))
  ticket_output :
      (adr : Address)
      → tr.body.ticket_output ≡ some adr
      → Creates lib tr adr (lib.inout2key tr.hash type_ticketout 0)

module _ (lib : Library) (law : IsSearch lib.search) where
  -- An update that removes nothing keeps every entry, and enters its own.
  has-update :
      (adr k : Option Address) (a x : ℕ) (ix : Index)
      → AllSorted ix
      → has (update_address_to_tx lib adr a none ix) k x
        ≡ ((if same_address adr k then a == x || has ix adr x else has ix k x))
  unfolding del_hash
  has-update adr k a x ix s =
      rw (entries-update lib law adr k a none ix) elim (Bool-cases (same_address adr k)) [
        | inl e ↦ rw e (contains-add_hash lib law a x (entries ix adr) (s adr))
        | inr e ↦ rw e refl
      ]

  kept :
      (adr k : Option Address) (a x : ℕ) (ix : Index)
      → AllSorted ix
      → has ix k x ≡ true
      → has (update_address_to_tx lib adr a none ix) k x ≡ true
  kept adr k a x ix s h = rw (has-update adr k a x ix s) elim (Bool-cases (same_address adr k)) [
    | inl e ↦ rw (e, ap (λ k. has ix k x) (same_address-eq adr k e), h) (ground arith)
    | inr e ↦ rw e h
  ]

  entered :
      (adr : Address) (a : ℕ) (ix : Index)
      → AllSorted ix
      → has (update_address_to_tx lib (some adr) a none ix) (some adr) a ≡ true
  entered adr a ix s = rw (has-update (some adr) (some adr) a a ix s) (ground arith)

  has-outputs :
      (tr : Transaction) (i : ℕ) (outs : List Output) (k : Option Address) (x : ℕ) (ix : Index)
      → AllSorted ix
      → has ix k x ≡ true
      → has (put_outputs lib tr i outs ix) k x ≡ true
  unfolding put_outputs
  has-outputs tr i [] k x ix s h = h
  has-outputs tr i (out ∷ outs) k x ix s h =
      has-outputs tr (i + 1) outs k x _ (update-AllSorted lib law _ _ none ix s)
        (kept (some out.address) k _ x ix s h)

  has-output_at :
      (tr : Transaction) (i j : ℕ) (outs : List Output) (out : Output) (ix : Index)
      → AllSorted ix
      → get_elem? outs j ≡ some out
      → has
          (put_outputs lib tr i outs ix)
          (some out.address)
          (lib.inout2key tr.hash type_out ((i + j) % 256))
        ≡ true
  unfolding put_outputs
  has-output_at tr i j [] out ix s e = absurd (cc)
  has-output_at tr i zero (o ∷ outs) out ix s e =
      has-outputs tr (i + 1) outs (some out.address) _ _ (update-AllSorted lib law _ _ none ix s) (
        let same : o ≡ out = cc in
        let first : i + 0 ≡ i = omega arith in rw (sym same, first) (entered o.address _ ix s))
  has-output_at tr i (suc j) (o ∷ outs) out ix s e =
      let shift : i + suc j ≡ (i + 1) + j = omega arith in
      rw shift (has-output_at tr (i + 1) j outs out _ (update-AllSorted lib law _ _ none ix s) e)

  has-each :
      (adrs : List Address) (k : Option Address) (a x : ℕ) (ix : Index)
      → AllSorted ix
      → has ix k x ≡ true
      → has (update_each lib adrs a none ix) k x ≡ true
  unfolding update_each
  has-each [] k a x ix s h = h
  has-each (adr ∷ adrs) k a x ix s h =
      has-each adrs k a x _ (update-AllSorted lib law (some adr) a none ix s)
        (kept (some adr) k a x ix s h)

  has-multisig_out :
      (tr : Transaction) (i : ℕ) (outs : List MultiSigOut) (k : Option Address) (x : ℕ) (ix : Index)
      → AllSorted ix
      → has ix k x ≡ true
      → has (put_multisig_out_address_to_tx lib tr i outs ix) k x ≡ true
  unfolding put_multisig_out_address_to_tx
  has-multisig_out tr i [] k x ix s h = h
  has-multisig_out tr i (out ∷ outs) k x ix s h =
      has-multisig_out tr (i + 1) outs k x _ (each-AllSorted lib law out.addresses _ none ix s)
        (has-each out.addresses k _ x ix s h)

  has-output :
      (tr : Transaction) (j : ℕ) (out : Output) (ix : Index)
      → AllSorted ix
      → get_elem? tr.body.outputs j ≡ some out
      → has
          (put_output_address_to_tx lib tr ix)
          (some out.address)
          (lib.inout2key tr.hash type_out (j % 256))
        ≡ true
  unfolding put_output_address_to_tx
  has-output tr j out ix s at =
      let start : j ≡ 0 + j = omega arith in
      rw start (
        has-output_at tr 0 j tr.body.outputs out _
          (ticket_output-AllSorted lib law tr tr.body.ticket_output ix s) at)

  has-ticket :
      (tr : Transaction) (adr : Address) (ix : Index)
      → AllSorted ix
      → tr.body.ticket_output ≡ some adr
      → has (put_output_address_to_tx lib tr ix) (some adr) (lib.inout2key tr.hash type_ticketout 0)
        ≡ true
  unfolding put_output_address_to_tx put_ticket_output
  has-ticket tr adr ix s at =
      has-outputs tr 0 tr.body.outputs (some adr) _ _
        (ticket_output-AllSorted lib law tr tr.body.ticket_output ix s) (rw at (entered adr _ ix s))

  has-each_at :
      (adrs : List Address) (adr : Address) (a : ℕ) (ix : Index)
      → AllSorted ix
      → In adr adrs
      → has (update_each lib adrs a none ix) (some adr) a ≡ true
  unfolding update_each
  has-each_at [] adr a ix s m = absurd m
  has-each_at (x ∷ adrs) adr a ix s (inl here) =
      has-each adrs (some adr) a a _ (update-AllSorted lib law (some x) a none ix s)
        (rw here (entered x a ix s))
  has-each_at (x ∷ adrs) adr a ix s (inr later) =
      has-each_at adrs adr a _ (update-AllSorted lib law (some x) a none ix s) later

  has-multisig_out_at :
      (tr : Transaction) (i j : ℕ) (outs : List MultiSigOut) (out : MultiSigOut) (adr : Address)
      (ix : Index)
      → AllSorted ix
      → get_elem? outs j ≡ some out
      → In adr out.addresses
      → has
          (put_multisig_out_address_to_tx lib tr i outs ix)
          (some adr)
          (lib.inout2key tr.hash type_mulout ((i + j) % 256))
        ≡ true
  unfolding put_multisig_out_address_to_tx
  has-multisig_out_at tr i j [] out adr ix s e m = absurd (cc)
  has-multisig_out_at tr i zero (o ∷ outs) out adr ix s e m =
      let same : out ≡ o = cc in
      let first : i + 0 ≡ i = omega arith in
      rw first (
        has-multisig_out tr (i + 1) outs (some adr) _ _
          (each-AllSorted lib law o.addresses _ none ix s)
          (has-each_at o.addresses adr _ ix s
            (subst (λ (x : MultiSigOut). In adr x.addresses) same m)))
  has-multisig_out_at tr i (suc j) (o ∷ outs) out adr ix s e m =
      let shift : i + suc j ≡ (i + 1) + j = omega arith in
      rw shift (
        has-multisig_out_at tr (i + 1) j outs out adr _
          (each-AllSorted lib law o.addresses _ none ix s) e m)

  -- The index before the outputs are entered.
  has_all :
      (tr : Transaction) (ix : Index) (adr : Address) (k : ℕ)
      → AllSorted ix
      → Creates lib tr adr k
      → has
          (put_multisig_out_address_to_tx lib tr 0 tr.body.multi_sig_outs
            (put_output_address_to_tx lib tr ix))
          (some adr)
          k
        ≡ true
  has_all tr ix _ _ s (output j out at) =
      has-multisig_out tr 0 tr.body.multi_sig_outs (some out.address) _ _
        (output-AllSorted lib law tr ix s) (has-output tr j out ix s at)
  has_all tr ix _ _ s (ticket_output adr at) =
      has-multisig_out tr 0 tr.body.multi_sig_outs (some adr) _ _ (output-AllSorted lib law tr ix s)
        (has-ticket tr adr ix s at)
  has_all tr ix _ _ s (multisig_output j out adr at m) =
      let start : j ≡ 0 + j = omega arith in
      rw start (
        has-multisig_out_at tr 0 j tr.body.multi_sig_outs out adr _
          (output-AllSorted lib law tr ix s) at m)

  -- With a search that does what sort.Search promises, on an index whose lists are sorted: when
  -- PutAddressToTx succeeds, every output of the transaction stands under its address, every
  -- multisig output under each of its addresses, both with their position cut to a byte, and the
  -- ticket output under its address with position 0, each with the number of its own type.
  pub has-put_address_to_tx :
      (db : Txs) (tr : Transaction) (ix ix' : Index) (adr : Address) (k : ℕ)
      → AllSorted ix
      → put_address_to_tx lib db tr ix ≡ ok ix'
      → Creates lib tr adr k
      → has ix' (some adr) k ≡ true
  unfolding put_address_to_tx put_input_address_to_tx
  has-put_address_to_tx db tr ix ix' adr k s e created =
      let (ix1, e1, e2) = >>=-eq-ok (put_input_address_to_tx lib db tr ix) _ e in
      let (ix0, e3, e4) = >>=-eq-ok (put_ticket_input lib db tr tr.body.ticket_input ix) _ e1 in
      let (ix2, e5, e6) =
        >>=-eq-ok (put_multisig_in_address_to_tx lib db tr 0 tr.body.multi_sig_ins ix1) _ e2 in
      let s2 = multisig_in-AllSorted lib law db tr 0 tr.body.multi_sig_ins ix1 ix2 e5 (
        inputs-AllSorted lib law db tr 0 tr.body.inputs ix0 ix1 e4
          (ticket_input-AllSorted lib law db tr tr.body.ticket_input ix ix0 e3 s)) in
      subst (λ ix. has ix (some adr) k ≡ true) (ok-injective e6) (has_all tr ix2 adr k s2 created)
