-- ===== src/AddressIndex/History/Outputs.antt =====
-- The history of an address has the outputs that its inputs spend.
use aknode.Base.{
  ℕ, zero, suc, ==_iff, leb, true, false, not, ◌||◌, Option, none, some, List, [], ◌∷◌, ◌++◌,
  get_elem?, length, take, drop, map, ok, >>=-eq-ok, ok-injective, ◌≡◌, refl, sym, ap, subst, ◌∙◌,
  arith, Bool-cases, inl, inr, In,
}
use aknode.Imesh.Types.{Hash, Address, Input, TxInfo, Txs}
use aknode.Imesh.Tables.{InoutHash, get_tx_info}
use aknode.AddressIndex.{
  type_in, type_mulin, type_ticketin, type_out, type_mulout, type_ticketout, Index, entries,
  at_least, is_at,
}
use aknode.AddressIndex.History.{
  Decoder, spent_output, parsed, insert_output, insert_some, add_outputs, get_hisoty2,
}

module _ {A : Type 0} (f : A → ℕ) where
  In-insert :
      (k : ℕ) (x : A) (i : ℕ) (xs : List A)
      → In k (map f xs)
      → In k (map f (take i xs ++ x ∷ drop i xs))
  In-insert k x zero xs m = inr m
  In-insert k x (suc i) [] m = absurd m
  In-insert k x (suc i) (y ∷ ys) (inl e) = inl e
  In-insert k x (suc i) (y ∷ ys) (inr m) = inr (In-insert k x i ys m)

  In-inserted : (x : A) (i : ℕ) (xs : List A) → In (f x) (map f (take i xs ++ x ∷ drop i xs))
  In-inserted x zero xs = inl refl
  In-inserted x (suc i) [] = inl refl
  In-inserted x (suc i) (y ∷ ys) = inr (In-inserted x i ys)

  In-map : (a : A) (xs : List A) → In a xs → In (f a) (map f xs)
  In-map a [] m = absurd m
  In-map a (x ∷ xs) (inl e) = inl (ap f e)
  In-map a (x ∷ xs) (inr m) = inr (In-map a xs m)

found_at : (hs : List ℕ) (h i : ℕ) → is_at hs h i ≡ true → In h hs
unfolding is_at
found_at [] h i e = cc
found_at (x ∷ xs) h zero e = inl (sym ((==_iff x h).0 e))
found_at (x ∷ xs) h (suc i) e = inr (found_at xs h i e)

-- An input, and the output that it spends, by the stored transaction that has the input.
pub data Refers (txs : Txs) : InoutHash → InoutHash → Type 0 where
  by_input :
      (h j : ℕ) (ti : TxInfo) (i : Input)
      → txs h ≡ some ti
      → get_elem? ti.body.inputs j ≡ some i
      → Refers txs
          (record { hash = h; kind = type_in; index = j })
          (record { hash = i.previous_tx; kind = type_out; index = i.index })
  by_multisig_input :
      (h j : ℕ) (ti : TxInfo) (i : Input)
      → txs h ≡ some ti
      → get_elem? ti.body.multi_sig_ins j ≡ some i
      → Refers txs
          (record { hash = h; kind = type_mulin; index = j })
          (record { hash = i.previous_tx; kind = type_mulout; index = i.index })
  by_ticket :
      (h j : ℕ) (ti : TxInfo) (prev : Hash)
      → txs h ≡ some ti
      → ti.body.ticket_input ≡ some prev
      → Refers txs
          (record { hash = h; kind = type_ticketin; index = j })
          (record { hash = prev; kind = type_ticketout; index = 0 })

spent_output-Refers :
    (nil_hash : Hash) (txs : Txs) (ih new : InoutHash)
    → Refers txs ih new
    → spent_output nil_hash txs ih ≡ ok (some new)
unfolding spent_output get_tx_info
spent_output-Refers nil_hash txs _ _ (by_input h j ti i at there) = rw (at, there) refl
spent_output-Refers nil_hash txs _ _ (by_multisig_input h j ti i at there) = rw (at, there) refl
spent_output-Refers nil_hash txs _ _ (by_ticket h j ti prev at there) = rw (at, there) refl

module _ (dec : Decoder) where
  -- What the list says, by the bytes of its entries.
  abbrev Has : ℕ → List InoutHash → Type 0
  Has k ihs = In k (map dec.bytes ihs)

  insert_output-keeps :
      (n : ℕ) (new : InoutHash) (k : ℕ) (ihs : List InoutHash)
      → Has k ihs
      → Has k (insert_output dec n new ihs)
  unfolding insert_output
  insert_output-keeps n new k ihs m =
      let i = dec.search (length ihs) (at_least (map dec.bytes ihs) (dec.bytes new)) in
      elim (Bool-cases (leb n i || not (is_at (map dec.bytes ihs) (dec.bytes new) i))) [
        | inl inserts ↦ rw inserts (In-insert dec.bytes k new i ihs m)
        | inr there ↦ rw there m
      ]

  insert_output-enters :
      (n : ℕ) (new : InoutHash) (ihs : List InoutHash)
      → Has (dec.bytes new) (insert_output dec n new ihs)
  unfolding insert_output
  insert_output-enters n new ihs =
      let i = dec.search (length ihs) (at_least (map dec.bytes ihs) (dec.bytes new)) in
      elim (Bool-cases (leb n i || not (is_at (map dec.bytes ihs) (dec.bytes new) i))) [
        | inl inserts ↦ rw inserts (In-inserted dec.bytes new i ihs)
        | inr there ↦
            let at_place : is_at (map dec.bytes ihs) (dec.bytes new) i ≡ true =
              ground (arith, there) in
            rw there (found_at (map dec.bytes ihs) (dec.bytes new) i at_place)
      ]

  insert_some-keeps :
      (n : ℕ) (o : Option InoutHash) (k : ℕ) (ihs : List InoutHash)
      → Has k ihs
      → Has k (insert_some dec n o ihs)
  insert_some-keeps n none k ihs m = m
  insert_some-keeps n (some new) k ihs m = insert_output-keeps n new k ihs m

  add_outputs-keeps :
      (txs : Txs) (n : ℕ) (more ihs r : List InoutHash) (k : ℕ)
      → add_outputs dec txs n more ihs ≡ ok r
      → Has k ihs
      → Has k r
  unfolding add_outputs
  add_outputs-keeps txs n [] ihs r k run m = subst (Has k) (ok-injective run) m
  add_outputs-keeps txs n (ih ∷ more) ihs r k run m =
      let (o, _, run1) = >>=-eq-ok (spent_output dec.nil_hash txs ih) _ run in
      add_outputs-keeps txs n more (insert_some dec n o ihs) r k run1
        (insert_some-keeps n o k ihs m)

  add_outputs-enters :
      (txs : Txs) (n : ℕ) (more ihs r : List InoutHash) (ih new : InoutHash)
      → add_outputs dec txs n more ihs ≡ ok r
      → In ih more
      → spent_output dec.nil_hash txs ih ≡ ok (some new)
      → Has (dec.bytes new) r
  unfolding add_outputs
  add_outputs-enters txs n [] ihs r ih new run m spends = absurd m
  add_outputs-enters txs n (x ∷ more) ihs r ih new run (inr m) spends =
      let (o, _, run1) = >>=-eq-ok (spent_output dec.nil_hash txs x) _ run in
      add_outputs-enters txs n more (insert_some dec n o ihs) r ih new run1 m spends
  add_outputs-enters txs n (x ∷ more) ihs r ih new run (inl e) spends =
      let (o, got, run1) = >>=-eq-ok (spent_output dec.nil_hash txs x) _ run in
      let same : some new ≡ o =
        ok-injective (sym spends ∙ ap (spent_output dec.nil_hash txs) e ∙ got) in
      add_outputs-keeps txs n more (insert_some dec n o ihs) r (dec.bytes new) run1 (
        subst (λ (p : Option InoutHash). Has (dec.bytes new) (insert_some dec n p ihs)) same
          (insert_output-enters n new ihs))

  parsed-members :
      (hashes : List ℕ) (ihs : List InoutHash) (h : ℕ) (ih : InoutHash)
      → parsed dec hashes ≡ ok ihs
      → In h hashes
      → dec.new_inout_hash h ≡ ok ih
      → In ih ihs
  unfolding parsed
  parsed-members [] ihs h ih run m read = absurd m
  parsed-members (x ∷ hs) ihs h ih run m read =
      let (a, got, run1) = >>=-eq-ok (dec.new_inout_hash x) _ run in
      let (rest, more, run2) = >>=-eq-ok (parsed dec hs) _ run1 in
      subst (In ih) (ok-injective run2) (elim m as (λ z. In ih (a ∷ rest)) [
        | inl e ↦ inl (ok-injective (sym read ∙ ap dec.new_inout_hash e ∙ got))
        | inr later ↦ inr (parsed-members hs rest h ih more later read)
      ])

  -- When GetHisoty2 returns all of an address, for every entry of the address that is an input of
  -- a stored transaction: the result has, by their bytes, the entry and the output that it
  -- spends, which for an input or a multisig input is the one that the stored transaction names
  -- at the position of the entry, by previous transaction and index, and for a ticket input the
  -- ticket output of the ticket that the stored transaction names.
  pub get_hisoty2-outputs :
      (adr : Address) (ix : Index) (txs : Txs) (r : List InoutHash) (h : ℕ) (ih new : InoutHash)
      → get_hisoty2 dec (ok adr) false ix txs ≡ ok r
      → In h (entries ix (some adr))
      → dec.new_inout_hash h ≡ ok ih
      → Refers txs ih new
      → In (dec.bytes ih) (map dec.bytes r) × In (dec.bytes new) (map dec.bytes r)
  unfolding get_hisoty2
  get_hisoty2-outputs adr ix txs r h ih new run m read refers =
      let hashes = entries ix (some adr) in
      let (ihs, got, run1) = >>=-eq-ok (parsed dec hashes) _ run in
      let inside = parsed-members hashes ihs h ih got m read in
      (
        add_outputs-keeps txs (length hashes) ihs ihs r (dec.bytes ih) run1
            (In-map dec.bytes ih ihs inside),
        add_outputs-enters txs (length hashes) ihs ihs r ih new run1 inside
            (spent_output-Refers dec.nil_hash txs ih new refers),
      )
