-- ===== src/Imesh/Store/Referred.antt =====
-- What storing a transaction does to the outputs that it spends, and to what was stored before.
use aknode.Base.{
  ℕ, ◌==◌, if◌then◌else◌, true, false, List, [], ◌∷◌, Option, some, Result, ok, err, ◌≡◌, refl, sym,
  ap, subst, ◌∙◌, arith, >>=-eq-ok, ok-injective, Bool-cases, inl, inr, All, All_at, In, lookup,
}
use aknode.Imesh.Types.{
  Hash, Header, header_tx_reward_fee, header_tx_reward_ticket, Txs, TxInfo, Spend, OutputStatus,
  Transaction, put, status_at, or_missing, or_panic, or_missing-eq-ok, or_panic-eq-ok,
}
use aknode.Imesh.Confirm.Marks.{same_spend}
use aknode.Imesh.Tables.{
  Tables, Memory, sig_key, TxType, type_normal, type_reward_fee, type_reward_ticket, type_unknown,
}
use aknode.Imesh.Minable.{none_referred, is_minable_tx_valid, get_minable, get_minable_tx, table_of}
use aknode.Imesh.Store.{
  Aklib, Writes, refuses_earlier, refuses_last, takes, set_referred, refer, refer_all, store_tx,
  new_info, finish, put_tx_sub, update_tx_no,
}
use aknode.Imesh.Store.Kept.{
  Frame, Frame-refl, Frame-trans, Frame-with_status, status-with_status, status_in, referred,
  referred_at, Quiet, displace-Quiet,
}
use aknode.AddressIndex.{put_address_to_tx}

Quiet-trans : (a b c : Tables) → Quiet a b → Quiet b c → Quiet a c
Quiet-trans a b c q r = record {
  frame = Frame-trans a.txs b.txs c.txs q.frame r.frame;
  sigs = r.sigs ∙ q.sigs;
}

same_spend_refl : (s : Spend) → same_spend s s ≡ true
same_spend_refl s = ground arith

module _ (txs : Txs) (s : Spend) (ti : TxInfo) (st : OutputStatus)
    (found : txs s.previous_tx ≡ some ti) (at : status_at ti s ≡ some st) where
  set_referred-Frame :
      Frame txs (set_referred st ti s txs) × (referred_at (set_referred st ti s txs) s ≡ true)
  unfolding set_referred
  set_referred-Frame = elim (Bool-cases st.is_referred) [
    | inl set ↦ rw set (
      Frame-refl txs,
      ap (λ (o : Option TxInfo). referred (status_in o s)) found ∙ ap referred at ∙ set,
    )
    | inr unset ↦ rw unset (
      Frame-with_status txs s ti st found at (record st { is_referred = true }) refl (λ r. refl),
      ap referred (status-with_status txs s ti st found at (record st { is_referred = true }) s)
          ∙ rw (same_spend_refl s) refl,
    )
  ]

module _ (lib : Aklib) where
  refer-Quiet :
      (s : Spend) (t t' : Tables)
      → refer lib s t ≡ ok t'
      → Quiet t t' × (referred_at t'.txs s ≡ true)
  unfolding refer
  refer-Quiet s t t' e =
      let (ti, get, e1) = >>=-eq-ok (or_missing (t.txs s.previous_tx)) _ e in
      let (st, got, e2) = >>=-eq-ok (or_panic (status_at ti s)) _ e1 in
      let t1 : Tables = record t { txs = set_referred st ti s t.txs } in
      let (frame, set) =
        set_referred-Frame t.txs s ti st (or_missing-eq-ok _ get) (or_panic-eq-ok _ got) in
      let rest = displace-Quiet lib.input_hashes st.used_by_minable t1 t' e2 in
      (Quiet-trans t t1 t' (record { frame = frame; sigs = refl }) rest, rest.frame.flagged s set)

  refer_all-Quiet :
      (ss : List Spend) (t t' : Tables)
      → refer_all lib ss t ≡ ok t'
      → Quiet t t' × All (λ s. referred_at t'.txs s ≡ true) ss
  unfolding refer_all
  refer_all-Quiet [] t t' e =
      (subst (Quiet t) (ok-injective e) (record { frame = Frame-refl t.txs; sigs = refl }), tt)
  refer_all-Quiet (s ∷ ss) t t' e =
      let (t1, e1, e2) = >>=-eq-ok (refer lib s t) _ e in
      let (q, set) = refer-Quiet s t t1 e1 in
      let (r, rest) = refer_all-Quiet ss t1 t' e2 in
      (Quiet-trans t t1 t' q r, (r.frame.flagged s set, rest))

  -- What a transaction that was stored left behind.
  pub record Stored (now tx_no : ℕ) (tr : Transaction) (t t' : Tables) : Type 0 where
    pub frame : Frame (put t.txs tr.hash (new_info now tx_no tr.body)) t'.txs
    pub set : All (λ s. referred_at t'.txs s ≡ true) (lib.input_hashes tr.body)
    pub sigs : (k : ℕ) → t'.sigs k ≡ (if sig_key tx_no == k then some tr.signatures else t.sigs k)

  pub store_tx-Stored :
      (now tx_no : ℕ) (tr : Transaction) (t t' : Tables)
      → store_tx lib now tx_no tr t ≡ ok t'
      → Stored now tx_no tr t t'
  unfolding store_tx
  store_tx-Stored now tx_no tr t t' e =
      let t0 : Tables = record t {
        saved_no = tx_no;
        txs = put t.txs tr.hash (new_info now tx_no tr.body);
      } in
      let (t1, e1, e2) = >>=-eq-ok (refer_all lib (lib.input_hashes tr.body) t0) _ e in
      let (index, e3, e4) = >>=-eq-ok (put_address_to_tx lib.library t1.txs tr t1.index) _ e2 in
      let (q, set) = refer_all-Quiet (lib.input_hashes tr.body) t0 t1 e1 in
      subst (Stored now tx_no tr t) (ok-injective e4) (record {
        frame = q.frame;
        set = set;
        sigs = λ k.
            ap (λ (f : ℕ → Option ℕ). if sig_key tx_no == k then some tr.signatures else f k)
              q.sigs;
      })

  finish-ok :
      (w : Writes) (entry : Hash × TxInfo) (r : Result Tables) (t : Tables) (m : Memory)
      → (finish w entry r t m).0 ≡ ok tt
      → (t' : Tables) × (r ≡ ok t') × ((finish w entry r t m).1 ≡ t')
  unfolding finish
  finish-ok refuses_earlier entry r t m e = cc
  finish-ok refuses_last entry (err x) t m e = cc
  finish-ok refuses_last entry (ok t') t m e = cc
  finish-ok takes entry (err x) t m e = cc
  finish-ok takes entry (ok t') t m e = (t', refl, refl)

  pub put_tx_sub-Stored :
      (now : ℕ) (tr : Transaction) (t : Tables) (m : Memory)
      → (put_tx_sub lib now tr t m).0 ≡ ok tt
      → Stored now (update_tx_no m).tx_no tr t (put_tx_sub lib now tr t m).1
  unfolding put_tx_sub
  put_tx_sub-Stored now tr t m e =
      let no = (update_tx_no m).tx_no in
      let (t', run, same) =
        finish-ok (lib.writes now tr) (tr.hash, new_info now no tr.body) (store_tx lib now no tr t)
          t (update_tx_no m) e in
      subst (Stored now no tr t) (sym same) (store_tx-Stored now no tr t t' run)

-- A minable transaction that is given out spends no output that a stored one refers to.
unreferred :
    (txs : Txs) (ss : List Spend) (s : Spend)
    → none_referred txs ss ≡ ok true
    → In s ss
    → referred_at txs s ≡ false
unfolding none_referred
unreferred txs [] s e m = absurd m
unreferred txs (x ∷ ss) s e m =
    let (ti, get, e1) = >>=-eq-ok (or_missing (txs x.previous_tx)) _ e in
    let (st, got, e2) = >>=-eq-ok (or_panic (status_at ti x)) _ e1 in
    elim (Bool-cases st.is_referred) [
      | inl set ↦ cc (rw set at e2)
      | inr unset ↦ elim m [
        | inl here ↦ rw here (
            ap (λ (o : Option TxInfo). referred (status_in o x)) (or_missing-eq-ok _ get)
            ∙ ap referred (or_panic-eq-ok _ got)
            ∙ unset)
        | inr later ↦ unreferred txs ss s (rw unset at e2) later
      ]
    ]

module _ (lib : Aklib) where
  get_minable-valid :
      (h : Hash) (header : Header) (t : Tables) (tr : Transaction)
      → get_minable lib.input_hashes h header t ≡ ok tr
      → none_referred t.txs (lib.input_hashes tr.body) ≡ ok true
  unfolding get_minable is_minable_tx_valid
  get_minable-valid h header t tr e =
      let (min_tx, get, e1) = >>=-eq-ok (or_missing (lookup h (table_of header t))) _ e in
      let (valid, v, e2) = >>=-eq-ok (none_referred t.txs (lib.input_hashes min_tx.body)) _ e1 in
      elim (Bool-cases valid) [
        | inl fine ↦
            let same : min_tx ≡ tr = ok-injective (rw fine at e2) in rw (← same) (v ∙ ap ok fine)
        | inr bad ↦ cc (rw bad at e2)
      ]

  get_minable_tx-valid :
      (h : Hash) (kind : TxType) (t : Tables) (tr : Transaction)
      → get_minable_tx lib.input_hashes h kind t ≡ ok tr
      → none_referred t.txs (lib.input_hashes tr.body) ≡ ok true
  unfolding get_minable_tx
  get_minable_tx-valid h type_reward_fee t tr e = get_minable-valid h header_tx_reward_fee t tr e
  get_minable_tx-valid h type_reward_ticket t tr e =
      get_minable-valid h header_tx_reward_ticket t tr e
  get_minable_tx-valid h type_normal t tr e = cc
  get_minable_tx-valid h (type_unknown k) t tr e = cc

  -- After putTxSub has stored a transaction, no minable transaction that GetMinableTx gives out
  -- spends an output that it spends.
  pub get_minable_tx-put_tx_sub :
      (now : ℕ) (tr : Transaction) (t : Tables) (m : Memory) (h : Hash) (kind : TxType)
      (found : Transaction) (s : Spend)
      → (put_tx_sub lib now tr t m).0 ≡ ok tt
      → get_minable_tx lib.input_hashes h kind (put_tx_sub lib now tr t m).1 ≡ ok found
      → In s (lib.input_hashes tr.body)
      → ¬ In s (lib.input_hashes found.body)
  get_minable_tx-put_tx_sub now tr t m h kind found s stored got mine theirs =
      let t' = (put_tx_sub lib now tr t m).1 in
      let set =
        All_at (λ s. referred_at t'.txs s ≡ true) s (lib.input_hashes tr.body)
          (put_tx_sub-Stored lib now tr t m stored).set mine in
      let free =
        unreferred t'.txs (lib.input_hashes found.body) s (get_minable_tx-valid h kind t' found got)
          theirs in
      cc
