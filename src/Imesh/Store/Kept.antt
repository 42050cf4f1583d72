-- ===== src/Imesh/Store/Kept.antt =====
-- What flags and marks on outputs leave alone: verdicts, bodies, numbers and the flags IsSpent.
use aknode.Base.{
  ℕ, ◌==◌, ==_iff, if◌then◌else◌, Bool, true, false, List, [], ◌∷◌, Option, none, some, ok, ◌≡◌,
  refl, sym, ap, subst, ◌∙◌, arith, cell?-set_cell, >>=-eq-ok, ok-injective, Bool-cases, inl, inr,
  Dict, lookup, remove,
}
use aknode.Imesh.Types.{
  Hash, Header, header_tx_info, header_tx_reward_fee, header_tx_reward_ticket, Body, Txs, TxInfo,
  Spend, OutputStatus, Transaction, put, status_at, or_missing, or_panic, or_missing-eq-ok,
  or_panic-eq-ok,
}
use aknode.Imesh.Confirm.Marks.{Verdict, verdict_of, same_spend, spent_at, spent_in, flag}
use aknode.Imesh.Tables.{Tables}
use aknode.Imesh.Minable.{
  with_status, unmark, unmark_all, delete_minable_tx, displace, set_table, table_of,
}

-- The verdict and the number of what is stored.
abbrev pub core_of : Option TxInfo → Option (Verdict × ℕ)
core_of none = none
core_of (some ti) = some (verdict_of ti, ti.tx_no)

abbrev pub status_in : Option TxInfo → Spend → Option OutputStatus
status_in none s = none
status_in (some ti) s = status_at ti s

abbrev pub referred : Option OutputStatus → Bool
referred none = false
referred (some st) = st.is_referred

-- Whether IsReferred is set for an output.
abbrev pub referred_at : Txs → Spend → Bool
referred_at txs s = referred (status_in (txs s.previous_tx) s)

pub record Frame (a b : Txs) : Type 0 where
  pub core : (k : Hash) → core_of (b k) ≡ core_of (a k)
  pub spent : (s : Spend) → spent_at b s ≡ spent_at a s
  pub flagged : (s : Spend) → referred_at a s ≡ true → referred_at b s ≡ true

pub Frame-refl : (a : Txs) → Frame a a
Frame-refl a = record { core = λ k. refl; spent = λ s. refl; flagged = λ s e. e }

pub Frame-trans : (a b c : Txs) → Frame a b → Frame b c → Frame a c
Frame-trans a b c f g = record {
  core = λ k. g.core k ∙ f.core k;
  spent = λ s. g.spent s ∙ f.spent s;
  flagged = λ s e. g.flagged s (f.flagged s e);
}

same_spend_lem : (s t : Spend) → same_spend s t ≡ true → s ≡ t
same_spend_lem s t e = ground arith

pub spent_in-flag : (o : Option TxInfo) (s : Spend) → spent_in o s ≡ flag (status_in o s)
spent_in-flag none s = refl
spent_in-flag (some ti) s = refl

-- A record is written back with one cell changed.
module _ (txs : Txs) (s : Spend) (ti : TxInfo) (st : OutputStatus)
    (found : txs s.previous_tx ≡ some ti) (at : status_at ti s ≡ some st) (new : OutputStatus) where
  rewritten : Txs
  rewritten = put txs s.previous_tx (with_status ti s new)

  pub status-with_status :
      (t : Spend)
      → status_in (put txs s.previous_tx (with_status ti s new) t.previous_tx) t
        ≡ (if same_spend s t then some new else status_in (txs t.previous_tx) t)
  unfolding status_at
  status-with_status t = elim (Bool-cases (s.previous_tx == t.previous_tx)) [
    | inr other ↦ rw other refl
    | inl same ↦
        let here : txs t.previous_tx ≡ some ti =
          subst (λ (h : Hash). txs h ≡ some ti) ((==_iff s.previous_tx t.previous_tx).0 same)
            found in
        rw (same, here)
          (ground (arith, cell?-set_cell ti.output_status s.slot s.index t.slot t.index new, at))
  ]

  core-with_status :
      (k : Hash) → core_of (put txs s.previous_tx (with_status ti s new) k) ≡ core_of (txs k)
  core-with_status k = elim (Bool-cases (s.previous_tx == k)) [
    | inr other ↦ rw other refl
    | inl same ↦
        let here : txs k ≡ some ti =
          subst (λ (h : Hash). txs h ≡ some ti) ((==_iff s.previous_tx k).0 same) found in
        rw (same, here) refl
  ]

  before : (t : Spend) → same_spend s t ≡ true → status_in (txs t.previous_tx) t ≡ some st
  before t same =
      subst (λ (u : Spend). status_in (txs u.previous_tx) u ≡ some st) (same_spend_lem s t same)
        (rw found at)

  pub Frame-with_status :
      new.is_spent ≡ st.is_spent
      → (st.is_referred ≡ true → new.is_referred ≡ true)
      → Frame txs (put txs s.previous_tx (with_status ti s new))
  Frame-with_status spent flagged = record {
    core = core-with_status;
    spent = λ t.
        spent_in-flag _ t
        ∙ ap flag (status-with_status t)
        ∙ elim (Bool-cases (same_spend s t)) [
          | inl same ↦ rw (same, before t same, spent) refl
          | inr other ↦ rw other refl
        ]
        ∙ sym (spent_in-flag (txs t.previous_tx) t);
    flagged = λ t e. ap referred (status-with_status t) ∙ elim (Bool-cases (same_spend s t)) [
      | inl same ↦ rw same (flagged (rw (before t same) at e))
      | inr other ↦ rw other e
    ];
  }

unmark-Frame : (s : Spend) (txs txs' : Txs) → unmark s txs ≡ ok txs' → Frame txs txs'
unfolding unmark
unmark-Frame s txs txs' e =
    let (ti, get, e1) = >>=-eq-ok (or_missing (txs s.previous_tx)) _ e in
    let (st, got, e2) = >>=-eq-ok (or_panic (status_at ti s)) _ e1 in
    subst (Frame txs) (ok-injective e2) (
      Frame-with_status txs s ti st (or_missing-eq-ok _ get) (or_panic-eq-ok _ got)
        (record st { used_by_minable = none }) refl (λ r. r))

unmark_all-Frame : (ss : List Spend) (txs txs' : Txs) → unmark_all ss txs ≡ ok txs' → Frame txs txs'
unfolding unmark_all
unmark_all-Frame [] txs txs' e = subst (Frame txs) (ok-injective e) (Frame-refl txs)
unmark_all-Frame (s ∷ ss) txs txs' e =
    let (txs1, e1, e2) = >>=-eq-ok (unmark s txs) _ e in
    Frame-trans txs txs1 txs' (unmark-Frame s txs txs1 e1) (unmark_all-Frame ss txs1 txs' e2)

pub txs-set_table :
    (header : Header) (m : Dict Transaction) (t : Tables) → (set_table header m t).txs ≡ t.txs
txs-set_table header_tx_info m t = refl
txs-set_table header_tx_reward_ticket m t = refl
txs-set_table header_tx_reward_fee m t = refl

-- Of the other tables, only those of minable transactions change.
pub record Quiet (a b : Tables) : Type 0 where
  pub frame : Frame a.txs b.txs
  pub sigs : b.sigs ≡ a.sigs

Quiet-set_table :
    (header : Header) (m : Dict Transaction) (t : Tables) (txs : Txs)
    → Frame t.txs txs
    → Quiet t (record (set_table header m t) { txs = txs })
Quiet-set_table header_tx_info m t txs f = record { frame = f; sigs = refl }
Quiet-set_table header_tx_reward_ticket m t txs f = record { frame = f; sigs = refl }
Quiet-set_table header_tx_reward_fee m t txs f = record { frame = f; sigs = refl }

module _ (input_hashes : Body → List Spend) where
  pub delete_minable_tx-Quiet :
      (h : Hash) (header : Header) (t t' : Tables)
      → delete_minable_tx input_hashes h header t ≡ ok t'
      → Quiet t t'
  unfolding delete_minable_tx
  delete_minable_tx-Quiet h header t t' e =
      let (min_tx, get, e1) = >>=-eq-ok (or_missing (lookup h (table_of header t))) _ e in
      let t1 = set_table header (remove h (table_of header t)) t in
      let (txs, run, e2) = >>=-eq-ok (unmark_all (input_hashes min_tx.body) t1.txs) _ e1 in
      subst (Quiet t) (ok-injective e2) (
        Quiet-set_table header _ t txs (
          subst (λ (a : Txs). Frame a txs) (txs-set_table header _ t)
            (unmark_all-Frame (input_hashes min_tx.body) t1.txs txs run)))

  pub displace-Quiet :
      (m : Option (Hash × Header)) (t t' : Tables) → displace input_hashes m t ≡ ok t' → Quiet t t'
  unfolding displace
  displace-Quiet none t t' e =
      subst (Quiet t) (ok-injective e) (record { frame = Frame-refl t.txs; sigs = refl })
  displace-Quiet (some m) t t' e = delete_minable_tx-Quiet m.0 m.1 t t' e
