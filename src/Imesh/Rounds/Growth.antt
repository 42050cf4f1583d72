-- ===== src/Imesh/Rounds/Growth.antt =====
-- A store grows by new pending transactions whose references it has: what confirmation needs of it
-- is kept. The empty store has it.
use aknode.Base.{
  ℕ, ◌<◌, ◌==◌, ==_iff, if◌then◌else◌, Bool, true, Option, none, some, ◌≡◌, sym, ◌∙◌, ap,
  Bool-cases, ◌⊎◌, inl, inr, In, All, subst,
}
use aknode.Imesh.Types.{Hash, Txs, TxInfo, Body, Spend, references, spends, put}
use aknode.Imesh.Confirm.Marks.{verdict_of, Verdict, spent_at, spent_in, verdict-put}
use aknode.Imesh.Confirm.Writes.{IsRanked, body_at}
use aknode.Imesh.Confirm.Effects.{accepted}
use aknode.Imesh.Confirm.Spending.{Takes, NoDoubleSpend}
use aknode.Imesh.Rounds.Total.{IsWhole}

abbrev pub no_txs : Txs
no_txs k = none

pub no_txs-IsRanked : (rank : Hash → ℕ) → IsRanked rank no_txs
no_txs-IsRanked rank = record { at = λ k b e. cc }

pub no_txs-IsWhole : IsWhole no_txs
no_txs-IsWhole = record { refs = λ k b e. cc; cells = λ k b e. cc }

pub no_txs-NoDoubleSpend : NoDoubleSpend no_txs
no_txs-NoDoubleSpend = record { flagged = λ h s t. cc t.stored; unique = λ h k s t. cc t.stored }

module _ (db : Txs) (h : Hash) (ti : TxInfo) where
  body_at-put :
      (k : Hash) → body_at (put db h ti) k ≡ (if h == k then some ti.body else body_at db k)
  body_at-put k = elim (Bool-cases (h == k)) [ inl e ↦ rw e | inr e ↦ rw e ]

  body_cases :
      (k : Hash) (b : Body)
      → body_at (put db h ti) k ≡ some b
      → (h ≡ k) × (ti.body ≡ b) ⊎ (body_at db k ≡ some b)
  body_cases k b e = elim (Bool-cases (h == k)) [
    | inl same ↦
        let found : some ti.body ≡ some b = rw same at (sym (body_at-put k) ∙ e) in
        inl ((==_iff h k).0 same, cc)
    | inr other ↦ inr (rw other at (sym (body_at-put k) ∙ e))
  ]

  pub put-IsRanked :
      (rank : Hash → ℕ)
      → IsRanked rank db
      → All (λ p. rank p < rank h) (references ti.body)
      → IsRanked rank (put db h ti)
  put-IsRanked rank ranked below = record {
    at = λ k b e. elim (body_cases k b e) [
      | inl (same, body) ↦
          subst (λ (c : Body). All (λ p. rank p < rank k) (references c)) body
            (subst (λ (x : Hash). All (λ p. rank p < rank x) (references ti.body)) same below)
      | inr old ↦ ranked.at k b old
    ];
  }

  module _ (fresh : db h ≡ none) where
    later :
        (p : Hash)
        → (c : Body) × (body_at db p ≡ some c)
        → (c : Body) × (body_at (put db h ti) p ≡ some c)
    later p (c, there) = elim (Bool-cases (h == p)) [
      | inl same ↦
          let same_hash = (==_iff h p).0 same in
          let gone : db p ≡ none = subst (λ (x : Hash). db x ≡ none) same_hash fresh in cc there
      | inr other ↦ (c, body_at-put p ∙ rw other there)
    ]

    later_cell : (s : Spend) (f : Bool) → spent_at db s ≡ some f → spent_at (put db h ti) s ≡ some f
    later_cell s f there = elim (Bool-cases (h == s.previous_tx)) [
      | inl same ↦
          let gone : db s.previous_tx ≡ none =
            subst (λ (x : Hash). db x ≡ none) ((==_iff h s.previous_tx).0 same) fresh in
          cc (there, ap (λ (o : Option TxInfo). spent_in o s) gone)
      | inr other ↦ rw other there
    ]

    pub put-IsWhole :
        IsWhole db
        → ((p : Hash) → In p (references ti.body) → (c : Body) × (body_at db p ≡ some c))
        → ((s : Spend) → In s (spends ti.body) → (f : Bool) × (spent_at db s ≡ some f))
        → IsWhole (put db h ti)
    put-IsWhole whole refs cells = record {
      refs = λ k b e p m. elim (body_cases k b e) [
        | inl (_, body) ↦ later p (refs p (subst (λ (c : Body). In p (references c)) (sym body) m))
        | inr old ↦ later p (whole.refs k b old p m)
      ];
      cells = λ k b e s m. elim (body_cases k b e) [
        | inl (_, body) ↦
            let (f, there) = cells s (subst (λ (c : Body). In s (spends c)) (sym body) m) in
            (f, later_cell s f there)
        | inr old ↦ let (f, there) = whole.cells k b old s m in (f, later_cell s f there)
      ];
    }

    -- The new transaction takes nothing: it is not accepted, or it has no inputs.
    module _
        (idle : (s : Spend) → accepted (verdict_of ti) ≡ true → In s (spends ti.body) → ⊥) where
      took : (k : Hash) (s : Spend) → Takes (put db h ti) k s → Takes db k s
      took k s t = elim (Bool-cases (h == k)) [
        | inl same ↦
            let found : some (verdict_of ti) ≡ some t.v =
              rw same at (sym (verdict-put db h k ti) ∙ t.stored) in
            let eq : verdict_of ti ≡ t.v = cc in
            absurd (
              idle s (rw eq t.granted)
                (subst (λ (w : Verdict). In s (spends w.body)) (sym eq) t.takes))
        | inr other ↦ record {
          v = t.v;
          stored = rw other at (sym (verdict-put db h k ti) ∙ t.stored);
          granted = t.granted;
          takes = t.takes;
        }
      ]

      pub put-NoDoubleSpend : NoDoubleSpend db → NoDoubleSpend (put db h ti)
      put-NoDoubleSpend inv = record {
        flagged = λ k s t. later_cell s true (inv.flagged k s (took k s t));
        unique = λ k l s t u. inv.unique k l s (took k s t) (took l s u);
      }
