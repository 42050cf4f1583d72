-- ===== src/Imesh/Confirm/Spending.antt =====
-- No double spending: two accepted transactions never spend one output.
use aknode.Base.{
  ◌==◌, ==_iff, if◌then◌else◌, Bool, true, false, List, [], some, ok, ◌≡◌, refl, sym, ap, ◌∙◌,
  arith, subst, ◌⊎◌, In, Bool-cases, inl, inr,
}
use aknode.Imesh.Types.{Hash, Txs, TxInfo, Spend, StatNo, spends, put}
use aknode.Imesh.Confirm.{mark_all, settled}
use aknode.Imesh.Confirm.Marks.{verdict, verdict_of, Verdict, spent_at, among}
use aknode.Imesh.Confirm.Writes.{Refuses, Accepts, settle_cases}
use aknode.Imesh.Confirm.Steps.{Settles}
use aknode.Imesh.Confirm.Effects.{
  accepted, verdict-write, spent_at-write, any_blocked_free, among_of_In,
}

-- `h` is stored, accepted, and has `s` among its inputs.
pub record Takes (db : Txs) (h : Hash) (s : Spend) : Type 0 where
  pub v : Verdict
  pub stored : verdict db h ≡ some v
  pub granted : accepted v ≡ true
  pub takes : In s (spends v.body)

pub record NoDoubleSpend (db : Txs) : Type 0 where
  pub flagged : (h : Hash) (s : Spend) → Takes db h s → spent_at db s ≡ some true
  pub unique : (h k : Hash) (s : Spend) → Takes db h s → Takes db k s → h ≡ k

-- Who takes an output after a step: the transaction that was written, or one that took it before.
module _ (v : Bool) (db : Txs) {db' : Txs} (h : Hash) (new : TxInfo) (ss : List Spend)
    (run : mark_all v ss (put db h new) ≡ ok db') where
  pub Takes_cases :
      (k : Hash) (o : Spend)
      → Takes db' k o
      → ((h ≡ k) × (accepted (verdict_of new) ≡ true) × In o (spends new.body))
        ⊎ ((h == k) ≡ false) × Takes db k o
  Takes_cases k o t = elim (Bool-cases (h == k)) [
    | inl e ↦
        let same : some (verdict_of new) ≡ some t.v =
          rw e at (sym (verdict-write v db h new ss run k) ∙ t.stored) in
        let eq : verdict_of new ≡ t.v = cc in
        inl (
          (==_iff h k).0 e,
          rw eq t.granted,
          subst (λ (w : Verdict). In o (spends w.body)) (sym eq) t.takes,
        )
    | inr e ↦ inr (
      e,
      record {
        v = t.v;
        stored = rw e at (sym (verdict-write v db h new ss run k) ∙ t.stored);
        granted = t.granted;
        takes = t.takes;
      },
    )
  ]

module _ (reject_txs : List Hash) (stat : StatNo) (db : Txs) (h : Hash) (db' : Txs)
    (s : Settles reject_txs stat db h db') (inv : NoDoubleSpend db) where
  Refuses-NoDoubleSpend : Refuses reject_txs stat h s.ti db db' → NoDoubleSpend db'
  unfolding mark_all accepted settled among
  Refuses-NoDoubleSpend r = record {
    flagged = λ k o t.
        spent_at-write true db h (settled s.ti stat true) [] run s.ti o s.found refl
        ∙ inv.flagged k o (before k o t);
    unique = λ k l o t u. inv.unique k l o (before k o t) (before l o u);
  }
    where
      run : mark_all true [] (put db h (settled s.ti stat true)) ≡ ok db'
      run = ap ok (sym r.result)

      before : (k : Hash) (o : Spend) → Takes db' k o → Takes db k o
      before k o t = elim (Takes_cases true db h (settled s.ti stat true) [] run k o t) [
        | inl (_, granted, _) ↦ absurd (ground arith)
        | inr (_, old) ↦ old
      ]

  Accepts-NoDoubleSpend : Accepts reject_txs stat h s.ti db db' → NoDoubleSpend db'
  unfolding settled
  Accepts-NoDoubleSpend a = record {
    flagged = λ k o t. flags o ∙ elim (cases k o t) [
      | inl (_, _, m) ↦ rw (among_of_In o (spends s.ti.body) m)
      | inr (_, old) ↦ ground (arith, inv.flagged k o old)
    ];
    unique = λ k l o t u. elim (cases k o t) [
      | inl (e, _, m) ↦ elim (cases l o u) [
        | inl (e', _, _) ↦ sym e ∙ e'
        | inr (_, old) ↦ absurd (clash l o m old)
      ]
      | inr (_, old) ↦ elim (cases l o u) [
        | inl (_, _, m) ↦ absurd (clash k o m old)
        | inr (_, old') ↦ inv.unique k l o old old'
      ]
    ];
  }
    where
      cases :
          (k : Hash) (o : Spend)
          → Takes db' k o
          → ((h ≡ k)
              × (accepted (verdict_of (settled s.ti stat false)) ≡ true)
              × In o (spends s.ti.body))
            ⊎ ((h == k) ≡ false) × Takes db k o
      cases = Takes_cases true db h (settled s.ti stat false) (spends s.ti.body) a.result

      flags :
          (o : Spend)
          → spent_at db' o ≡ (if among (spends s.ti.body) o then some true else spent_at db o)
      flags o =
          spent_at-write true db h (settled s.ti stat false) (spends s.ti.body) a.result s.ti o
            s.found refl

      clash : (k : Hash) (o : Spend) → In o (spends s.ti.body) → Takes db k o → ⊥
      clash k o m old =
          cc (inv.flagged k o old, (any_blocked_free db o (spends s.ti.body) a.free m).0)

  -- A step of `confirm` keeps the ledger free of double spends.
  pub Settles-NoDoubleSpend : NoDoubleSpend db'
  Settles-NoDoubleSpend = elim (settle_cases reject_txs stat h s.ti db s.result) [
    | inl r ↦ Refuses-NoDoubleSpend r
    | inr a ↦ Accepts-NoDoubleSpend a
  ]
