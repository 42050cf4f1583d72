-- ===== src/Imesh/Confirm/Reverts.antt =====
-- `revertConfirmation` as a sequence of steps, and what a step keeps.
use mathlib.Core.List.{Perm, perm_middle, append-nil}
use mathlib.Core.List.Perm
use aknode.Base.{
  ℕ, zero, suc, ◌<◌, ◌==◌, ==_iff, true, false, List, [], ◌∷◌, ◌++◌, some, ok, ◌≡◌, ◌≢◌, refl,
  subst, ◌∙◌, arith, >>=-eq-ok, ok-injective, All-append, All-imp, Bool-cases, inl, inr, In,
}
use aknode.Imesh.Types.{
  Hash, Txs, TxInfo, Spend, StatNo, references, spends, or_missing, or_missing-eq-ok, put,
}
use aknode.Imesh.Confirm.{
  visit_all, unsettle, revert_round, revert_confirmation, pending_again, mark_all,
}
use aknode.Imesh.Confirm.Marks.{verdict_of, among}
use aknode.Imesh.Confirm.Writes.{IsRanked}
use aknode.Imesh.Confirm.Steps.{
  Unsettles, Unsettles-IsWriting, Traced, IsTraced, visit_all-Traced, Steps_frame, Steps-append,
}
use aknode.Imesh.Confirm.Effects.{accepted, spent_at-write, In-of_among}
use aknode.Imesh.Confirm.Spending.{Takes, Takes_cases, NoDoubleSpend}

module _ (stat : StatNo) (rank : Hash → ℕ) where
  abbrev RevertTraced : ℕ → Txs → List Hash → Txs → Type 0
  RevertTraced = Traced (Unsettles stat) (Unsettles-IsWriting stat) rank Perm

  abbrev IsRevertTraced : ℕ → Type 0
  IsRevertTraced fuel =
      IsTraced (Unsettles stat) (Unsettles-IsWriting stat) rank Perm (revert_confirmation fuel stat)

  revert_round-Traced :
      (fuel : ℕ) (h : Hash) (db db' : Txs) (hs : List Hash)
      → IsRanked rank db
      → (ti : TxInfo) → db h ≡ some ti
      → ti.stat_no ≡ stat
      → IsRevertTraced fuel
      → revert_round (revert_confirmation fuel stat) h ti db ≡ ok (db', hs)
      → RevertTraced (suc (rank h)) db hs db'
  unfolding revert_round
  revert_round-Traced fuel h db db' hs ranked ti found of_round ih e =
      let visit = revert_confirmation fuel stat in
      let ((db1, hs1), visited, e1) = >>=-eq-ok (visit_all visit (references ti.body) db) _ e in
      let (db2, result, e2) = >>=-eq-ok (unsettle h ti db1) _ e1 in
      let t =
        visit_all-Traced (Unsettles stat) (Unsettles-IsWriting stat) rank Perm Perm.nil
          (λ xs ys cs ds p q. Perm.append p q) visit (rank h) ih (references ti.body) db
          (ranked.at h ti.body (rw found)) ranked visited in
      let same =
        Steps_frame (Unsettles stat) (Unsettles-IsWriting stat) rank h db t.order db1 t.steps ranked
          t.below in
      let step : Unsettles stat db1 h db2 = record {
        ti = ti;
        found = same ∙ found;
        of_round = of_round;
        result = result;
      } in
      subst (λ (t : Txs × List Hash). RevertTraced (suc (rank h)) db t.1 t.0) (ok-injective e2)
        (record {
          order = t.order ++ h ∷ [];
          steps =
              Steps-append (Unsettles stat) db t.order db1 (h ∷ []) db2 t.steps (db2, step, refl);
          below =
              All-append (λ x. rank x < suc (rank h)) t.order (h ∷ [])
                (All-imp (λ x. rank x < rank h) (λ x. rank x < suc (rank h)) t.order
                  (λ x lt. omega arith) t.below)
                (omega arith);
          listed =
              Perm.trans (rw append-nil at (perm_middle {a = h} t.order [])) (Perm.cons h t.listed);
        })

  -- `revertConfirmation` makes pending the transactions that it returns, in some order.
  pub revert-Traced : (fuel : ℕ) → IsRevertTraced fuel
  unfolding revert_confirmation
  revert-Traced zero h db db' hs ranked e = cc
  revert-Traced (suc fuel) h db db' hs ranked e =
      let (ti, get, e1) = >>=-eq-ok (or_missing (db h)) _ e in
      let found = or_missing-eq-ok (db h) get in
      elim (Bool-cases (ti.stat_no == stat)) [
        | inl same ↦
            revert_round-Traced fuel h db db' hs ranked ti found ((==_iff ti.stat_no stat).0 same)
              (revert-Traced fuel) (rw same at e1)
        | inr other ↦
            subst (λ (t : Txs × List Hash). RevertTraced (suc (rank h)) db t.1 t.0)
              (ok-injective (rw other at e1))
              (record { order = []; steps = refl; below = tt; listed = Perm.nil })
      ]

module _ (stat : StatNo) (round : stat ≢ 0) (db : Txs) (h : Hash) (db' : Txs)
    (s : Unsettles stat db h db') (inv : NoDoubleSpend db) where
  -- The writes of the step, on both of its branches.
  module _ (ss : List Spend) (run : mark_all false ss (put db h (pending_again s.ti)) ≡ ok db')
      (own : (o : Spend) → among ss o ≡ true → Takes db h o) where
    before : (k : Hash) (o : Spend) → Takes db' k o → ((h == k) ≡ false) × Takes db k o
    unfolding pending_again accepted
    before k o t = elim (Takes_cases false db h (pending_again s.ti) ss run k o t) [
      | inl (_, granted, _) ↦ absurd (ground arith)
      | inr old ↦ old
    ]

    unsettled-NoDoubleSpend : NoDoubleSpend db'
    unfolding pending_again
    unsettled-NoDoubleSpend = record {
      flagged = λ k o t.
          spent_at-write false db h (pending_again s.ti) ss run s.ti o s.found refl
          ∙ elim (Bool-cases (among ss o)) [
            | inl m ↦ absurd (
                cc ((==_iff h k).1 (inv.unique h k o (own o m) (before k o t).1), (before k o t).0))
            | inr m ↦ rw m (inv.flagged k o (before k o t).1)
          ];
      unique = λ k l o t u. inv.unique k l o (before k o t).1 (before l o u).1;
    }

  own : (o : Spend) → s.ti.is_rejected ≡ false → In o (spends s.ti.body) → Takes db h o
  unfolding accepted
  own o r m = record {
    v = verdict_of s.ti;
    stored = rw s.found;
    granted = ground (arith, s.of_round);
    takes = m;
  }

  -- A step of `revertConfirmation` keeps the ledger free of double spends.
  pub Unsettles-NoDoubleSpend : NoDoubleSpend db'
  unfolding unsettle mark_all among
  Unsettles-NoDoubleSpend = elim (Bool-cases s.ti.is_rejected) [
    | inl r ↦ unsettled-NoDoubleSpend [] (rw (r, unsettle) at s.result) (λ o m. absurd (cc))
    | inr r ↦
        unsettled-NoDoubleSpend (spends s.ti.body) (rw (r, unsettle) at s.result)
          (λ o m. own o r (In-of_among o (spends s.ti.body) m))
  ]
