-- ===== src/Imesh/Rounds/Verdicts.antt =====
-- Which verdicts a confirmation changes, and how.
use aknode.Base.{
  ℕ, zero, suc, ◌==◌, ==_iff, if◌then◌else◌, Bool, true, false, not, ◌||◌, List, [], ◌∷◌, Option,
  none, some, contains, contains-append, Result, ok, err, ok-injective, >>=-eq-ok, ◌≡◌, ◌≢◌, refl,
  sym, ◌∙◌, ap, arith, Bool-cases, ◌⊎◌, inl, inr, subst,
}
use aknode.Imesh.Types.{
  Hash, Txs, Spend, StatNo, is_confirmed, spends, references, or_missing, or_missing-eq-ok,
}
use aknode.Imesh.Confirm.{settled, mark_all, visit_all, settle, confirm_pending, confirm}
use aknode.Imesh.Conflict.{Claims, Checked, check_conflict}
use aknode.Imesh.Rounds.{update, confirm_checked, confirm_in, confirm_from}
use aknode.Imesh.Confirm.Marks.{verdict, verdict_of, Verdict}
use aknode.Imesh.Confirm.Writes.{IsRanked, settle_cases}
use aknode.Imesh.Confirm.Steps.{Settles, Steps, confirm-Traced}
use aknode.Imesh.Confirm.Effects.{verdict-write}

-- From pending to the verdict of round `stat`.
pub record Settled (reject_txs : List Hash) (stat : StatNo) (k : Hash)
    (before after : Option Verdict) : Type 0 where
  pub v : Verdict
  pub w : Verdict
  pub old : before ≡ some v
  pub pending : v.stat_no ≡ 0
  pub new : after ≡ some w
  pub round : w.stat_no ≡ stat
  pub kept : w.body ≡ v.body
  -- a loser is rejected
  pub lost : contains reject_txs k ≡ true → w.is_rejected ≡ true

abbrev pub Change : Bool → List Hash → StatNo → Hash → Option Verdict → Option Verdict → Type 0
Change true reject_txs stat k before after = Settled reject_txs stat k before after
Change false reject_txs stat k before after = after ≡ before

abbrev pub confirmed_at : Option Verdict → Bool
confirmed_at none = false
confirmed_at (some v) = not (v.stat_no == 0)

module _ (reject_txs : List Hash) (stat : StatNo) where
  settle_verdict :
      (db : Txs) (h : Hash) (db' : Txs)
      → (s : Settles reject_txs stat db h db')
      → (reject : Bool) × (contains reject_txs h ≡ true → reject ≡ true)
        × ((k : Hash)
            → verdict db' k
              ≡ (if h == k then some (verdict_of (settled s.ti stat reject)) else verdict db k))
  unfolding mark_all
  settle_verdict db h db' s = elim (settle_cases reject_txs stat h s.ti db s.result) [
    | inl r ↦ (
      true,
      (λ e. refl),
      verdict-write true db h (settled s.ti stat true) [] (ap ok (sym r.result)),
    )
    | inr a ↦ (
      false,
      (λ e. cc a.allowed),
      verdict-write true db h (settled s.ti stat false) (spends s.ti.body) a.result,
    )
  ]

  settle_Change :
      (db : Txs) (h : Hash) (db' : Txs) (k : Hash)
      → Settles reject_txs stat db h db'
      → Change (h == k) reject_txs stat k (verdict db k) (verdict db' k)
  unfolding settled is_confirmed
  settle_Change db h db' k s =
      let (reject, lost, writes) = settle_verdict db h db' s in
      elim (Bool-cases (h == k)) [
        | inr other ↦ rw other (writes k ∙ rw other)
        | inl same ↦
            let here : h ≡ k = (==_iff h k).0 same in
            rw same (record {
              v = verdict_of s.ti;
              w = verdict_of (settled s.ti stat reject);
              old = rw (← here, s.found);
              pending = ground (arith, s.pending);
              new = writes k ∙ rw same;
              round = refl;
              kept = refl;
              lost = λ e. rw (lost (rw here e));
            })
      ]

  -- Two changes of one transaction: at most one of them is a verdict.
  Change-trans :
      (a b : Bool) (k : Hash) (x y z : Option Verdict)
      → stat ≢ 0
      → Change a reject_txs stat k x y
      → Change b reject_txs stat k y z
      → Change (a || b) reject_txs stat k x z
  Change-trans true true k x y z ne p q = absurd (
      ne (
        let same : p.w ≡ q.v = cc in
        sym p.round ∙ ap (λ (u : Verdict). u.stat_no) same ∙ q.pending))
  Change-trans true false k x y z ne p q = subst (Settled reject_txs stat k x) (sym q) p
  Change-trans false true k x y z ne p q = subst (λ o. Settled reject_txs stat k o z) p q
  Change-trans false false k x y z ne p q = q ∙ p

  Steps_Change :
      (db : Txs) (hs : List Hash) (db' : Txs) (k : Hash)
      → stat ≢ 0
      → Steps (Settles reject_txs stat) db hs db'
      → Change (contains hs k) reject_txs stat k (verdict db k) (verdict db' k)
  unfolding contains
  Steps_Change db [] db' k ne e = ap (λ (d : Txs). verdict d k) (sym e)
  Steps_Change db (h ∷ hs) db' k ne (mid, step, rest) =
      Change-trans (h == k) (contains hs k) k (verdict db k) (verdict mid k) (verdict db' k) ne
        (settle_Change db h mid k step) (Steps_Change mid hs db' k ne rest)

confirmed_after :
    (b : Bool) (reject_txs : List Hash) (stat : StatNo) (h : Hash) (x y : Option Verdict)
    → stat ≢ 0
    → (confirmed_at x ≡ true) ⊎ (b ≡ true)
    → Change b reject_txs stat h x y
    → confirmed_at y ≡ true
confirmed_after true reject_txs stat h x y ne c s = rw s.new (ground (arith, s.round))
confirmed_after false reject_txs stat h x y ne (inl done) s = rw s done
confirmed_after false reject_txs stat h x y ne (inr listed) s = cc

confirm-lists :
    (fuel : ℕ) (reject_txs : List Hash) (stat : StatNo) (h : Hash) (db : Txs) {db' : Txs}
    {hs : List Hash}
    → confirm fuel reject_txs stat h db ≡ ok (db', hs)
    → (confirmed_at (verdict db h) ≡ true) ⊎ (contains hs h ≡ true)
unfolding confirm confirm_pending is_confirmed contains
confirm-lists zero reject_txs stat h db e = cc
confirm-lists (suc fuel) reject_txs stat h db e =
    let (ti, get, e1) = >>=-eq-ok (or_missing (db h)) _ e in
    let found = or_missing-eq-ok (db h) get in
    elim (Bool-cases (is_confirmed ti)) [
      | inl done ↦ inl (rw found done)
      | inr pending ↦
          let ((db1, hs1), _, e2) =
            >>=-eq-ok (visit_all (confirm fuel reject_txs stat) (references ti.body) db) _
              (rw pending at e1) in
          let (db2, _, e3) = >>=-eq-ok (settle reject_txs stat h ti db1) _ e2 in
          inr (
            subst (λ (t : Txs × List Hash). contains t.1 h ≡ true) (ok-injective e3)
              (contains-append h hs1 (h ∷ []) ∙ ground arith))
    ]

pub update_inv :
    (r : Result (Txs × List Hash)) (db db' : Txs) (hs : List Hash)
    → update true r db ≡ (ok hs, db')
    → r ≡ ok (db', hs)
unfolding update
update_inv (ok (d, ks)) db db' hs e =
    let same : ks ≡ hs = ok-injective (ap (λ (t : Result (List Hash) × Txs). t.0) e) in
    λ i. ok ((e i).1, same i)
update_inv (err x) db db' hs e = cc (ap (λ (t : Result (List Hash) × Txs). t.0) e)

confirm_checked_inv :
    (r : Result Checked) (fuel : ℕ) (stat : StatNo) (h : Hash) (db db' : Txs) (hs : List Hash)
    → confirm_checked true r fuel stat h db ≡ (ok hs, db')
    → (c : Claims) × (visited : List Hash) × (r ≡ ok (c, visited))
      × (confirm fuel c.conflicts stat h db ≡ ok (db', hs))
unfolding confirm_checked
confirm_checked_inv (err x) fuel stat h db db' hs e =
    cc (ap (λ (t : Result (List Hash) × Txs). t.0) e)
confirm_checked_inv (ok (c, visited)) fuel stat h db db' hs e =
    (c, visited, refl, update_inv (confirm fuel c.conflicts stat h db) db db' hs e)

-- A confirmation that returns came from a check for conflicts that returned.
pub confirm_from_inv :
    (serialize : Spend → ℕ) (fuel : ℕ) (h : Hash) (stat : StatNo) (db db' : Txs) (hs : List Hash)
    → confirm_from serialize fuel h stat db ≡ (ok hs, db')
    → (c : Claims) × (visited : List Hash) × (check_conflict serialize fuel db h []
        ≡ ok (c, visited))
      × (confirm fuel c.conflicts stat h db ≡ ok (db', hs))
unfolding confirm_from confirm_in
confirm_from_inv serialize fuel h stat db db' hs e =
    confirm_checked_inv (check_conflict serialize fuel db h []) fuel stat h db db' hs e

-- In a ledger in which references have smaller ranks, for a confirmation that returns the list
-- `hs` in a round that is not StatusPending: checkConflict returned; every transaction of the
-- list was pending, now has the verdict of this round and its body is as it was, and is rejected
-- if checkConflict named it a loser; every other transaction has the verdict that it had; and the
-- transaction from which the confirmation started is confirmed.
pub confirm_from-Change :
    (rank : Hash → ℕ) (serialize : Spend → ℕ) (fuel : ℕ) (h : Hash) (stat : StatNo) (db db' : Txs)
    (hs : List Hash)
    → IsRanked rank db
    → stat ≢ 0
    → confirm_from serialize fuel h stat db ≡ (ok hs, db')
    → (c : Claims) × (visited : List Hash) × (check_conflict serialize fuel db h []
        ≡ ok (c, visited))
      × ((k : Hash) → Change (contains hs k) c.conflicts stat k (verdict db k) (verdict db' k))
      × (confirmed_at (verdict db' h) ≡ true)
confirm_from-Change rank serialize fuel h stat db db' hs ranked ne e =
    let (c, visited, checked, run) = confirm_from_inv serialize fuel h stat db db' hs e in
    let t = confirm-Traced c.conflicts stat rank fuel h db db' hs ranked run in
    let changes = λ (k : Hash).
      subst
        (λ (l : List Hash). Change (contains l k) c.conflicts stat k (verdict db k) (verdict db' k))
        t.listed (Steps_Change c.conflicts stat db t.order db' k ne t.steps) in
    (
      c,
      visited,
      checked,
      changes,
      confirmed_after (contains hs h) c.conflicts stat h (verdict db h) (verdict db' h) ne
          (confirm-lists fuel c.conflicts stat h db run) (changes h),
    )
