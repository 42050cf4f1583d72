-- ===== src/Imesh/Rounds/Returns.antt =====
-- The recursions of a confirmation end: fuel above the rank of the start is enough.
use aknode.Base.{
  false, true, err, refused, ℕ, zero, suc, ◌<◌, ◌==◌, List, [], ◌∷◌, ◌++◌, Option, none, some,
  contains, Result, ok, ◌≡◌, refl, ◌∙◌, arith, Bool-cases, inl, inr, In, All, All-imp, add,
}
use aknode.Imesh.Types.{
  Hash, Txs, TxInfo, Body, Spend, StatNo, is_confirmed, references, spends, status_pending,
}
use aknode.Imesh.Confirm.{visit_all, confirm_pending, confirm}
use aknode.Imesh.Confirm.Marks.{judged}
use aknode.Imesh.Confirm.Writes.{IsRanked, body_at, body_in, Writes-body_at, settle-Writes}
use aknode.Imesh.Confirm.Steps.{
  Settles, Settles-IsWriting, Steps_keep, Steps_frame, step-IsRanked, confirm-Traced,
  visit_all-Traced,
}
use aknode.Imesh.Conflict.{Claims, Checked, merge, nothing, gather, claim_all, check_conflict}
use aknode.Imesh.Rounds.{update, confirm_checked, confirm_in}
use aknode.Imesh.Rounds.Total.{IsWhole, step-IsWhole, settle_total}

abbrev pub Returns {ℓ} : {A : Type ℓ} → Result A → Type ℓ
Returns {A} r = (a : A) × (r ≡ ok a)

info_of :
    (o : Option TxInfo) (b : Body)
    → body_in (judged o) ≡ some b
    → (ti : TxInfo) × (o ≡ some ti) × (ti.body ≡ b)
info_of none b e = cc
info_of (some ti) b e = (ti, refl, cc)

abbrev Present : Txs → List Hash → Type 0
Present db ps = (p : Hash) → In p ps → (c : Body) × (body_at db p ≡ some c)

module _ (rank : Hash → ℕ) (reject_txs : List Hash) (stat : StatNo) where
  -- What the calls of `confirm` keep for the calls after them.
  record Keeps (db db' : Txs) : Type 0 where
    ranked : IsRanked rank db'
    whole : IsWhole db'
    bodies : (k : Hash) → body_at db' k ≡ body_at db k

  step-Keeps :
      (db d : Txs) (h : Hash) (d' : Txs) → Settles reject_txs stat d h d' → Keeps db d → Keeps db d'
  step-Keeps db d h d' s k = record {
    ranked =
        step-IsRanked (Settles reject_txs stat) (Settles-IsWriting reject_txs stat) rank d h d' s
          k.ranked;
    whole = step-IsWhole rank reject_txs stat d h d' s k.whole;
    bodies = λ x.
        Writes-body_at (settle-Writes reject_txs stat h s.ti d s.result) s.found x ∙ k.bodies x;
  }

  confirm-Keeps :
      (fuel : ℕ) (p : Hash) (db db' : Txs) (hs : List Hash)
      → IsRanked rank db
      → IsWhole db
      → confirm fuel reject_txs stat p db ≡ ok (db', hs)
      → Keeps db db'
  confirm-Keeps fuel p db db' hs ranked whole e =
      let t = confirm-Traced reject_txs stat rank fuel p db db' hs ranked e in
      Steps_keep (Settles reject_txs stat) (Keeps db) (step-Keeps db) db t.order db' t.steps
        (record { ranked = ranked; whole = whole; bodies = λ k. refl })

  abbrev IsTotal : ℕ → Type 0
  IsTotal fuel =
      (h : Hash) (db : Txs) (b : Body)
      → IsRanked rank db
      → IsWhole db
      → body_at db h ≡ some b
      → rank h < fuel
      → Returns (confirm fuel reject_txs stat h db)

  visit_all_total :
      (fuel : ℕ) (ps : List Hash) (db : Txs)
      → IsTotal fuel
      → IsRanked rank db
      → IsWhole db
      → Present db ps
      → All (λ p. rank p < fuel) ps
      → Returns (visit_all (confirm fuel reject_txs stat) ps db)
  unfolding visit_all
  visit_all_total fuel [] db ih ranked whole here below = ((db, []), refl)
  visit_all_total fuel (p ∷ ps) db ih ranked whole here below =
      let (b, there) = here p (inl refl) in
      let ((db1, hs1), first) = ih p db b ranked whole there below.0 in
      let k = confirm-Keeps fuel p db db1 hs1 ranked whole first in
      let ((db2, hs2), rest) =
        visit_all_total fuel ps db1 ih k.ranked k.whole
          (λ q m. let (c, old) = here q (inr m) in (c, k.bodies q ∙ old)) below.1 in
      ((db2, hs1 ++ hs2), rw (first, rest))

  confirm_pending_total :
      (fuel : ℕ) (h : Hash) (db : Txs) (ti : TxInfo)
      → IsTotal fuel
      → IsRanked rank db
      → IsWhole db
      → db h ≡ some ti
      → rank h < suc fuel
      → Returns (confirm_pending (confirm fuel reject_txs stat) reject_txs stat h ti db)
  unfolding confirm_pending
  confirm_pending_total fuel h db ti ih ranked whole found lt =
      let R = Settles reject_txs stat in
      let below = ranked.at h ti.body (rw found) in
      let ((db1, hs), visited) =
        visit_all_total fuel (references ti.body) db ih ranked whole
          (whole.refs h ti.body (rw found))
          (All-imp (λ p. rank p < rank h) (λ p. rank p < fuel) (references ti.body)
            (λ p l. omega arith) below) in
      let t =
        visit_all-Traced R (Settles-IsWriting reject_txs stat) rank ◌≡◌ refl (λ xs ys cs ds p q. cc)
          (confirm fuel reject_txs stat) (rank h) (confirm-Traced reject_txs stat rank fuel)
          (references ti.body) db below ranked visited in
      let same =
        Steps_frame R (Settles-IsWriting reject_txs stat) rank h db t.order db1 t.steps ranked
          t.below in
      let whole1 =
        Steps_keep R IsWhole (step-IsWhole rank reject_txs stat) db t.order db1 t.steps whole in
      let (db2, done) = settle_total rank reject_txs stat db1 h ti (same ∙ found) whole1 in
      ((db2, hs ++ h ∷ []), rw (visited, done))

  confirm_if :
      (fuel : ℕ) (h : Hash) (db : Txs) (ti : TxInfo)
      → db h ≡ some ti
      → Returns (confirm_pending (confirm fuel reject_txs stat) reject_txs stat h ti db)
      → Returns (confirm (suc fuel) reject_txs stat h db)
  unfolding confirm
  confirm_if fuel h db ti found (r, e) = elim (Bool-cases (is_confirmed ti)) [
    | inl done ↦ ((db, []), rw (found, done))
    | inr pending ↦ (r, rw (found, pending) e)
  ]

  -- `confirm` returns from every stored transaction whose rank is below the fuel.
  pub confirm_done : (fuel : ℕ) → IsTotal fuel
  unfolding confirm
  confirm_done zero h db b ranked whole there lt = absurd (omega arith)
  confirm_done (suc fuel) h db b ranked whole there lt =
      let (ti, found, same) = info_of (db h) b there in
      confirm_if fuel h db ti found
        (confirm_pending_total fuel h db ti (confirm_done fuel) ranked whole found lt)

module _ (rank : Hash → ℕ) (serialize : Spend → ℕ) (db : Txs) (ranked : IsRanked rank db)
    (whole : IsWhole db) where
  gather_total :
      (visit : Hash → List Hash → Result Checked) (bound : ℕ)
      → ((p : Hash) (visited : List Hash) (b : Body)
          → body_at db p ≡ some b
          → rank p < bound
          → Returns (visit p visited))
      → (ps : List Hash) (c : Claims) (visited : List Hash) → Present db ps
      → All (λ p. rank p < bound) ps
      → Returns (gather visit ps c visited)
  unfolding gather
  gather_total visit bound ih [] c visited here below = ((c, visited), refl)
  gather_total visit bound ih (p ∷ ps) c visited here below =
      let (b, there) = here p (inl refl) in
      let ((found, visited1), first) = ih p visited b there below.0 in
      let (out, rest) =
        gather_total visit bound ih ps (merge c found.base found.conflicts) visited1
          (λ q m. here q (inr m)) below.1 in
      (out, rw (first, rest))

  check_if :
      (fuel : ℕ) (h : Hash) (visited : List Hash) (ti : TxInfo)
      → db h ≡ some ti
      → Returns (gather (check_conflict serialize fuel db) (references ti.body) nothing visited)
      → Returns (check_conflict serialize (suc fuel) db h visited)
  unfolding check_conflict
  check_if fuel h visited ti found ((c, visited1), e) = elim (Bool-cases (contains visited h)) [
    | inl seen ↦ ((nothing, visited), rw seen)
    | inr new ↦ elim (Bool-cases (ti.stat_no == status_pending)) [
      | inl pending ↦ (
        (record c { base = claim_all serialize h (spends ti.body) c.base }, add h visited1),
        rw (new, found, pending, e),
      )
      | inr settled ↦ ((nothing, visited), rw (new, found, settled))
    ]
  ]

  pub check_conflict_total :
      (fuel : ℕ) (h : Hash) (visited : List Hash) (b : Body)
      → body_at db h ≡ some b
      → rank h < fuel
      → Returns (check_conflict serialize fuel db h visited)
  check_conflict_total zero h visited b there lt = absurd (omega arith)
  check_conflict_total (suc fuel) h visited b there lt =
      let (ti, found, same) = info_of (db h) b there in
      check_if fuel h visited ti found (
        gather_total (check_conflict serialize fuel db) (rank h)
          (λ p vs c e l. check_conflict_total fuel p vs c e (omega arith)) (references ti.body)
          nothing visited (whole.refs h ti.body (cc)) (ranked.at h ti.body (cc)))

  -- In a ledger in which references have smaller ranks, every referenced transaction is stored
  -- and every spent output exists, for Confirm of a stored transaction whose rank is below the
  -- fuel: if the database takes the writes, it returns a list and no error; if the database
  -- refuses a write or the commit, it returns that error and the ledger is as it was.
  pub confirm_in_total :
      (fuel : ℕ) (h : Hash) (stat : StatNo) (b : Body)
      → body_at db h ≡ some b
      → rank h < fuel
      → ((hs : List Hash) × ((confirm_in true serialize fuel h stat db).0 ≡ ok hs))
        × (confirm_in false serialize fuel h stat db ≡ (err refused, db))
  unfolding confirm_in confirm_checked update
  confirm_in_total fuel h stat b there lt =
      let ((c, visited), checked) = check_conflict_total fuel h [] b there lt in
      let ((db', hs), done) =
        confirm_done rank c.conflicts stat fuel h db b ranked whole there lt in
      ((hs, rw (checked, done) refl), rw checked refl)
