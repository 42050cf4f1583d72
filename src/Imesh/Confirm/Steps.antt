-- ===== src/Imesh/Confirm/Steps.antt =====
-- Confirmation and its reversal as sequences of steps, one for each transaction that changes.
use aknode.Base.{
  ℕ, zero, suc, ◌<◌, Bool, true, false, List, [], ◌∷◌, ◌++◌, some, Result, ok, ◌≡◌, refl, sym, ap,
  subst, ◌∙◌, arith, >>=-eq-ok, ok-injective, All, All-append, All-imp, Bool-cases, inl, inr,
}
use aknode.Imesh.Types.{
  Hash, Txs, TxInfo, StatNo, is_confirmed, references, or_missing, or_missing-eq-ok,
}
use aknode.Imesh.Confirm.{visit_all, settle, confirm_pending, confirm, unsettle}
use aknode.Imesh.Confirm.Writes.{
  Writes, IsRanked, Writes-body_at, Writes-frame, settle-Writes, unsettle-Writes,
}

-- A run of steps `R`, with the transactions that they change in order.
abbrev pub Steps : (Txs → Hash → Txs → Type 0) → Txs → List Hash → Txs → Type 0
Steps R db [] db' = db ≡ db'
Steps R db (h ∷ hs) db' = (mid : Txs) × R db h mid × Steps R mid hs db'

pub Steps-append :
    (R : Txs → Hash → Txs → Type 0) (db : Txs) (hs : List Hash) (mid : Txs) (ks : List Hash)
    (db' : Txs)
    → Steps R db hs mid
    → Steps R mid ks db'
    → Steps R db (hs ++ ks) db'
Steps-append R db [] mid ks db' e t = subst (λ d. Steps R d ks db') (sym e) t
Steps-append R db (h ∷ hs) mid ks db' (next, r, s) t =
    (next, r, Steps-append R next hs mid ks db' s t)

-- What a step keeps, a run keeps.
pub Steps_keep :
    (R : Txs → Hash → Txs → Type 0) (P : Txs → Type 0)
    → ((db : Txs) (h : Hash) (db' : Txs) → R db h db' → P db → P db')
    → (db : Txs) (hs : List Hash) (db' : Txs) → Steps R db hs db'
    → P db
    → P db'
Steps_keep R P keep db [] db' e p = subst P e p
Steps_keep R P keep db (h ∷ hs) db' (mid, r, s) p =
    Steps_keep R P keep mid hs db' s (keep db h mid r p)

-- `h` was pending and gets its verdict.
pub record Settles (reject_txs : List Hash) (stat : StatNo) (db : Txs) (h : Hash) (db' : Txs)
    : Type 0 where
  pub ti : TxInfo
  pub found : db h ≡ some ti
  pub pending : is_confirmed ti ≡ false
  pub result : settle reject_txs stat h ti db ≡ ok db'

-- `h` had the verdict of round `stat` and becomes pending.
pub record Unsettles (stat : StatNo) (db : Txs) (h : Hash) (db' : Txs) : Type 0 where
  pub ti : TxInfo
  pub found : db h ≡ some ti
  pub of_round : ti.stat_no ≡ stat
  pub result : unsettle h ti db ≡ ok db'

-- A kind of step that only writes as `Writes` says.
abbrev IsWriting : (Txs → Hash → Txs → Type 0) → Type 0
IsWriting R =
    (db : Txs) (h : Hash) (db' : Txs)
    → R db h db'
    → (v : Bool) × (ti : TxInfo) × (db h ≡ some ti) × Writes v db h ti db'

pub Settles-IsWriting :
    (reject_txs : List Hash) (stat : StatNo) → IsWriting (Settles reject_txs stat)
Settles-IsWriting reject_txs stat db h db' s =
    (true, s.ti, s.found, settle-Writes reject_txs stat h s.ti db s.result)

pub Unsettles-IsWriting : (stat : StatNo) → IsWriting (Unsettles stat)
Unsettles-IsWriting stat db h db' s = (false, s.ti, s.found, unsettle-Writes h s.ti db s.result)

module _ (R : Txs → Hash → Txs → Type 0) (writing : IsWriting R) (rank : Hash → ℕ) where
  pub step-IsRanked :
      (db : Txs) (h : Hash) (db' : Txs) → R db h db' → IsRanked rank db → IsRanked rank db'
  step-IsRanked db h db' r k =
      let (v, ti, found, w) = writing db h db' r in
      record { at = λ x b e. k.at x b (sym (Writes-body_at w found x) ∙ e) }

  -- Steps below the rank of `k` leave the record of `k` alone.
  pub Steps_frame :
      (k : Hash) (db : Txs) (hs : List Hash) (db' : Txs)
      → Steps R db hs db'
      → IsRanked rank db
      → All (λ x. rank x < rank k) hs
      → db' k ≡ db k
  Steps_frame k db [] db' e ranked below = ap (λ (d : Txs). d k) (sym e)
  Steps_frame k db (h ∷ hs) db' (mid, r, s) ranked below =
      let (v, ti, found, w) = writing db h mid r in
      Steps_frame k mid hs db' s (step-IsRanked db h mid r ranked) below.1
      ∙ Writes-frame k w found ranked below.0

  -- A visit is traced: the steps that it made, all below a rank, in an order that stands in the
  -- relation `Q` to the list that it returned.
  module _ (Q : List Hash → List Hash → Type 0) where
    pub record Traced (bound : ℕ) (db : Txs) (hs : List Hash) (db' : Txs) : Type 0 where
      pub order : List Hash
      pub steps : Steps R db order db'
      pub below : All (λ x. rank x < bound) order
      pub listed : Q order hs

    abbrev pub IsTraced : (Hash → Txs → Result (Txs × List Hash)) → Type 0
    IsTraced visit =
        (p : Hash) (db db' : Txs) (hs : List Hash)
        → IsRanked rank db
        → visit p db ≡ ok (db', hs)
        → Traced (suc (rank p)) db hs db'

    pub visit_all-Traced :
        Q [] []
        → ((xs ys cs ds : List Hash) → Q xs cs → Q ys ds → Q (xs ++ ys) (cs ++ ds))
        → (visit : Hash → Txs → Result (Txs × List Hash)) (bound : ℕ) → IsTraced visit
        → (ps : List Hash) (db : Txs) {db' : Txs} {hs : List Hash} → All (λ p. rank p < bound) ps
        → IsRanked rank db
        → visit_all visit ps db ≡ ok (db', hs)
        → Traced bound db hs db'
    unfolding visit_all
    visit_all-Traced nil join visit bound traced [] db below ranked e =
        subst (λ (t : Txs × List Hash). Traced bound db t.1 t.0) (ok-injective e)
          (record { order = []; steps = refl; below = tt; listed = nil })
    visit_all-Traced nil join visit bound traced (p ∷ ps) db below ranked e =
        let ((db1, hs1), first, e1) = >>=-eq-ok (visit p db) _ e in
        let ((db2, hs2), rest, e2) = >>=-eq-ok (visit_all visit ps db1) _ e1 in
        let head = traced p db db1 hs1 ranked first in
        let tail =
          visit_all-Traced nil join visit bound traced ps db1 below.1
            (Steps_keep R (IsRanked rank) step-IsRanked db head.order db1 head.steps ranked) rest in
        subst (λ (t : Txs × List Hash). Traced bound db t.1 t.0) (ok-injective e2)
          (record {
            order = head.order ++ tail.order;
            steps = Steps-append R db head.order db1 tail.order db2 head.steps tail.steps;
            below =
                All-append (λ x. rank x < bound) head.order tail.order
                  (All-imp (λ x. rank x < suc (rank p)) (λ x. rank x < bound) head.order
                    (λ x lt. omega (arith, below.0)) head.below)
                  tail.below;
            listed = join head.order tail.order hs1 hs2 head.listed tail.listed;
          })

module _ (reject_txs : List Hash) (stat : StatNo) (rank : Hash → ℕ) where
  abbrev IsConfirmTraced : ℕ → Type 0
  IsConfirmTraced fuel =
      IsTraced (Settles reject_txs stat) (Settles-IsWriting reject_txs stat) rank ◌≡◌
        (confirm fuel reject_txs stat)

  abbrev ConfirmTraced : ℕ → Txs → List Hash → Txs → Type 0
  ConfirmTraced = Traced (Settles reject_txs stat) (Settles-IsWriting reject_txs stat) rank ◌≡◌

  confirm-Traced_pending :
      (fuel : ℕ) (h : Hash) (db db' : Txs) (hs : List Hash)
      → IsRanked rank db
      → (ti : TxInfo) → db h ≡ some ti
      → is_confirmed ti ≡ false
      → IsConfirmTraced fuel
      → confirm_pending (confirm fuel reject_txs stat) reject_txs stat h ti db ≡ ok (db', hs)
      → ConfirmTraced (suc (rank h)) db hs db'
  unfolding confirm_pending
  confirm-Traced_pending fuel h db db' hs ranked ti found pending ih e =
      let visit = confirm fuel reject_txs stat in
      let ((db1, hs1), visited, e1) = >>=-eq-ok (visit_all visit (references ti.body) db) _ e in
      let (db2, result, e2) = >>=-eq-ok (settle reject_txs stat h ti db1) _ e1 in
      let t =
        visit_all-Traced (Settles reject_txs stat) (Settles-IsWriting reject_txs stat) rank ◌≡◌ refl
          (λ xs ys cs ds p q. cc) visit (rank h) ih (references ti.body) db
          (ranked.at h ti.body (rw found)) ranked visited in
      let same =
        Steps_frame (Settles reject_txs stat) (Settles-IsWriting reject_txs stat) rank h db t.order
          db1 t.steps ranked t.below in
      let step : Settles reject_txs stat db1 h db2 = record {
        ti = ti;
        found = same ∙ found;
        pending = pending;
        result = result;
      } in
      subst (λ (t : Txs × List Hash). ConfirmTraced (suc (rank h)) db t.1 t.0) (ok-injective e2)
        (record {
          order = t.order ++ h ∷ [];
          steps =
              Steps-append (Settles reject_txs stat) db t.order db1 (h ∷ []) db2 t.steps
                (db2, step, refl);
          below =
              All-append (λ x. rank x < suc (rank h)) t.order (h ∷ [])
                (All-imp (λ x. rank x < rank h) (λ x. rank x < suc (rank h)) t.order
                  (λ x lt. omega arith) t.below)
                (omega arith);
          listed = cc t.listed;
        })

  -- `confirm` settles the transactions that it returns, in that order.
  pub confirm-Traced : (fuel : ℕ) → IsConfirmTraced fuel
  unfolding confirm
  confirm-Traced zero h db db' hs ranked e = cc
  confirm-Traced (suc fuel) h db db' hs ranked e =
      let (ti, get, e1) = >>=-eq-ok (or_missing (db h)) _ e in
      let found = or_missing-eq-ok (db h) get in
      elim (Bool-cases (is_confirmed ti)) [
        | inl done ↦
            subst (λ (t : Txs × List Hash). ConfirmTraced (suc (rank h)) db t.1 t.0)
              (ok-injective (rw done at e1))
              (record { order = []; steps = refl; below = tt; listed = refl })
        | inr pending ↦
            confirm-Traced_pending fuel h db db' hs ranked ti found pending (confirm-Traced fuel)
              (rw pending at e1)
      ]
