-- ===== src/Imesh/Confirm/Writes.antt =====
-- The writes of one confirmation step and of one reversal step, and what they leave alone.
-- `rank` is any numbering under which a transaction's references come before it; the hash links
-- of a real store have one, since a transaction names its references by their hashes.
use aknode.Base.{
  ℕ, ◌<◌, ◌==◌, ==_iff, Bool, true, false, ◌||◌, List, [], map, Option, none, some, ok, ◌≡◌, ◌≢◌,
  refl, sym, ap, ◌∙◌, arith, >>=-eq-ok, contains, ok-injective, ◌⊎◌, All-left, All-right, All-map,
  map-All, All, All-append, All-imp, Bool-cases, inl, inr,
}
use aknode.Imesh.Types.{Hash, Txs, TxInfo, Body, Spend, StatNo, references, spends, put}
use aknode.Imesh.Confirm.{any_blocked, mark_all, settled, settle, pending_again, unsettle}
use aknode.Imesh.Confirm.Marks.{verdict, Verdict, verdict-mark_all, verdict-put, mark_all_frame}

abbrev pub body_in : Option Verdict → Option Body
body_in none = none
body_in (some v) = some v.body

abbrev pub body_at : Txs → Hash → Option Body
body_at db k = body_in (verdict db k)

-- Every stored transaction refers to transactions of smaller rank.
pub record IsRanked (rank : Hash → ℕ) (db : Txs) : Type 0 where
  pub at : (k : Hash) (b : Body) → body_at db k ≡ some b → All (λ p. rank p < rank k) (references b)

-- The outputs that a transaction spends are outputs of its references.
pub All-spends {κ} :
    (P : Hash → Type κ) (b : Body) → All P (references b) → All (λ s. P s.previous_tx) (spends b)
unfolding references spends
All-spends P b h =
    let after_parent = All-right P b.parent _ h in
    let ins = All-left P (map (λ i. i.previous_tx) b.inputs) _ after_parent in
    let others = All-right P (map (λ i. i.previous_tx) b.inputs) _ after_parent in
    let mulins = All-left P (map (λ i. i.previous_tx) b.multi_sig_ins) _ others in
    let tickets = All-right P (map (λ i. i.previous_tx) b.multi_sig_ins) _ others in
    let Q : Spend → Type κ = λ s. P s.previous_tx in
    All-append Q _ _ (map-All Q _ b.inputs (All-map P _ b.inputs ins)) (
      All-append Q _ _ (map-All Q _ b.multi_sig_ins (All-map P _ b.multi_sig_ins mulins))
        (map-All Q _ _ tickets))

body_at-put :
    (db : Txs) (h k : Hash) (old new : TxInfo)
    → db h ≡ some old
    → new.body ≡ old.body
    → body_at (put db h new) k ≡ body_at db k
body_at-put db h k old new found same =
    ap body_in (verdict-put db h k new)
    ∙ elim (Bool-cases (h == k)) [ inl e ↦ rw (e, same, ← (==_iff h k).0 e, found) | inr e ↦ rw e ]

-- The writes of a step: a new record for `h`, and flags of outputs that `h` spends, or none.
pub record Writes (v : Bool) (db : Txs) (h : Hash) (ti : TxInfo) (db' : Txs) : Type 0 where
  pub new : TxInfo
  pub kept : new.body ≡ ti.body
  pub marked : List Spend
  pub within : (marked ≡ []) ⊎ (marked ≡ spends ti.body)
  pub run : mark_all v marked (put db h new) ≡ ok db'

module _ {v : Bool} {db : Txs} {h : Hash} {ti : TxInfo} {db' : Txs} where
  pub Writes-body_at :
      Writes v db h ti db' → db h ≡ some ti → (k : Hash) → body_at db' k ≡ body_at db k
  Writes-body_at w found k =
      ap body_in (verdict-mark_all v w.marked (put db h w.new) k w.run)
      ∙ body_at-put db h k ti w.new found w.kept

  marked_All :
      (w : Writes v db h ti db') (P : Hash → Type 0)
      → All P (references ti.body)
      → All (λ s. P s.previous_tx) w.marked
  marked_All w P all = elim w.within [ inl e ↦ rw e tt | inr e ↦ rw e (All-spends P ti.body all) ]

  pub Writes-frame :
      {rank : Hash → ℕ} (k : Hash)
      → Writes v db h ti db'
      → db h ≡ some ti
      → IsRanked rank db
      → rank h < rank k
      → db' k ≡ db k
  Writes-frame {rank} k w found r lt =
      mark_all_frame v w.marked (put db h w.new) k w.run (
        marked_All w (λ p. p ≢ k)
          (All-imp (λ p. rank p < rank h) (λ p. p ≢ k) (references ti.body)
            (λ p below e. absurd (ground arith)) (r.at h ti.body (rw found))))
      ∙ elim (Bool-cases (h == k)) [ inl e ↦ absurd (ground arith) | inr e ↦ rw e ]

-- The two outcomes of a step of `confirm`.
pub record Refuses (reject_txs : List Hash) (stat : StatNo) (h : Hash) (ti : TxInfo) (db db' : Txs)
    : Type 0 where
  pub reason : (contains reject_txs h ≡ true) ⊎ (any_blocked db (spends ti.body) ≡ ok true)
  pub result : db' ≡ put db h (settled ti stat true)

pub record Accepts (reject_txs : List Hash) (stat : StatNo) (h : Hash) (ti : TxInfo) (db db' : Txs)
    : Type 0 where
  pub allowed : contains reject_txs h ≡ false
  pub free : any_blocked db (spends ti.body) ≡ ok false
  pub result : mark_all true (spends ti.body) (put db h (settled ti stat false)) ≡ ok db'

pub settle_cases :
    (reject_txs : List Hash) (stat : StatNo) (h : Hash) (ti : TxInfo) (db : Txs) {db' : Txs}
    → settle reject_txs stat h ti db ≡ ok db'
    → Refuses reject_txs stat h ti db db' ⊎ Accepts reject_txs stat h ti db db'
unfolding settle
settle_cases reject_txs stat h ti db e =
    let (bad, found, rest) = >>=-eq-ok (any_blocked db (spends ti.body)) _ e in
    elim (Bool-cases (contains reject_txs h || bad)) [
      | inl r ↦ inl (record { reason = ground arith; result = sym (ok-injective (rw r at rest)) })
      | inr r ↦ inr (record { allowed = ground arith; free = ground arith; result = rw r at rest })
    ]

pub settle-Writes :
    (reject_txs : List Hash) (stat : StatNo) (h : Hash) (ti : TxInfo) (db : Txs) {db' : Txs}
    → settle reject_txs stat h ti db ≡ ok db'
    → Writes true db h ti db'
unfolding mark_all settled
settle-Writes reject_txs stat h ti db e = elim (settle_cases reject_txs stat h ti db e) [
  | inl r ↦ record {
    new = settled ti stat true;
    kept = refl;
    marked = [];
    within = inl refl;
    run = ap ok (sym r.result);
  }
  | inr a ↦ record {
    new = settled ti stat false;
    kept = refl;
    marked = spends ti.body;
    within = inr refl;
    run = a.result;
  }
]

pub unsettle-Writes :
    (h : Hash) (ti : TxInfo) (db : Txs) {db' : Txs}
    → unsettle h ti db ≡ ok db'
    → Writes false db h ti db'
unfolding unsettle mark_all
unsettle-Writes h ti db e = elim (Bool-cases ti.is_rejected) [
  | inl r ↦ record {
    new = pending_again ti;
    kept = refl;
    marked = [];
    within = inl refl;
    run = rw r at e;
  }
  | inr r ↦ record {
    new = pending_again ti;
    kept = refl;
    marked = spends ti.body;
    within = inr refl;
    run = rw r at e;
  }
]
