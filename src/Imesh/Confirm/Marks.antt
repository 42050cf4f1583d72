-- ===== src/Imesh/Confirm/Marks.antt =====
-- What setting IsSpent on a list of outputs does to the table: to the flags, exactly; to all that
-- decides a transaction's verdict, nothing.
use aknode.Base.{
  ◌==◌, ==_iff, if◌then◌else◌, Bool, false, ◌&&◌, ◌||◌, List, [], ◌∷◌, Option, none, some, ok, ◌≡◌,
  ◌≢◌, refl, ◌∙◌, arith, set_cell, cell?-set_cell, >>=-eq-ok, All, sym, ap, ok-injective,
  Bool-cases, inl, inr,
}
use aknode.Imesh.Types.{
  Hash, Txs, TxInfo, Body, Spend, StatNo, OutputStatus, status_at, set_spent, put, or_missing,
  or_panic,
}
use aknode.Imesh.Confirm.{mark, mark_all}

-- What `IsAccepted`, `IsConfirmed` and the recursions read of a stored transaction.
pub record Verdict : Type 0 where
  pub body : Body
  pub stat_no : StatNo
  pub is_rejected : Bool

abbrev pub verdict_of : TxInfo → Verdict
verdict_of ti = record { body = ti.body; stat_no = ti.stat_no; is_rejected = ti.is_rejected }

abbrev pub judged : Option TxInfo → Option Verdict
judged none = none
judged (some ti) = some (verdict_of ti)

abbrev pub verdict : Txs → Hash → Option Verdict
verdict db k = judged (db k)

abbrev pub same_spend : Spend → Spend → Bool
same_spend s t = s.previous_tx == t.previous_tx && (s.slot == t.slot && s.index == t.index)

abbrev pub flag : Option OutputStatus → Option Bool
flag none = none
flag (some st) = some st.is_spent

abbrev pub spent_in : Option TxInfo → Spend → Option Bool
spent_in none s = none
spent_in (some ti) s = flag (status_at ti s)

-- The flag IsSpent of an output, if the transaction and the output are there.
abbrev pub spent_at : Txs → Spend → Option Bool
spent_at db s = spent_in (db s.previous_tx) s

unfoldable pub among : List Spend → Spend → Bool
among [] t = false
among (s ∷ ss) t = same_spend s t || among ss t

abbrev pub with_spent : TxInfo → Spend → OutputStatus → Bool → TxInfo
with_spent pti s st v = record pti {
  output_status = set_cell pti.output_status s.slot s.index (record st { is_spent = v });
}

-- A mark that succeeds found its output and rewrote that one record.
mark_inv :
    (v : Bool) (s : Spend) (db : Txs) {db' : Txs}
    → mark v s db ≡ ok db'
    → (pti : TxInfo) × (st : OutputStatus) × (db s.previous_tx ≡ some pti)
      × (status_at pti s ≡ some st)
      × (db' ≡ put db s.previous_tx (with_spent pti s st v))
unfolding mark set_spent
mark_inv v s db h =
    let (pti, found, h1) = >>=-eq-ok (or_missing (db s.previous_tx)) _ h in
    let (pti', spent, h2) = >>=-eq-ok (set_spent pti s v) _ h1 in
    let (st, at, h3) = >>=-eq-ok (or_panic (status_at pti s)) _ spent in
    (pti, st, ground arith, ground arith, cc)

pub verdict-put :
    (db : Txs) (h k : Hash) (ti : TxInfo)
    → verdict (put db h ti) k ≡ (if h == k then some (verdict_of ti) else verdict db k)
verdict-put db h k ti = elim (Bool-cases (h == k)) [ inl e ↦ rw e | inr e ↦ rw e ]

verdict-put_same :
    (db : Txs) (h k : Hash) (old new : TxInfo)
    → db h ≡ some old
    → verdict_of new ≡ verdict_of old
    → verdict (put db h new) k ≡ verdict db k
verdict-put_same db h k old new found same =
    verdict-put db h k new
    ∙ elim (Bool-cases (h == k)) [ inl e ↦ rw (e, same, ← (==_iff h k).0 e, found) | inr e ↦ rw e ]

module _ (v : Bool) (s : Spend) (db : Txs) {db' : Txs} (h : mark v s db ≡ ok db') where
  pub verdict-mark : (k : Hash) → verdict db' k ≡ verdict db k
  verdict-mark k =
      let (pti, st, found, at, e) = mark_inv v s db h in
      rw e (verdict-put_same db s.previous_tx k pti (with_spent pti s st v) found refl)

  pub mark_frame : (k : Hash) → s.previous_tx ≢ k → db' k ≡ db k
  mark_frame k ne =
      let (pti, st, found, at, e) = mark_inv v s db h in
      rw e (ground (arith, ==_iff s.previous_tx k))

  pub spent_at-mark :
      (t : Spend) → spent_at db' t ≡ (if same_spend s t then some v else spent_at db t)
  unfolding status_at
  spent_at-mark t =
      let (pti, st, found, at, e) = mark_inv v s db h in
      rw e (
        ground (
          arith,
          ==_iff s.previous_tx t.previous_tx,
          cell?-set_cell pti.output_status s.slot s.index t.slot t.index
              (record st { is_spent = v }),
        ))

-- The same for the loops over all inputs.
pub verdict-mark_all :
    (v : Bool) (ss : List Spend) (db : Txs) {db' : Txs} (k : Hash)
    → mark_all v ss db ≡ ok db'
    → verdict db' k ≡ verdict db k
unfolding mark_all
verdict-mark_all v [] db k h = cc
verdict-mark_all v (s ∷ ss) db k h =
    let (db1, first, rest) = >>=-eq-ok (mark v s db) _ h in
    verdict-mark_all v ss db1 k rest ∙ verdict-mark v s db first k

pub mark_all_frame :
    (v : Bool) (ss : List Spend) (db : Txs) {db' : Txs} (k : Hash)
    → mark_all v ss db ≡ ok db'
    → All (λ s. s.previous_tx ≢ k) ss
    → db' k ≡ db k
unfolding mark_all
mark_all_frame v [] db k h ne = ap (λ (d : Txs). d k) (sym (ok-injective h))
mark_all_frame v (s ∷ ss) db k h ne =
    let (db1, first, rest) = >>=-eq-ok (mark v s db) _ h in
    mark_all_frame v ss db1 k rest ne.1 ∙ mark_frame v s db first k ne.0

pub spent_at-mark_all :
    (v : Bool) (ss : List Spend) (db : Txs) {db' : Txs} (t : Spend)
    → mark_all v ss db ≡ ok db'
    → spent_at db' t ≡ (if among ss t then some v else spent_at db t)
unfolding mark_all among
spent_at-mark_all v [] db t h = ap (λ (d : Txs). spent_at d t) (sym (ok-injective h))
spent_at-mark_all v (s ∷ ss) db t h =
    let (db1, first, rest) = >>=-eq-ok (mark v s db) _ h in
    spent_at-mark_all v ss db1 t rest ∙ ground (arith, spent_at-mark v s db first t)
