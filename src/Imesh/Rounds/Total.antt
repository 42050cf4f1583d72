-- ===== src/Imesh/Rounds/Total.antt =====
-- With enough fuel a confirmation on a whole store returns, without an error and without a panic.
use aknode.Base.{
  ℕ, if◌then◌else◌, Bool, true, false, not, ◌||◌, List, [], ◌∷◌, Option, none, some, contains, ok,
  ◌≡◌, refl, sym, ◌∙◌, ap, Option-cases, Bool-cases, inl, inr, In,
}
use aknode.Imesh.Types.{
  Hash, Txs, TxInfo, Body, Spend, StatNo, OutputStatus, is_accepted, references, spends, status_at,
  put, set_spent,
}
use aknode.Imesh.Confirm.{blocked, any_blocked, mark, mark_all, settled, settle}
use aknode.Imesh.Confirm.Marks.{spent_at, spent_in, among, spent_at-mark, same_spend, with_spent}
use aknode.Imesh.Confirm.Writes.{body_at, Writes-body_at, settle-Writes, settle_cases}
use aknode.Imesh.Confirm.Steps.{Settles}
use aknode.Imesh.Confirm.Effects.{spent_at-write, spent_at-put}

-- Every reference of a stored transaction is stored, and every output that it spends exists.
pub record IsWhole (db : Txs) : Type 0 where
  pub refs :
      (k : Hash) (b : Body)
      → body_at db k ≡ some b
      → (p : Hash) → In p (references b)
      → (c : Body) × (body_at db p ≡ some c)
  pub cells :
      (k : Hash) (b : Body)
      → body_at db k ≡ some b
      → (s : Spend) → In s (spends b)
      → (f : Bool) × (spent_at db s ≡ some f)

-- The transaction and the status entry behind a flag.
cell_of :
    (o : Option TxInfo) (s : Spend) (f : Bool)
    → spent_in o s ≡ some f
    → (ti : TxInfo) × (st : OutputStatus) × (o ≡ some ti) × (status_at ti s ≡ some st)
cell_of none s f e = cc
cell_of (some ti) s f e = elim (Option-cases (status_at ti s)) [
  | inl gone ↦ cc (rw gone at e)
  | inr (st, there) ↦ (ti, st, refl, there)
]

blocked_eq :
    (db : Txs) (s : Spend) (ti : TxInfo) (st : OutputStatus)
    → db s.previous_tx ≡ some ti
    → status_at ti s ≡ some st
    → blocked db s ≡ ok (not (is_accepted ti) || st.is_spent)
unfolding blocked
blocked_eq db s ti st found there = rw (found, there)

mark_eq :
    (v : Bool) (db : Txs) (s : Spend) (ti : TxInfo) (st : OutputStatus)
    → db s.previous_tx ≡ some ti
    → status_at ti s ≡ some st
    → mark v s db ≡ ok (put db s.previous_tx (with_spent ti s st v))
unfolding mark set_spent
mark_eq v db s ti st found there = rw (found, there)

blocked_total :
    (db : Txs) (s : Spend) (f : Bool) → spent_at db s ≡ some f → (b : Bool) × (blocked db s ≡ ok b)
blocked_total db s f e =
    let (ti, st, found, there) = cell_of (db s.previous_tx) s f e in
    (not (is_accepted ti) || st.is_spent, blocked_eq db s ti st found there)

any_blocked_total :
    (db : Txs) (ss : List Spend)
    → ((s : Spend) → In s ss → (f : Bool) × (spent_at db s ≡ some f))
    → (b : Bool) × (any_blocked db ss ≡ ok b)
unfolding any_blocked
any_blocked_total db [] h = (false, refl)
any_blocked_total db (s ∷ ss) h =
    let (f, there) = h s (inl refl) in
    let (b, first) = blocked_total db s f there in
    let (bs, rest) = any_blocked_total db ss (λ t m. h t (inr m)) in (b || bs, rw (first, rest))

mark_total :
    (v : Bool) (db : Txs) (s : Spend) (f : Bool)
    → spent_at db s ≡ some f
    → (db' : Txs) × (mark v s db ≡ ok db')
mark_total v db s f e =
    let (ti, st, found, there) = cell_of (db s.previous_tx) s f e in
    (put db s.previous_tx (with_spent ti s st v), mark_eq v db s ti st found there)

-- An output that exists still does after a write of its flag.
if_some :
    {o x : Option Bool} (b v f : Bool)
    → x ≡ (if b then some v else o)
    → o ≡ some f
    → (g : Bool) × (x ≡ some g)
if_some true v f e there = (v, e)
if_some false v f e there = (f, e ∙ there)

mark_all_total :
    (v : Bool) (db : Txs) (ss : List Spend)
    → ((s : Spend) → In s ss → (f : Bool) × (spent_at db s ≡ some f))
    → (db' : Txs) × (mark_all v ss db ≡ ok db')
unfolding mark_all
mark_all_total v db [] h = (db, refl)
mark_all_total v db (s ∷ ss) h =
    let (f, there) = h s (inl refl) in
    let (db1, first) = mark_total v db s f there in
    let (db2, rest) = mark_all_total v db1 ss (λ t m.
      let (g, old) = h t (inr m) in
      if_some (same_spend s t) v g (spent_at-mark v s db first t) old) in
    (db2, rw (first, rest))

module _ (rank : Hash → ℕ) (reject_txs : List Hash) (stat : StatNo) where
  -- A step keeps the store whole.
  pub step-IsWhole :
      (db : Txs) (h : Hash) (db' : Txs)
      → Settles reject_txs stat db h db'
      → IsWhole db
      → IsWhole db'
  unfolding settled mark_all
  step-IsWhole db h db' s w = record {
    refs =
        λ k b e p m. let (c, there) = w.refs k b (sym (bodies k) ∙ e) p m in (c, bodies p ∙ there);
    cells = λ k b e o m. let (f, there) = w.cells k b (sym (bodies k) ∙ e) o m in flags o f there;
  }
    where
      bodies : (k : Hash) → body_at db' k ≡ body_at db k
      bodies = Writes-body_at (settle-Writes reject_txs stat h s.ti db s.result) s.found

      flags :
          (o : Spend) (f : Bool) → spent_at db o ≡ some f → (g : Bool) × (spent_at db' o ≡ some g)
      flags o f there = elim (settle_cases reject_txs stat h s.ti db s.result) [
        | inl r ↦
            if_some (among [] o) true f
              (spent_at-write true db h (settled s.ti stat true) [] (ap ok (sym r.result)) s.ti o
                s.found refl)
              there
        | inr a ↦
            if_some (among (spends s.ti.body) o) true f
              (spent_at-write true db h (settled s.ti stat false) (spends s.ti.body) a.result s.ti o
                s.found refl)
              there
      ]

  module _ (db : Txs) (h : Hash) (ti : TxInfo) {bad : Bool}
      (checked : any_blocked db (spends ti.body) ≡ ok bad) where
    settle_refuse :
        (contains reject_txs h || bad) ≡ true
        → settle reject_txs stat h ti db ≡ ok (put db h (settled ti stat true))
    unfolding settle
    settle_refuse r = rw (checked, r)

    settle_accept :
        (contains reject_txs h || bad) ≡ false
        → settle reject_txs stat h ti db
          ≡ mark_all true (spends ti.body) (put db h (settled ti stat false))
    unfolding settle
    settle_accept r = rw (checked, r)

  pub settle_total :
      (db : Txs) (h : Hash) (ti : TxInfo)
      → db h ≡ some ti
      → IsWhole db
      → (db' : Txs) × (settle reject_txs stat h ti db ≡ ok db')
  unfolding settled
  settle_total db h ti found w =
      let cells = w.cells h ti.body (rw found) in
      let (bad, checked) = any_blocked_total db (spends ti.body) cells in
      let new = settled ti stat false in
      let (db2, marked) =
        mark_all_total true (put db h new) (spends ti.body) (λ o m.
          let (f, there) = cells o m in (f, spent_at-put db h ti new o found refl ∙ there)) in
      elim (Bool-cases (contains reject_txs h || bad)) [
        | inl r ↦ (put db h (settled ti stat true), settle_refuse db h ti checked r)
        | inr r ↦ (db2, settle_accept db h ti checked r ∙ marked)
      ]
