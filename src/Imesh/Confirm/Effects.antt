-- ===== src/Imesh/Confirm/Effects.antt =====
-- What the steps do to verdicts and to the flags IsSpent, exactly.
use aknode.Base.{
  ◌==◌, ==_iff, if◌then◌else◌, Bool, true, false, not, ◌&&◌, List, [], ◌∷◌, Option, none, some, ok,
  ◌≡◌, sym, ◌∙◌, arith, >>=-eq-ok, In, Bool-cases, inl, inr,
}
use aknode.Imesh.Types.{
  Hash, Txs, TxInfo, Spend, put, is_accepted, or_missing, or_panic, or_missing-eq-ok,
  or_panic-eq-ok, status_at,
}
use aknode.Imesh.Confirm.{any_blocked, blocked, mark_all}
use aknode.Imesh.Confirm.Marks.{
  verdict, verdict_of, Verdict, spent_at, among, same_spend, verdict-mark_all, verdict-put,
  spent_at-mark_all,
}

-- `IsAccepted` of what is stored.
unfoldable pub accepted : Verdict → Bool
accepted v = not (v.stat_no == 0) && not v.is_rejected

abbrev pub accepted_at : Option Verdict → Bool
accepted_at none = false
accepted_at (some v) = accepted v

same_spend_eq : (s t : Spend) → same_spend s t ≡ true → s ≡ t
same_spend_eq s t e = ground arith

pub among_of_In : (s : Spend) (ss : List Spend) → In s ss → among ss s ≡ true
unfolding among
among_of_In s [] m = absurd m
among_of_In s (x ∷ ss) (inl e) = rw e (ground arith)
among_of_In s (x ∷ ss) (inr m) = ground (arith, among_of_In s ss m)

pub In-of_among : (s : Spend) (ss : List Spend) → among ss s ≡ true → In s ss
unfolding among
In-of_among s [] e = cc
In-of_among s (x ∷ ss) e = elim (Bool-cases (same_spend x s)) [
  | inl same ↦ inl (sym (same_spend_eq x s same))
  | inr other ↦ inr (In-of_among s ss (ground arith))
]

-- An input that does not block is an unspent output of an accepted transaction.
blocked_free :
    (db : Txs) (s : Spend)
    → blocked db s ≡ ok false
    → (spent_at db s ≡ some false) × (accepted_at (verdict db s.previous_tx) ≡ true)
unfolding blocked is_accepted accepted
blocked_free db s e =
    let (pti, get, e1) = >>=-eq-ok (or_missing (db s.previous_tx)) _ e in
    let (st, at, e2) = >>=-eq-ok (or_panic (status_at pti s)) _ e1 in
    let found : db s.previous_tx ≡ some pti = or_missing-eq-ok (db s.previous_tx) get in
    let cell : status_at pti s ≡ some st = or_panic-eq-ok (status_at pti s) at in
    (rw (found, cell) (ground arith), rw found (ground arith))

pub any_blocked_free :
    (db : Txs) (s : Spend) (ss : List Spend)
    → any_blocked db ss ≡ ok false
    → In s ss
    → (spent_at db s ≡ some false) × (accepted_at (verdict db s.previous_tx) ≡ true)
unfolding any_blocked
any_blocked_free db s [] e m = absurd m
any_blocked_free db s (x ∷ ss) e m =
    let (b, first, e1) = >>=-eq-ok (blocked db x) _ e in
    let (bs, rest, e2) = >>=-eq-ok (any_blocked db ss) _ e1 in
    elim m [
      | inl same ↦ rw same (blocked_free db x (ground arith))
      | inr later ↦ any_blocked_free db s ss (ground arith) later
    ]

pub spent_at-put :
    (db : Txs) (h : Hash) (old new : TxInfo) (s : Spend)
    → db h ≡ some old
    → new.output_status ≡ old.output_status
    → spent_at (put db h new) s ≡ spent_at db s
unfolding status_at
spent_at-put db h old new s found same = elim (Bool-cases (h == s.previous_tx)) [
  | inl e ↦ rw (e, ← (==_iff h s.previous_tx).0 e, found, same)
  | inr e ↦ rw e
]

module _ (v : Bool) (db : Txs) {db' : Txs} (h : Hash) (new : TxInfo) (ss : List Spend)
    (run : mark_all v ss (put db h new) ≡ ok db') where
  pub verdict-write :
      (k : Hash) → verdict db' k ≡ (if h == k then some (verdict_of new) else verdict db k)
  verdict-write k = verdict-mark_all v ss (put db h new) k run ∙ verdict-put db h k new

  pub spent_at-write :
      (old : TxInfo) (s : Spend)
      → db h ≡ some old
      → new.output_status ≡ old.output_status
      → spent_at db' s ≡ (if among ss s then some v else spent_at db s)
  spent_at-write old s found same =
      spent_at-mark_all v ss (put db h new) s run ∙ rw (spent_at-put db h old new s found same)
