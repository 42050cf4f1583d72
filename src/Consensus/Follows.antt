-- ===== src/Consensus/Follows.antt =====
-- When `Confirm` of a ledger succeeds, its transaction is confirmed.
use aknode.Base.{
  ℕ, zero, suc, ◌+◌, ◌-◌, ◌≤◌, ◌==◌, ==_refl, ◌≢◌, Bool, true, false, Option, none, some, List, [],
  ◌++◌, Result, ok, err, Error, ◌≡◌, refl, sym, ap, subst, ◌∙◌, arith, >>=-eq-ok, ◌>>=◌,
}
use aknode.Imesh.Types.{Hash, Txs, Spend, or_missing}
use aknode.Imesh.Tables.{Tables, has, get_tx}
use aknode.Imesh.Confirm.Marks.{verdict}
use aknode.Imesh.Confirm.Writes.{IsRanked}
use aknode.Imesh.Rounds.{confirm_from}
use aknode.Imesh.Rounds.Safety.{Round, play_round, round_of, play_round-IsRanked}
use aknode.Imesh.Rounds.Verdicts.{confirmed_at, confirm_from-Change}
use aknode.Consensus.{
  LedgerId, StoredLedger, Library, Ledger, State, txs_of, last_key, new_ledger, from_ledger,
  get_ledger, put_ledger, get_all, go_backward, confirm_if, confirm_tx, go_forward, confirm_forward,
  confirm_backward, confirm_ledger,
}
use aknode.Consensus.Keeps.{
  HoldsIn, get_all_keep, go_backward_keep, confirm_tx_keep, confirm_end_keep,
}

-- A result that is no error came out of the branch for one.
branch_inv :
    {A B : Type 0} (r : Result A) (bad : Error → State) (good : A → Result B × State) (b : B)
    (s' : State)
    → (elim r as (λ x. Result B × State) [ err e ↦ (err e, bad e) | ok a ↦ good a ]) ≡ (ok b, s')
    → (a : A) × (r ≡ ok a) × (good a ≡ (ok b, s'))
branch_inv {A} {B} (err e) bad good b s' run = cc (ap (λ (p : Result B × State). p.0) run)
branch_inv (ok a) bad good b s' run = (a, refl, run)

-- A ledger that is read back has the transaction that was stored.
from_ledger-key :
    (t : Tables) (l : StoredLedger) (ll : Ledger) (o : Option Hash)
    → l.txs ≡ o
    → from_ledger t l ≡ ok ll
    → last_key ll.txs ≡ o
unfolding from_ledger last_key
from_ledger-key t l ll none e run = sym (ap (λ (r : Result Ledger). key_of r) (rw e at run))
  where
    key_of : Result Ledger → Option Hash
    key_of (err x) = none
    key_of (ok a) = last_key a.txs
from_ledger-key t l ll (some h) e run =
    let (tr, got, run1) = >>=-eq-ok (get_tx t h) _ (rw e at run) in
    sym (ap (λ (r : Result Ledger). key_of h r) run1)
  where
    key_of : Hash → Result Ledger → Option Hash
    key_of h (err x) = some h
    key_of h (ok a) = last_key a.txs

module _ (lib : Library) (serialize : Spend → ℕ) (fuel : ℕ) (rank : Hash → ℕ) (l : Ledger)
    (t : Hash) (numbered : (l : Ledger) → lib.id_of l ≢ 0) (other : lib.id_of l ≢ lib.genesis_id)
    (own : (get : LedgerId → Result Ledger) → lib.index_of get l l.seq ≡ lib.id_of l)
    (key : last_key l.txs ≡ some t) where
  -- The ledger is stored, and references have smaller ranks.
  abbrev Ready : (LedgerId → Option StoredLedger) → Txs → Type 0
  Ready ls db = (ls (lib.id_of l) ≡ some (new_ledger l)) × IsRanked rank db

  round_keeps :
      (r : Round) (ls : LedgerId → Option StoredLedger) (db : Txs)
      → round_of r ≢ 0
      → Ready ls db
      → Ready ls (play_round serialize fuel db r)
  round_keeps r ls db ne p = (p.0, play_round-IsRanked rank serialize fuel db r p.1)

  abbrev Confirmed : State → Type 0
  Confirmed s = confirmed_at (verdict (txs_of s) t) ≡ true

  confirm_if-Confirmed :
      (b : Bool) (s s' : State) (hs : List Hash)
      → HoldsIn Ready s
      → confirm_if lib serialize fuel b l t s ≡ (ok hs, s')
      → Confirmed s'
  unfolding confirm_if
  confirm_if-Confirmed false s s' hs p run = cc (ap (λ (x : Result (List Hash) × State). x.0) run)
  confirm_if-Confirmed true s s' hs p run =
      let r = confirm_from serialize fuel t (lib.id_of l) (txs_of s) in
      let result : r.0 ≡ ok hs = ap (λ (x : Result (List Hash) × State). x.0) run in
      let same : r.1 ≡ txs_of s' = ap (λ (x : Result (List Hash) × State). txs_of x.1) run in
      let whole : r ≡ (ok hs, txs_of s') = λ i. (result i, same i) in
      (confirm_from-Change rank serialize fuel t (lib.id_of l) (txs_of s) (txs_of s') hs p.1
        (numbered l) whole).4

  read_back :
      (s : State) (ll : Ledger)
      → HoldsIn Ready s
      → get_ledger lib s (lib.id_of l) ≡ ok ll
      → last_key ll.txs ≡ some t
  unfolding get_ledger new_ledger
  read_back s ll p got =
      let ne : (lib.id_of l == lib.genesis_id) ≡ false = ground (arith, other) in
      let stored : or_missing (s.ledgers (lib.id_of l)) ≡ ok (new_ledger l) = ap or_missing p.0 in
      let run : (or_missing (s.ledgers (lib.id_of l)) >>= from_ledger s.finder.tables) ≡ ok ll =
        rw ne at got in
      from_ledger-key s.finder.tables (new_ledger l) ll (some t) key (rw stored at run)

  abbrev after : Ledger → State → State
  after ll s = record (confirm_tx lib serialize fuel l (last_key ll.txs) s).1 {
    latest_solid_ledger = ll;
  }

  -- A turn that does not fail reads a ledger and confirms its transaction.
  go_forward_inv :
      (n i : ℕ) (tr hs : List Hash) (s s' : State)
      → go_forward lib serialize fuel (suc n) i l tr s ≡ (ok hs, s')
      → (ll : Ledger) × (hs1 : List Hash) × (get_ledger lib s (lib.index_of (get_ledger lib s) l i)
          ≡ ok ll)
        × ((confirm_tx lib serialize fuel l (last_key ll.txs) s).0 ≡ ok hs1)
        × (go_forward lib serialize fuel n (suc i) l (tr ++ hs1) (after ll s) ≡ (ok hs, s'))
  unfolding go_forward
  go_forward_inv n i tr hs s s' run =
      let (ll, got, run1) =
        branch_inv (get_ledger lib s (lib.index_of (get_ledger lib s) l i)) (λ e. s) _ hs s' run in
      let r = confirm_tx lib serialize fuel l (last_key ll.txs) s in
      let (hs1, ended, run2) = branch_inv r.0 (λ e. r.1) _ hs s' run1 in (ll, hs1, got, ended, run2)

  -- The last turn of the loop is the one for the ledger itself.
  go_forward-Confirmed :
      (n i : ℕ) (tr hs : List Hash) (s s' : State)
      → i + n ≡ l.seq
      → HoldsIn Ready s
      → go_forward lib serialize fuel (suc n) i l tr s ≡ (ok hs, s')
      → Confirmed s'
  unfolding go_forward confirm_tx
  go_forward-Confirmed zero i tr hs s s' last p run =
      let (ll, hs1, got, ended, run1) = go_forward_inv zero i tr hs s s' run in
      let at_end : i ≡ l.seq = omega (arith, last) in
      let place : lib.index_of (get_ledger lib s) l i ≡ lib.id_of l =
        rw at_end (own (get_ledger lib s)) in
      let found = read_back s ll p (rw place at got) in
      let r = confirm_tx lib serialize fuel l (last_key ll.txs) s in
      subst Confirmed (ap (λ (x : Result (List Hash) × State). x.1) run1) (
        confirm_if-Confirmed (has (txs_of s) t) s r.1 hs1 p (
          ap (λ (o : Option Hash). confirm_tx lib serialize fuel l o s) (sym found) ∙ λ i.
          (ended i, r.1)))
  go_forward-Confirmed (suc n) i tr hs s s' last p run =
      let (ll, hs1, got, ended, run1) = go_forward_inv (suc n) i tr hs s s' run in
      go_forward-Confirmed n (suc i) (tr ++ hs1) hs (after ll s) s' (omega (arith, last))
        (confirm_tx_keep lib serialize fuel Ready numbered round_keeps l (last_key ll.txs) s p) run1

  confirm_forward-Confirmed :
      (writes : Bool) (seq : ℕ) (s s' : State)
      → seq ≤ l.seq
      → HoldsIn Ready s
      → confirm_forward lib serialize fuel writes l seq s ≡ (ok tt, s')
      → Confirmed s'
  unfolding confirm_forward
  confirm_forward-Confirmed writes seq s s' le p run =
      let (tr, went, run1) =
        branch_inv (go_forward lib serialize fuel (suc l.seq - seq) seq l [] s).0 _ _ tt s' run in
      let f = go_forward lib serialize fuel (suc l.seq - seq) seq l [] s in
      let turns : suc l.seq - seq ≡ suc (l.seq - seq) = omega (arith, le) in
      let done : Confirmed f.1 =
        go_forward-Confirmed (l.seq - seq) seq [] tr s f.1 (omega (arith, le)) p (
          sym (ap (λ (n : ℕ). go_forward lib serialize fuel n seq l [] s) turns) ∙ λ i.
          (went i, f.1)) in
      subst Confirmed (ap (λ (x : Result (Unit {0}) × State). x.1) run1) (
        confirm_end_keep (λ ls db. confirmed_at (verdict db t) ≡ true) lib serialize fuel writes l
          tr f.1 done)

  confirm_backward-Confirmed :
      (writes : Bool) (seq : ℕ) (s s' : State)
      → seq ≤ l.seq
      → HoldsIn Ready s
      → confirm_backward lib serialize fuel writes l seq s ≡ (ok tt, s')
      → Confirmed s'
  unfolding confirm_backward
  confirm_backward-Confirmed writes seq s s' le p run =
      let last = s.latest_solid_ledger in
      let r = go_backward lib serialize fuel (suc last.seq - seq) last s in
      let (_, _, run1) = branch_inv r.0 (λ e. r.1) _ tt s' run in
      confirm_forward-Confirmed writes seq r.1 s' le
        (go_backward_keep lib serialize fuel Ready numbered round_keeps (suc last.seq - seq) last s
          p)
        run1

  -- In an iMesh in which references have smaller ranks, for a library of the consensus in which
  -- no ledger has the ID 0 and a ledger is found by its own ID at its own place, and a ledger
  -- with a transaction that is not the genesis ledger and is not below the place at which the
  -- chains differ: when Confirm of the ledger returns without an error, its transaction is
  -- confirmed.
  pub confirm_ledger-Confirmed :
      (s s' : State)
      → IsRanked rank (txs_of s)
      → lib.diff
          (get_ledger lib (put_ledger lib true l (record s { latest_ledger = l })).1)
          l
          s.latest_solid_ledger
        ≤ l.seq
      → confirm_ledger lib serialize fuel true l s ≡ (ok tt, s')
      → confirmed_at (verdict (txs_of s') t) ≡ true
  unfolding confirm_ledger put_ledger
  confirm_ledger-Confirmed s s' ranked le run =
      let p = put_ledger lib true l (record s { latest_ledger = l }) in
      let seq = lib.diff (get_ledger lib p.1) l p.1.latest_solid_ledger in
      let g = get_all lib (l.seq - seq) p.1.latest_solid_ledger p.1 in
      let ready : HoldsIn Ready p.1 = (rw (==_refl (lib.id_of l)) refl, ranked) in
      let (_, _, run1) = branch_inv g.0 (λ e. g.1) _ tt s' run in
      confirm_backward-Confirmed true seq g.1 s' le
        (get_all_keep lib serialize fuel Ready numbered round_keeps (l.seq - seq)
          p.1.latest_solid_ledger p.1 ready)
        run1
