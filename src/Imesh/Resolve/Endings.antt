-- ===== src/Imesh/Resolve/Endings.antt =====
-- How the call for a transaction ends: it is broken, lacks something, or is settled.
use aknode.Base.{
  ==_iff, ==_refl, true, not, ◌||◌, some, Dict, lookup, Result, ok, ◌≡◌, refl, sym, ap, subst, ◌∙◌,
  arith, Bool-cases, Option-cases, inl, inr,
}
use aknode.Imesh.Types.{Hash, Transaction}
use aknode.Imesh.Tables.{get_tx_func}
use aknode.Imesh.Resolve.{
  UnresolvedTx, Finder, Outside, change, breaking, put_broken_tx, delete_unresolved_tx,
  add_resolved, settle_entry, resolved, conclude,
}
use aknode.Imesh.Resolve.Grows.{⇒_apply, lookup-change, breaking-Raised}
use aknode.Imesh.Resolve.Adding.{lands, add_resolved-Grows}
use aknode.Imesh.Resolve.Settled.{
  all_stored, filed_under, IsFiled, all_stored_mono, Local, Local-refl, Local-trans, change-Local,
  quiet-Local, put_broken_tx-Local, delete_unresolved_tx-Local, over_in, over_at, ready,
}

module _ (out : Outside) (h : Hash) (f : Finder) where
  abbrev Ends : Finder → Type 0
  Ends g = Local h f g × (over_at g h ≡ true)

  result_of : {g g' : Finder} → ◌≡◌ {A = Result (Unit {0}) × Finder} (ok tt, g) (ok tt, g') → g ≡ g'
  result_of e = ap (λ (p : Result (Unit {0}) × Finder). p.1) e

  settle_broken :
      (e : UnresolvedTx)
      → lookup h f.entries ≡ some e
      → e.broken ≡ true
      → Ends (put_broken_tx h (delete_unresolved_tx h f))
  unfolding put_broken_tx delete_unresolved_tx
  settle_broken e there broken = (
    Local-trans h f (delete_unresolved_tx h f) _ (delete_unresolved_tx-Local h h f)
        (put_broken_tx-Local h h (delete_unresolved_tx h f)),
    ap (over_in f.tables.txs h) there ∙ rw broken refl,
  )

  settle_refused :
      (e : UnresolvedTx)
      → lookup h f.entries ≡ some e
      → Ends (put_broken_tx h (change h breaking (delete_unresolved_tx h f)))
  unfolding put_broken_tx delete_unresolved_tx
  settle_refused e there =
      let f1 = delete_unresolved_tx h f in
      let f2 = change h breaking f1 in
      let marked : lookup h f2.entries ≡ some (breaking e) =
        lookup-change h h breaking f1 ∙ rw (==_refl h, there) refl in
      (
        Local-trans h f f1 _ (delete_unresolved_tx-Local h h f) (
            Local-trans h f1 f2 _ (change-Local h breaking f1 breaking-Raised)
              (put_broken_tx-Local h h f2)),
        ap (over_in f2.tables.txs h) marked,
      )

  settle_added :
      (e : UnresolvedTx) (tr : Transaction) (g : Finder)
      → lookup h f.entries ≡ some e
      → tr.hash ≡ h
      → all_stored f.tables.txs e.prevs ≡ true
      → add_resolved out e.kind tr (delete_unresolved_tx h f) ≡ (ok tt, g)
      → Ends g
  unfolding delete_unresolved_tx
  settle_added e tr g there own stored run =
      let f1 = delete_unresolved_tx h f in
      let ((grows, same), landed) = add_resolved-Grows out e.kind tr f1 g run in
      let here : lands e.kind g.tables.txs h ≡ true =
        subst (λ (j : Hash). lands e.kind g.tables.txs j ≡ true) own landed in
      let all : all_stored g.tables.txs e.prevs ≡ true =
        ⇒_apply _ _ (all_stored_mono f.tables.txs g.tables.txs e.prevs grows.stored) stored in
      (
        Local-trans h f f1 g (delete_unresolved_tx-Local h h f) (quiet-Local h f1 g grows same),
        ap (over_in g.tables.txs h) (ap (λ (es : Dict UnresolvedTx). lookup h es) same ∙ there)
            ∙ ground (arith, here, all),
      )

  settle_entry-Local :
      (e : UnresolvedTx) (tr : Transaction) (g : Finder)
      → lookup h f.entries ≡ some e
      → tr.hash ≡ h
      → (e.broken || all_stored f.tables.txs e.prevs) ≡ true
      → settle_entry out h e tr f ≡ (ok tt, g)
      → Ends g
  unfolding settle_entry delete_unresolved_tx
  settle_entry-Local e tr g there own fine run = elim (Bool-cases e.broken) [
    | inl broken ↦ subst Ends (result_of (rw broken at run)) (settle_broken e there broken)
    | inr whole ↦
        let run1 = rw whole at run in
        let stored : all_stored f.tables.txs e.prevs ≡ true = rw whole at fine in
        elim (Bool-cases (out.check_all (get_tx_func f.tables.txs) tr e.kind)) [
          | inl valid ↦ settle_added e tr g there own stored (rw valid at run1)
          | inr refused ↦ subst Ends (result_of (rw refused at run1)) (settle_refused e there)
        ]
  ]

  resolved-Local :
      (e : UnresolvedTx) (g : Finder)
      → IsFiled f
      → lookup h f.entries ≡ some e
      → (e.broken || all_stored f.tables.txs e.prevs) ≡ true
      → resolved out h e f ≡ (ok tt, g)
      → Ends g
  unfolding resolved
  resolved-Local e g filed there fine run = elim (Option-cases (f.waiting h)) [
    | inl gone ↦ cc (ap (λ (p : Result (Unit {0}) × Finder). p.0) (rw (gone, resolved) at run))
    | inr (tr, found) ↦
        let own : tr.hash ≡ h = (==_iff tr.hash h).0 (sym (ap (filed_under h) found) ∙ filed h) in
        settle_entry-Local e tr g there own fine (rw (found, resolved) at run)
  ]

  pub conclude-Local :
      (e : UnresolvedTx) (g : Finder)
      → IsFiled f
      → lookup h f.entries ≡ some e
      → ready f.tables.txs e ≡ true
      → conclude out h f ≡ (ok tt, g)
      → Ends g
  unfolding conclude
  conclude-Local e g filed there fine run =
      let run1 = rw (there, conclude) at run in
      elim (Bool-cases (e.broken || not e.unresolved)) [
        | inl ends ↦ resolved-Local e g filed there (ground (arith, ends, fine)) (rw ends at run1)
        | inr waits ↦
            subst Ends (result_of (rw waits at run1))
              (Local-refl h f, ap (over_in f.tables.txs h) there ∙ ground (arith, waits))
      ]
