-- ===== src/Imesh/Resolve/Reports.antt =====
-- What `Resolve` reports: transactions that came into the ledger after all they refer to.
use aknode.Base.{
  ℕ, ◌==◌, ==_iff, ==_refl, Bool, true, false, ◌&&◌, Option, none, some, List, [], ◌∷◌, map, Dict,
  Distinct, lookup, Result, ok, err, ◌≡◌, refl, sym, ap, subst, ◌∙◌, arith, Bool-cases,
  Option-cases, inl, inr, All,
}
use aknode.Imesh.Types.{Hash, Txs}
use aknode.Imesh.Tables.{TxType}
use aknode.Imesh.Resolve.{
  UnresolvedTx, Finder, Outside, is_resolved, reported, remaining, report, resolve, save,
}
use aknode.Imesh.Resolve.Grows.{Later}
use aknode.Imesh.Resolve.Adding.{lands}
use aknode.Imesh.Resolve.Settled.{all_stored, over, sound_entry, IsFiled}
use aknode.Imesh.Resolve.Flags.{IsRanked, parts}
use aknode.Imesh.Resolve.Calls.{
  met_in, met_at, prevs_in, prevs_at, IsUnseen, unseen_sound, is_resolved-Met,
}

-- What holds of every entry of a map holds of each member of the list.
listed :
    {V : Type 0} (Q : ℕ → V → Type 0) (d : Dict V)
    → Distinct d
    → ((k : ℕ) (e : V) → lookup k d ≡ some e → Q k e)
    → All (λ (r : ℕ × V). Q r.0 r.1) d
unfolding lookup
listed Q [] apart all = tt
listed Q ((k, e) ∷ d) apart all = (
  all k e (rw (==_refl k) refl),
  listed Q d apart.1 (λ j x there. all j x elim (Bool-cases (k == j)) [
    | inl same ↦
        let gone : lookup j d ≡ none =
          subst (λ (i : ℕ). lookup i d ≡ none) ((==_iff k j).0 same) apart.0 in
        cc
    | inr other ↦ rw other there
  ]),
)

reported-All :
    (txs : Txs) (old d : Dict UnresolvedTx)
    → All
        (λ (r : Hash × UnresolvedTx). (over txs r.0 r.1 ≡ true) × (r.1.prevs ≡ prevs_at old r.0))
        d
    → All
        (λ (r : Hash × TxType). (lands r.1 txs r.0 && all_stored txs (prevs_at old r.0)) ≡ true)
        (reported d)
unfolding reported
reported-All txs old [] h = tt
reported-All txs old ((k, e) ∷ d) h = elim (Bool-cases e.broken) [
  | inl broken ↦ rw broken (reported-All txs old d h.1)
  | inr whole ↦ elim (Bool-cases e.unresolved) [
    | inl waits ↦ rw (whole, waits) (reported-All txs old d h.1)
    | inr ready ↦
        rw (whole, ready) (rw (← h.0.1) (rw (whole, ready) at h.0.0), reported-All txs old d h.1)
  ]
]

save-tables : (saves : Bool) (f : Finder) → (save saves f).1.tables ≡ f.tables
unfolding save
save-tables true f = refl
save-tables false f = refl

-- `Resolve` after an `isResolved` that did not end in an error.
resolve_next :
    (saves : Bool) (r : Result (Unit {0}) × Finder) (rs : List (Hash × TxType)) (f' : Finder)
    → elim r.0 [ err e ↦ some (([], err e), r.1) | ok _ ↦ some (report saves r.1) ]
      ≡ some ((rs, ok tt), f')
    → (f1 : Finder) × (r ≡ (ok tt, f1)) × (reported f1.entries ≡ rs) × (f'.tables ≡ f1.tables)
resolve_next saves (err e, f) rs f' run =
    cc (ap (λ (p : List (Hash × TxType) × Result (Unit {0})). p.1) (parts run).0)
resolve_next saves (ok u, f) rs f' run =
    let (result, same) = parts run in
    (
      f,
      refl,
      ap (λ (p : List (Hash × TxType) × Result (Unit {0})). p.0) result,
      ap (λ (g : Finder). g.tables) (sym same)
          ∙ save-tables saves (record f { entries = remaining f.entries }),
    )

finished :
    (txs : Txs) (k : Hash) (o : Option UnresolvedTx) (e : UnresolvedTx)
    → o ≡ some e
    → met_in o ≡ true
    → sound_entry false txs k o ≡ true
    → over txs k e ≡ true
finished txs k o e there met sound =
    let met1 : e.visited ≡ true = rw there at met in
    let sound1 : sound_entry false txs k (some e) ≡ true = rw there at sound in
    ground (arith, met1, sound1)

-- An entry that is there was there before.
origin :
    (o o' : Option UnresolvedTx) (e' : UnresolvedTx)
    → o' ≡ some e'
    → Later o o'
    → (e : UnresolvedTx) × (o ≡ some e) × (e'.prevs ≡ e.prevs)
origin none o' e' there l = cc
origin (some e) none e' there l = absurd l
origin (some e) (some x) e' there l =
    (e, refl, ap (λ (o : Option UnresolvedTx). prevs_in o) (sym there) ∙ l.prevs)

keyed :
    {V : Type 0} (P : ℕ → Type 0) (d : Dict V) (k : ℕ) (e : V)
    → All P (map (λ r. r.0) d)
    → lookup k d ≡ some e
    → P k
unfolding lookup
keyed P [] k e h there = cc
keyed P ((j, x) ∷ d) k e h there = elim (Bool-cases (j == k)) [
  | inl same ↦ subst P ((==_iff j k).0 same) h.0
  | inr other ↦ keyed P d k e h.1 (rw other at there)
]

module _ (out : Outside) (rank : Hash → ℕ) where
  -- When Resolve returns without an error, for waiting transactions of which each is entered
  -- once, has references of smaller ranks and no visited flag, and whose stored copies stand
  -- under their own hashes: every transaction that it reports has all its references in the
  -- ledger afterwards, and is in the ledger itself if it is a normal one.
  pub resolve-reported :
      (fuel : ℕ) (saves : Bool) (f f' : Finder) (rs : List (Hash × TxType))
      → IsRanked rank f
      → IsFiled f
      → IsUnseen f
      → Distinct f.entries
      → resolve out fuel saves f ≡ some ((rs, ok tt), f')
      → All
          (λ (r : Hash × TxType).
            (lands r.1 f'.tables.txs r.0 && all_stored f'.tables.txs (prevs_at f.entries r.0))
            ≡ true)
          rs
  unfolding resolve
  resolve-reported fuel saves f f' rs ranked filed unseen apart run =
      elim (Option-cases (is_resolved out fuel (map (λ e. e.0) f.entries) f)) [
        | inl cut ↦ cc (rw (cut, resolve) at run)
        | inr (r, called) ↦
            let (f1, one, listing, tables) =
              resolve_next saves r rs f' (rw (called, resolve) at run) in
            let m =
              is_resolved-Met out rank fuel (map (λ e. e.0) f.entries) f f1 ranked filed
                (λ k. unseen_sound f.tables.txs k (lookup k f.entries) (unseen k))
                (called ∙ ap (λ x. some x) one) in
            let each : All
                (λ (r : Hash × UnresolvedTx).
                  (over f1.tables.txs r.0 r.1 ≡ true) × (r.1.prevs ≡ prevs_at f.entries r.0))
                f1.entries =
              listed (λ k e. (over f1.tables.txs k e ≡ true) × (e.prevs ≡ prevs_at f.entries k))
                f1.entries (m.grows.apart apart)
                (λ k e there.
                  let (e0, at0, same) =
                    origin (lookup k f.entries) (lookup k f1.entries) e there (m.grows.entry k) in
                  (
                    finished f1.tables.txs k (lookup k f1.entries) e there
                        (keyed (λ h. met_at f1 h ≡ true) f.entries k e0 m.met at0) (m.sound k),
                    same ∙ sym (ap prevs_in at0),
                  )) in
            subst
              (λ (l : List (Hash × TxType)).
                All
                  (λ (r : Hash × TxType).
                    (lands r.1 f'.tables.txs r.0
                      && all_stored f'.tables.txs (prevs_at f.entries r.0))
                    ≡ true)
                  l)
              listing (rw tables (reported-All f1.tables.txs f.entries f1.entries each))
      ]
