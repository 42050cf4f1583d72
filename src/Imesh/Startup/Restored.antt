-- ===== src/Imesh/Startup/Restored.antt =====
-- What was saved is there again after a start.
use aknode.Base.{
  ◌==◌, ==_iff, true, Option, none, some, List, [], ◌∷◌, Dict, Distinct, lookup, insert,
  lookup-insert, ok, ◌≡◌, refl, ap, subst, ◌∙◌, Bool-cases, Option-cases, inl, inr, All,
}
use aknode.Imesh.Types.{Hash, Transaction}
use aknode.Imesh.Tables.{Tables, has}
use aknode.Imesh.Search.{Missing}
use aknode.Imesh.Resolve.{UnresolvedTx, Finder, Outside, prevs, kinds, save}
use aknode.Imesh.Startup.{
  bare, entries_of, reset, load, restore, restored, load_all, init, get_tx_no,
}

-- An entry after a start: no flag is set.
abbrev pub rested : Option UnresolvedTx → Option UnresolvedTx
rested none = none
rested (some e) = some (record (bare e.kind) { prevs = e.prevs })

-- The transaction of an entry waits, has the entry's references, and passes `tr.Check`.
abbrev pub Waits : Outside → (Hash → Option Transaction) → Hash × UnresolvedTx → Type 0
Waits out waiting r =
    (t : Transaction) × (waiting r.0 ≡ some t)
    × (prevs t.body ≡ r.1.prevs)
    × (out.check t r.1.kind ≡ true)

abbrev over_old : Option UnresolvedTx → Option UnresolvedTx → Option UnresolvedTx
over_old none old = old
over_old (some e) old = rested (some e)

-- One turn of the loop.
entered :
    (h k : Hash) (e : UnresolvedTx) (d : Dict UnresolvedTx) (ps : List Hash)
    (es : Dict UnresolvedTx)
    → lookup h d ≡ none
    → ps ≡ e.prevs
    → over_old (lookup k d) (lookup k (insert h (record (bare e.kind) { prevs = ps }) es))
      ≡ over_old (lookup k ((h, e) ∷ d)) (lookup k es)
unfolding lookup
entered h k e d ps es gone same =
    ap (over_old (lookup k d)) (lookup-insert h k (record (bare e.kind) { prevs = ps }) es)
    ∙ elim (Bool-cases (h == k)) [
      | inl own ↦
          let none_here : lookup k d ≡ none =
            subst (λ (j : Hash). lookup j d ≡ none) ((==_iff h k).0 own) gone in
          rw (own, none_here)
            (ap (λ (qs : List Hash). some (record (bare e.kind) { prevs = qs })) same)
      | inr other ↦ rw other refl
    ]

-- A hash without an entry has none among those that were saved.
entries_of-none :
    (k : Hash) (d : Dict UnresolvedTx) → lookup k d ≡ none → lookup k (entries_of (kinds d)) ≡ none
unfolding lookup kinds entries_of
entries_of-none k [] gone = refl
entries_of-none k ((h, e) ∷ d) gone = elim (Bool-cases (h == k)) [
  | inl own ↦ cc (rw own at gone)
  | inr other ↦ rw other (entries_of-none k d (rw other at gone))
]

over_saved :
    (k : Hash) (d : Dict UnresolvedTx)
    → over_old (lookup k d) (lookup k (entries_of (kinds d))) ≡ rested (lookup k d)
over_saved k d = elim (Option-cases (lookup k d)) [
  | inl gone ↦ rw gone (entries_of-none k d gone)
  | inr (e, there) ↦ rw there refl
]

module _ (out : Outside) where
  pub record Restores (d : Dict UnresolvedTx) (f f' : Finder) : Type 0 where
    pub entry : (k : Hash) → lookup k f'.entries ≡ over_old (lookup k d) (lookup k f.entries)
    pub missing : f'.missing ≡ f.missing
    pub tables : f'.tables ≡ f.tables

  restore-Restores :
      (d : Dict UnresolvedTx) (f : Finder)
      → Distinct d
      → All (Waits out f.waiting) d
      → (f' : Finder) × (restore out (entries_of (kinds d)) f ≡ (ok true, f')) × Restores d f f'
  unfolding restore kinds entries_of lookup
  restore-Restores [] f apart waits =
      (f, refl, record { entry = λ k. refl; missing = refl; tables = refl })
  restore-Restores ((h, e) ∷ d) f apart waits =
      let (t, there, same, valid) = waits.0 in
      let f1 = record f {
        entries = insert h (record (bare e.kind) { prevs = prevs t.body }) f.entries;
      } in
      let (f', run, r) = restore-Restores d f1 apart.1 waits.1 in
      (
        f',
        rw (there, valid, restore) run,
        record {
          entry = λ k. r.entry k ∙ entered h k e d (prevs t.body) f.entries apart.0 same;
          missing = r.missing;
          tables = r.tables;
        },
      )

  -- When the genesis transaction is stored, and each waiting transaction is entered once, is in
  -- the table of waiting transactions with the references of its entry and passes its check: Init
  -- after put returns without an error, with the same entries but without their flags, the same
  -- missing transactions and the transaction number that was stored.
  pub init_restores :
      (genesis : Transaction) (f : Finder)
      → has f.tables.txs genesis.hash ≡ true
      → Distinct f.entries
      → All (Waits out f.waiting) f.entries
      → (f' : Finder) × (init out true genesis (save true f).1 ≡ (ok tt, f'))
        × ((k : Hash) → lookup k f'.entries ≡ rested (lookup k f.entries))
        × (f'.missing.noexists ≡ f.missing.noexists)
        × (f'.memory.tx_no ≡ f.tables.saved_no)
  unfolding init load_all load save restored get_tx_no
  init_restores genesis f stored apart waits =
      let f0 = load (reset (save true f).1) in
      let (f', run, r) = restore-Restores f.entries f0 apart waits in
      (
        get_tx_no f',
        rw (stored, run) refl,
        λ k. r.entry k ∙ over_saved k f.entries,
        ap (λ (m : Missing). m.noexists) r.missing,
        ap (λ (t : Tables). t.saved_no) r.tables,
      )
