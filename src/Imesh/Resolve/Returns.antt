-- ===== src/Imesh/Resolve/Returns.antt =====
-- `Resolve` returns: fuel above the ranks of the waiting transactions is enough.
use aknode.Base.{
  ℕ, zero, suc, ◌<◌, if◌then◌else◌, Bool, true, false, not, ◌||◌, Option, none, some, List, [], ◌∷◌,
  map, Dict, lookup, contains, Result, ok, err, ◌≡◌, refl, sym, subst, arith, Bool-cases,
  Option-cases, inl, inr, All,
}
use aknode.Imesh.Types.{Hash, Transaction}
use aknode.Imesh.Tables.{
  TxType, type_normal, type_reward_fee, type_reward_ticket, type_unknown, Tables, has, get_tx_func,
}
use aknode.Imesh.Resolve.{
  UnresolvedTx, Finder, Outside, change, visiting, breaking, lacking, put_broken_tx,
  delete_unresolved_tx, want, with_tables, inherit, is_normal, add_normal, add_resolved,
  settle_entry, resolved, conclude, Walk, visited_then, walk, walked, dfs, is_resolved, report,
  resolve,
}
use aknode.Imesh.Resolve.Grows.{change-Grows, visiting-Raised, breaking-Raised, lacking-Raised}
use aknode.Imesh.Resolve.Settled.{want-Local}
use aknode.Imesh.Resolve.Flags.{RankedEntry, IsRanked, Grows-IsRanked, flag_if-Local}

with_tables-entries : (f : Finder) (r : Result Tables) → (with_tables f r).1.entries ≡ f.entries
with_tables-entries f (err e) = refl
with_tables-entries f (ok t) = refl

module _ (out : Outside) (rank : Hash → ℕ) where
  -- The call was not cut off, and left the references of the entries as they were.
  abbrev Returns {ℓ} : {A : Type ℓ} → Option (Result A × Finder) → Type 0
  Returns none = ⊥
  Returns (some r) = IsRanked rank r.1

  abbrev RankedEntries : Dict UnresolvedTx → Type 0
  RankedEntries es = (k : Hash) → RankedEntry rank k (lookup k es)

  add_resolved-entries :
      (kind : TxType) (tr : Transaction) (f : Finder)
      → (add_resolved out kind tr f).1.entries ≡ f.entries
  unfolding add_resolved add_normal
  add_resolved-entries type_normal tr f = refl
  add_resolved-entries type_reward_fee tr f = with_tables-entries f _
  add_resolved-entries type_reward_ticket tr f = with_tables-entries f _
  add_resolved-entries (type_unknown k) tr f = with_tables-entries f _

  settle_entry-IsRanked :
      (h : Hash) (e : UnresolvedTx) (tr : Transaction) (f : Finder)
      → IsRanked rank f
      → IsRanked rank (settle_entry out h e tr f).1
  unfolding settle_entry delete_unresolved_tx put_broken_tx
  settle_entry-IsRanked h e tr f ranked =
      let f1 = delete_unresolved_tx h f in
      elim (Bool-cases e.broken) [
        | inl broken ↦ rw broken ranked
        | inr whole ↦ elim (Bool-cases (out.check_all (get_tx_func f.tables.txs) tr e.kind)) [
          | inl valid ↦
              rw (whole, valid)
                (subst RankedEntries (sym (add_resolved-entries e.kind tr f1)) ranked)
          | inr bad ↦
              rw (whole, bad)
                (Grows-IsRanked rank f1 (change h breaking f1)
                  (change-Grows h breaking f1 breaking-Raised) ranked)
        ]
      ]

  conclude-IsRanked : (h : Hash) (f : Finder) → IsRanked rank f → IsRanked rank (conclude out h f).1
  unfolding conclude resolved
  conclude-IsRanked h f ranked = elim (Option-cases (lookup h f.entries)) [
    | inl gone ↦ rw (gone, conclude) ranked
    | inr (e, there) ↦ elim (Bool-cases (e.broken || not e.unresolved)) [
      | inr waits ↦ rw (there, waits, conclude) ranked
      | inl ends ↦ elim (Option-cases (f.waiting h)) [
        | inl lost ↦ rw (there, ends, lost, conclude, resolved) ranked
        | inr (tr, found) ↦
            rw (there, ends, found, conclude, resolved) (settle_entry-IsRanked h e tr f ranked)
      ]
    ]
  ]

  walked-Returns : (h : Hash) (w : Walk) → Returns w → Returns (walked out h w)
  unfolding walked
  walked-Returns h none r = absurd r
  walked-Returns h (some (err e, f)) r = r
  walked-Returns h (some (ok true, f)) r = r
  walked-Returns h (some (ok false, f)) r = conclude-IsRanked h f r

  inherit-IsRanked :
      (h : Hash) (o : Option UnresolvedTx) (f : Finder)
      → IsRanked rank f
      → IsRanked rank (inherit h o f)
  unfolding inherit
  inherit-IsRanked h none f ranked = ranked
  inherit-IsRanked h (some e) f ranked =
      let f1 = if e.broken then change h breaking f else f in
      let f2 = if e.unresolved then change h lacking f1 else f1 in
      Grows-IsRanked rank f1 f2 (flag_if-Local e.unresolved h lacking f1 lacking-Raised).grows (
        Grows-IsRanked rank f f1 (flag_if-Local e.broken h breaking f breaking-Raised).grows ranked)

  visited_then-Returns :
      (h p : Hash) (r : Option (Result (Unit {0}) × Finder)) (rest : Finder → Walk)
      → Returns r
      → ((f : Finder) → IsRanked rank f → Returns (rest f))
      → Returns (visited_then h p r rest)
  unfolding visited_then
  visited_then-Returns h p none rest r next = absurd r
  visited_then-Returns h p (some (err e, f)) rest r next = r
  visited_then-Returns h p (some (ok u, f)) rest r next =
      next (inherit h (lookup p f.entries) f) (inherit-IsRanked h (lookup p f.entries) f r)

  module _ (visit : Hash → Finder → Option (Result (Unit {0}) × Finder)) (h : Hash)
      (serves : (p : Hash) (f : Finder)
        → rank p < rank h
        → IsRanked rank f
        → Returns (visit p f)) where
    walk-Returns :
        (ps : List Hash) (f : Finder)
        → All (λ p. rank p < rank h) ps
        → IsRanked rank f
        → Returns (walk visit h ps f)
    unfolding walk
    walk-Returns [] f below ranked = ranked
    walk-Returns (p ∷ ps) f below ranked = elim (Bool-cases (has f.tables.txs p)) [
      | inl stored ↦ rw (stored, walk) (walk-Returns ps f below.1 ranked)
      | inr absent ↦ elim (Bool-cases (contains f.missing.broken p)) [
        | inl broken ↦
            rw (absent, broken, walk)
              (Grows-IsRanked rank f (change h breaking f)
                (change-Grows h breaking f breaking-Raised) ranked)
        | inr fine ↦ elim (Bool-cases (is_normal (lookup p f.entries))) [
          | inr other ↦
              let f1 = change h lacking f in
              let ranked1 =
                Grows-IsRanked rank f f1 (change-Grows h lacking f lacking-Raised) ranked in
              rw (absent, fine, other, walk)
                (walk-Returns ps (want p f1) below.1
                  (Grows-IsRanked rank f1 (want p f1) (want-Local h p f1).grows ranked1))
          | inl known ↦
              rw (absent, fine, known, walk)
                (visited_then-Returns h p (visit p f) (walk visit h ps) (serves p f below.0 ranked)
                  (λ g ranked_g. walk-Returns ps g below.1 ranked_g))
        ]
      ]
    ]

  dfs-Returns :
      (fuel : ℕ) (h : Hash) (f : Finder)
      → rank h < fuel
      → IsRanked rank f
      → Returns (dfs out fuel h f)
  unfolding dfs
  dfs-Returns zero h f less ranked = let none_such : ⊥ = omega arith in absurd none_such
  dfs-Returns (suc fuel) h f less ranked = elim (Option-cases (lookup h f.entries)) [
    | inl gone ↦ rw (gone, dfs) ranked
    | inr (e, there) ↦ elim (Bool-cases e.visited) [
      | inl met ↦ rw (there, met, dfs) ranked
      | inr new ↦
          let f0 = change h visiting f in
          rw (there, new, dfs)
            (walked-Returns h (walk (dfs out fuel) h e.prevs f0) (
              walk-Returns (dfs out fuel) h
                (λ p g less_p ranked_g. dfs-Returns fuel p g (omega (arith, less, less_p)) ranked_g)
                e.prevs f0 (subst (RankedEntry rank h) there (ranked h))
                (Grows-IsRanked rank f f0 (change-Grows h visiting f visiting-Raised) ranked)))
    ]
  ]

  -- The rest of `isResolved` after one call.
  next-Returns :
      (r : Result (Unit {0}) × Finder) (rest : Finder → Option (Result (Unit {0}) × Finder))
      → IsRanked rank r.1
      → ((f : Finder) → IsRanked rank f → Returns (rest f))
      → Returns (elim r.0 as (λ x. Option (Result (Unit {0}) × Finder)) [
        | err e ↦ some r
        | ok _ ↦ rest r.1
      ])
  next-Returns (err e, f) rest ranked more = ranked
  next-Returns (ok u, f) rest ranked more = more f ranked

  is_resolved-Returns :
      (fuel : ℕ) (hs : List Hash) (f : Finder)
      → All (λ h. rank h < fuel) hs
      → IsRanked rank f
      → Returns (is_resolved out fuel hs f)
  unfolding is_resolved
  is_resolved-Returns fuel [] f less ranked = ranked
  is_resolved-Returns fuel (h ∷ hs) f less ranked =
      let one = dfs-Returns fuel h f less.0 ranked in
      elim (Option-cases (dfs out fuel h f)) [
        | inl cut ↦ let none_such : ⊥ = rw cut at one in absurd none_such
        | inr (r, called) ↦
            let ranked1 : IsRanked rank r.1 = rw called at one in
            rw (called, is_resolved)
              (next-Returns r (is_resolved out fuel hs) ranked1
                (λ g ranked_g. is_resolved-Returns fuel hs g less.1 ranked_g))
      ]

  -- For waiting transactions that have references of smaller ranks, and whose ranks are below the
  -- fuel, Resolve returns.
  pub resolve_total :
      (fuel : ℕ) (saves : Bool) (f : Finder)
      → IsRanked rank f
      → All (λ (e : Hash × UnresolvedTx). rank e.0 < fuel) f.entries
      → (r : (List (Hash × TxType) × Result (Unit {0})) × Finder) × (resolve out fuel saves f
          ≡ some r)
  unfolding resolve
  resolve_total fuel saves f ranked less =
      let hs = map (λ e. e.0) f.entries in
      let all = is_resolved-Returns fuel hs f (keys_less fuel f.entries less) ranked in
      elim (Option-cases (is_resolved out fuel hs f)) [
        | inl cut ↦ let none_such : ⊥ = rw cut at all in absurd none_such
        | inr (r, called) ↦ rw (called, resolve) (ended saves r)
      ]
    where
      keys_less :
          (fuel : ℕ) (d : Dict UnresolvedTx)
          → All (λ (e : Hash × UnresolvedTx). rank e.0 < fuel) d
          → All (λ h. rank h < fuel) (map (λ e. e.0) d)
      keys_less fuel [] less = tt
      keys_less fuel (x ∷ d) less = (less.0, keys_less fuel d less.1)

      ended :
          (saves : Bool) (r : Result (Unit {0}) × Finder)
          → (x : (List (Hash × TxType) × Result (Unit {0})) × Finder) × ((elim r.0
                as (λ x. Option ((List (Hash × TxType) × Result (Unit {0})) × Finder)) [
                  | err e ↦ some (([], err e), r.1)
                  | ok _ ↦ some (report saves r.1)
                ])
              ≡ some x)
      ended saves (err e, g) = ((([], err e), g), refl)
      ended saves (ok u, g) = (report saves g, refl)
