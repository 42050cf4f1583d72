-- ===== src/Imesh/Resolve/Visits.antt =====
-- A call of the depth-first walk that succeeds leaves its transaction visited and settled, or
-- flagged.
use aknode.Base.{
  ℕ, zero, suc, ◌==◌, ==_iff, ==_refl, ◌≤◌, ◌<◌, Bool, true, false, not, ◌&&◌, ◌||◌, Option, none,
  some, List, lookup, Result, ok, err, ◌≡◌, refl, sym, ap, subst, ◌∙◌, arith, Bool-cases,
  Option-cases, ◌⊎◌, inl, inr, All,
}
use aknode.Imesh.Types.{Hash, Txs}
use aknode.Imesh.Resolve.{
  UnresolvedTx, Finder, Outside, change, visiting, is_normal, conclude, Walk, walk, walked, dfs,
}
use aknode.Imesh.Resolve.Grows.{
  Raised, Later, Grows, Grows-refl, Grows-trans, lookup-change, visiting-Raised,
}
use aknode.Imesh.Resolve.Endings.{conclude-Local}
use aknode.Imesh.Resolve.Settled.{
  all_stored, sound_entry, IsSound, IsFiled, Grows-IsFiled, Local-IsSound, change-Local, over_in,
  over_at, ready,
}
use aknode.Imesh.Resolve.Flags.{
  RankedEntry, IsRanked, Grows-IsRanked, seen, flagged, Grows-seen, parts, ok_same,
}
use aknode.Imesh.Resolve.Walks.{Walked, Visited, Serves, walk-Walked}

-- `h` is open, on top of what was open before.
abbrev pub opened : Hash → (Hash → Bool) → Hash → Bool
opened h open_at k = h == k || open_at k

sound_or_open :
    (x y : Bool) (txs : Txs) (k : Hash) (o : Option UnresolvedTx)
    → sound_entry y txs k o ≡ true
    → sound_entry (x || y) txs k o ≡ true
sound_or_open x y txs k none s = refl
sound_or_open x y txs k (some e) s = ground arith

-- Closing `h` again.
close-IsSound :
    (h : Hash) (open_at : Hash → Bool) (f : Finder)
    → IsSound (opened h open_at) f
    → over_at f h ≡ true
    → IsSound open_at f
close-IsSound h open_at f s o k = elim (Bool-cases (h == k)) [
  | inl same ↦
      closed (open_at k) f.tables.txs k (lookup k f.entries)
        (subst (λ (j : Hash). over_at f j ≡ true) ((==_iff h k).0 same) o)
  | inr other ↦ rw other at (s k)
]
  where
    closed :
        (b : Bool) (txs : Txs) (k : Hash) (o : Option UnresolvedTx)
        → over_in txs k o ≡ true
        → sound_entry b txs k o ≡ true
    closed b txs k none e = refl
    closed b txs k (some x) e = ground arith

-- An entry that is there stays, with its references and no flag taken back.
kept :
    (o o' : Option UnresolvedTx) (e : UnresolvedTx)
    → o ≡ some e
    → Later o o'
    → (e' : UnresolvedTx) × (o' ≡ some e') × Raised e e'
kept none o' e there l = cc
kept (some x) none e there l = absurd l
kept (some x) (some e') e there l =
    (e', refl, subst (λ (y : UnresolvedTx). Raised y e') (some_same there) l)
  where
    some_same : {a b : UnresolvedTx} → ◌≡◌ {A = Option UnresolvedTx} (some a) (some b) → a ≡ b
    some_same {a} e = ap (λ (o : Option UnresolvedTx). elim o [ none ↦ a | some x ↦ x ]) e

-- A call that succeeds left its loop at once, or went on to the end of the call.
walked_inv :
    (out : Outside) (h : Hash) (w : Walk) (f' : Finder)
    → walked out h w ≡ some (ok tt, f')
    → (w ≡ some (ok true, f'))
      ⊎ (f1 : Finder) × (w ≡ some (ok false, f1)) × (conclude out h f1 ≡ (ok tt, f'))
unfolding walked
walked_inv out h none f' e = cc
walked_inv out h (some (err x, f)) f' e = cc (parts e).0
walked_inv out h (some (ok true, f)) f' e = inl (ap (λ (g : Finder). some (ok true, g)) (parts e).1)
walked_inv out h (some (ok false, f)) f' e = inr (
  f,
  refl,
  ap (λ (o : Option (Result (Unit {0}) × Finder)). elim o [ none ↦ conclude out h f | some p ↦ p ])
      e,
)

marked_at :
    (o : Option UnresolvedTx) (e1 : UnresolvedTx) (x : Bool)
    → o ≡ some e1
    → (flagged o || not true && x) ≡ true
    → (e1.broken || e1.unresolved) ≡ true
marked_at o e1 x at1 t =
    let t1 : (flagged (some e1) || not true && x) ≡ true = rw at1 at t in ground (arith, t1)

ready_at :
    (txs : Txs) (o : Option UnresolvedTx) (e e1 : UnresolvedTx)
    → o ≡ some e1
    → Raised e e1
    → (flagged o || not false && all_stored txs e.prevs) ≡ true
    → ready txs e1 ≡ true
ready_at txs o e e1 at1 r t =
    let t1 : (flagged (some e1) || not false && all_stored txs e.prevs) ≡ true = rw at1 at t in
    rw r.prevs (ground (arith, t1))

-- The end of the call for `h`, whose loop has been gone through.
closing :
    (out : Outside) (h : Hash) (open_at : Hash → Bool) (ps : List Hash) (f0 f' : Finder)
    (e : UnresolvedTx) (w : Walk)
    → lookup h f0.entries ≡ some e
    → IsFiled f0
    → ((b : Bool) (g : Finder) → w ≡ some (ok b, g) → Walked (opened h open_at) h e.prevs b f0 g)
    → walked out h w ≡ some (ok tt, f')
    → Grows f0 f' × IsSound open_at f'
closing out h open_at ps f0 f' e w there filed loop run = elim (walked_inv out h w f' run) [
  | inl left ↦
      let g = loop true f' left in
      let (e1, at1, r) =
        kept (lookup h f0.entries) (lookup h f'.entries) e there (g.grows.entry h) in
      let marked : (e1.broken || e1.unresolved) ≡ true =
        marked_at (lookup h f'.entries) e1 (all_stored f'.tables.txs e.prevs) at1 g.through in
      (
        g.grows,
        close-IsSound h open_at f' g.sound
            (ap (over_in f'.tables.txs h) at1 ∙ ground (arith, marked)),
      )
  | inr (f1, went, ends) ↦
      let g = loop false f1 went in
      let (e1, at1, r) =
        kept (lookup h f0.entries) (lookup h f1.entries) e there (g.grows.entry h) in
      let fine : ready f1.tables.txs e1 ≡ true =
        ready_at f1.tables.txs (lookup h f1.entries) e e1 at1 r g.through in
      let (l, o) =
        conclude-Local out h f1 e1 f' (Grows-IsFiled f0 f1 g.grows filed) at1 fine ends in
      (
        Grows-trans f0 f1 f' g.grows l.grows,
        close-IsSound h open_at f'
            (Local-IsSound h (opened h open_at) f1 f' l (rw (==_refl h) refl) g.sound) o,
      )
]

opened_free :
    (rank : Hash → ℕ) (h : Hash) (open_at : Hash → Bool)
    → ((k : Hash) → rank k ≤ rank h → open_at k ≡ false)
    → (k : Hash) → rank k < rank h
    → opened h open_at k ≡ false
opened_free rank h open_at above k less = elim (Bool-cases (h == k)) [
  | inl same ↦
      let bad : rank k < rank k =
        subst (λ (j : Hash). rank k < rank j) ((==_iff h k).0 same) less in
      let none_such : ⊥ = omega arith in absurd none_such
  | inr other ↦ rw (other, above k (omega arith)) refl
]

module _ (out : Outside) (rank : Hash → ℕ) where
  pub dfs-Visited :
      (fuel : ℕ) (h : Hash) (open_at : Hash → Bool) (f f' : Finder) (e : UnresolvedTx)
      → ((k : Hash) → rank k ≤ rank h → open_at k ≡ false)
      → IsRanked rank f
      → IsFiled f
      → IsSound open_at f
      → lookup h f.entries ≡ some e
      → dfs out fuel h f ≡ some (ok tt, f')
      → Visited open_at h f f'
  unfolding dfs walked
  dfs-Visited zero h open_at f f' e above ranked filed sound there run = cc
  dfs-Visited (suc fuel) h open_at f f' e above ranked filed sound there run =
      elim (Bool-cases e.visited) [
        | inl met ↦
            let (_, same) = ok_same (rw (there, met, dfs) at run) in
            subst (Visited open_at h f) same
              (record { grows = Grows-refl f; sound = sound; met = ap seen there ∙ met })
        | inr new ↦
            let f0 = change h visiting f in
            let l = change-Local h visiting f visiting-Raised in
            let at0 : lookup h f0.entries ≡ some (visiting e) =
              lookup-change h h visiting f ∙ rw (==_refl h, there) refl in
            let run1 : walked out h (walk (dfs out fuel) h e.prevs f0) ≡ some (ok tt, f') =
              rw (there, new, dfs) at run in
            let serves : Serves rank (opened h open_at) h (dfs out fuel) =
              λ p g g' less ranked_g filed_g sound_g known called.
                elim (Option-cases (lookup p g.entries)) [
                  | inl gone ↦ cc (sym (ap is_normal gone) ∙ known)
                  | inr (x, found) ↦
                      dfs-Visited fuel p (opened h open_at) g g' x
                        (λ k close. opened_free rank h open_at above k (omega arith)) ranked_g
                        filed_g sound_g found called
                ] in
            let below : All (λ p. rank p < rank h) e.prevs =
              subst (RankedEntry rank h) there (ranked h) in
            let free : (p : Hash) → rank p < rank h → opened h open_at p ≡ false =
              λ p less. opened_free rank h open_at above p less in
            let sound0 : IsSound (opened h open_at) f0 =
              Local-IsSound h (opened h open_at) f f0 l (rw (==_refl h) refl) (λ k.
                sound_or_open (h == k) (open_at k) f.tables.txs k (lookup k f.entries) (sound k)) in
            let loop : (b : Bool) (g : Finder)
                → walk (dfs out fuel) h e.prevs f0 ≡ some (ok b, g)
                → Walked (opened h open_at) h e.prevs b f0 g =
              λ b g.
                walk-Walked rank (opened h open_at) h (dfs out fuel) serves (rw (==_refl h) refl)
                  free e.prevs f0 g b below (Grows-IsRanked rank f f0 l.grows ranked)
                  (Grows-IsFiled f f0 l.grows filed) sound0 (ap seen at0) in
            let (grows, sound) =
              closing out h open_at e.prevs f0 f' (visiting e) _ at0
                (Grows-IsFiled f f0 l.grows filed) loop run1 in
            record {
              grows = Grows-trans f f0 f' l.grows grows;
              sound = sound;
              met = Grows-seen h f0 f' grows (ap seen at0);
            }
      ]
