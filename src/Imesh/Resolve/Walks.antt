-- ===== src/Imesh/Resolve/Walks.antt =====
-- The depth-first walk: what it leaves open, and what it finishes.
use aknode.Base.{
  ℕ, ◌<◌, Bool, true, false, not, ◌&&◌, ◌||◌, Option, none, some, List, [], ◌∷◌, lookup, contains,
  Result, ok, err, ◌≡◌, refl, sym, subst, arith, Bool-cases, inl, inr, All,
}
use aknode.Imesh.Types.{Hash, Txs}
use aknode.Imesh.Tables.{
  TxType, type_normal, type_reward_fee, type_reward_ticket, type_unknown, has,
}
use aknode.Imesh.Resolve.{
  UnresolvedTx, Finder, change, breaking, lacking, want, inherit, is_normal, normal_kind, Walk,
  visited_then, walk,
}
use aknode.Imesh.Resolve.Grows.{
  ◌⇒◌, ⇒_apply, ⇒-trans, Later, Grows, Grows-refl, Grows-trans, change-Grows, breaking-Raised,
  lacking-Raised,
}
use aknode.Imesh.Resolve.Adding.{lands}
use aknode.Imesh.Resolve.Settled.{
  all_stored, sound_entry, IsSound, IsFiled, Grows-IsFiled, Local-trans, Local-IsSound,
  change-Local, want-Local,
}
use aknode.Imesh.Resolve.Flags.{
  IsRanked, Grows-IsRanked, seen, flagged, Later-flagged, flagged-change, Grows-seen, inherit-Local,
  parts, ok_same,
}

-- What holds when the walk for `h` has gone through `ps`; `early` says that it met a broken one.
pub record Walked (open_at : Hash → Bool) (h : Hash) (ps : List Hash) (early : Bool) (f f' : Finder)
    : Type 0 where
  pub grows : Grows f f'
  pub sound : IsSound open_at f'
  pub through : (flagged (lookup h f'.entries) || not early && all_stored f'.tables.txs ps) ≡ true

-- What holds when the call for `p` has returned.
pub record Visited (open_at : Hash → Bool) (p : Hash) (f f' : Finder) : Type 0 where
  pub grows : Grows f f'
  pub sound : IsSound open_at f'
  pub met : seen (lookup p f'.entries) ≡ true

visited_then_inv :
    (h p : Hash) (r : Option (Result (Unit {0}) × Finder)) (rest : Finder → Walk) (b : Bool)
    (f' : Finder)
    → visited_then h p r rest ≡ some (ok b, f')
    → (f1 : Finder) × (r ≡ some (ok tt, f1))
      × (rest (inherit h (lookup p f1.entries) f1) ≡ some (ok b, f'))
unfolding visited_then
visited_then_inv h p none rest b f' e = cc
visited_then_inv h p (some (err x, f)) rest b f' e = cc (parts e).0
visited_then_inv h p (some (ok u, f)) rest b f' e = (f, refl, e)

lands_normal :
    (kind : TxType) (txs : Txs) (k : Hash) → normal_kind kind ≡ true → lands kind txs k ≡ has txs k
lands_normal type_normal txs k e = refl
lands_normal type_reward_fee txs k e = cc
lands_normal type_reward_ticket txs k e = cc
lands_normal (type_unknown x) txs k e = cc

-- The entry of a normal reference, once its call has returned: flagged, or in the ledger.
told :
    (p : Hash) (txs : Txs) (o o' : Option UnresolvedTx)
    → is_normal o ≡ true
    → Later o o'
    → seen o' ≡ true
    → sound_entry false txs p o' ≡ true
    → (flagged o' || has txs p) ≡ true
told p txs none o' normal l met sound = cc
told p txs (some e) none normal l met sound = absurd l
told p txs (some e) (some e') normal l met sound =
    let landed = lands_normal e'.kind txs p (rw (sym l.kind) at normal) in
    ground (arith, met, sound, landed)

abbrev pub Visit : Type 0
Visit = Hash → Finder → Option (Result (Unit {0}) × Finder)

-- What the walk needs of the recursive call: for references that are not open.
abbrev pub Serves : (Hash → ℕ) → (Hash → Bool) → Hash → Visit → Type 0
Serves rank open_at h visit =
    (p : Hash) (f f' : Finder)
    → rank p < rank h
    → IsRanked rank f
    → IsFiled f
    → IsSound open_at f
    → is_normal (lookup p f.entries) ≡ true
    → visit p f ≡ some (ok tt, f')
    → Visited open_at p f f'

sum_up :
    (flag_p has_p flag_h flag_end has_end all b : Bool)
    → (flag_p || has_p) ≡ true
    → flag_p ⇒ flag_h
    → flag_h ⇒ flag_end
    → has_p ⇒ has_end
    → (flag_end || not b && all) ≡ true
    → (flag_end || not b && (has_end && all)) ≡ true
sum_up flag_p has_p flag_h flag_end has_end all b p q r s t = ground arith

module _ (rank : Hash → ℕ) (open_at : Hash → Bool) (h : Hash) (visit : Visit)
    (serves : Serves rank open_at h visit) (is_open : open_at h ≡ true)
    (free : (p : Hash) → rank p < rank h → open_at p ≡ false) where
  -- One turn of the loop, for a reference that waits itself.
  known_reference :
      (p : Hash) (ps : List Hash) (f f' : Finder) (b : Bool)
      → All (λ p. rank p < rank h) (p ∷ ps)
      → IsRanked rank f
      → IsFiled f
      → IsSound open_at f
      → seen (lookup h f.entries) ≡ true
      → is_normal (lookup p f.entries) ≡ true
      → ((g g' : Finder) (c : Bool)
          → All (λ p. rank p < rank h) ps
          → IsRanked rank g
          → IsFiled g
          → IsSound open_at g
          → seen (lookup h g.entries) ≡ true
          → walk visit h ps g ≡ some (ok c, g')
          → Walked open_at h ps c g g')
      → visited_then h p (visit p f) (walk visit h ps) ≡ some (ok b, f')
      → Walked open_at h (p ∷ ps) b f f'
  known_reference p ps f f' b below ranked filed sound here known rest run =
      let (f1, called, run1) = visited_then_inv h p (visit p f) (walk visit h ps) b f' run in
      let v = serves p f f1 below.0 ranked filed sound known called in
      let f2 = inherit h (lookup p f1.entries) f1 in
      let here1 = Grows-seen h f f1 v.grows here in
      let (l, passed) = inherit-Local h (lookup p f1.entries) f1 here1 in
      let g2 = Grows-trans f f1 f2 v.grows l.grows in
      let w =
        rest f2 f' b below.1 (Grows-IsRanked rank f f2 g2 ranked) (Grows-IsFiled f f2 g2 filed)
          (Local-IsSound h open_at f1 f2 l is_open v.sound) (Grows-seen h f1 f2 l.grows here1)
          run1 in
      let free_p = free p below.0 in
      let sound_p : sound_entry false f1.tables.txs p (lookup p f1.entries) ≡ true =
        rw free_p at (v.sound p) in
      let p_told =
        told p f1.tables.txs (lookup p f.entries) (lookup p f1.entries) known (v.grows.entry p)
          v.met sound_p in
      let h_kept = Later-flagged (lookup h f2.entries) (lookup h f'.entries) (w.grows.entry h) in
      let p_kept =
        ⇒-trans (has f1.tables.txs p) (has f2.tables.txs p) (has f'.tables.txs p) (l.grows.stored p)
          (w.grows.stored p) in
      record {
        grows = Grows-trans f f2 f' g2 w.grows;
        sound = w.sound;
        through = sum_up _ _ _ _ _ _ b p_told passed h_kept p_kept w.through;
      }

  pub walk-Walked :
      (ps : List Hash) (f f' : Finder) (b : Bool)
      → All (λ p. rank p < rank h) ps
      → IsRanked rank f
      → IsFiled f
      → IsSound open_at f
      → seen (lookup h f.entries) ≡ true
      → walk visit h ps f ≡ some (ok b, f')
      → Walked open_at h ps b f f'
  unfolding walk
  walk-Walked [] f f' b below ranked filed sound here run =
      let (early, same) = ok_same run in
      subst (λ (g : Finder). Walked open_at h [] b f g) same
        (record { grows = Grows-refl f; sound = sound; through = rw (← early) (ground arith) })
  walk-Walked (p ∷ ps) f f' b below ranked filed sound here run =
      elim (Bool-cases (has f.tables.txs p)) [
        | inl stored ↦
            let w =
              walk-Walked ps f f' b below.1 ranked filed sound here (rw (stored, walk) at run) in
            record {
              grows = w.grows;
              sound = w.sound;
              through = ground (arith, stored, w.through, w.grows.stored p);
            }
        | inr absent ↦ elim (Bool-cases (contains f.missing.broken p)) [
          | inl broken ↦
              let (early, same) = ok_same (rw (absent, broken, walk) at run) in
              subst (λ (g : Finder). Walked open_at h (p ∷ ps) b f g) same
                (record {
                  grows = change-Grows h breaking f breaking-Raised;
                  sound =
                      Local-IsSound h open_at f _ (change-Local h breaking f breaking-Raised)
                        is_open sound;
                  through = rw (flagged-change h breaking f (λ x. refl) here) refl;
                })
          | inr fine ↦ elim (Bool-cases (is_normal (lookup p f.entries))) [
            | inr other ↦
                let f1 = change h lacking f in
                let f2 = want p f1 in
                let l1 = change-Local h lacking f lacking-Raised in
                let l2 = want-Local h p f1 in
                let l = Local-trans h f f1 f2 l1 l2 in
                let marked = flagged-change h lacking f (λ x. ground arith) here in
                let w =
                  walk-Walked ps f2 f' b below.1 (Grows-IsRanked rank f f2 l.grows ranked)
                    (Grows-IsFiled f f2 l.grows filed)
                    (Local-IsSound h open_at f f2 l is_open sound) (Grows-seen h f f2 l.grows here)
                    (rw (absent, fine, other, walk) at run) in
                record {
                  grows = Grows-trans f f2 f' l.grows w.grows;
                  sound = w.sound;
                  through = ground (
                    arith,
                    ⇒_apply _ _
                        (Later-flagged (lookup h f1.entries) (lookup h f'.entries)
                          ((Grows-trans f1 f2 f' l2.grows w.grows).entry h))
                        marked,
                  );
                }
            | inl known ↦
                known_reference p ps f f' b below ranked filed sound here known (walk-Walked ps)
                  (rw (absent, fine, known, walk) at run)
          ]
        ]
      ]
