-- ===== src/Imesh/Resolve/Calls.antt =====
-- `isResolved` visits every waiting transaction.
use aknode.Base.{
  ℕ, zero, suc, Bool, true, false, not, Option, none, some, List, [], ◌∷◌, Dict, lookup, Result, ok,
  err, ◌≡◌, refl, ap, subst, ◌∙◌, arith, Option-cases, inl, inr, All,
}
use aknode.Imesh.Types.{Hash, Txs}
use aknode.Imesh.Resolve.{UnresolvedTx, Finder, Outside, dfs, is_resolved}
use aknode.Imesh.Resolve.Grows.{◌⇒◌, ⇒_apply, Later, Grows, Grows-refl, Grows-trans}
use aknode.Imesh.Resolve.Settled.{sound_entry, IsSound, IsFiled, Grows-IsFiled}
use aknode.Imesh.Resolve.Flags.{IsRanked, Grows-IsRanked, seen, parts, ok_same}
use aknode.Imesh.Resolve.Visits.{dfs-Visited}

-- No call is under way.
abbrev pub none_open : Hash → Bool
none_open k = false

-- Nothing waits under the hash, or what waits was visited.
abbrev pub met_in : Option UnresolvedTx → Bool
met_in none = true
met_in (some e) = e.visited

pub Later-met : (o o' : Option UnresolvedTx) → Later o o' → met_in o ⇒ met_in o'
Later-met none o' l = rw l refl
Later-met (some e) none l = absurd l
Later-met (some e) (some e') l = l.visited

abbrev pub met_at : Finder → Hash → Bool
met_at f h = met_in (lookup h f.entries)

-- The references that the entry under a hash names.
abbrev pub prevs_in : Option UnresolvedTx → List Hash
prevs_in none = []
prevs_in (some e) = e.prevs

abbrev pub prevs_at : Dict UnresolvedTx → Hash → List Hash
prevs_at d h = prevs_in (lookup h d)

seen-met : (o : Option UnresolvedTx) → seen o ≡ true → met_in o ≡ true
seen-met none s = refl
seen-met (some e) s = s

-- The rest of `isResolved` after a call that did not end in an error.
next :
    (r : Result (Unit {0}) × Finder) (rest : Finder → Option (Result (Unit {0}) × Finder))
    (f' : Finder)
    → elim r.0 [ err e ↦ some r | ok _ ↦ rest r.1 ] ≡ some (ok tt, f')
    → (f1 : Finder) × (r ≡ (ok tt, f1)) × (rest f1 ≡ some (ok tt, f'))
next (err e, f) rest f' run = cc (parts run).0
next (ok u, f) rest f' run = (f, refl, run)

-- No waiting transaction is marked as visited.
abbrev pub unseen_in : Option UnresolvedTx → Bool
unseen_in none = true
unseen_in (some e) = not e.visited

abbrev pub IsUnseen : Finder → Type 0
IsUnseen f = (k : Hash) → unseen_in (lookup k f.entries) ≡ true

pub unseen_sound :
    (txs : Txs) (k : Hash) (o : Option UnresolvedTx)
    → unseen_in o ≡ true
    → sound_entry false txs k o ≡ true
unseen_sound txs k none u = refl
unseen_sound txs k (some e) u = ground arith

module _ (out : Outside) (rank : Hash → ℕ) where
  pub record Met (hs : List Hash) (f f' : Finder) : Type 0 where
    pub grows : Grows f f'
    pub sound : IsSound none_open f'
    pub met : All (λ h. met_at f' h ≡ true) hs

  dfs-Met :
      (fuel : ℕ) (h : Hash) (f f' : Finder)
      → IsRanked rank f
      → IsFiled f
      → IsSound none_open f
      → dfs out fuel h f ≡ some (ok tt, f')
      → Met (h ∷ []) f f'
  unfolding dfs
  dfs-Met zero h f f' ranked filed sound run = cc
  dfs-Met (suc fuel) h f f' ranked filed sound run = elim (Option-cases (lookup h f.entries)) [
    | inl gone ↦
        let same = (ok_same (rw (gone, dfs) at run)).1 in
        subst (Met (h ∷ []) f) same
          (record { grows = Grows-refl f; sound = sound; met = (ap met_in gone, tt) })
    | inr (e, there) ↦
        let v =
          dfs-Visited out rank (suc fuel) h none_open f f' e (λ k l. refl) ranked filed sound there
            run in
        record {
          grows = v.grows;
          sound = v.sound;
          met = (seen-met (lookup h f'.entries) v.met, tt);
        }
  ]

  pub is_resolved-Met :
      (fuel : ℕ) (hs : List Hash) (f f' : Finder)
      → IsRanked rank f
      → IsFiled f
      → IsSound none_open f
      → is_resolved out fuel hs f ≡ some (ok tt, f')
      → Met hs f f'
  unfolding is_resolved
  is_resolved-Met fuel [] f f' ranked filed sound run =
      subst (Met [] f) (ok_same run).1 (record { grows = Grows-refl f; sound = sound; met = tt })
  is_resolved-Met fuel (h ∷ hs) f f' ranked filed sound run =
      elim (Option-cases (dfs out fuel h f)) [
        | inl cut ↦ cc (rw (cut, is_resolved) at run)
        | inr (r, called) ↦
            let (f1, one, rest) =
              next r (is_resolved out fuel hs) f' (rw (called, is_resolved) at run) in
            let a = dfs-Met fuel h f f1 ranked filed sound (called ∙ ap (λ x. some x) one) in
            let b =
              is_resolved-Met fuel hs f1 f' (Grows-IsRanked rank f f1 a.grows ranked)
                (Grows-IsFiled f f1 a.grows filed) a.sound rest in
            record {
              grows = Grows-trans f f1 f' a.grows b.grows;
              sound = b.sound;
              met = (
                ⇒_apply _ _
                    (Later-met (lookup h f1.entries) (lookup h f'.entries) (b.grows.entry h))
                    a.met.0,
                b.met,
              );
            }
      ]
