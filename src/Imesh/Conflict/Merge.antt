-- ===== src/Imesh/Conflict/Merge.antt =====
-- `merge` against a description that looks at each key on its own: the order in which Go walks
-- the maps does not matter.
use aknode.Base.{
  ℕ, ◌==◌, ==_iff, ltb, if◌then◌else◌, Bool, false, not, ◌&&◌, ◌||◌, List, [], ◌∷◌, Option, none,
  some, Dict, Distinct, lookup, lookup-insert, contains, contains-add, ◌≡◌, refl, ◌∙◌, arith,
  Bool-cases, inl, inr,
}
use aknode.Imesh.Types.{Hash}
use aknode.Imesh.Conflict.{Claims, add_all, merge_claim, merge_refs, merge}

-- The smaller of two claims.
abbrev pub least : Option Hash → Option Hash → Option Hash
least none o = o
least (some h) none = some h
least (some h) (some v) = if ltb v h then some v else some h

-- Whether `x` is the larger of two different claims.
abbrev pub loser : Option Hash → Hash → Hash → Bool
loser none v x = false
loser (some h) v x = not (v == h) && (x == (if ltb v h then h else v))

-- Whether `x` loses an output that both maps claim.
unfoldable pub loses : Dict Hash → Dict Hash → Hash → Bool
loses [] base x = false
loses ((k, v) ∷ refs) base x = loser (lookup k base) v x || loses refs base x

contains-add_all :
    (x : Hash) (conflicts conf : List Hash)
    → contains (add_all conflicts conf) x ≡ (contains conflicts x || contains conf x)
unfolding add_all contains
contains-add_all x conflicts [] = ground arith
contains-add_all x conflicts (k ∷ conf) =
    contains-add k x (add_all conflicts conf) ∙ ground (arith, contains-add_all x conflicts conf)

module _ (j : ℕ) (v : Hash) (c : Claims) where
  lookup-merge_claim :
      (k : ℕ) (o : Option Hash)
      → lookup j c.base ≡ o
      → lookup k (merge_claim o j v c).base
        ≡ (if j == k then least (lookup j c.base) (some v) else lookup k c.base)
  unfolding merge_claim
  lookup-merge_claim k none e = ground (arith, lookup-insert j k v c.base)
  lookup-merge_claim k (some h) e =
      ground (arith, lookup-insert j k v c.base, lookup-insert j k h c.base, ==_iff j k)

  contains-merge_claim :
      (x : Hash) (o : Option Hash)
      → contains (merge_claim o j v c).conflicts x ≡ (contains c.conflicts x || loser o v x)
  unfolding merge_claim
  contains-merge_claim x none = ground arith
  contains-merge_claim x (some h) =
      ground (arith, contains-add h x c.conflicts, contains-add v x c.conflicts)

-- Only the keys that `refs` has are read.
loses_frame :
    (refs base other : Dict Hash) (j : ℕ) (x : Hash)
    → lookup j refs ≡ none
    → ((k : ℕ) → (j == k) ≡ false → lookup k base ≡ lookup k other)
    → loses refs base x ≡ loses refs other x
unfolding loses lookup
loses_frame [] base other j x e same = refl
loses_frame ((k, v) ∷ refs) base other j x e same =
    ground (arith, same k, loses_frame refs base other j x)

lookup-merge_refs :
    (k : ℕ) (refs : Dict Hash) (c : Claims)
    → Distinct refs
    → lookup k (merge_refs refs c).base ≡ least (lookup k c.base) (lookup k refs)
unfolding merge_refs lookup
lookup-merge_refs k [] c d = ground arith
lookup-merge_refs k ((j, v) ∷ refs) c d =
    lookup-merge_refs k refs (merge_claim (lookup j c.base) j v c) d.1
    ∙ elim (Bool-cases (j == k)) [
      | inl e ↦
          let same : j ≡ k = (==_iff j k).0 e in
          rw (lookup-merge_claim j v c k (lookup j c.base) refl, e, ← same, d.0) (ground arith)
      | inr e ↦ rw (lookup-merge_claim j v c k (lookup j c.base) refl, e)
    ]

contains-merge_refs :
    (x : Hash) (refs : Dict Hash) (c : Claims)
    → Distinct refs
    → contains (merge_refs refs c).conflicts x ≡ (contains c.conflicts x || loses refs c.base x)
unfolding merge_refs loses
contains-merge_refs x [] c d = ground arith
contains-merge_refs x ((j, v) ∷ refs) c d =
    contains-merge_refs x refs (merge_claim (lookup j c.base) j v c) d.1
    ∙ rw
        (
          contains-merge_claim j v c x (lookup j c.base),
          loses_frame refs (merge_claim (lookup j c.base) j v c).base c.base j x d.0
              (λ k ne. lookup-merge_claim j v c k (lookup j c.base) refl ∙ rw ne),
        )
        (ground arith)

-- After a merge with a map that has no key twice, every key is claimed by the smaller of the
-- claims of both sides.
pub lookup-merge :
    (k : ℕ) (c : Claims) (refs : Dict Hash) (conf : List Hash)
    → Distinct refs
    → lookup k (merge c refs conf).base ≡ least (lookup k c.base) (lookup k refs)
unfolding merge
lookup-merge k c refs conf d =
    lookup-merge_refs k refs (record c { conflicts = add_all c.conflicts conf }) d

-- After a merge with a map that has no key twice, the losers are those of both sides, and the
-- larger of two different claims on one key.
pub contains-merge :
    (x : Hash) (c : Claims) (refs : Dict Hash) (conf : List Hash)
    → Distinct refs
    → contains (merge c refs conf).conflicts x
      ≡ (contains c.conflicts x || contains conf x || loses refs c.base x)
unfolding merge
contains-merge x c refs conf d =
    contains-merge_refs x refs (record c { conflicts = add_all c.conflicts conf }) d
    ∙ rw (contains-add_all x c.conflicts conf)
