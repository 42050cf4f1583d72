-- ===== src/Imesh/Conflict.antt =====
-- imesh/confirm.go: `merge` and `checkConflict`, which choose the losers of double spends among
-- the pending transactions that a confirmation reaches.
pub mod Merge
pub mod Sound
pub mod Rivals
use aknode.Base.{
  ℕ, zero, suc, ◌==◌, ltb, if◌then◌else◌, Bool, true, false, not, List, [], ◌∷◌, Option, none, some,
  Dict, lookup, insert, add, contains, Result, ok, err, no_fuel, ◌>>=◌,
}
use aknode.Imesh.Types.{Hash, Txs, Spend, status_pending, references, spends, or_missing}

-- `conflicts[k] = struct{}{}` for every key of `conf`.
unfoldable pub add_all : List Hash → List Hash → List Hash
add_all conflicts [] = conflicts
add_all conflicts (k ∷ conf) = add k (add_all conflicts conf)

-- The two maps that `merge` updates: who claims an output, and who lost one.
pub record Claims : Type 0 where
  pub base : Dict Hash
  pub conflicts : List Hash

-- The body of the loop over `refs`, with what `base[k]` holds.
unfoldable pub merge_claim : Option Hash → ℕ → Hash → Claims → Claims
merge_claim none k v c = record c { base = insert k v c.base }
merge_claim (some h) k v c =
    if v == h
    then c
    else if ltb v h
    then record { base = insert k v c.base; conflicts = add h c.conflicts }
    else record { base = insert k h c.base; conflicts = add v c.conflicts }

unfoldable pub merge_refs : Dict Hash → Claims → Claims
unfolding merge_claim
merge_refs [] c = c
merge_refs ((k, v) ∷ refs) c = merge_refs refs (merge_claim (lookup k c.base) k v c)

unfoldable pub merge : Claims → Dict Hash → List Hash → Claims
unfolding merge_refs
merge c refs conf = merge_refs refs (record c { conflicts = add_all c.conflicts conf })

-- `visited` is one map for the whole recursion; it is handed on from call to call.
abbrev pub Checked : Type 0
Checked = Claims × List Hash

abbrev pub nothing : Claims
nothing = record { base = []; conflicts = [] }

-- The loops over the references: a recursive call, then `merge`.
unfoldable pub gather :
    (Hash → List Hash → Result Checked) → List Hash → Claims → List Hash → Result Checked
gather visit [] c visited = ok (c, visited)
gather visit (p ∷ ps) c visited = do
  (found, visited1) ← visit p visited
  gather visit ps (merge c found.base found.conflicts) visited1

-- `serialize` is `InoutHash.Serialize` of aklib, on the hash, the type and the index of an input;
-- the types TypeIn, TypeMulin and TypeTicketin are the rows 0, 1 and 2 of `spends`.
module _ (serialize : Spend → ℕ) where
  -- `if _, ok := base[key]; !ok { base[key] = h }`
  unfoldable pub claim : Hash → Spend → Dict Hash → Dict Hash
  claim h s base = elim (lookup (serialize s) base) [
    | none ↦ insert (serialize s) h base
    | some _ ↦ base
  ]

  unfoldable pub claim_all : Hash → List Spend → Dict Hash → Dict Hash
  claim_all h [] base = base
  claim_all h (s ∷ ss) base = claim_all h ss (claim h s base)

  unfoldable pub check_conflict : ℕ → Txs → Hash → List Hash → Result Checked
  check_conflict zero db h visited = err no_fuel
  check_conflict (suc fuel) db h visited =
      let rest : Result Checked = do
        ti ← or_missing (db h)
        if not (ti.stat_no == status_pending) then ok (nothing, visited) else do
          (c, visited1) ← gather (check_conflict fuel db) (references ti.body) nothing visited
          ok (record c { base = claim_all h (spends ti.body) c.base }, add h visited1)
      in if contains visited h then ok (nothing, visited) else rest
