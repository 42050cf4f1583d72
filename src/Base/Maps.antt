-- ===== src/Base/Maps.antt =====
-- Go maps with keys read as numbers, as association lists. A range over a map is a walk over the
-- list; the code relies on no order of it.
use Prim.Native.Nat.{ℕ, ◌≤◌, ◌+◌}
use mathlib.Core.Path.{◌≡◌, refl}
use mathlib.Core.Bool.{Bool, false, ◌||◌}
use mathlib.Core.List.{List, [], ◌∷◌, ◌++◌}
use mathlib.Core.Option.{Option, none, some}
use native.Mathlib.Omega.{arith}
use aknode.Base.Tests.{◌==◌, ==_iff, if◌then◌else◌}
use aknode.Base.Lists.{length}

abbrev pub Dict {ℓ} : Type ℓ → Type ℓ
Dict V = List (ℕ × V)

-- The keys of a map used as a set.
unfoldable pub contains : List ℕ → ℕ → Bool
contains [] h = false
contains (x ∷ xs) h = x == h || contains xs h

-- m[k] = struct{}{}
unfoldable pub add : ℕ → List ℕ → List ℕ
add k xs = if contains xs k then xs else k ∷ xs

pub contains-add : (k j : ℕ) (xs : List ℕ) → contains (add k xs) j ≡ (k == j || contains xs j)
unfolding add contains
contains-add k j xs = ground (arith, ==_iff k j)

pub contains-append :
    (j : ℕ) (xs ys : List ℕ) → contains (xs ++ ys) j ≡ (contains xs j || contains ys j)
unfolding contains
contains-append j [] ys = refl
contains-append j (x ∷ xs) ys = ground (arith, contains-append j xs ys)

module _ {ℓ} {V : Type ℓ} where
  unfoldable pub lookup : ℕ → Dict V → Option V
  lookup key [] = none
  lookup key ((here, val) ∷ rest) = if here == key then some val else lookup key rest

  unfoldable pub insert : ℕ → V → Dict V → Dict V
  insert key new [] = (key, new) ∷ []
  insert key new ((here, val) ∷ rest) =
      if here == key then (key, new) ∷ rest else (here, val) ∷ insert key new rest

  unfoldable pub remove : ℕ → Dict V → Dict V
  remove key [] = []
  remove key ((here, val) ∷ rest) =
      let others = remove key rest in if here == key then others else (here, val) ∷ others

  pub lookup-insert :
      (key asked : ℕ) (new : V) (held : Dict V)
      → lookup asked (insert key new held) ≡ (if key == asked then some new else lookup asked held)
  unfolding lookup insert
  lookup-insert key asked new [] = refl
  lookup-insert key asked new ((here, val) ∷ rest) =
      ground (arith, lookup-insert key asked new rest)

  pub lookup-remove :
      (k j : ℕ) (m : Dict V) → lookup j (remove k m) ≡ (if k == j then none else lookup j m)
  unfolding lookup remove
  lookup-remove k j [] = ground arith
  lookup-remove k j ((i, w) ∷ m) = ground (arith, lookup-remove k j m)

  -- No key stands twice.
  abbrev pub Distinct : Dict V → Type ℓ
  Distinct [] = Unit
  Distinct ((k, v) ∷ m) = (lookup k m ≡ none) × Distinct m

  pub insert-Distinct : (k : ℕ) (v : V) (m : Dict V) → Distinct m → Distinct (insert k v m)
  unfolding lookup insert
  insert-Distinct k v [] d = (refl, tt)
  insert-Distinct k v ((j, w) ∷ m) d =
      ground (arith, lookup-insert k j v m, insert-Distinct k v m d.1)

  pub remove-Distinct : (k : ℕ) (m : Dict V) → Distinct m → Distinct (remove k m)
  unfolding remove
  remove-Distinct k [] d = tt
  remove-Distinct k ((j, w) ∷ m) d = ground (arith, lookup-remove k j m, remove-Distinct k m d.1)

  pub length-insert-le : (k : ℕ) (v : V) (m : Dict V) → length (insert k v m) ≤ length m + 1
  unfolding insert
  length-insert-le k v [] = omega arith
  length-insert-le k v ((j, w) ∷ m) = ground (arith, length-insert-le k v m)

  pub length-remove-le : (k : ℕ) (m : Dict V) → length (remove k m) ≤ length m
  unfolding remove
  length-remove-le k [] = omega arith
  length-remove-le k ((j, w) ∷ m) = ground (arith, length-remove-le k m)
