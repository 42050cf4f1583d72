-- ===== src/Base/Grid.antt =====
-- A list of lists read and written by two indices, as Go's `a[i][j]`.
use Prim.Native.Nat.{ℕ, zero, suc}
use mathlib.Core.Path.{◌≡◌, refl}
use mathlib.Core.Bool.{◌&&◌}
use mathlib.Core.List.{List, [], ◌∷◌}
use mathlib.Core.Option.{Option, none, some}
use native.Mathlib.Omega.{arith}
use aknode.Base.Tests.{◌==◌, if◌then◌else◌}
use aknode.Base.Lists.{get_elem?, set}

module _ {ℓ} {A : Type ℓ} where
  -- `none` where an index is out of range.
  unfoldable pub cell? : List (List A) → ℕ → ℕ → Option A
  cell? [] i j = none
  cell? (row ∷ rows) zero j = get_elem? row j
  cell? (row ∷ rows) (suc i) j = cell? rows i j

  unfoldable pub set_cell : List (List A) → ℕ → ℕ → A → List (List A)
  set_cell [] i j v = []
  set_cell (row ∷ rows) zero j v = set row j v ∷ rows
  set_cell (row ∷ rows) (suc i) j v = row ∷ set_cell rows i j v

  -- A write that finds its place is read back there, and changes no other place.
  abbrev pub written : Option A → A → Option A
  written none v = none
  written (some a) v = some v

  pub get_elem?-set :
      (row : List A) (j k : ℕ) (v : A)
      → get_elem? (set row j v) k
        ≡ (if j == k then written (get_elem? row k) v else get_elem? row k)
  get_elem?-set [] j k v = ground arith
  get_elem?-set (x ∷ row) zero zero v = refl
  get_elem?-set (x ∷ row) zero (suc k) v = ground arith
  get_elem?-set (x ∷ row) (suc j) zero v = ground arith
  get_elem?-set (x ∷ row) (suc j) (suc k) v = ground (arith, get_elem?-set row j k v)

  pub cell?-set_cell :
      (rows : List (List A)) (i j k l : ℕ) (v : A)
      → cell? (set_cell rows i j v) k l
        ≡ (if i == k && j == l then written (cell? rows k l) v else cell? rows k l)
  unfolding cell? set_cell
  cell?-set_cell [] i j k l v = ground arith
  cell?-set_cell (row ∷ rows) zero j zero l v = ground (arith, get_elem?-set row j l v)
  cell?-set_cell (row ∷ rows) zero j (suc k) l v = ground arith
  cell?-set_cell (row ∷ rows) (suc i) j zero l v = ground arith
  cell?-set_cell (row ∷ rows) (suc i) j (suc k) l v = ground (arith, cell?-set_cell rows i j k l v)
