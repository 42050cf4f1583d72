-- ===== src/Base/Results.antt =====
-- Go's `(value, error)` results, and the panics that end a routine.
use mathlib.Core.Path.{◌≡◌, refl}

-- `key_not_found` is badger.ErrKeyNotFound. `panic` is a run-time panic (an index out of range, a
-- nil pointer), `no_fuel` a recursion that was cut off, `refused` an error that the code makes up.
pub data Error : Type 0 where
  key_not_found panic no_fuel refused : Error

pub data Result {ℓ} (A : Type ℓ) : Type ℓ where
  ok : A → Result A
  err : Error → Result A

-- An error ends what follows.
module _ {ℓ κ} {A : Type ℓ} {B : Type κ} where
  infixl 5 ◌>>=◌
  abbrev pub ◌>>=◌ : Result A → (A → Result B) → Result B
  err why >>= next = err why
  ok x >>= next = next x

  -- What comes out of a sequence came out of both of its parts.
  pub >>=-eq-ok :
      (first : Result A) (next : A → Result B) {v : B}
      → (first >>= next) ≡ ok v
      → (x : A) × (first ≡ ok x) × (next x ≡ ok v)
  >>=-eq-ok (err why) next e = cc
  >>=-eq-ok (ok x) next e = (x, refl, e)

pub ok-injective {ℓ} : {A : Type ℓ} {a b : A} → ok a ≡ ok b → a ≡ b
ok-injective h = cc
