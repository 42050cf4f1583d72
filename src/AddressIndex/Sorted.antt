-- ===== src/AddressIndex/Sorted.antt =====
-- The lists of the index stay sorted without repetition, which `sort.Search` on them relies on.
use aknode.Base.{
  ℕ, zero, suc, ◌<◌, ◌≤◌, ◌==◌, ltb, if◌then◌else◌, Bool, true, false, not, ◌&&◌, ◌||◌, Option,
  none, some, List, [], ◌∷◌, ◌++◌, length, take, drop, contains, ◌≡◌, refl, arith, All, All-imp,
  Bool-cases, inl, inr,
}
use aknode.AddressIndex.{Library, at_least, is_at, add_hash, del_hash}

abbrev pub IsSorted : List ℕ → Type 0
IsSorted [] = Unit
IsSorted (x ∷ xs) = All (λ y. x < y) xs × IsSorted xs

-- What the documentation of `sort.Search` promises: the smallest index below `n` at which `f` is
-- true, or `n`, if `f` stays true once it is.
pub record IsSearch (search : ℕ → (ℕ → Bool) → ℕ) : Type 0 where
  pub above :
      (n : ℕ) (f : ℕ → Bool)
      → ((i : ℕ) → suc i < n → f i ≡ true → f (suc i) ≡ true)
      → search n f < n
      → f (search n f) ≡ true
  pub below :
      (n : ℕ) (f : ℕ → Bool)
      → ((i : ℕ) → suc i < n → f i ≡ true → f (suc i) ≡ true)
      → (i : ℕ) → i < search n f
      → f i ≡ false
  pub bounded : (n : ℕ) (f : ℕ → Bool) → search n f ≤ n

-- Insertion and deletion, by recursion.
unfoldable pub insert_sorted : ℕ → List ℕ → List ℕ
insert_sorted a [] = a ∷ []
insert_sorted a (x ∷ xs) =
    let rest = insert_sorted a xs in
    if ltb x a then x ∷ rest else if x == a then x ∷ xs else a ∷ x ∷ xs

unfoldable pub delete_sorted : ℕ → List ℕ → List ℕ
delete_sorted a [] = []
delete_sorted a (x ∷ xs) = let rest = delete_sorted a xs in if x == a then xs else x ∷ rest

at_least_step :
    (hashes : List ℕ) (h i : ℕ)
    → IsSorted hashes
    → suc i < length hashes
    → at_least hashes h i ≡ true
    → at_least hashes h (suc i) ≡ true
unfolding at_least
at_least_step [] h i s lt e = absurd (omega arith)
at_least_step (x ∷ []) h zero s lt e = absurd (omega arith)
at_least_step (x ∷ y ∷ ys) h zero s lt e = ground (arith, s.0.0)
at_least_step (x ∷ xs) h (suc i) s lt e = at_least_step xs h i s.1 (omega arith) e

delete_absent : (h : ℕ) (xs : List ℕ) → All (λ y. h < y) xs → delete_sorted h xs ≡ xs
unfolding delete_sorted
delete_absent h [] above = refl
delete_absent h (x ∷ xs) above = ground (arith, delete_absent h xs above.1, above.0)

-- `i` splits the list at `h`.
insert_at :
    (hashes : List ℕ) (h i : ℕ)
    → ((j : ℕ) → j < i → at_least hashes h j ≡ false)
    → (i < length hashes → at_least hashes h i ≡ true)
    → i ≤ length hashes
    → (if is_at hashes h i then hashes else take i hashes ++ h ∷ drop i hashes)
      ≡ insert_sorted h hashes
unfolding at_least is_at insert_sorted
insert_at [] h zero below above le = refl
insert_at [] h (suc i) below above le = absurd (omega arith)
insert_at (x ∷ xs) h zero below above le = ground (arith, above (omega arith))
insert_at (x ∷ xs) h (suc i) below above le = ground (
  arith,
  below 0 (omega arith),
  insert_at xs h i (λ j l. below (suc j) (omega arith)) (λ l. above (omega arith)) (omega arith),
)

delete_at :
    (hashes : List ℕ) (h i : ℕ)
    → IsSorted hashes
    → ((j : ℕ) → j < i → at_least hashes h j ≡ false)
    → (i < length hashes → at_least hashes h i ≡ true)
    → i ≤ length hashes
    → (if is_at hashes h i then take i hashes ++ drop (suc i) hashes else hashes)
      ≡ delete_sorted h hashes
unfolding at_least is_at delete_sorted
delete_at [] h i s below above le = refl
delete_at (x ∷ xs) h zero s below above le = elim (Bool-cases (x == h)) [
  | inl same ↦ rw same
  | inr other ↦ rw (
    other,
    delete_absent h xs
        (All-imp (λ y. x < y) (λ y. h < y) xs (λ y l. ground (arith, above (omega arith))) s.0),
  )
]
delete_at (x ∷ xs) h (suc i) s below above le = ground (
  arith,
  below 0 (omega arith),
  delete_at xs h i s.1 (λ j l. below (suc j) (omega arith)) (λ l. above (omega arith))
      (omega arith),
)

insert_sorted-All :
    (a b : ℕ) (xs : List ℕ) → b < a → All (λ y. b < y) xs → All (λ y. b < y) (insert_sorted a xs)
unfolding insert_sorted
insert_sorted-All a b [] lt h = (lt, tt)
insert_sorted-All a b (x ∷ xs) lt h = ground (arith, insert_sorted-All a b xs lt h.1, h.0, h.1)

insert_sorted-IsSorted : (a : ℕ) (xs : List ℕ) → IsSorted xs → IsSorted (insert_sorted a xs)
unfolding insert_sorted
insert_sorted-IsSorted a [] s = (tt, tt)
insert_sorted-IsSorted a (x ∷ xs) s = elim (Bool-cases (ltb x a)) [
  | inl lt ↦
      rw lt (insert_sorted-All a x xs (ground (arith, lt)) s.0, insert_sorted-IsSorted a xs s.1)
  | inr ge ↦ elim (Bool-cases (x == a)) [
    | inl same ↦ rw (ge, same) s
    | inr other ↦
        rw (ge, other)
          (
            (
              ground (arith, ge, other),
              All-imp (λ y. x < y) (λ y. a < y) xs (λ y l. ground (arith, ge, other)) s.0,
            ),
            s,
          )
  ]
]

delete_sorted-All :
    (a b : ℕ) (xs : List ℕ) → All (λ y. b < y) xs → All (λ y. b < y) (delete_sorted a xs)
unfolding delete_sorted
delete_sorted-All a b [] h = tt
delete_sorted-All a b (x ∷ xs) h = ground (arith, delete_sorted-All a b xs h.1, h.0, h.1)

delete_sorted-IsSorted : (a : ℕ) (xs : List ℕ) → IsSorted xs → IsSorted (delete_sorted a xs)
unfolding delete_sorted
delete_sorted-IsSorted a [] s = tt
delete_sorted-IsSorted a (x ∷ xs) s =
    ground (arith, delete_sorted-IsSorted a xs s.1, delete_sorted-All a x xs s.0, s.0, s.1)

contains_above : (k b : ℕ) (xs : List ℕ) → All (λ y. b < y) xs → k ≤ b → contains xs k ≡ false
unfolding contains
contains_above k b [] h le = refl
contains_above k b (x ∷ xs) h le = ground (arith, contains_above k b xs h.1 le, h.0)

contains-insert_sorted :
    (a k : ℕ) (xs : List ℕ) → contains (insert_sorted a xs) k ≡ (a == k || contains xs k)
unfolding insert_sorted contains
contains-insert_sorted a k [] = refl
contains-insert_sorted a k (x ∷ xs) = ground (arith, contains-insert_sorted a k xs)

contains-delete_sorted :
    (a k : ℕ) (xs : List ℕ)
    → IsSorted xs
    → contains (delete_sorted a xs) k ≡ (not (a == k) && contains xs k)
unfolding delete_sorted contains
contains-delete_sorted a k [] s = ground arith
contains-delete_sorted a k (x ∷ xs) s =
    ground (arith, contains-delete_sorted a k xs s.1, contains_above k x xs s.0)

module _ (lib : Library) (law : IsSearch lib.search) where
  split_below :
      (hashes : List ℕ) (h j : ℕ)
      → IsSorted hashes
      → j < lib.search (length hashes) (at_least hashes h)
      → at_least hashes h j ≡ false
  split_below hashes h j s =
      law.below (length hashes) (at_least hashes h) (λ i. at_least_step hashes h i s) j

  split_above :
      (hashes : List ℕ) (h : ℕ)
      → IsSorted hashes
      → lib.search (length hashes) (at_least hashes h) < length hashes
      → at_least hashes h (lib.search (length hashes) (at_least hashes h)) ≡ true
  split_above hashes h s =
      law.above (length hashes) (at_least hashes h) (λ i. at_least_step hashes h i s)

  add_hash_lem :
      (a : ℕ) (hashes : List ℕ) → IsSorted hashes → add_hash lib a hashes ≡ insert_sorted a hashes
  unfolding add_hash
  add_hash_lem a hashes s =
      insert_at hashes a (lib.search (length hashes) (at_least hashes a))
        (λ j. split_below hashes a j s) (split_above hashes a s)
        (law.bounded (length hashes) (at_least hashes a))

  del_hash_lem :
      (d : ℕ) (hashes : List ℕ)
      → IsSorted hashes
      → del_hash lib (some d) hashes ≡ delete_sorted d hashes
  unfolding del_hash
  del_hash_lem d hashes s =
      delete_at hashes d (lib.search (length hashes) (at_least hashes d)) s
        (λ j. split_below hashes d j s) (split_above hashes d s)
        (law.bounded (length hashes) (at_least hashes d))

  add_hash-IsSorted : (a : ℕ) (hs : List ℕ) → IsSorted hs → IsSorted (add_hash lib a hs)
  add_hash-IsSorted a hs s = rw (add_hash_lem a hs s) (insert_sorted-IsSorted a hs s)

  pub update-IsSorted :
      (a : ℕ) (d : Option ℕ) (hs : List ℕ)
      → IsSorted hs
      → IsSorted (del_hash lib d (add_hash lib a hs))
  unfolding del_hash
  update-IsSorted a none hs s = add_hash-IsSorted a hs s
  update-IsSorted a (some d) hs s =
      rw (del_hash_lem d (add_hash lib a hs) (add_hash-IsSorted a hs s))
        (delete_sorted-IsSorted d (add_hash lib a hs) (add_hash-IsSorted a hs s))

  pub contains-add_hash :
      (a k : ℕ) (hs : List ℕ)
      → IsSorted hs
      → contains (add_hash lib a hs) k ≡ (a == k || contains hs k)
  contains-add_hash a k hs s = rw (add_hash_lem a hs s) (contains-insert_sorted a k hs)

  pub contains-del_hash :
      (d k : ℕ) (hs : List ℕ)
      → IsSorted hs
      → contains (del_hash lib (some d) hs) k ≡ (not (d == k) && contains hs k)
  contains-del_hash d k hs s = rw (del_hash_lem d hs s) (contains-delete_sorted d k hs s)
