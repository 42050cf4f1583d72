-- ===== src/Leaves/Picks.antt =====
-- How many leaves `Get` returns, and which kind comes first.
use aknode.Base.{
  ℕ, zero, suc, ◌+◌, ◌-◌, min, List, [], ◌∷◌, length, length-append, length-take, length-set,
  get_elem?, set, take, ◌≡◌, refl, ◌∙◌, arith, Option-cases, inl, inr,
}
use aknode.Imesh.Types.{Hash}
use aknode.Leaves.{Leaf, Leaves, unconfirmed, confirmed, swap, shuffle, pick, get, size}

length-swap : (i j : ℕ) (xs : List Hash) → length (swap i j xs) ≡ length xs
unfolding swap
length-swap i j xs = elim (Option-cases (get_elem? xs i)) [
  | inl gone ↦ rw (gone, swap)
  | inr (a, there) ↦ elim (Option-cases (get_elem? xs j)) [
    | inl gone ↦ rw (there, gone, swap)
    | inr (b, there') ↦ rw (there, there', swap) (length-set (set xs i b) j a ∙ length-set xs i b)
  ]
]

length-shuffle : (draw : ℕ → ℕ) (n : ℕ) (xs : List Hash) → length (shuffle draw n xs) ≡ length xs
unfolding shuffle
length-shuffle draw zero xs = refl
length-shuffle draw (suc i) xs =
    length-shuffle draw i (swap i (draw i) xs) ∙ length-swap i (draw i) xs

length-gethash : (ls : List Leaf) → length (unconfirmed ls) + length (confirmed ls) ≡ length ls
unfolding unconfirmed confirmed
length-gethash [] = omega arith
length-gethash (l ∷ ls) = ground (arith, length-gethash ls)

length-pick : (n : ℕ) (ncs cs : List Hash) → length (pick n ncs cs) ≡ min n (length ncs + length cs)
unfolding pick
length-pick n ncs cs = ground (
  arith,
  length-take n ncs,
  length-append ncs cs,
  length-append ncs (take (n - length ncs) cs),
  length-take (n - length ncs) cs,
)

-- Get of `n` leaves, for `n` that is not negative, returns `n` hashes, or as many as there are
-- leaves if these are fewer, whatever the random draws; so Get of 0 leaves returns none.
pub length-get :
    (draw draw' : ℕ → ℕ) (n : ℕ) (s : Leaves) → length (get draw draw' n s) ≡ min n (size s)
unfolding get size
length-get draw draw' n s =
    length-pick n (shuffle draw (length (unconfirmed s.leaves)) (unconfirmed s.leaves))
      (shuffle draw' (length (confirmed s.leaves)) (confirmed s.leaves))
    ∙ rw (length-shuffle, length-shuffle, length-gethash s.leaves)
