-- ===== src/Tests/Leaves.antt =====
-- Two leaves, one of them confirmed, and a transaction that refers to it.
use aknode.Base.{
  min, true, false, not, ◌&&◌, ◌||◌, none, [], ◌∷◌, length, map, contains, ◌≡◌, refl, All,
}
use aknode.Imesh.Types.{Transaction}
use aknode.Leaves.{Leaves, size, unconfirmed, confirmed, swap, shuffle, pick, get, check_add}
use aknode.Leaves.Members.{hashes, any_refers, contains-check_add, check_add-unconfirmed}
use aknode.Leaves.Picks.{length-get}

abbrev two : Leaves
two = record {
  leaves = record { hash = 10; confirmed = true } ∷ record { hash = 20; confirmed = false } ∷ [];
  stored = [];
}

abbrev child : Transaction
child = record {
  hash = 30;
  signatures = 0;
  body = record {
    parent = 10 ∷ [];
    inputs = [];
    multi_sig_ins = [];
    ticket_input = none;
    outputs = [];
    multi_sig_outs = [];
    ticket_output = none;
  };
}

contains-check_add_example :
    contains (hashes (check_add 0 true none (child ∷ []) two).1.leaves) 10 ≡ (
      (contains (hashes two.leaves) 10 || contains (map (λ tr. tr.hash) (child ∷ [])) 10)
      && not (any_refers 0 10 (child ∷ [])))
contains-check_add_example = contains-check_add 0 true none (child ∷ []) two 10

check_add-unconfirmed_example :
    All (λ l. l.confirmed ≡ false) (check_add 0 true none (child ∷ []) two).1.leaves
check_add-unconfirmed_example = check_add-unconfirmed 0 true none (child ∷ []) two

length-get_example : length (get (λ i. 0) (λ i. 0) 1 two) ≡ min 1 (size two)
length-get_example = length-get (λ i. 0) (λ i. 0) 1 two

-- The unconfirmed leaf comes first.
get_first : get (λ i. 0) (λ i. 0) 1 two ≡ 20 ∷ []
unfolding get unconfirmed confirmed shuffle swap pick
get_first = refl
