-- ===== src/Leaves/Members.antt =====
-- Which hashes are leaves after `CheckAdd`.
use aknode.Base.{
  ◌==◌, ==_iff, if◌then◌else◌, Bool, true, false, not, ◌&&◌, ◌||◌, Option, none, some, List, [],
  ◌∷◌, map, ◌∙◌, ap, Dict, Distinct, lookup, insert, lookup-insert, insert-Distinct, contains, ◌≡◌,
  refl, arith, contains-append, Option-cases, inl, inr, All, Result,
}
use aknode.Imesh.Types.{Hash, Input, Body, Transaction}
use aknode.Leaves.{
  ticket_array, Leaf, Leaves, put, visit, visit_each, used, all_used, enter, is_visited, leaves_of,
  check_add_end, check_add,
}

abbrev pub hashes : List Leaf → List Hash
hashes ls = map (λ l. l.hash) ls

abbrev mark : Option Bool → Bool → Option Bool
mark none b = none
mark (some v) b = some (v || b)

lookup-visit :
    (h k : Hash) (txs : Dict Bool) → lookup k (visit h txs) ≡ mark (lookup k txs) (h == k)
unfolding visit
lookup-visit h k txs = elim (Option-cases (lookup h txs)) [
  | inl gone ↦ rw (gone, visit) (ground (arith, ==_iff h k))
  | inr (v, there) ↦ rw (there, visit) (ground (arith, lookup-insert h k true txs, ==_iff h k))
]

lookup-visit_each :
    (hs : List Hash) (k : Hash) (txs : Dict Bool)
    → lookup k (visit_each hs txs) ≡ mark (lookup k txs) (contains hs k)
unfolding visit_each contains
lookup-visit_each [] k txs = ground arith
lookup-visit_each (h ∷ hs) k txs =
    lookup-visit_each hs k (visit h txs) ∙ rw lookup-visit (ground arith)

lookup-enter :
    (hs : List Hash) (k : Hash) (txs : Dict Bool)
    → lookup k (enter hs txs) ≡ (if contains hs k then some false else lookup k txs)
unfolding enter contains
lookup-enter [] k txs = refl
lookup-enter (h ∷ hs) k txs =
    lookup-enter hs k (insert h false txs) ∙ ground (arith, lookup-insert h k false txs)

visit_each-Distinct :
    (hs : List Hash) (txs : Dict Bool) → Distinct txs → Distinct (visit_each hs txs)
unfolding visit_each visit
visit_each-Distinct [] txs d = d
visit_each-Distinct (h ∷ hs) txs d =
    visit_each-Distinct hs (visit h txs) (elim (Option-cases (lookup h txs)) [
      | inl gone ↦ rw (gone, visit) d
      | inr (v, there) ↦ rw (there, visit) (insert-Distinct h true txs d)
    ])

enter-Distinct : (hs : List Hash) (txs : Dict Bool) → Distinct txs → Distinct (enter hs txs)
unfolding enter
enter-Distinct [] txs d = d
enter-Distinct (h ∷ hs) txs d =
    enter-Distinct hs (insert h false txs) (insert-Distinct h false txs d)

abbrev unseen : Option Bool → Bool
unseen none = false
unseen (some v) = not v

contains-leaves_of :
    (k : Hash) (txs : Dict Bool)
    → Distinct txs
    → contains (hashes (leaves_of txs)) k ≡ unseen (lookup k txs)
unfolding leaves_of contains lookup
contains-leaves_of k [] d = refl
contains-leaves_of k ((h, v) ∷ txs) d = ground (arith, contains-leaves_of k txs d.1, ==_iff h k)

leaves_of-unconfirmed : (txs : Dict Bool) → All (λ l. l.confirmed ≡ false) (leaves_of txs)
unfolding leaves_of
leaves_of-unconfirmed [] = tt
leaves_of-unconfirmed ((h, v) ∷ txs) = ground (arith, leaves_of-unconfirmed txs)

-- Some input of the list is of the transaction `k`.
abbrev pub any_input : Hash → List Input → Bool
any_input k [] = false
any_input k (i ∷ is) = i.previous_tx == k || any_input k is

abbrev pub refers_ticket : Hash → Hash → Option Hash → Bool
refers_ticket nil_array k none = nil_array == k
refers_ticket nil_array k (some h) = h == k

-- A transaction refers to its parents, to what its inputs and multisig inputs spend, and to its
-- ticket; one without a ticket to the array of the nil hash.
abbrev pub refers : Hash → Hash → Body → Bool
refers nil_array k b =
    contains b.parent k
    || any_input k b.inputs
    || any_input k b.multi_sig_ins
    || refers_ticket nil_array k b.ticket_input

abbrev pub any_refers : Hash → Hash → List Transaction → Bool
any_refers nil_array k [] = false
any_refers nil_array k (tr ∷ trs) = refers nil_array k tr.body || any_refers nil_array k trs

contains-inputs :
    (k : Hash) (is : List Input) → contains (map (λ i. i.previous_tx) is) k ≡ any_input k is
unfolding contains
contains-inputs k [] = refl
contains-inputs k (i ∷ is) = ap (λ b. i.previous_tx == k || b) (contains-inputs k is)

contains-ticket :
    (nil_array k : Hash) (t : Option Hash)
    → contains (ticket_array nil_array t ∷ []) k ≡ refers_ticket nil_array k t
unfolding contains
contains-ticket nil_array k none = ground arith
contains-ticket nil_array k (some h) = ground arith

contains-used :
    (nil_array k : Hash) (b : Body) → contains (used nil_array b) k ≡ refers nil_array k b
unfolding used contains
contains-used nil_array k b =
    rw
      (
        contains-append k b.parent,
        contains-append k (map (λ i. i.previous_tx) b.inputs),
        contains-append k (map (λ i. i.previous_tx) b.multi_sig_ins),
        contains-inputs k b.inputs,
        contains-inputs k b.multi_sig_ins,
        contains-ticket nil_array k b.ticket_input,
      )
      (ground arith)

contains-all_used :
    (nil_array k : Hash) (trs : List Transaction)
    → contains (all_used nil_array trs) k ≡ any_refers nil_array k trs
unfolding all_used contains
contains-all_used nil_array k [] = refl
contains-all_used nil_array k (tr ∷ trs) =
    rw
      (
        contains-append k (used nil_array tr.body) (all_used nil_array trs),
        contains-used nil_array k tr.body,
        contains-all_used nil_array k trs,
      )
      refl

module _ (nil_array : Hash) (writes : Bool) (f : Option (Result (Unit {0})))
    (trs : List Transaction) (s : Leaves) where
  leaves-check_add :
      (check_add nil_array writes f trs s).1.leaves ≡ leaves_of (is_visited nil_array trs s.leaves)
  unfolding check_add put check_add_end
  leaves-check_add = ground arith

  -- After CheckAdd, whatever the database and the caller's function answer, a hash is a leaf
  -- exactly if it was a leaf or belongs to an added transaction, and no added transaction has it
  -- as a parent, as the previous transaction of an input or of a multisig input, or as its
  -- ticket; an added transaction without a ticket counts as one with the array of the nil hash
  -- for its ticket.
  pub contains-check_add :
      (k : Hash)
      → contains (hashes (check_add nil_array writes f trs s).1.leaves) k ≡ (
          (contains (hashes s.leaves) k || contains (map (λ tr. tr.hash) trs) k)
          && not (any_refers nil_array k trs))
  unfolding is_visited lookup
  contains-check_add k =
      let entered = enter (hashes s.leaves) (enter (map (λ tr. tr.hash) trs) []) in
      let distinct =
        visit_each-Distinct (all_used nil_array trs) entered
          (enter-Distinct (hashes s.leaves) _ (enter-Distinct (map (λ tr. tr.hash) trs) [] tt)) in
      ap (λ (ls : List Leaf). contains (hashes ls) k) leaves-check_add
      ∙ contains-leaves_of k (visit_each (all_used nil_array trs) entered) distinct
      ∙ rw
          (
            lookup-visit_each (all_used nil_array trs) k entered,
            lookup-enter (hashes s.leaves) k (enter (map (λ tr. tr.hash) trs) []),
            lookup-enter (map (λ tr. tr.hash) trs) k [],
            contains-all_used nil_array k trs,
          )
          (ground arith)

  -- After CheckAdd no leaf is flagged as confirmed, also those that were.
  pub check_add-unconfirmed :
      All (λ l. l.confirmed ≡ false) (check_add nil_array writes f trs s).1.leaves
  check_add-unconfirmed =
      rw leaves-check_add (leaves_of-unconfirmed (is_visited nil_array trs s.leaves))
