-- ===== src/Consensus/Adaptor/Closing.antt =====
-- The transaction that the node proposes when a ledger closes.
use aknode.Base.{
  ℕ, ◌+◌, ◌<◌, ◌≤◌, true, false, ◌⊎◌, Bool-cases, All-of, All_at, List, [], ◌∷◌, Result, ok, err,
  ◌≡◌, refl, sym, ap, subst, ◌∙◌, arith, >>=-eq-ok, ok-injective, In, All, Option, none, some, Dict,
  inl, inr,
}
use aknode.Imesh.Types.{Hash, Txs, TxInfo, Transaction, or_missing, or_missing-eq-ok}
use aknode.Imesh.Tables.{Tables, get_tx, get_tx_info}
use aknode.Leaves.{Leaf, Leaves, unconfirmed, get_all_unconfirmed}
use aknode.Consensus.Adaptor.{should_accept, oldest, infos_of, on_close}

-- The numbers of proposers of any two results that ShouldAccept accepts add up to more than the
-- number of trusted nodes.
pub should_accept-shares :
    (trusted_nodes p q : ℕ)
    → should_accept trusted_nodes p ≡ true
    → should_accept trusted_nodes q ≡ true
    → trusted_nodes < p + q
unfolding should_accept
should_accept-shares n p q a b = ground (arith, a, b)

-- What sort.Slice by the time of arrival promises: the same records, the first one the oldest.
pub record IsSortByReceived (sort_infos : List (Hash × TxInfo) → List (Hash × TxInfo))
    : Type 0 where
  pub members : (x : Hash × TxInfo) (xs : List (Hash × TxInfo)) → In x (sort_infos xs) → In x xs
  pub first :
      (x : Hash × TxInfo) (xs rest : List (Hash × TxInfo))
      → sort_infos xs ≡ x ∷ rest
      → All (λ (y : Hash × TxInfo). x.1.received ≤ y.1.received) xs

-- The time at which a stored transaction arrived.
abbrev pub received_in : Option TxInfo → ℕ
received_in none = 0
received_in (some ti) = ti.received

abbrev head_of : {A : Type 0} → A → List A → A
head_of a [] = a
head_of a (x ∷ xs) = x

oldest_inv :
    (t : Tables) (xs : List (Hash × TxInfo)) (h : Hash) (tr : Transaction)
    → oldest t xs ≡ (h, tr) ∷ []
    → (ti : TxInfo) × (rest : List (Hash × TxInfo)) × (xs ≡ (h, ti) ∷ rest) × (get_tx t h ≡ ok tr)
unfolding oldest
oldest_inv t [] h tr run = cc
oldest_inv t ((k, ti) ∷ rest) h tr run = of_result (get_tx t k) refl run
  where
    of_result :
        (r : Result Transaction)
        → get_tx t k ≡ r
        → elim r as (λ x. Dict Transaction) [ err e ↦ [] | ok a ↦ (k, a) ∷ [] ] ≡ (h, tr) ∷ []
        → (ti' : TxInfo) × (rest' : List (Hash × TxInfo)) × ((k, ti) ∷ rest ≡ (h, ti') ∷ rest')
          × (get_tx t h ≡ ok tr)
    of_result (err e) got run = cc
    of_result (ok a) got run =
        let same : ◌≡◌ {A = Hash × Transaction} (k, a) (h, tr) =
          ap (λ (d : Dict Transaction). head_of (k, a) d) run in
        let kh : k ≡ h = ap (λ (p : Hash × Transaction). p.0) same in
        (
          ti,
          rest,
          ap (λ (j : Hash). (j, ti) ∷ rest) kh,
          ap (get_tx t) (sym kh) ∙ got ∙ ap (λ (p : Hash × Transaction). ok p.1) same,
        )

-- The records are those of the hashes, in order.
infos_of-members :
    (txs : Txs) (hs : List Hash) (xs : List (Hash × TxInfo))
    → infos_of txs hs ≡ ok xs
    → (x : Hash × TxInfo) → In x xs
    → In x.0 hs × (txs x.0 ≡ some x.1)
unfolding infos_of get_tx_info
infos_of-members txs [] xs run x m =
    let empty : [] ≡ xs = ok-injective run in absurd (subst (In x) (sym empty) m)
infos_of-members txs (h ∷ hs) xs run x m =
    let (ti, got, run1) = >>=-eq-ok (or_missing (txs h)) _ run in
    let (rest, more, run2) = >>=-eq-ok (infos_of txs hs) _ run1 in
    elim (subst (In x) (sym (ok-injective run2)) m)
      as (λ z. In x.0 (h ∷ hs) × (txs x.0 ≡ some x.1)) [
        | inl here ↦
            subst (λ (y : Hash × TxInfo). In y.0 (h ∷ hs) × (txs y.0 ≡ some y.1)) (sym here)
              (inl refl, or_missing-eq-ok (txs h) got)
        | inr later ↦ let (a, b) = infos_of-members txs hs rest more x later in (inr a, b)
      ]

infos_of-All :
    (txs : Txs) (n : ℕ) (hs : List Hash) (xs : List (Hash × TxInfo))
    → infos_of txs hs ≡ ok xs
    → All (λ (y : Hash × TxInfo). n ≤ y.1.received) xs
    → All (λ k. n ≤ received_in (txs k)) hs
unfolding infos_of get_tx_info
infos_of-All txs n [] xs run all = tt
infos_of-All txs n (h ∷ hs) xs run all =
    let (ti, got, run1) = >>=-eq-ok (or_missing (txs h)) _ run in
    let (rest, more, run2) = >>=-eq-ok (infos_of txs hs) _ run1 in
    let all1 : All (λ (y : Hash × TxInfo). n ≤ y.1.received) ((h, ti) ∷ rest) =
      subst (λ l. All (λ (y : Hash × TxInfo). n ≤ y.1.received) l) (sym (ok-injective run2)) all in
    (rw (or_missing-eq-ok (txs h) got) all1.0, infos_of-All txs n hs rest more all1.1)

-- What sort.Slice on hashes promises: the same hashes, in some order.
pub record IsSortOfHashes (sort : List Hash → List Hash) : Type 0 where
  pub members : (h : Hash) (hs : List Hash) → In h (sort hs) → In h hs
  pub kept : (h : Hash) (hs : List Hash) → In h hs → In h (sort hs)

leaf_eq :
    {h : Hash} (l : Leaf)
    → l.confirmed ≡ false
    → h ≡ l.hash
    → record { hash = h; confirmed = false } ≡ l
leaf_eq l e here = cc

unconfirmed-members :
    (h : Hash) (ls : List Leaf)
    → In h (unconfirmed ls)
    → In (record { hash = h; confirmed = false }) ls
unfolding unconfirmed
unconfirmed-members h [] m = m
unconfirmed-members h (l ∷ ls) m = elim (Bool-cases l.confirmed) [
  | inl e ↦ inr (unconfirmed-members h ls (rw e at m))
  | inr e ↦ elim (rw e at m) as (λ z. In (record { hash = h; confirmed = false }) (l ∷ ls)) [
    | inl here ↦ inl (leaf_eq l e here)
    | inr later ↦ inr (unconfirmed-members h ls later)
  ]
]

-- What holds of the unconfirmed hashes holds of every leaf that is not confirmed.
unconfirmed-All :
    (P : Hash → Type 0) (ls : List Leaf)
    → All P (unconfirmed ls)
    → All (λ l. (l.confirmed ≡ true) ⊎ P l.hash) ls
unfolding unconfirmed
unconfirmed-All P [] all = tt
unconfirmed-All P (l ∷ ls) all = elim (Bool-cases l.confirmed) [
  | inl e ↦ (inl e, unconfirmed-All P ls (rw e at all))
  | inr e ↦ let (here, later) = rw e at all in (inr here, unconfirmed-All P ls later)
]

on_close-first :
    (sort : List Hash → List Hash) (sort_infos : List (Hash × TxInfo) → List (Hash × TxInfo))
    (t : Tables) (ls : Leaves) (h : Hash) (tr : Transaction)
    → IsSortByReceived sort_infos
    → on_close sort sort_infos t ls ≡ (h, tr) ∷ []
    → In h (get_all_unconfirmed sort ls)
      × (get_tx t h ≡ ok tr)
      × All (λ k. received_in (t.txs h) ≤ received_in (t.txs k)) (get_all_unconfirmed sort ls)
unfolding on_close
on_close-first sort sort_infos t ls h tr sorts run =
    of_infos (infos_of t.txs (get_all_unconfirmed sort ls)) refl run
  where
    of_infos :
        (r : Result (List (Hash × TxInfo)))
        → infos_of t.txs (get_all_unconfirmed sort ls) ≡ r
        → elim r as (λ x. Dict Transaction) [ err e ↦ [] | ok infos ↦ oldest t (sort_infos infos) ]
          ≡ (h, tr) ∷ []
        → In h (get_all_unconfirmed sort ls)
          × (get_tx t h ≡ ok tr)
          × All (λ k. received_in (t.txs h) ≤ received_in (t.txs k)) (get_all_unconfirmed sort ls)
    of_infos (err e) got run = cc
    of_infos (ok infos) got run =
        let (ti, rest, order, read) = oldest_inv t (sort_infos infos) h tr run in
        let inside = sorts.members (h, ti) infos (subst (In (h, ti)) (sym order) (inl refl)) in
        let (leaf, stored) =
          infos_of-members t.txs (get_all_unconfirmed sort ls) infos got (h, ti) inside in
        (
          leaf,
          read,
          rw stored (
              infos_of-All t.txs ti.received (get_all_unconfirmed sort ls) infos got
                (sorts.first (h, ti) infos rest order)),
        )

-- With a sort of hashes that keeps exactly the hashes it got, and a sort of records that keeps no
-- other records than those it got and puts an oldest one first: when OnClose returns a
-- transaction, a leaf that is not confirmed has its hash, it is as the iMesh stores it, and every
-- leaf is confirmed or did not arrive before it.
pub on_close-oldest :
    (sort : List Hash → List Hash) (sort_infos : List (Hash × TxInfo) → List (Hash × TxInfo))
    (t : Tables) (ls : Leaves) (h : Hash) (tr : Transaction)
    → IsSortOfHashes sort
    → IsSortByReceived sort_infos
    → on_close sort sort_infos t ls ≡ (h, tr) ∷ []
    → In (record { hash = h; confirmed = false }) ls.leaves
      × (get_tx t h ≡ ok tr)
      × All
          (λ l. (l.confirmed ≡ true) ⊎ (received_in (t.txs h) ≤ received_in (t.txs l.hash)))
          ls.leaves
unfolding get_all_unconfirmed
on_close-oldest sort sort_infos t ls h tr hashes infos run =
    let hs = unconfirmed ls.leaves in
    let (leaf, read, first) = on_close-first sort sort_infos t ls h tr infos run in
    (
      unconfirmed-members h ls.leaves (hashes.members h hs leaf),
      read,
      unconfirmed-All (λ k. received_in (t.txs h) ≤ received_in (t.txs k)) ls.leaves
          (All-of (λ k. received_in (t.txs h) ≤ received_in (t.txs k)) hs
            (λ k m.
              All_at (λ k. received_in (t.txs h) ≤ received_in (t.txs k)) k (sort hs) first
                (hashes.kept k hs m))),
    )
