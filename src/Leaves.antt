-- ===== src/Leaves.antt =====
-- imesh/leaves/db.go: the transactions that no stored transaction refers to.
pub mod Members
pub mod Picks
use aknode.Base.{
  ℕ, zero, suc, ◌+◌, ◌-◌, ◌==◌, leb, ltb, if◌then◌else◌, Bool, true, false, not, Option, none, some,
  List, [], ◌∷◌, ◌++◌, map, length, get_elem?, set, take, Dict, lookup, insert, Result, ok, err,
  refused,
}
use aknode.Imesh.Types.{Hash, Body, Transaction}

pub record Leaf : Type 0 where
  pub hash : Hash
  pub confirmed : Bool

-- The package's variable and what HeaderLeaves holds in the database.
pub record Leaves : Type 0 where
  pub leaves : List Leaf
  pub stored : List Leaf

-- Whether the database takes a write, which the code does not decide.
unfoldable pub put : Bool → Leaves → Result (Unit {0}) × Leaves
put true s = (ok tt, record s { stored = s.leaves })
put false s = (err refused, s)

-- `Init`; a database without the key reads as an empty list.
unfoldable pub init : Leaves → Leaves
init s = record s { leaves = s.stored }

unfoldable pub size : Leaves → ℕ
size s = length s.leaves

unfoldable pub confirm_leaves : Hash → List Leaf → List Leaf
confirm_leaves h [] = []
confirm_leaves h (l ∷ ls) =
    (if l.hash == h then record l { confirmed = true } else l) ∷ confirm_leaves h ls

unfoldable pub set_confirmed : Bool → Hash → Leaves → Result (Unit {0}) × Leaves
unfolding put
set_confirmed writes h s = put writes (record s { leaves = confirm_leaves h s.leaves })

-- `gethash`: the unconfirmed leaves and the confirmed ones, each in order.
unfoldable pub unconfirmed : List Leaf → List Hash
unconfirmed [] = []
unconfirmed (l ∷ ls) = let rest = unconfirmed ls in if not l.confirmed then l.hash ∷ rest else rest

unfoldable pub confirmed : List Leaf → List Hash
confirmed [] = []
confirmed (l ∷ ls) = let rest = confirmed ls in if not l.confirmed then rest else l.hash ∷ rest

-- xs[i], xs[j] = xs[j], xs[i]
unfoldable pub swap : ℕ → ℕ → List Hash → List Hash
swap i j xs = elim (get_elem? xs i) [
  | none ↦ xs
  | some a ↦ elim (get_elem? xs j) [ none ↦ xs | some b ↦ set (set xs i b) j a ]
]

-- for i := n - 1; i >= 0; i-- { j := rand.R.Intn(i + 1); … }, with what `Intn` drew for each `i`.
unfoldable pub shuffle : (ℕ → ℕ) → ℕ → List Hash → List Hash
unfolding swap
shuffle draw zero xs = xs
shuffle draw (suc i) xs = shuffle draw i (swap i (draw i) xs)

unfoldable pub pick : ℕ → List Hash → List Hash → List Hash
pick n ncs cs =
    if leb n (length ncs)
    then take n ncs
    else if ltb (length ncs + length cs) n
    then ncs ++ cs
    else ncs ++ take (n - length ncs) cs

-- `Get`, for `n` that is not negative (a negative `n` makes the slice expression panic).
unfoldable pub get : (ℕ → ℕ) → (ℕ → ℕ) → ℕ → Leaves → List Hash
unfolding pick
get draw draw' n s =
    let ncs = unconfirmed s.leaves in
    let cs = confirmed s.leaves in
    pick n (shuffle draw (length ncs) ncs) (shuffle draw' (length cs) cs)

-- `sort` is `sort.Slice` by `bytes.Compare`.
unfoldable pub get_all_unconfirmed : (List Hash → List Hash) → Leaves → List Hash
get_all_unconfirmed sort s = sort (unconfirmed s.leaves)

unfoldable pub get_all : (List Hash → List Hash) → Leaves → List Hash
get_all sort s = sort (unconfirmed s.leaves ++ confirmed s.leaves)

-- `if t, ok := txs[h]; ok { t.visited = true }`
unfoldable pub visit : Hash → Dict Bool → Dict Bool
visit h txs = elim (lookup h txs) [ none ↦ txs | some _ ↦ insert h true txs ]

unfoldable pub visit_each : List Hash → Dict Bool → Dict Bool
unfolding visit
visit_each [] txs = txs
visit_each (h ∷ hs) txs = visit_each hs (visit h txs)

unfoldable pub enter : List Hash → Dict Bool → Dict Bool
enter [] txs = txs
enter (h ∷ hs) txs = enter hs (insert h false txs)

-- The loop over the map: what is not visited becomes a leaf.
unfoldable pub leaves_of : Dict Bool → List Leaf
leaves_of [] = []
leaves_of ((h, visited) ∷ txs) =
    let rest = leaves_of txs in
    if not visited then record { hash = h; confirmed = false } ∷ rest else rest

-- The end of `CheckAdd`: an error of the write returns before `f` is called.
unfoldable pub check_add_end :
    Option (Result (Unit {0})) → Result (Unit {0}) × Leaves → Result (Unit {0}) × Leaves
check_add_end f (err e, s) = (err e, s)
check_add_end none (ok _, s) = (ok tt, s)
check_add_end (some r) (ok _, s) = (r, s)

-- `nil_array` is what `Array()` of aklib gives for a nil hash.
module _ (nil_array : Hash) where
  abbrev pub ticket_array : Option Hash → Hash
  ticket_array none = nil_array
  ticket_array (some h) = h

  -- The hashes that the second loop of `isVisited` looks up for one transaction, in order.
  unfoldable pub used : Body → List Hash
  used b =
      b.parent
      ++ (map (λ i. i.previous_tx) b.inputs
          ++ (map (λ i. i.previous_tx) b.multi_sig_ins ++ ticket_array b.ticket_input ∷ []))

  unfoldable pub all_used : List Transaction → List Hash
  all_used [] = []
  all_used (tr ∷ trs) = used tr.body ++ all_used trs

  unfoldable pub is_visited : List Transaction → List Leaf → Dict Bool
  unfolding enter visit_each all_used
  is_visited trs leaves =
      visit_each (all_used trs)
        (enter (map (λ l. l.hash) leaves) (enter (map (λ tr. tr.hash) trs) []))

  -- `CheckAdd`: `f` is the caller's function, called once the leaves are written.
  unfoldable pub check_add :
      Bool → Option (Result (Unit {0})) → List Transaction → Leaves → Result (Unit {0}) × Leaves
  unfolding is_visited leaves_of
  check_add writes f trs s =
      let s1 = record s { leaves = leaves_of (is_visited trs s.leaves) } in
      check_add_end f (put writes s1)
