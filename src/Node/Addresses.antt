-- ===== src/Node/Addresses.antt =====
-- node/db.go: the addresses of nodes that the node knows, in memory and in the database.
use aknode.Base.{
  ℕ, zero, suc, ◌==◌, leb, ltb, if◌then◌else◌, Bool, true, false, ◌||◌, Option, none, some, List,
  [], ◌∷◌, length, Dict, lookup, insert, remove, map, get_elem?, set, take, Result, ok, err,
  key_not_found, refused,
}
use aknode.Node.Types.{Text, Addr, service_full, Net, Setting, in_blacklist}

abbrev pub max_addrs : ℕ
max_addrs = 1000

-- msg.MaxAddrs
abbrev pub msg_max_addrs : ℕ
msg_max_addrs = 100

-- `nodesDB.Addrs`, and what HeaderNodeIP holds in the database.
pub record Nodes : Type 0 where
  pub addrs : Dict Addr
  pub stored : Option (Dict Addr)

-- Whether the database takes a write, which the code does not decide.
unfoldable pub put : Bool → Nodes → Result (Unit {0}) × Nodes
put true n = (ok tt, record n { stored = some n.addrs })
put false n = (err refused, n)

-- r[j], r[k] = r[k], r[j]
unfoldable pub swap : ℕ → ℕ → List Addr → List Addr
swap i j xs = elim (get_elem? xs i) [
  | none ↦ xs
  | some a ↦ elim (get_elem? xs j) [ none ↦ xs | some b ↦ set (set xs i b) j a ]
]

-- for j := i - 1; j >= 0; j-- { k := rand.R.Intn(j + 1); … }, with what `Intn` drew for each `j`.
unfoldable pub shuffle : (ℕ → ℕ) → ℕ → List Addr → List Addr
unfolding swap
shuffle draw zero xs = xs
shuffle draw (suc j) xs = shuffle draw j (swap j (draw j) xs)

-- `n` is what the caller asks for; a negative number reads as 0, which the code treats alike.
unfoldable pub get : (ℕ → ℕ) → ℕ → Nodes → List Addr
unfolding shuffle
get draw n s =
    let r = map (λ e. e.1) s.addrs in
    let i = length r in let r1 = shuffle draw i r in if leb i n || n == 0 then r1 else take n r1

unfoldable pub remove_addr : Bool → Addr → Nodes → Result (Unit {0}) × Nodes
unfolding put
remove_addr writes a n = elim (lookup a.address n.addrs) [
  | none ↦ (err key_not_found, n)
  | some _ ↦ put writes (record n { addrs = remove a.address n.addrs })
]

-- A key that the database does not hold leaves the map empty.
abbrev pub loaded : Option (Dict Addr) → Dict Addr
loaded none = []
loaded (some m) = m

module _ (net : Net) (s : Setting) where
  -- One turn of the loop of `putAddrs`.
  unfoldable pub put_addr : Addr → Dict Addr → Dict Addr
  unfolding in_blacklist
  put_addr a m =
      if in_blacklist net s a.address
      then m
      else if ltb max_addrs (length m)
      then m
      else elim (lookup a.address m) [ none ↦ insert a.address a m | some _ ↦ m ]

  unfoldable pub put_each : List Addr → Dict Addr → Dict Addr
  unfolding put_addr
  put_each [] m = m
  put_each (a ∷ rest) m = put_each rest (put_addr a m)

  unfoldable pub put_addrs : Bool → List Addr → Nodes → Result (Unit {0}) × Nodes
  unfolding put_each put
  put_addrs writes added n =
      if ltb msg_max_addrs (length n.addrs)
      then (ok tt, n)
      else put writes (record n { addrs = put_each added n.addrs })

  -- for _, n := range s.DefaultNodes
  unfoldable pub put_defaults : List Text → Dict Addr → Dict Addr
  put_defaults [] m = m
  put_defaults (a ∷ rest) m =
      put_defaults rest (insert a (record { address = a; service = service_full }) m)

  -- The loop that deletes what the blacklist names.
  unfoldable pub purge : Dict Addr → Dict Addr
  unfolding in_blacklist
  purge [] = []
  purge ((k, a) ∷ m) = let rest = purge m in if in_blacklist net s k then rest else (k, a) ∷ rest

  -- The addresses of `initDB`, on what the database holds.
  unfoldable pub init_db : Option (Dict Addr) → Nodes
  unfolding put_defaults purge
  init_db held = record {
    addrs = purge (put_defaults s.default_nodes (loaded held));
    stored = held;
  }
