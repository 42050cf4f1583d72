-- ===== src/Consensus.antt =====
-- akconsensus/consensus.go: the ledgers that the consensus agrees on, and how the iMesh follows them.
-- Everything runs under the package's mutex, also the wait for a ledger in `Confirm`: no other
-- routine can store a ledger meanwhile. The iMesh has a mutex of its own, so that a transaction can
-- arrive during the wait. Runs in which that happens are left out: here the second reading gives
-- what the first one gave.
pub mod Messages
pub mod Adaptor
pub mod Keeps
pub mod Safety
pub mod Follows
pub mod Ledgers
use aknode.Base.{
  ℕ, zero, suc, ◌+◌, ◌-◌, ◌==◌, if◌then◌else◌, Bool, true, false, Option, none, some, List, [], ◌∷◌,
  ◌++◌, Dict, Result, ok, err, Error, key_not_found, refused, ◌>>=◌,
}
use aknode.Imesh.Types.{Hash, Txs, Transaction, Spend, is_accepted, or_missing}
use aknode.Imesh.Tables.{Tables, type_normal, has, get_tx, get_tx_info}
use aknode.Imesh.Rounds.{confirm_from, revert_from}
use aknode.Imesh.Search.{add_noexist_tx_hash}
use aknode.Imesh.Resolve.{Finder}
use aknode.Leaves.{set_confirmed}

abbrev pub LedgerId : Type 0
LedgerId = ℕ

-- `consensus.Ledger`, as far as it is stored; times are numbers. `txs` has the transactions by their
-- hashes, in the order of a range over the map.
pub record Ledger : Type 0 where
  pub parent_id : LedgerId
  pub seq : ℕ
  pub txs : Dict Transaction
  pub close_time_resolution : ℕ
  pub close_time : ℕ
  pub parent_close_time : ℕ
  pub close_time_agree : Bool

-- `ledger`
pub record StoredLedger : Type 0 where
  pub parent_id : LedgerId
  pub seq : ℕ
  pub txs : Option Hash
  pub close_time_resolution : ℕ
  pub close_time : ℕ
  pub parent_close_time : ℕ
  pub close_time_agree : Bool

-- What the code takes from the package consensus: `l.ID()`, `l.IndexOf` and
-- `NewSpan(l).Diff(latestSolidLedger)`, which read other ledgers by the function that is given, the
-- genesis ledger and its ID. All chains start with the genesis ledger, so that a difference is above 0.
pub record Library : Type 0 where
  pub id_of : Ledger → LedgerId
  pub index_of : (LedgerId → Result Ledger) → Ledger → ℕ → LedgerId
  pub diff : (LedgerId → Result Ledger) → Ledger → Ledger → ℕ
  pub genesis : Ledger
  pub genesis_id : LedgerId

-- The variables of the package, the tables HeaderLedger and HeaderLastLedger, the state of the iMesh,
-- what was sent to the notifier, and the ledgers that peers were asked for.
pub record State : Type 0 where
  pub latest_ledger : Ledger
  pub latest_solid_ledger : Ledger
  pub ledgers : LedgerId → Option StoredLedger
  pub last_ledger : Option Ledger
  pub finder : Finder
  pub notifies : Bool
  pub notified : List (List Hash)
  pub asked : List LedgerId

-- `for h := range l.Txs { t = h }`
unfoldable pub last_key : Dict Transaction → Option Hash
last_key [] = none
last_key ((h, tr) ∷ []) = some h
last_key ((h, tr) ∷ (k ∷ ks)) = last_key (k ∷ ks)

unfoldable pub new_ledger : Ledger → StoredLedger
unfolding last_key
new_ledger l = record {
  parent_id = l.parent_id;
  seq = l.seq;
  txs = last_key l.txs;
  close_time_resolution = l.close_time_resolution;
  close_time = l.close_time;
  parent_close_time = l.parent_close_time;
  close_time_agree = l.close_time_agree;
}

abbrev with_tx : StoredLedger → Dict Transaction → Ledger
with_tx l txs = record {
  parent_id = l.parent_id;
  seq = l.seq;
  txs = txs;
  close_time_resolution = l.close_time_resolution;
  close_time = l.close_time;
  parent_close_time = l.parent_close_time;
  close_time_agree = l.close_time_agree;
}

unfoldable pub from_ledger : Tables → StoredLedger → Result Ledger
from_ledger t l = elim l.txs [
  | none ↦ ok (with_tx l [])
  | some h ↦ do tr ← get_tx t h; ok (with_tx l ((h, tr) ∷ []))
]

abbrev pub txs_of : State → Txs
txs_of s = s.finder.tables.txs

abbrev pub with_txs : State → Txs → State
with_txs s txs = record s {
  finder = record s.finder { tables = record s.finder.tables { txs = txs } };
}

-- The transactions of a list that are accepted, for the notifier.
unfoldable pub accepted_of : Txs → List Hash → Result (List Hash)
unfolding is_accepted get_tx_info
accepted_of txs [] = ok []
accepted_of txs (h ∷ hs) = do
  ti ← get_tx_info txs h
  rest ← accepted_of txs hs
  if is_accepted ti then ok (h ∷ rest) else ok rest

-- `if notify != nil`
unfoldable pub notify_if : Bool → List Hash → State → Result (Unit {0}) × State
unfolding accepted_of
notify_if false hs s = (ok tt, s)
notify_if true hs s = elim (accepted_of (txs_of s) hs) [
  | err e ↦ (err e, s)
  | ok sent ↦ (ok tt, record s { notified = s.notified ++ sent ∷ [] })
]

-- A ledger that is not stored is asked for.
unfoldable pub ask : Error → LedgerId → State → State
ask key_not_found id s = record s { asked = s.asked ++ id ∷ [] }
ask _ id s = s

unfoldable pub set_leaf : Bool → Option Hash → State → Result (Unit {0}) × State
set_leaf writes none s = (ok tt, s)
set_leaf writes (some h) s =
    let c = set_confirmed writes h s.finder.leaves in
    (c.0, record s { finder = record s.finder { leaves = c.1 } })

module _ (lib : Library) where
  unfoldable pub get_ledger : State → LedgerId → Result Ledger
  unfolding from_ledger
  get_ledger s id =
      if id == lib.genesis_id
      then ok lib.genesis
      else or_missing (s.ledgers id) >>= from_ledger s.finder.tables

  unfoldable pub put_ledger : Bool → Ledger → State → Result (Unit {0}) × State
  unfolding new_ledger
  put_ledger false l s = (err refused, s)
  put_ledger true l s = (
    ok tt,
    record s {
      ledgers = λ id. if lib.id_of l == id then some (new_ledger l) else s.ledgers id;
      last_ledger = some s.latest_solid_ledger;
    },
  )

  -- The loop `get all ledgers`, for the number of its turns.
  unfoldable pub get_all : ℕ → Ledger → State → Result (Unit {0}) × State
  unfolding get_ledger ask
  get_all zero last s = (ok tt, s)
  get_all (suc n) last s = elim (get_ledger s last.parent_id) [
    | err e ↦ (err e, ask e last.parent_id s)
    | ok l ↦ get_all n l s
  ]

  module _ (serialize : Spend → ℕ) (fuel : ℕ) where
    unfoldable pub revert_ledger : Ledger → State → Result (List Hash) × State
    unfolding last_key
    revert_ledger last s = elim (last_key last.txs) [
      | none ↦ (ok [], s)
      | some t ↦ let r = revert_from fuel t (lib.id_of last) (txs_of s) in (r.0, with_txs s r.1)
    ]

    -- The loop `go backward`.
    unfoldable pub go_backward : ℕ → Ledger → State → Result (Unit {0}) × State
    unfolding revert_ledger get_ledger
    go_backward zero last s = (ok tt, s)
    go_backward (suc n) last s =
        let r = revert_ledger last s in
        let s1 = record r.1 { latest_solid_ledger = last } in
        elim r.0 [
          | err e ↦ (err e, r.1)
          | ok _ ↦ elim (get_ledger s1 last.parent_id) [
            | err e ↦ (err e, s1)
            | ok parent ↦ go_backward n parent s1
          ]
        ]

    -- The transaction of one ledger, which is confirmed with the number of `l` if it is stored.
    unfoldable pub confirm_if : Bool → Ledger → Hash → State → Result (List Hash) × State
    confirm_if true l t s =
        let r = confirm_from serialize fuel t (lib.id_of l) (txs_of s) in (r.0, with_txs s r.1)
    confirm_if false l t s = (
      err refused,
      record s {
        finder = record s.finder {
          missing = add_noexist_tx_hash false t type_normal s.finder.missing;
        };
      },
    )

    unfoldable pub confirm_tx : Ledger → Option Hash → State → Result (List Hash) × State
    unfolding has confirm_if
    confirm_tx l none s = (ok [], s)
    confirm_tx l (some t) s = confirm_if (has (txs_of s) t) l t s

    -- The loop `go forward`, from `i` on, with the hashes that are collected.
    unfoldable pub go_forward : ℕ → ℕ → Ledger → List Hash → State → Result (List Hash) × State
    unfolding confirm_tx last_key get_ledger
    go_forward zero i l tr s = (ok tr, s)
    go_forward (suc n) i l tr s = elim (get_ledger s (lib.index_of (get_ledger s) l i)) [
      | err e ↦ (err e, s)
      | ok ll ↦
          let r = confirm_tx l (last_key ll.txs) s in
          elim r.0 [
            | err e ↦ (err e, r.1)
            | ok hs ↦ go_forward n (suc i) l (tr ++ hs) (record r.1 { latest_solid_ledger = ll })
          ]
    ]

    -- The rest of `Confirm` after each of its loops.
    unfoldable pub confirm_end : Bool → Ledger → List Hash → State → Result (Unit {0}) × State
    unfolding notify_if set_leaf last_key
    confirm_end writes l tr s =
        let r = notify_if s.notifies tr s in
        elim r.0 [ err e ↦ (err e, r.1) | ok _ ↦ set_leaf writes (last_key l.txs) r.1 ]

    unfoldable pub confirm_forward : Bool → Ledger → ℕ → State → Result (Unit {0}) × State
    unfolding go_forward confirm_end
    confirm_forward writes l seq s =
        let r = go_forward (suc l.seq - seq) seq l [] s in
        elim r.0 [ err e ↦ (err e, r.1) | ok tr ↦ confirm_end writes l tr r.1 ]

    unfoldable pub confirm_backward : Bool → Ledger → ℕ → State → Result (Unit {0}) × State
    unfolding go_backward confirm_forward
    confirm_backward writes l seq s =
        let r = go_backward (suc s.latest_solid_ledger.seq - seq) s.latest_solid_ledger s in
        elim r.0 [ err e ↦ (err e, r.1) | ok _ ↦ confirm_forward writes l seq r.1 ]

    -- `Confirm`; `writes` says whether the database takes the writes of this package.
    unfoldable pub confirm_ledger : Bool → Ledger → State → Result (Unit {0}) × State
    unfolding put_ledger get_all confirm_backward
    confirm_ledger writes l s =
        let p = put_ledger writes l (record s { latest_ledger = l }) in
        let seq = lib.diff (get_ledger p.1) l p.1.latest_solid_ledger in
        let g = get_all (l.seq - seq) p.1.latest_solid_ledger p.1 in
        elim p.0 [
          | err e ↦ (err e, p.1)
          | ok _ ↦ elim g.0 [ err e ↦ (err e, g.1) | ok _ ↦ confirm_backward writes l seq g.1 ]
        ]
