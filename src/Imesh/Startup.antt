-- ===== src/Imesh/Startup.antt =====
-- imesh/txfind.go: Init, which stores the genesis transaction, and reads back what the package saved.
pub mod Restored
use aknode.Base.{
  ℕ, if◌then◌else◌, Bool, true, false, Option, none, some, List, [], ◌∷◌, Dict, insert, Result, ok,
  err, refused,
}
use aknode.Imesh.Types.{Hash, Txs, TxInfo, Transaction, put, status_genesis}
use aknode.Imesh.Tables.{TxType, Tables, Memory, has}
use aknode.Imesh.Store.{put_tx_sub}
use aknode.Imesh.Resolve.{UnresolvedTx, Finder, Outside, prevs}
use aknode.Leaves.{check_add, set_confirmed}

-- What the decoder makes of a saved entry: the fields that are not exported are empty.
abbrev pub bare : TxType → UnresolvedTx
bare kind = record { prevs = []; kind = kind; unresolved = false; visited = false; broken = false }

unfoldable pub entries_of : Dict TxType → Dict UnresolvedTx
entries_of [] = []
entries_of ((h, kind) ∷ ks) = (h, bare kind) ∷ entries_of ks

-- The variables of the package at the start.
abbrev pub reset : Finder → Finder
reset f = record f {
  entries = [];
  missing = record f.missing { noexists = [] };
  memory = record f.memory { tx_no = 0 };
}

-- The variable `unresolved`, as the database has it.
unfoldable pub load : Finder → Finder
unfolding entries_of
load f = record f {
  entries = entries_of f.saved;
  missing = record f.missing { noexists = f.missing.stored };
}

-- t.StatNo = StatusGenesis
unfoldable pub confirm_genesis : Hash → Txs → Txs
confirm_genesis h txs = elim (txs h) [
  | none ↦ txs
  | some ti ↦ put txs h (record ti { stat_no = status_genesis })
]

-- getTxNo
unfoldable pub get_tx_no : Finder → Finder
get_tx_no f = record f { memory = record f.memory { tx_no = f.tables.saved_no } }

module _ (out : Outside) where
  -- The leaves after `leaves.CheckAdd(s, nil, tr)` and `leaves.SetConfirmed(s, tr.Hash())`, whose
  -- writes are taken to succeed.
  unfoldable pub add_genesis : Transaction → Finder → Finder
  unfolding confirm_genesis
  add_genesis tr f =
      let c = check_add out.nil_array true none (tr ∷ []) f.leaves in
      let d = set_confirmed true tr.hash c.1 in
      record f {
        tables = record f.tables { txs = confirm_genesis tr.hash f.tables.txs };
        leaves = d.1;
      }

  unfoldable pub store_genesis : Transaction → Finder → Result (Unit {0}) × Finder
  unfolding add_genesis
  store_genesis tr f =
      let r = put_tx_sub out.lib out.now tr f.tables f.memory in
      let f1 = record f { tables = r.1; memory = r.2 } in
      elim r.0 [ err e ↦ (err e, f1) | ok _ ↦ (ok tt, add_genesis tr f1) ]

  -- The loop over `unresolved.Txs`. `ok false` is the return in its middle.
  unfoldable pub restore : Dict UnresolvedTx → Finder → Result Bool × Finder
  unfolding prevs
  restore [] f = (ok true, f)
  restore ((h, e) ∷ es) f = elim (f.waiting h) [
    | none ↦ (ok false, f)
    | some t ↦ elim (out.check t e.kind) [
      | false ↦ (err refused, f)
      | true ↦ restore es (record f {
        entries = insert h (record (bare e.kind) { prevs = prevs t.body }) f.entries;
      })
    ]
  ]

  unfoldable pub restored : Result Bool × Finder → Result (Unit {0}) × Finder
  unfolding get_tx_no
  restored (err e, f) = (err e, f)
  restored (ok false, f) = (ok tt, f)
  restored (ok true, f) = (ok tt, get_tx_no f)

  unfoldable pub load_all : Finder → Result (Unit {0}) × Finder
  unfolding load restore restored
  load_all f = restored (restore (load f).entries (load f))

  -- `valid` says whether the outputs of the genesis transaction can be made and are the whole supply.
  unfoldable pub init : Bool → Transaction → Finder → Result (Unit {0}) × Finder
  unfolding store_genesis load_all has
  init false tr f = (err refused, reset f)
  init true tr f = elim (has f.tables.txs tr.hash) [
    | true ↦ load_all (reset f)
    | false ↦ let g = store_genesis tr (reset f) in elim g.0 [ err e ↦ g | ok _ ↦ load_all g.1 ]
  ]
