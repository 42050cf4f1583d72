-- ===== src/Imesh/Resolve.antt =====
-- imesh/txfind.go: the transactions that wait for others, and how they come into the ledger.
pub mod Grows
pub mod Adding
pub mod Settled
pub mod Endings
pub mod Flags
pub mod Walks
pub mod Visits
pub mod Calls
pub mod Reports
pub mod Returns
use aknode.Base.{
  ℕ, zero, suc, ◌+◌, ◌==◌, if◌then◌else◌, Bool, true, false, not, ◌&&◌, ◌||◌, Option, none, some,
  List, [], ◌∷◌, ◌++◌, map, length, Dict, lookup, insert, remove, contains, add, Result, ok, err,
  refused, key_not_found,
}
use aknode.Imesh.Types.{Hash, Txs, Body, Transaction, ticket_list}
use aknode.Imesh.Tables.{
  TxType, type_normal, type_reward_fee, type_reward_ticket, type_unknown, Tables, Memory, has,
  get_tx_func,
}
use aknode.Imesh.Minable.{put_minable_tx}
use aknode.Imesh.Store.{Aklib, put_tx}
use aknode.Imesh.Search.{Noexist, Missing}
use aknode.Leaves.{Leaves, check_add}

pub record UnresolvedTx : Type 0 where
  pub prevs : List Hash
  pub kind : TxType
  pub unresolved : Bool
  pub visited : Bool
  pub broken : Bool

-- `unresolved.Txs` and `unresolved.Noexists` (with the table of broken transactions), the table
-- HeaderUnresolvedTx, what HeaderUnresolvedInfo holds of `unresolved.Txs`, and the other parts of
-- the package. Only the type of an entry is written to the database.
pub record Finder : Type 0 where
  pub entries : Dict UnresolvedTx
  pub missing : Missing
  pub waiting : Hash → Option Transaction
  pub saved : Dict TxType
  pub tables : Tables
  pub memory : Memory
  pub leaves : Leaves

-- What the code takes from aklib: `tr.Check`, `tr.CheckAll` on the function that reads stored
-- bodies, the array of a nil hash, the functions that storing takes, and the clock.
pub record Outside : Type 0 where
  pub lib : Aklib
  pub check : Transaction → TxType → Bool
  pub check_all : (Hash → Result Body) → Transaction → TxType → Bool
  pub nil_array : Hash
  pub now : ℕ

-- `prevs`, with the ticket before the inputs.
unfoldable pub prevs : Body → List Hash
prevs b =
    b.parent
    ++ (ticket_list b.ticket_input
        ++ (map (λ i. i.previous_tx) b.inputs ++ map (λ i. i.previous_tx) b.multi_sig_ins))

-- `put`, which saves both maps.
unfoldable pub kinds : Dict UnresolvedTx → Dict TxType
kinds [] = []
kinds ((h, e) ∷ es) = (h, e.kind) ∷ kinds es

unfoldable pub save : Bool → Finder → Result (Unit {0}) × Finder
unfolding kinds
save true f = (
  ok tt,
  record f { saved = kinds f.entries; missing = record f.missing { stored = f.missing.noexists } },
)
save false f = (err refused, f)

-- The pointers in `unresolved.Txs` are shared: a change is seen by all that hold one.
unfoldable pub change : Hash → (UnresolvedTx → UnresolvedTx) → Finder → Finder
change h g f = elim (lookup h f.entries) [
  | none ↦ f
  | some e ↦ record f { entries = insert h (g e) f.entries }
]

abbrev pub visiting : UnresolvedTx → UnresolvedTx
visiting e = record e { visited = true }

abbrev pub breaking : UnresolvedTx → UnresolvedTx
breaking e = record e { broken = true }

abbrev pub lacking : UnresolvedTx → UnresolvedTx
lacking e = record e { unresolved = true }

unfoldable pub put_broken_tx : Hash → Finder → Finder
put_broken_tx h f = record f { missing = record f.missing { broken = add h f.missing.broken } }

unfoldable pub delete_unresolved_tx : Hash → Finder → Finder
delete_unresolved_tx h f = record f { waiting = λ k. if h == k then none else f.waiting k }

-- `if _, ok1 := unresolved.Noexists[…]; !ok1 { … }`
unfoldable pub want : Hash → Finder → Finder
want p f = elim (lookup p f.missing.noexists) [
  | some _ ↦ f
  | none ↦ record f {
    missing = record f.missing {
      noexists =
          insert p (record { hash = p; kind = type_normal; count = 0; searched = none })
            f.missing.noexists;
    };
  }
]

abbrev pub with_tables : Finder → Result Tables → Result (Unit {0}) × Finder
with_tables f (err e) = (err e, f)
with_tables f (ok t) = (ok tt, record f { tables = t })

-- What the flags of the entry of a reference do to those of `h`.
unfoldable pub inherit : Hash → Option UnresolvedTx → Finder → Finder
unfolding change
inherit h none f = f
inherit h (some e) f =
    let f1 = if e.broken then change h breaking f else f in
    if e.unresolved then change h lacking f1 else f1

abbrev pub normal_kind : TxType → Bool
normal_kind type_normal = true
normal_kind _ = false

abbrev pub is_normal : Option UnresolvedTx → Bool
is_normal none = false
is_normal (some e) = normal_kind e.kind

-- What the loop does next: go on, return at once, or fail. `none` is a recursion cut off.
abbrev pub Walk : Type 0
Walk = Option (Result Bool × Finder)

unfoldable pub visited_then :
    Hash → Hash → Option (Result (Unit {0}) × Finder) → (Finder → Walk) → Walk
unfolding inherit
visited_then h p none rest = none
visited_then h p (some (err e, f)) rest = some (err e, f)
visited_then h p (some (ok _, f)) rest = rest (inherit h (lookup p f.entries) f)

-- The loop over `tr.prevs`; `visit` is the recursive call.
unfoldable pub walk :
    (Hash → Finder → Option (Result (Unit {0}) × Finder)) → Hash → List Hash → Finder → Walk
unfolding visited_then want change
walk visit h [] f = some (ok false, f)
walk visit h (p ∷ ps) f = elim (has f.tables.txs p) [
  | true ↦ walk visit h ps f
  | false ↦ elim (contains f.missing.broken p) [
    | true ↦ some (ok true, change h breaking f)
    | false ↦ elim (is_normal (lookup p f.entries)) [
      | false ↦ walk visit h ps (want p (change h lacking f))
      | true ↦ visited_then h p (visit p f) (walk visit h ps)
    ]
  ]
]

-- The loop of `Resolve`: the entries that stay, and those that are reported.
unfoldable pub remaining : Dict UnresolvedTx → Dict UnresolvedTx
remaining [] = []
remaining ((h, e) ∷ es) =
    let rest = remaining es in
    if not e.broken && e.unresolved
    then (h, record e { visited = false; unresolved = false }) ∷ rest
    else rest

unfoldable pub reported : Dict UnresolvedTx → List (Hash × TxType)
reported [] = []
reported ((h, e) ∷ es) =
    let rest = reported es in
    if not e.broken && e.unresolved then rest else if e.broken then rest else (h, e.kind) ∷ rest

abbrev pub report : Bool → Finder → (List (Hash × TxType) × Result (Unit {0})) × Finder
report saves f =
    let s = save saves (record f { entries = remaining f.entries }) in
    ((reported f.entries, s.0), s.1)

module _ (out : Outside) where
  -- leaves.CheckAdd with putTx as its function, whose writes are taken to succeed.
  unfoldable pub add_normal : Transaction → Finder → Result (Unit {0}) × Finder
  add_normal tr f =
      let r = put_tx out.lib out.check out.now tr f.tables f.memory in
      let c = check_add out.nil_array true (some r.0) (tr ∷ []) f.leaves in
      (c.0, record f { tables = r.1; memory = r.2; leaves = c.1 })

  unfoldable pub add_resolved : TxType → Transaction → Finder → Result (Unit {0}) × Finder
  unfolding add_normal
  add_resolved type_normal tr f = add_normal tr f
  add_resolved kind tr f =
      with_tables f (put_minable_tx out.lib.input_hashes out.check tr kind f.tables)

  -- `resolved`, for the transaction that the table of waiting ones holds.
  unfoldable pub settle_entry :
      Hash → UnresolvedTx → Transaction → Finder → Result (Unit {0}) × Finder
  unfolding add_resolved put_broken_tx delete_unresolved_tx change get_tx_func
  settle_entry h e tr f =
      let f1 = delete_unresolved_tx h f in
      if e.broken
      then (ok tt, put_broken_tx h f1)
      else if out.check_all (get_tx_func f1.tables.txs) tr e.kind
      then add_resolved e.kind tr f1
      else (ok tt, put_broken_tx h (change h breaking f1))

  unfoldable pub resolved : Hash → UnresolvedTx → Finder → Result (Unit {0}) × Finder
  unfolding settle_entry
  resolved h e f = elim (f.waiting h) [
    | none ↦ (err key_not_found, f)
    | some tr ↦ settle_entry h e tr f
  ]

  -- The end of a call: `if tr.broken || !tr.unresolved { … }`.
  unfoldable pub conclude : Hash → Finder → Result (Unit {0}) × Finder
  unfolding resolved
  conclude h f = elim (lookup h f.entries) [
    | none ↦ (ok tt, f)
    | some e ↦ if e.broken || not e.unresolved then resolved h e f else (ok tt, f)
  ]

  unfoldable pub walked : Hash → Walk → Option (Result (Unit {0}) × Finder)
  unfolding conclude
  walked h none = none
  walked h (some (err e, f)) = some (err e, f)
  walked h (some (ok true, f)) = some (ok tt, f)
  walked h (some (ok false, f)) = some (conclude h f)

  -- `dfs`; its callers found `h` in `unresolved.Txs`.
  unfoldable pub dfs : ℕ → Hash → Finder → Option (Result (Unit {0}) × Finder)
  unfolding walked walk change
  dfs zero h f = none
  dfs (suc fuel) h f = elim (lookup h f.entries) [
    | none ↦ some (ok tt, f)
    | some e ↦ elim e.visited [
      | true ↦ some (ok tt, f)
      | false ↦ walked h (walk (dfs fuel) h e.prevs (change h visiting f))
    ]
  ]

  -- The loop of `isResolved`.
  unfoldable pub is_resolved : ℕ → List Hash → Finder → Option (Result (Unit {0}) × Finder)
  unfolding dfs
  is_resolved fuel [] f = some (ok tt, f)
  is_resolved fuel (h ∷ hs) f = elim (dfs fuel h f) [
    | none ↦ none
    | some r ↦ elim r.0 [ err e ↦ some r | ok _ ↦ is_resolved fuel hs r.1 ]
  ]

  -- `Resolve`: the transactions that it returns, the error, and the state.
  unfoldable pub resolve :
      ℕ → Bool → Finder → Option ((List (Hash × TxType) × Result (Unit {0})) × Finder)
  unfolding is_resolved remaining reported save
  resolve fuel saves f = elim (is_resolved fuel (map (λ e. e.0) f.entries) f) [
    | none ↦ none
    | some r ↦ elim r.0 [ err e ↦ some (([], err e), r.1) | ok _ ↦ some (report saves r.1) ]
  ]

  -- The part of `CheckAddTx` after the test of the type.
  unfoldable pub add_unresolved : Bool → TxType → Transaction → Finder → Result (Unit {0}) × Finder
  unfolding save prevs put_broken_tx
  add_unresolved saves kind tr f =
      if has f.tables.txs tr.hash
      then (ok tt, f)
      else if contains f.missing.broken tr.hash
      then (err refused, f)
      else if not (out.check tr kind)
      then (err refused, put_broken_tx tr.hash f)
      else save saves (record f {
        waiting = λ k. if tr.hash == k then some tr else f.waiting k;
        entries =
            insert tr.hash
              (record {
                prevs = prevs tr.body;
                kind = kind;
                unresolved = false;
                visited = false;
                broken = false;
              })
              f.entries;
      })

  unfoldable pub check_add_tx : Bool → TxType → Transaction → Finder → Result (Unit {0}) × Finder
  unfolding add_unresolved
  check_add_tx saves (type_unknown k) tr f = (err refused, f)
  check_add_tx saves kind tr f = add_unresolved saves kind tr f
