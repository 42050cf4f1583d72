-- ===== src/Imesh/Search.antt =====
-- imesh/txfind.go: `GetSearchingTx`, which names the missing transactions to ask for.
pub mod Turns
pub mod Broken
pub mod Filed
use aknode.Base.{
  ℕ, zero, suc, ◌+◌, ◌*◌, ◌-◌, ◌^◌, ◌%◌, ◌≤◌, ◌==◌, ==_iff, leb, ltb, if◌then◌else◌, Bool, true,
  false, not, ◌&&◌, ◌||◌, Option, none, some, List, [], ◌∷◌, Dict, Distinct, lookup, insert, add,
  contains, contains-add, Result, ok, err, refused, ◌≡◌, refl, sym, ap, ◌∙◌, arith, Bool-cases, inl,
  inr, ok-injective,
}
use aknode.Imesh.Types.{Hash}
use aknode.Imesh.Tables.{TxType}

-- `Searched` is none for the zero time. `kind` is the transaction's type.
pub record Noexist : Type 0 where
  pub hash : Hash
  pub kind : TxType
  pub count : ℕ
  pub searched : Option ℕ

abbrev pub minute : ℕ
minute = 60000000000

-- The 64 bits of (1 << (n.Count - 1)) * time.Minute, a time.Duration: the byte wraps, a shift by
-- 64 or more gives 0, and the product wraps.
unfoldable pub sleep : Noexist → ℕ
sleep n = (((2 ^ ((n.count + 255) % 256)) % 2 ^ 64) * minute) % 2 ^ 64

-- t.Add(d).Before(now), for the 64 bits of `d`: those from 2^63 on stand for a negative duration.
abbrev pub passed : ℕ → ℕ → ℕ → Bool
passed t d now = if ltb d (2 ^ 63) then ltb (t + d) now else ltb t (now + (2 ^ 64 - d))

unfoldable pub due : ℕ → Noexist → Bool
unfolding sleep
due now n = elim n.searched [ none ↦ true | some t ↦ passed t (sleep n) now ]

unfoldable pub asked : ℕ → Noexist → Noexist
asked now n = record n { searched = some now; count = (n.count + 1) % 256 }

-- What one turn of the loop does with an entry.
pub data Turn : Type 0 where
  waits asks gives_up fails : Turn

unfoldable pub turn : Bool → ℕ → Noexist → Turn
unfolding due asked
turn writes now n =
    if not (due now n)
    then waits
    else if leb (asked now n).count 10
    then asks
    else if writes
    then gives_up
    else fails

-- What the loop returns, the entries it leaves, and the table of broken transactions.
abbrev pub Asked : Type 0
Asked = Result (List Noexist) × (Dict Noexist × List Hash)

abbrev pub keep : Hash → Noexist → Asked → Asked
keep h n rest = (rest.0, ((h, n) ∷ rest.1.0, rest.1.1))

abbrev pub with_found : Noexist → Result (List Noexist) → Result (List Noexist)
with_found n (ok r) = ok (n ∷ r)
with_found n (err e) = err e

abbrev pub found : Noexist → Asked → Asked
found n rest = (with_found n rest.0, rest.1)

-- `rest` is what remains of the loop, on the table of broken transactions.
unfoldable pub take_turn :
    Turn → ℕ → Hash → Noexist → Dict Noexist → (List Hash → Asked) → List Hash → Asked
take_turn waits now h n ns rest broken = keep h n (rest broken)
take_turn asks now h n ns rest broken = found n (keep h (asked now n) (rest broken))
take_turn gives_up now h n ns rest broken = found n (rest (add n.hash broken))
take_turn fails now h n ns rest broken = (err refused, ((h, asked now n) ∷ ns, broken))

-- The loop over `unresolved.Noexists`; `writes` says whether `putBrokenTx` succeeds for a hash.
unfoldable pub ask_each : (Hash → Bool) → ℕ → Dict Noexist → List Hash → Asked
unfolding turn take_turn
ask_each writes now [] broken = (ok [], ([], broken))
ask_each writes now ((h, n) ∷ ns) broken =
    take_turn (turn (writes n.hash) now n) now h n ns (ask_each writes now ns) broken

-- `unresolved.Noexists` and the table of broken transactions.
pub record Missing : Type 0 where
  pub noexists : Dict Noexist
  pub broken : List Hash
  pub stored : Dict Noexist

abbrev pub put_missing :
    Bool → Result (List Noexist) → Missing → (List Noexist × Result (Unit {0})) × Missing
put_missing writes (err e) m = (([], err e), m)
put_missing true (ok r) m = ((r, ok tt), record m { stored = m.noexists })
put_missing false (ok r) m = ((r, err refused), m)

-- `GetSearchingTx`: the entries as they were before the turn, and the error.
unfoldable pub get_searching_tx :
    (Hash → Bool) → Bool → ℕ → Missing → (List Noexist × Result (Unit {0})) × Missing
unfolding ask_each
get_searching_tx writes saves now m =
    let rest = ask_each writes now m.noexists m.broken in
    put_missing saves rest.0 (record m { noexists = rest.1.0; broken = rest.1.1 })

-- `AddNoexistTxHash`; `has` says whether the transaction is stored.
unfoldable pub add_noexist_tx_hash : Bool → Hash → TxType → Missing → Missing
add_noexist_tx_hash true h kind m = m
add_noexist_tx_hash false h kind m = elim (lookup h m.noexists) [
  | some _ ↦ m
  | none ↦ record m {
    noexists = insert h (record { hash = h; kind = kind; count = 0; searched = none }) m.noexists;
  }
]
