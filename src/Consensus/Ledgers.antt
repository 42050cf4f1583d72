-- ===== src/Consensus/Ledgers.antt =====
-- A ledger that was stored is read back.
use aknode.Base.{◌==◌, ==_refl, ◌≢◌, true, false, [], ◌∷◌, Dict, ok, ◌≡◌, refl, arith}
use aknode.Imesh.Types.{Transaction}
use aknode.Imesh.Tables.{Tables, get_tx}
use aknode.Consensus.{
  Library, Ledger, State, last_key, new_ledger, from_ledger, get_ledger, put_ledger,
}

-- At most one transaction, which is stored.
abbrev pub AtMostOne : Tables → Dict Transaction → Type 0
AtMostOne t [] = Unit
AtMostOne t ((h, tr) ∷ []) = get_tx t h ≡ ok tr
AtMostOne t (x ∷ (y ∷ more)) = ⊥

from_ledger-new_ledger :
    (t : Tables) (l : Ledger) (txs : Dict Transaction)
    → l.txs ≡ txs
    → AtMostOne t txs
    → from_ledger t (new_ledger l) ≡ ok l
unfolding from_ledger new_ledger last_key
from_ledger-new_ledger t l [] e one = rw e refl
from_ledger-new_ledger t l ((h, tr) ∷ []) e one = rw (e, one) refl
from_ledger-new_ledger t l (x ∷ (y ∷ more)) e one = absurd one

-- A ledger that is stored is read back by its ID as it was, if it is not the genesis ledger and
-- has no transaction, or one that is stored in the iMesh.
pub get_ledger-put_ledger :
    (lib : Library) (l : Ledger) (s : State)
    → lib.id_of l ≢ lib.genesis_id
    → AtMostOne s.finder.tables l.txs
    → get_ledger lib (put_ledger lib true l s).1 (lib.id_of l) ≡ ok l
unfolding get_ledger put_ledger
get_ledger-put_ledger lib l s other one =
    let ne : (lib.id_of l == lib.genesis_id) ≡ false = ground (arith, other) in
    rw (ne, ==_refl (lib.id_of l)) (from_ledger-new_ledger s.finder.tables l l.txs refl one)
