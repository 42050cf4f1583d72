-- ===== src/Imesh/Ledger.antt =====
-- The package as its callers see it: transactions arrive, rounds are confirmed and reverted.
use aknode.Base.{
  ℕ, ◌<◌, ◌≢◌, false, if◌then◌else◌, none, List, [], ◌∷◌, Result, ok, err, ◌≡◌, refl, sym, subst,
  ◌⊎◌, All, Bool-cases, Option-cases, inl, inr,
}
use aknode.Imesh.Types.{Hash, Txs, TxInfo, Spend, Transaction, references}
use aknode.Imesh.Confirm.Spending.{NoDoubleSpend}
use aknode.Imesh.Confirm.Writes.{IsRanked}
use aknode.Imesh.Rounds.Safety.{
  Round, round_of, play_round, play_round-IsRanked, play_round-NoDoubleSpend,
}
use aknode.Imesh.Tables.{Tables, Memory, has}
use aknode.Imesh.Store.{
  Aklib, Writes, refuses_earlier, refuses_last, takes, put_tx_sub, finish, store_tx, update_tx_no,
  new_info,
}
use aknode.Imesh.Store.Growing.{put_tx_sub-IsRanked, put_tx_sub-NoDoubleSpend}

pub data Event : Type 0 where
  arrival : ℕ → Transaction → Event
  consensus : Round → Event

module _ (lib : Aklib) (serialize : Spend → ℕ) (fuel : ℕ) where
  -- A transaction that is stored already is not stored again, as `CheckAddTx` has it.
  unfoldable pub happen : Event → Tables × Memory → Tables × Memory
  unfolding has play_round
  happen (arrival now tr) s =
      let r = put_tx_sub lib now tr s.0 s.1 in if has s.0.txs tr.hash then s else (r.1, r.2)
  happen (consensus r) s = (record s.0 { txs = play_round serialize fuel s.0.txs r }, s.1)

  unfoldable pub history : List Event → Tables × Memory → Tables × Memory
  unfolding happen
  history [] s = s
  history (e ∷ es) s = history es (happen e s)

-- References have smaller ranks; the round is not StatusPending.
abbrev pub Sensible : (Hash → ℕ) → Event → Type 0
Sensible rank (arrival now tr) = All (λ p. rank p < rank tr.hash) (references tr.body)
Sensible rank (consensus r) = round_of r ≢ 0

has-none : (txs : Txs) (h : Hash) → has txs h ≡ false → txs h ≡ none
unfolding has
has-none txs h e = elim (Option-cases (txs h)) [
  | inl gone ↦ gone
  | inr (ti, there) ↦ cc (rw (there, has) at e)
]

abbrev pub IsSafe : (Hash → ℕ) → Txs → Type 0
IsSafe rank txs = IsRanked rank txs × NoDoubleSpend txs

finish_cases :
    (w : Writes) (e : Hash × TxInfo) (r : Result Tables) (t : Tables) (m : Memory)
    → ((finish w e r t m).0 ≡ ok tt) ⊎ ((finish w e r t m).1 ≡ t)
unfolding finish
finish_cases refuses_earlier e r t m = inr refl
finish_cases refuses_last e (err x) t m = inr refl
finish_cases refuses_last e (ok t') t m = inr refl
finish_cases takes e (err x) t m = inr refl
finish_cases takes e (ok t') t m = inl refl

-- A call that fails leaves the tables as they were.
put_tx_sub_cases :
    (lib : Aklib) (now : ℕ) (tr : Transaction) (t : Tables) (m : Memory)
    → ((put_tx_sub lib now tr t m).0 ≡ ok tt) ⊎ ((put_tx_sub lib now tr t m).1 ≡ t)
unfolding put_tx_sub
put_tx_sub_cases lib now tr t m =
    let top = (update_tx_no m).tx_no in
    finish_cases (lib.writes now tr) (tr.hash, new_info now top tr.body) (store_tx lib now top tr t)
      t (update_tx_no m)

put_tx_sub-IsSafe :
    (lib : Aklib) (rank : Hash → ℕ) (now : ℕ) (tr : Transaction) (t : Tables) (m : Memory)
    → t.txs tr.hash ≡ none
    → All (λ p. rank p < rank tr.hash) (references tr.body)
    → IsSafe rank t.txs
    → IsSafe rank (put_tx_sub lib now tr t m).1.txs
put_tx_sub-IsSafe lib rank now tr t m fresh below safe = elim (put_tx_sub_cases lib now tr t m) [
  | inl stored ↦ (
    put_tx_sub-IsRanked lib now tr t m stored rank safe.0 below,
    put_tx_sub-NoDoubleSpend lib now tr t m stored fresh safe.1,
  )
  | inr same ↦ subst (λ (u : Tables). IsSafe rank u.txs) (sym same) safe
]

module _ (lib : Aklib) (rank : Hash → ℕ) (serialize : Spend → ℕ) (fuel : ℕ) where
  happen-IsSafe :
      (e : Event) (s : Tables × Memory)
      → Sensible rank e
      → IsSafe rank s.0.txs
      → IsSafe rank (happen lib serialize fuel e s).0.txs
  unfolding happen
  happen-IsSafe (arrival now tr) s below safe = elim (Bool-cases (has s.0.txs tr.hash)) [
    | inl there ↦ rw there safe
    | inr new ↦
        rw new (put_tx_sub-IsSafe lib rank now tr s.0 s.1 (has-none s.0.txs tr.hash new) below safe)
  ]
  happen-IsSafe (consensus r) s ne safe = (
    play_round-IsRanked rank serialize fuel s.0.txs r safe.0,
    play_round-NoDoubleSpend rank serialize fuel s.0.txs r safe.0 ne safe.1,
  )

  history-IsSafe :
      (es : List Event) (s : Tables × Memory)
      → All (Sensible rank) es
      → IsSafe rank s.0.txs
      → IsSafe rank (history lib serialize fuel es s).0.txs
  unfolding history
  history-IsSafe [] s fine safe = safe
  history-IsSafe (e ∷ es) s fine safe =
      history-IsSafe es (happen lib serialize fuel e s) fine.1 (happen-IsSafe e s fine.0 safe)

  -- From a ledger in which references have smaller ranks and no output is spent twice, any
  -- sequence of transactions that arrive and are stored if they are not yet there, with
  -- references of smaller ranks, and of confirmations and reversals in rounds that are not
  -- StatusPending, failing ones included, leads to a ledger in which every output that an
  -- accepted transaction spends is flagged as spent, and no two accepted transactions spend one
  -- output.
  pub history-NoDoubleSpend :
      (es : List Event) (s : Tables × Memory)
      → IsRanked rank s.0.txs
      → NoDoubleSpend s.0.txs
      → All (Sensible rank) es
      → NoDoubleSpend (history lib serialize fuel es s).0.txs
  history-NoDoubleSpend es s ranked inv fine = (history-IsSafe es s fine (ranked, inv)).1
