-- ===== src/Imesh/Store/Latest.antt =====
-- The latest transactions are the last five that got as far as the list.
use mathlib.Core.List.{append-nil, append_assoc}
use aknode.Base.{
  ℕ, zero, suc, ◌+◌, ◌-◌, ◌%◌, ◌^◌, ◌≤◌, leb, List, [], ◌∷◌, ◌++◌, length, drop, length-append,
  Result, ok, err, ◌≡◌, refl, sym, ap, ◌∙◌, arith, Bool-cases, inl, inr,
}
use aknode.Imesh.Types.{Hash, TxInfo, Transaction}
use aknode.Imesh.Tables.{Tables, Memory}
use aknode.Imesh.Store.{
  Aklib, Writes, refuses_earlier, refuses_last, takes, new_info, add_latest, put_tx_sub,
  update_tx_no, finish, store_tx,
}

module _ {A : Type 0} where
  abbrev pub last_five : List A → List A
  last_five xs = drop (length xs - 5) xs

  drop-append : (n : ℕ) (xs ys : List A) → n ≤ length xs → drop n xs ++ ys ≡ drop n (xs ++ ys)
  drop-append zero xs ys le = refl
  drop-append (suc n) [] ys le = absurd (omega arith)
  drop-append (suc n) (x ∷ xs) ys le = drop-append n xs ys (omega arith)

  drop-nil : (n : ℕ) → drop {A = A} n [] ≡ []
  drop-nil zero = refl
  drop-nil (suc n) = refl

  drop-drop : (m n : ℕ) (xs : List A) → drop m (drop n xs) ≡ drop (n + m) xs
  drop-drop m zero xs = ap (λ k. drop k xs) (omega arith)
  drop-drop m (suc n) [] = drop-nil m ∙ sym (drop-nil (suc n + m))
  drop-drop m (suc n) (x ∷ xs) =
      let one_off : suc n + m ≡ suc (n + m) = omega arith in rw one_off (drop-drop m n xs)

  length-drop : (n : ℕ) (xs : List A) → length (drop n xs) ≡ length xs - n
  length-drop zero xs = omega arith
  length-drop (suc n) [] = omega arith
  length-drop (suc n) (x ∷ xs) = omega (arith, length-drop n xs)

  last_five-append : (xs ys : List A) → last_five (last_five xs ++ ys) ≡ last_five (xs ++ ys)
  last_five-append xs ys =
      let n = length xs - 5 in
      rw (drop-append n xs ys (omega arith), drop-drop)
        (ap (λ k. drop k (xs ++ ys)) (omega (arith, length-drop n (xs ++ ys), length-append xs ys)))

  last_five-short : (xs : List A) → length xs ≤ 5 → last_five xs ≡ xs
  last_five-short xs le =
      let none_more : length xs - 5 ≡ 0 = omega arith in ap (λ k. drop k xs) none_more

short : {A : Type 0} (xs : List A) → length (last_five xs) ≤ 5
short xs = omega (arith, length-drop (length xs - 5) xs)

latest-add_latest :
    (e : Hash × TxInfo) (m : Memory)
    → length m.latest_txs ≤ 5
    → (add_latest e m).latest_txs ≡ last_five (m.latest_txs ++ e ∷ [])
unfolding add_latest
latest-add_latest e m le = elim (Bool-cases (leb 5 (length m.latest_txs))) [
  | inl full ↦
      let five : length (m.latest_txs ++ e ∷ []) - 5 ≡ 1 =
        ground (arith, full, length-append m.latest_txs (e ∷ [])) in
      rw (full, five) (drop-append 1 m.latest_txs (e ∷ []) (ground (arith, full)))
  | inr room ↦ rw room (
      sym (
        last_five-short (m.latest_txs ++ e ∷ [])
          (ground (arith, room, length-append m.latest_txs (e ∷ [])))))
]

-- The records that one call adds to the latest ones: its own, unless a lookup failed or the
-- database refused a write before.
abbrev pub reached : Writes → Result Tables → Hash × TxInfo → List (Hash × TxInfo)
reached refuses_earlier r e = []
reached refuses_last (ok _) e = e ∷ []
reached takes (ok _) e = e ∷ []
reached refuses_last (err _) e = []
reached takes (err _) e = []

same_five : (m : Memory) → length m.latest_txs ≤ 5 → m.latest_txs ≡ last_five (m.latest_txs ++ [])
same_five m le =
    sym (last_five-short m.latest_txs le) ∙ ap last_five (sym (append-nil m.latest_txs))

latest-finish :
    (w : Writes) (e : Hash × TxInfo) (r : Result Tables) (t : Tables) (m : Memory)
    → length m.latest_txs ≤ 5
    → (finish w e r t m).2.latest_txs ≡ last_five (m.latest_txs ++ reached w r e)
unfolding finish
latest-finish refuses_earlier e r t m le = same_five m le
latest-finish refuses_last e (err x) t m le = same_five m le
latest-finish refuses_last e (ok t') t m le = latest-add_latest e m le
latest-finish takes e (err x) t m le = same_five m le
latest-finish takes e (ok t') t m le = latest-add_latest e m le

module _ (lib : Aklib) where
  -- The state after the calls of `putTxSub` for a list of transactions with their times of arrival,
  -- failing ones included.
  unfoldable pub arrive : List (ℕ × Transaction) → Tables → Memory → Tables × Memory
  arrive [] t m = (t, m)
  arrive ((now, tr) ∷ more) t m = let r = put_tx_sub lib now tr t m in arrive more r.1 r.2

  -- The records of the calls that got as far as the list, in order, with the numbers that they
  -- drew, whether they were stored or not.
  unfoldable pub listed : List (ℕ × Transaction) → Tables → Memory → List (Hash × TxInfo)
  listed [] t m = []
  listed ((now, tr) ∷ more) t m =
      let r = put_tx_sub lib now tr t m in
      let no = (update_tx_no m).tx_no in
      reached (lib.writes now tr) (store_tx lib now no tr t) (tr.hash, new_info now no tr.body)
      ++ listed more r.1 r.2

  latest-put_tx_sub :
      (now : ℕ) (tr : Transaction) (t : Tables) (m : Memory)
      → length m.latest_txs ≤ 5
      → (put_tx_sub lib now tr t m).2.latest_txs
        ≡ last_five (
            m.latest_txs
            ++ reached
                (lib.writes now tr)
                (store_tx lib now (update_tx_no m).tx_no tr t)
                (tr.hash, new_info now (update_tx_no m).tx_no tr.body))
  unfolding put_tx_sub update_tx_no
  latest-put_tx_sub now tr t m le =
      let top = (m.tx_no + 1) % 2 ^ 64 in
      latest-finish (lib.writes now tr) (tr.hash, new_info now top tr.body)
        (store_tx lib now top tr t) t (record m { tx_no = top }) le

  -- If at most five latest transactions are kept before, then after any sequence of calls of
  -- putTxSub, failing ones included, the latest transactions are the last five of those kept
  -- before and those of the calls whose lookups succeeded and of which the database refused no
  -- write before the last one, in the order of the calls; a call of which the database refuses
  -- the last write or the commit counts too.
  pub latest-arrive :
      (as' : List (ℕ × Transaction)) (t : Tables) (m : Memory)
      → length m.latest_txs ≤ 5
      → (arrive as' t m).1.latest_txs ≡ last_five (m.latest_txs ++ listed as' t m)
  unfolding arrive listed
  latest-arrive [] t m le = same_five m le
  latest-arrive ((now, tr) ∷ more) t m le =
      let r = put_tx_sub lib now tr t m in
      let no = (update_tx_no m).tx_no in
      let new =
        reached (lib.writes now tr) (store_tx lib now no tr t) (tr.hash, new_info now no tr.body) in
      let step = latest-put_tx_sub now tr t m le in
      latest-arrive more r.1 r.2 (rw step (short (m.latest_txs ++ new)))
      ∙ ap (λ (l : List (Hash × TxInfo)). last_five (l ++ listed more r.1 r.2)) step
      ∙ last_five-append (m.latest_txs ++ new) (listed more r.1 r.2)
      ∙ ap last_five (append_assoc m.latest_txs new (listed more r.1 r.2))
