-- ===== src/Imesh/Store/Reading.antt =====
-- What is read back of a transaction that was stored, and of those that were there before.
use aknode.Base.{
  ℕ, ◌+◌, ◌%◌, ◌^◌, ◌<◌, ◌≤◌, ◌≢◌, ◌==◌, ==_refl, if◌then◌else◌, false, Option, none, some, Result,
  ok, err, ◌≡◌, refl, sym, ap, subst, ◌∙◌, arith, Bool-cases, Option-cases, inl, inr, ◌>>=◌,
}
use aknode.Imesh.Types.{Hash, TxInfo, Transaction, put, or_missing}
use aknode.Imesh.Confirm.Marks.{Verdict}
use aknode.Imesh.Tables.{Tables, Memory, sig_key, get_tx}
use aknode.Imesh.Store.{
  Aklib, Writes, refuses_earlier, refuses_last, takes, new_info, put_tx_sub, update_tx_no, finish,
  store_tx, add_latest,
}
use aknode.Imesh.Store.Kept.{core_of}
use aknode.Imesh.Store.Referred.{store_tx-Stored, put_tx_sub-Stored}

-- What `GetTx` gives, read from the verdict and the number of a record.
abbrev read_core : (ℕ → Option ℕ) → Hash → Option (Verdict × ℕ) → Result Transaction
read_core sigs h none = or_missing none
read_core sigs h (some c) = or_missing (sigs (c.1 % 2 ^ 40)) >>= λ sig.
    ok (record { hash = h; body = c.0.body; signatures = sig })

get_tx-core : (t : Tables) (h : Hash) → get_tx t h ≡ read_core t.sigs h (core_of (t.txs h))
unfolding get_tx sig_key
get_tx-core t h = elim (Option-cases (t.txs h)) [
  | inl gone ↦ rw gone refl
  | inr (ti, there) ↦ rw there refl
]

-- No stored transaction has a number above the last one drawn.
abbrev pub NumberedBy : ℕ → Option (Verdict × ℕ) → Type 0
NumberedBy top none = Unit
NumberedBy top (some c) = c.1 ≤ top

abbrev pub IsNumbered : Tables → Memory → Type 0
IsNumbered t m = (k : Hash) → NumberedBy m.tx_no (core_of (t.txs k))

NumberedBy-mono :
    (top more : ℕ) (o : Option (Verdict × ℕ)) → top ≤ more → NumberedBy top o → NumberedBy more o
NumberedBy-mono top more none le n = tt
NumberedBy-mono top more (some c) le n = omega (arith, le, n)

-- An entry for another number does not change what is read.
read_core_other :
    (sigs sigs' : ℕ → Option ℕ) (k : Hash) (o : Option (Verdict × ℕ)) (top more : ℕ) (sig : ℕ)
    → ((j : ℕ) → sigs' j ≡ (if more % 2 ^ 40 == j then some sig else sigs j))
    → NumberedBy top o
    → top < more
    → more < 2 ^ 40
    → read_core sigs' k o ≡ read_core sigs k o
read_core_other sigs sigs' k none top more sig e n lt le = refl
read_core_other sigs sigs' k (some c) top more sig e n lt le =
    let other : (more % 2 ^ 40 == c.1 % 2 ^ 40) ≡ false = ground (arith, lt, le, n) in
    rw (e (c.1 % 2 ^ 40), other) refl

module _ (lib : Aklib) (now : ℕ) (tr : Transaction) (t : Tables) (m : Memory) where
  core-put_tx_sub :
      (k : Hash)
      → (tr.hash == k) ≡ false
      → (put_tx_sub lib now tr t m).0 ≡ ok tt
      → core_of ((put_tx_sub lib now tr t m).1.txs k) ≡ core_of (t.txs k)
  core-put_tx_sub k other stored =
      rw other at ((put_tx_sub-Stored lib now tr t m stored).frame.core k)

  -- If no stored transaction has a number above the last one drawn, and the next number is below
  -- 2^40, then a transaction that putTxSub stores changes nothing of what GetTx gives for any
  -- other hash.
  pub get_tx-put_tx_sub_other :
      (k : Hash)
      → tr.hash ≢ k
      → IsNumbered t m
      → m.tx_no + 1 < 2 ^ 40
      → (put_tx_sub lib now tr t m).0 ≡ ok tt
      → get_tx (put_tx_sub lib now tr t m).1 k ≡ get_tx t k
  unfolding sig_key update_tx_no
  get_tx-put_tx_sub_other k ne numbered small stored =
      let t' = (put_tx_sub lib now tr t m).1 in
      let other : (tr.hash == k) ≡ false = ground (arith, ne) in
      let s = put_tx_sub-Stored lib now tr t m stored in
      get_tx-core t' k
      ∙ ap (read_core t'.sigs k) (core-put_tx_sub k other stored)
      ∙ read_core_other t.sigs t'.sigs k (core_of (t.txs k)) m.tx_no ((m.tx_no + 1) % 2 ^ 64)
          tr.signatures s.sigs (numbered k) (omega (arith, small)) (omega (arith, small))
      ∙ sym (get_tx-core t k)

own :
    (sig : ℕ) (sigs sigs' : ℕ → Option ℕ) (j : ℕ)
    → sigs' j ≡ (if j == j then some sig else sigs j)
    → sigs' j ≡ some sig
own sig sigs sigs' j e = e ∙ rw (==_refl j) refl

module _ (lib : Aklib) (now : ℕ) (tr : Transaction) (t : Tables) (m : Memory)
    (stored : (put_tx_sub lib now tr t m).0 ≡ ok tt) where
  -- After putTxSub has stored a transaction, GetTx with its hash gives that transaction, with its
  -- body and its signatures.
  pub get_tx-put_tx_sub : get_tx (put_tx_sub lib now tr t m).1 tr.hash ≡ ok tr
  unfolding new_info sig_key
  get_tx-put_tx_sub =
      let t' = (put_tx_sub lib now tr t m).1 in
      let s = put_tx_sub-Stored lib now tr t m stored in
      let top = (update_tx_no m).tx_no in
      let core = s.frame.core tr.hash in
      get_tx-core t' tr.hash
      ∙ ap (read_core t'.sigs tr.hash) core
      ∙ rw (==_refl tr.hash) (
          ap
            (λ (o : Option ℕ). or_missing o >>= λ sig.
              ok (record { hash = tr.hash; body = tr.body; signatures = sig }))
            (own tr.signatures t.sigs t'.sigs (sig_key top) (s.sigs (sig_key top))))

finish-IsNumbered :
    (w : Writes) (entry : Hash × TxInfo) (r : Result Tables) (t : Tables) (m : Memory)
    → IsNumbered t m
    → ((t' : Tables) → r ≡ ok t' → IsNumbered t' m)
    → IsNumbered (finish w entry r t m).1 (finish w entry r t m).2
unfolding finish add_latest
finish-IsNumbered refuses_earlier entry r t m old new = old
finish-IsNumbered refuses_last entry (err x) t m old new = old
finish-IsNumbered refuses_last entry (ok t') t m old new = old
finish-IsNumbered takes entry (err x) t m old new = old
finish-IsNumbered takes entry (ok t') t m old new = new t' refl

-- If no stored transaction has a number above the last one drawn, and the 64-bit counter does not
-- wrap, this holds after putTxSub, also when it fails.
pub put_tx_sub-IsNumbered :
    (lib : Aklib) (now : ℕ) (tr : Transaction) (t : Tables) (m : Memory)
    → IsNumbered t m
    → m.tx_no + 1 < 2 ^ 64
    → IsNumbered (put_tx_sub lib now tr t m).1 (put_tx_sub lib now tr t m).2
unfolding put_tx_sub update_tx_no
put_tx_sub-IsNumbered lib now tr t m numbered small =
    let top = (m.tx_no + 1) % 2 ^ 64 in
    let later : m.tx_no ≤ (m.tx_no + 1) % 2 ^ 64 = omega (arith, small) in
    finish-IsNumbered (lib.writes now tr) (tr.hash, new_info now top tr.body)
      (store_tx lib now top tr t) t (record m { tx_no = top })
      (λ k. NumberedBy-mono m.tx_no top (core_of (t.txs k)) later (numbered k))
      (λ t' run k.
        subst (NumberedBy top) (sym ((store_tx-Stored lib now top tr t t' run).frame.core k))
          (at_put top k later))
  where
    at_put :
        (top : ℕ) (k : Hash)
        → m.tx_no ≤ top
        → NumberedBy top (core_of (put t.txs tr.hash (new_info now top tr.body) k))
    at_put top k later = elim (Bool-cases (tr.hash == k)) [
      | inl same ↦ rw (same, new_info) (omega arith)
      | inr other ↦ rw other (NumberedBy-mono m.tx_no top (core_of (t.txs k)) later (numbered k))
    ]
