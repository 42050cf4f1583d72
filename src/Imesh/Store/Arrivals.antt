-- ===== src/Imesh/Store/Arrivals.antt =====
-- Which transactions are stored after calls of putTxSub, some of which fail.
use aknode.Base.{
  ℕ, ◌==◌, if◌then◌else◌, Bool, true, false, ◌||◌, Option, none, some, List, [], ◌∷◌, ◌++◌,
  contains, contains-append, Result, ok, err, ◌≡◌, refl, sym, ap, ◌∙◌, arith, Error,
}
use aknode.Imesh.Types.{Hash, Txs, TxInfo, Transaction, put}
use aknode.Imesh.Tables.{Tables, Memory, has}
use aknode.Imesh.Store.{
  Aklib, Writes, refuses_earlier, refuses_last, takes, finish, new_info, put_tx_sub, store_tx,
  update_tx_no,
}
use aknode.Imesh.Store.Kept.{core_of}
use aknode.Imesh.Store.Referred.{put_tx_sub-Stored}
use aknode.Imesh.Store.Latest.{arrive}

-- The hash of a call that returned no error.
abbrev pub taken : Result (Unit {0}) → Hash → List Hash
taken (ok _) h = h ∷ []
taken (err _) h = []

finish-err :
    (w : Writes) (entry : Hash × TxInfo) (r : Result Tables) (t : Tables) (m : Memory) (x : Error)
    → (finish w entry r t m).0 ≡ err x
    → (finish w entry r t m).1 ≡ t
unfolding finish
finish-err refuses_earlier entry r t m x e = refl
finish-err refuses_last entry (err y) t m x e = refl
finish-err refuses_last entry (ok t') t m x e = refl
finish-err takes entry (err y) t m x e = refl
finish-err takes entry (ok t') t m x e = cc

abbrev present : {A : Type 0} → Option A → Bool
present none = false
present (some _) = true

has-core : (txs : Txs) (k : Hash) → has txs k ≡ present (core_of (txs k))
unfolding has
has-core txs k = of_entry (txs k)
  where
    of_entry : (o : Option TxInfo) → present o ≡ present (core_of o)
    of_entry none = refl
    of_entry (some ti) = refl

has-put : (txs : Txs) (h k : Hash) (ti : TxInfo) → has (put txs h ti) k ≡ (has txs k || h == k)
unfolding has
has-put txs h k ti = of_test (h == k) (txs k)
  where
    of_test : (b : Bool) (o : Option TxInfo) → present (if b then some ti else o) ≡ (present o || b)
    of_test true none = refl
    of_test true (some _) = refl
    of_test false none = refl
    of_test false (some _) = refl

module _ (lib : Aklib) where
  -- The transactions whose calls returned no error.
  unfoldable pub stored : List (ℕ × Transaction) → Tables → Memory → List Hash
  stored [] t m = []
  stored ((now, tr) ∷ more) t m =
      let r = put_tx_sub lib now tr t m in taken r.0 tr.hash ++ stored more r.1 r.2

  put_tx_sub-err :
      (now : ℕ) (tr : Transaction) (t : Tables) (m : Memory) (x : Error)
      → (put_tx_sub lib now tr t m).0 ≡ err x
      → (put_tx_sub lib now tr t m).1 ≡ t
  unfolding put_tx_sub
  put_tx_sub-err now tr t m x e =
      let no = (update_tx_no m).tx_no in
      finish-err (lib.writes now tr) (tr.hash, new_info now no tr.body) (store_tx lib now no tr t) t
        (update_tx_no m) x e

  has-put_tx_sub :
      (now : ℕ) (tr : Transaction) (t : Tables) (m : Memory) (k : Hash)
      → has (put_tx_sub lib now tr t m).1.txs k
        ≡ (has t.txs k || contains (taken (put_tx_sub lib now tr t m).0 tr.hash) k)
  unfolding contains
  has-put_tx_sub now tr t m k = of_result (put_tx_sub lib now tr t m).0 refl
    where
      of_result :
          (r : Result (Unit {0}))
          → (put_tx_sub lib now tr t m).0 ≡ r
          → has (put_tx_sub lib now tr t m).1.txs k ≡ (has t.txs k || contains (taken r tr.hash) k)
      of_result (err x) e =
          ap (λ (u : Tables). has u.txs k) (put_tx_sub-err now tr t m x e) ∙ ground arith
      of_result (ok tt) e =
          let s = put_tx_sub-Stored lib now tr t m e in
          let new = new_info now (update_tx_no m).tx_no tr.body in
          has-core (put_tx_sub lib now tr t m).1.txs k
          ∙ ap present (s.frame.core k)
          ∙ sym (has-core (put t.txs tr.hash new) k)
          ∙ has-put t.txs tr.hash k new
          ∙ ground arith

  -- After any sequence of calls of putTxSub, of which lookups may fail and the database may
  -- refuse writes or commits, the stored transactions are exactly those that were stored before
  -- and those of the calls that returned no error.
  pub has-arrive :
      (as' : List (ℕ × Transaction)) (t : Tables) (m : Memory) (k : Hash)
      → has (arrive lib as' t m).0.txs k ≡ (has t.txs k || contains (stored as' t m) k)
  unfolding arrive stored contains
  has-arrive [] t m k = ground arith
  has-arrive ((now, tr) ∷ more) t m k =
      let r = put_tx_sub lib now tr t m in
      has-arrive more r.1 r.2 k
      ∙ rw (has-put_tx_sub now tr t m k, contains-append k (taken r.0 tr.hash)) (ground arith)
