-- ===== src/Imesh/Resolve/Adding.antt =====
-- Adding a transaction to the ledger or to the minable ones takes nothing out of the ledger.
use aknode.Base.{
  ℕ, ◌==◌, ==_refl, Bool, true, false, ◌||◌, Option, none, some, List, [], ◌∷◌, Result, ok, err,
  >>=-eq-ok, ok-injective, ◌≡◌, refl, sym, ap, subst, ◌∙◌, arith, Bool-cases, Option-cases, inl,
  inr,
}
use aknode.Imesh.Types.{
  Hash, Header, header_tx_reward_fee, header_tx_reward_ticket, Txs, TxInfo, Spend, Transaction,
  Body, put, status_at, or_missing, or_panic,
}
use aknode.Imesh.Confirm.Marks.{Verdict}
use aknode.Imesh.Tables.{
  TxType, type_normal, type_reward_fee, type_reward_ticket, type_unknown, Tables, Memory, has,
  tx_type_to_db_header,
}
use aknode.Imesh.Minable.{claim_output, claim_outputs, put_minable, put_minable_tx, displace}
use aknode.Imesh.Store.{Aklib, put_tx, put_tx_sub, update_tx_no, new_info}
use aknode.Imesh.Store.Kept.{Frame, core_of, txs-set_table, displace-Quiet}
use aknode.Imesh.Store.Referred.{put_tx_sub-Stored}
use aknode.Leaves.{Leaves, check_add, check_add_end}
use aknode.Leaves
use aknode.Imesh.Resolve.{Finder, Outside, add_normal, add_resolved, with_tables}
use aknode.Imesh.Resolve.Grows.{◌⇒◌, ⇒_refl, ⇒-trans, Grows, Grows-refl}

-- Nothing that is stored in `a` is missing in `b`.
abbrev pub Holds : Txs → Txs → Type 0
Holds a b = (k : Hash) → has a k ⇒ has b k

Holds-refl : (a : Txs) → Holds a a
Holds-refl a k = ⇒_refl (has a k)

Holds-trans : (a b c : Txs) → Holds a b → Holds b c → Holds a c
Holds-trans a b c p q k = ⇒-trans (has a k) (has b k) (has c k) (p k) (q k)

is_some : Option (Verdict × ℕ) → Bool
is_some none = false
is_some (some c) = true

has-core : (a : Txs) (k : Hash) → has a k ≡ is_some (core_of (a k))
unfolding has is_some
has-core a k = elim (Option-cases (a k)) [
  | inl gone ↦ rw (gone, has) refl
  | inr (ti, there) ↦ rw (there, has) refl
]

pub has-Frame : (a b : Txs) → Frame a b → (k : Hash) → has b k ≡ has a k
has-Frame a b f k = has-core b k ∙ ap is_some (f.core k) ∙ sym (has-core a k)

Frame-Holds : (a b : Txs) → Frame a b → Holds a b
Frame-Holds a b f k = rw (has-Frame a b f k) (⇒_refl (has a k))

has-put : (a : Txs) (h k : Hash) (ti : TxInfo) → has (put a h ti) k ≡ (h == k || has a k)
unfolding has
has-put a h k ti = elim (Bool-cases (h == k)) [
  | inl same ↦ rw (same, has) refl
  | inr other ↦ rw (other, has) refl
]

put-Holds : (a : Txs) (h : Hash) (ti : TxInfo) → Holds a (put a h ti)
put-Holds a h ti k = rw (has-put a h k ti) (ground arith)

module _ (input_hashes : Body → List Spend) where
  claim_output-Holds :
      (h : Hash) (header : Header) (s : Spend) (t t' : Tables)
      → claim_output input_hashes h header s t ≡ ok t'
      → Holds t.txs t'.txs
  unfolding claim_output
  claim_output-Holds h header s t t' e =
      let (ti, _, e1) = >>=-eq-ok (or_missing (t.txs s.previous_tx)) _ e in
      let (st, _, e2) = >>=-eq-ok (or_panic (status_at ti s)) _ e1 in
      let (t1, run, e3) = >>=-eq-ok (displace input_hashes st.used_by_minable t) _ e2 in
      subst (λ (u : Tables). Holds t.txs u.txs) (ok-injective e3)
        (Holds-trans t.txs t1.txs _
          (Frame-Holds t.txs t1.txs (displace-Quiet input_hashes st.used_by_minable t t1 run).frame)
          (put-Holds t1.txs s.previous_tx _))

  claim_outputs-Holds :
      (h : Hash) (header : Header) (ss : List Spend) (t t' : Tables)
      → claim_outputs input_hashes h header ss t ≡ ok t'
      → Holds t.txs t'.txs
  unfolding claim_outputs
  claim_outputs-Holds h header [] t t' e =
      subst (λ (u : Tables). Holds t.txs u.txs) (ok-injective e) (Holds-refl t.txs)
  claim_outputs-Holds h header (s ∷ ss) t t' e =
      let (t1, e1, e2) = >>=-eq-ok (claim_output input_hashes h header s t) _ e in
      Holds-trans t.txs t1.txs t'.txs (claim_output-Holds h header s t t1 e1)
        (claim_outputs-Holds h header ss t1 t' e2)

  put_minable-Holds :
      (tr : Transaction) (header : Header) (t t' : Tables)
      → put_minable input_hashes tr header t ≡ ok t'
      → Holds t.txs t'.txs
  unfolding put_minable
  put_minable-Holds tr header t t' e =
      let (t1, e1, e2) =
        >>=-eq-ok (claim_outputs input_hashes tr.hash header (input_hashes tr.body) t) _ e in
      subst (λ (u : Tables). Holds t.txs u.txs) (ok-injective e2)
        (rw (txs-set_table header _ t1)
          (claim_outputs-Holds tr.hash header (input_hashes tr.body) t t1 e1))

  pub put_minable_tx-Holds :
      (check : Transaction → TxType → Bool) (tr : Transaction) (kind : TxType) (t t' : Tables)
      → put_minable_tx input_hashes check tr kind t ≡ ok t'
      → Holds t.txs t'.txs
  unfolding put_minable_tx tx_type_to_db_header
  put_minable_tx-Holds check tr type_normal t t' e = cc
  put_minable_tx-Holds check tr (type_unknown k) t t' e = cc
  put_minable_tx-Holds check tr type_reward_fee t t' e =
      elim (Bool-cases (check tr type_reward_fee)) [
        | inl fine ↦ put_minable-Holds tr header_tx_reward_fee t t' (rw fine at e)
        | inr bad ↦ cc (rw bad at e)
      ]
  put_minable_tx-Holds check tr type_reward_ticket t t' e =
      elim (Bool-cases (check tr type_reward_ticket)) [
        | inl fine ↦ put_minable-Holds tr header_tx_reward_ticket t t' (rw fine at e)
        | inr bad ↦ cc (rw bad at e)
      ]

module _ (lib : Aklib) (now : ℕ) (tr : Transaction) (t : Tables) (m : Memory) where
  has-put_tx_sub :
      (put_tx_sub lib now tr t m).0 ≡ ok tt
      → (k : Hash) → has (put_tx_sub lib now tr t m).1.txs k ≡ (tr.hash == k || has t.txs k)
  has-put_tx_sub stored k =
      has-Frame _ _ (put_tx_sub-Stored lib now tr t m stored).frame k
      ∙ has-put t.txs tr.hash k (new_info now (update_tx_no m).tx_no tr.body)

  has-put_tx :
      (check : Transaction → TxType → Bool)
      → (put_tx lib check now tr t m).0 ≡ ok tt
      → (k : Hash) → has (put_tx lib check now tr t m).1.txs k ≡ (tr.hash == k || has t.txs k)
  unfolding put_tx
  has-put_tx check stored k = elim (Bool-cases (check tr type_normal)) [
    | inl fine ↦ rw fine (has-put_tx_sub (rw fine at stored) k)
    | inr bad ↦ cc (rw bad at stored)
  ]

check_add-result :
    (nil_array : Hash) (r : Result (Unit {0})) (trs : List Transaction) (l : Leaves)
    → (check_add nil_array true (some r) trs l).0 ≡ r
unfolding check_add Leaves.put check_add_end
check_add-result nil_array r trs l = refl

-- `h` is in the ledger if its transaction is a normal one.
abbrev pub lands : TxType → Txs → Hash → Bool
lands type_normal txs h = has txs h
lands _ txs h = true

with_tables-Grows :
    (r : Result Tables) (f f' : Finder)
    → with_tables f r ≡ (ok tt, f')
    → ((t : Tables) → r ≡ ok t → Holds f.tables.txs t.txs)
    → Grows f f' × (f'.entries ≡ f.entries)
with_tables-Grows (err x) f f' e holds = cc (ap (λ (p : Result (Unit {0}) × Finder). p.0) e)
with_tables-Grows (ok t) f f' e holds =
    subst (λ (g : Finder). Grows f g × (g.entries ≡ f.entries))
      (ap (λ (p : Result (Unit {0}) × Finder). p.1) e)
      (
        record {
          entry = (Grows-refl f).entry;
          stored = holds t refl;
          waiting = λ k. inr refl;
          apart = λ d. d;
        },
        refl,
      )

module _ (out : Outside) where
  add_normal-Grows :
      (tr : Transaction) (f f' : Finder)
      → add_normal out tr f ≡ (ok tt, f')
      → (Grows f f' × (f'.entries ≡ f.entries)) × (has f'.tables.txs tr.hash ≡ true)
  unfolding add_normal
  add_normal-Grows tr f f' e =
      let r = put_tx out.lib out.check out.now tr f.tables f.memory in
      let stored : r.0 ≡ ok tt =
        sym (check_add-result out.nil_array r.0 (tr ∷ []) f.leaves)
        ∙ ap (λ (p : Result (Unit {0}) × Finder). p.0) e in
      let same : record f {
        tables = r.1;
        memory = r.2;
        leaves = (check_add out.nil_array true (some r.0) (tr ∷ []) f.leaves).1;
      }
          ≡ f' =
        ap (λ (p : Result (Unit {0}) × Finder). p.1) e in
      let held = has-put_tx out.lib out.now tr f.tables f.memory out.check stored in
      subst
        (λ (g : Finder). (Grows f g × (g.entries ≡ f.entries)) × (has g.tables.txs tr.hash ≡ true))
        same
        (
          (
            record {
              entry = (Grows-refl f).entry;
              stored = λ k. rw (held k) (ground arith);
              waiting = λ k. inr refl;
              apart = λ d. d;
            },
            refl,
          ),
          held tr.hash ∙ rw (==_refl tr.hash) refl,
        )

  pub add_resolved-Grows :
      (kind : TxType) (tr : Transaction) (f f' : Finder)
      → add_resolved out kind tr f ≡ (ok tt, f')
      → (Grows f f' × (f'.entries ≡ f.entries)) × (lands kind f'.tables.txs tr.hash ≡ true)
  unfolding add_resolved
  add_resolved-Grows type_normal tr f f' e = add_normal-Grows tr f f' e
  add_resolved-Grows type_reward_fee tr f f' e = (
    with_tables-Grows _ f f' e
        (λ t. put_minable_tx-Holds out.lib.input_hashes out.check tr type_reward_fee f.tables t),
    refl,
  )
  add_resolved-Grows type_reward_ticket tr f f' e = (
    with_tables-Grows _ f f' e
        (λ t. put_minable_tx-Holds out.lib.input_hashes out.check tr type_reward_ticket f.tables t),
    refl,
  )
  add_resolved-Grows (type_unknown k) tr f f' e = (
    with_tables-Grows _ f f' e
        (λ t. put_minable_tx-Holds out.lib.input_hashes out.check tr (type_unknown k) f.tables t),
    refl,
  )
