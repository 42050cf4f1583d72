-- ===== src/Imesh/Conflict/Sound.antt =====
-- `checkConflict` names a loser only where a pending transaction with a smaller hash spends an output
-- with the same key.
use aknode.Base.{
  ℕ, zero, suc, ◌<◌, ◌==◌, ==_iff, ltb, true, ◌||◌, List, [], ◌∷◌, Option, none, some, Dict,
  Distinct, lookup, lookup-insert, insert-Distinct, contains, Result, ok, ◌≡◌, refl, sym, ◌∙◌,
  arith, >>=-eq-ok, ok-injective, Option-cases, Bool-cases, ◌⊎◌, inl, inr, In, subst, All, All-of,
}
use aknode.Imesh.Types.{
  Hash, Txs, TxInfo, Spend, status_pending, references, spends, or_missing, or_missing-eq-ok,
}
use aknode.Imesh.Conflict.{
  Claims, Checked, merge_claim, merge_refs, merge, nothing, gather, claim, claim_all,
  check_conflict,
}
use aknode.Imesh.Conflict.Merge.{least, loser, loses, lookup-merge, contains-merge}

module _ (serialize : Spend → ℕ) (db : Txs) where
  -- The pending transaction `x` spends an output with the key `k`.
  pub record Spender (k : ℕ) (x : Hash) : Type 0 where
    pub ti : TxInfo
    pub found : db x ≡ some ti
    pub pending : ti.stat_no ≡ 0
    pub own : Spend
    pub spent : In own (spends ti.body)
    pub key : serialize own ≡ k

  -- `x` lost a key to a transaction with a smaller hash.
  pub record Rival (x : Hash) : Type 0 where
    pub key : ℕ
    pub winner : Hash
    pub smaller : winner < x
    pub theirs : Spender key winner
    pub ours : Spender key x

  pub record Sound (c : Claims) : Type 0 where
    pub distinct : Distinct c.base
    pub claims : (k : ℕ) (x : Hash) → lookup k c.base ≡ some x → Spender k x
    pub losers : (x : Hash) → contains c.conflicts x ≡ true → Rival x

  -- Where a loser comes from.
  loses_inv :
      (refs base : Dict Hash) (x : Hash)
      → Distinct refs
      → loses refs base x ≡ true
      → (k : ℕ) × (h : Hash) × (v : Hash) × (lookup k base ≡ some h)
        × (lookup k refs ≡ some v)
        × (loser (some h) v x ≡ true)
  unfolding loses lookup
  loses_inv [] base x d e = cc
  loses_inv ((j, v) ∷ refs) base x d e = elim (Bool-cases (loser (lookup j base) v x)) [
    | inl here ↦ elim (Option-cases (lookup j base)) [
      | inl absent ↦ cc (rw absent at here)
      | inr (h, at) ↦ (j, h, v, at, ground arith, rw at at here)
    ]
    | inr there ↦
        let (k, h, w, at, from, lost) = loses_inv refs base x d.1 (ground arith) in
        (k, h, w, at, ground (arith, d.0, ==_iff j k), lost)
  ]

  -- Two claims on one key make the larger a loser.
  Rival-of :
      (k : ℕ) (h v x : Hash) → Spender k h → Spender k v → loser (some h) v x ≡ true → Rival x
  Rival-of k h v x sh sv e = elim (Bool-cases (ltb v h)) [
    | inl below ↦
        let same : h ≡ x = ground arith in
        record {
          key = k;
          winner = v;
          smaller = ground arith;
          theirs = sv;
          ours = subst (Spender k) same sh;
        }
    | inr above ↦
        let same : v ≡ x = ground arith in
        record {
          key = k;
          winner = h;
          smaller = ground arith;
          theirs = sh;
          ours = subst (Spender k) same sv;
        }
  ]

  merge_claim-Distinct :
      (o : Option Hash) (k : ℕ) (v : Hash) (c : Claims)
      → Distinct c.base
      → Distinct (merge_claim o k v c).base
  unfolding merge_claim
  merge_claim-Distinct none k v c d = insert-Distinct k v c.base d
  merge_claim-Distinct (some h) k v c d =
      ground (arith, insert-Distinct k v c.base d, insert-Distinct k h c.base d)

  merge_refs-Distinct :
      (refs : Dict Hash) (c : Claims) → Distinct c.base → Distinct (merge_refs refs c).base
  unfolding merge_refs
  merge_refs-Distinct [] c d = d
  merge_refs-Distinct ((k, v) ∷ refs) c d =
      merge_refs-Distinct refs (merge_claim (lookup k c.base) k v c)
        (merge_claim-Distinct (lookup k c.base) k v c d)

  least_cases : (o p : Option Hash) (x : Hash) → least o p ≡ some x → (o ≡ some x) ⊎ (p ≡ some x)
  least_cases none p x e = inr e
  least_cases (some h) none x e = inl e
  least_cases (some h) (some v) x e = ground arith

  merge-Sound :
      (c found : Claims) → Sound c → Sound found → Sound (merge c found.base found.conflicts)
  unfolding merge
  merge-Sound c found sc sf = record {
    distinct = merge_refs-Distinct found.base _ sc.distinct;
    claims = λ k x e.
        elim (least_cases (lookup k c.base) (lookup k found.base) x
          (sym (lookup-merge k c found.base found.conflicts sf.distinct) ∙ e)) [
            | inl old ↦ sc.claims k x old
            | inr new ↦ sf.claims k x new
          ];
    losers = λ x e. losers x (sym (contains-merge x c found.base found.conflicts sf.distinct) ∙ e);
  }
    where
      fresh : (x : Hash) → loses found.base c.base x ≡ true → Rival x
      fresh x e =
          let (k, h, v, at, from, lost) = loses_inv found.base c.base x sf.distinct e in
          Rival-of k h v x (sc.claims k h at) (sf.claims k v from) lost

      losers :
          (x : Hash)
          → (contains c.conflicts x || contains found.conflicts x || loses found.base c.base x)
            ≡ true
          → Rival x
      losers x e = elim (Bool-cases (contains c.conflicts x)) [
        | inl old ↦ sc.losers x old
        | inr not_old ↦ elim (Bool-cases (contains found.conflicts x)) [
          | inl new ↦ sf.losers x new
          | inr not_new ↦ fresh x (rw (not_old, not_new) at e)
        ]
      ]

  Sound-nothing : Sound nothing
  unfolding lookup contains
  Sound-nothing = record { distinct = tt; claims = λ k x e. cc; losers = λ x e. cc }

  gather-Sound :
      (visit : Hash → List Hash → Result Checked)
      → ((p : Hash) (visited : List Hash) (out : Checked) → visit p visited ≡ ok out → Sound out.0)
      → (ps : List Hash) (c : Claims) (visited : List Hash) (out : Checked) → Sound c
      → gather visit ps c visited ≡ ok out
      → Sound out.0
  unfolding gather
  gather-Sound visit ih [] c visited out sc e =
      subst (λ (o : Checked). Sound o.0) (ok-injective e) sc
  gather-Sound visit ih (p ∷ ps) c visited out sc e =
      let ((found, visited1), first, rest) = >>=-eq-ok (visit p visited) _ e in
      gather-Sound visit ih ps (merge c found.base found.conflicts) visited1 out
        (merge-Sound c found sc (ih p visited (found, visited1) first)) rest

  claim-Sound :
      (h : Hash) (s : Spend) (c : Claims)
      → Spender (serialize s) h
      → Sound c
      → Sound (record c { base = claim serialize h s c.base })
  unfolding claim
  claim-Sound h s c own sc = elim (Option-cases (lookup (serialize s) c.base)) [
    | inl absent ↦
        rw (absent, claim)
          (record {
            distinct = insert-Distinct (serialize s) h c.base sc.distinct;
            claims = λ k x e. elim (Bool-cases (serialize s == k)) [
              | inl same ↦
                  let taken : some h ≡ some x = rw (lookup-insert, same) at e in
                  let here : h ≡ x = cc in
                  subst (Spender k) here
                    (subst (λ j. Spender j h) ((==_iff (serialize s) k).0 same) own)
              | inr other ↦ sc.claims k x (rw (lookup-insert, other) at e)
            ];
            losers = sc.losers;
          })
    | inr (h', taken) ↦ rw (taken, claim) sc
  ]

  claim_all-Sound :
      (h : Hash) (ss : List Spend) (c : Claims)
      → All (λ s. Spender (serialize s) h) ss
      → Sound c
      → Sound (record c { base = claim_all serialize h ss c.base })
  unfolding claim_all
  claim_all-Sound h [] c own sc = sc
  claim_all-Sound h (s ∷ ss) c own sc =
      claim_all-Sound h ss (record c { base = claim serialize h s c.base }) own.1
        (claim-Sound h s c own.0 sc)

  -- When checkConflict returns, each claim on a key is by a transaction that spends an output with
  -- that key, and each loser has a rival with a smaller hash for a key.
  pub check_conflict-Sound :
      (fuel : ℕ) (h : Hash) (visited : List Hash) (out : Checked)
      → check_conflict serialize fuel db h visited ≡ ok out
      → Sound out.0
  unfolding check_conflict
  check_conflict-Sound zero h visited out e = cc
  check_conflict-Sound (suc fuel) h visited out e = elim (Bool-cases (contains visited h)) [
    | inl seen ↦ subst (λ (o : Checked). Sound o.0) (ok-injective (rw seen at e)) Sound-nothing
    | inr new ↦
        let (ti, get, e1) = >>=-eq-ok (or_missing (db h)) _ (rw new at e) in
        elim (Bool-cases (ti.stat_no == status_pending)) [
          | inr settled ↦
              subst (λ (o : Checked). Sound o.0) (ok-injective (rw settled at e1)) Sound-nothing
          | inl pending ↦
              let ((c, visited1), gathered, e2) =
                >>=-eq-ok
                  (gather (check_conflict serialize fuel db) (references ti.body) nothing visited) _
                  (rw pending at e1) in
              subst (λ (o : Checked). Sound o.0) (ok-injective e2)
                (claim_all-Sound h (spends ti.body) c
                  (All-of (λ s. Spender (serialize s) h) (spends ti.body)
                    (λ s m. record {
                      ti = ti;
                      found = or_missing-eq-ok (db h) get;
                      pending = (==_iff ti.stat_no 0).0 pending;
                      own = s;
                      spent = m;
                      key = refl;
                    }))
                  (gather-Sound (check_conflict serialize fuel db) (check_conflict-Sound fuel)
                    (references ti.body) nothing visited (c, visited1) Sound-nothing gathered))
        ]
  ]
