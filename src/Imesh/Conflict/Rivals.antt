-- ===== src/Imesh/Conflict/Rivals.antt =====
-- What the keys of `checkConflict` say of the outputs themselves.
use aknode.Base.{ℕ, ◌<◌, true, some, Distinct, lookup, contains, ok, ◌≡◌, sym, ◌∙◌, In, subst, List}
use aknode.Imesh.Types.{Hash, Txs, TxInfo, Spend, spends}
use aknode.Imesh.Conflict.{Claims, Checked, check_conflict}
use aknode.Imesh.Conflict.Sound.{Spender, Rival, check_conflict-Sound}

-- What `Serialize` of aklib promises of the outputs that stored transactions spend: two of them
-- have the same key only if they are the same.
pub record IsKeying (serialize : Spend → ℕ) (db : Txs) : Type 0 where
  pub apart :
      (x y : Hash) (ti tj : TxInfo) (s t : Spend)
      → db x ≡ some ti
      → db y ≡ some tj
      → In s (spends ti.body)
      → In t (spends tj.body)
      → serialize s ≡ serialize t
      → s ≡ t

-- The pending transaction `x` spends the output.
pub record Wants (db : Txs) (s : Spend) (x : Hash) : Type 0 where
  pub ti : TxInfo
  pub found : db x ≡ some ti
  pub pending : ti.stat_no ≡ 0
  pub spent : In s (spends ti.body)

-- `x` and a pending transaction with a smaller hash spend the same output.
pub record Beaten (db : Txs) (x : Hash) : Type 0 where
  pub output : Spend
  pub winner : Hash
  pub smaller : winner < x
  pub theirs : Wants db output winner
  pub ours : Wants db output x

-- A claim is by a pending transaction that spends the output with the claim's key.
pub record Claim (serialize : Spend → ℕ) (db : Txs) (k : ℕ) (x : Hash) : Type 0 where
  pub output : Spend
  pub key : serialize output ≡ k
  pub claimer : Wants db output x

pub record IsFair (serialize : Spend → ℕ) (db : Txs) (c : Claims) : Type 0 where
  pub once : Distinct c.base
  pub claims : (k : ℕ) (x : Hash) → lookup k c.base ≡ some x → Claim serialize db k x
  pub losers : (x : Hash) → contains c.conflicts x ≡ true → Beaten db x

module _ (serialize : Spend → ℕ) (db : Txs) where
  Claim-of : (k : ℕ) (x : Hash) → Spender serialize db k x → Claim serialize db k x
  Claim-of k x sp = record {
    output = sp.own;
    key = sp.key;
    claimer = record { ti = sp.ti; found = sp.found; pending = sp.pending; spent = sp.spent };
  }

  -- One key is one output.
  Beaten-of : (x : Hash) → IsKeying serialize db → Rival serialize db x → Beaten db x
  Beaten-of x keys r =
      let w = r.theirs in
      let o = r.ours in
      let same : w.own ≡ o.own =
        keys.apart r.winner x w.ti o.ti w.own o.own w.found o.found w.spent o.spent
          (w.key ∙ sym o.key) in
      record {
        output = o.own;
        winner = r.winner;
        smaller = r.smaller;
        theirs = record {
          ti = w.ti;
          found = w.found;
          pending = w.pending;
          spent = subst (λ (s : Spend). In s (spends w.ti.body)) same w.spent;
        };
        ours = record { ti = o.ti; found = o.found; pending = o.pending; spent = o.spent };
      }

  -- If two outputs that stored transactions spend have the same key only when they are the same
  -- output: when checkConflict returns, no key is claimed twice, each claim is by a pending
  -- transaction that spends an output with that key, and for each loser there is a pending
  -- transaction with a smaller hash such that both spend one and the same output.
  pub check_conflict-IsFair :
      (fuel : ℕ) (h : Hash) (visited : List Hash) (out : Checked)
      → IsKeying serialize db
      → check_conflict serialize fuel db h visited ≡ ok out
      → IsFair serialize db out.0
  check_conflict-IsFair fuel h visited out keys run =
      let s = check_conflict-Sound serialize db fuel h visited out run in
      record {
        once = s.distinct;
        claims = λ k x e. Claim-of k x (s.claims k x e);
        losers = λ x e. Beaten-of x keys (s.losers x e);
      }
