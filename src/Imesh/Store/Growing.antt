-- ===== src/Imesh/Store/Growing.antt =====
-- A transaction that is stored keeps what confirmation needs of the ledger.
use aknode.Base.{
  ℕ, ◌<◌, Bool, false, Option, none, some, ok, ◌≡◌, refl, sym, ap, ◌∙◌, arith, All, In,
}
use aknode.Imesh.Types.{Hash, Body, Txs, TxInfo, Spend, Transaction, put, references, spends}
use aknode.Imesh.Confirm.Marks.{Verdict, verdict_of, verdict, judged, spent_at}
use aknode.Imesh.Confirm.Writes.{IsRanked, body_at, body_in}
use aknode.Imesh.Confirm.Effects.{accepted}
use aknode.Imesh.Confirm.Spending.{Takes, NoDoubleSpend}
use aknode.Imesh.Rounds.Total.{IsWhole}
use aknode.Imesh.Rounds.Growth.{put-IsRanked, put-IsWhole, put-NoDoubleSpend}
use aknode.Imesh.Tables.{Tables, Memory}
use aknode.Imesh.Store.{Aklib, new_info, put_tx_sub, update_tx_no}
use aknode.Imesh.Store.Kept.{Frame, core_of}
use aknode.Imesh.Store.Referred.{put_tx_sub-Stored}

verdict_in : Option (Verdict × ℕ) → Option Verdict
verdict_in none = none
verdict_in (some c) = some c.0

verdict-core : (o : Option TxInfo) → judged o ≡ verdict_in (core_of o)
unfolding verdict_in
verdict-core none = refl
verdict-core (some ti) = refl

module _ (a b : Txs) (f : Frame a b) where
  verdict-Frame : (k : Hash) → verdict b k ≡ verdict a k
  verdict-Frame k = verdict-core (b k) ∙ ap verdict_in (f.core k) ∙ sym (verdict-core (a k))

  body_at-Frame : (k : Hash) → body_at b k ≡ body_at a k
  body_at-Frame k = ap body_in (verdict-Frame k)

  Frame-IsRanked : (rank : Hash → ℕ) → IsRanked rank a → IsRanked rank b
  Frame-IsRanked rank r = record { at = λ k c e. r.at k c (sym (body_at-Frame k) ∙ e) }

  Frame-IsWhole : IsWhole a → IsWhole b
  Frame-IsWhole w = record {
    refs = λ k c e p m.
        let (d, there) = w.refs k c (sym (body_at-Frame k) ∙ e) p m in (d, body_at-Frame p ∙ there);
    cells = λ k c e s m.
        let (d, there) = w.cells k c (sym (body_at-Frame k) ∙ e) s m in (d, f.spent s ∙ there);
  }

  before : (h : Hash) (s : Spend) → Takes b h s → Takes a h s
  before h s t = record {
    v = t.v;
    stored = sym (verdict-Frame h) ∙ t.stored;
    granted = t.granted;
    takes = t.takes;
  }

  Frame-NoDoubleSpend : NoDoubleSpend a → NoDoubleSpend b
  Frame-NoDoubleSpend n = record {
    flagged = λ h s t. f.spent s ∙ n.flagged h s (before h s t);
    unique = λ h k s t u. n.unique h k s (before h s t) (before k s u);
  }

pending_idle : (now top : ℕ) (b : Body) → accepted (verdict_of (new_info now top b)) ≡ false
unfolding accepted new_info
pending_idle now top b = ground arith

module _ (lib : Aklib) (now : ℕ) (tr : Transaction) (t : Tables) (m : Memory)
    (stored : (put_tx_sub lib now tr t m).0 ≡ ok tt) where
  frame :
      Frame
        (put t.txs tr.hash (new_info now (update_tx_no m).tx_no tr.body))
        (put_tx_sub lib now tr t m).1.txs
  frame = (put_tx_sub-Stored lib now tr t m stored).frame

  pub put_tx_sub-IsRanked :
      (rank : Hash → ℕ)
      → IsRanked rank t.txs
      → All (λ p. rank p < rank tr.hash) (references tr.body)
      → IsRanked rank (put_tx_sub lib now tr t m).1.txs
  unfolding new_info
  put_tx_sub-IsRanked rank ranked below =
      Frame-IsRanked _ _ frame rank (put-IsRanked t.txs tr.hash _ rank ranked below)

  pub put_tx_sub-NoDoubleSpend :
      t.txs tr.hash ≡ none → NoDoubleSpend t.txs → NoDoubleSpend (put_tx_sub lib now tr t m).1.txs
  put_tx_sub-NoDoubleSpend fresh inv =
      let new = new_info now (update_tx_no m).tx_no tr.body in
      Frame-NoDoubleSpend _ _ frame (
        put-NoDoubleSpend t.txs tr.hash new fresh
          (λ s taken spent. cc (pending_idle now (update_tx_no m).tx_no tr.body)) inv)

  -- In a ledger in which every referenced transaction is stored and every spent output exists,
  -- this holds after putTxSub has stored a transaction that was not there, whose references are
  -- stored and whose spent outputs exist.
  pub put_tx_sub-IsWhole :
      t.txs tr.hash ≡ none
      → ((p : Hash) → In p (references tr.body) → (c : Body) × (body_at t.txs p ≡ some c))
      → ((s : Spend) → In s (spends tr.body) → (f : Bool) × (spent_at t.txs s ≡ some f))
      → IsWhole t.txs
      → IsWhole (put_tx_sub lib now tr t m).1.txs
  unfolding new_info
  put_tx_sub-IsWhole fresh refs cells whole =
      Frame-IsWhole _ _ frame (put-IsWhole t.txs tr.hash _ fresh whole refs cells)
