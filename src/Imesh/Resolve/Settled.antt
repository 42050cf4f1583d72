-- ===== src/Imesh/Resolve/Settled.antt =====
-- What holds of the entries that were visited: each is broken, lacks something, or is settled with
-- all its references stored.
use aknode.Base.{
  ◌==◌, ==_iff, Bool, true, false, not, ◌&&◌, ◌||◌, Option, none, some, List, [], ◌∷◌, Dict,
  Distinct, lookup, ◌≡◌, refl, sym, ap, subst, ◌∙◌, arith, Bool-cases, Option-cases, inl, inr,
}
use aknode.Imesh.Types.{Hash, Txs, Transaction}
use aknode.Imesh.Tables.{
  TxType, type_normal, type_reward_fee, type_reward_ticket, type_unknown, has,
}
use aknode.Imesh.Resolve.{UnresolvedTx, Finder, change, put_broken_tx, delete_unresolved_tx, want}
use aknode.Imesh.Resolve.Grows.{
  ◌⇒◌, ⇒_refl, Raised, Raised-refl, Later, Grows, Grows-refl, Grows-trans, lookup-change,
  change-Grows,
}
use aknode.Imesh.Resolve.Adding.{lands}

abbrev pub all_stored : Txs → List Hash → Bool
all_stored txs [] = true
all_stored txs (p ∷ ps) = has txs p && all_stored txs ps

-- In the ledger with all its references, if it is a normal transaction, and else with all of them.
abbrev pub settled : Txs → Hash → UnresolvedTx → Bool
settled txs k e = lands e.kind txs k && all_stored txs e.prevs

abbrev pub over : Txs → Hash → UnresolvedTx → Bool
over txs k e = e.broken || e.unresolved || settled txs k e

-- `open k`: the call for `k` has not returned yet.
abbrev pub sound_entry : Bool → Txs → Hash → Option UnresolvedTx → Bool
sound_entry is_open txs k none = true
sound_entry is_open txs k (some e) = not e.visited || is_open || over txs k e

abbrev pub IsSound : (Hash → Bool) → Finder → Type 0
IsSound open_at f = (k : Hash) → sound_entry (open_at k) f.tables.txs k (lookup k f.entries) ≡ true

-- A waiting transaction stands under its own hash.
abbrev pub filed_under : Hash → Option Transaction → Bool
filed_under k none = true
filed_under k (some tr) = tr.hash == k

abbrev pub IsFiled : Finder → Type 0
IsFiled f = (k : Hash) → filed_under k (f.waiting k) ≡ true

pub Grows-IsFiled : (f f' : Finder) → Grows f f' → IsFiled f → IsFiled f'
Grows-IsFiled f f' g filed k = elim (g.waiting k) [
  | inl gone ↦ rw gone refl
  | inr same ↦ rw same (filed k)
]

pub all_stored_mono :
    (a b : Txs) (ps : List Hash)
    → ((k : Hash) → has a k ⇒ has b k)
    → all_stored a ps ⇒ all_stored b ps
all_stored_mono a b [] h = refl
all_stored_mono a b (p ∷ ps) h = ground (arith, h p, all_stored_mono a b ps h)

pub lands_mono :
    (kind : TxType) (a b : Txs) (k : Hash) → has a k ⇒ has b k → lands kind a k ⇒ lands kind b k
lands_mono type_normal a b k h = h
lands_mono type_reward_fee a b k h = refl
lands_mono type_reward_ticket a b k h = refl
lands_mono (type_unknown x) a b k h = refl

-- An entry that is over stays so.
pub over_mono :
    (a b : Txs) (k : Hash) (e e' : UnresolvedTx)
    → ((k : Hash) → has a k ⇒ has b k)
    → Raised e e'
    → over a k e ⇒ over b k e'
over_mono a b k e e' h r =
    rw (r.prevs, r.kind)
      (ground (
        arith,
        all_stored_mono a b e.prevs h,
        lands_mono e.kind a b k (h k),
        r.broken,
        r.unresolved,
      ))

-- A step that changes no entry but that of `h`.
pub record Local (h : Hash) (f f' : Finder) : Type 0 where
  pub grows : Grows f f'
  pub others : (k : Hash) → (h == k) ≡ false → lookup k f'.entries ≡ lookup k f.entries

pub Local-refl : (h : Hash) (f : Finder) → Local h f f
Local-refl h f = record { grows = Grows-refl f; others = λ k e. refl }

pub Local-trans : (h : Hash) (f g i : Finder) → Local h f g → Local h g i → Local h f i
Local-trans h f g i p q = record {
  grows = Grows-trans f g i p.grows q.grows;
  others = λ k e. q.others k e ∙ p.others k e;
}

sound_entry_open :
    (txs : Txs) (k : Hash) (o : Option UnresolvedTx) → sound_entry true txs k o ≡ true
sound_entry_open txs k none = refl
sound_entry_open txs k (some e) = ground arith

sound_entry_mono :
    (b : Bool) (x y : Txs) (k : Hash) (o : Option UnresolvedTx)
    → ((k : Hash) → has x k ⇒ has y k)
    → sound_entry b x k o ≡ true
    → sound_entry b y k o ≡ true
sound_entry_mono b x y k none h s = refl
sound_entry_mono b x y k (some e) h s = ground (arith, over_mono x y k e e h (Raised-refl e))

pub Local-IsSound :
    (h : Hash) (open_at : Hash → Bool) (f f' : Finder)
    → Local h f f'
    → open_at h ≡ true
    → IsSound open_at f
    → IsSound open_at f'
Local-IsSound h open_at f f' l is_open s k = elim (Bool-cases (h == k)) [
  | inl same ↦
      let here : open_at k ≡ true =
        subst (λ (j : Hash). open_at j ≡ true) ((==_iff h k).0 same) is_open in
      rw here (sound_entry_open f'.tables.txs k (lookup k f'.entries))
  | inr other ↦ rw (l.others k other) (
      sound_entry_mono (open_at k) f.tables.txs f'.tables.txs k (lookup k f.entries) l.grows.stored
        (s k))
]

pub change-Local :
    (h : Hash) (g : UnresolvedTx → UnresolvedTx) (f : Finder)
    → ((e : UnresolvedTx) → Raised e (g e))
    → Local h f (change h g f)
change-Local h g f raise = record {
  grows = change-Grows h g f raise;
  others = λ k other. lookup-change h k g f ∙ rw other refl;
}

pub renamed :
    (f f' : Finder)
    → f'.entries ≡ f.entries
    → f'.tables ≡ f.tables
    → f'.waiting ≡ f.waiting
    → Grows f f'
renamed f f' es ts ws = record {
  entry = λ k.
      subst (λ (d : Dict UnresolvedTx). Later (lookup k f.entries) (lookup k d)) (sym es)
        ((Grows-refl f).entry k);
  stored = λ k. rw ts (⇒_refl (has f.tables.txs k));
  waiting = λ k. inr (ap (λ (w : Hash → Option Transaction). w k) ws);
  apart = λ d. subst (λ (es : Dict UnresolvedTx). Distinct es) (sym es) d;
}

-- A step that leaves the entries alone.
pub quiet-Local : (h : Hash) (f f' : Finder) → Grows f f' → f'.entries ≡ f.entries → Local h f f'
quiet-Local h f f' g same = record {
  grows = g;
  others = λ k other. ap (λ (es : Dict UnresolvedTx). lookup k es) same;
}

pub want-Local : (h p : Hash) (f : Finder) → Local h f (want p f)
unfolding want
want-Local h p f = elim (Option-cases (lookup p f.missing.noexists)) [
  | inl gone ↦ rw (gone, want) (quiet-Local h f _ (renamed f _ refl refl refl) refl)
  | inr (e, there) ↦ rw (there, want) (Local-refl h f)
]

pub put_broken_tx-Local : (h p : Hash) (f : Finder) → Local h f (put_broken_tx p f)
unfolding put_broken_tx
put_broken_tx-Local h p f = quiet-Local h f _ (renamed f _ refl refl refl) refl

pub delete_unresolved_tx-Local : (h p : Hash) (f : Finder) → Local h f (delete_unresolved_tx p f)
unfolding delete_unresolved_tx
delete_unresolved_tx-Local h p f =
    quiet-Local h f _
      (record {
        entry = (Grows-refl f).entry;
        stored = (Grows-refl f).stored;
        waiting = λ k. elim (Bool-cases (p == k)) [
          | inl same ↦ inl (rw same refl)
          | inr other ↦ inr (rw other refl)
        ];
        apart = λ d. d;
      })
      refl

abbrev pub over_in : Txs → Hash → Option UnresolvedTx → Bool
over_in txs k none = true
over_in txs k (some e) = over txs k e

abbrev pub over_at : Finder → Hash → Bool
over_at f k = over_in f.tables.txs k (lookup k f.entries)

-- An entry whose references are stored, unless it is broken or lacks something.
abbrev pub ready : Txs → UnresolvedTx → Bool
ready txs e = e.broken || e.unresolved || all_stored txs e.prevs
