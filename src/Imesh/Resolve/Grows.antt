-- ===== src/Imesh/Resolve/Grows.antt =====
-- What only grows while the waiting transactions are walked: flags, and what is stored.
use aknode.Base.{
  ◌==◌, ==_iff, if◌then◌else◌, Bool, true, not, ◌||◌, Option, none, some, lookup, lookup-insert,
  Distinct, insert-Distinct, ◌≡◌, refl, sym, ap, subst, ◌∙◌, arith, Bool-cases, Option-cases, ◌⊎◌,
  inl, inr,
}
use aknode.Imesh.Types.{Hash, Transaction}
use aknode.Imesh.Tables.{has}
use aknode.Imesh.Resolve.{UnresolvedTx, Finder, change, visiting, breaking, lacking}

infix 40 ◌⇒◌
abbrev pub ◌⇒◌ : Bool → Bool → Type 0
a ⇒ b = (not a || b) ≡ true

pub ⇒_apply : (a b : Bool) → a ⇒ b → a ≡ true → b ≡ true
⇒_apply a b i e = ground arith

-- An entry later on: the same references and type, and no flag taken back.
pub record Raised (e e' : UnresolvedTx) : Type 0 where
  pub prevs : e'.prevs ≡ e.prevs
  pub kind : e'.kind ≡ e.kind
  pub visited : e.visited ⇒ e'.visited
  pub broken : e.broken ⇒ e'.broken
  pub unresolved : e.unresolved ⇒ e'.unresolved

abbrev pub Later : Option UnresolvedTx → Option UnresolvedTx → Type 0
Later none o = o ≡ none
Later (some e) none = ⊥
Later (some e) (some e') = Raised e e'

pub ⇒_refl : (a : Bool) → a ⇒ a
⇒_refl a = ground arith

pub ⇒-trans : (a b c : Bool) → a ⇒ b → b ⇒ c → a ⇒ c
⇒-trans a b c p q = ground arith

pub Raised-refl : (e : UnresolvedTx) → Raised e e
Raised-refl e = record {
  prevs = refl;
  kind = refl;
  visited = ⇒_refl e.visited;
  broken = ⇒_refl e.broken;
  unresolved = ⇒_refl e.unresolved;
}

Later-refl : (o : Option UnresolvedTx) → Later o o
Later-refl none = refl
Later-refl (some e) = Raised-refl e

Later-trans : (a b c : Option UnresolvedTx) → Later a b → Later b c → Later a c
Later-trans none none c p q = q
Later-trans none (some b) c p q = cc
Later-trans (some a) none c p q = absurd p
Later-trans (some a) (some b) none p q = absurd q
Later-trans (some a) (some b) (some c) p q = record {
  prevs = q.prevs ∙ p.prevs;
  kind = q.kind ∙ p.kind;
  visited = ⇒-trans a.visited b.visited c.visited p.visited q.visited;
  broken = ⇒-trans a.broken b.broken c.broken p.broken q.broken;
  unresolved = ⇒-trans a.unresolved b.unresolved c.unresolved p.unresolved q.unresolved;
}

pub record Grows (f f' : Finder) : Type 0 where
  pub entry : (k : Hash) → Later (lookup k f.entries) (lookup k f'.entries)
  pub stored : (k : Hash) → has f.tables.txs k ⇒ has f'.tables.txs k
  pub waiting : (k : Hash) → (f'.waiting k ≡ none) ⊎ (f'.waiting k ≡ f.waiting k)
  pub apart : Distinct f.entries → Distinct f'.entries

pub Grows-refl : (f : Finder) → Grows f f
Grows-refl f = record {
  entry = λ k. Later-refl (lookup k f.entries);
  stored = λ k. ⇒_refl (has f.tables.txs k);
  waiting = λ k. inr refl;
  apart = λ d. d;
}

pub Grows-trans : (f g h : Finder) → Grows f g → Grows g h → Grows f h
Grows-trans f g h p q = record {
  entry = λ k.
      Later-trans (lookup k f.entries) (lookup k g.entries) (lookup k h.entries) (p.entry k)
        (q.entry k);
  stored = λ k.
      ⇒-trans (has f.tables.txs k) (has g.tables.txs k) (has h.tables.txs k) (p.stored k)
        (q.stored k);
  waiting = λ k. elim (q.waiting k) [
    | inl gone ↦ inl gone
    | inr same ↦ elim (p.waiting k) [ inl gone ↦ inl (same ∙ gone) | inr old ↦ inr (same ∙ old) ]
  ];
  apart = λ d. q.apart (p.apart d);
}

abbrev pub map_entry : (UnresolvedTx → UnresolvedTx) → Option UnresolvedTx → Option UnresolvedTx
map_entry g none = none
map_entry g (some e) = some (g e)

pub lookup-change :
    (h k : Hash) (g : UnresolvedTx → UnresolvedTx) (f : Finder)
    → lookup k (change h g f).entries
      ≡ (if h == k then map_entry g (lookup k f.entries) else lookup k f.entries)
unfolding change
lookup-change h k g f = elim (Option-cases (lookup h f.entries)) [
  | inl gone ↦ elim (Bool-cases (h == k)) [
    | inl same ↦
        let at : lookup k f.entries ≡ none =
          subst (λ (j : Hash). lookup j f.entries ≡ none) ((==_iff h k).0 same) gone in
        rw (gone, same, at, change) refl
    | inr other ↦ rw (gone, other, change) refl
  ]
  | inr (e, there) ↦ elim (Bool-cases (h == k)) [
    | inl same ↦
        let at : lookup k f.entries ≡ some e =
          subst (λ (j : Hash). lookup j f.entries ≡ some e) ((==_iff h k).0 same) there in
        rw (there, same, at, change) (lookup-insert h k (g e) f.entries ∙ rw same refl)
    | inr other ↦ rw (there, other, change) (lookup-insert h k (g e) f.entries ∙ rw other refl)
  ]
]

change-rest :
    (h : Hash) (g : UnresolvedTx → UnresolvedTx) (f : Finder)
    → ((change h g f).tables ≡ f.tables) × ((change h g f).waiting ≡ f.waiting)
unfolding change
change-rest h g f = elim (Option-cases (lookup h f.entries)) [
  | inl gone ↦ rw (gone, change) (refl, refl)
  | inr (e, there) ↦ rw (there, change) (refl, refl)
]

change-Distinct :
    (h : Hash) (g : UnresolvedTx → UnresolvedTx) (f : Finder)
    → Distinct f.entries
    → Distinct (change h g f).entries
unfolding change
change-Distinct h g f d = elim (Option-cases (lookup h f.entries)) [
  | inl gone ↦ rw (gone, change) d
  | inr (e, there) ↦ rw (there, change) (insert-Distinct h (g e) f.entries d)
]

map_entry-Later :
    (g : UnresolvedTx → UnresolvedTx)
    → ((e : UnresolvedTx) → Raised e (g e))
    → (o : Option UnresolvedTx) → Later o (map_entry g o)
map_entry-Later g raise none = refl
map_entry-Later g raise (some e) = raise e

pub change-Grows :
    (h : Hash) (g : UnresolvedTx → UnresolvedTx) (f : Finder)
    → ((e : UnresolvedTx) → Raised e (g e))
    → Grows f (change h g f)
change-Grows h g f raise = record {
  entry = λ k.
      subst (Later (lookup k f.entries)) (sym (lookup-change h k g f)) (elim (Bool-cases (h == k)) [
        | inl same ↦ rw same (map_entry-Later g raise (lookup k f.entries))
        | inr other ↦ rw other (Later-refl (lookup k f.entries))
      ]);
  stored = λ k. rw (change-rest h g f).0 (⇒_refl (has f.tables.txs k));
  waiting = λ k. inr (ap (λ (w : Hash → Option Transaction). w k) (change-rest h g f).1);
  apart = change-Distinct h g f;
}

pub visiting-Raised : (e : UnresolvedTx) → Raised e (visiting e)
visiting-Raised e = ground arith

pub breaking-Raised : (e : UnresolvedTx) → Raised e (breaking e)
breaking-Raised e = ground arith

pub lacking-Raised : (e : UnresolvedTx) → Raised e (lacking e)
lacking-Raised e = ground arith
