-- ===== src/Imesh/Resolve/Flags.antt =====
-- The ranks and the flags of the entries, and what a reference does to the flags of an entry.
use aknode.Base.{
  ℕ, ==_refl, ◌<◌, if◌then◌else◌, Bool, true, false, ◌||◌, Option, none, some, lookup, Result, ok,
  ◌≡◌, refl, ap, ◌∙◌, arith, All,
}
use aknode.Imesh.Types.{Hash}
use aknode.Imesh.Resolve.{UnresolvedTx, Finder, change, breaking, lacking, inherit}
use aknode.Imesh.Resolve.Grows.{
  ◌⇒◌, ⇒_apply, Raised, Later, Grows, lookup-change, map_entry, breaking-Raised, lacking-Raised,
}
use aknode.Imesh.Resolve.Settled.{Local, Local-refl, Local-trans, change-Local}

-- Every entry refers to entries of smaller rank.
abbrev pub RankedEntry : (Hash → ℕ) → Hash → Option UnresolvedTx → Type 0
RankedEntry rank k none = Unit
RankedEntry rank k (some e) = All (λ p. rank p < rank k) e.prevs

abbrev pub IsRanked : (Hash → ℕ) → Finder → Type 0
IsRanked rank f = (k : Hash) → RankedEntry rank k (lookup k f.entries)

Later-ranked :
    (rank : Hash → ℕ) (k : Hash) (o o' : Option UnresolvedTx)
    → Later o o'
    → RankedEntry rank k o
    → RankedEntry rank k o'
Later-ranked rank k none o' l r = rw l tt
Later-ranked rank k (some e) none l r = absurd l
Later-ranked rank k (some e) (some e') l r = rw l.prevs r

pub Grows-IsRanked :
    (rank : Hash → ℕ) (f f' : Finder) → Grows f f' → IsRanked rank f → IsRanked rank f'
Grows-IsRanked rank f f' g r k =
    Later-ranked rank k (lookup k f.entries) (lookup k f'.entries) (g.entry k) (r k)

-- The flags of an entry.
abbrev pub seen : Option UnresolvedTx → Bool
seen none = false
seen (some e) = e.visited

abbrev pub flagged : Option UnresolvedTx → Bool
flagged none = false
flagged (some e) = e.broken || e.unresolved

pub Later-seen : (o o' : Option UnresolvedTx) → Later o o' → seen o ⇒ seen o'
Later-seen none o' l = refl
Later-seen (some e) none l = absurd l
Later-seen (some e) (some e') l = l.visited

pub Later-flagged : (o o' : Option UnresolvedTx) → Later o o' → flagged o ⇒ flagged o'
Later-flagged none o' l = refl
Later-flagged (some e) none l = absurd l
Later-flagged (some e) (some e') l = ground (arith, l.broken, l.unresolved)

pub flag_if-Local :
    (b : Bool) (h : Hash) (g : UnresolvedTx → UnresolvedTx) (f : Finder)
    → ((e : UnresolvedTx) → Raised e (g e))
    → Local h f (if b then change h g f else f)
flag_if-Local true h g f raise = change-Local h g f raise
flag_if-Local false h g f raise = Local-refl h f

pub flagged-change :
    (h : Hash) (g : UnresolvedTx → UnresolvedTx) (f : Finder)
    → ((e : UnresolvedTx) → (g e).broken || (g e).unresolved ≡ true)
    → seen (lookup h f.entries) ≡ true
    → flagged (lookup h (change h g f).entries) ≡ true
flagged-change h g f sets here =
    let now : lookup h (change h g f).entries ≡ map_entry g (lookup h f.entries) =
      lookup-change h h g f ∙ rw (==_refl h) refl in
    ap flagged now ∙ set (lookup h f.entries) here
  where
    set : (o : Option UnresolvedTx) → seen o ≡ true → flagged (map_entry g o) ≡ true
    set none e = cc
    set (some x) e = sets x

pub flag_if-flagged :
    (b : Bool) (h : Hash) (g : UnresolvedTx → UnresolvedTx) (f : Finder)
    → ((e : UnresolvedTx) → ((g e).broken || (g e).unresolved) ≡ true)
    → seen (lookup h f.entries) ≡ true
    → b ⇒ flagged (lookup h (if b then change h g f else f).entries)
flag_if-flagged true h g f sets here = flagged-change h g f sets here
flag_if-flagged false h g f sets here = refl

pub Grows-seen :
    (h : Hash) (f f' : Finder)
    → Grows f f'
    → seen (lookup h f.entries) ≡ true
    → seen (lookup h f'.entries) ≡ true
Grows-seen h f f' g e =
    ⇒_apply _ _ (Later-seen (lookup h f.entries) (lookup h f'.entries) (g.entry h)) e

-- The entry of `h` takes the flags of the entry of a reference.
pub inherit-Local :
    (h : Hash) (o : Option UnresolvedTx) (f : Finder)
    → seen (lookup h f.entries) ≡ true
    → Local h f (inherit h o f) × (flagged o ⇒ flagged (lookup h (inherit h o f).entries))
unfolding inherit
inherit-Local h none f here = (Local-refl h f, refl)
inherit-Local h (some e) f here =
    let f1 = if e.broken then change h breaking f else f in
    let f2 = if e.unresolved then change h lacking f1 else f1 in
    let first = flag_if-Local e.broken h breaking f breaking-Raised in
    let second = flag_if-Local e.unresolved h lacking f1 lacking-Raised in
    let one = flag_if-flagged e.broken h breaking f (λ x. refl) here in
    let two =
      flag_if-flagged e.unresolved h lacking f1 (λ x. ground arith)
        (Grows-seen h f f1 first.grows here) in
    let kept = Later-flagged (lookup h f1.entries) (lookup h f2.entries) (second.grows.entry h) in
    (Local-trans h f f1 f2 first second, both e.broken e.unresolved _ _ one kept two)
  where
    both : (b u x y : Bool) → b ⇒ x → x ⇒ y → u ⇒ y → (b || u) ⇒ y
    both b u x y p q r = ground arith

pub parts :
    {A B : Type 0} {a a' : A} {b b' : B}
    → ◌≡◌ {A = Option (A × B)} (some (a, b)) (some (a', b'))
    → (a ≡ a') × (b ≡ b')
parts {A} {B} {a} {a'} {b} {b'} e = (
  ap (λ (o : Option (A × B)). elim o [ none ↦ a | some p ↦ p.0 ]) e,
  ap (λ (o : Option (A × B)). elim o [ none ↦ b | some p ↦ p.1 ]) e,
)

pub ok_same :
    {A : Type 0} {a a' : A} {f f' : Finder}
    → ◌≡◌ {A = Option (Result A × Finder)} (some (ok a, f)) (some (ok a', f'))
    → (a ≡ a') × (f ≡ f')
ok_same e = let (r, same) = parts e in (cc r, same)
