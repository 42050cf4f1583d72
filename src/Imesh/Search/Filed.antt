-- ===== src/Imesh/Search/Filed.antt =====
-- Every entry stands under its own hash, once, and was asked for ten times at most.
use aknode.Base.{
  ℕ, ◌≤◌, ◌==◌, ==_iff, leb, Bool, true, false, Option, none, some, List, [], ◌∷◌, Dict, Distinct,
  lookup, lookup-insert, insert-Distinct, add, ok, ◌≡◌, sym, ap, subst, ◌∙◌, arith, Bool-cases,
  Option-cases, inl, inr,
}
use aknode.Imesh.Types.{Hash}
use aknode.Imesh.Tables.{TxType}
use aknode.Imesh.Search.{
  Noexist, due, asked, Turn, waits, asks, gives_up, fails, turn, Asked, take_turn, ask_each,
  Missing, get_searching_tx, add_noexist_tx_hash,
}
use aknode.Imesh.Search.Turns.{next, found-ok, saved, ask_each-next, get_searching_tx-turn}

-- What a key may hold.
abbrev pub FiledAt : Hash → Option Noexist → Type 0
FiledAt k none = Unit
FiledAt k (some n) = (n.hash ≡ k) × (n.count ≤ 10)

abbrev pub IsFiled : Dict Noexist → Type 0
IsFiled ns = Distinct ns × ((k : Hash) → FiledAt k (lookup k ns))

take_turn-Distinct :
    (t : Turn) (now : ℕ) (h : Hash) (n : Noexist) (ns : Dict Noexist) (rest : List Hash → Asked)
    (broken : List Hash) (r : List Noexist)
    → ((b : List Hash)
        → (q : List Noexist) → (rest b).0 ≡ ok q
        → (lookup h (rest b).1.0 ≡ none) × Distinct (rest b).1.0)
    → (take_turn t now h n ns rest broken).0 ≡ ok r
    → Distinct (take_turn t now h n ns rest broken).1.0
unfolding take_turn
take_turn-Distinct waits now h n ns rest broken r ih e = ih broken r e
take_turn-Distinct asks now h n ns rest broken r ih e =
    let (q, e') = found-ok n (rest broken).0 e in ih broken q e'
take_turn-Distinct gives_up now h n ns rest broken r ih e =
    let (q, e') = found-ok n (rest (add n.hash broken)).0 e in (ih (add n.hash broken) q e').1
take_turn-Distinct fails now h n ns rest broken r ih e = cc

ask_each-Distinct :
    (writes : Hash → Bool) (now : ℕ) (ns : Dict Noexist) (broken : List Hash) (r : List Noexist)
    → Distinct ns
    → (ask_each writes now ns broken).0 ≡ ok r
    → Distinct (ask_each writes now ns broken).1.0
unfolding ask_each next
ask_each-Distinct writes now [] broken r d e = tt
ask_each-Distinct writes now ((h, n) ∷ ns) broken r d e =
    take_turn-Distinct (turn (writes n.hash) now n) now h n ns (ask_each writes now ns) broken r
      (λ b q e'. (
        ask_each-next writes now ns b q h d.1 e' ∙ ap (next now) d.0,
        ask_each-Distinct writes now ns b q d.1 e',
      ))
      e

next-FiledAt : (now : ℕ) (k : Hash) (o : Option Noexist) → FiledAt k o → FiledAt k (next now o)
unfolding next asked
next-FiledAt now k none f = tt
next-FiledAt now k (some n) f = elim (Bool-cases (due now n)) [
  | inr early ↦ rw (early, next) f
  | inl ready ↦ elim (Bool-cases (leb (asked now n).count 10)) [
    | inl few ↦ rw (ready, few, next) (asked-FiledAt f.0 few)
    | inr many ↦ rw (ready, many, next) tt
  ]
]
  where
    asked-FiledAt :
        n.hash ≡ k
        → leb (asked now n).count 10 ≡ true
        → ((asked now n).hash ≡ k) × ((asked now n).count ≤ 10)
    asked-FiledAt same few = (same, ground (arith, few))

-- If every missing transaction is entered once, under its own hash and with at most ten calls
-- counted, this holds after GetSearchingTx returns without an error.
pub get_searching_tx-IsFiled :
    (writes : Hash → Bool) (saves : Bool) (now : ℕ) (m : Missing)
    → IsFiled m.noexists
    → (get_searching_tx writes saves now m).0.1 ≡ ok tt
    → IsFiled (get_searching_tx writes saves now m).1.noexists
unfolding get_searching_tx
get_searching_tx-IsFiled writes saves now m filed e =
    let rest = ask_each writes now m.noexists m.broken in
    let ((r, returned), same, kept) =
      saved saves rest.0 (record m { noexists = rest.1.0; broken = rest.1.1 }) e in
    (
      subst (λ (d : Dict Noexist). Distinct d) (sym same)
          (ask_each-Distinct writes now m.noexists m.broken r filed.0 returned),
      λ k.
          subst (FiledAt k) (sym (get_searching_tx-turn writes saves now m k filed.0 e))
            (next-FiledAt now k (lookup k m.noexists) (filed.1 k)),
    )

abbrev fresh : Hash → TxType → Noexist
fresh h kind = record { hash = h; kind = kind; count = 0; searched = none }

pub add_noexist_tx_hash-IsFiled :
    (has : Bool) (h : Hash) (kind : TxType) (m : Missing)
    → IsFiled m.noexists
    → IsFiled (add_noexist_tx_hash has h kind m).noexists
unfolding add_noexist_tx_hash
add_noexist_tx_hash-IsFiled true h kind m filed = filed
add_noexist_tx_hash-IsFiled false h kind m filed = elim (Option-cases (lookup h m.noexists)) [
  | inr (n, there) ↦ rw (there, add_noexist_tx_hash) filed
  | inl gone ↦
      rw (gone, add_noexist_tx_hash)
        (
          insert-Distinct h (fresh h kind) m.noexists filed.0,
          λ k. rw (lookup-insert h k (fresh h kind) m.noexists) elim (Bool-cases (h == k)) [
            | inl same ↦ rw same ((==_iff h k).0 same, omega arith)
            | inr other ↦ rw other (filed.1 k)
          ],
        )
]
