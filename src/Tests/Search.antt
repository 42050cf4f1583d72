-- ===== src/Tests/Search.antt =====
-- Two missing transactions: one never asked for, one asked for ten times.
use aknode.Base.{
  ℕ, true, none, some, [], ◌∷◌, lookup, contains, ok, ◌≡◌, refl, ◌==◌, ==_iff, arith, Bool-cases,
  inl, inr,
}
use aknode.Imesh.Tables.{type_normal}
use aknode.Imesh.Search.{
  Noexist, sleep, due, asked, turn, take_turn, ask_each, Missing, get_searching_tx,
}
use aknode.Imesh.Search.Turns.{next, get_searching_tx-next}
use aknode.Imesh.Search.Filed.{IsFiled, get_searching_tx-IsFiled}
use aknode.Imesh.Search.Broken.{get_searching_tx-broken}

abbrev fresh : Noexist
fresh = record { hash = 10; kind = type_normal; count = 0; searched = none }

abbrev old : Noexist
old = record { hash = 20; kind = type_normal; count = 10; searched = some 5 }

-- The old entry waits for 512 minutes.
abbrev now : ℕ
now = 30720000000006

abbrev missing : Missing
missing = record { noexists = (10, fresh) ∷ (20, old) ∷ []; broken = []; stored = [] }

run : (get_searching_tx (λ h. true) true now missing).0 ≡ (fresh ∷ old ∷ [], ok tt)
unfolding get_searching_tx ask_each take_turn turn due sleep asked
run = refl

returns : (get_searching_tx (λ h. true) true now missing).0.1 ≡ ok tt
unfolding get_searching_tx ask_each take_turn turn due sleep asked
returns = refl

get_searching_tx-next_example :
    lookup 10 (get_searching_tx (λ h. true) true now missing).1.noexists
    ≡ some (record { hash = 10; kind = type_normal; count = 1; searched = some now })
unfolding lookup
get_searching_tx-next_example =
    get_searching_tx-next (λ h. true) true now missing 10 (refl, (refl, tt)) (omega arith) returns

given_up : next now (some old) ≡ none
unfolding next due sleep asked
given_up = refl

get_searching_tx-broken_example :
    contains (get_searching_tx (λ h. true) true now missing).1.broken 20 ≡ true
unfolding lookup
get_searching_tx-broken_example =
    get_searching_tx-broken (λ h. true) true now missing 20 old refl given_up returns

-- A twenty-ninth call counted would wait for a negative time, so that the entry is due at once.
wraps : due 5 (record old { count = 29 }) ≡ true
unfolding due sleep
wraps = refl

missing-IsFiled : IsFiled missing.noexists
unfolding lookup
missing-IsFiled = (
  (refl, (refl, tt)),
  λ k. elim (Bool-cases (10 == k)) [
    | inl same ↦ rw same ((==_iff 10 k).0 same, omega arith)
    | inr other ↦ elim (Bool-cases (20 == k)) [
      | inl same ↦ rw (other, same) ((==_iff 20 k).0 same, omega arith)
      | inr other' ↦ rw (other, other') tt
    ]
  ],
)

get_searching_tx-IsFiled_example :
    IsFiled (get_searching_tx (λ h. true) true now missing).1.noexists
get_searching_tx-IsFiled_example =
    get_searching_tx-IsFiled (λ h. true) true now missing missing-IsFiled returns
