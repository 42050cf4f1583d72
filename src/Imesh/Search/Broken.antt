-- ===== src/Imesh/Search/Broken.antt =====
-- An entry that `GetSearchingTx` gives up is recorded as broken.
use aknode.Base.{
  ℕ, ◌==◌, ==_refl, Bool, true, none, some, List, [], ◌∷◌, Dict, lookup, add, contains,
  contains-add, ok, ◌≡◌, refl, sym, ap, subst, ◌∙◌, arith, Bool-cases, inl, inr,
}
use aknode.Imesh.Types.{Hash}
use aknode.Imesh.Search.{
  Noexist, Turn, waits, asks, gives_up, fails, turn, Asked, take_turn, ask_each, Missing,
  get_searching_tx,
}
use aknode.Imesh.Search.Turns.{next, left, left-turn, found-ok, saved}

take_turn-kept :
    (t : Turn) (now : ℕ) (h : Hash) (n : Noexist) (ns : Dict Noexist) (rest : List Hash → Asked)
    (broken : List Hash) (x : Hash)
    → ((b : List Hash) → contains b x ≡ true → contains (rest b).1.1 x ≡ true)
    → contains broken x ≡ true
    → contains (take_turn t now h n ns rest broken).1.1 x ≡ true
unfolding take_turn
take_turn-kept waits now h n ns rest broken x ih there = ih broken there
take_turn-kept asks now h n ns rest broken x ih there = ih broken there
take_turn-kept gives_up now h n ns rest broken x ih there =
    ih (add n.hash broken) (contains-add n.hash x broken ∙ rw there (ground arith))
take_turn-kept fails now h n ns rest broken x ih there = there

ask_each-kept :
    (writes : Hash → Bool) (now : ℕ) (ns : Dict Noexist) (broken : List Hash) (x : Hash)
    → contains broken x ≡ true
    → contains (ask_each writes now ns broken).1.1 x ≡ true
unfolding ask_each
ask_each-kept writes now [] broken x there = there
ask_each-kept writes now ((h, n) ∷ ns) broken x there =
    take_turn-kept (turn (writes n.hash) now n) now h n ns (ask_each writes now ns) broken x
      (λ b. ask_each-kept writes now ns b x) there

take_turn-first :
    (t : Turn) (now : ℕ) (h : Hash) (n : Noexist) (ns : Dict Noexist) (rest : List Hash → Asked)
    (broken : List Hash) (r : List Noexist)
    → ((b : List Hash) → contains b n.hash ≡ true → contains (rest b).1.1 n.hash ≡ true)
    → left t now n ≡ none
    → (take_turn t now h n ns rest broken).0 ≡ ok r
    → contains (take_turn t now h n ns rest broken).1.1 n.hash ≡ true
unfolding take_turn
take_turn-first waits now h n ns rest broken r ih gone e = cc
take_turn-first asks now h n ns rest broken r ih gone e = cc
take_turn-first gives_up now h n ns rest broken r ih gone e =
    ih (add n.hash broken) (contains-add n.hash n.hash broken ∙ rw (==_refl n.hash) refl)
take_turn-first fails now h n ns rest broken r ih gone e = cc

take_turn-later :
    (t : Turn) (now : ℕ) (h : Hash) (n : Noexist) (ns : Dict Noexist) (rest : List Hash → Asked)
    (broken : List Hash) (x : Hash) (r : List Noexist)
    → ((b : List Hash) → (q : List Noexist) → (rest b).0 ≡ ok q → contains (rest b).1.1 x ≡ true)
    → (take_turn t now h n ns rest broken).0 ≡ ok r
    → contains (take_turn t now h n ns rest broken).1.1 x ≡ true
unfolding take_turn
take_turn-later waits now h n ns rest broken x r ih e = ih broken r e
take_turn-later asks now h n ns rest broken x r ih e =
    let (q, e') = found-ok n (rest broken).0 e in ih broken q e'
take_turn-later gives_up now h n ns rest broken x r ih e =
    let (q, e') = found-ok n (rest (add n.hash broken)).0 e in ih (add n.hash broken) q e'
take_turn-later fails now h n ns rest broken x r ih e = cc

some-same : {a b : Noexist} → some a ≡ some b → a ≡ b
some-same e = cc

ask_each-broken :
    (writes : Hash → Bool) (now : ℕ) (ns : Dict Noexist) (broken : List Hash) (r : List Noexist)
    (k : Hash) (m : Noexist)
    → lookup k ns ≡ some m
    → next now (some m) ≡ none
    → (ask_each writes now ns broken).0 ≡ ok r
    → contains (ask_each writes now ns broken).1.1 m.hash ≡ true
unfolding ask_each lookup
ask_each-broken writes now [] broken r k m there gone e = cc
ask_each-broken writes now ((h, n) ∷ ns) broken r k m there gone e = elim (Bool-cases (h == k)) [
  | inl same ↦
      let is : n ≡ m = some-same (rw same at there) in
      subst (λ (j : Noexist). contains (ask_each writes now ((h, n) ∷ ns) broken).1.1 j.hash ≡ true)
        is
        (take_turn-first (turn (writes n.hash) now n) now h n ns (ask_each writes now ns) broken r
          (λ b. ask_each-kept writes now ns b n.hash)
          (left-turn (writes n.hash) now n ∙ subst (λ j. next now (some j) ≡ none) (sym is) gone) e)
  | inr other ↦
      let later : lookup k ns ≡ some m = rw other at there in
      take_turn-later (turn (writes n.hash) now n) now h n ns (ask_each writes now ns) broken m.hash
        r (λ b q. ask_each-broken writes now ns b q k m later gone) e
]

-- When GetSearchingTx returns without an error, every entry that is due and has more than ten
-- calls with this one is recorded as a broken transaction.
pub get_searching_tx-broken :
    (writes : Hash → Bool) (saves : Bool) (now : ℕ) (m : Missing) (k : Hash) (n : Noexist)
    → lookup k m.noexists ≡ some n
    → next now (some n) ≡ none
    → (get_searching_tx writes saves now m).0.1 ≡ ok tt
    → contains (get_searching_tx writes saves now m).1.broken n.hash ≡ true
unfolding get_searching_tx
get_searching_tx-broken writes saves now m k n there gone e =
    let rest = ask_each writes now m.noexists m.broken in
    let ((r, returned), same, kept) =
      saved saves rest.0 (record m { noexists = rest.1.0; broken = rest.1.1 }) e in
    ap (λ b. contains b n.hash) kept
    ∙ ask_each-broken writes now m.noexists m.broken r k n there gone returned
