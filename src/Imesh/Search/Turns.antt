-- ===== src/Imesh/Search/Turns.antt =====
-- What becomes of every entry in one call of `GetSearchingTx`.
use aknode.Base.{
  ℕ, ◌==◌, ==_iff, leb, if◌then◌else◌, Bool, true, false, not, Option, none, some, List, [], ◌∷◌,
  ◌+◌, ◌*◌, ◌%◌, ◌^◌, ◌≤◌, ◌<◌, ltb, zero, suc, arith, Option-cases, Dict, Distinct, lookup, add,
  Result, ok, err, ◌≡◌, refl, ap, subst, ◌∙◌, Bool-cases, inl, inr,
}
use aknode.Imesh.Types.{Hash}
use aknode.Imesh.Search.{
  Noexist, minute, sleep, passed, due, asked, Turn, waits, asks, gives_up, fails, turn, Asked,
  with_found, take_turn, ask_each, Missing, put_missing, get_searching_tx,
}

-- An entry that is due is asked for once more, until it was asked for ten times.
unfoldable pub next : ℕ → Option Noexist → Option Noexist
next now none = none
next now (some n) =
    if not (due now n)
    then some n
    else if leb (asked now n).count 10
    then some (asked now n)
    else none

abbrev pub left : Turn → ℕ → Noexist → Option Noexist
left waits now n = some n
left asks now n = some (asked now n)
left gives_up now n = none
left fails now n = none

pub left-turn : (b : Bool) (now : ℕ) (n : Noexist) → left (turn b now n) now n ≡ next now (some n)
unfolding turn next
left-turn b now n = elim (Bool-cases (due now n)) [
  | inr early ↦ rw (early, turn, next) refl
  | inl ready ↦ elim (Bool-cases (leb (asked now n).count 10)) [
    | inl few ↦ rw (ready, few, turn, next) refl
    | inr many ↦ elim (Bool-cases b) [
      | inl e ↦ rw (ready, many, e, turn, next) refl
      | inr e ↦ rw (ready, many, e, turn, next) refl
    ]
  ]
]

pub found-ok :
    (n : Noexist) (q : Result (List Noexist)) {r : List Noexist}
    → with_found n q ≡ ok r
    → (r' : List Noexist) × (q ≡ ok r')
found-ok n (ok r') e = (r', refl)
found-ok n (err x) e = cc

-- `o` is what the remaining entries hold for `k`.
take_turn-next :
    (t : Turn) (now : ℕ) (h : Hash) (n : Noexist) (ns : Dict Noexist) (rest : List Hash → Asked)
    (broken : List Hash) (k : Hash) (o : Option Noexist) (r : List Noexist)
    → ((b : List Hash) → (q : List Noexist) → (rest b).0 ≡ ok q → lookup k (rest b).1.0 ≡ o)
    → ((h == k) ≡ true → o ≡ none)
    → (take_turn t now h n ns rest broken).0 ≡ ok r
    → lookup k (take_turn t now h n ns rest broken).1.0 ≡ (if h == k then left t now n else o)
unfolding take_turn lookup
take_turn-next waits now h n ns rest broken k o r ih gone e = rw (ih broken r e) refl
take_turn-next asks now h n ns rest broken k o r ih gone e =
    let (q, e') = found-ok n (rest broken).0 e in rw (ih broken q e') refl
take_turn-next gives_up now h n ns rest broken k o r ih gone e =
    let (q, e') = found-ok n (rest (add n.hash broken)).0 e in
    ih (add n.hash broken) q e'
    ∙ elim (Bool-cases (h == k)) [ inl same ↦ rw same (gone same) | inr other ↦ rw other refl ]
take_turn-next fails now h n ns rest broken k o r ih gone e = cc

pub ask_each-next :
    (writes : Hash → Bool) (now : ℕ) (ns : Dict Noexist) (broken : List Hash) (r : List Noexist)
    (k : Hash)
    → Distinct ns
    → (ask_each writes now ns broken).0 ≡ ok r
    → lookup k (ask_each writes now ns broken).1.0 ≡ next now (lookup k ns)
unfolding ask_each next lookup
ask_each-next writes now [] broken r k d e = refl
ask_each-next writes now ((h, n) ∷ ns) broken r k d e =
    take_turn-next (turn (writes n.hash) now n) now h n ns (ask_each writes now ns) broken k
      (next now (lookup k ns)) r (λ b q. ask_each-next writes now ns b q k d.1)
      (λ same.
        let at : h ≡ k = (==_iff h k).0 same in
        ap (next now) (subst (λ j. lookup j ns ≡ none) at d.0))
      e
    ∙ elim (Bool-cases (h == k)) [
      | inl same ↦ rw same (left-turn (writes n.hash) now n)
      | inr other ↦ rw other refl
    ]

pub saved :
    (saves : Bool) (q : Result (List Noexist)) (m : Missing)
    → (put_missing saves q m).0.1 ≡ ok tt
    → ((r : List Noexist) × (q ≡ ok r))
      × ((put_missing saves q m).1.noexists ≡ m.noexists)
      × ((put_missing saves q m).1.broken ≡ m.broken)
saved saves (err x) m e = cc
saved true (ok r) m e = ((r, refl), refl, refl)
saved false (ok r) m e = cc

-- How long an entry waits: not at all before the first call, a minute after it, and twice as long
-- after each further one.
abbrev pub pause : ℕ → ℕ
pause zero = 0
pause (suc zero) = 60000000000
pause (suc (suc c)) = pause (suc c) + pause (suc c)

abbrev pub early : ℕ → Noexist → Bool
early now n = elim n.searched [ none ↦ false | some t ↦ leb now (t + pause n.count) ]

-- What an entry of at most ten calls becomes.
abbrev pub turned : ℕ → Option Noexist → Option Noexist
turned now none = none
turned now (some n) =
    if early now n
    then some n
    else if ltb n.count 10
    then some (record { hash = n.hash; kind = n.kind; count = n.count + 1; searched = some now })
    else none

abbrev pub AtMostTen : Option Noexist → Type 0
AtMostTen none = Unit {0}
AtMostTen (some n) = n.count ≤ 10

sleep-pause_at :
    (c : ℕ)
    → c ≤ 10
    → ((((2 ^ ((c + 255) % 256)) % 2 ^ 64) * minute) % 2 ^ 64 ≡ pause c) × (pause c < 2 ^ 63)
sleep-pause_at zero le = (refl, omega arith)
sleep-pause_at (suc zero) le = (refl, omega arith)
sleep-pause_at (suc (suc zero)) le = (refl, omega arith)
sleep-pause_at (suc (suc (suc zero))) le = (refl, omega arith)
sleep-pause_at (suc (suc (suc (suc zero)))) le = (refl, omega arith)
sleep-pause_at (suc (suc (suc (suc (suc zero))))) le = (refl, omega arith)
sleep-pause_at (suc (suc (suc (suc (suc (suc zero)))))) le = (refl, omega arith)
sleep-pause_at (suc (suc (suc (suc (suc (suc (suc zero))))))) le = (refl, omega arith)
sleep-pause_at (suc (suc (suc (suc (suc (suc (suc (suc zero)))))))) le = (refl, omega arith)
sleep-pause_at (suc (suc (suc (suc (suc (suc (suc (suc (suc zero))))))))) le = (refl, omega arith)
sleep-pause_at (suc (suc (suc (suc (suc (suc (suc (suc (suc (suc zero)))))))))) le =
    (refl, omega arith)
sleep-pause_at (suc (suc (suc (suc (suc (suc (suc (suc (suc (suc (suc c))))))))))) le =
    absurd (omega arith)

-- On a short wait nothing wraps.
passed-pause : (now t d p : ℕ) → d ≡ p → p < 2 ^ 63 → passed t d now ≡ not (leb now (t + p))
passed-pause now t d p e lt = rw e (ground (arith, lt))

due-early : (now : ℕ) (n : Noexist) → n.count ≤ 10 → due now n ≡ not (early now n)
unfolding due sleep
due-early now n le = elim (Option-cases n.searched) [
  | inl never ↦ rw never refl
  | inr (t, at) ↦ rw at (
      let (same, small) = sleep-pause_at n.count le in
      passed-pause now t _ (pause n.count) same small)
]

next-turned : (now : ℕ) (o : Option Noexist) → AtMostTen o → next now o ≡ turned now o
unfolding next asked
next-turned now none few = refl
next-turned now (some n) few =
    let wraps : (n.count + 1) % 256 ≡ n.count + 1 = omega (arith, few) in
    rw (due-early now n few, wraps)
      elim (Bool-cases (early now n)) [ inl e ↦ rw e refl | inr e ↦ rw e (ground arith) ]

pub get_searching_tx-turn :
    (writes : Hash → Bool) (saves : Bool) (now : ℕ) (m : Missing) (k : Hash)
    → Distinct m.noexists
    → (get_searching_tx writes saves now m).0.1 ≡ ok tt
    → lookup k (get_searching_tx writes saves now m).1.noexists ≡ next now (lookup k m.noexists)
unfolding get_searching_tx
get_searching_tx-turn writes saves now m k d e =
    let rest = ask_each writes now m.noexists m.broken in
    let ((r, returned), same, kept) =
      saved saves rest.0 (record m { noexists = rest.1.0; broken = rest.1.1 }) e in
    ap (lookup k) same ∙ ask_each-next writes now m.noexists m.broken r k d returned

-- When GetSearchingTx returns without an error on a table that has no key twice, an entry that
-- was asked for at most ten times is afterwards as it was if it was asked for before and its
-- pause has not passed since, a minute after the first call and twice as long after each further
-- one; otherwise it has this call's time, one more call counted and its hash and type as before,
-- or is gone if it was asked for ten times. A key without an entry has none afterwards.
pub get_searching_tx-next :
    (writes : Hash → Bool) (saves : Bool) (now : ℕ) (m : Missing) (k : Hash)
    → Distinct m.noexists
    → AtMostTen (lookup k m.noexists)
    → (get_searching_tx writes saves now m).0.1 ≡ ok tt
    → lookup k (get_searching_tx writes saves now m).1.noexists ≡ turned now (lookup k m.noexists)
get_searching_tx-next writes saves now m k d few e =
    get_searching_tx-turn writes saves now m k d e ∙ next-turned now (lookup k m.noexists) few
