-- ===== src/Tests/Consensus.antt =====
-- One ledger above the genesis ledger, for the transactions of the small store of rounds.
use aknode.Base.{
  ◌⊎◌, ℕ, leb, In, Bool-cases, inl, inr, All-imp, subst, sym, ◌+◌, ◌≤◌, ◌<◌, ◌==◌, ◌≢◌,
  if◌then◌else◌, true, false, List, [], ◌∷◌, none, some, ok, ◌≡◌, refl, arith, lookup, insert,
  contains, add, cell?, set_cell, All,
}
use aknode.Imesh.Types.{
  Hash, TxInfo, Transaction, references, spends, is_accepted, is_confirmed, status_at, set_spent,
}
use aknode.Imesh.Confirm.{
  visit_all, any_blocked, mark, mark_all, settled, settle, confirm_pending, confirm,
}
use aknode.Imesh.Confirm.Marks.{verdict}
use aknode.Imesh.Confirm.Spending.{NoDoubleSpend}
use aknode.Imesh.Conflict.{add_all, merge_refs, merge, gather, claim, claim_all, check_conflict}
use aknode.Imesh.Rounds.{update, confirm_checked, confirm_in, confirm_from}
use aknode.Imesh.Rounds.Verdicts.{confirmed_at}
use aknode.Imesh.Tables.{has, get_tx, get_tx_info, sig_key}
use aknode.Leaves
use aknode.Leaves.{Leaves, get_all_unconfirmed, unconfirmed, confirm_leaves, set_confirmed}
use aknode.Consensus.{
  Ledger, Library, State, txs_of, last_key, new_ledger, from_ledger, accepted_of, notify_if,
  set_leaf, get_ledger, put_ledger, get_all, go_backward, confirm_if, confirm_tx, go_forward,
  confirm_end, confirm_forward, confirm_backward, confirm_ledger,
}
use aknode.Consensus.Ledgers.{get_ledger-put_ledger}
use aknode.Consensus.Safety.{confirm_each, confirm_each-NoDoubleSpend}
use aknode.Consensus.Follows.{confirm_ledger-Confirmed}
use aknode.Consensus.Messages.{
  Message, Outside, Inbox, is_trusted, expire, note_seen, deliver_proposal, pass_on, handle_signed,
  handle_proposal,
}
use aknode.Consensus.Messages.Once.{handle_each, handle_proposal-once}
use aknode.Consensus.Messages.Trust.{Vouched, proposal, validation, receive, receive-AllVouched}
use aknode.Consensus.Adaptor.{should_accept, on_close, infos_of, oldest}
use aknode.Consensus.Adaptor.Closing.{
  should_accept-shares, IsSortByReceived, IsSortOfHashes, received_in, on_close-oldest,
}
use aknode.Tests.Rounds.{plain, rank, serialize, store, store-IsRanked, store-NoDoubleSpend}
use aknode.Tests.Resolve.{finder}

abbrev genesis : Ledger
genesis = record {
  parent_id = 1;
  seq = 0;
  txs = [];
  close_time_resolution = 0;
  close_time = 0;
  parent_close_time = 0;
  close_time_agree = true;
}

abbrev top : Transaction
top = record { hash = 30; body = plain (10 ∷ 20 ∷ []) []; signatures = 4 }

abbrev later : Transaction
later = record {
  hash = 20;
  body = plain [] (record { previous_tx = 100; index = 0 } ∷ []);
  signatures = 3;
}

abbrev next : Ledger
next = record genesis { seq = 1; close_time = 7; txs = (30, top) ∷ [] }

-- The ID of a ledger is its closing time and one.
abbrev lib : Library
lib = record {
  id_of = λ l. l.close_time + 1;
  index_of = λ get l i. if i == l.seq then l.close_time + 1 else l.parent_id;
  diff = λ get a b. 1;
  genesis = genesis;
  genesis_id = 1;
}

abbrev start : State
start = record {
  latest_ledger = genesis;
  latest_solid_ledger = genesis;
  ledgers = λ id. none;
  last_ledger = none;
  finder = record finder { tables = record finder.tables { txs = store; sigs = λ k. some k } };
  notifies = true;
  notified = [];
  asked = [];
}

abbrev followed : State
followed = (confirm_ledger lib serialize 3 true next start).1

it_follows : (confirm_ledger lib serialize 3 true next start).0 ≡ ok tt
unfolding confirm_ledger confirm_backward confirm_forward confirm_end go_forward confirm_tx
    confirm_if go_backward get_all put_ledger get_ledger set_leaf notify_if accepted_of from_ledger
    new_ledger last_key set_confirmed confirm_leaves Leaves.put has get_tx get_tx_info sig_key
    set_cell status_at settled confirm_from confirm_in confirm_checked update check_conflict gather
    merge claim_all claim add_all merge_refs confirm confirm_pending visit_all settle any_blocked
    mark_all mark set_spent references spends is_confirmed is_accepted insert lookup contains cell?
    add
it_follows = refl

numbered : (l : Ledger) → lib.id_of l ≢ 0
numbered l e = omega (arith, e)

confirm_ledger-Confirmed_example : confirmed_at (verdict (txs_of followed) 30) ≡ true
unfolding last_key
confirm_ledger-Confirmed_example =
    confirm_ledger-Confirmed lib serialize 3 rank next 30 numbered (λ e. omega (arith, e))
      (λ get. refl) refl start followed store-IsRanked (omega arith) (λ i. (it_follows i, followed))

confirm_each-NoDoubleSpend_example :
    NoDoubleSpend (txs_of (confirm_each lib serialize 3 (next ∷ genesis ∷ []) start))
confirm_each-NoDoubleSpend_example =
    confirm_each-NoDoubleSpend lib serialize 3 rank (next ∷ genesis ∷ []) start numbered
      store-IsRanked store-NoDoubleSpend

get_ledger-put_ledger_example : get_ledger lib (put_ledger lib true next start).1 8 ≡ ok next
unfolding get_tx sig_key
get_ledger-put_ledger_example = get_ledger-put_ledger lib next start (λ e. omega (arith, e)) refl

abbrev message : Message
message = record { id = 5; node_id = 6 }

abbrev out : Outside
out = record {
  signer = λ m. ok m.node_id;
  address58 = λ n. ok (n + 100);
  add_validation = λ m. true;
}

abbrev empty : Inbox
empty = record { seen = []; added = [] }

message_taken : (handle_proposal out (106 ∷ []) 10 message empty).0 ≡ ok true
unfolding handle_proposal handle_signed pass_on deliver_proposal note_seen expire is_trusted lookup
    insert
message_taken = refl

handle_proposal-once_example :
    handle_proposal out (106 ∷ []) 3000 message (
      handle_each out
        (106 ∷ [])
        ((20, record { id = 8; node_id = 9 }) ∷ [])
        (handle_proposal out (106 ∷ []) 10 message empty).1)
    ≡ (
      ok false,
      handle_each out
          (106 ∷ [])
          ((20, record { id = 8; node_id = 9 }) ∷ [])
          (handle_proposal out (106 ∷ []) 10 message empty).1,
    )
handle_proposal-once_example =
    handle_proposal-once out (106 ∷ []) 10 message empty ((20, record { id = 8; node_id = 9 }) ∷ [])
      3000 message_taken ((omega arith), tt)

receive-AllVouched_example :
    All
      (Vouched out (106 ∷ []))
      (receive out
        (106 ∷ [])
        (proposal 10 message ∷ validation 11 message ∷ [])
        (empty, empty)).0.added
    × All
        (Vouched out (106 ∷ []))
        (receive out
          (106 ∷ [])
          (proposal 10 message ∷ validation 11 message ∷ [])
          (empty, empty)).1.added
receive-AllVouched_example =
    receive-AllVouched out (106 ∷ []) (proposal 10 message ∷ validation 11 message ∷ [])
      (empty, empty) tt tt

should_accept-shares_example : 4 < 3 + 3
unfolding should_accept
should_accept-shares_example = should_accept-shares 4 3 3 refl refl

-- A sort that only brings the oldest record to the front.
older : Hash × TxInfo → List (Hash × TxInfo) → List (Hash × TxInfo)
older x [] = x ∷ []
older x (y ∷ ys) = if leb x.1.received y.1.received then x ∷ y ∷ ys else y ∷ x ∷ ys

to_front : List (Hash × TxInfo) → List (Hash × TxInfo)
to_front [] = []
to_front (x ∷ xs) = older x (to_front xs)

older-members :
    (z x : Hash × TxInfo) (ys : List (Hash × TxInfo)) → In z (older x ys) → In z (x ∷ ys)
unfolding older
older-members z x [] m = m
older-members z x (y ∷ ys) m = elim (Bool-cases (leb x.1.received y.1.received)) [
  | inl first ↦ rw first at m
  | inr second ↦ swapped (rw second at m)
]
  where
    swapped : In z (y ∷ x ∷ ys) → In z (x ∷ y ∷ ys)
    swapped (inl e) = inr (inl e)
    swapped (inr (inl e)) = inl e
    swapped (inr (inr m)) = inr (inr m)

to_front-members : (z : Hash × TxInfo) (xs : List (Hash × TxInfo)) → In z (to_front xs) → In z xs
unfolding to_front
to_front-members z [] m = m
to_front-members z (x ∷ xs) m = elim (older-members z x (to_front xs) m) as (λ y. In z (x ∷ xs)) [
  | inl here ↦ inl here
  | inr later ↦ inr (to_front-members z xs later)
]

abbrev AtMost : ℕ → List (Hash × TxInfo) → Type 0
AtMost n xs = All (λ (y : Hash × TxInfo). n ≤ y.1.received) xs

-- The first record of the result is as old as any.
abbrev FrontOf : List (Hash × TxInfo) → List (Hash × TxInfo) → Type 0
FrontOf [] xs = xs ≡ []
FrontOf (f ∷ more) xs = AtMost f.1.received xs

older-FrontOf :
    (x : Hash × TxInfo) (ys xs : List (Hash × TxInfo))
    → FrontOf ys xs
    → FrontOf (older x ys) (x ∷ xs)
unfolding older
older-FrontOf x [] xs p = (omega arith, subst (AtMost x.1.received) (sym p) tt)
older-FrontOf x (y ∷ ys) xs p = elim (Bool-cases (leb x.1.received y.1.received)) [
  | inl first ↦
      let le : x.1.received ≤ y.1.received = ground (arith, first) in
      rw first (omega arith, All-imp _ _ xs (λ z q. omega (arith, le, q)) p)
  | inr second ↦ let le : y.1.received ≤ x.1.received = ground (arith, second) in rw second (le, p)
]

to_front-FrontOf : (xs : List (Hash × TxInfo)) → FrontOf (to_front xs) xs
unfolding to_front
to_front-FrontOf [] = refl
to_front-FrontOf (x ∷ xs) = older-FrontOf x (to_front xs) xs (to_front-FrontOf xs)

to_front-IsSortByReceived : IsSortByReceived to_front
to_front-IsSortByReceived = record {
  members = to_front-members;
  first = λ x xs rest e. subst (λ (l : List (Hash × TxInfo)). FrontOf l xs) e (to_front-FrontOf xs);
}

abbrev three_leaves : Leaves
three_leaves = record {
  leaves =
      record { hash = 10; confirmed = true }
      ∷ record { hash = 20; confirmed = false }
      ∷ record { hash = 30; confirmed = false }
      ∷ [];
  stored = [];
}

closes_with_first : on_close (λ hs. hs) to_front start.finder.tables three_leaves ≡ (20, later) ∷ []
unfolding on_close oldest infos_of get_all_unconfirmed unconfirmed to_front older get_tx get_tx_info
    sig_key
closes_with_first = refl

unsorted-IsSortOfHashes : IsSortOfHashes (λ hs. hs)
unsorted-IsSortOfHashes = record { members = λ h hs m. m; kept = λ h hs m. m }

on_close-oldest_example :
    In (record { hash = 20; confirmed = false }) three_leaves.leaves
    × (get_tx start.finder.tables 20 ≡ ok later)
    × All
        (λ l. (l.confirmed ≡ true) ⊎ (received_in (store 20) ≤ received_in (store l.hash)))
        three_leaves.leaves
on_close-oldest_example =
    on_close-oldest (λ hs. hs) to_front start.finder.tables three_leaves 20 later
      unsorted-IsSortOfHashes to_front-IsSortByReceived closes_with_first
