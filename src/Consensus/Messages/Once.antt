-- ===== src/Consensus/Messages/Once.antt =====
-- A proposal is taken once within an hour.
use aknode.Base.{
  ℕ, ◌+◌, ◌≤◌, ◌==◌, ==_iff, ==_refl, ltb, Bool, true, false, none, some, List, [], ◌∷◌, Dict,
  lookup, insert, lookup-insert, Result, ok, err, ◌≡◌, refl, ap, subst, ◌∙◌, arith, Bool-cases,
  Option-cases, inl, inr, All,
}
use aknode.Consensus.Messages.{
  Message, Outside, Inbox, is_trusted, expire, note_seen, deliver_proposal, pass_on, handle_signed,
  handle_proposal,
}

-- An entry that is not too old survives.
lookup-expire :
    (span now k : ℕ) (d : Dict ℕ) (v : ℕ)
    → lookup k d ≡ some v
    → now ≤ v + span
    → lookup k (expire span now d) ≡ some v
unfolding lookup expire
lookup-expire span now k [] v there young = cc
lookup-expire span now k ((j, w) ∷ d) v there young = elim (Bool-cases (j == k)) [
  | inl same ↦
      let own : some w ≡ some v = rw same at there in
      let eq : w ≡ v = cc in
      let kept : ltb (w + span) now ≡ false = ground (arith, eq, young) in rw (kept, same, eq) refl
  | inr other ↦
      let rest = lookup-expire span now k d v (rw other at there) young in
      elim (Bool-cases (ltb (w + span) now)) [
        | inl old ↦ rw old rest
        | inr fresh ↦ rw (fresh, other) rest
      ]
]

note_seen-keeps :
    (span now id k v : ℕ) (seen : Dict ℕ)
    → lookup k seen ≡ some v
    → now ≤ v + span
    → lookup k (note_seen span now id seen).1 ≡ some v
unfolding note_seen
note_seen-keeps span now id k v seen there young = elim (Option-cases (lookup id seen)) [
  | inr (w, old) ↦ rw (old, note_seen) there
  | inl new ↦
      rw (new, note_seen)
        (lookup-expire span now k (insert id now seen) v
          (lookup-insert id k now seen ∙ elim (Bool-cases (id == k)) [
            | inl same ↦
                let gone : lookup k seen ≡ none =
                  subst (λ (j : ℕ). lookup j seen ≡ none) ((==_iff id k).0 same) new in
                cc
            | inr other ↦ rw other there
          ])
          young)
]

-- What `noexist` enters.
note_seen-enters :
    (span now id : ℕ) (seen : Dict ℕ)
    → (note_seen span now id seen).0 ≡ true
    → lookup id (note_seen span now id seen).1 ≡ some now
unfolding note_seen
note_seen-enters span now id seen fresh = elim (Option-cases (lookup id seen)) [
  | inr (w, old) ↦ cc (rw (old, note_seen) at fresh)
  | inl new ↦
      rw (new, note_seen)
        (lookup-expire span now id (insert id now seen) now
          (lookup-insert id id now seen ∙ rw (==_refl id) refl) (omega arith))
]

note_seen-again :
    (span now id v : ℕ) (seen : Dict ℕ)
    → lookup id seen ≡ some v
    → note_seen span now id seen ≡ (false, seen)
unfolding note_seen
note_seen-again span now id v seen there = rw (there, note_seen) refl

module _ (out : Outside) (trusted_nodes : List ℕ) where
  deliver_proposal-seen :
      (m : Message) (r : Result ℕ) (i : Inbox)
      → (deliver_proposal out trusted_nodes m r i).1.seen ≡ i.seen
  unfolding deliver_proposal
  deliver_proposal-seen m (err e) i = refl
  deliver_proposal-seen m (ok adr) i = elim (Bool-cases (is_trusted trusted_nodes adr)) [
    | inl yes_ ↦ rw yes_ refl
    | inr no_ ↦ rw no_ refl
  ]

  -- What the tables hold after a call, whatever `noexist` gave.
  pass_on-seen :
      (span k v : ℕ) (m : Message) (n : Bool × Dict ℕ) (i : Inbox)
      → lookup k i.seen ≡ some v
      → lookup k n.1 ≡ some v
      → lookup k (pass_on out trusted_nodes span (deliver_proposal out trusted_nodes) m n i).1.seen
        ≡ some v
  unfolding pass_on
  pass_on-seen span k v m (false, seen) i old new = old
  pass_on-seen span k v m (true, seen) i old new =
      ap (λ (d : Dict ℕ). lookup k d)
        (deliver_proposal-seen m (out.address58 m.node_id) (record i { seen = seen }))
      ∙ new

  handle_signed-keeps :
      (now k v : ℕ) (m : Message) (r : Result ℕ) (i : Inbox)
      → lookup k i.seen ≡ some v
      → now ≤ v + 3600
      → lookup k
          (handle_signed out trusted_nodes 3600
            (deliver_proposal out trusted_nodes)
            now
            m
            r
            i).1.seen
        ≡ some v
  unfolding handle_signed
  handle_signed-keeps now k v m (err e) i there young = there
  handle_signed-keeps now k v m (ok adr) i there young = elim (Bool-cases (adr == m.node_id)) [
    | inl own ↦ rw own (
        pass_on-seen 3600 k v m (note_seen 3600 now m.id i.seen) i there
          (note_seen-keeps 3600 now m.id k v i.seen there young))
    | inr other ↦ rw other there
  ]

  -- The inbox after the proposals of a list, with their times.
  unfoldable pub handle_each : List (ℕ × Message) → Inbox → Inbox
  handle_each [] i = i
  handle_each ((now, m) ∷ more) i = handle_each more (handle_proposal out trusted_nodes now m i).1

  handle_each-keeps :
      (k v : ℕ) (more : List (ℕ × Message)) (i : Inbox)
      → lookup k i.seen ≡ some v
      → All (λ (x : ℕ × Message). x.0 ≤ v + 3600) more
      → lookup k (handle_each more i).seen ≡ some v
  unfolding handle_each handle_proposal
  handle_each-keeps k v [] i there young = there
  handle_each-keeps k v ((now, m) ∷ more) i there young =
      handle_each-keeps k v more (handle_proposal out trusted_nodes now m i).1
        (handle_signed-keeps now k v m (out.signer m) i there young.0) young.1

  pass_on-enters :
      (now : ℕ) (m : Message) (n : Bool × Dict ℕ) (i : Inbox)
      → (pass_on out trusted_nodes 3600 (deliver_proposal out trusted_nodes) m n i).0 ≡ ok true
      → (n.0 ≡ true → lookup m.id n.1 ≡ some now)
      → lookup m.id
          (pass_on out trusted_nodes 3600 (deliver_proposal out trusted_nodes) m n i).1.seen
        ≡ some now
  unfolding pass_on
  pass_on-enters now m (false, seen) i taken enters = cc
  pass_on-enters now m (true, seen) i taken enters =
      ap (λ (d : Dict ℕ). lookup m.id d)
        (deliver_proposal-seen m (out.address58 m.node_id) (record i { seen = seen }))
      ∙ enters refl

  -- A proposal that was taken is entered, and its signature is that of its node.
  handle_signed-enters :
      (now : ℕ) (m : Message) (r : Result ℕ) (i : Inbox)
      → (handle_signed out trusted_nodes 3600 (deliver_proposal out trusted_nodes) now m r i).0
        ≡ ok true
      → (r ≡ ok m.node_id)
        × (lookup m.id
              (handle_signed out trusted_nodes 3600
                (deliver_proposal out trusted_nodes)
                now
                m
                r
                i).1.seen
            ≡ some now)
  unfolding handle_signed
  handle_signed-enters now m (err e) i taken = cc
  handle_signed-enters now m (ok adr) i taken = elim (Bool-cases (adr == m.node_id)) [
    | inl own ↦
        let taken1 : (pass_on out trusted_nodes 3600 (deliver_proposal out trusted_nodes) m
              (note_seen 3600 now m.id i.seen) i).0
            ≡ ok true =
          rw own at taken in
        (
          ap ok ((==_iff adr m.node_id).0 own),
          rw own (
              pass_on-enters now m (note_seen 3600 now m.id i.seen) i taken1
                (note_seen-enters 3600 now m.id i.seen)),
        )
    | inr other ↦ cc (rw other at taken)
  ]

  handle_signed-again :
      (now v : ℕ) (m : Message) (i : Inbox)
      → lookup m.id i.seen ≡ some v
      → handle_signed out trusted_nodes 3600
          (deliver_proposal out trusted_nodes)
          now
          m
          (ok m.node_id)
          i
        ≡ (ok false, i)
  unfolding handle_signed pass_on
  handle_signed-again now v m i there =
      rw (==_refl m.node_id, note_seen-again 3600 now m.id v i.seen there) refl

  -- A proposal that handleProposal took once is reported as known, and changes nothing, when it
  -- comes again after any proposals that came within an hour of its first arrival.
  pub handle_proposal-once :
      (now : ℕ) (m : Message) (i : Inbox) (more : List (ℕ × Message)) (again : ℕ)
      → (handle_proposal out trusted_nodes now m i).0 ≡ ok true
      → All (λ (x : ℕ × Message). x.0 ≤ now + 3600) more
      → handle_proposal out trusted_nodes again m
          (handle_each more (handle_proposal out trusted_nodes now m i).1)
        ≡ (ok false, handle_each more (handle_proposal out trusted_nodes now m i).1)
  unfolding handle_proposal
  handle_proposal-once now m i more again taken young =
      let (signed, entered) = handle_signed-enters now m (out.signer m) i taken in
      let i1 = handle_each more (handle_proposal out trusted_nodes now m i).1 in
      ap
        (λ (r : Result ℕ).
          handle_signed out trusted_nodes 3600 (deliver_proposal out trusted_nodes) again m r i1)
        signed
      ∙ handle_signed-again again now m i1 (
          handle_each-keeps m.id now more (handle_proposal out trusted_nodes now m i).1 entered
            young)
