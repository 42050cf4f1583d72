-- ===== src/Consensus/Messages/Trust.antt =====
-- What reaches the consensus comes from trusted nodes.
use aknode.Base.{
  ℕ, ◌==◌, ==_iff, Bool, true, false, List, [], ◌∷◌, ◌++◌, Dict, Result, ok, err, ◌≡◌, refl, ap,
  ◌∙◌, Bool-cases, inl, inr, All, All-append,
}
use aknode.Consensus.Messages.{
  Message, Outside, Inbox, is_trusted, note_seen, deliver_proposal, deliver_validation, pass_on,
  handle_signed, handle_proposal, handle_validation,
}

-- A message with the signature of the node that it names, which is trusted.
abbrev pub Vouched : Outside → List ℕ → Message → Type 0
Vouched out trusted_nodes m =
    (adr : ℕ) × (out.signer m ≡ ok m.node_id)
    × (out.address58 m.node_id ≡ ok adr)
    × (is_trusted trusted_nodes adr ≡ true)

-- A proposal or a validation that arrives, with its time.
pub data Arrival : Type 0 where
  proposal : ℕ → Message → Arrival
  validation : ℕ → Message → Arrival

module _ (out : Outside) (trusted_nodes : List ℕ) where
  abbrev AllVouched : Inbox → Type 0
  AllVouched i = All (Vouched out trusted_nodes) i.added

  -- `proposals` and `validations` are two tables.
  unfoldable pub receive : List Arrival → Inbox × Inbox → Inbox × Inbox
  receive [] b = b
  receive (proposal now m ∷ more) b =
      receive more ((handle_proposal out trusted_nodes now m b.0).1, b.1)
  receive (validation now m ∷ more) b =
      receive more (b.0, (handle_validation out trusted_nodes now m b.1).1)

  abbrev Delivers : (Message → Result ℕ → Inbox → Result Bool × Inbox) → Type 0
  Delivers deliver =
      (m : Message) (r : Result ℕ) (i : Inbox)
      → out.signer m ≡ ok m.node_id
      → out.address58 m.node_id ≡ r
      → AllVouched i
      → AllVouched (deliver m r i).1

  added-Vouched :
      (m : Message) (adr : ℕ) (i : Inbox)
      → out.signer m ≡ ok m.node_id
      → out.address58 m.node_id ≡ ok adr
      → is_trusted trusted_nodes adr ≡ true
      → AllVouched i
      → All (Vouched out trusted_nodes) (i.added ++ m ∷ [])
  added-Vouched m adr i signed named trusted all =
      All-append (Vouched out trusted_nodes) i.added (m ∷ []) all
        ((adr, signed, named, trusted), tt)

  deliver_proposal-Delivers : Delivers (deliver_proposal out trusted_nodes)
  unfolding deliver_proposal
  deliver_proposal-Delivers m (err e) i signed named all = all
  deliver_proposal-Delivers m (ok adr) i signed named all =
      elim (Bool-cases (is_trusted trusted_nodes adr)) [
        | inl trusted ↦ rw trusted (added-Vouched m adr i signed named trusted all)
        | inr other ↦ rw other all
      ]

  deliver_validation-Delivers : Delivers (deliver_validation out trusted_nodes)
  unfolding deliver_validation
  deliver_validation-Delivers m (err e) i signed named all = all
  deliver_validation-Delivers m (ok adr) i signed named all =
      elim (Bool-cases (is_trusted trusted_nodes adr)) [
        | inl trusted ↦ rw trusted (added-Vouched m adr i signed named trusted all)
        | inr other ↦ rw other all
      ]

  module _ (span : ℕ) (deliver : Message → Result ℕ → Inbox → Result Bool × Inbox)
      (delivers : Delivers deliver) where
    pass_on-AllVouched :
        (m : Message) (n : Bool × Dict ℕ) (i : Inbox)
        → out.signer m ≡ ok m.node_id
        → AllVouched i
        → AllVouched (pass_on out trusted_nodes span deliver m n i).1
    unfolding pass_on
    pass_on-AllVouched m (false, seen) i signed all = all
    pass_on-AllVouched m (true, seen) i signed all =
        delivers m (out.address58 m.node_id) (record i { seen = seen }) signed refl all

    handle_signed-AllVouched :
        (now : ℕ) (m : Message) (r : Result ℕ) (i : Inbox)
        → out.signer m ≡ r
        → AllVouched i
        → AllVouched (handle_signed out trusted_nodes span deliver now m r i).1
    unfolding handle_signed
    handle_signed-AllVouched now m (err e) i signed all = all
    handle_signed-AllVouched now m (ok adr) i signed all = elim (Bool-cases (adr == m.node_id)) [
      | inl own ↦ rw own (
          pass_on-AllVouched m (note_seen span now m.id i.seen) i
            (signed ∙ ap ok ((==_iff adr m.node_id).0 own)) all)
      | inr other ↦ rw other all
    ]

  -- If every message that was passed on to the consensus was signed by the node that it names and
  -- that node is trusted, this holds after any sequence of proposals and validations.
  pub receive-AllVouched :
      (arrivals : List Arrival) (b : Inbox × Inbox)
      → AllVouched b.0
      → AllVouched b.1
      → AllVouched (receive arrivals b).0 × AllVouched (receive arrivals b).1
  unfolding receive handle_proposal handle_validation
  receive-AllVouched [] b p v = (p, v)
  receive-AllVouched (proposal now m ∷ more) b p v =
      receive-AllVouched more ((handle_proposal out trusted_nodes now m b.0).1, b.1)
        (handle_signed-AllVouched 3600 (deliver_proposal out trusted_nodes)
          deliver_proposal-Delivers now m (out.signer m) b.0 refl p)
        v
  receive-AllVouched (validation now m ∷ more) b p v =
      receive-AllVouched more (b.0, (handle_validation out trusted_nodes now m b.1).1) p
        (handle_signed-AllVouched 50 (deliver_validation out trusted_nodes)
          deliver_validation-Delivers now m (out.signer m) b.1 refl v)
