-- ===== src/Consensus/Messages.antt =====
-- akconsensus/consensus.go: handleProposal and handleValidation, and the tables of what was seen.
pub mod Once
pub mod Trust
use aknode.Base.{
  ℕ, ◌+◌, ◌==◌, ltb, if◌then◌else◌, Bool, true, false, Option, none, some, List, [], ◌∷◌, ◌++◌,
  Dict, lookup, insert, Result, ok, err, refused, ◌>>=◌,
}

-- A proposal or a validation: its ID and the node that it names.
pub record Message : Type 0 where
  pub id : ℕ
  pub node_id : ℕ

-- What the code takes from outside: the address, without its prefix, of the signature of a message,
-- if the signature can be read and is valid; `address.Address58`; and `peer.AddValidation`.
pub record Outside : Type 0 where
  pub signer : Message → Result ℕ
  pub address58 : ℕ → Result ℕ
  pub add_validation : Message → Bool

-- `proposals` or `validations`, with the times of arrival in seconds, and what was passed on to the
-- consensus.
pub record Inbox : Type 0 where
  pub seen : Dict ℕ
  pub added : List Message

-- `IsTrusted` of setting/setting.go.
unfoldable pub is_trusted : List ℕ → ℕ → Bool
is_trusted [] adr = false
is_trusted (t ∷ ts) adr = if t == adr then true else is_trusted ts adr

-- Entries older than `span` are deleted.
unfoldable pub expire : ℕ → ℕ → Dict ℕ → Dict ℕ
expire span now [] = []
expire span now ((k, v) ∷ d) =
    let rest = expire span now d in if ltb (v + span) now then rest else (k, v) ∷ rest

-- The function `noexist`.
unfoldable pub note_seen : ℕ → ℕ → ℕ → Dict ℕ → Bool × Dict ℕ
unfolding expire
note_seen span now id seen = elim (lookup id seen) [
  | some _ ↦ (false, seen)
  | none ↦ (true, expire span now (insert id now seen))
]

module _ (out : Outside) (trusted_nodes : List ℕ) where
  -- The end of `handleProposal`, for the address of the node.
  unfoldable pub deliver_proposal : Message → Result ℕ → Inbox → Result Bool × Inbox
  unfolding is_trusted
  deliver_proposal m (err e) i = (err e, i)
  deliver_proposal m (ok adr) i =
      if is_trusted trusted_nodes adr
      then (ok true, record i { added = i.added ++ m ∷ [] })
      else (ok true, i)

  -- That of `handleValidation`, which returns what `AddValidation` returns.
  unfoldable pub deliver_validation : Message → Result ℕ → Inbox → Result Bool × Inbox
  unfolding is_trusted
  deliver_validation m (err e) i = (err e, i)
  deliver_validation m (ok adr) i =
      if is_trusted trusted_nodes adr
      then (ok (out.add_validation m), record i { added = i.added ++ m ∷ [] })
      else (ok true, i)

  module _ (span : ℕ) (deliver : Message → Result ℕ → Inbox → Result Bool × Inbox) where
    -- The code after the test of the signature, for what `noexist` gives.
    unfoldable pub pass_on : Message → Bool × Dict ℕ → Inbox → Result Bool × Inbox
    pass_on m (false, seen) i = (ok false, i)
    pass_on m (true, seen) i = deliver m (out.address58 m.node_id) (record i { seen = seen })

    -- What both handlers do, for the address of the signature.
    unfoldable pub handle_signed : ℕ → Message → Result ℕ → Inbox → Result Bool × Inbox
    unfolding note_seen pass_on
    handle_signed now m (err e) i = (err e, i)
    handle_signed now m (ok adr) i =
        if adr == m.node_id then pass_on m (note_seen span now m.id i.seen) i else (err refused, i)

  unfoldable pub handle_proposal : ℕ → Message → Inbox → Result Bool × Inbox
  unfolding handle_signed deliver_proposal
  handle_proposal now m i = handle_signed 3600 deliver_proposal now m (out.signer m) i

  unfoldable pub handle_validation : ℕ → Message → Inbox → Result Bool × Inbox
  unfolding handle_signed deliver_validation
  handle_validation now m i = handle_signed 50 deliver_validation now m (out.signer m) i
