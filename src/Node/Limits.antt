-- ===== src/Node/Limits.antt =====
-- How many peers the node keeps, whatever the order in which they come and go.
use aknode.Base.{
  ℕ, ◌*◌, ◌≤◌, ◌==◌, leb, some, List, [], ◌∷◌, length, Dict, lookup, lookup-insert, lookup-remove,
  length-insert-le, length-remove-le, ◌≡◌, refl, sym, subst, ◌∙◌, ◌⊎◌, inl, inr, arith, Bool-cases,
  Option-cases, ==_iff,
}
use aknode.Node.Types.{Text, Addr, Net, Setting, in_blacklist}
use aknode.Node.Peers.{
  Peer, Peers, Refusal, new_peer, admit_from, check_banned, add_peer, ban, delete_peer, conn_size,
}

-- What happens to the table: a version message, the addition of a peer, the end of a connection,
-- and a connection that ends with an error.
pub data Event : Type 0 where
  arrived : Text → Text → Addr → ℕ → Event
  added : Peer → Event
  ended : Peer → Event
  failed : Peer → ℕ → Event

some-injective : {A : Type 0} {a b : A} → some a ≡ some b → a ≡ b
some-injective e = cc

module _ (net : Net) (s : Setting) where
  unfoldable pub step : Event → Peers → Peers
  step (arrived empty remote from now) p = (new_peer net s empty remote from now p).1
  step (added peer) p = (add_peer net s peer p).1
  step (ended peer) p = delete_peer peer p
  step (failed peer now) p = ban net s peer.remote now p

  unfoldable pub steps : List Event → Peers → Peers
  unfolding step
  steps [] p = p
  steps (e ∷ es) p = steps es (step e p)

  -- Every peer stands under its own address, and there are at most `2 * MaxConnections` of them.
  abbrev pub IsKept : Peers → Type 0
  IsKept p =
      ((k : Text) → (peer : Peer) → lookup k p.peers ≡ some peer → peer.remote.address ≡ k)
      × (conn_size p ≤ s.max_connections * 2)

  peers-admit_from :
      (r : (Refusal ⊎ Unit {0}) × Dict ℕ) (empty remote : Text) (from : Addr) (p : Peers)
      → (admit_from net s r empty remote from p).1.peers ≡ p.peers
  unfolding admit_from
  peers-admit_from (inl e, banned) empty remote from p = refl
  peers-admit_from (inr u, banned) empty remote from p =
      elim (Bool-cases (in_blacklist net s from.address)) [
        | inl listed ↦ rw listed refl
        | inr free ↦ rw free refl
      ]

  peers-new_peer :
      (empty remote : Text) (from : Addr) (now : ℕ) (p : Peers)
      → (new_peer net s empty remote from now p).1.peers ≡ p.peers
  unfolding new_peer
  peers-new_peer empty remote from now p = elim (Bool-cases (in_blacklist net s remote)) [
    | inl listed ↦ rw listed refl
    | inr free ↦ rw free (peers-admit_from (check_banned remote now p.banned) empty remote from p)
  ]

  peers-ban : (a : Addr) (now : ℕ) (p : Peers) → (ban net s a now p).peers ≡ p.peers
  unfolding ban
  peers-ban a now p = elim (Option-cases (net.split_host_port a.address)) [
    | inl e ↦ rw (e, ban) refl
    | inr (hp, e) ↦ rw (e, ban) refl
  ]

  -- The table as `IsKept` reads it.
  abbrev Kept : Dict Peer → Type 0
  Kept m =
      ((k : Text) → (peer : Peer) → lookup k m ≡ some peer → peer.remote.address ≡ k)
      × (length m ≤ s.max_connections * 2)

  add_peer-IsKept : (peer : Peer) (p : Peers) → IsKept p → IsKept (add_peer net s peer p).1
  unfolding add_peer conn_size
  add_peer-IsKept peer p kept = elim (Bool-cases (leb (s.max_connections * 2) (length p.peers))) [
    | inl full ↦ rw full kept
    | inr room ↦ elim (Option-cases (lookup peer.remote.address p.peers)) [
      | inr (q, there) ↦ rw (room, there) kept
      | inl gone ↦
          rw (room, gone)
            (
              (λ k q e. elim (Bool-cases (peer.remote.address == k)) [
                | inl same ↦
                    let at : peer.remote.address ≡ k = (==_iff peer.remote.address k).0 same in
                    let found = sym (lookup-insert peer.remote.address k peer p.peers) ∙ e in
                    let eq : peer ≡ q = some-injective (rw same at found) in rw (sym eq) at
                | inr other ↦
                    kept.0 k q
                      (rw other at (sym (lookup-insert peer.remote.address k peer p.peers) ∙ e))
              ]),
              ground (arith, room, length-insert-le peer.remote.address peer p.peers),
            )
    ]
  ]

  delete_peer-IsKept : (peer : Peer) (p : Peers) → IsKept p → IsKept (delete_peer peer p)
  unfolding delete_peer conn_size
  delete_peer-IsKept peer p kept = (
    (λ k q e. elim (Bool-cases (peer.remote.address == k)) [
      | inl same ↦ absurd (cc (rw same at (sym (lookup-remove peer.remote.address k p.peers) ∙ e)))
      | inr other ↦ kept.0 k q (rw other at (sym (lookup-remove peer.remote.address k p.peers) ∙ e))
    ]),
    ground (arith, kept.1, length-remove-le peer.remote.address p.peers),
  )

  step-IsKept : (e : Event) (p : Peers) → IsKept p → IsKept (step e p)
  unfolding step conn_size
  step-IsKept (arrived empty remote from now) p kept =
      subst Kept (sym (peers-new_peer empty remote from now p)) kept
  step-IsKept (added peer) p kept = add_peer-IsKept peer p kept
  step-IsKept (ended peer) p kept = delete_peer-IsKept peer p kept
  step-IsKept (failed peer now) p kept = subst Kept (sym (peers-ban peer.remote now p)) kept

  -- If every peer stands under its own address and there are at most twice MaxConnections of
  -- them, this holds after any sequence of version messages, additions, ends of connections and
  -- bans.
  pub steps-IsKept : (es : List Event) (p : Peers) → IsKept p → IsKept (steps es p)
  unfolding steps
  steps-IsKept [] p kept = kept
  steps-IsKept (e ∷ es) p kept = steps-IsKept es (step e p) (step-IsKept e p kept)
