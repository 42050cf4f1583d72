-- ===== src/Node/Bans.antt =====
-- How long a node that misbehaved is kept out.
use aknode.Base.{
  ℕ, ◌+◌, ◌≤◌, ◌<◌, ltb, if◌then◌else◌, true, false, none, some, lookup, remove, lookup-insert,
  lookup-remove, ◌≡◌, refl, ◌∙◌, inl, inr, arith, Dict, Bool-cases,
}
use aknode.Node.Types.{Text, Addr, Net, Setting, in_blacklist}
use aknode.Node.Peers.{Peers, banned_now, ban_time, check_banned, admit_from, new_peer, ban}

banned-at :
    (host : Text) (t now : ℕ) (banned : Dict ℕ)
    → lookup host banned ≡ some t
    → check_banned host now banned
      ≡ (if ltb (t + ban_time) now then (inr tt, remove host banned) else (inl banned_now, banned))
unfolding check_banned
banned-at host t now banned e = rw (e, check_banned) refl

module _ (net : Net) (s : Setting) where
  lookup-ban :
      (a : Addr) (host port : Text) (t : ℕ) (p : Peers)
      → net.split_host_port a.address ≡ some (host, port)
      → lookup host (ban net s a t p).banned ≡ some t
  unfolding ban
  lookup-ban a host port t p e = rw (e, ban) (lookup-insert host host t p.banned ∙ ground arith)

  -- A host that is not on the blacklist and was banned through an address with that host is
  -- refused as banned for as long as BanTime has not passed, and the tables stay as they are.
  pub new_peer-ban :
      (a from : Addr) (empty host port : Text) (t now : ℕ) (p : Peers)
      → net.split_host_port a.address ≡ some (host, port)
      → in_blacklist net s host ≡ false
      → now ≤ t + ban_time
      → new_peer net s empty host from now (ban net s a t p) ≡ (inl banned_now, ban net s a t p)
  unfolding new_peer admit_from
  new_peer-ban a from empty host port t now p e free soon =
      let held : ltb (t + ban_time) now ≡ false = ground (arith, soon) in
      rw (free, banned-at host t now (ban net s a t p).banned (lookup-ban a host port t p e), held)
        refl

  -- Once BanTime has passed, a version message from a banned host that is not on the blacklist
  -- lifts the ban.
  pub new_peer-ban_over :
      (a from : Addr) (empty host port : Text) (t now : ℕ) (p : Peers)
      → net.split_host_port a.address ≡ some (host, port)
      → in_blacklist net s host ≡ false
      → t + ban_time < now
      → lookup host (new_peer net s empty host from now (ban net s a t p)).1.banned ≡ none
  unfolding new_peer
  new_peer-ban_over a from empty host port t now p e free late =
      let over : ltb (t + ban_time) now ≡ true = ground (arith, late) in
      rw (free, banned-at host t now (ban net s a t p).banned (lookup-ban a host port t p e), over)
        (lifted (remove host (ban net s a t p).banned)
          (lookup-remove host host (ban net s a t p).banned ∙ ground arith))
    where
      lifted :
          (banned : Dict ℕ)
          → lookup host banned ≡ none
          → lookup host
              (admit_from net s (inr tt, banned) empty host from (ban net s a t p)).1.banned
            ≡ none
      lifted banned gone = elim (Bool-cases (in_blacklist net s from.address)) [
        | inl listed ↦ rw (listed, admit_from) gone
        | inr clear ↦ rw (clear, admit_from) gone
      ]
