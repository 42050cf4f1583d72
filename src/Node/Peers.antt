-- ===== src/Node/Peers.antt =====
-- node/peer.go: the connected peers, the bans, and the commands a peer still has to answer.
use aknode.Base.{
  ℕ, suc, ◌+◌, ◌*◌, ◌==◌, leb, ltb, if◌then◌else◌, Bool, true, false, ◌&&◌, ◌⊎◌, inl, inr, Option,
  none, some, List, [], ◌∷◌, ◌++◌, length, Dict, lookup, insert, remove, take, drop,
}
use aknode.Node.Types.{Text, Addr, Net, Setting, in_blacklist}

-- A command with the bytes that go with it: `CmdGetLeaves`, `CmdGetAddr`, `CmdPing`, `CmdGetLedger`,
-- and any other command.
pub data Cmd : Type 0 where
  cmd_get_leaves cmd_get_addr cmd_ping cmd_get_ledger : Cmd
  cmd_other : ℕ → Cmd

abbrev pub same_cmd : Cmd → Cmd → Bool
same_cmd cmd_get_leaves cmd_get_leaves = true
same_cmd cmd_get_addr cmd_get_addr = true
same_cmd cmd_ping cmd_ping = true
same_cmd cmd_get_ledger cmd_get_ledger = true
same_cmd (cmd_other c) (cmd_other d) = c == d
same_cmd _ _ = false

pub record Wdata : Type 0 where
  pub cmd : Cmd
  pub data_of : Option ℕ
  pub time : ℕ

pub record Peer : Type 0 where
  pub remote : Addr
  pub written : List Wdata

pub record Peers : Type 0 where
  pub peers : Dict Peer
  pub banned : Dict ℕ

-- The errors, by their texts.
pub data Refusal : Type 0 where
  blacklisted banned_now bad_address too_many already_connected invalid_data no_command : Refusal
  network : ℕ → Refusal

-- Nanoseconds.
abbrev pub ban_time : ℕ
ban_time = 3600000000000

-- peers.banned[remote], at the time `now`.
unfoldable pub check_banned : Text → ℕ → Dict ℕ → (Refusal ⊎ Unit {0}) × Dict ℕ
check_banned remote now banned = elim (lookup remote banned) [
  | none ↦ (inr tt, banned)
  | some t ↦
      if ltb (t + ban_time) now then (inr tt, remove remote banned) else (inl banned_now, banned)
]

module _ (net : Net) (s : Setting) where
  -- `if h == "" { … }`, where `empty` is the empty string.
  unfoldable pub fill_host : Text → Text → Addr → Refusal ⊎ Addr
  fill_host empty remote from =
      if s.use_tor then inr from else elim (net.split_host_port from.address) [
        | none ↦ inl bad_address
        | some hp ↦
            if hp.0 == empty
            then inr (record from { address = net.join_host_port remote hp.1 })
            else inr from
      ]

  unfoldable pub admit : Refusal ⊎ Addr → Dict Peer → Refusal ⊎ Peer
  admit (inl e) peers = inl e
  admit (inr from) peers =
      if leb (s.max_connections * 10) (length peers)
      then inl too_many
      else elim (lookup from.address peers) [
        | none ↦ inr (record { remote = from; written = [] })
        | some _ ↦ inl already_connected
      ]

  -- The part of `newPeer` after the test of the bans.
  unfoldable pub admit_from :
      (Refusal ⊎ Unit {0}) × Dict ℕ → Text → Text → Addr → Peers → (Refusal ⊎ Peer) × Peers
  unfolding in_blacklist admit fill_host
  admit_from (inl e, banned) empty remote from p = (inl e, record p { banned = banned })
  admit_from (inr _, banned) empty remote from p =
      if in_blacklist net s from.address
      then (inl blacklisted, record p { banned = banned })
      else (admit (fill_host empty remote from) p.peers, record p { banned = banned })

  -- `remote` is the host at the other end of the connection, `from` what its version message says.
  unfoldable pub new_peer : Text → Text → Addr → ℕ → Peers → (Refusal ⊎ Peer) × Peers
  unfolding in_blacklist check_banned admit_from
  new_peer empty remote from now p =
      if in_blacklist net s remote
      then (inl blacklisted, p)
      else admit_from (check_banned remote now p.banned) empty remote from p

  unfoldable pub add_peer : Peer → Peers → (Refusal ⊎ Unit {0}) × Peers
  add_peer peer p =
      if leb (s.max_connections * 2) (length p.peers)
      then (inl too_many, p)
      else elim (lookup peer.remote.address p.peers) [
        | some _ ↦ (inl already_connected, p)
        | none ↦ (inr tt, record p { peers = insert peer.remote.address peer p.peers })
      ]

  -- What `run` does with the bans once the loop of the peer ended with an error.
  unfoldable pub ban : Addr → ℕ → Peers → Peers
  ban a now p = elim (net.split_host_port a.address) [
    | none ↦ record p { banned = insert a.address now p.banned }
    | some hp ↦ record p { banned = insert hp.0 now p.banned }
  ]

unfoldable pub delete_peer : Peer → Peers → Peers
delete_peer peer p = record p { peers = remove peer.remote.address p.peers }

unfoldable pub is_connected : Text → Peers → Bool
is_connected adr p = elim (lookup adr p.peers) [ none ↦ false | some _ ↦ true ]

unfoldable pub conn_size : Peers → ℕ
conn_size p = length p.peers

-- What the code keeps of a command until its answer comes; `m` is the nonce or the ledger's id, if
-- the message is one.
unfoldable pub note : Cmd → Option ℕ → ℕ → List Wdata → Refusal ⊎ List Wdata
note cmd_get_leaves m now ws =
    inr (ws ++ record { cmd = cmd_get_leaves; data_of = none; time = now } ∷ [])
note cmd_get_addr m now ws =
    inr (ws ++ record { cmd = cmd_get_addr; data_of = none; time = now } ∷ [])
note cmd_ping none now ws = inl invalid_data
note cmd_ping (some n) now ws =
    inr (ws ++ record { cmd = cmd_ping; data_of = some n; time = now } ∷ [])
note cmd_get_ledger none now ws = inl invalid_data
note cmd_get_ledger (some n) now ws =
    inr (ws ++ record { cmd = cmd_get_ledger; data_of = some n; time = now } ∷ [])
note (cmd_other c) m now ws = inr ws

-- `net` is what the connection answers.
unfoldable pub send : Refusal ⊎ List Wdata → Refusal ⊎ Unit {0} → Peer → (Refusal ⊎ Unit {0}) × Peer
send (inl e) net p = (inl e, p)
send (inr ws) net p = (net, record p { written = ws })

unfoldable pub write : Cmd → Option ℕ → ℕ → Refusal ⊎ Unit {0} → Peer → (Refusal ⊎ Unit {0}) × Peer
unfolding note send
write cmd m now net p = send (note cmd m now p.written) net p

-- c.cmd == cmd && (data == nil || bytes.Equal(c.data, data)); data that was not set is no 32 bytes.
unfoldable pub answers : Cmd → Option ℕ → Wdata → Bool
answers cmd none w = same_cmd w.cmd cmd
answers cmd (some d) w = same_cmd w.cmd cmd && elim w.data_of [ none ↦ false | some e ↦ e == d ]

-- The index of the first command that `data` answers; `none` for -1.
unfoldable pub is_written : Cmd → Option ℕ → List Wdata → Option ℕ
unfolding answers
is_written cmd m [] = none
is_written cmd m (w ∷ ws) =
    let rest = is_written cmd m ws in
    if answers cmd m w then some 0 else elim rest [ none ↦ none | some i ↦ some (suc i) ]

unfoldable pub received : Cmd → Option ℕ → Peer → (Refusal ⊎ Unit {0}) × Peer
unfolding is_written
received cmd m p = elim (is_written cmd m p.written) [
  | none ↦ (inl no_command, p)
  | some i ↦ (inr tt, record p { written = take i p.written ++ drop (suc i) p.written })
]
