-- ===== src/Tests/Node.antt =====
-- A blacklist with one host, a known node, and a node that is banned.
use aknode.Base.{
  ◌+◌, ◌*◌, ◌/◌, ◌%◌, ◌≤◌, max, if◌then◌else◌, true, false, none, some, List, [], ◌∷◌, length,
  lookup, contains, ◌≡◌, refl, inl, arith,
}
use aknode.Node.Types.{Text, Addr, Net, Setting, in_blacklist}
use aknode.Node.Addresses.{Nodes, max_addrs, msg_max_addrs, put_addrs, loaded, init_db}
use aknode.Node.Known.{Admitted, default_addr, length-put_addrs, put_addrs-Admitted, lookup-init_db}
use aknode.Node.Peers.{cmd_ping, Peer, Peers, banned_now, new_peer, ban, conn_size, received}
use aknode.Node.Limits.{Event, arrived, added, ended, failed, steps, IsKept, steps-IsKept}
use aknode.Node.Bans.{new_peer-ban, new_peer-ban_over}
use aknode.Node.Pending.{Answered, received-Answered}

-- A host and a port in one number.
abbrev net : Net
net = record { split_host_port = λ a. some (a / 100, a % 100); join_host_port = λ h p. h * 100 + p }

abbrev setting : Setting
setting = record {
  blacklists = 6 ∷ [];
  default_nodes = 508 ∷ 608 ∷ [];
  max_connections = 1;
  use_tor = false;
}

abbrev addr : Text → Addr
addr a = record { address = a; service = 0 }

abbrev nodes : Nodes
nodes = record { addrs = (508, addr 508) ∷ []; stored = none }

length-put_addrs_example :
    (length (put_addrs net setting true (addr 608 ∷ addr 708 ∷ []) nodes).1.addrs ≤ max_addrs + 1)
    × (length (put_addrs net setting true (addr 608 ∷ addr 708 ∷ []) nodes).1.addrs
        ≤ max (length nodes.addrs) (msg_max_addrs + length (addr 608 ∷ addr 708 ∷ [])))
length-put_addrs_example =
    length-put_addrs net setting true (addr 608 ∷ addr 708 ∷ []) nodes (omega arith)

put_addrs-Admitted_example :
    Admitted net setting 608 nodes.addrs
      (put_addrs net setting true (addr 608 ∷ addr 708 ∷ []) nodes).1.addrs
put_addrs-Admitted_example =
    put_addrs-Admitted net setting true (addr 608 ∷ addr 708 ∷ []) 608 nodes

lookup-init_db_example : lookup 608 (init_db net setting none).addrs ≡ (
    if in_blacklist net setting 608
    then none
    else if contains setting.default_nodes 608
    then some (default_addr 608)
    else lookup 608 (loaded none))
lookup-init_db_example = lookup-init_db net setting none 608

abbrev peer : Text → Peer
peer a = record { remote = addr a; written = [] }

abbrev nobody : Peers
nobody = record { peers = []; banned = [] }

nobody-IsKept : IsKept net setting nobody
unfolding lookup conn_size
nobody-IsKept = ((λ k q e. cc), omega arith)

abbrev history : List Event
history =
    arrived 0 5 (addr 508) 1
    ∷ added (peer 508)
    ∷ added (peer 708)
    ∷ added (peer 808)
    ∷ failed (peer 508) 9
    ∷ ended (peer 508)
    ∷ []

steps-IsKept_example : IsKept net setting (steps net setting history nobody)
steps-IsKept_example = steps-IsKept net setting history nobody nobody-IsKept

free : in_blacklist net setting 7 ≡ false
unfolding in_blacklist
free = refl

new_peer-ban_example :
    new_peer net setting 0 7 (addr 708) 50 (ban net setting (addr 708) 9 nobody)
    ≡ (inl banned_now, ban net setting (addr 708) 9 nobody)
new_peer-ban_example =
    new_peer-ban net setting (addr 708) (addr 708) 0 7 8 9 50 nobody refl free (omega arith)

new_peer-ban_over_example :
    lookup 7
      (new_peer net setting 0 7
        (addr 708)
        3600000000010
        (ban net setting (addr 708) 9 nobody)).1.banned
    ≡ none
new_peer-ban_over_example =
    new_peer-ban_over net setting (addr 708) (addr 708) 0 7 8 9 3600000000010 nobody refl free
      (omega arith)

abbrev pinged : Peer
pinged = record {
  remote = addr 708;
  written = record { cmd = cmd_ping; data_of = some 3; time = 1 } ∷ [];
}

received-Answered_example : Answered cmd_ping (some 3) pinged (received cmd_ping (some 3) pinged)
received-Answered_example = received-Answered cmd_ping (some 3) pinged
