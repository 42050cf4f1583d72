-- ===== src/Node/Types.antt =====
-- msg/msg.go and setting/setting.go: addresses, and the settings that the node's tables read.
use aknode.Base.{ℕ, ◌==◌, Bool, false, ◌||◌, Option, none, some, List, [], ◌∷◌}

-- A string: an address, a host or a port.
abbrev pub Text : Type 0
Text = ℕ

pub record Addr : Type 0 where
  pub address : Text
  pub service : ℕ

abbrev pub service_full : ℕ
service_full = 0

-- The functions of the standard library's package `net`.
pub record Net : Type 0 where
  pub split_host_port : Text → Option (Text × Text)
  pub join_host_port : Text → Text → Text

pub record Setting : Type 0 where
  pub blacklists : List Text
  pub default_nodes : List Text
  pub max_connections : ℕ
  pub use_tor : Bool

abbrev pub listed : List Text → Text → Bool
listed [] h = false
listed (ip ∷ ips) h = ip == h || listed ips h

abbrev pub host_of : Option (Text × Text) → Text → Text
host_of none remote = remote
host_of (some (h, _)) remote = h

unfoldable pub in_blacklist : Net → Setting → Text → Bool
in_blacklist net s remote = listed s.blacklists (host_of (net.split_host_port remote) remote)
