-- ===== src/Network.antt =====
-- src/network.rs: multiaddresses to the records of the types crate, and back. `none` is a panic.
pub mod Bootnodes
pub mod RoundTrip
pub mod Public
use Prim.Native.String.{◌++◌}
use mathlib.Core.Option
use ckb_discovery.Prelude.{
  ℕ, String, Bool, not, Option, none, some, List, [], ◌∷◌, ◌>>=◌, if◌then◌else◌,
}
use ckb_discovery.Types.{
  CkbNetworkType, IpAddr, v4, v6, is_loopback, to_ipv4, localhost, EndpointInfo, NodeMetaInfo,
}
use ckb_discovery.Multiaddr.{P2p, Protocol, ip4, ip6, tcp, dns4, dns6, p2p, other}

-- The variables of the loops over `addr.iter()`.
pub record Scan : Type 0 where
  pub peer_id : String
  pub port : ℕ
  pub address : IpAddr

abbrev pub start : Scan
start = record { peer_id = ""; port = 0; address = localhost }

-- `Option::or_else`
or_else : Option String → Option String → Option String
or_else none b = b
or_else (some a) b = some a

module _ (x : P2p) where
  open x use {Multiaddr, iter, parse, to_socket_ip, base58, show_ipv4, show_ipv6, show_port}

  -- One round of the loop of `addr_to_node_meta`.
  meta_round : Scan → Protocol → Scan
  meta_round s (ip4 a) = record s { address = v4 a }
  meta_round s (ip6 a) = record s { address = v6 a }
  meta_round s (p2p key) = record s { peer_id = base58 key }
  meta_round s (tcp p) = record s { port = p }
  meta_round s _ = s

  meta_loop : Scan → List Protocol → Scan
  meta_loop s [] = s
  meta_loop s (p ∷ ps) = meta_loop (meta_round s p) ps

  node_meta_of : Scan → CkbNetworkType → NodeMetaInfo
  node_meta_of s network = record {
    peer_id = s.peer_id;
    addresses = record { address = s.address; port = s.port } ∷ [];
    network = network;
  }

  unfoldable pub addr_to_node_meta : Multiaddr → CkbNetworkType → NodeMetaInfo
  unfolding meta_loop meta_round node_meta_of
  addr_to_node_meta addr network = node_meta_of (meta_loop start (iter addr)) network

  -- One round of the loop of `addr_to_endpoint`, which keeps no peer id.
  endpoint_round : EndpointInfo → Protocol → EndpointInfo
  endpoint_round e (ip4 a) = record e { address = v4 a }
  endpoint_round e (ip6 a) = record e { address = v6 a }
  endpoint_round e (tcp p) = record e { port = p }
  endpoint_round e _ = e

  endpoint_loop : EndpointInfo → List Protocol → EndpointInfo
  endpoint_loop e [] = e
  endpoint_loop e (p ∷ ps) = endpoint_loop (endpoint_round e p) ps

  unfoldable pub addr_to_endpoint : Multiaddr → EndpointInfo
  unfolding endpoint_loop endpoint_round
  addr_to_endpoint addr = endpoint_loop (record { address = localhost; port = 0 }) (iter addr)

  show_ip : IpAddr → String
  show_ip (v4 a) = show_ipv4 a
  show_ip (v6 a) = show_ipv6 a

  -- The closure of `find_map`.
  host_of : Protocol → Option String
  unfolding or_else
  host_of (ip4 a) = some (show_ipv4 a)
  host_of (ip6 a) = or_else (Option.map show_ipv4 (to_ipv4 a)) (some (show_ipv6 a))
  host_of (dns4 name) = some name
  host_of (dns6 name) = some name
  host_of _ = none

  find_host : List Protocol → Option String
  find_host [] = none
  find_host (p ∷ ps) = or_else (host_of p) (find_host ps)

  unwrap_host : Option String → Option IpAddr → Option String
  unfolding show_ip
  unwrap_host (some host) ip = some host
  unwrap_host none ip = do a ← ip; some (show_ip a)

  pub addr_to_ip : Multiaddr → Option String
  unfolding find_host host_of unwrap_host
  addr_to_ip addr = unwrap_host (find_host (iter addr)) (to_socket_ip addr)

  abbrev pub ip_text : IpAddr → String
  ip_text (v4 a) = "/ip4/" ++ show_ipv4 a
  ip_text (v6 a) = "/ip6/" ++ show_ipv6 a

  -- The `format!` of both arms.
  abbrev pub multiaddr_text : EndpointInfo → String → String
  multiaddr_text e id = ip_text e.address ++ ("/tcp/" ++ (show_port e.port ++ ("/p2p/" ++ id)))

  -- `filter_map`: loopback addresses are dropped; `none` in the list is a text that does not parse.
  meta_addrs : String → List EndpointInfo → List (Option Multiaddr)
  meta_addrs id [] = []
  meta_addrs id (e ∷ es) =
      let rest = meta_addrs id es in
      if is_loopback e.address then rest else parse (multiaddr_text e id) ∷ rest

  unfoldable pub meta_info_to_addr : NodeMetaInfo → List (Option Multiaddr)
  unfolding meta_addrs
  meta_info_to_addr meta = meta_addrs meta.peer_id meta.addresses
