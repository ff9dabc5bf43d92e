-- ===== src/Multiaddr.antt =====
-- The `p2p` (tentacle) crate's multiaddresses, as far as the program uses them: a parameter.
use ckb_discovery.Prelude.{ℕ, String, Option, List}
use ckb_discovery.Types.{IpAddr}
use ckb_discovery.Compress.{Bytes}

-- The protocols that the program tells apart; all others are `other`.
pub data Protocol : Type 0 where
  ip4 ip6 tcp : ℕ → Protocol
  dns4 dns6 : String → Protocol
  p2p : Bytes → Protocol
  other : Protocol

-- `parse` is `str::parse`, `try_from` reads the binary form; `none` is their error. `base58` is
-- `bs58::encode`, read as UTF-8. `to_socket_ip` is the address of `multiaddr_to_socketaddr`.
-- The `show_` fields are `Display` of the numbers and addresses of Rust's standard library.
pub record P2p : Type 1 where
  pub Multiaddr : Type 0
  pub iter : Multiaddr → List Protocol
  pub parse : String → Option Multiaddr
  pub try_from : Bytes → Option Multiaddr
  pub to_socket_ip : Multiaddr → Option IpAddr
  pub base58 : Bytes → String
  pub show_ipv4 : ℕ → String
  pub show_ipv6 : ℕ → String
  pub show_port : ℕ → String
