-- ===== src/Types.antt =====
-- types/src/lib.rs: the data that the dialer, marci and the query service exchange. An address is its
-- number: `v4` below 2 ^ 32, `v6` below 2 ^ 128, most significant part first; `is_loopback` and
-- `to_ipv4` are those of Rust's `std::net`.
pub mod Names
use ckb_discovery.Prelude.{
  ℕ, ◌+◌, ◌*◌, ◌/◌, ◌%◌, ◌^◌, String, Bool, ◌||◌, false, Option, none, some, List, [], ◌∷◌, ◌==◌,
  str_eq, if◌then◌else◌,
}

pub data CkbNetworkType : Type 0 where
  mirana pudge dev : CkbNetworkType

-- A match arm with alternatives, `"a" | "b" | ...`.
one_of : String → List String → Bool
one_of s [] = false
one_of s (t ∷ ts) = str_eq s t || one_of s ts

unfoldable pub from_string : String → CkbNetworkType
unfolding one_of
from_string s =
    if one_of s ("mirana" ∷ "ckb" ∷ "main" ∷ "mainnet" ∷ [])
    then mirana
    else if one_of s ("pudge" ∷ "ckb_testnet" ∷ "test" ∷ "testnet" ∷ [])
    then pudge
    else if one_of s ("dev" ∷ "ckb_dev" ∷ [])
    then dev
    else mirana

unfoldable pub into_legacy_str : CkbNetworkType → String
into_legacy_str mirana = "ckb"
into_legacy_str pudge = "ckb_testnet"
into_legacy_str dev = "ckb_dev"

unfoldable pub into_str : CkbNetworkType → String
into_str mirana = "mirana"
into_str pudge = "pudge"
into_str dev = "dev"

pub data IpAddr : Type 0 where
  v4 v6 : ℕ → IpAddr

-- 127.0.0.0/8 and ::1.
abbrev pub is_loopback : IpAddr → Bool
is_loopback (v4 a) = a / 2 ^ 24 == 127
is_loopback (v6 a) = a == 1

-- ::a.b.c.d and ::ffff:a.b.c.d become a.b.c.d.
abbrev pub to_ipv4 : ℕ → Option ℕ
to_ipv4 a = if a / 2 ^ 32 == 0 || a / 2 ^ 32 == 0xffff then some (a % 2 ^ 32) else none

-- "127.0.0.1".parse()
abbrev pub localhost : IpAddr
localhost = v4 (127 * 2 ^ 24 + 1)

pub record EndpointInfo : Type 0 where
  pub address : IpAddr
  pub port : ℕ

pub record NodeMetaInfo : Type 0 where
  pub peer_id : String
  pub addresses : List EndpointInfo
  pub network : CkbNetworkType

pub record ReachableInfo : Type 0 where
  pub peer : NodeMetaInfo
  pub from : NodeMetaInfo

abbrev pub new : NodeMetaInfo → NodeMetaInfo → ReachableInfo
new peer from = record { peer = peer; from = from }

pub record PeerInfo : Type 0 where
  pub info : NodeMetaInfo
  pub version : String
  pub full : Bool
  pub is_ex : Bool
