-- ===== src/Tests/Doubles.antt =====
-- Stand-ins for `snap`, `p2p`, `ckb_types` and `redis`, simple enough to run.
use ckb_discovery.Prelude.{
  ℕ, String, refl, sym, ap, arith, ◌>>=◌, true, false, Option, none, some, List, [], ◌∷◌, length,
  str_eq, ◌==◌, if◌then◌else◌,
}
use ckb_discovery.Compress.{Bytes, Snap, IsCodec}
use ckb_discovery.Multiaddr.{P2p, Protocol, ip4, tcp, p2p}
use ckb_discovery.Message.{Node, nodes, DiscoveryMessage}
use ckb_discovery.Handler.{Wire, IdentifyPayload}
use ckb_discovery.Redis.{IsServer, reference}
use ckb_discovery.Marci.Exec.{IpInfo, Texts}

-- A codec that takes every input and stores it as it is.
abbrev stored_block : Bytes → ℕ → Option Bytes
stored_block block n = if length block == n then some block else none

abbrev pub store : Snap
store = record {
  compress_vec = λ input. some input;
  decompress_len = λ block. some (length block);
  decompress = stored_block;
}

pub store-IsCodec : IsCodec store
store-IsCodec = record {
  encoded_len = λ input block e. ap (λ (b : Option Bytes). b >>= (λ c. some (length c))) (sym e);
  decoded = λ input block e. ground arith;
  buffer_len = λ block n out e. ground arith;
}

-- A multiaddress is its protocols. One text is known, and a binary address is its IP number.
abbrev protocols_of : Bytes → Option (List Protocol)
protocols_of [] = none
protocols_of (a ∷ _) = some (ip4 a ∷ tcp 8114 ∷ p2p (a ∷ []) ∷ [])

abbrev name_of : Bytes → String
name_of [] = ""
name_of (_ ∷ _) = "Qm"

abbrev pub known_text : String
known_text = "/ip4/52.33.75.45/tcp/8114/p2p/Qm"

abbrev pub known_ip : ℕ
known_ip = 874597165

abbrev pub known_addr : List Protocol
known_addr = ip4 known_ip ∷ tcp 8114 ∷ p2p (known_ip ∷ []) ∷ []

abbrev pub toy_p2p : P2p
toy_p2p = record {
  Multiaddr = List Protocol;
  iter = λ addr. addr;
  parse = λ s. if str_eq s known_text then some known_addr else none;
  try_from = protocols_of;
  to_socket_ip = λ _. none;
  base58 = name_of;
  show_ipv4 = λ _. "52.33.75.45";
  show_ipv6 = λ _. "::";
  show_port = λ _. "8114";
}

-- The first byte says what the message is.
abbrev node_for : ℕ → Node
node_for a = record { addresses = (a ∷ []) ∷ (2130706433 ∷ []) ∷ [] }

abbrev discovery_of : Bytes → Option DiscoveryMessage
discovery_of [] = none
discovery_of (a ∷ _) = some (record {
  payload =
      nodes (record { announce = false; items = node_for a ∷ record { addresses = [] } ∷ [] });
})

-- An identify payload is its flag.
abbrev identify_of_bytes : Bytes → Option IdentifyPayload
identify_of_bytes [] = none
identify_of_bytes (flag ∷ _) = some (record { client_version = []; flag = flag })

abbrev pub toy_wire : Wire
toy_wire = record {
  identify_message = λ bytes. some bytes;
  identify_payload = identify_of_bytes;
  discovery_message = discovery_of;
  discovery_bytes = λ _. [];
  from_utf8_lossy = λ _. "0.120";
}

-- The reference map is a server that always answers.
abbrev pub reference-IsServer : IsServer reference
reference-IsServer = record {
  view = λ v. v;
  alive = λ _. true;
  get_lem = λ k db h. record { reply = refl; stored = refl; still = refl };
  set_lem = λ k v db h. record { reply = refl; stored = refl; still = refl };
  set_ex_lem = λ k v n db h. record { reply = refl; stored = refl; still = refl };
  expire_lem = λ k n db h. record { reply = refl; stored = refl; still = refl };
  del_lem = λ k db h. record { reply = refl; stored = refl; still = refl };
  sadd_lem = λ k v db h. record { reply = refl; stored = refl; still = refl };
  scard_lem = λ k db h. record { reply = refl; stored = refl; still = refl };
  elapse_lem = λ n db h. (refl, refl);
}

-- A service that knows nothing.
abbrev pub silent : IpInfo
silent = record { Service = Unit {0}; lookup = λ _ u. (none, u) }

abbrev pub toy_texts : Texts
toy_texts = record {
  show_ip = λ _. "52.33.75.45";
  endpoint_json = λ _. "{}";
  show_bool = λ b. if b then "1" else "0";
  show_u64 = λ _. "7";
}
