-- ===== src/Network/RoundTrip.antt =====
-- src/network.rs: the two scans agree, and what is dialled reads back as what was stored.
use ckb_discovery.Prelude.{
  String, ℕ, ◌≡◌, refl, ap, not, true, Option, none, some, List, [], ◌∷◌, arith, All, retain, map,
  Bool-cases, inl, inr,
}
use ckb_discovery.Types.{CkbNetworkType, IpAddr, v4, v6, is_loopback, EndpointInfo, NodeMetaInfo}
use ckb_discovery.Multiaddr.{P2p, Protocol, ip4, ip6, tcp, p2p}
use ckb_discovery.Network.{
  Scan, start, meta_loop, meta_round, endpoint_loop, endpoint_round, addr_to_node_meta,
  addr_to_endpoint, multiaddr_text, meta_addrs, meta_info_to_addr,
}

module _ (x : P2p) where
  endpoint_of : Scan → EndpointInfo
  endpoint_of s = record { address = s.address; port = s.port }

  endpoint_of-meta_round :
      (s : Scan) (p : Protocol)
      → endpoint_of (meta_round x s p) ≡ endpoint_round x (endpoint_of s) p
  unfolding endpoint_of meta_round endpoint_round
  endpoint_of-meta_round s (ip4 a) = refl
  endpoint_of-meta_round s _ = refl

  endpoint_of-meta_loop :
      (s : Scan) (ps : List Protocol)
      → endpoint_of (meta_loop x s ps) ≡ endpoint_loop x (endpoint_of s) ps
  unfolding meta_loop endpoint_loop
  endpoint_of-meta_loop s [] = refl
  endpoint_of-meta_loop s (p ∷ ps) =
      rw (← endpoint_of-meta_round s p) (endpoint_of-meta_loop (meta_round x s p) ps)

  -- The two scans of a multiaddress agree: its record has exactly one endpoint, the one that
  -- `addr_to_endpoint` computes, and the given network.
  pub addr_to_node_meta-addresses :
      (addr : x.Multiaddr) (network : CkbNetworkType)
      → ((addr_to_node_meta x addr network).addresses ≡ addr_to_endpoint x addr ∷ [])
        × ((addr_to_node_meta x addr network).network ≡ network)
  unfolding addr_to_node_meta addr_to_endpoint endpoint_of
  addr_to_node_meta-addresses addr network =
      (ap (λ e. e ∷ []) (endpoint_of-meta_loop start (x.iter addr)), refl)

  abbrev pub NoIp : Protocol → Type 0
  NoIp (ip4 a) = ⊥
  NoIp (ip6 a) = ⊥
  NoIp _ = Unit

  endpoint_loop-NoIp :
      (e : EndpointInfo) (ps : List Protocol)
      → All NoIp ps
      → (endpoint_loop x e ps).address ≡ e.address
  unfolding endpoint_loop endpoint_round
  endpoint_loop-NoIp e [] h = refl
  endpoint_loop-NoIp e (ip4 a ∷ ps) h = absurd h.0
  endpoint_loop-NoIp e (ip6 a ∷ ps) h = absurd h.0
  endpoint_loop-NoIp e (tcp p ∷ ps) h = endpoint_loop-NoIp (record e { port = p }) ps h.1
  endpoint_loop-NoIp e (_ ∷ ps) h = endpoint_loop-NoIp e ps h.1

  -- A multiaddress with no IP component, such as a DNS name, becomes a loopback endpoint.
  pub addr_to_endpoint-is_loopback :
      (addr : x.Multiaddr)
      → All NoIp (x.iter addr)
      → is_loopback (addr_to_endpoint x addr).address ≡ true
  unfolding addr_to_endpoint
  addr_to_endpoint-is_loopback addr h = rw (endpoint_loop-NoIp _ (x.iter addr) h)

  -- The protocol that stands for an address.
  abbrev pub ip_protocol : IpAddr → Protocol
  ip_protocol (v4 a) = ip4 a
  ip_protocol (v6 a) = ip6 a

  -- The crate reads the text of an endpoint and a peer id as their three protocols.
  abbrev pub ReadsBack : String → EndpointInfo → Type 0
  ReadsBack id e = record {
    addr : x.Multiaddr;
    key : List ℕ;
    parsed : x.parse (multiaddr_text x e id) ≡ some addr;
    protocols : x.iter addr ≡ ip_protocol e.address ∷ tcp e.port ∷ p2p key ∷ [];
    encoded : x.base58 key ≡ id;
  }

  abbrev pub read_node : CkbNetworkType → Option x.Multiaddr → Option NodeMetaInfo
  read_node network none = none
  read_node network (some addr) = some (addr_to_node_meta x addr network)

  abbrev pub single : NodeMetaInfo → EndpointInfo → Option NodeMetaInfo
  single meta e = some (record meta { addresses = e ∷ [] })

  addr_to_node_meta_of_protocols :
      (addr : x.Multiaddr) (key : List ℕ) (e : EndpointInfo) (network : CkbNetworkType)
      → x.iter addr ≡ ip_protocol e.address ∷ tcp e.port ∷ p2p key ∷ []
      → addr_to_node_meta x addr network
        ≡ record { peer_id = x.base58 key; addresses = e ∷ []; network = network }
  unfolding addr_to_node_meta
  addr_to_node_meta_of_protocols addr key e network h = rw h (ground arith)

  meta_addrs-read :
      (meta : NodeMetaInfo) (es : List EndpointInfo)
      → All (ReadsBack meta.peer_id) es
      → map (read_node meta.network) (meta_addrs x meta.peer_id es)
        ≡ map (single meta) (retain (λ e. not (is_loopback e.address)) es)
  unfolding meta_addrs
  meta_addrs-read meta [] h = refl
  meta_addrs-read meta (e ∷ es) (r, h) = elim (Bool-cases (is_loopback e.address)) [
    | inl local ↦ rw local (meta_addrs-read meta es h)
    | inr public ↦
        rw (public, r.parsed)
          (cc (
            meta_addrs-read meta es h,
            addr_to_node_meta_of_protocols r.addr r.key e meta.network r.protocols,
            r.encoded,
          ))
  ]

  -- A stored record whose addresses the crate reads back gives exactly one multiaddress for each
  -- of its addresses that is not a loopback one, in order; each parses, and the record made from it
  -- has the stored peer id and network and just that address.
  pub meta_info_to_addr-addr_to_node_meta :
      (meta : NodeMetaInfo)
      → All (ReadsBack meta.peer_id) meta.addresses
      → map (read_node meta.network) (meta_info_to_addr x meta)
        ≡ map (single meta) (retain (λ e. not (is_loopback e.address)) meta.addresses)
  unfolding meta_info_to_addr
  meta_info_to_addr-addr_to_node_meta meta h = meta_addrs-read meta meta.addresses h
