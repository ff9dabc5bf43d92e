-- ===== src/Handler/Sound.antt =====
-- src/handler.rs: what every action of `received_discovery` satisfies, also those before a panic.
use ckb_discovery.Prelude.{
  ◌≡◌, refl, false, not, List, [], ◌∷◌, All, All-append, retain, map, Option-cases, Bool-cases, inl,
  inr,
}
use ckb_discovery.Types.{CkbNetworkType, is_loopback, EndpointInfo, NodeMetaInfo}
use ckb_discovery.Compress.{Bytes}
use ckb_discovery.Multiaddr.{P2p}
use ckb_discovery.Network.{addr_to_node_meta, addr_to_endpoint}
use ckb_discovery.Message.{Node}
use ckb_discovery.Handler.{
  Wire, Context, Action, publish, disconnect, reachable, report_nodes, received_discovery,
}
use ckb_discovery.Handler.Discovery.{
  announced, decode_all, node_record, reports, report_node_lem, received_discovery-eq,
}

abbrev pub IsPublic : EndpointInfo → Type 0
IsPublic e = is_loopback e.address ≡ false

retain-IsPublic :
    (es : List EndpointInfo) → All IsPublic (retain (λ e. not (is_loopback e.address)) es)
retain-IsPublic [] = tt
retain-IsPublic (e ∷ es) = elim (Bool-cases (is_loopback e.address)) [
  | inl local ↦ rw local (retain-IsPublic es)
  | inr public ↦ rw public (public, retain-IsPublic es)
]

module _ (x : P2p) (w : Wire) (network : CkbNetworkType) (context : Context x.Multiaddr) where
  abbrev pub IsReport : NodeMetaInfo → Type 0
  IsReport peer = All IsPublic peer.addresses × (peer.network ≡ network)

  abbrev pub IsSound : Action x.Multiaddr → Type 0
  IsSound (publish topic (reachable info)) =
      (topic ≡ "peer/reachable")
      × IsReport info.peer
      × (info.from ≡ addr_to_node_meta x context.session_address network)
  IsSound (disconnect session) = session ≡ context.session_id
  IsSound _ = ⊥

  abbrev source : NodeMetaInfo
  source = addr_to_node_meta x context.session_address network

  reports-IsSound :
      (peers : List NodeMetaInfo)
      → All IsReport peers
      → All IsSound (reports x w context source peers)
  reports-IsSound [] h = tt
  reports-IsSound (peer ∷ peers) h = ((refl, h.0, refl), (refl, reports-IsSound peers h.1))

  node_record-IsReport : (addrs : List x.Multiaddr) → All IsReport (node_record x network addrs)
  node_record-IsReport [] = tt
  node_record-IsReport (addr ∷ addrs) =
      ((retain-IsPublic (map (addr_to_endpoint x) (addr ∷ addrs)), refl), tt)

  report_nodes-IsSound :
      (items : List Node) → All IsSound (report_nodes x w network context source items).1
  unfolding report_nodes
  report_nodes-IsSound [] = tt
  report_nodes-IsSound (node ∷ rest) =
      rw (report_node_lem x w network context source node.addresses)
        (elim (Option-cases (decode_all x node.addresses)) [
          | inl e ↦ rw e tt
          | inr (addrs, e) ↦ rw e (
              All-append IsSound (reports x w context source (node_record x network addrs)) _
                (reports-IsSound _ (node_record-IsReport addrs)) (report_nodes-IsSound rest))
        ])

  -- Every action of `received_discovery`, also before a panic, is the publication of a reachable
  -- peer with no loopback address, on the handler's network, with the session's peer as its
  -- source, or the closing of the session itself.
  pub received_discovery-IsSound :
      (bytes : Bytes) → All IsSound (received_discovery x w network context bytes).1
  received_discovery-IsSound bytes =
      rw received_discovery-eq (report_nodes-IsSound (announced (w.discovery_message bytes)))
