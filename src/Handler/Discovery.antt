-- ===== src/Handler/Discovery.antt =====
-- src/handler.rs: `received_discovery`, against the nodes that the message announces.
use ckb_discovery.Prelude.{
  ◌≡◌, refl, ◌↔◌, ap, not, Option, none, some, List, [], ◌∷◌, ◌++◌, ◌>>=◌, arith, retain, map,
  Option-cases, inl, inr,
}
use ckb_discovery.Types.{CkbNetworkType, is_loopback, EndpointInfo, NodeMetaInfo, new}
use ckb_discovery.Compress.{Bytes}
use ckb_discovery.Multiaddr.{P2p}
use ckb_discovery.Network.{addr_to_node_meta, addr_to_endpoint}
use ckb_discovery.Network.RoundTrip.{addr_to_node_meta-addresses}
use ckb_discovery.Message.{Node, get_nodes, nodes, DiscoveryMessage, DiscoveryPayload}
use ckb_discovery.Handler.{
  Wire, Context, Action, publish, disconnect, reachable, Effects, push_endpoints, report_node,
  report_nodes, payload_arm, received_discovery,
}

abbrev announced_by : DiscoveryPayload → List Node
announced_by (nodes announced) = announced.items
announced_by (get_nodes _) = []

-- The nodes that a message announces; a message that cannot be read announces none.
abbrev pub announced : Option DiscoveryMessage → List Node
announced none = []
announced (some message) = announced_by message.payload

module _ (x : P2p) where
  -- Every address of the list, or `none` if one is malformed.
  unfoldable pub decode_all : List Bytes → Option (List x.Multiaddr)
  decode_all [] = some []
  decode_all (b ∷ bs) = do addr ← x.try_from b; addrs ← decode_all bs; some (addr ∷ addrs)

  abbrev pub public_endpoints : List x.Multiaddr → List EndpointInfo
  public_endpoints addrs =
      retain (λ e. not (is_loopback e.address)) (map (addr_to_endpoint x) addrs)

  -- The record of a node: the peer id of its first address, and the endpoints of them all, less
  -- the loopback ones. A node with no address has none.
  abbrev pub node_record : CkbNetworkType → List x.Multiaddr → List NodeMetaInfo
  node_record network [] = []
  node_record network (addr ∷ addrs) =
      record {
        peer_id = (addr_to_node_meta x addr network).peer_id;
        addresses = public_endpoints (addr ∷ addrs);
        network = network;
      }
      ∷ []

  unfoldable pub decode_nodes : CkbNetworkType → List Node → Option (List NodeMetaInfo)
  decode_nodes network [] = some []
  decode_nodes network (node ∷ rest) = do
    addrs ← decode_all node.addresses
    records ← decode_nodes network rest
    some (node_record network addrs ++ records)

module _ (x : P2p) (w : Wire) where
  -- What the handler does about the records: each is published with its source, and the session is
  -- closed after each.
  abbrev pub reports :
      Context x.Multiaddr → NodeMetaInfo → List NodeMetaInfo → List (Action x.Multiaddr)
  reports context from [] = []
  reports context from (peer ∷ peers) =
      publish "peer/reachable" (reachable (new peer from))
      ∷ disconnect context.session_id
      ∷ reports context from peers

  reports-append :
      (context : Context x.Multiaddr) (from : NodeMetaInfo) (ps qs : List NodeMetaInfo)
      → reports context from (ps ++ qs) ≡ reports context from ps ++ reports context from qs
  reports-append context from [] qs = refl
  reports-append context from (p ∷ ps) qs = rw (reports-append context from ps qs)

  push_endpoints_lem :
      (bs : List Bytes)
      → push_endpoints x w bs
        ≡ (decode_all x bs >>= (λ addrs. some (map (addr_to_endpoint x) addrs)), [])
  unfolding push_endpoints decode_all
  push_endpoints_lem [] = refl
  push_endpoints_lem (b ∷ bs) = ground (arith, push_endpoints_lem bs)

  abbrev after_decode :
      Context x.Multiaddr → NodeMetaInfo → Option (List NodeMetaInfo) → Effects x w
  after_decode context from none = (none, [])
  after_decode context from (some records) = (some tt, reports context from records)

  pub report_node_lem :
      (network : CkbNetworkType) (context : Context x.Multiaddr) (from : NodeMetaInfo)
      (bs : List Bytes)
      → report_node x w network context from bs
        ≡ after_decode context from
            (decode_all x bs >>= (λ addrs. some (node_record x network addrs)))
  unfolding report_node decode_all
  report_node_lem network context from [] = refl
  report_node_lem network context from (first ∷ more) = elim (Option-cases (x.try_from first)) [
    | inl e ↦ rw e
    | inr (addr, e) ↦ rw e (elim (Option-cases (decode_all x more)) [
      | inl f ↦ rw (push_endpoints_lem more) (rw f)
      | inr (addrs, f) ↦ rw (push_endpoints_lem more) (
          rw
            (
              f,
              (addr_to_node_meta-addresses x addr network).0,
              (addr_to_node_meta-addresses x addr network).1,
            )
            refl)
    ])
  ]

  module _ (network : CkbNetworkType) (context : Context x.Multiaddr) (from : NodeMetaInfo) where
    report_nodes_lem :
        (items : List Node) (records : List NodeMetaInfo)
        → decode_nodes x network items ≡ some records
        → report_nodes x w network context from items ≡ (some tt, reports context from records)
    unfolding report_nodes decode_nodes
    report_nodes_lem [] records h = ground arith
    report_nodes_lem (node ∷ rest) records h = elim (Option-cases (decode_all x node.addresses)) [
      | inl e ↦ absurd (cc (rw (e, decode_nodes) at h))
      | inr (addrs, e) ↦ elim (Option-cases (decode_nodes x network rest)) [
        | inl f ↦ absurd (cc (rw (e, f, decode_nodes) at h))
        | inr (others, f) ↦ rw (report_node_lem network context from node.addresses) (
            rw e (
              rw (report_nodes_lem rest others f)
                (ground (arith, reports-append context from (node_record x network addrs) others))))
      ]
    ]

    report_nodes-none :
        (items : List Node)
        → decode_nodes x network items ≡ none
        → (report_nodes x w network context from items).0 ≡ none
    unfolding report_nodes decode_nodes
    report_nodes-none [] h = cc
    report_nodes-none (node ∷ rest) h = elim (Option-cases (decode_all x node.addresses)) [
      | inl e ↦ rw (report_node_lem network context from node.addresses) (rw e refl)
      | inr (addrs, e) ↦ elim (Option-cases (decode_nodes x network rest)) [
        | inl f ↦
            rw (report_node_lem network context from node.addresses)
              (rw e (report_nodes-none rest f))
        | inr (others, f) ↦ absurd (cc (rw (e, f, decode_nodes) at h))
      ]
    ]

  module _ (network : CkbNetworkType) (context : Context x.Multiaddr) (bytes : Bytes) where
    -- The records of the announced nodes; `none` if a node has a malformed address.
    abbrev pub records_of : Option (List NodeMetaInfo)
    records_of = decode_nodes x network (announced (w.discovery_message bytes))

    payload_arm_lem :
        (payload : DiscoveryPayload)
        → payload_arm x w network context payload
          ≡ report_nodes x w network context
              (addr_to_node_meta x context.session_address network)
              (announced_by payload)
    unfolding payload_arm
    payload_arm_lem (nodes announced) = refl
    payload_arm_lem (get_nodes _) = refl

    pub received_discovery-eq :
        received_discovery x w network context bytes
        ≡ report_nodes x w network context
            (addr_to_node_meta x context.session_address network)
            (announced (w.discovery_message bytes))
    unfolding received_discovery
    received_discovery-eq = elim (Option-cases (w.discovery_message bytes)) [
      | inl e ↦ rw e (unfold report_nodes in refl)
      | inr (message, e) ↦ rw e (payload_arm_lem message.payload)
    ]

    -- If every announced address is well formed, the handler returns, and its actions are, for each
    -- node with an address, in order, the publication of its record and the closing of the session.
    pub received_discovery-reports :
        (records : List NodeMetaInfo)
        → records_of ≡ some records
        → received_discovery x w network context bytes
          ≡ (some tt, reports context (addr_to_node_meta x context.session_address network) records)
    received_discovery-reports records h =
        rw received_discovery-eq (report_nodes_lem network context _ _ records h)

    -- `received_discovery` panics exactly when an announced address is malformed.
    pub received_discovery-panic_iff :
        ((received_discovery x w network context bytes).0 ≡ none) ↔ (records_of ≡ none)
    received_discovery-panic_iff =
        rw received_discovery-eq
          (panics, report_nodes-none network context _ (announced (w.discovery_message bytes)))
      where
        panics :
            (report_nodes x w network context
                (addr_to_node_meta x context.session_address network)
                (announced (w.discovery_message bytes))).0
              ≡ none
            → records_of ≡ none
        panics h = elim (Option-cases records_of) [
          | inl e ↦ e
          | inr (records, e) ↦ absurd (
              cc
                (h, ap (λ (r : Effects x w). r.0) (report_nodes_lem network context _ _ records e)))
        ]
