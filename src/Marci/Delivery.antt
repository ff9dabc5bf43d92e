-- ===== src/Marci/Delivery.antt =====
-- src/handler.rs and marci/src/main.rs: what a dialer publishes reaches the main loop of marci.
use ckb_discovery.Prelude.{
  ◌≡◌, refl, ◌==◌, Option, none, some, List, [], ◌∷◌, All, Elem, Bool-cases, inl, inr,
}
use ckb_discovery.Types.{CkbNetworkType, PeerInfo, ReachableInfo, NodeMetaInfo}
use ckb_discovery.Compress.{Bytes}
use ckb_discovery.Multiaddr.{P2p}
use ckb_discovery.Network.{addr_to_node_meta}
use ckb_discovery.Handler.{
  Wire, IdentifyPayload, peer_of, Context, Action, publish, disconnect, dial, send_message,
  set_service_notify, Payload, online, reachable, unknown, ServiceError, dialer_error,
  protocol_select_error, other_error, handle_error, received, received_discovery, received_identify,
}
use ckb_discovery.Handler.Sound.{IsSound, received_discovery-IsSound}
use ckb_discovery.Handler.Identify.{is_kept, identify_of, identify_actions, received_identify_lem}
use ckb_discovery.Marci.Ingest.{Json, Sent, to_online, to_reachable, to_unknown, topics, ingest}

-- What is written is read back.
pub record IsJson (j : Json) : Type 0 where
  pub peer_info_lem : (v : PeerInfo) → j.read_peer_info (j.write_peer_info v) ≡ some v
  pub reachable_info_lem :
      (v : ReachableInfo) → j.read_reachable_info (j.write_reachable_info v) ≡ some v
  pub node_meta_info_lem :
      (v : NodeMetaInfo) → j.read_node_meta_info (j.write_node_meta_info v) ≡ some v

abbrev pub json_of : (j : Json) → Payload → j.Text
json_of j (online v) = j.write_peer_info v
json_of j (reachable v) = j.write_reachable_info v
json_of j (unknown v) = j.write_node_meta_info v

abbrev pub sent_of : Payload → Sent
sent_of (online v) = to_online v
sent_of (reachable v) = to_reachable v
sent_of (unknown v) = to_unknown v

module _ (x : P2p) (w : Wire) (j : Json) where
  -- Marci subscribes to the topic, and the publication is sent to the channel of its kind, once and
  -- unchanged.
  abbrev pub IsDelivered : Action x.Multiaddr → Type 0
  IsDelivered (publish topic payload) =
      Elem topic topics × (ingest j topic (json_of j payload) ≡ sent_of payload ∷ [])
  IsDelivered _ = Unit

  module _ (json : IsJson j) (network : CkbNetworkType) (context : Context x.Multiaddr) where
    IsSound-IsDelivered : (a : Action x.Multiaddr) → IsSound x w network context a → IsDelivered a
    unfolding ingest
    IsSound-IsDelivered (publish topic (reachable v)) (e, _, _) =
        rw e (inr (inl refl), rw (json.reachable_info_lem v) refl)
    IsSound-IsDelivered (publish topic (online _)) h = absurd h
    IsSound-IsDelivered (publish topic (unknown _)) h = absurd h
    IsSound-IsDelivered (disconnect session) h = tt
    IsSound-IsDelivered (dial _) h = absurd h
    IsSound-IsDelivered (send_message _) h = absurd h
    IsSound-IsDelivered (set_service_notify _ _ _) h = absurd h

    All-IsDelivered :
        (actions : List (Action x.Multiaddr))
        → All (IsSound x w network context) actions
        → All IsDelivered actions
    All-IsDelivered [] h = tt
    All-IsDelivered (a ∷ actions) (h, hs) = (IsSound-IsDelivered a h, All-IsDelivered actions hs)

    identify_actions-IsDelivered :
        (payload : Option IdentifyPayload)
        → All IsDelivered (identify_actions x w network context payload)
    unfolding ingest
    identify_actions-IsDelivered none = (tt, tt)
    identify_actions-IsDelivered (some payload) = (
      (inl refl, rw (json.peer_info_lem (peer_of x w network context payload)) refl),
      elim (Bool-cases (is_kept payload.flag)) [ inl e ↦ rw e tt | inr e ↦ rw e (tt, tt) ],
    )

    received_discovery-IsDelivered :
        (bytes : Bytes) → All IsDelivered (received_discovery x w network context bytes).1
    received_discovery-IsDelivered bytes =
        All-IsDelivered _ (received_discovery-IsSound x w network context bytes)

    received_identify-IsDelivered :
        (bytes : Bytes) → All IsDelivered (received_identify x w network context bytes).1
    received_identify-IsDelivered bytes =
        rw (received_identify_lem x w network context bytes)
          (identify_actions-IsDelivered (identify_of x w bytes))

    handle_error-IsDelivered :
        (error : ServiceError x.Multiaddr) → All IsDelivered (handle_error x w network error).1
    unfolding handle_error ingest
    handle_error-IsDelivered (dialer_error address) = (
      (
        inr (inr (inl refl)),
        rw (json.node_meta_info_lem (addr_to_node_meta x address network)) refl,
      ),
      tt,
    )
    handle_error-IsDelivered (protocol_select_error session) = (tt, tt)
    handle_error-IsDelivered other_error = tt

    -- If the JSON of a published value is read back as that value, every publication that a dialer
    -- makes, for a message that it receives on any protocol or for an error of its service, is under a
    -- topic that marci subscribes to, and is sent to its channel of its kind, once and unchanged.
    pub received-IsDelivered :
        (bytes : Bytes) (error : ServiceError x.Multiaddr)
        → All IsDelivered (received x w network context bytes).1
          × All IsDelivered (handle_error x w network error).1
    unfolding received
    received-IsDelivered bytes error = (
      elim (Bool-cases (context.proto_id == 1)) [
        | inl e ↦ rw e (received_discovery-IsDelivered bytes)
        | inr e ↦ rw e (elim (Bool-cases (context.proto_id == 2)) [
          | inl f ↦ rw f (received_identify-IsDelivered bytes)
          | inr f ↦ rw f tt
        ])
      ],
      handle_error-IsDelivered error,
    )
