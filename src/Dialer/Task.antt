-- ===== src/Dialer/Task.antt =====
-- src/main.rs: what the task that reads the MQTT stream dials before it ends.
use ckb_discovery.Prelude.{
  ◌≡◌, ◌≢◌, refl, ◌∙◌, Option, none, some, List, [], ◌∷◌, ◌++◌, map, All, str_eq, if◌then◌else◌,
  Bool-cases, inl, inr,
}
use ckb_discovery.Types.{CkbNetworkType, mirana, pudge, dev, NodeMetaInfo}
use ckb_discovery.Compress.{Bytes}
use ckb_discovery.Multiaddr.{P2p}
use ckb_discovery.Network.{meta_info_to_addr}
use ckb_discovery.Dialer.{Dial, dial_on, MqttMessage, dial_node, on_message, mqtt_task}
use ckb_discovery.Dialer.Dials.{present, dials_of, dial_addrs_lem}

module _ (x : P2p) (from_slice : Bytes → Option NodeMetaInfo) where
  -- The record that a message of the stream asks to dial.
  abbrev pub record_of : Option MqttMessage → Option NodeMetaInfo
  record_of none = none
  record_of (some msg) = if str_eq msg.topic "peer/needs_dial" then from_slice msg.payload else none

  abbrev pub dials_for : Option NodeMetaInfo → List (Dial x.Multiaddr)
  dials_for none = []
  dials_for (some node) =
      map (dial_on node.network) (present x from_slice (meta_info_to_addr x node))

  abbrev pub all_dials : List (Option MqttMessage) → List (Dial x.Multiaddr)
  all_dials [] = []
  all_dials (msg_opt ∷ stream) = dials_for (record_of msg_opt) ++ all_dials stream

  abbrev pub IsPublicRecord : Option NodeMetaInfo → Type 0
  IsPublicRecord none = Unit
  IsPublicRecord (some node) = node.network ≢ dev

  dials_of-public :
      (network : CkbNetworkType) (addrs : List x.Multiaddr)
      → network ≢ dev
      → dials_of x from_slice network addrs ≡ (some tt, map (dial_on network) addrs)
  dials_of-public mirana addrs h = refl
  dials_of-public pudge addrs h = refl
  dials_of-public dev addrs h = absurd (h refl)

  dial_node-public :
      (node : Option NodeMetaInfo)
      → IsPublicRecord node
      → dial_node x from_slice node ≡ (some tt, dials_for node)
  unfolding dial_node
  dial_node-public none h = refl
  dial_node-public (some node) h =
      dial_addrs_lem x from_slice node.network (meta_info_to_addr x node)
      ∙ dials_of-public node.network (present x from_slice (meta_info_to_addr x node)) h

  on_message-public :
      (msg_opt : Option MqttMessage)
      → IsPublicRecord (record_of msg_opt)
      → on_message x from_slice msg_opt ≡ (some tt, dials_for (record_of msg_opt))
  unfolding on_message
  on_message-public none h = refl
  on_message-public (some msg) h = elim (Bool-cases (str_eq msg.topic "peer/needs_dial")) [
    | inl e ↦ rw e (dial_node-public (from_slice msg.payload) (rw e at h))
    | inr e ↦ rw e refl
  ]

  -- If no message of the stream asks to dial a peer of the development network, the task dials what
  -- the messages ask for, all of it and in order, and panics only when the stream has ended.
  pub mqtt_task-public :
      (stream : List (Option MqttMessage))
      → All (λ (m : Option MqttMessage). IsPublicRecord (record_of m)) stream
      → mqtt_task x from_slice stream ≡ (none, all_dials stream)
  unfolding mqtt_task
  mqtt_task-public [] h = refl
  mqtt_task-public (msg_opt ∷ stream) (p, ps) =
      rw (on_message-public msg_opt p) (rw (mqtt_task-public stream ps))

  dials_of-dev :
      (network : CkbNetworkType) (addrs : List x.Multiaddr)
      → network ≡ dev
      → addrs ≢ []
      → dials_of x from_slice network addrs ≡ (none, [])
  dials_of-dev network [] h k = absurd (k refl)
  dials_of-dev dev (addr ∷ addrs) h k = refl
  dials_of-dev mirana (addr ∷ addrs) h k = cc h
  dials_of-dev pudge (addr ∷ addrs) h k = cc h

  -- If a message asks to dial a peer of the development network that has a multiaddress, and none
  -- before it does, the task dials what the messages before it ask for, and panics: nothing of what
  -- follows in the stream is dialled.
  pub mqtt_task-dev :
      (stream rest : List (Option MqttMessage)) (msg : MqttMessage) (node : NodeMetaInfo)
      → All (λ (m : Option MqttMessage). IsPublicRecord (record_of m)) stream
      → msg.topic ≡ "peer/needs_dial"
      → from_slice msg.payload ≡ some node
      → node.network ≡ dev
      → present x from_slice (meta_info_to_addr x node) ≢ []
      → mqtt_task x from_slice (stream ++ some msg ∷ rest) ≡ (none, all_dials stream)
  unfolding mqtt_task on_message dial_node
  mqtt_task-dev [] rest msg node h topic read network some_addr =
      rw
        (
          topic,
          read,
          dial_addrs_lem x from_slice node.network (meta_info_to_addr x node),
          dials_of-dev node.network (present x from_slice (meta_info_to_addr x node)) network
              some_addr,
        )
        refl
  mqtt_task-dev (m ∷ stream) rest msg node (p, ps) topic read network some_addr =
      rw (on_message-public m p)
        (rw (mqtt_task-dev stream rest msg node ps topic read network some_addr))
