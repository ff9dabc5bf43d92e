-- ===== src/Pipeline/Safe.antt =====
-- marci/src/main.rs and src/main.rs: what marci publishes never ends a dialer.
use ckb_discovery.Redis.Reference.{is_time}
use ckb_discovery.Prelude.{
  String, ◌≡◌, ◌≢◌, ap, ◌∙◌, ◌++◌, map, Elem-map, Bool-cases, inl, inr, str_eq, eq_iff, true,
  Option, none, some, List, [], ◌∷◌, All, Elem, All-Elem,
}
use mathlib.Core.Path.{subst}
use ckb_discovery.Types.{dev, EndpointInfo, NodeMetaInfo}
use ckb_discovery.Compress.{Bytes}
use ckb_discovery.Multiaddr.{P2p}
use ckb_discovery.Dialer.{MqttMessage, mqtt_task}
use ckb_discovery.Dialer.Task.{record_of, all_dials, IsPublicRecord, mqtt_task-public}
use ckb_discovery.Redis.{Redis, IsServer}
use ckb_discovery.Redis.Scan.{Scans, IsScan}
use ckb_discovery.Marci.Exec.{Config, IpInfo, Texts}
use ckb_discovery.Marci.Ingest.{Json}
use ckb_discovery.Marci.Broadcast.{Mqtt, Station, Input, run}
use ckb_discovery.Marci.Typed.{IsTyped}
use ckb_discovery.Marci.Running.{IsConnected}
use ckb_discovery.Marci.Networks.{HasPublicNetworks, OnPublicNetwork}
use ckb_discovery.Marci.Announcements.{due, due-IsPublic}
use ckb_discovery.Marci.Published.{Log, needs_dial, run-sent, map-Elem}

-- What is read, if anything, is one of the records.
abbrev pub IsFrom : List NodeMetaInfo → Option NodeMetaInfo → Type 0
IsFrom ps none = Unit
IsFrom ps (some node) = Elem node ps

module _ (p : P2p) (from_slice : Bytes → Option NodeMetaInfo) (ps : List NodeMetaInfo)
    (public : All (λ (node : NodeMetaInfo). node.network ≢ dev) ps) where
  IsFrom-IsPublicRecord : (o : Option NodeMetaInfo) → IsFrom ps o → IsPublicRecord p from_slice o
  IsFrom-IsPublicRecord none m = tt
  IsFrom-IsPublicRecord (some node) m =
      All-Elem (λ (n : NodeMetaInfo). n.network ≢ dev) node ps public m

  stream-IsPublicRecord :
      (stream : List (Option MqttMessage))
      → All (λ (m : Option MqttMessage). IsFrom ps (record_of p from_slice m)) stream
      → All
          (λ (m : Option MqttMessage). IsPublicRecord p from_slice (record_of p from_slice m))
          stream
  stream-IsPublicRecord [] h = tt
  stream-IsPublicRecord (m ∷ ms) (h, hs) =
      (IsFrom-IsPublicRecord (record_of p from_slice m) h, stream-IsPublicRecord ms hs)

-- A message under the topic of the records to dial has a payload that was published under it. `encode` are
-- the bytes of a text.
abbrev pub IsDelivery :
    {Text : Type 0} → (encode : Text → Bytes) → List (String × Text) → Option MqttMessage → Type 0
IsDelivery encode sent none = Unit
IsDelivery {Text} encode sent (some msg) =
    msg.topic ≡ "peer/needs_dial"
    → (text : Text) × Elem ("peer/needs_dial", text) sent × (encode text ≡ msg.payload)

module _ (j : Json) (encode : j.Text → Bytes) (p : P2p) (from_slice : Bytes → Option NodeMetaInfo)
    (ps : List NodeMetaInfo)
    (reads : (n : NodeMetaInfo)
      → Elem (needs_dial j n) (map (needs_dial j) ps)
      → from_slice (encode (j.write_node_meta_info n)) ≡ some n) where
  payload-IsFrom :
      (text : j.Text) (payload : Bytes)
      → Elem ("peer/needs_dial", text) (map (needs_dial j) ps)
      → encode text ≡ payload
      → IsFrom ps (from_slice payload)
  payload-IsFrom text payload m e =
      let (n, from, same) = map-Elem (needs_dial j) ("peer/needs_dial", text) ps m in
      let read = reads n (Elem-map (needs_dial j) n ps from) in
      rw (← e) (rw (← ap (λ (a : String × j.Text). a.1) same) (rw read from))

  IsDelivery-IsFrom :
      (m : Option MqttMessage)
      → IsDelivery encode (map (needs_dial j) ps) m
      → IsFrom ps (record_of p from_slice m)
  IsDelivery-IsFrom none h = tt
  IsDelivery-IsFrom (some msg) h = elim (Bool-cases (str_eq msg.topic "peer/needs_dial")) [
    | inr other ↦ rw other tt
    | inl same ↦
        let (text, m, e) = h ((eq_iff msg.topic "peer/needs_dial").0 same) in
        rw same (payload-IsFrom text msg.payload m e)
  ]

  All-IsFrom :
      (stream : List (Option MqttMessage))
      → All (IsDelivery encode (map (needs_dial j) ps)) stream
      → All (λ (m : Option MqttMessage). IsFrom ps (record_of p from_slice m)) stream
  All-IsFrom [] h = tt
  All-IsFrom (m ∷ ms) (h, hs) = (IsDelivery-IsFrom m h, All-IsFrom ms hs)

module _ {r : Redis} {s : IsServer r} {sc : Scans r} (x : IsScan s sc)
    (read_endpoint : String → Option EndpointInfo) {i : IpInfo} (t : Texts) (j : Json)
    {q : Mqtt j.Text} (l : Log q) (connected : IsConnected q) (cfg : Config)
    (lasts : is_time cfg.default_timeout ≡ true)
    (unknown_lasts : is_time cfg.unknown_default_timeout ≡ true) (encode : j.Text → Bytes) (p : P2p)
    (from_slice : Bytes → Option NodeMetaInfo) (es : List Input) (st : Station r i q) where
  -- What the main loop has published in the end.
  abbrev pub published : List (String × j.Text)
  published = l.sent (run r sc i t j q read_endpoint cfg es st).1.client

  -- With timeouts that Redis takes (`is_time`) and an MQTT client that publishes and has published nothing
  -- yet, on a server that answers, whose keys hold what the program keeps under them and place no
  -- peer on the development network: if none is announced on that network either, and the JSON of the
  -- records that the main loop publishes is read back, a dialer whose stream has, under the topic of the
  -- records to dial, only payloads that the main loop has published under it, in any order and any number of
  -- times, dials everything that they ask for, in order, and panics only when the stream has ended.
  pub announcements-mqtt_task :
      (stream : List (Option MqttMessage))
      → All OnPublicNetwork es
      → s.alive st.world.db ≡ true
      → IsTyped (s.view st.world.db)
      → HasPublicNetworks (s.view st.world.db)
      → l.sent st.client ≡ []
      → ((n : NodeMetaInfo)
          → Elem (needs_dial j n) published
          → from_slice (encode (j.write_node_meta_info n)) ≡ some n)
      → All (IsDelivery encode published) stream
      → mqtt_task p from_slice stream ≡ (none, all_dials p from_slice stream)
  announcements-mqtt_task stream public alive typed h empty reads delivered =
      let ps = due x read_endpoint t j q connected cfg lasts unknown_lasts es st in
      let sent =
        run-sent x read_endpoint t j l connected cfg lasts unknown_lasts es st alive typed
        ∙ ap (λ xs. xs ++ map (needs_dial j) ps) empty in
      mqtt_task-public p from_slice stream (
        stream-IsPublicRecord p from_slice ps
          (due-IsPublic x read_endpoint t j q connected cfg lasts unknown_lasts es st public alive
            typed h)
          stream
          (All-IsFrom j encode p from_slice ps
            (subst
              (λ (sent : List (String × j.Text)).
                (n : NodeMetaInfo)
                → Elem (needs_dial j n) sent
                → from_slice (encode (j.write_node_meta_info n)) ≡ some n)
              sent reads)
            stream
            (subst (λ (sent : List (String × j.Text)). All (IsDelivery encode sent) stream) sent
              delivered)))
