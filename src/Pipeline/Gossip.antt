-- ===== src/Pipeline/Gossip.antt =====
-- src/handler.rs, marci/src/main.rs and src/main.rs: a peer that another one names in a discovery message is
-- dialled.
use ckb_discovery.Prelude.{
  ℕ, List, ap, ok, err, Elem-map, String, ◌≡◌, ◌≢◌, refl, sym, ◌∙◌, true, Option, some, [], ◌∷◌,
  Elem, All-Elem,
}
use mathlib.Core.Path.{subst}
use ckb_discovery.Prelude.Texts.{NoDot}
use ckb_discovery.Types.{CkbNetworkType, dev, EndpointInfo, NodeMetaInfo, ReachableInfo}
use ckb_discovery.Compress.{Bytes}
use ckb_discovery.Multiaddr.{P2p}
use ckb_discovery.Network.{multiaddr_text}
use ckb_discovery.Handler.{Wire, Context, publish, reachable, received_discovery}
use ckb_discovery.Handler.Sound.{IsPublic, IsSound, received_discovery-IsSound}
use ckb_discovery.Dialer.{dial_on, on_message}
use ckb_discovery.Redis.{Redis, IsServer}
use ckb_discovery.Redis.Scan.{Scans, IsScan}
use ckb_discovery.Marci.Exec.{Config, IpInfo, Texts, Act, pure, continue, ◌>>=◌}
use ckb_discovery.Marci.Arms.{reachable_event, arm}
use ckb_discovery.Marci.Broadcast.{Mqtt, Station, message, tick, on_world, handle, run}
use ckb_discovery.Marci.Running.{IsConnected}
use ckb_discovery.Marci.ReachableSpec.{reachable_arm_lem}
use ckb_discovery.Marci.Published.{Log, needs_dial, tick-sent, Elem-append}
use ckb_discovery.Redis.Reference.{Reply}
use ckb_discovery.Keys.{last_update}
use ckb_discovery.Marci.Ingest.{Json, to_reachable, ingest}
use ckb_discovery.Marci.Delivery.{IsJson}
use ckb_discovery.Marci.Typed.{IsTyped}
use ckb_discovery.Marci.BroadcastSpec.{stored_record, reachable_records}
use ckb_discovery.Pipeline.Redial
use ckb_discovery.Pipeline.Redial.{redial}

module _ (p : P2p) (wire : Wire) (net : CkbNetworkType) (context : Context p.Multiaddr) (j : Json)
    (json : IsJson j) {r : Redis} {s : IsServer r} {sc : Scans r} (x : IsScan s sc)
    (read_endpoint : String → Option EndpointInfo) {i : IpInfo} (t : Texts) {q : Mqtt j.Text}
    (l : Log q) (connected : IsConnected q) (cfg : Config) (now later soon : ℕ) (st : Station r i q)
    (alive : s.alive st.world.db ≡ true) (typed : IsTyped (s.view st.world.db)) where
  -- What the client has published after the report of a reachable peer and a tick.
  abbrev pub published : ReachableInfo → List (String × j.Text)
  published msg =
      l.sent
        (run r sc i t j q read_endpoint cfg
          (message (reachable_event now later msg) ∷ tick soon ∷ []) st).1.client

  -- The record of the peer that the report stores.
  abbrev pub record_for : ReachableInfo → NodeMetaInfo
  record_for msg =
      stored_record x read_endpoint
        (Redial.db x read_endpoint t cfg now later msg st.world alive typed) msg.peer.peer_id

  report-reply :
      (msg : ReachableInfo)
      → (handle r sc i t j q read_endpoint cfg (message (reachable_event now later msg)) st).0
        ≡ ok tt
  unfolding handle on_world arm
  report-reply msg = (reachable_arm_lem s t cfg now later msg st.world last_update alive typed).0

  -- The last input of a history has what it leaves.
  then_pure : (o : Reply (Unit {0}) × Station r i q) → (continue o.0 o.1 (λ _. pure tt)).1 ≡ o.1
  unfolding pure
  then_pure (ok u, st') = refl
  then_pure (err e, st') = refl

  first_ok :
      (o : Reply (Unit {0}) × Station r i q) (k : Act (Station r i q) (Unit {0}))
      → o.0 ≡ ok tt
      → continue o.0 o.1 (λ _. k) ≡ k o.1
  first_ok (ok u, st') k h = refl
  first_ok (err e, st') k h = absurd (cc h)

  run-report :
      (msg : ReachableInfo)
      → published msg
        ≡ l.sent
            (handle r sc i t j q read_endpoint cfg
              (tick soon)
              (handle r sc i t j q read_endpoint cfg
                (message (reachable_event now later msg))
                st).1).1.client
  unfolding run ◌>>=◌
  run-report msg =
      ap (λ (o : Reply (Unit {0}) × Station r i q). l.sent o.1.client)
        (first_ok
          (handle r sc i t j q read_endpoint cfg (message (reachable_event now later msg)) st)
          (run r sc i t j q read_endpoint cfg (tick soon ∷ [])) (report-reply msg))
      ∙ ap (λ (u : Station r i q). l.sent u.client)
          (then_pure (
            handle r sc i t j q read_endpoint cfg (tick soon)
              (handle r sc i t j q read_endpoint cfg (message (reachable_event now later msg))
                st).1))

  published_lem :
      (msg : ReachableInfo)
      → Elem (record_for msg) (
          reachable_records x read_endpoint
            (Redial.db x read_endpoint t cfg now later msg st.world alive typed))
      → Elem (needs_dial j (record_for msg)) (published msg)
  unfolding handle on_world arm
  published_lem msg m =
      let db = Redial.db x read_endpoint t cfg now later msg st.world alive typed in
      rw
        (run-report msg
          ∙ tick-sent x read_endpoint t j l connected cfg soon
              (handle r sc i t j q read_endpoint cfg (message (reachable_event now later msg)) st).1
              (Redial.still x read_endpoint t cfg now later msg st.world alive typed))
        (Elem-append (needs_dial j (record_for msg)) (l.sent st.client) _
          (Elem-map (needs_dial j) (record_for msg) (reachable_records x read_endpoint db) m))

  -- A discovery message that a dialer on a public network receives makes it publish reports of
  -- reachable peers. If the JSON of a published value is read back as that value, each report reaches
  -- marci's channel of reachable peers once and unchanged. On a server that answers and whose keys hold
  -- what the program keeps under them, with an MQTT client that publishes: after the report and a tick, the main loop has
  -- published the peer's stored record for the dialers, provided that the peer's id has no dot. A dialer that
  -- receives this payload and reads it back dials every address of the report whose JSON is read back and
  -- whose multiaddress parses, on the network of the dialer that received the message.
  pub gossip :
      (received : Bytes) (topic : String) (msg : ReachableInfo) (e : EndpointInfo)
      (addr : p.Multiaddr) (encode : j.Text → Bytes) (from_slice : Bytes → Option NodeMetaInfo)
      → net ≢ dev
      → Elem (publish topic (reachable msg)) (received_discovery p wire net context received).1
      → NoDot msg.peer.peer_id
      → Elem e msg.peer.addresses
      → read_endpoint (t.endpoint_json e) ≡ some e
      → p.parse (multiaddr_text p e msg.peer.peer_id) ≡ some addr
      → from_slice (encode (j.write_node_meta_info (record_for msg))) ≡ some (record_for msg)
      → (ingest j topic (j.write_reachable_info msg) ≡ to_reachable msg ∷ [])
        × Elem ("peer/needs_dial", j.write_node_meta_info (record_for msg)) (published msg)
        × Elem
            (dial_on net addr)
            (on_message p from_slice (
              some (record {
                topic = "peer/needs_dial";
                payload = encode (j.write_node_meta_info (record_for msg));
              }))).1
  unfolding ingest
  gossip received topic msg e addr encode from_slice public sent dots m round parses read =
      let payload = encode (j.write_node_meta_info (record_for msg)) in
      let (named, (addresses, network), source) =
        All-Elem (IsSound p wire net context) (publish topic (reachable msg)) _
          (received_discovery-IsSound p wire net context received) sent in
      let (listed, stored, dialled) =
        redial x read_endpoint t cfg now later msg st.world alive typed p from_slice e addr payload
          dots round m (All-Elem IsPublic e msg.peer.addresses addresses m) parses
          (λ f. public (sym network ∙ f)) read in
      (
        rw named (rw (json.reachable_info_lem msg) refl),
        published_lem msg listed,
        subst
            (λ (n : CkbNetworkType).
              Elem (dial_on n addr)
                (on_message p from_slice
                  (some (record { topic = "peer/needs_dial"; payload = payload }))).1)
            network dialled,
      )
