-- ===== src/Marci/Announcements.antt =====
-- marci/src/main.rs: the records that are due at the ticks of a history, and the client that has published
-- them.
use ckb_discovery.Redis.Reference.{is_time}
use ckb_discovery.Prelude.{
  ℕ, String, ◌≡◌, ◌≢◌, refl, sym, ap, ◌∙◌, true, Option, List, [], ◌∷◌, ◌++◌, All, All-append, map,
}
use ckb_discovery.Types.{dev, EndpointInfo, NodeMetaInfo}
use ckb_discovery.Keys.{keys_to_peer_ids}
use ckb_discovery.Redis.{Redis, IsServer}
use ckb_discovery.Redis.Scan.{Scans, IsScan}
use ckb_discovery.Marci.Exec.{Config, IpInfo, Texts, pure, ◌>>=◌}
use ckb_discovery.Marci.Ingest.{Json}
use ckb_discovery.Marci.Broadcast.{Mqtt, Station, Input, message, tick, on_world, handle, run}
use ckb_discovery.Marci.BroadcastSpec.{
  publish_each, broadcast_lem, stored_record, reachable_records,
}
use ckb_discovery.Marci.Typed.{IsTyped}
use ckb_discovery.Marci.Running.{IsConnected, handle-Runs}
use ckb_discovery.Marci.Networks.{HasPublicNetworks, OnPublicNetwork, handle-HasPublicNetworks}

module _ (j : Json) (q : Mqtt j.Text) where
  -- The client after some records are published.
  abbrev pub sent_all : List NodeMetaInfo → q.Client → q.Client
  sent_all ps c = (publish_each j q ps c).1

  publish_each-append :
      IsConnected q
      → (ps qs : List NodeMetaInfo) (c : q.Client)
      → sent_all (ps ++ qs) c ≡ sent_all qs (sent_all ps c)
  unfolding publish_each ◌>>=◌ pure
  publish_each-append connected [] qs c = refl
  publish_each-append connected (p ∷ ps) qs c =
      rw (sent_all, connected.publish_lem "peer/needs_dial" (j.write_node_meta_info p) c)
        (publish_each-append connected ps qs _)

abbrev IsPublic : NodeMetaInfo → Type 0
IsPublic p = p.network ≢ dev

module _ {r : Redis} {s : IsServer r} {sc : Scans r} (x : IsScan s sc)
    (read_endpoint : String → Option EndpointInfo) where
  stored_records-IsPublic :
      (db : r.Db) (ids : List String)
      → HasPublicNetworks (s.view db)
      → All IsPublic (map (stored_record x read_endpoint db) ids)
  stored_records-IsPublic db [] h = tt
  stored_records-IsPublic db (id ∷ ids) h = (h.at id, stored_records-IsPublic db ids h)

module _ {r : Redis} {s : IsServer r} {sc : Scans r} (x : IsScan s sc)
    (read_endpoint : String → Option EndpointInfo) {i : IpInfo} (t : Texts) (j : Json)
    (q : Mqtt j.Text) (cfg : Config) where
  -- The client after a tick.
  pub tick-client :
      (now : ℕ) (st : Station r i q)
      → s.alive st.world.db ≡ true
      → (handle r sc i t j q read_endpoint cfg (tick now) st).1.client
        ≡ sent_all j q (reachable_records x read_endpoint st.world.db) st.client
  unfolding handle on_world publish_each pure
  tick-client now st alive = (broadcast_lem x read_endpoint t j q now st alive).client

module _ {r : Redis} {s : IsServer r} {sc : Scans r} (x : IsScan s sc)
    (read_endpoint : String → Option EndpointInfo) {i : IpInfo} (t : Texts) (j : Json)
    (q : Mqtt j.Text) (connected : IsConnected q) (cfg : Config)
    (lasts : is_time cfg.default_timeout ≡ true)
    (unknown_lasts : is_time cfg.unknown_default_timeout ≡ true) where
  -- The records that are due at an input: at a tick, those stored of the peers with a reachable key.
  abbrev pub due_by : Input → Station r i q → List NodeMetaInfo
  due_by (message e) st = []
  due_by (tick now) st = reachable_records x read_endpoint st.world.db

  unfoldable pub due : List Input → Station r i q → List NodeMetaInfo
  due [] st = []
  due (e ∷ es) st = due_by e st ++ due es (handle r sc i t j q read_endpoint cfg e st).1

  handle-client :
      (e : Input) (st : Station r i q)
      → s.alive st.world.db ≡ true
      → (handle r sc i t j q read_endpoint cfg e st).1.client ≡ sent_all j q (due_by e st) st.client
  unfolding handle on_world publish_each pure
  handle-client (message e) st alive = refl
  handle-client (tick now) st alive = tick-client x read_endpoint t j q cfg now st alive

  -- With timeouts that Redis takes (`is_time`) and an MQTT client that publishes, on a server that answers and whose
  -- keys hold what the program keeps under them: what a history makes the client publish are the
  -- records that are stored, at each tick of it, of the peers with a reachable key, and nothing else.
  pub run-client :
      (es : List Input) (st : Station r i q)
      → s.alive st.world.db ≡ true
      → IsTyped (s.view st.world.db)
      → (run r sc i t j q read_endpoint cfg es st).1.client ≡ sent_all j q (due es st) st.client
  unfolding run ◌>>=◌ pure due publish_each
  run-client [] st alive typed = refl
  run-client (e ∷ es) st alive typed =
      let a =
        handle-Runs x read_endpoint t j q connected cfg lasts unknown_lasts e st alive typed in
      let next = (handle r sc i t j q read_endpoint cfg e st).1 in
      rw a.reply (
        run-client es next a.still a.typed
        ∙ ap (sent_all j q (due es next)) (handle-client e st alive)
        ∙ sym (publish_each-append j q connected (due_by e st) (due es next) st.client))

  due_by-IsPublic :
      (e : Input) (st : Station r i q)
      → HasPublicNetworks (s.view st.world.db)
      → All IsPublic (due_by e st)
  due_by-IsPublic (message e) st h = tt
  due_by-IsPublic (tick now) st h =
      stored_records-IsPublic x read_endpoint st.world.db
        (keys_to_peer_ids (x.listed "peer.reachable.*" st.world.db)) h

  pub due-IsPublic :
      (es : List Input) (st : Station r i q)
      → All OnPublicNetwork es
      → s.alive st.world.db ≡ true
      → IsTyped (s.view st.world.db)
      → HasPublicNetworks (s.view st.world.db)
      → All (λ (p : NodeMetaInfo). p.network ≢ dev) (due es st)
  unfolding due
  due-IsPublic [] st p alive typed h = tt
  due-IsPublic (e ∷ es) st (p, ps) alive typed h =
      let a =
        handle-Runs x read_endpoint t j q connected cfg lasts unknown_lasts e st alive typed in
      All-append IsPublic (due_by e st) _ (due_by-IsPublic e st h) (
        due-IsPublic es (handle r sc i t j q read_endpoint cfg e st).1 ps a.still a.typed (
          handle-HasPublicNetworks x read_endpoint t j q connected cfg lasts unknown_lasts e st p
            alive typed h))
