-- ===== src/Marci/Running.antt =====
-- marci/src/main.rs: neither a message nor a tick ends the main loop while the MQTT client publishes.
use ckb_discovery.Prelude.{ℕ, String, ◌≡◌, refl, ◌∙◌, true, Option, List, [], ◌∷◌, ok, err}
use ckb_discovery.Types.{EndpointInfo, NodeMetaInfo}
use ckb_discovery.Keys.{last_update}
use ckb_discovery.Redis.{Redis, IsServer}
use ckb_discovery.Redis.Reference.{is_time, View, Reply}
use ckb_discovery.Redis.Scan.{Scans, IsScan}
use ckb_discovery.Marci.Exec.{Config, IpInfo, Texts, pure, ◌>>=◌}
use ckb_discovery.Marci.Ingest.{Json}
use ckb_discovery.Marci.Typed.{IsTyped, put-IsTyped}
use ckb_discovery.Marci.Alive.{arm_alive}
use ckb_discovery.Marci.Broadcast.{Mqtt, Station, Input, message, tick, on_world, handle, run}
use ckb_discovery.Marci.BroadcastSpec.{publish_each, dated, broadcast_lem}

-- The client publishes whatever it is given.
pub record IsConnected {Text : Type 0} (q : Mqtt Text) : Type 0 where
  pub publish_lem :
      (topic : String) (text : Text) (c : q.Client) → (q.publish topic text c).0 ≡ ok tt

publish_each-ok :
    (j : Json) (q : Mqtt j.Text) (h : IsConnected q) (ps : List NodeMetaInfo) (c : q.Client)
    → (publish_each j q ps c).0 ≡ ok tt
unfolding publish_each ◌>>=◌ pure
publish_each-ok j q h [] c = refl
publish_each-ok j q h (p ∷ ps) c =
    rw (h.publish_lem "peer/needs_dial" (j.write_node_meta_info p) c) (publish_each-ok j q h ps _)

dated-IsTyped :
    (t : Texts) (now : ℕ) (o : Reply (Unit {0})) (v : View) → IsTyped v → IsTyped (dated t now o v)
dated-IsTyped t now (ok _) v h = put-IsTyped last_update _ v tt h
dated-IsTyped t now (err _) v h = h

module _ {r : Redis} {s : IsServer r} {sc : Scans r} (x : IsScan s sc)
    (read_endpoint : String → Option EndpointInfo) {i : IpInfo} (t : Texts) (j : Json)
    (q : Mqtt j.Text) (connected : IsConnected q) (cfg : Config)
    (lasts : is_time cfg.default_timeout ≡ true)
    (unknown_lasts : is_time cfg.unknown_default_timeout ≡ true) where
  -- The outcome is no error, and what the keys hold keeps its shape.
  pub record Runs (o : Reply (Unit {0}) × Station r i q) : Type 0 where
    pub reply : o.0 ≡ ok tt
    pub typed : IsTyped (s.view o.1.world.db)
    pub still : s.alive o.1.world.db ≡ true

  pub handle-Runs :
      (e : Input) (st : Station r i q)
      → s.alive st.world.db ≡ true
      → IsTyped (s.view st.world.db)
      → Runs (handle r sc i t j q read_endpoint cfg e st)
  unfolding handle on_world
  handle-Runs (message e) st alive typed =
      let (o, h, a) = arm_alive t cfg lasts unknown_lasts s e st.world alive typed in
      record { reply = o; typed = h; still = a }
  handle-Runs (tick now) st alive typed =
      let b = broadcast_lem x read_endpoint t j q now st alive in
      record {
        reply = b.reply ∙ publish_each-ok j q connected _ st.client;
        typed = rw b.stored (dated-IsTyped t now _ _ typed);
        still = b.still;
      }

  -- With timeouts that Redis takes (`is_time`) and an MQTT client that publishes, on a server that answers and whose
  -- keys hold what the program keeps under them: whatever the messages, the pauses and the ticks of the
  -- timer between them, the main loop does not end with an error, the keys still hold what the program
  -- keeps under them, and the server still answers.
  pub run-Runs :
      (es : List Input) (st : Station r i q)
      → s.alive st.world.db ≡ true
      → IsTyped (s.view st.world.db)
      → Runs (run r sc i t j q read_endpoint cfg es st)
  unfolding run ◌>>=◌ pure
  run-Runs [] st alive typed = record { reply = refl; typed = typed; still = alive }
  run-Runs (e ∷ es) st alive typed =
      let h = handle-Runs e st alive typed in
      rw h.reply (run-Runs es (handle r sc i t j q read_endpoint cfg e st).1 h.still h.typed)
