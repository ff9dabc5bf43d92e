-- ===== src/Marci/Tracked.antt =====
-- marci/src/main.rs: the main loop moves every peer as the machine of its status does.
use ckb_discovery.Prelude.{ℕ, String, ◌≡◌, refl, true, Option, List, [], ◌∷◌, ok, err}
use ckb_discovery.Types.{EndpointInfo}
use ckb_discovery.Keys.Equality.{str_eq-key_text}
use ckb_discovery.Redis.{Redis, IsServer}
use ckb_discovery.Redis.Reference.{is_time, View, Reply}
use ckb_discovery.Redis.Scan.{Scans, IsScan}
use ckb_discovery.Marci.Exec.{Config, IpInfo, Texts, World, pure, ◌>>=◌}
use ckb_discovery.Marci.Ingest.{Json}
use ckb_discovery.Marci.Arms.{
  Event, online_event, unknown_event, reachable_event, wait, rest_for, arm,
}
use ckb_discovery.Marci.Broadcast.{Mqtt, Station, Input, message, tick, on_world, handle, run}
use ckb_discovery.Marci.BroadcastSpec.{dated, broadcast_lem, publish_each, reachable_records}
use ckb_discovery.Marci.Typed.{IsTyped}
use ckb_discovery.Marci.Spec.{unknown_arm_lem}
use ckb_discovery.Marci.OnlineSpec.{online_arm_lem}
use ckb_discovery.Marci.ReachableSpec.{reachable_arm_lem}
use ckb_discovery.Marci.Running.{IsConnected, handle-Runs}
use ckb_discovery.Marci.Status.{step, steps}
use ckb_discovery.Marci.Entries.{status_in}
use ckb_discovery.Marci.Seen.{online_tracks}
use ckb_discovery.Marci.Tracks.{same_status, unknown_tracks, reachable_tracks, wait_tracks}

dated_status :
    (t : Texts) (now : ℕ) (o : Reply (Unit {0})) (v : View) (id : String)
    → status_in (dated t now o v) id ≡ status_in v id
dated_status t now (ok u) v id =
    same_status v (dated t now (ok u) v) id (rw str_eq-key_text refl) (rw str_eq-key_text refl)
      (rw str_eq-key_text refl) (rw str_eq-key_text refl)
dated_status t now (err f) v id = refl

module _ {r : Redis} {s : IsServer r} {sc : Scans r} (x : IsScan s sc)
    (read_endpoint : String → Option EndpointInfo) {i : IpInfo} (t : Texts) (j : Json)
    (q : Mqtt j.Text) (connected : IsConnected q) (cfg : Config)
    (lasts : is_time cfg.default_timeout ≡ true)
    (unknown_lasts : is_time cfg.unknown_default_timeout ≡ true) where
  arm_tracked :
      (e : Event) (w : World r i) (id : String)
      → s.alive w.db ≡ true
      → IsTyped (s.view w.db)
      → status_in (s.view (arm r i t cfg e w).1.db) id
        ≡ step cfg id (message e) (status_in (s.view w.db) id)
  unfolding arm rest_for
  arm_tracked (online_event now peer) w id alive typed =
      online_tracks t cfg lasts (s.view w.db)
        (s.view (arm r i t cfg (online_event now peer) w).1.db) id now peer _ _ typed
        (λ k. (online_arm_lem s t cfg now peer w k lasts alive).1)
  arm_tracked (unknown_event now peer) w id alive typed =
      unknown_tracks t cfg lasts (s.view w.db)
        (s.view (arm r i t cfg (unknown_event now peer) w).1.db) id now peer typed
        (λ k. (unknown_arm_lem s t cfg now peer w k lasts unknown_lasts alive).1)
  arm_tracked (reachable_event now later msg) w id alive typed =
      reachable_tracks t cfg lasts (s.view w.db)
        (s.view (arm r i t cfg (reachable_event now later msg) w).1.db) id _ _ now later msg typed
        (λ k. (reachable_arm_lem s t cfg now later msg w k alive typed).1)
  arm_tracked (wait n) w id alive typed =
      wait_tracks t cfg lasts (s.view w.db) (s.view (arm r i t cfg (wait n) w).1.db) id n typed
        (s.elapse_lem n w.db alive).0

  handle_tracked :
      (e : Input) (st : Station r i q) (id : String)
      → s.alive st.world.db ≡ true
      → IsTyped (s.view st.world.db)
      → status_in (s.view (handle r sc i t j q read_endpoint cfg e st).1.world.db) id
        ≡ step cfg id e (status_in (s.view st.world.db) id)
  unfolding handle on_world
  handle_tracked (message e) st id alive typed = arm_tracked e st.world id alive typed
  handle_tracked (tick now) st id alive typed =
      rw ((broadcast_lem x read_endpoint t j q now st alive).stored) (
        dated_status t now
          (publish_each j q (reachable_records x read_endpoint st.world.db) st.client).0
          (s.view st.world.db) id)

  -- With timeouts that Redis takes (`is_time`) and an MQTT client that publishes, on a server that answers and whose
  -- keys hold what the program keeps under them: after any messages, pauses and ticks, what the
  -- database says about a peer (the version under its online key and its ex-online key, how long these
  -- and its unknown key stay, and who announced it) is what the machine of that peer's status makes,
  -- by the same inputs, of what the database said before. The machine reads nothing about other peers.
  pub run_tracked :
      (es : List Input) (st : Station r i q) (id : String)
      → s.alive st.world.db ≡ true
      → IsTyped (s.view st.world.db)
      → status_in (s.view (run r sc i t j q read_endpoint cfg es st).1.world.db) id
        ≡ steps cfg id es (status_in (s.view st.world.db) id)
  unfolding run ◌>>=◌ pure steps
  run_tracked [] st id alive typed = refl
  run_tracked (e ∷ es) st id alive typed =
      let h =
        handle-Runs x read_endpoint t j q connected cfg lasts unknown_lasts e st alive typed in
      rw h.reply (
        rw (← handle_tracked e st id alive typed)
          (run_tracked es (handle r sc i t j q read_endpoint cfg e st).1 id h.still h.typed))
