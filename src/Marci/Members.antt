-- ===== src/Marci/Members.antt =====
-- marci/src/main.rs: which peers the database lists under a network.
use ckb_discovery.Prelude.{
  ℕ, String, ◌≡◌, refl, ap, ◌∙◌, Bool, true, false, ◌&&◌, ◌||◌, Option, List, [], ◌∷◌, ok, err,
  str_eq, arith, is_some,
}
use ckb_discovery.Types.{CkbNetworkType, EndpointInfo}
use ckb_discovery.Keys.{network_quick}
use ckb_discovery.Keys.Equality.{str_eq-key_text, net_eq}
use ckb_discovery.Redis.{Redis, IsServer}
use ckb_discovery.Redis.Reference.{is_time, View, Entry, Reply}
use ckb_discovery.Redis.Scan.{Scans, IsScan}
use ckb_discovery.Marci.Exec.{Config, IpInfo, Texts, World, pure, ◌>>=◌}
use ckb_discovery.Marci.Ingest.{Json}
use ckb_discovery.Marci.Arms.{
  Event, online_event, unknown_event, reachable_event, wait, rest_for, arm,
}
use ckb_discovery.Marci.Broadcast.{Mqtt, Station, Input, message, tick, on_world, handle, run}
use ckb_discovery.Marci.BroadcastSpec.{dated, broadcast_lem, publish_each, reachable_records}
use ckb_discovery.Marci.Typed.{IsTyped}
use ckb_discovery.Marci.Spec.{at, unknown_arm_lem}
use ckb_discovery.Marci.OnlineSpec.{online_arm_lem}
use ckb_discovery.Marci.ReachableSpec.{reachable_arm_lem}
use ckb_discovery.Marci.Running.{IsConnected, handle-Runs}
use ckb_discovery.Marci.Networks.{aged-plain}

-- The input announces the peer on the network.
abbrev pub announces : (id : String) → CkbNetworkType → Input → Bool
announces id net (message (reachable_event now later msg)) =
    str_eq msg.peer.peer_id id && net_eq msg.peer.network net
announces id net _ = false

unfoldable pub is_announced : (id : String) → CkbNetworkType → List Input → Bool
is_announced id net [] = false
is_announced id net (e ∷ es) = announces id net e || is_announced id net es

abbrev pub is_member : View → String → CkbNetworkType → Bool
is_member v id net = is_some (at v (network_quick id net))

same_entry : {e e' : Option Entry} → e' ≡ e → is_some e' ≡ (false || is_some e)
same_entry h = ap is_some h ∙ (ground arith)

dated-is_member :
    (id : String) (net : CkbNetworkType) (t : Texts) (now : ℕ) (o : Reply (Unit {0})) (v : View)
    → is_member (dated t now o v) id net ≡ is_member v id net
dated-is_member id net t now (ok u) v = rw str_eq-key_text refl
dated-is_member id net t now (err f) v = refl

swapped : (a b c : Bool) → (b || (a || c)) ≡ ((a || b) || c)
swapped a b c = ground arith

module _ {r : Redis} {s : IsServer r} {sc : Scans r} (x : IsScan s sc)
    (read_endpoint : String → Option EndpointInfo) {i : IpInfo} (t : Texts) (j : Json)
    (q : Mqtt j.Text) (connected : IsConnected q) (cfg : Config)
    (lasts : is_time cfg.default_timeout ≡ true)
    (unknown_lasts : is_time cfg.unknown_default_timeout ≡ true) (id : String)
    (net : CkbNetworkType) where
  arm-is_member :
      (e : Event) (w : World r i)
      → s.alive w.db ≡ true
      → IsTyped (s.view w.db)
      → is_member (s.view (arm r i t cfg e w).1.db) id net
        ≡ (announces id net (message e) || is_member (s.view w.db) id net)
  unfolding arm rest_for
  arm-is_member (online_event now peer) w alive typed =
      same_entry ((online_arm_lem s t cfg now peer w (network_quick id net) lasts alive).1)
  arm-is_member (unknown_event now peer) w alive typed =
      same_entry
        ((unknown_arm_lem s t cfg now peer w (network_quick id net) lasts unknown_lasts alive).1)
  arm-is_member (reachable_event now later msg) w alive typed =
      rw ((reachable_arm_lem s t cfg now later msg w (network_quick id net) alive typed).1)
        (ground arith)
  arm-is_member (wait n) w alive typed = same_entry (
      ap (λ (v : View). at v (network_quick id net)) ((s.elapse_lem n w.db alive).0)
      ∙ aged-plain n _ (typed.at (network_quick id net)))

  handle-is_member :
      (e : Input) (st : Station r i q)
      → s.alive st.world.db ≡ true
      → IsTyped (s.view st.world.db)
      → is_member (s.view (handle r sc i t j q read_endpoint cfg e st).1.world.db) id net
        ≡ (announces id net e || is_member (s.view st.world.db) id net)
  unfolding handle on_world
  handle-is_member (message e) st alive typed = arm-is_member e st.world alive typed
  handle-is_member (tick now) st alive typed =
      rw ((broadcast_lem x read_endpoint t j q now st alive).stored) (
        dated-is_member id net t now
          (publish_each j q (reachable_records x read_endpoint st.world.db) st.client).0
          (s.view st.world.db)
        ∙ ground arith)

  -- The database lists a peer under a network exactly if it did before, or if it was announced on it.
  pub run-is_member :
      (es : List Input) (st : Station r i q)
      → s.alive st.world.db ≡ true
      → IsTyped (s.view st.world.db)
      → is_member (s.view (run r sc i t j q read_endpoint cfg es st).1.world.db) id net
        ≡ (is_announced id net es || is_member (s.view st.world.db) id net)
  unfolding run ◌>>=◌ pure is_announced
  run-is_member [] st alive typed = ground arith
  run-is_member (e ∷ es) st alive typed =
      let a =
        handle-Runs x read_endpoint t j q connected cfg lasts unknown_lasts e st alive typed in
      rw a.reply (
        run-is_member es (handle r sc i t j q read_endpoint cfg e st).1 a.still a.typed
        ∙ ap (λ (b : Bool). is_announced id net es || b) (handle-is_member e st alive typed)
        ∙ swapped (announces id net e) (is_announced id net es)
            (is_member (s.view st.world.db) id net))
