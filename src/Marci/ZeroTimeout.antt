-- ===== src/Marci/ZeroTimeout.antt =====
-- marci/src/main.rs: a time of 0 and one of 2 ^ 63 seconds or more for online peers, which the settings allow.
use ckb_discovery.Prelude.{
  ℕ, String, ◌≡◌, refl, true, false, Option, List, ◌∷◌, ok, err, Bool-cases, inl, inr, ◌≤◌, ltb,
  arith,
}
use ckb_discovery.Types.{EndpointInfo, PeerInfo}
use ckb_discovery.Keys.{online}
use ckb_discovery.Redis.{Redis, IsServer, reference}
use ckb_discovery.Redis.Reference.{Reply, text_of, failed, panicked}
use ckb_discovery.Redis.Scan.{Scans}
use ckb_discovery.Marci.Exec.{Config, IpInfo, Texts, World, call, attempt, to_i64, ◌>>=◌}
use ckb_discovery.Marci.Ingest.{Json}
use ckb_discovery.Marci.Arms.{online_event, mark_online, online_arm, arm}
use ckb_discovery.Marci.Broadcast.{Mqtt, Station, Input, message, on_world, handle, run}
use ckb_discovery.Marci.Refines.{abstract}
use ckb_discovery.Marci.Simulation.{online_arm-Refines}
use ckb_discovery.Marci.Spec.{at, is_ok, is_online}

module _ {i : IpInfo} (t : Texts) (cfg : Config) (zero : cfg.default_timeout ≡ 0) (now : ℕ)
    (peer : PeerInfo) where
  mark_online-err :
      (found : Reply String) (w : World reference i)
      → is_ok found ≡ false
      → (mark_online reference i t cfg peer found w).0 ≡ err failed
  unfolding mark_online call
  mark_online-err (ok s) w h = cc h
  mark_online-err (err e) w h = elim (Bool-cases peer.is_ex) [
    | inl x ↦ rw (x, zero) refl
    | inr x ↦ rw (x, zero) refl
  ]

  online_arm-err :
      (w : World reference i)
      → is_online w.db peer.info.peer_id ≡ false
      → (online_arm reference i t cfg now peer w).0 ≡ err failed
  unfolding online_arm ◌>>=◌ attempt call
  online_arm-err w h = rw (mark_online-err (text_of (at w.db (online peer.info.peer_id))) w h) refl

-- If the time for online peers is 0, then on a server that answers, the first report that a peer
-- without an online key is online ends the main loop with an error, whatever would follow.
pub run-err :
    {r : Redis} (s : IsServer r) (sc : Scans r) (read_endpoint : String → Option EndpointInfo)
    {i : IpInfo} (t : Texts) (j : Json) (q : Mqtt j.Text) (cfg : Config) (now : ℕ) (peer : PeerInfo)
    (es : List Input) (st : Station r i q)
    → cfg.default_timeout ≡ 0
    → s.alive st.world.db ≡ true
    → is_online (s.view st.world.db) peer.info.peer_id ≡ false
    → (run r sc i t j q read_endpoint cfg (message (online_event now peer) ∷ es) st).0 ≡ err failed
unfolding run ◌>>=◌ handle on_world arm
run-err s sc read_endpoint t j q cfg now peer es st zero alive offline =
    rw ((online_arm-Refines s t cfg now peer).at st.world alive).reply
      (rw (online_arm-err t cfg zero now peer (abstract s st.world) offline) refl)

overflows : (n : ℕ) → 9223372036854775808 ≤ n → ltb n 9223372036854775808 ≡ false
overflows n h = ground arith

module _ {i : IpInfo} (t : Texts) (cfg : Config) (huge : 9223372036854775808 ≤ cfg.default_timeout)
    (now : ℕ) (peer : PeerInfo) where
  mark_online-panicked :
      (found : Reply String) (w : World reference i)
      → is_ok found ≡ true
      → (mark_online reference i t cfg peer found w).0 ≡ err panicked
  unfolding mark_online to_i64 ◌>>=◌
  mark_online-panicked (ok s) w h = rw (overflows cfg.default_timeout huge) refl
  mark_online-panicked (err e) w h = cc h

  online_arm-panicked :
      (w : World reference i)
      → is_online w.db peer.info.peer_id ≡ true
      → (online_arm reference i t cfg now peer w).0 ≡ err panicked
  unfolding online_arm ◌>>=◌ attempt call
  online_arm-panicked w h =
      rw (mark_online-panicked (text_of (at w.db (online peer.info.peer_id))) w h) refl

-- If the time for online peers is 2 ^ 63 or more, then on a server that answers, the next report that a
-- peer with an online key is online ends the main loop with a panic, whatever would follow.
pub run-panicked :
    {r : Redis} (s : IsServer r) (sc : Scans r) (read_endpoint : String → Option EndpointInfo)
    {i : IpInfo} (t : Texts) (j : Json) (q : Mqtt j.Text) (cfg : Config) (now : ℕ) (peer : PeerInfo)
    (es : List Input) (st : Station r i q)
    → 9223372036854775808 ≤ cfg.default_timeout
    → s.alive st.world.db ≡ true
    → is_online (s.view st.world.db) peer.info.peer_id ≡ true
    → (run r sc i t j q read_endpoint cfg (message (online_event now peer) ∷ es) st).0
      ≡ err panicked
unfolding run ◌>>=◌ handle on_world arm
run-panicked s sc read_endpoint t j q cfg now peer es st huge alive shown =
    rw ((online_arm-Refines s t cfg now peer).at st.world alive).reply
      (rw (online_arm-panicked t cfg huge now peer (abstract s st.world) shown) refl)
