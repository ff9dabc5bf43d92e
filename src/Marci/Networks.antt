-- ===== src/Marci/Networks.antt =====
-- marci/src/main.rs: the networks that the database says its peers are on.
use ckb_discovery.Prelude.{
  ℕ, String, ◌≡◌, ◌≢◌, refl, ap, ◌∙◌, true, Option, none, some, List, [], ◌∷◌, ok, err, All, str_eq,
  Bool-cases, inl, inr,
}
use ckb_discovery.Types.{CkbNetworkType, dev, EndpointInfo, from_string}
use ckb_discovery.Types.Names.{from_string-into_str}
use ckb_discovery.Keys.{info, network, key_text}
use ckb_discovery.Keys.Equality.{str_eq-key_text}
use ckb_discovery.Redis.{Redis, IsServer}
use ckb_discovery.Redis.Reference.{is_time, View, Entry, Value, text, members, Reply, text_of, aged}
use ckb_discovery.Redis.Scan.{Scans, IsScan}
use ckb_discovery.Marci.Exec.{Config, IpInfo, Texts, World, unwrap_or, pure, ◌>>=◌}
use ckb_discovery.Marci.Ingest.{Json}
use ckb_discovery.Marci.Arms.{
  Event, online_event, unknown_event, reachable_event, wait, rest_for, arm,
}
use ckb_discovery.Marci.Broadcast.{Mqtt, Station, Input, message, tick, on_world, handle, run}
use ckb_discovery.Marci.BroadcastSpec.{dated, broadcast_lem, publish_each, reachable_records}
use ckb_discovery.Marci.Typed.{IsTyped, Fits, Shape, plain_text}
use ckb_discovery.Marci.Spec.{at, unknown_arm_lem}
use ckb_discovery.Marci.OnlineSpec.{online_arm_lem}
use ckb_discovery.Marci.ReachableSpec.{reachable_arm_lem}
use ckb_discovery.Marci.Running.{IsConnected, handle-Runs}

-- The network that is read for a peer.
abbrev pub network_in : Option Entry → CkbNetworkType
network_in e = from_string (unwrap_or "" (text_of e))

pub record HasPublicNetworks (v : View) : Type 0 where
  pub at : (id : String) → network_in (v (key_text (info network id))) ≢ dev

-- Peers are announced on public networks only.
abbrev pub OnPublicNetwork : Input → Type 0
OnPublicNetwork (message (reachable_event now later msg)) = msg.peer.network ≢ dev
OnPublicNetwork _ = Unit

aged_value :
    (n : ℕ) (v : Value) (ttl : Option ℕ)
    → Shape plain_text v ttl
    → aged n (some (record { value = v; ttl = ttl })) ≡ some (record { value = v; ttl = ttl })
aged_value n (text s) none h = refl
aged_value n (text s) (some _) h = absurd h
aged_value n (members ss) none h = absurd h
aged_value n (members ss) (some _) h = absurd h

pub aged-plain : (n : ℕ) (e : Option Entry) → Fits plain_text e → aged n e ≡ e
aged-plain n none h = refl
aged-plain n (some e) h = aged_value n e.value e.ttl h

same_network :
    (v v' : View)
    → ((id : String) → at v' (info network id) ≡ at v (info network id))
    → HasPublicNetworks v
    → HasPublicNetworks v'
same_network v v' e h = record { at = λ id. rw (e id) (h.at id) }

dated-HasPublicNetworks :
    (t : Texts) (now : ℕ) (o : Reply (Unit {0})) (v : View)
    → HasPublicNetworks v
    → HasPublicNetworks (dated t now o v)
dated-HasPublicNetworks t now (ok u) v h = same_network v _ (λ id. rw str_eq-key_text refl) h
dated-HasPublicNetworks t now (err f) v h = h

module _ {r : Redis} {s : IsServer r} {sc : Scans r} (x : IsScan s sc)
    (read_endpoint : String → Option EndpointInfo) {i : IpInfo} (t : Texts) (j : Json)
    (q : Mqtt j.Text) (connected : IsConnected q) (cfg : Config)
    (lasts : is_time cfg.default_timeout ≡ true)
    (unknown_lasts : is_time cfg.unknown_default_timeout ≡ true) where
  arm-HasPublicNetworks :
      (e : Event) (w : World r i)
      → OnPublicNetwork (message e)
      → s.alive w.db ≡ true
      → IsTyped (s.view w.db)
      → HasPublicNetworks (s.view w.db)
      → HasPublicNetworks (s.view (arm r i t cfg e w).1.db)
  unfolding arm rest_for
  arm-HasPublicNetworks (online_event now peer) w p alive typed h =
      same_network (s.view w.db) _
        (λ id. (online_arm_lem s t cfg now peer w (info network id) lasts alive).1) h
  arm-HasPublicNetworks (unknown_event now peer) w p alive typed h =
      same_network (s.view w.db) _
        (λ id. (unknown_arm_lem s t cfg now peer w (info network id) lasts unknown_lasts alive).1) h
  arm-HasPublicNetworks (reachable_event now later msg) w p alive typed h = record {
    at = λ id.
        rw ((reachable_arm_lem s t cfg now later msg w (info network id) alive typed).1)
          (elim (Bool-cases (str_eq msg.peer.peer_id id)) [
            | inl own ↦ rw own (rw ((from_string-into_str msg.peer.network).0) p)
            | inr other ↦ rw other (h.at id)
          ]);
  }
  arm-HasPublicNetworks (wait n) w p alive typed h =
      same_network (s.view w.db) _
        (λ id.
          ap (λ (v : View). at v (info network id)) ((s.elapse_lem n w.db alive).0)
          ∙ aged-plain n _ (typed.at (info network id)))
        h

  pub handle-HasPublicNetworks :
      (e : Input) (st : Station r i q)
      → OnPublicNetwork e
      → s.alive st.world.db ≡ true
      → IsTyped (s.view st.world.db)
      → HasPublicNetworks (s.view st.world.db)
      → HasPublicNetworks (s.view (handle r sc i t j q read_endpoint cfg e st).1.world.db)
  unfolding handle on_world
  handle-HasPublicNetworks (message e) st p alive typed h =
      arm-HasPublicNetworks e st.world p alive typed h
  handle-HasPublicNetworks (tick now) st p alive typed h =
      rw ((broadcast_lem x read_endpoint t j q now st alive).stored) (
        dated-HasPublicNetworks t now
          (publish_each j q (reachable_records x read_endpoint st.world.db) st.client).0
          (s.view st.world.db) h)

  -- As long as peers are announced on public networks, no history makes the database say that a peer is on another one.
  pub run-HasPublicNetworks :
      (es : List Input) (st : Station r i q)
      → All OnPublicNetwork es
      → s.alive st.world.db ≡ true
      → IsTyped (s.view st.world.db)
      → HasPublicNetworks (s.view st.world.db)
      → HasPublicNetworks (s.view (run r sc i t j q read_endpoint cfg es st).1.world.db)
  unfolding run ◌>>=◌ pure
  run-HasPublicNetworks [] st p alive typed h = h
  run-HasPublicNetworks (e ∷ es) st (p, ps) alive typed h =
      let a =
        handle-Runs x read_endpoint t j q connected cfg lasts unknown_lasts e st alive typed in
      rw a.reply (
        run-HasPublicNetworks es (handle r sc i t j q read_endpoint cfg e st).1 ps a.still a.typed
          (handle-HasPublicNetworks e st p alive typed h))
