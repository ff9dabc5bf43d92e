-- ===== src/Marci/Redelivery.antt =====
-- marci/src/main.rs: messages that the broker delivers again, and messages about other peers.
use ckb_discovery.Redis.Reference.{is_time}
use ckb_discovery.Prelude.{String, ◌≡◌, sym, ap, ◌∙◌, true, false, Option, List, ◌∷◌, ◌++◌, retain}
use ckb_discovery.Types.{EndpointInfo}
use ckb_discovery.Redis.{Redis, IsServer}
use ckb_discovery.Redis.Scan.{Scans, IsScan}
use ckb_discovery.Marci.Exec.{Config, IpInfo, Texts}
use ckb_discovery.Marci.Ingest.{Json}
use ckb_discovery.Marci.Broadcast.{Mqtt, Station, Input, run}
use ckb_discovery.Marci.Typed.{IsTyped}
use ckb_discovery.Marci.Running.{IsConnected}
use ckb_discovery.Marci.Status.{Status, steps}
use ckb_discovery.Marci.Entries.{status_in}
use ckb_discovery.Marci.Machine.{is_pause, is_about, step-again, steps-append, steps-about}
use ckb_discovery.Marci.Tracked.{run_tracked}

steps-again :
    (cfg : Config) (id : String) (es fs : List Input) (e : Input) (s : Status)
    → is_pause e ≡ false
    → steps cfg id (es ++ e ∷ e ∷ fs) s ≡ steps cfg id (es ++ e ∷ fs) s
unfolding steps
steps-again cfg id es fs e s h =
    steps-append cfg id es (e ∷ e ∷ fs) s
    ∙ ap (steps cfg id fs) (step-again cfg id e (steps cfg id es s) h)
    ∙ sym (steps-append cfg id es (e ∷ fs) s)

module _ {r : Redis} {s : IsServer r} {sc : Scans r} (x : IsScan s sc)
    (read_endpoint : String → Option EndpointInfo) {i : IpInfo} (t : Texts) (j : Json)
    (q : Mqtt j.Text) (connected : IsConnected q) (cfg : Config)
    (lasts : is_time cfg.default_timeout ≡ true)
    (unknown_lasts : is_time cfg.unknown_default_timeout ≡ true) (st : Station r i q)
    (alive : s.alive st.world.db ≡ true) (typed : IsTyped (s.view st.world.db)) (id : String) where
  -- What the database says about the peer after some inputs.
  abbrev pub status_after : List Input → Status
  status_after es = status_in (s.view (run r sc i t j q read_endpoint cfg es st).1.world.db) id

  abbrev pub tracked :
      (es : List Input) → status_after es ≡ steps cfg id es (status_in (s.view st.world.db) id)
  tracked es =
      run_tracked x read_endpoint t j q connected cfg lasts unknown_lasts es st id alive typed

  -- With timeouts that Redis takes (`is_time`) and an MQTT client that publishes, on a server that answers and whose
  -- keys hold what the program keeps under them: a message that is handled twice in a row leaves the
  -- database saying the same about every peer, also after whatever follows, as if it was handled once.
  pub run-again :
      (es fs : List Input) (e : Input)
      → is_pause e ≡ false
      → status_after (es ++ e ∷ e ∷ fs) ≡ status_after (es ++ e ∷ fs)
  run-again es fs e h =
      tracked (es ++ e ∷ e ∷ fs)
      ∙ steps-again cfg id es fs e (status_in (s.view st.world.db) id) h
      ∙ sym (tracked (es ++ e ∷ fs))

  -- With such timeouts, client and server, what the database says about a peer is what it would say if of the
  -- messages only those about that peer had come, with the same pauses.
  pub run-about : (es : List Input) → status_after (retain (is_about id) es) ≡ status_after es
  run-about es =
      tracked (retain (is_about id) es)
      ∙ steps-about cfg id es (status_in (s.view st.world.db) id)
      ∙ sym (tracked es)
