-- ===== src/Marci/Promoted.antt =====
-- marci/src/main.rs: how many reporters make a peer an unknown one.
use ckb_discovery.Redis.Reference.{is_time}
use ckb_discovery.Prelude.{
  ℕ, ◌≤◌, String, ◌≡◌, refl, sym, ap, ◌∙◌, Bool, true, not, Option, List, [], ◌∷◌, ◌++◌, length,
  leb, is_some, str_eq, Bool-cases, inl, inr, contains,
}
use ckb_discovery.Types.{EndpointInfo, NodeMetaInfo}
use ckb_discovery.Keys.{unknown}
use ckb_discovery.Redis.{Redis, IsServer}
use ckb_discovery.Redis.Scan.{Scans, IsScan}
use ckb_discovery.Marci.Exec.{Config, IpInfo, Texts}
use ckb_discovery.Marci.Ingest.{Json}
use ckb_discovery.Marci.Arms.{online_event, unknown_event, reachable_event, wait}
use ckb_discovery.Marci.Broadcast.{Mqtt, Station, Input, message, tick, run}
use ckb_discovery.Marci.Typed.{IsTyped}
use ckb_discovery.Marci.Spec.{at}
use ckb_discovery.Marci.Running.{IsConnected, run-Runs}
use ckb_discovery.Marci.Status.{Status, nothing, step, steps}
use ckb_discovery.Marci.Entries.{status_in, timed, is_some-timed, is_some-seconds_of}
use ckb_discovery.Marci.Machine.{steps-append}
use ckb_discovery.Marci.Reporters.{reporter, reporters, steps-IsTold}
use ckb_discovery.Marci.Tracked.{run_tracked}

-- No report that the peer is online or that a dial of it failed.
abbrev pub only_announces : (id : String) → Input → Bool
only_announces id (message (online_event now peer)) = not (str_eq peer.info.peer_id id)
only_announces id (message (unknown_event now peer)) = not (str_eq peer.peer_id id)
only_announces id _ = true

abbrev pub Announcing : (id : String) → List Input → Type 0
Announcing id [] = Unit
Announcing id (e ∷ es) = (only_announces id e ≡ true) × Announcing id es

abbrev told : List String → Status
told ws = record nothing { witnesses = ws }

module _ (cfg : Config) (id : String) where
  step-told :
      (e : Input) (ws : List String)
      → only_announces id e ≡ true
      → step cfg id e (told ws) ≡ told (reporter id e ws)
  step-told (message (online_event now peer)) ws h =
      elim (Bool-cases (str_eq peer.info.peer_id id)) [
        | inl own ↦ cc (h, own)
        | inr other ↦ rw other refl
      ]
  step-told (message (unknown_event now peer)) ws h = elim (Bool-cases (str_eq peer.peer_id id)) [
    | inl own ↦ cc (h, own)
    | inr other ↦ rw other refl
  ]
  step-told (message (reachable_event now later msg)) ws h =
      elim (Bool-cases (str_eq msg.peer.peer_id id)) [
        | inl own ↦ rw own refl
        | inr other ↦ rw other refl
      ]
  step-told (message (wait n)) ws h = refl
  step-told (tick now) ws h = refl

  steps-told :
      (es : List Input) (ws : List String)
      → Announcing id es
      → steps cfg id es (told ws) ≡ told (reporters id es ws)
  unfolding steps reporters
  steps-told [] ws h = refl
  steps-told (e ∷ es) ws (h, hs) = rw (step-told e ws h) (steps-told es (reporter id e ws) hs)

  steps-promoted :
      (es : List Input) (now : ℕ) (peer : NodeMetaInfo)
      → str_eq peer.peer_id id ≡ true
      → Announcing id es
      → is_some (steps cfg id (es ++ message (unknown_event now peer) ∷ []) nothing).unknown
        ≡ leb cfg.default_witnesses (length (reporters id es []))
  unfolding steps
  steps-promoted es now peer own h =
      rw
        (
          steps-append cfg id es (message (unknown_event now peer) ∷ []) nothing,
          steps-told es [] h,
          own,
        )
        (elim (Bool-cases (leb cfg.default_witnesses (length (reporters id es [])))) [
          | inl ready ↦ rw ready refl
          | inr few ↦ rw few refl
        ])

module _ {r : Redis} {s : IsServer r} {sc : Scans r} (x : IsScan s sc)
    (read_endpoint : String → Option EndpointInfo) {i : IpInfo} (t : Texts) (j : Json)
    (q : Mqtt j.Text) (connected : IsConnected q) (cfg : Config)
    (lasts : is_time cfg.default_timeout ≡ true)
    (unknown_lasts : is_time cfg.unknown_default_timeout ≡ true) (st : Station r i q)
    (alive : s.alive st.world.db ≡ true) (typed : IsTyped (s.view st.world.db)) (id : String)
    (fresh : status_in (s.view st.world.db) id ≡ nothing) where
  -- Whether the peer has an unknown key after some inputs.
  abbrev pub is_unknown_after : List Input → Bool
  is_unknown_after es =
      is_some (at (s.view (run r sc i t j q read_endpoint cfg es st).1.world.db) (unknown id))

  is_unknown_lem :
      (es : List Input) → is_unknown_after es ≡ is_some (steps cfg id es nothing).unknown
  is_unknown_lem es =
      let v = s.view (run r sc i t j q read_endpoint cfg es st).1.world.db in
      let runs =
        run-Runs x read_endpoint t j q connected cfg lasts unknown_lasts es st alive typed in
      sym (is_some-timed (at v (unknown id)) (runs.typed.at (unknown id)))
      ∙ sym (is_some-seconds_of (timed (at v (unknown id))))
      ∙ ap (λ (u : Status). is_some u.unknown)
          (run_tracked x read_endpoint t j q connected cfg lasts unknown_lasts es st id alive typed)
      ∙ ap (λ (u : Status). is_some (steps cfg id es u).unknown) fresh

  -- With timeouts that Redis takes (`is_time`) and an MQTT client that publishes, on a server that answers, whose
  -- keys hold what the program keeps under them, and that says nothing about a peer: whatever the
  -- messages, the pauses and the ticks, if the peer has an unknown key in the end, at least as many
  -- different peers as configured have announced it.
  pub run-reporters :
      (es : List Input)
      → is_unknown_after es ≡ true
      → cfg.default_witnesses ≤ length (reporters id es [])
  unfolding contains
  run-reporters es h =
      (steps-IsTold cfg id es [] nothing
          (record { distinct = tt; among = λ u m. m; enough = λ e. cc e })).enough
        (sym (is_unknown_lem es) ∙ h)

  -- With timeouts that Redis takes (`is_time`) and an MQTT client that publishes, on a server that answers, whose
  -- keys hold what the program keeps under them, and that says nothing about a peer: after messages,
  -- pauses and ticks of which none reports that the peer is online or that a dial of it failed, the
  -- report that a dial of it failed gives it an unknown key exactly if at least as many different
  -- peers as configured have announced it.
  pub run-promoted :
      (es : List Input) (now : ℕ) (peer : NodeMetaInfo)
      → str_eq peer.peer_id id ≡ true
      → Announcing id es
      → is_unknown_after (es ++ message (unknown_event now peer) ∷ [])
        ≡ leb cfg.default_witnesses (length (reporters id es []))
  run-promoted es now peer own h =
      is_unknown_lem (es ++ message (unknown_event now peer) ∷ [])
      ∙ steps-promoted cfg id es now peer own h
