-- ===== src/Dialer/Start.antt =====
-- src/main.rs: `main` of the dialer, from the connection to the broker to the end of the task that reads
-- the stream. The two `p2p` services are started in between; their task never ends.
use ckb_discovery.Prelude.{
  String, ◌≡◌, refl, ap, ◌∙◌, not, Option, none, some, List, [], ◌∷◌, ok, err, is_some,
  if◌then◌else◌,
}
use ckb_discovery.Prelude.Runs.{Run, continue}
use ckb_discovery.Prelude.Texts
use ckb_discovery.Types.{NodeMetaInfo}
use ckb_discovery.Compress.{Bytes}
use ckb_discovery.Multiaddr.{P2p}
use ckb_discovery.Redis.Reference.{Reply, failed}
use ckb_discovery.Broker
use ckb_discovery.Broker.{
  expect-is_panicked, >>=-is_panicked, try-is_panicked, Broker, CreateOptions, Start, panicked,
  started, is_started, is_panicked, expect, try, ◌>>=◌, mqtt_url, conn_opts,
}
use ckb_discovery.Dialer.{Dial, MqttMessage, on_message, mqtt_task}

module _ (b : Broker) where
  -- `nanoid` is the random part of the client's name.
  abbrev create_ops : (env : String → Option String) → (nanoid : String) → CreateOptions
  create_ops env nanoid = record {
    server_uri = mqtt_url env;
    max_buffered_messages = 500;
    client_id = Texts.◌++◌ "ckb-discovery-" nanoid;
  }

  unfoldable pub dialer_start : (env : String → Option String) → (nanoid : String) → Start b.Client
  dialer_start env nanoid = do
    mqtt_client ← expect (b.create (create_ops env nanoid))
    mqtt_client' ← try (b.connect (conn_opts env 300) mqtt_client)
    try (b.subscribe ("peer/needs_dial" ∷ []) mqtt_client')

  module _ (x : P2p) (from_slice : Bytes → Option NodeMetaInfo)
      (stream : b.Client → List (Option MqttMessage)) where
    -- The `?` on the task: its panic is an error of `main`. In the code the wait for the services and `Ok`
    -- follow.
    abbrev join : Run (Dial x.Multiaddr) (Unit {0}) → Run (Dial x.Multiaddr) (Reply (Unit {0}))
    join (none, dials) = (some (err failed), dials)
    join (some _, dials) = (some (ok tt), dials)

    main_from : Start b.Client → Run (Dial x.Multiaddr) (Reply (Unit {0}))
    main_from panicked = (none, [])
    main_from Broker.failed = (some (err failed), [])
    main_from (started c) = join (mqtt_task x from_slice (stream c))

    unfoldable pub dialer_main :
        (env : String → Option String)
        → (nanoid : String) → Run (Dial x.Multiaddr) (Reply (Unit {0}))
    unfolding main_from dialer_start
    dialer_main env nanoid = main_from (dialer_start env nanoid)

    after_none :
        (m : Run (Dial x.Multiaddr) (Unit {0})) (k : Run (Dial x.Multiaddr) (Unit {0}))
        → k.0 ≡ none
        → (continue m.0 m.1 (λ _. k)).0 ≡ none
    after_none (none, done) k h = refl
    after_none (some u, done) k h = h

    mqtt_task-none : (ms : List (Option MqttMessage)) → (mqtt_task x from_slice ms).0 ≡ none
    unfolding mqtt_task
    mqtt_task-none [] = refl
    mqtt_task-none (m ∷ ms) =
        after_none (on_message x from_slice m) (mqtt_task x from_slice ms) (mqtt_task-none ms)

    join-none :
        (m : Run (Dial x.Multiaddr) (Unit {0})) → m.0 ≡ none → join m ≡ (some (err failed), m.1)
    join-none (none, dials) h = refl
    join-none (some u, dials) h = cc h

    -- What the dialer dials from a start.
    abbrev pub dials_from : Start b.Client → List (Dial x.Multiaddr)
    dials_from (started c) = (mqtt_task x from_slice (stream c)).1
    dials_from _ = []

    main_from_lem :
        (s : Start b.Client)
        → main_from s ≡ (if is_panicked s then none else some (err failed), dials_from s)
    unfolding main_from
    main_from_lem panicked = refl
    main_from_lem Broker.failed = refl
    main_from_lem (started c) =
        join-none (mqtt_task x from_slice (stream c)) (mqtt_task-none (stream c))

    -- On a stream that ends, the dialer never ends without an error: it panics if its MQTT client cannot be
    -- created, and else ends with an error, with no dial if the connection or the subscription fails,
    -- and if not with the dials of the task that reads the stream.
    pub dialer_main_lem :
        (env : String → Option String) (nanoid : String)
        → dialer_main env nanoid ≡ (
          if not (is_some (b.create (create_ops env nanoid))) then none else some (err failed),
          dials_from (dialer_start env nanoid),
        )
    unfolding dialer_main dialer_start
    dialer_main_lem env nanoid =
        main_from_lem (dialer_start env nanoid)
        ∙ ap (λ p. (if p then none else some (err failed), dials_from (dialer_start env nanoid)))
            (expect-is_panicked (b.create (create_ops env nanoid)) _ (λ c.
              >>=-is_panicked (try (b.connect (conn_opts env 300) c)) _ (try-is_panicked _)
                (λ d. try-is_panicked (b.subscribe ("peer/needs_dial" ∷ []) d))))
