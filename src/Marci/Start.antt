-- ===== src/Marci/Start.antt =====
-- marci/src/main.rs: `main` up to its loop: the settings, the connection to the MQTT broker and the one to
-- Redis. The clients of the `paho_mqtt` and `redis` crates and `tokio`'s timer are parameters.
-- The task that reads the stream, which is spawned before the timer is made, is in Marci/Ingest.
use ckb_discovery.Prelude.{
  ℕ, ◌==◌, ◌||◌, String, ◌≡◌, refl, ap, ◌∙◌, ◌&&◌, not, Bool, false, Option, none, some, is_some,
}
use ckb_discovery.Prelude.Decimal.{text_or}
use ckb_discovery.Broker.{
  Broker, CreateOptions, Start, panicked, failed, started, is_started, is_panicked, expect, try,
  need, ◌>>=◌, mqtt_url, conn_opts, expect-is_panicked, expect-is_started, >>=-is_panicked,
  try-is_panicked, need-is_panicked,
}
use ckb_discovery.Marci.Ingest.{topics}
use ckb_discovery.Marci.Settings.{Settings, settings}

-- `redis::Client`: `open_url` reads the address, `connect` makes the connection.
pub record RedisClient : Type 1 where
  pub Client : Type 0
  pub Connection : Type 0
  pub open_url : String → Option Client
  pub connect : Client → Option Connection

-- `tokio::time::interval` with a period in seconds, `none` for its panic.
pub record Clock : Type 1 where
  pub Interval : Type 0
  pub interval : ℕ → Option Interval

-- It is documented to panic if the period is zero.
pub record IsClock (clock : Clock) : Type 0 where
  pub interval_lem : (seconds : ℕ) → is_some (clock.interval seconds) ≡ not (seconds == 0)

-- What the loop starts with.
pub record Ready (Mqtt Con Interval : Type 0) : Type 0 where
  pub read : Settings
  pub pub_context : Mqtt
  pub con : Con
  pub timer : Interval

module _ (b : Broker) (r : RedisClient) where
  abbrev marci_create_ops : (env : String → Option String) → CreateOptions
  marci_create_ops env = record {
    server_uri = mqtt_url env;
    max_buffered_messages = 1000;
    client_id = "MARCI_v5";
  }

  unfoldable pub marci_mqtt : (env : String → Option String) → Start b.Client
  marci_mqtt env = do
    mqtt_client ← expect (b.create (marci_create_ops env))
    mqtt_client' ← try (b.connect (conn_opts env 100) mqtt_client)
    try (b.subscribe topics mqtt_client')

  unfoldable pub marci_redis : (env : String → Option String) → Start r.Connection
  marci_redis env = do
    redis_client ← need (r.open_url (text_or "redis://:CkBdIsCoVeRy@redis" (env "REDIS_URL")))
    need (r.connect redis_client)

  marci_redis-is_panicked : (env : String → Option String) → is_panicked (marci_redis env) ≡ false
  unfolding marci_redis
  marci_redis-is_panicked env =
      >>=-is_panicked (need (r.open_url _)) _ (need-is_panicked _)
        (λ c. need-is_panicked (r.connect c))

  marci_mqtt-is_panicked :
      (env : String → Option String)
      → is_panicked (marci_mqtt env) ≡ not (is_some (b.create (marci_create_ops env)))
  unfolding marci_mqtt
  marci_mqtt-is_panicked env = expect-is_panicked (b.create (marci_create_ops env)) _ (λ c.
      >>=-is_panicked (try (b.connect (conn_opts env 100) c)) _ (try-is_panicked _)
        (λ d. try-is_panicked (b.subscribe topics d)))

  module _ (clock : Clock) where
    unfoldable pub marci_start :
        (env : String → Option String) → Start (Ready b.Client r.Connection clock.Interval)
    unfolding marci_mqtt marci_redis
    marci_start env = do
      read ← need (settings env)
      mqtt_client ← marci_mqtt env
      con ← marci_redis env
      timer ← expect (clock.interval read.broadcast_interval)
      started (record { read = read; pub_context = mqtt_client; con = con; timer = timer })

    -- The rest of the start after the settings.
    rest :
        Start b.Client
        → Start r.Connection
        → Settings
        → Start (Ready b.Client r.Connection clock.Interval)
    rest m c read = do
      mqtt_client ← m
      con ← c
      timer ← expect (clock.interval read.broadcast_interval)
      started (record { read = read; pub_context = mqtt_client; con = con; timer = timer })

    -- The time between two ticks is not 0.
    abbrev pub ticks : Option Settings → Bool
    ticks none = false
    ticks (some s) = not (s.broadcast_interval == 0)

    module _ (documented : IsClock clock) where
      rest-is_started :
          (s : Settings) (m : Start b.Client) (c : Start r.Connection)
          → is_started (rest m c s)
            ≡ (is_started m && is_started c && not (s.broadcast_interval == 0))
      unfolding rest
      rest-is_started s panicked c = refl
      rest-is_started s failed c = refl
      rest-is_started s (started d) panicked = refl
      rest-is_started s (started d) failed = refl
      rest-is_started s (started d) (started con) =
          expect-is_started (clock.interval s.broadcast_interval) _
          ∙ documented.interval_lem s.broadcast_interval

      rest-is_panicked :
          (s : Settings) (m : Start b.Client) (c : Start r.Connection)
          → is_panicked c ≡ false
          → is_panicked (rest m c s) ≡ (
              is_panicked m
              || (is_started m && is_started c && not (not (s.broadcast_interval == 0))))
      unfolding rest
      rest-is_panicked s panicked c h = refl
      rest-is_panicked s failed c h = refl
      rest-is_panicked s (started d) panicked h = absurd (cc h)
      rest-is_panicked s (started d) failed h = refl
      rest-is_panicked s (started d) (started con) h =
          expect-is_panicked (clock.interval s.broadcast_interval) _ (λ timer. refl)
          ∙ ap not (documented.interval_lem s.broadcast_interval)

      start-is_started :
          (s : Option Settings) (m : Start b.Client) (c : Start r.Connection)
          → is_started (need s >>= rest m c)
            ≡ (is_some s && is_started m && is_started c && ticks s)
      start-is_started none m c = refl
      start-is_started (some s) m c = rest-is_started s m c

      start-is_panicked :
          (s : Option Settings) (m : Start b.Client) (c : Start r.Connection)
          → is_panicked c ≡ false
          → is_panicked (need s >>= rest m c)
            ≡ (is_some s && (is_panicked m || (is_started m && is_started c && not (ticks s))))
      start-is_panicked none m c h = refl
      start-is_panicked (some s) m c h = rest-is_panicked s m c h

      -- With a timer as documented, marci reaches its loop exactly when its settings are valid, with a time
      -- between two ticks that is not 0, the MQTT client is created, connected and subscribed, and
      -- Redis is connected. It panics exactly when the settings are valid and either the MQTT
      -- client cannot be created, or both connections are made and the time between two ticks is 0.
      pub marci_start_lem :
          (env : String → Option String)
          → (is_started (marci_start env) ≡ (
              is_some (settings env)
              && is_started (marci_mqtt env)
              && is_started (marci_redis env)
              && ticks (settings env)))
            × (is_panicked (marci_start env) ≡ (
                is_some (settings env)
                && (not (is_some (b.create (marci_create_ops env)))
                    || (is_started (marci_mqtt env)
                        && is_started (marci_redis env)
                        && not (ticks (settings env))))))
      unfolding marci_start rest
      marci_start_lem env = (
        start-is_started (settings env) (marci_mqtt env) (marci_redis env),
        start-is_panicked (settings env) (marci_mqtt env) (marci_redis env)
              (marci_redis-is_panicked env)
            ∙ ap
                (λ p.
                  (is_some (settings env)
                    && (p
                        || (is_started (marci_mqtt env)
                            && is_started (marci_redis env)
                            && not (ticks (settings env))))))
                (marci_mqtt-is_panicked env),
      )
