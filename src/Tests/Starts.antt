-- ===== src/Tests/Starts.antt =====
-- src/main.rs and marci/src/main.rs: the starts of the programs, with stand-ins for the brokers.
use ckb_discovery.Prelude.{
  arith, str_eq, ◌==◌, if◌then◌else◌, ℕ, String, ◌≡◌, true, false, Option, none, some, List, [],
  ◌∷◌, ok, err,
}
use ckb_discovery.Prelude.Decimal.{parse_u64}
use ckb_discovery.Types.{NodeMetaInfo}
use ckb_discovery.Redis.Reference.{failed}
use ckb_discovery.Broker.{Broker, is_started, is_panicked}
use ckb_discovery.Dialer.{MqttMessage, mqtt_task}
use ckb_discovery.Dialer.Start.{dialer_main, dialer_start, dialer_main_lem}
use ckb_discovery.Marci.Settings.{read_setting, settings}
use ckb_discovery.Marci.Start.{
  Clock, IsClock, RedisClient, marci_start, marci_mqtt, marci_redis, marci_start_lem,
}
use ckb_discovery.Tests.Doubles.{toy_p2p}
use ckb_discovery.Tests.Pipelines.{peer}

-- A broker whose client counts the steps of the start.
abbrev toy_broker : Broker
toy_broker = record {
  Client = ℕ;
  create = λ options. some 0;
  connect = λ options c. (ok tt, 1);
  subscribe = λ topics c. (ok tt, 2);
}

-- A client that cannot be created.
abbrev no_broker : Broker
no_broker = record toy_broker { create = λ options. none }

abbrev toy_redis : RedisClient
toy_redis = record { Client = String; Connection = String; open_url = some; connect = some }

abbrev toy_clock : Clock
toy_clock = record { Interval = ℕ; interval = λ n. if n == 0 then none else some n }

toy_clock-IsClock : IsClock toy_clock
toy_clock-IsClock = record { interval_lem = λ n. ground arith }

-- A time of 0 between two ticks.
abbrev no_time : String → Option String
no_time name = if str_eq name "MERCI_DEFAULT_INTERVAL" then some "0" else none

abbrev unset : String → Option String
unset _ = none

abbrev bad_setting : String → Option String
bad_setting _ = some "x"

abbrev one_message : ℕ → List (Option MqttMessage)
one_message _ = some (record { topic = "peer/needs_dial"; payload = [] }) ∷ []

abbrev always : List ℕ → Option NodeMetaInfo
always _ = some peer

dialer_main_lem_example :
    dialer_main toy_broker toy_p2p always one_message unset "x"
    ≡ (some (err failed), (mqtt_task toy_p2p always (one_message 2)).1)
unfolding dialer_start
dialer_main_lem_example = dialer_main_lem toy_broker toy_p2p always one_message unset "x"

marci_start_lem_example :
    (is_started (marci_start no_broker toy_redis toy_clock unset) ≡ false)
    × (is_panicked (marci_start no_broker toy_redis toy_clock unset) ≡ true)
unfolding marci_mqtt marci_redis parse_u64 read_setting settings
marci_start_lem_example = marci_start_lem no_broker toy_redis toy_clock toy_clock-IsClock unset

-- With a setting that is no number, the client is not even created.
bad_setting_lem :
    (is_started (marci_start no_broker toy_redis toy_clock bad_setting) ≡ false)
    × (is_panicked (marci_start no_broker toy_redis toy_clock bad_setting) ≡ false)
unfolding marci_mqtt marci_redis parse_u64 read_setting settings
bad_setting_lem = marci_start_lem no_broker toy_redis toy_clock toy_clock-IsClock bad_setting

-- With a time of 0 between two ticks, the process panics after its connections are made.
no_time_lem :
    (is_started (marci_start toy_broker toy_redis toy_clock no_time) ≡ false)
    × (is_panicked (marci_start toy_broker toy_redis toy_clock no_time) ≡ true)
unfolding marci_mqtt marci_redis parse_u64 read_setting settings
no_time_lem = marci_start_lem toy_broker toy_redis toy_clock toy_clock-IsClock no_time
