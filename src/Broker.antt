-- ===== src/Broker.antt =====
-- src/main.rs and marci/src/main.rs: the connection of a program to the MQTT broker. The client of the
-- `paho_mqtt` crate is a parameter.
use ckb_discovery.Prelude.{
  ℕ, ◌≡◌, refl, not, is_some, String, Bool, true, false, Option, none, some, List, ok, err,
}
use ckb_discovery.Prelude.Decimal.{text_or}
use ckb_discovery.Redis.Reference.{Reply}

pub record CreateOptions : Type 0 where
  pub server_uri : String
  pub max_buffered_messages : ℕ
  pub client_id : String

-- Times in milliseconds, but the expiry of the session in seconds.
pub record ConnectOptions : Type 0 where
  pub clean_start : Bool
  pub keep_alive_interval : ℕ
  pub automatic_reconnect : ℕ × ℕ
  pub user_name : String
  pub password : String
  pub session_expiry_interval : ℕ

pub record Broker : Type 1 where
  pub Client : Type 0
  pub create : CreateOptions → Option Client
  pub connect : ConnectOptions → Client → Reply (Unit {0}) × Client
  -- With QoS 1 for every topic.
  pub subscribe : (topics : List String) → Client → Reply (Unit {0}) × Client

-- A start ends the program with a panic or an error, or goes on.
pub data Start (A : Type 0) : Type 0 where
  panicked failed : Start A
  started : A → Start A

abbrev pub is_started : {A : Type 0} → Start A → Bool
is_started (started a) = true
is_started _ = false

abbrev pub is_panicked : {A : Type 0} → Start A → Bool
is_panicked panicked = true
is_panicked _ = false

module _ {A B : Type 0} where
  infixl 5 ◌>>=◌
  abbrev pub ◌>>=◌ : Start A → (A → Start B) → Start B
  panicked >>= f = panicked
  failed >>= f = failed
  started a >>= f = f a

-- `expect`
abbrev pub expect : {A : Type 0} → Option A → Start A
expect none = panicked
expect (some a) = started a

-- `?` on an outcome and what it leaves.
abbrev pub try : {A : Type 0} → Reply (Unit {0}) × A → Start A
try (ok _, a) = started a
try (err _, a) = failed

-- `?` on an optional value.
abbrev pub need : {A : Type 0} → Option A → Start A
need none = failed
need (some a) = started a

-- Only `expect` panics.
module _ {A B : Type 0} where
  pub expect-is_panicked :
      (a : Option A) (f : A → Start B)
      → ((x : A) → is_panicked (f x) ≡ false)
      → is_panicked (expect a >>= f) ≡ not (is_some a)
  expect-is_panicked none f h = refl
  expect-is_panicked (some x) f h = h x

  pub >>=-is_panicked :
      (a : Start A) (f : A → Start B)
      → is_panicked a ≡ false
      → ((x : A) → is_panicked (f x) ≡ false)
      → is_panicked (a >>= f) ≡ false
  >>=-is_panicked panicked f p h = p
  >>=-is_panicked failed f p h = refl
  >>=-is_panicked (started x) f p h = h x

module _ {A B : Type 0} where
  pub expect-is_started :
      (a : Option A) (f : A → B) → is_started (expect a >>= (λ x. started (f x))) ≡ is_some a
  expect-is_started none f = refl
  expect-is_started (some x) f = refl

module _ {A : Type 0} where
  pub try-is_panicked : (r : Reply (Unit {0}) × A) → is_panicked (try r) ≡ false
  try-is_panicked (ok u, a) = refl
  try-is_panicked (err e, a) = refl

  pub need-is_panicked : (a : Option A) → is_panicked (need a) ≡ false
  need-is_panicked none = refl
  need-is_panicked (some x) = refl

module _ (env : String → Option String) where
  abbrev pub mqtt_url : String
  mqtt_url = text_or "mqtt:1883" (env "MQTT_URL")

  abbrev pub conn_opts : (keep_alive : ℕ) → ConnectOptions
  conn_opts keep_alive = record {
    clean_start = true;
    keep_alive_interval = keep_alive;
    automatic_reconnect = (500, 2000);
    user_name = text_or "ckb" (env "MQTT_USER");
    password = text_or "ckbdiscovery" (env "MQTT_PASS");
    session_expiry_interval = 5000;
  }
