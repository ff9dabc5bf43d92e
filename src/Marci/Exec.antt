-- ===== src/Marci/Exec.antt =====
-- marci/src/main.rs: the state of the process, actions on it, and what the program takes from the
-- libraries: the configuration, the `ipinfo` service, and the texts that the libraries make.
use ckb_discovery.Prelude.{ℕ, String, Bool, Option, List, ok, err, ltb, if◌then◌else◌}
use ckb_discovery.Types.{IpAddr, EndpointInfo}
use ckb_discovery.Redis.{Redis}
use ckb_discovery.Redis.Reference.{Reply, panicked}

pub record Config : Type 0 where
  pub default_timeout : ℕ
  pub unknown_default_timeout : ℕ
  pub default_witnesses : ℕ

-- The fields of the `ipinfo` crate's record that the program stores.
pub record IpDetails : Type 0 where
  pub country : String
  pub city : String
  pub region : String
  pub loc : String

-- The remote service answers a query, with `none` for its error, and goes on from a new state.
pub record IpInfo : Type 1 where
  pub Service : Type 0
  pub lookup : String → Service → Option IpDetails × Service

-- `Display` of an address, `serde_json::to_string` of an endpoint, and the texts of a Boolean and of
-- a number as arguments of a Redis command.
pub record Texts : Type 0 where
  pub show_ip : IpAddr → String
  pub endpoint_json : EndpointInfo → String
  pub show_bool : Bool → String
  pub show_u64 : ℕ → String

-- The database, the static `IPINFO_CACHE`, and the remote service.
pub record World (r : Redis) (i : IpInfo) : Type 0 where
  pub db : r.Db
  pub cache : List (String × IpDetails)
  pub service : i.Service

-- An action on a state, which may fail.
abbrev pub Act : Type 0 → Type 0 → Type 0
Act S A = S → Reply A × S

abbrev pub M : Redis → IpInfo → Type 0 → Type 0
M r i A = Act (World r i) A

-- A command of the database; its failure is the action's.
unfoldable pub call : {r : Redis} {i : IpInfo} {A : Type 0} → (r.Db → Reply A × r.Db) → M r i A
call command w = let (reply, db) = command w.db in (reply, record w { db = db })

module _ {S A : Type 0} where
  unfoldable pub pure : A → Act S A
  pure a w = (ok a, w)

  -- The outcome of an action as a value; this does not fail. The program does so with single commands
  -- only, which do not panic.
  unfoldable pub attempt : Act S A → Act S (Reply A)
  attempt m w = let (reply, w') = m w in (ok reply, w')

-- The `try_into().unwrap()` of a `u64` that an `i64` is expected for.
unfoldable pub to_i64 : {S : Type 0} → ℕ → Act S ℕ
to_i64 n w = if ltb n 9223372036854775808 then (ok n, w) else (err panicked, w)

-- `unwrap_or_default`, and `unwrap_or` in general.
abbrev pub unwrap_or : {A : Type 0} → A → Reply A → A
unwrap_or d (ok a) = a
unwrap_or d (err _) = d

module _ {S A B : Type 0} where
  abbrev pub continue : Reply A → S → (A → Act S B) → Reply B × S
  continue (ok a) w f = f a w
  continue (err e) w f = (err e, w)

  infixl 10 ◌>>=◌ ◌>>◌
  unfoldable pub ◌>>=◌ : Act S A → (A → Act S B) → Act S B
  ◌>>=◌ m f w = let (reply, w') = m w in continue reply w' f

  abbrev pub ◌>>◌ : Act S A → Act S B → Act S B
  m >> n = m >>= λ _. n
