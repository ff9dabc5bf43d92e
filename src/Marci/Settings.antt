-- ===== src/Marci/Settings.antt =====
-- marci/src/main.rs: the settings that `main` reads from the environment before it connects. A text that
-- is no number ends it with the parser's error.
use ckb_discovery.Prelude.{
  ℕ, String, ◌≡◌, refl, Bool, ◌&&◌, Option, none, some, ◌>>=◌, is_some, arith, str_eq,
  if◌then◌else◌,
}
use ckb_discovery.Prelude.Decimal.{parse_u64, text_or}
use ckb_discovery.Marci.Exec.{Config}

pub record Settings : Type 0 where
  pub config : Config
  -- The time between two ticks of the timer, in seconds.
  pub broadcast_interval : ℕ

unfoldable pub read_setting : (env : String → Option String) → (name default : String) → Option ℕ
read_setting env name default = parse_u64 (text_or default (env name))

unfoldable pub settings : (env : String → Option String) → Option Settings
unfolding read_setting
settings env = do
  default_timeout ← read_setting env "CKB_NODE_DEFAULT_TIMEOUT" "5184000"
  ex_timeout ← read_setting env "CKB_NODE_EX_DEFAULT_TIMEOUT" "86400"
  unknown_timeout ← read_setting env "CKB_NODE_UNKNOWN_DEFAULT_TIMEOUT" "1209600"
  witnesses ← read_setting env "CKB_NODE_DEFAULT_WITNESSES" "3"
  interval ← read_setting env "MERCI_DEFAULT_INTERVAL" "180"
  some (record {
    config = record {
      default_timeout = default_timeout;
      unknown_default_timeout = unknown_timeout;
      default_witnesses = witnesses;
    };
    broadcast_interval = interval;
  })

abbrev valid : (env : String → Option String) → (name default : String) → Bool
valid env name default = is_some (read_setting env name default)

-- The environment with another text for the time of ex-peers.
abbrev pub with_ex : Option String → (env : String → Option String) → String → Option String
with_ex text env name = if str_eq name "CKB_NODE_EX_DEFAULT_TIMEOUT" then text else env name

default_lem : parse_u64 "86400" ≡ some 86400
unfolding parse_u64
default_lem = refl

-- The process has its settings exactly when each of the five variables is unset or holds a 64-bit
-- number. The text for the time of ex-peers has no effect on them, except that one that is no number
-- ends the process.
pub settings_lem :
    (env : String → Option String) (text : Option String)
    → (is_some (settings env) ≡ (
        valid env "CKB_NODE_DEFAULT_TIMEOUT" "5184000"
        && valid env "CKB_NODE_EX_DEFAULT_TIMEOUT" "86400"
        && valid env "CKB_NODE_UNKNOWN_DEFAULT_TIMEOUT" "1209600"
        && valid env "CKB_NODE_DEFAULT_WITNESSES" "3"
        && valid env "MERCI_DEFAULT_INTERVAL" "180"))
      × (settings (with_ex text env) ≡ (
          if is_some (parse_u64 (text_or "86400" text)) then settings (with_ex none env) else none))
unfolding settings read_setting
settings_lem env text = (ground arith, ground (arith, default_lem))
