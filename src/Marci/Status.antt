-- ===== src/Marci/Status.antt =====
-- marci/src/main.rs: what the database says about one peer, as a machine of its own: it moves by the
-- messages about that peer and by the time that passes, and by nothing else.
use ckb_discovery.Prelude.{
  ℕ, ◌-◌, String, Option, none, some, List, [], ◌∷◌, length, leb, str_eq, if◌then◌else◌,
}
use ckb_discovery.Types.{PeerInfo}
use ckb_discovery.Redis.Reference.{with_member}
use ckb_discovery.Marci.Exec.{Config}
use ckb_discovery.Marci.Arms.{online_event, unknown_event, reachable_event, wait}
use ckb_discovery.Marci.Broadcast.{Input, message, tick}

-- A version and how many seconds it is kept.
pub record Timed : Type 0 where
  pub version : String
  pub seconds : ℕ

-- The peer as an online one, as an ex-peer, as an unknown one, and who announced it.
pub record Status : Type 0 where
  pub online : Option Timed
  pub ex : Option Timed
  pub unknown : Option ℕ
  pub witnesses : List String

abbrev pub nothing : Status
nothing = record { online = none; ex = none; unknown = none; witnesses = [] }

abbrev pub kept_for : ℕ → Timed → Timed
kept_for n t = record t { seconds = n }

abbrev pub aged_seconds : ℕ → ℕ → Option ℕ
aged_seconds n seconds = if leb seconds n then none else some (seconds - n)

abbrev pub aged_timed : ℕ → Option Timed → Option Timed
aged_timed n none = none
aged_timed n (some t) = if leb t.seconds n then none else some (kept_for (t.seconds - n) t)

abbrev pub aged_unknown : ℕ → Option ℕ → Option ℕ
aged_unknown n none = none
aged_unknown n (some seconds) = aged_seconds n seconds

abbrev pub announced : (from : String) → Status → Status
announced from s = record s { witnesses = with_member from s.witnesses }

abbrev pub passed : ℕ → Status → Status
passed n s = record {
  online = aged_timed n s.online;
  ex = aged_timed n s.ex;
  unknown = aged_unknown n s.unknown;
  witnesses = s.witnesses;
}

module _ (cfg : Config) where
  -- The peer was seen online.
  abbrev pub seen_online : PeerInfo → Status → Option Timed → Status
  seen_online peer s (some t) = record s {
    online = some (kept_for cfg.default_timeout t);
    unknown = none;
  }
  seen_online peer s none =
      let t : Timed = record { version = peer.version; seconds = cfg.default_timeout } in
      if peer.is_ex
      then record s { ex = some t; unknown = none }
      else record s { online = some t; unknown = none }

  -- A dial of the peer failed.
  abbrev pub failed_dial : Status → Option Timed → Status
  failed_dial s (some t) = record s { online = some (kept_for cfg.default_timeout t) }
  failed_dial s none =
      if leb cfg.default_witnesses (length s.witnesses)
      then record s { unknown = some cfg.unknown_default_timeout; witnesses = [] }
      else s

  -- The step of the peer `id`.
  abbrev pub step : (id : String) → Input → Status → Status
  step id (message (online_event now peer)) s =
      if str_eq peer.info.peer_id id then seen_online peer s s.online else s
  step id (message (unknown_event now peer)) s =
      if str_eq peer.peer_id id then failed_dial s s.online else s
  step id (message (reachable_event now later msg)) s =
      if str_eq msg.peer.peer_id id then announced msg.from.peer_id s else s
  step id (message (wait n)) s = passed n s
  step id (tick now) s = s

  unfoldable pub steps : (id : String) → List Input → Status → Status
  steps id [] s = s
  steps id (e ∷ es) s = steps id es (step id e s)
