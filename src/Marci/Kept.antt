-- ===== src/Marci/Kept.antt =====
-- marci/src/main.rs: how long the machine of a peer's status keeps what it was told.
use ckb_discovery.Redis.Reference.{is_time}
use ckb_discovery.Prelude.{
  ℕ, ◌≤◌, String, ◌≡◌, refl, ◌∙◌, Bool, true, false, not, ◌||◌, Option, none, some, List, [], ◌∷◌,
  ◌++◌, length, leb, is_some, str_eq, eq_refl, if◌then◌else◌, Bool-cases, inl, inr, arith,
}
use ckb_discovery.Types.{PeerInfo}
use ckb_discovery.Marci.Exec.{Config}
use ckb_discovery.Marci.Arms.{online_event, unknown_event, reachable_event, wait}
use ckb_discovery.Marci.Broadcast.{Input, message, tick}
use ckb_discovery.Marci.Typed.{not_zero}
use ckb_discovery.Marci.Status.{Timed, Status, seen_online, failed_dial, passed, step, steps}
use ckb_discovery.Marci.Entries.{seconds_of}
use ckb_discovery.Marci.Machine.{IsSilent, waited, steps-append, steps-silent}
use ckb_discovery.Marci.Lasting.{
  Left, aged_unknown-Left, aged_timed-Left, aged_timed-zero, aged_unknown-zero, aged_timed-none,
  aged_unknown-none,
}

pub record IsKept (cfg : Config) (s : Status) : Type 0 where
  pub online : Left cfg.default_timeout (seconds_of s.online)
  pub ex : Left cfg.default_timeout (seconds_of s.ex)
  pub unknown : Left cfg.unknown_default_timeout s.unknown

-- Some key shows the peer.
abbrev pub is_shown : Status → Bool
is_shown s = is_some s.online || is_some s.ex || is_some s.unknown

module _ (cfg : Config) (lasts : is_time cfg.default_timeout ≡ true)
    (unknown_lasts : is_time cfg.unknown_default_timeout ≡ true) where
  passed-IsKept : (n : ℕ) (s : Status) → IsKept cfg s → IsKept cfg (passed n s)
  passed-IsKept n s h = record {
    online = aged_timed-Left cfg.default_timeout n s.online h.online;
    ex = aged_timed-Left cfg.default_timeout n s.ex h.ex;
    unknown = aged_unknown-Left cfg.unknown_default_timeout n s.unknown h.unknown;
  }

  seen_online-IsKept :
      (peer : PeerInfo) (s : Status) (o : Option Timed)
      → IsKept cfg s
      → IsKept cfg (seen_online cfg peer s o)
  seen_online-IsKept peer s (some k) h = record {
    online = (not_zero _ lasts, omega arith);
    ex = h.ex;
    unknown = tt;
  }
  seen_online-IsKept peer s none h = elim (Bool-cases peer.is_ex) [
    | inl x ↦
        rw x (record { online = h.online; ex = (not_zero _ lasts, omega arith); unknown = tt })
    | inr x ↦ rw x (record { online = (not_zero _ lasts, omega arith); ex = h.ex; unknown = tt })
  ]

  failed_dial-IsKept :
      (s : Status) (o : Option Timed) → IsKept cfg s → IsKept cfg (failed_dial cfg s o)
  failed_dial-IsKept s (some k) h = record {
    online = (not_zero _ lasts, omega arith);
    ex = h.ex;
    unknown = h.unknown;
  }
  failed_dial-IsKept s none h = elim (Bool-cases (leb cfg.default_witnesses (length s.witnesses))) [
    | inl ready ↦
        rw ready (record {
          online = h.online;
          ex = h.ex;
          unknown = (not_zero _ unknown_lasts, omega arith);
        })
    | inr few ↦ rw few h
  ]

  choice-IsKept :
      (b : Bool) (s s' : Status) → IsKept cfg s → IsKept cfg s' → IsKept cfg (if b then s' else s)
  choice-IsKept true s s' h h' = h'
  choice-IsKept false s s' h h' = h

  step-IsKept : (id : String) (e : Input) (s : Status) → IsKept cfg s → IsKept cfg (step cfg id e s)
  step-IsKept id (message (online_event now peer)) s h =
      choice-IsKept (str_eq peer.info.peer_id id) s _ h (seen_online-IsKept peer s s.online h)
  step-IsKept id (message (unknown_event now peer)) s h =
      choice-IsKept (str_eq peer.peer_id id) s _ h (failed_dial-IsKept s s.online h)
  step-IsKept id (message (reachable_event now later msg)) s h =
      choice-IsKept (str_eq msg.peer.peer_id id) s _ h
        (record { online = h.online; ex = h.ex; unknown = h.unknown })
  step-IsKept id (message (wait n)) s h = passed-IsKept n s h
  step-IsKept id (tick now) s h = h

  pub steps-IsKept :
      (id : String) (es : List Input) (s : Status) → IsKept cfg s → IsKept cfg (steps cfg id es s)
  unfolding steps
  steps-IsKept id [] s h = h
  steps-IsKept id (e ∷ es) s h = steps-IsKept id es (step cfg id e s) (step-IsKept id e s h)

  kept_lem : (s : Status) → IsKept cfg s → passed 0 s ≡ s
  kept_lem s h = λ i. record {
    online = aged_timed-zero cfg.default_timeout s.online h.online i;
    ex = aged_timed-zero cfg.default_timeout s.ex h.ex i;
    unknown = aged_unknown-zero cfg.unknown_default_timeout s.unknown h.unknown i;
    witnesses = s.witnesses;
  }

  -- After any history, what follows without a message about the peer only lets time pass.
  pub steps-then-silent :
      (id : String) (es fs : List Input) (s : Status)
      → IsKept cfg s
      → IsSilent id fs
      → steps cfg id (es ++ fs) s ≡ passed (waited fs) (steps cfg id es s)
  steps-then-silent id es fs s h silent =
      steps-append cfg id es fs s
      ∙ steps-silent cfg id fs (steps cfg id es s) silent
          (kept_lem (steps cfg id es s) (steps-IsKept id es s h))

  passed-is_shown :
      (n : ℕ) (s : Status)
      → IsKept cfg s
      → cfg.default_timeout ≤ n
      → cfg.unknown_default_timeout ≤ n
      → is_shown (passed n s) ≡ false
  passed-is_shown n s h le le' =
      rw
        (
          aged_timed-none cfg.default_timeout n s.online h.online le,
          aged_timed-none cfg.default_timeout n s.ex h.ex le,
          aged_unknown-none cfg.unknown_default_timeout n s.unknown h.unknown le',
        )
        refl

  pub steps-forget :
      (id : String) (es fs : List Input) (s : Status)
      → IsKept cfg s
      → IsSilent id fs
      → cfg.default_timeout ≤ waited fs
      → cfg.unknown_default_timeout ≤ waited fs
      → is_shown (steps cfg id (es ++ fs) s) ≡ false
  steps-forget id es fs s h silent le le' =
      rw (steps-then-silent id es fs s h silent)
        (passed-is_shown (waited fs) (steps cfg id es s) (steps-IsKept id es s h) le le')

  seen_left :
      (peer : PeerInfo) (n : ℕ) (s : Status) (o : Option Timed)
      → leb cfg.default_timeout n ≡ false
      → is_shown (passed n (seen_online cfg peer s o)) ≡ true
  seen_left peer n s (some k) left = rw left refl
  seen_left peer n s none left = elim (Bool-cases peer.is_ex) [
    | inl x ↦ rw (x, left) (ground arith)
    | inr x ↦ rw (x, left) refl
  ]

  seen_gone :
      (peer : PeerInfo) (n : ℕ) (s : Status) (o : Option Timed)
      → s.online ≡ o
      → IsKept cfg s
      → leb cfg.default_timeout n ≡ true
      → is_shown (passed n (seen_online cfg peer s o)) ≡ false
  seen_gone peer n s (some k) e h gone =
      rw (gone, aged_timed-none cfg.default_timeout n s.ex h.ex (ground arith)) refl
  seen_gone peer n s none e h gone = elim (Bool-cases peer.is_ex) [
    | inl x ↦ rw (x, e, gone) refl
    | inr x ↦ rw (x, gone, aged_timed-none cfg.default_timeout n s.ex h.ex (ground arith)) refl
  ]

  pub seen_online-is_shown :
      (peer : PeerInfo) (n : ℕ) (s : Status)
      → IsKept cfg s
      → is_shown (passed n (seen_online cfg peer s s.online)) ≡ not (leb cfg.default_timeout n)
  seen_online-is_shown peer n s h = elim (Bool-cases (leb cfg.default_timeout n)) [
    | inl gone ↦ rw gone (seen_gone peer n s s.online refl h gone)
    | inr left ↦ rw left (seen_left peer n s s.online left)
  ]

  pub steps-seen :
      (es fs : List Input) (now : ℕ) (peer : PeerInfo) (s : Status)
      → IsKept cfg s
      → IsSilent peer.info.peer_id fs
      → is_shown (steps cfg peer.info.peer_id (es ++ message (online_event now peer) ∷ fs) s)
        ≡ not (leb cfg.default_timeout (waited fs))
  unfolding steps
  steps-seen es fs now peer s h silent =
      let id = peer.info.peer_id in
      let k = steps-IsKept id es s h in
      rw
        (
          steps-append cfg id es (message (online_event now peer) ∷ fs) s,
          steps-then-silent id (message (online_event now peer) ∷ []) fs (steps cfg id es s) k
              silent,
          eq_refl id,
        )
        (seen_online-is_shown peer (waited fs) (steps cfg id es s) k)
