-- ===== src/Marci/Machine.antt =====
-- marci/src/main.rs: laws of the machine of a peer's status.
use ckb_discovery.Prelude.{
  ℕ, ◌+◌, String, ◌≡◌, refl, sym, ap, ◌∙◌, Bool, true, false, Option, none, some, List, [], ◌∷◌,
  ◌++◌, length, leb, str_eq, eq_refl, Bool-cases, inl, inr, arith, retain, contains,
}
use ckb_discovery.Types.{PeerInfo}
use ckb_discovery.Marci.Witnesses.{contains-append, contains-with_member}
use ckb_discovery.Redis.Reference.{with_member}
use ckb_discovery.Marci.Exec.{Config}
use ckb_discovery.Marci.Arms.{online_event, unknown_event, reachable_event, wait}
use ckb_discovery.Marci.Broadcast.{Input, message, tick}
use ckb_discovery.Marci.Status.{
  Timed, Status, aged_seconds, aged_timed, aged_unknown, seen_online, failed_dial, passed, step,
  steps,
}

abbrev pub is_pause : Input → Bool
is_pause (message (wait _)) = true
is_pause _ = false

-- A pause concerns every peer, a tick none.
abbrev pub is_about : (id : String) → Input → Bool
is_about id (message (online_event now peer)) = str_eq peer.info.peer_id id
is_about id (message (unknown_event now peer)) = str_eq peer.peer_id id
is_about id (message (reachable_event now later msg)) = str_eq msg.peer.peer_id id
is_about id (message (wait n)) = true
is_about id (tick now) = false

-- No message is about the peer.
abbrev pub IsSilent : (id : String) → List Input → Type 0
IsSilent id [] = Unit
IsSilent id (e ∷ es) = (is_about id e ≡ is_pause e) × IsSilent id es

abbrev pause_of : Input → ℕ
pause_of (message (wait n)) = n
pause_of _ = 0

-- The seconds of the pauses.
unfoldable pub waited : List Input → ℕ
waited [] = 0
waited (e ∷ es) = pause_of e + waited es

contains-own : (s : String) (ss : List String) → contains (with_member s ss) s ≡ true
contains-own s ss = contains-with_member s ss s ∙ rw (eq_refl s) refl

with_member-again :
    (s : String) (ss : List String) → with_member s (with_member s ss) ≡ with_member s ss
unfolding with_member
with_member-again s ss = elim (Bool-cases (contains ss s)) [
  | inl old ↦ rw (old, old) refl
  | inr other ↦ rw (other, contains-append ss s s, eq_refl s, other) refl
]

aged_seconds-add : (m n k : ℕ) → aged_unknown n (aged_seconds m k) ≡ aged_seconds (m + n) k
aged_seconds-add m n k = ground arith

aged_unknown-add :
    (m n : ℕ) (o : Option ℕ) → aged_unknown n (aged_unknown m o) ≡ aged_unknown (m + n) o
aged_unknown-add m n none = refl
aged_unknown-add m n (some k) = aged_seconds-add m n k

aged_timed-add : (m n : ℕ) (o : Option Timed) → aged_timed n (aged_timed m o) ≡ aged_timed (m + n) o
aged_timed-add m n none = refl
aged_timed-add m n (some k) = ground arith

module _ (cfg : Config) (id : String) where
  seen-again :
      (peer : PeerInfo) (s : Status) (o : Option Timed)
      → s.online ≡ o
      → seen_online cfg peer (seen_online cfg peer s o) (seen_online cfg peer s o).online
        ≡ seen_online cfg peer s o
  seen-again peer s (some k) e = refl
  seen-again peer s none e = elim (Bool-cases peer.is_ex) [
    | inl x ↦ rw (x, e) refl
    | inr x ↦ rw x refl
  ]

  failed-again :
      (s : Status) (o : Option Timed)
      → s.online ≡ o
      → failed_dial cfg (failed_dial cfg s o) (failed_dial cfg s o).online ≡ failed_dial cfg s o
  failed-again s (some k) e = refl
  failed-again s none e = elim (Bool-cases (leb cfg.default_witnesses (length s.witnesses))) [
    | inl ready ↦
        rw (ready, e)
          (elim (Bool-cases (leb cfg.default_witnesses 0)) [
            | inl x ↦ rw x refl
            | inr x ↦ rw x refl
          ])
    | inr few ↦ rw (few, e, few) refl
  ]

  -- The peer's machine ignores a message that it just handled.
  pub step-again :
      (e : Input) (s : Status)
      → is_pause e ≡ false
      → step cfg id e (step cfg id e s) ≡ step cfg id e s
  step-again (message (online_event now peer)) s h =
      elim (Bool-cases (str_eq peer.info.peer_id id)) [
        | inl own ↦ rw own (seen-again peer s s.online refl)
        | inr other ↦ rw other refl
      ]
  step-again (message (unknown_event now peer)) s h = elim (Bool-cases (str_eq peer.peer_id id)) [
    | inl own ↦ rw own (failed-again s s.online refl)
    | inr other ↦ rw other refl
  ]
  step-again (message (reachable_event now later msg)) s h =
      elim (Bool-cases (str_eq msg.peer.peer_id id)) [
        | inl own ↦ rw own (rw with_member-again refl)
        | inr other ↦ rw other refl
      ]
  step-again (message (wait n)) s h = cc h
  step-again (tick now) s h = refl

  pub steps-append :
      (es fs : List Input) (s : Status)
      → steps cfg id (es ++ fs) s ≡ steps cfg id fs (steps cfg id es s)
  unfolding steps
  steps-append [] fs s = refl
  steps-append (e ∷ es) fs s = steps-append es fs (step cfg id e s)

  pub step-other : (e : Input) (s : Status) → is_about id e ≡ false → step cfg id e s ≡ s
  step-other (message (online_event now peer)) s h = rw h refl
  step-other (message (unknown_event now peer)) s h = rw h refl
  step-other (message (reachable_event now later msg)) s h = rw h refl
  step-other (message (wait n)) s h = cc h
  step-other (tick now) s h = refl

  pub steps-about :
      (es : List Input) (s : Status) → steps cfg id (retain (is_about id) es) s ≡ steps cfg id es s
  unfolding steps
  steps-about [] s = refl
  steps-about (e ∷ es) s = elim (Bool-cases (is_about id e)) [
    | inl own ↦ rw own (steps-about es (step cfg id e s))
    | inr other ↦ rw other (rw (step-other e s other) (steps-about es s))
  ]

  passed-add : (m n : ℕ) (s : Status) → passed n (passed m s) ≡ passed (m + n) s
  passed-add m n s = λ i. record {
    online = aged_timed-add m n s.online i;
    ex = aged_timed-add m n s.ex i;
    unknown = aged_unknown-add m n s.unknown i;
    witnesses = s.witnesses;
  }

  -- A step without a message about the peer.
  step-silent :
      (e : Input) (s : Status)
      → is_about id e ≡ is_pause e
      → passed 0 s ≡ s
      → step cfg id e s ≡ passed (pause_of e) s
  step-silent (message (wait n)) s h fresh = refl
  step-silent (tick now) s h fresh = sym fresh
  step-silent (message (online_event now peer)) s h fresh = rw h (sym fresh)
  step-silent (message (unknown_event now peer)) s h fresh = rw h (sym fresh)
  step-silent (message (reachable_event now later msg)) s h fresh = rw h (sym fresh)

  pub steps-silent :
      (es : List Input) (s : Status)
      → IsSilent id es
      → passed 0 s ≡ s
      → steps cfg id es s ≡ passed (waited es) s
  unfolding steps waited
  steps-silent [] s h fresh = sym fresh
  steps-silent (e ∷ es) s (h, hs) fresh = rw (step-silent e s h fresh) (
      steps-silent es (passed (pause_of e) s) hs
        (passed-add (pause_of e) 0 s ∙ ap (λ (n : ℕ). passed n s) (ground arith))
      ∙ passed-add (pause_of e) (waited es) s)
