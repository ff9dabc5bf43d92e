-- ===== src/Marci/Swapped.antt =====
-- marci/src/main.rs: `select!` picks any channel that is ready, so messages of different channels may be
-- handled in either order.
use ckb_discovery.Redis.Reference.{is_time}
use ckb_discovery.Prelude.{
  String, ◌≡◌, refl, sym, ap, ◌∙◌, Bool, true, false, not, Option, none, some, List, ◌∷◌, ◌++◌,
  str_eq, eq_iff, eq_refl, Bool-cases, inl, inr,
}
use ckb_discovery.Types.{PeerInfo, EndpointInfo}
use ckb_discovery.Redis.{Redis, IsServer}
use ckb_discovery.Redis.Scan.{Scans, IsScan}
use ckb_discovery.Marci.Exec.{Config, IpInfo, Texts}
use ckb_discovery.Marci.Ingest.{Json}
use ckb_discovery.Marci.Arms.{online_event, unknown_event, reachable_event, wait}
use ckb_discovery.Marci.Broadcast.{Mqtt, Station, Input, message, tick}
use ckb_discovery.Marci.Typed.{IsTyped}
use ckb_discovery.Marci.Running.{IsConnected}
use ckb_discovery.Marci.Status.{Timed, Status, seen_online, announced, step, steps}
use ckb_discovery.Marci.Entries.{status_in}
use ckb_discovery.Marci.Machine.{is_about, step-other, steps-append}
use ckb_discovery.Marci.Redelivery.{status_after, tracked}

abbrev differ : String → String → Bool
differ a b = not (str_eq a b)

-- Two inputs of which neither is a pause and which are about different peers, or of which one says that a
-- peer is online and the other that it is reachable.
abbrev pub is_independent : Input → Input → Bool
is_independent (tick _) (tick _) = true
is_independent (tick _) (message (wait _)) = false
is_independent (tick _) (message _) = true
is_independent (message (wait _)) _ = false
is_independent (message (online_event _ p)) (message (online_event _ u)) =
    differ p.info.peer_id u.info.peer_id
is_independent (message (online_event _ p)) (message (unknown_event _ u)) =
    differ p.info.peer_id u.peer_id
is_independent (message (online_event _ p)) (message (reachable_event _ _ _)) = true
is_independent (message (unknown_event _ p)) (message (online_event _ u)) =
    differ p.peer_id u.info.peer_id
is_independent (message (unknown_event _ p)) (message (unknown_event _ u)) =
    differ p.peer_id u.peer_id
is_independent (message (unknown_event _ p)) (message (reachable_event _ _ m)) =
    differ p.peer_id m.peer.peer_id
is_independent (message (reachable_event _ _ _)) (message (online_event _ _)) = true
is_independent (message (reachable_event _ _ m)) (message (unknown_event _ u)) =
    differ m.peer.peer_id u.peer_id
is_independent (message (reachable_event _ _ m)) (message (reachable_event _ _ u)) =
    differ m.peer.peer_id u.peer.peer_id
is_independent (message _) (tick _) = true
is_independent (message _) (message (wait _)) = false

clash :
    {A : Type 0} (a b id : String) → str_eq a id ≡ true → str_eq b id ≡ true → differ a b ≡ true → A
clash a b id x y h = absurd (cc (rw ((eq_iff a id).0 x, (eq_iff b id).0 y, eq_refl id) at h))

module _ (cfg : Config) (id : String) where
  seen-announced :
      (peer : PeerInfo) (from : String) (s : Status) (o : Option Timed)
      → seen_online cfg peer (announced from s) o ≡ announced from (seen_online cfg peer s o)
  seen-announced peer from s (some k) = refl
  seen-announced peer from s none = elim (Bool-cases peer.is_ex) [
    | inl x ↦ rw x refl
    | inr x ↦ rw x refl
  ]

  announced-online :
      (peer : PeerInfo) (from : String) (s : Status)
      → seen_online cfg peer (announced from s) (announced from s).online
        ≡ announced from (seen_online cfg peer s s.online)
  announced-online peer from s = seen-announced peer from s s.online

  -- Both are about the peer.
  step-both :
      (a b : Input) (s : Status)
      → is_about id a ≡ true
      → is_about id b ≡ true
      → is_independent a b ≡ true
      → step cfg id b (step cfg id a s) ≡ step cfg id a (step cfg id b s)
  step-both (message (online_event _ p)) (message (online_event _ u)) s x y h =
      clash p.info.peer_id u.info.peer_id id x y h
  step-both (message (online_event _ p)) (message (unknown_event _ u)) s x y h =
      clash p.info.peer_id u.peer_id id x y h
  step-both (message (online_event _ p)) (message (reachable_event _ _ m)) s x y h =
      rw (x, y) (sym (announced-online p m.from.peer_id s))
  step-both (message (unknown_event _ p)) (message (online_event _ u)) s x y h =
      clash p.peer_id u.info.peer_id id x y h
  step-both (message (unknown_event _ p)) (message (unknown_event _ u)) s x y h =
      clash p.peer_id u.peer_id id x y h
  step-both (message (unknown_event _ p)) (message (reachable_event _ _ m)) s x y h =
      clash p.peer_id m.peer.peer_id id x y h
  step-both (message (reachable_event _ _ m)) (message (online_event _ p)) s x y h =
      rw (x, y) (announced-online p m.from.peer_id s)
  step-both (message (reachable_event _ _ m)) (message (unknown_event _ u)) s x y h =
      clash m.peer.peer_id u.peer_id id x y h
  step-both (message (reachable_event _ _ m)) (message (reachable_event _ _ u)) s x y h =
      clash m.peer.peer_id u.peer.peer_id id x y h
  step-both (tick _) b s x y h = cc
  step-both (message _) (tick _) s x y h = cc
  step-both (message (wait _)) _ s x y h = cc h
  step-both (message _) (message (wait _)) s x y h = cc h

  pub step-swap :
      (a b : Input) (s : Status)
      → is_independent a b ≡ true
      → step cfg id b (step cfg id a s) ≡ step cfg id a (step cfg id b s)
  step-swap a b s h = elim (Bool-cases (is_about id a)) [
    | inr x ↦
        ap (step cfg id b) (step-other cfg id a s x) ∙ sym (step-other cfg id a (step cfg id b s) x)
    | inl x ↦ elim (Bool-cases (is_about id b)) [
      | inr y ↦
          step-other cfg id b (step cfg id a s) y
          ∙ ap (step cfg id a) (sym (step-other cfg id b s y))
      | inl y ↦ step-both a b s x y h
    ]
  ]

  steps-swap :
      (es fs : List Input) (a b : Input) (s : Status)
      → is_independent a b ≡ true
      → steps cfg id (es ++ a ∷ b ∷ fs) s ≡ steps cfg id (es ++ b ∷ a ∷ fs) s
  unfolding steps
  steps-swap es fs a b s h =
      steps-append cfg id es (a ∷ b ∷ fs) s
      ∙ ap (steps cfg id fs) (step-swap a b (steps cfg id es s) h)
      ∙ sym (steps-append cfg id es (b ∷ a ∷ fs) s)

module _ {r : Redis} {s : IsServer r} {sc : Scans r} (x : IsScan s sc)
    (read_endpoint : String → Option EndpointInfo) {i : IpInfo} (t : Texts) (j : Json)
    (q : Mqtt j.Text) (connected : IsConnected q) (cfg : Config)
    (lasts : is_time cfg.default_timeout ≡ true)
    (unknown_lasts : is_time cfg.unknown_default_timeout ≡ true) (st : Station r i q)
    (alive : s.alive st.world.db ≡ true) (typed : IsTyped (s.view st.world.db)) (id : String) where
  -- With timeouts that Redis takes (`is_time`) and an MQTT client that publishes, on a server that answers and whose
  -- keys hold what the program keeps under them: two inputs in a row may be handled in either order,
  -- and the database says the same about every peer, also after whatever follows, if neither is a
  -- pause and they are about different peers, or if one reports a peer as online and the other one as
  -- reachable.
  pub run-swap :
      (es fs : List Input) (a b : Input)
      → is_independent a b ≡ true
      → status_after x read_endpoint t j q connected cfg lasts unknown_lasts st alive typed id
          (es ++ a ∷ b ∷ fs)
        ≡ status_after x read_endpoint t j q connected cfg lasts unknown_lasts st alive typed id
            (es ++ b ∷ a ∷ fs)
  run-swap es fs a b h =
      tracked x read_endpoint t j q connected cfg lasts unknown_lasts st alive typed id
        (es ++ a ∷ b ∷ fs)
      ∙ steps-swap cfg id es fs a b (status_in (s.view st.world.db) id) h
      ∙ sym (
          tracked x read_endpoint t j q connected cfg lasts unknown_lasts st alive typed id
            (es ++ b ∷ a ∷ fs))
