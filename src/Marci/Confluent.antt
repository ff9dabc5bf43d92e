-- ===== src/Marci/Confluent.antt =====
-- marci/src/main.rs: the two tasks may interleave in many ways; how far the database depends on it.
use ckb_discovery.Prelude.{
  String, ◌≡◌, refl, sym, ap, ◌∙◌, true, false, Option, List, [], ◌∷◌, ◌++◌, All,
}
use mathlib.Core.List.{append-nil}
use ckb_discovery.Types.{EndpointInfo, PeerInfo, ReachableInfo}
use ckb_discovery.Redis.{Redis, IsServer}
use ckb_discovery.Redis.Reference.{is_time, Reply}
use ckb_discovery.Redis.Scan.{Scans, IsScan}
use ckb_discovery.Marci.Exec.{Config, IpInfo, Texts}
use ckb_discovery.Marci.Ingest.{Json}
use ckb_discovery.Marci.Arms.{online_event, unknown_event, reachable_event, wait}
use ckb_discovery.Marci.Broadcast.{Mqtt, Station, Input, message, tick}
use ckb_discovery.Marci.Typed.{IsTyped}
use ckb_discovery.Marci.Running.{IsConnected}
use ckb_discovery.Marci.Status.{Status, step, steps}
use ckb_discovery.Marci.Entries.{status_in}
use ckb_discovery.Marci.Machine.{is_pause}
use ckb_discovery.Marci.Swapped.{step-swap}
use ckb_discovery.Marci.Tracked.{run_tracked}
use ckb_discovery.Marci.Process.{Channels, Process, Schedule}
use ckb_discovery.Marci.Order.{AreChannels, collect, online_in, reachable_in, unknown_in}
use ckb_discovery.Marci.Schedule.{Schedule-Handles, online_left, reachable_left, unknown_left}

-- No pause.
abbrev pub IsPrompt : Input → Type 0
IsPrompt e = is_pause e ≡ false

nil_end : {A : Type 0} (l m n : List A) → l ≡ m ++ n → n ≡ [] → m ≡ l
nil_end l m n h e = sym (h ∙ ap (λ (k : List _). m ++ k) e ∙ append-nil m)

nil_front : {A : Type 0} (m n : List A) → m ++ n ≡ [] → m ≡ []
nil_front [] n h = refl
nil_front (a ∷ m) n h = cc h

module _ (cfg : Config) (id : String) where
  -- All reports of one channel after the other.
  see_all : List PeerInfo → Status → Status
  see_all [] s = s
  see_all (p ∷ ps) s = see_all ps (step cfg id (message (online_event 0 p)) s)

  tell_all : List ReachableInfo → Status → Status
  tell_all [] s = s
  tell_all (m ∷ ms) s = tell_all ms (step cfg id (message (reachable_event 0 0 m)) s)

  see_all-reachable :
      (ps : List PeerInfo) (m : ReachableInfo) (s : Status)
      → see_all ps (step cfg id (message (reachable_event 0 0 m)) s)
        ≡ step cfg id (message (reachable_event 0 0 m)) (see_all ps s)
  unfolding see_all
  see_all-reachable [] m s = refl
  see_all-reachable (p ∷ ps) m s =
      ap (see_all ps)
        (step-swap cfg id (message (reachable_event 0 0 m)) (message (online_event 0 p)) s refl)
      ∙ see_all-reachable ps m (step cfg id (message (online_event 0 p)) s)

  -- Without failed dials and pauses, the order between the two other channels does not matter.
  steps-apart :
      (es : List Input) (s : Status)
      → All IsPrompt es
      → collect unknown_in es ≡ []
      → steps cfg id es s ≡ tell_all (collect reachable_in es) (see_all (collect online_in es) s)
  unfolding steps collect see_all tell_all
  steps-apart [] s h k = refl
  steps-apart (message (online_event now p) ∷ es) s (h, hs) k =
      steps-apart es (step cfg id (message (online_event 0 p)) s) hs k
  steps-apart (message (unknown_event now p) ∷ es) s (h, hs) k = cc k
  steps-apart (message (reachable_event now later m) ∷ es) s (h, hs) k =
      steps-apart es (step cfg id (message (reachable_event 0 0 m)) s) hs k
      ∙ ap (tell_all (collect reachable_in es)) (see_all-reachable (collect online_in es) m s)
  steps-apart (message (wait n) ∷ es) s (h, hs) k = cc h
  steps-apart (tick now ∷ es) s (h, hs) k = steps-apart es s hs k

module _ {r : Redis} {s : IsServer r} {sc : Scans r} (x : IsScan s sc)
    (read_endpoint : String → Option EndpointInfo) {i : IpInfo} (t : Texts) (j : Json)
    (q : Mqtt j.Text) (connected : IsConnected q) (cfg : Config)
    (lasts : is_time cfg.default_timeout ≡ true)
    (unknown_lasts : is_time cfg.unknown_default_timeout ≡ true) (c : Channels) (o : AreChannels c)
    (p : Process r sc i t j q read_endpoint cfg c) (alive : s.alive p.station.world.db ≡ true)
    (typed : IsTyped (s.view p.station.world.db))
    (dialled : unknown_left c o r sc i t j q read_endpoint cfg p ≡ []) where
  abbrev P : Type 0
  P = Process r sc i t j q read_endpoint cfg c

  -- The schedule reads the stream to its end, empties the channels and has no pause.
  pub record IsComplete (es : List Input) (u : P) : Type 0 where
    pub schedule : Schedule r sc i t j q read_endpoint cfg c p es u
    pub prompt : All IsPrompt es
    pub online : online_left c o r sc i t j q read_endpoint cfg u ≡ []
    pub reachable : reachable_left c o r sc i t j q read_endpoint cfg u ≡ []

  complete_status :
      (id : String) (es : List Input) (u : P)
      → IsComplete es u
      → status_in (s.view u.station.world.db) id
        ≡ tell_all cfg id (reachable_left c o r sc i t j q read_endpoint cfg p) (
            see_all cfg id
              (online_left c o r sc i t j q read_endpoint cfg p)
              (status_in (s.view p.station.world.db) id))
  complete_status id es u h =
      let a = Schedule-Handles c o r sc i t j q read_endpoint cfg p u es h.schedule in
      ap (λ (z : Reply (Unit {0}) × Station r i q). status_in (s.view z.1.world.db) id)
        (sym a.outcome)
      ∙ run_tracked x read_endpoint t j q connected cfg lasts unknown_lasts es p.station id alive
          typed
      ∙ steps-apart cfg id es (status_in (s.view p.station.world.db) id) h.prompt
          (nil_front (collect unknown_in es) _ (sym a.unknown ∙ dialled))
      ∙ ap
          (λ (l : List ReachableInfo).
            tell_all cfg id l
              (see_all cfg id (collect online_in es) (status_in (s.view p.station.world.db) id)))
          (nil_end _ _ _ a.reachable h.reachable)
      ∙ ap
          (λ (l : List PeerInfo).
            tell_all cfg id (reachable_left c o r sc i t j q read_endpoint cfg p)
              (see_all cfg id l (status_in (s.view p.station.world.db) id)))
          (nil_end _ _ _ a.online h.online)

  -- With timeouts that Redis takes (`is_time`), channels that keep the order and an MQTT client that publishes, on a
  -- server that answers and whose keys hold what the program keeps under them: if no failed dial is in
  -- the channels or in the stream, then any two schedules of the two tasks that read the stream to its
  -- end, empty the channels and have no pause, leave the database saying the same about every peer.
  pub IsComplete-agree :
      (id : String) (es es' : List Input) (u u' : P)
      → IsComplete es u
      → IsComplete es' u'
      → status_in (s.view u.station.world.db) id ≡ status_in (s.view u'.station.world.db) id
  IsComplete-agree id es es' u u' h h' =
      complete_status id es u h ∙ sym (complete_status id es' u' h')
