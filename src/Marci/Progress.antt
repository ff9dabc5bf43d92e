-- ===== src/Marci/Progress.antt =====
-- marci/src/main.rs: the two tasks never wait for each other.
use ckb_discovery.Redis.Reference.{is_time}
use ckb_discovery.Prelude.{
  String, ◌≡◌, refl, Bool, true, false, Option, none, some, List, [], ◌∷◌, ok, is_some,
  if◌then◌else◌,
}
use mathlib.Core.Path.{subst}
use ckb_discovery.Types.{EndpointInfo}
use ckb_discovery.Redis.{Redis, IsServer}
use ckb_discovery.Redis.Scan.{Scans, IsScan}
use ckb_discovery.Marci.Exec.{Config, IpInfo, Texts}
use ckb_discovery.Marci.Arms.{Event, online_event, unknown_event, reachable_event}
use ckb_discovery.Marci.Typed.{IsTyped}
use ckb_discovery.Marci.Ingest.{
  Json, Sent, to_online, to_reachable, to_unknown, send_if_some, ingest,
}
use ckb_discovery.Marci.Broadcast.{Mqtt, Station, Input, message, handle}
use ckb_discovery.Marci.Running.{IsConnected, Runs, handle-Runs, run-Runs}
use ckb_discovery.Marci.Order.{AreChannels}
use ckb_discovery.Marci.Schedule.{Schedule-Handles}
use ckb_discovery.Marci.Process.{
  Channel, Channels, Queues, Enqueue, nothing, send_online, send_reachable, send_unknown, Receive,
  receive_online, receive_reachable, receive_unknown, ingest_item, Process, read, receive, Schedule,
  start, next,
}

-- A channel that is full is not empty, and has room once something is received.
pub record IsBounded {A : Type 0} (c : Channel A) : Type 0 where
  pub full_lem : (a : A) (s : c.Queue) → c.send a s ≡ none → is_some (c.recv s) ≡ true
  pub room_lem : (a b : A) (s s' : c.Queue) → c.recv s ≡ some (b, s') → is_some (c.send a s') ≡ true

pub record AreBounded (c : Channels) : Type 0 where
  pub online : IsBounded c.online
  pub reachable : IsBounded c.reachable
  pub unknown : IsBounded c.unknown

-- The task sends at most one message in a round.
data AtMostOne : List Sent → Type 0 where
  no_message : AtMostOne []
  one_message : (m : Sent) → AtMostOne (m ∷ [])

AtMostOne-send_if_some : {A : Type 0} (to : A → Sent) (o : Option A) → AtMostOne (send_if_some to o)
AtMostOne-send_if_some to none = no_message
AtMostOne-send_if_some to (some a) = one_message (to a)

AtMostOne-if :
    (b : Bool) (l m : List Sent) → AtMostOne l → AtMostOne m → AtMostOne (if b then l else m)
AtMostOne-if true l m h k = h
AtMostOne-if false l m h k = k

AtMostOne-ingest_item :
    (j : Json) (item : Option (String × j.Text)) → AtMostOne (ingest_item j item)
unfolding ingest
AtMostOne-ingest_item j none = no_message
AtMostOne-ingest_item j (some (topic, payload)) =
    search (AtMostOne-if, AtMostOne-send_if_some, no_message)

-- The task can send, if not at once then when the main loop has received one message.
data CanSend (c : Channels) (x : Queues c) (l : List Sent) : Type 0 where
  at_once : (x' : Queues c) → Enqueue c x l x' → CanSend c x l
  after_receive :
      (e : Event) (x' x'' : Queues c) → Receive c x e x' → Enqueue c x' l x'' → CanSend c x l

module _ (c : Channels) (b : AreBounded c) where
  -- One channel: `sends` and `receives` say what a send and a receive make of the queues.
  module _ {A : Type 0} (k : Channel A) (bounded : IsBounded k) (x : Queues c) (m : Sent) (a : A)
      (s : k.Queue) (set : k.Queue → Queues c)
      (sends : (s' : k.Queue) → k.send a s ≡ some s' → Enqueue c x (m ∷ []) (set s'))
      (event : A → Event)
      (receives : (v : A) (s' : k.Queue) → k.recv s ≡ some (v, s') → Receive c x (event v) (set s'))
      (sends_after : (s' s'' : k.Queue)
        → k.send a s' ≡ some s''
        → Enqueue c (set s') (m ∷ []) (set s'')) where
    room :
        (v : A) (s' : k.Queue) (o : Option k.Queue)
        → k.recv s ≡ some (v, s')
        → k.send a s' ≡ o
        → CanSend c x (m ∷ [])
    room v s' (some s'') h e =
        after_receive (event v) (set s') (set s'') (receives v s' h) (sends_after s' s'' e)
    room v s' none h e = cc (bounded.room_lem a v s s' h, e)

    wait_for :
        (o : Option (A × k.Queue)) → k.recv s ≡ o → is_some (k.recv s) ≡ true → CanSend c x (m ∷ [])
    wait_for (some (v, s')) h n = room v s' (k.send a s') h refl
    wait_for none h n = cc (h, n)

    can_send : (o : Option k.Queue) → k.send a s ≡ o → CanSend c x (m ∷ [])
    can_send (some s') e = at_once (set s') (sends s' e)
    can_send none e = wait_for (k.recv s) refl (bounded.full_lem a s e)

  CanSend_lem : (x : Queues c) (l : List Sent) → AtMostOne l → CanSend c x l
  CanSend_lem x l no_message = at_once x nothing
  CanSend_lem x l (one_message (to_online v)) =
      can_send c.online b.online x (to_online v) v x.online (λ s. record x { online = s })
        (λ s e. send_online v s e) (online_event 0) (λ u s e. receive_online 0 u s e)
        (λ s' s'' e. send_online v s'' e) (c.online.send v x.online) refl
  CanSend_lem x l (one_message (to_reachable v)) =
      can_send c.reachable b.reachable x (to_reachable v) v x.reachable
        (λ s. record x { reachable = s }) (λ s e. send_reachable v s e) (reachable_event 0 0)
        (λ u s e. receive_reachable 0 0 u s e) (λ s' s'' e. send_reachable v s'' e)
        (c.reachable.send v x.reachable) refl
  CanSend_lem x l (one_message (to_unknown v)) =
      can_send c.unknown b.unknown x (to_unknown v) v x.unknown (λ s. record x { unknown = s })
        (λ s e. send_unknown v s e) (unknown_event 0) (λ u s e. receive_unknown 0 u s e)
        (λ s' s'' e. send_unknown v s'' e) (c.unknown.send v x.unknown) refl

module _ (r : Redis) (sc : Scans r) (i : IpInfo) (t : Texts) (j : Json) (q : Mqtt j.Text)
    (read_endpoint : String → Option EndpointInfo) (cfg : Config) (c : Channels) where
  -- A schedule after which the stream is read to its end.
  pub record Drains (p : Process r sc i t j q read_endpoint cfg c) : Type 0 where
    pub handled : List Input
    pub last : Process r sc i t j q read_endpoint cfg c
    pub steps : Schedule r sc i t j q read_endpoint cfg c p handled last
    pub empty : last.stream ≡ []

module _ {r : Redis} {s : IsServer r} {sc : Scans r} (x : IsScan s sc)
    (read_endpoint : String → Option EndpointInfo) (i : IpInfo) (t : Texts) (j : Json)
    (q : Mqtt j.Text) (connected : IsConnected q) (cfg : Config)
    (lasts : is_time cfg.default_timeout ≡ true)
    (unknown_lasts : is_time cfg.unknown_default_timeout ≡ true) (c : Channels)
    (b : AreBounded c) where
  abbrev P : Type 0
  P = Process r sc i t j q read_endpoint cfg c

  abbrev ScheduleOf : P → List Input → P → Type 0
  ScheduleOf = Schedule r sc i t j q read_endpoint cfg c

  handled_lem :
      (e : Event) (st : Station r i q)
      → Runs x read_endpoint t j q connected cfg lasts unknown_lasts
          (handle r sc i t j q read_endpoint cfg (message e) st)
      → handle r sc i t j q read_endpoint cfg (message e) st
        ≡ (ok tt, (handle r sc i t j q read_endpoint cfg (message e) st).1)
  handled_lem e st h = λ k. (h.reply k, (handle r sc i t j q read_endpoint cfg (message e) st).1)

  drain :
      (stream : List (Option (String × j.Text))) (p : P) (es : List Input) (u : P)
      → ScheduleOf p es u
      → u.stream ≡ stream
      → s.alive u.station.world.db ≡ true
      → IsTyped (s.view u.station.world.db)
      → Drains r sc i t j q read_endpoint cfg c p
  drain [] p es u h e alive typed = record { handled = es; last = u; steps = h; empty = e }
  drain (item ∷ rest) p es u h e alive typed =
      elim (CanSend_lem c b u.queues (ingest_item j item) (AtMostOne-ingest_item j item)) [
        | at_once x' sent ↦
            drain rest p _ (record { stream = rest; queues = x'; station = u.station })
              (next h (read item rest (ingest_item j item) x' e refl sent)) refl alive typed
        | after_receive ev x' x'' received sent ↦
            let k =
              handle-Runs x read_endpoint t j q connected cfg lasts unknown_lasts (message ev)
                u.station alive typed in
            let st = (handle r sc i t j q read_endpoint cfg (message ev) u.station).1 in
            drain rest p _ (record { stream = rest; queues = x''; station = st })
              (next (next h (receive ev x' st received (handled_lem ev u.station k)))
                (read item rest (ingest_item j item) x'' e refl sent))
              refl k.still k.typed
      ]

  -- With timeouts that Redis takes (`is_time`), channels that are bounded and keep the order, and an MQTT client that publishes, on a server that
  -- answers and whose keys hold what the program keeps under them: from every state that the process
  -- reaches, there are steps of the two tasks after which the stream is read to its end. So no full
  -- channel and no failing arm blocks the process.
  pub Schedule-Drains :
      (o : AreChannels c) (p u : P) (es : List Input)
      → ScheduleOf p es u
      → s.alive p.station.world.db ≡ true
      → IsTyped (s.view p.station.world.db)
      → Drains r sc i t j q read_endpoint cfg c u
  Schedule-Drains o p u es h alive typed =
      let a = (Schedule-Handles c o r sc i t j q read_endpoint cfg p u es h).outcome in
      let k =
        run-Runs x read_endpoint t j q connected cfg lasts unknown_lasts es p.station alive typed in
      let k' = subst (Runs x read_endpoint t j q connected cfg lasts unknown_lasts) a k in
      drain u.stream u [] u start refl k'.still k'.typed
