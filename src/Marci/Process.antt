-- ===== src/Marci/Process.antt =====
-- marci/src/main.rs: the process as a whole. The task that reads the MQTT stream and the main loop run at
-- the same time, with three channels between them; `select!` takes any branch that is ready.
use ckb_discovery.Prelude.{ℕ, String, ◌≡◌, Option, none, some, List, [], ◌∷◌, ◌++◌, ok}
use ckb_discovery.Types.{EndpointInfo, PeerInfo, ReachableInfo, NodeMetaInfo}
use ckb_discovery.Redis.{Redis}
use ckb_discovery.Redis.Scan.{Scans}
use ckb_discovery.Marci.Exec.{Config, IpInfo, Texts}
use ckb_discovery.Marci.Arms.{Event, online_event, unknown_event, reachable_event, wait}
use ckb_discovery.Marci.Ingest.{Json, Sent, to_online, to_reachable, to_unknown, ingest}
use ckb_discovery.Marci.Broadcast.{Mqtt, Station, Input, message, tick, handle}

-- `tokio::sync::mpsc`: `send` is `none` while the channel is full and the task waits, `recv` while it
-- is empty.
pub record Channel (A : Type 0) : Type 1 where
  pub Queue : Type 0
  pub send : A → Queue → Option Queue
  pub recv : Queue → Option (A × Queue)

-- The documented order: first in, first out.
pub record IsChannel {A : Type 0} (c : Channel A) : Type 0 where
  pub contents : c.Queue → List A
  pub send_lem :
      (a : A) (s s' : c.Queue) → c.send a s ≡ some s' → contents s' ≡ contents s ++ a ∷ []
  pub recv_lem : (a : A) (s s' : c.Queue) → c.recv s ≡ some (a, s') → contents s ≡ a ∷ contents s'

-- The three channels.
pub record Channels : Type 1 where
  pub online : Channel PeerInfo
  pub reachable : Channel ReachableInfo
  pub unknown : Channel NodeMetaInfo

pub record Queues (c : Channels) : Type 0 where
  pub online : c.online.Queue
  pub reachable : c.reachable.Queue
  pub unknown : c.unknown.Queue

-- What the task does with the messages of one round.
pub data Enqueue (c : Channels) (x : Queues c) : List Sent → Queues c → Type 0 where
  nothing : Enqueue c x [] x
  send_online :
      (v : PeerInfo) (s : c.online.Queue)
      → c.online.send v x.online ≡ some s
      → Enqueue c x (to_online v ∷ []) (record x { online = s })
  send_reachable :
      (v : ReachableInfo) (s : c.reachable.Queue)
      → c.reachable.send v x.reachable ≡ some s
      → Enqueue c x (to_reachable v ∷ []) (record x { reachable = s })
  send_unknown :
      (v : NodeMetaInfo) (s : c.unknown.Queue)
      → c.unknown.send v x.unknown ≡ some s
      → Enqueue c x (to_unknown v ∷ []) (record x { unknown = s })

-- What the main loop receives.
pub data Receive (c : Channels) (x : Queues c) : Event → Queues c → Type 0 where
  receive_online :
      (now : ℕ) (v : PeerInfo) (s : c.online.Queue)
      → c.online.recv x.online ≡ some (v, s)
      → Receive c x (online_event now v) (record x { online = s })
  receive_reachable :
      (now later : ℕ) (v : ReachableInfo) (s : c.reachable.Queue)
      → c.reachable.recv x.reachable ≡ some (v, s)
      → Receive c x (reachable_event now later v) (record x { reachable = s })
  receive_unknown :
      (now : ℕ) (v : NodeMetaInfo) (s : c.unknown.Queue)
      → c.unknown.recv x.unknown ≡ some (v, s)
      → Receive c x (unknown_event now v) (record x { unknown = s })

-- An item of the stream: a message, or a lost connection, after which the task reconnects.
abbrev pub ingest_item : (j : Json) → Option (String × j.Text) → List Sent
ingest_item j none = []
ingest_item j (some (topic, payload)) = ingest j topic payload

module _ (r : Redis) (sc : Scans r) (i : IpInfo) (t : Texts) (j : Json) (q : Mqtt j.Text)
    (read_endpoint : String → Option EndpointInfo) (cfg : Config) (c : Channels) where
  pub record Process : Type 0 where
    pub stream : List (Option (String × j.Text))
    pub queues : Queues c
    pub station : Station r i q

  -- One step, with what the main loop handles in it. An arm that fails ends the process.
  pub data Step (p : Process) : List Input → Process → Type 0 where
    read :
        (item : Option (String × j.Text)) (rest : List (Option (String × j.Text)))
        (sent : List Sent) (x : Queues c)
        → p.stream ≡ item ∷ rest
        → ingest_item j item ≡ sent
        → Enqueue c p.queues sent x
        → Step p [] (record { stream = rest; queues = x; station = p.station })
    receive :
        (e : Event) (x : Queues c) (st : Station r i q)
        → Receive c p.queues e x
        → handle r sc i t j q read_endpoint cfg (message e) p.station ≡ (ok tt, st)
        → Step p (message e ∷ []) (record { stream = p.stream; queues = x; station = st })
    wake :
        (now : ℕ) (st : Station r i q)
        → handle r sc i t j q read_endpoint cfg (tick now) p.station ≡ (ok tt, st)
        → Step p (tick now ∷ []) (record { stream = p.stream; queues = p.queues; station = st })
    pause :
        (n : ℕ) (st : Station r i q)
        → handle r sc i t j q read_endpoint cfg (message (wait n)) p.station ≡ (ok tt, st)
        → Step p
            (message (wait n) ∷ [])
            (record { stream = p.stream; queues = p.queues; station = st })

  -- A schedule: steps one after the other, with what the main loop handles in them.
  pub data Schedule (p : Process) : List Input → Process → Type 0 where
    start : Schedule p [] p
    next :
        {es fs : List Input} {s u : Process}
        → Schedule p es s
        → Step s fs u
        → Schedule p (es ++ fs) u
