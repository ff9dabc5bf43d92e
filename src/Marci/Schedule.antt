-- ===== src/Marci/Schedule.antt =====
-- marci/src/main.rs: what every schedule of the two tasks has in common.
use ckb_discovery.Prelude.{String, ◌≡◌, refl, ◌∙◌, Option, List, [], ◌∷◌, ◌++◌, ok, err}
use ckb_discovery.Types.{EndpointInfo, PeerInfo, ReachableInfo, NodeMetaInfo}
use ckb_discovery.Redis.{Redis}
use ckb_discovery.Redis.Reference.{Reply}
use ckb_discovery.Redis.Scan.{Scans}
use ckb_discovery.Marci.Exec.{Config, IpInfo, Texts, continue, pure, ◌>>=◌}
use ckb_discovery.Marci.Arms.{wait}
use ckb_discovery.Marci.Ingest.{Json, Sent}
use ckb_discovery.Marci.Broadcast.{Mqtt, Station, Input, message, tick, handle, run}
use ckb_discovery.Marci.Process.{
  Channels, Process, Step, read, receive, wake, pause, Schedule, start, next,
}
use ckb_discovery.Marci.Order.{
  collect, online_in, reachable_in, unknown_in, online_of, reachable_of, unknown_of, sent_of,
  AreChannels, Moves, Enqueue-Moves, Receive-Moves, moved, joined, still_queues,
}

module _ (c : Channels) (o : AreChannels c) where
  module _ (r : Redis) (sc : Scans r) (i : IpInfo) (t : Texts) (j : Json) (q : Mqtt j.Text)
      (read_endpoint : String → Option EndpointInfo) (cfg : Config) where
    abbrev pub P : Type 0
    P = Process r sc i t j q read_endpoint cfg c

    abbrev pub loop : List Input → Station r i q → Reply (Unit {0}) × Station r i q
    loop = run r sc i t j q read_endpoint cfg

    -- The messages of a process that the main loop has not handled yet, in order.
    abbrev pub online_left : P → List PeerInfo
    online_left p = o.online.contents p.queues.online ++ collect online_of (sent_of j p.stream)

    abbrev pub reachable_left : P → List ReachableInfo
    reachable_left p =
        o.reachable.contents p.queues.reachable ++ collect reachable_of (sent_of j p.stream)

    abbrev pub unknown_left : P → List NodeMetaInfo
    unknown_left p = o.unknown.contents p.queues.unknown ++ collect unknown_of (sent_of j p.stream)

    -- From `p` to `u`, the main loop handles `es`.
    pub record Handles (p : P) (es : List Input) (u : P) : Type 0 where
      pub outcome : loop es p.station ≡ (ok tt, u.station)
      pub online : online_left p ≡ collect online_in es ++ online_left u
      pub reachable : reachable_left p ≡ collect reachable_in es ++ reachable_left u
      pub unknown : unknown_left p ≡ collect unknown_in es ++ unknown_left u

    one :
        (e : Input) (st st' : Station r i q)
        → handle r sc i t j q read_endpoint cfg e st ≡ (ok tt, st')
        → loop (e ∷ []) st ≡ (ok tt, st')
    unfolding run ◌>>=◌ pure
    one e st st' h = rw h

    -- The loop on some inputs, after one that had the outcome `p`.
    after_one :
        (es fs : List Input) (p : Reply (Unit {0}) × Station r i q)
        → ((st : Station r i q)
            → loop (es ++ fs) st ≡ continue (loop es st).0 (loop es st).1 (λ _. loop fs))
        → continue p.0 p.1 (λ _. loop (es ++ fs))
          ≡ continue
              (continue p.0 p.1 (λ _. loop es)).0
              (continue p.0 p.1 (λ _. loop es)).1
              (λ _. loop fs)
    after_one es fs (ok u, st) h = h st
    after_one es fs (err e, st) h = refl

    run-append :
        (es fs : List Input) (st : Station r i q)
        → loop (es ++ fs) st ≡ continue (loop es st).0 (loop es st).1 (λ _. loop fs)
    unfolding run ◌>>=◌ pure
    run-append [] fs st = refl
    run-append (e ∷ es) fs st =
        after_one es fs (handle r sc i t j q read_endpoint cfg e st) (run-append es fs)

    moves :
        (p u : P) (es : List Input) (l : List Sent)
        → Moves c o p.queues u.queues es l
        → sent_of j p.stream ≡ l ++ sent_of j u.stream
        → loop es p.station ≡ (ok tt, u.station)
        → Handles p es u
    moves p u es l m e h = record {
      outcome = h;
      online = rw e (moved c o online_of online_in _ _ es l (sent_of j u.stream) m.online);
      reachable =
          rw e (moved c o reachable_of reachable_in _ _ es l (sent_of j u.stream) m.reachable);
      unknown = rw e (moved c o unknown_of unknown_in _ _ es l (sent_of j u.stream) m.unknown);
    }

    Step-Handles :
        (p u : P) (es : List Input) → Step r sc i t j q read_endpoint cfg c p es u → Handles p es u
    unfolding sent_of run pure
    Step-Handles p u es (read item rest sent x e k s) =
        moves p _ [] sent (Enqueue-Moves c o p.queues x sent s) (rw e (rw k refl)) refl
    Step-Handles p u es (receive e x st s h) =
        moves p _ (message e ∷ []) [] (Receive-Moves c o p.queues x e s) refl
          (one (message e) p.station st h)
    Step-Handles p u es (wake now st h) =
        moves p _ (tick now ∷ []) [] (still_queues c o p.queues (tick now) refl refl refl) refl
          (one (tick now) p.station st h)
    Step-Handles p u es (pause n st h) =
        moves p _ (message (wait n) ∷ []) []
          (still_queues c o p.queues (message (wait n)) refl refl refl) refl
          (one (message (wait n)) p.station st h)

    -- With channels that keep the order: however the steps of the two tasks interleave, the state of the
    -- main loop is the one after `run` on what it handled, which ends with no error, and for each channel,
    -- the messages that it handled, followed by those in the channel and those that the rest of the
    -- stream brings, are the messages that were in the channel and in the stream at the start: none is
    -- lost, made up or out of order.
    pub Schedule-Handles :
        (p u : P) (es : List Input)
        → Schedule r sc i t j q read_endpoint cfg c p es u
        → Handles p es u
    unfolding run collect pure
    Schedule-Handles p u es start = record {
      outcome = refl;
      online = refl;
      reachable = refl;
      unknown = refl;
    }
    Schedule-Handles p u es (next {es = es'} {fs = fs} {s = s} h k) =
        let a = Schedule-Handles p s es' h in
        let b = Step-Handles s u fs k in
        record {
          outcome = run-append es' fs p.station ∙ rw a.outcome b.outcome;
          online = joined c o online_of online_in _ _ _ es' fs a.online b.online;
          reachable = joined c o reachable_of reachable_in _ _ _ es' fs a.reachable b.reachable;
          unknown = joined c o unknown_of unknown_in _ _ _ es' fs a.unknown b.unknown;
        }
