-- ===== src/Marci/Order.antt =====
-- marci/src/main.rs: the order of the messages in the channels of the two tasks.
use ckb_discovery.Prelude.{String, ◌≡◌, refl, sym, ap, ◌∙◌, Option, none, some, List, [], ◌∷◌, ◌++◌}
use mathlib.Core.List.{append-nil, append_assoc}
use ckb_discovery.Types.{PeerInfo, ReachableInfo, NodeMetaInfo}
use ckb_discovery.Marci.Arms.{Event, online_event, unknown_event, reachable_event}
use ckb_discovery.Marci.Ingest.{Json, Sent, to_online, to_reachable, to_unknown}
use ckb_discovery.Marci.Broadcast.{Input, message}
use ckb_discovery.Marci.Process.{
  IsChannel, Channels, Queues, Enqueue, nothing, send_online, send_reachable, send_unknown, Receive,
  receive_online, receive_reachable, receive_unknown, ingest_item,
}

-- The parts of a list that a function finds.
abbrev pub found_first : {B : Type 0} → Option B → List B → List B
found_first none rest = rest
found_first (some b) rest = b ∷ rest

unfoldable pub collect : {A B : Type 0} → (A → Option B) → List A → List B
collect f [] = []
collect f (a ∷ rest) = found_first (f a) (collect f rest)

found_first-append :
    {B : Type 0} (o : Option B) (l m : List B) → found_first o (l ++ m) ≡ found_first o l ++ m
found_first-append none l m = refl
found_first-append (some b) l m = refl

pub collect-append :
    {A B : Type 0} (f : A → Option B) (l m : List A)
    → collect f (l ++ m) ≡ collect f l ++ collect f m
unfolding collect
collect-append f [] m = refl
collect-append f (a ∷ l) m =
    rw (collect-append f l m) (found_first-append (f a) (collect f l) (collect f m))

-- The messages of one channel in what the main loop handles, and in what the task sends.
abbrev pub online_in : Input → Option PeerInfo
online_in (message (online_event now v)) = some v
online_in _ = none

abbrev pub reachable_in : Input → Option ReachableInfo
reachable_in (message (reachable_event now later v)) = some v
reachable_in _ = none

abbrev pub unknown_in : Input → Option NodeMetaInfo
unknown_in (message (unknown_event now v)) = some v
unknown_in _ = none

abbrev pub online_of : Sent → Option PeerInfo
online_of (to_online v) = some v
online_of _ = none

abbrev pub reachable_of : Sent → Option ReachableInfo
reachable_of (to_reachable v) = some v
reachable_of _ = none

abbrev pub unknown_of : Sent → Option NodeMetaInfo
unknown_of (to_unknown v) = some v
unknown_of _ = none

-- What the task sends of a stream.
unfoldable pub sent_of : (j : Json) → List (Option (String × j.Text)) → List Sent
sent_of j [] = []
sent_of j (item ∷ rest) = ingest_item j item ++ sent_of j rest

-- The channels are in order of sending.
pub record AreChannels (c : Channels) : Type 0 where
  pub online : IsChannel c.online
  pub reachable : IsChannel c.reachable
  pub unknown : IsChannel c.unknown

module _ (c : Channels) (o : AreChannels c) where
  -- What a change of the queues adds behind the messages, and what it takes from their front.
  pub record Moves (x x' : Queues c) (es : List Input) (l : List Sent) : Type 0 where
    pub online :
        o.online.contents x.online ++ collect online_of l
        ≡ collect online_in es ++ o.online.contents x'.online
    pub reachable :
        o.reachable.contents x.reachable ++ collect reachable_of l
        ≡ collect reachable_in es ++ o.reachable.contents x'.reachable
    pub unknown :
        o.unknown.contents x.unknown ++ collect unknown_of l
        ≡ collect unknown_in es ++ o.unknown.contents x'.unknown

  pub Enqueue-Moves : (x x' : Queues c) (l : List Sent) → Enqueue c x l x' → Moves x x' [] l
  unfolding collect
  Enqueue-Moves x x' l nothing = record {
    online = append-nil _;
    reachable = append-nil _;
    unknown = append-nil _;
  }
  Enqueue-Moves x x' l (send_online v s e) = record {
    online = sym (o.online.send_lem v x.online s e);
    reachable = append-nil _;
    unknown = append-nil _;
  }
  Enqueue-Moves x x' l (send_reachable v s e) = record {
    online = append-nil _;
    reachable = sym (o.reachable.send_lem v x.reachable s e);
    unknown = append-nil _;
  }
  Enqueue-Moves x x' l (send_unknown v s e) = record {
    online = append-nil _;
    reachable = append-nil _;
    unknown = sym (o.unknown.send_lem v x.unknown s e);
  }

  pub Receive-Moves :
      (x x' : Queues c) (e : Event) → Receive c x e x' → Moves x x' (message e ∷ []) []
  unfolding collect
  Receive-Moves x x' e (receive_online now v s h) = record {
    online = append-nil _ ∙ o.online.recv_lem v x.online s h;
    reachable = append-nil _;
    unknown = append-nil _;
  }
  Receive-Moves x x' e (receive_reachable now later v s h) = record {
    online = append-nil _;
    reachable = append-nil _ ∙ o.reachable.recv_lem v x.reachable s h;
    unknown = append-nil _;
  }
  Receive-Moves x x' e (receive_unknown now v s h) = record {
    online = append-nil _;
    reachable = append-nil _;
    unknown = append-nil _ ∙ o.unknown.recv_lem v x.unknown s h;
  }

  -- What one channel holds, with what the stream still brings for it.
  module _ {A : Type 0} (f : Sent → Option A) (g : Input → Option A) where
    pub moved :
        (contents contents' : List A) (es : List Input) (l ls : List Sent)
        → contents ++ collect f l ≡ collect g es ++ contents'
        → contents ++ collect f (l ++ ls) ≡ collect g es ++ (contents' ++ collect f ls)
    moved contents contents' es l ls h = rw (collect-append f l ls) (
        sym (append_assoc contents (collect f l) (collect f ls))
        ∙ (ap (λ (m : List A). m ++ collect f ls) h
            ∙ append_assoc (collect g es) contents' (collect f ls)))

    pub joined :
        (a b d : List A) (es fs : List Input)
        → a ≡ collect g es ++ b
        → b ≡ collect g fs ++ d
        → a ≡ collect g (es ++ fs) ++ d
    joined a b d es fs h k =
        rw (h, k, collect-append g es fs) (sym (append_assoc (collect g es) (collect g fs) d))

  pub still_queues :
      (x : Queues c) (e : Input)
      → online_in e ≡ none
      → reachable_in e ≡ none
      → unknown_in e ≡ none
      → Moves x x (e ∷ []) []
  unfolding collect
  still_queues x e h k n = record {
    online = rw h (append-nil _);
    reachable = rw k (append-nil _);
    unknown = rw n (append-nil _);
  }
