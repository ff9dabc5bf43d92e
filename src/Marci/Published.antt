-- ===== src/Marci/Published.antt =====
-- marci/src/main.rs: what the MQTT client has published after a history.
use ckb_discovery.Prelude.{
  ℕ, String, ◌≡◌, refl, ap, ◌∙◌, true, Option, List, [], ◌∷◌, ◌++◌, map, Elem, inl, inr,
}
use ckb_discovery.Types.{EndpointInfo, NodeMetaInfo}
use ckb_discovery.Redis.{Redis, IsServer}
use ckb_discovery.Redis.Reference.{is_time}
use ckb_discovery.Redis.Scan.{Scans, IsScan}
use ckb_discovery.Marci.Exec.{Config, IpInfo, Texts, pure, ◌>>=◌}
use ckb_discovery.Marci.Ingest.{Json}
use ckb_discovery.Marci.Broadcast.{Mqtt, Station, Input, tick, handle, run}
use ckb_discovery.Marci.BroadcastSpec.{publish_each, reachable_records}
use ckb_discovery.Marci.Typed.{IsTyped}
use ckb_discovery.Marci.Running.{IsConnected}
use ckb_discovery.Marci.Announcements.{sent_all, due, run-client, tick-client}

-- The topics and payloads that the client has published, in order.
pub record Log {Text : Type 0} (q : Mqtt Text) : Type 0 where
  pub sent : q.Client → List (String × Text)
  pub sent_lem :
      (topic : String) (text : Text) (c : q.Client)
      → sent (q.publish topic text c).1 ≡ sent c ++ (topic, text) ∷ []

append_assoc :
    {A : Type 0} (xs : List A) (y : A) (ys : List A) → (xs ++ y ∷ []) ++ ys ≡ xs ++ y ∷ ys
append_assoc [] y ys = refl
append_assoc (x ∷ xs) y ys = ap (λ zs. x ∷ zs) (append_assoc xs y ys)

append_nil : {A : Type 0} (xs : List A) → xs ≡ xs ++ []
append_nil [] = refl
append_nil (x ∷ xs) = ap (λ zs. x ∷ zs) (append_nil xs)

-- The publication of a record.
abbrev pub needs_dial : (j : Json) → NodeMetaInfo → String × j.Text
needs_dial j node = ("peer/needs_dial", j.write_node_meta_info node)

module _ (j : Json) {q : Mqtt j.Text} (l : Log q) (connected : IsConnected q) where
  pub sent-sent_all :
      (ps : List NodeMetaInfo) (c : q.Client)
      → l.sent (sent_all j q ps c) ≡ l.sent c ++ map (needs_dial j) ps
  unfolding publish_each ◌>>=◌ pure
  sent-sent_all [] c = append_nil (l.sent c)
  sent-sent_all (p ∷ ps) c =
      rw (sent_all, connected.publish_lem "peer/needs_dial" (j.write_node_meta_info p) c)
        (sent-sent_all ps (q.publish "peer/needs_dial" (j.write_node_meta_info p) c).1
          ∙ ap (λ xs. xs ++ map (needs_dial j) ps)
              (l.sent_lem "peer/needs_dial" (j.write_node_meta_info p) c)
          ∙ append_assoc (l.sent c) (needs_dial j p) (map (needs_dial j) ps))

pub Elem-append : {A : Type 0} (a : A) (xs ys : List A) → Elem a ys → Elem a (xs ++ ys)
Elem-append a [] ys h = h
Elem-append a (x ∷ xs) ys h = inr (Elem-append a xs ys h)

pub map-Elem :
    {A B : Type 0} (f : A → B) (b : B) (xs : List A)
    → Elem b (map f xs)
    → (a : A) × Elem a xs × (f a ≡ b)
map-Elem f b [] h = absurd h
map-Elem f b (x ∷ xs) (inl e) = (x, inl refl, e)
map-Elem f b (x ∷ xs) (inr h) = let (a, m, e) = map-Elem f b xs h in (a, inr m, e)

module _ {r : Redis} {s : IsServer r} {sc : Scans r} (x : IsScan s sc)
    (read_endpoint : String → Option EndpointInfo) {i : IpInfo} (t : Texts) (j : Json)
    {q : Mqtt j.Text} (l : Log q) (connected : IsConnected q) (cfg : Config) where
  -- A tick publishes the stored records of the peers with a reachable key, and nothing else.
  pub tick-sent :
      (now : ℕ) (st : Station r i q)
      → s.alive st.world.db ≡ true
      → l.sent (handle r sc i t j q read_endpoint cfg (tick now) st).1.client
        ≡ l.sent st.client ++ map (needs_dial j) (reachable_records x read_endpoint st.world.db)
  tick-sent now st alive =
      ap l.sent (tick-client x read_endpoint t j q cfg now st alive)
      ∙ sent-sent_all j l connected _ st.client

  -- With timeouts that Redis takes (`is_time`) and an MQTT client that publishes, on a server that answers
  -- and whose keys hold what the program keeps under them: a history publishes the records that are
  -- stored, at each tick of it, of the peers with a reachable key, and nothing else.
  pub run-sent :
      (lasts : is_time cfg.default_timeout ≡ true)
      (unknown_lasts : is_time cfg.unknown_default_timeout ≡ true) (es : List Input)
      (st : Station r i q)
      → s.alive st.world.db ≡ true
      → IsTyped (s.view st.world.db)
      → l.sent (run r sc i t j q read_endpoint cfg es st).1.client
        ≡ l.sent st.client
          ++ map (needs_dial j) (due x read_endpoint t j q connected cfg lasts unknown_lasts es st)
  run-sent lasts unknown_lasts es st alive typed =
      ap l.sent
        (run-client x read_endpoint t j q connected cfg lasts unknown_lasts es st alive typed)
      ∙ sent-sent_all j l connected _ st.client
