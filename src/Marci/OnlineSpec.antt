-- ===== src/Marci/OnlineSpec.antt =====
-- marci/src/main.rs: what the online arm stores under each key.
use ckb_discovery.Prelude.{
  ℕ, String, ◌≡◌, ap, ◌∙◌, Bool, true, false, not, ◌&&◌, Option, none, some, ok, arith, str_eq,
  if◌then◌else◌,
}
use ckb_discovery.Types.{EndpointInfo, PeerInfo}
use ckb_discovery.Keys.{
  Key, online, online2, online_ip, unknown, info, last_seen, country, city, region, full, pos,
}
use ckb_discovery.Keys.Equality.{str_eq-key_text}
use ckb_discovery.Redis.{Redis, IsServer, reference}
use ckb_discovery.Redis.Reference.{is_time, View, Reply, Entry, plain, lasting, refreshed}
use ckb_discovery.Marci.Exec.{Config, IpDetails, IpInfo, Texts, World}
use ckb_discovery.Marci.Arms.{first, online_arm}
use ckb_discovery.Marci.Refines.{abstract}
use ckb_discovery.Marci.Simulation.{online_arm-Refines}
use ckb_discovery.Marci.Spec.{at, is_online}
use ckb_discovery.Marci.Updates.{place, addressed, marked, noted, located, online_arm-reference}

-- The entry of one field of the peer's place, if it is known.
abbrev shown : Option IpDetails → (IpDetails → String) → Option Entry → Option Entry
shown none field old = old
shown (some d) field old = plain (field d)

module _ (t : Texts) (cfg : Config) (peer : PeerInfo) where
  abbrev id : String
  id = peer.info.peer_id

  abbrev ip_entry : Option EndpointInfo → Option Entry → Option Entry
  ip_entry none old = old
  ip_entry (some addr) old = lasting (t.endpoint_json addr) cfg.default_timeout

  -- The keys after the peer was seen online: `on` says that it was online before, `addr` is the
  -- address that it announces first, and `place` what is known of it.
  abbrev pub after_online :
      View → (on ex : Bool) (now : ℕ) → Option EndpointInfo → Option IpDetails → Key → Option Entry
  after_online v on ex now addr d (online a) =
      if str_eq id a
      then (if on
          then refreshed cfg.default_timeout (at v (online id))
          else if ex
          then at v (online a)
          else lasting peer.version cfg.default_timeout)
      else at v (online a)
  after_online v on ex now addr d (online2 a) =
      if str_eq id a && not on && ex
      then lasting peer.version cfg.default_timeout
      else at v (online2 a)
  after_online v on ex now addr d (online_ip a) =
      if str_eq id a then ip_entry addr (at v (online_ip a)) else at v (online_ip a)
  after_online v on ex now addr d (unknown a) = if str_eq id a then none else at v (unknown a)
  after_online v on ex now addr d (info full a) =
      if str_eq id a then plain (t.show_bool peer.full) else at v (info full a)
  after_online v on ex now addr d (info last_seen a) =
      if str_eq id a then plain (t.show_u64 now) else at v (info last_seen a)
  after_online v on ex now addr d (info country a) =
      if str_eq id a
      then shown d (λ p. p.country) (at v (info country a))
      else at v (info country a)
  after_online v on ex now addr d (info city a) =
      if str_eq id a then shown d (λ p. p.city) (at v (info city a)) else at v (info city a)
  after_online v on ex now addr d (info region a) =
      if str_eq id a then shown d (λ p. p.region) (at v (info region a)) else at v (info region a)
  after_online v on ex now addr d (info pos a) =
      if str_eq id a then shown d (λ p. p.loc) (at v (info pos a)) else at v (info pos a)
  after_online v on ex now addr d k = at v k

  online_keys :
      (v : View) (on ex : Bool) (now : ℕ) (addr : Option EndpointInfo) (d : Option IpDetails)
      (k : Key)
      → at
          (noted t cfg peer now (place id d (addressed t cfg id addr (marked t cfg peer on ex v))))
          k
        ≡ after_online v on ex now addr d k
  online_keys v true ex now none none k = simp str_eq-key_text (ground arith)
  online_keys v true ex now none (some p) k = simp str_eq-key_text (ground arith)
  online_keys v true ex now (some e) none k = simp str_eq-key_text (ground arith)
  online_keys v true ex now (some e) (some p) k = simp str_eq-key_text (ground arith)
  online_keys v false true now none none k = simp str_eq-key_text (ground arith)
  online_keys v false true now none (some p) k = simp str_eq-key_text (ground arith)
  online_keys v false true now (some e) none k = simp str_eq-key_text (ground arith)
  online_keys v false true now (some e) (some p) k = simp str_eq-key_text (ground arith)
  online_keys v false false now none none k = simp str_eq-key_text (ground arith)
  online_keys v false false now none (some p) k = simp str_eq-key_text (ground arith)
  online_keys v false false now (some e) none k = simp str_eq-key_text (ground arith)
  online_keys v false false now (some e) (some p) k = simp str_eq-key_text (ground arith)

-- On a server that answers, with a time for online peers that Redis takes (`is_time`), the report of an online peer
-- is handled without an error. Its online key, if it holds a text, has its time renewed; if not, the
-- version is stored with that time under the key for ex-peers or the key for others, as the report
-- says. The first address is stored with the same time, and what the cache or else the service knows
-- about it as the peer's place. Whether the
-- peer is full and the time of the report are stored, the unknown key is
-- deleted, and no other key changes.
pub online_arm_lem :
    {r : Redis} (s : IsServer r) {i : IpInfo} (t : Texts) (cfg : Config) (now : ℕ) (peer : PeerInfo)
    (w : World r i) (k : Key)
    → is_time cfg.default_timeout ≡ true
    → s.alive w.db ≡ true
    → ((online_arm r i t cfg now peer w).0 ≡ ok tt)
      × (at (s.view (online_arm r i t cfg now peer w).1.db) k
          ≡ after_online t cfg peer
              (s.view w.db)
              (is_online (s.view w.db) peer.info.peer_id)
              peer.is_ex
              now
              (first peer.info.addresses)
              (located i t (abstract s w) (first peer.info.addresses))
              k)
online_arm_lem s {i} t cfg now peer w k lasts alive =
    let a = (online_arm-Refines s t cfg now peer).at w alive in
    let (c, u, e) = online_arm-reference t cfg lasts now peer (abstract s w) in
    (
      a.reply ∙ ap (λ (p : Reply (Unit {0}) × World reference i). p.0) e,
      ap (λ (x : World reference i). at x.db k)
            (a.world ∙ ap (λ (p : Reply (Unit {0}) × World reference i). p.1) e)
          ∙ online_keys t cfg peer (s.view w.db) _ _ now _ _ k,
    )
