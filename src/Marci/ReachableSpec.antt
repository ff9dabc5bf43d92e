-- ===== src/Marci/ReachableSpec.antt =====
-- marci/src/main.rs: what the reachable arm stores under each key.
use ckb_discovery.Prelude.{
  ℕ, String, ◌≡◌, ap, ◌∙◌, Bool, true, false, ◌&&◌, Option, none, some, ok, arith, str_eq,
  if◌then◌else◌,
}
use ckb_discovery.Types.{ReachableInfo, into_str}
use ckb_discovery.Keys.{
  Key, reachable, info, network_quick, last_update, last_seen, ip, country, city, region, pos,
  network, key_text,
}
use ckb_discovery.Keys.Equality.{str_eq-key_text, net_eq}
use ckb_discovery.Redis.{Redis, IsServer, reference}
use ckb_discovery.Redis.Reference.{View, Reply, Entry, plain, put}
use ckb_discovery.Marci.Exec.{Config, IpDetails, IpInfo, Texts, World}
use ckb_discovery.Marci.Arms.{reachable_arm}
use ckb_discovery.Marci.Refines.{abstract}
use ckb_discovery.Marci.Simulation.{reachable_arm-Refines}
use ckb_discovery.Marci.Typed.{IsTyped}
use ckb_discovery.Marci.Spec.{at}
use ckb_discovery.Marci.Announced.{
  grown, grown_all, noted, placed, is_placed, place_of, with_addresses-at, reachable_arm-reference,
}

-- The entry of one field of the peer's place: it stays if the country is known already.
abbrev filled : Bool → Option IpDetails → (IpDetails → String) → Option Entry → Option Entry
filled true d field old = old
filled false none field old = old
filled false (some d) field old = plain (field d)

module _ (t : Texts) (msg : ReachableInfo) where
  abbrev id : String
  id = msg.peer.peer_id

  -- The keys after a peer was announced: `known` says that a country was stored before, and `d` is the
  -- place of the first of its addresses that has one.
  abbrev pub after_reachable :
      View → (known : Bool) → Option IpDetails → (now later : ℕ) → Key → Option Entry
  after_reachable v known d now later (reachable a) =
      if str_eq id a then grown msg.from.peer_id (at v (reachable id)) else at v (reachable a)
  after_reachable v known d now later (network_quick a n) =
      if str_eq id a && net_eq msg.peer.network n then plain "0" else at v (network_quick a n)
  after_reachable v known d now later (info ip a) =
      if str_eq id a then grown_all t msg.peer.addresses (at v (info ip id)) else at v (info ip a)
  after_reachable v known d now later (info network a) =
      if str_eq id a then plain (into_str msg.peer.network) else at v (info network a)
  after_reachable v known d now later (info last_seen a) =
      if str_eq id a then plain (t.show_u64 now) else at v (info last_seen a)
  after_reachable v known d now later (info country a) =
      if str_eq id a
      then filled known d (λ p. p.country) (at v (info country a))
      else at v (info country a)
  after_reachable v known d now later (info city a) =
      if str_eq id a then filled known d (λ p. p.city) (at v (info city a)) else at v (info city a)
  after_reachable v known d now later (info region a) =
      if str_eq id a
      then filled known d (λ p. p.region) (at v (info region a))
      else at v (info region a)
  after_reachable v known d now later (info pos a) =
      if str_eq id a then filled known d (λ p. p.loc) (at v (info pos a)) else at v (info pos a)
  after_reachable v known d now later last_update = plain (t.show_u64 later)
  after_reachable v known d now later k = at v k

  reachable_keys :
      (v : View) (known : Bool) (d : Option IpDetails) (now later : ℕ) (k : Key)
      → at
          (put
            (key_text last_update)
            (plain (t.show_u64 later))
            (placed t msg known d (noted t msg now v)))
          k
        ≡ after_reachable v known d now later k
  reachable_keys v true d now later k = simp (with_addresses-at, str_eq-key_text) (ground arith)
  reachable_keys v false none now later k = simp (with_addresses-at, str_eq-key_text) (ground arith)
  reachable_keys v false (some p) now later k =
      simp (with_addresses-at, str_eq-key_text) (ground arith)

-- On a server that answers, whose keys hold what the program keeps under them, the report of a
-- reachable peer is handled without an error. The reporter joins the peer's witnesses, the peer's
-- addresses join those that are stored, its network is stored under both keys, and the times of the
-- report and of the update are stored. If no country is stored, what the cache or else the service
-- knows about the first address that either knows is stored as the peer's place. No other key changes.
pub reachable_arm_lem :
    {r : Redis} (s : IsServer r) {i : IpInfo} (t : Texts) (cfg : Config) (now later : ℕ)
    (msg : ReachableInfo) (w : World r i) (k : Key)
    → s.alive w.db ≡ true
    → IsTyped (s.view w.db)
    → ((reachable_arm r i t cfg now later msg w).0 ≡ ok tt)
      × (at (s.view (reachable_arm r i t cfg now later msg w).1.db) k
          ≡ after_reachable t msg
              (s.view w.db)
              (is_placed t msg (s.view w.db))
              (place_of i t msg.peer.addresses w.cache w.service)
              now
              later
              k)
reachable_arm_lem s {i} t cfg now later msg w k alive typed =
    let a = (reachable_arm-Refines s t cfg now later msg).at w alive in
    let (c, u, e) = reachable_arm-reference t cfg msg now later (abstract s w) typed in
    (
      a.reply ∙ ap (λ (p : Reply (Unit {0}) × World reference i). p.0) e,
      ap (λ (x : World reference i). at x.db k)
            (a.world ∙ ap (λ (p : Reply (Unit {0}) × World reference i). p.1) e)
          ∙ reachable_keys t msg (s.view w.db) _ _ now later k,
    )
