-- ===== src/Marci/Announced.antt =====
-- marci/src/main.rs: the updates of the database that the reachable arm makes, on the reference map.
use ckb_discovery.Prelude.{
  ℕ, String, ◌≡◌, refl, Bool, true, false, not, Option, none, some, List, [], ◌∷◌, ok, arith,
  str_eq, eq_refl, if◌then◌else◌, Bool-cases, Option-cases, inl, inr,
}
use ckb_discovery.Types.{EndpointInfo, ReachableInfo, into_str}
use ckb_discovery.Keys.{
  Key, reachable, info, network_quick, last_update, last_seen, ip, country, network, key_text,
}
use ckb_discovery.Keys.Equality.{str_eq-key_text, key_eq, key_eq_sound}
use ckb_discovery.Redis.{reference}
use ckb_discovery.Redis.Reference.{View, Entry, plain, text_of, put, added}
use ckb_discovery.Marci.Exec.{
  Config, IpDetails, IpInfo, Texts, World, pure, call, attempt, unwrap_or, ◌>>=◌,
}
use ckb_discovery.Marci.Lookup.{
  query_by_reachable, lookup_ipinfo, cache_or_ask, keep_answer, cached,
}
use ckb_discovery.Marci.Arms.{add_addresses, locate, reachable_arm}
use ckb_discovery.Marci.Typed.{IsTyped, Fits, plain_set, added_shape}
use ckb_discovery.Marci.Spec.{at}
use ckb_discovery.Marci.Updates.{place, set_location_lem}

-- The entry of a set with one more member.
abbrev pub grown : String → Option Entry → Option Entry
grown s old = unwrap_or old (added s old)

pub grown_lem :
    (s : String) (old : Option Entry)
    → Fits plain_set old
    → (added s old ≡ ok (grown s old)) × Fits plain_set (grown s old)
grown_lem s old fits = let (e, stored, h) = added_shape s old fits in rw stored (refl, h)

module _ (t : Texts) where
  abbrev pub grown_all : List EndpointInfo → Option Entry → Option Entry
  grown_all [] old = old
  grown_all (addr ∷ addrs) old = grown_all addrs (grown (t.endpoint_json addr) old)

  abbrev pub with_addresses : String → List EndpointInfo → View → View
  with_addresses id [] v = v
  with_addresses id (addr ∷ addrs) v =
      with_addresses id addrs
        (put (key_text (info ip id)) (grown (t.endpoint_json addr) (at v (info ip id))) v)

  pub with_addresses-at :
      (id : String) (addrs : List EndpointInfo) (v : View) (k : Key)
      → at (with_addresses id addrs v) k
        ≡ (if key_eq (info ip id) k then grown_all addrs (at v (info ip id)) else at v k)
  with_addresses-at id [] v k = elim (Bool-cases (key_eq (info ip id) k)) [
    | inl e ↦ rw (e, ← key_eq_sound (info ip id) k e) refl
    | inr e ↦ rw e
  ]
  with_addresses-at id (addr ∷ addrs) v k =
      rw (with_addresses-at id addrs) (simp (str_eq-key_text, eq_refl) (ground arith))

module _ {i : IpInfo} (t : Texts) (cfg : Config) where
  add_addresses_lem :
      (id : String) (addrs : List EndpointInfo) (w : World reference i)
      → Fits plain_set (at w.db (info ip id))
      → add_addresses reference i t cfg id addrs w
        ≡ (ok tt, record w { db = with_addresses t id addrs w.db })
  unfolding add_addresses ◌>>=◌ call pure
  add_addresses_lem id [] w fits = refl
  add_addresses_lem id (addr ∷ addrs) w fits =
      let (stored, fits') = grown_lem (t.endpoint_json addr) (at w.db (info ip id)) fits in
      rw stored (
        add_addresses_lem id addrs
          (record w {
            db =
                put (key_text (info ip id)) (grown (t.endpoint_json addr) (at w.db (info ip id)))
                  w.db;
          })
          (rw (eq_refl (key_text (info ip id))) fits'))

module _ (i : IpInfo) (t : Texts) where
  -- What the cache says, or else the service, or else the search goes on with the service's new state.
  abbrev or_else :
      Option IpDetails
      → Option IpDetails × i.Service
      → (i.Service → Option IpDetails)
      → Option IpDetails
  or_else (some d) answer next = some d
  or_else none (some d, u) next = some d
  or_else none (none, u) next = next u

  abbrev pub place_of : List EndpointInfo → List (String × IpDetails) → i.Service → Option IpDetails
  place_of [] cache u = none
  place_of (addr ∷ addrs) cache u =
      or_else (cached (t.show_ip addr.address) cache) (i.lookup (t.show_ip addr.address) u)
        (place_of addrs cache)

  query_by_reachable_lem :
      (addrs : List EndpointInfo) (w : World reference i)
      → (c : List (String × IpDetails)) × (u : i.Service) × (query_by_reachable t addrs w
          ≡ (ok (place_of addrs w.cache w.service), record w { cache = c; service = u }))
  unfolding query_by_reachable lookup_ipinfo cache_or_ask keep_answer pure ◌>>=◌
  query_by_reachable_lem [] w = (w.cache, w.service, refl)
  query_by_reachable_lem (addr ∷ addrs) w =
      elim (Option-cases (cached (t.show_ip addr.address) w.cache)) [
        | inr (d, e) ↦ (w.cache, w.service, rw e refl)
        | inl e ↦ elim (Option-cases (i.lookup (t.show_ip addr.address) w.service).0) [
          | inr (d, f) ↦ (
            (t.show_ip addr.address, d) ∷ w.cache,
            (i.lookup (t.show_ip addr.address) w.service).1,
            rw e (rw f refl),
          )
          | inl f ↦
              let (c, u, g) =
                query_by_reachable_lem addrs
                  (record w { service = (i.lookup (t.show_ip addr.address) w.service).1 }) in
              (c, u, rw e (rw f g))
        ]
      ]

module _ (t : Texts) (msg : ReachableInfo) where
  abbrev id : String
  id = msg.peer.peer_id

  abbrev pub noted : (now : ℕ) → View → View
  noted now v = put (key_text (info last_seen id)) (plain (t.show_u64 now)) (
      put (key_text (info network id)) (plain (into_str msg.peer.network)) (
        with_addresses t id msg.peer.addresses (
          put (key_text (network_quick id msg.peer.network)) (plain "0")
            (put (key_text (reachable id)) (grown msg.from.peer_id (at v (reachable id))) v))))

  abbrev pub is_placed : View → Bool
  is_placed v = not (str_eq (unwrap_or "" (text_of (at v (info country id)))) "")

  abbrev pub placed : Bool → Option IpDetails → View → View
  placed true d v = v
  placed false d v = place id d v

  is_placed-noted : (now : ℕ) (v : View) → is_placed (noted now v) ≡ is_placed v
  is_placed-noted now v = simp (with_addresses-at, str_eq-key_text) refl

module _ {i : IpInfo} (t : Texts) (cfg : Config) (msg : ReachableInfo) where
  locate_lem :
      (known : String) (w : World reference i)
      → (c : List (String × IpDetails)) × (u : i.Service) × (locate reference i t cfg msg.peer known
            w
          ≡ (
            ok tt,
            record w {
              db =
                  placed t msg
                    (not (str_eq known ""))
                    (place_of i t msg.peer.addresses w.cache w.service)
                    w.db;
              cache = c;
              service = u;
            },
          ))
  unfolding locate ◌>>=◌ pure
  locate_lem known w = elim (Bool-cases (str_eq known "")) [
    | inl e ↦
        let (c, u, f) = query_by_reachable_lem i t msg.peer.addresses w in
        (c, u, rw e (rw f (rw set_location_lem refl)))
    | inr e ↦ (w.cache, w.service, rw e refl)
  ]

  pub reachable_arm-reference :
      (now later : ℕ) (w : World reference i)
      → IsTyped w.db
      → (c : List (String × IpDetails)) × (u : i.Service) × (reachable_arm reference i t cfg now
            later msg w
          ≡ (
            ok tt,
            record w {
              db = put (key_text last_update) (plain (t.show_u64 later)) (
                  placed t msg
                    (is_placed t msg w.db)
                    (place_of i t msg.peer.addresses w.cache w.service)
                    (noted t msg now w.db));
              cache = c;
              service = u;
            },
          ))
  unfolding reachable_arm ◌>>=◌ pure call attempt
  reachable_arm-reference now later w typed =
      let (stored, fits) =
        grown_lem msg.from.peer_id (at w.db (reachable msg.peer.peer_id))
          (typed.at (reachable msg.peer.peer_id)) in
      let (c, u, e) =
        locate_lem
          (unwrap_or "" (text_of (at (noted t msg now w.db) (info country msg.peer.peer_id))))
          (record w { db = noted t msg now w.db }) in
      let two = record w {
        db = put (key_text (network_quick msg.peer.peer_id msg.peer.network)) (plain "0") (
            put (key_text (reachable msg.peer.peer_id))
              (grown msg.from.peer_id (at w.db (reachable msg.peer.peer_id))) w.db);
      } in
      (
        c,
        u,
        rw stored (
            rw
              (add_addresses_lem t cfg msg.peer.peer_id msg.peer.addresses two
                (simp str_eq-key_text (typed.at (info ip msg.peer.peer_id))))
              (rw e (rw (is_placed-noted t msg now w.db) refl))),
      )
