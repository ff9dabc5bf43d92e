-- ===== src/Marci/Spec.antt =====
-- marci/src/main.rs: what the arms store under each key, on the reference map.
use ckb_discovery.Prelude.{
  ℕ, String, ◌≡◌, refl, Bool, true, false, not, ◌&&◌, Option, none, List, ok, err, arith, leb, ap,
  ◌∙◌, str_eq, if◌then◌else◌, Bool-cases, inl, inr,
}
use ckb_discovery.Types.{NodeMetaInfo, EndpointInfo, CkbNetworkType}
use ckb_discovery.Keys.{Key, online, reachable, unknown, info, last_seen, key_text}
use ckb_discovery.Keys.Equality.{str_eq-key_text}
use ckb_discovery.Redis.{Redis, IsServer, reference}
use ckb_discovery.Redis.Reference.{
  is_time, View, Reply, Entry, plain, lasting, refreshed, text_of, size_of, put,
}
use ckb_discovery.Marci.Exec.{
  Config, IpInfo, Texts, World, pure, call, attempt, to_i64, unwrap_or, ◌>>=◌,
}
use ckb_discovery.Marci.Typed.{fits_i64, taken}
use ckb_discovery.Marci.Arms.{judge, promote, unknown_arm}
use ckb_discovery.Marci.Refines.{abstract}
use ckb_discovery.Marci.Simulation.{unknown_arm-Refines}

abbrev pub at : View → Key → Option Entry
at v k = v (key_text k)

abbrev pub is_ok : {A : Type 0} → Reply A → Bool
is_ok (ok _) = true
is_ok (err _) = false

-- The peer is online when its online key holds a text.
abbrev pub is_online : View → String → Bool
is_online v id = is_ok (text_of (at v (online id)))

-- How many peers have announced it: the size of its reachable set.
abbrev pub witnesses : View → String → ℕ
witnesses v id = unwrap_or 0 (size_of (at v (reachable id)))

-- The keys after a report that a dial of `id` failed: `on` says that the peer was online, `ready`
-- that it had enough witnesses.
module _ (t : Texts) (cfg : Config) (id : String) (v : View) where
  abbrev pub after_unknown : (on ready : Bool) (now : ℕ) → Key → Option Entry
  after_unknown on ready now (online a) =
      if str_eq id a && on
      then refreshed cfg.default_timeout (at v (online id))
      else at v (online a)
  after_unknown on ready now (unknown a) =
      if str_eq id a && not on && ready
      then lasting "unknown" cfg.unknown_default_timeout
      else at v (unknown a)
  after_unknown on ready now (reachable a) =
      if str_eq id a && not on && ready then none else at v (reachable a)
  after_unknown on ready now (info last_seen a) =
      if str_eq id a then plain (t.show_u64 now) else at v (info last_seen a)
  after_unknown on ready now k = at v k

  -- The same, as the updates that the arm makes.
  abbrev promoted : (ready : Bool) → View
  promoted ready =
      if ready
      then put (key_text (reachable id)) none
          (put (key_text (unknown id)) (lasting "unknown" cfg.unknown_default_timeout) v)
      else v

  abbrev judged : (on ready : Bool) → View
  judged on ready =
      if on
      then put (key_text (online id)) (refreshed cfg.default_timeout (at v (online id))) v
      else promoted ready

  abbrev seen : (now : ℕ) → View → View
  seen now = put (key_text (info last_seen id)) (plain (t.show_u64 now))

  judged_lem :
      (on ready : Bool) (now : ℕ) (k : Key)
      → at (seen now (judged on ready)) k ≡ after_unknown on ready now k
  judged_lem true ready now (info last_seen a) = simp str_eq-key_text (ground arith)
  judged_lem true ready now k = simp str_eq-key_text (ground arith)
  judged_lem false true now (info last_seen a) = simp str_eq-key_text (ground arith)
  judged_lem false true now k = simp str_eq-key_text (ground arith)
  judged_lem false false now (info last_seen a) = simp str_eq-key_text (ground arith)
  judged_lem false false now k = simp str_eq-key_text (ground arith)

module _ {i : IpInfo} (t : Texts) (cfg : Config) (lasts : is_time cfg.default_timeout ≡ true)
    (unknown_lasts : is_time cfg.unknown_default_timeout ≡ true) (w : World reference i)
    (id : String) where
  promote_lem : promote reference i t cfg id (witnesses w.db id) w ≡ (
    ok tt,
    record w { db = promoted t cfg id w.db (leb cfg.default_witnesses (witnesses w.db id)) },
  )
  unfolding promote call pure ◌>>=◌
  promote_lem = elim (Bool-cases (leb cfg.default_witnesses (witnesses w.db id))) [
    | inl e ↦ rw e (rw unknown_lasts refl)
    | inr e ↦ rw e
  ]

  judge_lem :
      (found : Reply String)
      → judge reference i t cfg id found w ≡ (
        ok tt,
        record w {
          db = judged t cfg id w.db (is_ok found) (leb cfg.default_witnesses (witnesses w.db id));
        },
      )
  unfolding judge
  judge_lem (ok s) =
      unfold call to_i64 ◌>>=◌ in
      rw (fits_i64 cfg.default_timeout lasts) (rw (taken cfg.default_timeout lasts) refl)
  judge_lem (err e) = unfold ◌>>=◌ attempt call in promote_lem

  unknown_arm-reference :
      (now : ℕ) (addresses : List EndpointInfo) (net : CkbNetworkType)
      → unknown_arm reference i t cfg now
          (record { peer_id = id; addresses = addresses; network = net })
          w
        ≡ (
          ok tt,
          record w {
            db = seen t cfg id w.db now (
                judged t cfg id w.db
                  (is_online w.db id)
                  (leb cfg.default_witnesses (witnesses w.db id)));
          },
        )
  unfolding unknown_arm ◌>>=◌ attempt call
  unknown_arm-reference now addresses net = rw (judge_lem (text_of (at w.db (online id)))) refl

-- On a server that answers, with times for online and for unknown peers that Redis takes (`is_time`), the report of a failed dial is
-- handled without an error. A peer that is online has its online key's time renewed. Any other with
-- at least the configured number of witnesses gets the unknown key with its time, and its witnesses
-- are deleted. In every case the time of the report is stored, and no other key changes.
pub unknown_arm_lem :
    {r : Redis} (s : IsServer r) {i : IpInfo} (t : Texts) (cfg : Config) (now : ℕ)
    (peer : NodeMetaInfo) (w : World r i) (k : Key)
    → is_time cfg.default_timeout ≡ true
    → is_time cfg.unknown_default_timeout ≡ true
    → s.alive w.db ≡ true
    → ((unknown_arm r i t cfg now peer w).0 ≡ ok tt)
      × (at (s.view (unknown_arm r i t cfg now peer w).1.db) k
          ≡ after_unknown t cfg peer.peer_id
              (s.view w.db)
              (is_online (s.view w.db) peer.peer_id)
              (leb cfg.default_witnesses (witnesses (s.view w.db) peer.peer_id))
              now
              k)
unknown_arm_lem s {i} t cfg now peer w k lasts unknown_lasts alive =
    let a = (unknown_arm-Refines s t cfg now peer).at w alive in
    let e =
      unknown_arm-reference t cfg lasts unknown_lasts (abstract s w) peer.peer_id now peer.addresses
        peer.network in
    (
      a.reply ∙ ap (λ (p : Reply (Unit {0}) × World reference i). p.0) e,
      ap (λ (x : World reference i). at x.db k)
            (a.world ∙ ap (λ (p : Reply (Unit {0}) × World reference i). p.1) e)
          ∙ judged_lem t cfg peer.peer_id (s.view w.db) _ _ now k,
    )
