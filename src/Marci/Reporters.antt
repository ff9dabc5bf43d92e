-- ===== src/Marci/Reporters.antt =====
-- marci/src/main.rs: a peer becomes an unknown one only after enough others have announced it.
use ckb_discovery.Prelude.{
  ℕ, ◌≤◌, ◌<◌, String, ◌≡◌, refl, ◌∙◌, true, false, not, ◌&&◌, Option, none, some, List, [], ◌∷◌,
  ◌++◌, length, leb, is_some, str_eq, eq_refl, eq_iff, if◌then◌else◌, Bool-cases, inl, inr, arith,
  contains, length-append,
}
use ckb_discovery.Types.{PeerInfo}
use ckb_discovery.Redis.Reference.{with_member}
use ckb_discovery.Marci.Exec.{Config}
use ckb_discovery.Marci.Arms.{online_event, unknown_event, reachable_event, wait}
use ckb_discovery.Marci.Broadcast.{Input, message, tick}
use ckb_discovery.Marci.Status.{
  Timed, Status, aged_unknown, seen_online, failed_dial, announced, passed, step, steps,
}
use ckb_discovery.Marci.Witnesses.{contains-append, contains-with_member}

-- A list without one text.
without : String → List String → List String
without s [] = []
without s (t ∷ ts) = let rest = without s ts in if str_eq t s then rest else t ∷ rest

abbrev Distinct : List String → Type 0
Distinct [] = Unit
Distinct (t ∷ ts) = (contains ts t ≡ false) × Distinct ts

contains-without :
    (s t : String) (ts : List String)
    → contains (without s ts) t ≡ (not (str_eq t s) && contains ts t)
unfolding contains without
contains-without s t [] = ground arith
contains-without s t (u ∷ us) = elim (Bool-cases (str_eq u s)) [
  | inl same ↦
      rw same (ground (arith, contains-without s t us, eq_iff u s, eq_iff u t, eq_iff t s, same))
  | inr other ↦
      rw other (ground (arith, contains-without s t us, eq_iff u s, eq_iff u t, eq_iff t s, other))
]

length-without-less : (s : String) (ts : List String) → length (without s ts) ≤ length ts
unfolding without
length-without-less s [] = omega arith
length-without-less s (t ∷ ts) = ground (arith, length-without-less s ts)

length-without :
    (s : String) (ts : List String) → contains ts s ≡ true → length (without s ts) < length ts
unfolding without contains
length-without s [] h = cc h
length-without s (t ∷ ts) h = elim (Bool-cases (str_eq t s)) [
  | inl same ↦ rw same (omega (arith, length-without-less s ts))
  | inr other ↦ rw other (omega (arith, length-without s ts (ground (arith, other))))
]

other_text :
    (s u : String) (ss : List String)
    → contains ss s ≡ false
    → contains ss u ≡ true
    → str_eq u s ≡ false
other_text s u ss fresh m = elim (Bool-cases (str_eq u s)) [
  | inl same ↦ cc ((eq_iff u s).0 same, fresh, m)
  | inr other ↦ other
]

-- Distinct texts that all stand in another list are at most as many.
length-Distinct :
    (ss ts : List String)
    → Distinct ss
    → ((u : String) → contains ss u ≡ true → contains ts u ≡ true)
    → length ss ≤ length ts
unfolding contains
length-Distinct [] ts d h = omega arith
length-Distinct (s ∷ ss) ts (fresh, d) h =
    let shorter = length-Distinct ss (without s ts) d (λ u m.
      contains-without s u ts ∙ rw (h u (rw m (ground arith)), other_text s u ss fresh m) refl) in
    omega (arith, shorter, length-without s ts (h s (rw (eq_refl s) refl)))

Distinct-append :
    (s : String) (ss : List String) → contains ss s ≡ false → Distinct ss → Distinct (ss ++ s ∷ [])
unfolding contains
Distinct-append s [] fresh d = (refl, tt)
Distinct-append s (t ∷ ts) fresh (f, d) = (
  contains-append ts s t ∙ ground (arith, f, fresh, eq_iff s t, eq_iff t s),
  Distinct-append s ts (ground (arith, fresh)) d,
)

Distinct-with_member : (s : String) (ss : List String) → Distinct ss → Distinct (with_member s ss)
unfolding with_member
Distinct-with_member s ss d = elim (Bool-cases (contains ss s)) [
  | inl old ↦ rw old d
  | inr other ↦ rw other (Distinct-append s ss other d)
]

length-with_member : (s : String) (ss : List String) → length ss ≤ length (with_member s ss)
unfolding with_member
length-with_member s ss = ground (arith, length-append ss (s ∷ []))

-- Who announced the peer, each once: the reporters of a history that are not in `rs` join it.
abbrev pub reporter : (id : String) → Input → List String → List String
reporter id (message (reachable_event now later msg)) rs =
    if str_eq msg.peer.peer_id id then with_member msg.from.peer_id rs else rs
reporter id _ rs = rs

unfoldable pub reporters : (id : String) → List Input → List String → List String
reporters id [] rs = rs
reporters id (e ∷ es) rs = reporters id es (reporter id e rs)

was_unknown : (n : ℕ) (o : Option ℕ) → is_some (aged_unknown n o) ≡ true → is_some o ≡ true
was_unknown n none e = e
was_unknown n (some k) e = refl

module _ (cfg : Config) where
  -- The witnesses are distinct and among `rs`, and there are enough of `rs` if the peer is unknown.
  pub record IsTold (rs : List String) (s : Status) : Type 0 where
    pub distinct : Distinct s.witnesses
    pub among : (u : String) → contains s.witnesses u ≡ true → contains rs u ≡ true
    pub enough : is_some s.unknown ≡ true → cfg.default_witnesses ≤ length rs

  seen_online-IsTold :
      (peer : PeerInfo) (rs : List String) (s : Status) (o : Option Timed)
      → IsTold rs s
      → IsTold rs (seen_online cfg peer s o)
  seen_online-IsTold peer rs s (some k) h = record {
    distinct = h.distinct;
    among = h.among;
    enough = λ e. cc e;
  }
  seen_online-IsTold peer rs s none h = elim (Bool-cases peer.is_ex) [
    | inl x ↦ rw x (record { distinct = h.distinct; among = h.among; enough = λ e. cc e })
    | inr x ↦ rw x (record { distinct = h.distinct; among = h.among; enough = λ e. cc e })
  ]

  failed_dial-IsTold :
      (rs : List String) (s : Status) (o : Option Timed)
      → IsTold rs s
      → IsTold rs (failed_dial cfg s o)
  unfolding contains
  failed_dial-IsTold rs s (some k) h = record {
    distinct = h.distinct;
    among = h.among;
    enough = h.enough;
  }
  failed_dial-IsTold rs s none h =
      elim (Bool-cases (leb cfg.default_witnesses (length s.witnesses))) [
        | inl ready ↦ rw ready (record {
          distinct = tt;
          among = λ u m. cc m;
          enough = λ e. ground (arith, length-Distinct s.witnesses rs h.distinct h.among, ready);
        })
        | inr few ↦ rw few h
      ]

  announced-IsTold :
      (from : String) (rs : List String) (s : Status)
      → IsTold rs s
      → IsTold (with_member from rs) (announced from s)
  announced-IsTold from rs s h = record {
    distinct = Distinct-with_member from s.witnesses h.distinct;
    among = λ u m.
        contains-with_member from rs u
        ∙ ground (arith, h.among u, contains-with_member from s.witnesses u, m);
    enough = λ e. omega (arith, h.enough e, length-with_member from rs);
  }

  passed-IsTold : (n : ℕ) (rs : List String) (s : Status) → IsTold rs s → IsTold rs (passed n s)
  passed-IsTold n rs s h = record {
    distinct = h.distinct;
    among = h.among;
    enough = λ e. h.enough (was_unknown n s.unknown e);
  }

  step-IsTold :
      (id : String) (e : Input) (rs : List String) (s : Status)
      → IsTold rs s
      → IsTold (reporter id e rs) (step cfg id e s)
  step-IsTold id (message (online_event now peer)) rs s h =
      elim (Bool-cases (str_eq peer.info.peer_id id)) [
        | inl own ↦ rw own (seen_online-IsTold peer rs s s.online h)
        | inr other ↦ rw other h
      ]
  step-IsTold id (message (unknown_event now peer)) rs s h =
      elim (Bool-cases (str_eq peer.peer_id id)) [
        | inl own ↦ rw own (failed_dial-IsTold rs s s.online h)
        | inr other ↦ rw other h
      ]
  step-IsTold id (message (reachable_event now later msg)) rs s h =
      elim (Bool-cases (str_eq msg.peer.peer_id id)) [
        | inl own ↦ rw own (announced-IsTold msg.from.peer_id rs s h)
        | inr other ↦ rw other h
      ]
  step-IsTold id (message (wait n)) rs s h = passed-IsTold n rs s h
  step-IsTold id (tick now) rs s h = h

  pub steps-IsTold :
      (id : String) (es : List Input) (rs : List String) (s : Status)
      → IsTold rs s
      → IsTold (reporters id es rs) (steps cfg id es s)
  unfolding steps reporters
  steps-IsTold id [] rs s h = h
  steps-IsTold id (e ∷ es) rs s h =
      steps-IsTold id es (reporter id e rs) (step cfg id e s) (step-IsTold id e rs s h)
