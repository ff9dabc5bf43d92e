-- ===== src/Marci/Refines.antt =====
-- An action on a real server refines the same action on the reference map: where the server answers,
-- replies and states correspond.
use ckb_discovery.Prelude.{
  ℕ, ltb, Bool-cases, inl, inr, ◌≡◌, refl, ap, Bool, true, false, ok, err, if◌then◌else◌,
}
use ckb_discovery.Redis.{Redis, IsServer, Answers, reference}
use ckb_discovery.Redis.Reference.{View, Reply}
use ckb_discovery.Marci.Exec.{IpInfo, World, M, pure, call, attempt, to_i64, continue, ◌>>=◌}

module _ {r : Redis} (s : IsServer r) {i : IpInfo} where
  -- The world with its database replaced by what the keys hold.
  abbrev pub abstract : World r i → World reference i
  abstract w = record { db = s.view w.db; cache = w.cache; service = w.service }

  pub record RefinesAt {A : Type 0} (p : Reply A × World r i) (q : Reply A × World reference i)
      : Type 0 where
    pub reply : p.0 ≡ q.0
    pub world : abstract p.1 ≡ q.1
    pub still : s.alive p.1.db ≡ true

  pub record Refines {A : Type 0} (m : M r i A) (f : M reference i A) : Type 0 where
    pub at : (w : World r i) → s.alive w.db ≡ true → RefinesAt (m w) (f (abstract w))

  pub Refines-to_i64 : (n : ℕ) → Refines (to_i64 n) (to_i64 n)
  unfolding to_i64
  Refines-to_i64 n = record {
    at = λ w h. elim (Bool-cases (ltb n 9223372036854775808)) [
      | inl e ↦ rw e (record { reply = refl; world = refl; still = h })
      | inr e ↦ rw e (record { reply = refl; world = refl; still = h })
    ];
  }

  module _ {A : Type 0} where
    pub Refines-pure : (a : A) → Refines (pure a) (pure a)
    unfolding pure
    Refines-pure a = record { at = λ w h. record { reply = refl; world = refl; still = h } }

    pub Refines-call :
        (c : r.Db → Reply A × r.Db) (d : View → Reply A × View)
        → ((db : r.Db) → s.alive db ≡ true → Answers s.view s.alive c d db)
        → Refines (call c) (call d)
    unfolding call
    Refines-call c d h = record {
      at = λ w alive.
          let a = h w.db alive in
          record {
            reply = a.reply;
            world = λ j. record { db = a.stored j; cache = w.cache; service = w.service };
            still = a.still;
          };
    }

    pub Refines-attempt :
        (m : M r i A) (f : M reference i A) → Refines m f → Refines (attempt m) (attempt f)
    unfolding attempt
    Refines-attempt m f h = record {
      at = λ w alive.
          let a = h.at w alive in
          record { reply = ap (λ (x : Reply A). ok x) a.reply; world = a.world; still = a.still };
    }

    pub Refines-if :
        (b : Bool) (m n : M r i A) (f g : M reference i A)
        → Refines m f
        → Refines n g
        → Refines (if b then m else n) (if b then f else g)
    Refines-if true m n f g hm hn = hm
    Refines-if false m n f g hm hn = hn

  module _ {A B : Type 0} where
    continue-RefinesAt :
        (reply : Reply A) (w : World r i) (k : A → M r i B) (g : A → M reference i B)
        → s.alive w.db ≡ true
        → ((a : A) → Refines (k a) (g a))
        → RefinesAt (continue reply w k) (continue reply (abstract w) g)
    continue-RefinesAt (ok a) w k g alive h = (h a).at w alive
    continue-RefinesAt (err e) w k g alive h = record { reply = refl; world = refl; still = alive }

    pub Refines-bind :
        (m : M r i A) (f : M reference i A) (k : A → M r i B) (g : A → M reference i B)
        → Refines m f
        → ((a : A) → Refines (k a) (g a))
        → Refines (m >>= k) (f >>= g)
    unfolding ◌>>=◌
    Refines-bind m f k g hm hk = record {
      at = λ w alive.
          let a = hm.at w alive in
          rw (← a.reply, ← a.world) (continue-RefinesAt (m w).0 (m w).1 k g a.still hk);
    }

pub ruleset refines_rules =
    (Refines-pure, Refines-to_i64, Refines-call, Refines-attempt, Refines-if, Refines-bind)
