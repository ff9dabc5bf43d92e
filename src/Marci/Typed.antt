-- ===== src/Marci/Typed.antt =====
-- marci/src/main.rs: what each key of the database holds, on the reference map, and that every arm keeps
-- it so. From such a map no command fails, so no arm does.
use ckb_discovery.Prelude.{
  ℕ, String, ◌≡◌, ◌≢◌, refl, sym, ap, Bool, true, false, Option, none, some, List, [], ◌∷◌, ok, err,
  arith, str_eq, eq_iff, Bool-cases, Option-cases, inl, inr, if◌then◌else◌, ◌==◌, leb, ltb,
}
use mathlib.Core.Path.{subst}
use ckb_discovery.Keys.{Key, online, online2, online_ip, reachable, unknown, info, ip, key_text}
use ckb_discovery.Keys.Distinct.{key_text-injective}
use ckb_discovery.Redis.{reference}
use ckb_discovery.Redis.Reference.{
  View, Reply, Entry, Value, text, members, put, get, set, set_ex, expire, del, sadd, scard, elapse,
  aged, added, refreshed, is_time, max_time,
}
use ckb_discovery.Marci.Exec.{IpInfo, World, M, pure, call, attempt, to_i64, ◌>>=◌}

pub data Kind : Type 0 where
  lasting_text plain_text plain_set : Kind

-- What the program keeps under a key: a text with a time to live, a text without, or a set.
abbrev pub kind_of : Key → Kind
kind_of (online _) = lasting_text
kind_of (online2 _) = lasting_text
kind_of (online_ip _) = lasting_text
kind_of (unknown _) = lasting_text
kind_of (reachable _) = plain_set
kind_of (info ip _) = plain_set
kind_of _ = plain_text

abbrev pub Shape : Kind → Value → Option ℕ → Type 0
Shape lasting_text (text _) (some _) = Unit
Shape plain_text (text _) none = Unit
Shape plain_set (members _) none = Unit
Shape _ _ _ = ⊥

abbrev pub Fits : Kind → Option Entry → Type 0
Fits kind none = Unit
Fits kind (some e) = Shape kind e.value e.ttl

pub record IsTyped (v : View) : Type 0 where
  pub at : (k : Key) → Fits (kind_of k) (v (key_text k))

pub put-IsTyped :
    (k : Key) (e : Option Entry) (v : View)
    → Fits (kind_of k) e
    → IsTyped v
    → IsTyped (put (key_text k) e v)
put-IsTyped k e v fits h = record {
  at = λ j. elim (Bool-cases (str_eq (key_text k) (key_text j))) [
    | inl same ↦ rw same (
        subst (λ (x : Key). Fits (kind_of x) e)
          (key_text-injective k j ((eq_iff (key_text k) (key_text j)).0 same)) fits)
    | inr other ↦ rw other (h.at j)
  ];
}

aged_shape :
    (kind : Kind) (n : ℕ) (value : Value) (ttl : Option ℕ)
    → Shape kind value ttl
    → Fits kind (aged n (some (record { value = value; ttl = ttl })))
aged_shape lasting_text n (text s) (some t) h = elim (Bool-cases (leb t n)) [
  | inl gone ↦ rw gone tt
  | inr left ↦ rw left tt
]
aged_shape plain_text n (text s) none h = tt
aged_shape plain_set n (members ss) none h = tt
aged_shape _ n _ _ h = absurd h

refreshed_shape :
    (n : ℕ) (value : Value) (ttl : Option ℕ)
    → Shape lasting_text value ttl
    → Fits lasting_text (refreshed n (some (record { value = value; ttl = ttl })))
refreshed_shape n (text s) (some t) h = elim (Bool-cases (n == 0)) [
  | inl gone ↦ rw gone tt
  | inr left ↦ rw left tt
]
refreshed_shape n _ _ h = absurd h

aged-Fits : (kind : Kind) (n : ℕ) (e : Option Entry) → Fits kind e → Fits kind (aged n e)
aged-Fits kind n none h = tt
aged-Fits kind n (some e) h = aged_shape kind n e.value e.ttl h

refreshed-Fits :
    (n : ℕ) (e : Option Entry) → Fits lasting_text e → Fits lasting_text (refreshed n e)
refreshed-Fits n none h = tt
refreshed-Fits n (some e) h = refreshed_shape n e.value e.ttl h

pub elapse-IsTyped : (n : ℕ) (v : View) → IsTyped v → IsTyped (elapse n v)
elapse-IsTyped n v h = record { at = λ k. aged-Fits (kind_of k) n (v (key_text k)) (h.at k) }

pub nonzero : (n : ℕ) → is_time n ≡ true → (n == 0) ≡ false
nonzero n h = ground arith

pub not_zero : (n : ℕ) → is_time n ≡ true → n ≢ 0
not_zero n h = ground arith

pub taken : (n : ℕ) → is_time n ≡ true → leb n max_time ≡ true
taken n h = ground arith

pub fits_i64 : (n : ℕ) → is_time n ≡ true → ltb n 9223372036854775808 ≡ true
fits_i64 n h = ground arith

added_entry :
    (s : String) (value : Value) (ttl : Option ℕ)
    → Shape plain_set value ttl
    → (e' : Option Entry) × (added s (some (record { value = value; ttl = ttl })) ≡ ok e')
      × Fits plain_set e'
added_entry s (members ss) none h = (_, refl, tt)
added_entry s _ _ h = absurd h

-- What SADD stores under a key that holds a set or nothing.
pub added_shape :
    (s : String) (e : Option Entry)
    → Fits plain_set e
    → (e' : Option Entry) × (added s e ≡ ok e') × Fits plain_set e'
added_shape s none h = (_, refl, tt)
added_shape s (some e) h = added_entry s e.value e.ttl h

-- An action that, from such a map, succeeds and leaves such a map.
pub record Succeeds {i : IpInfo} {A : Type 0} (m : M reference i A) : Type 0 where
  pub at : (w : World reference i) → IsTyped w.db → (a : A) × ((m w).0 ≡ ok a) × IsTyped (m w).1.db

module _ {i : IpInfo} where
  pub Succeeds-pure : {A : Type 0} (a : A) → Succeeds {i = i} (pure a)
  unfolding pure
  Succeeds-pure a = record { at = λ w h. (a, refl, h) }

  pub Succeeds-attempt : {A : Type 0} (m : M reference i A) → Succeeds m → Succeeds (attempt m)
  unfolding attempt
  Succeeds-attempt m s = record {
    at = λ w h. let (a, e, h') = s.at w h in (ok a, ap (λ (x : Reply _). ok x) e, h');
  }

  pub Succeeds-if :
      {A : Type 0} (b : Bool) (m n : M reference i A)
      → Succeeds m
      → Succeeds n
      → Succeeds (if b then m else n)
  Succeeds-if true m n hm hn = hm
  Succeeds-if false m n hm hn = hn

  pub Succeeds-bind :
      {A B : Type 0} (m : M reference i A) (k : A → M reference i B)
      → Succeeds m
      → ((a : A) → Succeeds (k a))
      → Succeeds (m >>= k)
  unfolding ◌>>=◌
  Succeeds-bind m k hm hk = record {
    at = λ w h. let (a, e, h') = hm.at w h in rw e ((hk a).at (m w).1 h');
  }

  -- Reading leaves the map alone, and its failure is a value.
  pub Succeeds-get : (k : String) → Succeeds {i = i} (attempt (call (get k)))
  unfolding attempt call
  Succeeds-get k = record { at = λ w h. (_, refl, h) }

  pub Succeeds-scard : (k : String) → Succeeds {i = i} (attempt (call (scard k)))
  unfolding attempt call
  Succeeds-scard k = record { at = λ w h. (_, refl, h) }

  pub Succeeds-set :
      (k : Key) (s : String) → kind_of k ≡ plain_text → Succeeds {i = i} (call (set (key_text k) s))
  unfolding call
  Succeeds-set k s e = record { at = λ w h. (tt, refl, put-IsTyped k _ w.db (rw e tt) h) }

  pub Succeeds-set_ex :
      (k : Key) (s : String) (n : ℕ)
      → kind_of k ≡ lasting_text
      → is_time n ≡ true
      → Succeeds {i = i} (call (set_ex (key_text k) s n))
  unfolding call
  Succeeds-set_ex k s n e h' = record {
    at = λ w h. rw h' (tt, refl, put-IsTyped k _ w.db (rw e tt) h);
  }

  pub Succeeds-expire :
      (k : Key) (n : ℕ)
      → kind_of k ≡ lasting_text
      → is_time n ≡ true
      → Succeeds {i = i} (do seconds ← to_i64 n; call (expire (key_text k) seconds))
  unfolding call to_i64 ◌>>=◌
  Succeeds-expire k n e h' = record {
    at = λ w h. rw (fits_i64 n h') (
        rw (taken n h') (
          tt,
          refl,
          put-IsTyped k _ w.db (rw e (refreshed-Fits n (w.db (key_text k)) (rw e at (h.at k)))) h,
        ));
  }

  pub Succeeds-del : (k : Key) → Succeeds {i = i} (call (del (key_text k)))
  unfolding call
  Succeeds-del k = record { at = λ w h. (tt, refl, put-IsTyped k none w.db tt h) }

  pub Succeeds-sadd :
      (k : Key) (s : String) → kind_of k ≡ plain_set → Succeeds {i = i} (call (sadd (key_text k) s))
  unfolding call
  Succeeds-sadd k s e = record {
    at = λ w h.
        let (e', stored, fits) = added_shape s (w.db (key_text k)) (rw e at (h.at k)) in
        rw stored (tt, refl, put-IsTyped k e' w.db (rw e fits) h);
  }

pub ruleset succeeds_rules = (
  Succeeds-pure, Succeeds-if, Succeeds-bind, Succeeds-get, Succeeds-scard, Succeeds-set,
  Succeeds-set_ex, Succeeds-del, Succeeds-sadd, refl,
)
