-- ===== src/Marci/Names.antt =====
-- marci/src/main.rs: every key of the database is one that the program writes about a peer whose id has no
-- dot, on the reference map, and every arm keeps it so.
use ckb_discovery.Prelude.{
  ℕ, String, ◌≡◌, refl, sym, Bool, true, false, Option, none, some, ok, err, str_eq, eq_iff,
  is_some, Bool-cases, inl, inr, if◌then◌else◌, ltb, leb,
}
use ckb_discovery.Prelude.Texts.{NoDot}
use ckb_discovery.Keys.{
  Key, online, online2, online_ip, reachable, unknown, info, network_quick, last_update, key_text,
}
use ckb_discovery.Redis.{reference}
use ckb_discovery.Redis.Reference.{
  is_time, max_time, View, Reply, Entry, put, get, set, set_ex, expire, del, sadd, scard, elapse,
  added, aged, store_added,
}
use ckb_discovery.Marci.Exec.{IpInfo, World, M, pure, call, attempt, to_i64, continue, ◌>>=◌}

abbrev pub Dotless : Key → Type 0
Dotless (online id) = NoDot id
Dotless (online2 id) = NoDot id
Dotless (online_ip id) = NoDot id
Dotless (reachable id) = NoDot id
Dotless (unknown id) = NoDot id
Dotless (info field id) = NoDot id
Dotless (network_quick id network) = NoDot id
Dotless last_update = Unit

pub record Named (k : String) : Type 0 where
  pub key : Key
  pub dotless : Dotless key
  pub text : k ≡ key_text key

pub record AreNamed (v : View) : Type 0 where
  pub at : (k : String) → is_some (v k) ≡ true → Named k

pub put-AreNamed :
    (key : Key) (e : Option Entry) (v : View)
    → Dotless key
    → AreNamed v
    → AreNamed (put (key_text key) e v)
put-AreNamed key e v d h = record {
  at = λ k m. elim (Bool-cases (str_eq (key_text key) k)) [
    | inl same ↦ record { key = key; dotless = d; text = sym ((eq_iff (key_text key) k).0 same) }
    | inr other ↦ h.at k (rw other at m)
  ];
}

aged_some : (n : ℕ) (e : Option Entry) → is_some (aged n e) ≡ true → is_some e ≡ true
aged_some n none h = h
aged_some n (some e) h = refl

pub elapse-AreNamed : (n : ℕ) (v : View) → AreNamed v → AreNamed (elapse n v)
elapse-AreNamed n v h = record { at = λ k m. h.at k (aged_some n (v k) m) }

stored-AreNamed :
    (k : Key) (v : View) (o : Reply (Option Entry))
    → Dotless k
    → AreNamed v
    → AreNamed (store_added (key_text k) v o).1
stored-AreNamed k v (ok e) d h = put-AreNamed k e v d h
stored-AreNamed k v (err f) d h = h

-- An action that leaves such a map.
pub record Names {i : IpInfo} {A : Type 0} (m : M reference i A) : Type 0 where
  pub at : (w : World reference i) → AreNamed w.db → AreNamed (m w).1.db

module _ {i : IpInfo} where
  pub Names-pure : {A : Type 0} (a : A) → Names {i = i} (pure a)
  unfolding pure
  Names-pure a = record { at = λ w h. h }

  pub Names-attempt : {A : Type 0} (m : M reference i A) → Names m → Names (attempt m)
  unfolding attempt
  Names-attempt m h = record { at = h.at }

  pub Names-if :
      {A : Type 0} (b : Bool) (m n : M reference i A)
      → Names m
      → Names n
      → Names (if b then m else n)
  Names-if true m n h k = h
  Names-if false m n h k = k

  continue-AreNamed :
      {A B : Type 0} (o : Reply A) (w : World reference i) (k : A → M reference i B)
      → AreNamed w.db
      → ((a : A) → Names (k a))
      → AreNamed (continue o w k).1.db
  continue-AreNamed (ok a) w k h n = (n a).at w h
  continue-AreNamed (err e) w k h n = h

  pub Names-bind :
      {A B : Type 0} (m : M reference i A) (k : A → M reference i B)
      → Names m
      → ((a : A) → Names (k a))
      → Names (m >>= k)
  unfolding ◌>>=◌
  Names-bind m k hm hk = record { at = λ w h. continue-AreNamed (m w).0 (m w).1 k (hm.at w h) hk }

  pub Names-get : (k : String) → Names {i = i} (call (get k))
  unfolding call
  Names-get k = record { at = λ w h. h }

  pub Names-scard : (k : String) → Names {i = i} (call (scard k))
  unfolding call
  Names-scard k = record { at = λ w h. h }

  pub Names-set : (k : Key) (s : String) → Dotless k → Names {i = i} (call (set (key_text k) s))
  unfolding call
  Names-set k s d = record { at = λ w h. put-AreNamed k _ w.db d h }

  pub Names-set_ex :
      (k : Key) (s : String) (n : ℕ) → Dotless k → Names {i = i} (call (set_ex (key_text k) s n))
  unfolding call
  Names-set_ex k s n d = record {
    at = λ w h. elim (Bool-cases (is_time n)) [
      | inl e ↦ rw e (put-AreNamed k _ w.db d h)
      | inr e ↦ rw e h
    ];
  }

  pub Names-expire : (k : Key) (n : ℕ) → Dotless k → Names {i = i} (call (expire (key_text k) n))
  unfolding call
  Names-expire k n d = record {
    at = λ w h. elim (Bool-cases (leb n max_time)) [
      | inl e ↦ rw e (put-AreNamed k _ w.db d h)
      | inr e ↦ rw e h
    ];
  }

  pub Names-to_i64 : (n : ℕ) → Names {i = i} (to_i64 n)
  unfolding to_i64
  Names-to_i64 n = record {
    at = λ w h. elim (Bool-cases (ltb n 9223372036854775808)) [ inl e ↦ rw e h | inr e ↦ rw e h ];
  }

  pub Names-del : (k : Key) → Dotless k → Names {i = i} (call (del (key_text k)))
  unfolding call
  Names-del k d = record { at = λ w h. put-AreNamed k none w.db d h }

  pub Names-sadd : (k : Key) (s : String) → Dotless k → Names {i = i} (call (sadd (key_text k) s))
  unfolding call
  Names-sadd k s d = record { at = λ w h. stored-AreNamed k w.db (added s (w.db (key_text k))) d h }

pub ruleset names_rules = (
  Names-pure, Names-to_i64, Names-attempt, Names-if, Names-bind, Names-get, Names-scard, Names-set,
  Names-set_ex, Names-expire, Names-del, Names-sadd,
)
