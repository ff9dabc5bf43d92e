-- ===== src/Tests/Memory.antt =====
-- A server in memory: a list of what was stored under each key, latest first. It answers always.
use ckb_discovery.Prelude.{
  ℕ, String, ◌≡◌, refl, fun_ext, Bool, true, ◌&&◌, Option, none, some, List, [], ◌∷◌, ok, err,
  arith, retain, contains, str_eq, eq_iff, is_some, Bool-cases, inl, inr, if◌then◌else◌, leb,
}
use ckb_discovery.Redis.{Redis, IsServer, Answers}
use ckb_discovery.Redis.Reference
use ckb_discovery.Redis.Reference.{
  is_time, max_time, View, Reply, Entry, text, members, failed, plain, lasting, refreshed, text_of,
  size_of, added, aged, put, store_added,
}
use ckb_discovery.Redis.Glob.{glob}
use ckb_discovery.Redis.Scan.{Scans, IsScan, option_of, is_text, is_member}

abbrev pub Store : Type 0
Store = List (String × Option Entry)

unfoldable pub find : Store → View
find [] j = none
find ((k, e) ∷ db) j = if str_eq k j then e else find db j

abbrev pub add_to : String → Store → Reply (Option Entry) → Reply (Unit {0}) × Store
add_to k db (ok e) = (ok tt, (k, e) ∷ db)
add_to k db (err f) = (err f, db)

pub grow_old : ℕ → Store → Store
grow_old n [] = []
grow_old n ((k, e) ∷ db) = (k, aged n e) ∷ grow_old n db

unfoldable pub names : Store → List String
names [] = []
names ((k, e) ∷ db) = k ∷ names db

abbrev pub set_ex : String → String → ℕ → Store → Reply (Unit {0}) × Store
set_ex k s n db = if is_time n then (ok tt, (k, lasting s n) ∷ db) else (err failed, db)

abbrev pub expire : String → ℕ → Store → Reply (Unit {0}) × Store
expire k n db =
    if leb n max_time then (ok tt, (k, refreshed n (find db k)) ∷ db) else (err failed, db)

abbrev pub memory : Redis
memory = record {
  Db = Store;
  get = λ k db. (text_of (find db k), db);
  set = λ k s db. (ok tt, (k, plain s) ∷ db);
  set_ex = set_ex;
  expire = expire;
  del = λ k db. (ok tt, (k, none) ∷ db);
  sadd = λ k s db. add_to k db (added s (find db k));
  scard = λ k db. (size_of (find db k), db);
  elapse = grow_old;
}

pub find-grow_old :
    (n : ℕ) (db : Store) (k : String) → find (grow_old n db) k ≡ Reference.elapse n (find db) k
unfolding find grow_old
find-grow_old n [] k = refl
find-grow_old n ((j, e) ∷ db) k = elim (Bool-cases (str_eq j k)) [
  | inl same ↦ rw same
  | inr other ↦ rw other (find-grow_old n db k)
]

abbrev pub alive : Store → Bool
alive db = true

pub add_to-Answers :
    (k s : String) (db : Store) (reply : Reply (Option Entry))
    → (find (add_to k db reply).1 ≡ (store_added k (find db) reply).1)
      × ((add_to k db reply).0 ≡ (store_added k (find db) reply).0)
unfolding find
add_to-Answers k s db (ok e) = (refl, refl)
add_to-Answers k s db (err f) = (refl, refl)

pub set_ex-Answers :
    (k s : String) (n : ℕ) (db : Store)
    → Answers find alive (set_ex k s n) (Reference.set_ex k s n) db
unfolding find
set_ex-Answers k s n db = record {
  reply = elim (Bool-cases (is_time n)) [ inl e ↦ rw e | inr e ↦ rw e ];
  stored = elim (Bool-cases (is_time n)) [ inl e ↦ rw e | inr e ↦ rw e ];
  still = refl;
}

pub expire-Answers :
    (k : String) (n : ℕ) (db : Store) → Answers find alive (expire k n) (Reference.expire k n) db
unfolding find
expire-Answers k n db = record {
  reply = elim (Bool-cases (leb n max_time)) [ inl e ↦ rw e | inr e ↦ rw e ];
  stored = elim (Bool-cases (leb n max_time)) [ inl e ↦ rw e | inr e ↦ rw e ];
  still = refl;
}

pub put_lem : (k : String) (e : Option Entry) (db : Store) → find ((k, e) ∷ db) ≡ put k e (find db)
unfolding find
put_lem k e db = refl

abbrev pub memory-IsServer : IsServer memory
memory-IsServer = record {
  view = find;
  alive = alive;
  get_lem = λ k db h. record { reply = refl; stored = refl; still = refl };
  set_lem = λ k v db h. record { reply = refl; stored = put_lem k (plain v) db; still = refl };
  set_ex_lem = λ k v n db h. set_ex-Answers k v n db;
  expire_lem = λ k n db h. expire-Answers k n db;
  del_lem = λ k db h. record { reply = refl; stored = put_lem k none db; still = refl };
  sadd_lem = λ k v db h.
      let a = add_to-Answers k v db (added v (find db k)) in
      record { reply = a.1; stored = a.0; still = refl };
  scard_lem = λ k db h. record { reply = refl; stored = refl; still = refl };
  elapse_lem = λ n db h. (fun_ext (find-grow_old n db), refl);
}

names-find : (db : Store) (k : String) → is_some (find db k) ≡ true → contains (names db) k ≡ true
unfolding find names contains
names-find [] k h = cc
names-find ((j, e) ∷ db) k h = ground (arith, names-find db k)

contains-retain :
    (test : String → Bool) (l : List String) (k : String)
    → contains (retain test l) k ≡ (test k && contains l k)
unfolding contains
contains-retain test [] k = ground arith
contains-retain test (j ∷ l) k = elim (Bool-cases (str_eq j k)) [
  | inl same ↦ rw ((eq_iff j k).0 same) (ground (arith, contains-retain test l k))
  | inr other ↦ ground (arith, contains-retain test l k)
]

unfoldable pub stored_names : String → Store → List String
stored_names pattern db = retain (λ k. glob pattern k && is_some (find db k)) (names db)

pub stored_names-contains :
    (pattern k : String) (db : Store)
    → contains (stored_names pattern db) k ≡ (glob pattern k && is_some (find db k))
unfolding stored_names
stored_names-contains pattern k db =
    rw (contains-retain (λ j. glob pattern j && is_some (find db j)) (names db) k)
      (ground (arith, names-find db k))

abbrev pub elements : Option Entry → List String
elements none = []
elements (some e) = elim e.value [ text _ ↦ [] | members ss ↦ ss ]

abbrev pub memory_scans : Scans memory
memory_scans = record {
  keys = λ pattern db. (ok (stored_names pattern db), db);
  smembers = λ k db. (if is_text (find db k) then err failed else ok (elements (find db k)), db);
  get_option = λ k db. (option_of (find db k), db);
}

pub elements-contains : (e : Option Entry) (s : String) → contains (elements e) s ≡ is_member e s
unfolding contains
elements-contains none s = refl
elements-contains (some e) s = ground arith

abbrev pub memory-IsScan : IsScan memory-IsServer memory_scans
memory-IsScan = record {
  listed = stored_names;
  members_of = λ k db. elements (find db k);
  keys_lem = λ pattern db h. refl;
  listed_lem = λ pattern k db simple h. stored_names-contains pattern k db;
  smembers_lem = λ k db h. refl;
  member_lem = λ k m db h. elements-contains (find db k) m;
  get_option_lem = λ k db h. refl;
  get_same = λ k db h. refl;
}
