-- ===== src/Redis.antt =====
-- The Redis server that marci writes and the query service reads, as the program uses it through the
-- `redis` crate: a record of commands over a database of its own, any of which may fail. `IsServer`
-- states the documented behaviour of a server that answers: each command does what the reference of
-- the child module does to a map from keys to entries.
pub mod Reference
pub mod Glob
pub mod Scan
use ckb_discovery.Prelude.{ℕ, String, ◌≡◌, Bool, true, Result}
use ckb_discovery.Redis.Reference.{View, Reply, Failure}

pub record Redis : Type 1 where
  pub Db : Type 0
  -- GET read as a text: a failure also when the key is missing or holds a set.
  pub get : String → Db → Reply String × Db
  pub set : String → String → Db → Reply (Unit {0}) × Db
  pub set_ex : String → String → ℕ → Db → Reply (Unit {0}) × Db
  pub expire : String → ℕ → Db → Reply (Unit {0}) × Db
  pub del : String → Db → Reply (Unit {0}) × Db
  pub sadd : String → String → Db → Reply (Unit {0}) × Db
  pub scard : String → Db → Reply ℕ × Db
  -- What some seconds without a command make of the database.
  pub elapse : ℕ → Db → Db

-- What one command does on a database from which the server answers.
pub record Answers {Db A : Type 0} (view : Db → View) (alive : Db → Bool)
    (command : Db → Reply A × Db) (reference : View → Reply A × View) (db : Db) : Type 0 where
  pub reply : (command db).0 ≡ (reference (view db)).0
  pub stored : view (command db).1 ≡ (reference (view db)).1
  pub still : alive (command db).1 ≡ true

-- `view` is what the keys hold; `alive db` says that from `db` on the server answers.
pub record IsServer (r : Redis) : Type 0 where
  pub view : r.Db → View
  pub alive : r.Db → Bool
  pub get_lem :
      (k : String) (db : r.Db) → alive db ≡ true → Answers view alive (r.get k) (Reference.get k) db
  pub set_lem :
      (k v : String) (db : r.Db)
      → alive db ≡ true
      → Answers view alive (r.set k v) (Reference.set k v) db
  pub set_ex_lem :
      (k v : String) (seconds : ℕ) (db : r.Db)
      → alive db ≡ true
      → Answers view alive (r.set_ex k v seconds) (Reference.set_ex k v seconds) db
  pub expire_lem :
      (k : String) (seconds : ℕ) (db : r.Db)
      → alive db ≡ true
      → Answers view alive (r.expire k seconds) (Reference.expire k seconds) db
  pub del_lem :
      (k : String) (db : r.Db) → alive db ≡ true → Answers view alive (r.del k) (Reference.del k) db
  pub sadd_lem :
      (k v : String) (db : r.Db)
      → alive db ≡ true
      → Answers view alive (r.sadd k v) (Reference.sadd k v) db
  pub scard_lem :
      (k : String) (db : r.Db)
      → alive db ≡ true
      → Answers view alive (r.scard k) (Reference.scard k) db
  pub elapse_lem :
      (n : ℕ) (db : r.Db)
      → alive db ≡ true
      → (view (r.elapse n db) ≡ Reference.elapse n (view db)) × (alive (r.elapse n db) ≡ true)

-- The reference is itself such a server.
abbrev pub reference : Redis
reference = record {
  Db = View;
  get = Reference.get;
  set = Reference.set;
  set_ex = Reference.set_ex;
  expire = Reference.expire;
  del = Reference.del;
  sadd = Reference.sadd;
  scard = Reference.scard;
  elapse = Reference.elapse;
}
