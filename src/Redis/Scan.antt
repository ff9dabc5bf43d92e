-- ===== src/Redis/Scan.antt =====
-- The commands of Redis that read several values, KEYS and SMEMBERS, and GET of a text that may be missing.
-- The order of what they list is not documented, nor is it used.
use ckb_discovery.Prelude.{
  String, ◌≡◌, Bool, true, false, ◌&&◌, Option, none, some, List, ok, err, is_some, contains,
  if◌then◌else◌,
}
use ckb_discovery.Redis.{Redis, IsServer}
use ckb_discovery.Redis.Reference.{Reply, Entry, failed, text, members}
use ckb_discovery.Redis.Glob.{glob, Simple}

pub record Scans (r : Redis) : Type 0 where
  pub keys : String → r.Db → Reply (List String) × r.Db
  pub smembers : String → r.Db → Reply (List String) × r.Db
  pub get_option : String → r.Db → Reply (Option String) × r.Db

abbrev pub option_of : Option Entry → Reply (Option String)
option_of none = ok none
option_of (some e) = elim e.value [ text s ↦ ok (some s) | members ss ↦ err failed ]

abbrev pub is_member : Option Entry → String → Bool
is_member none s = false
is_member (some e) s = elim e.value [ text _ ↦ false | members ss ↦ contains ss s ]

abbrev pub is_text : Option Entry → Bool
is_text none = false
is_text (some e) = elim e.value [ text _ ↦ true | members ss ↦ false ]

-- From a database from which the server answers, the commands read it and leave it as it is.
pub record IsScan {r : Redis} (s : IsServer r) (sc : Scans r) : Type 0 where
  pub listed : String → r.Db → List String
  pub members_of : String → r.Db → List String
  pub keys_lem :
      (pattern : String) (db : r.Db)
      → s.alive db ≡ true
      → sc.keys pattern db ≡ (ok (listed pattern db), db)
  pub listed_lem :
      (pattern key : String) (db : r.Db)
      → Simple pattern
      → s.alive db ≡ true
      → contains (listed pattern db) key ≡ (glob pattern key && is_some (s.view db key))
  pub smembers_lem :
      (key : String) (db : r.Db)
      → s.alive db ≡ true
      → sc.smembers key db
        ≡ (if is_text (s.view db key) then err failed else ok (members_of key db), db)
  pub member_lem :
      (key member : String) (db : r.Db)
      → s.alive db ≡ true
      → contains (members_of key db) member ≡ is_member (s.view db key) member
  pub get_option_lem :
      (key : String) (db : r.Db)
      → s.alive db ≡ true
      → sc.get_option key db ≡ (option_of (s.view db key), db)
  pub get_same : (key : String) (db : r.Db) → s.alive db ≡ true → (r.get key db).1 ≡ db
