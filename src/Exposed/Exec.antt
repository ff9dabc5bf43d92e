-- ===== src/Exposed/Exec.antt =====
-- exposed/src/main.rs and exposed/src/model.rs: what a request reads and answers. The service only reads the database; other
-- programs may write between two commands, so each command takes the database as it then is, and
-- gives it as the next command finds it.
use ckb_discovery.Prelude.{ℕ, String, Bool, Option, none, some, List, ok, err}
use ckb_discovery.Redis.Reference.{Reply, Failure, failed}

-- The two commands of the server. `get` gives the stored text, `none` for a key that is missing, and
-- the error of the connection or of a key that holds no text.
pub record Reader : Type 1 where
  pub Db : Type 0
  pub keys : String → Db → Reply (List String) × Db
  pub get : String → Db → Reply (Option String) × Db

-- `f64::from_str`; the `redis` crate's reading of a text as a number and as a Boolean, `none` for its
-- error; the first group of the regular expression `^(.*?)[^0-9.].*$`, `none` where it does not match;
-- the `chrono` date that is so many seconds after the epoch, `none` for its panic.
pub record Libraries : Type 1 where
  pub Number : Type 0
  pub Date : Type 0
  pub parse_f64 : String → Option Number
  pub read_u64 : String → Option ℕ
  pub read_bool : String → Option Bool
  pub captures : String → Option String
  pub date : ℕ → Option Date

pub record Peer (l : Libraries) : Type 0 where
  pub id : ℕ
  pub version : String
  pub version_short : String
  pub last_seen : Option l.Date
  pub country : Option String
  pub city : Option String
  pub latitude : Option l.Number
  pub longitude : Option l.Number
  pub node_type : ℕ

pub record PeerStatus (l : Libraries) : Type 0 where
  pub peer_id : String
  pub in_map : Bool
  pub info : Option (Peer l)

-- What a request comes to.
pub data Outcome (A : Type 0) : Type 0 where
  done : A → Outcome A
  refused : Failure → Outcome A
  panicked : Outcome A

abbrev pub S : Type 0 → Type 0 → Type 0
S D A = D → Outcome A × D

abbrev pub outcome : {A : Type 0} → Reply A → Outcome A
outcome (ok a) = done a
outcome (err e) = refused e

-- A text that is asked for is missing: that is an error.
abbrev pub present : Reply (Option String) → Reply String
present (ok (some text)) = ok text
present (ok none) = err failed
present (err e) = err e

module _ {D : Type 0} {A : Type 0} where
  unfoldable pub pure : A → S D A
  pure a db = (done a, db)

  unfoldable pub panic : S D A
  panic db = (panicked, db)

  -- A panic where there is no value.
  unfoldable pub expect : Option A → S D A
  expect none db = (panicked, db)
  expect (some a) db = (done a, db)

  -- A command whose error ends the request.
  unfoldable pub call : (D → Reply A × D) → S D A
  call command db = let (reply, db') = command db in (outcome reply, db')

  -- A command whose error is a value of the program.
  unfoldable pub attempt : (D → Reply A × D) → S D (Reply A)
  attempt command db = let (reply, db') = command db in (done reply, db')

unfoldable pub call_text : {D : Type 0} → (D → Reply (Option String) × D) → S D String
call_text command db = let (reply, db') = command db in (outcome (present reply), db')

module _ {D : Type 0} {A B : Type 0} where
  abbrev pub continue : Outcome A → D → (A → S D B) → Outcome B × D
  continue (done a) db f = f a db
  continue (refused e) db f = (refused e, db)
  continue panicked db f = (panicked, db)

  infixl 10 ◌>>=◌
  unfoldable pub ◌>>=◌ : S D A → (A → S D B) → S D B
  ◌>>=◌ m f db = let (o, db') = m db in continue o db' f
