-- ===== src/Exposed/Info.antt =====
-- exposed/src/main.rs: `get_peer_info`, the description of a peer that is listed, and `last_update`.
use Prim.Native.Char.{Char, code}
use ckb_discovery.Prelude.{
  ℕ, String, Bool, true, false, Option, none, some, List, [], ok, err, ◌==◌, if◌then◌else◌,
}
use ckb_discovery.Keys.{info, country, city, full, pos, last_seen, last_update, key_text}
use ckb_discovery.Redis.Reference.{Reply, failed}
use ckb_discovery.Exposed.Exec.{
  Reader, Libraries, Peer, S, pure, expect, call, present, attempt, ◌>>=◌,
}

-- `unwrap_or_default` on the reading of an optional text, and of a text (a missing key is an error).
abbrev pub text_or_none : Reply (Option String) → Option String
text_or_none (ok text) = text
text_or_none (err _) = none

abbrev pub or_empty : Option String → String
or_empty none = ""
or_empty (some s) = s

abbrev pub or_zero : Option ℕ → ℕ
or_zero none = 0
or_zero (some n) = n

abbrev pub keys_or_none : Reply (List String) → List String
keys_or_none (ok keys) = keys
keys_or_none (err _) = []

abbrev pub then_read : {A : Type 0} → Option String → (String → Option A) → Option A
then_read none read = none
then_read (some s) read = read s

unfoldable pub node_type_from_full : Option Bool → ℕ
node_type_from_full (some true) = 0
node_type_from_full (some false) = 1
node_type_from_full none = 0

abbrev is_comma : Char → Bool
is_comma c = code c == b','

-- The text before the first comma, and the text behind it if there is one.
abbrev into_front : Char → String × Option String → String × Option String
into_front c (s, rest) = (String.◌∷◌ c s, rest)

unfoldable pub split_comma : String → String × Option String
split_comma String.[] = ("", none)
split_comma (String.◌∷◌ c s) =
    let cut = split_comma s in if is_comma c then ("", some s) else into_front c cut

-- The second item of the iterator over `split(',')`.
abbrev pub second_item : Option String → Option String
second_item none = none
second_item (some rest) = some (split_comma rest).0

-- The fields of a peer that `get_peer_info` returns.
pub record Details (l : Libraries) : Type 0 where
  pub country : Option String
  pub city : Option String
  pub latitude : Option l.Number
  pub longitude : Option l.Number
  pub full : Option Bool
  pub timestamp : ℕ

module _ (r : Reader) (l : Libraries) where
  -- `loc` is the stored position, if it could be read.
  abbrev pub latitude_of : Option String → Option l.Number
  latitude_of none = none
  latitude_of (some loc) = l.parse_f64 (split_comma loc).0

  abbrev pub longitude_of : Option String → Option l.Number
  longitude_of none = none
  longitude_of (some loc) = then_read (second_item (split_comma loc).1) l.parse_f64

  unfoldable pub get_peer_info : String → S r.Db (Details l)
  unfolding split_comma
  get_peer_info id = do
    land ← attempt (r.get (key_text (info country id)))
    town ← attempt (r.get (key_text (info city id)))
    loc ← attempt (r.get (key_text (info pos id)))
    whole ← attempt (r.get (key_text (info full id)))
    timestamp ← attempt (r.get (key_text (info last_seen id)))
    pure (record {
      country = text_or_none land;
      city = text_or_none town;
      latitude = latitude_of (text_or_none loc);
      longitude = longitude_of (text_or_none loc);
      full = then_read (text_or_none whole) l.read_bool;
      timestamp = or_zero (then_read (text_or_none timestamp) l.read_u64);
    })

  abbrev short_or : String → Option String → String
  short_or version none = version
  short_or version (some short) = short

  unfoldable pub version_short : String → String
  version_short version = short_or version (l.captures version)

  abbrev pub listed_peer : ℕ → (version short : String) → Details l → l.Date → Peer l
  listed_peer id version short d seen = record {
    id = id;
    version = version;
    version_short = short;
    last_seen = some seen;
    country = d.country;
    city = d.city;
    latitude = d.latitude;
    longitude = d.longitude;
    node_type = node_type_from_full d.full;
  }

  -- The end of each of the three branches of `peer_in_map`, and of the loop of `get_peers`.
  unfoldable pub describe : ℕ → (id version short : String) → S r.Db (Peer l)
  unfolding get_peer_info node_type_from_full
  describe index id version short = do
    details ← get_peer_info id
    seen ← expect (l.date details.timestamp)
    pure (listed_peer index version short details seen)

  -- A number that is asked for: a missing key and another text are errors.
  abbrev pub number_from : Option ℕ → Reply ℕ
  number_from none = err failed
  number_from (some n) = ok n

  abbrev pub number_of : Reply String → Reply ℕ
  number_of (err e) = err e
  number_of (ok s) = number_from (l.read_u64 s)

  unfoldable pub last_update_of : S r.Db ℕ
  last_update_of =
      call (λ db.
        let (reply, db') = r.get (key_text last_update) db in (number_of (present reply), db'))
