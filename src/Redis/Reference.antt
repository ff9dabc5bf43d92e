-- ===== src/Redis/Reference.antt =====
-- The commands of Redis that the program uses, over a map from keys to entries: what they reply and
-- store according to Redis' documentation, when the server answers.
use ckb_discovery.Prelude.{
  contains, ℕ, Bool, false, String, Option, none, some, List, [], ◌∷◌, ◌++◌, length, Result, ok,
  err, ◌==◌, leb, ◌-◌, str_eq, if◌then◌else◌,
}

-- The error value; the program only logs it or passes it on. No command replies `panicked`: it is a panic
-- of the program, which ends it as an error that it passes on does.
pub data Failure : Type 0 where
  failed panicked : Failure

abbrev pub Reply : Type 0 → Type 0
Reply A = Result A Failure

pub data Value : Type 0 where
  text : String → Value
  members : List String → Value

-- `ttl` is the time to live that was set last, in seconds; without one the key stays.
pub record Entry : Type 0 where
  pub value : Value
  pub ttl : Option ℕ

abbrev pub View : Type 0
View = String → Option Entry

abbrev pub put : String → Option Entry → View → View
put k e v j = if str_eq k j then e else v j

abbrev pub text_of : Option Entry → Reply String
text_of none = err failed
text_of (some e) = elim e.value [ text s ↦ ok s | members ss ↦ err failed ]

abbrev pub get : String → View → Reply String × View
get k v = (text_of (v k), v)

abbrev pub plain : String → Option Entry
plain s = some (record { value = text s; ttl = none })

abbrev pub lasting : String → ℕ → Option Entry
lasting s seconds = some (record { value = text s; ttl = some seconds })

abbrev pub set : String → String → View → Reply (Unit {0}) × View
set k s v = (ok tt, put k (plain s) v)

-- The largest time in seconds whose milliseconds are a signed 64-bit number.
abbrev pub max_time : ℕ
max_time = 9223372036854775

-- SETEX refuses a time of 0 and one that is too large.
abbrev pub is_time : ℕ → Bool
is_time seconds = if seconds == 0 then false else leb seconds max_time

abbrev pub set_ex : String → String → ℕ → View → Reply (Unit {0}) × View
set_ex k s seconds v =
    if is_time seconds then (ok tt, put k (lasting s seconds) v) else (err failed, v)

abbrev pub refreshed : ℕ → Option Entry → Option Entry
refreshed seconds none = none
refreshed seconds (some e) = if seconds == 0 then none else some (record e { ttl = some seconds })

-- EXPIRE deletes the key if the time is 0, and refuses one that is too large.
abbrev pub expire : String → ℕ → View → Reply (Unit {0}) × View
expire k seconds v =
    if leb seconds max_time then (ok tt, put k (refreshed seconds (v k)) v) else (err failed, v)

abbrev pub del : String → View → Reply (Unit {0}) × View
del k v = (ok tt, put k none v)

unfoldable pub with_member : String → List String → List String
unfolding contains
with_member s ss = if contains ss s then ss else ss ++ s ∷ []

abbrev pub added : String → Option Entry → Reply (Option Entry)
added s none = ok (some (record { value = members (s ∷ []); ttl = none }))
added s (some e) = elim e.value [
  | text _ ↦ err failed
  | members ss ↦ ok (some (record e { value = members (with_member s ss) }))
]

abbrev pub store_added : String → View → Reply (Option Entry) → Reply (Unit {0}) × View
store_added k v (ok e) = (ok tt, put k e v)
store_added k v (err f) = (err f, v)

abbrev pub sadd : String → String → View → Reply (Unit {0}) × View
sadd k s v = store_added k v (added s (v k))

abbrev pub size_of : Option Entry → Reply ℕ
size_of none = ok 0
size_of (some e) = elim e.value [ text _ ↦ err failed | members ss ↦ ok (length ss) ]

abbrev pub scard : String → View → Reply ℕ × View
scard k v = (size_of (v k), v)

-- What is left of an entry after some seconds.
abbrev pub aged : ℕ → Option Entry → Option Entry
aged n none = none
aged n (some e) = elim e.ttl [
  | none ↦ some e
  | some ttl ↦ if leb ttl n then none else some (record e { ttl = some (ttl - n) })
]

abbrev pub elapse : ℕ → View → View
elapse n v k = aged n (v k)
