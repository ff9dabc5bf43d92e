-- ===== src/Marci/Witnesses.antt =====
-- marci/src/main.rs: what the sets hold after the arms added to them, and what a tick then publishes.
use ckb_discovery.Prelude.{
  ℕ, map, eq_iff, Option-cases, String, ◌≡◌, refl, true, false, ◌||◌, Option, none, some, List, [],
  ◌∷◌, ◌++◌, arith, str_eq, contains, is_some, Elem, Bool-cases, inl, inr,
}
use ckb_discovery.Types.{EndpointInfo}
use ckb_discovery.Redis.Reference.{Entry, Value, text, members, with_member}
use ckb_discovery.Redis.Scan.{is_member, is_text}
use ckb_discovery.Marci.Exec.{Texts}
use ckb_discovery.Marci.Typed.{Fits, Shape, plain_set}
use ckb_discovery.Marci.Announced.{grown, grown_all, grown_lem}
use ckb_discovery.Marci.Broadcast.{valid_endpoints}

pub contains-append :
    (ss : List String) (s t : String) → contains (ss ++ s ∷ []) t ≡ (contains ss t || str_eq s t)
unfolding contains
contains-append [] s t = ground arith
contains-append (x ∷ ss) s t = ground (arith, contains-append ss s t)

pub contains-with_member :
    (s : String) (ss : List String) (t : String)
    → contains (with_member s ss) t ≡ (str_eq s t || contains ss t)
unfolding with_member
contains-with_member s ss t = elim (Bool-cases (contains ss s)) [
  | inl old ↦ rw old (ground (arith, eq_iff s t, old))
  | inr other ↦ rw other (ground (arith, contains-append ss s t))
]

grown_value :
    (s : String) (v : Value) (ttl : Option ℕ) (t : String)
    → Shape plain_set v ttl
    → is_member (grown s (some (record { value = v; ttl = ttl }))) t
      ≡ (str_eq s t || is_member (some (record { value = v; ttl = ttl })) t)
grown_value s (members ss) ttl t h = contains-with_member s ss t
grown_value s (text _) ttl t h = absurd h

-- SADD adds the member and keeps the others.
pub is_member-grown :
    (s : String) (old : Option Entry) (t : String)
    → Fits plain_set old
    → is_member (grown s old) t ≡ (str_eq s t || is_member old t)
unfolding contains
is_member-grown s none t fits = refl
is_member-grown s (some e) t fits = grown_value s e.value e.ttl t fits

-- What holds a member is not missing, and is no text.
pub is_member-Set :
    (e : Option Entry) (m : String)
    → is_member e m ≡ true
    → (is_some e ≡ true) × (is_text e ≡ false)
is_member-Set none m h = cc
is_member-Set (some e) m h = (refl, ground arith)

module _ (t : Texts) where
  -- The addresses of a report are among those that are stored.
  pub is_member-grown_all :
      (addrs : List EndpointInfo) (old : Option Entry) (m : String)
      → Fits plain_set old
      → is_member (grown_all t addrs old) m
        ≡ (contains (map t.endpoint_json addrs) m || is_member old m)
  unfolding contains
  is_member-grown_all [] old m fits = refl
  is_member-grown_all (addr ∷ addrs) old m fits =
      rw
        (is_member-grown_all addrs (grown (t.endpoint_json addr) old) m
          (grown_lem (t.endpoint_json addr) old fits).1)
        (rw (is_member-grown (t.endpoint_json addr) old m fits) (ground arith))

  pub Elem-valid_endpoints :
      (read : String → Option EndpointInfo) (e : EndpointInfo) (ss : List String)
      → read (t.endpoint_json e) ≡ some e
      → Elem (t.endpoint_json e) ss
      → Elem e (valid_endpoints read ss)
  unfolding valid_endpoints
  Elem-valid_endpoints read e [] h m = absurd m
  Elem-valid_endpoints read e (s ∷ ss) h (inl same) = rw (same, h) (inl refl)
  Elem-valid_endpoints read e (s ∷ ss) h (inr m) = elim (Option-cases (read s)) [
    | inl f ↦ rw f (Elem-valid_endpoints read e ss h m)
    | inr (d, f) ↦ rw f (inr (Elem-valid_endpoints read e ss h m))
  ]
