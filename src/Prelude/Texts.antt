-- ===== src/Prelude/Texts.antt =====
-- Texts by their characters: `format!` by concatenation, and splitting at dots.
use Prim.Native.Nat.{ℕ, zero, suc, ◌-◌}
use Prim.Native.Char.{Char, code}
use Prim.Native.String.{String, [], ◌∷◌}
use mathlib.Core.Path.{◌≡◌, refl, ap}
use mathlib.Core.Logic.{◌≢◌, inl, inr}
use mathlib.Core.Bool.{Bool, true, false, ◌&&◌}
use mathlib.Core.Option.{Option, none, some}
use mathlib.Core.List
use mathlib.Core.List.{List, reverse, reverse-append}
use native.Mathlib.Omega.{arith}
use text.Mathlib.Text.{◌==◌ as str_eq}
use text.Mathlib.TextEquality.{eq_iff}
use package.ckb_discovery.Prelude.Tests.{◌==◌, leb, if◌then◌else◌, Bool-cases}

infixr 65 ◌++◌
abbrev pub ◌++◌ : String → String → String
[] ++ t = t
(c ∷ s) ++ t = c ∷ (s ++ t)

pub append_assoc : (s t u : String) → (s ++ t) ++ u ≡ s ++ (t ++ u)
append_assoc [] t u = refl
append_assoc (c ∷ s) t u = ap (λ (r : String). c ∷ r) (append_assoc s t u)

pub append_nil : (s : String) → s ++ "" ≡ s
append_nil [] = refl
append_nil (c ∷ s) = ap (λ (r : String). c ∷ r) (append_nil s)

nth : ℕ → String → Char → Char
nth i [] d = d
nth zero (c ∷ s) d = c
nth (suc i) (c ∷ s) d = nth i s d

-- `str::to_lowercase` on ASCII letters; other characters stay as they are.
unfoldable pub to_lowercase : String → String
unfolding nth
to_lowercase [] = []
to_lowercase (c ∷ s) =
    (if leb b'A' (code c) && leb (code c) b'Z'
      then nth (code c - b'A') "abcdefghijklmnopqrstuvwxyz" c
      else c)
    ∷ to_lowercase s

pub str_eq_of_ne : (s t : String) → s ≢ t → str_eq s t ≡ false
str_eq_of_ne s t h = ground (arith, eq_iff s t)

abbrev pub is_dot : Char → Bool
is_dot c = code c == b'.'

abbrev pub NoDot : String → Type 0
NoDot [] = Unit
NoDot (c ∷ s) = (is_dot c ≡ false) × NoDot s

-- A character goes in front of the first segment.
abbrev into_first : Char → List String → List String
into_first c (List.[]) = List.◌∷◌ (c ∷ []) List.[]
into_first c (List.◌∷◌ s ss) = List.◌∷◌ (c ∷ s) ss

-- `str::split('.')`
pub split : String → List String
split [] = List.◌∷◌ "" List.[]
split (c ∷ s) = let rest = split s in if is_dot c then List.◌∷◌ "" rest else into_first c rest

-- `str::rsplit('.')`, collected.
unfoldable pub rsplit : String → List String
unfolding split
rsplit s = reverse (split s)

abbrev cut_later : Char → String → Option (String × String) → Option (String × String)
cut_later c s (some (p, q)) = some (c ∷ p, q)
cut_later c s none = if is_dot c then some ("", s) else none

-- `str::rsplit_once('.')`: the text before the last dot and the text behind it.
unfoldable pub rsplit_once : String → Option (String × String)
rsplit_once [] = none
rsplit_once (c ∷ s) = cut_later c s (rsplit_once s)

rsplit_once-NoDot : (s : String) → NoDot s → rsplit_once s ≡ none
unfolding rsplit_once
rsplit_once-NoDot [] h = refl
rsplit_once-NoDot (c ∷ s) h = rw (rsplit_once-NoDot s h.1) (rw h.0)

pub rsplit_once-append : (p s : String) → NoDot s → rsplit_once (p ++ ("." ++ s)) ≡ some (p, s)
unfolding rsplit_once
rsplit_once-append [] s h = rw (rsplit_once-NoDot s h)
rsplit_once-append (c ∷ p) s h = rw (rsplit_once-append p s h)

split-NoDot : (s : String) → NoDot s → split s ≡ List.◌∷◌ s List.[]
unfolding split
split-NoDot [] h = refl
split-NoDot (c ∷ s) h = rw (split-NoDot s h.1) (rw h.0)

into_first-append :
    (c : Char) (b a : List String)
    → a ≢ List.[]
    → into_first c (List.◌++◌ a b) ≡ List.◌++◌ (into_first c a) b
into_first-append c b (List.[]) h = absurd (h refl)
into_first-append c b (List.◌∷◌ x a) h = refl

split-ne-nil : (s : String) → split s ≢ List.[]
unfolding split
split-ne-nil [] h = cc
split-ne-nil (c ∷ s) h = ground arith

split-append : (p s : String) → split (p ++ ("." ++ s)) ≡ List.◌++◌ (split p) (split s)
unfolding split
split-append [] s = refl
split-append (c ∷ p) s = elim (Bool-cases (is_dot c)) [
  | inl e ↦ rw (split-append p s) (rw e)
  | inr e ↦ rw (split-append p s) (rw e (into_first-append c (split s) (split p) (split-ne-nil p)))
]

pub rsplit-append :
    (p s t : String)
    → NoDot s
    → NoDot t
    → rsplit (p ++ ("." ++ (s ++ ("." ++ t)))) ≡ List.◌∷◌ t (List.◌∷◌ s (reverse (split p)))
unfolding rsplit
rsplit-append p s t hs ht = rw (split-append p (s ++ ("." ++ t))) (
    rw (split-append s t) (
      rw (split-NoDot s hs)
        (rw (split-NoDot t ht) (reverse-append (split p) (List.◌∷◌ s (List.◌∷◌ t List.[]))))))

-- A list with a second element.
abbrev pub has_two : List String → Bool
has_two (List.◌∷◌ _ (List.◌∷◌ _ _)) = true
has_two _ = false

has_two-append :
    (l : List String) (a b : String)
    → has_two (List.◌++◌ l (List.◌∷◌ a (List.◌∷◌ b List.[]))) ≡ true
has_two-append (List.[]) a b = refl
has_two-append (List.◌∷◌ c (List.[])) a b = refl
has_two-append (List.◌∷◌ c (List.◌∷◌ d l)) a b = refl

has_two-reverse : (l : List String) → has_two l ≡ true → has_two (reverse l) ≡ true
has_two-reverse (List.[]) h = cc h
has_two-reverse (List.◌∷◌ a (List.[])) h = cc h
has_two-reverse (List.◌∷◌ a (List.◌∷◌ b l)) h =
    rw (reverse-append (List.◌∷◌ a (List.◌∷◌ b List.[])) l) (has_two-append (reverse l) b a)

has_two-join : (l m : List String) → l ≢ List.[] → m ≢ List.[] → has_two (List.◌++◌ l m) ≡ true
has_two-join (List.[]) m h k = absurd (h refl)
has_two-join (List.◌∷◌ a l) (List.[]) h k = absurd (k refl)
has_two-join (List.◌∷◌ a (List.[])) (List.◌∷◌ b m) h k = refl
has_two-join (List.◌∷◌ a (List.◌∷◌ c l)) (List.◌∷◌ b m) h k = refl

pub has_two-rsplit : (p s : String) → has_two (rsplit (p ++ ("." ++ s))) ≡ true
unfolding rsplit
has_two-rsplit p s =
    rw (split-append p s)
      (has_two-reverse _ (has_two-join (split p) (split s) (split-ne-nil p) (split-ne-nil s)))
