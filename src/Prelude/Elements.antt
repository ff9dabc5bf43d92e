-- ===== src/Prelude/Elements.antt =====
-- The elements of a list.
use Prim.Native.String.{String}
use mathlib.Core.Path.{◌≡◌, ap, subst}
use mathlib.Core.Logic.{◌⊎◌, inl, inr}
use mathlib.Core.Bool.{true}
use mathlib.Core.List.{List, [], ◌∷◌, map}
use native.Mathlib.Omega.{arith}
use text.Mathlib.Text.{◌==◌ as str_eq}
use text.Mathlib.TextEquality.{eq_iff}
use package.ckb_discovery.Prelude.Tests.{Bool-cases}
use package.ckb_discovery.Prelude.Lists.{contains, All}

abbrev pub Elem : {A : Type 0} → A → List A → Type 0
Elem a [] = ⊥
Elem a (x ∷ xs) = (x ≡ a) ⊎ Elem a xs

pub Elem-map : {A B : Type 0} (f : A → B) (a : A) (xs : List A) → Elem a xs → Elem (f a) (map f xs)
Elem-map f a [] h = absurd h
Elem-map f a (x ∷ xs) (inl e) = inl (ap f e)
Elem-map f a (x ∷ xs) (inr h) = inr (Elem-map f a xs h)

pub contains-Elem : (s : String) (ss : List String) → contains ss s ≡ true → Elem s ss
unfolding contains
contains-Elem s [] h = cc
contains-Elem s (t ∷ ts) h = elim (Bool-cases (str_eq t s)) [
  | inl same ↦ inl ((eq_iff t s).0 same)
  | inr other ↦ inr (contains-Elem s ts (ground arith))
]

pub Elem-contains : (s : String) (ss : List String) → Elem s ss → contains ss s ≡ true
unfolding contains
Elem-contains s [] h = absurd h
Elem-contains s (t ∷ ts) (inl e) = ground (arith, eq_iff t s)
Elem-contains s (t ∷ ts) (inr h) = ground (arith, Elem-contains s ts h)

pub All-Elem {κ} : {A : Type 0} (P : A → Type κ) (a : A) (xs : List A) → All P xs → Elem a xs → P a
All-Elem P a [] h m = absurd m
All-Elem P a (x ∷ xs) h (inl e) = subst P e h.0
All-Elem P a (x ∷ xs) h (inr m) = All-Elem P a xs h.1 m
