-- ===== src/Redis/Glob.antt =====
-- The patterns of the command KEYS: `*` stands for any text, `?` for any character, and other characters
-- for themselves. Classes in brackets and escapes are left out.
use Prim.Native.Char.{Char, code}
use Prim.Native.String.{String, [], ◌∷◌}
use text.Mathlib.TextEquality.{Char-path}
use ckb_discovery.Prelude.{
  ◌≡◌, refl, sym, ap, ◌∙◌, Bool, true, false, not, ◌&&◌, ◌||◌, ◌==◌, ==_iff, if◌then◌else◌, arith,
  Bool-cases, inl, inr,
}
use ckb_discovery.Prelude.Texts.{◌++◌}

abbrev is_star : Char → Bool
is_star c = code c == b'*'

abbrev is_any : Char → Bool
is_any c = code c == b'?'

-- A character that stands for itself.
abbrev pub is_plain : Char → Bool
is_plain c =
    not (is_star c)
    && not (is_any c)
    && not (code c == b'[')
    && not (code c == b']')
    && not (code c == b'\\')

abbrev pub all_chars : (Char → Bool) → String → Bool
all_chars test [] = true
all_chars test (c ∷ s) = test c && all_chars test s

abbrev pub Plain : String → Type 0
Plain s = all_chars is_plain s ≡ true

-- The patterns that are modelled.
abbrev is_simple : Char → Bool
is_simple c = not (code c == b'[') && not (code c == b'\\')

abbrev pub Simple : String → Type 0
Simple s = all_chars is_simple s ≡ true

Plain-cons : (c : Char) (s : String) → Plain (c ∷ s) → (is_plain c ≡ true) × Plain s
Plain-cons c s h = ground arith

pub Plain-Simple : (s : String) → Plain s → Simple s
Plain-Simple [] h = refl
Plain-Simple (c ∷ s) h = ground (arith, Plain-Simple s (Plain-cons c s h).1)

-- The rest of the pattern fits somewhere behind.
anywhere : (String → Bool) → String → Bool
anywhere rest [] = rest []
anywhere rest (c ∷ t) = rest (c ∷ t) || anywhere rest t

next : Char → (String → Bool) → String → Bool
next p rest [] = false
next p rest (c ∷ t) = (is_any p || (code p == code c)) && rest t

unfoldable pub glob : String → String → Bool
unfolding anywhere next
glob [] [] = true
glob [] (_ ∷ _) = false
glob (p ∷ ps) t = let rest = glob ps in if is_star p then anywhere rest t else next p rest t

anywhere-append :
    (rest : String → Bool) (t q : String) → rest q ≡ true → anywhere rest (t ++ q) ≡ true
unfolding anywhere
anywhere-append rest [] [] h = h
anywhere-append rest [] (c ∷ q) h = rw h
anywhere-append rest (c ∷ t) q h = ground (arith, anywhere-append rest t q h)

code_refl : (c : Char) → (code c == code c) ≡ true
code_refl c = ground arith

pub glob_refl : (p : String) → glob p p ≡ true
unfolding glob next
glob_refl [] = refl
glob_refl (c ∷ p) = elim (Bool-cases (is_star c)) [
  | inl e ↦ rw e (anywhere-append (glob p) (c ∷ []) p (glob_refl p))
  | inr e ↦ rw e (rw (glob_refl p) (rw (code_refl c) (ground arith)))
]

anywhere_sound :
    (rest : String → Bool) (k : String)
    → anywhere rest k ≡ true
    → (t : String) × (u : String) × (k ≡ t ++ u) × (rest u ≡ true)
unfolding anywhere
anywhere_sound rest [] h = ([], [], refl, h)
anywhere_sound rest (c ∷ k) h = elim (Bool-cases (rest (c ∷ k))) [
  | inl e ↦ ([], c ∷ k, refl, e)
  | inr e ↦
      let (t, u, f, g) = anywhere_sound rest k (ground arith) in
      (c ∷ t, u, ap (λ (s : String). c ∷ s) f, g)
]

module _ (c : Char) (p : String) (h : is_plain c ≡ true) where
  glob-plain : (d : Char) (k : String) → glob (c ∷ p) (d ∷ k) ≡ ((code c == code d) && glob p k)
  unfolding glob next
  glob-plain d k = ground arith

  glob-plain-nil : glob (c ∷ p) [] ≡ false
  unfolding glob next
  glob-plain-nil = ground arith

cons_path : {c d : Char} {s t : String} → (code d == code c) ≡ true → s ≡ t → c ∷ s ≡ d ∷ t
cons_path {c} {d} {s} {t} h e = rw (e, Char-path c d (sym ((==_iff (code d) (code c)).0 h))) refl

-- A pattern without special characters fits only the text that it is.
pub glob-Plain : (p k : String) → Plain p → glob p k ≡ true → k ≡ p
unfolding glob
glob-Plain [] [] h g = refl
glob-Plain [] (_ ∷ _) h g = cc
glob-Plain (c ∷ p) [] h g = cc (g, glob-plain-nil c p (Plain-cons c p h).0)
glob-Plain (c ∷ p) (d ∷ k) h g =
    cons_path (ground (arith, glob-plain c p (Plain-cons c p h).0 d k)) (
      glob-Plain p k (Plain-cons c p h).1 (ground (arith, glob-plain c p (Plain-cons c p h).0 d k)))

module _ (q : String) (plain : Plain q) where
  -- A pattern with one star between plain texts fits exactly the texts with these two ends.
  pub glob-star :
      (p k : String)
      → Plain p
      → glob (p ++ ("*" ++ q)) k ≡ true
      → (t : String) × (k ≡ p ++ (t ++ q))
  glob-star [] k h g =
      let (t, u, e, f) = anywhere_sound (glob q) k (unfold glob in g) in
      (t, e ∙ ap (λ (x : String). t ++ x) (glob-Plain q u plain f))
  glob-star (c ∷ p) [] h g =
      absurd (cc (g, glob-plain-nil c (p ++ ("*" ++ q)) (Plain-cons c p h).0))
  glob-star (c ∷ p) (d ∷ k) h g =
      let (t, e) =
        glob-star p k (Plain-cons c p h).1
          (ground (arith, glob-plain c (p ++ ("*" ++ q)) (Plain-cons c p h).0 d k)) in
      (t, cons_path (ground (arith, glob-plain c (p ++ ("*" ++ q)) (Plain-cons c p h).0 d k)) e)

pub glob-star-append : (p t q : String) → Plain p → glob (p ++ ("*" ++ q)) (p ++ (t ++ q)) ≡ true
glob-star-append [] t q h = unfold glob in anywhere-append (glob q) t q (glob_refl q)
glob-star-append (c ∷ p) t q h =
    rw (glob-plain c (p ++ ("*" ++ q)) (Plain-cons c p h).0)
      (rw (code_refl c, glob-star-append p t q (Plain-cons c p h).1) refl)
