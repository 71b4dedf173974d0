-- ===== src/Prelude/Text.antt =====
-- Text as the list of its code points, with the string methods that the services use. The case
-- mappings and `strip` are those of ASCII.
use Prim.Native.Char.{code}
use Prim.Native.String.{String}
use Prim.Native.Nat.{ℕ, ◌+◌, ◌-◌}
use mathlib.Core.Path.{◌≡◌, refl, ap₂}
use mathlib.Core.Logic.{◌↔◌, ◌⊎◌, inl, inr}
use mathlib.Core.Bool.{Bool, true, false, ◌&&◌, ◌||◌}
use mathlib.Core.List.{List, [], ◌∷◌, map}
use mathlib.Core.Option.{Option, none, some}
use native.Mathlib.Omega.{arith}
use backend_platform.Prelude.Tests.{leb, ◌==◌, if◌then◌else◌, Bool-cases}

abbrev pub Text : Type 0
Text = List ℕ

-- The text of a literal.
abbrev pub codes : String → Text
codes String.[] = []
codes (String.◌∷◌ c s) = code c ∷ codes s

abbrev pub text_eq : Text → Text → Bool
text_eq [] [] = true
text_eq (a ∷ s) (b ∷ t) = (a == b) && text_eq s t
text_eq _ _ = false

pub text_eq_iff : (s t : Text) → (text_eq s t ≡ true) ↔ (s ≡ t)
text_eq_iff [] [] = ground arith
text_eq_iff [] (b ∷ t) = ground arith
text_eq_iff (a ∷ s) [] = ground arith
text_eq_iff (a ∷ s) (b ∷ t) = ground (arith, text_eq_iff s t)

pub text_eq_refl : (s : Text) → text_eq s s ≡ true
text_eq_refl s = (text_eq_iff s s).1 refl

-- `key in {…}` on a set of texts.
abbrev pub member : Text → List Text → Bool
member s [] = false
member s (t ∷ ts) = text_eq s t || member s ts

abbrev pub is_empty : Text → Bool
is_empty [] = true
is_empty (_ ∷ _) = false

-- `s.startswith(p)`
abbrev pub starts_with : Text → Text → Bool
starts_with s [] = true
starts_with [] (_ ∷ _) = false
starts_with (a ∷ s) (b ∷ p) = (a == b) && starts_with s p

-- `s.removeprefix(p)`
abbrev pub drop_prefix : Text → Text → Option Text
drop_prefix s [] = some s
drop_prefix [] (_ ∷ _) = none
drop_prefix (a ∷ s) (b ∷ p) = if a == b then drop_prefix s p else none

abbrev pub lower_char : ℕ → ℕ
lower_char c = if leb 65 c && leb c 90 then c + 32 else c

abbrev pub upper_char : ℕ → ℕ
upper_char c = if leb 97 c && leb c 122 then c - 32 else c

-- `s.lower()`
abbrev pub lower : Text → Text
lower = map lower_char

-- `s.upper()`
abbrev pub upper : Text → Text
upper = map upper_char

-- ASCII white space: tab, line feed, vertical tab, form feed, return, the separators and space.
abbrev pub is_space : ℕ → Bool
is_space c = leb 9 c && leb c 13 || leb 28 c && leb c 32

abbrev pub lstrip : (ℕ → Bool) → Text → Text
lstrip p [] = []
lstrip p (c ∷ s) = let rest = lstrip p s in if p c then rest else c ∷ s

-- Drops the trailing characters that fit: a character stays if it does not fit or if one behind it
-- stays.
abbrev pub rstrip : (ℕ → Bool) → Text → Text
rstrip p [] = []
rstrip p (c ∷ s) = let rest = rstrip p s in if p c && is_empty rest then [] else c ∷ rest

-- `s.strip()`
abbrev pub strip : Text → Text
strip s = lstrip is_space (rstrip is_space s)

-- `s.split(sep, maxsplit=1)[0]`
abbrev pub before : ℕ → Text → Text
before sep [] = []
before sep (c ∷ s) = let rest = before sep s in if c == sep then [] else c ∷ rest

pub lower_char_idem : (c : ℕ) → lower_char (lower_char c) ≡ lower_char c
lower_char_idem c = ground arith

pub lower_idem : (s : Text) → lower (lower s) ≡ lower s
lower_idem [] = refl
lower_idem (c ∷ s) = ap₂ (λ a r. a ∷ r) (lower_char_idem c) (lower_idem s)

pub upper_char_idem : (c : ℕ) → upper_char (upper_char c) ≡ upper_char c
upper_char_idem c = ground arith

pub upper_idem : (s : Text) → upper (upper s) ≡ upper s
upper_idem [] = refl
upper_idem (c ∷ s) = ap₂ (λ a r. a ∷ r) (upper_char_idem c) (upper_idem s)

-- The text is one of the list's.
abbrev pub Among : Text → List Text → Type 0
Among s [] = ⊥
Among s (t ∷ ts) = (s ≡ t) ⊎ Among s ts

pub member_iff : (s : Text) (ts : List Text) → (member s ts ≡ true) ↔ Among s ts
member_iff s [] = ground arith
member_iff s (t ∷ ts) = ground (arith, text_eq_iff s t, member_iff s ts)

pub member-false_iff : (s : Text) (ts : List Text) → (member s ts ≡ false) ↔ (¬ Among s ts)
member-false_iff s ts = (
  λ h a. cc (h, (member_iff s ts).1 a),
  λ n. elim (Bool-cases (member s ts)) [
    | inl yes' ↦ absurd (n ((member_iff s ts).0 yes'))
    | inr no' ↦ no'
  ],
)
