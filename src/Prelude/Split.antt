-- ===== src/Prelude/Split.antt =====
-- Splitting a text into parts, as `str.split` does, and what stripping leaves of it.
use mathlib.Core.Path.{◌≡◌, refl, ◌∙◌, ap}
use mathlib.Core.Bool.{Bool, false, not, ◌||◌}
use mathlib.Core.List.{List, [], ◌∷◌, ◌++◌}
use native.Mathlib.Omega.{arith}
use Prim.Native.Nat.{ℕ}
use backend_platform.Prelude.Tests.{if◌then◌else◌, ◌==◌}
use backend_platform.Prelude.Lists.{select, any}
use backend_platform.Prelude.Text.{Text, is_empty, is_space, lstrip, rstrip, strip, starts_with}

-- A character at the front of the first part.
abbrev pub glue : ℕ → List Text → List Text
glue c [] = (c ∷ []) ∷ []
glue c (part ∷ parts) = (c ∷ part) ∷ parts

-- The parts between the characters that fit.
abbrev pub split_on : (ℕ → Bool) → Text → List Text
split_on p [] = [] ∷ []
split_on p (c ∷ s) = let rest = split_on p s in if p c then [] ∷ rest else glue c rest

-- `"".join(parts)`
abbrev pub concat : List Text → Text
concat [] = []
concat (part ∷ parts) = part ++ concat parts

abbrev pub is_full : Text → Bool
is_full s = not (is_empty s)

-- `s.split()`
abbrev pub words : Text → List Text
words s = select is_full (split_on is_space s)

-- `s.split(sep)`
abbrev pub split : ℕ → Text → List Text
split sep s = split_on (λ c. c == sep) s

-- `needle in s`
abbrev pub contains : Text → Text → Bool
contains needle [] = is_empty needle
contains needle (c ∷ s) = starts_with (c ∷ s) needle || contains needle s

abbrev pub non_space : ℕ → Bool
non_space c = not (is_space c)

concat-glue : (c : ℕ) (parts : List Text) → concat (glue c parts) ≡ c ∷ concat parts
concat-glue c [] = refl
concat-glue c (part ∷ parts) = refl

concat-split_on : (p : ℕ → Bool) (s : Text) → concat (split_on p s) ≡ select (λ c. not (p c)) s
concat-split_on p [] = refl
concat-split_on p (c ∷ s) = ground (arith, concat-split_on p s, concat-glue c (split_on p s))

concat-full : (parts : List Text) → concat (select is_full parts) ≡ concat parts
concat-full [] = refl
concat-full ([] ∷ parts) = concat-full parts
concat-full ((c ∷ s) ∷ parts) = ap (λ t. (c ∷ s) ++ t) (concat-full parts)

-- Joining the words of a text drops its white space.
pub concat-words : (s : Text) → concat (words s) ≡ select non_space s
concat-words s = concat-full (split_on is_space s) ∙ concat-split_on is_space s

module _ (p : ℕ → Bool) where
  select-lstrip : (s : Text) → select (λ c. not (p c)) (lstrip p s) ≡ select (λ c. not (p c)) s
  select-lstrip [] = refl
  select-lstrip (c ∷ s) = ground (arith, select-lstrip s)

  select-rstrip : (s : Text) → select (λ c. not (p c)) (rstrip p s) ≡ select (λ c. not (p c)) s
  select-rstrip [] = refl
  select-rstrip (c ∷ s) = ground (arith, select-rstrip s)

  -- What is left of a stripped text is empty where nothing else was in it.
  is_empty-lstrip : (s : Text) → is_empty (lstrip p s) ≡ not (any (λ c. not (p c)) s)
  is_empty-lstrip [] = refl
  is_empty-lstrip (c ∷ s) = ground (arith, is_empty-lstrip s)

  any-lstrip : (s : Text) → any (λ c. not (p c)) (lstrip p s) ≡ any (λ c. not (p c)) s
  any-lstrip [] = refl
  any-lstrip (c ∷ s) = ground (arith, any-lstrip s)

  any-rstrip : (s : Text) → any (λ c. not (p c)) (rstrip p s) ≡ any (λ c. not (p c)) s
  any-rstrip [] = refl
  any-rstrip (c ∷ s) = ground (arith, any-rstrip s)

  is_empty-select : (s : Text) → is_empty (select (λ c. not (p c)) s) ≡ not (any (λ c. not (p c)) s)
  is_empty-select [] = refl
  is_empty-select (c ∷ s) = ground (arith, is_empty-select s)

  any-select : (s : Text) → any p (select (λ c. not (p c)) s) ≡ false
  any-select [] = refl
  any-select (c ∷ s) = ground (arith, any-select s)

  select_idem :
      (s : Text) → select (λ c. not (p c)) (select (λ c. not (p c)) s) ≡ select (λ c. not (p c)) s
  select_idem [] = refl
  select_idem (c ∷ s) = ground (arith, select_idem s)

pub select-strip : (s : Text) → select non_space (strip s) ≡ select non_space s
select-strip s = select-lstrip is_space (rstrip is_space s) ∙ select-rstrip is_space s

pub is_empty-strip : (s : Text) → is_empty (strip s) ≡ not (any non_space s)
is_empty-strip s = is_empty-lstrip is_space (rstrip is_space s) ∙ ap not (any-rstrip is_space s)

pub any-strip : (s : Text) → any non_space (strip s) ≡ any non_space s
any-strip s = any-lstrip is_space (rstrip is_space s) ∙ any-rstrip is_space s

pub any_space-select : (s : Text) → any is_space (select non_space s) ≡ false
any_space-select = any-select is_space

pub any-non_space-select : (s : Text) → any non_space (select non_space s) ≡ any non_space s
any-non_space-select [] = refl
any-non_space-select (c ∷ s) = ground (arith, any-non_space-select s)

pub select-non_space_idem : (s : Text) → select non_space (select non_space s) ≡ select non_space s
select-non_space_idem = select_idem is_space

pub is_empty-select-non_space : (s : Text) → is_empty (select non_space s) ≡ not (any non_space s)
is_empty-select-non_space = is_empty-select is_space
