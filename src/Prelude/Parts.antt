-- ===== src/Prelude/Parts.antt =====
-- Stripping twice, and splitting what was joined.
use mathlib.Core.Path.{◌≡◌, refl, ◌∙◌, ap}
use mathlib.Core.Bool.{Bool, true, false}
use mathlib.Core.Logic.{inl, inr}
use mathlib.Core.List.{List, [], ◌∷◌, ◌++◌, map}
use native.Mathlib.Omega.{arith}
use Prim.Native.Nat.{ℕ}
use backend_platform.Prelude.Tests.{Bool-cases}
use backend_platform.Prelude.Lists.{All, select, any}
use backend_platform.Prelude.Text.{Text, is_space, lstrip, rstrip, strip}
use backend_platform.Prelude.Split.{glue, split_on, is_full}

module _ (p : ℕ → Bool) where
  lstrip_idem : (s : Text) → lstrip p (lstrip p s) ≡ lstrip p s
  lstrip_idem [] = refl
  lstrip_idem (c ∷ s) = ground (arith, lstrip_idem s)

  rstrip_idem : (s : Text) → rstrip p (rstrip p s) ≡ rstrip p s
  rstrip_idem [] = refl
  rstrip_idem (c ∷ s) = ground (arith, rstrip_idem s)

  rstrip-lstrip : (s : Text) → rstrip p (lstrip p s) ≡ lstrip p (rstrip p s)
  rstrip-lstrip [] = refl
  rstrip-lstrip (c ∷ s) = ground (arith, rstrip-lstrip s)

  module _ (q : ℕ → Bool) where
    any-lstrip : (s : Text) → any q s ≡ false → any q (lstrip p s) ≡ false
    any-lstrip [] h = refl
    any-lstrip (c ∷ s) h = ground (arith, any-lstrip s)

    any-rstrip : (s : Text) → any q s ≡ false → any q (rstrip p s) ≡ false
    any-rstrip [] h = refl
    any-rstrip (c ∷ s) h = ground (arith, any-rstrip s)

  any-glue :
      (c : ℕ) (parts : List Text)
      → p c ≡ false
      → All (λ part. any p part ≡ false) parts
      → All (λ part. any p part ≡ false) (glue c parts)
  any-glue c [] h k = ground (arith, h)
  any-glue c (part ∷ parts) h k = (ground (arith, h, k.0), k.1)

  pub any-split_on : (s : Text) → All (λ part. any p part ≡ false) (split_on p s)
  any-split_on [] = (refl, tt)
  any-split_on (c ∷ s) = elim (Bool-cases (p c)) [
    | inl ends ↦ rw ends (refl, any-split_on s)
    | inr inside ↦ rw inside (any-glue c (split_on p s) inside (any-split_on s))
  ]

  pub split_on-whole : (s : Text) → any p s ≡ false → split_on p s ≡ s ∷ []
  split_on-whole [] h = refl
  split_on-whole (c ∷ s) h = ground (arith, split_on-whole s)

  pub split_on-append :
      (s t : Text) (c : ℕ)
      → any p s ≡ false
      → p c ≡ true
      → split_on p (s ++ (c ∷ t)) ≡ s ∷ split_on p t
  split_on-append [] t c h k = ground (arith, k)
  split_on-append (d ∷ s) t c h k = ground (arith, split_on-append s t c)

pub strip_idem : (s : Text) → strip (strip s) ≡ strip s
strip_idem s =
    ap (lstrip is_space)
      (rstrip-lstrip is_space (rstrip is_space s) ∙ ap (lstrip is_space) (rstrip_idem is_space s))
    ∙ lstrip_idem is_space (rstrip is_space s)

-- The parts of a list that is written in one text: stripped, not blank, and without the separator.
pub record IsPart (p : ℕ → Bool) (part : Text) : Type 0 where
  pub whole : any p part ≡ false
  pub stripped : strip part ≡ part
  pub full : is_full part ≡ true

abbrev pub clean : List Text → List Text
clean parts = map strip (select (λ part. is_full (strip part)) parts)

pub clean-IsPart :
    (p : ℕ → Bool) (parts : List Text)
    → All (λ part. any p part ≡ false) parts
    → All (IsPart p) (clean parts)
clean-IsPart p [] h = tt
clean-IsPart p (part ∷ parts) h = elim (Bool-cases (is_full (strip part))) [
  | inr blank ↦ rw blank (clean-IsPart p parts h.1)
  | inl kept ↦ rw kept (
    record {
      whole = any-lstrip is_space p (rstrip is_space part) (any-rstrip is_space p part h.0);
      stripped = strip_idem part;
      full = kept;
    },
    clean-IsPart p parts h.1,
  )
]

pub clean-parts : (p : ℕ → Bool) (parts : List Text) → All (IsPart p) parts → clean parts ≡ parts
clean-parts p [] h = refl
clean-parts p (part ∷ parts) (a, h) =
    rw (a.stripped, a.full, a.stripped) (ap (λ r. part ∷ r) (clean-parts p parts h))
