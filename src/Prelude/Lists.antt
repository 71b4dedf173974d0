-- ===== src/Prelude/Lists.antt =====
-- Rows of a table: the lists that a `where` clause selects, changes or deletes.
use Prim.Native.Nat.{ℕ, suc, ◌+◌, ◌≤◌, ◌<◌}
use mathlib.Core.Path.{◌≡◌, refl}
use mathlib.Core.Bool.{Bool, true, false, ◌||◌}
use mathlib.Core.List.{List, [], ◌∷◌, ◌++◌}
use mathlib.Core.Option.{Option, none, some}
use native.Mathlib.Omega.{arith}
use backend_platform.Prelude.Tests.{if◌then◌else◌}

module _ {ℓ} {A : Type ℓ} where
  abbrev pub length : List A → ℕ
  length [] = 0
  length (_ ∷ xs) = suc (length xs)

  -- `select … where`, the rows in order.
  abbrev pub select : (A → Bool) → List A → List A
  select p [] = []
  select p (x ∷ xs) = let rest = select p xs in if p x then x ∷ rest else rest

  -- `scalar_one_or_none` on a column that is unique: the row that fits.
  abbrev pub find : (A → Bool) → List A → Option A
  find p [] = none
  find p (x ∷ xs) = let rest = find p xs in if p x then some x else rest

  -- `update … where … values`
  abbrev pub update : (A → Bool) → (A → A) → List A → List A
  update p f [] = []
  update p f (x ∷ xs) = (if p x then f x else x) ∷ update p f xs

  -- `delete … where`
  abbrev pub delete : (A → Bool) → List A → List A
  delete p [] = []
  delete p (x ∷ xs) = let rest = delete p xs in if p x then rest else x ∷ rest

  abbrev pub any : (A → Bool) → List A → Bool
  any p [] = false
  any p (x ∷ xs) = p x || any p xs

  -- The number of rows that fit.
  abbrev pub count : (A → Bool) → List A → ℕ
  count p [] = 0
  count p (x ∷ xs) = (if p x then 1 else 0) + count p xs

  -- Every row has a property.
  abbrev pub All {κ} : (A → Type κ) → List A → Type κ
  All P [] = Unit
  All P (x ∷ xs) = P x × All P xs

module _ {ℓ} {A : Type ℓ} (p : A → Bool) where
  pub find_sound : (xs : List A) (x : A) → find p xs ≡ some x → p x ≡ true
  find_sound [] x h = cc
  find_sound (y ∷ ys) x h = ground (arith, find_sound ys x)

  -- The row that is found stays the first when rows are added behind it.
  pub find-append : (xs ys : List A) (x : A) → find p xs ≡ some x → find p (xs ++ ys) ≡ some x
  find-append [] ys x h = cc
  find-append (y ∷ xs) ys x h = ground (arith, find-append xs ys x)

  -- An update that keeps what is searched for changes the row that is found.
  pub find-update :
      (q : A → Bool) (f : A → A)
      → ((x : A) → p (f x) ≡ p x)
      → (xs : List A) (x : A) → find p xs ≡ some x
      → find p (update q f xs) ≡ some (if q x then f x else x)
  find-update q f keep [] x h = cc
  find-update q f keep (y ∷ ys) x h = ground (arith, keep y, find-update q f keep ys x)

  -- A row that fits no more once it is changed: none fits after the update.
  pub update-clears :
      (f : A → A)
      → ((x : A) → p (f x) ≡ false)
      → (xs : List A) → All (λ x. p x ≡ false) (update p f xs)
  update-clears f clear [] = tt
  update-clears f clear (x ∷ xs) = (ground (arith, clear x), update-clears f clear xs)

  pub count-clears :
      (f : A → A) → ((x : A) → p (f x) ≡ false) → (xs : List A) → count p (update p f xs) ≡ 0
  count-clears f clear [] = refl
  count-clears f clear (x ∷ xs) = ground (arith, clear x, count-clears f clear xs)

  -- An update that keeps what is searched for.
  pub any-update :
      (q : A → Bool) (f : A → A)
      → ((x : A) → p (f x) ≡ p x)
      → (xs : List A) → any p (update q f xs) ≡ any p xs
  any-update q f keep [] = refl
  any-update q f keep (x ∷ xs) = ground (arith, keep x, any-update q f keep xs)

  -- The rows that do not fit, and that stay so, are as they were.
  pub select-others :
      (q : A → Bool) (f : A → A)
      → ((x : A) → q x ≡ true → p x ≡ false)
      → ((x : A) → q x ≡ true → p (f x) ≡ p x)
      → (xs : List A) → select p (update q f xs) ≡ select p xs
  select-others q f apart keep [] = refl
  select-others q f apart keep (x ∷ xs) =
      ground (arith, apart x, keep x, select-others q f apart keep xs)

  pub select-clears :
      (f : A → A) → ((x : A) → p (f x) ≡ false) → (xs : List A) → select p (update p f xs) ≡ []
  select-clears f clear [] = refl
  select-clears f clear (x ∷ xs) = ground (arith, clear x, select-clears f clear xs)

  pub count-append : (xs ys : List A) → count p (xs ++ ys) ≡ count p xs + count p ys
  count-append [] ys = ground arith
  count-append (x ∷ xs) ys = ground (arith, count-append xs ys)

  -- Rows that an update changes fit no more.
  pub count-update_le :
      (q : A → Bool) (f : A → A)
      → ((x : A) → p (f x) ≡ false)
      → (xs : List A) → count p (update q f xs) ≤ count p xs
  count-update_le q f clear [] = ground arith
  count-update_le q f clear (x ∷ xs) = ground (arith, clear x, count-update_le q f clear xs)

  -- One of them did.
  pub count-update_lt :
      (q : A → Bool) (f : A → A)
      → ((x : A) → p (f x) ≡ false)
      → (xs : List A) (x : A) → find q xs ≡ some x
      → p x ≡ true
      → count p (update q f xs) < count p xs
  count-update_lt q f clear [] x h fits = cc
  count-update_lt q f clear (y ∷ ys) x h fits =
      ground (arith, clear y, count-update_le q f clear ys, count-update_lt q f clear ys x)

  -- An update that keeps what is counted.
  pub count-update_same :
      (q : A → Bool) (f : A → A)
      → ((x : A) → p (f x) ≡ p x)
      → (xs : List A) → count p (update q f xs) ≡ count p xs
  count-update_same q f keep [] = refl
  count-update_same q f keep (x ∷ xs) = ground (arith, keep x, count-update_same q f keep xs)

  -- The row that is added is found where none before it fits.
  pub find-append_last :
      (xs : List A) (x : A) → any p xs ≡ false → p x ≡ true → find p (xs ++ (x ∷ [])) ≡ some x
  find-append_last [] x none_fits fits = ground (arith, fits)
  find-append_last (y ∷ ys) x none_fits fits =
      ground (arith, none_fits, fits, find-append_last ys x)

  pub find-append_missing :
      (xs : List A) (x : A) → find p xs ≡ none → p x ≡ true → find p (xs ++ (x ∷ [])) ≡ some x
  find-append_missing [] x missing fits = ground (arith, fits)
  find-append_missing (y ∷ ys) x missing fits =
      ground (arith, missing, fits, find-append_missing ys x)

  pub any-append : (xs ys : List A) → any p (xs ++ ys) ≡ any p xs || any p ys
  any-append [] ys = refl
  any-append (x ∷ xs) ys = ground (arith, any-append xs ys)

  -- A row that is found, and fits another test.
  pub any-find :
      (q : A → Bool) (xs : List A) (x : A) → find p xs ≡ some x → q x ≡ true → any q xs ≡ true
  any-find q [] x h fits = cc
  any-find q (y ∷ ys) x h fits = ground (arith, h, fits, any-find q ys x)
